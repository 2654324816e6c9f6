-- ===== src/DownloadQueue/State.antt =====
-- The queue's objects, and the operations that its lock makes atomic (app/core/download_queue.py).
use ytdlbot.Prelude.{
  ℕ, ◌+◌, ◌-◌, Bool, true, false, not, ◌&&◌, Option, none, some, List, [], ◌∷◌, ◌++◌, ltb, leb,
  ◌==◌, if◌then◌else◌, length, find,
}
use ytdlbot.Sql.{update_where}

-- How far a lease has come: its waiter is waiting, granted or cancelled; the lease is acquired or
-- released.
pub data Phase : Type 0 where
  waiting granted cancelled acquired released : Phase

-- A `DownloadLease` that has entered the queue, with its `_Waiter`.
pub record Lease : Type 0 where
  pub id : ℕ
  pub phase : Phase
  pub future_cancelled : Bool
  pub position : ℕ

-- `free` is the value of the semaphore, `waiters` the identifiers of `_waiters`.
pub record Queue : Type 0 where
  pub free : ℕ
  pub max_queue : ℕ
  pub waiters : List ℕ
  pub leases : List Lease

unfoldable pub lease_of : ℕ → List Lease → Option Lease
lease_of id leases = find (λ l. l.id == id) leases

-- A write to one object.
abbrev pub modify : ℕ → (Lease → Lease) → List Lease → List Lease
modify id f leases = update_where (λ l. l.id == id) f leases

abbrev pub set_phase : Phase → Lease → Lease
set_phase phase l = record l { phase = phase }

abbrev pub is_waiting : Phase → Bool
is_waiting waiting = true
is_waiting _ = false

-- `_reposition_locked` without its notifications: `enumerate(self._waiters, start=1)`.
unfoldable pub reposition : ℕ → List ℕ → List Lease → List Lease
reposition index [] leases = leases
reposition index (w ∷ ws) leases =
    reposition (index + 1) ws (modify w (λ l. record l { position = index }) leases)

-- `waiter.state == "waiting" and not waiter.future.cancelled()`
abbrev pub is_live : Lease → Bool
is_live l = is_waiting l.phase && not l.future_cancelled

unfoldable pub may_grant : ℕ → List Lease → Bool
unfolding lease_of
may_grant w leases = elim (lease_of w leases) [ none ↦ false | some l ↦ is_live l ]

-- `_handoff_locked`, on the list that its loop pops.
unfoldable pub handoff : List ℕ → Queue → Queue
unfolding may_grant
handoff [] q = record q { free = q.free + 1; waiters = [] }
handoff (w ∷ ws) q =
    let rest = handoff ws (record q { leases = modify w (set_phase cancelled) q.leases }) in
    if may_grant w q.leases
    then record q { waiters = ws; leases = reposition 1 ws (modify w (set_phase granted) q.leases) }
    else rest

unfoldable pub handoff_locked : Queue → Queue
handoff_locked q = handoff q.waiters q

-- `list.remove`, which takes out the first occurrence.
unfoldable pub remove : ℕ → List ℕ → List ℕ
remove id [] = []
remove id (w ∷ ws) = if w == id then ws else w ∷ remove id ws

-- `_withdraw`, by the state of the waiter.
unfoldable pub withdraw_by : Phase → ℕ → Queue → Queue
unfolding remove handoff_locked
withdraw_by waiting id q =
    let ws = remove id q.waiters in
    record q { waiters = ws; leases = reposition 1 ws (modify id (set_phase cancelled) q.leases) }
withdraw_by granted id q =
    handoff_locked (record q { leases = modify id (set_phase cancelled) q.leases })
withdraw_by _ id q = q

-- What `_acquire` answers before it waits.
pub data Answer : Type 0 where
  maintenance full queued slot : Answer

-- The first part of `_acquire`, under the lock: a slot, a place in the queue, or a refusal. The
-- semaphore is only taken while it is not locked, so it has no waiters of its own.
unfoldable pub acquire : Bool → ℕ → Queue → Answer × Queue
acquire disk_critical id q =
    if disk_critical
    then (maintenance, q)
    else if ltb 0 q.free
    then (
      slot,
      record q {
        free = q.free - 1;
        leases =
            record { id = id; phase = acquired; future_cancelled = false; position = 0 } ∷ q.leases;
      },
    )
    else if leb q.max_queue (length q.waiters)
    then (full, q)
    else (
      queued,
      record q {
        waiters = q.waiters ++ id ∷ [];
        leases =
            record {
              id = id;
              phase = waiting;
              future_cancelled = false;
              position = length q.waiters + 1;
            }
            ∷ q.leases;
      },
    )

-- The waiter's future is done: `_acquire` returns true and the lease is acquired.
unfoldable pub wake_by : Phase → ℕ → Queue → Queue
wake_by granted id q = record q { leases = modify id (set_phase acquired) q.leases }
wake_by _ id q = q

-- `DownloadLease.release`: only an acquired lease that was not released returns its slot.
unfoldable pub release_by : Phase → ℕ → Queue → Queue
unfolding handoff_locked
release_by acquired id q =
    handoff_locked (record q { leases = modify id (set_phase released) q.leases })
release_by _ id q = q
