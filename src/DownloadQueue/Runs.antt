-- ===== src/DownloadQueue/Runs.antt =====
-- Every sequence of steps keeps the queue sound.
use ytdlbot.Prelude.{
  ℕ, ◌+◌, ◌-◌, ◌≡◌, ◌<◌, refl, sym, ◌∙◌, Bool, true, false, none, some, List, [], ◌∷◌, arith,
  ==_iff, length, Bool-cases, Option-cases, inl, inr, ltb, leb, ◌++◌,
}
use ytdlbot.DownloadQueue.State.{
  Queue, Phase, waiting, acquired, Lease, lease_of, withdraw_by, acquire, wake_by, release_by,
}
use ytdlbot.DownloadQueue.Steps.{
  Step, enter, wake, give_up, release, cancel_future, on_lease, step, run, start,
}
use ytdlbot.DownloadQueue.Leases.{
  Distinct-modify, phase_of, phase_of-lease_of, unknown_phase, in_use-modify_other, none_absent,
}
use ytdlbot.DownloadQueue.Waiters.{
  is_listed, AllWait-modify_other, listed_waits, AllWait-new, AllWait-append, NoDuplicates-append,
  length-append_one, none_not_some,
}
use ytdlbot.DownloadQueue.Listed.{AllListed-modify_other, AllListed-slot, AllListed-append}
use ytdlbot.DownloadQueue.Handoff.{IsSound}
use ytdlbot.DownloadQueue.Safety.{release_by-IsSound, wake_by-IsSound, withdraw_by-IsSound}

module _ (capacity max_queue : ℕ) where
  on_lease-IsSound :
      (f : Phase → ℕ → Queue → Queue)
      → ((q : Queue) (id : ℕ) (old : Phase)
          → IsSound capacity max_queue q
          → phase_of id q.leases ≡ some old
          → IsSound capacity max_queue (f old id q))
      → (q : Queue) (id : ℕ) → IsSound capacity max_queue q
      → IsSound capacity max_queue (on_lease id f q)
  unfolding on_lease
  on_lease-IsSound f keep q id h = elim (Option-cases (lease_of id q.leases)) [
    | inl unknown ↦ rw (unknown, on_lease) h
    | inr (l, found) ↦
        rw (found, on_lease) (keep q id l.phase h (phase_of-lease_of id q.leases {l = l} found))
  ]

  cancel_future-IsSound :
      (q : Queue) (id : ℕ)
      → IsSound capacity max_queue q
      → IsSound capacity max_queue (step q (cancel_future id))
  unfolding step
  cancel_future-IsSound q id h =
      let f = λ (l : Lease). record l { future_cancelled = true } in
      record {
        conserved =
            omega (arith, h.conserved, in_use-modify_other f (λ l. refl) (λ l. refl) id q.leases);
        busy = h.busy;
        bounded = h.bounded;
        limit = h.limit;
        distinct = Distinct-modify id f q.leases (λ l. refl) h.distinct;
        unique = h.unique;
        wait = AllWait-modify_other f (λ l. refl) (λ l. refl) id q.waiters q.leases h.wait;
        listed = AllListed-modify_other f (λ l. refl) (λ l. refl) id q.waiters q.leases h.listed;
      }

  -- A lease that is not known is not listed.
  unknown_not_listed :
      (q : Queue) (id : ℕ)
      → IsSound capacity max_queue q
      → phase_of id q.leases ≡ none
      → is_listed id q.waiters ≡ false
  unknown_not_listed q id h e = elim (Bool-cases (is_listed id q.waiters)) [
    | inl listed ↦ absurd (none_not_some (sym e ∙ listed_waits id q.waiters q.leases h.wait listed))
    | inr free ↦ free
  ]

  slot-IsSound :
      (q : Queue) (id : ℕ)
      → IsSound capacity max_queue q
      → phase_of id q.leases ≡ none
      → 0 < q.free
      → IsSound capacity max_queue (record q {
        free = q.free - 1;
        leases =
            record { id = id; phase = acquired; future_cancelled = false; position = 0 } ∷ q.leases;
      })
  slot-IsSound q id h new free =
      let l : Lease = record {
        id = id;
        phase = acquired;
        future_cancelled = false;
        position = 0;
      } in
      record {
        conserved = omega (arith, h.conserved);
        busy = λ _. h.busy free;
        bounded = h.bounded;
        limit = h.limit;
        distinct = (none_absent id q.leases new, h.distinct);
        unique = h.unique;
        wait = AllWait-new l q.waiters q.leases new h.wait;
        listed = AllListed-slot l q.waiters q.leases refl h.listed;
      }

  queued-IsSound :
      (q : Queue) (id n : ℕ)
      → IsSound capacity max_queue q
      → phase_of id q.leases ≡ none
      → q.free ≡ 0
      → length q.waiters < q.max_queue
      → IsSound capacity max_queue (record q {
        waiters = q.waiters ++ id ∷ [];
        leases =
            record { id = id; phase = waiting; future_cancelled = false; position = n } ∷ q.leases;
      })
  unfolding phase_of
  queued-IsSound q id n h new taken room =
      let l : Lease = record { id = id; phase = waiting; future_cancelled = false; position = n } in
      record {
        conserved = omega (arith, h.conserved);
        busy = λ free. absurd (omega arith);
        bounded = omega (arith, h.limit, length-append_one id q.waiters);
        limit = h.limit;
        distinct = (none_absent id q.leases new, h.distinct);
        unique = NoDuplicates-append id q.waiters (unknown_not_listed q id h new) h.unique;
        listed = AllListed-append l q.waiters q.leases h.listed;
        wait =
            AllWait-append id q.waiters (l ∷ q.leases) (AllWait-new l q.waiters q.leases new h.wait)
              (rw ((==_iff id id).1 refl, phase_of) refl);
      }

  acquire-IsSound :
      (critical : Bool) (q : Queue) (id : ℕ)
      → IsSound capacity max_queue q
      → phase_of id q.leases ≡ none
      → IsSound capacity max_queue (acquire critical id q).1
  unfolding acquire
  acquire-IsSound true q id h new = h
  acquire-IsSound false q id h new = elim (Bool-cases (ltb 0 q.free)) [
    | inl free ↦ rw (free, acquire) (slot-IsSound q id h new (ground arith))
    | inr taken ↦ elim (Bool-cases (leb q.max_queue (length q.waiters))) [
      | inl full ↦ rw (taken, full, acquire) h
      | inr room ↦
          rw (taken, room, acquire)
            (queued-IsSound q id (length q.waiters + 1) h new (ground arith) (ground arith))
    ]
  ]

  step-IsSound :
      (q : Queue) (s : Step) → IsSound capacity max_queue q → IsSound capacity max_queue (step q s)
  unfolding step
  step-IsSound q (enter critical id) h = elim (Option-cases (lease_of id q.leases)) [
    | inl unknown ↦
        rw (unknown, step) (acquire-IsSound critical q id h (unknown_phase id q.leases unknown))
    | inr (l, found) ↦ rw (found, step) h
  ]
  step-IsSound q (wake id) h = on_lease-IsSound wake_by (wake_by-IsSound capacity max_queue) q id h
  step-IsSound q (give_up id) h =
      on_lease-IsSound withdraw_by (withdraw_by-IsSound capacity max_queue) q id h
  step-IsSound q (release id) h =
      on_lease-IsSound release_by (release_by-IsSound capacity max_queue) q id h
  step-IsSound q (cancel_future id) h = cancel_future-IsSound q id h

from_IsSound :
    (capacity max_queue : ℕ) (q : Queue) (steps : List Step)
    → IsSound capacity max_queue q
    → IsSound capacity max_queue (run q steps)
unfolding run
from_IsSound capacity max_queue q [] h = h
from_IsSound capacity max_queue q (s ∷ steps) h =
    from_IsSound capacity max_queue (step q s) steps (step-IsSound capacity max_queue q s h)

-- After any sequence of steps of a new queue, every slot of the semaphore is free or used by exactly
-- one granted or acquired lease, the listed leases are exactly those that wait, each listed once, no
-- slot is free while one of them waits, and the list of waiters keeps to its limit.
pub run-IsSound :
    (capacity max_queue : ℕ) (steps : List Step)
    → IsSound capacity max_queue (run (start capacity max_queue) steps)
unfolding phase_of
run-IsSound capacity max_queue steps =
    from_IsSound capacity max_queue (start capacity max_queue) steps (record {
      conserved = omega arith;
      busy = λ _. refl;
      bounded = omega arith;
      limit = refl;
      distinct = tt;
      unique = tt;
      wait = tt;
      listed = λ v h. absurd (none_not_some h);
    })
