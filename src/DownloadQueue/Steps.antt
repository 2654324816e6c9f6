-- ===== src/DownloadQueue/Steps.antt =====
-- The queue's life as a sequence of atomic steps, in any order that the event loop chooses.
use ytdlbot.Prelude.{ℕ, Bool, true, none, some, List, [], ◌∷◌}
use ytdlbot.DownloadQueue.State.{
  Queue, Phase, lease_of, withdraw_by, acquire, wake_by, release_by, modify,
}

pub data Step : Type 0 where
  -- `_acquire` of a new lease, with the value of `disk_critical`.
  enter : Bool → ℕ → Step
  -- The grant reaches the waiting task.
  wake : ℕ → Step
  -- A timeout or a cancellation of the waiting task, which withdraws its waiter.
  give_up : ℕ → Step
  -- `release` on the lease.
  release : ℕ → Step
  -- The waiter's future is cancelled from outside.
  cancel_future : ℕ → Step

-- An operation on a known lease; other identifiers name no object.
unfoldable pub on_lease : ℕ → (Phase → ℕ → Queue → Queue) → Queue → Queue
unfolding lease_of
on_lease id f q = elim (lease_of id q.leases) [ none ↦ q | some l ↦ f l.phase id q ]

-- A new lease is a new object, so its identifier is not in use.
unfoldable pub step : Queue → Step → Queue
step q (enter disk_critical id) = elim (lease_of id q.leases) [
  | none ↦ (acquire disk_critical id q).1
  | some _ ↦ q
]
step q (wake id) = on_lease id wake_by q
step q (give_up id) = on_lease id withdraw_by q
step q (release id) = on_lease id release_by q
step q (cancel_future id) = record q {
  leases = modify id (λ l. record l { future_cancelled = true }) q.leases;
}

unfoldable pub run : Queue → List Step → Queue
run q [] = q
run q (s ∷ steps) = run (step q s) steps

-- A queue over a semaphore of some capacity, before any lease.
abbrev pub start : ℕ → ℕ → Queue
start capacity max_queue = record {
  free = capacity;
  max_queue = max_queue;
  waiters = [];
  leases = [];
}
