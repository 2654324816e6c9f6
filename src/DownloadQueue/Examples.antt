-- ===== src/DownloadQueue/Examples.antt =====
-- The queue's theorems at concrete queues, and runs of its steps.
use ytdlbot.Prelude.{◌≡◌, refl, true, false, List, [], ◌∷◌, find}
use ytdlbot.DownloadQueue.State.{
  Queue, waiting, acquired, released, cancelled, lease_of, reposition, may_grant, handoff,
  handoff_locked, remove, withdraw_by, acquire, wake_by, release_by,
}
use ytdlbot.DownloadQueue.Steps.{
  Step, enter, wake, give_up, release, cancel_future, on_lease, step, run, start,
}
use ytdlbot.DownloadQueue.Handoff.{IsSound}
use ytdlbot.DownloadQueue.Fairness.{IsHandedTo, after_first}
use ytdlbot.DownloadQueue.Runs
use ytdlbot.DownloadQueue.Fairness

-- One slot: lease 1 has it, 2 and 3 wait, 4 is refused; 2 is cancelled from outside, so that the
-- release gives the slot to 3.
abbrev busy_morning : List Step
busy_morning =
    enter false 1
    ∷ enter false 2
    ∷ enter false 3
    ∷ enter false 4
    ∷ cancel_future 2
    ∷ release 1
    ∷ wake 3
    ∷ release 1
    ∷ []

program : Unit {0}
unfolding run step on_lease acquire lease_of wake_by release_by withdraw_by handoff_locked handoff
    may_grant remove reposition
program = tt

run_test : run (start 1 2) busy_morning ≡ record {
  free = 0;
  max_queue = 2;
  waiters = [];
  leases =
      record { id = 3; phase = acquired; future_cancelled = false; position = 2 }
      ∷ record { id = 2; phase = cancelled; future_cancelled = true; position = 1 }
      ∷ record { id = 1; phase = released; future_cancelled = false; position = 0 }
      ∷ [];
}
unfolding program
run_test = refl

timeout_test :
    (run
      (start 1 2)
      (enter false 1 ∷ enter false 2 ∷ enter true 5 ∷ give_up 2 ∷ release 1 ∷ [])).free
    ≡ 1
unfolding program
timeout_test = refl

run-IsSound_example : IsSound 1 2 (run (start 1 2) busy_morning)
run-IsSound_example = Runs.run-IsSound 1 2 busy_morning

abbrev waiting_pair : Queue
waiting_pair = record {
  free = 0;
  max_queue = 5;
  waiters = 2 ∷ 3 ∷ [];
  leases =
      record { id = 3; phase = waiting; future_cancelled = false; position = 2 }
      ∷ record { id = 2; phase = waiting; future_cancelled = true; position = 1 }
      ∷ [];
}

handoff_locked-IsHandedTo_example :
    IsHandedTo 0
      (after_first waiting_pair.leases (2 ∷ 3 ∷ []))
      (handoff_locked waiting_pair)
      (find (λ w. may_grant w waiting_pair.leases) (2 ∷ 3 ∷ []))
handoff_locked-IsHandedTo_example =
    Fairness.handoff_locked-IsHandedTo waiting_pair (refl, (refl, tt))
