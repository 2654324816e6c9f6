-- ===== src/Worker/Examples.antt =====
-- The worker's theorems at a concrete store, and runs of its branches.
use ytdlbot.Prelude.{◌≡◌, ◌≢◌, refl, true, false, none, some, [], ◌∷◌}
use ytdlbot.Prelude.Decimal.{str}
use ytdlbot.Json.{end}
use ytdlbot.JobStore.Schema.{
  Db, JobRow, JobState, running, completed, checkpointed, success, failure, at, state_eq,
  is_settled, holds_lease, is_live_until, is_owned_by, is_nonempty,
}
use ytdlbot.JobStore.Inbox.{job_of_id}
use ytdlbot.JobStore.Transitions.{checkpoint, complete, fail, transition, passes_owner_guard}
use ytdlbot.JobStore.Deliveries.{
  has_key, delivery, upsert, begin_delivery_attempts, begin_delivery_attempts_sync,
  finalize_delivery_attempt, finalize_delivery_attempt_sync, owns_live_job, is_free, reserve_all,
  reserve_one, may_reserve, are_keys, has_failed_deliveries,
}
use ytdlbot.JobStore.Lease.{
  acquire_worker, release_worker, is_valid_claimant, acquire_worker_in_transaction,
}
use ytdlbot.JobStore.Call.{Call}
use ytdlbot.JobStore.Steps.{step, run}
use ytdlbot.JobStore.Terminal.{state_of}
use ytdlbot.Worker.Process.{
  returned, raised, Execution, finished, judge, judge_error, settle, process_job, at_end, checked,
}
use ytdlbot.Worker.Completion
use ytdlbot.Worker.Settles
use ytdlbot.Worker.Settles.{IsSettled}
use ytdlbot.Worker.Stale
use ytdlbot.Worker.Stale.{IsHarmless}

program : Unit {0}
unfolding str state_eq is_settled holds_lease is_live_until is_owned_by is_nonempty job_of_id
    checkpoint complete fail transition passes_owner_guard has_key delivery upsert
    begin_delivery_attempts begin_delivery_attempts_sync finalize_delivery_attempt
    finalize_delivery_attempt_sync owns_live_job is_free reserve_all reserve_one may_reserve
    are_keys has_failed_deliveries acquire_worker release_worker is_valid_claimant
    acquire_worker_in_transaction step run state_of judge judge_error settle process_job
program = tt

-- A job that worker `w1` runs until 50, under a lease until 60.
abbrev claimed : JobRow
claimed = record {
  job_id = "7";
  update_id = 7;
  payload = end;
  state = running;
  owner_id = some "w1";
  claim_expires_at = some 50;
  checkpoint = none;
  error = none;
  payload_expires_at = at 900;
  accepted_at = 1;
  updated_at = 20;
}

abbrev tables : Db
tables = record {
  jobs = claimed ∷ [];
  deliveries = [];
  worker_lease = some (record { owner_id = "w1"; expires_at = 60 });
  health_probe = some 0;
}

-- The handler sends one item.
abbrev sends : Execution
sends = record {
  admitted = true;
  during =
      Call.begin_delivery_attempts "7" ("a" ∷ []) "w1" 30
      ∷ Call.finalize_delivery_attempt "7" "a" success "w1" (some "m1") 31
      ∷ [];
  handler = returned;
  cancelling = false;
  error = none;
  meanwhile = [];
  drain_settled = true;
  current_cancelling = false;
  now = 40;
}

abbrev sends_in_vain : Execution
sends_in_vain = record sends {
  during =
      Call.begin_delivery_attempts "7" ("a" ∷ []) "w1" 30
      ∷ Call.finalize_delivery_attempt "7" "a" failure "w1" none 31
      ∷ [];
}

-- Another worker takes the lease over while the handler runs.
abbrev overtaken : Execution
overtaken = record sends {
  meanwhile = Call.release_worker "w1" ∷ Call.acquire_worker "w2" 30 35 ∷ [];
}

retried_test :
    (state_of "7" (process_job 100 "w1" claimed sends_in_vain tables).1.jobs ≡ some JobState.failed)
    × ((process_job 100 "w1" claimed sends_in_vain tables).0 ≡ finished)
unfolding program
retried_test = (refl, refl)

refused_test :
    state_of "7" (process_job 100 "w1" claimed (record sends { admitted = false }) tables).1.jobs
    ≡ some checkpointed
unfolding program
refused_test = refl

still_running : state_of "7" (at_end 100 sends tables).jobs ≢ some completed
unfolding program
still_running e = cc

process_job-completed_example :
    (sends.admitted ≡ true)
    × (sends.handler ≡ returned)
    × (sends.error ≡ none)
    × (has_failed_deliveries (checked 100 sends tables) "7" ≡ false)
    × (holds_lease (at_end 100 sends tables).worker_lease "w1" 40 ≡ true)
unfolding program
process_job-completed_example =
    Completion.process_job-completed 100 "w1" claimed sends tables still_running refl

-- The handler raises at the end.
abbrev crashes : Execution
crashes = record sends { handler = raised "boom" }

process_job-settles_example :
    IsSettled "7" crashes
      (has_failed_deliveries (checked 100 crashes tables) "7")
      (process_job 100 "w1" claimed crashes tables)
unfolding program
process_job-settles_example =
    Settles.process_job-settles 100 "w1" claimed crashes tables refl refl
      (record {
        rows = (record { keyed = refl; owned = refl; claimed = refl }, tt);
        distinct = (refl, tt);
      })
      refl

crashed_test :
    (state_of "7" (process_job 100 "w1" claimed crashes tables).1.jobs ≡ some JobState.failed)
    × ((process_job 100 "w1" claimed crashes tables).0 ≡ finished)
unfolding program
crashed_test = (refl, refl)

process_job-stale_example :
    IsHarmless overtaken
      (at_end 100 overtaken tables)
      (process_job 100 "w1" claimed overtaken tables)
unfolding program
process_job-stale_example = Stale.process_job-stale 100 "w1" claimed overtaken tables refl refl
