-- ===== src/JobStore/Examples.antt =====
-- The store's theorems at concrete tables, and runs of its operations.
use ytdlbot.Prelude.{
  ◌≡◌, eq_iff, refl, Bool, true, false, ◌&&◌, ◌⊎◌, none, some, List, [], ◌∷◌, arith, All, all,
  length, ◌≤◌,
}
use ytdlbot.Prelude.Decimal.{str}
use ytdlbot.Json.{Fields, end, field, int, text, get, put}
use ytdlbot.Sql.{insert_by, order_by}
use ytdlbot.JobStore.Schema.{
  runtime_error, Db, JobRow, DeliveryRow, running, completed, failed, success, failure, at, ok,
  after, state_eq, is_settled, holds_lease, is_live_until, is_owned_by, is_nonempty,
}
use ytdlbot.JobStore.Lease.{
  acquire_worker, renew_worker, release_worker, is_valid_claimant, acquire_worker_in_transaction,
}
use ytdlbot.JobStore.Inbox.{
  row_to_job, new_job, JobRecord, accept_update, accept_update_sync, accept_minimal,
  minimal_update_payload, job_of_update, job_of_id, insert_or_ignore,
}
use ytdlbot.JobStore.Claims.{
  claim_recoverable_jobs, claim_recoverable_jobs_sync, recoverable_ids, claim_ids, is_claimable,
  is_delivered, is_recoverable, is_expired, accepted_before, is_among, renew_claim, claim_row,
}
use ytdlbot.JobStore.Transitions.{checkpoint, complete, fail, transition, passes_owner_guard}
use ytdlbot.JobStore.Deliveries.{
  has_key, delivery, upsert, begin_delivery_attempts, finalize_delivery_attempt, record_delivery,
  owns_live_job, is_free, reserve_all, reserve_one, may_reserve, are_keys, attempt, should_deliver,
  delivery_outcome, has_unsafe_deliveries,
}
use ytdlbot.JobStore.Retry.{
  supersede_failed_job, follow_chain, round, by_state, superseded_by, retire,
}
use ytdlbot.JobStore.Settled.{settled, receipt}
use ytdlbot.JobStore.Call.{Call}
use ytdlbot.JobStore.Steps.{run}
use ytdlbot.JobStore.Consistency.{IsConsistent}
use ytdlbot.JobStore.Terminal.{state_of}
use ytdlbot.JobStore.Context.{DeliveryJobContext, begin_current_delivery}
use ytdlbot.JobStore.Context
use ytdlbot.JobStore.AtMostOnce
use ytdlbot.JobStore.Invariant
use ytdlbot.JobStore.Completed
use ytdlbot.JobStore.Exclusion
use ytdlbot.JobStore.Attempts
use ytdlbot.JobStore.Chain
use ytdlbot.JobStore.Receipts
use ytdlbot.JobStore.Dedup
use ytdlbot.JobStore.Dedup.{IsAccepted}
use ytdlbot.JobStore.ClaimRows
use ytdlbot.JobStore.ClaimRows.{IsHandedOut}

program : Unit {0}
unfolding str state_eq is_settled holds_lease is_live_until is_owned_by is_nonempty acquire_worker
    get put acquire_worker_in_transaction is_valid_claimant minimal_update_payload accept_update
    accept_update_sync accept_minimal job_of_update job_of_id insert_or_ignore
    claim_recoverable_jobs claim_recoverable_jobs_sync recoverable_ids claim_ids is_claimable
    is_delivered is_recoverable is_expired accepted_before is_among order_by insert_by transition
    complete passes_owner_guard has_key delivery upsert begin_delivery_attempts
    finalize_delivery_attempt record_delivery owns_live_job is_free reserve_all reserve_one
    may_reserve are_keys should_deliver delivery_outcome has_unsafe_deliveries supersede_failed_job
    follow_chain round by_state superseded_by retire settled receipt
program = tt

-- A job that worker `w1` runs until 50.
abbrev running_job : JobRow
running_job = record {
  job_id = "7";
  update_id = 7;
  payload = end;
  state = running;
  owner_id = some "w1";
  claim_expires_at = some 50;
  checkpoint = none;
  error = none;
  payload_expires_at = at 900;
  accepted_at = 1;
  updated_at = 20;
}

abbrev done_job : JobRow
done_job = record {
  job_id = "8";
  update_id = 8;
  payload = end;
  state = completed;
  owner_id = none;
  claim_expires_at = none;
  checkpoint = some (field "superseded_by" (text "9") end);
  error = none;
  payload_expires_at = at 900;
  accepted_at = 2;
  updated_at = 20;
}

abbrev failed_job : JobRow
failed_job = record {
  job_id = "9";
  update_id = 9;
  payload = end;
  state = failed;
  owner_id = none;
  claim_expires_at = none;
  checkpoint = none;
  error = some "timeout";
  payload_expires_at = at 900;
  accepted_at = 3;
  updated_at = 20;
}

abbrev sent : DeliveryRow
sent = record {
  job_id = "7";
  item_key = "a";
  outcome = success;
  delivery_id = some "m1";
  updated_at = 21;
  finalized = true;
  owner_id = none;
}

abbrev store : Db
store = record {
  jobs = running_job ∷ done_job ∷ failed_job ∷ [];
  deliveries = sent ∷ [];
  worker_lease = some (record { owner_id = "w1"; expires_at = 60 });
  health_probe = some 0;
}

store-IsConsistent : IsConsistent store.jobs
unfolding program
store-IsConsistent = record {
  rows = (
    record { keyed = refl; owned = refl; claimed = refl },
    (
      record { keyed = refl; owned = refl; claimed = refl },
      (record { keyed = refl; owned = refl; claimed = refl }, tt),
    ),
  );
  distinct = (refl, (refl, (refl, tt)));
}

abbrev calls : List Call
calls =
    Call.record_delivery "7" "a" failure none 30
    ∷ Call.begin_delivery_attempts "7" ("a" ∷ []) "w1" 31
    ∷ Call.complete "7" (some "w1") 32
    ∷ Call.claim_recoverable_jobs "w2" 5 10 90
    ∷ []

run-settled_example : settled "7" "a" (run 100 store calls).deliveries ≡ some (success, some "m1")
unfolding program
run-settled_example = AtMostOnce.run-settled "7" "a" 100 store calls refl

run-IsConsistent_example : IsConsistent (run 100 store calls).jobs
run-IsConsistent_example = Invariant.run-IsConsistent 100 store calls store-IsConsistent

run-completed_example : state_of "8" (run 100 store calls).jobs ≡ some completed
unfolding program state_of
run-completed_example = Completed.run-completed "8" 100 store calls store-IsConsistent refl

live_lease_excludes_example :
    (acquire_worker store "w2" 10 40 ≡ ok false store)
    × (renew_worker store "w2" 10 40 ≡ ok false store)
    × (release_worker store "w2" ≡ ok tt store)
    × (claim_recoverable_jobs store "w2" 5 10 40 ≡ ok [] store)
unfolding program
live_lease_excludes_example =
    Exclusion.live_lease_excludes store "w1" "w2" 5 10 40 refl (ground (arith, eq_iff "w1" "w2"))
      refl (omega arith)

stale_worker_writes_nothing_example :
    (checkpoint store "7" none (some "w2") 40 ≡ ok false store)
    × (complete store "7" (some "w2") 40 ≡ ok false store)
    × (fail store "7" "e" (some "w2") 40 ≡ ok false store)
    × (renew_claim store "7" "w2" 10 40 ≡ ok false store)
    × (begin_delivery_attempts store "7" ("b" ∷ []) "w2" 40 ≡ ok false store)
    × (finalize_delivery_attempt store "7" "b" success "w2" none 40 ≡ ok false store)
    × (supersede_failed_job store "7" "b" "w2" 40 ≡ ok false store)
unfolding program
stale_worker_writes_nothing_example =
    Exclusion.stale_worker_writes_nothing store "w2" 40 refl "7" "b" none "e" 10 ("b" ∷ []) success
      none refl refl refl

begin_delivery_attempts_total_example :
    let allowed =
      owns_live_job store "7" "w1" 40 && all (is_free "7" store.deliveries) ("b" ∷ []) in
    ((allowed ≡ false) × (begin_delivery_attempts store "7" ("b" ∷ []) "w1" 40 ≡ ok false store))
    ⊎ ((allowed ≡ true)
        × ((rows : List DeliveryRow) × (begin_delivery_attempts store "7" ("b" ∷ []) "w1" 40
              ≡ ok true (record store { deliveries = rows }))
            × All (λ item. delivery "7" item rows ≡ some (attempt "7" "w1" item 40)) ("b" ∷ [])))
unfolding program
begin_delivery_attempts_total_example =
    Attempts.begin_delivery_attempts_total store "7" ("b" ∷ []) "w1" 40 refl refl

abbrev working : DeliveryJobContext
working = record { job_id = "7"; owner_id = some "w1"; error = none }

begin_current_delivery_reserves_example :
    let allowed =
      owns_live_job store "7" "w1" 40 && all (is_free "7" store.deliveries) ("b" ∷ []) in
    ((allowed ≡ false)
      × (begin_current_delivery (some working) store ("b" ∷ []) 40 ≡ (store, some runtime_error)))
    ⊎ ((allowed ≡ true)
        × ((rows : List DeliveryRow) × ((begin_current_delivery (some working) store ("b" ∷ []) 40
                ≡ (record store { deliveries = rows }, none))
              × All (λ item. delivery "7" item rows ≡ some (attempt "7" "w1" item 40)) ("b" ∷ []))))
unfolding program
begin_current_delivery_reserves_example =
    Context.begin_current_delivery_reserves working "w1" store ("b" ∷ []) 40 refl refl refl

supersede_failed_job_total_example :
    (answer : Bool) × (db' : Db) × (supersede_failed_job store "8" "7" "w1" 40 ≡ ok answer db')
supersede_failed_job_total_example = Chain.supersede_failed_job_total store "8" "7" "w1" 40

-- The chain from job 8 leads to job 9, which is retired under job 7.
supersede_follows :
    state_of "9" (after store (supersede_failed_job store "8" "7" "w1" 40)).jobs ≡ some completed
unfolding program state_of
supersede_follows = refl

abbrev update_ten : Fields
update_ten = field "message" (text "hi") (field "extra" (int 1) (field "update_id" (int 10) end))

abbrev reduced_ten : Fields
reduced_ten = field "update_id" (int 10) (field "message" (text "hi") end)

reduces : minimal_update_payload update_ten ≡ some (10, reduced_ten)
unfolding program
reduces = refl

accept_update_total_example :
    (job : JobRecord) × (inserted : Bool) × (db' : Db) × (accept_update store update_ten 100 40
      ≡ ok (job, inserted) db')
    × IsAccepted store 10 reduced_ten job inserted db'
accept_update_total_example =
    Dedup.accept_update_total store update_ten 100 40 store-IsConsistent reduces (omega arith)

accept_update_twice_example :
    accept_update (after store (accept_update store update_ten 100 40)) update_ten 100 45
    ≡ ok
        (row_to_job (new_job 10 reduced_ten 100 40), false)
        (after store (accept_update store update_ten 100 40))
unfolding program
accept_update_twice_example =
    Dedup.accept_update_twice store _ update_ten update_ten 100 40 45 reduces reduces refl

-- At 90 the lease and the claim of `w1` have run out.
abbrev taken : List JobRow
taken = claim_row "w2" 100 90 running_job ∷ []

claim_recoverable_jobs-IsHandedOut_example :
    (length taken ≤ 5) × All (IsHandedOut store.deliveries "w2" 100) taken
unfolding program
claim_recoverable_jobs-IsHandedOut_example =
    ClaimRows.claim_recoverable_jobs-IsHandedOut store "w2" 5 10 90 {rows = taken}
      {db' = after store (claim_recoverable_jobs store "w2" 5 10 90)} store-IsConsistent refl

claim_recoverable_jobs-keeps_live_example :
    job_of_id "7" (after store (claim_recoverable_jobs store "w1" 5 10 40)).jobs ≡ some running_job
unfolding program
claim_recoverable_jobs-keeps_live_example =
    ClaimRows.claim_recoverable_jobs-keeps_live store "w1" "7" 5 10 40 store-IsConsistent refl refl
      refl

-- Worker `w1` has begun to deliver item `b`.
abbrev sending : Db
sending = after store (begin_delivery_attempts store "7" ("b" ∷ []) "w1" 40)

second_report_test :
    finalize_delivery_attempt
      (after sending (finalize_delivery_attempt sending "7" "b" success "w1" (some "m2") 41))
      "7"
      "b"
      failure
      "w1"
      none
      42
    ≡ ok false
        (after sending (finalize_delivery_attempt sending "7" "b" success "w1" (some "m2") 41))
unfolding program
second_report_test = refl
