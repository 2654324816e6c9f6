-- ===== src/JobStore/AtMostOnce.antt =====
-- Deliveries happen at most once: a final receipt outlives every later call.
use ytdlbot.Prelude.{ℕ, ◌≡◌, String, Option, some, List}
use ytdlbot.JobStore.Schema.{Db, DeliveryOutcome}
use ytdlbot.JobStore.Call.{Call}
use ytdlbot.JobStore.Transitions.{checkpoint, complete, fail}
use ytdlbot.JobStore.Frames.{
  deliveries-write_probe, deliveries-accept_update, deliveries-supersede_failed_job,
  deliveries-acquire_worker, deliveries-renew_worker, deliveries-release_worker,
  deliveries-claim_recoverable_jobs, deliveries-renew_claim, deliveries-requeue_failed_deliveries,
  deliveries-purge_expired_payloads,
}
use ytdlbot.JobStore.Settled.{
  settled, record_delivery-settled, begin_retry_token-settled, begin_delivery_attempts-settled,
  finalize_delivery_attempt-settled,
}
use ytdlbot.JobStore.Steps.{step, run, run_induction}

step-settled :
    {x : DeliveryOutcome × Option String} (job_id item_key : String) (retention : ℕ) (db : Db)
    (call : Call)
    → settled job_id item_key db.deliveries ≡ some x
    → settled job_id item_key (step retention db call).deliveries ≡ some x
unfolding step checkpoint complete fail
step-settled j i retention db (Call.begin_retry_token token now) h =
    begin_retry_token-settled j i db h token now
step-settled j i retention db (Call.record_delivery job item outcome delivery now) h =
    record_delivery-settled j i db h job item outcome delivery now
step-settled j i retention db (Call.begin_delivery_attempts job items owner now) h =
    begin_delivery_attempts-settled j i db h job items owner now
step-settled j i retention db (Call.finalize_delivery_attempt job item outcome owner delivery now)
      h =
    finalize_delivery_attempt-settled j i db h job item outcome owner delivery now
step-settled j i retention db (Call.write_probe now) h = rw (deliveries-write_probe db now) h
step-settled j i retention db (Call.accept_update payload now) h =
    rw (deliveries-accept_update db payload retention now) h
step-settled j i retention db (Call.supersede_failed_job job successor owner now) h =
    rw (deliveries-supersede_failed_job db job successor owner now) h
step-settled j i retention db (Call.acquire_worker owner lease now) h =
    rw (deliveries-acquire_worker db owner lease now) h
step-settled j i retention db (Call.renew_worker owner lease now) h =
    rw (deliveries-renew_worker db owner lease now) h
step-settled j i retention db (Call.release_worker owner) h =
    rw (deliveries-release_worker db owner) h
step-settled j i retention db (Call.claim_recoverable_jobs owner limit lease now) h =
    rw (deliveries-claim_recoverable_jobs db owner limit lease now) h
step-settled j i retention db (Call.renew_claim job owner lease now) h =
    rw (deliveries-renew_claim db job owner lease now) h
step-settled j i retention db (Call.checkpoint job fields owner now) h = h
step-settled j i retention db (Call.complete job owner now) h = h
step-settled j i retention db (Call.fail job error owner now) h = h
step-settled j i retention db (Call.requeue_failed_deliveries limit now) h =
    rw (deliveries-requeue_failed_deliveries db limit now) h
step-settled j i retention db (Call.purge_expired_payloads limit now) h =
    rw (deliveries-purge_expired_payloads db limit now) h

-- Once an item's receipt is finalized as sent or uncertain, no sequence of store calls, by any
-- owner and at any clock readings, changes its outcome or its delivery identifier.
pub run-settled :
    {x : DeliveryOutcome × Option String} (job_id item_key : String) (retention : ℕ) (db : Db)
    (calls : List Call)
    → settled job_id item_key db.deliveries ≡ some x
    → settled job_id item_key (run retention db calls).deliveries ≡ some x
run-settled {x} j i retention =
    run_induction (λ db. settled j i db.deliveries ≡ some x) retention (step-settled j i retention)
