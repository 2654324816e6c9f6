-- ===== src/JobStore/Invariant.antt =====
-- Every sequence of calls keeps the jobs table consistent.
use ytdlbot.Prelude.{ℕ, refl, none, List}
use ytdlbot.JobStore.Schema.{Db, checkpointed, completed, failed, state_eq}
use ytdlbot.JobStore.Transitions.{checkpoint, complete, fail}
use ytdlbot.JobStore.Deliveries.{begin_retry_token}
use ytdlbot.JobStore.Call.{Call}
use ytdlbot.JobStore.Steps.{step, run, run_induction}
use ytdlbot.JobStore.Consistency.{IsConsistent}
use ytdlbot.JobStore.Frames.{
  jobs-record_delivery, jobs-begin_delivery_attempts, jobs-finalize_delivery_attempt,
  jobs-write_probe, jobs-acquire_worker, jobs-renew_worker, jobs-release_worker,
}
use ytdlbot.JobStore.Keeps.{
  accept_update-IsConsistent, supersede_failed_job-IsConsistent,
  claim_recoverable_jobs-IsConsistent, renew_claim-IsConsistent, transition-IsConsistent,
  requeue_failed_deliveries-IsConsistent, purge_expired_payloads-IsConsistent,
}

pub step-IsConsistent :
    (retention : ℕ) (db : Db) (call : Call)
    → IsConsistent db.jobs
    → IsConsistent (step retention db call).jobs
unfolding step checkpoint complete fail state_eq begin_retry_token
step-IsConsistent retention db (Call.accept_update payload now) h =
    accept_update-IsConsistent db payload retention now h
step-IsConsistent retention db (Call.supersede_failed_job job successor owner now) h =
    supersede_failed_job-IsConsistent db job successor owner now h
step-IsConsistent retention db (Call.claim_recoverable_jobs owner limit lease now) h =
    claim_recoverable_jobs-IsConsistent db owner limit lease now h
step-IsConsistent retention db (Call.renew_claim job owner lease now) h =
    renew_claim-IsConsistent db job owner lease now h
step-IsConsistent retention db (Call.checkpoint job fields owner now) h =
    transition-IsConsistent db job checkpointed fields none now owner refl h
step-IsConsistent retention db (Call.complete job owner now) h =
    transition-IsConsistent db job completed none none now owner refl h
step-IsConsistent retention db (Call.fail job error owner now) h =
    transition-IsConsistent db job failed none _ now owner refl h
step-IsConsistent retention db (Call.requeue_failed_deliveries limit now) h =
    requeue_failed_deliveries-IsConsistent db limit now h
step-IsConsistent retention db (Call.purge_expired_payloads limit now) h =
    purge_expired_payloads-IsConsistent db limit now h
step-IsConsistent retention db (Call.begin_retry_token token now) h = h
step-IsConsistent retention db (Call.record_delivery job item outcome delivery now) h =
    rw (jobs-record_delivery db job item outcome delivery now) h
step-IsConsistent retention db (Call.begin_delivery_attempts job items owner now) h =
    rw (jobs-begin_delivery_attempts db job items owner now) h
step-IsConsistent retention db (Call.finalize_delivery_attempt job item outcome owner delivery now)
      h =
    rw (jobs-finalize_delivery_attempt db job item outcome owner delivery now) h
step-IsConsistent retention db (Call.write_probe now) h = rw (jobs-write_probe db now) h
step-IsConsistent retention db (Call.acquire_worker owner lease now) h =
    rw (jobs-acquire_worker db owner lease now) h
step-IsConsistent retention db (Call.renew_worker owner lease now) h =
    rw (jobs-renew_worker db owner lease now) h
step-IsConsistent retention db (Call.release_worker owner) h = rw (jobs-release_worker db owner) h

-- From a consistent jobs table, every sequence of store calls leads to a consistent one: the keys
-- stay unique and derived from the update identifiers, and exactly the running rows have an owner
-- and a claim.
pub run-IsConsistent :
    (retention : ℕ) (db : Db) (calls : List Call)
    → IsConsistent db.jobs
    → IsConsistent (run retention db calls).jobs
run-IsConsistent retention =
    run_induction (λ db. IsConsistent db.jobs) retention (step-IsConsistent retention)
