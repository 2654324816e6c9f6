-- ===== src/JobStore/Steps.antt =====
-- Every call that changes the store, each at its own clock reading. BEGIN IMMEDIATE makes a call
-- atomic, so that any use of the store by any number of tasks is a sequence of calls.
use ytdlbot.Prelude.{ℕ, List, [], ◌∷◌}
use ytdlbot.JobStore.Schema.{Db, after}
use ytdlbot.JobStore.Lease.{acquire_worker, renew_worker, release_worker, write_probe}
use ytdlbot.JobStore.Inbox.{accept_update}
use ytdlbot.JobStore.Claims.{claim_recoverable_jobs, renew_claim}
use ytdlbot.JobStore.Transitions.{checkpoint, complete, fail}
use ytdlbot.JobStore.Call.{Call}
use ytdlbot.JobStore.Deliveries.{
  record_delivery, begin_delivery_attempts, finalize_delivery_attempt, begin_retry_token,
}
use ytdlbot.JobStore.Maintenance.{requeue_failed_deliveries, purge_expired_payloads}
use ytdlbot.JobStore.Retry.{supersede_failed_job}

-- The tables after a call, which are the same where it raises; `retention` is a setting of the store.
unfoldable pub step : ℕ → Db → Call → Db
step retention db (Call.write_probe now) = after db (write_probe db now)
step retention db (Call.accept_update payload now) =
    after db (accept_update db payload retention now)
step retention db (Call.supersede_failed_job job successor owner now) =
    after db (supersede_failed_job db job successor owner now)
step retention db (Call.begin_retry_token token now) = after db (begin_retry_token db token now)
step retention db (Call.acquire_worker owner lease now) =
    after db (acquire_worker db owner lease now)
step retention db (Call.renew_worker owner lease now) = after db (renew_worker db owner lease now)
step retention db (Call.release_worker owner) = after db (release_worker db owner)
step retention db (Call.claim_recoverable_jobs owner limit lease now) =
    after db (claim_recoverable_jobs db owner limit lease now)
step retention db (Call.renew_claim job owner lease now) =
    after db (renew_claim db job owner lease now)
step retention db (Call.checkpoint job fields owner now) =
    after db (checkpoint db job fields owner now)
step retention db (Call.complete job owner now) = after db (complete db job owner now)
step retention db (Call.fail job error owner now) = after db (fail db job error owner now)
step retention db (Call.record_delivery job item outcome delivery now) =
    after db (record_delivery db job item outcome delivery now)
step retention db (Call.begin_delivery_attempts job items owner now) =
    after db (begin_delivery_attempts db job items owner now)
step retention db (Call.finalize_delivery_attempt job item outcome owner delivery now) =
    after db (finalize_delivery_attempt db job item outcome owner delivery now)
step retention db (Call.requeue_failed_deliveries limit now) =
    after db (requeue_failed_deliveries db limit now)
step retention db (Call.purge_expired_payloads limit now) =
    after db (purge_expired_payloads db limit now)

unfoldable pub run : ℕ → Db → List Call → Db
run retention db [] = db
run retention db (call ∷ calls) = run retention (step retention db call) calls

-- What every call keeps, every sequence of calls keeps.
pub run_induction {ℓ} :
    (P : Db → Type ℓ) (retention : ℕ)
    → ((db : Db) (call : Call) → P db → P (step retention db call))
    → (db : Db) (calls : List Call) → P db
    → P (run retention db calls)
unfolding run
run_induction P retention keep db [] h = h
run_induction P retention keep db (call ∷ calls) h =
    run_induction P retention keep (step retention db call) calls (keep db call h)
