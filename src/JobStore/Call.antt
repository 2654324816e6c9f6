-- ===== src/JobStore/Call.antt =====
-- The calls of the store's methods that write, with their arguments and the clock reading of each
-- (app/core/job_store.py).
use ytdlbot.Prelude.{ℕ, String, Option, List}
use ytdlbot.Json.{Fields}
use ytdlbot.JobStore.Schema.{DeliveryOutcome}

pub data Call : Type 0 where
  write_probe : ℕ → Call
  accept_update : Fields → ℕ → Call
  supersede_failed_job : String → String → String → ℕ → Call
  begin_retry_token : String → ℕ → Call
  acquire_worker : String → ℕ → ℕ → Call
  renew_worker : String → ℕ → ℕ → Call
  release_worker : String → Call
  claim_recoverable_jobs : String → ℕ → ℕ → ℕ → Call
  renew_claim : String → String → ℕ → ℕ → Call
  checkpoint : String → Option Fields → Option String → ℕ → Call
  complete : String → Option String → ℕ → Call
  fail : String → String → Option String → ℕ → Call
  record_delivery : String → String → DeliveryOutcome → Option String → ℕ → Call
  begin_delivery_attempts : String → List String → String → ℕ → Call
  finalize_delivery_attempt : String → String → DeliveryOutcome → String → Option String → ℕ → Call
  requeue_failed_deliveries : ℕ → ℕ → Call
  purge_expired_payloads : ℕ → ℕ → Call
