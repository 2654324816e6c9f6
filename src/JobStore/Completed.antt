-- ===== src/JobStore/Completed.antt =====
-- A completed job stays completed under every sequence of calls.
use ytdlbot.Prelude.{
  ℕ, zero, suc, ◌≡◌, refl, Bool, String, none, some, List, [], arith, Option-cases, inl, inr,
  str_eq,
}
use ytdlbot.Json.{put, text}
use ytdlbot.JobStore.Schema.{
  Db, JobRow, JobState, accepted, running, checkpointed, completed, failed, after,
}
use ytdlbot.JobStore.Inbox.{job_of_id}
use ytdlbot.JobStore.Transitions.{checkpoint, complete, fail}
use ytdlbot.JobStore.Deliveries.{begin_retry_token}
use ytdlbot.JobStore.Retry.{
  by_state, round, done, follow_chain, supersede_failed_job, chain_fuel, retire, retire_row,
  checkpoint_of,
}
use ytdlbot.JobStore.Call.{Call}
use ytdlbot.JobStore.Steps.{step, run, run_induction}
use ytdlbot.JobStore.Consistency.{IsConsistent}
use ytdlbot.JobStore.Invariant.{step-IsConsistent}
use ytdlbot.JobStore.Frames.{
  jobs-record_delivery, jobs-begin_delivery_attempts, jobs-finalize_delivery_attempt,
  jobs-write_probe, jobs-acquire_worker, jobs-renew_worker, jobs-release_worker,
}
use ytdlbot.JobStore.Terminal.{
  state_of, completed-update_where, completed-accept_update, completed-transition,
  completed-renew_claim, completed-requeue_failed_deliveries, completed-purge_expired_payloads,
  completed-claim_recoverable_jobs,
}

module _ (id : String) where
  completed-retire :
      (db : Db) (job : String) (row : JobRow) (successor : String) (now : ℕ)
      → state_of id db.jobs ≡ some completed
      → state_of id (retire db job row successor now).jobs ≡ some completed
  unfolding retire
  completed-retire db job row successor now h =
      completed-update_where id (λ r. str_eq r.job_id job)
        (retire_row (put "superseded_by" (text successor) (checkpoint_of row)) now) (λ _. refl)
        (λ r _ p c. refl) db.jobs h

  completed-by_state :
      (state : JobState) (db : Db) (job : String) (row : JobRow) (successor : String) (now : ℕ)
      {answer : Bool} {db' : Db}
      → by_state state db job row successor now ≡ done answer db'
      → state_of id db.jobs ≡ some completed
      → state_of id db'.jobs ≡ some completed
  unfolding by_state
  completed-by_state accepted db job row successor now e h = ground arith
  completed-by_state running db job row successor now e h = ground arith
  completed-by_state _ db job row successor now e h =
      ground (arith, completed-retire db job row successor now h)

  completed-round :
      (db : Db) (job : String) (visited : List String) (successor : String) (now : ℕ)
      {answer : Bool} {db' : Db}
      → round db job visited successor now ≡ done answer db'
      → state_of id db.jobs ≡ some completed
      → state_of id db'.jobs ≡ some completed
  unfolding round
  completed-round db job visited successor now {answer} {db'} e h =
      elim (Option-cases (job_of_id job db.jobs)) [
        | inl missing ↦ ground arith
        | inr (row, found) ↦ ground (
          arith,
          completed-by_state row.state db job row successor now {answer = answer} {db' = db'},
        )
      ]

  completed-follow_chain :
      (fuel : ℕ) (db : Db) (job : String) (visited : List String) (successor : String) (now : ℕ)
      {answer : Bool} {db' : Db}
      → follow_chain fuel db job visited successor now ≡ some (answer, db')
      → state_of id db.jobs ≡ some completed
      → state_of id db'.jobs ≡ some completed
  unfolding follow_chain
  completed-follow_chain zero db job visited successor now e h = cc
  completed-follow_chain (suc fuel) db job visited successor now e h =
      grind (arith, completed-round, completed-follow_chain fuel db)

  completed-supersede_failed_job :
      (db : Db) (job successor owner : String) (now : ℕ)
      → state_of id db.jobs ≡ some completed
      → state_of id (after db (supersede_failed_job db job successor owner now)).jobs
        ≡ some completed
  unfolding supersede_failed_job
  completed-supersede_failed_job db job successor owner now h =
      elim (Option-cases (follow_chain (chain_fuel db) db job [] successor now)) [
        | inl e ↦ ground arith
        | inr ((answer, db'), e) ↦
            ground (arith, completed-follow_chain (chain_fuel db) db job [] successor now e h)
      ]

  completed-step :
      (retention : ℕ) (db : Db) (call : Call)
      → IsConsistent db.jobs
      → state_of id db.jobs ≡ some completed
      → state_of id (step retention db call).jobs ≡ some completed
  unfolding step checkpoint complete fail begin_retry_token
  completed-step retention db (Call.accept_update payload now) c h =
      completed-accept_update id db payload retention now h
  completed-step retention db (Call.supersede_failed_job job successor owner now) c h =
      completed-supersede_failed_job db job successor owner now h
  completed-step retention db (Call.claim_recoverable_jobs owner limit lease now) c h =
      completed-claim_recoverable_jobs id db owner limit lease now c h
  completed-step retention db (Call.renew_claim job owner lease now) c h =
      completed-renew_claim id db job owner lease now h
  completed-step retention db (Call.checkpoint job fields owner now) c h =
      completed-transition id db job checkpointed fields none now owner h
  completed-step retention db (Call.complete job owner now) c h =
      completed-transition id db job completed none none now owner h
  completed-step retention db (Call.fail job error owner now) c h =
      completed-transition id db job failed none _ now owner h
  completed-step retention db (Call.requeue_failed_deliveries limit now) c h =
      completed-requeue_failed_deliveries id db limit now h
  completed-step retention db (Call.purge_expired_payloads limit now) c h =
      completed-purge_expired_payloads id db limit now h
  completed-step retention db (Call.begin_retry_token token now) c h = h
  completed-step retention db (Call.record_delivery job item outcome delivery now) c h =
      rw (jobs-record_delivery db job item outcome delivery now) h
  completed-step retention db (Call.begin_delivery_attempts job items owner now) c h =
      rw (jobs-begin_delivery_attempts db job items owner now) h
  completed-step retention db (Call.finalize_delivery_attempt job item outcome owner delivery now) c
        h =
      rw (jobs-finalize_delivery_attempt db job item outcome owner delivery now) h
  completed-step retention db (Call.write_probe now) c h = rw (jobs-write_probe db now) h
  completed-step retention db (Call.acquire_worker owner lease now) c h =
      rw (jobs-acquire_worker db owner lease now) h
  completed-step retention db (Call.renew_worker owner lease now) c h =
      rw (jobs-renew_worker db owner lease now) h
  completed-step retention db (Call.release_worker owner) c h = rw (jobs-release_worker db owner) h

abbrev KeepsCompleted : String → Db → Type 0
KeepsCompleted id db = IsConsistent db.jobs × (state_of id db.jobs ≡ some completed)

-- In a consistent store, a job that is completed is completed after every sequence of store calls:
-- no claim, requeue, retry or late transition of any worker takes it out of that state.
pub run-completed :
    (id : String) (retention : ℕ) (db : Db) (calls : List Call)
    → IsConsistent db.jobs
    → state_of id db.jobs ≡ some completed
    → state_of id (run retention db calls).jobs ≡ some completed
run-completed id retention db calls c h =
    (run_induction (KeepsCompleted id) retention
      (λ d call k.
        (step-IsConsistent retention d call k.0, completed-step id retention d call k.0 k.1))
      db calls (c, h)).1
