-- ===== src/JobStore/Keeps.antt =====
-- The operations that write the jobs table keep it consistent.
use ytdlbot.Prelude.{
  ℕ, zero, suc, ◌+◌, ◌≡◌, sym, refl, Bool, true, false, String, Option, some, List, [], ◌∷◌, ◌&&◌,
  arith, str_eq, any, Option-cases, Bool-cases, inl, inr,
}
use ytdlbot.Json.{Fields, text, put}
use ytdlbot.JobStore.Schema.{
  Db, JobRow, JobState, accepted, running, checkpointed, failed, state_eq, after, holds_lease,
}
use ytdlbot.JobStore.Inbox.{
  accept_update, accept_update_sync, minimal_update_payload, accept_minimal, insert_or_ignore,
  new_job, clashes, job_of_id,
}
use ytdlbot.JobStore.Claims.{
  claim_recoverable_jobs, renew_claim, claim_row, is_among, is_claim_of, renew_row,
}
use ytdlbot.JobStore.Transitions.{transition, leave, may_leave}
use ytdlbot.JobStore.Maintenance.{
  requeue_failed_deliveries, purge_expired_payloads, requeue_row, purge_row, purge_rows,
  purgeable_rows, requeued_ids,
}
use ytdlbot.JobStore.Retry.{
  by_state, round, done, follow_chain, supersede_failed_job, chain_fuel, retire, retire_row,
  checkpoint_of,
}
use ytdlbot.JobStore.Frames.{claimed_ids, jobs-claim_recoverable_jobs}
use ytdlbot.JobStore.Consistency.{
  IsRow, IsConsistent, IsConsistent-update_where, IsConsistent-append,
}

insert_or_ignore-IsConsistent :
    (new : JobRow) (jobs : List JobRow)
    → IsRow new
    → IsConsistent jobs
    → IsConsistent (insert_or_ignore new jobs).1
unfolding insert_or_ignore
insert_or_ignore-IsConsistent new jobs r h = elim (Bool-cases (any (clashes new) jobs)) [
  | inl clash ↦ rw clash h
  | inr free ↦ rw free (IsConsistent-append jobs new r free h)
]

accept_minimal-IsConsistent :
    (db : Db) (update_id : ℕ) (payload : Fields) (retention now : ℕ)
    → IsConsistent db.jobs
    → IsConsistent (after db (accept_minimal db update_id payload retention now)).jobs
unfolding accept_minimal state_eq
accept_minimal-IsConsistent db update_id payload retention now h = ground (
  arith,
  insert_or_ignore-IsConsistent (new_job update_id payload retention now) db.jobs
      (record { keyed = refl; owned = refl; claimed = refl }) h,
)

pub accept_update-IsConsistent :
    (db : Db) (payload : Fields) (retention now : ℕ)
    → IsConsistent db.jobs
    → IsConsistent (after db (accept_update db payload retention now)).jobs
unfolding accept_update accept_update_sync
accept_update-IsConsistent db payload retention now h =
    elim (Option-cases (minimal_update_payload payload)) [
      | inl bad ↦ rw (bad, after) h
      | inr ((update_id, minimal), good) ↦
          rw (good, after)
            (ground (arith, h, accept_minimal-IsConsistent db update_id minimal retention now h))
    ]

pub claim_recoverable_jobs-IsConsistent :
    (db : Db) (owner : String) (limit lease now : ℕ)
    → IsConsistent db.jobs
    → IsConsistent (after db (claim_recoverable_jobs db owner limit lease now)).jobs
unfolding state_eq
claim_recoverable_jobs-IsConsistent db owner limit lease now h =
    rw (jobs-claim_recoverable_jobs db owner limit lease now) (
      IsConsistent-update_where (λ r. is_among (claimed_ids db owner limit lease now) r.job_id)
        (claim_row owner (now + lease) now) (λ r. (refl, refl))
        (λ r _ k. record { keyed = k.keyed; owned = refl; claimed = refl }) db.jobs h)

pub renew_claim-IsConsistent :
    (db : Db) (job owner : String) (lease now : ℕ)
    → IsConsistent db.jobs
    → IsConsistent (after db (renew_claim db job owner lease now)).jobs
unfolding renew_claim
renew_claim-IsConsistent db job owner lease now h = ground (
  arith,
  IsConsistent-update_where
      (λ r. is_claim_of job owner now r && holds_lease db.worker_lease owner now)
      (renew_row (now + lease) now) (λ r. (refl, refl))
      (λ r p k. record { keyed = k.keyed; owned = k.owned; claimed = renewed r p }) db.jobs h,
)
  where
    renewed :
        (r : JobRow)
        → (is_claim_of job owner now r && holds_lease db.worker_lease owner now) ≡ true
        → true ≡ state_eq r.state running
    renewed r p = ground arith

pub transition-IsConsistent :
    (db : Db) (job : String) (state : JobState) (fields : Option Fields) (error : Option String)
    (now : ℕ) (owner : Option String)
    → state_eq state running ≡ false
    → IsConsistent db.jobs
    → IsConsistent (after db (transition db job state fields error now owner)).jobs
unfolding transition
transition-IsConsistent db job state fields error now owner idle h =
    IsConsistent-update_where (may_leave job owner db.worker_lease now)
      (leave state fields error now) (λ r. (refl, refl))
      (λ r _ k. record { keyed = k.keyed; owned = sym idle; claimed = sym idle }) db.jobs h

pub requeue_failed_deliveries-IsConsistent :
    (db : Db) (limit now : ℕ)
    → IsConsistent db.jobs
    → IsConsistent (after db (requeue_failed_deliveries db limit now)).jobs
unfolding requeue_failed_deliveries state_eq
requeue_failed_deliveries-IsConsistent db limit now h = ground (
  arith,
  IsConsistent-update_where
      (λ r. is_among (requeued_ids db limit) r.job_id && state_eq r.state failed) (requeue_row now)
      (λ r. (refl, refl))
      (λ r p k. record { keyed = k.keyed; owned = idle r p k.owned; claimed = idle r p k.claimed })
      db.jobs h,
)
  where
    idle :
        (r : JobRow) {b : Bool}
        → (is_among (requeued_ids db limit) r.job_id && state_eq r.state failed) ≡ true
        → b ≡ state_eq r.state running
        → b ≡ state_eq checkpointed running
    idle r p e = ground arith

purge_rows-IsConsistent :
    (rows jobs : List JobRow) → IsConsistent jobs → IsConsistent (purge_rows rows jobs)
unfolding purge_rows
purge_rows-IsConsistent [] jobs h = h
purge_rows-IsConsistent (row ∷ rows) jobs h = purge_rows-IsConsistent rows _ (
    IsConsistent-update_where (λ r. str_eq r.job_id row.job_id) (purge_row row.update_id)
      (λ r. (refl, refl))
      (λ r _ k. record { keyed = k.keyed; owned = k.owned; claimed = k.claimed }) jobs h)

pub purge_expired_payloads-IsConsistent :
    (db : Db) (limit now : ℕ)
    → IsConsistent db.jobs
    → IsConsistent (after db (purge_expired_payloads db limit now)).jobs
unfolding purge_expired_payloads
purge_expired_payloads-IsConsistent db limit now h =
    ground (arith, purge_rows-IsConsistent (purgeable_rows db limit now) db.jobs h)

retire-IsConsistent :
    (db : Db) (job : String) (row : JobRow) (successor : String) (now : ℕ)
    → IsConsistent db.jobs
    → IsConsistent (retire db job row successor now).jobs
unfolding retire state_eq
retire-IsConsistent db job row successor now h =
    IsConsistent-update_where (λ r. str_eq r.job_id job)
      (retire_row (put "superseded_by" (text successor) (checkpoint_of row)) now)
      (λ r. (refl, refl)) (λ r _ k. record { keyed = k.keyed; owned = refl; claimed = refl })
      db.jobs h

by_state-IsConsistent :
    (state : JobState) (db : Db) (job : String) (row : JobRow) (successor : String) (now : ℕ)
    {answer : Bool} {db' : Db}
    → by_state state db job row successor now ≡ done answer db'
    → IsConsistent db.jobs
    → IsConsistent db'.jobs
unfolding by_state
by_state-IsConsistent accepted db job row successor now e h = ground arith
by_state-IsConsistent running db job row successor now e h = ground arith
by_state-IsConsistent _ db job row successor now e h =
    ground (arith, retire-IsConsistent db job row successor now h)

round-IsConsistent :
    (db : Db) (job : String) (visited : List String) (successor : String) (now : ℕ) {answer : Bool}
    {db' : Db}
    → round db job visited successor now ≡ done answer db'
    → IsConsistent db.jobs
    → IsConsistent db'.jobs
unfolding round
round-IsConsistent db job visited successor now {answer} {db'} e h =
    elim (Option-cases (job_of_id job db.jobs)) [
      | inl missing ↦ ground arith
      | inr (row, found) ↦ ground (
        arith,
        by_state-IsConsistent row.state db job row successor now {answer = answer} {db' = db'},
      )
    ]

follow_chain-IsConsistent :
    (fuel : ℕ) (db : Db) (job : String) (visited : List String) (successor : String) (now : ℕ)
    {answer : Bool} {db' : Db}
    → follow_chain fuel db job visited successor now ≡ some (answer, db')
    → IsConsistent db.jobs
    → IsConsistent db'.jobs
unfolding follow_chain
follow_chain-IsConsistent zero db job visited successor now e h = cc
follow_chain-IsConsistent (suc fuel) db job visited successor now e h =
    grind (arith, round-IsConsistent, follow_chain-IsConsistent fuel db)

pub supersede_failed_job-IsConsistent :
    (db : Db) (job successor owner : String) (now : ℕ)
    → IsConsistent db.jobs
    → IsConsistent (after db (supersede_failed_job db job successor owner now)).jobs
unfolding supersede_failed_job
supersede_failed_job-IsConsistent db job successor owner now h =
    elim (Option-cases (follow_chain (chain_fuel db) db job [] successor now)) [
      | inl e ↦ ground arith
      | inr ((answer, db'), e) ↦
          ground (arith, follow_chain-IsConsistent (chain_fuel db) db job [] successor now e h)
    ]
