-- ===== src/JobStore/Frames.antt =====
-- Which table a call leaves alone.
use ytdlbot.Prelude.{
  ℕ, zero, suc, ◌+◌, ◌≡◌, sym, ◌&&◌, ltb, refl, Bool, String, Option, some, List, [], ◌∷◌, arith,
  if◌then◌else◌, Option-cases, Bool-cases, inl, inr,
}
use ytdlbot.Sql.{update_where}
use ytdlbot.Sql.Laws.{update_where-false}
use ytdlbot.Json.{Fields}
use ytdlbot.JobStore.Schema.{Db, JobRow, JobState, accepted, running, DeliveryOutcome, after}
use ytdlbot.JobStore.Lease.{
  acquire_worker, renew_worker, release_worker, write_probe, acquire_worker_in_transaction,
  is_valid_claimant,
}
use ytdlbot.JobStore.Inbox.{accept_update, accept_update_sync, accept_minimal, job_of_id}
use ytdlbot.JobStore.Claims.{
  claim_recoverable_jobs, renew_claim, claim_recoverable_jobs_sync, claim_ids, recoverable_ids,
  is_among, claim_row,
}
use ytdlbot.JobStore.Maintenance.{requeue_failed_deliveries, purge_expired_payloads}
use ytdlbot.JobStore.Retry.{
  retire, by_state, round, done, follow_chain, supersede_failed_job, chain_fuel,
}
use ytdlbot.JobStore.Deliveries.{
  record_delivery, begin_delivery_attempts, finalize_delivery_attempt,
}

deliveries-claim_ids :
    (db : Db) (ids : List String) (owner : String) (expiry now : ℕ)
    → (claim_ids db ids owner expiry now).1.deliveries ≡ db.deliveries
unfolding claim_ids
deliveries-claim_ids db [] owner expiry now = refl
deliveries-claim_ids db (id ∷ ids) owner expiry now = refl

jobs-claim_ids :
    (db : Db) (ids : List String) (owner : String) (expiry now : ℕ)
    → (claim_ids db ids owner expiry now).1.jobs
      ≡ update_where (λ r. is_among ids r.job_id) (claim_row owner expiry now) db.jobs
unfolding claim_ids is_among
jobs-claim_ids db [] owner expiry now =
    sym (update_where-false (claim_row owner expiry now) db.jobs)
jobs-claim_ids db (id ∷ ids) owner expiry now = refl

-- The identifiers that a claim writes: none, unless the call is valid and gets the worker lease.
unfoldable pub claimed_ids : Db → String → ℕ → ℕ → ℕ → List String
claimed_ids db owner limit lease now =
    if (is_valid_claimant owner lease && ltb 0 limit)
      && (acquire_worker_in_transaction db owner lease now).0
    then recoverable_ids db limit now
    else []

pub jobs-claim_recoverable_jobs :
    (db : Db) (owner : String) (limit lease now : ℕ)
    → (after db (claim_recoverable_jobs db owner limit lease now)).jobs
      ≡ update_where
          (λ r. is_among (claimed_ids db owner limit lease now) r.job_id)
          (claim_row owner (now + lease) now)
          db.jobs
unfolding claim_recoverable_jobs claim_recoverable_jobs_sync claimed_ids is_among recoverable_ids
    acquire_worker_in_transaction
jobs-claim_recoverable_jobs db owner limit lease now =
    elim (Bool-cases (is_valid_claimant owner lease && ltb 0 limit)) [
      | inr invalid ↦ rw invalid (sym (update_where-false change db.jobs))
      | inl valid ↦
          rw valid (elim (Bool-cases (acquire_worker_in_transaction db owner lease now).0) [
            | inr refused ↦ rw refused (sym (update_where-false change db.jobs))
            | inl acquired ↦ rw acquired (
                jobs-claim_ids (acquire_worker_in_transaction db owner lease now).1
                  (recoverable_ids db limit now) owner (now + lease) now)
          ])
    ]
  where
    change : JobRow → JobRow
    change = claim_row owner (now + lease) now

module _ (db : Db) where
  pub deliveries-write_probe :
      (now : ℕ) → (after db (write_probe db now)).deliveries ≡ db.deliveries
  unfolding write_probe
  deliveries-write_probe now = ground arith

  pub deliveries-accept_update :
      (payload : Fields) (retention now : ℕ)
      → (after db (accept_update db payload retention now)).deliveries ≡ db.deliveries
  unfolding accept_update accept_update_sync accept_minimal
  deliveries-accept_update payload retention now = ground arith

  pub deliveries-acquire_worker :
      (owner : String) (lease now : ℕ)
      → (after db (acquire_worker db owner lease now)).deliveries ≡ db.deliveries
  unfolding acquire_worker
  deliveries-acquire_worker owner lease now = ground arith

  pub deliveries-renew_worker :
      (owner : String) (lease now : ℕ)
      → (after db (renew_worker db owner lease now)).deliveries ≡ db.deliveries
  unfolding renew_worker
  deliveries-renew_worker owner lease now = ground arith

  pub deliveries-release_worker :
      (owner : String) → (after db (release_worker db owner)).deliveries ≡ db.deliveries
  unfolding release_worker
  deliveries-release_worker owner = ground arith

  pub deliveries-claim_recoverable_jobs :
      (owner : String) (limit lease now : ℕ)
      → (after db (claim_recoverable_jobs db owner limit lease now)).deliveries ≡ db.deliveries
  unfolding claim_recoverable_jobs claim_recoverable_jobs_sync acquire_worker_in_transaction
  deliveries-claim_recoverable_jobs owner limit lease now =
      ground
        (arith, deliveries-claim_ids db' (recoverable_ids db' limit now) owner (now + lease) now)
    where
      db' : Db
      db' = (acquire_worker_in_transaction db owner lease now).1

  pub deliveries-renew_claim :
      (job owner : String) (lease now : ℕ)
      → (after db (renew_claim db job owner lease now)).deliveries ≡ db.deliveries
  unfolding renew_claim
  deliveries-renew_claim job owner lease now = ground arith

  pub deliveries-requeue_failed_deliveries :
      (limit now : ℕ)
      → (after db (requeue_failed_deliveries db limit now)).deliveries ≡ db.deliveries
  unfolding requeue_failed_deliveries
  deliveries-requeue_failed_deliveries limit now = ground arith

  pub deliveries-purge_expired_payloads :
      (limit now : ℕ) → (after db (purge_expired_payloads db limit now)).deliveries ≡ db.deliveries
  unfolding purge_expired_payloads
  deliveries-purge_expired_payloads limit now = ground arith

deliveries-by_state :
    (state : JobState) (db : Db) (job : String) (row : JobRow) (successor : String) (now : ℕ)
    {answer : Bool} {db' : Db}
    → by_state state db job row successor now ≡ done answer db'
    → db'.deliveries ≡ db.deliveries
unfolding by_state retire
deliveries-by_state accepted db job row successor now h = ground arith
deliveries-by_state running db job row successor now h = ground arith
deliveries-by_state _ db job row successor now h = ground arith

deliveries-round :
    (db : Db) (job : String) (visited : List String) (successor : String) (now : ℕ) {answer : Bool}
    {db' : Db}
    → round db job visited successor now ≡ done answer db'
    → db'.deliveries ≡ db.deliveries
unfolding round
deliveries-round db job visited successor now {answer} {db'} h =
    elim (Option-cases (job_of_id job db.jobs)) [
      | inl e ↦ ground arith
      | inr (row, e) ↦ ground (
        arith,
        deliveries-by_state row.state db job row successor now {answer = answer} {db' = db'},
      )
    ]

deliveries-follow_chain :
    (fuel : ℕ) (db : Db) (job : String) (visited : List String) (successor : String) (now : ℕ)
    {answer : Bool} {db' : Db}
    → follow_chain fuel db job visited successor now ≡ some (answer, db')
    → db'.deliveries ≡ db.deliveries
unfolding follow_chain
deliveries-follow_chain zero db job visited successor now h = cc
deliveries-follow_chain (suc fuel) db job visited successor now h =
    grind (arith, deliveries-round, deliveries-follow_chain fuel db)

pub deliveries-supersede_failed_job :
    (db : Db) (job successor owner : String) (now : ℕ)
    → (after db (supersede_failed_job db job successor owner now)).deliveries ≡ db.deliveries
unfolding supersede_failed_job
deliveries-supersede_failed_job db job successor owner now =
    elim (Option-cases (follow_chain (chain_fuel db) db job [] successor now)) [
      | inl e ↦ ground arith
      | inr ((answer, db'), e) ↦
          ground (arith, deliveries-follow_chain (chain_fuel db) db job [] successor now e)
    ]

-- The operations on receipts leave the jobs as they are.
module _ (db : Db) where
  pub jobs-record_delivery :
      (job item : String) (outcome : DeliveryOutcome) (delivery : Option String) (now : ℕ)
      → (after db (record_delivery db job item outcome delivery now)).jobs ≡ db.jobs
  unfolding record_delivery
  jobs-record_delivery job item outcome delivery now = ground arith

  pub jobs-begin_delivery_attempts :
      (job : String) (items : List String) (owner : String) (now : ℕ)
      → (after db (begin_delivery_attempts db job items owner now)).jobs ≡ db.jobs
  unfolding begin_delivery_attempts
  jobs-begin_delivery_attempts job items owner now = ground arith

  pub jobs-finalize_delivery_attempt :
      (job item : String) (outcome : DeliveryOutcome) (owner : String) (delivery : Option String)
      (now : ℕ)
      → (after db (finalize_delivery_attempt db job item outcome owner delivery now)).jobs ≡ db.jobs
  unfolding finalize_delivery_attempt
  jobs-finalize_delivery_attempt job item outcome owner delivery now = ground arith

  pub jobs-renew_worker :
      (owner : String) (lease now : ℕ) → (after db (renew_worker db owner lease now)).jobs ≡ db.jobs
  unfolding renew_worker
  jobs-renew_worker owner lease now = ground arith

  pub jobs-acquire_worker :
      (owner : String) (lease now : ℕ)
      → (after db (acquire_worker db owner lease now)).jobs ≡ db.jobs
  unfolding acquire_worker
  jobs-acquire_worker owner lease now = ground arith

  pub jobs-release_worker : (owner : String) → (after db (release_worker db owner)).jobs ≡ db.jobs
  unfolding release_worker
  jobs-release_worker owner = ground arith

  pub jobs-write_probe : (now : ℕ) → (after db (write_probe db now)).jobs ≡ db.jobs
  unfolding write_probe
  jobs-write_probe now = ground arith
