-- ===== src/JobStore/Terminal.antt =====
-- A completed job is never run again: no call takes a row out of the state `completed`.
use ytdlbot.Prelude.{
  ℕ, ◌+◌, ◌≡◌, refl, sym, ◌∙◌, Bool, true, false, String, Option, none, some, List, [], ◌∷◌, ◌++◌,
  ◌&&◌, arith, str_eq, eq_iff, Option-cases, inl, inr,
}
use mathlib.Core.Bool.{false≢true}
use ytdlbot.Json.{Fields}
use ytdlbot.Sql.{update_where}
use ytdlbot.JobStore.Schema.{Db, JobRow, JobState, completed, failed, state_eq, after, holds_lease}
use ytdlbot.JobStore.Inbox.{
  job_of_id, accept_update, accept_update_sync, accept_minimal, insert_or_ignore, new_job,
  minimal_update_payload,
}
use ytdlbot.JobStore.Claims.{
  claim_recoverable_jobs, claim_row, is_among, recoverable_ids, is_claim_of, renew_row, renew_claim,
  is_claimable, accepted_before,
}
use ytdlbot.JobStore.Transitions.{transition, leave, may_leave}
use ytdlbot.JobStore.Maintenance.{
  requeue_failed_deliveries, purge_expired_payloads, requeue_row, purge_row, purge_rows,
  requeued_ids, purgeable_rows,
}
use ytdlbot.JobStore.Frames.{claimed_ids, jobs-claim_recoverable_jobs}
use ytdlbot.JobStore.Consistency.{IsConsistent, is_among-select}

-- The state of the job of an identifier.
unfoldable pub state_of : String → List JobRow → Option JobState
unfolding job_of_id
state_of id jobs = elim (job_of_id id jobs) [ none ↦ none | some r ↦ some r.state ]

pub is_among-nil : (id : String) → is_among [] id ≡ false
unfolding is_among
is_among-nil id = refl

module _ (id : String) where
  -- An UPDATE that leaves a completed row of this identifier completed.
  pub completed-update_where :
      (p : JobRow → Bool) (f : JobRow → JobRow)
      → ((r : JobRow) → (f r).job_id ≡ r.job_id)
      → ((r : JobRow) → r.job_id ≡ id → p r ≡ true → r.state ≡ completed → (f r).state ≡ completed)
      → (jobs : List JobRow) → state_of id jobs ≡ some completed
      → state_of id (update_where p f jobs) ≡ some completed
  unfolding state_of
  completed-update_where p f same keeps [] h = h
  completed-update_where p f same keeps (r ∷ jobs) h =
      ground
        (arith, same r, keeps r, eq_iff r.job_id id, completed-update_where p f same keeps jobs)

  completed-append :
      (new : JobRow) (jobs : List JobRow)
      → state_of id jobs ≡ some completed
      → state_of id (jobs ++ new ∷ []) ≡ some completed
  unfolding state_of
  completed-append new [] h = cc
  completed-append new (r ∷ jobs) h = ground (arith, completed-append new jobs)

  completed-insert_or_ignore :
      (new : JobRow) (jobs : List JobRow)
      → state_of id jobs ≡ some completed
      → state_of id (insert_or_ignore new jobs).1 ≡ some completed
  unfolding insert_or_ignore
  completed-insert_or_ignore new jobs h = ground (arith, completed-append new jobs h)

  pub completed-accept_update :
      (db : Db) (payload : Fields) (retention now : ℕ)
      → state_of id db.jobs ≡ some completed
      → state_of id (after db (accept_update db payload retention now)).jobs ≡ some completed
  unfolding accept_update accept_update_sync accept_minimal
  completed-accept_update db payload retention now h =
      elim (Option-cases (minimal_update_payload payload)) [
        | inl bad ↦ rw (bad, after) h
        | inr ((n, minimal), good) ↦
            rw (good, after)
              (ground
                (arith, completed-insert_or_ignore (new_job n minimal retention now) db.jobs h))
      ]

  pub completed-transition :
      (db : Db) (job : String) (state : JobState) (fields : Option Fields) (error : Option String)
      (now : ℕ) (owner : Option String)
      → state_of id db.jobs ≡ some completed
      → state_of id (after db (transition db job state fields error now owner)).jobs
        ≡ some completed
  unfolding transition state_eq
  completed-transition db job state fields error now owner h =
      completed-update_where (may_leave job owner db.worker_lease now)
        (leave state fields error now) (λ _. refl) (λ r _ p c. ground arith) db.jobs h

  pub completed-renew_claim :
      (db : Db) (job owner : String) (lease now : ℕ)
      → state_of id db.jobs ≡ some completed
      → state_of id (after db (renew_claim db job owner lease now)).jobs ≡ some completed
  unfolding renew_claim
  completed-renew_claim db job owner lease now h = ground (
    arith,
    completed-update_where
        (λ r. is_claim_of job owner now r && holds_lease db.worker_lease owner now)
        (renew_row (now + lease) now) (λ _. refl) (λ r _ p c. c) db.jobs h,
  )

  pub completed-requeue_failed_deliveries :
      (db : Db) (limit now : ℕ)
      → state_of id db.jobs ≡ some completed
      → state_of id (after db (requeue_failed_deliveries db limit now)).jobs ≡ some completed
  unfolding requeue_failed_deliveries
  completed-requeue_failed_deliveries db limit now h = ground (
    arith,
    completed-update_where
        (λ r. is_among (requeued_ids db limit) r.job_id && state_eq r.state failed)
        (requeue_row now) (λ _. refl) (λ r _ p c. absurd (not_failed r p c)) db.jobs h,
  )
    where
      not_failed :
          (r : JobRow)
          → (is_among (requeued_ids db limit) r.job_id && state_eq r.state failed) ≡ true
          → r.state ≡ completed
          → ⊥
      not_failed r p c = unfold state_eq in ground arith

  completed-purge_rows :
      (rows jobs : List JobRow)
      → state_of id jobs ≡ some completed
      → state_of id (purge_rows rows jobs) ≡ some completed
  unfolding purge_rows
  completed-purge_rows [] jobs h = h
  completed-purge_rows (row ∷ rows) jobs h = completed-purge_rows rows _ (
      completed-update_where (λ r. str_eq r.job_id row.job_id) (purge_row row.update_id) (λ _. refl)
        (λ r _ p c. c) jobs h)

  pub completed-purge_expired_payloads :
      (db : Db) (limit now : ℕ)
      → state_of id db.jobs ≡ some completed
      → state_of id (after db (purge_expired_payloads db limit now)).jobs ≡ some completed
  unfolding purge_expired_payloads
  completed-purge_expired_payloads db limit now h =
      ground (arith, completed-purge_rows (purgeable_rows db limit now) db.jobs h)

  -- A completed row is not claimable, and with unique keys no other row brings its identifier in.
  claimed_ids-completed :
      (db : Db) (owner : String) (limit lease now : ℕ)
      → IsConsistent db.jobs
      → state_of id db.jobs ≡ some completed
      → is_among (claimed_ids db owner limit lease now) id ≡ false
  unfolding claimed_ids state_of recoverable_ids
  claimed_ids-completed db owner limit lease now c h = elim (Option-cases (job_of_id id db.jobs)) [
    | inl missing ↦ ground arith
    | inr (r, found) ↦ ground (
      arith,
      is_among-select db.jobs (is_claimable db.deliveries now) accepted_before limit id c.distinct
          found (not_claimable r found),
      is_among-nil id,
    )
  ]
    where
      not_claimable :
          (r : JobRow) → job_of_id id db.jobs ≡ some r → is_claimable db.deliveries now r ≡ false
      not_claimable r found = unfold is_claimable in ground arith

  pub completed-claim_recoverable_jobs :
      (db : Db) (owner : String) (limit lease now : ℕ)
      → IsConsistent db.jobs
      → state_of id db.jobs ≡ some completed
      → state_of id (after db (claim_recoverable_jobs db owner limit lease now)).jobs
        ≡ some completed
  completed-claim_recoverable_jobs db owner limit lease now c h =
      rw (jobs-claim_recoverable_jobs db owner limit lease now) (
        completed-update_where (λ r. is_among (claimed_ids db owner limit lease now) r.job_id)
          (claim_row owner (now + lease) now) (λ _. refl)
          (λ r e p k.
            absurd
              (false≢true (sym (claimed_ids-completed db owner limit lease now c h) ∙ rw e at p)))
          db.jobs h)
