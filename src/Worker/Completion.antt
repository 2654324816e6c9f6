-- ===== src/Worker/Completion.antt =====
-- When the worker makes a job completed, and what it leaves of a job whose lease it lost.
use ytdlbot.Prelude.{
  ℕ, ◌≡◌, ◌≢◌, refl, sym, ◌∙◌, ap, Bool, true, false, String, Option, none, some, List, [], ◌∷◌,
  arith, if◌then◌else◌, if_true, if_false, Bool-cases, inl, inr,
}
use ytdlbot.Json.{Fields}
use ytdlbot.Sql.{update_where}
use ytdlbot.JobStore.Schema.{
  Db, JobRow, JobState, checkpointed, completed, Result, ok, raise, state_eq, holds_lease, after,
}
use ytdlbot.JobStore.Transitions.{transition, checkpoint, complete, fail, may_leave, leave, prefix}
use ytdlbot.JobStore.Deliveries.{has_failed_deliveries}
use ytdlbot.JobStore.Exclusion.{stale-transition}
use ytdlbot.JobStore.Terminal.{state_of}
use ytdlbot.Worker.Process.{
  HandlerEnd, returned, raised, cancelled, worker_lease_lost, Execution, Verdict, succeeded,
  interrupted, lease_lost, retryable, failed, judge_error, judge, Ending, finished, lost, stopped,
  or_lost, ends, known_failure, settle, checked, at_end, verdict, process_job,
}

-- An UPDATE to another state completes no job.
uncompleted-update_where :
    (id : String) (p : JobRow → Bool) (f : JobRow → JobRow) (jobs : List JobRow)
    → ((r : JobRow) → (f r).job_id ≡ r.job_id)
    → ((r : JobRow) → state_eq (f r).state completed ≡ false)
    → state_of id (update_where p f jobs) ≡ some completed
    → state_of id jobs ≡ some completed
unfolding state_of state_eq
uncompleted-update_where id p f [] same other h = h
uncompleted-update_where id p f (r ∷ jobs) same other h =
    ground (arith, same r, other r, uncompleted-update_where id p f jobs same other)

judge_error-succeeded :
    (error : Option String) (has_failed : Bool)
    → judge_error error has_failed ≡ succeeded
    → (error ≡ none) × (has_failed ≡ false)
unfolding judge_error
judge_error-succeeded (some message) has_failed e = absurd cc
judge_error-succeeded none true e = absurd cc
judge_error-succeeded none false e = (refl, refl)

judge-succeeded :
    (handler : HandlerEnd) (cancelling : Bool) (error : Option String) (has_failed : Bool)
    → judge handler cancelling error has_failed ≡ succeeded
    → (handler ≡ returned) × (error ≡ none) × (has_failed ≡ false)
unfolding judge
judge-succeeded returned true error has_failed e = absurd cc
judge-succeeded returned false error has_failed e =
    let k = judge_error-succeeded error has_failed e in (refl, k.0, k.1)
judge-succeeded (raised message) cancelling error has_failed e = absurd cc
judge-succeeded cancelled cancelling error has_failed e = absurd cc
judge-succeeded worker_lease_lost cancelling error has_failed e = absurd cc

module _ (db : Db) (id : String) (now : ℕ) (owner : String) where
  uncompleted-transition :
      (state : JobState) (fields : Option Fields) (error : Option String)
      → state_eq state completed ≡ false
      → state_of id (after db (transition db id state fields error now (some owner))).jobs
        ≡ some completed
      → state_of id db.jobs ≡ some completed
  unfolding transition
  uncompleted-transition state fields error other =
      uncompleted-update_where id (may_leave id (some owner) db.worker_lease now)
        (leave state fields error now) db.jobs (λ r. refl) (λ r. other)

  transition-lease :
      (state : JobState) (fields : Option Fields) (error : Option String)
      → state_of id db.jobs ≢ some completed
      → state_of id (after db (transition db id state fields error now (some owner))).jobs
        ≡ some completed
      → holds_lease db.worker_lease owner now ≡ true
  transition-lease state fields error new done =
      elim (Bool-cases (holds_lease db.worker_lease owner now)) [
        | inl held ↦ held
        | inr stale ↦ absurd (
            new (
              ap (λ t. state_of id (after db t).jobs)
                (sym (stale-transition db owner now stale id state fields error))
              ∙ done))
      ]

-- What the worker does with the answer does not change the tables.
pub tables-or_lost : (db : Db) (r : Result Bool) → (or_lost db r).1 ≡ after db r
tables-or_lost db (ok true db') = refl
tables-or_lost db (ok false db') = refl
tables-or_lost db (raise e) = refl

pub tables-ends : (ending : Ending) (db : Db) (r : Result Bool) → (ends ending db r).1 ≡ after db r
tables-ends ending db (ok answer db') = refl
tables-ends ending db (raise e) = refl

-- Only a success completes the job, and only under a live lease.
settle-completed :
    (v : Verdict) (owner : String) (job : JobRow) (x : Execution) (db : Db)
    → state_of job.job_id db.jobs ≢ some completed
    → state_of job.job_id (settle v owner job x db).1.jobs ≡ some completed
    → (v ≡ succeeded) × (holds_lease db.worker_lease owner x.now ≡ true)
unfolding settle complete checkpoint fail state_eq
settle-completed succeeded owner job x db new done = (
  refl,
  transition-lease db job.job_id x.now owner completed none none new (
      ap (λ t. state_of job.job_id t.jobs)
        (sym (tables-or_lost db (complete db job.job_id (some owner) x.now)))
      ∙ done),
)
settle-completed interrupted owner job x db new done = elim (Bool-cases x.drain_settled) [
  | inl free ↦ absurd (
      new (
        uncompleted-transition db job.job_id x.now owner checkpointed job.checkpoint none refl (
          ap (λ t. state_of job.job_id t.jobs)
            (sym (
              tables-ends (if x.current_cancelling then stopped else finished) db
                (checkpoint db job.job_id job.checkpoint (some owner) x.now)))
          ∙ rw (free, settle) at done)))
  | inr busy ↦ absurd (new (rw (busy, settle) at done))
]
settle-completed lease_lost owner job x db new done = absurd (
    new (
      uncompleted-transition db job.job_id x.now owner checkpointed job.checkpoint none refl (
        ap (λ t. state_of job.job_id t.jobs)
          (sym (tables-ends lost db (checkpoint db job.job_id job.checkpoint (some owner) x.now)))
        ∙ done)))
settle-completed retryable owner job x db new done = absurd (
    new (
      uncompleted-transition db job.job_id x.now owner JobState.failed none
        (some (prefix 2000 known_failure)) refl
        (ap (λ t. state_of job.job_id t.jobs)
            (sym (tables-or_lost db (fail db job.job_id known_failure (some owner) x.now)))
          ∙ done)))
settle-completed (failed message) owner job x db new done = absurd (
    new (
      uncompleted-transition db job.job_id x.now owner JobState.failed none
        (some (prefix 2000 message)) refl
        (ap (λ t. state_of job.job_id t.jobs)
            (sym (tables-ends finished db (fail db job.job_id message (some owner) x.now)))
          ∙ done)))

-- The tables that the branch after the `try` block finds.
abbrev pub found : ℕ → Execution → Db → Db
found retention x db = if x.admitted then at_end retention x db else db

-- If the job was not completed when the handler had ended, whatever the handler, the heartbeat and
-- other tasks did to the store until then, and is completed when the worker is done with it, then the
-- handler was admitted and returned without an error that the delivery context caught, the job had no
-- failed delivery at the check, and the worker held a live lease when it completed the job.
pub process_job-completed :
    (retention : ℕ) (owner : String) (job : JobRow) (x : Execution) (db : Db)
    → state_of job.job_id (found retention x db).jobs ≢ some completed
    → state_of job.job_id (process_job retention owner job x db).1.jobs ≡ some completed
    → (x.admitted ≡ true)
      × (x.handler ≡ returned)
      × (x.error ≡ none)
      × (has_failed_deliveries (checked retention x db) job.job_id ≡ false)
      × (holds_lease (at_end retention x db).worker_lease owner x.now ≡ true)
unfolding process_job checkpoint state_eq
process_job-completed retention owner job x db new done =
    let refusal : Ending × Db =
      ends finished db (checkpoint db job.job_id job.checkpoint (some owner) x.now) in
    let result : Ending × Db =
      settle (verdict retention job x db) owner job x (at_end retention x db) in
    elim (Bool-cases x.admitted) [
      | inr refused ↦ absurd (
          new (
            ap (λ d. state_of job.job_id d.jobs)
              (if_false x.admitted (at_end retention x db) db refused)
            ∙ uncompleted-transition db job.job_id x.now owner checkpointed job.checkpoint none refl
                (ap (λ t. state_of job.job_id t.jobs)
                    (sym (
                      tables-ends finished db
                        (checkpoint db job.job_id job.checkpoint (some owner) x.now)))
                  ∙ ap (λ (r : Ending × Db). state_of job.job_id r.1.jobs)
                      (sym (if_false x.admitted result refusal refused))
                  ∙ done)))
      | inl admitted ↦
          let k =
            settle-completed (verdict retention job x db) owner job x (at_end retention x db)
              (λ already. new (
                ap (λ d. state_of job.job_id d.jobs)
                  (if_true x.admitted (at_end retention x db) db admitted)
                ∙ already))
              (ap (λ (r : Ending × Db). state_of job.job_id r.1.jobs)
                  (sym (if_true x.admitted result refusal admitted))
                ∙ done) in
          let j =
            judge-succeeded x.handler x.cancelling x.error
              (has_failed_deliveries (checked retention x db) job.job_id) k.0 in
          (admitted, j.0, j.1, j.2, k.1)
    ]
