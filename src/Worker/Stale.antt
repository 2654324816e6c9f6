-- ===== src/Worker/Stale.antt =====
-- A worker whose lease ran out or was taken over does no harm.
use ytdlbot.Prelude.{
  ℕ, ◌≡◌, refl, ◌∙◌, Bool, Option, true, false, String, none, some, if◌then◌else◌, if_true,
}
use ytdlbot.JobStore.Schema.{Db, JobRow, JobState, checkpointed, completed, Result, ok, holds_lease}
use ytdlbot.JobStore.Transitions.{checkpoint, complete, fail, prefix}
use ytdlbot.JobStore.Exclusion.{stale-transition}
use ytdlbot.JobStore.Deliveries.{has_failed_deliveries}
use ytdlbot.Worker.Process.{
  HandlerEnd, returned, raised, cancelled, worker_lease_lost, judge, judge_error, checked,
  Execution, Verdict, succeeded, interrupted, lease_lost, retryable, failed, Ending, finished, lost,
  stopped, or_lost, ends, known_failure, settle, at_end, verdict, process_job,
}
use ytdlbot.Worker.Settles.{ending_after}

-- A refused completion or a refused record of failed deliveries is reported as a lost lease.
abbrev pub stale_ending : Verdict → Bool → Ending
stale_ending succeeded current_cancelling = lost
stale_ending retryable current_cancelling = lost
stale_ending v current_cancelling = ending_after v current_cancelling

refused-or_lost : (db : Db) (r : Result Bool) → r ≡ ok false db → or_lost db r ≡ (lost, db)
refused-or_lost db r e = rw (e, or_lost) refl

refused-ends :
    (ending : Ending) (db : Db) (r : Result Bool)
    → r ≡ ok false db
    → ends ending db r ≡ (ending, db)
refused-ends ending db r e = rw (e, ends) refl

settle-stale :
    (v : Verdict) (owner : String) (job : JobRow) (x : Execution) (db : Db)
    → holds_lease db.worker_lease owner x.now ≡ false
    → settle v owner job x db ≡ (stale_ending v x.current_cancelling, db)
unfolding settle complete checkpoint fail
settle-stale succeeded owner job x db stale =
    refused-or_lost db (complete db job.job_id (some owner) x.now)
      (stale-transition db owner x.now stale job.job_id completed none none)
settle-stale lease_lost owner job x db stale =
    refused-ends lost db (checkpoint db job.job_id job.checkpoint (some owner) x.now)
      (stale-transition db owner x.now stale job.job_id checkpointed job.checkpoint none)
settle-stale retryable owner job x db stale =
    refused-or_lost db (fail db job.job_id known_failure (some owner) x.now) (
      stale-transition db owner x.now stale job.job_id JobState.failed none
        (some (prefix 2000 known_failure)))
settle-stale (failed message) owner job x db stale =
    refused-ends finished db (fail db job.job_id message (some owner) x.now) (
      stale-transition db owner x.now stale job.job_id JobState.failed none
        (some (prefix 2000 message)))
settle-stale interrupted owner job x db stale =
    either x.drain_settled x.current_cancelling
      (ends (if x.current_cancelling then stopped else finished) db
        (checkpoint db job.job_id job.checkpoint (some owner) x.now))
      (refused-ends (if x.current_cancelling then stopped else finished) db
        (checkpoint db job.job_id job.checkpoint (some owner) x.now)
        (stale-transition db owner x.now stale job.job_id checkpointed job.checkpoint none))
  where
    either :
        (free current_cancelling : Bool) (r : Ending × Db)
        → r ≡ ((if current_cancelling then stopped else finished), db)
        → (if free then r else ((if current_cancelling then stopped else finished), db))
          ≡ (stale_ending interrupted current_cancelling, db)
    either true true r e = e
    either true false r e = e
    either false true r e = refl
    either false false r e = refl

-- What the worker does without its lease, by how the handler ended: each time it leaves the tables
-- as they are.
pub data IsHarmless (x : Execution) (db : Db) (r : Ending × Db) : Type 0 where
  success :
      x.handler ≡ returned
      → x.cancelling ≡ false
      → x.error ≡ none
      → r ≡ (lost, db)
      → IsHarmless x db r
  caught :
      (message : String)
      → x.handler ≡ returned
      → x.cancelling ≡ false
      → x.error ≡ some message
      → r ≡ (finished, db)
      → IsHarmless x db r
  drained :
      x.handler ≡ returned
      → x.cancelling ≡ true
      → r ≡ ((if x.current_cancelling then stopped else finished), db)
      → IsHarmless x db r
  raising : (message : String) → x.handler ≡ raised message → r ≡ (finished, db) → IsHarmless x db r
  interrupting :
      x.handler ≡ cancelled
      → r ≡ ((if x.current_cancelling then stopped else finished), db)
      → IsHarmless x db r
  robbed : x.handler ≡ worker_lease_lost → r ≡ (lost, db) → IsHarmless x db r

interrupted_stale :
    (b : Bool) {db : Db} {r : Ending × Db}
    → r ≡ (stale_ending interrupted b, db)
    → r ≡ ((if b then stopped else finished), db)
interrupted_stale true k = k
interrupted_stale false k = k

-- The case that applies.
stale_by_end :
    (x : Execution) (db : Db) (r : Ending × Db) (handler : HandlerEnd) (cancelling : Bool)
    (error : Option String) (has_failed : Bool)
    → x.handler ≡ handler
    → x.cancelling ≡ cancelling
    → x.error ≡ error
    → r ≡ (stale_ending (judge handler cancelling error has_failed) x.current_cancelling, db)
    → IsHarmless x db r
unfolding judge judge_error
stale_by_end x db r returned true error has_failed h c e k =
    drained h c (interrupted_stale x.current_cancelling k)
stale_by_end x db r returned false (some message) has_failed h c e k = caught message h c e k
stale_by_end x db r returned false none true h c e k = success h c e k
stale_by_end x db r returned false none false h c e k = success h c e k
stale_by_end x db r (raised message) cancelling error has_failed h c e k = raising message h k
stale_by_end x db r cancelled cancelling error has_failed h c e k =
    interrupting h (interrupted_stale x.current_cancelling k)
stale_by_end x db r worker_lease_lost cancelling error has_failed h c e k = robbed h k

-- When the handler has ended and the worker's lease has run out or belongs to another by then, the
-- worker changes no table, however the handler ended. It reports the lost lease where the handler
-- returned, was not cancelled by a drain and had no error caught, with failed deliveries or without,
-- and where the heartbeat had lost the lease; it goes on where the handler raised or had an error
-- caught; where the handler was cancelled it stops if it is cancelled itself and else goes on.
pub process_job-stale :
    (retention : ℕ) (owner : String) (job : JobRow) (x : Execution) (db : Db)
    → x.admitted ≡ true
    → holds_lease (at_end retention x db).worker_lease owner x.now ≡ false
    → IsHarmless x (at_end retention x db) (process_job retention owner job x db)
unfolding process_job
process_job-stale retention owner job x db admitted stale =
    stale_by_end x (at_end retention x db) (process_job retention owner job x db) x.handler
      x.cancelling x.error (has_failed_deliveries (checked retention x db) job.job_id) refl refl
      refl
      (if_true x.admitted _ _ admitted
        ∙ settle-stale (verdict retention job x db) owner job x (at_end retention x db) stale)
