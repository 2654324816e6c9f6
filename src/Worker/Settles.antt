-- ===== src/Worker/Settles.antt =====
-- In which state the worker leaves a job that it owns, and how it ends then.
use ytdlbot.Prelude.{
  ℕ, ◌≡◌, refl, sym, Bool, true, false, String, Option, none, some, if◌then◌else◌, if_true,
}
use mathlib.Core.Path.{subst}
use ytdlbot.JobStore.Schema.{Db, JobRow, JobState, checkpointed, completed, Result, ok}
use ytdlbot.JobStore.Consistency.{Distinct, IsConsistent}
use ytdlbot.JobStore.Transitions.{checkpoint, complete, fail, prefix}
use ytdlbot.JobStore.Terminal.{state_of}
use ytdlbot.JobStore.Deliveries.{has_failed_deliveries}
use ytdlbot.Worker.Held.{is_held, transition-held}
use ytdlbot.Worker.Process.{
  HandlerEnd, returned, raised, cancelled, worker_lease_lost, judge, judge_error, checked,
  Execution, Verdict, succeeded, interrupted, lease_lost, retryable, failed, Ending, finished, lost,
  stopped, or_lost, ends, known_failure, settle, at_end, verdict, process_job,
}

-- The state that the worker leaves a job in, and how the worker ends, by its verdict.
abbrev pub state_after : Verdict → JobState
state_after succeeded = completed
state_after interrupted = checkpointed
state_after lease_lost = checkpointed
state_after retryable = JobState.failed
state_after (failed message) = JobState.failed

abbrev pub ending_after : Verdict → Bool → Ending
ending_after interrupted true = stopped
ending_after lease_lost current_cancelling = lost
ending_after _ _ = finished

-- In which state a job is left, and how the worker ends.
abbrev pub IsLeft : String → JobState → Ending → Ending × Db → Type 0
IsLeft id state ending r = (r.0 ≡ ending) × (state_of id r.1.jobs ≡ some state)

interrupted_ending :
    (b : Bool) (id : String) (r : Ending × Db)
    → IsLeft id checkpointed (ending_after interrupted b) r
    → IsLeft id checkpointed (if b then stopped else finished) r
interrupted_ending true id r k = k
interrupted_ending false id r k = k

held-or_lost :
    (id : String) (state : JobState) (db d : Db) (r : Result Bool)
    → r ≡ ok true d
    → state_of id d.jobs ≡ some state
    → ((or_lost db r).0 ≡ finished) × (state_of id (or_lost db r).1.jobs ≡ some state)
held-or_lost id state db d r e h = rw (e, or_lost) (refl, h)

held-ends :
    (id : String) (state : JobState) (ending : Ending) (db d : Db) (r : Result Bool)
    → r ≡ ok true d
    → state_of id d.jobs ≡ some state
    → ((ends ending db r).0 ≡ ending) × (state_of id (ends ending db r).1.jobs ≡ some state)
held-ends id state ending db d r e h = rw (e, ends) (refl, h)

module _ (owner : String) (job : JobRow) (x : Execution) (db : Db) (distinct : Distinct db.jobs)
    (held : is_held job.job_id owner x.now db ≡ true) where
  checkpoint-held :
      (ending : Ending)
      → ((ends ending db (checkpoint db job.job_id job.checkpoint (some owner) x.now)).0 ≡ ending)
        × (state_of job.job_id
              (ends ending db (checkpoint db job.job_id job.checkpoint (some owner) x.now)).1.jobs
            ≡ some checkpointed)
  unfolding checkpoint
  checkpoint-held ending =
      let t =
        transition-held db job.job_id owner x.now distinct held checkpointed job.checkpoint none in
      held-ends job.job_id checkpointed ending db (record db { jobs = t.0 })
        (checkpoint db job.job_id job.checkpoint (some owner) x.now) t.1.0 t.1.1

  settle-held :
      (v : Verdict)
      → x.drain_settled ≡ true
      → ((settle v owner job x db).0 ≡ ending_after v x.current_cancelling)
        × (state_of job.job_id (settle v owner job x db).1.jobs ≡ some (state_after v))
  unfolding settle complete fail
  settle-held succeeded free =
      let t = transition-held db job.job_id owner x.now distinct held completed none none in
      held-or_lost job.job_id completed db (record db { jobs = t.0 })
        (complete db job.job_id (some owner) x.now) t.1.0 t.1.1
  settle-held lease_lost free = checkpoint-held lost
  settle-held retryable free =
      let t =
        transition-held db job.job_id owner x.now distinct held JobState.failed none
          (some (prefix 2000 known_failure)) in
      held-or_lost job.job_id JobState.failed db (record db { jobs = t.0 })
        (fail db job.job_id known_failure (some owner) x.now) t.1.0 t.1.1
  settle-held (failed message) free =
      let t =
        transition-held db job.job_id owner x.now distinct held JobState.failed none
          (some (prefix 2000 message)) in
      held-ends job.job_id JobState.failed finished db (record db { jobs = t.0 })
        (fail db job.job_id message (some owner) x.now) t.1.0 t.1.1
  settle-held interrupted free =
      subst
        (λ (r : Ending × Db).
          (r.0 ≡ ending_after interrupted x.current_cancelling)
          × (state_of job.job_id r.1.jobs ≡ some checkpointed))
        (sym (if_true x.drain_settled _ _ free))
        (same_ending x.current_cancelling
          (checkpoint-held (if x.current_cancelling then stopped else finished)))
    where
      same_ending :
          (b : Bool) {e : Ending} {P : Type 0}
          → (e ≡ (if b then stopped else finished)) × P
          → (e ≡ ending_after interrupted b) × P
      same_ending true h = h
      same_ending false h = h

settles_by_verdict :
    (retention : ℕ) (owner : String) (job : JobRow) (x : Execution) (db : Db)
    → x.admitted ≡ true
    → x.drain_settled ≡ true
    → IsConsistent (at_end retention x db).jobs
    → is_held job.job_id owner x.now (at_end retention x db) ≡ true
    → IsLeft job.job_id
        (state_after (verdict retention job x db))
        (ending_after (verdict retention job x db) x.current_cancelling)
        (process_job retention owner job x db)
unfolding process_job
settles_by_verdict retention owner job x db admitted free consistent held =
    subst
      (λ (r : Ending × Db).
        IsLeft job.job_id (state_after (verdict retention job x db))
          (ending_after (verdict retention job x db) x.current_cancelling) r)
      (sym (if_true x.admitted _ _ admitted))
      (settle-held owner job x (at_end retention x db) consistent.distinct held
        (verdict retention job x db) free)

-- The job is left in a state, and the worker ends in a way, by how the handler ended; `has_failed`
-- says whether the job had failed deliveries.
pub data IsSettled (id : String) (x : Execution) (has_failed : Bool) (r : Ending × Db)
    : Type 0 where
  success :
      x.handler ≡ returned
      → x.cancelling ≡ false
      → x.error ≡ none
      → has_failed ≡ false
      → IsLeft id completed finished r
      → IsSettled id x has_failed r
  undelivered :
      x.handler ≡ returned
      → x.cancelling ≡ false
      → x.error ≡ none
      → has_failed ≡ true
      → IsLeft id JobState.failed finished r
      → IsSettled id x has_failed r
  caught :
      (message : String)
      → x.handler ≡ returned
      → x.cancelling ≡ false
      → x.error ≡ some message
      → IsLeft id JobState.failed finished r
      → IsSettled id x has_failed r
  drained :
      x.handler ≡ returned
      → x.cancelling ≡ true
      → IsLeft id checkpointed (if x.current_cancelling then stopped else finished) r
      → IsSettled id x has_failed r
  raising :
      (message : String)
      → x.handler ≡ raised message
      → IsLeft id JobState.failed finished r
      → IsSettled id x has_failed r
  interrupting :
      x.handler ≡ cancelled
      → IsLeft id checkpointed (if x.current_cancelling then stopped else finished) r
      → IsSettled id x has_failed r
  robbed :
      x.handler ≡ worker_lease_lost → IsLeft id checkpointed lost r → IsSettled id x has_failed r

-- The case that applies.
by_end :
    (id : String) (x : Execution) (r : Ending × Db) (handler : HandlerEnd) (cancelling : Bool)
    (error : Option String) (has_failed : Bool)
    → x.handler ≡ handler
    → x.cancelling ≡ cancelling
    → x.error ≡ error
    → IsLeft id
        (state_after (judge handler cancelling error has_failed))
        (ending_after (judge handler cancelling error has_failed) x.current_cancelling)
        r
    → IsSettled id x has_failed r
unfolding judge judge_error
by_end id x r returned true error has_failed h c e k =
    drained h c (interrupted_ending x.current_cancelling id r k)
by_end id x r returned false (some message) has_failed h c e k = caught message h c e k
by_end id x r returned false none true h c e k = undelivered h c e refl k
by_end id x r returned false none false h c e k = success h c e refl k
by_end id x r (raised message) cancelling error has_failed h c e k = raising message h k
by_end id x r cancelled cancelling error has_failed h c e k =
    interrupting h (interrupted_ending x.current_cancelling id r k)
by_end id x r worker_lease_lost cancelling error has_failed h c e k = robbed h k

-- When the handler has ended and no drain is under way, and the worker still owns the job under a live
-- claim and a live worker lease, then after the worker is done with it the job is checkpointed where
-- the handler was cancelled, by a drain too, or the heartbeat lost the lease; else it is completed
-- where the handler returned with no error caught and left no failed delivery, and failed where it
-- raised, had an error caught or left failed deliveries. The worker goes on with the next job but for
-- a lost lease, which it reports, and its own cancellation, with which it stops after a cancelled
-- handler.
pub process_job-settles :
    (retention : ℕ) (owner : String) (job : JobRow) (x : Execution) (db : Db)
    → x.admitted ≡ true
    → x.drain_settled ≡ true
    → IsConsistent (at_end retention x db).jobs
    → is_held job.job_id owner x.now (at_end retention x db) ≡ true
    → IsSettled job.job_id x
        (has_failed_deliveries (checked retention x db) job.job_id)
        (process_job retention owner job x db)
process_job-settles retention owner job x db admitted free consistent held =
    by_end job.job_id x (process_job retention owner job x db) x.handler x.cancelling x.error
      (has_failed_deliveries (checked retention x db) job.job_id) refl refl refl
      (settles_by_verdict retention owner job x db admitted free consistent held)
