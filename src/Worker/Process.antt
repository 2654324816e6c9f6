-- ===== src/Worker/Process.antt =====
-- `DurableUpdateWorker._process_job`. The handler, the heartbeat and other tasks use the store
-- meanwhile: their calls are arguments, before the check of the deliveries and after it.
use ytdlbot.Prelude.{ℕ, Bool, true, false, String, Option, none, some, List, if◌then◌else◌}
use ytdlbot.JobStore.Schema.{Db, JobRow, StoreError, Result, ok, raise}
use ytdlbot.JobStore.Call.{Call}
use ytdlbot.JobStore.Steps.{run}
use ytdlbot.JobStore.Deliveries.{has_failed_deliveries}
use ytdlbot.JobStore.Transitions.{checkpoint, complete, fail}

-- How the wait for the handler and the heartbeat ends; an error is its text.
pub data HandlerEnd : Type 0 where
  returned : HandlerEnd
  raised : String → HandlerEnd
  cancelled : HandlerEnd
  worker_lease_lost : HandlerEnd

-- `admitted` says that `start_job` gave a task; `cancelling` that the controller drains and has
-- cancelled it; `error` the message on what the delivery context has caught; `drain_settled` that no drain is under
-- way; `current_cancelling` that the worker's own task is being cancelled.
pub record Execution : Type 0 where
  pub admitted : Bool
  pub during : List Call
  pub handler : HandlerEnd
  pub cancelling : Bool
  pub error : Option String
  pub meanwhile : List Call
  pub drain_settled : Bool
  pub current_cancelling : Bool
  pub now : ℕ

pub data Verdict : Type 0 where
  succeeded : Verdict
  interrupted : Verdict
  lease_lost : Verdict
  retryable : Verdict
  failed : String → Verdict

-- The end of the `try` block, after the handler returned.
unfoldable pub judge_error : Option String → Bool → Verdict
judge_error (some message) has_failed = failed message
judge_error none true = retryable
judge_error none false = succeeded

-- The `try` block, by which of the branches below it goes on.
unfoldable pub judge : HandlerEnd → Bool → Option String → Bool → Verdict
unfolding judge_error
judge returned cancelling error has_failed =
    if cancelling then interrupted else judge_error error has_failed
judge (raised message) cancelling error has_failed = failed message
judge cancelled cancelling error has_failed = interrupted
judge worker_lease_lost cancelling error has_failed = lease_lost

-- It returns, raises WorkerLeaseLost or CancelledError, or an error of the store goes through.
pub data Ending : Type 0 where
  finished : Ending
  lost : Ending
  stopped : Ending
  broken : StoreError → Ending

-- `if not answer: raise WorkerLeaseLost(…)`
abbrev pub or_lost : Db → Result Bool → Ending × Db
or_lost db (ok true db') = (finished, db')
or_lost db (ok false db') = (lost, db')
or_lost db (raise e) = (broken e, db)

abbrev pub ends : Ending → Db → Result Bool → Ending × Db
ends ending db (ok _ db') = (ending, db')
ends ending db (raise e) = (broken e, db)

abbrev pub known_failure : String
known_failure = "delivery has known failed items"

-- The `except` and `else` branches.
unfoldable pub settle : Verdict → String → JobRow → Execution → Db → Ending × Db
unfolding complete checkpoint fail
settle succeeded owner job x db = or_lost db (complete db job.job_id (some owner) x.now)
settle interrupted owner job x db =
    let ending = if x.current_cancelling then stopped else finished in
    if x.drain_settled
    then ends ending db (checkpoint db job.job_id job.checkpoint (some owner) x.now)
    else (ending, db)
settle lease_lost owner job x db =
    ends lost db (checkpoint db job.job_id job.checkpoint (some owner) x.now)
settle retryable owner job x db = or_lost db (fail db job.job_id known_failure (some owner) x.now)
settle (failed message) owner job x db =
    ends finished db (fail db job.job_id message (some owner) x.now)

-- The tables that the check of the deliveries reads, and those that the last transition finds.
abbrev pub checked : ℕ → Execution → Db → Db
checked retention x db = run retention db x.during

abbrev pub at_end : ℕ → Execution → Db → Db
at_end retention x db = run retention (checked retention x db) x.meanwhile

abbrev pub verdict : ℕ → JobRow → Execution → Db → Verdict
verdict retention job x db =
    judge x.handler x.cancelling x.error (has_failed_deliveries (checked retention x db) job.job_id)

unfoldable pub process_job : ℕ → String → JobRow → Execution → Db → Ending × Db
unfolding settle judge run has_failed_deliveries checkpoint
process_job retention owner job x db =
    if x.admitted
    then settle (verdict retention job x db) owner job x (at_end retention x db)
    else ends finished db (checkpoint db job.job_id job.checkpoint (some owner) x.now)
