-- ===== src/JobStore/Transitions.antt =====
-- Checkpoint, completion and failure of a job, guarded by its owner where one is given.
use ytdlbot.Prelude.{
  ℕ, zero, suc, Bool, true, String, Option, none, some, List, [], ◌∷◌, ◌&&◌, str_eq, ◌==◌, any,
}
use ytdlbot.Json.{Fields}
use ytdlbot.Sql.{update_where, count_where}
use ytdlbot.JobStore.Schema.{
  Db, JobRow, JobState, accepted, running, checkpointed, completed, failed, Result, ok, state_eq,
  is_live_until, is_owned_by, holds_lease, WorkerLease,
}

-- The `owner_guard`, which is absent with no owner.
unfoldable pub passes_owner_guard : Option String → Option WorkerLease → ℕ → JobRow → Bool
unfolding is_owned_by is_live_until holds_lease
passes_owner_guard none lease now r = true
passes_owner_guard (some owner) lease now r =
    is_owned_by r.owner_id owner
    && (is_live_until r.claim_expires_at now && holds_lease lease owner now)

abbrev pub from_states : List JobState
from_states = accepted ∷ running ∷ checkpointed ∷ []

abbrev pub may_leave : String → Option String → Option WorkerLease → ℕ → JobRow → Bool
may_leave job_id owner lease now r =
    str_eq r.job_id job_id
    && (any (state_eq r.state) from_states && passes_owner_guard owner lease now r)

-- COALESCE(?, checkpoint)
abbrev pub coalesce : Option Fields → Option Fields → Option Fields
coalesce none old = old
coalesce (some new) old = some new

abbrev pub leave : JobState → Option Fields → Option String → ℕ → JobRow → JobRow
leave state checkpoint error now r = record r {
  state = state;
  owner_id = none;
  claim_expires_at = none;
  checkpoint = coalesce checkpoint r.checkpoint;
  error = error;
  updated_at = now;
}

-- `checkpoint`, `complete` and `fail` give the same three source states.
unfoldable pub transition :
    Db → String → JobState → Option Fields → Option String → ℕ → Option String → Result Bool
transition db job_id state checkpoint error now owner =
    ok (count_where (may_leave job_id owner db.worker_lease now) db.jobs == 1) (record db {
      jobs =
          update_where (may_leave job_id owner db.worker_lease now)
            (leave state checkpoint error now) db.jobs;
    })

unfoldable pub checkpoint : Db → String → Option Fields → Option String → ℕ → Result Bool
unfolding transition
checkpoint db job_id fields owner now = transition db job_id checkpointed fields none now owner

unfoldable pub complete : Db → String → Option String → ℕ → Result Bool
unfolding transition
complete db job_id owner now = transition db job_id completed none none now owner

-- `error[:n]`
pub prefix : ℕ → String → String
prefix zero s = ""
prefix (suc n) String.[] = ""
prefix (suc n) (String.◌∷◌ c s) = String.◌∷◌ c (prefix n s)

unfoldable pub fail : Db → String → String → Option String → ℕ → Result Bool
unfolding transition prefix
fail db job_id error owner now =
    transition db job_id failed none (some (prefix 2000 error)) now owner
