-- ===== src/JobStore/Retry.antt =====
-- Retiring a failed job under a live successor, along the chain of earlier supersessions.
use ytdlbot.Prelude.{
  ℕ, zero, suc, Bool, true, false, String, Option, none, some, List, [], ◌∷◌, str_eq, length,
  if◌then◌else◌,
}
use ytdlbot.Json.{Json, text, Fields, end, get, put}
use ytdlbot.Sql.{update_where}
use ytdlbot.JobStore.Schema.{
  Db, JobRow, JobState, accepted, running, checkpointed, completed, failed, Result, ok, raise,
  runtime_error,
}
use ytdlbot.JobStore.Inbox.{job_of_id}
use ytdlbot.JobStore.Claims.{is_among}
use ytdlbot.JobStore.Deliveries.{owns_live_job, has_unsafe_deliveries}

-- `json.loads(row["checkpoint"]) if row["checkpoint"] else {}`
abbrev pub checkpoint_of : JobRow → Fields
checkpoint_of r = elim r.checkpoint [ none ↦ end | some fields ↦ fields ]

-- `checkpoint.get("superseded_by")`, if it is a text.
unfoldable pub as_text : Option Json → Option String
as_text (some (text s)) = some s
as_text _ = none

unfoldable pub superseded_by : JobRow → Option String
unfolding as_text get
superseded_by r = as_text (get "superseded_by" (checkpoint_of r))

-- The UPDATE that retires a row.
abbrev pub retire_row : Fields → ℕ → JobRow → JobRow
retire_row fields now r = record r {
  state = completed;
  owner_id = none;
  claim_expires_at = none;
  checkpoint = some fields;
  error = none;
  updated_at = now;
}

unfoldable pub retire : Db → String → JobRow → String → ℕ → Db
unfolding put
retire db job_id row successor now = record db {
  jobs =
      update_where (λ r. str_eq r.job_id job_id)
        (retire_row (put "superseded_by" (text successor) (checkpoint_of row)) now) db.jobs;
}

-- What one round of the loop does: return, or go on at another job.
pub data Round : Type 0 where
  done : Bool → Db → Round
  follow : String → Round

-- The rest of a round by the state of the row.
unfoldable pub by_state : JobState → Db → String → JobRow → String → ℕ → Round
by_state completed db job_id row successor now = elim (superseded_by row) [
  | none ↦ done false db
  | some next ↦ follow next
]
by_state failed db job_id row successor now = done true (retire db job_id row successor now)
by_state checkpointed db job_id row successor now = done true (retire db job_id row successor now)
by_state accepted db job_id row successor now = done false db
by_state running db job_id row successor now = done false db

unfoldable pub round : Db → String → List String → String → ℕ → Round
round db job_id visited successor now =
    if is_among visited job_id then done false db else elim (job_of_id job_id db.jobs) [
      | none ↦ done false db
      | some row ↦
          if has_unsafe_deliveries db job_id
          then done false db
          else by_state row.state db job_id row successor now
    ]

-- The `while` loop; `none` means that the fuel ran out.
unfoldable pub follow_chain : ℕ → Db → String → List String → String → ℕ → Option (Bool × Db)
follow_chain zero db job_id visited successor now = none
follow_chain (suc fuel) db job_id visited successor now =
    if str_eq job_id successor
    then some (true, db)
    else elim (round db job_id visited successor now) [
      | done answer db' ↦ some (answer, db')
      | follow next ↦ follow_chain fuel db next (job_id ∷ visited) successor now
    ]

-- Every round but the last visits another row of the table.
abbrev pub chain_fuel : Db → ℕ
chain_fuel db = suc (suc (length db.jobs))

unfoldable pub supersede_failed_job : Db → String → String → String → ℕ → Result Bool
supersede_failed_job db job_id successor owner now =
    if owns_live_job db successor owner now
    then elim (follow_chain (chain_fuel db) db job_id [] successor now) [
      | none ↦ raise runtime_error
      | some (answer, db') ↦ ok answer db'
    ]
    else ok false db
