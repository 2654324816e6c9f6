-- ===== src/JobStore/Inbox.antt =====
-- Accepting a webhook update once, and reading jobs by their keys.
use ytdlbot.Prelude.{
  ℕ, ◌+◌, Bool, true, false, String, Option, none, some, List, [], ◌∷◌, ◌++◌, ◌||◌, str_eq, ◌==◌,
  if◌then◌else◌, any, find, ltb,
}
use ytdlbot.Prelude.Decimal.{str}
use ytdlbot.Json.{Json, null, int, Fields, end, get, put}
use ytdlbot.JobStore.Schema.{
  JobState, accepted, at, JobRow, Db, Result, ok, raise, type_error, runtime_error, overflow_error,
}

-- `JobRecord`, the columns of a row that callers see.
pub record JobRecord : Type 0 where
  pub id : String
  pub update_id : ℕ
  pub payload : Fields
  pub state : JobState
  pub owner_id : Option String
  pub checkpoint : Option Fields
  pub error : Option String

abbrev pub row_to_job : JobRow → JobRecord
row_to_job row = record {
  id = row.job_id;
  update_id = row.update_id;
  payload = row.payload;
  state = row.state;
  owner_id = row.owner_id;
  checkpoint = row.checkpoint;
  error = row.error;
}

-- SELECT * FROM jobs WHERE update_id = ?, and the same by `job_id`.
unfoldable pub job_of_update : ℕ → List JobRow → Option JobRow
job_of_update update_id jobs = find (λ r. r.update_id == update_id) jobs

unfoldable pub job_of_id : String → List JobRow → Option JobRow
job_of_id job_id jobs = find (λ r. str_eq r.job_id job_id) jobs

-- An integer of SQLite has 64 bits with its sign; a statement that binds a larger one raises.
abbrev pub int_limit : ℕ
int_limit = 0x8000_0000_0000_0000

abbrev pub read_job : Option JobRow → Option JobRecord
read_job none = none
read_job (some row) = some (row_to_job row)

unfoldable pub get_update : Db → ℕ → Result (Option JobRecord)
unfolding job_of_update
get_update db update_id =
    if ltb update_id int_limit
    then ok (read_job (job_of_update update_id db.jobs)) db
    else raise overflow_error

abbrev pub telegram_update_fields : List String
telegram_update_fields =
    "business_connection" ∷ "business_message" ∷ "callback_query" ∷ "channel_post" ∷ "chat_boost"
    ∷ "chat_join_request" ∷ "chat_member" ∷ "chosen_inline_result" ∷ "deleted_business_messages"
    ∷ "edited_business_message" ∷ "edited_channel_post" ∷ "edited_message" ∷ "inline_query"
    ∷ "message" ∷ "message_reaction" ∷ "message_reaction_count" ∷ "my_chat_member" ∷ "poll"
    ∷ "poll_answer" ∷ "pre_checkout_query" ∷ "purchased_paid_media" ∷ "removed_chat_boost"
    ∷ "shipping_query" ∷ []

-- `if key in payload and payload[key] is not None: minimal[key] = payload[key]`
keep_value : String → Option Json → Fields → Fields
keep_value key none minimal = minimal
keep_value key (some null) minimal = minimal
keep_value key (some v) minimal = put key v minimal

-- The loop over the allowed fields.
keep_fields : List String → Fields → Fields → Fields
keep_fields [] payload minimal = minimal
keep_fields (key ∷ keys) payload minimal =
    keep_fields keys payload (keep_value key (get key payload) minimal)

-- An integer `update_id`; anything else, `True` included, is a TypeError.
read_update_id : Option Json → Option ℕ
read_update_id (some (int n)) = some n
read_update_id _ = none

-- `_minimal_update_payload`, with the identifier that it has checked.
unfoldable pub minimal_update_payload : Fields → Option (ℕ × Fields)
unfolding keep_value keep_fields read_update_id get put
minimal_update_payload payload = elim (read_update_id (get "update_id" payload)) [
  | none ↦ none
  | some n ↦ some (n, keep_fields telegram_update_fields payload (put "update_id" (int n) end))
]

-- The row that INSERT names; the columns that it leaves out are NULL.
abbrev pub new_job : ℕ → Fields → ℕ → ℕ → JobRow
new_job update_id payload retention now = record {
  job_id = str update_id;
  update_id = update_id;
  payload = payload;
  state = accepted;
  owner_id = none;
  claim_expires_at = none;
  checkpoint = none;
  error = none;
  payload_expires_at = at (now + retention);
  accepted_at = now;
  updated_at = now;
}

-- Both keys of the table make an INSERT OR IGNORE a no-op.
abbrev pub clashes : JobRow → JobRow → Bool
clashes new r = str_eq r.job_id new.job_id || (r.update_id == new.update_id)

unfoldable pub insert_or_ignore : JobRow → List JobRow → Bool × List JobRow
insert_or_ignore new jobs =
    if any (clashes new) jobs then (false, jobs) else (true, jobs ++ new ∷ [])

-- `_accept_update_sync`, where the statements bind the identifier.
unfoldable pub accept_minimal : Db → ℕ → Fields → ℕ → ℕ → Result (JobRecord × Bool)
accept_minimal db update_id payload retention now =
    let (inserted, jobs') = insert_or_ignore (new_job update_id payload retention now) db.jobs in
    elim (job_of_update update_id jobs') [
      | none ↦ raise runtime_error
      | some row ↦ ok (row_to_job row, inserted) (record db { jobs = jobs' })
    ]

unfoldable pub accept_update_sync : Db → ℕ → Fields → ℕ → ℕ → Result (JobRecord × Bool)
accept_update_sync db update_id payload retention now =
    if ltb update_id int_limit
    then accept_minimal db update_id payload retention now
    else raise overflow_error

unfoldable pub accept_update : Db → Fields → ℕ → ℕ → Result (JobRecord × Bool)
accept_update db payload retention now = elim (minimal_update_payload payload) [
  | none ↦ raise type_error
  | some (update_id, minimal) ↦ accept_update_sync db update_id minimal retention now
]
