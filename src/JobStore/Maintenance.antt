-- ===== src/JobStore/Maintenance.antt =====
-- Requeueing failed deliveries and purging payloads whose retention is over.
use ytdlbot.Prelude.{
  ℕ, Bool, true, false, not, String, none, List, [], ◌∷◌, ◌&&◌, ◌||◌, str_eq, ltb, leb, ◌==◌,
  if◌then◌else◌, filter, take, length,
}
use ytdlbot.Json.{field, end, int}
use ytdlbot.Sql.{update_where, order_by}
use ytdlbot.JobStore.Schema.{
  Db, JobRow, checkpointed, completed, failed, Deadline, at, never, Result, ok, raise, value_error,
  state_eq,
}
use ytdlbot.JobStore.Deliveries.{has_failed_deliveries}
use ytdlbot.JobStore.Claims.{is_among, job_ids}

unfoldable pub is_requeueable : Db → JobRow → Bool
unfolding state_eq has_failed_deliveries
is_requeueable db r = state_eq r.state failed && has_failed_deliveries db r.job_id

-- ORDER BY updated_at, update_id
unfoldable pub updated_before : JobRow → JobRow → Bool
updated_before a b =
    ltb a.updated_at b.updated_at || (a.updated_at == b.updated_at && leb a.update_id b.update_id)

abbrev pub requeue_row : ℕ → JobRow → JobRow
requeue_row now r = record r { state = checkpointed; error = none; updated_at = now }

-- The identifiers of at most `limit` failed jobs.
unfoldable pub requeued_ids : Db → ℕ → List String
requeued_ids db limit =
    job_ids (take limit (order_by updated_before (filter (is_requeueable db) db.jobs)))

unfoldable pub requeue_failed_deliveries : Db → ℕ → ℕ → Result ℕ
requeue_failed_deliveries db limit now =
    let ids = requeued_ids db limit in
    let jobs =
      update_where (λ r. is_among ids r.job_id && state_eq r.state failed) (requeue_row now)
        db.jobs in
    if ltb 0 limit then ok (length ids) (record db { jobs = jobs }) else raise value_error

-- `payload_expires_at <= ?`
unfoldable pub is_due : Deadline → ℕ → Bool
is_due never now = false
is_due (at t) now = leb t now

unfoldable pub is_purgeable : Db → ℕ → JobRow → Bool
unfolding state_eq is_due has_failed_deliveries
is_purgeable db now r =
    (state_eq r.state completed || state_eq r.state failed)
    && (is_due r.payload_expires_at now
        && not (state_eq r.state failed && has_failed_deliveries db r.job_id))

deadline_lt : Deadline → Deadline → Bool
deadline_lt (at s) (at t) = ltb s t
deadline_lt (at s) never = true
deadline_lt never _ = false

-- ORDER BY payload_expires_at, update_id
unfoldable pub expires_before : JobRow → JobRow → Bool
unfolding deadline_lt
expires_before a b =
    deadline_lt a.payload_expires_at b.payload_expires_at
    || (not (deadline_lt b.payload_expires_at a.payload_expires_at) && leb a.update_id b.update_id)

-- The row that a purge leaves, for a selected row's identifier.
abbrev pub purge_row : ℕ → JobRow → JobRow
purge_row update_id r = record r {
  payload = field "update_id" (int update_id) end;
  payload_expires_at = never;
}

-- One UPDATE for each selected row.
unfoldable pub purge_rows : List JobRow → List JobRow → List JobRow
purge_rows [] jobs = jobs
purge_rows (row ∷ rows) jobs =
    purge_rows rows (update_where (λ r. str_eq r.job_id row.job_id) (purge_row row.update_id) jobs)

-- At most `limit` rows whose payload is due.
unfoldable pub purgeable_rows : Db → ℕ → ℕ → List JobRow
purgeable_rows db limit now =
    take limit (order_by expires_before (filter (is_purgeable db now) db.jobs))

unfoldable pub purge_expired_payloads : Db → ℕ → ℕ → Result ℕ
purge_expired_payloads db limit now =
    let rows = purgeable_rows db limit now in
    let jobs = purge_rows rows db.jobs in
    if ltb 0 limit then ok (length rows) (record db { jobs = jobs }) else raise value_error
