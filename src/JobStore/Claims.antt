-- ===== src/JobStore/Claims.antt =====
-- Claiming recoverable jobs for a worker, and renewing a claim.
use ytdlbot.Prelude.{
  ℕ, ◌+◌, Bool, true, not, String, Option, none, some, List, [], ◌∷◌, ◌&&◌, ◌||◌, str_eq, ltb, leb,
  ◌==◌, if◌then◌else◌, any, filter, map, take,
}
use ytdlbot.Sql.{update_where, count_where, order_by}
use ytdlbot.JobStore.Schema.{
  Db, JobRow, DeliveryRow, accepted, running, checkpointed, Result, ok, raise, value_error,
  state_eq, is_settled, is_live_until, is_owned_by, holds_lease,
}
use ytdlbot.JobStore.Lease.{acquire_worker_in_transaction, is_valid_claimant}
use ytdlbot.JobStore.Deliveries.{whole_job, has_key}

-- `claim_expires_at IS NULL OR claim_expires_at <= ?`
unfoldable pub is_expired : Option ℕ → ℕ → Bool
is_expired none now = true
is_expired (some expiry) now = leb expiry now

-- The state test of the SELECT.
unfoldable pub is_recoverable : JobRow → ℕ → Bool
unfolding state_eq is_expired
is_recoverable r now =
    state_eq r.state accepted
    || (state_eq r.state checkpointed
        || (state_eq r.state running && is_expired r.claim_expires_at now))

-- The subquery: the whole job was delivered, or may have been.
unfoldable pub is_delivered : List DeliveryRow → String → Bool
unfolding is_settled
is_delivered rows job_id = any (λ d. has_key job_id whole_job d && is_settled d.outcome) rows

unfoldable pub is_claimable : List DeliveryRow → ℕ → JobRow → Bool
unfolding is_recoverable is_delivered
is_claimable deliveries now r = is_recoverable r now && not (is_delivered deliveries r.job_id)

-- ORDER BY accepted_at, update_id
unfoldable pub accepted_before : JobRow → JobRow → Bool
accepted_before a b =
    ltb a.accepted_at b.accepted_at
    || (a.accepted_at == b.accepted_at && leb a.update_id b.update_id)

-- `job_id IN (…)`
unfoldable pub is_among : List String → String → Bool
is_among ids job_id = any (λ id. str_eq id job_id) ids

abbrev pub job_ids : List JobRow → List String
job_ids rows = map (λ r. r.job_id) rows

abbrev pub claim_row : String → ℕ → ℕ → JobRow → JobRow
claim_row owner expiry now r = record r {
  state = running;
  owner_id = some owner;
  claim_expires_at = some expiry;
  updated_at = now;
}

-- The first SELECT: the identifiers of at most `limit` jobs.
unfoldable pub recoverable_ids : Db → ℕ → ℕ → List String
recoverable_ids db limit now =
    job_ids
      (take limit (order_by accepted_before (filter (is_claimable db.deliveries now) db.jobs)))

-- UPDATE, and the second SELECT; `if not rows: return []` before them.
unfoldable pub claim_ids : Db → List String → String → ℕ → ℕ → List JobRow × Db
claim_ids db [] owner expiry now = ([], db)
claim_ids db (id ∷ ids) owner expiry now =
    let jobs =
      update_where (λ r. is_among (id ∷ ids) r.job_id) (claim_row owner expiry now) db.jobs in
    (
      order_by accepted_before (filter (λ r. is_among (id ∷ ids) r.job_id) jobs),
      record db { jobs = jobs },
    )

-- An early return from the transaction commits what was written: the lease stays acquired.
unfoldable pub claim_recoverable_jobs_sync : Db → String → ℕ → ℕ → ℕ → List JobRow × Db
claim_recoverable_jobs_sync db owner limit lease_seconds now =
    let (acquired, db') = acquire_worker_in_transaction db owner lease_seconds now in
    if acquired
    then claim_ids db' (recoverable_ids db' limit now) owner (now + lease_seconds) now
    else ([], db')

unfoldable pub claim_recoverable_jobs : Db → String → ℕ → ℕ → ℕ → Result (List JobRow)
claim_recoverable_jobs db owner limit lease_seconds now =
    let (rows, db') = claim_recoverable_jobs_sync db owner limit lease_seconds now in
    if is_valid_claimant owner lease_seconds && ltb 0 limit then ok rows db' else raise value_error

-- `jobs[0] if jobs else None`
unfoldable pub claim_next : Db → String → ℕ → ℕ → Result (Option JobRow)
claim_next db owner lease_seconds now = elim (claim_recoverable_jobs db owner 1 lease_seconds now) [
  | raise e ↦ raise e
  | ok rows db' ↦ elim rows [ [] ↦ ok none db' | r ∷ _ ↦ ok (some r) db' ]
]

-- WHERE of `_renew_claim_sync`, without its subquery.
abbrev pub is_claim_of : String → String → ℕ → JobRow → Bool
is_claim_of job_id owner now r =
    str_eq r.job_id job_id
    && (state_eq r.state running
        && (is_owned_by r.owner_id owner && is_live_until r.claim_expires_at now))

abbrev pub renew_row : ℕ → ℕ → JobRow → JobRow
renew_row expiry now r = record r { claim_expires_at = some expiry; updated_at = now }

unfoldable pub renew_claim_sync : Db → String → String → ℕ → ℕ → Bool × Db
renew_claim_sync db job_id owner lease_seconds now =
    let held = holds_lease db.worker_lease owner now in
    let matches = λ (r : JobRow). is_claim_of job_id owner now r && held in
    (
      count_where matches db.jobs == 1,
      record db { jobs = update_where matches (renew_row (now + lease_seconds) now) db.jobs },
    )

unfoldable pub renew_claim : Db → String → String → ℕ → ℕ → Result Bool
unfolding renew_claim_sync
renew_claim db job_id owner lease_seconds now =
    let (renewed, db') = renew_claim_sync db job_id owner lease_seconds now in
    if is_valid_claimant owner lease_seconds then ok renewed db' else raise value_error
