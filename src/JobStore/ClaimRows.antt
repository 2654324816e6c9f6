-- ===== src/JobStore/ClaimRows.antt =====
-- What a claim hands out: its size, the state of its rows, and the claims that it leaves alone.
use ytdlbot.Prelude.{
  ℕ, ◌+◌, ◌≤◌, ◌≡◌, refl, sym, ◌∙◌, Bool, true, false, ◌&&◌, String, some, List, [], ◌∷◌, All, any,
  take, filter, length, arith, str_eq, eq_iff, Bool-cases, inl, inr, if◌then◌else◌,
}
use mathlib.Core.Bool.{false≢true}
use ytdlbot.Sql.{update_where, count_where, order_by}
use ytdlbot.Sql.Laws.{
  All-filter, All-order_by, length-order_by, length-filter-update_where, length-take-le, length-map,
  count_where_or, count_where_none,
}
use ytdlbot.JobStore.Schema.{Db, JobRow, DeliveryRow, ok, after, running, state_eq}
use ytdlbot.JobStore.Lease.{acquire_worker_in_transaction}
use ytdlbot.JobStore.Inbox.{job_of_id, clashes}
use ytdlbot.JobStore.Claims.{
  claim_recoverable_jobs, claim_recoverable_jobs_sync, claim_ids, claim_row, is_among,
  recoverable_ids, is_claimable, is_delivered, is_expired, accepted_before,
}
use ytdlbot.JobStore.Consistency.{Distinct, IsConsistent, selected, is_among-select}
use ytdlbot.JobStore.Frames.{claimed_ids, jobs-claim_recoverable_jobs}
use ytdlbot.JobStore.Terminal.{is_among-nil}

count_same :
    (jobs : List JobRow) (r : JobRow) (id : String)
    → str_eq id r.job_id ≡ true
    → any (clashes r) jobs ≡ false
    → count_where (λ x. str_eq id x.job_id) jobs ≡ 0
count_same [] r id e d = refl
count_same (x ∷ jobs) r id e d = ground (
  arith,
  eq_iff id r.job_id,
  eq_iff id x.job_id,
  eq_iff x.job_id r.job_id,
  count_same jobs r id e,
)

count_one :
    (jobs : List JobRow) (id : String)
    → Distinct jobs
    → count_where (λ r. str_eq id r.job_id) jobs ≤ 1
count_one [] id d = omega arith
count_one (r ∷ jobs) id d = ground (arith, count_one jobs id d.1, count_same jobs r id)

count_among :
    (ids : List String) (jobs : List JobRow)
    → Distinct jobs
    → count_where (λ r. is_among ids r.job_id) jobs ≤ length ids
unfolding is_among
count_among [] jobs d =
    rw (count_where_none (λ r. is_among [] r.job_id) (λ r. refl) jobs) (omega arith)
count_among (id ∷ ids) jobs d = omega (
  arith,
  count_where_or (λ r. str_eq id r.job_id) (λ r. is_among ids r.job_id) jobs,
  count_one jobs id d,
  count_among ids jobs d,
)

-- A row that a claim of `owner` hands out, with what the deliveries say of its job.
abbrev pub IsHandedOut : List DeliveryRow → String → ℕ → JobRow → Type 0
IsHandedOut deliveries owner expiry r =
    (r.state ≡ running)
    × (r.owner_id ≡ some owner)
    × (r.claim_expires_at ≡ some expiry)
    × (is_delivered deliveries r.job_id ≡ false)

module _ (deliveries : List DeliveryRow) (ids : List String) (owner : String) (expiry now : ℕ)
    (undelivered : (id : String)
      → is_among ids id ≡ true
      → is_delivered deliveries id ≡ false) where
  updated-IsHandedOut :
      (jobs : List JobRow)
      → All
          (λ r. is_among ids r.job_id ≡ true → IsHandedOut deliveries owner expiry r)
          (update_where (λ r. is_among ids r.job_id) (claim_row owner expiry now) jobs)
  updated-IsHandedOut [] = tt
  updated-IsHandedOut (r ∷ jobs) = (written (is_among ids r.job_id) refl, updated-IsHandedOut jobs)
    where
      written :
          (b : Bool)
          → is_among ids r.job_id ≡ b
          → is_among ids (if b then claim_row owner expiry now r else r).job_id ≡ true
          → IsHandedOut deliveries owner expiry (if b then claim_row owner expiry now r else r)
      written true e m = (refl, refl, refl, undelivered r.job_id m)
      written false e m = absurd (false≢true (sym e ∙ m))

undelivered_of_any :
    (jobs : List JobRow) (deliveries : List DeliveryRow) (now : ℕ) (id : String)
    → any (λ r. is_claimable deliveries now r && str_eq r.job_id id) jobs ≡ true
    → is_delivered deliveries id ≡ false
unfolding is_claimable
undelivered_of_any [] deliveries now id h = cc
undelivered_of_any (r ∷ jobs) deliveries now id h =
    ground (arith, eq_iff r.job_id id, undelivered_of_any jobs deliveries now id)

recoverable_ids-undelivered :
    (db : Db) (limit now : ℕ) (id : String)
    → is_among (recoverable_ids db limit now) id ≡ true
    → is_delivered db.deliveries id ≡ false
unfolding recoverable_ids
recoverable_ids-undelivered db limit now id h =
    undelivered_of_any db.jobs db.deliveries now id
      (selected db.jobs (is_claimable db.deliveries now) accepted_before limit id h)

length-recoverable_ids : (db : Db) (limit now : ℕ) → length (recoverable_ids db limit now) ≤ limit
unfolding recoverable_ids
length-recoverable_ids db limit now =
    omega
      (arith, length-map (λ (r : JobRow). r.job_id) (take limit rows), length-take-le limit rows)
  where
    rows : List JobRow
    rows = order_by accepted_before (filter (is_claimable db.deliveries now) db.jobs)

-- The rows of a claim of given identifiers.
abbrev Claims : Db → String → ℕ → ℕ → List JobRow → Type 0
Claims db owner limit expiry rows =
    (length rows ≤ limit) × All (IsHandedOut db.deliveries owner expiry) rows

claim_ids-Claims :
    (db : Db) (ids : List String) (owner : String) (limit expiry now : ℕ)
    → Distinct db.jobs
    → length ids ≤ limit
    → ((id : String) → is_among ids id ≡ true → is_delivered db.deliveries id ≡ false)
    → Claims db owner limit expiry (claim_ids db ids owner expiry now).0
unfolding claim_ids
claim_ids-Claims db [] owner limit expiry now d few undelivered = (omega arith, tt)
claim_ids-Claims db (id ∷ ids) owner limit expiry now d few undelivered = (
  omega (
    arith,
    length-order_by accepted_before
        (filter passes (update_where passes (claim_row owner expiry now) db.jobs)),
    length-filter-update_where passes (claim_row owner expiry now) (λ _. refl) db.jobs,
    count_among (id ∷ ids) db.jobs d,
  ),
  All-order_by (IsHandedOut db.deliveries owner expiry) accepted_before _ (
      All-filter (IsHandedOut db.deliveries owner expiry) passes _
        (updated-IsHandedOut db.deliveries (id ∷ ids) owner expiry now undelivered db.jobs)),
)
  where
    passes : JobRow → Bool
    passes r = is_among (id ∷ ids) r.job_id

claim_sync-Claims :
    (db : Db) (owner : String) (limit lease now : ℕ)
    → Distinct db.jobs
    → Claims db owner limit (now + lease) (claim_recoverable_jobs_sync db owner limit lease now).0
unfolding claim_recoverable_jobs_sync acquire_worker_in_transaction
claim_sync-Claims db owner limit lease now d =
    elim (Bool-cases (acquire_worker_in_transaction db owner lease now).0) [
      | inr refused ↦ rw refused (omega arith, tt)
      | inl acquired ↦ rw acquired (
          claim_ids-Claims db' (recoverable_ids db' limit now) owner limit (now + lease) now d
            (length-recoverable_ids db' limit now) (recoverable_ids-undelivered db' limit now))
    ]
  where
    db' : Db
    db' = (acquire_worker_in_transaction db owner lease now).1

-- A successful claim hands out at most `limit` jobs. Each of them is running, belongs to the caller
-- until the lease time from now, and has no whole-job receipt that is sent or uncertain.
pub claim_recoverable_jobs-IsHandedOut :
    (db : Db) (owner : String) (limit lease now : ℕ) {rows : List JobRow} {db' : Db}
    → IsConsistent db.jobs
    → claim_recoverable_jobs db owner limit lease now ≡ ok rows db'
    → (length rows ≤ limit) × All (IsHandedOut db.deliveries owner (now + lease)) rows
unfolding claim_recoverable_jobs
claim_recoverable_jobs-IsHandedOut db owner limit lease now {rows} {db'} c h =
    rw rows_path at (claim_sync-Claims db owner limit lease now c.distinct)
  where
    rows_path : (claim_recoverable_jobs_sync db owner limit lease now).0 ≡ rows
    rows_path = ground arith

job_of_id-update_where :
    (id : String) (p : JobRow → Bool) (f : JobRow → JobRow) (jobs : List JobRow) {r : JobRow}
    → ((x : JobRow) → (f x).job_id ≡ x.job_id)
    → ((x : JobRow) → x.job_id ≡ id → p x ≡ false)
    → job_of_id id jobs ≡ some r
    → job_of_id id (update_where p f jobs) ≡ some r
unfolding job_of_id
job_of_id-update_where id p f [] same out found = found
job_of_id-update_where id p f (x ∷ jobs) {r} same out found =
    ground (
      arith,
      same x,
      out x,
      eq_iff x.job_id id,
      job_of_id-update_where id p f jobs {r = r} same out,
    )

-- A running job whose claim has not expired is left exactly as it is by any claim.
pub claim_recoverable_jobs-keeps_live :
    (db : Db) (owner id : String) (limit lease now : ℕ) {r : JobRow}
    → IsConsistent db.jobs
    → job_of_id id db.jobs ≡ some r
    → state_eq r.state running ≡ true
    → is_expired r.claim_expires_at now ≡ false
    → job_of_id id (after db (claim_recoverable_jobs db owner limit lease now)).jobs ≡ some r
claim_recoverable_jobs-keeps_live db owner id limit lease now {r} c found active live =
    rw (jobs-claim_recoverable_jobs db owner limit lease now) (
      job_of_id-update_where id (λ x. is_among (claimed_ids db owner limit lease now) x.job_id)
        (claim_row owner (now + lease) now) db.jobs (λ _. refl) (λ x e. rw e not_claimed) found)
  where
    not_claimable : is_claimable db.deliveries now r ≡ false
    not_claimable = unfold is_claimable in ground arith

    not_claimed : is_among (claimed_ids db owner limit lease now) id ≡ false
    not_claimed =
        unfold claimed_ids recoverable_ids in
        ground (
          arith,
          is_among-select db.jobs (is_claimable db.deliveries now) accepted_before limit id
              c.distinct found not_claimable,
          is_among-nil id,
        )
