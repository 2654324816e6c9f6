-- ===== src/JobStore/Deliveries.antt =====
-- Delivery receipts: one row for each item of a job, and when an outcome may be overwritten.
use ytdlbot.Prelude.{
  ℕ, Bool, true, false, not, String, Option, none, some, List, [], ◌∷◌, ◌&&◌, ◌||◌, str_eq,
  if◌then◌else◌, any, all, find, ◌==◌,
}
use Prim.Native.String.{◌++◌}
use ytdlbot.Sql.{update_where, count_where}
use ytdlbot.JobStore.Schema.{
  Db, JobRow, DeliveryRow, DeliveryOutcome, uncertain, Result, ok, raise, value_error,
  runtime_error, running, state_eq, is_settled, is_live_until, is_owned_by, holds_lease,
  is_nonempty,
}

abbrev pub whole_job : String
whole_job = "__job__"

-- The primary key of the table.
unfoldable pub has_key : String → String → DeliveryRow → Bool
has_key job_id item_key d = str_eq d.job_id job_id && str_eq d.item_key item_key

unfoldable pub delivery : String → String → List DeliveryRow → Option DeliveryRow
delivery job_id item_key rows = find (has_key job_id item_key) rows

-- INSERT … ON CONFLICT(job_id, item_key) DO UPDATE SET … WHERE …, with whether it wrote a row.
unfoldable pub upsert :
    DeliveryRow
    → (DeliveryRow → Bool)
    → (DeliveryRow → DeliveryRow)
    → List DeliveryRow
    → Bool × List DeliveryRow
upsert new guard change [] = (true, new ∷ [])
upsert new guard change (d ∷ rows) =
    let (written, rest) = upsert new guard change rows in
    if has_key new.job_id new.item_key d
    then (if guard d then (true, change d ∷ rows) else (false, d ∷ rows))
    else (written, d ∷ rest)

-- A finalized receipt of an item that was sent, or may have been.
abbrev pub is_final : DeliveryRow → Bool
is_final d = d.finalized && is_settled d.outcome

-- The CASE expressions of `_record_delivery_sync`.
abbrev pub record_over : DeliveryOutcome → Option String → ℕ → DeliveryRow → DeliveryRow
record_over outcome delivery_id now d = record d {
  outcome = if is_final d then d.outcome else outcome;
  delivery_id = if is_final d then d.delivery_id else delivery_id;
  updated_at = now;
  finalized = true;
  owner_id = none;
}

-- The row that the INSERT of `_record_delivery_sync` names.
abbrev pub recorded : String → String → DeliveryOutcome → Option String → ℕ → DeliveryRow
recorded job_id item_key outcome delivery_id now = record {
  job_id = job_id;
  item_key = item_key;
  outcome = outcome;
  delivery_id = delivery_id;
  updated_at = now;
  finalized = true;
  owner_id = none;
}

unfoldable pub record_delivery_sync :
    Db → String → String → DeliveryOutcome → Option String → ℕ → Result DeliveryOutcome
record_delivery_sync db job_id item_key outcome delivery_id now =
    let (_, rows) =
      upsert (recorded job_id item_key outcome delivery_id now) (λ _. true)
        (record_over outcome delivery_id now) db.deliveries in
    elim (delivery job_id item_key rows) [
      | none ↦ raise runtime_error
      | some d ↦ ok d.outcome (record db { deliveries = rows })
    ]

-- An empty key is a ValueError.
unfoldable pub record_delivery :
    Db → String → String → DeliveryOutcome → Option String → ℕ → Result DeliveryOutcome
unfolding record_delivery_sync
record_delivery db job_id item_key outcome delivery_id now =
    if is_nonempty item_key
    then record_delivery_sync db job_id item_key outcome delivery_id now
    else raise value_error

-- `_owns_live_job`: a running job, claimed by the owner of the worker lease, both unexpired.
abbrev pub is_live_claim : String → String → ℕ → JobRow → Bool
is_live_claim job_id owner now r =
    str_eq r.job_id job_id
    && (state_eq r.state running
        && (is_owned_by r.owner_id owner && is_live_until r.claim_expires_at now))

unfoldable pub owns_live_job : Db → String → String → ℕ → Bool
owns_live_job db job_id owner now =
    any (is_live_claim job_id owner now) db.jobs && holds_lease db.worker_lease owner now

-- The reservation that `_begin_delivery_attempts_sync` writes for one item.
abbrev pub attempt : String → String → String → ℕ → DeliveryRow
attempt job_id owner item_key now = record {
  job_id = job_id;
  item_key = item_key;
  outcome = uncertain;
  delivery_id = none;
  updated_at = now;
  finalized = false;
  owner_id = some owner;
}

abbrev pub reserve_over : String → ℕ → DeliveryRow → DeliveryRow
reserve_over owner now d = record d {
  outcome = uncertain;
  delivery_id = none;
  updated_at = now;
  finalized = false;
  owner_id = some owner;
}

-- WHERE deliveries.outcome = 'failed' OR deliveries.finalized = 0
unfoldable pub may_reserve : DeliveryRow → Bool
unfolding is_settled
may_reserve d = not (is_settled d.outcome) || not d.finalized

unfoldable pub reserve_one :
    String → String → ℕ → String → List DeliveryRow → Bool × List DeliveryRow
unfolding upsert may_reserve
reserve_one job_id owner now item_key rows =
    upsert (attempt job_id owner item_key now) may_reserve (reserve_over owner now) rows

-- The second loop; `none` where a row count is not 1, which raises and rolls back.
unfoldable pub reserve_all :
    String → String → ℕ → List String → List DeliveryRow → Option (List DeliveryRow)
unfolding reserve_one
reserve_all job_id owner now [] rows = some rows
reserve_all job_id owner now (key ∷ keys) rows =
    let (written, rows') = reserve_one job_id owner now key rows in
    let rest = reserve_all job_id owner now keys rows' in if written then rest else none

-- The first loop's test: the item has no final receipt.
unfoldable pub is_free : String → List DeliveryRow → String → Bool
unfolding delivery is_settled
is_free job_id rows item_key = elim (delivery job_id item_key rows) [
  | none ↦ true
  | some d ↦ not (is_final d)
]

unfoldable pub begin_delivery_attempts_sync : Db → String → List String → String → ℕ → Result Bool
begin_delivery_attempts_sync db job_id item_keys owner now =
    if owns_live_job db job_id owner now
    then if all (is_free job_id db.deliveries) item_keys
      then elim (reserve_all job_id owner now item_keys db.deliveries) [
        | none ↦ raise runtime_error
        | some rows ↦ ok true (record db { deliveries = rows })
      ]
      else ok false db
    else ok false db

-- At least one key, and none of them empty.
unfoldable pub are_keys : List String → Bool
unfolding is_nonempty
are_keys [] = false
are_keys (key ∷ keys) = is_nonempty key && all is_nonempty keys

unfoldable pub begin_delivery_attempts : Db → String → List String → String → ℕ → Result Bool
unfolding begin_delivery_attempts_sync
begin_delivery_attempts db job_id item_keys owner now =
    if is_nonempty owner && are_keys item_keys
    then begin_delivery_attempts_sync db job_id item_keys owner now
    else raise value_error

-- WHERE job_id = ? AND item_key = ? AND finalized = 0 AND owner_id = ?
abbrev pub is_pending_of : String → String → String → DeliveryRow → Bool
is_pending_of job_id item_key owner d =
    has_key job_id item_key d && (not d.finalized && is_owned_by d.owner_id owner)

abbrev pub finalize_row : DeliveryOutcome → Option String → ℕ → DeliveryRow → DeliveryRow
finalize_row outcome delivery_id now d = record d {
  outcome = outcome;
  delivery_id = delivery_id;
  updated_at = now;
  finalized = true;
  owner_id = none;
}

unfoldable pub finalize_delivery_attempt_sync :
    Db → String → String → DeliveryOutcome → String → Option String → ℕ → Result Bool
finalize_delivery_attempt_sync db job_id item_key outcome owner delivery_id now =
    if owns_live_job db job_id owner now
    then ok (count_where (is_pending_of job_id item_key owner) db.deliveries == 1) (record db {
      deliveries =
          update_where (is_pending_of job_id item_key owner) (finalize_row outcome delivery_id now)
            db.deliveries;
    })
    else ok false db

unfoldable pub finalize_delivery_attempt :
    Db → String → String → DeliveryOutcome → String → Option String → ℕ → Result Bool
unfolding finalize_delivery_attempt_sync
finalize_delivery_attempt db job_id item_key outcome owner delivery_id now =
    if is_nonempty owner && is_nonempty item_key
    then finalize_delivery_attempt_sync db job_id item_key outcome owner delivery_id now
    else raise value_error

unfoldable pub delivery_outcome : Db → String → String → Option DeliveryOutcome
delivery_outcome db job_id item_key = elim (delivery job_id item_key db.deliveries) [
  | none ↦ none
  | some d ↦ some d.outcome
]

-- Not after an outcome of success or uncertainty.
unfoldable pub should_deliver : Db → String → String → Bool
unfolding delivery_outcome is_settled
should_deliver db job_id item_key = elim (delivery_outcome db job_id item_key) [
  | none ↦ true
  | some outcome ↦ not (is_settled outcome)
]

-- SELECT 1 FROM deliveries WHERE job_id = ? AND outcome != 'failed', and = 'failed'.
unfoldable pub has_unsafe_deliveries : Db → String → Bool
unfolding is_settled
has_unsafe_deliveries db job_id =
    any (λ d. str_eq d.job_id job_id && is_settled d.outcome) db.deliveries

unfoldable pub has_failed_deliveries : Db → String → Bool
unfolding is_settled
has_failed_deliveries db job_id =
    any (λ d. str_eq d.job_id job_id && not (is_settled d.outcome)) db.deliveries

unfoldable pub begin_retry_token : Db → String → ℕ → Result Bool
begin_retry_token db token now =
    let new : DeliveryRow = record {
      job_id = "retry:" ++ token;
      item_key = whole_job;
      outcome = uncertain;
      delivery_id = none;
      updated_at = now;
      finalized = false;
      owner_id = none;
    } in
    let (written, rows) =
      upsert new (λ d. not (is_settled d.outcome) && d.finalized)
        (λ d. record d { outcome = uncertain; updated_at = now; finalized = false })
        db.deliveries in
    ok written (record db { deliveries = rows })
