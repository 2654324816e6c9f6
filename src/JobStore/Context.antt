-- ===== src/JobStore/Context.antt =====
-- The job that delivers in the current context, and what the delivering code does to the store for
-- it (app/core/job_store.py, from `delivery_job_context` on).
use ytdlbot.Prelude.{
  ℕ, ◌≡◌, ◌⊎◌, inl, inr, ap, Bool, true, false, not, Option, none, some, String, List, str_eq,
  if◌then◌else◌, All, all, ◌&&◌,
}
use ytdlbot.JobStore.Schema.{
  Db, DeliveryOutcome, DeliveryRow, StoreError, runtime_error, Result, ok, raise, is_nonempty,
}
use ytdlbot.JobStore.Deliveries.{
  delivery_outcome, record_delivery, begin_delivery_attempts, finalize_delivery_attempt,
  has_unsafe_deliveries, owns_live_job, is_free, are_keys, delivery, attempt,
}
use ytdlbot.JobStore.Retry.{supersede_failed_job}
use ytdlbot.JobStore.Attempts.{begin_delivery_attempts_total}

-- `_DeliveryJobContext`, with its error as a text.
pub record DeliveryJobContext : Type 0 where
  pub job_id : String
  pub owner_id : Option String
  pub error : Option String

-- A caller that raises after its transaction has ended keeps the tables of that transaction.
abbrev pub Told : Type 0
Told = Db × Option StoreError

-- `if not answer: raise RuntimeError(…)`
abbrev pub require : Db → Result Bool → Told
require db (ok true db') = (db', none)
require db (ok false db') = (db', some runtime_error)
require db (raise e) = (db, some e)

abbrev pub told : {A : Type 0} → Db → Result A → Told
told db (ok _ db') = (db', none)
told db (raise e) = (db, some e)

unfoldable pub current_delivery_outcome :
    Option DeliveryJobContext → Db → String → Option DeliveryOutcome
unfolding delivery_outcome
current_delivery_outcome none db item_key = none
current_delivery_outcome (some c) db item_key = delivery_outcome db c.job_id item_key

unfoldable pub record_by :
    Option String → String → Db → String → DeliveryOutcome → Option String → ℕ → Told
unfolding finalize_delivery_attempt record_delivery
record_by (some owner) job_id db item_key outcome delivery_id now =
    require db (finalize_delivery_attempt db job_id item_key outcome owner delivery_id now)
record_by none job_id db item_key outcome delivery_id now =
    told db (record_delivery db job_id item_key outcome delivery_id now)

unfoldable pub record_current_delivery :
    Option DeliveryJobContext → Db → String → DeliveryOutcome → Option String → ℕ → Told
unfolding record_by
record_current_delivery none db item_key outcome delivery_id now = (db, none)
record_current_delivery (some c) db item_key outcome delivery_id now =
    record_by c.owner_id c.job_id db item_key outcome delivery_id now

unfoldable pub begin_by : Option String → String → Db → List String → ℕ → Told
unfolding begin_delivery_attempts
begin_by none job_id db item_keys now = (db, none)
begin_by (some owner) job_id db item_keys now =
    require db (begin_delivery_attempts db job_id item_keys owner now)

unfoldable pub begin_current_delivery : Option DeliveryJobContext → Db → List String → ℕ → Told
unfolding begin_by
begin_current_delivery none db item_keys now = (db, none)
begin_current_delivery (some c) db item_keys now = begin_by c.owner_id c.job_id db item_keys now

abbrev pub current_delivery_job_id : Option DeliveryJobContext → Option String
current_delivery_job_id none = none
current_delivery_job_id (some c) = some c.job_id

unfoldable pub current_job_can_retry : Option DeliveryJobContext → Db → Bool
unfolding has_unsafe_deliveries
current_job_can_retry none db = true
current_job_can_retry (some c) db = not (has_unsafe_deliveries db c.job_id)

unfoldable pub prepare_by : Option String → String → Db → String → ℕ → Result Bool
unfolding supersede_failed_job
prepare_by none job_id db predecessor now = ok false db
prepare_by (some owner) job_id db predecessor now =
    supersede_failed_job db predecessor job_id owner now

unfoldable pub prepare_current_retry :
    Option DeliveryJobContext → Db → Option String → ℕ → Result Bool
unfolding prepare_by
prepare_current_retry none db predecessor now = ok true db
prepare_current_retry (some c) db none now = ok true db
prepare_current_retry (some c) db (some predecessor) now =
    if str_eq predecessor c.job_id
    then ok true db
    else prepare_by c.owner_id c.job_id db predecessor now

-- The first error is kept.
unfoldable pub mark_current_job_failed : DeliveryJobContext → String → DeliveryJobContext
mark_current_job_failed c error = record c {
  error = elim c.error [ none ↦ some error | some first ↦ some first ];
}

-- A delivery that begins in the context of a job and its owner, with valid arguments, raises exactly
-- if the owner has no live claim on the job or an item has a final receipt, and then every table is as
-- it was. Otherwise it does not raise, and every item has an unfinalized, uncertain receipt of this
-- owner: nothing is sent before that is written down.
pub begin_current_delivery_reserves :
    (c : DeliveryJobContext) (owner : String) (db : Db) (items : List String) (now : ℕ)
    → c.owner_id ≡ some owner
    → is_nonempty owner ≡ true
    → are_keys items ≡ true
    → let allowed =
        owns_live_job db c.job_id owner now && all (is_free c.job_id db.deliveries) items in
      ((allowed ≡ false)
        × (begin_current_delivery (some c) db items now ≡ (db, some runtime_error)))
      ⊎ ((allowed ≡ true)
          × ((rows : List DeliveryRow) × ((begin_current_delivery (some c) db items now
                  ≡ (record db { deliveries = rows }, none))
                × All
                    (λ item. delivery c.job_id item rows ≡ some (attempt c.job_id owner item now))
                    items)))
unfolding begin_current_delivery begin_by
begin_current_delivery_reserves c owner db items now owned named keyed =
    elim (begin_delivery_attempts_total db c.job_id items owner now named keyed) [
      | inl (forbidden, refused) ↦ inl (forbidden, rw owned (ap (require db) refused))
      | inr (allowed, (rows, found, reserved)) ↦
          inr (allowed, (rows, (rw owned (ap (require db) found), reserved)))
    ]
