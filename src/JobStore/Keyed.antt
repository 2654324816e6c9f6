-- ===== src/JobStore/Keyed.antt =====
-- The keys of the receipts stay unique: every call of the store keeps the primary key of the table.
use ytdlbot.Prelude.{
  ℕ, ◌≡◌, refl, sym, ◌∙◌, Bool, true, false, String, Option, some, List, [], ◌∷◌, arith, any,
  eq_iff, Bool-cases, Option-cases, inl, inr, some_path,
}
use ytdlbot.Sql.{update_where}
use ytdlbot.Sql.Laws.{any-update_where}
use ytdlbot.JobStore.Schema.{Db, DeliveryRow, DeliveryOutcome, after}
use ytdlbot.JobStore.Deliveries.{
  has_key, upsert, recorded, record_over, record_delivery, attempt, may_reserve, reserve_over,
  reserve_one, reserve_all, begin_delivery_attempts, is_pending_of, finalize_row,
  finalize_delivery_attempt, begin_retry_token,
}
use ytdlbot.JobStore.Receipts.{IsKeyed}
use ytdlbot.JobStore.Call.{Call}
use ytdlbot.JobStore.Transitions.{checkpoint, complete, fail}
use ytdlbot.JobStore.Frames.{
  deliveries-write_probe, deliveries-accept_update, deliveries-supersede_failed_job,
  deliveries-acquire_worker, deliveries-renew_worker, deliveries-release_worker,
  deliveries-claim_recoverable_jobs, deliveries-renew_claim, deliveries-requeue_failed_deliveries,
  deliveries-purge_expired_payloads,
}
use ytdlbot.JobStore.Steps.{step, run, run_induction}

-- A change of a row that leaves its key alone.
abbrev KeepsKey : (DeliveryRow → DeliveryRow) → Type 0
KeepsKey change =
    (d : DeliveryRow) → ((change d).job_id ≡ d.job_id) × ((change d).item_key ≡ d.item_key)

has_key-changed :
    (change : DeliveryRow → DeliveryRow)
    → KeepsKey change
    → (j i : String) (d : DeliveryRow) → has_key j i (change d) ≡ has_key j i d
unfolding has_key
has_key-changed change keeps j i d = rw ((keeps d).0, (keeps d).1) refl

has_key-other :
    (a b : DeliveryRow)
    → has_key a.job_id a.item_key b ≡ false
    → has_key b.job_id b.item_key a ≡ false
unfolding has_key
has_key-other a b h = ground (
  arith,
  eq_iff a.job_id b.job_id,
  eq_iff a.item_key b.item_key,
  eq_iff b.job_id a.job_id,
  eq_iff b.item_key a.item_key,
)

module _ (new : DeliveryRow) (guard : DeliveryRow → Bool) (change : DeliveryRow → DeliveryRow)
    (keeps : KeepsKey change) where
  upsert-absent :
      (j i : String) (rows : List DeliveryRow)
      → any (has_key j i) rows ≡ false
      → has_key j i new ≡ false
      → any (has_key j i) (upsert new guard change rows).1 ≡ false
  unfolding upsert
  upsert-absent j i [] h n = ground arith
  upsert-absent j i (d ∷ rows) h n =
      ground (arith, has_key-changed change keeps j i d, upsert-absent j i rows)

  IsKeyed-upsert :
      (rows : List DeliveryRow) → IsKeyed rows → IsKeyed (upsert new guard change rows).1
  unfolding upsert
  IsKeyed-upsert [] k = (refl, tt)
  IsKeyed-upsert (d ∷ rows) k = elim (Bool-cases (has_key new.job_id new.item_key d)) [
    | inl same ↦ elim (Bool-cases (guard d)) [
      | inl written ↦ rw (same, written) (rw ((keeps d).0, (keeps d).1) k.0, k.1)
      | inr skipped ↦ rw (same, skipped) k
    ]
    | inr other ↦ rw other (
      upsert-absent d.job_id d.item_key rows k.0 (has_key-other new d other),
      IsKeyed-upsert rows k.1,
    )
  ]

IsKeyed-update_where :
    (p : DeliveryRow → Bool) (change : DeliveryRow → DeliveryRow)
    → KeepsKey change
    → (rows : List DeliveryRow) → IsKeyed rows
    → IsKeyed (update_where p change rows)
IsKeyed-update_where p change keeps [] k = tt
IsKeyed-update_where p change keeps (d ∷ rows) k =
    let rest =
      any-update_where (has_key d.job_id d.item_key) p change
        (has_key-changed change keeps d.job_id d.item_key) rows
      ∙ k.0 in
    elim (Bool-cases (p d)) [
      | inl hit ↦
          rw hit (rw ((keeps d).0, (keeps d).1) rest, IsKeyed-update_where p change keeps rows k.1)
      | inr miss ↦ rw miss (rest, IsKeyed-update_where p change keeps rows k.1)
    ]

reserve_all-IsKeyed :
    (job owner : String) (now : ℕ) (items : List String) (rows : List DeliveryRow)
    {rows' : List DeliveryRow}
    → IsKeyed rows
    → reserve_all job owner now items rows ≡ some rows'
    → IsKeyed rows'
unfolding reserve_all reserve_one
reserve_all-IsKeyed job owner now [] rows {rows'} k e =
    rw (sym (some_path {a = rows} {b = rows'} e)) k
reserve_all-IsKeyed job owner now (item ∷ items) rows {rows'} k e =
    elim (Bool-cases (reserve_one job owner now item rows).0) [
      | inl written ↦
          reserve_all-IsKeyed job owner now items (reserve_one job owner now item rows).1
            {rows' = rows'}
            (IsKeyed-upsert (attempt job owner item now) may_reserve (reserve_over owner now)
              (λ d. (refl, refl)) rows k)
            (rw written at e)
      | inr refused ↦ absurd (ground arith)
    ]

module _ (db : Db) (k : IsKeyed db.deliveries) where
  record_delivery-IsKeyed :
      (job item : String) (outcome : DeliveryOutcome) (delivery_id : Option String) (now : ℕ)
      → IsKeyed (after db (record_delivery db job item outcome delivery_id now)).deliveries
  unfolding record_delivery
  record_delivery-IsKeyed job item outcome delivery_id now = ground (
    arith,
    k,
    IsKeyed-upsert (recorded job item outcome delivery_id now) (λ _. true)
        (record_over outcome delivery_id now) (λ d. (refl, refl)) db.deliveries k,
  )

  begin_retry_token-IsKeyed :
      (token : String) (now : ℕ) → IsKeyed (after db (begin_retry_token db token now)).deliveries
  unfolding begin_retry_token
  begin_retry_token-IsKeyed token now = IsKeyed-upsert _ _ _ (λ d. (refl, refl)) db.deliveries k

  begin_delivery_attempts-IsKeyed :
      (job : String) (items : List String) (owner : String) (now : ℕ)
      → IsKeyed (after db (begin_delivery_attempts db job items owner now)).deliveries
  unfolding begin_delivery_attempts
  begin_delivery_attempts-IsKeyed job items owner now =
      elim (Option-cases (reserve_all job owner now items db.deliveries)) [
        | inl e ↦ ground arith
        | inr (rows, e) ↦
            ground (arith, k, reserve_all-IsKeyed job owner now items db.deliveries k e)
      ]

  finalize_delivery_attempt-IsKeyed :
      (job item : String) (outcome : DeliveryOutcome) (owner : String) (delivery_id : Option String)
      (now : ℕ)
      → IsKeyed
          (after db
            (finalize_delivery_attempt db job item outcome owner delivery_id now)).deliveries
  unfolding finalize_delivery_attempt
  finalize_delivery_attempt-IsKeyed job item outcome owner delivery_id now = ground (
    arith,
    k,
    IsKeyed-update_where (is_pending_of job item owner) (finalize_row outcome delivery_id now)
        (λ d. (refl, refl)) db.deliveries k,
  )

step-IsKeyed :
    (retention : ℕ) (db : Db) (call : Call)
    → IsKeyed db.deliveries
    → IsKeyed (step retention db call).deliveries
unfolding step checkpoint complete fail
step-IsKeyed retention db (Call.begin_retry_token token now) h =
    begin_retry_token-IsKeyed db h token now
step-IsKeyed retention db (Call.record_delivery job item outcome delivery now) h =
    record_delivery-IsKeyed db h job item outcome delivery now
step-IsKeyed retention db (Call.begin_delivery_attempts job items owner now) h =
    begin_delivery_attempts-IsKeyed db h job items owner now
step-IsKeyed retention db (Call.finalize_delivery_attempt job item outcome owner delivery now) h =
    finalize_delivery_attempt-IsKeyed db h job item outcome owner delivery now
step-IsKeyed retention db (Call.write_probe now) h = rw (deliveries-write_probe db now) h
step-IsKeyed retention db (Call.accept_update payload now) h =
    rw (deliveries-accept_update db payload retention now) h
step-IsKeyed retention db (Call.supersede_failed_job job successor owner now) h =
    rw (deliveries-supersede_failed_job db job successor owner now) h
step-IsKeyed retention db (Call.acquire_worker owner lease now) h =
    rw (deliveries-acquire_worker db owner lease now) h
step-IsKeyed retention db (Call.renew_worker owner lease now) h =
    rw (deliveries-renew_worker db owner lease now) h
step-IsKeyed retention db (Call.release_worker owner) h = rw (deliveries-release_worker db owner) h
step-IsKeyed retention db (Call.claim_recoverable_jobs owner limit lease now) h =
    rw (deliveries-claim_recoverable_jobs db owner limit lease now) h
step-IsKeyed retention db (Call.renew_claim job owner lease now) h =
    rw (deliveries-renew_claim db job owner lease now) h
step-IsKeyed retention db (Call.checkpoint job fields owner now) h = h
step-IsKeyed retention db (Call.complete job owner now) h = h
step-IsKeyed retention db (Call.fail job error owner now) h = h
step-IsKeyed retention db (Call.requeue_failed_deliveries limit now) h =
    rw (deliveries-requeue_failed_deliveries db limit now) h
step-IsKeyed retention db (Call.purge_expired_payloads limit now) h =
    rw (deliveries-purge_expired_payloads db limit now) h

-- In a store where no item of a job has two receipts, no sequence of calls, by any owner and at any
-- clock readings, makes a second one.
pub run-IsKeyed :
    (retention : ℕ) (db : Db) (calls : List Call)
    → IsKeyed db.deliveries
    → IsKeyed (run retention db calls).deliveries
run-IsKeyed retention =
    run_induction (λ db. IsKeyed db.deliveries) retention (step-IsKeyed retention)
