-- ===== src/JobStore/Settled.antt =====
-- The final receipts of the deliveries table: which writes can touch them.
use ytdlbot.Prelude.{
  ℕ, ◌≡◌, refl, inl, inr, Bool, true, not, String, Option, none, some, List, [], ◌∷◌, ◌&&◌,
  if◌then◌else◌, Option-cases, arith,
}
use ytdlbot.Sql.{update_where}
use ytdlbot.JobStore.Schema.{Db, DeliveryRow, DeliveryOutcome, is_settled, after}
use ytdlbot.JobStore.Deliveries.{
  attempt, has_key, delivery, upsert, is_final, record_over, recorded, record_delivery,
  reserve_over, may_reserve, reserve_one, reserve_all, begin_delivery_attempts, is_pending_of,
  finalize_row, finalize_delivery_attempt, begin_retry_token,
}

-- What a final receipt says; nothing for any other row.
unfoldable pub receipt : DeliveryRow → Option (DeliveryOutcome × Option String)
unfolding is_settled
receipt d = if is_final d then some (d.outcome, d.delivery_id) else none

-- The final receipt of an item, if it has one.
unfoldable pub settled :
    String → String → List DeliveryRow → Option (DeliveryOutcome × Option String)
unfolding delivery
settled job_id item_key rows = elim (delivery job_id item_key rows) [
  | none ↦ none
  | some d ↦ receipt d
]

module _ {x : DeliveryOutcome × Option String} (new : DeliveryRow) (guard : DeliveryRow → Bool)
    (change : DeliveryRow → DeliveryRow)
    (keeps : (d : DeliveryRow) → guard d ≡ true → receipt d ≡ some x → receipt (change d) ≡ some x)
    (same_key : (j i : String) (d : DeliveryRow) → has_key j i (change d) ≡ has_key j i d) where
  settled-upsert :
      (j i : String) (rows : List DeliveryRow)
      → settled j i rows ≡ some x
      → settled j i (upsert new guard change rows).1 ≡ some x
  unfolding settled upsert
  settled-upsert j i [] h = cc
  settled-upsert j i (d ∷ rows) h = ground (arith, keeps d, same_key j i d, settled-upsert j i rows)

module _ {x : DeliveryOutcome × Option String} (p : DeliveryRow → Bool)
    (change : DeliveryRow → DeliveryRow)
    (keeps : (d : DeliveryRow) → p d ≡ true → receipt d ≡ some x → receipt (change d) ≡ some x)
    (same_key : (j i : String) (d : DeliveryRow) → has_key j i (change d) ≡ has_key j i d) where
  settled-update_where :
      (j i : String) (rows : List DeliveryRow)
      → settled j i rows ≡ some x
      → settled j i (update_where p change rows) ≡ some x
  unfolding settled
  settled-update_where j i [] h = cc
  settled-update_where j i (d ∷ rows) h =
      ground (arith, keeps d, same_key j i d, settled-update_where j i rows)

-- A final receipt is not free, so no attempt may reserve it or finalize it again.
not_reserved :
    {x : DeliveryOutcome × Option String} (d : DeliveryRow)
    → may_reserve d ≡ true
    → receipt d ≡ some x
    → ⊥
unfolding may_reserve receipt
not_reserved d g h = ground arith

receipt-record_over :
    {x : DeliveryOutcome × Option String} (outcome : DeliveryOutcome) (delivery_id : Option String)
    (now : ℕ) (d : DeliveryRow)
    → receipt d ≡ some x
    → receipt (record_over outcome delivery_id now d) ≡ some x
unfolding receipt
receipt-record_over outcome delivery_id now d h = ground arith

not_retried :
    {x : DeliveryOutcome × Option String} (d : DeliveryRow)
    → (not (is_settled d.outcome) && d.finalized) ≡ true
    → receipt d ≡ some x
    → ⊥
unfolding receipt
not_retried d g h = ground arith

not_pending :
    {x : DeliveryOutcome × Option String} (job_id item_key owner : String) (d : DeliveryRow)
    → is_pending_of job_id item_key owner d ≡ true
    → receipt d ≡ some x
    → ⊥
unfolding receipt
not_pending job_id item_key owner d g h = ground arith

module _ {x : DeliveryOutcome × Option String} (j i : String) where
  reserve_all-settled :
      (job_id owner : String) (now : ℕ) (keys : List String) (rows : List DeliveryRow)
      {rows' : List DeliveryRow}
      → settled j i rows ≡ some x
      → reserve_all job_id owner now keys rows ≡ some rows'
      → settled j i rows' ≡ some x
  unfolding reserve_all has_key
  reserve_all-settled job_id owner now [] rows h e = ground arith
  reserve_all-settled job_id owner now (key ∷ keys) rows {rows' = rows'} h e = ground (
    arith,
    settled-upsert (attempt job_id owner key now) may_reserve (reserve_over owner now)
        (λ d g h. absurd (not_reserved d g h)) (λ _ _ _. refl) j i rows h,
    reserve_all-settled job_id owner now keys (reserve_one job_id owner now key rows).1
        {rows' = rows'},
  )

module _ {x : DeliveryOutcome × Option String} (j i : String) (db : Db)
    (final : settled j i db.deliveries ≡ some x) where
  pub record_delivery-settled :
      (job_id item_key : String) (outcome : DeliveryOutcome) (delivery_id : Option String) (now : ℕ)
      → settled j i
          (after db (record_delivery db job_id item_key outcome delivery_id now)).deliveries
        ≡ some x
  unfolding record_delivery has_key
  record_delivery-settled job_id item_key outcome delivery_id now = ground (
    arith,
    settled-upsert (recorded job_id item_key outcome delivery_id now) (λ _. true)
        (record_over outcome delivery_id now)
        (λ d _ h. receipt-record_over outcome delivery_id now d h) (λ _ _ _. refl) j i db.deliveries
        final,
  )

  pub begin_retry_token-settled :
      (token : String) (now : ℕ)
      → settled j i (after db (begin_retry_token db token now)).deliveries ≡ some x
  unfolding begin_retry_token has_key
  begin_retry_token-settled token now =
      settled-upsert _ _ _ (λ d g h. absurd (not_retried d g h)) (λ _ _ _. refl) j i db.deliveries
        final

  pub begin_delivery_attempts-settled :
      (job_id : String) (keys : List String) (owner : String) (now : ℕ)
      → settled j i (after db (begin_delivery_attempts db job_id keys owner now)).deliveries
        ≡ some x
  unfolding begin_delivery_attempts
  begin_delivery_attempts-settled job_id keys owner now =
      elim (Option-cases (reserve_all job_id owner now keys db.deliveries)) [
        | inl e ↦ ground arith
        | inr (rows, e) ↦
            ground (arith, reserve_all-settled j i job_id owner now keys db.deliveries final e)
      ]

  pub finalize_delivery_attempt-settled :
      (job_id item_key : String) (outcome : DeliveryOutcome) (owner : String)
      (delivery_id : Option String) (now : ℕ)
      → settled j i
          (after db
            (finalize_delivery_attempt db job_id item_key outcome owner delivery_id now)).deliveries
        ≡ some x
  unfolding finalize_delivery_attempt has_key
  finalize_delivery_attempt-settled job_id item_key outcome owner delivery_id now = ground (
    arith,
    settled-update_where (is_pending_of job_id item_key owner)
        (finalize_row outcome delivery_id now)
        (λ d g h. absurd (not_pending job_id item_key owner d g h)) (λ _ _ _. refl) j i
        db.deliveries final,
  )
