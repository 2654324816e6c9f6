-- ===== src/JobStore/Attempts.antt =====
-- Reserving delivery attempts: all of them or none, and never an error.
use ytdlbot.Prelude.{
  ℕ, ◌≡◌, ◌⊎◌, inl, inr, refl, ◌∙◌, Bool, true, false, ◌&&◌, String, none, some, List, [], ◌∷◌, All,
  all, arith, str_eq, eq_iff, Option-cases, Bool-cases,
}
use ytdlbot.JobStore.Schema.{Db, DeliveryRow, ok, is_nonempty}
use ytdlbot.JobStore.Deliveries.{
  has_key, delivery, upsert, attempt, reserve_over, may_reserve, reserve_one, reserve_all, is_free,
  begin_delivery_attempts, are_keys, owns_live_job,
}

module _ (new : DeliveryRow) (guard : DeliveryRow → Bool) (change : DeliveryRow → DeliveryRow) where
  -- What an upsert leaves under its own key, and whether it wrote.
  upsert_self :
      ((d : DeliveryRow)
        → has_key new.job_id new.item_key (change d) ≡ has_key new.job_id new.item_key d)
      → has_key new.job_id new.item_key new ≡ true
      → (rows : List DeliveryRow)
      → elim (delivery new.job_id new.item_key rows) [ none ↦ true | some d ↦ guard d ] ≡ true
      → ((upsert new guard change rows).0 ≡ true)
        × (delivery new.job_id new.item_key (upsert new guard change rows).1
            ≡ elim (delivery new.job_id new.item_key rows) [
              | none ↦ some new
              | some d ↦ some (change d)
            ])
  unfolding upsert delivery
  upsert_self same self [] pass = ground arith
  upsert_self same self (d ∷ rows) pass = ground (arith, same d, upsert_self same self rows)

  -- What it leaves under another key.
  upsert_other :
      (j i : String)
      → ((d : DeliveryRow)
          → has_key new.job_id new.item_key d ≡ true
          → (has_key j i d ≡ false) × (has_key j i (change d) ≡ false))
      → has_key j i new ≡ false
      → (rows : List DeliveryRow)
      → delivery j i (upsert new guard change rows).1 ≡ delivery j i rows
  unfolding upsert delivery
  upsert_other j i apart new_apart [] = ground arith
  upsert_other j i apart new_apart (d ∷ rows) =
      ground (arith, apart d, upsert_other j i apart new_apart rows)

-- A receipt that is not final may be reserved.
free-may_reserve :
    (job key : String) (rows : List DeliveryRow)
    → is_free job rows key ≡ true
    → elim (delivery job key rows) [ none ↦ true | some d ↦ may_reserve d ] ≡ true
unfolding is_free may_reserve
free-may_reserve job key rows h = ground arith

has_key_self :
    (job key : String) (d : DeliveryRow)
    → d.job_id ≡ job
    → d.item_key ≡ key
    → has_key job key d ≡ true
unfolding has_key
has_key_self job key d e f = ground (arith, eq_iff d.job_id job, eq_iff d.item_key key)

has_key_path :
    (job key : String) (d : DeliveryRow)
    → has_key job key d ≡ true
    → (d.job_id ≡ job) × (d.item_key ≡ key)
unfolding has_key
has_key_path job key d h = ground (arith, eq_iff d.job_id job, eq_iff d.item_key key)

delivery-has_key :
    (job key : String) (rows : List DeliveryRow) {d : DeliveryRow}
    → delivery job key rows ≡ some d
    → has_key job key d ≡ true
unfolding delivery
delivery-has_key job key [] h = cc
delivery-has_key job key (r ∷ rows) {d} h = ground (arith, delivery-has_key job key rows {d = d})

module _ (job owner : String) (now : ℕ) where
  over-attempt :
      (key : String) (d : DeliveryRow)
      → has_key job key d ≡ true
      → reserve_over owner now d ≡ attempt job owner key now
  over-attempt key d h = ground (arith, has_key_path job key d h)

  reserve_one-written :
      (key : String) (rows : List DeliveryRow)
      → is_free job rows key ≡ true
      → ((reserve_one job owner now key rows).0 ≡ true)
        × (delivery job key (reserve_one job owner now key rows).1
            ≡ some (attempt job owner key now))
  unfolding reserve_one
  reserve_one-written key rows h =
      let self =
        upsert_self (attempt job owner key now) may_reserve (reserve_over owner now)
          (λ d. unfold has_key in refl) (has_key_self job key _ refl refl) rows
          (free-may_reserve job key rows h) in
      elim (Option-cases (delivery job key rows)) [
        | inl e ↦ (self.0, ground (arith, self.1))
        | inr (d, e) ↦
            (self.0, ground (arith, self.1, over-attempt key d (delivery-has_key job key rows e)))
      ]

  apart :
      (key other : String) (d : DeliveryRow)
      → str_eq other key ≡ false
      → has_key job key d ≡ true
      → has_key job other d ≡ false
  unfolding has_key
  apart key other d ne h =
      ground (arith, eq_iff d.item_key key, eq_iff d.item_key other, eq_iff other key)

  reserve_one-other :
      (key other : String) (rows : List DeliveryRow)
      → str_eq other key ≡ false
      → delivery job other (reserve_one job owner now key rows).1 ≡ delivery job other rows
  unfolding reserve_one
  reserve_one-other key other rows ne =
      upsert_other (attempt job owner key now) may_reserve (reserve_over owner now) job other
        (λ d h. (apart key other d ne h, unfold has_key in apart key other d ne h))
        (apart key other (attempt job owner key now) ne (has_key_self job key _ refl refl)) rows

  -- Reserving one item leaves the others as free, and as reserved, as they were.
  reserve_one-free :
      (key other : String) (rows : List DeliveryRow)
      → is_free job rows key ≡ true
      → is_free job rows other ≡ true
      → is_free job (reserve_one job owner now key rows).1 other ≡ true
  unfolding is_free
  reserve_one-free key other rows k h = elim (Bool-cases (str_eq other key)) [
    | inr ne ↦ ground (arith, reserve_one-other key other rows ne)
    | inl e ↦ rw ((eq_iff other key).0 e) (ground (arith, (reserve_one-written key rows k).1))
  ]

  reserve_one-reserved :
      (key other : String) (rows : List DeliveryRow)
      → is_free job rows key ≡ true
      → delivery job other rows ≡ some (attempt job owner other now)
      → delivery job other (reserve_one job owner now key rows).1
        ≡ some (attempt job owner other now)
  reserve_one-reserved key other rows k h = elim (Bool-cases (str_eq other key)) [
    | inr ne ↦ reserve_one-other key other rows ne ∙ h
    | inl e ↦ rw ((eq_iff other key).0 e) (reserve_one-written key rows k).1
  ]

  all-free :
      (key : String) (keys : List String) (rows : List DeliveryRow)
      → is_free job rows key ≡ true
      → all (is_free job rows) keys ≡ true
      → all (is_free job (reserve_one job owner now key rows).1) keys ≡ true
  all-free key [] rows k h = refl
  all-free key (other ∷ keys) rows k h =
      ground (arith, reserve_one-free key other rows k, all-free key keys rows k)

  abbrev IsReserved : List DeliveryRow → String → Type 0
  IsReserved rows key = delivery job key rows ≡ some (attempt job owner key now)

  reserve_all-IsReserved :
      (keys : List String) (rows : List DeliveryRow)
      → all (is_free job rows) keys ≡ true
      → (rows' : List DeliveryRow) × (reserve_all job owner now keys rows ≡ some rows')
        × All (IsReserved rows') keys
        × ((key : String) → IsReserved rows key → IsReserved rows' key)
  unfolding reserve_all
  reserve_all-IsReserved [] rows h = (rows, refl, tt, λ key r. r)
  reserve_all-IsReserved (key ∷ keys) rows h =
      let k : is_free job rows key ≡ true = ground arith in
      let (written, reserved) = reserve_one-written key rows k in
      let (rows', found, others, keeps) =
        reserve_all-IsReserved keys (reserve_one job owner now key rows).1
          (all-free key keys rows k (ground arith)) in
      (
        rows',
        rw written found,
        (keeps key reserved, others),
        λ other r. keeps other (reserve_one-reserved key other rows k r),
      )

-- A valid request to begin delivery attempts never raises. Without a live claim, or with a final
-- receipt on any of its items, it answers false and writes nothing; otherwise it answers true, and
-- every one of its items has an unfinalized, uncertain receipt of this owner.
pub begin_delivery_attempts_total :
    (db : Db) (job : String) (items : List String) (owner : String) (now : ℕ)
    → is_nonempty owner ≡ true
    → are_keys items ≡ true
    → let allowed = owns_live_job db job owner now && all (is_free job db.deliveries) items in
      ((allowed ≡ false) × (begin_delivery_attempts db job items owner now ≡ ok false db))
      ⊎ ((allowed ≡ true)
          × ((rows : List DeliveryRow) × (begin_delivery_attempts db job items owner now
                ≡ ok true (record db { deliveries = rows }))
              × All (λ item. delivery job item rows ≡ some (attempt job owner item now)) items))
unfolding begin_delivery_attempts
begin_delivery_attempts_total db job items owner now named keyed =
    elim (Bool-cases (owns_live_job db job owner now)) [
      | inr dead ↦ inl (ground arith, ground arith)
      | inl live ↦ elim (Bool-cases (all (is_free job db.deliveries) items)) [
        | inr taken ↦ inl (ground arith, ground arith)
        | inl free ↦
            let (rows, found, reserved, _) =
              reserve_all-IsReserved job owner now items db.deliveries free in
            inr (ground arith, (rows, ground (arith, found), reserved))
      ]
    ]
