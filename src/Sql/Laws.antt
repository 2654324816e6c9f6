-- ===== src/Sql/Laws.antt =====
-- What an UPDATE, a WHERE, an ORDER BY and a LIMIT keep of the rows.
use ytdlbot.Prelude.{
  map, ap, ◌+◌, ℕ, zero, suc, ◌≡◌, ◌≤◌, refl, Bool, true, false, ◌||◌, ◌&&◌, List, [], ◌∷◌, ◌++◌,
  if◌then◌else◌, length, any, filter, take, All, arith,
}
use ytdlbot.Sql.{update_where, count_where, insert_by, order_by}

module _ {ℓ κ} {A : Type ℓ} (P : A → Type κ) where
  pub All-update_where :
      (p : A → Bool) (f : A → A)
      → ((x : A) → p x ≡ true → P x → P (f x))
      → (xs : List A) → All P xs
      → All P (update_where p f xs)
  All-update_where p f keep [] h = tt
  All-update_where p f keep (x ∷ xs) h = (if_All (p x) (keep x), All-update_where p f keep xs h.1)
    where
      if_All : (b : Bool) → (b ≡ true → P x → P (f x)) → P (if b then f x else x)
      if_All true k = k refl h.0
      if_All false k = h.0

  pub All-filter :
      (p : A → Bool) (xs : List A) → All (λ x. p x ≡ true → P x) xs → All P (filter p xs)
  All-filter p [] h = tt
  All-filter p (x ∷ xs) h = keep (p x) refl (All-filter p xs h.1)
    where
      keep :
          (b : Bool)
          → p x ≡ b
          → All P (filter p xs)
          → All P (if b then x ∷ filter p xs else filter p xs)
      keep true e rest = (h.0 e, rest)
      keep false e rest = rest

  pub All-append : (xs ys : List A) → All P xs → All P ys → All P (xs ++ ys)
  All-append [] ys hx hy = hy
  All-append (x ∷ xs) ys hx hy = (hx.0, All-append xs ys hx.1 hy)

module _ {ℓ} {A : Type ℓ} where
  -- A test that the change does not affect finds the same after an UPDATE.
  pub any-update_where :
      (q p : A → Bool) (f : A → A)
      → ((x : A) → q (f x) ≡ q x)
      → (xs : List A) → any q (update_where p f xs) ≡ any q xs
  any-update_where q p f same [] = refl
  any-update_where q p f same (x ∷ xs) = ground (arith, same x, any-update_where q p f same xs)

  pub any-append : (q : A → Bool) (xs ys : List A) → any q (xs ++ ys) ≡ (any q xs || any q ys)
  any-append q [] ys = refl
  any-append q (x ∷ xs) ys = ground (arith, any-append q xs ys)

  pub any-insert_by :
      (q : A → Bool) (le : A → A → Bool) (a : A) (xs : List A)
      → any q (insert_by le a xs) ≡ (q a || any q xs)
  unfolding insert_by
  any-insert_by q le a [] = refl
  any-insert_by q le a (x ∷ xs) = ground (arith, any-insert_by q le a xs)

  pub any-order_by :
      (q : A → Bool) (le : A → A → Bool) (xs : List A) → any q (order_by le xs) ≡ any q xs
  unfolding order_by
  any-order_by q le [] = refl
  any-order_by q le (x ∷ xs) =
      ground (arith, any-insert_by q le x (order_by le xs), any-order_by q le xs)

  pub any-take : (q : A → Bool) (n : ℕ) (xs : List A) → any q (take n xs) ≡ true → any q xs ≡ true
  any-take q zero xs h = ground arith
  any-take q (suc n) [] h = h
  any-take q (suc n) (x ∷ xs) h = ground (arith, any-take q n xs)

  pub any-filter : (q p : A → Bool) (xs : List A) → any q (filter p xs) ≡ any (λ x. p x && q x) xs
  any-filter q p [] = refl
  any-filter q p (x ∷ xs) = ground (arith, any-filter q p xs)

  pub length-take-le : (n : ℕ) (xs : List A) → length (take n xs) ≤ n
  length-take-le zero xs = omega arith
  length-take-le (suc n) [] = omega arith
  length-take-le (suc n) (x ∷ xs) = omega (arith, length-take-le n xs)

  pub update_where-false : (f : A → A) (xs : List A) → update_where (λ _. false) f xs ≡ xs
  update_where-false f [] = refl
  update_where-false f (x ∷ xs) = rw (update_where-false f xs)

  -- An UPDATE whose WHERE no row passes.
  pub update_where_none :
      (p : A → Bool) (f : A → A)
      → ((x : A) → p x ≡ false)
      → (xs : List A) → update_where p f xs ≡ xs
  update_where_none p f none_pass [] = refl
  update_where_none p f none_pass (x ∷ xs) = rw (none_pass x, update_where_none p f none_pass xs)

  pub count_where_none :
      (p : A → Bool) → ((x : A) → p x ≡ false) → (xs : List A) → count_where p xs ≡ 0
  count_where_none p none_pass [] = refl
  count_where_none p none_pass (x ∷ xs) = rw (none_pass x) (count_where_none p none_pass xs)

module _ {ℓ κ} {A : Type ℓ} (P : A → Type κ) (le : A → A → Bool) where
  All-insert_by : (a : A) (xs : List A) → P a → All P xs → All P (insert_by le a xs)
  unfolding insert_by
  All-insert_by a [] pa h = (pa, tt)
  All-insert_by a (x ∷ xs) pa h = place (le a x) (All-insert_by a xs pa h.1)
    where
      place :
          (b : Bool)
          → All P (insert_by le a xs)
          → All P (if b then a ∷ x ∷ xs else x ∷ insert_by le a xs)
      place true rest = (pa, h)
      place false rest = (h.0, rest)

  pub All-order_by : (xs : List A) → All P xs → All P (order_by le xs)
  unfolding order_by
  All-order_by [] h = tt
  All-order_by (x ∷ xs) h = All-insert_by x (order_by le xs) h.0 (All-order_by xs h.1)

module _ {ℓ} {A : Type ℓ} where
  length-insert_by :
      (le : A → A → Bool) (a : A) (xs : List A) → length (insert_by le a xs) ≡ suc (length xs)
  unfolding insert_by
  length-insert_by le a [] = refl
  length-insert_by le a (x ∷ xs) = ground (arith, length-insert_by le a xs)

  pub length-order_by : (le : A → A → Bool) (xs : List A) → length (order_by le xs) ≡ length xs
  unfolding order_by
  length-order_by le [] = refl
  length-order_by le (x ∷ xs) =
      omega (arith, length-insert_by le x (order_by le xs), length-order_by le xs)

  -- A SELECT after an UPDATE with the same WHERE finds as many rows as were written.
  pub length-filter-update_where :
      (p : A → Bool) (f : A → A)
      → ((x : A) → p (f x) ≡ p x)
      → (xs : List A) → length (filter p (update_where p f xs)) ≡ count_where p xs
  length-filter-update_where p f same [] = refl
  length-filter-update_where p f same (x ∷ xs) =
      ground (arith, same x, length-filter-update_where p f same xs)

  pub length-map {κ} : {B : Type κ} (f : A → B) (xs : List A) → length (map f xs) ≡ length xs
  length-map f [] = refl
  length-map f (x ∷ xs) = ap suc (length-map f xs)

  pub count_where_or :
      (p q : A → Bool) (xs : List A)
      → count_where (λ x. p x || q x) xs ≤ count_where p xs + count_where q xs
  count_where_or p q [] = omega arith
  count_where_or p q (x ∷ xs) = ground (arith, count_where_or p q xs)
