-- ===== src/Prelude/Objects.antt =====
-- Lists of objects with an identifier: the object of an identifier, a write to one object, and sums
-- over all objects.
use Prim.Native.Nat.{ℕ, ◌+◌}
use mathlib.Core.Path.{◌≡◌, refl, sym}
use mathlib.Core.Logic.{inl, inr}
use mathlib.Core.Bool.{Bool, true, false}
use mathlib.Core.List.{List, [], ◌∷◌}
use mathlib.Core.Option.{Option, none, some}
use native.Mathlib.Omega.{arith}
use ytdlbot.Prelude.Tests.{if◌then◌else◌, ◌==◌, ==_iff, Bool-cases, some_path}
use ytdlbot.Prelude.Lists.{any, find}

module _ {ℓ} {A : Type ℓ} (id : A → ℕ) where
  abbrev pub object : ℕ → List A → Option A
  object i xs = find (λ x. id x == i) xs

  abbrev pub modify : ℕ → (A → A) → List A → List A
  modify i f [] = []
  modify i f (x ∷ xs) = (if id x == i then f x else x) ∷ modify i f xs

  abbrev pub is_known : ℕ → List A → Bool
  is_known i xs = any (λ x. id x == i) xs

  -- Objects are distinct.
  abbrev pub Distinct : List A → Type 0
  Distinct [] = Unit
  Distinct (x ∷ xs) = (is_known (id x) xs ≡ false) × Distinct xs

  abbrev pub total : (A → ℕ) → List A → ℕ
  total w [] = 0
  total w (x ∷ xs) = w x + total w xs

  modify_unknown : (i : ℕ) (f : A → A) (xs : List A) → is_known i xs ≡ false → modify i f xs ≡ xs
  modify_unknown i f [] h = refl
  modify_unknown i f (x ∷ xs) h = ground (arith, modify_unknown i f xs)

  unknown_tail :
      (i : ℕ) (x : A) (xs : List A)
      → (id x == i) ≡ true
      → is_known (id x) xs ≡ false
      → is_known i xs ≡ false
  unknown_tail i x xs same h = rw (sym ((==_iff (id x) i).0 same)) h

  -- A write to one object changes a sum by what it changes of that object.
  pub total-modify :
      (w : A → ℕ) (i : ℕ) (f : A → A) (xs : List A) (old : A)
      → Distinct xs
      → object i xs ≡ some old
      → total w (modify i f xs) + w old ≡ total w xs + w (f old)
  total-modify w i f [] old d h = absurd cc
  total-modify w i f (x ∷ xs) old d h = elim (Bool-cases (id x == i)) [
    | inl same ↦
        rw (sym (some_path {a = x} {b = old} (rw same at h)))
          (ground (arith, modify_unknown i f xs (unknown_tail i x xs same d.0)))
    | inr other ↦ ground (arith, total-modify w i f xs old d.1)
  ]

  pub is_known-modify :
      (j i : ℕ) (f : A → A) (xs : List A)
      → ((x : A) → id (f x) ≡ id x)
      → is_known j (modify i f xs) ≡ is_known j xs
  is_known-modify j i f [] same = refl
  is_known-modify j i f (x ∷ xs) same = ground (arith, same x, is_known-modify j i f xs same)

  pub Distinct-modify :
      (i : ℕ) (f : A → A) (xs : List A)
      → ((x : A) → id (f x) ≡ id x)
      → Distinct xs
      → Distinct (modify i f xs)
  Distinct-modify i f [] same d = tt
  Distinct-modify i f (x ∷ xs) same d =
      (ground (arith, same x, is_known-modify (id x) i f xs same), Distinct-modify i f xs same d.1)

  pub object_unknown : (i : ℕ) (xs : List A) → object i xs ≡ none → is_known i xs ≡ false
  object_unknown i [] h = refl
  object_unknown i (x ∷ xs) h = ground (arith, object_unknown i xs)

  pub object_key : (i : ℕ) (xs : List A) (x : A) → object i xs ≡ some x → id x ≡ i
  object_key i [] x h = absurd cc
  object_key i (y ∷ xs) x h = elim (Bool-cases (id y == i)) [
    | inl same ↦ rw (sym (some_path {a = y} {b = x} (rw same at h))) ((==_iff (id y) i).0 same)
    | inr other ↦ object_key i xs x (rw other at h)
  ]
