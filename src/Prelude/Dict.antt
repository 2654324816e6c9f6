-- ===== src/Prelude/Dict.antt =====
-- Python's `dict` with texts as keys: the entries in the order of insertion, each key once.
use Prim.Native.Nat.{suc, ◌≤◌, ◌<◌}
use Prim.Native.String.{String}
use mathlib.Core.Path.{◌≡◌, refl, sym, ◌∙◌}
use mathlib.Core.Logic.{inl, inr}
use mathlib.Core.Bool.{Bool, true, false, not}
use mathlib.Core.List.{List, [], ◌∷◌}
use mathlib.Core.Option.{Option, none, some}
use native.Mathlib.Omega.{arith}
use text.Mathlib.Text.{◌==◌ as str_eq}
use text.Mathlib.TextEquality.{eq_iff}
use text.Mathlib.TextPositions.{eq_refl}
use ytdlbot.Prelude.Tests.{if◌then◌else◌, Bool-cases, not_both}
use ytdlbot.Prelude.Lists.{any, filter, length}

module _ {ℓ} {A : Type ℓ} where
  abbrev pub lookup : String → List (String × A) → Option A
  lookup key [] = none
  lookup key ((k, a) ∷ d) = let rest = lookup key d in if str_eq k key then some a else rest

  -- `key in d`
  abbrev pub has_key : String → List (String × A) → Bool
  has_key key d = any (λ (entry : String × A). str_eq entry.0 key) d

  -- `d[key] = a`, which keeps the place of a known key.
  abbrev pub insert : String → A → List (String × A) → List (String × A)
  insert key a [] = (key, a) ∷ []
  insert key a ((k, b) ∷ d) =
      let rest = insert key a d in if str_eq k key then (k, a) ∷ d else (k, b) ∷ rest

  -- `d.pop(key, None)`
  abbrev pub remove : String → List (String × A) → List (String × A)
  remove key d = filter (λ (entry : String × A). not (str_eq entry.0 key)) d

  abbrev pub IsDict : List (String × A) → Type 0
  IsDict [] = Unit
  IsDict ((k, a) ∷ d) = (has_key k d ≡ false) × IsDict d

  pub lookup-insert :
      (key : String) (a : A) (d : List (String × A)) → lookup key (insert key a d) ≡ some a
  lookup-insert key a [] = ground (arith, eq_refl key)
  lookup-insert key a ((k, b) ∷ d) = ground (arith, lookup-insert key a d)

  pub lookup-insert_other :
      (key k : String) (a : A) (d : List (String × A))
      → str_eq key k ≡ false
      → lookup k (insert key a d) ≡ lookup k d
  lookup-insert_other key k a [] h = ground arith
  lookup-insert_other key k a ((j, b) ∷ d) h =
      ground
        (arith, eq_iff j key, eq_iff j k, eq_iff key k, eq_refl k, lookup-insert_other key k a d h)

  pub lookup_unknown :
      (key : String) (d : List (String × A)) → has_key key d ≡ false → lookup key d ≡ none
  lookup_unknown key [] h = refl
  lookup_unknown key ((k, b) ∷ d) h = ground (arith, lookup_unknown key d)

  pub has_key_absent :
      (key : String) (d : List (String × A)) → lookup key d ≡ none → has_key key d ≡ false
  has_key_absent key [] h = refl
  has_key_absent key ((k, b) ∷ d) h = ground (arith, has_key_absent key d)

  pub has_key-filter :
      (p : String × A → Bool) (key : String) (d : List (String × A))
      → has_key key d ≡ false
      → has_key key (filter p d) ≡ false
  has_key-filter p key [] h = refl
  has_key-filter p key ((k, b) ∷ d) h = ground (arith, has_key-filter p key d)

  pub IsDict-filter :
      (p : String × A → Bool) (d : List (String × A)) → IsDict d → IsDict (filter p d)
  IsDict-filter p [] h = tt
  IsDict-filter p ((k, b) ∷ d) h = elim (Bool-cases (p (k, b))) [
    | inl keep ↦ rw (keep, filter) (has_key-filter p k d h.0, IsDict-filter p d h.1)
    | inr drop ↦ rw (drop, filter) (IsDict-filter p d h.1)
  ]

  -- What a filter leaves was there.
  pub lookup-filter :
      (p : String × A → Bool) (key : String) (d : List (String × A)) (a : A)
      → IsDict d
      → lookup key (filter p d) ≡ some a
      → lookup key d ≡ some a
  lookup-filter p key [] a h found = found
  lookup-filter p key ((k, b) ∷ d) a h found = elim (Bool-cases (str_eq k key)) [
    | inl same ↦ elim (Bool-cases (p (k, b))) [
      | inl keep ↦ rw (same, lookup) (rw (keep, same, filter, lookup) at found)
      | inr drop ↦ absurd (
          not_both
            (lookup_unknown key (filter p d)
              (has_key-filter p key d (rw (sym ((eq_iff k key).0 same)) h.0)))
            (rw (drop, filter) at found))
    ]
    | inr other ↦ elim (Bool-cases (p (k, b))) [
      | inl keep ↦
          rw (other, lookup)
            (lookup-filter p key d a h.1 (rw (keep, other, filter, lookup) at found))
      | inr drop ↦ rw (other, lookup) (lookup-filter p key d a h.1 (rw (drop, filter) at found))
    ]
  ]

  has_key-insert :
      (key k : String) (a : A) (d : List (String × A))
      → str_eq key k ≡ false
      → has_key k (insert key a d) ≡ has_key k d
  has_key-insert key k a [] h = ground arith
  has_key-insert key k a ((j, b) ∷ d) h = ground (arith, has_key-insert key k a d h)

  pub IsDict-insert :
      (key : String) (a : A) (d : List (String × A)) → IsDict d → IsDict (insert key a d)
  IsDict-insert key a [] h = (refl, tt)
  IsDict-insert key a ((k, b) ∷ d) h = elim (Bool-cases (str_eq k key)) [
    | inl same ↦ rw (same, insert) h
    | inr other ↦
        rw (other, insert)
          (
            has_key-insert key k a d (ground (arith, eq_iff k key, eq_iff key k)) ∙ h.0,
            IsDict-insert key a d h.1,
          )
  ]

  pub length-filter :
      (p : String × A → Bool) (d : List (String × A)) → length (filter p d) ≤ length d
  length-filter p [] = omega arith
  length-filter p (e ∷ d) = ground (arith, length-filter p d)

  pub length-remove :
      (key : String) (d : List (String × A))
      → has_key key d ≡ true
      → length (remove key d) < length d
  length-remove key [] h = absurd cc
  length-remove key ((k, b) ∷ d) h = ground (
    arith,
    length-remove key d,
    length-filter (λ (entry : String × A). not (str_eq entry.0 key)) d,
  )

  pub length-insert_known :
      (key : String) (a : A) (d : List (String × A))
      → has_key key d ≡ true
      → length (insert key a d) ≡ length d
  length-insert_known key a [] h = absurd cc
  length-insert_known key a ((k, b) ∷ d) h = ground (arith, length-insert_known key a d)

  pub length-insert :
      (key : String) (a : A) (d : List (String × A)) → length (insert key a d) ≤ suc (length d)
  length-insert key a [] = omega arith
  length-insert key a ((k, b) ∷ d) = ground (arith, length-insert key a d)

  pub lookup-remove : (key : String) (d : List (String × A)) → lookup key (remove key d) ≡ none
  lookup-remove key [] = refl
  lookup-remove key ((k, b) ∷ d) = ground (arith, lookup-remove key d)

  pub has_key_found :
      (key : String) (d : List (String × A)) (a : A) → lookup key d ≡ some a → has_key key d ≡ true
  has_key_found key d a found = elim (Bool-cases (has_key key d)) [
    | inl there ↦ there
    | inr new ↦ absurd (not_both (lookup_unknown key d new) found)
  ]
