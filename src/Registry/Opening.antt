-- ===== src/Registry/Opening.antt =====
-- Three transient failures within a minute open the circuit for five.
use ytdlbot.Prelude.{
  ℕ, ◌+◌, ◌-◌, ◌≡◌, ◌≤◌, ◌<◌, refl, true, false, some, List, [], ◌∷◌, ◌++◌, arith, length, ltb, leb,
  Bool-cases, inl, inr,
}
use mathlib.Core.List.{append_assoc}
use ytdlbot.Registry.Circuit.{
  Circuit, new_circuit, transient, is_available, is_closed_at, record_failure, record_transient,
  drop_old,
}

-- A recent failure stays, with what follows it.
drop_old-suffix :
    (now y : ℕ) (xs ys : List ℕ)
    → now ≤ y + 60
    → (kept : List ℕ) × (drop_old now (xs ++ y ∷ ys) ≡ kept ++ y ∷ ys)
unfolding drop_old
drop_old-suffix now y [] ys h = ([], ground arith)
drop_old-suffix now y (x ∷ xs) ys h = elim (Bool-cases (ltb x (now - 60))) [
  | inl old ↦ rw old (drop_old-suffix now y xs ys h)
  | inr recent ↦ (x ∷ xs, rw recent refl)
]

three_long : (xs : List ℕ) (a b c : ℕ) → leb 3 (length (xs ++ a ∷ b ∷ c ∷ [])) ≡ true
three_long [] a b c = refl
three_long (x ∷ xs) a b c = ground (arith, length_three xs a b c)
  where
    length_three : (xs : List ℕ) (a b c : ℕ) → length (xs ++ a ∷ b ∷ c ∷ []) ≡ length xs + 3
    length_three [] a b c = refl
    length_three (x ∷ xs) a b c = omega (arith, length_three xs a b c)

third :
    (kept : List ℕ) (t₁ t₂ t₃ : ℕ)
    → t₂ ≤ t₁ + 60
    → t₃ ≤ t₁ + 60
    → t₃ ≤ t₂ + 60
    → leb 3 (length (drop_old t₃ (drop_old t₂ (kept ++ t₁ ∷ []) ++ t₂ ∷ []) ++ t₃ ∷ [])) ≡ true
third kept t₁ t₂ t₃ h₁ h₂ h₃ =
    let second = drop_old-suffix t₂ t₁ kept [] h₁ in
    let last = drop_old-suffix t₃ t₁ second.0 (t₂ ∷ []) h₂ in
    rw
      (
        second.1,
        append_assoc second.0 (t₁ ∷ []) (t₂ ∷ []),
        last.1,
        append_assoc last.0 (t₁ ∷ t₂ ∷ []) (t₃ ∷ []),
      )
      (three_long last.0 t₁ t₂ t₃)

opened_unavailable :
    (c : Circuit) (until now : ℕ)
    → c.open_until ≡ some until
    → now < until
    → is_available c now ≡ false
unfolding is_available is_closed_at
opened_unavailable c until now h before = rw h (ground arith)

-- After three transient failures that lie within 60 seconds, whatever the circuit was before them,
-- no attempt is admitted for 300 seconds from the third.
pub three_failures_open :
    (c : Circuit) (t₁ t₂ t₃ now : ℕ)
    → t₁ ≤ t₂
    → t₂ ≤ t₃
    → t₃ ≤ t₁ + 60
    → now < t₃ + 300
    → is_available
        (record_failure (record_failure (record_failure c transient t₁) transient t₂) transient t₃)
        now
      ≡ false
unfolding record_failure record_transient
three_failures_open c t₁ t₂ t₃ now h₁ h₂ h₃ before =
    opened_unavailable
      (record_failure (record_failure (record_failure c transient t₁) transient t₂) transient t₃)
      (t₃ + 300) now
      (rw (third (drop_old t₁ c.failures) t₁ t₂ t₃ (omega arith) (omega arith) (omega arith)) refl)
      before

-- One or two transient failures do not open a new circuit.
pub two_failures_keep :
    (t₁ t₂ now : ℕ)
    → is_available (record_failure (record_failure new_circuit transient t₁) transient t₂) now
      ≡ true
unfolding record_failure record_transient drop_old is_available is_closed_at
two_failures_keep t₁ t₂ now = ground arith
