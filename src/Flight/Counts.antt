-- ===== src/Flight/Counts.antt =====
-- How many callers wait for a flight.
use ytdlbot.Prelude.{
  ℕ, suc, ◌≡◌, ◌<◌, refl, sym, ap, ◌∙◌, Bool, true, false, ◌&&◌, Option, some, String, List, [],
  ◌∷◌, arith, eq_iff, ==_iff, ◌==◌, if◌then◌else◌, any, All, Bool-cases, inl, inr,
}
use ytdlbot.Flight.Steps.{same, is_caller, without}

abbrev pub waiting : ℕ → List (String × ℕ) → ℕ
waiting f [] = 0
waiting f (c ∷ callers) = let rest = waiting f callers in if c.1 == f then suc rest else rest

pub waiting-without :
    (key : String) (f : ℕ) (callers : List (String × ℕ))
    → is_caller (key, f) callers ≡ true
    → suc (waiting f (without (key, f) callers)) ≡ waiting f callers
waiting-without key f [] h = absurd cc
waiting-without key f (c ∷ callers) h = ground (arith, waiting-without key f callers)

pub waiting-without_other :
    (key : String) (f other : ℕ) (callers : List (String × ℕ))
    → (f == other) ≡ false
    → waiting other (without (key, f) callers) ≡ waiting other callers
waiting-without_other key f other [] h = refl
waiting-without_other key f other (c ∷ callers) h =
    ground (arith, waiting-without_other key f other callers h)

-- Every caller waits for the flight that the group has for its key.
abbrev pub AreListed : (String → Option ℕ) → List (String × ℕ) → Type 0
AreListed flights callers = All (λ (c : String × ℕ). flights c.0 ≡ some c.1) callers

pub AreListed-without :
    (flights : String → Option ℕ) (c : String × ℕ) (callers : List (String × ℕ))
    → AreListed flights callers
    → AreListed flights (without c callers)
AreListed-without flights c [] h = tt
AreListed-without flights c (a ∷ callers) h = elim (Bool-cases (same a c)) [
  | inl found ↦ rw (found, without) h.1
  | inr other ↦ rw (other, without) (h.0, AreListed-without flights c callers h.1)
]

pub listed_of :
    (flights : String → Option ℕ) (key : String) (f : ℕ) (callers : List (String × ℕ))
    → is_caller (key, f) callers ≡ true
    → AreListed flights callers
    → flights key ≡ some f
listed_of flights key f [] h listed = absurd cc
listed_of flights key f ((k, i) ∷ callers) h listed = elim (Bool-cases (same (k, i) (key, f))) [
  | inl found ↦
      ap flights (sym ((eq_iff k key).0 (both_left _ _ found)))
      ∙ listed.0
      ∙ ap some ((==_iff i f).0 (both_right _ _ found))
  | inr other ↦ listed_of flights key f callers (rw (other, any) at h) listed.1
]
  where
    both_left : (a b : Bool) → (a && b) ≡ true → a ≡ true
    both_left a b e = ground arith

    both_right : (a b : Bool) → (a && b) ≡ true → b ≡ true
    both_right a b e = ground arith

-- A new entry of the table that agrees with the callers of its key.
pub AreListed-put :
    (flights flights' : String → Option ℕ) (callers : List (String × ℕ))
    → ((c : String × ℕ)
        → is_caller c callers ≡ true
        → flights c.0 ≡ some c.1
        → flights' c.0 ≡ some c.1)
    → AreListed flights callers
    → AreListed flights' callers
AreListed-put flights flights' [] h listed = tt
AreListed-put flights flights' (c ∷ callers) h listed = (
  h c (ground (arith, eq_iff c.0 c.0, ==_iff c.1 c.1)) listed.0,
  AreListed-put flights flights' callers (λ a there. h a (ground arith)) listed.1,
)

pub waiting_caller :
    (key : String) (f : ℕ) (callers : List (String × ℕ))
    → is_caller (key, f) callers ≡ true
    → 0 < waiting f callers
waiting_caller key f [] h = absurd cc
waiting_caller key f (c ∷ callers) h = ground (arith, waiting_caller key f callers)
