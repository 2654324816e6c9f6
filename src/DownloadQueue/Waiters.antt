-- ===== src/DownloadQueue/Waiters.antt =====
-- The list of waiters: who is listed, and that each listed lease waits.
use ytdlbot.Prelude.{
  ℕ, ◌+◌, ◌≡◌, ◌≤◌, refl, sym, ◌∙◌, ap, Bool, true, false, ◌||◌, none, some, List, [], ◌∷◌, ◌++◌,
  ◌==◌, ==_iff, arith, any, length, Bool-cases, inl, inr,
}
use ytdlbot.DownloadQueue.State.{Phase, waiting, Lease, modify, reposition, remove}
use ytdlbot.DownloadQueue.Leases.{
  in_use, Distinct, phase_of, in_use-modify_other, phase_of-modify, phase_of-modify_other,
  Distinct-modify,
}

abbrev pub is_listed : ℕ → List ℕ → Bool
is_listed w ws = any (λ v. v == w) ws

abbrev pub NoDuplicates : List ℕ → Type 0
NoDuplicates [] = Unit
NoDuplicates (w ∷ ws) = (is_listed w ws ≡ false) × NoDuplicates ws

abbrev pub AllWait : List ℕ → List Lease → Type 0
AllWait [] leases = Unit
AllWait (w ∷ ws) leases = (phase_of w leases ≡ some waiting) × AllWait ws leases

pub listed_waits :
    (w : ℕ) (ws : List ℕ) (leases : List Lease)
    → AllWait ws leases
    → is_listed w ws ≡ true
    → phase_of w leases ≡ some waiting
listed_waits w [] leases h l = absurd cc
listed_waits w (v ∷ ws) leases h l = elim (Bool-cases (v == w)) [
  | inl same ↦ rw (sym ((==_iff v w).0 same)) h.0
  | inr other ↦ listed_waits w ws leases h.1 (rw other at l)
]

-- A write to a lease that is not listed.
pub AllWait-modify :
    (f : Lease → Lease) (p : Phase)
    → ((l : Lease) → (f l).phase ≡ p)
    → ((l : Lease) → (f l).id ≡ l.id)
    → (id : ℕ) (ws : List ℕ) (leases : List Lease) → is_listed id ws ≡ false
    → AllWait ws leases
    → AllWait ws (modify id f leases)
AllWait-modify f p to_p same id [] leases h all = tt
AllWait-modify f p to_p same id (w ∷ ws) leases h all = (
  phase_of-modify f p to_p same id w leases (ground arith) ∙ all.0,
  AllWait-modify f p to_p same id ws leases (ground arith) all.1,
)

pub AllWait-modify_other :
    (f : Lease → Lease)
    → ((l : Lease) → (f l).phase ≡ l.phase)
    → ((l : Lease) → (f l).id ≡ l.id)
    → (id : ℕ) (ws : List ℕ) (leases : List Lease) → AllWait ws leases
    → AllWait ws (modify id f leases)
AllWait-modify_other f phase same id [] leases all = tt
AllWait-modify_other f phase same id (w ∷ ws) leases all = (
  phase_of-modify_other f phase same id w leases ∙ all.0,
  AllWait-modify_other f phase same id ws leases all.1,
)

pub none_not_some : {p : Phase} → none ≡ some p → ⊥
none_not_some h = cc

-- A new lease has an identifier that no lease has.
pub AllWait-new :
    (l : Lease) (ws : List ℕ) (leases : List Lease)
    → phase_of l.id leases ≡ none
    → AllWait ws leases
    → AllWait ws (l ∷ leases)
unfolding phase_of
AllWait-new l [] leases new all = tt
AllWait-new l (w ∷ ws) leases new all = (
  elim (Bool-cases (l.id == w)) [
    | inl same ↦
        absurd
          (none_not_some (sym new ∙ ap (λ i. phase_of i leases) ((==_iff l.id w).0 same) ∙ all.0))
    | inr other ↦ rw other all.0
  ],
  AllWait-new l ws leases new all.1,
)

pub AllWait-append :
    (w : ℕ) (ws : List ℕ) (leases : List Lease)
    → AllWait ws leases
    → phase_of w leases ≡ some waiting
    → AllWait (ws ++ w ∷ []) leases
AllWait-append w [] leases all h = (h, tt)
AllWait-append w (v ∷ ws) leases all h = (all.0, AllWait-append w ws leases all.1 h)

pub listed-append :
    (v w : ℕ) (ws : List ℕ) → is_listed v (ws ++ w ∷ []) ≡ (is_listed v ws || (w == v))
listed-append v w [] = ground arith
listed-append v w (x ∷ ws) = ground (arith, listed-append v w ws)

pub NoDuplicates-append :
    (w : ℕ) (ws : List ℕ) → is_listed w ws ≡ false → NoDuplicates ws → NoDuplicates (ws ++ w ∷ [])
NoDuplicates-append w [] h all = (refl, tt)
NoDuplicates-append w (v ∷ ws) h all =
    (ground (arith, listed-append v w ws), NoDuplicates-append w ws (ground arith) all.1)

listed-remove : (v w : ℕ) (ws : List ℕ) → is_listed v ws ≡ false → is_listed v (remove w ws) ≡ false
unfolding remove
listed-remove v w [] h = refl
listed-remove v w (x ∷ ws) h = ground (arith, listed-remove v w ws)

pub NoDuplicates-remove : (w : ℕ) (ws : List ℕ) → NoDuplicates ws → NoDuplicates (remove w ws)
unfolding remove
NoDuplicates-remove w [] h = tt
NoDuplicates-remove w (x ∷ ws) h = elim (Bool-cases (x == w)) [
  | inl same ↦ rw same h.1
  | inr other ↦ rw other (listed-remove x w ws h.0, NoDuplicates-remove w ws h.1)
]

-- A removed waiter is not listed any more.
pub removed_not_listed : (w : ℕ) (ws : List ℕ) → NoDuplicates ws → is_listed w (remove w ws) ≡ false
unfolding remove
removed_not_listed w [] h = refl
removed_not_listed w (x ∷ ws) h = elim (Bool-cases (x == w)) [
  | inl same ↦ rw same (rw (sym ((==_iff x w).0 same)) h.0)
  | inr other ↦ ground (arith, removed_not_listed w ws h.1)
]

pub AllWait-remove :
    (w : ℕ) (ws : List ℕ) (leases : List Lease) → AllWait ws leases → AllWait (remove w ws) leases
unfolding remove
AllWait-remove w [] leases h = tt
AllWait-remove w (x ∷ ws) leases h = elim (Bool-cases (x == w)) [
  | inl same ↦ rw same h.1
  | inr other ↦ rw other (h.0, AllWait-remove w ws leases h.1)
]

pub length-remove_le : (w : ℕ) (ws : List ℕ) → length (remove w ws) ≤ length ws
unfolding remove
length-remove_le w [] = omega arith
length-remove_le w (x ∷ ws) = ground (arith, length-remove_le w ws)

-- New positions change neither phases nor identifiers.
pub in_use-reposition :
    (n : ℕ) (ws : List ℕ) (leases : List Lease) → in_use (reposition n ws leases) ≡ in_use leases
unfolding reposition
in_use-reposition n [] leases = refl
in_use-reposition n (w ∷ ws) leases =
    in_use-reposition (n + 1) ws (modify w (λ l. record l { position = n }) leases)
    ∙ in_use-modify_other (λ l. record l { position = n }) (λ l. refl) (λ l. refl) w leases

pub AllWait-reposition :
    (n : ℕ) (vs ws : List ℕ) (leases : List Lease)
    → AllWait ws leases
    → AllWait ws (reposition n vs leases)
unfolding reposition
AllWait-reposition n [] ws leases h = h
AllWait-reposition n (v ∷ vs) ws leases h =
    AllWait-reposition (n + 1) vs ws (modify v (λ l. record l { position = n }) leases)
      (AllWait-modify_other (λ l. record l { position = n }) (λ l. refl) (λ l. refl) v ws leases h)

pub Distinct-reposition :
    (n : ℕ) (vs : List ℕ) (leases : List Lease)
    → Distinct leases
    → Distinct (reposition n vs leases)
unfolding reposition
Distinct-reposition n [] leases h = h
Distinct-reposition n (v ∷ vs) leases h =
    Distinct-reposition (n + 1) vs (modify v (λ l. record l { position = n }) leases)
      (Distinct-modify v (λ l. record l { position = n }) leases (λ l. refl) h)

pub length-append_one : (w : ℕ) (ws : List ℕ) → length (ws ++ w ∷ []) ≡ length ws + 1
length-append_one w [] = refl
length-append_one w (x ∷ ws) = omega (arith, length-append_one w ws)
