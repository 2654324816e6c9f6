-- ===== src/DownloadQueue/Listed.antt =====
-- The list of waiters, seen from the leases: whether each lease that waits is listed.
use ytdlbot.Prelude.{
  ℕ, ◌+◌, ◌≡◌, refl, sym, ◌∙◌, ap, true, false, some, List, [], ◌∷◌, ◌++◌, ◌==◌, ==_iff, arith,
  Bool-cases, inl, inr, some_path,
}
use mathlib.Core.Bool.{false≢true}
use ytdlbot.DownloadQueue.State.{
  Phase, waiting, Lease, modify, reposition, remove, set_phase, is_waiting,
}
use ytdlbot.DownloadQueue.Leases.{phase_of, phase_of-set, phase_of-modify, phase_of-modify_other}
use ytdlbot.DownloadQueue.Waiters.{is_listed, listed-append, none_not_some}

-- Every lease that waits is listed.
abbrev pub AllListed : List ℕ → List Lease → Type 0
AllListed ws leases = (v : ℕ) → phase_of v leases ≡ some waiting → is_listed v ws ≡ true

-- A lease that was given a phase other than waiting does not wait.
set_waits_not :
    (p : Phase) (id : ℕ) (leases : List Lease)
    → is_waiting p ≡ false
    → phase_of id (modify id (set_phase p) leases) ≡ some waiting
    → ⊥
set_waits_not p id leases other h = elim (phase_of-set p id leases) [
  | inl e ↦ false≢true (sym other ∙ ap is_waiting (some_path {a = p} {b = waiting} (sym e ∙ h)))
  | inr e ↦ none_not_some (sym e ∙ h)
]

-- A lease that waits after such a write to another one waited before.
waits_before :
    (p : Phase) (id v : ℕ) (leases : List Lease)
    → is_waiting p ≡ false
    → phase_of v (modify id (set_phase p) leases) ≡ some waiting
    → ((v == id) ≡ false) × (phase_of v leases ≡ some waiting)
waits_before p id v leases other h = elim (Bool-cases (v == id)) [
  | inl same ↦ absurd (set_waits_not p id leases other (rw ((==_iff v id).0 same) at h))
  | inr differs ↦ (
    differs,
    sym (phase_of-modify (set_phase p) p (λ l. refl) (λ l. refl) id v leases differs) ∙ h,
  )
]

pub AllListed-set :
    (p : Phase) (id : ℕ) (ws : List ℕ) (leases : List Lease)
    → is_waiting p ≡ false
    → AllListed ws leases
    → AllListed ws (modify id (set_phase p) leases)
AllListed-set p id ws leases other all v h = all v (waits_before p id v leases other h).1

pub AllListed-popped :
    (p : Phase) (w : ℕ) (ws : List ℕ) (leases : List Lease)
    → is_waiting p ≡ false
    → AllListed (w ∷ ws) leases
    → AllListed ws (modify w (set_phase p) leases)
AllListed-popped p w ws leases other all v h =
    let (differs, waits) = waits_before p w v leases other h in ground (arith, all v waits)

listed-remove_other :
    (v w : ℕ) (ws : List ℕ)
    → (v == w) ≡ false
    → is_listed v ws ≡ true
    → is_listed v (remove w ws) ≡ true
unfolding remove
listed-remove_other v w [] differs h = absurd cc
listed-remove_other v w (x ∷ ws) differs h = ground (arith, listed-remove_other v w ws differs)

pub AllListed-removed :
    (p : Phase) (w : ℕ) (ws : List ℕ) (leases : List Lease)
    → is_waiting p ≡ false
    → AllListed ws leases
    → AllListed (remove w ws) (modify w (set_phase p) leases)
AllListed-removed p w ws leases other all v h =
    let (differs, waits) = waits_before p w v leases other h in
    listed-remove_other v w ws differs (all v waits)

pub AllListed-modify_other :
    (f : Lease → Lease)
    → ((l : Lease) → (f l).phase ≡ l.phase)
    → ((l : Lease) → (f l).id ≡ l.id)
    → (id : ℕ) (ws : List ℕ) (leases : List Lease) → AllListed ws leases
    → AllListed ws (modify id f leases)
AllListed-modify_other f phase same id ws leases all v h =
    all v (sym (phase_of-modify_other f phase same id v leases) ∙ h)

pub AllListed-reposition :
    (n : ℕ) (vs ws : List ℕ) (leases : List Lease)
    → AllListed ws leases
    → AllListed ws (reposition n vs leases)
unfolding reposition
AllListed-reposition n [] ws leases h = h
AllListed-reposition n (v ∷ vs) ws leases h =
    AllListed-reposition (n + 1) vs ws (modify v (λ l. record l { position = n }) leases) (
      AllListed-modify_other (λ l. record l { position = n }) (λ l. refl) (λ l. refl) v ws leases h)

-- A new lease with a slot, and one that waits at the end of the list.
pub AllListed-slot :
    (l : Lease) (ws : List ℕ) (leases : List Lease)
    → is_waiting l.phase ≡ false
    → AllListed ws leases
    → AllListed ws (l ∷ leases)
unfolding phase_of
AllListed-slot l ws leases other all v h = elim (Bool-cases (l.id == v)) [
  | inl same ↦ absurd (
      false≢true (sym other ∙ ap is_waiting (some_path {a = l.phase} {b = waiting} (rw same at h))))
  | inr differs ↦ all v (rw differs at h)
]

pub AllListed-append :
    (l : Lease) (ws : List ℕ) (leases : List Lease)
    → AllListed ws leases
    → AllListed (ws ++ l.id ∷ []) (l ∷ leases)
unfolding phase_of
AllListed-append l ws leases all v h = elim (Bool-cases (l.id == v)) [
  | inl same ↦ ground (arith, listed-append v l.id ws)
  | inr differs ↦ ground (arith, listed-append v l.id ws, all v (rw differs at h))
]
