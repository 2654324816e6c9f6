-- ===== src/DownloadQueue/Leases.antt =====
-- What a write to one lease object changes: the lease found by its identifier, and the slots in use.
use ytdlbot.Prelude.{
  ℕ, ◌+◌, ◌≡◌, refl, sym, ap, Bool, true, false, Option, none, some, List, [], ◌∷◌, ◌==◌, ==_iff,
  arith, if◌then◌else◌, any, Bool-cases, inl, inr, some_path, ◌⊎◌,
}
use ytdlbot.Sql.{count_where}
use ytdlbot.Sql.Laws.{any-update_where}
use ytdlbot.DownloadQueue.State.{Phase, granted, acquired, Lease, lease_of, modify, set_phase}

-- A lease that has a slot: granted and not yet told, or acquired.
abbrev pub uses_slot : Phase → Bool
uses_slot granted = true
uses_slot acquired = true
uses_slot _ = false

abbrev pub in_use : List Lease → ℕ
in_use leases = count_where (λ l. uses_slot l.phase) leases

abbrev pub bit : Bool → ℕ
bit true = 1
bit false = 0

-- Objects are distinct.
abbrev pub Distinct : List Lease → Type 0
Distinct [] = Unit
Distinct (l ∷ ls) = (any (λ x. x.id == l.id) ls ≡ false) × Distinct ls

-- The phase of a known lease.
unfoldable pub phase_of : ℕ → List Lease → Option Phase
phase_of id [] = none
phase_of id (l ∷ ls) = let rest = phase_of id ls in if l.id == id then some l.phase else rest

pub phase_of-lease_of :
    (id : ℕ) (leases : List Lease) {l : Lease}
    → lease_of id leases ≡ some l
    → phase_of id leases ≡ some l.phase
unfolding lease_of phase_of
phase_of-lease_of id [] h = absurd cc
phase_of-lease_of id (x ∷ leases) {l} h = elim (Bool-cases (x.id == id)) [
  | inl same ↦ rw same (ap (λ (y : Lease). some y.phase) (some_path {a = x} {b = l} (rw same at h)))
  | inr other ↦ rw other (phase_of-lease_of id leases {l = l} (rw other at h))
]

pub unknown_phase :
    (id : ℕ) (leases : List Lease) → lease_of id leases ≡ none → phase_of id leases ≡ none
unfolding lease_of phase_of
unknown_phase id [] h = refl
unknown_phase id (x ∷ leases) h = ground (arith, unknown_phase id leases)

absent_none :
    (id : ℕ) (leases : List Lease)
    → any (λ x. x.id == id) leases ≡ false
    → phase_of id leases ≡ none
unfolding phase_of
absent_none id [] h = refl
absent_none id (x ∷ leases) h = ground (arith, absent_none id leases)

pub none_absent :
    (id : ℕ) (leases : List Lease)
    → phase_of id leases ≡ none
    → any (λ x. x.id == id) leases ≡ false
unfolding phase_of
none_absent id [] h = refl
none_absent id (x ∷ leases) h = ground (arith, none_absent id leases)

-- The identifier that the head has is not in the tail.
absent_tail :
    (id : ℕ) (x : Lease) (leases : List Lease)
    → (x.id == id) ≡ true
    → any (λ y. y.id == x.id) leases ≡ false
    → any (λ y. y.id == id) leases ≡ false
absent_tail id x leases same d = rw (sym ((==_iff x.id id).0 same)) d

in_use-modify_absent :
    (id : ℕ) (f : Lease → Lease) (leases : List Lease)
    → any (λ x. x.id == id) leases ≡ false
    → in_use (modify id f leases) ≡ in_use leases
in_use-modify_absent id f [] h = refl
in_use-modify_absent id f (l ∷ leases) h = ground (arith, in_use-modify_absent id f leases)

module _ (f : Lease → Lease) (p : Phase) (to_p : (l : Lease) → (f l).phase ≡ p)
    (same_id : (l : Lease) → (f l).id ≡ l.id) where
  -- A write that sets the phase changes the count by one slot at most.
  pub in_use-modify :
      (id : ℕ) (leases : List Lease) (old : Phase)
      → Distinct leases
      → phase_of id leases ≡ some old
      → in_use (modify id f leases) + bit (uses_slot old) ≡ in_use leases + bit (uses_slot p)
  unfolding phase_of
  in_use-modify id [] old d h = absurd cc
  in_use-modify id (x ∷ leases) old d h = elim (Bool-cases (x.id == id)) [
    | inl same ↦ ground (
      arith,
      to_p x,
      in_use-modify_absent id f leases (absent_tail id x leases same d.0),
      some_path {a = x.phase} {b = old} (rw same at h),
    )
    | inr other ↦ ground (arith, in_use-modify id leases old d.1)
  ]

  pub phase_of-modify :
      (id w : ℕ) (leases : List Lease)
      → (w == id) ≡ false
      → phase_of w (modify id f leases) ≡ phase_of w leases
  unfolding phase_of
  phase_of-modify id w [] h = refl
  phase_of-modify id w (x ∷ leases) h = ground (arith, same_id x, phase_of-modify id w leases)

-- The lease that was written has the new phase, if there is one.
pub phase_of-set :
    (p : Phase) (id : ℕ) (leases : List Lease)
    → (phase_of id (modify id (set_phase p) leases) ≡ some p)
      ⊎ (phase_of id (modify id (set_phase p) leases) ≡ none)
unfolding phase_of
phase_of-set p id [] = inr refl
phase_of-set p id (x ∷ leases) = elim (Bool-cases (x.id == id)) [
  | inl same ↦ inl (ground arith)
  | inr other ↦ rw (other, modify, phase_of, other) (phase_of-set p id leases)
]

module _ (f : Lease → Lease) (same_phase : (l : Lease) → (f l).phase ≡ l.phase)
    (same_id : (l : Lease) → (f l).id ≡ l.id) where
  pub in_use-modify_other :
      (id : ℕ) (leases : List Lease) → in_use (modify id f leases) ≡ in_use leases
  in_use-modify_other id [] = refl
  in_use-modify_other id (x ∷ leases) = ground (arith, same_phase x, in_use-modify_other id leases)

  pub phase_of-modify_other :
      (id w : ℕ) (leases : List Lease) → phase_of w (modify id f leases) ≡ phase_of w leases
  unfolding phase_of
  phase_of-modify_other id w [] = refl
  phase_of-modify_other id w (x ∷ leases) =
      ground (arith, same_phase x, same_id x, phase_of-modify_other id w leases)

pub Distinct-modify :
    (id : ℕ) (f : Lease → Lease) (leases : List Lease)
    → ((l : Lease) → (f l).id ≡ l.id)
    → Distinct leases
    → Distinct (modify id f leases)
Distinct-modify id f [] same d = tt
Distinct-modify id f (l ∷ leases) same d = (
  ground (
    arith,
    same l,
    any-update_where (λ x. x.id == l.id) (λ x. x.id == id) f (λ x. ap (λ i. i == l.id) (same x))
        leases,
  ),
  Distinct-modify id f leases same d.1,
)
