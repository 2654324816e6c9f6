-- ===== src/DownloadQueue/Fairness.antt =====
-- A slot that comes free goes to the first live waiter, in the order of arrival.
use ytdlbot.Prelude.{
  ℕ, ◌+◌, ◌≡◌, refl, ◌∙◌, true, false, Option, none, some, List, [], ◌∷◌, arith, ◌==◌,
  if◌then◌else◌, Bool-cases, inl, inr, find,
}
use ytdlbot.DownloadQueue.State.{
  Queue, granted, cancelled, Lease, lease_of, modify, set_phase, reposition, may_grant, handoff,
  handoff_locked,
}
use ytdlbot.DownloadQueue.Leases.{phase_of, phase_of-modify_other}
use ytdlbot.DownloadQueue.Waiters.{is_listed, NoDuplicates}

-- What follows the first waiter that may be granted.
unfoldable pub after_first : List Lease → List ℕ → List ℕ
after_first leases [] = []
after_first leases (w ∷ ws) =
    let rest = after_first leases ws in if may_grant w leases then ws else rest

-- What becomes of a freed slot, by the first waiter that may be granted.
abbrev pub IsHandedTo : ℕ → List ℕ → Queue → Option ℕ → Type 0
IsHandedTo free rest q' none = (q'.free ≡ free + 1) × (q'.waiters ≡ [])
IsHandedTo free rest q' (some w) =
    (q'.free ≡ free) × ((phase_of w q'.leases ≡ some granted) × (q'.waiters ≡ rest))

lease_of-modify :
    (w v : ℕ) (leases : List Lease)
    → (w == v) ≡ false
    → lease_of v (modify w (set_phase cancelled) leases) ≡ lease_of v leases
unfolding lease_of
lease_of-modify w v [] h = refl
lease_of-modify w v (l ∷ leases) h = ground (arith, lease_of-modify w v leases)

may_grant-modify :
    (w v : ℕ) (leases : List Lease)
    → (v == w) ≡ false
    → may_grant v (modify w (set_phase cancelled) leases) ≡ may_grant v leases
unfolding may_grant
may_grant-modify w v leases h = rw (lease_of-modify w v leases (ground arith), may_grant) refl

find-modify :
    (w : ℕ) (ws : List ℕ) (leases : List Lease)
    → is_listed w ws ≡ false
    → find (λ v. may_grant v (modify w (set_phase cancelled) leases)) ws
      ≡ find (λ v. may_grant v leases) ws
find-modify w [] leases h = refl
find-modify w (v ∷ ws) leases h =
    rw (may_grant-modify w v leases (ground arith), find-modify w ws leases (ground arith)) refl

after_first-modify :
    (w : ℕ) (ws : List ℕ) (leases : List Lease)
    → is_listed w ws ≡ false
    → after_first (modify w (set_phase cancelled) leases) ws ≡ after_first leases ws
unfolding after_first
after_first-modify w [] leases h = refl
after_first-modify w (v ∷ ws) leases h =
    rw (may_grant-modify w v leases (ground arith), after_first-modify w ws leases (ground arith))
      refl

phase_of-reposition :
    (n w : ℕ) (ws : List ℕ) (leases : List Lease)
    → phase_of w (reposition n ws leases) ≡ phase_of w leases
unfolding reposition
phase_of-reposition n w [] leases = refl
phase_of-reposition n w (v ∷ ws) leases =
    phase_of-reposition (n + 1) w ws (modify v (λ l. record l { position = n }) leases)
    ∙ phase_of-modify_other (λ l. record l { position = n }) (λ l. refl) (λ l. refl) v w leases

phase_of-granted :
    (w : ℕ) (leases : List Lease)
    → may_grant w leases ≡ true
    → phase_of w (modify w (set_phase granted) leases) ≡ some granted
unfolding phase_of may_grant lease_of
phase_of-granted w [] h = absurd cc
phase_of-granted w (l ∷ leases) h = elim (Bool-cases (l.id == w)) [
  | inl same ↦ ground arith
  | inr other ↦ rw (other, other) (phase_of-granted w leases (rw (other, may_grant, lease_of) at h))
]

handoff-IsHandedTo :
    (ws : List ℕ) (q : Queue)
    → NoDuplicates ws
    → IsHandedTo q.free
        (after_first q.leases ws)
        (handoff ws q)
        (find (λ w. may_grant w q.leases) ws)
unfolding handoff after_first
handoff-IsHandedTo [] q h = (refl, refl)
handoff-IsHandedTo (w ∷ ws) q h = elim (Bool-cases (may_grant w q.leases)) [
  | inl fits ↦ rw fits (
    refl,
    (
      phase_of-reposition 1 w ws (modify w (set_phase granted) q.leases)
          ∙ phase_of-granted w q.leases fits,
      refl,
    ),
  )
  | inr skip ↦ rw skip (
      rw (find-modify w ws q.leases h.0, after_first-modify w ws q.leases h.0) at
        (handoff-IsHandedTo ws (record q { leases = modify w (set_phase cancelled) q.leases }) h.1))
]

-- A slot that comes free goes to the first waiter in the order of arrival that still waits and whose
-- future was not cancelled; that waiter is granted, the waiters behind it stay in their order, and
-- the semaphore keeps its value. With no such waiter the list is emptied and the semaphore has one
-- more free slot. The list has no duplicates.
pub handoff_locked-IsHandedTo :
    (q : Queue)
    → NoDuplicates q.waiters
    → IsHandedTo q.free
        (after_first q.leases q.waiters)
        (handoff_locked q)
        (find (λ w. may_grant w q.leases) q.waiters)
unfolding handoff_locked
handoff_locked-IsHandedTo q h = handoff-IsHandedTo q.waiters q h
