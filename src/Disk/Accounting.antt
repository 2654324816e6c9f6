-- ===== src/Disk/Accounting.antt =====
-- The budget's books: what is reserved is what the reservations hold, through any calls.
use ytdlbot.Prelude.{
  ℕ, ◌+◌, ◌-◌, ◌≡◌, ◌≤◌, min, refl, ap, ◌∙◌, false, Option, none, some, List, [], ◌∷◌, arith, ltb,
  leb, Bool-cases, Option-cases, inl, inr,
}
use ytdlbot.Prelude.Int.{ℤ, pos, negsuc}
use ytdlbot.Prelude.Objects.{
  object, Distinct, total, total-modify, Distinct-modify, object_unknown, object_key,
}
use ytdlbot.Disk.Budget.{
  Phase, live, releasing, settled, DiskReservation, key, DiskBudget, usable, available_bytes,
  is_positive, reserve_locked, reserve, resize, set_phase, grow_live, grow_by, ensure,
  begin_release, finish_release, Step, enter, grow, claim, finish, on_reservation, step, run,
  empty_budget,
}

-- The bytes that a reservation has not given back.
abbrev pub held : DiskReservation → ℕ
held r = elim r.phase [ settled ↦ 0 | _ ↦ r.size_bytes ]

-- A budget without a capacity has no bound of its own.
abbrev pub IsWithin : Option ℕ → ℕ → Type 0
IsWithin none n = Unit
IsWithin (some capacity) n = n ≤ capacity

pub record IsAccounted (capacity : Option ℕ) (b : DiskBudget) : Type 0 where
  pub sum : b.reserved_bytes ≡ total key held b.reservations
  pub within : IsWithin capacity b.reserved_bytes
  pub same : b.capacity_bytes ≡ capacity
  pub distinct : Distinct key b.reservations

IsWithin-add :
    (capacity : Option ℕ) (reserved free n : ℕ)
    → IsWithin capacity reserved
    → ltb (usable capacity free - reserved) n ≡ false
    → IsWithin capacity (reserved + n)
IsWithin-add none reserved free n within fits = tt
IsWithin-add (some c) reserved free n within fits =
    let room : n ≤ min free c - reserved = ground arith in omega arith

IsWithin-minus : (capacity : Option ℕ) (n m : ℕ) → IsWithin capacity n → IsWithin capacity (n - m)
IsWithin-minus none n m h = tt
IsWithin-minus (some c) n m h = omega arith

module _ (capacity : Option ℕ) where
  -- What fits into the available bytes stays within the capacity.
  fits-IsWithin :
      (b : DiskBudget) (free n : ℕ)
      → b.capacity_bytes ≡ capacity
      → IsWithin capacity b.reserved_bytes
      → ltb (available_bytes b free) n ≡ false
      → IsWithin capacity (b.reserved_bytes + n)
  unfolding available_bytes
  fits-IsWithin b free n same within fits =
      IsWithin-add capacity b.reserved_bytes free n within (rw (same, available_bytes) at fits)

  reserve_locked-IsAccounted :
      (b : DiskBudget) (free id size : ℕ)
      → IsAccounted capacity b
      → object key id b.reservations ≡ none
      → IsAccounted capacity (reserve_locked b free id size).1
  unfolding reserve_locked
  reserve_locked-IsAccounted b free id size h new =
      elim (Bool-cases (ltb (available_bytes b free) size)) [
        | inl full ↦ rw (full, reserve_locked) h
        | inr fits ↦
            rw (fits, reserve_locked)
              (record {
                sum = omega (arith, h.sum);
                within = fits-IsWithin b free size h.same h.within fits;
                same = h.same;
                distinct = (object_unknown key id b.reservations new, h.distinct);
              })
      ]

  reserve-IsAccounted :
      (b : DiskBudget) (free id : ℕ) (size lease_ttl : ℤ)
      → IsAccounted capacity b
      → object key id b.reservations ≡ none
      → IsAccounted capacity (reserve b free id size lease_ttl).1
  unfolding reserve
  reserve-IsAccounted b free id (negsuc n) lease_ttl h new = h
  reserve-IsAccounted b free id (pos size) lease_ttl h new =
      elim (Bool-cases (is_positive lease_ttl)) [
        | inl ok ↦ rw (ok, reserve) (reserve_locked-IsAccounted b free id size h new)
        | inr bad ↦ rw (bad, reserve) h
      ]

  module _ (b : DiskBudget) (r : DiskReservation) (h : IsAccounted capacity b)
      (known : object key r.id b.reservations ≡ some r) where
    grow_live-IsAccounted :
        (free new_size : ℕ) → r.phase ≡ live → IsAccounted capacity (grow_live b free r new_size).1
    unfolding grow_live
    grow_live-IsAccounted free new_size phase = elim (Bool-cases (leb new_size r.size_bytes)) [
      | inl small ↦ rw (small, grow_live) h
      | inr large ↦ elim (Bool-cases (ltb (available_bytes b free) (new_size - r.size_bytes))) [
        | inl full ↦ rw (large, full, grow_live) h
        | inr fits ↦
            rw (large, fits, grow_live)
              (record {
                sum = ground (
                  arith,
                  h.sum,
                  total-modify key held r.id (resize new_size) b.reservations r h.distinct known,
                );
                within = fits-IsWithin b free (new_size - r.size_bytes) h.same h.within fits;
                same = h.same;
                distinct =
                    Distinct-modify key r.id (resize new_size) b.reservations (λ x. refl)
                      h.distinct;
              })
      ]
    ]

    grow_by-IsAccounted :
        (phase : Phase) (free : ℕ) (new_size : ℤ)
        → r.phase ≡ phase
        → IsAccounted capacity (grow_by phase b free r new_size).1
    unfolding grow_by
    grow_by-IsAccounted live free (pos n) e = grow_live-IsAccounted free n e
    grow_by-IsAccounted live free (negsuc n) e = h
    grow_by-IsAccounted releasing free new_size e = h
    grow_by-IsAccounted settled free new_size e = h

    begin_release-IsAccounted :
        (phase : Phase) → r.phase ≡ phase → IsAccounted capacity (begin_release b r phase)
    unfolding begin_release
    begin_release-IsAccounted live e = record {
      sum = ground (
        arith,
        h.sum,
        total-modify key held r.id (set_phase releasing) b.reservations r h.distinct known,
      );
      within = h.within;
      same = h.same;
      distinct =
          Distinct-modify key r.id (set_phase releasing) b.reservations (λ x. refl) h.distinct;
    }
    begin_release-IsAccounted releasing e = h
    begin_release-IsAccounted settled e = h

    finish_release-IsAccounted :
        (phase : Phase) → r.phase ≡ phase → IsAccounted capacity (finish_release b r phase)
    unfolding finish_release
    finish_release-IsAccounted live e = h
    finish_release-IsAccounted releasing e = record {
      sum = ground (
        arith,
        h.sum,
        total-modify key held r.id (set_phase settled) b.reservations r h.distinct known,
      );
      within = IsWithin-minus capacity b.reserved_bytes r.size_bytes h.within;
      same = h.same;
      distinct = Distinct-modify key r.id (set_phase settled) b.reservations (λ x. refl) h.distinct;
    }
    finish_release-IsAccounted settled e = h

  on_reservation-IsAccounted :
      (f : DiskReservation → DiskBudget) (b : DiskBudget) (id : ℕ)
      → ((r : DiskReservation)
          → object key r.id b.reservations ≡ some r
          → IsAccounted capacity (f r))
      → IsAccounted capacity b
      → IsAccounted capacity (on_reservation id f b)
  unfolding on_reservation
  on_reservation-IsAccounted f b id keep h = elim (Option-cases (object key id b.reservations)) [
    | inl unknown ↦ rw (unknown, on_reservation) h
    | inr (r, found) ↦
        rw (found, on_reservation)
          (keep r (
            ap (λ i. object key i b.reservations) (object_key key id b.reservations r found)
            ∙ found))
  ]

  pub step-IsAccounted :
      (b : DiskBudget) (s : Step) → IsAccounted capacity b → IsAccounted capacity (step b s)
  unfolding step ensure
  step-IsAccounted b (enter id free size lease_ttl) h =
      elim (Option-cases (object key id b.reservations)) [
        | inl new ↦ rw (new, step) (reserve-IsAccounted b free id size lease_ttl h new)
        | inr (r, found) ↦ rw (found, step) h
      ]
  step-IsAccounted b (grow id free size) h =
      on_reservation-IsAccounted (λ r. (ensure b free r size).1) b id
        (λ r known. grow_by-IsAccounted b r h known r.phase free size refl) h
  step-IsAccounted b (claim id) h =
      on_reservation-IsAccounted (λ r. begin_release b r r.phase) b id
        (λ r known. begin_release-IsAccounted b r h known r.phase refl) h
  step-IsAccounted b (finish id) h =
      on_reservation-IsAccounted (λ r. finish_release b r r.phase) b id
        (λ r known. finish_release-IsAccounted b r h known r.phase refl) h

from_IsAccounted :
    (capacity : Option ℕ) (b : DiskBudget) (steps : List Step)
    → IsAccounted capacity b
    → IsAccounted capacity (run b steps)
unfolding run
from_IsAccounted capacity b [] h = h
from_IsAccounted capacity b (s ∷ steps) h =
    from_IsAccounted capacity (step b s) steps (step-IsAccounted capacity b s h)

-- After any calls on a new budget, in any order and at any free space, the reserved bytes are the sum
-- of the sizes of the reservations that have not given theirs back, a repeated release gives nothing
-- back twice, and the reserved bytes stay within the capacity where one is set.
pub run-IsAccounted :
    (capacity : Option ℕ) (steps : List Step)
    → IsAccounted capacity (run (empty_budget capacity) steps)
run-IsAccounted capacity steps =
    from_IsAccounted capacity (empty_budget capacity) steps
      (record { sum = refl; within = empty_within capacity; same = refl; distinct = tt })
  where
    empty_within : (c : Option ℕ) → IsWithin c 0
    empty_within none = tt
    empty_within (some c) = omega arith
