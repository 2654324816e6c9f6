-- ===== src/Disk/Budget.antt =====
-- `DiskBudget` and the sizes of its reservations. The free space of the disk is read anew by each
-- call, so it is an argument.
use ytdlbot.Prelude.{
  ℕ, ◌+◌, ◌-◌, min, Bool, false, Option, none, some, List, [], ◌∷◌, ltb, leb, if◌then◌else◌,
}
use ytdlbot.Prelude.Int.{ℤ, pos, negsuc}
use ytdlbot.Prelude.Objects.{object, modify}

-- A reservation is live, claimed for its release, or given back.
pub data Phase : Type 0 where
  live releasing settled : Phase

pub record DiskReservation : Type 0 where
  pub id : ℕ
  pub size_bytes : ℕ
  pub phase : Phase

abbrev pub key : DiskReservation → ℕ
key r = r.id

pub record DiskBudget : Type 0 where
  pub capacity_bytes : Option ℕ
  pub reserved_bytes : ℕ
  pub reservations : List DiskReservation

-- How a call ends.
pub data Reply : Type 0 where
  done : Reply
  insufficient_disk_space : Reply
  value_error : Reply
  runtime_error : Reply

-- `min(real_free, capacity)` where there is a capacity.
abbrev pub usable : Option ℕ → ℕ → ℕ
usable none free = free
usable (some capacity) free = min free capacity

-- `_available_bytes`, where `max(0, …)` is the subtraction of natural numbers.
unfoldable pub available_bytes : DiskBudget → ℕ → ℕ
available_bytes b free = usable b.capacity_bytes free - b.reserved_bytes

abbrev pub is_positive : ℤ → Bool
is_positive (pos n) = ltb 0 n
is_positive (negsuc n) = false

-- The part of `reserve` that the lock protects, with a new object.
unfoldable pub reserve_locked : DiskBudget → ℕ → ℕ → ℕ → Reply × DiskBudget
unfolding available_bytes
reserve_locked b free id size =
    if ltb (available_bytes b free) size then (insufficient_disk_space, b) else (
      done,
      record b {
        reserved_bytes = b.reserved_bytes + size;
        reservations = record { id = id; size_bytes = size; phase = live } ∷ b.reservations;
      },
    )

unfoldable pub reserve : DiskBudget → ℕ → ℕ → ℤ → ℤ → Reply × DiskBudget
unfolding reserve_locked
reserve b free id (negsuc n) lease_ttl = (value_error, b)
reserve b free id (pos size) lease_ttl =
    if is_positive lease_ttl then reserve_locked b free id size else (value_error, b)

abbrev pub resize : ℕ → DiskReservation → DiskReservation
resize size r = record r { size_bytes = size }

abbrev pub set_phase : Phase → DiskReservation → DiskReservation
set_phase phase r = record r { phase = phase }

-- `_grow` of a reservation that was not released: `delta = new_size - size_bytes`.
unfoldable pub grow_live : DiskBudget → ℕ → DiskReservation → ℕ → Reply × DiskBudget
unfolding available_bytes
grow_live b free r new_size =
    if leb new_size r.size_bytes
    then (done, b)
    else if ltb (available_bytes b free) (new_size - r.size_bytes)
    then (insufficient_disk_space, b)
    else (
      done,
      record b {
        reserved_bytes = b.reserved_bytes + (new_size - r.size_bytes);
        reservations = modify key r.id (resize new_size) b.reservations;
      },
    )

-- A size below zero is no growth.
unfoldable pub grow_by : Phase → DiskBudget → ℕ → DiskReservation → ℤ → Reply × DiskBudget
unfolding grow_live
grow_by live b free r (pos new_size) = grow_live b free r new_size
grow_by live b free r (negsuc n) = (done, b)
grow_by _ b free r new_size = (runtime_error, b)

-- `ensure`, whose own test of the release is that of `_grow`.
unfoldable pub ensure : DiskBudget → ℕ → DiskReservation → ℤ → Reply × DiskBudget
unfolding grow_by
ensure b free r new_size = grow_by r.phase b free r new_size

-- The first call of `release` claims it.
unfoldable pub begin_release : DiskBudget → DiskReservation → Phase → DiskBudget
begin_release b r live = record b {
  reservations = modify key r.id (set_phase releasing) b.reservations;
}
begin_release b r _ = b

-- The end of `_finish_release`, which the claim started once: `max(0, reserved - size)`.
unfoldable pub finish_release : DiskBudget → DiskReservation → Phase → DiskBudget
finish_release b r releasing = record b {
  reserved_bytes = b.reserved_bytes - r.size_bytes;
  reservations = modify key r.id (set_phase settled) b.reservations;
}
finish_release b r _ = b

-- The calls in any order, each with the free space that it reads.
pub data Step : Type 0 where
  enter : ℕ → ℕ → ℤ → ℤ → Step
  grow : ℕ → ℕ → ℤ → Step
  claim : ℕ → Step
  finish : ℕ → Step

-- An operation on a known reservation; other identifiers name no object.
unfoldable pub on_reservation : ℕ → (DiskReservation → DiskBudget) → DiskBudget → DiskBudget
on_reservation id f b = elim (object key id b.reservations) [ none ↦ b | some r ↦ f r ]

-- A new reservation is a new object, so its identifier is not in use.
unfoldable pub step : DiskBudget → Step → DiskBudget
unfolding reserve ensure begin_release finish_release
step b (enter id free size lease_ttl) = elim (object key id b.reservations) [
  | none ↦ (reserve b free id size lease_ttl).1
  | some _ ↦ b
]
step b (grow id free size) = on_reservation id (λ r. (ensure b free r size).1) b
step b (claim id) = on_reservation id (λ r. begin_release b r r.phase) b
step b (finish id) = on_reservation id (λ r. finish_release b r r.phase) b

unfoldable pub run : DiskBudget → List Step → DiskBudget
run b [] = b
run b (s ∷ steps) = run (step b s) steps

abbrev pub empty_budget : Option ℕ → DiskBudget
empty_budget capacity = record { capacity_bytes = capacity; reserved_bytes = 0; reservations = [] }
