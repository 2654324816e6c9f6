-- ===== src/Registry/Circuit.antt =====
-- One circuit of the `CircuitBreaker`, the state of a provider on a platform. Clock readings are
-- natural numbers of seconds.
use ytdlbot.Prelude.{
  ℕ, ◌+◌, ◌-◌, Bool, true, false, not, ◌&&◌, ◌||◌, Option, none, some, List, [], ◌∷◌, ◌++◌, ltb,
  leb, if◌then◌else◌, length,
}

pub data FailureKind : Type 0 where
  transient auth config permanent internal : FailureKind

pub record Circuit : Type 0 where
  pub failures : List ℕ
  pub open_until : Option ℕ
  pub probe_inflight : Bool
  pub disabled : Bool

-- `_Circuit()`
abbrev pub new_circuit : Circuit
new_circuit = record { failures = []; open_until = none; probe_inflight = false; disabled = false }

-- `open_until is None or clock() >= open_until`
unfoldable pub is_closed_at : Option ℕ → ℕ → Bool
is_closed_at none now = true
is_closed_at (some until) now = leb until now

unfoldable pub is_available : Circuit → ℕ → Bool
unfolding is_closed_at
is_available c now = not c.disabled && (not c.probe_inflight && is_closed_at c.open_until now)

abbrev pub is_some : Option ℕ → Bool
is_some none = false
is_some (some _) = true

unfoldable pub try_acquire : Circuit → ℕ → Bool × Circuit
unfolding is_available
try_acquire c now =
    if is_available c now
    then (true, (if is_some c.open_until then record c { probe_inflight = true } else c))
    else (false, c)

-- `release`, of a cancelled probe.
unfoldable pub release : Circuit → Circuit
release c = record c { probe_inflight = false }

unfoldable pub record_success : Circuit → Circuit
record_success c =
    if c.probe_inflight
    then record c { open_until = none; probe_inflight = false; failures = [] }
    else c

-- The `while` loop: failures before `now - 60` are dropped from the left. No reading is negative, so
-- that the subtraction may stop at 0.
unfoldable pub drop_old : ℕ → List ℕ → List ℕ
drop_old now [] = []
drop_old now (t ∷ ts) = let rest = drop_old now ts in if ltb t (now - 60) then rest else t ∷ ts

unfoldable pub record_transient : Circuit → ℕ → Circuit
unfolding drop_old
record_transient c now =
    let failures = drop_old now c.failures ++ now ∷ [] in
    record c {
      failures = failures;
      probe_inflight = false;
      open_until =
          if c.probe_inflight || leb 3 (length failures) then some (now + 300) else c.open_until;
    }

unfoldable pub record_failure : Circuit → FailureKind → ℕ → Circuit
unfolding record_transient
record_failure c transient now = record_transient c now
record_failure c auth now = record c { probe_inflight = false; disabled = true }
record_failure c config now = record c { probe_inflight = false; disabled = true }
record_failure c permanent now = record c { probe_inflight = false }
record_failure c internal now = record c { probe_inflight = false }

-- `reset_configuration`, for one of the circuits.
unfoldable pub reset : Circuit → Circuit
reset c = record c { disabled = false }
