-- ===== src/Registry/Events.antt =====
-- The life of a circuit as a sequence of the breaker's calls on it, and what a disabled or probing
-- circuit refuses.
use ytdlbot.Prelude.{ℕ, ◌≡◌, refl, Bool, true, false, List, [], ◌∷◌, any, arith}
use ytdlbot.Registry.Circuit.{
  Circuit, FailureKind, transient, auth, config, permanent, internal, is_available, is_some,
  try_acquire, release, record_success, record_failure, record_transient, reset,
}

-- A call of the breaker on the circuit, with its clock reading.
pub data Event : Type 0 where
  acquired_at : ℕ → Event
  released : Event
  succeeded : Event
  failed_with : FailureKind → ℕ → Event
  -- `reset_configuration`, on all circuits.
  reconfigured : Event

unfoldable pub happen : Circuit → Event → Circuit
happen c (acquired_at now) = (try_acquire c now).1
happen c released = release c
happen c succeeded = record_success c
happen c (failed_with kind now) = record_failure c kind now
happen c reconfigured = reset c

unfoldable pub happen_all : Circuit → List Event → Circuit
happen_all c [] = c
happen_all c (e ∷ es) = happen_all (happen c e) es

abbrev pub is_reconfigured : Event → Bool
is_reconfigured reconfigured = true
is_reconfigured _ = false

happen_disabled :
    (c : Circuit) (e : Event)
    → is_reconfigured e ≡ false
    → c.disabled ≡ true
    → (happen c e).disabled ≡ true
unfolding happen try_acquire release record_success record_failure record_transient
happen_disabled c (acquired_at now) k h = ground arith
happen_disabled c released k h = h
happen_disabled c succeeded k h = ground arith
happen_disabled c (failed_with transient now) k h = h
happen_disabled c (failed_with auth now) k h = refl
happen_disabled c (failed_with config now) k h = refl
happen_disabled c (failed_with permanent now) k h = h
happen_disabled c (failed_with internal now) k h = h
happen_disabled c reconfigured k h = absurd cc

happen_all_disabled :
    (c : Circuit) (es : List Event)
    → any is_reconfigured es ≡ false
    → c.disabled ≡ true
    → (happen_all c es).disabled ≡ true
unfolding happen_all
happen_all_disabled c [] k h = h
happen_all_disabled c (e ∷ es) k h =
    happen_all_disabled (happen c e) es (ground arith) (happen_disabled c e (ground arith) h)

-- A kind of failure that only a change of configuration can repair.
abbrev pub is_configuration : FailureKind → Bool
is_configuration auth = true
is_configuration config = true
is_configuration _ = false

pub disables :
    (c : Circuit) (kind : FailureKind) (failed : ℕ)
    → is_configuration kind ≡ true
    → (record_failure c kind failed).disabled ≡ true
unfolding record_failure
disables c transient failed h = absurd cc
disables c auth failed h = refl
disables c config failed h = refl
disables c permanent failed h = absurd cc
disables c internal failed h = absurd cc

-- After an authorization or configuration failure, whatever the circuit was and whatever calls of
-- the breaker follow but a reset of the configuration, successes included, no attempt is admitted and
-- none changes the circuit.
pub configuration_failure_disables :
    (c : Circuit) (kind : FailureKind) (failed now : ℕ) (es : List Event)
    → is_configuration kind ≡ true
    → any is_reconfigured es ≡ false
    → try_acquire (happen_all (record_failure c kind failed) es) now
      ≡ (false, happen_all (record_failure c kind failed) es)
unfolding try_acquire is_available
configuration_failure_disables c kind failed now es h k =
    rw (happen_all_disabled (record_failure c kind failed) es k (disables c kind failed h)) refl

probing :
    (c c' : Circuit) (now : ℕ)
    → is_some c.open_until ≡ true
    → try_acquire c now ≡ (true, c')
    → c'.probe_inflight ≡ true
unfolding try_acquire
probing c c' now opened admitted = ground arith

refused : (c : Circuit) (now : ℕ) → is_available c now ≡ false → try_acquire c now ≡ (false, c)
unfolding try_acquire
refused c now h = rw h refl

probing_unavailable : (c : Circuit) (now : ℕ) → c.probe_inflight ≡ true → is_available c now ≡ false
unfolding is_available
probing_unavailable c now h = ground arith

-- A call that tells how an attempt ended.
abbrev pub ends_attempt : Event → Bool
ends_attempt released = true
ends_attempt succeeded = true
ends_attempt (failed_with kind now) = true
ends_attempt _ = false

happen_probing :
    (c : Circuit) (e : Event)
    → ends_attempt e ≡ false
    → c.probe_inflight ≡ true
    → (happen c e).probe_inflight ≡ true
unfolding happen try_acquire reset
happen_probing c (acquired_at now) k h = ground arith
happen_probing c released k h = absurd cc
happen_probing c succeeded k h = absurd cc
happen_probing c (failed_with kind now) k h = absurd cc
happen_probing c reconfigured k h = h

happen_all_probing :
    (c : Circuit) (es : List Event)
    → any ends_attempt es ≡ false
    → c.probe_inflight ≡ true
    → (happen_all c es).probe_inflight ≡ true
unfolding happen_all
happen_all_probing c [] k h = h
happen_all_probing c (e ∷ es) k h =
    happen_all_probing (happen c e) es (ground arith) (happen_probing c e (ground arith) h)

-- After an open circuit has admitted an attempt, no other attempt is admitted, at any time and however
-- many are tried and whether or not the configuration is reset meanwhile, until the breaker is told of
-- the end of an attempt, this one's or an older one's; and a try changes nothing.
pub probe_excludes :
    (c c' : Circuit) (now later : ℕ) (es : List Event)
    → is_some c.open_until ≡ true
    → try_acquire c now ≡ (true, c')
    → any ends_attempt es ≡ false
    → try_acquire (happen_all c' es) later ≡ (false, happen_all c' es)
probe_excludes c c' now later es opened admitted k = refused (happen_all c' es) later (
    probing_unavailable (happen_all c' es) later
      (happen_all_probing c' es k (probing c c' now opened admitted)))
