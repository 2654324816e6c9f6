-- ===== src/Registry/Examples.antt =====
-- The breaker's theorems at concrete circuits, and runs of its calls.
use ytdlbot.Prelude.{str_eq, All, ◌≡◌, refl, true, false, some, [], ◌∷◌, String, arith}
use ytdlbot.Registry.Circuit.{
  Circuit, new_circuit, transient, auth, is_available, is_closed_at, try_acquire, release,
  record_success, record_failure, record_transient, drop_old, reset,
}
use ytdlbot.Registry.Routes.{ProviderRegistry, write, set_revision, routes_for}
use ytdlbot.Registry.Events.{
  Event, acquired_at, succeeded, failed_with, reconfigured, happen, happen_all,
}
use ytdlbot.Registry.Events
use ytdlbot.Registry.Opening
use ytdlbot.Registry.Revision

program : Unit {0}
unfolding happen happen_all try_acquire is_available is_closed_at release record_success
    record_failure record_transient drop_old reset set_revision routes_for
program = tt

abbrev opened : Circuit
opened = record {
  failures = 1000 ∷ 1010 ∷ 1020 ∷ [];
  open_until = some 1320;
  probe_inflight = false;
  disabled = false;
}

opening_test :
    happen_all new_circuit (
      failed_with transient 900
      ∷ failed_with transient 1000
      ∷ failed_with transient 1010
      ∷ failed_with transient 1020
      ∷ [])
    ≡ opened
unfolding program
opening_test = refl

probe_test : happen_all opened (acquired_at 1320 ∷ succeeded ∷ []) ≡ new_circuit
unfolding program
probe_test = refl

three_failures_open_example :
    is_available
      (record_failure
        (record_failure (record_failure new_circuit transient 1000) transient 1030)
        transient
        1060)
      1359
    ≡ false
three_failures_open_example =
    Opening.three_failures_open new_circuit 1000 1030 1060 1359 (omega arith) (omega arith)
      (omega arith) (omega arith)

configuration_failure_disables_example :
    try_acquire
      (happen_all (record_failure new_circuit auth 10) (acquired_at 20 ∷ succeeded ∷ []))
      5000
    ≡ (false, happen_all (record_failure new_circuit auth 10) (acquired_at 20 ∷ succeeded ∷ []))
configuration_failure_disables_example =
    Events.configuration_failure_disables new_circuit auth 10 5000 (acquired_at 20 ∷ succeeded ∷ [])
      refl refl

probe_excludes_example :
    try_acquire
      (happen_all (record opened { probe_inflight = true }) (acquired_at 1330 ∷ reconfigured ∷ []))
      1400
    ≡ (
      false,
      happen_all (record opened { probe_inflight = true }) (acquired_at 1330 ∷ reconfigured ∷ []),
    )
unfolding program
probe_excludes_example =
    Events.probe_excludes opened (record opened { probe_inflight = true }) 1320 1400
      (acquired_at 1330 ∷ reconfigured ∷ []) refl refl refl

-- The late success of an attempt that was admitted before the circuit opened ends the probe.
late_success_test :
    (try_acquire (happen_all opened (acquired_at 1320 ∷ succeeded ∷ [])) 1321).0 ≡ true
unfolding program
late_success_test = refl

reconfigured_test :
    (try_acquire (happen_all (record_failure new_circuit auth 10) (reconfigured ∷ [])) 20).0 ≡ true
unfolding program
reconfigured_test = refl

abbrev one_route : ProviderRegistry String (λ request. request)
one_route = record {
  routes =
      record {
        provider = "cobalt";
        supports = λ _. true;
        enabled = true;
        capability_available = true;
      }
      ∷ [];
  revision = "r1";
  breaker = λ _ _. record new_circuit { disabled = true };
}

-- The same with its circuit closed.
abbrev closed_route : ProviderRegistry String (λ request. request)
closed_route = record one_route { breaker = λ _ _. new_circuit }

routes_for-set_revision_example :
    routes_for String
      (λ request. request)
      (set_revision String
        (λ request. request)
        (record closed_route {
          breaker =
              write closed_route.breaker "cobalt" "youtube"
                (record_failure (closed_route.breaker "cobalt" "youtube") auth 5);
        })
        "r2")
      "youtube"
      7
    ≡ routes_for String (λ request. request) closed_route "youtube" 7
routes_for-set_revision_example =
    Revision.routes_for-set_revision String (λ request. request) closed_route "cobalt" "youtube"
      "r2" auth 5 "youtube" 7 refl (λ _ _. refl) refl refl

disabled_test : routes_for String (λ request. request) one_route "youtube" 7 ≡ []
unfolding program
disabled_test = refl

failed_route_left_out_example :
    All
      (λ route. str_eq route.provider "cobalt" ≡ false)
      (routes_for String
        (λ request. request)
        (record one_route {
          breaker =
              write one_route.breaker "cobalt" "youtube"
                (record_failure (one_route.breaker "cobalt" "youtube") auth 5);
        })
        "youtube"
        9)
failed_route_left_out_example =
    Revision.failed_route_left_out String (λ request. request) one_route "cobalt" "youtube" auth 5 9
      refl
