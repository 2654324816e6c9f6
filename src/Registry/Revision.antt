-- ===== src/Registry/Revision.antt =====
-- What a configuration failure takes from the routes of a request, and what a change of the
-- configuration's revision gives back.
use ytdlbot.Prelude.{
  ℕ, ◌≡◌, refl, sym, ap, fun_ext, ◌∙◌, Bool, true, false, ◌&&◌, String, List, [], ◌∷◌, str_eq,
  eq_iff, eq_refl, filter, All, Bool-cases, inl, inr, arith,
}
use mathlib.Core.Bool.{false≢true}
use ytdlbot.Sql.Laws.{All-filter}
use ytdlbot.Registry.Circuit.{
  Circuit, is_available, reset, FailureKind, transient, auth, config, permanent, internal,
  record_failure,
}
use ytdlbot.Registry.Events.{is_configuration, disables}
use ytdlbot.Registry.Routes.{
  Circuits, ProviderRoute, ProviderRegistry, route_is_available, write, reset_configuration,
  set_revision, routes_for,
}

disabled_unavailable : (c : Circuit) (now : ℕ) → c.disabled ≡ true → is_available c now ≡ false
unfolding is_available
disabled_unavailable c now h = rw h refl

module _ {ℓ} (Request : Type ℓ) (platform : Request → String) (breaker : Circuits)
    (provider : String) (c : Circuit) (request : Request) (now : ℕ) (off : c.disabled ≡ true) where
  left_out :
      (route : ProviderRoute Request platform)
      → route_is_available Request platform
          (write breaker provider (platform request) c)
          route
          request
          now
        ≡ true
      → str_eq route.provider provider ≡ false
  unfolding write
  left_out route available = elim (Bool-cases (str_eq route.provider provider)) [
    | inl same ↦ absurd (false≢true (sym (unavailable same) ∙ available))
    | inr other ↦ other
  ]
    where
      unavailable :
          str_eq route.provider provider ≡ true
          → route_is_available Request platform
              (write breaker provider (platform request) c)
              route
              request
              now
            ≡ false
      unavailable same = ground (arith, eq_refl (platform request), disabled_unavailable c now off)

  each_left_out :
      (routes : List (ProviderRoute Request platform))
      → All
          (λ route.
            route_is_available Request platform
                (write breaker provider (platform request) c)
                route
                request
                now
              ≡ true
            → str_eq route.provider provider ≡ false)
          routes
  each_left_out [] = tt
  each_left_out (route ∷ routes) = (left_out route, each_left_out routes)

-- Right after a provider failed on a platform for want of authorization or configuration, no route
-- of that provider is offered for a request on that platform, at any time.
pub failed_route_left_out {ℓ} :
    (Request : Type ℓ) (platform : Request → String) (registry : ProviderRegistry Request platform)
    (provider : String) (request : Request) (kind : FailureKind) (failed now : ℕ)
    → is_configuration kind ≡ true
    → All
        (λ route. str_eq route.provider provider ≡ false)
        (routes_for Request platform
          (record registry {
            breaker =
                write registry.breaker provider
                  (platform request)
                  (record_failure (registry.breaker provider (platform request)) kind failed);
          })
          request
          now)
unfolding routes_for
failed_route_left_out Request platform registry provider request kind failed now h =
    let c = record_failure (registry.breaker provider (platform request)) kind failed in
    All-filter (λ route. str_eq route.provider provider ≡ false)
      (λ route.
        route_is_available Request platform (write registry.breaker provider (platform request) c)
          route request now)
      registry.routes
      (each_left_out Request platform registry.breaker provider c request now
        (disables (registry.breaker provider (platform request)) kind failed h) registry.routes)

-- A reset undoes what a configuration failure did to a circuit that was neither disabled nor probed.
reset_available :
    (c : Circuit) (kind : FailureKind) (failed now : ℕ)
    → is_configuration kind ≡ true
    → c.disabled ≡ false
    → c.probe_inflight ≡ false
    → is_available (reset (record_failure c kind failed)) now ≡ is_available c now
unfolding record_failure reset is_available
reset_available c transient failed now h on idle = absurd cc
reset_available c auth failed now h on idle = rw (on, idle) refl
reset_available c config failed now h on idle = rw (on, idle) refl
reset_available c permanent failed now h on idle = absurd cc
reset_available c internal failed now h on idle = absurd cc

enabled_available :
    (c : Circuit) (now : ℕ) → c.disabled ≡ false → is_available (reset c) now ≡ is_available c now
unfolding reset is_available
enabled_available c now on = rw on refl

-- Every circuit is available after the failure and the reset as it was before.
restored :
    (breaker : Circuits) (provider platform : String) (kind : FailureKind) (failed now : ℕ)
    (name other : String)
    → is_configuration kind ≡ true
    → ((p q : String) → (breaker p q).disabled ≡ false)
    → (breaker provider platform).probe_inflight ≡ false
    → is_available
        (reset_configuration
          (write breaker provider platform (record_failure (breaker provider platform) kind failed))
          name
          other)
        now
      ≡ is_available (breaker name other) now
unfolding write
restored breaker provider platform kind failed now name other h on idle =
    elim (Bool-cases (str_eq name provider && str_eq other platform)) [
      | inl same ↦ rw same (
          reset_available (breaker provider platform) kind failed now h (on provider platform) idle
          ∙ ap (λ c. is_available c now)
              (sym (
                ap (λ n. breaker n other) ((eq_iff name provider).0 (ground arith))
                ∙ ap (breaker provider) ((eq_iff other platform).0 (ground arith)))))
      | inr differs ↦ rw differs (enabled_available (breaker name other) now (on name other))
    ]

-- A change of the registry's revision makes up for a configuration failure: if no circuit was disabled
-- before an authorization or configuration failure of a provider on a platform, and no probe of that
-- provider was on its way there, then after the failure and a change to another revision every request
-- on any platform is offered the same routes at any time as without the two.
pub routes_for-set_revision {ℓ} :
    (Request : Type ℓ) (platform : Request → String) (registry : ProviderRegistry Request platform)
    (provider failing revision : String) (kind : FailureKind) (failed : ℕ) (request : Request)
    (now : ℕ)
    → is_configuration kind ≡ true
    → ((name other : String) → (registry.breaker name other).disabled ≡ false)
    → (registry.breaker provider failing).probe_inflight ≡ false
    → str_eq revision registry.revision ≡ false
    → routes_for Request platform
        (set_revision Request platform
          (record registry {
            breaker =
                write registry.breaker provider failing
                  (record_failure (registry.breaker provider failing) kind failed);
          })
          revision)
        request
        now
      ≡ routes_for Request platform registry request now
unfolding routes_for set_revision
routes_for-set_revision Request platform registry provider failing revision kind failed request now
      h on idle changed =
    rw changed (
      ap (λ (p : ProviderRoute Request platform → Bool). filter p registry.routes)
        (fun_ext (λ route.
          ap
            (λ (b : Bool).
              route.enabled && (route.capability_available && (route.supports request && b)))
            (restored registry.breaker provider failing kind failed now route.provider
              (platform request) h on idle))))
