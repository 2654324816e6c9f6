-- ===== src/Registry/Routes.antt =====
-- The breaker's circuits by provider and platform, and the registry's routes with its revision.
use ytdlbot.Prelude.{ℕ, Bool, ◌&&◌, String, List, str_eq, if◌then◌else◌, filter}
use ytdlbot.Registry.Circuit.{Circuit, is_available, reset}

-- `_circuits`, where a key that is not there reads as a new circuit (`setdefault`), so that its
-- insertion by a read is not visible.
abbrev pub Circuits : Type 0
Circuits = String → String → Circuit

-- A write to one circuit.
unfoldable pub write : Circuits → String → String → Circuit → Circuits
write circuits provider platform c =
    λ name other. if str_eq name provider && str_eq other platform then c else circuits name other

abbrev pub reset_configuration : Circuits → Circuits
reset_configuration circuits = λ provider platform. reset (circuits provider platform)

-- `MediaRequest` and what a provider supports are parameters: `supports` is the provider's own code.
module _ {ℓ} (Request : Type ℓ) (platform : Request → String) where
  pub record ProviderRoute : Type ℓ where
    pub provider : String
    pub supports : Request → Bool
    pub enabled : Bool
    pub capability_available : Bool

  pub record ProviderRegistry : Type ℓ where
    pub routes : List ProviderRoute
    pub revision : String
    pub breaker : Circuits

  -- `ProviderRoute.is_available`, with the breaker that the registry gives all its routes.
  abbrev pub route_is_available : Circuits → ProviderRoute → Request → ℕ → Bool
  route_is_available breaker route request now =
      route.enabled
      && (route.capability_available
          && (route.supports request
              && is_available (breaker route.provider (platform request)) now))

  unfoldable pub set_revision : ProviderRegistry → String → ProviderRegistry
  set_revision registry revision =
      if str_eq revision registry.revision
      then registry
      else record registry { revision = revision; breaker = reset_configuration registry.breaker }

  unfoldable pub routes_for : ProviderRegistry → Request → ℕ → List ProviderRoute
  routes_for registry request now =
      filter (λ route. route_is_available registry.breaker route request now) registry.routes
