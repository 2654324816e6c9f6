-- ===== src/ProxyPool/Routes.antt =====
-- `MediaProxyPool` without its credentials: routes are opaque keys, `none` is the direct route.
use ytdlbot.Prelude.{
  ℕ, ◌+◌, ◌*◌, max, Bool, true, false, ◌&&◌, Option, none, some, String, List, [], ◌∷◌, ◌++◌, map,
  str_eq, if◌then◌else◌, any, filter, length, leb,
}

abbrev pub Route : Type 0
Route = Option String

-- `failed_until` is a dictionary: `none` for a missing key.
pub record MediaProxyPool : Type 0 where
  pub keys : List String
  pub platforms : List String
  pub attempt_timeout : ℕ
  pub direct_timeout : ℕ
  pub cooldown : ℕ
  pub failed_until : String → Route → Option ℕ

unfoldable pub route_eq : Route → Route → Bool
route_eq none none = true
route_eq (some a) (some b) = str_eq a b
route_eq _ _ = false

abbrev pub is_enabled : MediaProxyPool → Bool
is_enabled pool = elim pool.keys [ [] ↦ false | _ ∷ _ ↦ true ]

unfoldable pub is_configured : MediaProxyPool → String → Bool
is_configured pool platform = is_enabled pool && any (λ p. str_eq p platform) pool.platforms

-- `self._failed_until.get((platform, key), 0)`
unfoldable pub until : MediaProxyPool → String → Route → ℕ
until pool platform key = elim (pool.failed_until platform key) [ none ↦ 0 | some t ↦ t ]

abbrev pub is_healthy : MediaProxyPool → String → ℕ → Route → Bool
is_healthy pool platform now key = leb (until pool platform key) now

-- The proxies before the direct route on YouTube, after it elsewhere.
unfoldable pub ordered_routes : MediaProxyPool → String → List Route
ordered_routes pool platform =
    if str_eq platform "youtube" then map some pool.keys ++ none ∷ [] else none ∷ map some pool.keys

-- `min(keys, key=…)`, the first of the smallest, where `best` is the first element.
unfoldable pub earliest : (Route → ℕ) → Route → List Route → Route
earliest time best [] = best
earliest time best (key ∷ keys) =
    earliest time (if leb (time best) (time key) then best else key) keys

-- The recovery attempt of a pool that has cooled down.
unfoldable pub recovery : (Route → ℕ) → List Route → List Route
unfolding earliest
recovery time [] = []
recovery time (key ∷ keys) = earliest time key keys ∷ []

abbrev pub or_else : List Route → List Route → List Route
or_else [] other = other
or_else (key ∷ keys) other = key ∷ keys

-- `routes` of a pool that is not confined to a lane.
unfoldable pub routes : MediaProxyPool → String → ℕ → List Route
unfolding is_configured ordered_routes recovery
routes pool platform now =
    if is_configured pool platform
    then or_else (filter (is_healthy pool platform now) (ordered_routes pool platform))
        (recovery (until pool platform) (ordered_routes pool platform))
    else none ∷ []

-- `routes` of the pool that `for_routes(keys)` returns.
unfoldable pub lane_routes : MediaProxyPool → List Route → String → ℕ → List Route
unfolding routes route_eq
lane_routes pool scope platform now =
    filter (λ key. any (λ k. route_eq k key) scope) (routes pool platform now)

abbrev pub set_until :
    (String → Route → Option ℕ) → String → Route → Option ℕ → String → Route → Option ℕ
set_until table platform key time =
    λ p k. if str_eq p platform && route_eq k key then time else table p k

unfoldable pub failed : MediaProxyPool → String → Route → ℕ → MediaProxyPool
unfolding is_configured route_eq
failed pool platform key now =
    if is_configured pool platform
    then record pool {
      failed_until = set_until pool.failed_until platform key (some (now + pool.cooldown));
    }
    else pool

unfoldable pub succeeded : MediaProxyPool → String → Route → MediaProxyPool
unfolding route_eq
succeeded pool platform key = record pool {
  failed_until = set_until pool.failed_until platform key none;
}

abbrev pub route_timeout : MediaProxyPool → String → Bool → ℕ
route_timeout pool platform proxied =
    if proxied
    then pool.attempt_timeout
    else if str_eq platform "youtube"
    then pool.attempt_timeout
    else pool.direct_timeout

-- In units of which a second has `second`.
abbrev pub extraction_timeout : ℕ → MediaProxyPool → ℕ
extraction_timeout second pool =
    (if is_configured pool "youtube"
      then max pool.direct_timeout pool.attempt_timeout
      else pool.direct_timeout)
    + length pool.keys * pool.attempt_timeout
    + second
