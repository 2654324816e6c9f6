-- ===== src/ProxyPool/Budget.antt =====
-- The time that an extraction may take covers every route that it may try.
use ytdlbot.Prelude.{
  ℕ, ◌+◌, ◌*◌, ◌≡◌, ◌≤◌, ◌<◌, refl, sym, ◌∙◌, ap, ◌⊎◌, Bool, true, false, none, some, String, List,
  [], ◌∷◌, ◌++◌, map, str_eq, if◌then◌else◌, arith, Bool-cases, inl, inr, filter, length, max,
  eq_iff,
}
use ytdlbot.ProxyPool.Health.{routes_offered}
use ytdlbot.ProxyPool.Routes.{
  Route, MediaProxyPool, is_configured, is_healthy, ordered_routes, routes, route_timeout,
  extraction_timeout,
}

unfoldable pub is_proxied : Route → Bool
is_proxied none = false
is_proxied (some _) = true

-- The time that the routes of a list may take, one after the other.
unfoldable pub total_timeout : MediaProxyPool → String → List Route → ℕ
unfolding is_proxied
total_timeout pool platform [] = 0
total_timeout pool platform (key ∷ keys) =
    route_timeout pool platform (is_proxied key) + total_timeout pool platform keys

total-filter :
    (pool : MediaProxyPool) (platform : String) (p : Route → Bool) (keys : List Route)
    → total_timeout pool platform (filter p keys) ≤ total_timeout pool platform keys
unfolding total_timeout
total-filter pool platform p [] = omega arith
total-filter pool platform p (key ∷ keys) = elim (Bool-cases (p key)) [
  | inl fits ↦ rw fits (omega (arith, total-filter pool platform p keys))
  | inr drops ↦ rw drops (omega (arith, total-filter pool platform p keys))
]

total-map :
    (pool : MediaProxyPool) (platform : String) (keys : List String)
    → total_timeout pool platform (map some keys) ≡ length keys * pool.attempt_timeout
unfolding total_timeout is_proxied
total-map pool platform [] = omega arith
total-map pool platform (key ∷ keys) = omega (arith, total-map pool platform keys)

total-append :
    (pool : MediaProxyPool) (platform : String) (keys rest : List Route)
    → total_timeout pool platform (keys ++ rest)
      ≡ total_timeout pool platform keys + total_timeout pool platform rest
unfolding total_timeout
total-append pool platform [] rest = omega arith
total-append pool platform (key ∷ keys) rest = omega (arith, total-append pool platform keys rest)

ordered_cases :
    (pool : MediaProxyPool) (platform : String)
    → (ordered_routes pool platform ≡ map some pool.keys ++ none ∷ [])
      ⊎ (ordered_routes pool platform ≡ none ∷ map some pool.keys)
unfolding ordered_routes
ordered_cases pool platform = elim (Bool-cases (str_eq platform "youtube")) [
  | inl same ↦ inl (rw same refl)
  | inr other ↦ inr (rw other refl)
]

total_direct :
    (pool : MediaProxyPool) (platform : String)
    → total_timeout pool platform (none ∷ []) ≡ route_timeout pool platform false
unfolding total_timeout is_proxied
total_direct pool platform = omega arith

total_direct_first :
    (pool : MediaProxyPool) (platform : String) (keys : List Route)
    → total_timeout pool platform (none ∷ keys)
      ≡ route_timeout pool platform false + total_timeout pool platform keys
unfolding total_timeout is_proxied
total_direct_first pool platform keys = refl

total-ordered_routes :
    (pool : MediaProxyPool) (platform : String)
    → total_timeout pool platform (ordered_routes pool platform)
      ≡ length pool.keys * pool.attempt_timeout + route_timeout pool platform false
total-ordered_routes pool platform = elim (ordered_cases pool platform) [
  | inl last ↦
      ap (total_timeout pool platform) last
      ∙ omega (
        arith,
        total-append pool platform (map some pool.keys) (none ∷ []),
        total-map pool platform pool.keys,
        total_direct pool platform,
      )
  | inr first ↦
      ap (total_timeout pool platform) first
      ∙ omega (
        arith,
        total_direct_first pool platform (map some pool.keys),
        total-map pool platform pool.keys,
      )
]

-- One route of a list that is not empty.
one_attempt : (keys : List String) (n : ℕ) → 0 < length keys → n ≤ length keys * n
one_attempt [] n h = absurd (omega arith)
one_attempt (key ∷ keys) n h = omega arith

has_keys :
    (pool : MediaProxyPool) (platform : String)
    → is_configured pool platform ≡ true
    → 0 < length pool.keys
unfolding is_configured
has_keys pool platform on = long pool.keys (ground arith)
  where
    long : (keys : List String) → (elim keys [ [] ↦ false | _ ∷ _ ↦ true ]) ≡ true → 0 < length keys
    long [] h = absurd cc
    long (key ∷ keys) h = omega arith

direct_fits :
    (pool : MediaProxyPool) (platform : String)
    → is_configured pool platform ≡ true
    → route_timeout pool platform false ≤ (
        if is_configured pool "youtube"
        then max pool.direct_timeout pool.attempt_timeout
        else pool.direct_timeout)
direct_fits pool platform on = elim (Bool-cases (str_eq platform "youtube")) [
  | inl same ↦
      rw (ap (is_configured pool) (sym ((eq_iff platform "youtube").0 same)), on, same)
        (omega arith)
  | inr other ↦ ground arith
]

single_fits :
    (pool : MediaProxyPool) (platform : String) (r : Route)
    → 0 < length pool.keys
    → total_timeout pool platform (r ∷ [])
      ≤ length pool.keys * pool.attempt_timeout + route_timeout pool platform false
unfolding total_timeout is_proxied
single_fits pool platform none long = omega arith
single_fits pool platform (some key) long =
    omega (arith, one_attempt pool.keys pool.attempt_timeout long)

-- On a configured platform, the time limits of all the routes that `routes` offers, one after the
-- other, and a second for the clean-up are within the pool's extraction timeout.
pub routes_within_extraction_timeout :
    (second : ℕ) (pool : MediaProxyPool) (platform : String) (now : ℕ)
    → is_configured pool platform ≡ true
    → total_timeout pool platform (routes pool platform now) + second
      ≤ extraction_timeout second pool
routes_within_extraction_timeout second pool platform now on =
    elim (routes_offered pool platform now on) [
      | inl (same, _) ↦ omega (
        arith,
        ap (total_timeout pool platform) same,
        total-filter pool platform (is_healthy pool platform now) (ordered_routes pool platform),
        total-ordered_routes pool platform,
        direct_fits pool platform on,
      )
      | inr (r, rest) ↦ omega (
        arith,
        ap (total_timeout pool platform) rest.0,
        single_fits pool platform r (has_keys pool platform on),
        direct_fits pool platform on,
      )
    ]
