-- ===== src/ProxyPool/Health.antt =====
-- Which routes are offered: the healthy ones in their order, or one recovery attempt; and never none.
use ytdlbot.Prelude.{
  ℕ, ◌≡◌, ◌≤◌, ◌<◌, ◌⊎◌, inl, inr, refl, sym, Bool, true, false, ◌||◌, none, some, String, List, [],
  ◌∷◌, ◌++◌, map, str_eq, eq_refl, any, filter, length, leb, arith, All, Bool-cases,
}
use mathlib.Core.Path.{subst}
use ytdlbot.ProxyPool.Routes.{
  Route, MediaProxyPool, route_eq, is_configured, until, is_healthy, ordered_routes, earliest,
  recovery, or_else, routes,
}

-- One attempt on a route that was to rest, no later than any other route's.
abbrev pub IsRecovery : (Route → ℕ) → ℕ → List Route → List Route → Type 0
IsRecovery time now keys offered =
    (r : Route) × ((offered ≡ r ∷ [])
      × ((any (λ k. route_eq k r) keys ≡ true)
          × (All (λ k. now < time k) keys × All (λ k. time r ≤ time k) keys)))

route_eq_refl : (r : Route) → route_eq r r ≡ true
unfolding route_eq
route_eq_refl none = refl
route_eq_refl (some key) = eq_refl key

occupied : {key : Route} {keys : List Route} → key ∷ keys ≡ [] → ⊥
occupied h = cc

none_healthy :
    (time : Route → ℕ) (now : ℕ) (keys : List Route)
    → filter (λ k. leb (time k) now) keys ≡ []
    → All (λ k. now < time k) keys
none_healthy time now [] h = tt
none_healthy time now (key ∷ keys) h = elim (Bool-cases (leb (time key) now)) [
  | inl well ↦ absurd (occupied (rw well at h))
  | inr ill ↦ (ground arith, none_healthy time now keys (rw ill at h))
]

earliest_le_start :
    (time : Route → ℕ) (best : Route) (keys : List Route)
    → time (earliest time best keys) ≤ time best
unfolding earliest
earliest_le_start time best [] = omega arith
earliest_le_start time best (key ∷ keys) = elim (Bool-cases (leb (time best) (time key))) [
  | inl le ↦ rw le (earliest_le_start time best keys)
  | inr gt ↦ rw gt (after_key (earliest_le_start time key keys) gt)
]
  where
    after_key :
        time (earliest time key keys) ≤ time key
        → leb (time best) (time key) ≡ false
        → time (earliest time key keys) ≤ time best
    after_key a b = ground arith

step_kept :
    (time : Route → ℕ) (best key : Route) (keys : List Route)
    → leb (time best) (time key) ≡ true
    → earliest time best keys ≡ earliest time best (key ∷ keys)
unfolding earliest
step_kept time best key keys h = rw h refl

step_moved :
    (time : Route → ℕ) (best key : Route) (keys : List Route)
    → leb (time best) (time key) ≡ false
    → earliest time key keys ≡ earliest time best (key ∷ keys)
unfolding earliest
step_moved time best key keys h = rw h refl

earliest_le :
    (time : Route → ℕ) (best : Route) (keys : List Route)
    → All (λ k. time (earliest time best keys) ≤ time k) keys
earliest_le time best [] = tt
earliest_le time best (key ∷ keys) = elim (Bool-cases (leb (time best) (time key))) [
  | inl le ↦
      subst (λ e. All (λ k. time e ≤ time k) (key ∷ keys)) (step_kept time best key keys le)
        (bound (earliest_le_start time best keys) le, earliest_le time best keys)
  | inr gt ↦
      subst (λ e. All (λ k. time e ≤ time k) (key ∷ keys)) (step_moved time best key keys gt)
        (earliest_le_start time key keys, earliest_le time key keys)
]
  where
    bound :
        time (earliest time best keys) ≤ time best
        → leb (time best) (time key) ≡ true
        → time (earliest time best keys) ≤ time key
    bound a b = ground arith

or_later : (a b c : Bool) → (a || c) ≡ true → (a || (b || c)) ≡ true
or_later a b c h = ground arith

or_right : (a b : Bool) → b ≡ true → (a || b) ≡ true
or_right a b h = ground arith

earliest_among :
    (time : Route → ℕ) (best : Route) (keys : List Route)
    → any (λ k. route_eq k (earliest time best keys)) (best ∷ keys) ≡ true
unfolding earliest
earliest_among time best [] = ground (arith, route_eq_refl best)
earliest_among time best (key ∷ keys) = elim (Bool-cases (leb (time best) (time key))) [
  | inl le ↦
      subst (λ e. any (λ k. route_eq k e) (best ∷ key ∷ keys) ≡ true)
        (step_kept time best key keys le)
        (or_later (route_eq best (earliest time best keys)) (route_eq key (earliest time best keys))
          (any (λ k. route_eq k (earliest time best keys)) keys) (earliest_among time best keys))
  | inr gt ↦
      subst (λ e. any (λ k. route_eq k e) (best ∷ key ∷ keys) ≡ true)
        (step_moved time best key keys gt)
        (or_right (route_eq best (earliest time key keys))
          (any (λ k. route_eq k (earliest time key keys)) (key ∷ keys))
          (earliest_among time key keys))
]

earliest_is_least :
    (time : Route → ℕ) (key : Route) (keys : List Route)
    → All (λ k. time (earliest time key keys) ≤ time k) (key ∷ keys)
earliest_is_least time key keys = (earliest_le_start time key keys, earliest_le time key keys)

recovery-IsRecovery :
    (time : Route → ℕ) (now : ℕ) (key : Route) (keys : List Route)
    → All (λ k. now < time k) (key ∷ keys)
    → IsRecovery time now (key ∷ keys) (recovery time (key ∷ keys))
unfolding recovery
recovery-IsRecovery time now key keys h = (
  earliest time key keys,
  (refl, (earliest_among time key keys, (h, earliest_is_least time key keys))),
)

last_route : (keys : List Route) (key : Route) → 0 < length (keys ++ key ∷ [])
last_route [] key = omega arith
last_route (k ∷ keys) key = omega arith

some_route : (pool : MediaProxyPool) (platform : String) → 0 < length (ordered_routes pool platform)
unfolding ordered_routes
some_route pool platform = elim (Bool-cases (str_eq platform "youtube")) [
  | inl same ↦ rw same (last_route (map some pool.keys) none)
  | inr other ↦ rw other (omega arith)
]

-- The routes of a configured pool are the healthy ones of the platform in their order, of which there
-- is one at least, or else no route is healthy and the one offered is a route of the platform whose
-- rest ends no later than any other's.
pub routes_offered :
    (pool : MediaProxyPool) (platform : String) (now : ℕ)
    → is_configured pool platform ≡ true
    → ((routes pool platform now
          ≡ filter (is_healthy pool platform now) (ordered_routes pool platform))
        × (0 < length (routes pool platform now)))
      ⊎ IsRecovery
          (until pool platform)
          now
          (ordered_routes pool platform)
          (routes pool platform now)
unfolding routes
routes_offered pool platform now on =
    rw (on, routes)
      (either (ordered_routes pool platform)
        (filter (is_healthy pool platform now) (ordered_routes pool platform))
        (some_route pool platform) refl)
  where
    either :
        (keys healthy : List Route)
        → 0 < length keys
        → filter (is_healthy pool platform now) keys ≡ healthy
        → ((or_else healthy (recovery (until pool platform) keys)
              ≡ filter (is_healthy pool platform now) keys)
            × (0 < length (or_else healthy (recovery (until pool platform) keys))))
          ⊎ IsRecovery
              (until pool platform)
              now
              keys
              (or_else healthy (recovery (until pool platform) keys))
    either keys (r ∷ rs) long e = inl (sym e, omega arith)
    either [] [] long e = absurd (omega arith)
    either (key ∷ keys) [] long e = inr (
        recovery-IsRecovery (until pool platform) now key keys
          (none_healthy (until pool platform) now (key ∷ keys) e))
