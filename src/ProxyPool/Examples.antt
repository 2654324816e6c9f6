-- ===== src/ProxyPool/Examples.antt =====
-- The pool's theorems at a concrete pool, and runs of its operations.
use ytdlbot.Prelude.{
  false, ℕ, true, String, max, arith, ◌≡◌, ◌≤◌, ◌<◌, ◌+◌, ◌⊎◌, refl, none, some, [], ◌∷◌, filter,
  length, if◌then◌else◌, str_eq,
}
use ytdlbot.ProxyPool.Routes.{
  MediaProxyPool, Route, route_eq, is_configured, until, is_healthy, ordered_routes, earliest,
  recovery, routes, lane_routes, failed, succeeded, extraction_timeout,
}
use ytdlbot.Registry.Circuit.{auth, transient}
use ytdlbot.ProxyPool.Extract.{
  answers, errs, Attempt, extracted, raises, transient_error, is_retryable, is_auth, final_error,
  budget_of, by_answer, by_late, within, try_route, try_routes, extract, offered,
}
use ytdlbot.ProxyPool.Reach
use ytdlbot.ProxyPool.Success
use ytdlbot.ProxyPool.Success.{IsExtracted}
use ytdlbot.ProxyPool.Health.{IsRecovery}
use ytdlbot.ProxyPool.Budget.{total_timeout, is_proxied}
use ytdlbot.ProxyPool.Health
use ytdlbot.ProxyPool.Budget

program : Unit {0}
unfolding route_eq is_configured until ordered_routes earliest recovery routes lane_routes failed
    succeeded is_proxied is_retryable is_auth final_error budget_of by_answer by_late within
    try_route try_routes extract offered
program = tt

abbrev two_proxies : MediaProxyPool
two_proxies = record {
  keys = "proxy-1" ∷ "proxy-2" ∷ [];
  platforms = "youtube" ∷ "x" ∷ [];
  attempt_timeout = 20;
  direct_timeout = 3;
  cooldown = 60;
  failed_until = λ _ _. none;
}

abbrev tired : MediaProxyPool
tired =
    failed (failed (failed two_proxies "youtube" (some "proxy-1") 1020) "youtube" none 1030)
      "youtube" (some "proxy-2") 1000

order_test : routes two_proxies "youtube" 1000 ≡ some "proxy-1" ∷ some "proxy-2" ∷ none ∷ []
unfolding program
order_test = refl

lane_test :
    lane_routes
      (failed two_proxies "youtube" (some "proxy-1") 990)
      (some "proxy-1" ∷ some "proxy-2" ∷ [])
      "youtube"
      1000
    ≡ some "proxy-2" ∷ []
unfolding program
lane_test = refl

recovery_test : routes tired "youtube" 1040 ≡ some "proxy-2" ∷ []
unfolding program
recovery_test = refl

routes_offered_example :
    ((routes tired "youtube" 1040
        ≡ filter (is_healthy tired "youtube" 1040) (ordered_routes tired "youtube"))
      × (0 < length (routes tired "youtube" 1040)))
    ⊎ IsRecovery
        (until tired "youtube")
        1040
        (ordered_routes tired "youtube")
        (routes tired "youtube" 1040)
unfolding program
routes_offered_example = Health.routes_offered tired "youtube" 1040 refl

routes_within_extraction_timeout_example :
    total_timeout two_proxies "x" (routes two_proxies "x" 1000) + 1
    ≤ extraction_timeout 1 two_proxies
unfolding is_configured
routes_within_extraction_timeout_example =
    Budget.routes_within_extraction_timeout 1 two_proxies "x" 1000 refl

-- The first proxy is refused, the second one hangs and takes a unit to end when it is cancelled, and
-- the direct route answers in two units.
abbrev patchy : Route → ℕ → Attempt String
patchy none now = record { answer = answers "clip"; elapsed = 2; lag = 0; late = none }
patchy (some key) now =
    if str_eq key "proxy-1"
    then record {
      answer = errs (record { kind = auth; affects_route_health = true });
      elapsed = 4;
      lag = 0;
      late = none;
    }
    else record { answer = answers "late clip"; elapsed = 500; lag = 1; late = none }

third_route_test :
    ((extract patchy "youtube" none true two_proxies none 1000).extraction ≡ extracted "clip" none)
    × ((extract patchy "youtube" none true two_proxies none 1000).time ≡ 1027)
unfolding program
third_route_test = (refl, refl)

deadline_test :
    ((extract patchy "youtube" (some 1010) true two_proxies none 1000).extraction
      ≡ raises transient_error)
    × ((extract patchy "youtube" (some 1010) true two_proxies none 1000).time ≡ 1011)
unfolding program
deadline_test = (refl, refl)

blamed_test :
    routes (extract patchy "youtube" none true two_proxies none 1000).pool "youtube" 1030
    ≡ none ∷ []
unfolding program
blamed_test = refl

patchy_prompt : (key : Route) (time : ℕ) → (patchy key time).lag ≤ 1
patchy_prompt none time = omega arith
patchy_prompt (some key) time = ground arith

extract_timely_example :
    (extract patchy "youtube" (some 1010) true two_proxies none 1000).time ≤ max 1000 (1010 + 1)
unfolding is_configured
extract_timely_example =
    Reach.extract_timely patchy "youtube" 1010 1 true two_proxies none 1000 refl patchy_prompt

extract-IsExtracted_example :
    IsExtracted (extract patchy "youtube" none true two_proxies none 1000).extraction
unfolding program
extract-IsExtracted_example =
    Success.extract-IsExtracted patchy "youtube" true 3 two_proxies none 1000 none refl
      (ground arith) (ground arith) (ground arith) refl (λ time. refl)
      ((λ time. refl), ((λ time. refl), ((λ time. refl), tt)))

empty_lane_test :
    (extract patchy "youtube" none true
      (failed two_proxies "youtube" (some "proxy-1") 990)
      (some (some "proxy-1" ∷ []))
      1000).extraction
    ≡ raises (record { kind = transient; affects_route_health = false })
unfolding program
empty_lane_test = refl
