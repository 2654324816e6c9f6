-- ===== src/ProxyPool/Extract.antt =====
-- `MediaProxyPool.extract`: one operation tried over the routes of a platform. Time passes in the
-- waits. `asyncio.wait_for` returns when the operation that it has cancelled has ended.
use ytdlbot.Prelude.{
  ℕ, ◌+◌, ◌-◌, min, Bool, true, false, ◌&&◌, Option, none, some, String, List, [], ◌∷◌, ltb, ◌==◌,
  if◌then◌else◌,
}
use ytdlbot.Registry.Circuit.{FailureKind, transient, auth}
use ytdlbot.ProxyPool.Routes.{
  MediaProxyPool, Route, is_configured, routes, lane_routes, failed, succeeded, route_timeout,
}
use ytdlbot.ProxyPool.Budget.{is_proxied}

-- A ProviderError, with its kind and whether it affects the health of the route.
pub record ProviderError : Type 0 where
  pub kind : FailureKind
  pub affects_route_health : Bool

module _ (A : Type 0) where
  pub data Answer : Type 0 where
    answers : A → Answer
    errs : ProviderError → Answer

  -- What the operation does on a route, and how long it would take if it were not cancelled; how long
  -- it takes to end once it is cancelled, and the answer of one that does not let its cancellation
  -- through.
  pub record Attempt : Type 0 where
    pub answer : Answer
    pub elapsed : ℕ
    pub lag : ℕ
    pub late : Option Answer

  pub data Extraction : Type 0 where
    extracted : A → Route → Extraction
    raises : ProviderError → Extraction

  pub record Extracted : Type 0 where
    pub extraction : Extraction
    pub pool : MediaProxyPool
    pub time : ℕ

  -- A round of the loop ends the call or leaves an error and goes on.
  pub data Round : Type 0 where
    ends : Extracted → Round
    goes_on : MediaProxyPool → ℕ → ProviderError → Round

-- `ProviderError(FailureKind.TRANSIENT, …)`
abbrev pub transient_error : ProviderError
transient_error = record { kind = transient; affects_route_health = true }

-- The kinds after which the next route is tried.
unfoldable pub is_retryable : FailureKind → Bool
is_retryable auth = true
is_retryable transient = true
is_retryable _ = false

unfoldable pub is_auth : FailureKind → Bool
is_auth auth = true
is_auth _ = false

-- After the loop; an authentication error of a public request is a transient one.
unfoldable pub final_error : Bool → Option ProviderError → ProviderError
unfolding is_auth
final_error is_public none = record { kind = transient; affects_route_health = false }
final_error is_public (some e) = if is_public && is_auth e.kind then transient_error else e

-- `min(budget, deadline - clock())`, where zero stands for all that is not positive.
unfoldable pub budget_of : MediaProxyPool → String → Option ℕ → ℕ → Route → ℕ
unfolding is_proxied
budget_of pool platform none now key = route_timeout pool platform (is_proxied key)
budget_of pool platform (some deadline) now key =
    min (route_timeout pool platform (is_proxied key)) (deadline - now)

-- `self.routes(platform)`, of a pool that `for_routes` may have confined to a lane. Such a pool shares
-- the health of its parent.
unfoldable pub offered : MediaProxyPool → Option (List Route) → String → ℕ → List Route
unfolding routes lane_routes
offered pool none platform now = routes pool platform now
offered pool (some lane) platform now = lane_routes pool lane platform now

abbrev pub blame : MediaProxyPool → String → Route → ProviderError → ℕ → MediaProxyPool
blame pool platform key e now =
    if e.affects_route_health then failed pool platform key now else pool

module _ {A : Type 0} (operation : Route → ℕ → Attempt A) (platform : String) (deadline : Option ℕ)
    (is_public : Bool) where
  -- The operation has ended before the budget ran out.
  unfoldable pub by_answer : Route → MediaProxyPool → ℕ → Answer A → Round A
  unfolding is_retryable
  by_answer key pool time (answers a) =
      ends
        (record { extraction = extracted a key; pool = succeeded pool platform key; time = time })
  by_answer key pool time (errs e) =
      if is_retryable e.kind
      then goes_on (blame pool platform key e time) time e
      else ends (record { extraction = raises e; pool = pool; time = time })

  -- `wait_for` has cancelled the operation and waited until it ended: it raises TimeoutError, or goes by
  -- what the operation did instead.
  unfoldable pub by_late : Route → MediaProxyPool → ℕ → Option (Answer A) → Round A
  unfolding by_answer
  by_late key pool time none = goes_on (failed pool platform key time) time transient_error
  by_late key pool time (some a) = by_answer key pool time a

  unfoldable pub within : Route → MediaProxyPool → ℕ → ℕ → Attempt A → Round A
  unfolding by_answer by_late
  within key pool now budget attempt =
      if ltb attempt.elapsed budget
      then by_answer key pool (now + attempt.elapsed) attempt.answer
      else by_late key pool (now + budget + attempt.lag) attempt.late

  unfoldable pub try_route : Route → MediaProxyPool → ℕ → Round A
  unfolding budget_of within
  try_route key pool now =
      if budget_of pool platform deadline now key == 0
      then ends (record { extraction = raises transient_error; pool = pool; time = now })
      else within key pool now (budget_of pool platform deadline now key) (operation key now)

  abbrev pub after_round :
      Round A → (MediaProxyPool → ℕ → ProviderError → Extracted A) → Extracted A
  after_round (ends x) next = x
  after_round (goes_on pool time e) next = next pool time e

  unfoldable pub try_routes : List Route → MediaProxyPool → ℕ → Option ProviderError → Extracted A
  unfolding try_route final_error
  try_routes [] pool now last_error = record {
    extraction = raises (final_error is_public last_error);
    pool = pool;
    time = now;
  }
  try_routes (key ∷ keys) pool now last_error =
      after_round (try_route key pool now) (λ pool' time e. try_routes keys pool' time (some e))

  -- The call of the operation where no proxies are set for the platform.
  abbrev pub direct : MediaProxyPool → ℕ → Answer A → Extracted A
  direct pool time (answers a) = record { extraction = extracted a none; pool = pool; time = time }
  direct pool time (errs e) = record { extraction = raises e; pool = pool; time = time }

  unfoldable pub extract : MediaProxyPool → Option (List Route) → ℕ → Extracted A
  unfolding try_routes is_configured offered
  extract pool lane now =
      if is_configured pool platform
      then try_routes (offered pool lane platform now) pool now none
      else direct pool (now + (operation none now).elapsed) (operation none now).answer
