-- ===== src/ProxyPool/Success.antt =====
-- When `extract` succeeds.
use ytdlbot.Prelude.{
  ℕ, ◌+◌, ◌≡◌, ◌≤◌, ◌<◌, inl, inr, refl, sym, ap, Bool, true, false, ◌&&◌, ◌||◌, Option, none, some,
  String, List, [], ◌∷◌, arith, ltb, ◌==◌, if_true, any, Bool-cases, All, eq_iff,
}
use mathlib.Core.Path.{subst}
use ytdlbot.ProxyPool.Routes.{MediaProxyPool, Route, route_eq, is_configured, failed}
use ytdlbot.ProxyPool.Extract.{
  ProviderError, Answer, answers, errs, Attempt, Extraction, extracted, Extracted, Round, ends,
  goes_on, is_retryable, budget_of, blame, by_answer, by_late, within, try_route, after_round,
  try_routes, direct, extract, offered,
}

abbrev pub is_answer : {A : Type 0} → Answer A → Bool
is_answer (answers a) = true
is_answer (errs e) = false

-- An answer, or an error after which the next route is tried.
abbrev pub may_go_on : {A : Type 0} → Answer A → Bool
may_go_on (answers a) = true
may_go_on (errs e) = is_retryable e.kind

-- The same of what the operation does on a route in time, and when it is cancelled.
abbrev pub may_go_on_late : {A : Type 0} → Option (Answer A) → Bool
may_go_on_late none = true
may_go_on_late (some a) = may_go_on a

abbrev pub is_passable : {A : Type 0} → Attempt A → Bool
is_passable attempt = may_go_on attempt.answer && may_go_on_late attempt.late

abbrev pub IsExtracted : {A : Type 0} → Extraction A → Type 0
IsExtracted {A} x = (a : A) × ((key : Route) × (x ≡ extracted a key))

-- The time limits of the pool are at least `limit`.
record Allows (limit : ℕ) (pool : MediaProxyPool) : Type 0 where
  proxied : limit ≤ pool.attempt_timeout
  unproxied : limit ≤ pool.direct_timeout

Allows-failed :
    (limit : ℕ) (pool : MediaProxyPool) (platform : String) (key : Route) (now : ℕ)
    → Allows limit pool
    → Allows limit (failed pool platform key now)
unfolding failed
Allows-failed limit pool platform key now h = elim (Bool-cases (is_configured pool platform)) [
  | inl on ↦ rw (on, failed) (record { proxied = h.proxied; unproxied = h.unproxied })
  | inr off ↦ rw (off, failed) h
]

Allows-blame :
    (limit : ℕ) (pool : MediaProxyPool) (platform : String) (key : Route) (e : ProviderError)
    (now : ℕ)
    → Allows limit pool
    → Allows limit (blame pool platform key e now)
Allows-blame limit pool platform key e now h = elim (Bool-cases e.affects_route_health) [
  | inl blamed ↦ rw (blamed, blame) (Allows-failed limit pool platform key now h)
  | inr spared ↦ rw (spared, blame) h
]

route_eq_path : (a b : Route) → route_eq a b ≡ true → a ≡ b
unfolding route_eq
route_eq_path none none h = refl
route_eq_path none (some b) h = absurd cc
route_eq_path (some a) none h = absurd cc
route_eq_path (some a) (some b) h = ap some ((eq_iff a b).0 h)

-- Without a deadline the budget of a route is its time limit.
budget_of-Allows :
    (limit : ℕ) (pool : MediaProxyPool) (platform : String) (now : ℕ) (key : Route)
    → Allows limit pool
    → limit ≤ budget_of pool platform none now key
unfolding budget_of
budget_of-Allows limit pool platform now key h = ground (arith, h.proxied, h.unproxied)

module _ {A : Type 0} (operation : Route → ℕ → Attempt A) (platform : String) (is_public : Bool)
    (limit : ℕ) (some_time : 0 < limit) where
  -- A round extracts, or goes on with the same time limits where the route need not work.
  abbrev Goes : Bool → Round A → Type 0
  Goes works (ends x) = IsExtracted x.extraction
  Goes works (goes_on pool time e) = (works ≡ false) × Allows limit pool

  by_answer-Goes :
      (key : Route) (pool : MediaProxyPool) (time : ℕ) (a : Answer A)
      → Allows limit pool
      → may_go_on a ≡ true
      → Goes (is_answer a) (by_answer operation platform none is_public key pool time a)
  unfolding by_answer
  by_answer-Goes key pool time (answers a) h fine = (a, (key, refl))
  by_answer-Goes key pool time (errs e) h fine =
      rw (fine, by_answer, Goes) (refl, Allows-blame limit pool platform key e time h)

  by_late-Goes :
      (key : Route) (pool : MediaProxyPool) (time : ℕ) (late : Option (Answer A))
      → Allows limit pool
      → may_go_on_late late ≡ true
      → Goes false (by_late operation platform none is_public key pool time late)
  unfolding by_late
  by_late-Goes key pool time none h fine = (refl, Allows-failed limit pool platform key time h)
  by_late-Goes key pool time (some (answers a)) h fine =
      by_answer-Goes key pool time (answers a) h fine
  by_late-Goes key pool time (some (errs e)) h fine = by_answer-Goes key pool time (errs e) h fine

  try_route-Goes :
      (key : Route) (pool : MediaProxyPool) (now : ℕ)
      → Allows limit pool
      → is_passable (operation key now) ≡ true
      → Goes
          (is_answer (operation key now).answer && ltb (operation key now).elapsed limit)
          (try_route operation platform none is_public key pool now)
  unfolding try_route within
  try_route-Goes key pool now h fine =
      let room : limit ≤ budget_of pool platform none now key =
        budget_of-Allows limit pool platform now key h in
      let budget : ℕ = budget_of pool platform none now key in
      elim (Bool-cases (ltb (operation key now).elapsed budget)) [
        | inl early ↦
            rw (zero_budget budget (omega (arith, room)), early, try_route, within, Goes)
              (weaker (is_answer (operation key now).answer) _ _ (
                by_answer-Goes key pool (now + (operation key now).elapsed)
                  (operation key now).answer h (ground arith)))
        | inr late ↦
            rw (zero_budget budget (omega (arith, room)), late, try_route, within, Goes)
              (missed
                (is_answer (operation key now).answer && ltb (operation key now).elapsed limit) _
                (ground (arith, room))
                (by_late-Goes key pool (now + budget + (operation key now).lag)
                  (operation key now).late h (ground arith)))
      ]
    where
      zero_budget : (b : ℕ) → 0 < b → (b == 0) ≡ false
      zero_budget b positive = ground arith

      missed : (b : Bool) (r : Round A) → b ≡ false → Goes false r → Goes b r
      missed b (ends x) e k = k
      missed b (goes_on pool' time error) e k = (e, k.1)

      weaker : (a b : Bool) (r : Round A) → Goes a r → Goes (a && b) r
      weaker a b (ends x) k = k
      weaker a b (goes_on pool' time e) k = (ground (arith, k.0), k.1)

  -- Every route answers or may be passed over, at any time.
  abbrev pub MayGoOn : List Route → Type 0
  MayGoOn keys = All (λ key. (now : ℕ) → is_passable (operation key now) ≡ true) keys

  try_routes-IsExtracted :
      (keys : List Route) (pool : MediaProxyPool) (now : ℕ) (last_error : Option ProviderError)
      (good : Route)
      → Allows limit pool
      → any (λ key. route_eq key good) keys ≡ true
      → ((time : ℕ)
          → (is_answer (operation good time).answer && ltb (operation good time).elapsed limit)
            ≡ true)
      → MayGoOn keys
      → IsExtracted
          (try_routes operation platform none is_public keys pool now last_error).extraction
  unfolding try_routes
  try_routes-IsExtracted [] pool now last_error good h there works fine = absurd cc
  try_routes-IsExtracted (key ∷ keys) pool now last_error good h there works fine =
      go (try_route operation platform none is_public key pool now)
        (λ pool' time e. try_routes operation platform none is_public keys pool' time (some e))
        (try_route-Goes key pool now h (fine.0 now))
        (λ pool' time e allows missed.
          try_routes-IsExtracted keys pool' time (some e) good allows
            (passed (route_eq key good) there
              (λ same.
                subst
                  (λ k.
                    (is_answer (operation k now).answer && ltb (operation k now).elapsed limit)
                    ≡ true)
                  (sym (route_eq_path key good same)) (works now))
              missed)
            works fine.1)
    where
      go :
          {works : Bool} (r : Round A) (next : MediaProxyPool → ℕ → ProviderError → Extracted A)
          → Goes works r
          → ((pool' : MediaProxyPool) (time : ℕ) (e : ProviderError)
              → Allows limit pool'
              → works ≡ false
              → IsExtracted (next pool' time e).extraction)
          → IsExtracted (after_round operation platform none is_public r next).extraction
      go (ends x) next k rest = k
      go (goes_on pool' time e) next k rest = rest pool' time e k.1 k.0

      both : {b : Bool} → b ≡ true → b ≡ false → ⊥
      both e f = cc

      passed :
          (same : Bool) {rest works : Bool}
          → (same || rest) ≡ true
          → (same ≡ true → works ≡ true)
          → works ≡ false
          → rest ≡ true
      passed true h k missed = absurd (both (k refl) missed)
      passed false h k missed = h

-- On a configured platform, a call without a deadline succeeds if one of the routes that it is offered
-- answers at any time within the time limits of the pool, and no offered route would answer with an
-- error other than an authentication or a transient one, in time or after it was cancelled: those and
-- routes that take too long do not keep the call from reaching the good route.
pub extract-IsExtracted :
    {A : Type 0} (operation : Route → ℕ → Attempt A) (platform : String) (is_public : Bool)
    (limit : ℕ) (pool : MediaProxyPool) (lane : Option (List Route)) (now : ℕ) (good : Route)
    → is_configured pool platform ≡ true
    → 0 < limit
    → limit ≤ pool.attempt_timeout
    → limit ≤ pool.direct_timeout
    → any (λ key. route_eq key good) (offered pool lane platform now) ≡ true
    → ((time : ℕ)
        → (is_answer (operation good time).answer && ltb (operation good time).elapsed limit)
          ≡ true)
    → All
        (λ key. (time : ℕ) → is_passable (operation key time) ≡ true)
        (offered pool lane platform now)
    → IsExtracted (extract operation platform none is_public pool lane now).extraction
unfolding extract
extract-IsExtracted operation platform is_public limit pool lane now good on positive proxied direct
      there works fine =
    subst (λ (r : Extracted _). IsExtracted r.extraction) (sym (if_true _ _ _ on))
      (try_routes-IsExtracted operation platform is_public limit positive
        (offered pool lane platform now) pool now none good
        (record { proxied = proxied; unproxied = direct }) there works fine)
