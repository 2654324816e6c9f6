-- ===== src/ProxyPool/Reach.antt =====
-- What `extract` reaches, and by when.
use ytdlbot.Prelude.{
  ℕ, ◌+◌, ◌≡◌, ◌≤◌, inl, inr, max, sym, Bool, true, false, Option, none, some, String, List, [],
  ◌∷◌, arith, ltb, ◌==◌, if_true, Bool-cases,
}
use mathlib.Core.Path.{subst}
use ytdlbot.ProxyPool.Routes.{MediaProxyPool, Route, is_configured}
use ytdlbot.ProxyPool.Extract.{
  ProviderError, Answer, answers, errs, Attempt, Extracted, Round, ends, goes_on, is_retryable,
  budget_of, by_answer, by_late, within, try_route, after_round, try_routes, extract, offered,
}

-- The clock of a round does not pass the limit.
abbrev IsTimely : {A : Type 0} → ℕ → Round A → Type 0
IsTimely limit (ends x) = x.time ≤ limit
IsTimely limit (goes_on pool time e) = time ≤ limit

budget_room :
    (pool : MediaProxyPool) (platform : String) (deadline now : ℕ) (key : Route)
    → (budget_of pool platform (some deadline) now key == 0) ≡ false
    → now + budget_of pool platform (some deadline) now key ≤ deadline
unfolding budget_of
budget_room pool platform deadline now key h = ground arith

module _ {A : Type 0} (operation : Route → ℕ → Attempt A) (platform : String) (deadline : ℕ)
    (is_public : Bool) (lag limit : ℕ) (covered : deadline + lag ≤ limit)
    (prompt : (key : Route) (time : ℕ) → (operation key time).lag ≤ lag) where
  by_answer-IsTimely :
      (key : Route) (pool : MediaProxyPool) (time : ℕ) (a : Answer A)
      → time ≤ limit
      → IsTimely limit (by_answer operation platform (some deadline) is_public key pool time a)
  unfolding by_answer
  by_answer-IsTimely key pool time (answers a) h = h
  by_answer-IsTimely key pool time (errs e) h = elim (Bool-cases (is_retryable e.kind)) [
    | inl again ↦ rw (again, by_answer, IsTimely) h
    | inr fatal ↦ rw (fatal, by_answer, IsTimely) h
  ]

  by_late-IsTimely :
      (key : Route) (pool : MediaProxyPool) (time : ℕ) (late : Option (Answer A))
      → time ≤ limit
      → IsTimely limit (by_late operation platform (some deadline) is_public key pool time late)
  unfolding by_late
  by_late-IsTimely key pool time none h = h
  by_late-IsTimely key pool time (some a) h = by_answer-IsTimely key pool time a h

  within-IsTimely :
      (key : Route) (pool : MediaProxyPool) (now budget : ℕ) (attempt : Attempt A)
      → now + budget + attempt.lag ≤ limit
      → IsTimely limit
          (within operation platform (some deadline) is_public key pool now budget attempt)
  unfolding within
  within-IsTimely key pool now budget attempt h = elim (Bool-cases (ltb attempt.elapsed budget)) [
    | inl early ↦
        rw (early, within, IsTimely)
          (by_answer-IsTimely key pool (now + attempt.elapsed) attempt.answer (ground arith))
    | inr late ↦
        rw (late, within, IsTimely)
          (by_late-IsTimely key pool (now + budget + attempt.lag) attempt.late h)
  ]

  try_route-IsTimely :
      (key : Route) (pool : MediaProxyPool) (now : ℕ)
      → now ≤ limit
      → IsTimely limit (try_route operation platform (some deadline) is_public key pool now)
  unfolding try_route
  try_route-IsTimely key pool now h =
      elim (Bool-cases (budget_of pool platform (some deadline) now key == 0)) [
        | inl spent ↦ rw (spent, try_route, IsTimely) h
        | inr room ↦
            rw (room, try_route, IsTimely)
              (within-IsTimely key pool now (budget_of pool platform (some deadline) now key)
                (operation key now)
                (omega (
                  arith,
                  covered,
                  prompt key now,
                  budget_room pool platform deadline now key room,
                )))
      ]

  after_round-IsTimely :
      (r : Round A) (next : MediaProxyPool → ℕ → ProviderError → Extracted A)
      → IsTimely limit r
      → ((pool : MediaProxyPool) (time : ℕ) (e : ProviderError)
          → time ≤ limit
          → (next pool time e).time ≤ limit)
      → (after_round operation platform (some deadline) is_public r next).time ≤ limit
  after_round-IsTimely (ends x) next h rest = h
  after_round-IsTimely (goes_on pool time e) next h rest = rest pool time e h

  try_routes_timely :
      (keys : List Route) (pool : MediaProxyPool) (now : ℕ) (last_error : Option ProviderError)
      → now ≤ limit
      → (try_routes operation platform (some deadline) is_public keys pool now last_error).time
        ≤ limit
  unfolding try_routes
  try_routes_timely [] pool now last_error h = h
  try_routes_timely (key ∷ keys) pool now last_error h =
      after_round-IsTimely (try_route operation platform (some deadline) is_public key pool now)
        (λ pool' time e.
          try_routes operation platform (some deadline) is_public keys pool' time (some e))
        (try_route-IsTimely key pool now h)
        (λ pool' time e h'. try_routes_timely keys pool' time (some e) h')

-- On a configured platform, if the operation ends within `lag` of its cancellation on every route, a
-- call with a deadline ends by `lag` after the deadline, or at once where it begins later, whatever the operation does on the routes, however long it would take and however many
-- routes there are.
pub extract_timely :
    {A : Type 0} (operation : Route → ℕ → Attempt A) (platform : String) (deadline lag : ℕ)
    (is_public : Bool) (pool : MediaProxyPool) (lane : Option (List Route)) (now : ℕ)
    → is_configured pool platform ≡ true
    → ((key : Route) (time : ℕ) → (operation key time).lag ≤ lag)
    → (extract operation platform (some deadline) is_public pool lane now).time
      ≤ max now (deadline + lag)
unfolding extract
extract_timely operation platform deadline lag is_public pool lane now on prompt =
    subst (λ (r : Extracted _). r.time ≤ max now (deadline + lag)) (sym (if_true _ _ _ on))
      (try_routes_timely operation platform deadline is_public lag (max now (deadline + lag))
        (omega arith) prompt (offered pool lane platform now) pool now none (omega arith))
