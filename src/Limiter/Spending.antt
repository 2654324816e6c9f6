-- ===== src/Limiter/Spending.antt =====
-- What a request takes: its cost from its own key if the tokens are enough, and nothing else.
use ytdlbot.Prelude.{
  ℕ, ◌-◌, ◌≡◌, ◌≤◌, refl, sym, ◌∙◌, ap, ◌&&◌, some, String, str_eq, eq_iff, if◌then◌else◌, leb,
  arith, Bool-cases, inl, inr, Option-cases,
}
use ytdlbot.Limiter.Bucket.{Bucket, TokenBucketLimiter, bucket_of, refill, spend, allow, set_bucket}
use ytdlbot.Limiter.Level.{level_of, level, level-maybe_prune, same_settings}

refilled_time :
    (limiter : TokenBucketLimiter) (b : Bucket) (now : ℕ) → now ≤ (refill limiter b now).updated_at
unfolding refill
refilled_time limiter b now = ground arith

settled :
    (limiter : TokenBucketLimiter) (b : Bucket) (now : ℕ)
    → now ≤ b.updated_at
    → level_of limiter (some b) now ≡ b.tokens
unfolding level_of refill
settled limiter b now h = ground arith

refilled_tokens :
    (limiter : TokenBucketLimiter) (key : String) (now : ℕ)
    → (refill limiter (bucket_of limiter key now) now).tokens ≡ level limiter key now
unfolding bucket_of level_of
refilled_tokens limiter key now = elim (Option-cases (limiter.buckets key)) [
  | inl new ↦ rw (new, bucket_of, level_of) (full limiter now)
  | inr (b, known) ↦ rw (known, bucket_of, level_of) refl
]
  where
    full :
        (limiter : TokenBucketLimiter) (now : ℕ)
        → (refill limiter (record { tokens = limiter.capacity; updated_at = now }) now).tokens
          ≡ limiter.capacity
    full limiter now =
        settled limiter (record { tokens = limiter.capacity; updated_at = now }) now (omega arith)

spend_time : (cost : ℕ) (b : Bucket) → (spend cost b).1.updated_at ≡ b.updated_at
unfolding spend
spend_time cost b = ground arith

spend_tokens :
    (cost : ℕ) (b : Bucket)
    → (spend cost b).1.tokens ≡ (if leb cost b.tokens then b.tokens - cost else b.tokens)
unfolding spend
spend_tokens cost b = ground arith

spend_answer : (cost : ℕ) (b : Bucket) → (spend cost b).0 ≡ leb cost b.tokens
unfolding spend
spend_answer cost b = ground arith

module _ (limiter : TokenBucketLimiter) (key : String) (cost now : ℕ) where
  abbrev after : Bucket
  after = (spend cost (refill limiter (bucket_of limiter key now) now)).1

  after-level : level_of limiter (some after) now ≡ (
      if leb cost (level limiter key now)
      then level limiter key now - cost
      else level limiter key now)
  after-level =
      let b = refill limiter (bucket_of limiter key now) now in
      settled limiter after now
        (rw (spend_time cost b) (refilled_time limiter (bucket_of limiter key now) now))
      ∙ spend_tokens cost b
      ∙ ap (λ n. if leb cost n then n - cost else n) (refilled_tokens limiter key now)

  set_level :
      (k : String)
      → level_of limiter (if str_eq k key then some after else limiter.buckets k) now ≡ (
          if str_eq k key && leb cost (level limiter key now)
          then level limiter k now - cost
          else level limiter k now)
  set_level k = elim (Bool-cases (str_eq k key)) [
    | inl same ↦ rw same (
        after-level
        ∙ ap
            (λ (n : String).
              if leb cost (level limiter key now)
              then level limiter n now - cost
              else level limiter n now)
            (sym ((eq_iff k key).0 same)))
    | inr other ↦ rw other refl
  ]

-- A request is allowed exactly if its key has tokens enough for its cost; then the cost is taken from
-- that key. No other key loses tokens, and a refused request takes none, whether or not the request
-- prunes idle buckets.
pub allow-level :
    (limiter : TokenBucketLimiter) (key : String) (cost now : ℕ) (k : String)
    → ((allow limiter key cost now).0 ≡ leb cost (level limiter key now))
      × (level (allow limiter key cost now).1 k now ≡ (
          if str_eq k key && leb cost (level limiter key now)
          then level limiter k now - cost
          else level limiter k now))
unfolding allow
allow-level limiter key cost now k =
    let b = refill limiter (bucket_of limiter key now) now in
    (
      spend_answer cost b ∙ ap (leb cost) (refilled_tokens limiter key now),
      level-maybe_prune (set_bucket limiter key (spend cost b).1) now now k (omega arith)
          ∙ (same_settings limiter limiter.last_prune
                (λ name.
                  if str_eq name key
                  then some (after limiter key cost now)
                  else limiter.buckets name)
                (if str_eq k key then some (after limiter key cost now) else limiter.buckets k) now
              ∙ set_level limiter key cost now k),
    )
