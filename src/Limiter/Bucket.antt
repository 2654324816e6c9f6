-- ===== src/Limiter/Bucket.antt =====
-- The token bucket. Tokens and clock readings are natural numbers of small units; `rate` tokens come
-- back in one unit of time.
use ytdlbot.Prelude.{
  ℕ, ◌+◌, ◌-◌, ◌*◌, min, Bool, true, false, ◌&&◌, Option, none, some, String, str_eq, if◌then◌else◌,
  ltb, leb,
}

pub record Bucket : Type 0 where
  pub tokens : ℕ
  pub updated_at : ℕ

-- `buckets` is a dictionary: `none` for a missing key. `idle_floor` are the 300 seconds and
-- `prune_interval` the 600 seconds of the source.
pub record TokenBucketLimiter : Type 0 where
  pub capacity : ℕ
  pub rate : ℕ
  pub idle_floor : ℕ
  pub prune_interval : ℕ
  pub last_prune : ℕ
  pub buckets : String → Option Bucket

unfoldable pub bucket_of : TokenBucketLimiter → String → ℕ → Bucket
bucket_of limiter key now = elim (limiter.buckets key) [
  | none ↦ record { tokens = limiter.capacity; updated_at = now }
  | some b ↦ b
]

unfoldable pub refill : TokenBucketLimiter → Bucket → ℕ → Bucket
refill limiter b now =
    if ltb b.updated_at now
    then record {
      tokens = min limiter.capacity (b.tokens + (now - b.updated_at) * limiter.rate);
      updated_at = now;
    }
    else b

unfoldable pub spend : ℕ → Bucket → Bool × Bucket
spend cost b =
    if leb cost b.tokens then (true, record b { tokens = b.tokens - cost }) else (false, b)

-- `now - b.updated_at > max(300, 2 * capacity / refill_rate)`, without the division.
unfoldable pub is_stale : TokenBucketLimiter → ℕ → Bucket → Bool
is_stale limiter now b =
    ltb (b.updated_at + limiter.idle_floor) now
    && ltb (2 * limiter.capacity) ((now - b.updated_at) * limiter.rate)

unfoldable pub drop_stale : TokenBucketLimiter → ℕ → Option Bucket → Option Bucket
unfolding is_stale
drop_stale limiter now none = none
drop_stale limiter now (some b) = if is_stale limiter now b then none else some b

unfoldable pub maybe_prune : TokenBucketLimiter → ℕ → TokenBucketLimiter
unfolding drop_stale
maybe_prune limiter now =
    if ltb now (limiter.last_prune + limiter.prune_interval) then limiter else record limiter {
      last_prune = now;
      buckets = λ key. drop_stale limiter now (limiter.buckets key);
    }

abbrev pub set_bucket : TokenBucketLimiter → String → Bucket → TokenBucketLimiter
set_bucket limiter key b = record limiter {
  buckets = λ k. if str_eq k key then some b else limiter.buckets k;
}

unfoldable pub allow : TokenBucketLimiter → String → ℕ → ℕ → Bool × TokenBucketLimiter
unfolding bucket_of refill spend maybe_prune
allow limiter key cost now =
    let spent = spend cost (refill limiter (bucket_of limiter key now) now) in
    (spent.0, maybe_prune (set_bucket limiter key spent.1) now)

-- `allow_user` and `allow_chat`, by the prefix of the key: a missing identifier is always allowed.
unfoldable pub allow_optional :
    TokenBucketLimiter → (ℕ → String) → Option ℕ → ℕ → ℕ → Bool × TokenBucketLimiter
unfolding allow
allow_optional limiter key none one now = (true, limiter)
allow_optional limiter key (some id) one now = allow limiter (key id) one now
