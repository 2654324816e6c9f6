-- ===== src/Limiter/Level.antt =====
-- What a caller can see of a limiter: the tokens of a key at a time. Pruning is not seen.
use ytdlbot.Prelude.{
  ℕ, zero, suc, ◌+◌, ◌-◌, ◌*◌, ◌≡◌, ◌≤◌, refl, sym, ◌∙◌, true, Option, none, some, String, ltb,
  arith, Bool-cases, inl, inr,
}
use ytdlbot.Limiter.Bucket.{Bucket, TokenBucketLimiter, refill, is_stale, drop_stale, maybe_prune}

-- The tokens that a request for a key finds.
unfoldable pub level_of : TokenBucketLimiter → Option Bucket → ℕ → ℕ
unfolding refill
level_of limiter none now = limiter.capacity
level_of limiter (some b) now = (refill limiter b now).tokens

abbrev pub level : TokenBucketLimiter → String → ℕ → ℕ
level limiter key now = level_of limiter (limiter.buckets key) now

mul_le : (a b r : ℕ) → a ≤ b → a * r ≤ b * r
mul_le zero b r h = omega arith
mul_le (suc a) zero r h = absurd (omega arith)
mul_le (suc a) (suc b) r h = omega (arith, mul_le a b r (omega arith))

-- A stale bucket would be full.
stale_full :
    (limiter : TokenBucketLimiter) (b : Bucket) (now later : ℕ)
    → now ≤ later
    → is_stale limiter now b ≡ true
    → level_of limiter (some b) later ≡ limiter.capacity
unfolding level_of refill is_stale
stale_full limiter b now later h stale =
    ground (arith, mul_le (now - b.updated_at) (later - b.updated_at) limiter.rate (omega arith))

absent : (limiter : TokenBucketLimiter) (later : ℕ) → level_of limiter none later ≡ limiter.capacity
unfolding level_of
absent limiter later = refl

drop_stale_level :
    (limiter : TokenBucketLimiter) (o : Option Bucket) (now later : ℕ)
    → now ≤ later
    → level_of limiter (drop_stale limiter now o) later ≡ level_of limiter o later
unfolding drop_stale
drop_stale_level limiter none now later h = refl
drop_stale_level limiter (some b) now later h = elim (Bool-cases (is_stale limiter now b)) [
  | inl stale ↦ rw stale (full_absent (stale_full limiter b now later h stale))
  | inr fresh ↦ rw fresh refl
]
  where
    full_absent :
        level_of limiter (some b) later ≡ limiter.capacity
        → level_of limiter none later ≡ level_of limiter (some b) later
    full_absent e = absent limiter later ∙ sym e

-- The level of a bucket depends on the limiter's settings only.
pub same_settings :
    (limiter : TokenBucketLimiter) (t : ℕ) (buckets : String → Option Bucket) (o : Option Bucket)
    (later : ℕ)
    → level_of (record limiter { last_prune = t; buckets = buckets }) o later
      ≡ level_of limiter o later
unfolding level_of refill
same_settings limiter t buckets none later = refl
same_settings limiter t buckets (some b) later = refl

-- Pruning is not seen: from the time of a prune on, every key has the tokens that it would have had.
pub level-maybe_prune :
    (limiter : TokenBucketLimiter) (now later : ℕ) (key : String)
    → now ≤ later
    → level (maybe_prune limiter now) key later ≡ level limiter key later
unfolding maybe_prune
level-maybe_prune limiter now later key h =
    elim (Bool-cases (ltb now (limiter.last_prune + limiter.prune_interval))) [
      | inl early ↦ rw (early, maybe_prune) refl
      | inr due ↦
          rw (due, maybe_prune)
            (same_level (drop_stale limiter now (limiter.buckets key))
              ∙ drop_stale_level limiter (limiter.buckets key) now later h)
    ]
  where
    same_level :
        (o : Option Bucket)
        → level_of
            (record limiter {
              last_prune = now;
              buckets = λ k. drop_stale limiter now (limiter.buckets k);
            })
            o
            later
          ≡ level_of limiter o later
    same_level o =
        same_settings limiter now (λ k. drop_stale limiter now (limiter.buckets k)) o later
