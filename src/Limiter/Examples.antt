-- ===== src/Limiter/Examples.antt =====
-- The limiter's theorems at a concrete limiter, and runs of its requests.
use ytdlbot.Prelude.{
  ◌≡◌, refl, true, false, none, some, arith, if◌then◌else◌, ◌&&◌, ◌-◌, str_eq, leb,
}
use ytdlbot.Limiter.Bucket.{
  TokenBucketLimiter, bucket_of, refill, spend, is_stale, drop_stale, maybe_prune, allow,
}
use ytdlbot.Limiter.Level.{level}
use ytdlbot.Limiter.Level as LevelLaws
use ytdlbot.Limiter.Spending

program : Unit {0}
unfolding bucket_of refill spend is_stale drop_stale maybe_prune allow
program = tt

abbrev three_each : TokenBucketLimiter
three_each = record {
  capacity = 30;
  rate = 1;
  idle_floor = 300;
  prune_interval = 600;
  last_prune = 0;
  buckets =
      λ key. if str_eq key "u:1" then some (record { tokens = 4; updated_at = 100 }) else none;
}

refusal_test : (allow three_each "u:1" 10 103).0 ≡ false
unfolding program
refusal_test = refl

refill_test : (allow three_each "u:1" 10 106).0 ≡ true
unfolding program
refill_test = refl

pruned_test : (allow three_each "u:2" 10 1000).1.buckets "u:1" ≡ none
unfolding program
pruned_test = refl

level-maybe_prune_example :
    level (maybe_prune three_each 1000) "u:1" 1001 ≡ level three_each "u:1" 1001
level-maybe_prune_example = LevelLaws.level-maybe_prune three_each 1000 1001 "u:1" (omega arith)

allow-level_example :
    ((allow three_each "u:1" 10 106).0 ≡ leb 10 (level three_each "u:1" 106))
    × (level (allow three_each "u:1" 10 106).1 "u:1" 106 ≡ (
        if str_eq "u:1" "u:1" && leb 10 (level three_each "u:1" 106)
        then level three_each "u:1" 106 - 10
        else level three_each "u:1" 106))
allow-level_example = Spending.allow-level three_each "u:1" 10 106 "u:1"
