-- ===== src/JobStore/Exclusion.antt =====
-- One worker at a time: a live lease keeps others out, and a worker without it writes nothing.
use ytdlbot.Prelude.{
  ℕ, ◌<◌, ◌+◌, ◌≡◌, Option-cases, inl, inr, [], ◌≢◌, refl, Bool, true, false, ◌&&◌, String, Option,
  none, some, List, arith, eq_iff,
}
use ytdlbot.Json.{Fields}
use ytdlbot.Sql.Laws.{update_where_none, count_where_none}
use ytdlbot.JobStore.Schema.{Db, JobRow, JobState, DeliveryOutcome, ok, holds_lease, is_nonempty}
use ytdlbot.JobStore.Lease.{acquire_worker, renew_worker, release_worker, is_valid_claimant}
use ytdlbot.JobStore.Claims.{
  claim_recoverable_jobs, claim_recoverable_jobs_sync, renew_claim, renew_row, is_claim_of,
}
use ytdlbot.JobStore.Transitions.{
  transition, complete, fail, checkpoint, may_leave, leave, passes_owner_guard,
}
use ytdlbot.JobStore.Deliveries.{
  begin_delivery_attempts, finalize_delivery_attempt, owns_live_job, are_keys,
}
use ytdlbot.JobStore.Retry.{supersede_failed_job}

-- While one owner holds a live lease, a valid call of another owner cannot acquire it, renew it,
-- release it or claim jobs, and changes nothing.
pub live_lease_excludes :
    (db : Db) (a b : String) (limit lease now : ℕ)
    → holds_lease db.worker_lease a now ≡ true
    → a ≢ b
    → is_valid_claimant b lease ≡ true
    → 0 < limit
    → (acquire_worker db b lease now ≡ ok false db)
      × (renew_worker db b lease now ≡ ok false db)
      × (release_worker db b ≡ ok tt db)
      × (claim_recoverable_jobs db b limit lease now ≡ ok [] db)
unfolding holds_lease acquire_worker renew_worker release_worker claim_recoverable_jobs
    is_valid_claimant claim_recoverable_jobs_sync
live_lease_excludes db a b limit lease now held differ valid some_jobs =
    elim (Option-cases db.worker_lease) [
      | inl absent ↦ ground arith
      | inr (l, e) ↦ ground (arith, eq_iff l.owner_id a, eq_iff l.owner_id b)
    ]

module _ (db : Db) (owner : String) (now : ℕ)
    (stale : holds_lease db.worker_lease owner now ≡ false) where
  pub stale-transition :
      (job : String) (state : JobState) (fields : Option Fields) (error : Option String)
      → transition db job state fields error now (some owner) ≡ ok false db
  unfolding transition
  stale-transition job state fields error =
      rw (count_where_none (may_leave job (some owner) db.worker_lease now) fails db.jobs) (
        rw
          (update_where_none (may_leave job (some owner) db.worker_lease now)
            (leave state fields error now) fails db.jobs)
          refl)
    where
      fails : (r : JobRow) → may_leave job (some owner) db.worker_lease now r ≡ false
      fails r = unfold passes_owner_guard in ground arith

  stale-owns_live_job : (job : String) → owns_live_job db job owner now ≡ false
  unfolding owns_live_job
  stale-owns_live_job job = ground arith

  stale-renew_claim :
      (job : String) (lease : ℕ)
      → is_valid_claimant owner lease ≡ true
      → renew_claim db job owner lease now ≡ ok false db
  unfolding renew_claim
  stale-renew_claim job lease valid = rw valid (
      rw (count_where_none matches fails db.jobs)
        (rw (update_where_none matches (renew_row (now + lease) now) fails db.jobs) refl))
    where
      matches : JobRow → Bool
      matches r = is_claim_of job owner now r && holds_lease db.worker_lease owner now

      fails : (r : JobRow) → matches r ≡ false
      fails r = ground arith

  -- A worker whose lease has run out or was taken over changes nothing by any guarded call with valid
  -- arguments: its transitions, renewals, delivery attempts and supersessions answer false and leave
  -- every table as it is.
  pub stale_worker_writes_nothing :
      (job item : String) (fields : Option Fields) (error : String) (lease : ℕ)
      (items : List String) (outcome : DeliveryOutcome) (delivery : Option String)
      → is_valid_claimant owner lease ≡ true
      → is_nonempty item ≡ true
      → are_keys items ≡ true
      → (checkpoint db job fields (some owner) now ≡ ok false db)
        × (complete db job (some owner) now ≡ ok false db)
        × (fail db job error (some owner) now ≡ ok false db)
        × (renew_claim db job owner lease now ≡ ok false db)
        × (begin_delivery_attempts db job items owner now ≡ ok false db)
        × (finalize_delivery_attempt db job item outcome owner delivery now ≡ ok false db)
        × (supersede_failed_job db job item owner now ≡ ok false db)
  unfolding checkpoint complete fail begin_delivery_attempts finalize_delivery_attempt
      supersede_failed_job is_valid_claimant
  stale_worker_writes_nothing job item fields error lease items outcome delivery valid named keyed =
      (
        stale-transition job _ fields none,
        stale-transition job _ none none,
        stale-transition job _ none _,
        stale-renew_claim job lease valid,
        ground (arith, stale-owns_live_job job),
        ground (arith, stale-owns_live_job job),
        ground (arith, stale-owns_live_job item),
      )
