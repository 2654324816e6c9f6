-- ===== src/Worker/Held.antt =====
-- A job that the worker still holds: a transition of it takes place.
use ytdlbot.Prelude.{
  ℕ, suc, ◌≡◌, refl, ap, Bool, true, false, String, Option, some, List, [], ◌∷◌, arith, str_eq,
  eq_iff, Bool-cases, inl, inr, any,
}
use ytdlbot.Json.{Fields}
use ytdlbot.Sql.{update_where, count_where}
use ytdlbot.JobStore.Schema.{Db, JobRow, JobState, WorkerLease, ok}
use ytdlbot.JobStore.Inbox.{clashes}
use ytdlbot.JobStore.Consistency.{Distinct}
use ytdlbot.JobStore.Transitions.{transition, may_leave, leave}
use ytdlbot.JobStore.Terminal.{state_of}

-- The owner may end the job: its row is not settled, its claim and its worker lease are live.
abbrev pub is_held : String → String → ℕ → Db → Bool
is_held id owner now db = any (may_leave id (some owner) db.worker_lease now) db.jobs

count_where_zero :
    (p : JobRow → Bool) (jobs : List JobRow) → any p jobs ≡ false → count_where p jobs ≡ 0
count_where_zero p [] h = refl
count_where_zero p (r ∷ jobs) h = ground (arith, count_where_zero p jobs)

module _ (id owner : String) (lease : Option WorkerLease) (now : ℕ) where
  -- A key is that of one row.
  unmatched :
      (r : JobRow) (jobs : List JobRow)
      → str_eq r.job_id id ≡ true
      → any (clashes r) jobs ≡ false
      → any (may_leave id (some owner) lease now) jobs ≡ false
  unmatched r [] same h = refl
  unmatched r (x ∷ jobs) same h = ground (
    arith,
    eq_iff r.job_id id,
    eq_iff x.job_id id,
    eq_iff r.job_id x.job_id,
    unmatched r jobs same,
  )

  count-may_leave :
      (jobs : List JobRow)
      → Distinct jobs
      → any (may_leave id (some owner) lease now) jobs ≡ true
      → count_where (may_leave id (some owner) lease now) jobs ≡ 1
  count-may_leave [] d h = absurd cc
  count-may_leave (r ∷ jobs) d h = elim (Bool-cases (may_leave id (some owner) lease now r)) [
    | inl leaves ↦
        rw (leaves, count_where)
          (ap suc (
            count_where_zero (may_leave id (some owner) lease now) jobs
              (unmatched r jobs (ground arith) d.0)))
    | inr stays ↦ rw (stays, count_where) (count-may_leave jobs d.1 (rw (stays, any) at h))
  ]

  state_of-leave :
      (state : JobState) (fields : Option Fields) (error : Option String) (jobs : List JobRow)
      → Distinct jobs
      → any (may_leave id (some owner) lease now) jobs ≡ true
      → state_of id
          (update_where (may_leave id (some owner) lease now) (leave state fields error now) jobs)
        ≡ some state
  unfolding state_of
  state_of-leave state fields error [] d h = absurd cc
  state_of-leave state fields error (r ∷ jobs) d h =
      elim (Bool-cases (may_leave id (some owner) lease now r)) [
        | inl leaves ↦ ground arith
        | inr stays ↦ elim (Bool-cases (str_eq r.job_id id)) [
          | inl same ↦ absurd (no_match (rw (stays, any) at h) (unmatched r jobs same d.0))
          | inr other ↦
              ground (arith, state_of-leave state fields error jobs d.1 (rw (stays, any) at h))
        ]
      ]
    where
      no_match : {b : Bool} → b ≡ true → b ≡ false → ⊥
      no_match e f = cc

module _ (db : Db) (id owner : String) (now : ℕ) (distinct : Distinct db.jobs)
    (held : is_held id owner now db ≡ true) where
  -- The transition of a held job takes place, and the caller is told so.
  pub transition-held :
      (state : JobState) (fields : Option Fields) (error : Option String)
      → (rows : List JobRow) × ((transition db id state fields error now (some owner)
            ≡ ok true (record db { jobs = rows }))
          × (state_of id rows ≡ some state))
  unfolding transition
  transition-held state fields error = (
    update_where (may_leave id (some owner) db.worker_lease now) (leave state fields error now)
        db.jobs,
    (
      rw (count-may_leave id owner db.worker_lease now db.jobs distinct held) refl,
      state_of-leave id owner db.worker_lease now state fields error db.jobs distinct held,
    ),
  )
