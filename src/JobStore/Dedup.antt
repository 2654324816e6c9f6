-- ===== src/JobStore/Dedup.antt =====
-- A webhook update is accepted once, however often it is delivered.
use ytdlbot.Prelude.{
  ℕ, ◌≡◌, ◌≢◌, ◌<◌, refl, ap, ◌∙◌, Bool, true, false, none, some, List, [], ◌∷◌, ◌++◌, arith,
  eq_iff, any, All, Option-cases, Bool-cases, inl, inr, ltb, if_true, not_both, ◌⊎◌,
}
use ytdlbot.Prelude.Decimal.{str, str-injective}
use ytdlbot.Json.{Fields}
use ytdlbot.JobStore.Schema.{Db, JobRow, accepted, ok, raise, overflow_error}
use ytdlbot.JobStore.Inbox.{
  JobRecord, row_to_job, job_of_update, clashes, new_job, insert_or_ignore, accept_minimal,
  accept_update, accept_update_sync, minimal_update_payload, get_update, int_limit, read_job,
}
use ytdlbot.JobStore.Consistency.{IsRow, IsConsistent}

clashes_of_found :
    (new : JobRow) (jobs : List JobRow) {r : JobRow}
    → job_of_update new.update_id jobs ≡ some r
    → any (clashes new) jobs ≡ true
unfolding job_of_update
clashes_of_found new [] h = cc
clashes_of_found new (x ∷ jobs) {r} h = ground (arith, clashes_of_found new jobs {r = r})

job_of_update-append :
    (jobs : List JobRow) (new : JobRow)
    → job_of_update new.update_id jobs ≡ none
    → job_of_update new.update_id (jobs ++ new ∷ []) ≡ some new
unfolding job_of_update
job_of_update-append [] new h = ground arith
job_of_update-append (x ∷ jobs) new h = ground (arith, job_of_update-append jobs new)

-- A row with the same key has the same update identifier, as keys are printed identifiers.
found_of_clashes :
    (new : JobRow) (jobs : List JobRow)
    → All IsRow jobs
    → new.job_id ≡ str new.update_id
    → any (clashes new) jobs ≡ true
    → job_of_update new.update_id jobs ≡ none
    → ⊥
unfolding job_of_update
found_of_clashes new [] rows k h e = cc
found_of_clashes new (x ∷ jobs) rows k h e = ground (
  arith,
  found_of_clashes new jobs rows.1 k,
  eq_iff x.job_id new.job_id,
  str-injective x.update_id new.update_id,
)

job_of_update-update_id :
    (update_id : ℕ) (jobs : List JobRow) {r : JobRow}
    → job_of_update update_id jobs ≡ some r
    → r.update_id ≡ update_id
unfolding job_of_update
job_of_update-update_id update_id [] h = cc
job_of_update-update_id update_id (x ∷ jobs) {r} h =
    ground (arith, job_of_update-update_id update_id jobs {r = r})

module _ (db : Db) (update_id : ℕ) (payload : Fields) (retention now : ℕ) where
  accept_minimal_old :
      {r : JobRow}
      → job_of_update update_id db.jobs ≡ some r
      → accept_minimal db update_id payload retention now ≡ ok (row_to_job r, false) db
  unfolding accept_minimal insert_or_ignore
  accept_minimal_old {r} found =
      ground (arith, clashes_of_found (new_job update_id payload retention now) db.jobs found)

  accept_minimal_new :
      All IsRow db.jobs
      → job_of_update update_id db.jobs ≡ none
      → accept_minimal db update_id payload retention now
        ≡ ok
            (row_to_job (new_job update_id payload retention now), true)
            (record db { jobs = db.jobs ++ new_job update_id payload retention now ∷ [] })
  unfolding accept_minimal insert_or_ignore
  accept_minimal_new rows absent =
      elim (Bool-cases (any (clashes (new_job update_id payload retention now)) db.jobs)) [
        | inl clash ↦ absurd (
            found_of_clashes (new_job update_id payload retention now) db.jobs rows refl clash
              absent)
        | inr free ↦
            ground
              (arith, job_of_update-append db.jobs (new_job update_id payload retention now) absent)
      ]

  accept_minimal_found :
      {job : JobRecord} {inserted : Bool} {db' : Db}
      → accept_minimal db update_id payload retention now ≡ ok (job, inserted) db'
      → (r : JobRow) × (job_of_update update_id db'.jobs ≡ some r) × (row_to_job r ≡ job)
  unfolding accept_minimal
  accept_minimal_found h =
      elim (Option-cases (
        job_of_update update_id
          (insert_or_ignore (new_job update_id payload retention now) db.jobs).1)) [
            | inl missing ↦ absurd (ground arith)
            | inr (r, found) ↦ (r, ground arith, ground arith)
          ]

bounded_of_accept :
    (db : Db) (update_id : ℕ) (payload : Fields) (retention now : ℕ) {a : JobRecord × Bool}
    {db' : Db}
    → accept_update_sync db update_id payload retention now ≡ ok a db'
    → (update_id < int_limit) × (accept_minimal db update_id payload retention now ≡ ok a db')
unfolding accept_update_sync
bounded_of_accept db update_id payload retention now h =
    elim (Bool-cases (ltb update_id int_limit)) [
      | inl small ↦ (ground arith, rw (small, accept_update_sync) at h)
      | inr large ↦ absurd (raised (rw (large, accept_update_sync) at h))
    ]
  where
    raised : {a : JobRecord × Bool} {db' : Db} → raise overflow_error ≡ ok a db' → ⊥
    raised e = cc

within_limit :
    (db : Db) (update_id : ℕ) (payload : Fields) (retention now : ℕ)
    → update_id < int_limit
    → accept_update_sync db update_id payload retention now
      ≡ accept_minimal db update_id payload retention now
unfolding accept_update_sync
within_limit db update_id payload retention now h =
    if_true (ltb update_id int_limit) _ _ (ground arith)

job_of_update-append_other :
    (jobs : List JobRow) (new : JobRow) (other : ℕ)
    → other ≢ new.update_id
    → job_of_update other (jobs ++ new ∷ []) ≡ job_of_update other jobs
unfolding job_of_update
job_of_update-append_other [] new other h = ground arith
job_of_update-append_other (x ∷ jobs) new other h =
    ground (arith, job_of_update-append_other jobs new other h)

get_update_bounded :
    (db : Db) (update_id : ℕ)
    → update_id < int_limit
    → get_update db update_id ≡ ok (read_job (job_of_update update_id db.jobs)) db
unfolding get_update
get_update_bounded db update_id h = if_true (ltb update_id int_limit) _ _ (ground arith)

-- What an acceptance leaves: the job of the update can be read, and no other update's has changed.
pub record IsAccepted (db : Db) (update_id : ℕ) (minimal : Fields) (job : JobRecord)
    (inserted : Bool) (db' : Db) : Type 0 where
  pub same_update : job.update_id ≡ update_id
  pub stored : get_update db' update_id ≡ ok (some job) db'
  pub others :
      (other : ℕ) → other ≢ update_id → job_of_update other db'.jobs ≡ job_of_update other db.jobs
  pub old_or_new :
      ((inserted ≡ false) × (job_of_update update_id db.jobs ≢ none) × (db' ≡ db))
      ⊎ ((inserted ≡ true)
          × (job_of_update update_id db.jobs ≡ none)
          × (job.id ≡ str update_id)
          × (job.payload ≡ minimal)
          × (job.state ≡ accepted))

-- In a consistent store a valid update with an identifier below 2 ^ 63 is always accepted. The job
-- that comes back is that update's and can be read by its identifier afterwards; the jobs of all
-- other updates are as before. If it was inserted, the store had no job of the update, and the job's
-- key is the printed identifier, its payload the reduced one and its state accepted; if not, the store
-- had one and no table has changed.
pub accept_update_total :
    (db : Db) (payload : Fields) (retention now : ℕ) {update_id : ℕ} {minimal : Fields}
    → IsConsistent db.jobs
    → minimal_update_payload payload ≡ some (update_id, minimal)
    → update_id < int_limit
    → (job : JobRecord) × (inserted : Bool) × (db' : Db) × (accept_update db payload retention now
        ≡ ok (job, inserted) db')
      × IsAccepted db update_id minimal job inserted db'
unfolding accept_update
accept_update_total db payload retention now {update_id} {minimal} c valid small =
    elim (Option-cases (job_of_update update_id db.jobs)) [
      | inr (r, found) ↦ (
        row_to_job r,
        false,
        db,
        rw (valid, accept_update)
            (within_limit db update_id minimal retention now small
              ∙ accept_minimal_old db update_id minimal retention now found),
        record {
          same_update = job_of_update-update_id update_id db.jobs found;
          stored = get_update_bounded db update_id small ∙ ap (λ o. ok (read_job o) db) found;
          others = λ other ne. refl;
          old_or_new = inl (refl, λ gone. not_both gone found, refl);
        },
      )
      | inl absent ↦
          let new = new_job update_id minimal retention now in
          let db' = record db { jobs = db.jobs ++ new ∷ [] } in
          (
            row_to_job new,
            true,
            db',
            rw (valid, accept_update)
                (within_limit db update_id minimal retention now small
                  ∙ accept_minimal_new db update_id minimal retention now c.rows absent),
            record {
              same_update = refl;
              stored =
                  get_update_bounded db' update_id small
                  ∙ ap (λ o. ok (read_job o) db') (job_of_update-append db.jobs new absent);
              others = λ other ne. job_of_update-append_other db.jobs new other ne;
              old_or_new = inr (refl, absent, refl, refl, refl);
            },
          )
    ]

-- Accepting an update again, with any payload of the same identifier and at any time, inserts
-- nothing, changes no table and returns the job of the first acceptance.
pub accept_update_twice :
    (db db' : Db) (first second : Fields) (retention now later : ℕ) {update_id : ℕ} {m n : Fields}
    {job : JobRecord} {inserted : Bool}
    → minimal_update_payload first ≡ some (update_id, m)
    → minimal_update_payload second ≡ some (update_id, n)
    → accept_update db first retention now ≡ ok (job, inserted) db'
    → accept_update db' second retention later ≡ ok (job, false) db'
unfolding accept_update
accept_update_twice db db' first second retention now later {update_id} {m} {n} {job} f s h =
    let (small, done) =
      bounded_of_accept db update_id m retention now (rw (f, accept_update) at h) in
    let (r, found, same) = accept_minimal_found db update_id m retention now done in
    rw (s, accept_update)
      (within_limit db' update_id n retention later small
        ∙ accept_minimal_old db' update_id n retention later found
        ∙ ap (λ j. ok (j, false) db') same)
