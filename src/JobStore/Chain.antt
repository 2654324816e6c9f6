-- ===== src/JobStore/Chain.antt =====
-- Retiring a failed job terminates, whatever cycles the stored chain has, and never raises.
use ytdlbot.Prelude.{
  ℕ, zero, suc, ◌≤◌, ◌<◌, ◌≡◌, refl, Bool, true, false, not, ◌||◌, String, some, List, [], ◌∷◌,
  arith, ◌⊎◌, str_eq, eq_iff, Option-cases, Bool-cases, inl, inr, length,
}
use ytdlbot.Sql.{count_where}
use ytdlbot.JobStore.Schema.{Db, JobRow, ok}
use ytdlbot.JobStore.Inbox.{job_of_id}
use ytdlbot.JobStore.Claims.{is_among}
use ytdlbot.JobStore.Deliveries.{owns_live_job}
use ytdlbot.JobStore.Retry.{
  Round, done, follow, round, follow_chain, chain_fuel, supersede_failed_job,
}

-- How many rows the loop has not visited.
abbrev unvisited : List String → List JobRow → ℕ
unvisited visited jobs = count_where (λ r. not (is_among visited r.job_id)) jobs

unvisited-le-length :
    (visited : List String) (jobs : List JobRow) → unvisited visited jobs ≤ length jobs
unvisited-le-length visited [] = omega arith
unvisited-le-length visited (r ∷ jobs) = ground (arith, unvisited-le-length visited jobs)

is_among-cons :
    (id job : String) (visited : List String)
    → is_among (job ∷ visited) id ≡ (str_eq job id || is_among visited id)
unfolding is_among
is_among-cons id job visited = refl

unvisited-cons :
    (job : String) (visited : List String) (jobs : List JobRow)
    → unvisited (job ∷ visited) jobs ≤ unvisited visited jobs
unvisited-cons job visited [] = omega arith
unvisited-cons job visited (r ∷ jobs) =
    ground (arith, is_among-cons r.job_id job visited, unvisited-cons job visited jobs)

-- Visiting a row of the table leaves fewer.
unvisited-visit :
    (job : String) (visited : List String) (jobs : List JobRow) {row : JobRow}
    → is_among visited job ≡ false
    → job_of_id job jobs ≡ some row
    → unvisited (job ∷ visited) jobs < unvisited visited jobs
unfolding job_of_id
unvisited-visit job visited [] new found = cc
unvisited-visit job visited (r ∷ jobs) {row} new found = elim (Bool-cases (str_eq r.job_id job)) [
  | inl same ↦ ground (
    arith,
    is_among-cons r.job_id job visited,
    eq_iff r.job_id job,
    eq_iff job r.job_id,
    unvisited-cons job visited jobs,
  )
  | inr other ↦ ground (
    arith,
    is_among-cons r.job_id job visited,
    eq_iff r.job_id job,
    eq_iff job r.job_id,
    unvisited-visit job visited jobs {row = row} new,
  )
]

-- A round that goes on has found a row that was not visited.
round-follow :
    (db : Db) (job : String) (visited : List String) (successor : String) (now : ℕ) {next : String}
    → round db job visited successor now ≡ follow next
    → (is_among visited job ≡ false) × ((row : JobRow) × (job_of_id job db.jobs ≡ some row))
unfolding round
round-follow db job visited successor now h = elim (Option-cases (job_of_id job db.jobs)) [
  | inl missing ↦ absurd (ground arith)
  | inr (row, found) ↦ (ground arith, (row, found))
]

Round-cases :
    (r : Round)
    → ((answer : Bool) × (db : Db) × (r ≡ done answer db)) ⊎ ((next : String) × (r ≡ follow next))
Round-cases (done answer db) = inl (answer, db, refl)
Round-cases (follow next) = inr (next, refl)

follow_chain_total :
    (fuel : ℕ) (db : Db) (job : String) (visited : List String) (successor : String) (now : ℕ)
    → unvisited visited db.jobs < fuel
    → (answer : Bool) × (db' : Db) × (follow_chain fuel db job visited successor now
        ≡ some (answer, db'))
unfolding follow_chain
follow_chain_total zero db job visited successor now h = absurd (omega arith)
follow_chain_total (suc fuel) db job visited successor now h =
    elim (Bool-cases (str_eq job successor)) [
      | inl same ↦ (true, db, rw same)
      | inr other ↦ elim (Round-cases (round db job visited successor now)) [
        | inl (answer, db', e) ↦ (answer, db', ground arith)
        | inr (next, e) ↦
            let (new, (row, found)) = round-follow db job visited successor now e in
            let (answer, db', rest) =
              follow_chain_total fuel db next (job ∷ visited) successor now
                (omega (arith, unvisited-visit job visited db.jobs new found)) in
            (answer, db', ground (arith, rest))
      ]
    ]

-- The loop along earlier supersessions ends within its fuel on every table, cyclic chains included:
-- superseding a job always returns an answer, and never raises.
pub supersede_failed_job_total :
    (db : Db) (job successor owner : String) (now : ℕ)
    → (answer : Bool) × (db' : Db) × (supersede_failed_job db job successor owner now
        ≡ ok answer db')
unfolding supersede_failed_job
supersede_failed_job_total db job successor owner now =
    let (answer, db', e) =
      follow_chain_total (chain_fuel db) db job [] successor now
        (omega (arith, unvisited-le-length [] db.jobs)) in
    elim (Bool-cases (owns_live_job db successor owner now)) [
      | inl live ↦ (answer, db', rw (live, e))
      | inr dead ↦ (false, db, rw dead)
    ]
