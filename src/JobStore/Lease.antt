-- ===== src/JobStore/Lease.antt =====
-- The singleton worker lease: acquire, renew, release, and the health probe that needs it.
use ytdlbot.Prelude.{
  ℕ, ◌+◌, Bool, true, false, String, Option, none, some, ◌&&◌, ◌||◌, str_eq, ltb, leb,
  if◌then◌else◌,
}
use ytdlbot.JobStore.Schema.{
  Db, WorkerLease, Result, ok, raise, value_error, runtime_error, holds_lease, is_nonempty,
}

-- INSERT … ON CONFLICT(singleton) DO UPDATE … WHERE: the row count is 1 exactly if it wrote.
upsert_lease : Option WorkerLease → WorkerLease → ℕ → Bool × Option WorkerLease
upsert_lease none l now = (true, some l)
upsert_lease (some old) l now =
    if str_eq old.owner_id l.owner_id || leb old.expires_at now
    then (true, some l)
    else (false, some old)

unfoldable pub acquire_worker_in_transaction : Db → String → ℕ → ℕ → Bool × Db
unfolding upsert_lease
acquire_worker_in_transaction db owner lease_seconds now =
    let (written, lease) =
      upsert_lease db.worker_lease (record { owner_id = owner; expires_at = now + lease_seconds })
        now in
    (written, record db { worker_lease = lease })

-- `_validate_owner` and `_validate_lease`, before the transaction is begun.
unfoldable pub is_valid_claimant : String → ℕ → Bool
unfolding is_nonempty
is_valid_claimant owner lease_seconds = is_nonempty owner && ltb 0 lease_seconds

unfoldable pub acquire_worker : Db → String → ℕ → ℕ → Result Bool
unfolding acquire_worker_in_transaction
acquire_worker db owner lease_seconds now =
    let (acquired, db') = acquire_worker_in_transaction db owner lease_seconds now in
    if is_valid_claimant owner lease_seconds then ok acquired db' else raise value_error

unfoldable pub renew_worker : Db → String → ℕ → ℕ → Result Bool
renew_worker db owner lease_seconds now =
    if is_valid_claimant owner lease_seconds
    then if holds_lease db.worker_lease owner now
      then ok true (record db {
        worker_lease = some (record { owner_id = owner; expires_at = now + lease_seconds });
      })
      else ok false db
    else raise value_error

-- DELETE FROM worker_lease WHERE singleton = 1 AND owner_id = ?
delete_lease : Option WorkerLease → String → Option WorkerLease
delete_lease none owner = none
delete_lease (some l) owner = if str_eq l.owner_id owner then none else some l

unfoldable pub release_worker : Db → String → Result (Unit {0})
unfolding delete_lease is_nonempty
release_worker db owner =
    if is_nonempty owner
    then ok tt (record db { worker_lease = delete_lease db.worker_lease owner })
    else raise value_error

-- SELECT 1 FROM worker_lease WHERE expires_at > ?, whoever owns it.
some_lease_is_live : Option WorkerLease → ℕ → Bool
some_lease_is_live none now = false
some_lease_is_live (some l) now = ltb now l.expires_at

bump_generation : Db → Option ℕ → Result (Unit {0})
bump_generation db none = raise runtime_error
bump_generation db (some n) = ok tt (record db { health_probe = some (n + 1) })

unfoldable pub write_probe : Db → ℕ → Result (Unit {0})
unfolding some_lease_is_live bump_generation
write_probe db now =
    if some_lease_is_live db.worker_lease now
    then bump_generation db db.health_probe
    else raise runtime_error
