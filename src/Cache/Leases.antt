-- ===== src/Cache/Leases.antt =====
-- `MemoryLeaseManager`: leases with an owner token and an expiry. Each body that the lock protects is
-- one function; the token that `acquire` draws is an argument.
use ytdlbot.Prelude.{
  ℕ, ◌+◌, Bool, true, false, Option, none, some, String, ltb, ◌==◌, str_eq, if◌then◌else◌,
}

pub record MemoryLease : Type 0 where
  pub owner : String
  pub expires_at : ℕ

abbrev pub LeaseTable : Type 0
LeaseTable = String → Option MemoryLease

-- What a call returns; a lifetime of zero raises.
pub data Reply : Type 0 where
  token : Option String → Reply
  agreed : Bool → Reply
  value_error : Reply

abbrev pub put_lease : LeaseTable → String → Option MemoryLease → LeaseTable
put_lease leases key lease k = if str_eq key k then lease else leases k

abbrev pub if_alive : ℕ → Option MemoryLease → Option MemoryLease
if_alive now none = none
if_alive now (some lease) = if ltb now lease.expires_at then some lease else none

-- `_prune_expired`
unfoldable pub prune_expired : LeaseTable → ℕ → LeaseTable
prune_expired leases now key = if_alive now (leases key)

unfoldable pub acquire_pruned : LeaseTable → String → String → ℕ → ℕ → Reply × LeaseTable
acquire_pruned leases key owner ttl now = elim (leases key) [
  | some _ ↦ (token none, leases)
  | none ↦ (
    token (some owner),
    put_lease leases key (some (record { owner = owner; expires_at = now + ttl })),
  )
]

unfoldable pub acquire : LeaseTable → String → String → ℕ → ℕ → Reply × LeaseTable
unfolding prune_expired acquire_pruned
acquire leases key owner ttl now =
    if ttl == 0
    then (value_error, leases)
    else acquire_pruned (prune_expired leases now) key owner ttl now

-- `current is not None and current.owner == owner`
unfoldable pub is_owned : Option MemoryLease → String → Bool
is_owned none owner = false
is_owned (some lease) owner = str_eq lease.owner owner

unfoldable pub renew_pruned : LeaseTable → String → String → ℕ → ℕ → Reply × LeaseTable
unfolding is_owned
renew_pruned leases key owner ttl now =
    if is_owned (leases key) owner
    then (
      agreed true,
      put_lease leases key (some (record { owner = owner; expires_at = now + ttl })),
    )
    else (agreed false, leases)

unfoldable pub renew : LeaseTable → String → String → ℕ → ℕ → Reply × LeaseTable
unfolding prune_expired renew_pruned
renew leases key owner ttl now =
    if ttl == 0
    then (value_error, leases)
    else renew_pruned (prune_expired leases now) key owner ttl now

unfoldable pub release_pruned : LeaseTable → String → String → Reply × LeaseTable
unfolding is_owned
release_pruned leases key owner =
    if is_owned (leases key) owner
    then (agreed true, put_lease leases key none)
    else (agreed false, leases)

unfoldable pub release : LeaseTable → String → String → ℕ → Reply × LeaseTable
unfolding prune_expired release_pruned
release leases key owner now = release_pruned (prune_expired leases now) key owner
