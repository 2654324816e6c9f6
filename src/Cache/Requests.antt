-- ===== src/Cache/Requests.antt =====
-- The lease manager's calls as values, and what the callers may conclude from the replies.
use ytdlbot.Prelude.{
  ℕ, ◌+◌, ◌≤◌, true, false, ◌&&◌, Option, none, some, String, List, [], ◌∷◌, str_eq, if◌then◌else◌,
}
use ytdlbot.Cache.Leases
use ytdlbot.Cache.Leases.{
  MemoryLease, LeaseTable, Reply, token, agreed, value_error, put_lease, if_alive, prune_expired,
  acquire_pruned, is_owned, renew_pruned, release_pruned,
}

pub data Request : Type 0 where
  acquire : String → String → ℕ → Request
  renew : String → String → ℕ → Request
  release : String → String → Request

unfoldable pub serve : LeaseTable → ℕ → Request → Reply × LeaseTable
serve leases now (acquire key owner ttl) = Leases.acquire leases key owner ttl now
serve leases now (renew key owner ttl) = Leases.renew leases key owner ttl now
serve leases now (release key owner) = Leases.release leases key owner now

-- Until when each owner of a token may take each lease for its own, by the replies it got.
abbrev pub Beliefs : Type 0
Beliefs = String → String → Option ℕ

abbrev pub believe : Beliefs → String → String → Option ℕ → Beliefs
believe b key owner time k o = if str_eq key k && str_eq owner o then time else b k o

unfoldable pub hear : Beliefs → ℕ → Request → Reply → Beliefs
hear b now (acquire key owner ttl) (token (some _)) = believe b key owner (some (now + ttl))
hear b now (renew key owner ttl) (agreed true) = believe b key owner (some (now + ttl))
hear b now (renew key owner ttl) (agreed false) = believe b key owner none
hear b now (release key owner) _ = believe b key owner none
hear b now _ _ = b

abbrev pub Served : Type 0
Served = LeaseTable × Beliefs

unfoldable pub serve_all : Served → List (ℕ × Request) → Served
unfolding serve hear
serve_all s [] = s
serve_all s ((now, x) ∷ xs) = serve_all ((serve s.0 now x).1, hear s.1 now x (serve s.0 now x).0) xs

-- The readings of the clock do not go back, from a first one up to a last one.
abbrev pub Nondecreasing : ℕ → List (ℕ × Request) → ℕ → Type 0
Nondecreasing first [] last = first ≤ last
Nondecreasing first ((now, x) ∷ xs) last = (first ≤ now) × Nondecreasing now xs last
