-- ===== src/Cache/Exclusion.antt =====
-- Two owners never hold one lease at the same time.
use ytdlbot.Prelude.{
  ℕ, ◌+◌, ◌≡◌, ◌≤◌, ◌<◌, refl, sym, ap, ◌∙◌, true, false, ◌&&◌, Option, none, some, String, List,
  [], ◌∷◌, arith, ltb, ◌==◌, str_eq, eq_iff, Bool-cases, Option-cases, some_path, not_both, inl,
  inr,
}
use ytdlbot.Cache.Leases
use ytdlbot.Cache.Requests.{
  Request, acquire, renew, release, serve, Beliefs, believe, hear, Served, serve_all, Nondecreasing,
}
use ytdlbot.Cache.Leases.{
  MemoryLease, LeaseTable, Reply, token, agreed, value_error, put_lease, if_alive, prune_expired,
  acquire_pruned, is_owned, renew_pruned, release_pruned,
}

-- A belief that has not run out is what the table says.
abbrev AreTrue : LeaseTable → Beliefs → ℕ → Type 0
AreTrue leases b now =
    (key owner : String) (time : ℕ)
    → b key owner ≡ some time
    → now < time
    → leases key ≡ some (record { owner = owner; expires_at = time })

AreTrue-later :
    (leases : LeaseTable) (b : Beliefs) (now later : ℕ)
    → now ≤ later
    → AreTrue leases b now
    → AreTrue leases b later
AreTrue-later leases b now later h true_now key owner time belief ahead =
    true_now key owner time belief (omega arith)

AreTrue-prune_expired :
    (leases : LeaseTable) (b : Beliefs) (now : ℕ)
    → AreTrue leases b now
    → AreTrue (prune_expired leases now) b now
unfolding prune_expired
AreTrue-prune_expired leases b now h key owner time belief ahead =
    rw (h key owner time belief ahead, if_alive) (ground arith)

-- Writing a lease and what its owner believes of it, where nobody else believes to hold it.
AreTrue-put_lease :
    (leases : LeaseTable) (b : Beliefs) (now : ℕ) (key owner : String) (until : Option ℕ)
    (lease : Option MemoryLease)
    → ((time : ℕ) → until ≡ some time → lease ≡ some (record { owner = owner; expires_at = time }))
    → ((o : String) (time : ℕ) → b key o ≡ some time → now < time → str_eq owner o ≡ true)
    → AreTrue leases b now
    → AreTrue (put_lease leases key lease) (believe b key owner until) now
AreTrue-put_lease leases b now key owner until lease same alone h k o time belief ahead =
    elim (Bool-cases (str_eq key k)) [
      | inr other ↦ rw other (h k o time (rw other at belief) ahead)
      | inl here ↦ elim (Bool-cases (str_eq owner o)) [
        | inl own ↦ rw here (
            same time (rw (here, own, believe) at belief)
            ∙ ap (λ w. some (record { owner = w; expires_at = time })) ((eq_iff owner o).0 own))
        | inr foreign ↦ absurd (
            no_true (
              sym foreign
              ∙ alone o time
                  (ap (λ j. b j o) ((eq_iff key k).0 here) ∙ rw (here, foreign, believe) at belief)
                  ahead))
      ]
    ]
  where
    no_true : false ≡ true → ⊥
    no_true e = cc

module _ (leases : LeaseTable) (b : Beliefs) (now : ℕ) (key owner : String) where
  nobody_else :
      AreTrue leases b now
      → is_owned (leases key) owner ≡ true
      → (o : String) (time : ℕ) → b key o ≡ some time
      → now < time
      → str_eq owner o ≡ true
  unfolding is_owned
  nobody_else h own o time belief ahead =
      let mine : str_eq o owner ≡ true = rw (h key o time belief ahead, is_owned) at own in
      ground (arith, eq_iff o owner, eq_iff owner o)

  acquire_pruned-AreTrue :
      (ttl : ℕ)
      → AreTrue leases b now
      → AreTrue
          (acquire_pruned leases key owner ttl now).1
          (hear b now (acquire key owner ttl) (acquire_pruned leases key owner ttl now).0)
          now
  unfolding acquire_pruned hear
  acquire_pruned-AreTrue ttl h = elim (Option-cases (leases key)) [
    | inr (lease, taken) ↦ rw (taken, acquire_pruned, hear) h
    | inl free ↦
        rw (free, acquire_pruned, hear)
          (AreTrue-put_lease leases b now key owner (some (now + ttl))
            (some (record { owner = owner; expires_at = now + ttl }))
            (λ time e. ap (λ t. some (record { owner = owner; expires_at = t })) (some_path e))
            (λ o time belief ahead. absurd (not_both free (h key o time belief ahead))) h)
  ]

  AreTrue-give_up : AreTrue leases b now → AreTrue leases (believe b key owner none) now
  AreTrue-give_up h k o time belief ahead = elim (Bool-cases (str_eq key k && str_eq owner o)) [
    | inl given_up ↦ absurd (not_both refl (rw (given_up, believe) at belief))
    | inr kept ↦ h k o time (rw (kept, believe) at belief) ahead
  ]

  renew_pruned-AreTrue :
      (ttl : ℕ)
      → AreTrue leases b now
      → AreTrue
          (renew_pruned leases key owner ttl now).1
          (hear b now (renew key owner ttl) (renew_pruned leases key owner ttl now).0)
          now
  unfolding renew_pruned hear
  renew_pruned-AreTrue ttl h = elim (Bool-cases (is_owned (leases key) owner)) [
    | inl own ↦
        rw (own, renew_pruned, hear)
          (AreTrue-put_lease leases b now key owner (some (now + ttl))
            (some (record { owner = owner; expires_at = now + ttl }))
            (λ time e. ap (λ t. some (record { owner = owner; expires_at = t })) (some_path e))
            (nobody_else h own) h)
    | inr lost ↦ rw (lost, renew_pruned, hear) (AreTrue-give_up h)
  ]

  release_pruned-AreTrue :
      AreTrue leases b now
      → AreTrue
          (release_pruned leases key owner).1
          (hear b now (release key owner) (release_pruned leases key owner).0)
          now
  unfolding release_pruned hear
  release_pruned-AreTrue h = elim (Bool-cases (is_owned (leases key) owner)) [
    | inl own ↦
        rw (own, release_pruned, hear)
          (AreTrue-put_lease leases b now key owner none none (λ time e. absurd (not_both refl e))
            (nobody_else h own) h)
    | inr lost ↦ rw (lost, release_pruned, hear) (AreTrue-give_up h)
  ]

serve-AreTrue :
    (leases : LeaseTable) (b : Beliefs) (now : ℕ) (x : Request)
    → AreTrue leases b now
    → AreTrue (serve leases now x).1 (hear b now x (serve leases now x).0) now
unfolding serve Leases.acquire Leases.renew Leases.release hear
serve-AreTrue leases b now (acquire key owner ttl) h = elim (Bool-cases (ttl == 0)) [
  | inl zero_ttl ↦ rw (zero_ttl, Leases.acquire, hear) h
  | inr positive ↦
      rw (positive, Leases.acquire)
        (acquire_pruned-AreTrue (prune_expired leases now) b now key owner ttl
          (AreTrue-prune_expired leases b now h))
]
serve-AreTrue leases b now (renew key owner ttl) h = elim (Bool-cases (ttl == 0)) [
  | inl zero_ttl ↦ rw (zero_ttl, Leases.renew, hear) h
  | inr positive ↦
      rw (positive, Leases.renew)
        (renew_pruned-AreTrue (prune_expired leases now) b now key owner ttl
          (AreTrue-prune_expired leases b now h))
]
serve-AreTrue leases b now (release key owner) h =
    release_pruned-AreTrue (prune_expired leases now) b now key owner
      (AreTrue-prune_expired leases b now h)

serve_all-AreTrue :
    (s : Served) (first : ℕ) (xs : List (ℕ × Request)) (last : ℕ)
    → Nondecreasing first xs last
    → AreTrue s.0 s.1 first
    → AreTrue (serve_all s xs).0 (serve_all s xs).1 last
unfolding serve_all
serve_all-AreTrue s first [] last times h = AreTrue-later s.0 s.1 first last times h
serve_all-AreTrue s first ((now, x) ∷ xs) last times h =
    serve_all-AreTrue ((serve s.0 now x).1, hear s.1 now x (serve s.0 now x).0) now xs last times.1
      (serve-AreTrue s.0 s.1 now x (AreTrue-later s.0 s.1 first now times.0 h))

abbrev pub new_leases : Served
new_leases = (λ key. none, λ key owner. none)

-- While the clock does not go back, a lease has one owner at a time, whatever was acquired, renewed
-- and released before: if by the replies that it got one owner has a lease until later than now, then
-- the time that another owner had it by its own replies has run out.
pub serve_all-excludes :
    (first last : ℕ) (xs : List (ℕ × Request)) (key one other : String) (time time' : ℕ)
    → Nondecreasing first xs last
    → str_eq one other ≡ false
    → (serve_all new_leases xs).1 key one ≡ some time
    → last < time
    → (serve_all new_leases xs).1 key other ≡ some time'
    → time' ≤ last
serve_all-excludes first last xs key one other time time' times differ holds ahead holds' =
    let h : AreTrue (serve_all new_leases xs).0 (serve_all new_leases xs).1 last =
      serve_all-AreTrue new_leases first xs last times
        (λ key owner time belief ahead. absurd (not_both refl belief)) in
    elim (Bool-cases (ltb last time')) [
      | inr over ↦ ground arith
      | inl ahead' ↦ absurd (
          no_path (
            ap (λ (lease : MemoryLease). lease.owner)
              (some_path {a = record { owner = one; expires_at = time }}
                {b = record { owner = other; expires_at = time' }}
                (sym (h key one time holds ahead) ∙ h key other time' holds' (ground arith)))))
    ]
  where
    no_path : one ≡ other → ⊥
    no_path e = ground (arith, eq_iff one other)
