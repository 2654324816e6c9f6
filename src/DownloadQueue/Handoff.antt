-- ===== src/DownloadQueue/Handoff.antt =====
-- What holds of the queue between two critical sections, and that a handoff keeps it.
use ytdlbot.Prelude.{
  ℕ, ◌+◌, ◌≡◌, ◌≤◌, ◌<◌, refl, List, [], ◌∷◌, arith, length, Bool-cases, inl, inr,
}
use ytdlbot.DownloadQueue.State.{
  Queue, waiting, granted, cancelled, modify, set_phase, reposition, may_grant, handoff,
}
use ytdlbot.DownloadQueue.Leases.{in_use, Distinct, in_use-modify, Distinct-modify}
use ytdlbot.DownloadQueue.Waiters.{
  NoDuplicates, AllWait, AllWait-modify, in_use-reposition, AllWait-reposition, Distinct-reposition,
}
use ytdlbot.DownloadQueue.Listed.{AllListed, AllListed-popped, AllListed-reposition}

-- Every slot is free or in use, no slot is free while a lease is listed, and the list of waiters keeps
-- to its limit; leases are distinct objects, and the listed leases are those that wait, each once.
pub record IsSound (capacity max_queue : ℕ) (q : Queue) : Type 0 where
  pub conserved : q.free + in_use q.leases ≡ capacity
  pub busy : 0 < q.free → length q.waiters ≡ 0
  pub bounded : length q.waiters ≤ max_queue
  pub limit : q.max_queue ≡ max_queue
  pub distinct : Distinct q.leases
  pub unique : NoDuplicates q.waiters
  pub wait : AllWait q.waiters q.leases
  pub listed : AllListed q.waiters q.leases

-- The same while a critical section has a slot in its hand, on the part of the list that it has
-- not popped.
pub record IsSoundBut (capacity max_queue : ℕ) (ws : List ℕ) (q : Queue) : Type 0 where
  pub conserved : q.free + in_use q.leases + 1 ≡ capacity
  pub busy : 0 < q.free → length ws ≡ 0
  pub bounded : length ws ≤ max_queue
  pub limit : q.max_queue ≡ max_queue
  pub distinct : Distinct q.leases
  pub unique : NoDuplicates ws
  pub wait : AllWait ws q.leases
  pub listed : AllListed ws q.leases

module _ (capacity max_queue : ℕ) where
  granted-IsSound :
      (w : ℕ) (ws : List ℕ) (q : Queue)
      → IsSoundBut capacity max_queue (w ∷ ws) q
      → IsSound capacity max_queue (record q {
        waiters = ws;
        leases = reposition 1 ws (modify w (set_phase granted) q.leases);
      })
  granted-IsSound w ws q h = record {
    conserved = omega (
      arith,
      h.conserved,
      in_use-reposition 1 ws (modify w (set_phase granted) q.leases),
      in_use-modify (set_phase granted) granted (λ l. refl) (λ l. refl) w q.leases waiting
          h.distinct h.wait.0,
    );
    busy = λ free. omega (arith, h.busy free);
    bounded = omega (arith, h.bounded);
    limit = h.limit;
    distinct =
        Distinct-reposition 1 ws (modify w (set_phase granted) q.leases)
          (Distinct-modify w (set_phase granted) q.leases (λ l. refl) h.distinct);
    unique = h.unique.1;
    listed =
        AllListed-reposition 1 ws ws (modify w (set_phase granted) q.leases)
          (AllListed-popped granted w ws q.leases refl h.listed);
    wait = AllWait-reposition 1 ws ws (modify w (set_phase granted) q.leases) (
        AllWait-modify (set_phase granted) granted (λ l. refl) (λ l. refl) w ws q.leases h.unique.0
          h.wait.1);
  }

  skipped-IsSoundBut :
      (w : ℕ) (ws : List ℕ) (q : Queue)
      → IsSoundBut capacity max_queue (w ∷ ws) q
      → IsSoundBut capacity max_queue ws
          (record q { leases = modify w (set_phase cancelled) q.leases })
  skipped-IsSoundBut w ws q h = record {
    conserved = omega (
      arith,
      h.conserved,
      in_use-modify (set_phase cancelled) cancelled (λ l. refl) (λ l. refl) w q.leases waiting
          h.distinct h.wait.0,
    );
    busy = λ free. omega (arith, h.busy free);
    bounded = omega (arith, h.bounded);
    limit = h.limit;
    distinct = Distinct-modify w (set_phase cancelled) q.leases (λ l. refl) h.distinct;
    unique = h.unique.1;
    listed = AllListed-popped cancelled w ws q.leases refl h.listed;
    wait =
        AllWait-modify (set_phase cancelled) cancelled (λ l. refl) (λ l. refl) w ws q.leases
          h.unique.0 h.wait.1;
  }

  pub handoff-IsSound :
      (ws : List ℕ) (q : Queue)
      → IsSoundBut capacity max_queue ws q
      → IsSound capacity max_queue (handoff ws q)
  unfolding handoff
  handoff-IsSound [] q h = record {
    conserved = omega (arith, h.conserved);
    busy = λ free. refl;
    bounded = omega arith;
    limit = h.limit;
    distinct = h.distinct;
    unique = tt;
    wait = tt;
    listed = h.listed;
  }
  handoff-IsSound (w ∷ ws) q h = elim (Bool-cases (may_grant w q.leases)) [
    | inl fits ↦ rw fits (granted-IsSound w ws q h)
    | inr skip ↦ rw skip (
        handoff-IsSound ws (record q { leases = modify w (set_phase cancelled) q.leases })
          (skipped-IsSoundBut w ws q h))
  ]
