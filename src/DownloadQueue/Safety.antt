-- ===== src/DownloadQueue/Safety.antt =====
-- Every step of the queue keeps it sound, so every sequence of steps does.
use ytdlbot.Prelude.{
  ℕ, ◌≡◌, refl, sym, ◌∙◌, ap, true, false, some, arith, Bool-cases, inl, inr, some_path,
}
use mathlib.Core.Bool.{false≢true}
use ytdlbot.DownloadQueue.State.{
  Queue, Phase, waiting, granted, cancelled, acquired, released, modify, set_phase, is_waiting,
  handoff_locked, remove, withdraw_by, wake_by, release_by,
}
use ytdlbot.DownloadQueue.Leases.{in_use-modify, Distinct-modify, phase_of, uses_slot}
use ytdlbot.DownloadQueue.Waiters.{
  is_listed, AllWait-modify, in_use-reposition, AllWait-reposition, Distinct-reposition,
  listed_waits, NoDuplicates-remove, removed_not_listed, AllWait-remove, length-remove_le,
}
use ytdlbot.DownloadQueue.Listed.{AllListed-set, AllListed-removed, AllListed-reposition}
use ytdlbot.DownloadQueue.Handoff.{IsSound, IsSoundBut, handoff-IsSound}

module _ (capacity max_queue : ℕ) where
  -- A lease that has a slot is not listed.
  not_listed :
      (q : Queue) (id : ℕ) (p : Phase)
      → IsSound capacity max_queue q
      → phase_of id q.leases ≡ some p
      → uses_slot p ≡ true
      → is_listed id q.waiters ≡ false
  not_listed q id p h e u = elim (Bool-cases (is_listed id q.waiters)) [
    | inl listed ↦ absurd (
        false≢true (
          ap uses_slot (
            some_path {a = waiting} {b = p}
              (sym (listed_waits id q.waiters q.leases h.wait listed) ∙ e))
          ∙ u))
    | inr free ↦ free
  ]

  -- A slot that a lease gives back is in the hand of the critical section.
  given_back :
      (q : Queue) (id : ℕ) (old p : Phase)
      → IsSound capacity max_queue q
      → phase_of id q.leases ≡ some old
      → uses_slot old ≡ true
      → uses_slot p ≡ false
      → is_waiting p ≡ false
      → IsSoundBut capacity max_queue q.waiters
          (record q { leases = modify id (set_phase p) q.leases })
  given_back q id old p h e u v gone = record {
    conserved = ground (
      arith,
      h.conserved,
      in_use-modify (set_phase p) p (λ l. refl) (λ l. refl) id q.leases old h.distinct e,
    );
    busy = h.busy;
    bounded = h.bounded;
    limit = h.limit;
    distinct = Distinct-modify id (set_phase p) q.leases (λ l. refl) h.distinct;
    unique = h.unique;
    listed = AllListed-set p id q.waiters q.leases gone h.listed;
    wait =
        AllWait-modify (set_phase p) p (λ l. refl) (λ l. refl) id q.waiters q.leases
          (not_listed q id old h e u) h.wait;
  }

  pub release_by-IsSound :
      (q : Queue) (id : ℕ) (old : Phase)
      → IsSound capacity max_queue q
      → phase_of id q.leases ≡ some old
      → IsSound capacity max_queue (release_by old id q)
  unfolding release_by handoff_locked
  release_by-IsSound q id waiting h e = h
  release_by-IsSound q id granted h e = h
  release_by-IsSound q id cancelled h e = h
  release_by-IsSound q id acquired h e =
      handoff-IsSound capacity max_queue q.waiters
        (record q { leases = modify id (set_phase released) q.leases })
        (given_back q id acquired released h e refl refl refl)
  release_by-IsSound q id released h e = h

  pub wake_by-IsSound :
      (q : Queue) (id : ℕ) (old : Phase)
      → IsSound capacity max_queue q
      → phase_of id q.leases ≡ some old
      → IsSound capacity max_queue (wake_by old id q)
  unfolding wake_by
  wake_by-IsSound q id waiting h e = h
  wake_by-IsSound q id granted h e = record {
    conserved = ground (
      arith,
      h.conserved,
      in_use-modify (set_phase acquired) acquired (λ l. refl) (λ l. refl) id q.leases granted
          h.distinct e,
    );
    busy = h.busy;
    bounded = h.bounded;
    limit = h.limit;
    distinct = Distinct-modify id (set_phase acquired) q.leases (λ l. refl) h.distinct;
    unique = h.unique;
    listed = AllListed-set acquired id q.waiters q.leases refl h.listed;
    wait =
        AllWait-modify (set_phase acquired) acquired (λ l. refl) (λ l. refl) id q.waiters q.leases
          (not_listed q id granted h e refl) h.wait;
  }
  wake_by-IsSound q id cancelled h e = h
  wake_by-IsSound q id acquired h e = h
  wake_by-IsSound q id released h e = h

  pub withdraw_by-IsSound :
      (q : Queue) (id : ℕ) (old : Phase)
      → IsSound capacity max_queue q
      → phase_of id q.leases ≡ some old
      → IsSound capacity max_queue (withdraw_by old id q)
  unfolding withdraw_by handoff_locked
  withdraw_by-IsSound q id waiting h e =
      let ws = remove id q.waiters in
      let leases = modify id (set_phase cancelled) q.leases in
      record {
        conserved = omega (
          arith,
          h.conserved,
          in_use-reposition 1 ws leases,
          in_use-modify (set_phase cancelled) cancelled (λ l. refl) (λ l. refl) id q.leases waiting
              h.distinct e,
        );
        busy = λ free. omega (arith, h.busy free, length-remove_le id q.waiters);
        bounded = omega (arith, h.bounded, length-remove_le id q.waiters);
        limit = h.limit;
        distinct =
            Distinct-reposition 1 ws leases
              (Distinct-modify id (set_phase cancelled) q.leases (λ l. refl) h.distinct);
        unique = NoDuplicates-remove id q.waiters h.unique;
        listed =
            AllListed-reposition 1 ws ws leases
              (AllListed-removed cancelled id q.waiters q.leases refl h.listed);
        wait = AllWait-reposition 1 ws ws leases (
            AllWait-modify (set_phase cancelled) cancelled (λ l. refl) (λ l. refl) id ws q.leases
              (removed_not_listed id q.waiters h.unique)
              (AllWait-remove id q.waiters q.leases h.wait));
      }
  withdraw_by-IsSound q id granted h e =
      handoff-IsSound capacity max_queue q.waiters
        (record q { leases = modify id (set_phase cancelled) q.leases })
        (given_back q id granted cancelled h e refl refl refl)
  withdraw_by-IsSound q id cancelled h e = h
  withdraw_by-IsSound q id acquired h e = h
  withdraw_by-IsSound q id released h e = h
