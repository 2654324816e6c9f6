-- ===== src/Flight/Leaving.antt =====
-- The invariant when a caller leaves.
use ytdlbot.Prelude.{
  ℕ, suc, ◌-◌, ◌≡◌, ◌<◌, refl, sym, ap, ◌∙◌, true, false, none, some, String, arith, str_eq, eq_iff,
  ==_iff, ◌==◌, Bool-cases, inl, inr, some_path, not_both,
}
use mathlib.Core.Path.{subst}
use ytdlbot.Flight.Group.{
  Task, running, cancelled, finished, Group, put_flight, put_object, cancel, close_flight,
  drop_subscriber, unsubscribe,
}
use ytdlbot.Flight.Steps.{is_caller, without, leave}
use ytdlbot.Flight.Counts.{
  waiting, waiting-without, waiting-without_other, AreListed-without, AreListed-put, listed_of,
  waiting_caller,
}
use ytdlbot.Flight.Invariant.{is_running, IsFlying, IsSound}

module _ (g : Group) (key : String) (f : ℕ) (h : IsSound g)
    (caller : is_caller (key, f) g.callers ≡ true) (there : g.flights key ≡ some f) where
  -- Another caller is left.
  fewer-IsSound :
      ((g.store f).subscribers - 1 == 0) ≡ false
      → IsSound (record g {
        store =
            put_object g.store f (record (g.store f) { subscribers = (g.store f).subscribers - 1 });
        callers = without (key, f) g.callers;
      })
  fewer-IsSound more =
      let mine : IsFlying g key f = h.flying key f there in
      let one_less : suc (waiting f (without (key, f) g.callers)) ≡ waiting f g.callers =
        waiting-without key f g.callers caller in
      record {
        flying = λ k i e.
            let x = h.flying k i e in
            record {
              made = x.made;
              named = ground (arith, x.named);
              count = ground (
                arith,
                x.count,
                mine.count,
                one_less,
                ==_iff f i,
                waiting-without_other key f i g.callers,
              );
              wanted = ground (
                arith,
                x.wanted,
                mine.count,
                one_less,
                ==_iff f i,
                waiting-without_other key f i g.callers,
              );
              alive = ground (arith, x.alive);
            };
        listed = AreListed-without g.flights (key, f) g.callers h.listed;
        owned = λ i made runs. elim (Bool-cases (f == i)) [
          | inl here ↦
              rw here (h.owned f mine.made (rw here at runs) ∙ ap some ((==_iff f i).0 here))
          | inr other ↦ rw other (h.owned i made (rw other at runs))
        ];
        fresh = λ i w.
            ground
              (arith, h.fresh i, mine.made, ==_iff f i, waiting-without_other key f i g.callers);
      }

  -- The last caller goes.
  closed-IsSound :
      ((g.store f).subscribers - 1 == 0) ≡ true
      → IsSound (record (close_flight g key f) { callers = without (key, f) g.callers })
  unfolding close_flight
  closed-IsSound last =
      let mine : IsFlying g key f = h.flying key f there in
      let one_less : suc (waiting f (without (key, f) g.callers)) ≡ waiting f g.callers =
        waiting-without key f g.callers caller in
      record {
        flying = λ k i e. elim (Bool-cases (str_eq key k)) [
          | inl here ↦ absurd (not_both refl (rw (here, put_flight) at e))
          | inr differ ↦
              let x = h.flying k i (rw (differ, put_flight) at e) in
              let other : (f == i) ≡ false = distinct k i differ x in
              record {
                made = x.made;
                named = ground (arith, x.named);
                count = ground (arith, x.count, waiting-without_other key f i g.callers);
                wanted = ground (arith, x.wanted, waiting-without_other key f i g.callers);
                alive = ground (arith, x.alive);
              }
        ];
        listed =
            AreListed-put g.flights (put_flight g.flights key none) (without (key, f) g.callers)
              (λ c is e. elim (Bool-cases (str_eq key c.0)) [
                | inr differ ↦ rw (differ, put_flight) e
                | inl here ↦ absurd (left_over c is e here)
              ])
              (AreListed-without g.flights (key, f) g.callers h.listed);
        owned = λ i made runs. elim (Bool-cases (f == i)) [
          | inl here ↦ absurd (cancel_runs (g.store f).task (rw here at runs))
          | inr other ↦ rw other (still_owned i other (h.owned i made (rw other at runs)))
        ];
        fresh = λ i w.
            ground
              (arith, h.fresh i, mine.made, ==_iff f i, waiting-without_other key f i g.callers);
      }
    where
      distinct : (k : String) (i : ℕ) → str_eq key k ≡ false → IsFlying g k i → (f == i) ≡ false
      distinct k i differ x =
          ground (arith, (h.flying key f there).named, x.named, ==_iff f i, eq_iff key k)

      cancel_runs : (t : Task) → is_running (cancel t) ≡ true → ⊥
      cancel_runs running e = cc
      cancel_runs cancelled e = cc
      cancel_runs finished e = cc

      no_less : {n : ℕ} → 0 < n → n ≡ 0 → ⊥
      no_less less e = omega arith

      left_over :
          (c : String × ℕ)
          → is_caller c (without (key, f) g.callers) ≡ true
          → g.flights c.0 ≡ some c.1
          → str_eq key c.0 ≡ true
          → ⊥
      left_over c is e here =
          let same_flight : f ≡ c.1 =
            some_path (sym there ∙ ap g.flights ((eq_iff key c.0).0 here) ∙ e) in
          let some_wait : 0 < waiting c.1 (without (key, f) g.callers) =
            waiting_caller c.0 c.1 (without (key, f) g.callers) is in
          let none_waits : waiting f (without (key, f) g.callers) ≡ 0 =
            ground
              (arith, last, (h.flying key f there).count, waiting-without key f g.callers caller) in
          absurd (
            no_less
              (subst (λ i. 0 < waiting i (without (key, f) g.callers)) (sym same_flight) some_wait)
              none_waits)

      still_owned :
          (i : ℕ)
          → (f == i) ≡ false
          → g.flights (g.store i).key ≡ some i
          → put_flight g.flights key none (g.store i).key ≡ some i
      still_owned i other e = elim (Bool-cases (str_eq key (g.store i).key)) [
        | inr differ ↦ rw (differ, put_flight) e
        | inl here ↦
            let same_flight : f ≡ i =
              some_path (sym there ∙ ap g.flights ((eq_iff key (g.store i).key).0 here) ∙ e) in
            ground (arith, ==_iff f i)
      ]

pub leave-IsSound :
    (g : Group) (key : String) (f : ℕ)
    → is_caller (key, f) g.callers ≡ true
    → IsSound g
    → IsSound (leave g key f)
unfolding leave unsubscribe drop_subscriber
leave-IsSound g key f caller h =
    let there : g.flights key ≡ some f = listed_of g.flights key f g.callers caller h.listed in
    elim (Bool-cases ((g.store f).subscribers - 1 == 0)) [
      | inl last ↦
          rw (there, self, last, leave, unsubscribe, drop_subscriber)
            (closed-IsSound g key f h caller there last)
      | inr more ↦
          rw (there, self, more, leave, unsubscribe, drop_subscriber)
            (fewer-IsSound g key f h caller there more)
    ]
  where
    self : (f == f) ≡ true
    self = ground (arith, ==_iff f f)
