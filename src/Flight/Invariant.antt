-- ===== src/Flight/Invariant.antt =====
-- What holds of every group that comes about.
use ytdlbot.Prelude.{
  ℕ, ◌≡◌, ◌<◌, sym, ap, ◌∙◌, Bool, true, false, ◌&&◌, Option, none, some, String, List, arith,
  str_eq, eq_iff, eq_refl, ==_iff, ◌==◌, any, Bool-cases, Option-cases, inl, inr, some_path,
  not_both,
}
use mathlib.Core.Path.{subst}
use ytdlbot.Flight.Group.{
  Task, running, cancelled, FactoryMarker, Group, put_flight, open_flight, join_flight, is_task,
  enter,
}
use ytdlbot.Flight.Steps.{group_of, finish}
use ytdlbot.Flight.Counts.{waiting, AreListed, AreListed-put}

abbrev pub is_cancelled : Task → Bool
is_cancelled cancelled = true
is_cancelled _ = false

abbrev pub is_running : Task → Bool
is_running running = true
is_running _ = false

-- A flight in the table has the key, a count of its callers that is not zero, and was not cancelled.
pub record IsFlying (g : Group) (key : String) (f : ℕ) : Type 0 where
  pub made : f < g.next
  pub named : (g.store f).key ≡ key
  pub count : (g.store f).subscribers ≡ waiting f g.callers
  pub wanted : 0 < waiting f g.callers
  pub alive : is_cancelled (g.store f).task ≡ false

pub record IsSound (g : Group) : Type 0 where
  pub flying : (key : String) (f : ℕ) → g.flights key ≡ some f → IsFlying g key f
  pub listed : AreListed g.flights g.callers
  pub owned :
      (f : ℕ) → f < g.next → is_running (g.store f).task ≡ true → g.flights (g.store f).key ≡ some f
  pub fresh : (f : ℕ) → 0 < waiting f g.callers → f < g.next

pub finish-IsSound : (g : Group) (f : ℕ) → IsSound g → IsSound (finish g f)
finish-IsSound g f h = record {
  flying = λ key i e.
      let k = h.flying key i e in
      record {
        made = k.made;
        named = ground (arith, k.named);
        count = ground (arith, k.count);
        wanted = k.wanted;
        alive = ground (arith, k.alive);
      };
  listed = h.listed;
  owned = λ i made runs. elim (Bool-cases (f == i)) [
    | inl here ↦ absurd (no_run (rw here at runs))
    | inr other ↦ rw other (h.owned i made (rw other at runs))
  ];
  fresh = h.fresh;
}
  where
    no_run : false ≡ true → ⊥
    no_run e = cc

join_flight-IsSound :
    (g : Group) (key : String) (f : ℕ)
    → g.flights key ≡ some f
    → IsSound g
    → IsSound (join_flight g key f)
unfolding join_flight
join_flight-IsSound g key f there h = record {
  flying = λ k i e.
      let x = h.flying k i e in
      record {
        made = x.made;
        named = ground (arith, x.named);
        count = ground (arith, x.count, ==_iff f i);
        wanted = ground (arith, x.wanted);
        alive = ground (arith, x.alive);
      };
  listed = (there, h.listed);
  owned = λ i made runs. elim (Bool-cases (f == i)) [
    | inl here ↦
        rw here
          (h.owned f (h.flying key f there).made (rw here at runs) ∙ ap some ((==_iff f i).0 here))
    | inr other ↦ rw other (h.owned i made (rw other at runs))
  ];
  fresh = λ i w. ground (arith, h.fresh i, (h.flying key f there).made, ==_iff f i);
}

unwaited : (g : Group) → IsSound g → waiting g.next g.callers ≡ 0
unwaited g h = elim (Bool-cases (waiting g.next g.callers == 0)) [
  | inl none_waits ↦ ground (arith)
  | inr some_wait ↦
      let made : g.next < g.next = h.fresh g.next (ground arith) in absurd (omega arith)
]

opened-IsFlying : (g : Group) (key : String) → IsSound g → IsFlying (open_flight g key) key g.next
unfolding open_flight
opened-IsFlying g key h = record {
  made = ground arith;
  named = ground (arith, ==_iff g.next g.next);
  count = ground (arith, ==_iff g.next g.next, unwaited g h);
  wanted = ground (arith, ==_iff g.next g.next);
  alive = ground (arith, ==_iff g.next g.next);
}

kept-IsFlying :
    (g : Group) (key k : String) (i : ℕ) → IsFlying g k i → IsFlying (open_flight g key) k i
unfolding open_flight
kept-IsFlying g key k i x = record {
  made = ground (arith, x.made);
  named = ground (arith, x.made, x.named, ==_iff g.next i);
  count = ground (arith, x.made, x.count, ==_iff g.next i);
  wanted = ground (arith, x.wanted);
  alive = ground (arith, x.made, x.alive, ==_iff g.next i);
}

open_flight-IsSound :
    (g : Group) (key : String) → g.flights key ≡ none → IsSound g → IsSound (open_flight g key)
unfolding open_flight
open_flight-IsSound g key gone h = record {
  flying = λ k i e. elim (Bool-cases (str_eq key k)) [
    | inl here ↦
        subst (λ j. IsFlying (open_flight g key) k j) (some_path (rw (here, put_flight) at e))
          (subst (λ j. IsFlying (open_flight g key) j g.next) ((eq_iff key k).0 here)
            (opened-IsFlying g key h))
    | inr other ↦ kept-IsFlying g key k i (h.flying k i (rw (other, put_flight) at e))
  ];
  listed = (
    ground (arith, eq_refl key),
    AreListed-put g.flights (put_flight g.flights key (some g.next)) g.callers
        (λ c there e. elim (Bool-cases (str_eq key c.0)) [
          | inl here ↦ absurd (not_both (ap g.flights (sym ((eq_iff key c.0).0 here)) ∙ gone) e)
          | inr other ↦ rw (other, put_flight) e
        ])
        h.listed,
  );
  owned = λ i made runs. elim (Bool-cases (g.next == i)) [
    | inl here ↦ rw here (ground (arith, eq_refl key, ==_iff g.next i))
    | inr other ↦
        rw other (old_owned i (h.owned i (ground (arith, ==_iff g.next i)) (rw other at runs)))
  ];
  fresh = λ i w. ground (arith, h.fresh i, ==_iff g.next i);
}
  where
    old_owned :
        (i : ℕ)
        → g.flights (g.store i).key ≡ some i
        → put_flight g.flights key (some g.next) (g.store i).key ≡ some i
    old_owned i e = elim (Bool-cases (str_eq key (g.store i).key)) [
      | inl here ↦
          absurd (not_both (ap g.flights (sym ((eq_iff key (g.store i).key).0 here)) ∙ gone) e)
      | inr other ↦ rw (other, put_flight) e
    ]

pub enter-IsSound :
    (g : Group) (inherited : List FactoryMarker) (current : Option ℕ) (key : String)
    → IsSound g
    → IsSound (group_of g (enter g inherited current key))
unfolding enter
enter-IsSound g inherited current key h =
    elim (Bool-cases
      (any (λ m. m.active && (m.group_id == g.group_id && str_eq m.key key)) inherited)) [
        | inl reentrant ↦ rw (reentrant, enter, group_of) h
        | inr outer ↦ elim (Option-cases (g.flights key)) [
          | inl gone ↦ rw (outer, gone, enter, group_of) (open_flight-IsSound g key gone h)
          | inr (f, there) ↦ elim (Bool-cases (is_task f current)) [
            | inl own ↦ rw (outer, there, own, enter, group_of) h
            | inr foreign ↦
                rw (outer, there, foreign, enter, group_of) (join_flight-IsSound g key f there h)
          ]
        ]
      ]
