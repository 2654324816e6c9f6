-- ===== src/Flight/Steps.antt =====
-- The orders in which the event loop can run the critical sections, as a relation on groups.
use ytdlbot.Prelude.{
  ℕ, ◌≡◌, Bool, true, ◌&&◌, Option, none, String, List, [], ◌∷◌, str_eq, ◌==◌, if◌then◌else◌, any,
}
use ytdlbot.Flight.Group.{
  finished, Flight, FactoryMarker, Group, Entry, subscribed, reentry_error, put_object, enter,
  unsubscribe,
}

abbrev pub same : String × ℕ → String × ℕ → Bool
same a b = str_eq a.0 b.0 && a.1 == b.1

abbrev pub is_caller : String × ℕ → List (String × ℕ) → Bool
is_caller c callers = any (λ (a : String × ℕ). same a c) callers

-- One of the callers goes.
abbrev pub without : String × ℕ → List (String × ℕ) → List (String × ℕ)
without c [] = []
without c (a ∷ callers) = let rest = without c callers in if same a c then callers else a ∷ rest

abbrev pub group_of : Group → Entry → Group
group_of g (subscribed h) = h
group_of g reentry_error = g

unfoldable pub leave : Group → String → ℕ → Group
leave g key f = record (unsubscribe g key f) { callers = without (key, f) g.callers }

-- The task of a flight comes to its end.
abbrev pub finish : Group → ℕ → Group
finish g f = record g { store = put_object g.store f (record (g.store f) { task = finished }) }

-- A caller begins, a caller that has been woken or cancelled ends, or a task ends.
pub data Step : Group → Group → Type 0 where
  begin :
      (g : Group) (inherited : List FactoryMarker) (current : Option ℕ) (key : String)
      → Step g (group_of g (enter g inherited current key))
  end :
      (g : Group) (key : String) (f : ℕ)
      → is_caller (key, f) g.callers ≡ true
      → Step g (leave g key f)
  task_done : (g : Group) (f : ℕ) → Step g (finish g f)

-- The groups that come about from a new one.
pub data Reachable (group_id : ℕ) (unused : ℕ → Flight) : Group → Type 0 where
  new : Reachable group_id unused (record {
    group_id = group_id;
    flights = λ key. none;
    store = unused;
    next = 0;
    callers = [];
  })
  after : {g h : Group} → Reachable group_id unused g → Step g h → Reachable group_id unused h
