-- ===== src/Flight/Group.antt =====
-- `SingleFlightGroup`: the flights of a group and what each critical section does to them. A flight is
-- an object that callers keep a reference to, so flights stand in a store under their identities.
use ytdlbot.Prelude.{
  ℕ, suc, ◌-◌, Bool, false, ◌&&◌, Option, none, some, String, List, ◌∷◌, str_eq, ◌==◌,
  if◌then◌else◌, any,
}

-- The task of a flight: `cancel()` was called on a cancelled one, which is not done before it finishes.
pub data Task : Type 0 where
  running cancelled finished : Task

-- A flight with the key that its factory marker has.
pub record Flight : Type 0 where
  pub key : String
  pub task : Task
  pub subscribers : ℕ

-- A factory marker of the caller's context.
pub record FactoryMarker : Type 0 where
  pub group_id : ℕ
  pub key : String
  pub active : Bool

-- `callers` are the calls of `do` between their two critical sections, each with its key and flight.
pub record Group : Type 0 where
  pub group_id : ℕ
  pub flights : String → Option ℕ
  pub store : ℕ → Flight
  pub next : ℕ
  pub callers : List (String × ℕ)

pub data Entry : Type 0 where
  subscribed : Group → Entry
  reentry_error : Entry

abbrev pub put_flight : (String → Option ℕ) → String → Option ℕ → String → Option ℕ
put_flight flights key f k = if str_eq key k then f else flights k

abbrev pub put_object : (ℕ → Flight) → ℕ → Flight → ℕ → Flight
put_object store f x i = if f == i then x else store i

-- `flight = _Flight(…)`, which the caller is the first to subscribe to.
unfoldable pub open_flight : Group → String → Group
open_flight g key = record g {
  flights = put_flight g.flights key (some g.next);
  store = put_object g.store g.next (record { key = key; task = running; subscribers = 1 });
  next = suc g.next;
  callers = (key, g.next) ∷ g.callers;
}

-- `flight.subscribers += 1`
unfoldable pub join_flight : Group → String → ℕ → Group
join_flight g key f = record g {
  store = put_object g.store f (record (g.store f) { subscribers = suc (g.store f).subscribers });
  callers = (key, f) ∷ g.callers;
}

abbrev pub is_task : ℕ → Option ℕ → Bool
is_task f none = false
is_task f (some current) = f == current

-- `do` up to the wait; `current` is the flight whose task the caller runs in, if it is one.
unfoldable pub enter : Group → List FactoryMarker → Option ℕ → String → Entry
unfolding open_flight join_flight
enter g inherited current key =
    if any (λ m. m.active && (m.group_id == g.group_id && str_eq m.key key)) inherited
    then reentry_error
    else elim (g.flights key) [
      | none ↦ subscribed (open_flight g key)
      | some f ↦ if is_task f current then reentry_error else subscribed (join_flight g key f)
    ]

-- `flight.task.cancel()`, where the task is not done.
abbrev pub cancel : Task → Task
cancel running = cancelled
cancel task = task

-- The last subscriber takes the flight out of the group.
unfoldable pub close_flight : Group → String → ℕ → Group
close_flight g key f = record g {
  flights = put_flight g.flights key none;
  store =
      put_object g.store f (record (g.store f) { task = cancel (g.store f).task; subscribers = 0 });
}

unfoldable pub drop_subscriber : Group → String → ℕ → Group
unfolding close_flight
drop_subscriber g key f =
    if (g.store f).subscribers - 1 == 0 then close_flight g key f else record g {
      store =
          put_object g.store f (record (g.store f) { subscribers = (g.store f).subscribers - 1 });
    }

-- `_unsubscribe`
unfoldable pub unsubscribe : Group → String → ℕ → Group
unfolding drop_subscriber
unsubscribe g key f = elim (g.flights key) [
  | none ↦ g
  | some current ↦ if current == f then drop_subscriber g key f else g
]
