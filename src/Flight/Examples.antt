-- ===== src/Flight/Examples.antt =====
-- The theorems on shared work at a concrete run.
use ytdlbot.Prelude.{ℕ, ◌≡◌, ◌<◌, refl, true, false, none, some, String, [], ◌∷◌, arith}
use ytdlbot.Flight.Group.{
  running, cancelled, Flight, Group, reentry_error, open_flight, join_flight, enter, close_flight,
  drop_subscriber, unsubscribe,
}
use ytdlbot.Flight.Steps.{group_of, leave, begin, end, Reachable, new, after}
use ytdlbot.Flight.Counts.{waiting}
use ytdlbot.Flight.Invariant.{is_cancelled}
use ytdlbot.Flight.Reached

program : Unit {0}
unfolding open_flight join_flight enter close_flight drop_subscriber unsubscribe leave
program = tt

abbrev unused : ℕ → Flight
unused f = record { key = ""; task = running; subscribers = 0 }

abbrev empty_group : Group
empty_group = record { group_id = 7; flights = λ key. none; store = unused; next = 0; callers = [] }

abbrev begun : Group → String → Group
begun g key = group_of g (enter g [] none key)

-- Two callers of one key and one of another; the first caller is cancelled.
abbrev three_callers : Group
three_callers = begun (begun (begun empty_group "clip") "clip") "song"

abbrev one_left : Group
one_left = leave three_callers "clip" 0

reentry_test :
    enter three_callers (record { group_id = 7; key = "clip"; active = true } ∷ []) none "clip"
    ≡ reentry_error
unfolding program
reentry_test = refl

counted_test : (three_callers.store 0).subscribers ≡ 2
unfolding program
counted_test = refl

last_leaves_test :
    ((leave one_left "clip" 0).flights "clip" ≡ none)
    × (((leave one_left "clip" 0).store 0).task ≡ cancelled)
unfolding program
last_leaves_test = (refl, refl)

reached : Reachable 7 unused one_left
unfolding program
reached =
    after
      (after (after (after new (begin empty_group [] none "clip")) (begin _ [] none "clip"))
        (begin _ [] none "song"))
      (end three_callers "clip" 0 refl)

caller-uncancelled_example :
    (one_left.flights "clip" ≡ some 0)
    × ((one_left.store 0).subscribers ≡ waiting 0 one_left.callers)
    × (is_cancelled (one_left.store 0).task ≡ false)
unfolding program
caller-uncancelled_example = Reached.caller-uncancelled one_left "clip" 0 reached refl

running_wanted_example : 0 < waiting 1 one_left.callers
unfolding program
running_wanted_example = Reached.running_wanted one_left 1 reached (ground arith) refl
