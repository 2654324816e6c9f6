-- ===== src/Flight/Reached.antt =====
-- What every group that comes about promises to its callers.
use ytdlbot.Prelude.{ℕ, ◌≡◌, ◌<◌, refl, true, false, some, String, arith, not_both}
use ytdlbot.Flight.Group.{Flight, Group}
use ytdlbot.Flight.Steps.{is_caller, Step, begin, end, task_done, Reachable, new, after}
use ytdlbot.Flight.Counts.{waiting, listed_of}
use ytdlbot.Flight.Invariant.{is_cancelled, is_running, IsSound, finish-IsSound, enter-IsSound}
use ytdlbot.Flight.Leaving.{leave-IsSound}

step-IsSound : (g h : Group) → Step g h → IsSound g → IsSound h
step-IsSound _ _ (begin g inherited current key) h = enter-IsSound g inherited current key h
step-IsSound _ _ (end g key f caller) h = leave-IsSound g key f caller h
step-IsSound _ _ (task_done g f) h = finish-IsSound g f h

Reachable-IsSound :
    {group_id : ℕ} {unused : ℕ → Flight} (g : Group) → Reachable group_id unused g → IsSound g
Reachable-IsSound _ new = record {
  flying = λ key f e. absurd (not_both refl e);
  listed = tt;
  owned = λ f made. absurd (omega arith);
  fresh = λ f w. absurd (omega arith);
}
Reachable-IsSound h (after {g} earlier s) = step-IsSound g h s (Reachable-IsSound g earlier)

-- In every group that comes about, a caller that waits has its flight in the table under its own key,
-- the flight's number of subscribers is that of the callers that wait for it, and its task was not
-- cancelled, whatever other callers of the flight were cancelled before.
pub caller-uncancelled :
    {group_id : ℕ} {unused : ℕ → Flight} (g : Group) (key : String) (f : ℕ)
    → Reachable group_id unused g
    → is_caller (key, f) g.callers ≡ true
    → (g.flights key ≡ some f)
      × ((g.store f).subscribers ≡ waiting f g.callers)
      × (is_cancelled (g.store f).task ≡ false)
caller-uncancelled g key f reached caller =
    let h = Reachable-IsSound g reached in
    let there = listed_of g.flights key f g.callers caller h.listed in
    let x = h.flying key f there in (there, x.count, x.alive)

-- In every group that comes about, a flight whose task is running and was not cancelled has a caller
-- that waits for it: no work goes on that nobody wants.
pub running_wanted :
    {group_id : ℕ} {unused : ℕ → Flight} (g : Group) (f : ℕ)
    → Reachable group_id unused g
    → f < g.next
    → is_running (g.store f).task ≡ true
    → 0 < waiting f g.callers
running_wanted g f reached made runs =
    let h = Reachable-IsSound g reached in (h.flying (g.store f).key f (h.owned f made runs)).wanted
