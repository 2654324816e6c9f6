-- ===== src/Disk/Operations.antt =====
-- The operations of a reservation on the markers of its files, as values.
use ytdlbot.Prelude.{ℕ, Bool, String, List, [], ◌∷◌}
use ytdlbot.Disk.Markers
use ytdlbot.Disk.Markers.{World, world_of, finish_release}
use ytdlbot.Disk.Promote
use ytdlbot.Disk.Promote.{Faults}

-- The operations of a reservation on markers, with the faults and foreign locks that each meets.
pub data Operation : Type 0 where
  bind : String → Bool → Operation
  rebind : String → String → Bool → Bool → Operation
  promote : String → String → Faults → Operation
  renew : (String → Bool) → Operation
  unbind : String → Bool → Operation
  release : (String → Bool) → (String → Bool) → Operation

unfoldable pub perform : World → ℕ → Operation → World
perform w now (bind path broken) = world_of (Markers.bind w path now broken)
perform w now (rebind old new broken stuck) = world_of (Markers.rebind w old new now broken stuck)
perform w now (promote old new faults) = world_of (Promote.promote w old new now faults)
perform w now (renew broken) = world_of (Markers.renew w now broken)
perform w now (unbind path broken) = world_of (Markers.unbind w path broken)
perform w now (release locked broken) = finish_release locked broken w

unfoldable pub perform_all : World → List (ℕ × Operation) → World
perform_all w [] = w
perform_all w ((now, op) ∷ ops) = perform_all (perform w now op) ops
