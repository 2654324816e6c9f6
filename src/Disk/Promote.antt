-- ===== src/Disk/Promote.antt =====
-- `DiskReservation.promote`: the rename of a partial file to its destination with both markers, and its
-- way back.
use ytdlbot.Prelude.{ℕ, Bool, true, false, not, ◌&&◌, ◌||◌, String, str_eq, if◌then◌else◌}
use ytdlbot.Disk.Markers.{
  World, LeaseError, runtime_error, lease_ownership_error, os_error, value_error, Outcome, ok,
  fails, ◌>>=◌, set_present, has_path, add_path, drop_path, write_marker, assert_owner,
  remove_marker,
}

-- Which of the file operations raise OSError. The handler's own unlinks do not.
pub record Faults : Type 0 where
  pub write_new : Bool
  pub move : Bool
  pub drop_old : Bool
  pub move_back : Bool
  pub write_back : Bool

-- `os.replace`, which raises for a missing source.
unfoldable pub replace : World → String → String → Bool → Outcome
replace w source target broken =
    if broken || not (w.files.present source)
    then fails os_error w
    else ok (set_present (set_present w source false) target true)

-- The end of the handler where the file is not at its destination.
unfoldable pub forget_new : World → String → LeaseError → Outcome
unfolding remove_marker drop_path
forget_new w new e = remove_marker w new false >>= λ w'. fails e (drop_path w' new)

-- The file is back at its old path, whose marker is written again; without one the file goes.
unfoldable pub restore_old : World → String → String → ℕ → Bool → LeaseError → Outcome
unfolding write_marker add_path remove_marker drop_path forget_new
restore_old w old new now broken e = elim (write_marker w old false now broken) [
  | ok w' ↦ forget_new (add_path w' old) new e
  | fails os_error w' ↦ remove_marker (set_present w' old false) old false >>= λ w''.
      forget_new (drop_path w'' old) new e
  | fails other w' ↦ fails other w'
]

-- The `except` branch; `renamed` also holds where the move was made although it raised.
unfoldable pub recover : World → String → String → ℕ → Faults → Bool → LeaseError → Outcome
unfolding replace restore_old forget_new
recover w old new now faults renamed e =
    if renamed || (not (w.files.present old) && w.files.present new)
    then elim (replace w new old faults.move_back) [
      | fails _ _ ↦ fails e w
      | ok w' ↦ restore_old w' old new now faults.write_back e
    ]
    else forget_new w new e

unfoldable pub drop_marker_of_old : World → String → String → ℕ → Faults → Outcome
unfolding remove_marker drop_path recover
drop_marker_of_old w old new now faults = elim (remove_marker w old faults.drop_old) [
  | ok w' ↦ ok (drop_path w' old)
  | fails e w' ↦ recover w' old new now faults true e
]

unfoldable pub move_file : World → String → String → ℕ → Faults → Outcome
unfolding replace drop_marker_of_old recover
move_file w old new now faults = elim (replace w old new faults.move) [
  | ok w' ↦ drop_marker_of_old w' old new now faults
  | fails e w' ↦ recover w' old new now faults false e
]

-- The `try` block.
unfoldable pub promote_bound : World → String → String → ℕ → Faults → Outcome
unfolding write_marker add_path move_file recover
promote_bound w old new now faults = elim (write_marker w new false now faults.write_new) [
  | ok w' ↦ move_file (add_path w' new) old new now faults
  | fails e w' ↦ recover w' old new now faults false e
]

unfoldable pub promote : World → String → String → ℕ → Faults → Outcome
unfolding assert_owner promote_bound
promote w old new now faults =
    if w.holder.released
    then fails runtime_error w
    else if str_eq old new
    then fails value_error w
    else if not (has_path old w.holder.paths)
    then fails lease_ownership_error w
    else if has_path new w.holder.paths
    then fails lease_ownership_error w
    else assert_owner w old >>= λ w'. promote_bound w' old new now faults
