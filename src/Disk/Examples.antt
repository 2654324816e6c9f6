-- ===== src/Disk/Examples.antt =====
-- The theorems of the disk budget and of the leases at concrete data, and runs of their operations.
use ytdlbot.Prelude.{
  ℕ, ◌≡◌, refl, true, false, none, some, List, [], ◌∷◌, arith, str_eq, if◌then◌else◌,
}
use ytdlbot.Prelude.Int.{pos}
use ytdlbot.Disk.Budget.{
  insufficient_disk_space, available_bytes, reserve_locked, reserve, grow_live, grow_by, ensure,
  begin_release, finish_release, Step, enter, grow, claim, finish, on_reservation, step, run,
  empty_budget,
}
use ytdlbot.Disk.Accounting
use ytdlbot.Disk.Accounting.{IsAccounted}
use ytdlbot.Disk.Markers
use ytdlbot.Disk.Markers.{
  Marker, Files, World, lease_ownership_error, os_error, Outcome, ok, fails, world_of, add_path,
  drop_path, is_foreign, write_marker, owns, assert_owner, remove_marker, renew_all, renew,
  rebind_bound, rebind, unbind, release_all, is_active,
}
use ytdlbot.Disk.Promote.{
  Faults, replace, forget_new, restore_old, recover, drop_marker_of_old, move_file, promote_bound,
  promote,
}
use ytdlbot.Disk.Operations.{Operation, perform, perform_all}
use ytdlbot.Disk.Leases
use ytdlbot.Disk.Protection
use ytdlbot.Disk.Protection.{IsProtected}

program : Unit {0}
unfolding available_bytes reserve_locked reserve grow_live grow_by ensure begin_release
    finish_release on_reservation step run is_foreign write_marker owns assert_owner remove_marker
    add_path drop_path Markers.bind rebind_bound rebind renew_all renew unbind release_all
    Markers.finish_release is_active replace forget_new restore_old recover drop_marker_of_old
    move_file promote_bound promote perform perform_all
program = tt

abbrev two_reservations : List Step
two_reservations =
    enter 1 500 (pos 60) (pos 3600)
    ∷ enter 2 500 (pos 50) (pos 3600)
    ∷ enter 3 500 (pos 30) (pos 3600)
    ∷ grow 3 500 (pos 40)
    ∷ claim 1
    ∷ finish 1
    ∷ finish 1
    ∷ []

reserved_test : (run (empty_budget (some 100)) two_reservations).reserved_bytes ≡ 40
unfolding program
reserved_test = refl

overfull_test :
    (reserve (run (empty_budget (some 100)) two_reservations) 500 4 (pos 61) (pos 3600)).0
    ≡ insufficient_disk_space
unfolding program
overfull_test = refl

run-IsAccounted_example : IsAccounted (some 100) (run (empty_budget (some 100)) two_reservations)
run-IsAccounted_example = Accounting.run-IsAccounted (some 100) two_reservations

abbrev theirs : Marker
theirs = record { owner = "theirs"; expires_at = 100 }

abbrev mine : Marker
mine = record { owner = "mine"; expires_at = 100 }

abbrev before : World
before = record {
  files = record {
    present = λ p. str_eq p "a.part";
    marker = λ p.
        if str_eq p "a.part" then some mine else if str_eq p "b.mp4" then some theirs else none;
  };
  holder = record { owner = "mine"; lease_ttl = 50; paths = "a.part" ∷ []; released = false };
}

abbrev works : Faults
works = record {
  write_new = false;
  move = false;
  drop_old = false;
  move_back = false;
  write_back = false;
}

abbrev some_operations : List (ℕ × Operation)
some_operations =
    (10, Operation.bind "b.mp4" false)
    ∷ (20, Operation.promote "a.part" "b.mp4" works)
    ∷ (30, Operation.renew (λ p. false))
    ∷ (40, Operation.promote "a.part" "c.mp4" works)
    ∷ (50, Operation.release (λ p. false) (λ p. false))
    ∷ []

released_test : (perform_all before some_operations).files.marker "c.mp4" ≡ none
unfolding program
released_test = refl

promoted_test : (world_of (promote before "a.part" "c.mp4" 20 works)).files.present "c.mp4" ≡ true
unfolding program
promoted_test = refl

refused_test : promote before "a.part" "b.mp4" 20 works ≡ fails lease_ownership_error before
unfolding program
refused_test = refl

-- The old marker stays, so that the move is undone, and the old marker cannot be written again.
abbrev stuck : Faults
stuck = record works { drop_old = true; write_back = true }

undone_test :
    ((world_of (promote before "a.part" "c.mp4" 20 stuck)).files.present "a.part" ≡ false)
    × ((world_of (promote before "a.part" "c.mp4" 20 stuck)).holder.paths ≡ [])
unfolding program
undone_test = (refl, refl)

-- The bound file is gone, and another owner's file stands at the destination under a live lease: the
-- refused promotion moves that file.
abbrev source_gone : World
source_gone = record before { files = record before.files { present = λ p. str_eq p "b.mp4" } }

moves_leased_file_test :
    ((world_of (promote source_gone "a.part" "b.mp4" 20 works)).files.present "b.mp4" ≡ false)
    × ((world_of (promote source_gone "a.part" "b.mp4" 20 works)).files.marker "b.mp4"
        ≡ some theirs)
unfolding program
moves_leased_file_test = (refl, refl)

perform_all-Stands_example : (perform_all before some_operations).files.marker "b.mp4" ≡ some theirs
perform_all-Stands_example =
    Leases.perform_all-Stands "mine" "b.mp4" theirs before some_operations refl
      (ground arith, (ground arith, (ground arith, (ground arith, (ground arith, tt))))) refl refl

promote-IsProtected_example :
    IsProtected (world_of (promote before "a.part" "c.mp4" 20 stuck)) "a.part"
    × IsProtected (world_of (promote before "a.part" "c.mp4" 20 stuck)) "c.mp4"
unfolding owns
promote-IsProtected_example =
    Protection.promote-IsProtected before "a.part" "c.mp4" 20 stuck (λ _. (refl, refl)) refl
