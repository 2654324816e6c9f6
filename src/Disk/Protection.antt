-- ===== src/Disk/Protection.antt =====
-- What `promote` leaves behind when it fails on the way.
use ytdlbot.Prelude.{
  ℕ, ◌≡◌, ◌⊎◌, refl, sym, ◌∙◌, ap, Bool, true, false, not, ◌&&◌, ◌||◌, String, str_eq, eq_iff,
  eq_refl, if◌then◌else◌, arith, Bool-cases, inl, inr,
}
use mathlib.Core.Bool.{false≢true}
use ytdlbot.Disk.Markers.{
  World, LeaseError, os_error, lease_ownership_error, Outcome, ok, fails, world_of, ◌>>=◌,
  set_present, has_path, add_path, drop_path, owns, assert_owner, remove_marker,
}
use ytdlbot.Disk.Promote.{
  Faults, replace, forget_new, restore_old, recover, drop_marker_of_old, move_file, promote_bound,
  promote,
}
use ytdlbot.Disk.MarkerSteps.{
  has_path-drop, has_path-add_path, has_path-add_path_self, owns-add_path, present-add_path,
  write_cases, remove_cases, own_not_foreign,
}

-- A file that is there has a marker of the holder, and the holder knows its path.
abbrev pub IsProtected : World → String → Type 0
IsProtected w p = w.files.present p ≡ true → (owns w p ≡ true) × (has_path p w.holder.paths ≡ true)

-- Neither path of a promotion has a file without a lease.
abbrev pub Safe : String → String → World → Type 0
Safe old new w = IsProtected w old × IsProtected w new

module _ (old new : String) (now : ℕ) (differ : str_eq old new ≡ false)
    (differ' : str_eq new old ≡ false) where
  forget_new-Safe :
      (w : World) (e : LeaseError)
      → IsProtected w old
      → w.files.present new ≡ false
      → Safe old new (world_of (forget_new w new e))
  unfolding forget_new drop_path
  forget_new-Safe w e keep gone = elim (remove_cases w new false) [
    | inl (w', (removed, r)) ↦ rw removed (
      λ there.
          let k = keep (sym (r.present old) ∙ there) in
          (
            r.others old differ ∙ k.0,
            has_path-drop new old w'.holder.paths differ ∙ ap (has_path old) r.paths ∙ k.1,
          ),
      λ there. absurd (false≢true (sym gone ∙ sym (r.present new) ∙ there)),
    )
    | inr (_, (fault, _)) ↦ absurd (false≢true fault)
  ]

  -- The holder's own file at its old path, and nothing at the new one.
  record IsBack (w : World) : Type 0 where
    mine : owns w old ≡ true
    bound : has_path old w.holder.paths ≡ true
    free : w.files.present new ≡ false

  unmarked-Safe :
      (w : World) (e : LeaseError)
      → w.files.present old ≡ false
      → w.files.present new ≡ false
      → Safe old new
          (world_of (remove_marker w old false >>= λ w'. forget_new (drop_path w' old) new e))
  unfolding drop_path
  unmarked-Safe w e old_gone new_gone = elim (remove_cases w old false) [
    | inl (w', (removed, r)) ↦ rw removed (
        forget_new-Safe (drop_path w' old) e
          (λ there. absurd (false≢true (sym old_gone ∙ sym (r.present old) ∙ there)))
          (r.present new ∙ new_gone))
    | inr (_, (fault, _)) ↦ absurd (false≢true fault)
  ]

  restore_old-Safe :
      (w : World) (broken : Bool) (e : LeaseError)
      → IsBack w
      → Safe old new (world_of (restore_old w old new now broken e))
  unfolding restore_old drop_path
  restore_old-Safe w broken e h = elim (write_cases w old now broken) [
    | inl (w', (wrote, r)) ↦
        rw (wrote, restore_old, world_of)
          (forget_new-Safe (add_path w' old) e
            (λ _. (owns-add_path w' old old ∙ r.mine, has_path-add_path_self w' old))
            (present-add_path w' old new ∙ r.present new ∙ h.free))
    | inr (inl fault) ↦
        rw (fault, restore_old, world_of)
          (unmarked-Safe (set_present w old false) e (ground (arith, eq_refl old))
            (rw differ' h.free))
    | inr (inr (_, foreign)) ↦
        absurd (false≢true (sym (own_not_foreign w old now h.mine) ∙ foreign))
  ]

  recover_unmoved-Safe :
      (w : World) (faults : Faults) (e : LeaseError)
      → IsProtected w old
      → w.files.present new ≡ false
      → Safe old new (world_of (recover w old new now faults false e))
  unfolding recover
  recover_unmoved-Safe w faults e keep gone =
      rw (unmoved (w.files.present old) (w.files.present new) gone, recover)
        (forget_new-Safe w e keep gone)
    where
      unmoved : (a b : Bool) → b ≡ false → (false || (not a && b)) ≡ false
      unmoved a b h = ground arith

  -- The file stands at its new path, and both markers are there.
  record IsMoved (w : World) : Type 0 where
    mine_old : owns w old ≡ true
    mine_new : owns w new ≡ true
    bound_old : has_path old w.holder.paths ≡ true
    bound_new : has_path new w.holder.paths ≡ true
    gone : w.files.present old ≡ false
    there : w.files.present new ≡ true

  replace_cases :
      (w : World) (source target : String) (broken : Bool)
      → ((replace w source target broken
          ≡ ok (set_present (set_present w source false) target true)))
        ⊎ (replace w source target broken ≡ fails os_error w)
  unfolding replace
  replace_cases w source target broken =
      elim (Bool-cases (broken || not (w.files.present source))) [
        | inl stuck ↦ inr (rw stuck refl)
        | inr moves ↦ inl (rw moves refl)
      ]

  undone-IsBack : (w : World) → IsMoved w → IsBack (set_present (set_present w new false) old true)
  unfolding owns
  undone-IsBack w h = record {
    mine = h.mine_old;
    bound = h.bound_old;
    free = rw differ' (ground (arith, eq_refl new));
  }

  recover_moved-Safe :
      (w : World) (faults : Faults) (e : LeaseError)
      → IsMoved w
      → Safe old new (world_of (recover w old new now faults true e))
  unfolding recover
  recover_moved-Safe w faults e h = elim (replace_cases w new old faults.move_back) [
    | inl back ↦ rw back (
        restore_old-Safe (set_present (set_present w new false) old true) faults.write_back e
          (undone-IsBack w h))
    | inr stuck ↦
        rw stuck (λ there. absurd (false≢true (sym h.gone ∙ there)), λ _. (h.mine_new, h.bound_new))
  ]

  drop_marker_of_old-Safe :
      (w : World) (faults : Faults)
      → IsMoved w
      → Safe old new (world_of (drop_marker_of_old w old new now faults))
  unfolding drop_marker_of_old drop_path
  drop_marker_of_old-Safe w faults h = elim (remove_cases w old faults.drop_old) [
    | inl (w', (removed, r)) ↦
        rw (removed, drop_marker_of_old, world_of)
          (
            λ there. absurd (false≢true (sym h.gone ∙ sym (r.present old) ∙ there)),
            λ _. (
              r.others new differ' ∙ h.mine_new,
              has_path-drop old new w'.holder.paths differ'
                  ∙ ap (has_path new) r.paths
                  ∙ h.bound_new,
            ),
          )
    | inr (stuck, _) ↦
        rw (stuck, drop_marker_of_old, world_of) (recover_moved-Safe w faults os_error h)
  ]

  move_file-Safe :
      (w : World) (faults : Faults)
      → owns w old ≡ true
      → owns w new ≡ true
      → has_path old w.holder.paths ≡ true
      → has_path new w.holder.paths ≡ true
      → w.files.present new ≡ false
      → Safe old new (world_of (move_file w old new now faults))
  unfolding move_file
  move_file-Safe w faults mine_old mine_new bound_old bound_new free =
      elim (replace_cases w old new faults.move) [
        | inl moved ↦
            rw (moved, move_file, world_of)
              (drop_marker_of_old-Safe (set_present (set_present w old false) new true) faults
                (record {
                  mine_old = mine_old;
                  mine_new = mine_new;
                  bound_old = bound_old;
                  bound_new = bound_new;
                  gone = rw differ (ground (arith, eq_refl old));
                  there = ground (arith, eq_refl new);
                }))
        | inr stuck ↦
            rw (stuck, move_file, world_of)
              (recover_unmoved-Safe w faults os_error (λ _. (mine_old, bound_old)) free)
      ]

  promote_bound-Safe :
      (w : World) (faults : Faults)
      → owns w old ≡ true
      → has_path old w.holder.paths ≡ true
      → w.files.present new ≡ false
      → Safe old new (world_of (promote_bound w old new now faults))
  unfolding promote_bound
  promote_bound-Safe w faults mine bound free = elim (write_cases w new now faults.write_new) [
    | inl (w', (wrote, r)) ↦
        rw (wrote, promote_bound, world_of)
          (move_file-Safe (add_path w' new) faults
            (owns-add_path w' new old ∙ r.others old differ ∙ mine)
            (owns-add_path w' new new ∙ r.mine)
            (has_path-add_path w' new old (ap (has_path old) r.paths ∙ bound))
            (has_path-add_path_self w' new) (present-add_path w' new new ∙ r.present new ∙ free))
    | inr (inl fault) ↦
        rw (fault, promote_bound, world_of)
          (recover_unmoved-Safe w faults os_error (λ _. (mine, bound)) free)
    | inr (inr (refused, _)) ↦
        rw (refused, promote_bound, world_of)
          (recover_unmoved-Safe w faults lease_ownership_error (λ _. (mine, bound)) free)
  ]

Safe-if :
    (old new : String) (b : Bool) (r s : Outcome)
    → (b ≡ true → Safe old new (world_of r))
    → (b ≡ false → Safe old new (world_of s))
    → Safe old new (world_of (if b then r else s))
Safe-if old new true r s h k = h refl
Safe-if old new false r s h k = k refl

assert_owner-Safe :
    (w : World) (old new : String) (f : World → Outcome)
    → Safe old new w
    → (owns w old ≡ true → Safe old new (world_of (f w)))
    → Safe old new (world_of (assert_owner w old >>= f))
unfolding assert_owner
assert_owner-Safe w old new f same next = elim (Bool-cases (owns w old)) [
  | inl mine ↦ rw (mine, assert_owner, ◌>>=◌) (next mine)
  | inr lost ↦ rw (lost, assert_owner, ◌>>=◌, world_of) same
]

-- Whichever writes and moves fail on the way, a promotion to a path where no file stands leaves no file without a
-- lease: a file that is at the old path or at the new one afterwards has a marker of the reservation
-- there, and the reservation knows its path, if this was so for the old path before.
pub promote-IsProtected :
    (w : World) (old new : String) (now : ℕ) (faults : Faults)
    → IsProtected w old
    → w.files.present new ≡ false
    → IsProtected (world_of (promote w old new now faults)) old
      × IsProtected (world_of (promote w old new now faults)) new
unfolding promote
promote-IsProtected w old new now faults keep free =
    let same : Safe old new w = (keep, λ there. absurd (false≢true (sym free ∙ there))) in
    Safe-if old new w.holder.released _ _ (λ _. same)
      (λ _.
        Safe-if old new (str_eq old new) _ _ (λ _. same)
          (λ differ.
            Safe-if old new (not (has_path old w.holder.paths)) _ _ (λ _. same)
              (λ bound.
                Safe-if old new (has_path new w.holder.paths) _ _ (λ _. same)
                  (λ _. assert_owner-Safe w old new _ same (λ mine.
                    promote_bound-Safe old new now differ (differ_sym old new differ) w faults mine
                      (of_not (has_path old w.holder.paths) bound) free)))))
  where
    differ_sym : (a b : String) → str_eq a b ≡ false → str_eq b a ≡ false
    differ_sym a b h = ground (arith, eq_iff a b, eq_iff b a)

    of_not : (b : Bool) → not b ≡ false → b ≡ true
    of_not b h = ground arith
