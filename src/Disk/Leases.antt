-- ===== src/Disk/Leases.antt =====
-- Promotion too leaves foreign markers alone, and so does every sequence of operations.
use ytdlbot.Prelude.{
  ℕ, ◌≡◌, ◌<◌, Bool, true, false, not, ◌&&◌, ◌||◌, some, String, List, [], ◌∷◌, str_eq, All,
}
use ytdlbot.Disk.Markers.{
  Marker, World, LeaseError, os_error, lease_ownership_error, runtime_error, value_error, Outcome,
  ok, fails, ◌>>=◌, has_path, set_present, add_path, drop_path, write_marker, assert_owner,
  remove_marker,
}
use ytdlbot.Disk.Promote.{
  Faults, replace, forget_new, restore_old, recover, drop_marker_of_old, move_file, promote_bound,
  promote,
}
use ytdlbot.Disk.Operations.{Operation, perform, perform_all}
use ytdlbot.Disk.Ownership.{
  Watch, Stands, Kept, Kept->>=, Kept-if, Kept-cases, Kept-write_marker, Kept-remove_marker,
  Kept-assert_owner, Kept-bind, Kept-unbind, Kept-renew, Kept-rebind, Stands-finish_release,
  Stands-add_path, Stands-drop_path,
}

module _ (o : Watch) where
  open o use {owner, path, m, now}

  Kept-forget_new :
      (w : World) (new : String) (e : LeaseError)
      → Stands owner path m w
      → Kept o (forget_new w new e)
  unfolding forget_new
  Kept-forget_new w new e h =
      Kept->>= o (remove_marker w new false) (λ w'. fails e (drop_path w' new))
        (Kept-remove_marker o w new false h) (λ w' h'. Stands-drop_path o w' new h')

  Kept-restore_old :
      (w : World) (old new : String) (broken : Bool) (e : LeaseError)
      → Stands owner path m w
      → Kept o (restore_old w old new now broken e)
  unfolding restore_old
  Kept-restore_old w old new broken e h =
      go (write_marker w old false now broken) (Kept-write_marker o w old false broken h)
    where
      go :
          (r : Outcome)
          → Kept o r
          → Kept o (elim r [
            | ok w' ↦ forget_new (add_path w' old) new e
            | fails os_error w' ↦ remove_marker (set_present w' old false) old false >>= λ w''.
                forget_new (drop_path w'' old) new e
            | fails other w' ↦ fails other w'
          ])
      go (ok w') k = Kept-forget_new (add_path w' old) new e (Stands-add_path o w' old k)
      go (fails runtime_error w') k = k
      go (fails lease_ownership_error w') k = k
      go (fails value_error w') k = k
      go (fails os_error w') k =
          Kept->>= o (remove_marker (set_present w' old false) old false)
            (λ w''. forget_new (drop_path w'' old) new e)
            (Kept-remove_marker o (set_present w' old false) old false
              (record { holder = k.holder; marker = k.marker }))
            (λ w'' h''. Kept-forget_new (drop_path w'' old) new e (Stands-drop_path o w'' old h''))

  Kept-replace :
      (w : World) (source target : String) (broken : Bool)
      → Stands owner path m w
      → Kept o (replace w source target broken)
  unfolding replace
  Kept-replace w source target broken h =
      Kept-if o (broken || not (w.files.present source)) (fails os_error w)
        (ok (set_present (set_present w source false) target true)) h
        (record { holder = h.holder; marker = h.marker })

  Kept-recover :
      (w : World) (old new : String) (faults : Faults) (renamed : Bool) (e : LeaseError)
      → Stands owner path m w
      → Kept o (recover w old new now faults renamed e)
  unfolding recover
  Kept-recover w old new faults renamed e h =
      Kept-if o (renamed || (not (w.files.present old) && w.files.present new)) _ _
        (Kept-cases o (replace w new old faults.move_back)
          (λ w'. restore_old w' old new now faults.write_back e) (λ _ _. fails e w)
          (Kept-replace w new old faults.move_back h)
          (λ w' h'. Kept-restore_old w' old new faults.write_back e h') (λ _ _ _. h))
        (Kept-forget_new w new e h)

  Kept-drop_marker_of_old :
      (w : World) (old new : String) (faults : Faults)
      → Stands owner path m w
      → Kept o (drop_marker_of_old w old new now faults)
  unfolding drop_marker_of_old
  Kept-drop_marker_of_old w old new faults h =
      Kept-cases o (remove_marker w old faults.drop_old) (λ w'. ok (drop_path w' old))
        (λ e w'. recover w' old new now faults true e)
        (Kept-remove_marker o w old faults.drop_old h) (λ w' h'. Stands-drop_path o w' old h')
        (λ e w' h'. Kept-recover w' old new faults true e h')

  Kept-move_file :
      (w : World) (old new : String) (faults : Faults)
      → Stands owner path m w
      → Kept o (move_file w old new now faults)
  unfolding move_file
  Kept-move_file w old new faults h =
      Kept-cases o (replace w old new faults.move) (λ w'. drop_marker_of_old w' old new now faults)
        (λ e w'. recover w' old new now faults false e) (Kept-replace w old new faults.move h)
        (λ w' h'. Kept-drop_marker_of_old w' old new faults h')
        (λ e w' h'. Kept-recover w' old new faults false e h')

  Kept-promote_bound :
      (w : World) (old new : String) (faults : Faults)
      → Stands owner path m w
      → Kept o (promote_bound w old new now faults)
  unfolding promote_bound
  Kept-promote_bound w old new faults h =
      Kept-cases o (write_marker w new false now faults.write_new)
        (λ w'. move_file (add_path w' new) old new now faults)
        (λ e w'. recover w' old new now faults false e)
        (Kept-write_marker o w new false faults.write_new h)
        (λ w' h'. Kept-move_file (add_path w' new) old new faults (Stands-add_path o w' new h'))
        (λ e w' h'. Kept-recover w' old new faults false e h')

  Kept-promote :
      (w : World) (old new : String) (faults : Faults)
      → Stands owner path m w
      → Kept o (promote w old new now faults)
  unfolding promote
  Kept-promote w old new faults h = Kept-if o w.holder.released _ _ h (
      Kept-if o (str_eq old new) _ _ h (
        Kept-if o (not (has_path old w.holder.paths)) _ _ h (
          Kept-if o (has_path new w.holder.paths) _ _ h (
            Kept->>= o (assert_owner w old) (λ w'. promote_bound w' old new now faults)
              (Kept-assert_owner o w old h) (λ w' h'. Kept-promote_bound w' old new faults h')))))

Stands-perform :
    (o : Watch) (w : World) (op : Operation)
    → Stands o.owner o.path o.m w
    → Stands o.owner o.path o.m (perform w o.now op)
unfolding perform
Stands-perform o w (Operation.bind p broken) h = Kept-bind o w p broken h
Stands-perform o w (Operation.rebind old new broken stuck) h =
    Kept-rebind o w old new broken stuck h
Stands-perform o w (Operation.promote old new faults) h = Kept-promote o w old new faults h
Stands-perform o w (Operation.renew broken) h = Kept-renew o w broken h
Stands-perform o w (Operation.unbind p broken) h = Kept-unbind o w p broken h
Stands-perform o w (Operation.release locked broken) h = Stands-finish_release o locked broken w h

-- As long as the clock has not reached the expiry of a marker that belongs to another owner, no
-- sequence of operations of a reservation, on any paths and with any faults of the file system,
-- changes or removes it.
pub perform_all-Stands :
    (owner path : String) (m : Marker) (w : World) (ops : List (ℕ × Operation))
    → str_eq m.owner owner ≡ false
    → All (λ (op : ℕ × Operation). op.0 < m.expires_at) ops
    → w.holder.owner ≡ owner
    → w.files.marker path ≡ some m
    → (perform_all w ops).files.marker path ≡ some m
unfolding perform_all
perform_all-Stands owner path m w [] foreign times mine there = there
perform_all-Stands owner path m w ((now, op) ∷ ops) foreign times mine there =
    let o : Watch = record {
      owner = owner;
      path = path;
      m = m;
      now = now;
      foreign = foreign;
      alive = times.0;
    } in
    let k = Stands-perform o w op (record { holder = mine; marker = there }) in
    perform_all-Stands owner path m (perform w now op) ops foreign times.1 k.holder k.marker
