-- ===== src/Disk/Markers.antt =====
-- The lease markers of media files (`DiskReservation.bind` to `unbind`): sidecars with an owner and an
-- expiry. The lock file of a marker is held during each operation, so an operation is one step; where
-- another process holds the lock, the operation raises before it reads anything.
use ytdlbot.Prelude.{
  ℕ, ◌+◌, Bool, true, false, not, ◌&&◌, ◌||◌, Option, none, some, String, List, [], ◌∷◌, ltb,
  str_eq, if◌then◌else◌, any, filter,
}

pub record Marker : Type 0 where
  pub owner : String
  pub expires_at : ℕ

-- The media files that are there, and what `_marker_identity` reads at each path: `none` for a missing
-- or unreadable marker, whose owner is None and whose expiry is 0.
pub record Files : Type 0 where
  pub present : String → Bool
  pub marker : String → Option Marker

-- `_paths` is a set of paths.
pub record Holder : Type 0 where
  pub owner : String
  pub lease_ttl : ℕ
  pub paths : List String
  pub released : Bool

pub record World : Type 0 where
  pub files : Files
  pub holder : Holder

pub data LeaseError : Type 0 where
  runtime_error lease_ownership_error os_error value_error : LeaseError

-- A step that raises may have changed the files.
pub data Outcome : Type 0 where
  ok : World → Outcome
  fails : LeaseError → World → Outcome

abbrev pub world_of : Outcome → World
world_of (ok w) = w
world_of (fails e w) = w

infixl 5 ◌>>=◌
abbrev pub ◌>>=◌ : Outcome → (World → Outcome) → Outcome
ok w >>= f = f w
fails e w >>= f = fails e w

abbrev pub put {ℓ} : {A : Type ℓ} → (String → A) → String → A → String → A
put f path a p = if str_eq p path then a else f p

abbrev pub set_marker : World → String → Option Marker → World
set_marker w path m = record w { files = record w.files { marker = put w.files.marker path m } }

abbrev pub set_present : World → String → Bool → World
set_present w path there = record w {
  files = record w.files { present = put w.files.present path there };
}

abbrev pub set_paths : World → List String → World
set_paths w paths = record w { holder = record w.holder { paths = paths } }

abbrev pub has_path : String → List String → Bool
has_path path paths = any (λ p. str_eq p path) paths

unfoldable pub add_path : World → String → World
add_path w path = if has_path path w.holder.paths then w else set_paths w (path ∷ w.holder.paths)

-- `remove` and `discard`, on a path that is or may be in the set.
unfoldable pub drop_path : World → String → World
drop_path w path = set_paths w (filter (λ p. not (str_eq p path)) w.holder.paths)

-- `current_owner is not None and current_owner != owner and (require_owner or expiry > now)`
unfoldable pub is_foreign : Option Marker → String → Bool → ℕ → Bool
is_foreign none owner require_owner now = false
is_foreign (some m) owner require_owner now =
    not (str_eq m.owner owner) && (require_owner || ltb now m.expires_at)

-- `_write_marker_locked`; `broken` says that writing or replacing the file raises OSError, which leaves
-- the marker as it was.
unfoldable pub write_marker : World → String → Bool → ℕ → Bool → Outcome
unfolding is_foreign
write_marker w path require_owner now broken =
    if is_foreign (w.files.marker path) w.holder.owner require_owner now
    then fails lease_ownership_error w
    else if broken
    then fails os_error w
    else ok (
        set_marker w path
          (some (record { owner = w.holder.owner; expires_at = now + w.holder.lease_ttl })))

unfoldable pub owns : World → String → Bool
owns w path = elim (w.files.marker path) [ none ↦ false | some m ↦ str_eq m.owner w.holder.owner ]

-- `_assert_marker_owner_locked`
unfoldable pub assert_owner : World → String → Outcome
unfolding owns
assert_owner w path = if owns w path then ok w else fails lease_ownership_error w

-- `_remove_marker_if_owned_locked`; `broken` says that `unlink` raises OSError.
unfoldable pub remove_marker : World → String → Bool → Outcome
unfolding owns
remove_marker w path broken =
    if owns w path then (if broken then fails os_error w else ok (set_marker w path none)) else ok w

unfoldable pub bind : World → String → ℕ → Bool → Outcome
unfolding write_marker add_path
bind w path now broken =
    if w.holder.released
    then fails runtime_error w
    else write_marker w path false now broken >>= λ w'. ok (add_path w' path)

-- `_rebind_locked` where the old path is bound; the last argument says that the old marker cannot be
-- removed, and then the new one can.
unfoldable pub rebind_bound : World → String → String → ℕ → Bool → Bool → Outcome
unfolding assert_owner write_marker add_path drop_path remove_marker
rebind_bound w old new now broken stuck = assert_owner w old >>= λ w₁.
    write_marker w₁ new false now broken >>= λ w₂.
    elim (remove_marker (add_path w₂ new) old stuck) [
      | ok w₃ ↦ ok (drop_path w₃ old)
      | fails e w₃ ↦ remove_marker w₃ new false >>= λ w₄. fails e (drop_path w₄ new)
    ]

unfoldable pub rebind : World → String → String → ℕ → Bool → Bool → Outcome
unfolding rebind_bound write_marker add_path
rebind w old new now broken stuck =
    if w.holder.released
    then fails runtime_error w
    else if has_path old w.holder.paths
    then rebind_bound w old new now broken stuck
    else write_marker w new false now broken >>= λ w'. ok (add_path w' new)

-- `renew`, over the paths in the order in which the set gives them; the first failure ends it, and
-- `broken` says at which paths the write raises OSError.
unfoldable pub renew_all : List String → World → ℕ → (String → Bool) → Outcome
unfolding write_marker
renew_all [] w now broken = ok w
renew_all (path ∷ paths) w now broken =
    write_marker w path true now (broken path) >>= λ w'. renew_all paths w' now broken

unfoldable pub renew : World → ℕ → (String → Bool) → Outcome
unfolding renew_all
renew w now broken =
    if w.holder.released then fails runtime_error w else renew_all w.holder.paths w now broken

unfoldable pub unbind : World → String → Bool → Outcome
unfolding remove_marker drop_path
unbind w path broken =
    if has_path path w.holder.paths
    then (remove_marker w path broken >>= λ w'. ok (drop_path w' path))
    else ok w

-- The loop of `_finish_release`: a path whose lock another process holds keeps its marker, and an
-- OSError ends the loop.
unfoldable pub release_all : (String → Bool) → (String → Bool) → List String → World → World
unfolding remove_marker
release_all locked broken [] w = w
release_all locked broken (path ∷ paths) w =
    let skip = release_all locked broken paths w in
    if locked path then skip else elim (remove_marker w path (broken path)) [
      | ok w' ↦ release_all locked broken paths w'
      | fails e w' ↦ w'
    ]

unfoldable pub finish_release : (String → Bool) → (String → Bool) → World → World
unfolding release_all
finish_release locked broken w = set_paths (release_all locked broken w.holder.paths w) []

-- `is_active_media_lease`: any nonempty owner with an expiry ahead.
unfoldable pub is_active : Files → String → ℕ → Bool
is_active files path now = elim (files.marker path) [ none ↦ false | some m ↦ ltb now m.expires_at ]
