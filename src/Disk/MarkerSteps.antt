-- ===== src/Disk/MarkerSteps.antt =====
-- How a write and a removal of a marker end, and what they leave alone.
use ytdlbot.Prelude.{
  ℕ, ◌+◌, ◌≡◌, ◌⊎◌, refl, Bool, true, false, not, none, some, String, List, [], ◌∷◌, str_eq, eq_iff,
  eq_refl, arith, Bool-cases, inl, inr, filter,
}
use ytdlbot.Disk.Markers.{
  World, os_error, lease_ownership_error, ok, fails, set_marker, has_path, add_path, is_foreign,
  write_marker, owns, remove_marker,
}

pub has_path-drop :
    (p q : String) (paths : List String)
    → str_eq q p ≡ false
    → has_path q (filter (λ r. not (str_eq r p)) paths) ≡ has_path q paths
has_path-drop p q [] h = refl
has_path-drop p q (r ∷ paths) h =
    ground (arith, eq_iff r p, eq_iff r q, eq_refl q, eq_iff q p, has_path-drop p q paths h)

pub has_path-add_path :
    (w : World) (p q : String)
    → has_path q w.holder.paths ≡ true
    → has_path q (add_path w p).holder.paths ≡ true
unfolding add_path
has_path-add_path w p q h = ground arith

pub has_path-add_path_self :
    (w : World) (p : String) → has_path p (add_path w p).holder.paths ≡ true
unfolding add_path
has_path-add_path_self w p = ground (arith, eq_refl p)

pub owns-add_path : (w : World) (p q : String) → owns (add_path w p) q ≡ owns w q
unfolding add_path owns
owns-add_path w p q = ground arith

pub present-add_path :
    (w : World) (p q : String) → (add_path w p).files.present q ≡ w.files.present q
unfolding add_path
present-add_path w p q = ground arith

-- What a write of a marker does to another path and to its own.
pub record Wrote (w w' : World) (p : String) : Type 0 where
  pub mine : owns w' p ≡ true
  pub others : (q : String) → str_eq q p ≡ false → owns w' q ≡ owns w q
  pub present : (q : String) → w'.files.present q ≡ w.files.present q
  pub paths : w'.holder.paths ≡ w.holder.paths

set_marker-Wrote :
    (w : World) (p : String) (expiry : ℕ)
    → Wrote w (set_marker w p (some (record { owner = w.holder.owner; expires_at = expiry }))) p
unfolding owns
set_marker-Wrote w p expiry = record {
  mine = ground (arith, eq_refl p, eq_refl w.holder.owner);
  others = λ q h. ground arith;
  present = λ q. refl;
  paths = refl;
}

-- A removal leaves every other path alone.
pub record Removed (w w' : World) (p : String) : Type 0 where
  pub others : (q : String) → str_eq q p ≡ false → owns w' q ≡ owns w q
  pub present : (q : String) → w'.files.present q ≡ w.files.present q
  pub paths : w'.holder.paths ≡ w.holder.paths

set_marker-Removed : (w : World) (p : String) → Removed w (set_marker w p none) p
unfolding owns
set_marker-Removed w p = record { others = λ q h. ground arith; present = λ q. refl; paths = refl }

pub write_cases :
    (w : World) (p : String) (now : ℕ) (broken : Bool)
    → ((w' : World) × ((write_marker w p false now broken ≡ ok w') × Wrote w w' p))
      ⊎ ((write_marker w p false now broken ≡ fails os_error w)
          ⊎ ((write_marker w p false now broken ≡ fails lease_ownership_error w)
              × (is_foreign (w.files.marker p) w.holder.owner false now ≡ true)))
unfolding write_marker
write_cases w p now broken =
    elim (Bool-cases (is_foreign (w.files.marker p) w.holder.owner false now)) [
      | inl refused ↦ inr (inr (rw refused refl, refused))
      | inr free ↦ elim (Bool-cases broken) [
        | inl fault ↦ inr (inl (rw (free, fault) refl))
        | inr works ↦ inl (
          set_marker w p
              (some (record { owner = w.holder.owner; expires_at = now + w.holder.lease_ttl })),
          (rw (free, works) refl, set_marker-Wrote w p (now + w.holder.lease_ttl)),
        )
      ]
    ]

pub remove_cases :
    (w : World) (p : String) (broken : Bool)
    → ((w' : World) × ((remove_marker w p broken ≡ ok w') × Removed w w' p))
      ⊎ ((remove_marker w p broken ≡ fails os_error w) × ((broken ≡ true) × (owns w p ≡ true)))
unfolding remove_marker
remove_cases w p broken = elim (Bool-cases (owns w p)) [
  | inl mine ↦ elim (Bool-cases broken) [
    | inl fault ↦ inr (rw (mine, fault) refl, (fault, mine))
    | inr works ↦ inl (set_marker w p none, (rw (mine, works) refl, set_marker-Removed w p))
  ]
  | inr not_mine ↦
      inl
        (w, (rw not_mine refl, record { others = λ q h. refl; present = λ q. refl; paths = refl }))
]

-- A marker of one's own is not foreign.
pub own_not_foreign :
    (w : World) (p : String) (now : ℕ)
    → owns w p ≡ true
    → is_foreign (w.files.marker p) w.holder.owner false now ≡ false
unfolding owns is_foreign
own_not_foreign w p now h = ground arith
