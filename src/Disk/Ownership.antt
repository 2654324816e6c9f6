-- ===== src/Disk/Ownership.antt =====
-- No operation of a reservation touches a marker that another owner holds and that has not expired.
use ytdlbot.Prelude.{
  ℕ, ◌+◌, ◌≡◌, ◌<◌, sym, ◌∙◌, ap, Bool, true, false, not, ◌&&◌, ◌||◌, Option, none, some, String,
  List, [], ◌∷◌, ltb, str_eq, eq_iff, if◌then◌else◌, arith, Bool-cases, inl, inr,
}
use mathlib.Core.Bool.{false≢true}
use ytdlbot.Disk.Markers.{
  Marker, World, LeaseError, runtime_error, Outcome, ok, fails, world_of, ◌>>=◌, set_marker,
  has_path, add_path, drop_path, is_foreign, write_marker, owns, assert_owner, remove_marker, bind,
  rebind_bound, rebind, renew_all, renew, unbind, release_all, finish_release,
}

-- A live marker of another owner than the holder, at some time.
pub record Watch : Type 0 where
  pub owner : String
  pub path : String
  pub m : Marker
  pub now : ℕ
  pub foreign : str_eq m.owner owner ≡ false
  pub alive : now < m.expires_at

-- The marker stands, and the holder is who it was.
pub record Stands (owner path : String) (m : Marker) (w : World) : Type 0 where
  pub holder : w.holder.owner ≡ owner
  pub marker : w.files.marker path ≡ some m

module _ (o : Watch) where
  open o use {owner, path, m, now, foreign, alive}

  abbrev pub Kept : Outcome → Type 0
  Kept r = Stands owner path m (world_of r)

  pub Kept->>= :
      (r : Outcome) (f : World → Outcome)
      → Kept r
      → ((w : World) → Stands owner path m w → Kept (f w))
      → Kept (r >>= f)
  Kept->>= (ok w) f h k = k w h
  Kept->>= (fails e w) f h k = h

  pub Stands-drop_path :
      (w : World) (p : String) → Stands owner path m w → Stands owner path m (drop_path w p)
  unfolding drop_path
  Stands-drop_path w p h = record { holder = h.holder; marker = h.marker }

  pub Stands-add_path :
      (w : World) (p : String) → Stands owner path m w → Stands owner path m (add_path w p)
  unfolding add_path
  Stands-add_path w p h = elim (Bool-cases (has_path p w.holder.paths)) [
    | inl old ↦ rw (old, add_path) h
    | inr new ↦ rw (new, add_path) (record { holder = h.holder; marker = h.marker })
  ]

  foreign_seen :
      (w : World) (p : String) (require : Bool)
      → Stands owner path m w
      → str_eq path p ≡ true
      → is_foreign (w.files.marker p) w.holder.owner require now ≡ true
  unfolding is_foreign
  foreign_seen w p require h same =
      ap (λ k. is_foreign k w.holder.owner require now)
        (ap w.files.marker (sym ((eq_iff path p).0 same)) ∙ h.marker)
      ∙ ap (λ a. not (str_eq m.owner a) && (require || ltb now m.expires_at)) h.holder
      ∙ ground (arith, foreign, alive)

  not_owned :
      (w : World) (p : String) → Stands owner path m w → str_eq path p ≡ true → owns w p ≡ false
  unfolding owns
  not_owned w p h same =
      ap (λ (k : Option Marker). elim k [ none ↦ false | some n ↦ str_eq n.owner w.holder.owner ])
        (ap w.files.marker (sym ((eq_iff path p).0 same)) ∙ h.marker)
      ∙ ap (λ a. str_eq m.owner a) h.holder
      ∙ foreign

  pub Stands-set_marker :
      (w : World) (p : String) (k : Option Marker)
      → Stands owner path m w
      → str_eq path p ≡ false
      → Stands owner path m (set_marker w p k)
  Stands-set_marker w p k h other = record { holder = h.holder; marker = rw other h.marker }

  -- The write to another path, or one that is refused.
  pub Kept-write_marker :
      (w : World) (p : String) (require broken : Bool)
      → Stands owner path m w
      → Kept (write_marker w p require now broken)
  unfolding write_marker
  Kept-write_marker w p require broken h = elim (Bool-cases (str_eq path p)) [
    | inl same ↦ rw (foreign_seen w p require h same, write_marker) h
    | inr other ↦ elim (Bool-cases (is_foreign (w.files.marker p) w.holder.owner require now)) [
      | inl refused ↦ rw (refused, write_marker) h
      | inr free ↦ elim (Bool-cases broken) [
        | inl fault ↦ rw (free, fault, write_marker) h
        | inr works ↦
            rw (free, works, write_marker)
              (Stands-set_marker w p
                (some (record { owner = w.holder.owner; expires_at = now + w.holder.lease_ttl })) h
                other)
      ]
    ]
  ]

  pub Kept-remove_marker :
      (w : World) (p : String) (broken : Bool)
      → Stands owner path m w
      → Kept (remove_marker w p broken)
  unfolding remove_marker
  Kept-remove_marker w p broken h = elim (Bool-cases (owns w p)) [
    | inl mine ↦ elim (Bool-cases (str_eq path p)) [
      | inl same ↦ absurd (false≢true (sym (not_owned w p h same) ∙ mine))
      | inr other ↦ elim (Bool-cases broken) [
        | inl fault ↦ rw (mine, fault, remove_marker) h
        | inr works ↦ rw (mine, works, remove_marker) (Stands-set_marker w p none h other)
      ]
    ]
    | inr not_mine ↦ rw (not_mine, remove_marker) h
  ]

  pub Kept-assert_owner : (w : World) (p : String) → Stands owner path m w → Kept (assert_owner w p)
  unfolding assert_owner
  Kept-assert_owner w p h = elim (Bool-cases (owns w p)) [
    | inl mine ↦ rw (mine, assert_owner) h
    | inr not_mine ↦ rw (not_mine, assert_owner) h
  ]

  pub Kept-if : (b : Bool) (r s : Outcome) → Kept r → Kept s → Kept (if b then r else s)
  Kept-if true r s h k = h
  Kept-if false r s h k = k

  pub Kept-cases :
      (r : Outcome) (f : World → Outcome) (g : LeaseError → World → Outcome)
      → Kept r
      → ((w : World) → Stands owner path m w → Kept (f w))
      → ((e : LeaseError) (w : World) → Stands owner path m w → Kept (g e w))
      → Kept (elim r [ ok w ↦ f w | fails e w ↦ g e w ])
  Kept-cases (ok w) f g h k l = k w h
  Kept-cases (fails e w) f g h k l = l e w h

  pub Kept-bind :
      (w : World) (p : String) (broken : Bool) → Stands owner path m w → Kept (bind w p now broken)
  unfolding bind
  Kept-bind w p broken h =
      Kept-if w.holder.released (fails runtime_error w)
        (write_marker w p false now broken >>= λ w'. ok (add_path w' p)) h
        (Kept->>= (write_marker w p false now broken) (λ w'. ok (add_path w' p))
          (Kept-write_marker w p false broken h) (λ w' h'. Stands-add_path w' p h'))

  pub Kept-unbind :
      (w : World) (p : String) (broken : Bool) → Stands owner path m w → Kept (unbind w p broken)
  unfolding unbind
  Kept-unbind w p broken h =
      Kept-if (has_path p w.holder.paths) (remove_marker w p broken >>= λ w'. ok (drop_path w' p))
        (ok w)
        (Kept->>= (remove_marker w p broken) (λ w'. ok (drop_path w' p))
          (Kept-remove_marker w p broken h) (λ w' h'. Stands-drop_path w' p h'))
        h

  pub Kept-renew_all :
      (broken : String → Bool) (paths : List String) (w : World)
      → Stands owner path m w
      → Kept (renew_all paths w now broken)
  unfolding renew_all
  Kept-renew_all broken [] w h = h
  Kept-renew_all broken (p ∷ paths) w h =
      Kept->>= (write_marker w p true now (broken p)) (λ w'. renew_all paths w' now broken)
        (Kept-write_marker w p true (broken p) h) (λ w' h'. Kept-renew_all broken paths w' h')

  pub Kept-renew :
      (w : World) (broken : String → Bool) → Stands owner path m w → Kept (renew w now broken)
  unfolding renew
  Kept-renew w broken h =
      Kept-if w.holder.released (fails runtime_error w) (renew_all w.holder.paths w now broken) h
        (Kept-renew_all broken w.holder.paths w h)

  pub Kept-rebind_bound :
      (w : World) (old new : String) (broken stuck : Bool)
      → Stands owner path m w
      → Kept (rebind_bound w old new now broken stuck)
  unfolding rebind_bound
  Kept-rebind_bound w old new broken stuck h =
      Kept->>= (assert_owner w old) _ (Kept-assert_owner w old h) λ w₁ h₁.
        Kept->>= (write_marker w₁ new false now broken) _ (Kept-write_marker w₁ new false broken h₁)
          λ w₂ h₂.
            Kept-cases (remove_marker (add_path w₂ new) old stuck) _ _
              (Kept-remove_marker (add_path w₂ new) old stuck (Stands-add_path w₂ new h₂))
              (λ w₃ h₃. Stands-drop_path w₃ old h₃)
              (λ e w₃ h₃.
                Kept->>= (remove_marker w₃ new false) (λ w₄. fails e (drop_path w₄ new))
                  (Kept-remove_marker w₃ new false h₃) (λ w₄ h₄. Stands-drop_path w₄ new h₄))

  pub Kept-rebind :
      (w : World) (old new : String) (broken stuck : Bool)
      → Stands owner path m w
      → Kept (rebind w old new now broken stuck)
  unfolding rebind
  Kept-rebind w old new broken stuck h = Kept-if w.holder.released _ _ h (
      Kept-if (has_path old w.holder.paths) _ _ (Kept-rebind_bound w old new broken stuck h) (
        Kept->>= (write_marker w new false now broken) (λ w'. ok (add_path w' new))
          (Kept-write_marker w new false broken h) (λ w' h'. Stands-add_path w' new h')))

  pub Stands-release_all :
      (locked broken : String → Bool) (paths : List String) (w : World)
      → Stands owner path m w
      → Stands owner path m (release_all locked broken paths w)
  unfolding release_all
  Stands-release_all locked broken [] w h = h
  Stands-release_all locked broken (p ∷ paths) w h = elim (Bool-cases (locked p)) [
    | inl skip ↦ rw (skip, release_all) (Stands-release_all locked broken paths w h)
    | inr free ↦
        rw (free, release_all)
          (go (remove_marker w p (broken p)) (Kept-remove_marker w p (broken p) h)
            (λ w' h'. Stands-release_all locked broken paths w' h'))
  ]
    where
      go :
          (r : Outcome)
          → Kept r
          → ((w' : World)
              → Stands owner path m w'
              → Stands owner path m (release_all locked broken paths w'))
          → Stands owner path m
              (elim r [ ok w' ↦ release_all locked broken paths w' | fails e w' ↦ w' ])
      go (ok w') k next = next w' k
      go (fails e w') k next = k

  pub Stands-finish_release :
      (locked broken : String → Bool) (w : World)
      → Stands owner path m w
      → Stands owner path m (finish_release locked broken w)
  unfolding finish_release
  Stands-finish_release locked broken w h =
      let k = Stands-release_all locked broken w.holder.paths w h in
      record { holder = k.holder; marker = k.marker }
