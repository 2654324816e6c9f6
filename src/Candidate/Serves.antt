-- ===== src/Candidate/Serves.antt =====
-- What a usable candidate promises to the request.
use ytdlbot.Prelude.{
  ℕ, ◌≡◌, ◌≢◌, ◌≤◌, ◌<◌, ◌⊎◌, inl, inr, refl, sym, ◌∙◌, ap, Bool, true, false, not, ◌&&◌, ◌||◌,
  Option, none, some, String, List, [], ◌∷◌, ◌++◌, str_eq, eq_iff, any, length, arith, All,
  some_path, zero, suc, Bool-cases, ltb, min,
}
use mathlib.Core.Bool.{false≢true}
use ytdlbot.Candidate.Records.{
  MediaKind, auto, video, audio, photo, animation, document, album, Index, pos, negsuc, MediaItem,
  MediaRequest, MediaCandidate, kind_eq, kind_eq_path, kind_eq_refl,
}
use ytdlbot.Candidate.Validate.{
  reject_if, is_other_media, kind_is_compatible, offers_kind, is_out_of_range,
  selects_more_than_first, is_selection_unavailable, watermark_reasons, or_zero, is_quality_too_low,
  is_given, is_missing, audio_requested, audio_reasons, is_empty, CandidateRejectionReason,
}

-- The kinds that serve a request of some kind.
abbrev pub Offers : MediaKind → Option MediaKind → Type 0
Offers wanted none = (wanted ≡ auto) ⊎ ((wanted ≡ video) ⊎ (wanted ≡ audio))
Offers wanted (some k) =
    ((k ≡ wanted) × (wanted ≢ auto))
    ⊎ (((wanted ≡ audio) × (k ≡ video))
        ⊎ ((wanted ≡ auto) × ((k ≡ video) ⊎ ((k ≡ photo) ⊎ ((k ≡ animation) ⊎ (k ≡ album))))))

abbrev pub IsInRange : ℕ → Index → Type 0
IsInRange n (pos i) = i < n
IsInRange n (negsuc _) = ⊥

-- A candidate without items is one item.
abbrev pub Selects : List Index → List MediaItem → Type 0
Selects selection [] = (selection ≡ []) ⊎ (selection ≡ pos 0 ∷ [])
Selects selection (item ∷ items) = All (IsInRange (length (item ∷ items))) selection

abbrev pub IsAmong : Option String → List String → Type 0
IsAmong wanted offered =
    (w : String) → wanted ≡ some w → w ≢ "" → any (λ o. str_eq o w) offered ≡ true

pub record Serves (request : MediaRequest) (candidate : MediaCandidate) : Type 0 where
  pub same_media : (id : String) → candidate.media_id ≡ some id → id ≡ request.media_id
  pub same_scope : candidate.auth_scope ≡ request.auth_scope
  pub offered : Offers request.kind candidate.kind
  pub whole :
      request.exact ≡ true
      → (request.kind ≡ album) ⊎ (candidate.kind ≡ some album)
      → candidate.complete ≡ true
  pub clean :
      request.exact ≡ true
      → request.watermark_allowed ≡ false
      → candidate.watermark_free ≡ some true
  pub pictures : request.kind ≡ video → candidate.has_video ≡ true
  pub sharp :
      (edge : ℕ)
      → request.quality.max_edge ≡ some edge
      → request.kind ≢ audio
      → (edge ≤ or_zero candidate.width) × (edge ≤ or_zero candidate.height)
  pub audible :
      (request.kind ≡ audio)
        ⊎ ((is_given request.audio_format ≡ true) ⊎ (is_given request.audio_language ≡ true))
      → candidate.has_audio ≡ true
  pub selected : Selects request.album_selection candidate.items
  pub format : IsAmong request.audio_format candidate.audio_formats
  pub language : IsAmong request.audio_language candidate.audio_languages

pub empty_append {ℓ} :
    {A : Type ℓ} (xs ys : List A)
    → is_empty (xs ++ ys) ≡ true
    → (is_empty xs ≡ true) × (is_empty ys ≡ true)
empty_append [] ys h = (refl, h)
empty_append (x ∷ xs) ys h = absurd cc

pub rejected_not :
    (b : Bool) (r : CandidateRejectionReason) → is_empty (reject_if b r) ≡ true → b ≡ false
rejected_not true r h = absurd cc
rejected_not false r h = refl

pub same_media_lem :
    (request : MediaRequest) (offered : Option String) (id : String)
    → is_other_media request offered ≡ false
    → offered ≡ some id
    → id ≡ request.media_id
unfolding is_other_media
same_media_lem request none id h e = absurd cc
same_media_lem request (some x) id h e =
    sym (some_path {a = x} {b = id} e) ∙ (eq_iff x request.media_id).0 same
  where
    same : str_eq x request.media_id ≡ true
    same = ground arith

is_auto : MediaKind → Bool
is_auto auto = true
is_auto _ = false

not_auto : (k : MediaKind) → is_auto k ≡ false → k ≢ auto
unfolding is_auto
not_auto k h e = false≢true (sym h ∙ ap is_auto e)

split_or : (a b : Bool) → (a || b) ≡ true → (a ≡ true) ⊎ (b ≡ true)
split_or true b h = inl refl
split_or false b h = inr h

auto_offers :
    (k : MediaKind)
    → (kind_eq k video || (kind_eq k photo || (kind_eq k animation || kind_eq k album))) ≡ true
    → (k ≡ video) ⊎ ((k ≡ photo) ⊎ ((k ≡ animation) ⊎ (k ≡ album)))
auto_offers k h =
    elim (split_or (kind_eq k video) (kind_eq k photo || (kind_eq k animation || kind_eq k album))
      h) [
        | inl a ↦ inl (kind_eq_path k video a)
        | inr h ↦ elim (split_or (kind_eq k photo) (kind_eq k animation || kind_eq k album) h) [
          | inl a ↦ inr (inl (kind_eq_path k photo a))
          | inr h ↦ elim (split_or (kind_eq k animation) (kind_eq k album) h) [
            | inl a ↦ inr (inr (inl (kind_eq_path k animation a)))
            | inr a ↦ inr (inr (inr (kind_eq_path k album a)))
          ]
        ]
      ]

pub offers_lem :
    (wanted : MediaKind) (offered : Option MediaKind)
    → kind_is_compatible wanted offered ≡ true
    → Offers wanted offered
unfolding kind_is_compatible is_auto
offers_lem auto none h = inl refl
offers_lem video none h = inr (inl refl)
offers_lem audio none h = inr (inr refl)
offers_lem photo none h = absurd cc
offers_lem animation none h = absurd cc
offers_lem document none h = absurd cc
offers_lem album none h = absurd cc
offers_lem auto (some k) h = inr (inr (refl, auto_offers k h))
offers_lem audio (some k) h = elim (split_or (kind_eq k audio) (kind_eq k video) h) [
  | inl a ↦ inl (kind_eq_path k audio a, not_auto audio refl)
  | inr a ↦ inr (inl (refl, kind_eq_path k video a))
]
offers_lem video (some k) h = inl (kind_eq_path k video h, not_auto video refl)
offers_lem photo (some k) h = inl (kind_eq_path k photo h, not_auto photo refl)
offers_lem animation (some k) h = inl (kind_eq_path k animation h, not_auto animation refl)
offers_lem document (some k) h = inl (kind_eq_path k document h, not_auto document refl)
offers_lem album (some k) h = inl (kind_eq_path k album h, not_auto album refl)

pub whole_lem :
    (request : MediaRequest) (candidate : MediaCandidate)
    → (request.exact
        && (not candidate.complete && (kind_eq request.kind album || offers_kind candidate album)))
      ≡ false
    → request.exact ≡ true
    → (request.kind ≡ album) ⊎ (candidate.kind ≡ some album)
    → candidate.complete ≡ true
unfolding offers_kind
whole_lem request candidate h e (inl k) =
    ground (arith, ap (λ x. kind_eq x album) k, kind_eq_refl album)
whole_lem request candidate h e (inr k) = ground (arith, album_offered)
  where
    album_offered : offers_kind candidate album ≡ true
    album_offered = rw (k, offers_kind) (kind_eq_refl album)

pub clean_lem :
    (strict : Bool) (free : Option Bool)
    → is_empty (watermark_reasons strict free) ≡ true
    → strict ≡ true
    → free ≡ some true
unfolding watermark_reasons
clean_lem false free h s = absurd cc
clean_lem true none h s = absurd cc
clean_lem true (some true) h s = refl
clean_lem true (some false) h s = absurd cc

min_bounds : (a b e : ℕ) → ltb (min a b) e ≡ false → (e ≤ a) × (e ≤ b)
min_bounds a b e h = let bound : e ≤ min a b = ground arith in (omega arith, omega arith)

pub sharp_lem :
    (request : MediaRequest) (candidate : MediaCandidate) (edge : ℕ)
    → is_quality_too_low request candidate ≡ false
    → request.quality.max_edge ≡ some edge
    → kind_eq request.kind audio ≡ false
    → (edge ≤ or_zero candidate.width) × (edge ≤ or_zero candidate.height)
unfolding is_quality_too_low
sharp_lem request candidate edge h e k =
    min_bounds (or_zero candidate.width) (or_zero candidate.height) edge
      (rw (e, k, is_quality_too_low) at h)

pub audible_lem :
    (request : MediaRequest) (candidate : MediaCandidate)
    → is_empty (audio_reasons request candidate) ≡ true
    → (request.kind ≡ audio)
      ⊎ ((is_given request.audio_format ≡ true) ⊎ (is_given request.audio_language ≡ true))
    → candidate.has_audio ≡ true
unfolding audio_reasons audio_requested
audible_lem request candidate h (inl k) =
    ground (arith, ap (λ x. kind_eq x audio) k, kind_eq_refl audio)
audible_lem request candidate h (inr (inl k)) = ground arith
audible_lem request candidate h (inr (inr k)) = ground arith

in_range_lem :
    (n : ℕ) (selection : List Index)
    → any (is_out_of_range n) selection ≡ false
    → All (IsInRange n) selection
unfolding is_out_of_range
in_range_lem n [] h = tt
in_range_lem n (pos i ∷ selection) h = (ground arith, in_range_lem n selection (ground arith))
in_range_lem n (negsuc i ∷ selection) h = absurd cc

pub selected_lem :
    (selection : List Index) (items : List MediaItem)
    → is_selection_unavailable selection items ≡ false
    → Selects selection items
unfolding is_selection_unavailable selects_more_than_first
selected_lem [] [] h = inl refl
selected_lem (pos zero ∷ []) [] h = inr refl
selected_lem (pos zero ∷ i ∷ is) [] h = absurd cc
selected_lem (pos (suc n) ∷ is) [] h = absurd cc
selected_lem (negsuc n ∷ is) [] h = absurd cc
selected_lem selection (item ∷ items) h = in_range_lem (length (item ∷ items)) selection h

among_lem :
    (wanted : Option String) (offered : List String)
    → is_missing wanted offered ≡ false
    → IsAmong wanted offered
unfolding is_missing
among_lem none offered h w e n = absurd cc
among_lem (some x) offered h w e n =
    rw (sym (some_path {a = x} {b = w} e)) (elim (Bool-cases (str_eq x "")) [
      | inl blank ↦ absurd (n (sym (some_path {a = x} {b = w} e) ∙ (eq_iff x "").0 blank))
      | inr full ↦ ground arith
    ])

pub format_lem :
    (request : MediaRequest) (candidate : MediaCandidate)
    → is_empty (audio_reasons request candidate) ≡ true
    → (is_missing request.audio_format candidate.audio_formats ≡ false)
      × (is_missing request.audio_language candidate.audio_languages ≡ false)
unfolding audio_reasons
format_lem request candidate h = (ground arith, ground arith)

pub formats_lem :
    (request : MediaRequest) (candidate : MediaCandidate)
    → is_empty (audio_reasons request candidate) ≡ true
    → IsAmong request.audio_format candidate.audio_formats
formats_lem request candidate h =
    among_lem request.audio_format candidate.audio_formats (format_lem request candidate h).0

pub languages_lem :
    (request : MediaRequest) (candidate : MediaCandidate)
    → is_empty (audio_reasons request candidate) ≡ true
    → IsAmong request.audio_language candidate.audio_languages
languages_lem request candidate h =
    among_lem request.audio_language candidate.audio_languages (format_lem request candidate h).1
