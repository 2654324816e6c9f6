-- ===== src/Candidate/Complete.antt =====
-- Nothing but what the request asks for makes a candidate unusable.
use ytdlbot.Prelude.{
  ℕ, ◌≡◌, ◌≤◌, inl, inr, refl, sym, ◌∙◌, Bool, true, false, not, ◌&&◌, ◌||◌, Option, none, some,
  String, List, [], ◌∷◌, ◌++◌, str_eq, eq_iff, any, length, arith, All, Bool-cases, Option-cases,
  ltb, min,
}
use mathlib.Core.Bool.{false≢true}
use ytdlbot.Candidate.Records.{
  MediaKind, auto, video, audio, photo, animation, document, album, Index, pos, negsuc, MediaItem,
  MediaRequest, MediaCandidate, kind_eq, kind_eq_path, kind_eq_refl,
}
use ytdlbot.Candidate.Validate.{
  CandidateRejectionReason, reject_if, is_other_media, kind_is_compatible, offers_kind,
  is_out_of_range, selects_more_than_first, is_selection_unavailable, watermark_reasons, or_zero,
  is_quality_too_low, is_given, is_missing, audio_requested, audio_reasons, is_empty,
  validate_candidate, rejection_reasons,
}
use ytdlbot.Candidate.Serves.{Serves, Offers, IsInRange, Selects, IsAmong}

empty_join {ℓ} :
    {A : Type ℓ} (xs ys : List A)
    → is_empty xs ≡ true
    → is_empty ys ≡ true
    → is_empty (xs ++ ys) ≡ true
empty_join [] ys h k = k
empty_join (x ∷ xs) ys h k = absurd cc

not_rejected :
    (b : Bool) (r : CandidateRejectionReason) → b ≡ false → is_empty (reject_if b r) ≡ true
not_rejected b r h = rw h refl

same_text : (a b : String) → a ≡ b → not (str_eq a b) ≡ false
same_text a b h = rw ((eq_iff a b).1 h) refl

media_complete :
    (request : MediaRequest) (offered : Option String)
    → ((id : String) → offered ≡ some id → id ≡ request.media_id)
    → is_other_media request offered ≡ false
unfolding is_other_media
media_complete request none h = refl
media_complete request (some x) h = same_text x request.media_id (h x refl)

kind_complete :
    (wanted : MediaKind) (offered : Option MediaKind)
    → Offers wanted offered
    → not (kind_is_compatible wanted offered) ≡ false
unfolding kind_is_compatible kind_eq
kind_complete wanted none (inl e) = rw e refl
kind_complete wanted none (inr (inl e)) = rw e refl
kind_complete wanted none (inr (inr e)) = rw e refl
kind_complete auto (some k) (inl (e, n)) = absurd (n refl)
kind_complete video (some k) (inl (e, n)) = rw e refl
kind_complete audio (some k) (inl (e, n)) = rw e refl
kind_complete photo (some k) (inl (e, n)) = rw e refl
kind_complete animation (some k) (inl (e, n)) = rw e refl
kind_complete document (some k) (inl (e, n)) = rw e refl
kind_complete album (some k) (inl (e, n)) = rw e refl
kind_complete wanted (some k) (inr (inl (e, f))) = rw (e, f) refl
kind_complete wanted (some k) (inr (inr (e, inl f))) = rw (e, f) refl
kind_complete wanted (some k) (inr (inr (e, inr (inl f)))) = rw (e, f) refl
kind_complete wanted (some k) (inr (inr (e, inr (inr (inl f))))) = rw (e, f) refl
kind_complete wanted (some k) (inr (inr (e, inr (inr (inr f))))) = rw (e, f) refl

offers_kind_path :
    (candidate : MediaCandidate) (kind : MediaKind)
    → offers_kind candidate kind ≡ true
    → candidate.kind ≡ some kind
unfolding offers_kind
offers_kind_path candidate kind h = elim (Option-cases candidate.kind) [
  | inl e ↦ absurd (false≢true (rw (e, offers_kind) at h))
  | inr (k, e) ↦ e ∙ rw (kind_eq_path k kind (rw (e, offers_kind) at h)) refl
]

module _ (request : MediaRequest) (candidate : MediaCandidate) (s : Serves request candidate) where
  whole_complete :
      (request.exact
        && (not candidate.complete && (kind_eq request.kind album || offers_kind candidate album)))
      ≡ false
  whole_complete = elim (Bool-cases request.exact) [
    | inr loose ↦ ground arith
    | inl exact ↦ elim (Bool-cases (kind_eq request.kind album)) [
      | inl asked ↦ ground (arith, s.whole exact (inl (kind_eq_path request.kind album asked)))
      | inr other ↦ elim (Bool-cases (offers_kind candidate album)) [
        | inl given ↦ ground (arith, s.whole exact (inr (offers_kind_path candidate album given)))
        | inr single ↦ ground arith
      ]
    ]
  ]

  clean_complete :
      is_empty (
        watermark_reasons (request.exact && not request.watermark_allowed) candidate.watermark_free)
      ≡ true
  unfolding watermark_reasons
  clean_complete = elim (Bool-cases request.exact) [
    | inr loose ↦ rw loose refl
    | inl exact ↦ elim (Bool-cases request.watermark_allowed) [
      | inl allowed ↦ rw (exact, allowed) refl
      | inr strict ↦ rw (exact, strict, s.clean exact strict) refl
    ]
  ]

  pictures_complete : (kind_eq request.kind video && not candidate.has_video) ≡ false
  pictures_complete = elim (Bool-cases (kind_eq request.kind video)) [
    | inl same ↦ ground (arith, s.pictures (kind_eq_path request.kind video same))
    | inr other ↦ ground arith
  ]

  sharp_complete : is_quality_too_low request candidate ≡ false
  unfolding is_quality_too_low
  sharp_complete = elim (Option-cases request.quality.max_edge) [
    | inl any_edge ↦ rw (any_edge, is_quality_too_low) refl
    | inr (edge, e) ↦ elim (Bool-cases (kind_eq request.kind audio)) [
      | inl sound ↦ rw (e, sound, is_quality_too_low) refl
      | inr other ↦
          let (wide, high) = s.sharp edge e (λ k. other_kind request.kind other k) in
          rw (e, other, is_quality_too_low)
            (long_enough (or_zero candidate.width) (or_zero candidate.height) edge wide high)
    ]
  ]
    where
      other_kind : (k : MediaKind) → kind_eq k audio ≡ false → k ≡ audio → ⊥
      other_kind k n e = false≢true (sym n ∙ rw e (kind_eq_refl audio))

      long_enough : (a b edge : ℕ) → edge ≤ a → edge ≤ b → ltb (min a b) edge ≡ false
      long_enough a b edge h k = let bound : edge ≤ min a b = omega arith in ground arith

  audible_complete : (audio_requested request && not candidate.has_audio) ≡ false
  unfolding audio_requested
  audible_complete = elim (Bool-cases (kind_eq request.kind audio)) [
    | inl sound ↦ ground (arith, s.audible (inl (kind_eq_path request.kind audio sound)))
    | inr other ↦ elim (Bool-cases (is_given request.audio_format)) [
      | inl given ↦ ground (arith, s.audible (inr (inl given)))
      | inr any_format ↦ elim (Bool-cases (is_given request.audio_language)) [
        | inl given ↦ ground (arith, s.audible (inr (inr given)))
        | inr any_language ↦ ground arith
      ]
    ]
  ]

in_range_complete :
    (n : ℕ) (selection : List Index)
    → All (IsInRange n) selection
    → any (is_out_of_range n) selection ≡ false
unfolding is_out_of_range
in_range_complete n [] h = refl
in_range_complete n (pos i ∷ selection) h =
    let below = h.0 in ground (arith, in_range_complete n selection h.1)
in_range_complete n (negsuc i ∷ selection) h = absurd h.0

selected_complete :
    (selection : List Index) (items : List MediaItem)
    → Selects selection items
    → is_selection_unavailable selection items ≡ false
unfolding is_selection_unavailable selects_more_than_first
selected_complete selection [] (inl e) = rw e refl
selected_complete selection [] (inr e) = rw e refl
selected_complete selection (item ∷ items) h = in_range_complete (length (item ∷ items)) selection h

among_complete :
    (wanted : Option String) (offered : List String)
    → IsAmong wanted offered
    → is_missing wanted offered ≡ false
unfolding is_missing
among_complete none offered h = refl
among_complete (some x) offered h = elim (Bool-cases (str_eq x "")) [
  | inl blank ↦ rw blank refl
  | inr full ↦ rw (full, h x refl (λ e. false≢true (sym full ∙ (eq_iff x "").1 e))) refl
]

-- A candidate that serves the request is usable: the validation rejects nothing else.
pub Serves-validate_candidate :
    (request : MediaRequest) (candidate : MediaCandidate)
    → Serves request candidate
    → (validate_candidate request candidate).usable ≡ true
unfolding validate_candidate rejection_reasons audio_reasons
Serves-validate_candidate request candidate s =
    empty_join (reject_if _ _) _
      (not_rejected _ _ (media_complete request candidate.media_id s.same_media))
      (empty_join (reject_if _ _) _
        (not_rejected _ _ (same_text candidate.auth_scope request.auth_scope s.same_scope))
        (empty_join (reject_if _ _) _
          (not_rejected _ _ (kind_complete request.kind candidate.kind s.offered))
          (empty_join (reject_if _ _) _ (not_rejected _ _ (whole_complete request candidate s)) (
            empty_join (reject_if _ _) _
              (not_rejected _ _
                (selected_complete request.album_selection candidate.items s.selected))
              (empty_join (watermark_reasons _ _) _ (clean_complete request candidate s) (
                empty_join (reject_if _ _) _
                  (not_rejected _ _ (pictures_complete request candidate s))
                  (empty_join (reject_if _ _) _
                    (not_rejected _ _ (sharp_complete request candidate s))
                    (rw
                      (
                        audible_complete request candidate s,
                        among_complete request.audio_format candidate.audio_formats s.format,
                        among_complete request.audio_language candidate.audio_languages s.language,
                      )
                      refl))))))))
