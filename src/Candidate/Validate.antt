-- ===== src/Candidate/Validate.antt =====
-- `validate_candidate` and `_kind_is_compatible`.
use ytdlbot.Prelude.{
  ℕ, zero, Bool, true, false, not, ◌&&◌, ◌||◌, Option, none, some, String, List, [], ◌∷◌, ◌++◌,
  str_eq, if◌then◌else◌, any, length, ltb, leb, min,
}
use ytdlbot.Candidate.Records.{
  MediaKind, auto, video, audio, photo, animation, album, Index, pos, negsuc, MediaItem,
  MediaRequest, MediaCandidate, kind_eq,
}

pub data CandidateRejectionReason : Type 0 where
  media_id_mismatch video_unavailable kind_mismatch album_incomplete album_selection_unavailable
        watermark_present watermark_unknown quality_too_low audio_unavailable
        audio_format_unavailable audio_language_unavailable auth_scope_mismatch :
      CandidateRejectionReason

pub record CandidateValidationResult : Type 0 where
  pub usable : Bool
  pub reasons : List CandidateRejectionReason

-- `if test: reasons.append(reason)`
abbrev pub reject_if : Bool → CandidateRejectionReason → List CandidateRejectionReason
reject_if true reason = reason ∷ []
reject_if false reason = []

unfoldable pub is_other_media : MediaRequest → Option String → Bool
is_other_media request none = false
is_other_media request (some id) = not (str_eq id request.media_id)

unfoldable pub kind_is_compatible : MediaKind → Option MediaKind → Bool
unfolding kind_eq
kind_is_compatible auto none = true
kind_is_compatible video none = true
kind_is_compatible audio none = true
kind_is_compatible _ none = false
kind_is_compatible auto (some offered) =
    kind_eq offered video
    || (kind_eq offered photo || (kind_eq offered animation || kind_eq offered album))
kind_is_compatible audio (some offered) = kind_eq offered audio || kind_eq offered video
kind_is_compatible kind (some offered) = kind_eq offered kind

unfoldable pub offers_kind : MediaCandidate → MediaKind → Bool
unfolding kind_eq
offers_kind candidate kind = elim candidate.kind [ none ↦ false | some k ↦ kind_eq k kind ]

-- `index < 0 or index >= len(candidate.items)`
unfoldable pub is_out_of_range : ℕ → Index → Bool
is_out_of_range n (pos i) = leb n i
is_out_of_range n (negsuc _) = true

-- A selection of a candidate without items: only `(0,)`, and the empty one, which is falsy.
unfoldable pub selects_more_than_first : List Index → Bool
selects_more_than_first [] = false
selects_more_than_first (pos zero ∷ []) = false
selects_more_than_first _ = true

unfoldable pub is_selection_unavailable : List Index → List MediaItem → Bool
unfolding is_out_of_range selects_more_than_first
is_selection_unavailable selection [] = selects_more_than_first selection
is_selection_unavailable selection (item ∷ items) =
    any (is_out_of_range (length (item ∷ items))) selection

unfoldable pub watermark_reasons : Bool → Option Bool → List CandidateRejectionReason
watermark_reasons false _ = []
watermark_reasons true (some true) = []
watermark_reasons true (some false) = watermark_present ∷ []
watermark_reasons true none = watermark_unknown ∷ []

-- `size or 0`
abbrev pub or_zero : Option ℕ → ℕ
or_zero none = 0
or_zero (some n) = n

unfoldable pub is_quality_too_low : MediaRequest → MediaCandidate → Bool
unfolding kind_eq
is_quality_too_low request candidate = elim request.quality.max_edge [
  | none ↦ false
  | some edge ↦
      not (kind_eq request.kind audio)
      && ltb (min (or_zero candidate.width) (or_zero candidate.height)) edge
]

abbrev pub is_given : Option String → Bool
is_given none = false
is_given (some _) = true

-- `wanted and wanted not in offered`: an empty text is falsy.
unfoldable pub is_missing : Option String → List String → Bool
is_missing none offered = false
is_missing (some wanted) offered =
    not (str_eq wanted "") && not (any (λ o. str_eq o wanted) offered)

unfoldable pub audio_requested : MediaRequest → Bool
unfolding kind_eq
audio_requested request =
    kind_eq request.kind audio || (is_given request.audio_format || is_given request.audio_language)

unfoldable pub audio_reasons : MediaRequest → MediaCandidate → List CandidateRejectionReason
unfolding audio_requested is_missing
audio_reasons request candidate =
    if audio_requested request && not candidate.has_audio
    then audio_unavailable ∷ []
    else if is_missing request.audio_format candidate.audio_formats
    then audio_format_unavailable ∷ []
    else if is_missing request.audio_language candidate.audio_languages
    then audio_language_unavailable ∷ []
    else []

-- The appends of `validate_candidate`, in its order.
unfoldable pub rejection_reasons : MediaRequest → MediaCandidate → List CandidateRejectionReason
unfolding is_other_media kind_is_compatible offers_kind is_selection_unavailable watermark_reasons
    is_quality_too_low audio_reasons kind_eq
rejection_reasons request candidate =
    reject_if (is_other_media request candidate.media_id) media_id_mismatch
    ++ (reject_if (not (str_eq candidate.auth_scope request.auth_scope)) auth_scope_mismatch
        ++ (reject_if (not (kind_is_compatible request.kind candidate.kind)) kind_mismatch
            ++ (reject_if
                  (request.exact
                    && (not candidate.complete
                        && (kind_eq request.kind album || offers_kind candidate album)))
                  album_incomplete
                ++ (reject_if (is_selection_unavailable request.album_selection candidate.items)
                      album_selection_unavailable
                    ++ (watermark_reasons (request.exact && not request.watermark_allowed)
                          candidate.watermark_free
                        ++ (reject_if (kind_eq request.kind video && not candidate.has_video)
                              video_unavailable
                            ++ (reject_if (is_quality_too_low request candidate) quality_too_low
                                ++ audio_reasons request candidate)))))))

abbrev pub is_empty {ℓ} : {A : Type ℓ} → List A → Bool
is_empty [] = true
is_empty (_ ∷ _) = false

unfoldable pub validate_candidate : MediaRequest → MediaCandidate → CandidateValidationResult
unfolding rejection_reasons
validate_candidate request candidate = record {
  usable = is_empty (rejection_reasons request candidate);
  reasons = rejection_reasons request candidate;
}
