-- ===== src/Candidate/Usable.antt =====
-- Only candidates that serve the request are usable.
use ytdlbot.Prelude.{
  ◌≡◌, true, false, not, ◌&&◌, ◌||◌, str_eq, eq_iff, arith, Bool, Bool-cases, inl, inr, ap, ◌≢◌,
}
use ytdlbot.Candidate.Records.{
  MediaKind, MediaRequest, MediaCandidate, kind_eq, album, video, audio, kind_eq_path, kind_eq_refl,
}
use ytdlbot.Candidate.Validate.{
  reject_if, media_id_mismatch, auth_scope_mismatch, kind_mismatch, album_incomplete,
  album_selection_unavailable, video_unavailable, quality_too_low, is_other_media,
  kind_is_compatible, offers_kind, is_selection_unavailable, is_quality_too_low, watermark_reasons,
  validate_candidate, rejection_reasons,
}
use ytdlbot.Candidate.Serves.{
  Serves, empty_append, rejected_not, same_media_lem, offers_lem, whole_lem, clean_lem, sharp_lem,
  audible_lem, selected_lem, formats_lem, languages_lem,
}

negated : (b : Bool) → not b ≡ false → b ≡ true
negated b h = ground arith

-- A candidate that the validation calls usable serves the request: if it names its medium, it is the
-- one that was asked for; it is in the scope of the request's authorization; its kind is one that the
-- request accepts; an exact request gets an album whole, whether it asks for one or is offered one,
-- and an exact request that allows no watermark gets a candidate that is known to have none; a request
-- for video gets video; a request for audio, or with an audio format or language, gets sound, in the
-- format and language that were asked for (empty texts ask for none); where a short edge was asked
-- for and the request is not for audio, both edges are as long, and an unknown edge counts as zero;
-- and every selected item exists, where a candidate without items counts as one item.
pub validate_candidate-Serves :
    (request : MediaRequest) (candidate : MediaCandidate)
    → (validate_candidate request candidate).usable ≡ true
    → Serves request candidate
unfolding validate_candidate rejection_reasons
validate_candidate-Serves request candidate h =
    let r₁ =
      empty_append (reject_if (is_other_media request candidate.media_id) media_id_mismatch) _ h in
    let r₂ =
      empty_append
        (reject_if (not (str_eq candidate.auth_scope request.auth_scope)) auth_scope_mismatch) _
        r₁.1 in
    let r₃ =
      empty_append (reject_if (not (kind_is_compatible request.kind candidate.kind)) kind_mismatch)
        _ r₂.1 in
    let whole =
      request.exact
      && (not candidate.complete && (kind_eq request.kind album || offers_kind candidate album)) in
    let r₄ = empty_append (reject_if whole album_incomplete) _ r₃.1 in
    let selection = is_selection_unavailable request.album_selection candidate.items in
    let r₅ = empty_append (reject_if selection album_selection_unavailable) _ r₄.1 in
    let strict = request.exact && not request.watermark_allowed in
    let r₆ = empty_append (watermark_reasons strict candidate.watermark_free) _ r₅.1 in
    let blind = kind_eq request.kind video && not candidate.has_video in
    let r₇ = empty_append (reject_if blind video_unavailable) _ r₆.1 in
    let r₈ =
      empty_append (reject_if (is_quality_too_low request candidate) quality_too_low) _ r₇.1 in
    record {
      same_media = λ id.
          same_media_lem request candidate.media_id id
            (rejected_not (is_other_media request candidate.media_id) media_id_mismatch r₁.0);
      same_scope = (eq_iff candidate.auth_scope request.auth_scope).0 (
          negated (str_eq candidate.auth_scope request.auth_scope) (
            rejected_not (not (str_eq candidate.auth_scope request.auth_scope)) auth_scope_mismatch
              r₂.0));
      offered = offers_lem request.kind candidate.kind (
          negated (kind_is_compatible request.kind candidate.kind) (
            rejected_not (not (kind_is_compatible request.kind candidate.kind)) kind_mismatch
              r₃.0));
      whole = whole_lem request candidate (rejected_not whole album_incomplete r₄.0);
      selected =
          selected_lem request.album_selection candidate.items
            (rejected_not selection album_selection_unavailable r₅.0);
      clean = λ exact strictly. clean_lem strict candidate.watermark_free r₆.0 (ground arith);
      pictures = λ k. pictures_lem request candidate (rejected_not blind video_unavailable r₇.0) k;
      sharp = λ edge e k.
          sharp_lem request candidate edge
            (rejected_not (is_quality_too_low request candidate) quality_too_low r₈.0) e
            (not_kind request.kind k);
      audible = audible_lem request candidate r₈.1;
      format = formats_lem request candidate r₈.1;
      language = languages_lem request candidate r₈.1;
    }
  where
    pictures_lem :
        (request : MediaRequest) (candidate : MediaCandidate)
        → (kind_eq request.kind video && not candidate.has_video) ≡ false
        → request.kind ≡ video
        → candidate.has_video ≡ true
    pictures_lem request candidate h k =
        ground (arith, ap (λ x. kind_eq x video) k, kind_eq_refl video)

    not_kind : (k : MediaKind) → k ≢ audio → kind_eq k audio ≡ false
    not_kind k n = elim (Bool-cases (kind_eq k audio)) [
      | inl same ↦ absurd (n (kind_eq_path k audio same))
      | inr other ↦ other
    ]
