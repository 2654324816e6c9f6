-- ===== src/Candidate/Examples.antt =====
-- The validation at concrete requests and candidates.
use ytdlbot.Prelude.{◌≡◌, refl, true, false, none, some, [], ◌∷◌}
use ytdlbot.Candidate.Records.{MediaRequest, MediaCandidate, video, kind_eq}
use ytdlbot.Candidate.Validate.{
  validate_candidate, rejection_reasons, audio_reasons, audio_requested, is_missing,
  is_quality_too_low, watermark_reasons, is_selection_unavailable, selects_more_than_first,
  is_out_of_range, offers_kind, kind_is_compatible, is_other_media, quality_too_low,
  watermark_unknown, audio_language_unavailable,
}
use ytdlbot.Candidate.Serves.{Serves}
use ytdlbot.Candidate.Usable
use ytdlbot.Candidate.Complete

program : Unit {0}
unfolding validate_candidate rejection_reasons audio_reasons audio_requested is_missing
    is_quality_too_low watermark_reasons is_selection_unavailable selects_more_than_first
    is_out_of_range offers_kind kind_is_compatible is_other_media kind_eq
program = tt

abbrev german_short : MediaRequest
german_short = record {
  media_id = "abc";
  kind = video;
  quality = record { max_edge = some 720 };
  audio_format = none;
  audio_language = some "de";
  album_selection = [];
  watermark_allowed = false;
  auth_scope = "public";
  exact = true;
}

abbrev dubbed : MediaCandidate
dubbed = record {
  width = some 1280;
  height = some 720;
  has_video = true;
  has_audio = true;
  audio_formats = [];
  audio_languages = "en" ∷ "de" ∷ [];
  complete = true;
  media_id = some "abc";
  kind = some video;
  items = [];
  auth_scope = "public";
  watermark_free = some true;
}

rejection_test :
    (validate_candidate german_short
      (record dubbed { height = none; watermark_free = none; audio_languages = "en" ∷ [] })).reasons
    ≡ watermark_unknown ∷ quality_too_low ∷ audio_language_unavailable ∷ []
unfolding program
rejection_test = refl

validate_candidate-Serves_example : Serves german_short dubbed
unfolding program
validate_candidate-Serves_example = Usable.validate_candidate-Serves german_short dubbed refl

Serves-validate_candidate_example : (validate_candidate german_short dubbed).usable ≡ true
Serves-validate_candidate_example =
    Complete.Serves-validate_candidate german_short dubbed validate_candidate-Serves_example
