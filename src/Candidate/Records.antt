-- ===== src/Candidate/Records.antt =====
-- The request and the candidate, with the fields that the validation reads
-- (app/services/media/models.py).
use ytdlbot.Prelude.{
  ℕ, zero, suc, Bool, true, Option, String, List, ◌==◌, ==_iff, ◌≡◌, refl, sym, ap, ◌∙◌,
}

pub data MediaKind : Type 0 where
  auto video audio photo animation document album : MediaKind

pub record QualityPolicy : Type 0 where
  pub max_edge : Option ℕ

-- `album_selection` has integers: those below zero are never in range.
pub data Index : Type 0 where
  pos : ℕ → Index
  negsuc : ℕ → Index

pub record MediaRequest : Type 0 where
  pub media_id : String
  pub kind : MediaKind
  pub quality : QualityPolicy
  pub audio_format : Option String
  pub audio_language : Option String
  pub album_selection : List Index
  pub watermark_allowed : Bool
  pub auth_scope : String
  pub exact : Bool

pub record MediaItem : Type 0 where
  pub media_id : String
  pub kind : MediaKind
  pub url : String

pub record MediaCandidate : Type 0 where
  pub width : Option ℕ
  pub height : Option ℕ
  pub has_video : Bool
  pub has_audio : Bool
  pub audio_formats : List String
  pub audio_languages : List String
  pub complete : Bool
  pub media_id : Option String
  pub kind : Option MediaKind
  pub items : List MediaItem
  pub auth_scope : String
  pub watermark_free : Option Bool

index : MediaKind → ℕ
index auto = 0
index video = 1
index audio = 2
index photo = 3
index animation = 4
index document = 5
index album = 6

kind_of : ℕ → MediaKind
kind_of zero = auto
kind_of (suc zero) = video
kind_of (suc (suc zero)) = audio
kind_of (suc (suc (suc zero))) = photo
kind_of (suc (suc (suc (suc zero)))) = animation
kind_of (suc (suc (suc (suc (suc zero))))) = document
kind_of _ = album

kind_of-index : (k : MediaKind) → kind_of (index k) ≡ k
unfolding kind_of index
kind_of-index auto = refl
kind_of-index video = refl
kind_of-index audio = refl
kind_of-index photo = refl
kind_of-index animation = refl
kind_of-index document = refl
kind_of-index album = refl

-- `is` on two kinds.
unfoldable pub kind_eq : MediaKind → MediaKind → Bool
unfolding index
kind_eq a b = index a == index b

pub kind_eq_path : (a b : MediaKind) → kind_eq a b ≡ true → a ≡ b
unfolding kind_eq
kind_eq_path a b h =
    sym (kind_of-index a) ∙ ap kind_of ((==_iff (index a) (index b)).0 h) ∙ kind_of-index b

pub kind_eq_refl : (a : MediaKind) → kind_eq a a ≡ true
unfolding kind_eq
kind_eq_refl a = (==_iff (index a) (index a)).1 refl
