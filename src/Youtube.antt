-- ===== src/Youtube.antt =====
-- src/youtube.rs: the choice of a video from parsed search results, and the test for an abbreviation of
-- a name. The children read the answers of YouTube and search.
pub mod Duration
pub mod Parse
pub mod Answers
pub mod Search
pub mod Pick
pub mod Abbreviation
use homeassistant_local_voic.Base.{
  ℕ, ◌+◌, ◌*◌, ◌-◌, Bool, true, false, Option, none, some, List, [], ◌∷◌, not, ◌&&◌, ◌||◌, ltb, leb,
  ◌==◌, all, drop, ◌>>=◌, if◌then◌else◌,
}
use homeassistant_local_voic.Base.Text.{
  Text, codes, split, trim, strip_prefix, is_ascii_digit, is_empty,
}

abbrev pub long_mix_secs : ℕ
long_mix_secs = 20 * 60

pub record Video : Type 0 where
  pub id : Text
  pub title : Text
  pub channel : Text
  pub duration_secs : Option ℕ
  pub live : Bool
  pub upcoming : Bool
  pub short : Bool

pub record Channel : Type 0 where
  pub channel_id : Text
  pub channel_title : Text
  pub handle : Text

pub data Item : Type 0 where
  video : Video → Item
  channel_item : Channel → Item

pub data Kind : Type 0 where
  channel_latest : Kind
  live_stream : Kind
  mix : Kind
  single : Kind

-- `is_subsequence`: `any` moves `rest` behind the character that it finds.
unfoldable pub is_subsequence : Text → Text → Bool
is_subsequence [] long = true
is_subsequence (c ∷ short) [] = false
is_subsequence (c ∷ short) (l ∷ long) =
    let found = is_subsequence short long in
    let later = is_subsequence (c ∷ short) long in if l == c then found else later

abbrev pub playable : Video → Bool
playable v = not v.short && not v.upcoming

abbrev pub is_long : Option ℕ → Bool
is_long none = false
is_long (some d) = leb long_mix_secs d

-- The closure `videos`.
unfoldable pub videos : List Item → List Video
videos [] = []
videos (channel_item c ∷ items) = videos items
videos (video v ∷ items) = let rest = videos items in if playable v then v ∷ rest else rest

unfoldable pub find_long : List Video → Option Video
find_long [] = none
find_long (v ∷ vs) =
    let rest = find_long vs in if v.live || is_long v.duration_secs then some v else rest

abbrev first_of : List Video → Option (Kind × Video)
first_of [] = none
first_of (v ∷ vs) = some (if v.live then live_stream else single, v)

unfoldable pub pick_from_search : List Item → Bool → Option (Kind × Video)
unfolding videos find_long
pick_from_search items genre =
    let first = first_of (videos items) in
    if genre
    then elim (find_long (videos items)) [
      | none ↦ first
      | some v ↦ some (if v.live then live_stream else mix, v)
    ]
    else first
