-- ===== src/Youtube/Parse.antt =====
-- src/youtube.rs: the videos and channels of an answer of YouTube. `to_uppercase` is the table of std.
use homeassistant_local_voic.Base.{
  ℕ, Bool, false, Option, none, some, List, [], ◌∷◌, ◌++◌, not, ◌||◌, leb, ◌==◌, any, unwrap_or,
  ◌>>=◌, if◌then◌else◌,
}
use homeassistant_local_voic.Base.Text.{
  Text, codes, text_eq, starts_with, concat, trim_start_matches,
}
use homeassistant_local_voic.Json.{
  Value, obj, arr, Fields, field, end, Items, cons, nil, at, as_str, as_array, is_null, to_list,
}
use homeassistant_local_voic.Youtube.{Video, Channel}
use homeassistant_local_voic.Youtube.Duration.{parse_duration}

abbrev pub short_secs : ℕ
short_secs = 60

abbrev pub push_some {ℓ} : {A : Type ℓ} → Option A → List A → List A
push_some none xs = xs
push_some (some x) xs = x ∷ xs

abbrev pub filter_map {ℓ κ} : {A : Type ℓ} {B : Type κ} → (A → Option B) → List A → List B
filter_map f [] = []
filter_map f (x ∷ xs) = push_some (f x) (filter_map f xs)

-- `Option::map`.
abbrev pub mapped {ℓ κ} : {A : Type ℓ} {B : Type κ} → (A → B) → Option A → Option B
mapped f none = none
mapped f (some x) = some (f x)

abbrev pub or_else {ℓ} : {A : Type ℓ} → Option A → Option A → Option A
or_else none b = b
or_else (some a) b = some a

-- `v == "..."`.
abbrev pub is_text : Value → Text → Bool
is_text v s = elim (as_str v) [ none ↦ false | some t ↦ text_eq t s ]

-- `as_array().into_iter().flatten()`.
abbrev pub elements : Value → List Value
elements v = elim (as_array v) [ none ↦ [] | some xs ↦ to_list xs ]

runs_text : Option Items → Option Text
runs_text none = none
runs_text (some runs) =
    some (concat (filter_map (λ r. as_str (at r (codes "text"))) (to_list runs)))

unfoldable pub text : Value → Option Text
unfolding runs_text
text v =
    or_else (as_str (at v (codes "simpleText")))
      (or_else (as_str (at v (codes "content"))) (runs_text (as_array (at v (codes "runs")))))

-- Every value under `key`, in the order in which the fields stand in the value.
unfoldable mutual
  pub find_all : Value → Text → List Value
  find_all (obj fs) key = find_fields fs key
  find_all (arr xs) key = find_items xs key
  find_all _ key = []

  pub find_fields : Fields → Text → List Value
  find_fields end key = []
  find_fields (field k child fs) key =
      let found = find_all child key in
      (if text_eq k key then child ∷ found else found) ++ find_fields fs key

  pub find_items : Items → Text → List Value
  find_items nil key = []
  find_items (cons x xs) key = find_all x key ++ find_items xs key

-- `duration_secs.is_some_and(|d| d <= SHORT_SECS)`.
abbrev pub is_brief : Option ℕ → Bool
is_brief none = false
is_brief (some d) = leb d short_secs

abbrev is_live_badge : Value → Bool
is_live_badge b =
    is_text (at (at b (codes "metadataBadgeRenderer")) (codes "style"))
      (codes "BADGE_STYLE_TYPE_LIVE_NOW")

abbrev is_live_overlay : Value → Bool
is_live_overlay o =
    is_text (at (at o (codes "thumbnailOverlayTimeStatusRenderer")) (codes "style")) (codes "LIVE")

abbrev target_of : Value → Value
target_of v = at v (codes "navigationEndpoint")

abbrev pub is_reel : Value → Bool
is_reel v = not (is_null (at (target_of v) (codes "reelWatchEndpoint")))

abbrev url_of : Value → Text
url_of v =
    let meta = at (at (target_of v) (codes "commandMetadata")) (codes "webCommandMetadata") in
    unwrap_or (as_str (at meta (codes "url"))) []

abbrev pub has_short_url : Value → Bool
has_short_url v = starts_with (url_of v) (codes "/shorts/")

unfoldable pub video_of : Value → Text → Video
unfolding text parse_duration starts_with
video_of v id =
    let duration = text (at v (codes "lengthText")) >>= parse_duration in
    record {
      id = id;
      title = unwrap_or (text (at v (codes "title"))) [];
      channel =
          unwrap_or
            (or_else (text (at v (codes "ownerText"))) (text (at v (codes "longBylineText")))) [];
      duration_secs = duration;
      live =
          any is_live_badge (elements (at v (codes "badges")))
          || any is_live_overlay (elements (at v (codes "thumbnailOverlays")));
      upcoming = not (is_null (at v (codes "upcomingEventData")));
      short = is_reel v || has_short_url v || is_brief duration;
    }

unfoldable pub video_renderer : Value → Option Video
unfolding video_of
video_renderer v = mapped (video_of v) (as_str (at v (codes "videoId")))

-- `iter().find_map`.
abbrev pub find_map {ℓ κ} : {A : Type ℓ} {B : Type κ} → (A → Option B) → List A → Option B
find_map f [] = none
find_map f (x ∷ xs) = elim (f x) [ none ↦ find_map f xs | some y ↦ some y ]

abbrev pub first_text : List Text → Text
first_text [] = []
first_text (t ∷ ts) = t

abbrev channel_of : Value → Text → Channel
channel_of v id =
    let browse = at (at v (codes "navigationEndpoint")) (codes "browseEndpoint") in
    record {
      channel_id = id;
      channel_title = unwrap_or (text (at v (codes "title"))) [];
      handle =
          trim_start_matches (λ c. c == b'/')
            (unwrap_or (as_str (at browse (codes "canonicalBaseUrl"))) []);
    }

unfoldable pub channel_renderer : Value → Option Channel
unfolding text trim_start_matches
channel_renderer v = mapped (channel_of v) (as_str (at v (codes "channelId")))

-- The contents of the sections that have some.
unfoldable pub section_items : Value → List Value
section_items sections = concat (
    filter_map
      (λ s. mapped to_list (as_array (at (at s (codes "itemSectionRenderer")) (codes "contents"))))
      (elements sections))
