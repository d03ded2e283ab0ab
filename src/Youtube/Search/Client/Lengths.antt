-- ===== src/Youtube/Search/Client/Lengths.antt =====
-- src/youtube.rs: a video of an answer that is no Short is longer than a minute, as far as its length is given.
use homeassistant_local_voic.Base.{
  ℕ, ◌≡◌, Bool, true, false, Option, none, some, List, [], ◌∷◌, ◌||◌, arith, All, All-append, map,
  if◌then◌else◌,
}
use homeassistant_local_voic.Base.Text.{Text, concat, codes}
use homeassistant_local_voic.Json.{Value, get, at, as_str}
use homeassistant_local_voic.Youtube.{Video, Item}
use homeassistant_local_voic.Youtube.Parse.{
  push_some, filter_map, mapped, is_brief, is_reel, has_short_url, video_of, video_renderer,
  channel_renderer, is_text, elements, section_items,
}
use homeassistant_local_voic.Youtube.Answers.{
  lockup_of, lockup, rendered, search_item, parse_search, videos_of, uploaded, upload_item,
  tab_videos, parse_uploads, search_sections, tab_sections, browse_tabs,
}
use homeassistant_local_voic.Youtube.Search.Client.Playable.{IsLong}

abbrev pub IsHonest : Video → Type 0
IsHonest v = v.short ≡ false → IsLong v.duration_secs

abbrev pub HonestItem : Item → Type 0
HonestItem (Item.video v) = IsHonest v
HonestItem (Item.channel_item c) = Unit

abbrev Each {ℓ} : {A : Type ℓ} → (A → Type 0) → Option A → Type 0
Each Q none = Unit
Each Q (some x) = Q x

All-push_some :
    {B : Type 0} (Q : B → Type 0) (o : Option B) (xs : List B)
    → Each Q o
    → All Q xs
    → All Q (push_some o xs)
All-push_some Q none xs h k = k
All-push_some Q (some x) xs h k = (h, k)

All-filter_map :
    {A B : Type 0} (Q : B → Type 0) (f : A → Option B) (xs : List A)
    → ((x : A) → Each Q (f x))
    → All Q (filter_map f xs)
All-filter_map Q f [] h = tt
All-filter_map Q f (x ∷ xs) h =
    All-push_some Q (f x) (filter_map f xs) (h x) (All-filter_map Q f xs h)

All-concat_map :
    {A B : Type 0} (Q : B → Type 0) (f : A → List B) (xs : List A)
    → ((x : A) → All Q (f x))
    → All Q (concat (map f xs))
unfolding concat
All-concat_map Q f [] h = tt
All-concat_map Q f (x ∷ xs) h =
    All-append Q (f x) (concat (map f xs)) (h x) (All-concat_map Q f xs h)

Each-mapped :
    {A B : Type 0} (Q : B → Type 0) (f : A → B) (o : Option A)
    → Each (λ x. Q (f x)) o
    → Each Q (mapped f o)
Each-mapped Q f none h = tt
Each-mapped Q f (some x) h = h

each {ℓ} : {A : Type ℓ} (Q : A → Type 0) (o : Option A) → ((x : A) → Q x) → Each Q o
each Q none h = tt
each Q (some x) h = h x

long : (d : Option ℕ) → is_brief d ≡ false → IsLong d
long none h = tt
long (some d) h = ground arith

brief_last : (a b : Bool) (d : Option ℕ) → (a || b || is_brief d) ≡ false → is_brief d ≡ false
brief_last a b d h = ground arith

video_of-IsHonest : (v : Value) (id : Text) → IsHonest (video_of v id)
unfolding video_of
video_of-IsHonest v id h =
    long _ (brief_last (is_reel v) (has_short_url v) ((video_of v id).duration_secs) h)

video_renderer-IsHonest : (v : Value) → Each IsHonest (video_renderer v)
unfolding video_renderer
video_renderer-IsHonest v =
    Each-mapped IsHonest (video_of v) (as_str (at v (codes "videoId")))
      (each _ (as_str (at v (codes "videoId"))) (video_of-IsHonest v))

module _ (to_uppercase : Text → Text) where
  lockup_of-IsHonest : (v : Value) (id : Text) → IsHonest (lockup_of to_uppercase v id)
  unfolding lockup_of
  lockup_of-IsHonest v id h = long _ h

  either : (b : Bool) (o : Option Video) → Each IsHonest o → Each IsHonest (if b then o else none)
  either true o h = h
  either false o h = tt

  lockup-IsHonest : (v : Value) → Each IsHonest (lockup to_uppercase v)
  unfolding lockup
  lockup-IsHonest v =
      either (is_text (at v (codes "contentType")) (codes "LOCKUP_CONTENT_TYPE_VIDEO")) _ (
        Each-mapped IsHonest (lockup_of to_uppercase v) (as_str (at v (codes "contentId")))
          (each _ (as_str (at v (codes "contentId"))) (lockup_of-IsHonest v)))

  rendered-HonestItem : (v c l : Option Value) → Each HonestItem (rendered to_uppercase v c l)
  unfolding rendered
  rendered-HonestItem (some v) c l =
      Each-mapped HonestItem Item.video (video_renderer v) (video_renderer-IsHonest v)
  rendered-HonestItem none (some c) l =
      Each-mapped HonestItem Item.channel_item (channel_renderer c)
        (each _ (channel_renderer c) λ _. tt)
  rendered-HonestItem none none (some l) =
      Each-mapped HonestItem Item.video (lockup to_uppercase l) (lockup-IsHonest l)
  rendered-HonestItem none none none = tt

  pub parse_search-HonestItem : (answer : Value) → All HonestItem (parse_search to_uppercase answer)
  unfolding parse_search search_item
  parse_search-HonestItem answer =
      All-filter_map HonestItem (search_item to_uppercase) (section_items (search_sections answer))
        λ item.
          rendered-HonestItem (get item (codes "videoRenderer"))
            (get item (codes "channelRenderer")) (get item (codes "lockupViewModel"))

  videos_of-IsHonest :
      (o : Option Video) → Each IsHonest o → All IsHonest (videos_of to_uppercase o)
  videos_of-IsHonest none h = tt
  videos_of-IsHonest (some v) h = (h, tt)

  uploaded-IsHonest :
      (l p : Option Value) (several : Value) → All IsHonest (uploaded to_uppercase l p several)
  unfolding uploaded
  uploaded-IsHonest (some l) p several = videos_of-IsHonest _ (lockup-IsHonest l)
  uploaded-IsHonest none (some p) several = videos_of-IsHonest _ (video_renderer-IsHonest p)
  uploaded-IsHonest none none several =
      All-filter_map IsHonest _ (elements several) λ i. video_renderer-IsHonest _

  upload_item-IsHonest : (item : Value) → All IsHonest (upload_item to_uppercase item)
  unfolding upload_item
  upload_item-IsHonest item =
      uploaded-IsHonest (get item (codes "lockupViewModel"))
        (get item (codes "playlistVideoRenderer"))
        (at (at item (codes "playlistVideoListRenderer")) (codes "contents"))

  tab_videos-IsHonest : (tab : Value) → All IsHonest (tab_videos to_uppercase tab)
  unfolding tab_videos
  tab_videos-IsHonest tab =
      All-concat_map IsHonest (upload_item to_uppercase) (section_items (tab_sections tab))
        upload_item-IsHonest

  pub parse_uploads-IsHonest : (answer : Value) → All IsHonest (parse_uploads to_uppercase answer)
  unfolding parse_uploads
  parse_uploads-IsHonest answer =
      All-concat_map IsHonest (tab_videos to_uppercase) (elements (browse_tabs answer))
        tab_videos-IsHonest
