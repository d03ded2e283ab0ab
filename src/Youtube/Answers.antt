-- ===== src/Youtube/Answers.antt =====
-- src/youtube.rs: the answers to a search and to a list of uploads.
use homeassistant_local_voic.Base.{
  Bool, Option, none, some, List, [], ◌∷◌, ◌||◌, any, unwrap_or, map, if◌then◌else◌,
}
use homeassistant_local_voic.Base.Text.{Text, codes, text_eq, starts_with, contains, concat}
use homeassistant_local_voic.Json.{Value, at, get, as_str}
use homeassistant_local_voic.Youtube.{Video, Item}
use homeassistant_local_voic.Youtube.Duration.{parse_duration}
use homeassistant_local_voic.Youtube.Parse.{
  filter_map, mapped, find_map, find_all, text, is_text, elements, is_brief, first_text,
  video_renderer, channel_renderer, section_items,
}

abbrev content_of : Value → Option Text
content_of p = as_str (at (at p (codes "text")) (codes "content"))

abbrev pub search_sections : Value → Value
search_sections answer =
    let results = at (at answer (codes "contents")) (codes "twoColumnSearchResultsRenderer") in
    at (at (at results (codes "primaryContents")) (codes "sectionListRenderer")) (codes "contents")

abbrev pub tab_sections : Value → Value
tab_sections tab =
    at (at (at (at tab (codes "tabRenderer")) (codes "content")) (codes "sectionListRenderer"))
      (codes "contents")

abbrev pub browse_tabs : Value → Value
browse_tabs answer =
    at (at (at answer (codes "contents")) (codes "twoColumnBrowseResultsRenderer")) (codes "tabs")

module _ (to_uppercase : Text → Text) where
  abbrev badge_text : Value → Option Text
  badge_text b = mapped to_uppercase (as_str (at b (codes "text")))

  unfoldable pub badge_texts : Value → List Text
  unfolding find_all
  badge_texts v =
      filter_map badge_text
        (find_all (at v (codes "contentImage")) (codes "thumbnailBadgeViewModel"))

  unfoldable pub part_texts : Value → List Text
  unfolding find_all concat
  part_texts meta =
      filter_map content_of
        (concat (map elements (find_all (at meta (codes "metadata")) (codes "metadataParts"))))

  abbrev is_announced : Text → Bool
  unfolding contains
  is_announced t = contains t (codes "UPCOMING") || contains t (codes "PREMIERE")

  abbrev is_scheduled : Text → Bool
  unfolding starts_with
  is_scheduled t = starts_with t (codes "Premieres") || starts_with t (codes "Scheduled")

  unfoldable pub lockup_of : Value → Text → Video
  unfolding text parse_duration badge_texts part_texts is_announced is_scheduled
  lockup_of v id =
      let meta = at (at v (codes "metadata")) (codes "lockupMetadataViewModel") in
      let duration = find_map parse_duration (badge_texts v) in
      record {
        id = id;
        title = unwrap_or (text (at meta (codes "title"))) [];
        channel = first_text (part_texts meta);
        duration_secs = duration;
        live = any (λ t. text_eq t (codes "LIVE")) (badge_texts v);
        upcoming = any is_announced (badge_texts v) || any is_scheduled (part_texts meta);
        short = is_brief duration;
      }

  unfoldable pub lockup : Value → Option Video
  unfolding lockup_of
  lockup v =
      if is_text (at v (codes "contentType")) (codes "LOCKUP_CONTENT_TYPE_VIDEO")
      then mapped (lockup_of v) (as_str (at v (codes "contentId")))
      else none

  -- An item of a search: the first renderer that it has decides.
  unfoldable pub rendered : Option Value → Option Value → Option Value → Option Item
  unfolding video_renderer channel_renderer lockup
  rendered (some v) channel view = mapped Item.video (video_renderer v)
  rendered none (some c) view = mapped Item.channel_item (channel_renderer c)
  rendered none none (some l) = mapped Item.video (lockup l)
  rendered none none none = none

  unfoldable pub search_item : Value → Option Item
  unfolding rendered
  search_item item =
      rendered (get item (codes "videoRenderer")) (get item (codes "channelRenderer"))
        (get item (codes "lockupViewModel"))

  unfoldable pub parse_search : Value → List Item
  unfolding section_items search_item
  parse_search answer = filter_map search_item (section_items (search_sections answer))

  abbrev pub videos_of : Option Video → List Video
  videos_of none = []
  videos_of (some v) = v ∷ []

  unfoldable pub uploaded : Option Value → Option Value → Value → List Video
  unfolding video_renderer lockup
  uploaded (some l) single several = videos_of (lockup l)
  uploaded none (some p) several = videos_of (video_renderer p)
  uploaded none none several =
      filter_map (λ i. video_renderer (at i (codes "playlistVideoRenderer"))) (elements several)

  unfoldable pub upload_item : Value → List Video
  unfolding uploaded
  upload_item item =
      uploaded (get item (codes "lockupViewModel")) (get item (codes "playlistVideoRenderer"))
        (at (at item (codes "playlistVideoListRenderer")) (codes "contents"))

  unfoldable pub tab_videos : Value → List Video
  unfolding section_items upload_item concat
  tab_videos tab = concat (map upload_item (section_items (tab_sections tab)))

  unfoldable pub parse_uploads : Value → List Video
  unfolding tab_videos concat
  parse_uploads answer = concat (map tab_videos (elements (browse_tabs answer)))
