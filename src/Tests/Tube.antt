-- ===== src/Tests/Tube.antt =====
-- Runs of the search on YouTube.
use homeassistant_local_voic.Base.{◌≡◌, ◌↔◌, refl, none, some, List, [], ◌∷◌}
use homeassistant_local_voic.Base.Result.{ok}
use homeassistant_local_voic.Base.Text.{
  Text, codes, text_eq, trim, split, starts_with, is_ascii_alphanumeric, concat,
}
use homeassistant_local_voic.Base.Decimal.{parse_u32}
use homeassistant_local_voic.Json.{Value, obj, str, arr, field, end, cons, nil, get_field}
use homeassistant_local_voic.Youtube.{Kind, videos, pick_from_search, find_long}
use homeassistant_local_voic.Youtube.Duration.{
  parse_duration, duration_from, parts_of, Exact, parse_duration-Exact,
}
use homeassistant_local_voic.Youtube.Parse.{text, video_of, video_renderer, section_items}
use homeassistant_local_voic.Youtube.Answers.{rendered, search_item, parse_search}
use homeassistant_local_voic.Youtube.Search.{analyze}
use homeassistant_local_voic.Youtube.Search.Client.{
  YoutubeConfig, Request, Reply, call, pick_of, search_words, search_video,
}
use homeassistant_local_voic.Youtube.Search.Client.Chosen.{Chosen, search_video-Chosen}

an_hour : parse_duration (codes " 1:02:03 ") ≡ some 3723
unfolding parse_duration duration_from parts_of split trim parse_u32
an_hour = refl

too_long : parse_duration (codes "4294967295:0") ≡ none
unfolding parse_duration duration_from parts_of split trim parse_u32
too_long = refl

parse_duration-Exact_example :
    (parse_duration (codes "28:14") ≡ some 1694) ↔ Exact 0 (parts_of (codes "28:14")) 1694
parse_duration-Exact_example = parse_duration-Exact (codes "28:14") 1694

abbrev one : Text → Value → Value
one key v = obj (field key v end)

abbrev renderer : Text → Text → Value
renderer id length = one (codes "videoRenderer") (
    obj (
      field (codes "videoId") (str id)
        (field (codes "lengthText") (one (codes "simpleText") (str length)) end)))

abbrev nested : List Text → Value → Value
nested [] v = v
nested (k ∷ ks) v = one k (nested ks v)

-- The first result is a Short.
abbrev results : Value
results =
    nested
      (codes "contents"
        ∷ codes "twoColumnSearchResultsRenderer"
        ∷ codes "primaryContents"
        ∷ codes "sectionListRenderer"
        ∷ codes "contents"
        ∷ [])
      (arr (
        cons
          (nested (codes "itemSectionRenderer" ∷ codes "contents" ∷ []) (
            arr (
              cons (renderer (codes "s") (codes "0:30"))
                (cons (renderer (codes "v") (codes "3:10")) nil))))
          nil))

abbrev tube : Request → Reply
tube r = Reply.answered 200 (codes "200 OK") (ok results)

abbrev settings : YoutubeConfig
settings = record { language = codes "en"; region = codes "US"; client_version = codes "2.2026" }

the_long_one :
    search_video (λ t. t) (λ t. t) is_ascii_alphanumeric settings tube (codes "some jazz.")
    ≡ ok (
        some (record {
          kind = Kind.single;
          query = codes "jazz";
          video_id = codes "v";
          title = [];
          channel = [];
          url = codes "https://www.youtube.com/watch?v=v";
        }))
unfolding search_video search_words pick_of analyze call parse_search section_items search_item
    rendered video_renderer video_of text parse_duration duration_from split trim parse_u32
    starts_with get_field text_eq concat pick_from_search videos find_long
the_long_one = refl

search_video-Chosen_example :
    Chosen
      (λ t. t)
      (λ t. t)
      is_ascii_alphanumeric
      settings
      tube
      (analyze (λ t. t) (codes "some jazz.")).0
      (analyze (λ t. t) (codes "some jazz.")).1
      (search_video (λ t. t) (λ t. t) is_ascii_alphanumeric settings tube (codes "some jazz."))
search_video-Chosen_example =
    search_video-Chosen (λ t. t) (λ t. t) is_ascii_alphanumeric settings tube (codes "some jazz.")
