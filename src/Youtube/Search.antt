-- ===== src/Youtube/Search.antt =====
-- src/youtube.rs: analyze, matching_channel and YouTube::search, over what YouTube answers to a request.
-- `to_lowercase`, `to_uppercase` and `is_alphanumeric` are the tables of std.
pub mod Client
use homeassistant_local_voic.Base.{
  ℕ, ◌+◌, ◌*◌, ◌≤◌, Bool, true, false, Option, none, some, List, [], ◌∷◌, ◌++◌, not, ◌&&◌, ◌||◌,
  leb, ltb, ◌==◌, any, drop, unwrap_or, if◌then◌else◌,
}
use homeassistant_local_voic.Base.Result.{Result, ok, err, ◌>>=◌}
use homeassistant_local_voic.Base.Text.{
  Text, codes, text_eq, text_mem, trim, trim_end_matches, starts_with, ends_with, strip_prefix,
  is_empty, to_string,
}
use homeassistant_local_voic.Json.{Value, obj, str, Fields, field, end, extend}
use homeassistant_local_voic.Titles
use homeassistant_local_voic.Youtube.{
  Video, Channel, Item, Kind, playable, is_subsequence, pick_from_search,
}
use homeassistant_local_voic.Youtube.Answers.{parse_search, parse_uploads}

-- `str::len`: the bytes in UTF-8.
unfoldable pub utf8_len : Text → ℕ
utf8_len [] = 0
utf8_len (c ∷ cs) =
    (if ltb c 0x80 then 1 else if ltb c 0x800 then 2 else if ltb c 0x1_0000 then 3 else 4)
    + utf8_len cs

abbrev same_start : Text → Text → Bool
same_start [] [] = true
same_start [] (d ∷ ds) = false
same_start (c ∷ cs) [] = false
same_start (c ∷ cs) (d ∷ ds) = c == d

-- The quotient is at least 0.7: for lengths below 2 ^ 49 the rounding of `f64` does not cross it.
unfoldable pub name_matches : Text → Text → Bool
unfolding utf8_len is_subsequence
name_matches query name =
    not (is_empty query || is_empty name)
    && (text_eq query name
        || (same_start query name
            && is_subsequence query name
            && leb (7 * utf8_len name) (10 * utf8_len query)))

abbrev is_final : ℕ → Bool
is_final c = c == b'.' || c == b'!' || c == b'?'

module _ (to_lowercase : Text → Text) where
  -- A prefix of `lower` in ASCII stands in as many characters of `q`.
  unfoldable pub analyze : Text → Text × Bool
  unfolding trim trim_end_matches starts_with ends_with
  analyze query =
      let q = trim (trim_end_matches is_final (trim query)) in
      let lower = to_lowercase q in
      if starts_with lower (codes "some ")
      then (trim (drop 5 q), true)
      else if starts_with lower (codes "any ")
      then (trim (drop 4 q), true)
      else (
        q,
        any (λ s. ends_with lower s)
            (codes " music"
              ∷ codes " mix"
              ∷ codes " radio"
              ∷ codes " playlist"
              ∷ codes " beats"
              ∷ []),
      )

  module _ (is_alphanumeric : ℕ → Bool) where
    abbrev squashed : Text → Text
    unfolding Titles.squashed
    squashed = Titles.squashed to_lowercase is_alphanumeric

    abbrev hit : Text → Text → Channel → Bool
    unfolding name_matches squashed
    hit q bare c =
        any (λ n. name_matches q n || name_matches bare n)
          (squashed c.channel_title ∷ squashed c.handle ∷ [])

    unfoldable pub find_channel : Text → Text → List Item → Option Channel
    unfolding hit
    find_channel q bare [] = none
    find_channel q bare (Item.video v ∷ items) = find_channel q bare items
    find_channel q bare (Item.channel_item c ∷ items) =
        let rest = find_channel q bare items in if hit q bare c then some c else rest

    unfoldable pub matching_channel : Text → List Item → Option Channel
    unfolding squashed find_channel strip_prefix
    matching_channel query items =
        let q = squashed query in
        if is_empty q
        then none
        else find_channel q (unwrap_or (strip_prefix (codes "the") q) q) items
