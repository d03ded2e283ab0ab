-- ===== src/Tests/Watching.antt =====
-- Runs of the search for a title.
use homeassistant_local_voic.Base.{◌≡◌, refl, Bool, true, false, none, some, List, [], ◌∷◌, ◌++◌, ℕ}
use homeassistant_local_voic.Base.Text.{
  Text, codes, is_ascii_alphanumeric, is_ascii_digit, split, split_whitespace, is_whitespace, join,
  text_eq, concat, less_text, trim,
}
use homeassistant_local_voic.Base.Int.{pos}
use homeassistant_local_voic.Titles
use homeassistant_local_voic.Jellyfin.{
  Item, min_from, score, match_key, best_match, word_after, number_after, parse_u32, split_episode,
}
use homeassistant_local_voic.Jellyfin.Search.{episode_of}
use homeassistant_local_voic.Jellyfin.Best.{Best, best_match-Best}

abbrev item : Text → Text → ℕ → Bool → Item
item name kind year played = record {
  id = name;
  name = name;
  kind = kind;
  production_year = some (pos year);
  played = played;
  playback_position_ticks = 0;
  parent_index_number = none;
  index_number = none;
  series_id = none;
  series_name = none;
}

abbrev rings : Text → Text
rings part = codes "lord of rings: " ++ part

abbrev library : List Item
library =
    item (codes "dune") (codes "Movie") 2021 true
    ∷ item (rings (codes "the two towers")) (codes "Movie") 2002 false
    ∷ item (rings (codes "the fellowship")) (codes "Movie") 2001 true
    ∷ []

-- The oldest film of the series is watched.
next_film :
    best_match (λ t. t) is_ascii_alphanumeric (codes "lord of rings") library
    ≡ some (item (rings (codes "the two towers")) (codes "Movie") 2002 false)
unfolding best_match min_from match_key score Titles.words Titles.squashed concat split text_eq
    less_text is_ascii_alphanumeric is_ascii_digit
next_film = refl

third_episode :
    split_episode (λ t. t) is_ascii_alphanumeric (codes "spy x family season 2 episode 3")
    ≡ (codes "spy x family", (some 2, some 3))
unfolding split_episode Titles.words number_after word_after parse_u32 split_whitespace split
    is_whitespace join trim text_eq is_ascii_alphanumeric is_ascii_digit
third_episode = refl

best_match-Best_example :
    Best
      (λ t. t)
      is_ascii_alphanumeric
      (codes "lord of rings")
      library
      (best_match (λ t. t) is_ascii_alphanumeric (codes "lord of rings") library)
best_match-Best_example =
    best_match-Best (λ t. t) is_ascii_alphanumeric (codes "lord of rings") library

-- Episodes 1 and 2 of two seasons.
abbrev episode : ℕ → ℕ → Item
episode s e = record (item (codes "an episode") (codes "Episode") 2022 false) {
  parent_index_number = some s;
  index_number = some e;
}

second_of_season_two :
    episode_of (some 2) (some 2) (episode 1 1 ∷ episode 1 2 ∷ episode 2 1 ∷ episode 2 2 ∷ [])
    ≡ some (episode 2 2)
unfolding episode_of
second_of_season_two = refl

first_of_season_two :
    episode_of (some 2) none (episode 1 1 ∷ episode 2 1 ∷ episode 2 2 ∷ []) ≡ some (episode 2 1)
unfolding episode_of
first_of_season_two = refl
