-- ===== src/Jellyfin/Search.antt =====
-- src/jellyfin.rs: what `search` makes of the title that was found.
use homeassistant_local_voic.Base.{
  ℕ, ◌+◌, ◌/◌, leb, ◌==◌, ◌&&◌, ◌||◌, not, Bool, true, false, Option, none, some, List, [], ◌∷◌,
  ◌++◌, is_some, unwrap_or, if◌then◌else◌,
}
use homeassistant_local_voic.Base.Text.{Text, codes, text_eq, is_empty}
use homeassistant_local_voic.Base.Result.{Result, ok, context, ◌>>=◌}
use homeassistant_local_voic.Json.{Value, at, as_str}
use homeassistant_local_voic.Jellyfin.{Item, split_episode}
use homeassistant_local_voic.Jellyfin.Play.{
  Answers, Match, Pick, Found, first_of, with_id, find, user_of,
}

abbrev ascii_lower : Text → Text
ascii_lower [] = []
ascii_lower (c ∷ cs) = (if leb b'A' c && leb c b'Z' then c + 32 else c) ∷ ascii_lower cs

abbrev is_named : Text → Option Text → Bool
unfolding text_eq
is_named name none = false
is_named name (some n) = text_eq (ascii_lower n) (ascii_lower name)

abbrev id_of_user : Text → List Value → Option Text
unfolding is_named
id_of_user name [] = none
id_of_user name (u ∷ us) =
    let rest = id_of_user name us in
    if is_named name (as_str (at u (codes "Name"))) then as_str (at u (codes "Id")) else rest

abbrev same_number : Option ℕ → ℕ → Bool
same_number none n = false
same_number (some m) n = m == n

abbrev any_season : Option ℕ → Item → Bool
any_season none e = true
any_season (some s) e = same_number e.parent_index_number s

-- The episode with the numbers; without a number of the episode, the first of the season.
unfoldable pub episode_of : Option ℕ → Option ℕ → List Item → Option Item
episode_of season episode [] = none
episode_of season episode (e ∷ es) =
    let rest = episode_of season episode es in
    if any_season season e && same_number e.index_number (unwrap_or episode 1) then some e else rest

abbrev is_kind : Text → Item → Bool
unfolding text_eq
is_kind kind i = text_eq i.kind kind

abbrev title_of : Item → Text
unfolding is_kind
title_of i = if is_kind (codes "Episode") i then unwrap_or i.series_name i.name else i.name

-- What a request asks for: the words, the numbers, the user and the server.
pub record Asked : Type 0 where
  pub words : Text
  pub season : Option ℕ
  pub episode : Option ℕ
  pub user : Text
  pub user_id : Text
  pub server_id : Text

abbrev numbered : Asked → Bool
numbered q = is_some q.season || is_some q.episode

abbrev resume_of : Item → ℕ
resume_of i = if i.played then 0 else i.playback_position_ticks / 10000000

abbrev picked : Asked → Text → Match × ℕ → Item → Pick
picked q title (matched, score) target = record {
  matched = matched;
  score = score;
  is_episode = false;
  query = q.words;
  item_id = target.id;
  title = title;
  episode_title = none;
  season = none;
  episode = none;
  resume_seconds = resume_of target;
  user = q.user;
  user_id = q.user_id;
  server_id = q.server_id;
}

abbrev picked_episode : Asked → Text → Match × ℕ → Item → Pick
picked_episode q title how e = record (picked q title how e) {
  is_episode = true;
  episode_title = some e.name;
  season = e.parent_index_number;
  episode = e.index_number;
}

-- An episode that was found, asked for with a number: its series, if the library has it.
abbrev series_of : Item → List Item → Option Item
series_of i library = elim i.series_id [ none ↦ none | some id ↦ with_id id library ]

abbrev decided : Asked → List Item → Item → Item
unfolding is_kind
decided q library i =
    if is_kind (codes "Episode") i && numbered q then unwrap_or (series_of i library) i else i

module _ (a : Answers) where
  abbrev next_or_first : Asked → Item → List Item → Result (Option Item)
  next_or_first q i (e ∷ es) = ok (some e)
  next_or_first q i [] = a.episodes q.user_id i.id >>= (λ es. ok (first_of es))

  abbrev chosen : Asked → Item → Result (Option Item)
  unfolding episode_of
  chosen q i =
      if numbered q
      then a.episodes q.user_id i.id >>= (λ es. ok (episode_of q.season q.episode es))
      else a.next_up q.user_id i.id >>= next_or_first q i

  abbrev pick_of_series : Asked → Match × ℕ → Item → Option Item → Option Pick
  pick_of_series q how i none = none
  pick_of_series q how i (some e) = some (picked_episode q i.name how e)

  -- The item that plays, for the item that was found.
  unfoldable pub play : Asked → Match × ℕ → Item → Result (Option Pick)
  unfolding is_kind title_of chosen
  play q how i =
      if is_kind (codes "Episode") i
      then ok (some (picked_episode q (title_of i) how i))
      else if not (is_kind (codes "Series") i)
      then ok (some (picked q (title_of i) how i))
      else chosen q i >>= (λ e. ok (pick_of_series q how i e))

  abbrev found_play : Asked → List Item → Found → Result (Option Pick)
  unfolding play decided
  found_play q library none = ok none
  found_play q library (some (i, how)) = play q how (decided q library i)

  abbrev asked_play : Asked → Result (Option Pick)
  unfolding find found_play
  asked_play q =
      if is_empty q.words
      then ok none
      else a.library q.user_id
        >>= (λ library. find a q.user_id q.words library >>= found_play q library)

  unfoldable pub search_title : Text → Option Text → Option Text → Result (Option Pick)
  unfolding user_of id_of_user asked_play split_episode
  search_title query user devices =
      let name = user_of a user devices in
      a.users >>= (λ users.
        context (id_of_user name users) (codes "no Jellyfin user " ++ name) >>= (λ id.
          a.info >>= (λ info.
            let (words, (season, episode)) = split_episode a.to_lowercase a.is_alphanumeric query in
            asked_play (record {
              words = words;
              season = season;
              episode = episode;
              user = name;
              user_id = id;
              server_id = unwrap_or (as_str (at info (codes "Id"))) [];
            }))))
