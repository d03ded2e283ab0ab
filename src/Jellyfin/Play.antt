-- ===== src/Jellyfin/Play.antt =====
-- src/jellyfin.rs: `search`: the user, the title, and the episode that plays. A 32-bit float is its bit
-- pattern; what is computed with floats, and what Jellyfin and the media index answer, is the record
-- `Answers`.
use homeassistant_local_voic.Base.{
  ℕ, ◌==◌, ◌&&◌, Bool, true, false, Option, none, some, List, [], ◌∷◌, map, if◌then◌else◌,
}
use homeassistant_local_voic.Base.Text.{Text, codes, text_eq, text_mem, trim, split, is_empty}
use homeassistant_local_voic.Base.Result.{Result, ok, err, ◌>>=◌}
use homeassistant_local_voic.Json
use homeassistant_local_voic.Json.{Value, at, as_str}
use homeassistant_local_voic.Jellyfin.{Item, best_match, sound_match}

pub data Match : Type 0 where
  by_title : Match
  by_fuzzy : Match
  by_sound : Match
  by_semantic : Match
  by_jellyfin : Match

pub record Pick : Type 0 where
  pub matched : Match
  pub score : ℕ
  pub is_episode : Bool
  pub query : Text
  pub item_id : Text
  pub title : Text
  pub episode_title : Option Text
  pub season : Option ℕ
  pub episode : Option ℕ
  pub resume_seconds : ℕ
  pub user : Text
  pub user_id : Text
  pub server_id : Text

pub record Semantic : Type 0 where
  pub semantic_id : Text
  pub semantic_name : Text
  pub semantic_score : ℕ
  pub accepted : Bool

-- `media`: what the media index finds, if it is attached and ready. `close`: the similarity of a title, if
-- it reaches FUZZY_MIN.
pub record Answers : Type 0 where
  pub to_lowercase : Text → Text
  pub is_alphanumeric : ℕ → Bool
  pub fuzzy_match : Text → List Item → Option (Item × ℕ)
  pub media : Option (Text → Result (Option Semantic))
  pub semantic_title_ok : Text → Text → Bool
  pub close : Text → Text → Option ℕ
  pub configured_user : Text
  pub sessions : Result (List Value)
  pub users : Result (List Value)
  pub info : Result Value
  pub library : Text → Result (List Item)
  pub item : Text → Text → Result Item
  pub search_term : Text → Text → Result (List Item)
  pub episodes : Text → Text → Result (List Item)
  pub next_up : Text → Text → Result (List Item)

abbrev pub Found : Type 0
Found = Option (Item × (Match × ℕ))

abbrev pub first_of : List Item → Option Item
first_of [] = none
first_of (i ∷ is) = some i

abbrev pub with_id : Text → List Item → Option Item
unfolding text_eq
with_id id [] = none
with_id id (i ∷ is) = let rest = with_id id is in if text_eq i.id id then some i else rest

module _ (a : Answers) where
  -- Jellyfin's own search: only a close title counts.
  abbrev by_search : Text → List Item → Found
  by_search words [] = none
  by_search words (i ∷ is) = elim (a.close words i.name) [
    | none ↦ none
    | some sim ↦ some (i, (by_jellyfin, sim))
  ]

  abbrev searched : Text → Text → Result Found
  searched user_id words = a.search_term user_id words >>= (λ is. ok (by_search words is))

  abbrev known_or_asked : Text → Semantic → Option Item → Result Found
  known_or_asked user_id s (some i) = ok (some (i, (by_semantic, s.semantic_score)))
  known_or_asked user_id s none =
      a.item user_id s.semantic_id >>= (λ i. ok (some (i, (by_semantic, s.semantic_score))))

  -- An error of the media index is only logged.
  abbrev by_media : Text → Text → List Item → Result (Option Semantic) → Result Found
  unfolding with_id
  by_media user_id words library (err e) = searched user_id words
  by_media user_id words library (ok none) = searched user_id words
  by_media user_id words library (ok (some s)) =
      if s.accepted && a.semantic_title_ok words s.semantic_name
      then known_or_asked user_id s (with_id s.semantic_id library)
      else searched user_id words

  abbrev behind_sound : Text → Text → List Item → Result Found
  unfolding by_media
  behind_sound user_id words library = elim a.media [
    | none ↦ searched user_id words
    | some semantic ↦ by_media user_id words library (semantic words)
  ]

  abbrev behind_fuzzy : Text → Text → List Item → Result Found
  unfolding behind_sound sound_match
  behind_fuzzy user_id words library =
      elim (sound_match a.to_lowercase a.is_alphanumeric words library) [
        | some i ↦ ok (some (i, (by_sound, 0x3f000000)))
        | none ↦ behind_sound user_id words library
      ]

  unfoldable pub find : Text → Text → List Item → Result Found
  unfolding best_match behind_fuzzy
  find user_id words library = elim (best_match a.to_lowercase a.is_alphanumeric words library) [
    | some i ↦ ok (some (i, (by_title, 0x3f800000)))
    | none ↦ elim (a.fuzzy_match words library) [
      | some (i, sim) ↦ ok (some (i, (by_fuzzy, sim)))
      | none ↦ behind_fuzzy user_id words library
    ]
  ]

  -- The names of the users of the sessions on the devices, with whether something plays.
  abbrev plays : Value → Bool
  plays (Json.obj fields) = true
  plays _ = false

  abbrev on_devices : List Text → List Value → List (Text × Bool)
  unfolding text_eq
  on_devices wanted [] = []
  on_devices wanted (s ∷ rest) =
      let more = on_devices wanted rest in
      elim (as_str (at s (codes "DeviceName"))) [
        | none ↦ more
        | some d ↦ elim (as_str (at s (codes "UserName"))) [
          | none ↦ more
          | some u ↦
              if text_mem (a.to_lowercase d) wanted
              then (u, plays (at s (codes "NowPlayingItem"))) ∷ more
              else more
        ]
      ]

  abbrev first_playing : List (Text × Bool) → Option Text
  first_playing [] = none
  first_playing ((u, b) ∷ rest) = let more = first_playing rest in if b then some u else more

  abbrev first_user : List (Text × Bool) → Option Text
  first_user [] = none
  first_user ((u, b) ∷ rest) = some u

  unfoldable pub session_user_of : List Value → Text → Option Text
  unfolding on_devices split trim
  session_user_of sessions devices =
      let wanted = map (λ d. a.to_lowercase (trim d)) (split (λ c. c == b',') devices) in
      let found = on_devices wanted sessions in
      elim (first_playing found) [ some u ↦ some u | none ↦ first_user found ]

  abbrev nonempty : Option Text → Option Text
  nonempty none = none
  nonempty (some t) = if is_empty t then none else some t

  abbrev session_user : Text → Option Text
  unfolding session_user_of
  session_user devices = elim a.sessions [
    | err e ↦ none
    | ok sessions ↦ session_user_of sessions devices
  ]

  unfoldable pub user_of : Option Text → Option Text → Text
  unfolding session_user
  user_of user devices = elim (nonempty user) [
    | some u ↦ u
    | none ↦ elim (nonempty devices) [
      | none ↦ a.configured_user
      | some d ↦ elim (session_user d) [ some u ↦ u | none ↦ a.configured_user ]
    ]
  ]
