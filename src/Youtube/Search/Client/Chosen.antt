-- ===== src/Youtube/Search/Client/Chosen.antt =====
-- src/youtube.rs: YouTube::search picks a video of an answer that is no Short and no premiere, and fails only
-- with its first request.
use homeassistant_local_voic.Base.{
  ℕ, ◌≡◌, ◌≢◌, ◌⊎◌, inl, inr, refl, sym, Bool, true, false, Option, none, some, List, [], ◌∷◌, ◌++◌,
  not, ◌&&◌, arith, All, Bool-cases, Option-cases, and-eq_true, if◌then◌else◌,
}
use mathlib.Core.Path.{subst}
use homeassistant_local_voic.Base.Result.{Result, ok, err, ◌>>=◌}
use homeassistant_local_voic.Base.Text.{Text, codes, strip_prefix, is_empty}
use homeassistant_local_voic.Json.{Value, obj, str, field, end}
use homeassistant_local_voic.Youtube.{
  Video, Channel, Item, Kind, playable, pick_from_search, videos,
}
use homeassistant_local_voic.Youtube.Pick.{Picked, pick_from_search-Picked}
use homeassistant_local_voic.Youtube.Answers.{parse_search, parse_uploads}
use homeassistant_local_voic.Youtube.Search.{analyze, matching_channel}
use homeassistant_local_voic.Youtube.Search.Client.{
  YoutubeConfig, Pick, Request, Reply, call, make, newest_upload, made, latest_pick, uploads_pick,
  channel_pick, or_picked, pick_of, search_words, search_video,
}
use homeassistant_local_voic.Youtube.Search.Client.Playable.{
  In, IsPlayable, videos-In, pick_from_search-In,
}
use homeassistant_local_voic.Youtube.Search.Client.Lengths.{
  IsHonest, HonestItem, parse_search-HonestItem, parse_uploads-IsHonest,
}

All-In : {A : Type 0} (Q : A → Type 0) (xs : List A) {x : A} → All Q xs → In x xs → Q x
All-In Q [] h i = absurd i
All-In Q (y ∷ ys) h (inl same) = subst Q (sym same) h.0
All-In Q (y ∷ ys) h (inr later) = All-In Q ys h.1 later

playable-IsPlayable : (v : Video) → playable v ≡ true → IsHonest v → IsPlayable v
playable-IsPlayable v h long =
    let short : v.short ≡ false = ground arith in (short, ground arith, long short)

not-true : (b : Bool) → not b ≡ true → b ≡ false
not-true b h = ground arith

newest_upload-In :
    (vs : List Video) {v : Video}
    → newest_upload vs ≡ some v
    → In v vs × (playable v ≡ true) × (v.live ≡ false)
unfolding newest_upload
newest_upload-In [] {v} h = cc
newest_upload-In (u ∷ vs) {v} h = elim (Bool-cases (playable u && not u.live)) [
  | inr skipped ↦
      let (rest, plays, off) = newest_upload-In vs (rw skipped at h) in (inr rest, plays, off)
  | inl taken ↦
      let same : some u ≡ some v = rw taken at h in
      let equal : v ≡ u = cc in
      let (plays, off) = and-eq_true (playable u) (not u.live) taken in
      (
        inl equal,
        subst (λ w. playable w ≡ true) (sym equal) plays,
        subst (λ w. w.live ≡ false) (sym equal) (not-true u.live off),
      )
]

latest_pick-eq_some :
    (words : Text) (ch : Channel) (o : Option Video) {pick : Pick}
    → latest_pick words ch o ≡ some pick
    → (v : Video) × (o ≡ some v)
      × (pick ≡ record (make words Kind.channel_latest v) { channel = ch.channel_title })
latest_pick-eq_some words ch none h = cc
latest_pick-eq_some words ch (some v) h = (v, refl, cc)

made-eq_some :
    (words : Text) (o : Option (Kind × Video)) {pick : Pick}
    → made words o ≡ some pick
    → (k : Kind) × (v : Video) × (o ≡ some (k, v)) × (pick ≡ make words k v)
made-eq_some words none h = cc
made-eq_some words (some (k, v)) h = (k, v, refl, cc)

made-eq_none : (words : Text) (o : Option (Kind × Video)) → made words o ≡ none → o ≡ none
made-eq_none words none h = refl
made-eq_none words (some (k, v)) h = cc

abbrev search_body : Text → Value
search_body words = obj (field (codes "query") (str words) end)

abbrev browse_body : Text → Value
browse_body rest = obj (field (codes "browseId") (str (codes "VLUULF" ++ rest)) end)

module _ (to_lowercase to_uppercase : Text → Text) (is_alphanumeric : ℕ → Bool)
    (cfg : YoutubeConfig) (ask : Request → Reply) where
  or_picked-eq_none :
      (first later : Option Pick)
      → or_picked to_lowercase to_uppercase is_alphanumeric cfg ask first later ≡ none
      → later ≡ none
  or_picked-eq_none none later h = h
  or_picked-eq_none (some p) later h = cc

  -- A video of the results.
  abbrev pub FromResults : Text → List Item → Pick → Type 0
  FromResults words items pick =
      (k : Kind) × (v : Video) × (k ≢ Kind.channel_latest)
      × In (Item.video v) items
      × IsPlayable v
      × (pick ≡ make words k v)

  -- A video of the uploads of the channel that the words name, which is not live.
  abbrev pub FromUploads : Text → Bool → List Item → Pick → Type 0
  FromUploads words genre items pick =
      (ch : Channel) × (rest : Text) × (uploads : Value) × (v : Video) × (genre ≡ false)
      × (matching_channel to_lowercase is_alphanumeric words items ≡ some ch)
      × (strip_prefix (codes "UC") ch.channel_id ≡ some rest)
      × (call cfg ask (codes "browse") (browse_body rest) ≡ ok uploads)
      × In v (parse_uploads to_uppercase uploads)
      × IsPlayable v
      × (v.live ≡ false)
      × (pick ≡ record (make words Kind.channel_latest v) { channel = ch.channel_title })

  uploads_pick-From :
      (words : Text) (items : List Item) (ch : Channel) (rest : Text) (answer : Result Value)
      {pick : Pick}
      → matching_channel to_lowercase is_alphanumeric words items ≡ some ch
      → strip_prefix (codes "UC") ch.channel_id ≡ some rest
      → call cfg ask (codes "browse") (browse_body rest) ≡ answer
      → uploads_pick to_lowercase to_uppercase is_alphanumeric cfg ask words ch answer ≡ some pick
      → FromUploads words false items pick
  unfolding uploads_pick
  uploads_pick-From words items ch rest (err message) named stripped asked h = cc
  uploads_pick-From words items ch rest (ok uploads) {pick} named stripped asked h =
      let (v, e, made_of) = latest_pick-eq_some words ch _ h in
      let (listed, plays, off) = newest_upload-In (parse_uploads to_uppercase uploads) e in
      let long = All-In IsHonest _ (parse_uploads-IsHonest to_uppercase uploads) listed in
      (
        ch,
        rest,
        uploads,
        v,
        refl,
        named,
        stripped,
        asked,
        listed,
        playable-IsPlayable v plays long,
        off,
        made_of,
      )

  channel_pick-From :
      (words : Text) (items : List Item) (found : Option Channel) {pick : Pick}
      → matching_channel to_lowercase is_alphanumeric words items ≡ found
      → channel_pick to_lowercase to_uppercase is_alphanumeric cfg ask words found ≡ some pick
      → FromUploads words false items pick
  unfolding channel_pick
  channel_pick-From words items none named h = cc
  channel_pick-From words items (some ch) named h =
      elim (Option-cases (strip_prefix (codes "UC") ch.channel_id)) [
        | inl e ↦ let no : none ≡ some _ = rw e at h in cc
        | inr (rest, e) ↦ uploads_pick-From words items ch rest _ named e refl (rw e at h)
      ]

  results-From :
      (words : Text) (genre : Bool) (answer : Value) {pick : Pick}
      → made words (pick_from_search (parse_search to_uppercase answer) genre) ≡ some pick
      → FromResults words (parse_search to_uppercase answer) pick
  results-From words genre answer h =
      let (k, v, e, made_of) = made-eq_some words _ h in
      let (kind, found) = pick_from_search-In (parse_search to_uppercase answer) genre e in
      let (listed, plays) = videos-In (parse_search to_uppercase answer) v found in
      let long = All-In HonestItem _ (parse_search-HonestItem to_uppercase answer) listed in
      (k, v, kind, listed, playable-IsPlayable v plays long, made_of)

  abbrev pub From : Text → Bool → List Item → Pick → Type 0
  From words genre items pick = FromUploads words genre items pick ⊎ FromResults words items pick

  or_picked-From :
      (words : Text) (genre : Bool) (answer : Value) (first : Option Pick) {pick : Pick}
      → ((p : Pick) → first ≡ some p → FromUploads words genre (parse_search to_uppercase answer) p)
      → or_picked to_lowercase to_uppercase is_alphanumeric cfg ask first
          (made words (pick_from_search (parse_search to_uppercase answer) genre))
        ≡ some pick
      → From words genre (parse_search to_uppercase answer) pick
  or_picked-From words genre answer none from h = inr (results-From words genre answer h)
  or_picked-From words genre answer (some p) {pick} from h = inl (from pick h)

  pick_of-From :
      (words : Text) (genre : Bool) (answer : Value) {pick : Pick}
      → pick_of to_lowercase to_uppercase is_alphanumeric cfg ask words genre
          (parse_search to_uppercase answer)
        ≡ some pick
      → From words genre (parse_search to_uppercase answer) pick
  unfolding pick_of
  pick_of-From words true answer h = or_picked-From words true answer none (λ p e. cc) h
  pick_of-From words false answer h =
      or_picked-From words false answer _ (λ p e. channel_pick-From words _ _ refl e) h

  -- What a search may end in: an error is that of the request for the results; nothing, if there
  -- are no words or no playable video among the results; a video that is picked stands in the results, or in the uploads of the channel that the words name.
  abbrev pub Chosen : Text → Bool → Result (Option Pick) → Type 0
  Chosen words genre (err message) = call cfg ask (codes "search") (search_body words) ≡ err message
  Chosen words genre (ok none) =
      (is_empty words ≡ true)
      ⊎ ((answer : Value) × (call cfg ask (codes "search") (search_body words) ≡ ok answer)
          × (videos (parse_search to_uppercase answer) ≡ []))
  Chosen words genre (ok (some pick)) =
      (answer : Value) × (call cfg ask (codes "search") (search_body words) ≡ ok answer)
      × From words genre (parse_search to_uppercase answer) pick

  nothing-Chosen :
      (words : Text) (genre : Bool) (answer : Value)
      → pick_of to_lowercase to_uppercase is_alphanumeric cfg ask words genre
          (parse_search to_uppercase answer)
        ≡ none
      → videos (parse_search to_uppercase answer) ≡ []
  unfolding pick_of
  nothing-Chosen words genre answer h =
      let none_made = or_picked-eq_none _ _ h in
      let none_found = made-eq_none words _ none_made in
      subst (Picked genre (videos (parse_search to_uppercase answer))) none_found
        (pick_from_search-Picked (parse_search to_uppercase answer) genre)

  ended-Chosen :
      (words : Text) (genre : Bool) (answer : Value) (o : Option Pick)
      → call cfg ask (codes "search") (search_body words) ≡ ok answer
      → pick_of to_lowercase to_uppercase is_alphanumeric cfg ask words genre
          (parse_search to_uppercase answer)
        ≡ o
      → Chosen words genre (ok o)
  ended-Chosen words genre answer none asked h =
      inr (answer, asked, nothing-Chosen words genre answer h)
  ended-Chosen words genre answer (some pick) asked h =
      (answer, asked, pick_of-From words genre answer h)

  answered-Chosen :
      (words : Text) (genre : Bool) (r : Result Value)
      → call cfg ask (codes "search") (search_body words) ≡ r
      → Chosen words genre (
          r >>= λ answer. ok (
            pick_of to_lowercase to_uppercase is_alphanumeric cfg ask words genre
              (parse_search to_uppercase answer)))
  answered-Chosen words genre (err message) asked = asked
  answered-Chosen words genre (ok answer) asked = ended-Chosen words genre answer _ asked refl

  unless_empty :
      (words : Text) (genre : Bool) (b : Bool) (r : Result (Option Pick))
      → is_empty words ≡ b
      → Chosen words genre r
      → Chosen words genre (if b then ok none else r)
  unless_empty words genre true r e h = inl e
  unless_empty words genre false r e h = h

  search_words-Chosen :
      (words : Text) (genre : Bool)
      → Chosen words genre
          (search_words to_lowercase to_uppercase is_alphanumeric cfg ask words genre)
  unfolding search_words
  search_words-Chosen words genre =
      unless_empty words genre (is_empty words) _ refl (answered-Chosen words genre _ refl)

  -- Over all answers of YouTube: a search fails only with its first request; it picks nothing only
  -- if the query has no words or no result is playable; a video that it picks is neither a Short
  -- nor a coming premiere, has no length or one above a minute, and stands in the results or, for
  -- a query that is no genre, in the uploads of the channel that the query names, where it is not
  -- live.
  pub search_video-Chosen :
      (query : Text)
      → Chosen
          (analyze to_lowercase query).0
          (analyze to_lowercase query).1
          (search_video to_lowercase to_uppercase is_alphanumeric cfg ask query)
  unfolding search_video
  search_video-Chosen query =
      search_words-Chosen (analyze to_lowercase query).0 (analyze to_lowercase query).1
