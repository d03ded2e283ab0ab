-- ===== src/Youtube/Search/Client.antt =====
-- src/youtube.rs: the requests to YouTube, and the search. What a request is answered is a parameter.
mod Playable
mod Lengths
pub mod Chosen
use homeassistant_local_voic.Base.{
  ℕ, ◌&&◌, Bool, true, false, Option, none, some, List, [], ◌∷◌, ◌++◌, not, leb, if◌then◌else◌,
}
use homeassistant_local_voic.Base.Result.{Result, ok, err, ◌>>=◌}
use homeassistant_local_voic.Base.Text.{Text, codes, strip_prefix, is_empty}
use homeassistant_local_voic.Json.{Value, obj, str, Fields, field, end, extend}
use homeassistant_local_voic.Youtube.{Video, Channel, Item, Kind, playable, pick_from_search}
use homeassistant_local_voic.Youtube.Answers.{parse_search, parse_uploads}
use homeassistant_local_voic.Youtube.Search.{analyze, matching_channel}

pub record YoutubeConfig : Type 0 where
  pub language : Text
  pub region : Text
  pub client_version : Text

pub record Pick : Type 0 where
  pub kind : Kind
  pub query : Text
  pub video_id : Text
  pub title : Text
  pub channel : Text
  pub url : Text

pub record Request : Type 0 where
  pub url : Text
  pub header_version : Text
  pub payload : Value

-- The text of an error is its whole chain. No answer, or a status, as a number and as it is shown, with the body if it is JSON.
pub data Reply : Type 0 where
  unreachable : Text → Reply
  answered : ℕ → Text → Result Value → Reply

abbrev pub client_context : YoutubeConfig → Fields
client_context cfg =
    field (codes "context")
      (obj (
        field (codes "client")
          (obj (
            field (codes "clientName") (str (codes "WEB")) (
              field (codes "clientVersion") (str cfg.client_version)
                (field (codes "hl") (str cfg.language) (field (codes "gl") (str cfg.region) end)))))
          end))
      end

abbrev pub with_body : Fields → Value → Value
with_body context (obj fs) = obj (extend context fs)
with_body context _ = obj context

abbrev pub is_success : ℕ → Bool
is_success status = leb 200 status && leb status 299

abbrev pub decoded : Text → Result Value → Result Value
decoded endpoint (ok v) = ok v
decoded endpoint (err message) =
    err (codes "YouTube " ++ (endpoint ++ (codes ": bad JSON: " ++ message)))

abbrev pub received : Text → Reply → Result Value
received endpoint (unreachable message) = err message
received endpoint (answered status shown body) =
    if is_success status
    then decoded endpoint body
    else err (codes "YouTube " ++ (endpoint ++ (codes ": HTTP " ++ shown)))

module _ (cfg : YoutubeConfig) (ask : Request → Reply) where
  unfoldable pub call : Text → Value → Result Value
  unfolding extend
  call endpoint body = received endpoint (
      ask (record {
        url =
            codes "https://www.youtube.com/youtubei/v1/"
            ++ (endpoint ++ codes "?prettyPrint=false");
        header_version = cfg.client_version;
        payload = with_body (client_context cfg) body;
      }))

abbrev pub make : Text → Kind → Video → Pick
make words kind v = record {
  kind = kind;
  query = words;
  video_id = v.id;
  title = v.title;
  channel = v.channel;
  url = codes "https://www.youtube.com/watch?v=" ++ v.id;
}

-- `iter().find(|v| playable(v) && !v.live)`.
unfoldable pub newest_upload : List Video → Option Video
newest_upload [] = none
newest_upload (v ∷ vs) =
    let rest = newest_upload vs in if playable v && not v.live then some v else rest

abbrev pub made : Text → Option (Kind × Video) → Option Pick
made words none = none
made words (some (kind, v)) = some (make words kind v)

abbrev pub latest_pick : Text → Channel → Option Video → Option Pick
latest_pick words ch none = none
latest_pick words ch (some v) =
    some (record (make words Kind.channel_latest v) { channel = ch.channel_title })

module _ (to_lowercase to_uppercase : Text → Text) (is_alphanumeric : ℕ → Bool)
    (cfg : YoutubeConfig) (ask : Request → Reply) where
  -- A request that fails is logged.
  unfoldable pub uploads_pick : Text → Channel → Result Value → Option Pick
  unfolding newest_upload
  uploads_pick words ch (err message) = none
  uploads_pick words ch (ok answer) =
      latest_pick words ch (newest_upload (parse_uploads to_uppercase answer))

  unfoldable pub channel_pick : Text → Option Channel → Option Pick
  unfolding strip_prefix uploads_pick
  channel_pick words none = none
  channel_pick words (some ch) = elim (strip_prefix (codes "UC") ch.channel_id) [
    | none ↦ none
    | some rest ↦ uploads_pick words ch (
        call cfg ask (codes "browse")
          (obj (field (codes "browseId") (str (codes "VLUULF" ++ rest)) end)))
  ]

  abbrev pub or_picked : Option Pick → Option Pick → Option Pick
  or_picked none later = later
  or_picked (some pick) later = some pick

  unfoldable pub pick_of : Text → Bool → List Item → Option Pick
  unfolding channel_pick
  pick_of words genre items =
      or_picked
        (if genre
          then none
          else channel_pick words (matching_channel to_lowercase is_alphanumeric words items))
        (made words (pick_from_search items genre))

  unfoldable pub search_words : Text → Bool → Result (Option Pick)
  unfolding pick_of
  search_words words genre =
      if is_empty words
      then ok none
      else call cfg ask (codes "search") (obj (field (codes "query") (str words) end)) >>= λ answer.
          ok (pick_of words genre (parse_search to_uppercase answer))

  unfoldable pub search_video : Text → Result (Option Pick)
  unfolding search_words
  search_video query = let (words, genre) = analyze to_lowercase query in search_words words genre
