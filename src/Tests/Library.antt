-- ===== src/Tests/Library.antt =====
-- Runs of the comparison of the library with the index.
use homeassistant_local_voic.Base.{
  ℕ, ◌≡◌, Option, refl, ap, true, false, none, some, List, [], ◌∷◌, map, take, drop, length, arith,
  if◌then◌else◌,
}
use homeassistant_local_voic.Base.Text.{
  Text, codes, text_eq, trim, split, split_whitespace, join, to_string, is_whitespace,
  trim_end_matches, trim_start_matches,
}
use homeassistant_local_voic.Base.Result.{ok}
use homeassistant_local_voic.Json
use homeassistant_local_voic.Json.{Value, Fields, of_list, to_list}
use homeassistant_local_voic.Media.Index.{Vector, from_jellyfin}
use homeassistant_local_voic.Media.Docs.{
  Doc, document, cut, described, work_parts, episode_part, single_dots, document_text,
}
use homeassistant_local_voic.Media.Sync.{
  World, MediaIndex, done, ready, loading_model, written, docs_of, work_types, work_fields,
  episode_fields, items_page, full_sync, page_size,
}
use homeassistant_local_voic.Media.Sync.Fetch.{Lists}
use homeassistant_local_voic.Media.Sync.Stored.{Works}
use homeassistant_local_voic.Media.Sync.Synced.{Synced, full_sync-Synced}
use homeassistant_local_voic.Media.Sync.Synced.Refreshed.{Unique}
use homeassistant_local_voic.Media.Run.{Round, Running, slept, changes, nothing_pending, run}
use homeassistant_local_voic.Media.Run.Sound.{StaysSound, run-StaysSound}
use homeassistant_local_voic.Tests.Caches.{loaded, loaded-IsSound}

abbrev pair : Text → Text → Fields → Fields
pair key value rest = Json.field key (Json.str value) rest

abbrev movie : Text → Value
movie id = Json.obj (
    pair (codes "Type") (codes "Movie")
      (pair (codes "Id") id (pair (codes "Name") (codes " Dune ") Json.end)))

abbrev movies : List Value
movies = movie (codes "a") ∷ movie (codes "m1") ∷ []

abbrev text_of : Option Doc → Text
text_of none = []
text_of (some d) = d.text

-- The item of the test `episode_document` of src/media/docs.rs.
abbrev episode : Value
episode = Json.obj (
    pair (codes "Type") (codes "Episode") (
      pair (codes "Id") (codes "e1") (
        pair (codes "Name") (codes "Will They Pass or Fail?") (
          pair (codes "SeriesName") (codes "Spy x Family") (
            Json.field (codes "IndexNumber") (Json.num 5) (
              Json.field (codes "ParentIndexNumber") (Json.num 1)
                (pair (codes "Overview") (codes "The interview day.") Json.end)))))))

episode_text :
    text_of (document episode)
    ≡ codes
        "title: Spy x Family: Will They Pass or Fail? | text: Episode 5 of season 1 of Spy x Family. The interview day."
unfolding document from_jellyfin trim cut described episode_part single_dots document_text text_eq
    Json.get_field trim_end_matches trim_start_matches is_whitespace split split_whitespace join
    to_string
episode_text = refl

abbrev library : Text → List Value
library types = if text_eq types (codes "Episode") then [] else movies

abbrev page : List Value → ℕ → ℕ → Value
page all start limit = Json.obj (
    Json.field (codes "Items") (Json.arr (of_list (take limit (drop start all))))
      (Json.field (codes "TotalRecordCount") (Json.num (length all)) Json.end))

abbrev vector : Text → Vector
vector t = 7 ∷ []

abbrev world : World
world = record {
  items_page_value = λ types fields start limit ids. ok (page (library types) start limit);
  embed = λ texts. ok (map vector texts);
  write = λ ix. written;
  now = 1234;
}

abbrev media : MediaIndex
media = record {
  episodes = true;
  fingerprint = codes "model";
  index = loaded;
  disk = record { entries_json = none; vectors_f32 = none };
  loaded = true;
  state = loading_model;
  last_full_sync = none;
}

to_list-of_list : (vs : List Value) → to_list (of_list vs) ≡ vs
to_list-of_list [] = refl
to_list-of_list (v ∷ vs) = ap (◌∷◌ v) (to_list-of_list vs)

world-Works : Works world vector 1
world-Works = record { embeds = λ ts. refl; wide = λ t. refl; writes = λ ix. refl }

movies-Lists : Lists world work_types work_fields movies
unfolding items_page Json.get_field text_eq
movies-Lists start = rw (to_list-of_list (take page_size (drop start movies))) refl

no_episodes-Lists : Lists world (codes "Episode") episode_fields []
unfolding items_page Json.get_field text_eq
no_episodes-Lists start = rw (to_list-of_list (take page_size (drop start []))) refl

movies-Unique : Unique (docs_of movies)
unfolding document from_jellyfin trim cut described work_parts single_dots document_text text_eq
    Json.get_field trim_end_matches trim_start_matches is_whitespace
movies-Unique = (refl, (refl, tt))

full_sync-Synced_example :
    (m' : MediaIndex) × (full_sync world 3 media ≡ done m')
    × (Synced vector (docs_of movies) loaded m'.index
        × (m'.state ≡ ready)
        × (m'.last_full_sync ≡ some 1234))
full_sync-Synced_example =
    full_sync-Synced world vector media loaded-IsSound refl world-Works 3 movies [] movies-Lists
      no_episodes-Lists (omega arith) (omega arith) movies-Unique

abbrev running : Running
running = record { media = media; pending = nothing_pending; full_now = false }

abbrev rounds : List Round
rounds =
    record {
      time_due = true;
      world = world;
      fuel = 3;
      wake = changes (record { changed = codes "m1" ∷ []; removed = codes "a" ∷ [] });
    }
    ∷ record { time_due = false; world = world; fuel = 3; wake = slept }
    ∷ []

run-StaysSound_example : StaysSound (run rounds running)
run-StaysSound_example = run-StaysSound rounds running loaded-IsSound
