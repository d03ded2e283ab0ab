-- ===== src/Media/Sync.antt =====
-- src/media/mod.rs: the comparison of the library with the index, and live changes. What Jellyfin, the
-- embedding thread and the disk answer is a `World`. The lists are walked in order, `stuck` is fuel that ran
-- out, and `panic` an index out of range.
pub mod Outcomes
pub mod Fetch
pub mod Lookup
pub mod Safe
pub mod Stored
pub mod Synced
use homeassistant_local_voic.Base.{
  ℕ, zero, suc, ◌+◌, ◌*◌, Bool, true, false, Option, none, some, List, [], ◌∷◌, ◌++◌, map, ltb, leb,
  ◌==◌, not, ◌&&◌, ◌||◌, length, if◌then◌else◌,
}
use homeassistant_local_voic.Base.Text.{Text, codes, text_mem, is_empty, join}
use homeassistant_local_voic.Base.Bytes.{chunks}
use homeassistant_local_voic.Base.Result.{Result, ok, err}
use homeassistant_local_voic.Json.{Value, at, as_array, as_u64, to_list}
use homeassistant_local_voic.Media.Index
use homeassistant_local_voic.Media.Index.{
  Index, Entry, Vector, Disk, upsert, remove, get, half_saved,
}
use homeassistant_local_voic.Media.Docs.{Doc, document}
use homeassistant_local_voic.Media.Docs.Updates.{Changes}
pub use Outcomes.*

abbrev pub page_size : ℕ
page_size = 1000

abbrev pub batch_size : ℕ
batch_size = 16

abbrev pub save_every : ℕ
save_every = 512

abbrev pub ids_per_request : ℕ
ids_per_request = 100

abbrev pub docs_of : List Value → List Doc
docs_of [] = []
docs_of (v ∷ vs) = elim (document v) [ none ↦ docs_of vs | some d ↦ d ∷ docs_of vs ]

abbrev pub ids_of : List Doc → List Text
ids_of [] = []
ids_of (d ∷ ds) = d.entry.id ∷ ids_of ds

-- The IDs of the entries that Jellyfin no longer lists.
unfoldable pub gone_ids : List Text → List Entry → List Text
gone_ids seen [] = []
gone_ids seen (e ∷ es) =
    let rest = gone_ids seen es in if text_mem e.id seen then rest else e.id ∷ rest

abbrev pub hash_differs : Doc → Option Entry → Bool
hash_differs d none = true
hash_differs d (some e) = not (e.hash == d.entry.hash)

-- The documents that are not in the index with the same hash.
unfoldable pub todo_of : Index → List Doc → Option (List Doc)
unfolding get
todo_of ix [] = some []
todo_of ix (d ∷ ds) = elim (get ix d.entry.id) [
  | none ↦ none
  | some found ↦ elim (todo_of ix ds) [
    | none ↦ none
    | some rest ↦ some (if hash_differs d found then d ∷ rest else rest)
  ]
]

-- `zip` ends with the shorter list.
unfoldable pub store : List Doc → List Vector → MediaIndex → Outcome
unfolding upsert
store (d ∷ ds) (v ∷ vs) m = elim (upsert m.index d.entry v) [
  | none ↦ panic
  | some (err e) ↦ fails m e
  | some (ok ix) ↦ store ds vs (record m { index = ix })
]
store _ _ m = done m

abbrev pub store_answer : List Doc → MediaIndex → Result (List Vector) → Outcome
store_answer batch m (err e) = fails m e
store_answer batch m (ok vectors) = store batch vectors m

abbrev pub texts_of : List Doc → List Text
texts_of [] = []
texts_of (d ∷ ds) = d.text ∷ texts_of ds

abbrev pub work_types : Text
work_types = codes "Series,Movie"

abbrev pub work_fields : Text
work_fields = codes "Overview,Genres,People,ProductionYear,OriginalTitle"

abbrev pub episode_fields : Text
episode_fields = codes "Overview"

module _ (world : World) where
  unfoldable pub items_page : Text → Text → ℕ → ℕ → Option Text → Result (List Value × ℕ)
  items_page types fields start limit ids =
      elim (world.items_page_value types fields start limit ids) [
        | err e ↦ err e
        | ok page ↦ ok (
          (elim (as_array (at page (codes "Items"))) [ none ↦ [] | some xs ↦ to_list xs ]),
          (elim (as_u64 (at page (codes "TotalRecordCount"))) [ none ↦ 0 | some n ↦ n ]),
        )
      ]

  -- With at most `fuel` requests; `none`: they were too few.
  unfoldable pub fetch_all : ℕ → Text → Text → List Value → Option (Result (List Value))
  unfolding items_page
  fetch_all zero types fields all = none
  fetch_all (suc fuel) types fields all =
      elim (items_page types fields (length all) page_size none) [
        | err e ↦ some (err e)
        | ok (items, total) ↦
            let all' = all ++ items in
            let more = fetch_all fuel types fields all' in
            if is_empty items || leb total (length all') then some (ok all') else more
      ]

  unfoldable pub save : MediaIndex → Outcome
  save m = elim (world.write m.index) [
    | written ↦ done (record m { disk = Index.save m.index m.fingerprint m.disk })
    | refused e ↦ fails m e
    | cut_short e ↦ fails (record m { disk = half_saved m.index m.disk }) e
  ]

  -- The loop of `embed_and_store` from the batch `n` on.
  unfoldable pub embed_batches : ℕ → ℕ → ℕ → List (List Doc) → MediaIndex → Outcome
  unfolding store save
  embed_batches n total since_save [] m = done m
  embed_batches n total since_save (batch ∷ rest) m =
      let m1 : MediaIndex = record m { state = indexing (n * batch_size) total } in
      let since = since_save + length batch in
      let full = leb save_every since in
      then_do (store_answer batch m1 (world.embed (texts_of batch))) (λ m2.
        then_do (if full then save m2 else done m2)
          (λ m3. embed_batches (n + 1) total (if full then 0 else since) rest m3))

  unfoldable pub embed_and_store : List Doc → MediaIndex → Outcome
  unfolding embed_batches save
  embed_and_store todo m =
      if is_empty todo
      then done m
      else if not m.loaded
      then fails m (codes "embedder not loaded")
      else then_do (embed_batches 0 (length todo) 0 (chunks batch_size todo) m) save

  abbrev pub saved_if : Bool → MediaIndex → Outcome
  saved_if true m = save m
  saved_if false m = done m

  -- The rest of both `full_sync` and `apply` behind the removal.
  abbrev pub refresh : List Doc → MediaIndex → Option (Index × ℕ) → Outcome
  refresh docs m none = panic
  refresh docs m (some (ix, removed)) =
      let m1 : MediaIndex = record m { index = ix } in
      elim (todo_of ix docs) [
        | none ↦ panic
        | some todo ↦ then_do (embed_and_store todo m1) (saved_if (ltb 0 removed && is_empty todo))
      ]

  abbrev pub finish_sync : MediaIndex → Outcome
  finish_sync m = done (record m { last_full_sync = some world.now; state = ready })

  abbrev pub sync_with : MediaIndex → List Value → Outcome
  sync_with m items =
      let docs = docs_of items in
      then_do (refresh docs m (remove m.index (gone_ids (ids_of docs) m.index.entries))) finish_sync

  abbrev pub with_episodes : ℕ → MediaIndex → List Value → Outcome
  with_episodes fuel m items =
      if not m.episodes
      then sync_with m items
      else elim (fetch_all fuel (codes "Episode") episode_fields []) [
        | none ↦ stuck
        | some (err e) ↦ fails m e
        | some (ok more) ↦ sync_with m (items ++ more)
      ]

  unfoldable pub full_sync : ℕ → MediaIndex → Outcome
  unfolding fetch_all remove gone_ids todo_of embed_and_store
  full_sync fuel m = elim (fetch_all fuel work_types work_fields []) [
    | none ↦ stuck
    | some (err e) ↦ fails m e
    | some (ok items) ↦ with_episodes fuel m items
  ]

  -- The loop of `apply` over the IDs: the documents, a request for each hundred.
  unfoldable pub fetch_ids : Text → List (List Text) → Result (List Doc)
  unfolding items_page
  fetch_ids types [] = ok []
  fetch_ids types (chunk ∷ rest) =
      elim (items_page types (work_fields ++ (codes "," ++ episode_fields)) 0 (length chunk)
        (some (join (codes ",") chunk))) [
          | err e ↦ err e
          | ok (items, total) ↦ elim (fetch_ids types rest) [
            | err e ↦ err e
            | ok more ↦ ok (docs_of items ++ more)
          ]
        ]

  unfoldable pub apply_changes : Changes → MediaIndex → Outcome
  unfolding fetch_ids remove todo_of embed_and_store
  apply_changes changes m =
      let types = if m.episodes then codes "Series,Movie,Episode" else work_types in
      elim (fetch_ids types (chunks ids_per_request changes.changed)) [
        | err e ↦ fails m e
        | ok docs ↦ refresh docs m (remove m.index changes.removed)
      ]
