-- ===== src/Media/Sync/Safe.antt =====
-- Whatever Jellyfin, the embedding thread and the disk answer, the index stays sound.
use homeassistant_local_voic.Base.{
  ℕ, ◌+◌, ◌*◌, ◌-◌, ◌≡◌, refl, Bool, true, false, Option, none, some, List, [], ◌∷◌, ◌++◌, arith,
  length, not, Bool-cases, inl, inr, ◌==◌, ◌&&◌, ltb, leb, if◌then◌else◌,
}
use homeassistant_local_voic.Base.Text.{Text, codes, is_empty}
use homeassistant_local_voic.Base.Bytes.{chunks}
use homeassistant_local_voic.Base.Result.{Result, ok, err}
use homeassistant_local_voic.Json.{Value}
use homeassistant_local_voic.Media.Index.{Index, Vector, upsert, remove}
use homeassistant_local_voic.Media.Index.Rows.{rows}
use homeassistant_local_voic.Media.Index.Changes.{IsSound}
use homeassistant_local_voic.Media.Index.Map.{upsert-Upserted}
use homeassistant_local_voic.Media.Index.Sound.{remove-IsSound}
use homeassistant_local_voic.Media.Docs.{Doc}
use homeassistant_local_voic.Media.Docs.Updates.{Changes}
use homeassistant_local_voic.Media.Sync.{
  World, ids_per_request, Write, written, refused, cut_short, indexing, batch_size, save_every,
  texts_of, saved_if, with_episodes, work_fields, work_types, episode_fields, MediaIndex, Outcome,
  done, fails, panic, stuck, then_do, save, store, store_answer, embed_batches, embed_and_store,
  refresh, sync_with, full_sync, apply_changes, fetch_all, fetch_ids, docs_of, ids_of, gone_ids,
}
use homeassistant_local_voic.Media.Sync.Lookup.{needed, todo_of-needed}

-- No index out of range, and a sound index in the end, on success and on failure.
abbrev pub Safe : Outcome → Type 0
Safe (done m) = IsSound m.index
Safe (fails m e) = IsSound m.index
Safe panic = ⊥
Safe stuck = Unit

if-Safe : (b : Bool) (x y : Outcome) → Safe x → Safe y → Safe (if b then x else y)
if-Safe true x y p q = p
if-Safe false x y p q = q

then_do-Safe :
    (o : Outcome) (next : MediaIndex → Outcome)
    → Safe o
    → ((m : MediaIndex) → IsSound m.index → Safe (next m))
    → Safe (then_do o next)
then_do-Safe (done m) next s h = h m s
then_do-Safe (fails m e) next s h = s
then_do-Safe panic next s h = s
then_do-Safe stuck next s h = s

upsert-refused :
    (ix : Index) (d : Doc) (v : Vector)
    → (length v == ix.dims) ≡ false
    → upsert ix d.entry v ≡ some (err (codes "vector has the wrong size"))
unfolding upsert
upsert-refused ix d v q = rw q refl

store-Safe :
    (ds : List Doc) (vs : List Vector) (m : MediaIndex) → IsSound m.index → Safe (store ds vs m)
unfolding store
store-Safe [] vs m s = s
store-Safe (d ∷ ds) [] m s = s
store-Safe (d ∷ ds) (v ∷ vs) m s = elim (Bool-cases (length v == m.index.dims)) [
  | inl wide ↦
      let u = upsert-Upserted m.index d.entry v s (ground arith) in
      rw (u.computed, store) (store-Safe ds vs (record m { index = u.after }) u.sound)
  | inr other ↦ rw (upsert-refused m.index d v other, store) s
]

answer-Safe :
    (batch : List Doc) (m : MediaIndex) (r : Result (List Vector))
    → IsSound m.index
    → Safe (store_answer batch m r)
answer-Safe batch m (err e) s = s
answer-Safe batch m (ok vs) s = store-Safe batch vs m s

module _ (world : World) where
  save-Safe : (m : MediaIndex) → IsSound m.index → Safe (save world m)
  unfolding save
  save-Safe m s = go (world.write m.index) refl
    where
      go : (w : Write) → world.write m.index ≡ w → Safe (save world m)
      go written q = rw (q, save) s
      go (refused e) q = rw (q, save) s
      go (cut_short e) q = rw (q, save) s

  batches-Safe :
      (n total since : ℕ) (batches : List (List Doc)) (m : MediaIndex)
      → IsSound m.index
      → Safe (embed_batches world n total since batches m)
  unfolding embed_batches
  batches-Safe n total since [] m s = s
  batches-Safe n total since (batch ∷ rest) m s =
      let m1 : MediaIndex = record m { state = indexing (n * batch_size) total } in
      let since' = since + length batch in
      let full = leb save_every since' in
      then_do-Safe (store_answer batch m1 (world.embed (texts_of batch))) _
        (answer-Safe batch m1 (world.embed (texts_of batch)) s)
        (λ m2 s2.
          then_do-Safe (if full then save world m2 else done m2) _
            (if-Safe full _ _ (save-Safe m2 s2) s2)
            (λ m3 s3. batches-Safe (n + 1) total (if full then 0 else since') rest m3 s3))

  store-all-Safe :
      (todo : List Doc) (m : MediaIndex) → IsSound m.index → Safe (embed_and_store world todo m)
  unfolding embed_and_store
  store-all-Safe todo m s = if-Safe (is_empty todo) _ _ s (
      if-Safe (not m.loaded) _ _ s (
        then_do-Safe (embed_batches world 0 (length todo) 0 (chunks batch_size todo) m) _
          (batches-Safe 0 (length todo) 0 (chunks batch_size todo) m s) save-Safe))

  saved_if-Safe : (b : Bool) (m : MediaIndex) → IsSound m.index → Safe (saved_if world b m)
  saved_if-Safe true m s = save-Safe m s
  saved_if-Safe false m s = s

  refresh-Safe :
      (docs : List Doc) (m : MediaIndex) (ids : List Text)
      → IsSound m.index
      → Safe (refresh world docs m (remove m.index ids))
  refresh-Safe docs m ids s =
      let (left, removed, _, sound) = remove-IsSound ids m.index s in
      let m1 : MediaIndex = record m { index = left } in
      rw removed (
        rw (refresh, todo_of-needed left sound docs)
          (then_do-Safe (embed_and_store world (needed left docs) m1) _
            (store-all-Safe (needed left docs) m1 sound)
            (saved_if-Safe
              (ltb 0 (length (rows m.index) - length (rows left)) && is_empty (needed left docs)))))

  sync-Safe :
      (m : MediaIndex) (items : List Value) → IsSound m.index → Safe (sync_with world m items)
  sync-Safe m items s =
      let docs = docs_of items in
      then_do-Safe (refresh world docs m (remove m.index (gone_ids (ids_of docs) m.index.entries)))
        _ (refresh-Safe docs m (gone_ids (ids_of docs) m.index.entries) s) (λ m' s'. s')

  with-Safe :
      (fuel : ℕ) (m : MediaIndex) (items : List Value)
      → IsSound m.index
      → Safe (with_episodes world fuel m items)
  with-Safe fuel m items s =
      if-Safe (not m.episodes) _ _ (sync-Safe m items s)
        (go (fetch_all world fuel (codes "Episode") episode_fields []))
    where
      go :
          (r : Option (Result (List Value)))
          → Safe (elim r [
            | none ↦ stuck
            | some (err e) ↦ fails m e
            | some (ok more) ↦ sync_with world m (items ++ more)
          ])
      go none = tt
      go (some (err e)) = s
      go (some (ok more)) = sync-Safe m (items ++ more) s

  pub full_sync-Safe : (fuel : ℕ) (m : MediaIndex) → IsSound m.index → Safe (full_sync world fuel m)
  unfolding full_sync
  full_sync-Safe fuel m s = go (fetch_all world fuel work_types work_fields [])
    where
      go :
          (r : Option (Result (List Value)))
          → Safe (elim r [
            | none ↦ stuck
            | some (err e) ↦ fails m e
            | some (ok items) ↦ with_episodes world fuel m items
          ])
      go none = tt
      go (some (err e)) = s
      go (some (ok items)) = with-Safe fuel m items s

  pub apply_changes-Safe :
      (changes : Changes) (m : MediaIndex) → IsSound m.index → Safe (apply_changes world changes m)
  unfolding apply_changes
  apply_changes-Safe changes m s =
      let types = if m.episodes then codes "Series,Movie,Episode" else work_types in
      go (fetch_ids world types (chunks ids_per_request changes.changed))
    where
      go :
          (r : Result (List Doc))
          → Safe (elim r [
            | err e ↦ fails m e
            | ok docs ↦ refresh world docs m (remove m.index changes.removed)
          ])
      go (err e) = s
      go (ok docs) = refresh-Safe docs m changes.removed s
