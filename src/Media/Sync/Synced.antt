-- ===== src/Media/Sync/Synced.antt =====
-- The index behind a full comparison.
pub mod Kept
pub mod Refreshed
use mathlib.Core.Path.{subst}
use homeassistant_local_voic.Base.{
  ℕ, ◌+◌, ◌-◌, ◌<◌, ◌≡◌, refl, sym, ap, ◌∙◌, ◌⊎◌, inl, inr, Bool, true, false, Option, none, some,
  List, [], ◌∷◌, ◌++◌, All, Bool-cases, length, arith, ◌||◌, ◌&&◌, ◌==◌, not, ltb, if◌then◌else◌,
}
use homeassistant_local_voic.Base.Text.{
  Text, codes, text_eq, text_eq_iff, text_eq_refl, text_mem, is_empty,
}
use homeassistant_local_voic.Base.Result.{ok, err}
use homeassistant_local_voic.Json.{Value}
use homeassistant_local_voic.Media.Index
use homeassistant_local_voic.Media.Index.{Index, Disk, Vector, remove}
use homeassistant_local_voic.Media.Index.Rows.{Row, rows, without, remove-Removed}
use homeassistant_local_voic.Media.Index.Changes.{IsSound, row_at, row_of}
use homeassistant_local_voic.Media.Index.Sound.{remove-IsSound}
use homeassistant_local_voic.Media.Docs.{Doc}
use homeassistant_local_voic.Media.Sync.{
  World, MediaIndex, done, fails, stuck, ready, fetch_all, then_do, hash_differs, docs_of, ids_of,
  gone_ids, embed_and_store, saved_if, refresh, sync_with, finish_sync, with_episodes, work_types,
  work_fields, episode_fields, full_sync,
}
use homeassistant_local_voic.Media.Sync.Fetch.{Lists, fetch_all-Lists}
use homeassistant_local_voic.Media.Sync.Lookup.{needed, todo_of-needed, entry_in}
use homeassistant_local_voic.Media.Sync.Stored.{latest, Took, Works, embed_and_store-Took, save-eq}
use Refreshed.{Unique, Fresh, refreshed, All-Fresh, latest-unlisted, needed-unlisted}
use Kept.{RowOf, row_of-RowOf, without-RowOf, left-seen}

-- A document is found by its ID: with the vector of its text, or in an older row with its hash.
abbrev pub Found : (Text → Vector) → List Row → Doc → Option Row → Type 0
Found vector old d found =
    (found ≡ some (d.entry, vector d.text))
    ⊎ ((r : Row) × (found ≡ some r) × RowOf old r × (r.0.hash ≡ d.entry.hash))

-- The index holds the documents and nothing else.
pub record Synced (vector : Text → Vector) (ds : List Doc) (before after : Index) : Type 0 where
  pub sound : IsSound after
  pub found : All (λ d. Found vector (rows before) d (row_of after d.entry.id)) ds
  pub listed : (id : Text) {r : Row} → row_of after id ≡ some r → text_mem id (ids_of ds) ≡ true

module _ (world : World) (vector : Text → Vector) (m : MediaIndex) where
  abbrev gone : List Doc → List Text
  gone ds = gone_ids (ids_of ds) m.index.entries

  abbrev SyncedTo : List Doc → MediaIndex → Type 0
  SyncedTo ds m' =
      Synced vector ds m.index m'.index × (m'.state ≡ ready) × (m'.last_full_sync ≡ some world.now)

  -- What the removal and the embedding make of the index.
  Took-Synced :
      (ds : List Doc) (left m' : MediaIndex)
      → Unique ds
      → rows left.index ≡ without (gone ds) (rows m.index)
      → IsSound left.index
      → Took vector (needed left.index ds) left m'
      → Synced vector ds m.index m'.index
  Took-Synced ds left m' u kept s t = record {
    sound = t.sound;
    found = older ds (All-Fresh vector left.index ds u);
    listed = λ id q. listed id (sym (t.looked_up id) ∙ q);
  }
    where
      from_before : {r : Row} → RowOf (rows left.index) r → RowOf (rows m.index) r
      from_before (i, h) =
          without-RowOf (gone ds) (rows m.index) (i, ap (λ rs. row_at rs i) (sym kept) ∙ h)

      older :
          (xs : List Doc)
          → All (λ d. Fresh vector left.index d (refreshed vector left.index ds d.entry.id)) xs
          → All (λ d. Found vector (rows m.index) d (row_of m'.index d.entry.id)) xs
      older [] a = tt
      older (d ∷ xs) (inl new, a) = (inl (t.looked_up d.entry.id ∙ new), older xs a)
      older (d ∷ xs) (inr (r, q, there, same), a) = (
        inr (
          r,
          t.looked_up d.entry.id ∙ q,
          from_before (row_of-RowOf left.index s d.entry.id there).0,
          same,
        ),
        older xs a,
      )

      listed :
          (id : Text) {r : Row}
          → latest vector (needed left.index ds) id (row_of left.index id) ≡ some r
          → text_mem id (ids_of ds) ≡ true
      listed id {r} q = elim (Bool-cases (text_mem id (ids_of ds))) [
        | inl there ↦ there
        | inr missing ↦
            let same =
              latest-unlisted vector (needed left.index ds) id (row_of left.index id)
                (needed-unlisted left.index ds id missing) in
            let ((i, h), equal) = row_of-RowOf left.index s id (sym same ∙ q) in
            let at : RowOf (without (gone ds) (rows m.index)) r =
              (i, ap (λ rs. row_at rs i) (sym kept) ∙ h) in
            subst (λ x. text_mem x (ids_of ds) ≡ true) equal (left-seen (ids_of ds) m.index at)
      ]

  module _ (fresh : IsSound m.index) (loaded : m.loaded ≡ true)
      (works : Works world vector m.index.dims) where
    abbrev disk_behind : Bool → MediaIndex → Disk
    disk_behind true m' = Index.save m'.index m'.fingerprint m'.disk
    disk_behind false m' = m'.disk

    saved_if-eq :
        (b : Bool) (m' : MediaIndex)
        → saved_if world b m' ≡ done (record m' { disk = disk_behind b m' })
    saved_if-eq true m' = save-eq world vector works m'
    saved_if-eq false m' = refl

    removed-dims :
        (ids : List Text) (left : Index) (n : ℕ)
        → remove m.index ids ≡ some (left, n)
        → left.dims ≡ m.index.dims
    removed-dims ids left n q =
        let r = remove-Removed ids m.index fresh.aligned in
        let one : some (r.left, length (rows m.index) - length (rows r.left)) ≡ some (left, n) =
          sym r.computed ∙ q in
        let same : r.left ≡ left = cc in ap (λ ix. ix.dims) (sym same) ∙ r.same_dims

    sync_with-Synced :
        (items : List Value)
        → Unique (docs_of items)
        → (m' : MediaIndex) × (sync_with world m items ≡ done m') × SyncedTo (docs_of items) m'
    sync_with-Synced items u =
        let ds = docs_of items in
        let (left, removed, kept, sound) = remove-IsSound (gone ds) m.index fresh in
        let m1 : MediaIndex = record m { index = left } in
        let todo = needed left ds in
        let wide =
          removed-dims (gone ds) left (length (rows m.index) - length (rows left)) removed in
        let (m2, e, t) = embed_and_store-Took world vector works todo m1 sound wide loaded in
        let only_removed = ltb 0 (length (rows m.index) - length (rows left)) && is_empty todo in
        let m3 : MediaIndex = record m2 { disk = disk_behind only_removed m2 } in
        let stored : refresh world ds m (remove m.index (gone ds)) ≡ done m3 =
          ap (refresh world ds m) removed
          ∙ rw (refresh, todo_of-needed left sound ds, e) (saved_if-eq only_removed m2) in
        (
          record m2 {
            disk = disk_behind only_removed m2;
            last_full_sync = some world.now;
            state = ready;
          },
          ap (λ o. then_do o (finish_sync world)) stored,
          (Took-Synced ds m1 m2 u kept sound t, refl, refl),
        )

    -- A full comparison, with the model loaded, a sound index, an embedding thread that answers each text
    -- with a vector of the right size, a disk that takes what is written, and a Jellyfin whose lists do
    -- not change meanwhile, are shorter than the number of requests allowed, and name no ID twice,
    -- succeeds: each document is then found under its ID, with the vector of its text, or in a row from
    -- before that has its hash; no other ID leads anywhere; the index is sound, the state is
    -- ready, and the time is noted.
    pub full_sync-Synced :
        (fuel : ℕ) (library episodes : List Value)
        → Lists world work_types work_fields library
        → Lists world (codes "Episode") episode_fields episodes
        → length library < fuel
        → length episodes < fuel
        → Unique (docs_of (if m.episodes then library ++ episodes else library))
        → (m' : MediaIndex) × (full_sync world fuel m ≡ done m')
          × SyncedTo (docs_of (if m.episodes then library ++ episodes else library)) m'
    unfolding full_sync
    full_sync-Synced fuel library episodes lists lists' short short' u =
        let (m', e, synced) =
          sync_with-Synced (if m.episodes then library ++ episodes else library) u in
        (
          m',
          rw (full_sync, fetch_all-Lists world work_types work_fields library lists fuel short)
              (with-items m.episodes ∙ e),
          synced,
        )
      where
        with-items :
            (b : Bool)
            → (if not b
                then sync_with world m library
                else elim (fetch_all world fuel (codes "Episode") episode_fields []) [
                  | none ↦ stuck
                  | some (err e) ↦ fails m e
                  | some (ok more) ↦ sync_with world m (library ++ more)
                ])
              ≡ sync_with world m (if b then library ++ episodes else library)
        with-items true =
            rw (fetch_all-Lists world (codes "Episode") episode_fields episodes lists' fuel short')
              refl
        with-items false = refl
