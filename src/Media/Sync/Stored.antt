-- ===== src/Media/Sync/Stored.antt =====
-- What storing documents does to the rows that IDs lead to.
use homeassistant_local_voic.Base.{
  ℕ, ◌+◌, ◌*◌, ◌≡◌, refl, sym, ap, ◌∙◌, Bool, true, false, Option, some, List, [], ◌∷◌, ◌++◌, map,
  arith, length, leb, not, if◌then◌else◌,
}
use homeassistant_local_voic.Base.Text.{Text, text_eq, concat}
use homeassistant_local_voic.Base.Bytes.{chunks, concat-chunks}
use homeassistant_local_voic.Base.Result.{ok}
use homeassistant_local_voic.Media.Index
use homeassistant_local_voic.Media.Index.{Index, Vector}
use homeassistant_local_voic.Media.Index.Rows.{Row}
use homeassistant_local_voic.Media.Index.Changes.{IsSound, row_of}
use homeassistant_local_voic.Media.Index.Map.{upsert-Upserted}
use homeassistant_local_voic.Media.Docs.{Doc}
use homeassistant_local_voic.Media.Sync.{
  World, MediaIndex, Outcome, done, written, then_do, save, store, texts_of, embed_batches,
  embed_and_store, indexing, batch_size, save_every,
}

-- The last document with the ID, with its vector, or else the row that was there.
abbrev pub latest : (Text → Vector) → List Doc → Text → Option Row → Option Row
latest vector [] id before = before
latest vector (d ∷ ds) id before =
    latest vector ds id (if text_eq d.entry.id id then some (d.entry, vector d.text) else before)

latest-append :
    (vector : Text → Vector) (front back : List Doc) (id : Text) (r : Option Row)
    → latest vector (front ++ back) id r ≡ latest vector back id (latest vector front id r)
latest-append vector [] back id r = refl
latest-append vector (d ∷ front) back id r = latest-append vector front back id _

-- The index took the documents.
pub record Took (vector : Text → Vector) (ds : List Doc) (m m' : MediaIndex) : Type 0 where
  pub sound : IsSound m'.index
  pub dims : m'.index.dims ≡ m.index.dims
  pub fingerprint : m'.fingerprint ≡ m.fingerprint
  pub looked_up : (id : Text) → row_of m'.index id ≡ latest vector ds id (row_of m.index id)

abbrev pub TookBy : (Text → Vector) → List Doc → MediaIndex → Outcome → Type 0
TookBy vector ds m o = (m' : MediaIndex) × (o ≡ done m') × Took vector ds m m'

-- The embedding thread and the disk do what they are asked: one vector of the right size for each text.
pub record Works (world : World) (vector : Text → Vector) (dims : ℕ) : Type 0 where
  pub embeds : (ts : List Text) → world.embed ts ≡ ok (map vector ts)
  pub wide : (t : Text) → length (vector t) ≡ dims
  pub writes : (ix : Index) → world.write ix ≡ written

otherwise : (b : Bool) (x y : Outcome) → b ≡ false → (if b then x else y) ≡ y
otherwise b x y q = rw q refl

module _ (world : World) (vector : Text → Vector) where
  store-Took :
      (ds : List Doc) (m : MediaIndex)
      → IsSound m.index
      → ((t : Text) → length (vector t) ≡ m.index.dims)
      → TookBy vector ds m (store ds (map vector (texts_of ds)) m)
  unfolding store
  store-Took [] m s w =
      (m, refl, record { sound = s; dims = refl; fingerprint = refl; looked_up = λ id. refl })
  store-Took (d ∷ ds) m s w =
      let u = upsert-Upserted m.index d.entry (vector d.text) s (w d.text) in
      let m1 : MediaIndex = record m { index = u.after } in
      let (m', e, took) = store-Took ds m1 u.sound (λ t. w t ∙ sym u.same_dims) in
      (
        m',
        rw (store, u.computed) e,
        record {
          sound = took.sound;
          dims = took.dims ∙ u.same_dims;
          fingerprint = took.fingerprint;
          looked_up = λ id. took.looked_up id ∙ ap (latest vector ds id) (u.stored id);
        },
      )

  module _ {dims : ℕ} (works : Works world vector dims) where
    abbrev pub stored : MediaIndex → MediaIndex
    stored m = record m { disk = Index.save m.index m.fingerprint m.disk }

    pub save-eq : (m : MediaIndex) → save world m ≡ done (stored m)
    unfolding save
    save-eq m = rw (save, works.writes m.index) refl

    if-save :
        (full : Bool) (m : MediaIndex)
        → (if full then save world m else done m) ≡ done (if full then stored m else m)
    if-save true m = save-eq m
    if-save false m = refl

    Took-if :
        (full : Bool) (ds : List Doc) (m m' : MediaIndex)
        → Took vector ds m m'
        → Took vector ds m (if full then stored m' else m')
    Took-if true ds m m' t = record {
      sound = t.sound;
      dims = t.dims;
      fingerprint = t.fingerprint;
      looked_up = t.looked_up;
    }
    Took-if false ds m m' t = t

    same_docs :
        (front back : List Doc) (m m' : MediaIndex)
        → front ≡ back
        → Took vector front m m'
        → Took vector back m m'
    same_docs front back m m' q t = rw (← q) t

    Took-append :
        (front back : List Doc) (m m1 m2 : MediaIndex)
        → Took vector front m m1
        → Took vector back m1 m2
        → Took vector (front ++ back) m m2
    Took-append front back m m1 m2 t u = record {
      sound = u.sound;
      dims = u.dims ∙ t.dims;
      fingerprint = u.fingerprint ∙ t.fingerprint;
      looked_up = λ id.
          u.looked_up id
          ∙ ap (latest vector back id) (t.looked_up id)
          ∙ sym (latest-append vector front back id (row_of m.index id));
    }

    batches-Took :
        (n total since : ℕ) (batches : List (List Doc)) (m : MediaIndex)
        → IsSound m.index
        → m.index.dims ≡ dims
        → TookBy vector (concat batches) m (embed_batches world n total since batches m)
    unfolding embed_batches concat
    batches-Took n total since [] m s w =
        (m, refl, record { sound = s; dims = refl; fingerprint = refl; looked_up = λ id. refl })
    batches-Took n total since (batch ∷ rest) m s w =
        let m1 : MediaIndex = record m { state = indexing (n * batch_size) total } in
        let since' = since + length batch in
        let full = leb save_every since' in
        let (m2, e2, t2) = store-Took batch m1 s (λ t. works.wide t ∙ sym w) in
        let m3 = if full then stored m2 else m2 in
        let t3 = Took-if full batch m1 m2 t2 in
        let (m', e, t) =
          batches-Took (n + 1) total (if full then 0 else since') rest m3 t3.sound (t3.dims ∙ w) in
        (
          m',
          rw (embed_batches, works.embeds (texts_of batch), e2) (rw (if-save full m2) e),
          Took-append batch (concat rest) m m3 m'
              (record {
                sound = t3.sound;
                dims = t3.dims;
                fingerprint = t3.fingerprint;
                looked_up = t3.looked_up;
              })
              t,
        )

    -- Behind `embed_and_store` the index took all documents.
    pub embed_and_store-Took :
        (todo : List Doc) (m : MediaIndex)
        → IsSound m.index
        → m.index.dims ≡ dims
        → m.loaded ≡ true
        → TookBy vector todo m (embed_and_store world todo m)
    unfolding embed_and_store
    embed_and_store-Took [] m s w l =
        (m, refl, record { sound = s; dims = refl; fingerprint = refl; looked_up = λ id. refl })
    embed_and_store-Took (d ∷ ds) m s w l =
        let todo : List Doc = d ∷ ds in
        let (m', e, t) = batches-Took 0 (length todo) 0 (chunks batch_size todo) m s w in
        let whole : concat (chunks batch_size todo) ≡ todo =
          concat-chunks batch_size todo (omega arith) in
        (
          stored m',
          otherwise (not m.loaded) _ _ (ap not l) ∙ ap (λ o. then_do o (save world)) e ∙ save-eq m',
          Took-if true todo m m' (same_docs (concat (chunks batch_size todo)) todo m m' whole t),
        )
