-- ===== src/Media/Sync/Synced/Refreshed.antt =====
-- Where the IDs of the library lead behind the embedding of what is needed.
use mathlib.Core.Path.{subst}
use homeassistant_local_voic.Base.{
  ◌≡◌, refl, sym, ap, ◌∙◌, ◌⊎◌, inl, inr, true, false, Option, none, some, List, [], ◌∷◌, All,
  Bool-cases, arith, if◌then◌else◌,
}
use homeassistant_local_voic.Base.Text.{Text, text_eq, text_eq_refl, text_eq_sym, text_mem}
use homeassistant_local_voic.Media.Index.{Index, Vector}
use homeassistant_local_voic.Media.Index.Rows.{Row}
use homeassistant_local_voic.Media.Index.Changes.{row_of}
use homeassistant_local_voic.Media.Docs.{Doc}
use homeassistant_local_voic.Media.Sync.{hash_differs, ids_of}
use homeassistant_local_voic.Media.Sync.Lookup.{needed, entry_in}
use homeassistant_local_voic.Media.Sync.Stored.{latest}

-- No ID stands twice in the library.
abbrev pub Unique : List Doc → Type 0
Unique [] = Unit
Unique (d ∷ ds) = (text_mem d.entry.id (ids_of ds) ≡ false) × Unique ds

pub latest-unlisted :
    (vector : Text → Vector) (ds : List Doc) (id : Text) (r : Option Row)
    → text_mem id (ids_of ds) ≡ false
    → latest vector ds id r ≡ r
latest-unlisted vector [] id r h = refl
latest-unlisted vector (d ∷ ds) id r h =
    let other : text_eq d.entry.id id ≡ false = ground arith in
    let later : text_mem id (ids_of ds) ≡ false = ground arith in
    rw other (latest-unlisted vector ds id r later)

pub needed-unlisted :
    (ix : Index) (ds : List Doc) (id : Text)
    → text_mem id (ids_of ds) ≡ false
    → text_mem id (ids_of (needed ix ds)) ≡ false
unfolding needed
needed-unlisted ix [] id h = refl
needed-unlisted ix (d ∷ ds) id h =
    let other : text_eq d.entry.id id ≡ false = ground arith in
    let later : text_mem id (ids_of ds) ≡ false = ground arith in
    elim (Bool-cases (hash_differs d (entry_in (row_of ix d.entry.id)))) [
      | inl new ↦ rw (needed, new) (rw other (needed-unlisted ix ds id later))
      | inr same ↦ rw (needed, same) (needed-unlisted ix ds id later)
    ]

module _ (vector : Text → Vector) (ix : Index) where
  -- Where an ID leads behind the embedding of what is needed.
  abbrev pub refreshed : List Doc → Text → Option Row
  refreshed ds id = latest vector (needed ix ds) id (row_of ix id)

  abbrev pub Fresh : Doc → Option Row → Type 0
  Fresh d found =
      (found ≡ some (d.entry, vector d.text))
      ⊎ ((r : Row) × (found ≡ some r) × (row_of ix d.entry.id ≡ some r) × (r.0.hash ≡ d.entry.hash))

  refreshed-new :
      (d : Doc) (ds : List Doc) (id : Text)
      → hash_differs d (entry_in (row_of ix d.entry.id)) ≡ true
      → refreshed (d ∷ ds) id
        ≡ latest vector
            (needed ix ds)
            id
            (if text_eq d.entry.id id then some (d.entry, vector d.text) else row_of ix id)
  unfolding needed
  refreshed-new d ds id h = rw (needed, h) refl

  refreshed-same :
      (d : Doc) (ds : List Doc) (id : Text)
      → hash_differs d (entry_in (row_of ix d.entry.id)) ≡ false
      → refreshed (d ∷ ds) id ≡ refreshed ds id
  unfolding needed
  refreshed-same d ds id h = rw (needed, h) refl

  head-Fresh :
      (d : Doc) (ds : List Doc)
      → text_mem d.entry.id (ids_of ds) ≡ false
      → Fresh d (refreshed (d ∷ ds) d.entry.id)
  head-Fresh d ds h = elim (Bool-cases (hash_differs d (entry_in (row_of ix d.entry.id)))) [
    | inl new ↦ inl (
        refreshed-new d ds d.entry.id new
        ∙ same _
        ∙ ap (λ b. if b then some (d.entry, vector d.text) else row_of ix d.entry.id)
            (text_eq_refl d.entry.id))
    | inr old ↦ go (row_of ix d.entry.id) refl old
  ]
    where
      same : (r : Option Row) → latest vector (needed ix ds) d.entry.id r ≡ r
      same r =
          latest-unlisted vector (needed ix ds) d.entry.id r (needed-unlisted ix ds d.entry.id h)

      go :
          (found : Option Row)
          → row_of ix d.entry.id ≡ found
          → hash_differs d (entry_in found) ≡ false
          → Fresh d (refreshed (d ∷ ds) d.entry.id)
      go none q old = absurd cc
      go (some r) q old =
          let still = ap (λ f. hash_differs d (entry_in f)) q ∙ old in
          inr (r, refreshed-same d ds d.entry.id still ∙ same _ ∙ q, q, ground arith)

  -- A document leaves what other IDs lead to.
  refreshed-other :
      (d : Doc) (ds : List Doc) (id : Text)
      → text_eq d.entry.id id ≡ false
      → refreshed (d ∷ ds) id ≡ refreshed ds id
  refreshed-other d ds id other =
      elim (Bool-cases (hash_differs d (entry_in (row_of ix d.entry.id)))) [
        | inl new ↦
            refreshed-new d ds id new
            ∙ ap
                (λ b.
                  latest vector (needed ix ds) id
                    (if b then some (d.entry, vector d.text) else row_of ix id))
                other
        | inr old ↦ refreshed-same d ds id old
      ]

  tail-Fresh :
      (d : Doc) (ds xs : List Doc)
      → text_mem d.entry.id (ids_of xs) ≡ false
      → All (λ x. Fresh x (refreshed ds x.entry.id)) xs
      → All (λ x. Fresh x (refreshed (d ∷ ds) x.entry.id)) xs
  tail-Fresh d ds [] h a = tt
  tail-Fresh d ds (x ∷ xs) h (f, a) =
      let other : text_eq x.entry.id d.entry.id ≡ false = ground arith in
      let later : text_mem d.entry.id (ids_of xs) ≡ false = ground arith in
      let same = refreshed-other d ds x.entry.id (text_eq_sym x.entry.id d.entry.id other) in
      (subst (Fresh x) (sym same) f, tail-Fresh d ds xs later a)

  pub All-Fresh : (ds : List Doc) → Unique ds → All (λ d. Fresh d (refreshed ds d.entry.id)) ds
  All-Fresh [] u = tt
  All-Fresh (d ∷ ds) (h, u) = (head-Fresh d ds h, tail-Fresh d ds ds h (All-Fresh ds u))
