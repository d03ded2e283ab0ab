-- ===== src/Media/Index/Map.antt =====
-- `upsert` and `get` against the map from an ID to its row.
use native.Mathlib.Nat.{mul-le-mul_right}
use homeassistant_local_voic.Base.{
  ℕ, ◌+◌, ◌*◌, ◌-◌, ◌≡◌, ◌≢◌, refl, sym, ap, ◌∙◌, ◌<◌, ◌≤◌, inl, inr, ◌⊎◌, true, false, Option,
  none, some, [], ◌∷◌, ◌++◌, arith, length, length-append, take, drop, not, Bool-cases,
  Option-cases, ltb, ◌||◌, if◌then◌else◌, ◌==◌, length-take, length-drop,
}
use homeassistant_local_voic.Base.Text.{Text, text_eq, text_eq_iff}
use homeassistant_local_voic.Base.Result.{ok}
use homeassistant_local_voic.Media.Index.{
  Index, Entry, Vector, position_of, entry_at, copy_slice, replace, add, upsert,
}
use homeassistant_local_voic.Media.Index.Rows.{rows, times_suc, length-rows_from}
use homeassistant_local_voic.Media.Index.Changes.{
  row_at, row_of, IsSound, set_row, row_at-set_row, row_at-set_other, row_at-last, row_at-append,
  entry_at-length, entry_at-append, entry_at-last, rows_from-add, rows_from-set, set_entry-Replaced,
  Replaced,
}

-- What an `upsert` of a vector of the right size does to the index.
pub record Upserted (ix : Index) (e : Entry) (v : Vector) : Type 0 where
  pub after : Index
  pub computed : upsert ix e v ≡ some (ok after)
  pub stored :
      (id : Text) → row_of after id ≡ (if text_eq e.id id then some (e, v) else row_of ix id)
  pub sound : IsSound after
  pub same_dims : after.dims ≡ ix.dims

module _ (ix : Index) (e : Entry) (v : Vector) (s : IsSound ix) (w : length v ≡ ix.dims) where
  add-rows : rows (add ix e v) ≡ rows ix ++ ((e, v) ∷ [])
  unfolding add
  add-rows = rows_from-add ix.dims ix.entries ix.vectors e v s.aligned w

  -- An ID leads below the number of rows.
  leads-below : (id : Text) (i : ℕ) → position_of ix.by_id id ≡ some i → i < length (rows ix)
  leads-below id i h =
      let (x, at, _) = s.leads id i h in
      omega (arith, entry_at-length ix.entries i at, length-rows_from ix.dims ix.entries ix.vectors)

  add-stored :
      (id : Text) → row_of (add ix e v) id ≡ (if text_eq e.id id then some (e, v) else row_of ix id)
  unfolding row_of position_of add
  add-stored id = elim (Bool-cases (text_eq e.id id)) [
    | inl same ↦
        rw (row_of, add, position_of, same)
          (ap (λ rs. row_at rs (length ix.entries)) add-rows
            ∙ ap (λ n. row_at (rows ix ++ ((e, v) ∷ [])) n)
                (sym (length-rows_from ix.dims ix.entries ix.vectors))
            ∙ row_at-last (e, v) (rows ix))
    | inr other ↦ rw (row_of, add, position_of, other) (older id (position_of ix.by_id id) refl)
  ]
    where
      older :
          (id : Text) (p : Option ℕ)
          → position_of ix.by_id id ≡ p
          → (elim p [ none ↦ none | some i ↦ row_at (rows (add ix e v)) i ])
            ≡ (elim p [ none ↦ none | some i ↦ row_at (rows ix) i ])
      older id none q = refl
      older id (some i) q =
          ap (λ rs. row_at rs i) add-rows ∙ row_at-append i (e, v) (rows ix) (leads-below id i q)

  add-leads :
      (id : Text) (i : ℕ)
      → position_of (add ix e v).by_id id ≡ some i
      → (x : Entry) × (entry_at (add ix e v).entries i ≡ some x) × (x.id ≡ id)
  unfolding add position_of
  add-leads id i h = elim (Bool-cases (text_eq e.id id)) [
    | inl same ↦
        let h' = rw same at h in
        let here : length ix.entries ≡ i = cc in
        let equal : e.id ≡ id = (text_eq_iff e.id id).0 same in
        (e, rw (← here) (entry_at-last ix.entries e), equal)
    | inr other ↦
        let h' = rw other at h in
        let (x, at, equal) = s.leads id i h' in (x, entry_at-append ix.entries e i at, equal)
  ]

  add-IsSound : IsSound (add ix e v)
  unfolding add position_of
  add-IsSound = record {
    aligned = rw (length-append ix.entries (e ∷ [])) (
        rw (length-append ix.vectors v)
          (omega (arith, times_suc (length ix.entries) ix.dims, s.aligned)));
    leads = add-leads;
  }

  less_times : (i n : ℕ) → i < n → (i + 1) * ix.dims ≤ n * ix.dims
  less_times i n h = mul-le-mul_right ix.dims (omega arith)

  module _ (i : ℕ) (known : position_of ix.by_id e.id ≡ some i) (r : Replaced i e ix.entries) where
    abbrev replaced : Index
    replaced = record ix {
      entries = r.after;
      vectors = take (i * ix.dims) ix.vectors ++ (v ++ drop ((i + 1) * ix.dims) ix.vectors);
    }

    replaced-rows : rows replaced ≡ set_row i (e, v) (rows ix)
    replaced-rows = rows_from-set ix.dims i ix.entries r.after ix.vectors e v r.computed s.aligned w

    replace-eq : replace ix i e v ≡ some replaced
    unfolding replace copy_slice
    replace-eq =
        let below : i < length ix.entries =
          (let (x, at, _) = s.leads e.id i known in entry_at-length ix.entries i at) in
        let room = less_times i (length ix.entries) below in
        let more = times_suc i ix.dims in
        let fits : (ltb ((i + 1) * ix.dims) (i * ix.dims)
              || (ltb (length ix.vectors) ((i + 1) * ix.dims)
                  || not (length v == (i + 1) * ix.dims - i * ix.dims)))
            ≡ false =
          ground (arith, s.aligned) in
        rw r.computed (rw fits refl)

    -- Two IDs that differ lead to different entries.
    apart : (id : Text) (j : ℕ) → text_eq e.id id ≡ false → position_of ix.by_id id ≡ some j → i ≢ j
    apart id j other q same =
        let (x, at, equal) = s.leads e.id i known in
        let (y, at', equal') = s.leads id j q in
        let as_one : some x ≡ some y = sym at ∙ ap (entry_at ix.entries) same ∙ at' in
        let x_is : x ≡ y = cc in
        let ids : e.id ≡ id = sym equal ∙ ap (λ z. z.id) x_is ∙ equal' in
        let yes = (text_eq_iff e.id id).1 ids in absurd (ground arith)

    replaced-leads :
        (id : Text) (j : ℕ)
        → position_of ix.by_id id ≡ some j
        → (x : Entry) × (entry_at r.after j ≡ some x) × (x.id ≡ id)
    replaced-leads id j q = elim (Bool-cases (text_eq e.id id)) [
      | inl same ↦
          let equal : e.id ≡ id = (text_eq_iff e.id id).0 same in
          let q' : position_of ix.by_id e.id ≡ some j = rw equal q in
          let one : some i ≡ some j = sym known ∙ q' in
          let i_is : i ≡ j = cc in (e, rw (← i_is) r.here, equal)
      | inr other ↦
          let (x, at, equal) = s.leads id j q in (x, r.elsewhere j (apart id j other q) ∙ at, equal)
    ]

    replaced-stored :
        (id : Text) → row_of replaced id ≡ (if text_eq e.id id then some (e, v) else row_of ix id)
    unfolding row_of
    replaced-stored id = elim (Bool-cases (text_eq e.id id)) [
      | inl same ↦
          let equal : e.id ≡ id = (text_eq_iff e.id id).0 same in
          rw same (
            rw (← equal) (
              rw (row_of, known)
                (ap (λ rs. row_at rs i) replaced-rows
                  ∙ row_at-set_row i (e, v) (rows ix) (leads-below e.id i known))))
      | inr other ↦ rw (row_of, other) (older id other (position_of ix.by_id id) refl)
    ]
      where
        older :
            (id : Text)
            → text_eq e.id id ≡ false
            → (p : Option ℕ) → position_of ix.by_id id ≡ p
            → (elim p [ none ↦ none | some j ↦ row_at (rows replaced) j ])
              ≡ (elim p [ none ↦ none | some j ↦ row_at (rows ix) j ])
        older id other none q = refl
        older id other (some j) q =
            ap (λ rs. row_at rs j) replaced-rows
            ∙ row_at-set_other i j (e, v) (rows ix) (apart id j other q)

    replaced-IsSound : IsSound replaced
    replaced-IsSound = record {
      aligned =
          let below : i < length ix.entries =
            (let (x, at, _) = s.leads e.id i known in entry_at-length ix.entries i at) in
          let front = take (i * ix.dims) ix.vectors in
          let back = drop ((i + 1) * ix.dims) ix.vectors in
          rw r.same_length (
            omega (
              arith,
              s.aligned,
              times_suc i ix.dims,
              less_times i (length ix.entries) below,
              length-append front (v ++ back),
              length-append v back,
              length-take (i * ix.dims) ix.vectors,
              length-drop ((i + 1) * ix.dims) ix.vectors,
            ));
      leads = replaced-leads;
    }

  -- On a sound index, `upsert` of a vector of the right size succeeds without an index out of range:
  -- behind it the ID of the entry leads to the entry and its vector, every other ID to the row that it led
  -- to before, and the index is sound.
  pub upsert-Upserted : Upserted ix e v
  unfolding upsert
  upsert-Upserted = go (Option-cases (position_of ix.by_id e.id))
    where
      right : (length v == ix.dims) ≡ true
      right = ground arith

      go :
          ((position_of ix.by_id e.id ≡ none) ⊎ ((i : ℕ) × (position_of ix.by_id e.id ≡ some i)))
          → Upserted ix e v
      go (inl new) = record {
        after = add ix e v;
        computed = rw (upsert, right, new) refl;
        stored = add-stored;
        sound = add-IsSound;
        same_dims = refl;
      }
      go (inr (i, known)) =
          let (x, at, _) = s.leads e.id i known in
          let r = set_entry-Replaced i e ix.entries (entry_at-length ix.entries i at) in
          record {
            after = replaced i known r;
            computed = rw (upsert, right, known) (rw (replace-eq i known r) refl);
            stored = replaced-stored i known r;
            sound = replaced-IsSound i known r;
            same_dims = refl;
          }
