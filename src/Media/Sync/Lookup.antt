-- ===== src/Media/Sync/Lookup.antt =====
-- Looking an ID up in a sound index, and the documents that are to be embedded.
use homeassistant_local_voic.Base.{
  ℕ, zero, suc, ◌≡◌, refl, sym, ap, ◌∙◌, Option, none, some, List, [], ◌∷◌, if◌then◌else◌,
}
use homeassistant_local_voic.Base.Text.{Text}
use homeassistant_local_voic.Media.Index.{Index, Entry, Vector, position_of, entry_at, get}
use homeassistant_local_voic.Media.Index.Rows.{Row, rows, rows_from}
use homeassistant_local_voic.Media.Index.Changes.{IsSound, row_at, row_of}
use homeassistant_local_voic.Media.Docs.{Doc}
use homeassistant_local_voic.Media.Sync.{hash_differs, todo_of}

abbrev pub entry_in : Option Row → Option Entry
entry_in none = none
entry_in (some r) = some r.0

pub entry_in-row_at :
    (dims : ℕ) (es : List Entry) (vs : Vector) (i : ℕ)
    → entry_in (row_at (rows_from dims es vs) i) ≡ entry_at es i
unfolding row_at rows_from entry_at
entry_in-row_at dims [] vs i = refl
entry_in-row_at dims (e ∷ es) vs zero = refl
entry_in-row_at dims (e ∷ es) vs (suc i) = entry_in-row_at dims es _ i

pub get-row_of :
    (ix : Index) → IsSound ix → (id : Text) → get ix id ≡ some (entry_in (row_of ix id))
unfolding get row_of
get-row_of ix s id = go (position_of ix.by_id id) refl
  where
    go :
        (p : Option ℕ)
        → position_of ix.by_id id ≡ p
        → (elim p [
          | none ↦ some none
          | some i ↦ elim (entry_at ix.entries i) [ none ↦ none | some e ↦ some (some e) ]
        ])
          ≡ some (entry_in (elim p [ none ↦ none | some i ↦ row_at (rows ix) i ]))
    go none q = refl
    go (some i) q =
        let (e, at, _) = s.leads id i q in
        rw at (ap some (sym (entry_in-row_at ix.dims ix.entries ix.vectors i ∙ at)))

-- The documents whose hash is not the one that the index has.
unfoldable pub needed : Index → List Doc → List Doc
needed ix [] = []
needed ix (d ∷ ds) =
    let rest = needed ix ds in
    if hash_differs d (entry_in (row_of ix d.entry.id)) then d ∷ rest else rest

pub todo_of-needed :
    (ix : Index) → IsSound ix → (ds : List Doc) → todo_of ix ds ≡ some (needed ix ds)
unfolding todo_of needed
todo_of-needed ix s [] = refl
todo_of-needed ix s (d ∷ ds) = rw (todo_of, get-row_of ix s d.entry.id, todo_of-needed ix s ds) refl
