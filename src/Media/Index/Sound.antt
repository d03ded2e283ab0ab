-- ===== src/Media/Index/Sound.antt =====
-- The index stays sound.
use homeassistant_local_voic.Base.{
  ℕ, zero, suc, ◌+◌, ◌*◌, ◌-◌, ◌≡◌, refl, sym, ap, ◌∙◌, inl, inr, ◌⊎◌, Option, none, some, List, [],
  ◌∷◌, arith, length, not, ◌||◌, ◌>>=◌, Bool-cases, ◌==◌,
}
use homeassistant_local_voic.Base.Text.{Text, text_eq, text_eq_iff}
use homeassistant_local_voic.Media.Index.{
  Index, Entry, ById, Header, Disk, position_of, entry_at, collect, remove, load, load_files,
  from_le_bytes,
}
use homeassistant_local_voic.Media.Index.Rows.{rows, without, remove-Removed}
use homeassistant_local_voic.Media.Index.Changes.{IsSound}

-- The entry, counted from `i` on, that an ID leads to.
abbrev Leads : ℕ → List Entry → Text → ℕ → Type 0
Leads i es id j = (k : ℕ) × (j ≡ i + k) × (e : Entry) × (entry_at es k ≡ some e) × (e.id ≡ id)

collect-Leads :
    (i : ℕ) (es : List Entry) (m : ById) (id : Text) (j : ℕ)
    → position_of (collect i es m) id ≡ some j
    → (position_of m id ≡ some j) ⊎ Leads i es id j
unfolding collect entry_at position_of
collect-Leads i [] m id j h = inl h
collect-Leads i (e ∷ es) m id j h = elim (collect-Leads (i + 1) es ((e.id, i) ∷ m) id j h) [
  | inr (k, at, x, there, equal) ↦ inr (suc k, omega arith, x, there, equal)
  | inl found ↦ elim (Bool-cases (text_eq e.id id)) [
    | inl same ↦
        let found' = rw (same, position_of) at found in
        inr (zero, (let i_is : i ≡ j = cc in omega arith), e, refl, (text_eq_iff e.id id).0 same)
    | inr other ↦ inl (rw (other, position_of) at found)
  ]
]

collect-leads :
    (es : List Entry) (id : Text) (j : ℕ)
    → position_of (collect 0 es []) id ≡ some j
    → (e : Entry) × (entry_at es j ≡ some e) × (e.id ≡ id)
unfolding position_of
collect-leads es id j h = elim (collect-Leads 0 es [] id j h) [
  | inl nothing ↦ absurd cc
  | inr (k, at, x, there, equal) ↦
      let same : k ≡ j = omega arith in (x, ap (entry_at es) (sym same) ∙ there, equal)
]

-- `remove` of an index that is sound never indexes out of range; the rows of the index that it leaves
-- are those whose entries are not named, each with its own vector, in their order, and this index is
-- sound; it returns how many rows went away.
pub remove-IsSound :
    (ids : List Text) (ix : Index)
    → IsSound ix
    → (left : Index) × (remove ix ids ≡ some (left, length (rows ix) - length (rows left)))
      × (rows left ≡ without ids (rows ix))
      × IsSound left
remove-IsSound ids ix s =
    let r = remove-Removed ids ix s.aligned in
    (
      r.left,
      r.computed,
      r.same_rows,
      record {
        aligned = r.aligned;
        leads = λ id i h.
            collect-leads r.left.entries id i (ap (λ m. position_of m id) (sym r.rebuilt) ∙ h);
      },
    )

length-from_le_bytes : (raw : List ℕ) (n : ℕ) → length raw ≡ n * 4 → length (from_le_bytes raw) ≡ n
unfolding from_le_bytes
length-from_le_bytes [] n h = omega arith
length-from_le_bytes (a ∷ []) n h = absurd (omega arith)
length-from_le_bytes (a ∷ b ∷ []) n h = absurd (omega arith)
length-from_le_bytes (a ∷ b ∷ c ∷ []) n h = absurd (omega arith)
length-from_le_bytes (a ∷ b ∷ c ∷ d ∷ raw) zero h = absurd (omega arith)
length-from_le_bytes (a ∷ b ∷ c ∷ d ∷ raw) (suc n) h =
    ap suc (length-from_le_bytes raw n (omega arith))

load_files-IsSound :
    (header : Header) (raw : List ℕ) (fingerprint : Text) (dims : ℕ) {ix : Index}
    → load_files header raw fingerprint dims ≡ some ix
    → IsSound ix × (ix.dims ≡ dims)
unfolding load_files
load_files-IsSound header raw fingerprint dims {ix} h =
    elim (Bool-cases
      (not (text_eq header.fingerprint fingerprint) || not (header.header_dims == dims))) [
        | inl bad ↦ absurd (let h' = rw (bad, load_files) at h in cc)
        | inr good ↦
            elim (Bool-cases (not (length raw == length header.header_entries * dims * 4))) [
              | inl bad ↦ absurd (let h' = rw (good, load_files, bad) at h in cc)
              | inr fits ↦
                  let h' = rw (good, load_files, fits) at h in
                  let loaded : Index = record {
                    dims = dims;
                    entries = header.header_entries;
                    vectors = from_le_bytes raw;
                    by_id = collect 0 header.header_entries [];
                  } in
                  let same : loaded ≡ ix = cc in
                  let size : length raw ≡ length header.header_entries * dims * 4 = ground arith in
                  rw (← same) (
                    record {
                      aligned = length-from_le_bytes raw (length header.header_entries * dims) size;
                      leads = collect-leads header.header_entries;
                    },
                    refl,
                  )
            ]
      ]

-- Whatever the two files hold, an index that `load` gives is sound and has the vector size asked for.
pub load-IsSound :
    (disk : Disk) (fingerprint : Text) (dims : ℕ) {ix : Index}
    → load disk fingerprint dims ≡ some ix
    → IsSound ix × (ix.dims ≡ dims)
unfolding load
load-IsSound disk fingerprint dims {ix} h = go disk.entries_json disk.vectors_f32 h
  where
    go :
        (a : Option Header) (b : Option (List ℕ))
        → (do header ← a; raw ← b; load_files header raw fingerprint dims) ≡ some ix
        → IsSound ix × (ix.dims ≡ dims)
    go none b q = absurd cc
    go (some header) none q = absurd cc
    go (some header) (some raw) q = load_files-IsSound header raw fingerprint dims q
