-- ===== src/Media/Sync/Synced/Kept.antt =====
-- The rows that the removal leaves.
use mathlib.Core.Path.{subst}
use homeassistant_local_voic.Base.{
  ℕ, zero, suc, ◌≡◌, refl, sym, ap, ◌∙◌, ◌⊎◌, inl, inr, true, false, Option, none, some, List, [],
  ◌∷◌, All, Bool-cases, drop, arith,
}
use homeassistant_local_voic.Base.Text.{Text, text_eq_refl, text_mem}
use homeassistant_local_voic.Media.Index.{Index, Entry, Vector, position_of}
use homeassistant_local_voic.Media.Index.Rows.{Row, rows, rows_from, without}
use homeassistant_local_voic.Media.Index.Changes.{IsSound, row_at, row_of}
use homeassistant_local_voic.Media.Sync.{gone_ids}
use homeassistant_local_voic.Media.Sync.Lookup.{entry_in, entry_in-row_at}

-- A row of a list of rows.
abbrev pub RowOf : List Row → Row → Type 0
RowOf rs r = (i : ℕ) × (row_at rs i ≡ some r)

pub row_of-RowOf :
    (ix : Index)
    → IsSound ix
    → (id : Text) {r : Row} → row_of ix id ≡ some r
    → RowOf (rows ix) r × (r.0.id ≡ id)
unfolding row_of
row_of-RowOf ix s id {r} = go (position_of ix.by_id id) refl
  where
    go :
        (p : Option ℕ)
        → position_of ix.by_id id ≡ p
        → (elim p [ none ↦ none | some i ↦ row_at (rows ix) i ]) ≡ some r
        → RowOf (rows ix) r × (r.0.id ≡ id)
    go none q h = absurd cc
    go (some i) q h =
        let (e, at, equal) = s.leads id i q in
        let entry : some r.0 ≡ some e =
          sym (ap entry_in h) ∙ entry_in-row_at ix.dims ix.entries ix.vectors i ∙ at in
        let same : r.0 ≡ e = cc in ((i, h), ap (λ x. x.id) same ∙ equal)

row_at-All :
    (Q : Row → Type 0) (rs : List Row) (i : ℕ) {r : Row} → All Q rs → row_at rs i ≡ some r → Q r
unfolding row_at
row_at-All Q [] i a h = absurd cc
row_at-All Q (x ∷ rs) zero {r} (q, a) h = let same : x ≡ r = cc in rw (← same) q
row_at-All Q (x ∷ rs) (suc i) (q, a) h = row_at-All Q rs i a h

pub without-RowOf :
    (ids : List Text) (rs : List Row) {r : Row} → RowOf (without ids rs) r → RowOf rs r
unfolding row_at without
without-RowOf ids [] (i, h) = absurd cc
without-RowOf ids ((e, v) ∷ rs) {r} (i, h) = elim (Bool-cases (text_mem e.id ids)) [
  | inl out ↦ let (j, k) = without-RowOf ids rs (i, rw (out, without) at h) in (suc j, k)
  | inr stays ↦ go (λ j k. without-RowOf ids rs (j, k)) i (rw (stays, without) at h)
]
  where
    go :
        ((j : ℕ) → row_at (without ids rs) j ≡ some r → RowOf rs r)
        → (i : ℕ) → row_at ((e, v) ∷ without ids rs) i ≡ some r
        → RowOf ((e, v) ∷ rs) r
    go later zero k = (zero, k)
    go later (suc i) k = let (j, l) = later i k in (suc j, l)

module _ (seen : List Text) where
  abbrev SeenOrGone : List Text → Entry → Type 0
  SeenOrGone gone e = (text_mem e.id seen ≡ true) ⊎ (text_mem e.id gone ≡ true)

  one_more :
      (id : Text) (gone : List Text) (es : List Entry)
      → All (SeenOrGone gone) es
      → All (SeenOrGone (id ∷ gone)) es
  one_more id gone [] a = tt
  one_more id gone (e ∷ es) (inl s, a) = (inl s, one_more id gone es a)
  one_more id gone (e ∷ es) (inr g, a) = (inr (ground arith), one_more id gone es a)

  gone_ids-All : (es : List Entry) → All (SeenOrGone (gone_ids seen es)) es
  unfolding gone_ids
  gone_ids-All [] = tt
  gone_ids-All (e ∷ es) = elim (Bool-cases (text_mem e.id seen)) [
    | inl there ↦
        let same : gone_ids seen (e ∷ es) ≡ gone_ids seen es = rw (gone_ids, there) refl in
        subst (λ g. All (SeenOrGone g) (e ∷ es)) (sym same) (inl there, gone_ids-All es)
    | inr missing ↦
        let more : gone_ids seen (e ∷ es) ≡ e.id ∷ gone_ids seen es = rw (gone_ids, missing) refl in
        subst (λ g. All (SeenOrGone g) (e ∷ es)) (sym more)
          (inr (rw (text_eq_refl e.id) refl), one_more e.id (gone_ids seen es) es (gone_ids-All es))
  ]

  without-All :
      (gone : List Text) (dims : ℕ) (es : List Entry) (vs : Vector)
      → All (SeenOrGone gone) es
      → All (λ r. text_mem r.0.id seen ≡ true) (without gone (rows_from dims es vs))
  unfolding without rows_from
  without-All gone dims [] vs a = tt
  without-All gone dims (e ∷ es) vs (x, a) = elim (Bool-cases (text_mem e.id gone)) [
    | inl out ↦ rw (without, out) (without-All gone dims es (drop dims vs) a)
    | inr stays ↦ rw (without, stays) (kept x stays, without-All gone dims es (drop dims vs) a)
  ]
    where
      kept : SeenOrGone gone e → text_mem e.id gone ≡ false → text_mem e.id seen ≡ true
      kept (inl s) h = s
      kept (inr g) h = cc

  -- What is left is listed.
  pub left-seen :
      (ix : Index) {r : Row}
      → RowOf (without (gone_ids seen ix.entries) (rows ix)) r
      → text_mem r.0.id seen ≡ true
  left-seen ix (i, h) =
      row_at-All (λ r. text_mem r.0.id seen ≡ true) (without (gone_ids seen ix.entries) (rows ix)) i
        (without-All (gone_ids seen ix.entries) ix.dims ix.entries ix.vectors
          (gone_ids-All ix.entries))
        h
