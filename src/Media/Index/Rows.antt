-- ===== src/Media/Index/Rows.antt =====
-- The index as rows: each entry with its own vector.
use mathlib.Core.List.{append_assoc}
use homeassistant_local_voic.Base.{
  ℕ, suc, ◌+◌, ◌*◌, ◌-◌, ◌≡◌, refl, sym, ap, ◌∙◌, inl, inr, false, some, List, [], ◌∷◌, ◌++◌, arith,
  All, length, length-append, take, drop, take-length_append, drop-length_append, Bool-cases, ltb,
  ◌||◌, if◌then◌else◌, take-append-drop, length-take, length-drop,
}
use homeassistant_local_voic.Base.Text.{Text, text_mem}
use homeassistant_local_voic.Media.Index.{Index, Entry, Vector, slice, keep, remove, collect}

abbrev pub Row : Type 0
Row = Entry × Vector

unfoldable pub rows_from : ℕ → List Entry → Vector → List Row
rows_from dims [] vs = []
rows_from dims (e ∷ es) vs = (e, take dims vs) ∷ rows_from dims es (drop dims vs)

abbrev pub rows : Index → List Row
rows ix = rows_from ix.dims ix.entries ix.vectors

unfoldable pub flat : List Row → Vector
flat [] = []
flat ((e, v) ∷ rs) = v ++ flat rs

abbrev pub heads : List Row → List Entry
heads [] = []
heads ((e, v) ∷ rs) = e ∷ heads rs

-- Each entry has its `dims` values.
abbrev pub IsAligned : Index → Type 0
IsAligned ix = length ix.vectors ≡ length ix.entries * ix.dims

-- The rows whose entries are not in `ids`.
unfoldable pub without : List Text → List Row → List Row
without ids [] = []
without ids ((e, v) ∷ rs) =
    let rest = without ids rs in if text_mem e.id ids then rest else (e, v) ∷ rest

abbrev pub AllWide : ℕ → List Row → Type 0
AllWide dims = All (λ r. length r.1 ≡ dims)

pub take-at : (n : ℕ) (xs ys : Vector) → length xs ≡ n → take n (xs ++ ys) ≡ xs
take-at n xs ys h = rw (← h) (take-length_append xs ys)

pub drop-at : (n : ℕ) (xs ys : Vector) → length xs ≡ n → drop n (xs ++ ys) ≡ ys
drop-at n xs ys h = rw (← h) (drop-length_append xs ys)

pub times_suc : (n d : ℕ) → suc n * d ≡ d + n * d
times_suc n d = omega arith

pub rows_from-flat :
    (dims : ℕ) (rs : List Row) → AllWide dims rs → rows_from dims (heads rs) (flat rs) ≡ rs
unfolding rows_from flat
rows_from-flat dims [] w = refl
rows_from-flat dims ((e, v) ∷ rs) (h, w) =
    rw (take-at dims v (flat rs) h)
      (rw (drop-at dims v (flat rs) h) (rw (rows_from-flat dims rs w) refl))

pub length-flat :
    (dims : ℕ) (rs : List Row) → AllWide dims rs → length (flat rs) ≡ length (heads rs) * dims
unfolding flat
length-flat dims [] w = omega arith
length-flat dims ((e, v) ∷ rs) (h, w) =
    omega
      (arith, length-append v (flat rs), length-flat dims rs w, times_suc (length (heads rs)) dims)

pub rows_from-AllWide :
    (dims : ℕ) (es : List Entry) (vs : Vector)
    → length vs ≡ length es * dims
    → AllWide dims (rows_from dims es vs)
unfolding rows_from
rows_from-AllWide dims [] vs h = tt
rows_from-AllWide dims (e ∷ es) vs h =
    let more = times_suc (length es) dims in
    (
      omega (arith, length-take dims vs),
      rows_from-AllWide dims es (drop dims vs) (omega (arith, length-drop dims vs)),
    )

slice-row :
    (dims i : ℕ) (before row after : Vector)
    → length before ≡ i * dims
    → length row ≡ dims
    → slice (i * dims) ((i + 1) * dims) (before ++ (row ++ after)) ≡ some row
unfolding slice
slice-row dims i before row after h w =
    let more = times_suc i dims in
    let fits : (ltb ((i + 1) * dims) (i * dims)
          || ltb (length (before ++ (row ++ after))) ((i + 1) * dims))
        ≡ false =
      ground (arith, length-append before (row ++ after), length-append row after) in
    let wide : length row ≡ (i + 1) * dims - i * dims = omega arith in
    rw fits (
      rw (drop-at (i * dims) before (row ++ after) h)
        (rw (take-at ((i + 1) * dims - i * dims) row after wide) refl))

-- The loop of `remove` behind the vectors of the entries before.
keep-rows :
    (gone : List Text) (dims i : ℕ) (es : List Entry) (before after : Vector)
    → length before ≡ i * dims
    → length after ≡ length es * dims
    → let kept = without gone (rows_from dims es after) in
      keep gone dims (before ++ after) i es ≡ some (heads kept, flat kept)
unfolding keep without rows_from flat
keep-rows gone dims i [] before after h k = refl
keep-rows gone dims i (e ∷ es) before after h k =
    let more = times_suc (length es) dims in
    let wide : length (take dims after) ≡ dims = omega (arith, length-take dims after) in
    let whole = take-append-drop dims after in
    let row : slice (i * dims) ((i + 1) * dims) (before ++ after) ≡ some (take dims after) =
      ap (λ x. slice (i * dims) ((i + 1) * dims) (before ++ x)) (sym whole)
      ∙ slice-row dims i before (take dims after) (drop dims after) h wide in
    let kept = without gone (rows_from dims es (drop dims after)) in
    let rest : keep gone dims (before ++ after) (i + 1) es ≡ some (heads kept, flat kept) =
      ap (λ x. keep gone dims x (i + 1) es)
        (ap (λ x. before ++ x) (sym whole)
          ∙ sym (append_assoc before (take dims after) (drop dims after)))
      ∙ keep-rows gone dims (i + 1) es (before ++ take dims after) (drop dims after)
          (omega (arith, length-append before (take dims after), times_suc i dims))
          (omega (arith, length-drop dims after)) in
    elim (Bool-cases (text_mem e.id gone)) [
      | inl out ↦ rw out rest
      | inr stays ↦ rw (stays, row, rest) refl
    ]

AllWide-without :
    (gone : List Text) (dims : ℕ) (rs : List Row) → AllWide dims rs → AllWide dims (without gone rs)
unfolding without
AllWide-without gone dims [] w = tt
AllWide-without gone dims ((e, v) ∷ rs) (h, w) = elim (Bool-cases (text_mem e.id gone)) [
  | inl out ↦ rw out (AllWide-without gone dims rs w)
  | inr stays ↦ rw stays (h, AllWide-without gone dims rs w)
]

-- The result of `remove` of an index whose rows are aligned.
pub record Removed (ids : List Text) (ix : Index) : Type 0 where
  pub left : Index
  pub computed : remove ix ids ≡ some (left, length (rows ix) - length (rows left))
  pub same_rows : rows left ≡ without ids (rows ix)
  pub aligned : IsAligned left
  pub same_dims : left.dims ≡ ix.dims
  pub rebuilt : left.by_id ≡ collect 0 left.entries []

pub length-rows_from :
    (dims : ℕ) (es : List Entry) (vs : Vector) → length (rows_from dims es vs) ≡ length es
unfolding rows_from
length-rows_from dims [] vs = refl
length-rows_from dims (e ∷ es) vs = ap suc (length-rows_from dims es (drop dims vs))

pub remove-Removed : (ids : List Text) (ix : Index) → IsAligned ix → Removed ids ix
unfolding remove
remove-Removed ids ix a =
    let kept = without ids (rows ix) in
    let wide =
      AllWide-without ids ix.dims (rows ix) (rows_from-AllWide ix.dims ix.entries ix.vectors a) in
    let left : Index = record ix {
      entries = heads kept;
      vectors = flat kept;
      by_id = collect 0 (heads kept) [];
    } in
    record {
      left = left;
      computed = rw (keep-rows ids ix.dims 0 ix.entries [] ix.vectors (omega arith) a) (
          rw
            (
              length-rows_from ix.dims ix.entries ix.vectors,
              length-rows_from ix.dims (heads kept) (flat kept),
            )
            refl);
      same_rows = rows_from-flat ix.dims kept wide;
      aligned = length-flat ix.dims kept wide;
      same_dims = refl;
      rebuilt = refl;
    }
