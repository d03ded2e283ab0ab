-- ===== src/Media/Index/Saved.antt =====
-- `save` and `load`.
use homeassistant_local_voic.Base.{
  ℕ, ◌+◌, ◌*◌, ◌/◌, ◌%◌, ◌≡◌, refl, ap, ◌∙◌, ◌<◌, true, none, some, [], ◌∷◌, arith, All, length,
  not, ◌||◌, ◌&&◌, if◌then◌else◌, ◌==◌, Bool-cases, inl, inr,
}
use homeassistant_local_voic.Base.Text.{Text, text_eq, text_eq_refl}
use homeassistant_local_voic.Media.Index.{
  Index, Vector, Disk, to_le_bytes, from_le_bytes, all_bytes, save, half_saved, load, load_files,
  collect,
}
use homeassistant_local_voic.Media.Index.Rows.{IsAligned}

abbrev pub AllWords : Vector → Type 0
AllWords = All (λ w. w < 4294967296)

abbrev four : ℕ → ℕ → ℕ → ℕ → ℕ
four a b c d = a + 256 * b + 65536 * c + 16777216 * d

word-bytes :
    (w : ℕ)
    → w < 4294967296
    → four (w % 256) ((w / 256) % 256) ((w / 65536) % 256) ((w / 16777216) % 256) ≡ w
word-bytes w h = omega arith

from_le_bytes-all_bytes : (ws : Vector) → AllWords ws → from_le_bytes (all_bytes ws) ≡ ws
unfolding from_le_bytes all_bytes to_le_bytes
from_le_bytes-all_bytes [] h = refl
from_le_bytes-all_bytes (w ∷ ws) (h, hs) =
    rw (from_le_bytes-all_bytes ws hs) (ap (λ x. x ∷ ws) (word-bytes w h))

length-all_bytes : (ws : Vector) → length (all_bytes ws) ≡ length ws * 4
unfolding all_bytes to_le_bytes
length-all_bytes [] = refl
length-all_bytes (w ∷ ws) = omega (arith, length-all_bytes ws)

-- The entries of one index with the vectors of another.
abbrev pub mixed : Index → Index → Index
mixed ix ix' = record {
  dims = ix.dims;
  entries = ix.entries;
  vectors = ix'.vectors;
  by_id = collect 0 ix.entries [];
}

same_size : (l n : ℕ) → (l * 4 == n * 4) ≡ (l == n)
same_size l n = ground arith

module _ (ix ix' : Index) (fingerprint : Text) (disk : Disk) (words : AllWords ix'.vectors) where
  load_files-bytes :
      (wanted : Text) (dims : ℕ)
      → load_files
          (record { fingerprint = fingerprint; header_dims = ix.dims; header_entries = ix.entries })
          (all_bytes ix'.vectors)
          wanted
          dims
        ≡ (if not (text_eq fingerprint wanted) || not (ix.dims == dims)
            then none
            else if length ix'.vectors == length ix.entries * dims
            then some (record (mixed ix ix') { dims = dims })
            else none)
  unfolding load_files
  load_files-bytes wanted dims =
      let bytes = length-all_bytes ix'.vectors in
      let size = same_size (length ix'.vectors) (length ix.entries * dims) in
      let back = from_le_bytes-all_bytes ix'.vectors words in
      elim (Bool-cases (length ix'.vectors == length ix.entries * dims)) [
        | inl fits ↦ rw (load_files, bytes, size, fits, back) refl
        | inr other ↦ rw (load_files, bytes, size, other) refl
      ]

-- After a crash between the renames of a save over a saved index, with the same vector size, `load`
-- finds no index if the new one has another number of values; otherwise it gives the old entries with
-- the new vectors.
pub load-half_saved :
    (ix ix' : Index) (fingerprint : Text) (disk : Disk)
    → AllWords ix'.vectors
    → load (half_saved ix' (save ix fingerprint disk)) fingerprint ix.dims
      ≡ (if length ix'.vectors == length ix.entries * ix.dims then some (mixed ix ix') else none)
unfolding load
load-half_saved ix ix' fingerprint disk words =
    let same : (ix.dims == ix.dims) ≡ true = ground arith in
    load_files-bytes ix ix' fingerprint disk words fingerprint ix.dims
    ∙ rw (text_eq_refl fingerprint, same) refl

-- A saved index is loaded with its entries and its vectors, exactly for its fingerprint and its vector
-- size.
pub load-save :
    (ix : Index) (fingerprint wanted : Text) (dims : ℕ) (disk : Disk)
    → IsAligned ix
    → AllWords ix.vectors
    → load (save ix fingerprint disk) wanted dims
      ≡ (if text_eq fingerprint wanted && (ix.dims == dims) then some (mixed ix ix) else none)
unfolding load
load-save ix fingerprint wanted dims disk a words =
    load_files-bytes ix ix fingerprint disk words wanted dims
    ∙ elim (Bool-cases (text_eq fingerprint wanted)) [
      | inr other ↦ rw other refl
      | inl same ↦ elim (Bool-cases (ix.dims == dims)) [
        | inr other ↦ rw (same, other) refl
        | inl wide ↦
            let equal : ix.dims ≡ dims = ground arith in
            let fits : (length ix.vectors == length ix.entries * dims) ≡ true =
              rw (← equal) (ground (arith, a)) in
            rw (same, wide, fits) (rw (← equal) refl)
      ]
    ]
