-- ===== src/Gguf/Size/Header.antt =====
-- src/gguf.rs: the rows of a tensor table as values, their sizes in exact arithmetic, and the
-- sizes of `expected_min_size` in terms of them.
pub mod Ends
pub mod Exact
use mathlib.Core.List.{foldl}
use mathlib.Core.Path.{fun_ext}
use homeassistant_local_voic.Base.{
  ℕ, zero, suc, ◌+◌, ◌*◌, ◌/◌, ◌%◌, ◌^◌, ◌<◌, ◌≡◌, refl, ap, Option, none, some, List, [], ◌∷◌, max,
  arith, ◌∙◌,
}
use homeassistant_local_voic.Base.Text.{Text}
use homeassistant_local_voic.Gguf.{
  done, Reader, pure, ◌>>=◌, ◌>>◌, type_size, u32, u64, read_string, counts,
}
use homeassistant_local_voic.Gguf.Laws.{bind_assoc, pure-bind, monad}
use homeassistant_local_voic.Gguf.Size.{
  saturating_mul, grown, aligned, read_alignment, read_elems, read_tensor, read_tensors, end_of,
  read_min_size,
}

pub record Tensor : Type 0 where
  pub dims : List ℕ
  pub kind : ℕ
  pub offset : ℕ

pub record Header : Type 0 where
  pub alignment : ℕ
  pub tensors : List Tensor
  pub behind : ℕ

unfoldable pub here : ℕ → List Tensor → Reader Header
here alignment rows pos = done (record { alignment = alignment; tensors = rows; behind = pos }, pos)

module _ (file : List ℕ) (seek_failed : Text) (max_offset : ℕ) where
  unfoldable pub read_dims : ℕ → Reader (List ℕ)
  read_dims zero = pure []
  read_dims (suc n) = do d ← u64 file seek_failed max_offset; ds ← read_dims n; pure (d ∷ ds)

  unfoldable pub read_row : Reader Tensor
  read_row = do
    read_string file seek_failed max_offset
    n ← u32 file seek_failed max_offset
    dims ← read_dims n
    kind ← u32 file seek_failed max_offset
    offset ← u64 file seek_failed max_offset
    pure (record { dims = dims; kind = kind; offset = offset })

  unfoldable pub read_table : ℕ → Reader (List Tensor)
  read_table zero = pure []
  read_table (suc n) = do row ← read_row; rows ← read_table n; pure (row ∷ rows)

  unfoldable pub read_header : Reader Header
  read_header = do
    (tensors, kvs) ← counts file seek_failed max_offset
    alignment ← read_alignment file seek_failed max_offset kvs 32
    rows ← read_table tensors
    here alignment rows

abbrev pub elems_of : ℕ → List ℕ → ℕ
elems_of = foldl saturating_mul

abbrev pub grow : ℕ → Tensor → ℕ
grow max_end t = grown max_end (type_size t.kind) (elems_of 1 t.dims) t.offset

abbrev pub min_size : Header → ℕ
min_size h = (aligned h.alignment h.behind + foldl grow 0 h.tensors) % 2 ^ 64

module _ (file : List ℕ) (seek_failed : Text) (max_offset : ℕ) where
  here-end_of :
      (alignment : ℕ) (rows : List Tensor)
      → (here alignment rows >>= λ h. pure (min_size h))
        ≡ end_of file seek_failed max_offset alignment (foldl grow 0 rows)
  unfolding here end_of ◌>>=◌ pure
  here-end_of alignment rows = refl

  read_elems-dims :
      (n e : ℕ)
      → read_elems file seek_failed max_offset n e
        ≡ (read_dims file seek_failed max_offset n >>= λ ds. pure (elems_of e ds))
  unfolding read_elems read_dims
  read_elems-dims zero e = simp pure-bind
  read_elems-dims (suc n) e =
      simp (bind_assoc, pure-bind, λ (d : ℕ). read_elems-dims n (saturating_mul e d))

  read_tensor-row :
      (m : ℕ)
      → read_tensor file seek_failed max_offset m
        ≡ (read_row file seek_failed max_offset >>= λ t. pure (grow m t))
  unfolding read_tensor read_row
  read_tensor-row m = simp (bind_assoc, pure-bind, read_elems-dims)

  read_tensors-table :
      (n m : ℕ)
      → read_tensors file seek_failed max_offset n m
        ≡ (read_table file seek_failed max_offset n >>= λ ts. pure (foldl grow m ts))
  unfolding read_tensors read_table
  read_tensors-table zero m = simp pure-bind
  read_tensors-table (suc n) m =
      simp (bind_assoc, pure-bind, read_tensor-row, λ (k : ℕ). read_tensors-table n k)

  -- What `expected_min_size` reads is the header, and its number the size that follows from it.
  pub read_min_size-header :
      read_min_size file seek_failed max_offset
      ≡ (read_header file seek_failed max_offset >>= λ h. pure (min_size h))
  unfolding read_min_size read_header
  read_min_size-header = simp (bind_assoc, pure-bind, read_tensors-table, here-end_of)
