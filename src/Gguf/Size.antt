-- ===== src/Gguf/Size.antt =====
-- src/gguf.rs: the size that a header declares, in 64-bit arithmetic, and the check of a file.
pub mod Header
use homeassistant_local_voic.Base.{
  ℕ, zero, suc, ◌+◌, ◌-◌, ◌*◌, ◌/◌, ◌%◌, ◌^◌, Bool, true, false, Option, none, some, List, ◌++◌,
  min, max, ltb, ◌==◌, length, unwrap_or, if◌then◌else◌,
}
use homeassistant_local_voic.Base.Bytes.{from_le}
use homeassistant_local_voic.Base.Result.{Result, ok, err}
use homeassistant_local_voic.Base.Text.{Text, codes, text_eq, to_string}
use homeassistant_local_voic.Gguf.{
  Run, failed, done, out_of_fuel, Reader, pure, ◌>>=◌, ◌>>◌, scalar_size, type_size, read_exact,
  u32, u64, read_string, skip_value, counts, fuel,
}

abbrev pub u64_max : ℕ
u64_max = 2 ^ 64 - 1

unfoldable pub saturating_mul : ℕ → ℕ → ℕ
saturating_mul a b = min (a * b) u64_max

unfoldable pub saturating_add : ℕ → ℕ → ℕ
saturating_add a b = min (a + b) u64_max

-- The match on a tensor's type: `*` wraps in a release build, `saturating_add` does not.
unfoldable pub grown : ℕ → Option (ℕ × ℕ) → ℕ → ℕ → ℕ
grown max_end none elems offset = max_end
grown max_end (some (block, size)) elems offset =
    max max_end (saturating_add offset (elems / block * size % 2 ^ 64))

-- The start of the tensors: the position behind the header, rounded up to the alignment.
unfoldable pub aligned : ℕ → ℕ → ℕ
aligned alignment start =
    if start % alignment == 0 then start else start + (alignment - start % alignment)

module _ (file : List ℕ) (seek_failed : Text) (max_offset : ℕ) where
  unfoldable pub skip_entry : ℕ → ℕ → Reader ℕ
  skip_entry t alignment =
      skip_value file seek_failed max_offset (fuel file seek_failed max_offset) t >> pure alignment

  -- One entry of the metadata, behind its key and its type: `match scalar_size(t)`.
  unfoldable pub alignment_value : List ℕ → ℕ → ℕ → Option ℕ → Reader ℕ
  alignment_value key t alignment none = skip_entry t alignment
  alignment_value key t alignment (some n) =
      if text_eq key (codes "general.alignment")
      then (do
        buf ← read_exact file seek_failed max_offset (codes "failed to fill whole buffer") n
        pure (max (from_le buf) 1))
      else skip_entry t alignment

  unfoldable pub read_alignment : ℕ → ℕ → Reader ℕ
  read_alignment zero alignment = pure alignment
  read_alignment (suc kvs) alignment = do
    key ← read_string file seek_failed max_offset
    t ← u32 file seek_failed max_offset
    next ← alignment_value key t alignment (scalar_size t)
    read_alignment kvs next

  unfoldable pub read_elems : ℕ → ℕ → Reader ℕ
  unfolding saturating_mul
  read_elems zero elems = pure elems
  read_elems (suc dims) elems = do
    d ← u64 file seek_failed max_offset
    read_elems dims (saturating_mul elems d)

  -- One row of the tensor table.
  unfoldable pub read_tensor : ℕ → Reader ℕ
  read_tensor max_end = do
    read_string file seek_failed max_offset
    dims ← u32 file seek_failed max_offset
    elems ← read_elems dims 1
    t ← u32 file seek_failed max_offset
    offset ← u64 file seek_failed max_offset
    pure (grown max_end (type_size t) elems offset)

  unfoldable pub read_tensors : ℕ → ℕ → Reader ℕ
  read_tensors zero max_end = pure max_end
  read_tensors (suc tensors) max_end = read_tensor max_end >>= read_tensors tensors

  -- `stream_position` and the sum, which wraps in a release build.
  unfoldable pub end_of : ℕ → ℕ → Reader ℕ
  unfolding aligned
  end_of alignment max_end pos = done ((aligned alignment pos + max_end) % 2 ^ 64, pos)

  unfoldable pub read_min_size : Reader ℕ
  read_min_size = do
    (tensors, kvs) ← counts file seek_failed max_offset
    alignment ← read_alignment kvs 32
    max_end ← read_tensors tensors 0
    end_of alignment max_end

abbrev pub value_of {ℓ} : {A : Type ℓ} → Run (A × ℕ) → Run A
value_of (failed message) = failed message
value_of (done (a, pos)) = done a
value_of out_of_fuel = out_of_fuel

-- A path: whether a file is there, what opening it gives, and the length in its metadata.
pub record Entry : Type 0 where
  pub name : Text
  pub is_file : Bool
  pub opened : Result (List ℕ)
  pub metadata_len : Option ℕ

-- The line about a file that is too short.
unfoldable pub truncated : Text → ℕ → ℕ → Text
truncated name want got =
    codes "TRUNCATED "
    ++ (name
        ++ (codes ": header declares at least "
            ++ (to_string want
                ++ (codes " bytes, file is "
                    ++ (to_string got
                        ++ (codes " bytes ("
                            ++ (to_string (want - got) ++ codes " bytes short)")))))))

unfoldable pub verdict : Text → ℕ → Run ℕ → Run (Bool × Text)
verdict name got (failed message) =
    done (false, codes "CORRUPT " ++ (name ++ (codes ": " ++ message)))
verdict name got (done want) =
    if ltb got want then done (false, truncated name want got) else done (true, codes "")
verdict name got out_of_fuel = out_of_fuel

module _ (seek_failed : Text) (max_offset : ℕ) where
  unfoldable pub min_size_of : Result (List ℕ) → Run ℕ
  min_size_of (err message) = failed message
  min_size_of (ok file) = value_of (read_min_size file seek_failed max_offset 0)

  unfoldable pub expected_min_size : Entry → Run ℕ
  unfolding min_size_of
  expected_min_size path = min_size_of path.opened

  -- The answer, and what is printed on the error output.
  unfoldable pub check : Entry → Run (Bool × Text)
  unfolding expected_min_size verdict
  check path =
      if path.is_file
      then verdict path.name (unwrap_or path.metadata_len 0) (expected_min_size path)
      else done (false, codes "MISSING " ++ path.name)
