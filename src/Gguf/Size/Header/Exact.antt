-- ===== src/Gguf/Size/Header/Exact.antt =====
-- src/gguf.rs: which files are accepted, where the arithmetic is exact and where it is not.
use mathlib.Core.List.{foldl}
use homeassistant_local_voic.Base.{
  ℕ, ◌+◌, ◌-◌, ◌^◌, ◌<◌, ◌≤◌, ◌≡◌, ◌↔◌, refl, ap, ◌∙◌, sym, true, some, List, ◌∷◌, ◌++◌, arith, All,
  length,
}
use homeassistant_local_voic.Base.Result.{ok}
use homeassistant_local_voic.Base.Text.{Text, codes}
use homeassistant_local_voic.Gguf.{done, pure, type_size}
use homeassistant_local_voic.Gguf.Laws.{bind_done}
use homeassistant_local_voic.Gguf.Size.{u64_max, Entry, check, verdict, value_of, min_size_of}
use homeassistant_local_voic.Gguf.Size.Header.{
  Tensor, Header, read_header, grow, min_size, read_min_size-header,
}
use homeassistant_local_voic.Gguf.Size.Header.Ends.{
  tensor_end, data_start, IsSmall, foldl_within, foldl_small, foldl-le, counted_bytes,
  foldl_saturated,
}

verdict_accepts :
    (name : Text) (got want : ℕ)
    → (verdict name got (done want) ≡ done (true, codes "")) ↔ (want ≤ got)
unfolding verdict
verdict_accepts name got want = (λ h. ground arith, λ h. ground arith)

-- The path is a file that can be read, with its length in the metadata.
pub record Holds (path : Entry) (file : List ℕ) : Type 0 where
  pub there : path.is_file ≡ true
  pub readable : path.opened ≡ ok file
  pub measured : path.metadata_len ≡ some (length file)

module _ (seek_failed : Text) (max_offset : ℕ) (file : List ℕ) where
  min_size_of-header :
      {h : Header} {pos : ℕ}
      → read_header file seek_failed max_offset 0 ≡ done (h, pos)
      → min_size_of seek_failed max_offset (ok file) ≡ done (min_size h)
  unfolding min_size_of pure
  min_size_of-header {h} {pos} parsed =
      ap (λ r. value_of (r 0)) (read_min_size-header file seek_failed max_offset)
      ∙ ap value_of (bind_done _ (λ k. pure (min_size k)) parsed)

module _ (seek_failed : Text) (max_offset : ℕ) {path : Entry} {file : List ℕ} where
  check-verdict :
      Holds path file
      → {h : Header} {pos : ℕ} → read_header file seek_failed max_offset 0 ≡ done (h, pos)
      → check seek_failed max_offset path ≡ verdict path.name (length file) (done (min_size h))
  unfolding check
  check-verdict holds {h} {pos} parsed =
      rw
        (
          holds.there,
          holds.measured,
          holds.readable,
          min_size_of-header seek_failed max_offset file parsed,
        )
        refl

  -- A file whose header parses, and whose tensors' sizes and ends stay below 2 ^ 64, is accepted
  -- exactly if it is as long as the start of the tensors and as the end of each one.
  pub check-EndsWithin :
      (h : Header) (pos : ℕ)
      → Holds path file
      → read_header file seek_failed max_offset 0 ≡ done (h, pos)
      → data_start h < 2 ^ 64
      → All (IsSmall (data_start h)) h.tensors
      → (check seek_failed max_offset path ≡ done (true, codes "")) ↔ (
          (data_start h ≤ length file)
          × All (λ t. data_start h + tensor_end t ≤ length file) h.tensors)
  check-EndsWithin h pos holds parsed start small =
      let answer = check-verdict holds parsed in
      let accepted = verdict_accepts path.name (length file) (min_size h) in
      let sizes = foldl_within (data_start h) 0 (length file) h.tensors small in
      let below = foldl_small (data_start h) 0 h.tensors (omega arith) small in
      (
        λ e.
            let fits = accepted.0 (sym answer ∙ e) in
            let parts = sizes.0 (omega arith) in (omega (arith, parts.0), parts.1),
        λ e. let fits = sizes.1 (omega (arith, e.0), e.1) in answer ∙ accepted.1 (omega arith),
      )

  -- One tensor of a known type whose end, the offset and the bytes as they are counted, is 2 ^ 64 - 1 or
  -- more makes the sum wrap: the file is accepted if it is at most one byte shorter than its header, whatever
  -- other tensors the header declares.
  pub check-saturated :
      (h : Header) (pos : ℕ) (front back : List Tensor) (t : Tensor) (block size : ℕ)
      → Holds path file
      → read_header file seek_failed max_offset 0 ≡ done (h, pos)
      → h.tensors ≡ front ++ (t ∷ back)
      → type_size t.kind ≡ some (block, size)
      → 2 ^ 64 - 1 ≤ t.offset + counted_bytes t block size
      → 0 < data_start h
      → data_start h ≤ length file + 1
      → check seek_failed max_offset path ≡ done (true, codes "")
  check-saturated h pos front back t block size holds parsed rows kind past start long =
      let top : u64_max ≤ foldl grow 0 h.tensors =
        rw rows (foldl_saturated 0 front back t block size kind past) in
      let whole = foldl-le 0 h.tensors (omega arith) in
      check-verdict holds parsed
      ∙ (verdict_accepts path.name (length file) (min_size h)).1 (omega arith)
