-- ===== src/Gguf/Metadata/Encoded/RoundTrip.antt =====
-- src/gguf.rs: `metadata_string` finds in a laid out header what stands there.
use homeassistant_local_voic.Base.{
  ℕ, ◌+◌, ◌^◌, ◌<◌, ◌≤◌, ◌≡◌, refl, ap, ◌∙◌, List, [], ◌∷◌, ◌++◌, arith, length, All,
}
use mathlib.Core.Path.{subst}
use mathlib.Core.List.{append_assoc}
use mathlib.Core.Option
use homeassistant_local_voic.Base.Result.{ok}
use homeassistant_local_voic.Base.Bytes.{to_le}
use homeassistant_local_voic.Base.Text.{Text, codes, text_eq}
use homeassistant_local_voic.Gguf.{done, pure, header_truncated, bytes, counts}
use homeassistant_local_voic.Gguf.Laws.{bind_done}
use homeassistant_local_voic.Gguf.Size.{value_of}
use homeassistant_local_voic.Gguf.Metadata.{find_string, read_metadata, metadata_string}
use homeassistant_local_voic.Gguf.Metadata.Encoded.{
  tag, body, prefixed, At, At-behind, read_exact-chunk, u32-word, u64-word,
}
use homeassistant_local_voic.Gguf.Metadata.Encoded.Pairs.{
  Pair, pair_bytes, pairs_bytes, header_bytes, first_text, IsRead, read_string-chunk, behind_tag,
}

module _ (lossy : List ℕ → Text) (file : List ℕ) (seek_failed : Text) (max_offset : ℕ)
    (known : length file ≤ max_offset) (signed : max_offset < 2 ^ 63) where
  find_string-first_text :
      (wanted : List ℕ) (ps : List Pair) (pos : ℕ) (rest : List ℕ)
      → All (IsRead wanted) ps
      → At file pos (pairs_bytes ps ++ rest)
      → value_of (find_string lossy file seek_failed max_offset wanted (length ps) pos)
        ≡ done (Option.map lossy (first_text wanted ps))
  unfolding find_string pure
  find_string-first_text wanted [] pos rest h at = refl
  find_string-first_text wanted (p ∷ ps) pos rest (h, hs) at =
      let more = pairs_bytes ps ++ rest in
      let here : At file pos (prefixed p.key ++ (to_le 4 (tag p.value) ++ (body p.value ++ more))) =
        subst (At file pos)
          (append_assoc (pair_bytes p) (pairs_bytes ps) rest
            ∙ append_assoc (prefixed p.key) (to_le 4 (tag p.value) ++ body p.value) more)
          at in
      let typed =
        At-behind (prefixed p.key) (to_le 4 (tag p.value) ++ (body p.value ++ more)) here in
      let valued = At-behind (to_le 4 (tag p.value)) (body p.value ++ more) typed in
      let behind = At-behind (body p.value) more valued in
      let last = pos + length (prefixed p.key) + 4 in
      let later = find_string-first_text wanted ps (last + length (body p.value)) rest hs behind in
      ap value_of (
        bind_done _ _ (read_string-chunk file seek_failed max_offset pos p.key _ h.short_key here)
        ∙ bind_done _ _ (u32-word (tag p.value) _ seek_failed max_offset typed h.tagged))
      ∙ behind_tag lossy file seek_failed max_offset known signed
          (find_string lossy file seek_failed max_offset wanted (length ps)) last p.value more
          (first_text wanted ps) (text_eq p.key wanted) h.laid h.short_text valued later

  counts-header :
      (version tensors n : ℕ) (more : List ℕ)
      → version < 2 ^ 32
      → tensors < 2 ^ 64
      → n < 2 ^ 64
      → At file 0 (codes "GGUF" ++ (to_le 4 version ++ (to_le 8 tensors ++ (to_le 8 n ++ more))))
      → (counts file seek_failed max_offset 0 ≡ done ((tensors, n), 24)) × At file 24 more
  unfolding counts bytes pure text_eq
  counts-header version tensors n more v t c at =
      let versioned =
        At-behind (codes "GGUF") (to_le 4 version ++ (to_le 8 tensors ++ (to_le 8 n ++ more))) at in
      let tabled = At-behind (to_le 4 version) (to_le 8 tensors ++ (to_le 8 n ++ more)) versioned in
      let listed = At-behind (to_le 8 tensors) (to_le 8 n ++ more) tabled in
      (
        bind_done _ _ (read_exact-chunk (codes "GGUF") _ at seek_failed max_offset header_truncated)
            ∙ bind_done _ _ (u32-word version _ seek_failed max_offset versioned v)
            ∙ bind_done _ _ (u64-word tensors _ seek_failed max_offset tabled t)
            ∙ bind_done _ _ (u64-word n _ seek_failed max_offset listed c),
        At-behind (to_le 8 n) more listed,
      )

  read_metadata-header :
      (version tensors : ℕ) (pairs : List Pair) (rest wanted : List ℕ)
      → version < 2 ^ 32
      → tensors < 2 ^ 64
      → length pairs < 2 ^ 64
      → All (IsRead wanted) pairs
      → At file 0 (header_bytes version tensors pairs rest)
      → value_of (read_metadata lossy file seek_failed max_offset wanted 0)
        ≡ done (Option.map lossy (first_text wanted pairs))
  unfolding read_metadata
  read_metadata-header version tensors pairs rest wanted v t c laid at =
      let (front, behind) =
        counts-header version tensors (length pairs) (pairs_bytes pairs ++ rest) v t c at in
      ap value_of (bind_done _ _ front) ∙ find_string-first_text wanted pairs 24 rest laid behind

-- In a header that is laid out as the format says, `metadata_string` finds the first text under
-- the wanted key, over all values in front of it, arrays in arrays included; it finds nothing if
-- there is none. Keys and the texts wanted have at most 2 ^ 20 bytes, and the system seeks to every
-- offset of the file and to none of 2 ^ 63.
pub metadata_string-header_bytes :
    (lossy : List ℕ → Text) (seek_failed : Text) (max_offset version tensors : ℕ)
    (pairs : List Pair) (rest wanted : List ℕ)
    → version < 2 ^ 32
    → tensors < 2 ^ 64
    → length pairs < 2 ^ 64
    → All (IsRead wanted) pairs
    → length (header_bytes version tensors pairs rest) ≤ max_offset
    → max_offset < 2 ^ 63
    → metadata_string lossy seek_failed max_offset
        (ok (header_bytes version tensors pairs rest))
        wanted
      ≡ done (Option.map lossy (first_text wanted pairs))
unfolding metadata_string
metadata_string-header_bytes lossy seek_failed max_offset version tensors pairs rest wanted v t c
      laid known signed =
    read_metadata-header lossy (header_bytes version tensors pairs rest) seek_failed max_offset
      known signed version tensors pairs rest wanted v t c laid
      (record { follows = refl; ends = omega arith })
