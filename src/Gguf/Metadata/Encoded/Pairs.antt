-- ===== src/Gguf/Metadata/Encoded/Pairs.antt =====
-- src/gguf.rs: the entries of a header's metadata, and the reads of one entry.
use homeassistant_local_voic.Base.{
  ℕ, ◌+◌, ◌^◌, ◌<◌, ◌≤◌, ◌≡◌, refl, ap, sym, ◌∙◌, Bool, true, false, Option, none, some, List, [],
  ◌∷◌, ◌++◌, ◌&&◌, ◌==◌, arith, ltb→lt, ==_iff, ◌⊎◌, length, inl, inr, Bool-cases, ltb,
  if◌then◌else◌,
}
use mathlib.Core.Option
use homeassistant_local_voic.Base.Bytes.{to_le}
use homeassistant_local_voic.Base.Text.{Text, codes, text_eq, to_string}
use homeassistant_local_voic.Gguf.{
  Reader, done, pure, bail, ◌>>=◌, ◌>>◌, string, header_truncated, read_exact, scalar_size,
  read_string, skip_value, fuel,
}
use homeassistant_local_voic.Gguf.Laws.{bind_done}
use homeassistant_local_voic.Gguf.Size.{value_of}
use homeassistant_local_voic.Gguf.Metadata.Encoded.{
  Value, scalar, text, listed, tag, body, IsLaid, prefixed, At, At-behind, fits_file,
  read_exact-chunk, u64-word,
}
use homeassistant_local_voic.Gguf.Metadata.Encoded.Skipped.{skip_value-body}

pub record Pair : Type 0 where
  pub key : List ℕ
  pub value : Value

abbrev pub pair_bytes : Pair → List ℕ
pair_bytes p = prefixed p.key ++ (to_le 4 (tag p.value) ++ body p.value)

abbrev pub pairs_bytes : List Pair → List ℕ
pairs_bytes [] = []
pairs_bytes (p ∷ ps) = pair_bytes p ++ pairs_bytes ps

-- A header of some version, with its tensor count and its metadata; `rest` is what follows.
abbrev pub header_bytes : ℕ → ℕ → List Pair → List ℕ → List ℕ
header_bytes version tensors pairs rest =
    codes "GGUF"
    ++ (to_le 4 version
        ++ (to_le 8 tensors ++ (to_le 8 (length pairs) ++ (pairs_bytes pairs ++ rest))))

abbrev pub or_else : Option (List ℕ) → Option (List ℕ) → Option (List ℕ)
or_else none b = b
or_else (some a) b = some a

abbrev pub text_of : Value → Option (List ℕ)
text_of (scalar t b) = none
text_of (text s) = some s
text_of (listed kind vs) = none

-- The first text under the key.
abbrev pub first_text : List ℕ → List Pair → Option (List ℕ)
first_text wanted [] = none
first_text wanted (p ∷ ps) =
    or_else (if text_eq p.key wanted then text_of p.value else none) (first_text wanted ps)

abbrev pub IsShort : Option (List ℕ) → Type 0
IsShort none = Unit
IsShort (some s) = length s ≤ 2 ^ 20

-- What the reader asks of an entry: a key and, under the wanted key, a text of at most a mebibyte.
pub record IsRead (wanted : List ℕ) (p : Pair) : Type 0 where
  pub short_key : length p.key ≤ 2 ^ 20
  pub tagged : tag p.value < 2 ^ 32
  pub laid : IsLaid p.value
  pub short_text : IsShort (if text_eq p.key wanted then text_of p.value else none)

module _ (file : List ℕ) (seek_failed : Text) (max_offset : ℕ) where
  pub read_string-chunk :
      (pos : ℕ) (s rest : List ℕ)
      → length s ≤ 2 ^ 20
      → At file pos (prefixed s ++ rest)
      → read_string file seek_failed max_offset pos ≡ done (s, pos + length (prefixed s))
  unfolding read_string
  read_string-chunk pos s rest h at =
      bind_done _ _ (u64-word (length s) (s ++ rest) seek_failed max_offset at (omega arith))
      ∙ rest_of (Bool-cases (ltb (2 ^ 20) (length s)))
    where
      rest_of :
          (ltb (2 ^ 20) (length s) ≡ true) ⊎ (ltb (2 ^ 20) (length s) ≡ false)
          → (if ltb (2 ^ 20) (length s)
                then bail
                    (codes "string length " ++ (to_string (length s) ++ codes " is not plausible"))
                else read_exact file seek_failed max_offset header_truncated (length s))
              (pos + 8)
            ≡ done (s, pos + length (prefixed s))
      rest_of (inl long) = absurd (omega (arith, ltb→lt _ _ long))
      rest_of (inr fits) = rw fits (
          read_exact-chunk s rest (At-behind (to_le 8 (length s)) (s ++ rest) at) seek_failed
            max_offset header_truncated
          ∙ ap (λ n. done (s, n)) (omega arith))

-- Only a text has the tag of texts.
tag-ne-string : (v : Value) → IsLaid v → text_of v ≡ none → (tag v == string) ≡ false
unfolding scalar_size
tag-ne-string (scalar t b) laid h = elim (Bool-cases (t == string)) [
  | inr other ↦ other
  | inl is ↦
      let same : t ≡ string = (==_iff t string).0 is in
      let no : none ≡ some (length b) = sym (ap scalar_size same) ∙ laid in cc
]
tag-ne-string (text s) laid h = cc
tag-ne-string (listed kind vs) laid h = refl

module _ (lossy : List ℕ → Text) (file : List ℕ) (seek_failed : Text) (max_offset : ℕ)
    (known : length file ≤ max_offset) (signed : max_offset < 2 ^ 63) where
  abbrev Skip : ℕ → Reader (Unit {0})
  Skip = skip_value file seek_failed max_offset (fuel file seek_failed max_offset)

  abbrev Take : Reader (Option Text)
  Take = do value ← read_string file seek_failed max_offset; pure (some (lossy value))

  -- The reader behind a tag, of which the answer about the later entries is known.
  module _ (next : Reader (Option Text)) (pos : ℕ) (v : Value) (more : List ℕ)
      (later : Option (List ℕ)) (laid : IsLaid v) (at : At file pos (body v ++ more))
      (answer : value_of (next (pos + length (body v))) ≡ done (Option.map lossy later)) where
    skipped : value_of ((Skip (tag v) >> next) pos) ≡ done (Option.map lossy later)
    skipped =
        ap value_of (
          bind_done _ _ (
            skip_value-body file seek_failed max_offset known signed v
              (fuel file seek_failed max_offset) pos more
              (omega (arith, fits_file (body v) more at)) laid at))
        ∙ answer

  taken :
      (next : Reader (Option Text)) (pos : ℕ) (s more : List ℕ)
      → length s ≤ 2 ^ 20
      → At file pos (prefixed s ++ more)
      → value_of (Take pos) ≡ done (some (lossy s))
  unfolding pure
  taken next pos s more h at =
      ap value_of (bind_done _ _ (read_string-chunk file seek_failed max_offset pos s more h at))

  pub behind_tag :
      (next : Reader (Option Text)) (pos : ℕ) (v : Value) (more : List ℕ) (later : Option (List ℕ))
      (b : Bool)
      → IsLaid v
      → IsShort (if b then text_of v else none)
      → At file pos (body v ++ more)
      → value_of (next (pos + length (body v))) ≡ done (Option.map lossy later)
      → value_of ((if b && tag v == string then Take else (Skip (tag v) >> next)) pos)
        ≡ done (Option.map lossy (or_else (if b then text_of v else none) later))
  behind_tag next pos v more later false laid short at answer =
      skipped next pos v more later laid at answer
  behind_tag next pos (text s) more later true laid short at answer = taken next pos s more short at
  behind_tag next pos (scalar t c) more later true laid short at answer =
      rw (tag-ne-string (scalar t c) laid refl)
        (skipped next pos (scalar t c) more later laid at answer)
  behind_tag next pos (listed kind vs) more later true laid short at answer =
      skipped next pos (listed kind vs) more later laid at answer
