-- ===== src/Gguf/Metadata/Encoded.antt =====
-- src/gguf.rs: the bytes of a header's metadata, as the GGUF format lays them out, and reads at a
-- position of which the bytes that follow are known.
pub mod Skipped
pub mod Pairs
pub mod RoundTrip
use homeassistant_local_voic.Base.{
  ℕ, zero, suc, ◌+◌, ◌*◌, ◌^◌, ◌<◌, ◌≤◌, ◌≡◌, refl, ap, sym, ◌∙◌, Option, none, some, List, [], ◌∷◌,
  ◌++◌, ◌&&◌, ◌||◌, ◌==◌, leb, arith, length, take, drop, max, length-append, take-length_append,
  drop-length_append, if◌then◌else◌, Bool, true, false,
}
use homeassistant_local_voic.Base.Bytes.{to_le, from_le, from_le-to_le}
use homeassistant_local_voic.Base.Text.{Text, codes, text_eq}
use homeassistant_local_voic.Gguf.{
  Run, done, pure, ◌>>=◌, scalar_size, string, array, read_exact, bytes, u32, u64, read_string,
  skip,
}
use homeassistant_local_voic.Gguf.Laws.{bind_done}

-- A value of the metadata: the bytes of a scalar of type `t`, a text, or an array.
mutual
  pub data Value : Type 0 where
    scalar : ℕ → List ℕ → Value
    text : List ℕ → Value
    listed : ℕ → Values → Value

  pub data Values : Type 0 where
    nil : Values
    cons : Value → Values → Values

abbrev pub tag : Value → ℕ
tag (scalar t b) = t
tag (text s) = string
tag (listed kind vs) = array

abbrev pub count : Values → ℕ
count nil = 0
count (cons v vs) = suc (count vs)

abbrev pub prefixed : List ℕ → List ℕ
prefixed s = to_le 8 (length s) ++ s

abbrev mutual
  pub body : Value → List ℕ
  body (scalar t b) = b
  body (text s) = prefixed s
  body (listed kind vs) = to_le 4 kind ++ (to_le 8 (count vs) ++ bodies vs)

  pub bodies : Values → List ℕ
  bodies nil = []
  bodies (cons v vs) = body v ++ bodies vs

-- The types fit their values: a scalar has the bytes of its type, and an array's values its kind.
abbrev mutual
  pub IsLaid : Value → Type 0
  IsLaid (scalar t b) = scalar_size t ≡ some (length b)
  IsLaid (text s) = length s < 2 ^ 64
  IsLaid (listed kind vs) = (kind < 2 ^ 32) × (count vs < 2 ^ 64) × AreLaid kind vs

  pub AreLaid : ℕ → Values → Type 0
  AreLaid kind nil = Unit
  AreLaid kind (cons v vs) = (tag v ≡ kind) × IsLaid v × AreLaid kind vs

-- The bytes of `file` from `pos` on are `rest`.
pub record At (file : List ℕ) (pos : ℕ) (rest : List ℕ) : Type 0 where
  pub follows : drop pos file ≡ rest
  pub ends : pos + length rest ≡ length file

drop-nil : (n : ℕ) → drop {A = ℕ} n [] ≡ []
drop-nil zero = refl
drop-nil (suc n) = refl

drop-add : (m n : ℕ) (xs : List ℕ) → drop (m + n) xs ≡ drop n (drop m xs)
drop-add zero n xs = let e : 0 + n ≡ n = omega arith in rw e refl
drop-add (suc m) n [] = let e : suc m + n ≡ suc (m + n) = omega arith in rw e (sym (drop-nil n))
drop-add (suc m) n (x ∷ xs) =
    let e : suc m + n ≡ suc (m + n) = omega arith in rw e (drop-add m n xs)

module _ {file : List ℕ} {pos : ℕ} (chunk rest : List ℕ) (at : At file pos (chunk ++ rest)) where
  pub At-behind : At file (pos + length chunk) rest
  At-behind = record {
    follows =
        drop-add pos (length chunk) file
        ∙ ap (drop (length chunk)) at.follows
        ∙ drop-length_append chunk rest;
    ends = omega (arith, at.ends, length-append chunk rest);
  }

  pub fits_file : pos + length chunk ≤ length file
  fits_file = omega (arith, at.ends, length-append chunk rest)

  module _ (seek_failed : Text) (max_offset : ℕ) where
    pub read_exact-chunk :
        (eof : Text)
        → read_exact file seek_failed max_offset eof (length chunk) pos
          ≡ done (chunk, pos + length chunk)
    unfolding read_exact
    read_exact-chunk eof =
        let enough : (length chunk == 0 || leb (pos + length chunk) (length file)) ≡ true =
          ground (arith, fits_file) in
        rw (enough, at.follows, take-length_append chunk rest) refl

    pub skip-chunk :
        length file ≤ max_offset
        → max_offset < 2 ^ 63
        → skip file seek_failed max_offset (length chunk) pos ≡ done (tt, pos + length chunk)
    unfolding skip
    skip-chunk h k = ground (arith, fits_file)

module _ {file : List ℕ} {pos : ℕ} (w : ℕ) (rest : List ℕ) (seek_failed : Text)
    (max_offset : ℕ) where
  pub u32-word :
      At file pos (to_le 4 w ++ rest)
      → w < 2 ^ 32
      → u32 file seek_failed max_offset pos ≡ done (w, pos + 4)
  unfolding u32 pure bytes
  u32-word at h =
      bind_done _ _ (read_exact-chunk (to_le 4 w) rest at seek_failed max_offset _)
      ∙ ap (λ n. done (n, pos + 4)) (from_le-to_le 4 w (omega arith))

  pub u64-word :
      At file pos (to_le 8 w ++ rest)
      → w < 2 ^ 64
      → u64 file seek_failed max_offset pos ≡ done (w, pos + 8)
  unfolding u64 pure bytes
  u64-word at h =
      bind_done _ _ (read_exact-chunk (to_le 8 w) rest at seek_failed max_offset _)
      ∙ ap (λ n. done (n, pos + 8)) (from_le-to_le 8 w (omega arith))
