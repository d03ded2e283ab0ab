-- ===== src/Gguf.antt =====
-- src/gguf.rs: the reader of GGUF headers. A file is its bytes, and a read moves a position in it.
-- The text of a failed seek and the greatest offset that the system seeks to are parameters.
pub mod Laws
pub mod Size
pub mod Metadata
pub mod Total
use homeassistant_local_voic.Base.{
  ℕ, zero, suc, ◌+◌, ◌*◌, ◌/◌, ◌^◌, ◌≡◌, refl, Bool, true, false, Option, none, some, List, [], ◌∷◌,
  ◌++◌, ◌&&◌, ◌||◌, ltb, leb, ◌==◌, take, drop, length, if◌then◌else◌,
}
use homeassistant_local_voic.Base.Bytes.{from_le}
use homeassistant_local_voic.Base.Text.{Text, codes, text_eq, to_string}

-- (block size, bytes per block) of the ggml tensor types.
unfoldable pub type_size : ℕ → Option (ℕ × ℕ)
type_size t =
    if t == 0
    then some (1, 4)
    else if t == 1
    then some (1, 2)
    else if t == 2
    then some (32, 18)
    else if t == 3
    then some (32, 20)
    else if t == 6
    then some (32, 22)
    else if t == 7
    then some (32, 24)
    else if t == 8
    then some (32, 34)
    else if t == 9
    then some (32, 36)
    else if t == 10
    then some (256, 84)
    else if t == 11
    then some (256, 110)
    else if t == 12
    then some (256, 144)
    else if t == 13
    then some (256, 176)
    else if t == 14
    then some (256, 210)
    else if t == 15
    then some (256, 292)
    else if t == 18
    then some (256, 98)
    else if t == 20
    then some (32, 18)
    else if t == 21
    then some (256, 110)
    else if t == 23
    then some (256, 136)
    else if t == 24
    then some (1, 1)
    else if t == 25
    then some (1, 2)
    else if t == 26
    then some (1, 4)
    else if t == 27 || t == 28
    then some (1, 8)
    else if t == 30
    then some (1, 2)
    else if t == 39
    then some (32, 17)
    else none

abbrev pub string : ℕ
string = 8

abbrev pub array : ℕ
array = 9

unfoldable pub scalar_size : ℕ → Option ℕ
scalar_size t =
    if t == 0 || t == 1 || t == 7
    then some 1
    else if t == 2 || t == 3
    then some 2
    else if leb 4 t && leb t 6
    then some 4
    else if leb 10 t && leb t 12
    then some 8
    else none

-- What a read ends in. `out_of_fuel` is no outcome of the code: it stands for more nested arrays
-- than the fuel of `skip_value`.
pub data Run {ℓ} (A : Type ℓ) : Type ℓ where
  failed : Text → Run A
  done : A → Run A
  out_of_fuel : Run A

-- Reads from the position `pos` on, and gives the position behind what it read.
abbrev pub Reader {ℓ} : Type ℓ → Type ℓ
Reader A = ℕ → Run (A × ℕ)

unfoldable pub pure {ℓ} : {A : Type ℓ} → A → Reader A
pure a pos = done (a, pos)

unfoldable pub bail {ℓ} : {A : Type ℓ} → Text → Reader A
bail message pos = failed message

infixl 5 ◌>>=◌ ◌>>◌
unfoldable pub ◌>>=◌ {ℓ κ} : {A : Type ℓ} {B : Type κ} → Reader A → (A → Reader B) → Reader B
◌>>=◌ m f pos = elim (m pos) [
  | failed message ↦ failed message
  | done (a, next) ↦ f a next
  | out_of_fuel ↦ out_of_fuel
]

abbrev pub ◌>>◌ {ℓ κ} : {A : Type ℓ} {B : Type κ} → Reader A → Reader B → Reader B
m >> k = m >>= λ _. k

-- `for _ in 0..count { body()?; }`.
unfoldable pub times : ℕ → Reader (Unit {0}) → Reader (Unit {0})
times zero body = pure tt
times (suc count) body = body >> times count body

abbrev pub header_truncated : Text
header_truncated = codes "header truncated"

module _ (file : List ℕ) (seek_failed : Text) (max_offset : ℕ) where
  -- `read_exact`: nothing to read is no end of the file.
  unfoldable pub read_exact : Text → ℕ → Reader (List ℕ)
  read_exact eof n pos =
      if n == 0 || leb (pos + n) (length file)
      then done (take n (drop pos file), pos + n)
      else failed eof

  unfoldable pub bytes : ℕ → Reader (List ℕ)
  unfolding read_exact
  bytes = read_exact header_truncated

  unfoldable pub u32 : Reader ℕ
  unfolding bytes
  u32 = bytes 4 >>= λ b. pure (from_le b)

  unfoldable pub u64 : Reader ℕ
  unfolding bytes
  u64 = bytes 8 >>= λ b. pure (from_le b)

  -- `seek_relative` moves behind the end of the file too, up to the system's greatest offset.
  unfoldable pub skip : ℕ → Reader (Unit {0})
  skip n pos =
      if leb (2 ^ 63) n
      then failed (codes "bad length")
      else if ltb max_offset (pos + n)
      then failed seek_failed
      else done (tt, pos + n)

  unfoldable pub read_string : Reader (List ℕ)
  unfolding u64 read_exact
  read_string = do
    len ← u64
    if ltb (2 ^ 20) len
        then bail (codes "string length " ++ (to_string len ++ codes " is not plausible"))
        else read_exact header_truncated len

  -- `checked_mul` and the skip over an array of scalars.
  unfoldable pub skip_scalars : ℕ → ℕ → Reader (Unit {0})
  unfolding skip
  skip_scalars n count =
      if leb (2 ^ 64) (n * count) then bail (codes "bad array") else skip (n * count)

  unfoldable pub unknown_value : ℕ → Text
  unknown_value t = codes "unknown GGUF value type " ++ to_string t

  -- The parts of `skip_value`, whose recursive call is `inner`.
  unfoldable pub skip_elements : (ℕ → Reader (Unit {0})) → ℕ → ℕ → Option ℕ → Reader (Unit {0})
  skip_elements inner kind count (some n) = skip_scalars n count
  skip_elements inner kind count none = times count (inner kind)

  unfoldable pub skip_array : (ℕ → Reader (Unit {0})) → Reader (Unit {0})
  skip_array inner = do kind ← u32; count ← u64; skip_elements inner kind count (scalar_size kind)

  unfoldable pub skip_kind : (ℕ → Reader (Unit {0})) → ℕ → Option ℕ → Reader (Unit {0})
  skip_kind inner t (some n) = skip n
  skip_kind inner t none =
      if t == string
      then u64 >>= skip
      else if t == array
      then skip_array inner
      else bail (unknown_value t)

  -- The fuel bounds how deep arrays stand in arrays.
  unfoldable pub skip_value : ℕ → ℕ → Reader (Unit {0})
  unfolding skip_kind skip_array skip_elements u32 u64 skip skip_scalars times
  skip_value zero t = λ pos. out_of_fuel
  skip_value (suc fuel) t = skip_kind (skip_value fuel) t (scalar_size t)

  -- The magic, the version, and the numbers of tensors and of metadata entries.
  unfoldable pub counts : Reader (ℕ × ℕ)
  unfolding bytes u32 u64
  counts = do
    magic ← bytes 4
    if text_eq magic (codes "GGUF")
        then (do u32; tensors ← u64; kvs ← u64; pure (tensors, kvs))
        else bail (codes "not a GGUF file (bad magic)")

  abbrev pub fuel : ℕ
  fuel = suc (length file)
