-- ===== src/Gguf/Total.antt =====
-- src/gguf.rs: every read comes to an end. An array that stands in an array costs twelve bytes, so
-- the length of the file bounds how deep they go.
pub mod Check
use homeassistant_local_voic.Base.{
  ℕ, zero, suc, ◌+◌, ◌*◌, ◌^◌, ◌<◌, ◌≤◌, ◌≡◌, refl, inl, inr, Option, none, some, List, [], ◌∷◌,
  ◌||◌, ltb, leb, ◌==◌, arith, length, leb→le, Bool-cases, if◌then◌else◌,
}
use homeassistant_local_voic.Base.Text.{Text, codes}
use homeassistant_local_voic.Gguf.{
  Run, failed, done, out_of_fuel, Reader, pure, bail, ◌>>=◌, ◌>>◌, times, scalar_size, string,
  array, read_exact, bytes, u32, u64, skip, read_string, skip_scalars, skip_elements, skip_array,
  skip_kind, skip_value, counts, fuel,
}

-- The read ended, and at a position that satisfies `Q` if it did not fail.
abbrev pub Ends {ℓ} : {A : Type ℓ} → (ℕ → Type 0) → Run (A × ℕ) → Type 0
Ends Q (failed message) = Unit
Ends Q (done (a, next)) = Q next
Ends Q out_of_fuel = ⊥

-- Not in front of `low`.
abbrev pub After {ℓ} : {A : Type ℓ} → ℕ → Run (A × ℕ) → Type 0
After low = Ends (λ next. low ≤ next)

After-le {ℓ} :
    {A : Type ℓ} (low lower : ℕ) (r : Run (A × ℕ)) → lower ≤ low → After low r → After lower r
After-le low lower (failed message) h k = tt
After-le low lower (done (a, next)) h k = omega arith
After-le low lower out_of_fuel h k = k

pub bound {ℓ κ} :
    {A : Type ℓ} {B : Type κ} (m : Reader A) (f : A → Reader B) (pos : ℕ) (Q R : ℕ → Type 0)
    → Ends Q (m pos)
    → ((a : A) (next : ℕ) → Q next → Ends R (f a next))
    → Ends R ((m >>= f) pos)
unfolding ◌>>=◌
bound m f pos Q R h k =
    elim (m pos)
        as (λ r.
          Ends Q r
          → Ends R (elim r [
            | failed message ↦ failed message
            | done (a, next) ↦ f a next
            | out_of_fuel ↦ out_of_fuel
          ])) [
            | failed message ↦ λ _. tt
            | done (a, next) ↦ λ behind. k a next behind
            | out_of_fuel ↦ λ none. none
          ]
      h

-- A loop whose body moves forward from wherever it starts.
After-times :
    (low : ℕ) (body : Reader (Unit {0}))
    → ((p : ℕ) → low ≤ p → After p (body p))
    → (count pos : ℕ) → low ≤ pos
    → After low (times count body pos)
unfolding times pure
After-times low body forward zero pos h = h
After-times low body forward (suc count) pos h =
    bound body (λ _. times count body) pos (λ p. pos ≤ p) (λ p. low ≤ p) (forward pos h)
      λ _ next behind. After-times low body forward count next (omega arith)

module _ (file : List ℕ) (seek_failed : Text) (max_offset : ℕ) where
  pub After-read_exact :
      (eof : Text) (n pos : ℕ) → After (pos + n) (read_exact file seek_failed max_offset eof n pos)
  unfolding read_exact
  After-read_exact eof n pos = elim (Bool-cases (n == 0 || leb (pos + n) (length file))) [
    | inl fits ↦ rw fits (omega arith)
    | inr short ↦ rw short tt
  ]

  pub After-u32 : (pos : ℕ) → After (pos + 4) (u32 file seek_failed max_offset pos)
  unfolding u32 pure
  After-u32 pos =
      bound _ _ pos (λ p. pos + 4 ≤ p) (λ p. pos + 4 ≤ p) (After-read_exact _ 4 pos) λ _ next h. h

  pub After-u64 : (pos : ℕ) → After (pos + 8) (u64 file seek_failed max_offset pos)
  unfolding u64 pure
  After-u64 pos =
      bound _ _ pos (λ p. pos + 8 ≤ p) (λ p. pos + 8 ≤ p) (After-read_exact _ 8 pos) λ _ next h. h

  After-skip : (n pos : ℕ) → After pos (skip file seek_failed max_offset n pos)
  unfolding skip
  After-skip n pos = elim (Bool-cases (leb (2 ^ 63) n)) [
    | inl long ↦ rw long tt
    | inr short ↦ elim (Bool-cases (ltb max_offset (pos + n))) [
      | inl far ↦ rw (short, far) tt
      | inr near ↦ rw (short, near) (omega arith)
    ]
  ]

  pub After-read_string : (pos : ℕ) → After (pos + 8) (read_string file seek_failed max_offset pos)
  unfolding read_string bail
  After-read_string pos =
      bound _ _ pos (λ p. pos + 8 ≤ p) (λ p. pos + 8 ≤ p) (After-u64 pos)
        λ len next h. elim (Bool-cases (ltb (2 ^ 20) len)) [
          | inl long ↦ rw long tt
          | inr short ↦ rw short (
              After-le (next + len) (pos + 8) (read_exact file seek_failed max_offset _ len next)
                (omega arith) (After-read_exact _ len next))
        ]

  After-skip_scalars :
      (n count pos : ℕ) → After pos (skip_scalars file seek_failed max_offset n count pos)
  unfolding skip_scalars bail
  After-skip_scalars n count pos = elim (Bool-cases (leb (2 ^ 64) (n * count))) [
    | inl long ↦ rw long tt
    | inr short ↦ rw short (After-skip (n * count) pos)
  ]

  -- A number of eight bytes lies in the file.
  abbrev Inside : ℕ → ℕ → Type 0
  Inside pos next = (pos + 8 ≤ next) × (next ≤ length file)

  Inside-read_exact :
      (eof : Text) (pos : ℕ) → Ends (Inside pos) (read_exact file seek_failed max_offset eof 8 pos)
  unfolding read_exact
  Inside-read_exact eof pos = elim (Bool-cases (leb (pos + 8) (length file))) [
    | inl fits ↦ rw fits (omega (arith, leb→le _ _ fits))
    | inr short ↦ rw short tt
  ]

  Inside-u64 : (pos : ℕ) → Ends (Inside pos) (u64 file seek_failed max_offset pos)
  unfolding u64 pure
  Inside-u64 pos = bound _ _ pos (Inside pos) (Inside pos) (Inside-read_exact _ pos) λ _ next h. h

  -- What the elements of an array satisfy from `low` on.
  abbrev Forward : ℕ → (ℕ → Reader (Unit {0})) → Type 0
  Forward low inner = (kind p : ℕ) → low ≤ p → After p (inner kind p)

  After-skip_elements :
      (inner : ℕ → Reader (Unit {0})) (kind count : ℕ) (size : Option ℕ) (pos : ℕ)
      → Forward pos inner
      → After pos (skip_elements file seek_failed max_offset inner kind count size pos)
  unfolding skip_elements
  After-skip_elements inner kind count none pos h =
      After-times pos (inner kind) (h kind) count pos (omega arith)
  After-skip_elements inner kind count (some n) pos h = After-skip_scalars n count pos

  -- The number of elements is behind twelve bytes, in the file.
  After-skip_array :
      (inner : ℕ → Reader (Unit {0})) (pos : ℕ)
      → ((q : ℕ) → pos + 12 ≤ q → q ≤ length file → Forward q inner)
      → After pos (skip_array file seek_failed max_offset inner pos)
  unfolding skip_array
  After-skip_array inner pos h =
      bound _ _ pos (λ p. pos + 4 ≤ p) (λ p. pos ≤ p) (After-u32 pos)
        λ kind p first.
          bound _ _ p (Inside p) (λ q. pos ≤ q) (Inside-u64 p)
            λ count q inside.
              After-le q pos
                (skip_elements file seek_failed max_offset inner kind count (scalar_size kind) q)
                (omega arith)
                (After-skip_elements inner kind count (scalar_size kind) q
                  (h q (omega arith) inside.1))

  After-skip_kind :
      (inner : ℕ → Reader (Unit {0})) (t : ℕ) (size : Option ℕ) (pos : ℕ)
      → ((q : ℕ) → pos + 12 ≤ q → q ≤ length file → Forward q inner)
      → After pos (skip_kind file seek_failed max_offset inner t size pos)
  unfolding skip_kind bail
  After-skip_kind inner t (some n) pos h = After-skip n pos
  After-skip_kind inner t none pos h = elim (Bool-cases (t == string)) [
    | inl is ↦ rw is (
        bound _ _ pos (λ p. pos + 8 ≤ p) (λ p. pos ≤ p) (After-u64 pos)
          λ len next behind.
            After-le next pos (skip file seek_failed max_offset len next) (omega arith)
              (After-skip len next))
    | inr other ↦ elim (Bool-cases (t == array)) [
      | inl is ↦ rw (other, is) (After-skip_array inner pos h)
      | inr unknown ↦ rw (other, unknown) tt
    ]
  ]

  -- With the twelve bytes of each array behind it, the fuel left covers its elements.
  pub After-skip_value :
      (f t pos : ℕ)
      → length file < pos + f
      → 0 < f
      → After pos (skip_value file seek_failed max_offset f t pos)
  unfolding skip_value
  After-skip_value zero t pos h k = absurd (omega arith)
  After-skip_value (suc f) t pos h k =
      After-skip_kind (skip_value file seek_failed max_offset f) t (scalar_size t) pos
        λ q first inside kind p later. After-skip_value f kind p (omega arith) (omega arith)
