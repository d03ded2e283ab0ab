-- ===== src/Gguf/Total/Check.antt =====
-- src/gguf.rs: the readers of a whole header come to an end.
use homeassistant_local_voic.Base.{
  ℕ, zero, suc, ◌≡◌, ◌⊎◌, ◌++◌, refl, inl, inr, Bool, true, false, Option, none, some, List, arith,
  ◌&&◌, ◌==◌, ltb, Bool-cases,
}
use homeassistant_local_voic.Base.Result.{Result, ok, err}
use homeassistant_local_voic.Base.Text.{Text, codes, text_eq}
use homeassistant_local_voic.Gguf.{
  Run, failed, done, out_of_fuel, Reader, pure, bail, ◌>>=◌, scalar_size, string, read_exact, bytes,
  u32, u64, read_string, skip_value, counts, fuel,
}
use homeassistant_local_voic.Gguf.Size.{
  skip_entry, alignment_value, saturating_mul, truncated, read_alignment, read_elems, read_tensor,
  read_tensors, end_of, read_min_size, value_of, Entry, min_size_of, verdict, check,
}
use homeassistant_local_voic.Gguf.Metadata.{find_string, read_metadata, metadata_string}
use homeassistant_local_voic.Gguf.Total.{
  Ends, bound, After-read_exact, After-u32, After-u64, After-read_string, After-skip_value,
}

-- The read comes to an end wherever it starts.
abbrev Stops {ℓ} : {A : Type ℓ} → Reader A → Type 0
Stops m = (pos : ℕ) → Ends (λ _. Unit {0}) (m pos)

abbrev forget {ℓ} :
    {A : Type ℓ} (Q : ℕ → Type 0) (r : Run (A × ℕ)) → Ends Q r → Ends (λ _. Unit {0}) r
forget Q (failed message) h = tt
forget Q (done (a, next)) h = tt
forget Q out_of_fuel h = h

Stops-bind {ℓ κ} :
    {A : Type ℓ} {B : Type κ} (m : Reader A) (f : A → Reader B)
    → Stops m
    → ((a : A) → Stops (f a))
    → Stops (m >>= f)
Stops-bind m f h k pos = bound m f pos (λ _. Unit) (λ _. Unit) (h pos) λ a next _. k a next

Stops-pure {ℓ} : {A : Type ℓ} (a : A) → Stops (pure a)
unfolding pure
Stops-pure a pos = tt

Stops-bail {ℓ} : (A : Type ℓ) (message : Text) → Stops (bail {A = A} message)
unfolding bail
Stops-bail A message pos = tt

module _ (file : List ℕ) (seek_failed : Text) (max_offset : ℕ) where
  Stops-read_exact : (eof : Text) (n : ℕ) → Stops (read_exact file seek_failed max_offset eof n)
  Stops-read_exact eof n pos = forget _ _ (After-read_exact file seek_failed max_offset eof n pos)

  Stops-u32 : Stops (u32 file seek_failed max_offset)
  Stops-u32 pos = forget _ _ (After-u32 file seek_failed max_offset pos)

  Stops-u64 : Stops (u64 file seek_failed max_offset)
  Stops-u64 pos = forget _ _ (After-u64 file seek_failed max_offset pos)

  Stops-read_string : Stops (read_string file seek_failed max_offset)
  Stops-read_string pos = forget _ _ (After-read_string file seek_failed max_offset pos)

  -- The fuel that the callers give is enough at every position.
  Stops-skip_value :
      (t : ℕ) → Stops (skip_value file seek_failed max_offset (fuel file seek_failed max_offset) t)
  Stops-skip_value t pos = forget _ _ (
      After-skip_value file seek_failed max_offset (fuel file seek_failed max_offset) t pos
        (omega arith) (omega arith))

  Stops-counts : Stops (counts file seek_failed max_offset)
  unfolding counts bytes
  Stops-counts = Stops-bind _ _ (Stops-read_exact _ 4) λ magic.
      elim (Bool-cases (text_eq magic (codes "GGUF"))) [
        | inr other ↦ rw other (Stops-bail _ _)
        | inl is ↦ rw is (
            Stops-bind _ _ Stops-u32
              λ _. Stops-bind _ _ Stops-u64 λ _. Stops-bind _ _ Stops-u64 λ _. Stops-pure _)
      ]

  Stops-skip_entry : (t alignment : ℕ) → Stops (skip_entry file seek_failed max_offset t alignment)
  unfolding skip_entry
  Stops-skip_entry t alignment = Stops-bind _ _ (Stops-skip_value t) λ _. Stops-pure alignment

  Stops-alignment_value :
      (key : List ℕ) (t alignment : ℕ) (size : Option ℕ)
      → Stops (alignment_value file seek_failed max_offset key t alignment size)
  unfolding alignment_value
  Stops-alignment_value key t alignment none = Stops-skip_entry t alignment
  Stops-alignment_value key t alignment (some n) =
      elim (Bool-cases (text_eq key (codes "general.alignment"))) [
        | inr other ↦ rw other (Stops-skip_entry t alignment)
        | inl is ↦ rw is (Stops-bind _ _ (Stops-read_exact _ n) λ buf. Stops-pure _)
      ]

  Stops-read_alignment :
      (kvs alignment : ℕ) → Stops (read_alignment file seek_failed max_offset kvs alignment)
  unfolding read_alignment
  Stops-read_alignment zero alignment = Stops-pure alignment
  Stops-read_alignment (suc kvs) alignment = Stops-bind _ _ Stops-read_string λ key.
      Stops-bind _ _ Stops-u32 λ t.
        Stops-bind _ _ (Stops-alignment_value key t alignment (scalar_size t))
          λ next. Stops-read_alignment kvs next

  Stops-read_elems : (dims e : ℕ) → Stops (read_elems file seek_failed max_offset dims e)
  unfolding read_elems
  Stops-read_elems zero e = Stops-pure e
  Stops-read_elems (suc dims) e =
      Stops-bind _ _ Stops-u64 λ d. Stops-read_elems dims (saturating_mul e d)

  Stops-read_tensor : (m : ℕ) → Stops (read_tensor file seek_failed max_offset m)
  unfolding read_tensor
  Stops-read_tensor m = Stops-bind _ _ Stops-read_string λ _. Stops-bind _ _ Stops-u32 λ dims.
      Stops-bind _ _ (Stops-read_elems dims 1)
        λ elems. Stops-bind _ _ Stops-u32 λ t. Stops-bind _ _ Stops-u64 λ offset. Stops-pure _

  Stops-read_tensors : (n m : ℕ) → Stops (read_tensors file seek_failed max_offset n m)
  unfolding read_tensors
  Stops-read_tensors zero m = Stops-pure m
  Stops-read_tensors (suc n) m =
      Stops-bind _ _ (Stops-read_tensor m) λ next. Stops-read_tensors n next

  Stops-read_min_size : Stops (read_min_size file seek_failed max_offset)
  unfolding read_min_size end_of
  Stops-read_min_size = Stops-bind _ _ Stops-counts λ c.
      Stops-bind _ _ (Stops-read_alignment c.1 32)
        λ alignment. Stops-bind _ _ (Stops-read_tensors c.0 0) λ max_end pos. tt

  Stops-find_string :
      (lossy : List ℕ → Text) (wanted : List ℕ) (kvs : ℕ)
      → Stops (find_string lossy file seek_failed max_offset wanted kvs)
  unfolding find_string
  Stops-find_string lossy wanted zero = Stops-pure none
  Stops-find_string lossy wanted (suc kvs) = Stops-bind _ _ Stops-read_string λ key.
      Stops-bind _ _ Stops-u32 λ t. elim (Bool-cases (text_eq key wanted && t == string)) [
        | inl is ↦ rw is (Stops-bind _ _ Stops-read_string λ value. Stops-pure _)
        | inr other ↦
            rw other (Stops-bind _ _ (Stops-skip_value t) λ _. Stops-find_string lossy wanted kvs)
      ]

-- A run that is over: an error or a value.
abbrev Answers {ℓ} : {A : Type ℓ} → Run A → Type ℓ
Answers {A = A} r = ((message : Text) × (r ≡ failed message)) ⊎ ((a : A) × (r ≡ done a))

Answers-value_of {ℓ} :
    {A : Type ℓ} (r : Run (A × ℕ)) → Ends (λ _. Unit {0}) r → Answers (value_of r)
Answers-value_of (failed message) h = inl (message, refl)
Answers-value_of (done (a, next)) h = inr (a, refl)
Answers-value_of out_of_fuel h = absurd h

verdict_total :
    (name : Text) (got : ℕ) (r : Run ℕ)
    → Answers r
    → (b : Bool) × (printed : Text) × (verdict name got r ≡ done (b, printed))
unfolding verdict
verdict_total name got (failed message) h = (_, _, refl)
verdict_total name got (done want) h = elim (Bool-cases (ltb got want)) [
  | inl short ↦ (false, truncated name want got, rw short refl)
  | inr long ↦ (true, codes "", rw long refl)
]
verdict_total name got out_of_fuel (inl h) = cc
verdict_total name got out_of_fuel (inr h) = cc

module _ (seek_failed : Text) (max_offset : ℕ) where
  Answers-min_size_of :
      (opened : Result (List ℕ)) → Answers (min_size_of seek_failed max_offset opened)
  unfolding min_size_of
  Answers-min_size_of (err message) = inl (message, refl)
  Answers-min_size_of (ok file) =
      Answers-value_of _ (Stops-read_min_size file seek_failed max_offset 0)

  -- On every path, whatever the file holds, `check` comes to an answer: arrays in arrays never
  -- outlast the fuel, which is the length of the file and one.
  pub check_total :
      (path : Entry)
      → (b : Bool) × (printed : Text) × (check seek_failed max_offset path ≡ done (b, printed))
  unfolding check
  check_total path = elim (Bool-cases path.is_file) [
    | inr missing ↦ (false, codes "MISSING " ++ path.name, rw missing refl)
    | inl there ↦ rw there (verdict_total path.name _ _ (Answers-min_size_of path.opened))
  ]

  -- So does the lookup of a text in the metadata: an error, no text, or the text.
  pub metadata_string_total :
      (lossy : List ℕ → Text) (opened : Result (List ℕ)) (wanted : List ℕ)
      → Answers (metadata_string lossy seek_failed max_offset opened wanted)
  unfolding metadata_string read_metadata
  metadata_string_total lossy (err message) wanted = inl (message, refl)
  metadata_string_total lossy (ok file) wanted = Answers-value_of _ (
      Stops-bind _ _ (Stops-counts file seek_failed max_offset)
        (λ c. Stops-find_string file seek_failed max_offset lossy wanted c.1) 0)
