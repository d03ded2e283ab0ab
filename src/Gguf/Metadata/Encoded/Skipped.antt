-- ===== src/Gguf/Metadata/Encoded/Skipped.antt =====
-- src/gguf.rs: `skip_value` moves behind the value that stands at its position.
use mathlib.Core.Path.{subst}
use mathlib.Core.List.{append_assoc}
use homeassistant_local_voic.Base.{
  ℕ, zero, suc, ◌+◌, ◌*◌, ◌^◌, ◌<◌, ◌≤◌, ◌≡◌, refl, ap, sym, ◌∙◌, none, some, List, ◌++◌, arith,
  length, length-append, inl, inr, Option-cases,
}
use homeassistant_local_voic.Base.Bytes.{to_le}
use homeassistant_local_voic.Base.Text.{Text}
use homeassistant_local_voic.Gguf.{
  Reader, done, pure, times, scalar_size, string, array, skip_scalars, skip_elements, skip_array,
  skip_kind, skip_value,
}
use homeassistant_local_voic.Gguf.Laws.{bind_done}
use homeassistant_local_voic.Gguf.Metadata.Encoded.{
  Value, scalar, text, listed, Values, nil, cons, tag, count, body, bodies, IsLaid, AreLaid,
  prefixed, At, At-behind, fits_file, skip-chunk, u32-word, u64-word,
}

-- The values of an array of scalars have the size of its kind.
length-body :
    (kind n : ℕ) (v : Value)
    → scalar_size kind ≡ some n
    → tag v ≡ kind
    → IsLaid v
    → length (body v) ≡ n
unfolding scalar_size
length-body kind n (scalar t b) e is laid =
    let known : some (length b) ≡ some n = sym laid ∙ ap scalar_size is ∙ e in cc
length-body kind n (text s) e is laid = let no : none ≡ some n = ap scalar_size is ∙ e in cc
length-body kind n (listed k vs) e is laid = let no : none ≡ some n = ap scalar_size is ∙ e in cc

length-bodies :
    (kind n : ℕ) (vs : Values)
    → scalar_size kind ≡ some n
    → AreLaid kind vs
    → length (bodies vs) ≡ n * count vs
length-bodies kind n nil e laid = omega arith
length-bodies kind n (cons v vs) e laid = ground (
  arith,
  length-append (body v) (bodies vs),
  length-bodies kind n vs e laid.2,
  length-body kind n v e laid.0 laid.1,
)

module _ (file : List ℕ) (seek_failed : Text) (max_offset : ℕ) (known : length file ≤ max_offset)
    (signed : max_offset < 2 ^ 63) where
  skip_scalars-bodies :
      (kind n pos : ℕ) (vs : Values) (rest : List ℕ)
      → scalar_size kind ≡ some n
      → AreLaid kind vs
      → At file pos (bodies vs ++ rest)
      → skip_scalars file seek_failed max_offset n (count vs) pos
        ≡ done (tt, pos + length (bodies vs))
  unfolding skip_scalars
  skip_scalars-bodies kind n pos vs rest e laid at =
      let size = length-bodies kind n vs e laid in
      let within = fits_file (bodies vs) rest at in
      rw (sym size)
        (ground (arith, skip-chunk (bodies vs) rest at seek_failed max_offset known signed, within))

  skip_value-scalar :
      (t f pos : ℕ) (b rest : List ℕ)
      → scalar_size t ≡ some (length b)
      → At file pos (b ++ rest)
      → skip_value file seek_failed max_offset (suc f) t pos ≡ done (tt, pos + length b)
  unfolding skip_value skip_kind
  skip_value-scalar t f pos b rest e at =
      rw e (skip-chunk b rest at seek_failed max_offset known signed)

  skip_value-text :
      (f pos : ℕ) (s rest : List ℕ)
      → length s < 2 ^ 64
      → At file pos (prefixed s ++ rest)
      → skip_value file seek_failed max_offset (suc f) string pos
        ≡ done (tt, pos + length (prefixed s))
  unfolding skip_value skip_kind scalar_size
  skip_value-text f pos s rest h at =
      bind_done _ _ (u64-word (length s) (s ++ rest) seek_failed max_offset at h)
      ∙ skip-chunk s rest (At-behind (to_le 8 (length s)) (s ++ rest) at) seek_failed max_offset
          known signed
      ∙ ap (λ n. done (tt, n)) (omega arith)

  skip_value-array :
      (f pos : ℕ)
      → skip_value file seek_failed max_offset (suc f) array pos
        ≡ skip_array file seek_failed max_offset (skip_value file seek_failed max_offset f) pos
  unfolding skip_value skip_kind scalar_size
  skip_value-array f pos = refl

  skip_value-listed :
      (kind f pos : ℕ) (vs : Values) (rest : List ℕ)
      → kind < 2 ^ 32
      → count vs < 2 ^ 64
      → At file pos (body (listed kind vs) ++ rest)
      → skip_elements file seek_failed max_offset
          (skip_value file seek_failed max_offset f)
          kind
          (count vs)
          (scalar_size kind)
          (pos + 4 + 8)
        ≡ done (tt, pos + 4 + 8 + length (bodies vs))
      → skip_value file seek_failed max_offset (suc f) array pos
        ≡ done (tt, pos + length (body (listed kind vs)))
  unfolding skip_array
  skip_value-listed kind f pos vs rest h k at e =
      let behind = At-behind (to_le 4 kind) (to_le 8 (count vs) ++ (bodies vs ++ rest)) at in
      skip_value-array f pos
      ∙ bind_done _ _
          (u32-word kind (to_le 8 (count vs) ++ (bodies vs ++ rest)) seek_failed max_offset at h)
      ∙ bind_done _ _ (u64-word (count vs) (bodies vs ++ rest) seek_failed max_offset behind k)
      ∙ e
      ∙ ap (λ n. done (tt, n)) (omega arith)

  skip_elements-bodies :
      (inner : ℕ → Reader (Unit {0})) (kind pos : ℕ) (vs : Values) (rest : List ℕ)
      → AreLaid kind vs
      → At file pos (bodies vs ++ rest)
      → times (count vs) (inner kind) pos ≡ done (tt, pos + length (bodies vs))
      → skip_elements file seek_failed max_offset inner kind (count vs) (scalar_size kind) pos
        ≡ done (tt, pos + length (bodies vs))
  unfolding skip_elements
  skip_elements-bodies inner kind pos vs rest laid at each =
      elim (Option-cases (scalar_size kind)) [
        | inl e ↦ rw e each
        | inr (n, e) ↦ rw e (skip_scalars-bodies kind n pos vs rest e laid at)
      ]

  times-cons :
      (n pos next last : ℕ) (one : Reader (Unit {0}))
      → one pos ≡ done (tt, next)
      → times n one next ≡ done (tt, last)
      → times (suc n) one pos ≡ done (tt, last)
  unfolding times
  times-cons n pos next last one h k = bind_done _ _ h ∙ k

  times-nil : (pos : ℕ) (one : Reader (Unit {0})) → times 0 one pos ≡ done (tt, pos + 0)
  unfolding times pure
  times-nil pos one = ap (λ n. done (tt, n)) (omega arith)

  mutual
    pub skip_value-body :
        (v : Value) (f pos : ℕ) (rest : List ℕ)
        → length (body v) < f
        → IsLaid v
        → At file pos (body v ++ rest)
        → skip_value file seek_failed max_offset f (tag v) pos ≡ done (tt, pos + length (body v))
    skip_value-body v zero pos rest h laid at = absurd (omega arith)
    skip_value-body (scalar t b) (suc f) pos rest h laid at =
        skip_value-scalar t f pos b rest laid at
    skip_value-body (text s) (suc f) pos rest h laid at = skip_value-text f pos s rest laid at
    skip_value-body (listed kind vs) (suc f) pos rest h laid at =
        let first = At-behind (to_le 4 kind) (to_le 8 (count vs) ++ (bodies vs ++ rest)) at in
        let behind = At-behind (to_le 8 (count vs)) (bodies vs ++ rest) first in
        skip_value-listed kind f pos vs rest laid.0 laid.1 at (
          skip_elements-bodies (skip_value file seek_failed max_offset f) kind (pos + 4 + 8) vs rest
            laid.2 behind (times-bodies vs kind f (pos + 4 + 8) rest (omega arith) laid.2 behind))

    times-bodies :
        (vs : Values) (kind f pos : ℕ) (rest : List ℕ)
        → length (bodies vs) < f
        → AreLaid kind vs
        → At file pos (bodies vs ++ rest)
        → times (count vs) (skip_value file seek_failed max_offset f kind) pos
          ≡ done (tt, pos + length (bodies vs))
    times-bodies nil kind f pos rest h laid at = times-nil pos _
    times-bodies (cons v vs) kind f pos rest h laid at =
        let size = length-append (body v) (bodies vs) in
        let here : At file pos (body v ++ (bodies vs ++ rest)) =
          subst (At file pos) (append_assoc (body v) (bodies vs) rest) at in
        let one = skip_value-body v f pos (bodies vs ++ rest) (omega (arith, size)) laid.1 here in
        let behind = At-behind (body v) (bodies vs ++ rest) here in
        let others =
          times-bodies vs kind f (pos + length (body v)) rest (omega (arith, size)) laid.2 behind in
        times-cons (count vs) pos (pos + length (body v)) (pos + length (body v ++ bodies vs)) _
          (subst
            (λ t. skip_value file seek_failed max_offset f t pos ≡ done (tt, pos + length (body v)))
            laid.0 one)
          (others ∙ ap (λ n. done (tt, n)) (omega (arith, size)))
