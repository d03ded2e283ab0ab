-- ===== src/Gguf/Size/Header/Ends.antt =====
-- src/gguf.rs: where the tensors of a header end, in exact and in saturating arithmetic.
use mathlib.Core.List.{foldl}
use native.Mathlib.Nat.{mul_assoc, mod-eq_of_lt}
use homeassistant_local_voic.Base.{
  ℕ, zero, suc, ◌+◌, ◌-◌, ◌*◌, ◌/◌, ◌%◌, ◌^◌, ◌<◌, ◌≤◌, ◌≡◌, ◌↔◌, ap, ◌∙◌, Option, none, some, List,
  [], ◌∷◌, ◌++◌, min, max, arith, All,
}
use homeassistant_local_voic.Gguf.{type_size}
use homeassistant_local_voic.Gguf.Size.{u64_max, saturating_mul, saturating_add, grown, aligned}
use homeassistant_local_voic.Gguf.Size.Header.{Tensor, Header, elems_of, grow}

-- The number of elements, and the bytes from the start of the tensors to the end of one.
abbrev pub product : List ℕ → ℕ
product [] = 1
product (d ∷ ds) = d * product ds

abbrev pub extent : ℕ → ℕ → Option (ℕ × ℕ) → ℕ
extent offset elems none = 0
extent offset elems (some (block, size)) = offset + elems / block * size

abbrev pub tensor_end : Tensor → ℕ
tensor_end t = extent t.offset (product t.dims) (type_size t.kind)

abbrev pub data_start : Header → ℕ
data_start h = aligned h.alignment h.behind

-- The number of elements and the end of a tensor of a known type fit into 64 bits.
abbrev pub FitsWord : ℕ → ℕ → ℕ → Option (ℕ × ℕ) → Type 0
FitsWord start offset elems none = Unit
FitsWord start offset elems (some (block, size)) =
    (elems < 2 ^ 64) × (start + (offset + elems / block * size) < 2 ^ 64)

abbrev pub IsSmall : ℕ → Tensor → Type 0
IsSmall start t = FitsWord start t.offset (product t.dims) (type_size t.kind)

min-mul : (a c m : ℕ) → 0 < m → min (min a m * c) m ≡ min (a * c) m
min-mul a zero m p = omega arith
min-mul a (suc c) m p = grind arith

min-mul_word : (a c : ℕ) → min (min a u64_max * c) u64_max ≡ min (a * c) u64_max
min-mul_word a c = min-mul a c u64_max (omega arith)

elems_of-product :
    (e : ℕ) (ds : List ℕ) → min (elems_of e ds) u64_max ≡ min (e * product ds) u64_max
unfolding saturating_mul
elems_of-product e [] = omega arith
elems_of-product e (d ∷ ds) =
    elems_of-product (saturating_mul e d) ds
    ∙ min-mul_word (e * d) (product ds)
    ∙ ap (λ n. min n u64_max) (mul_assoc e d (product ds))

elems_of-le : (e : ℕ) (ds : List ℕ) → e ≤ u64_max → elems_of e ds ≤ u64_max
unfolding saturating_mul
elems_of-le e [] h = h
elems_of-le e (d ∷ ds) h = elems_of-le (saturating_mul e d) ds (omega arith)

elems_of-exact : (ds : List ℕ) → product ds < 2 ^ 64 → elems_of 1 ds ≡ product ds
elems_of-exact ds h = omega (arith, elems_of-product 1 ds, elems_of-le 1 ds)

within_word : (start offset n : ℕ) → start + (offset + n) < 2 ^ 64 → n < 2 ^ 64
within_word start offset n h = omega arith

grown-exact :
    (start m elems offset : ℕ) (kind : Option (ℕ × ℕ))
    → FitsWord start offset elems kind
    → grown m kind elems offset ≡ max m (extent offset elems kind)
unfolding grown saturating_add
grown-exact start m elems offset none h = omega arith
grown-exact start m elems offset (some (block, size)) (h, k) =
    let wrapped : elems / block * size % 2 ^ 64 ≡ elems / block * size =
      mod-eq_of_lt (within_word start offset (elems / block * size) k) in
    rw wrapped (omega arith)

grow-exact : (start m : ℕ) (t : Tensor) → IsSmall start t → grow m t ≡ max m (tensor_end t)
grow-exact start m t small = exact_kind (type_size t.kind) small
  where
    exact_kind :
        (kind : Option (ℕ × ℕ))
        → FitsWord start t.offset (product t.dims) kind
        → grown m kind (elems_of 1 t.dims) t.offset ≡ max m (extent t.offset (product t.dims) kind)
    exact_kind none h = grown-exact start m (elems_of 1 t.dims) t.offset none tt
    exact_kind (some (block, size)) h =
        rw (elems_of-exact t.dims h.0)
          (grown-exact start m (product t.dims) t.offset (some (block, size)) h)

pub foldl_within :
    (start m most : ℕ) (ts : List Tensor)
    → All (IsSmall start) ts
    → (start + foldl grow m ts ≤ most)
      ↔ ((start + m ≤ most) × All (λ t. start + tensor_end t ≤ most) ts)
foldl_within start m most [] small = (λ h. (h, tt), λ h. h.0)
foldl_within start m most (t ∷ ts) small =
    let rest = foldl_within start (grow m t) most ts small.1 in
    let one = grow-exact start m t small.0 in
    (
      λ h. let r = rest.0 h in (omega (arith, one), (omega (arith, one), r.1)),
      λ h. rest.1 (omega (arith, one), h.1.1),
    )

FitsWord-end :
    (start offset elems : ℕ) (kind : Option (ℕ × ℕ))
    → start < 2 ^ 64
    → FitsWord start offset elems kind
    → start + extent offset elems kind < 2 ^ 64
FitsWord-end start offset elems none h small = omega arith
FitsWord-end start offset elems (some (block, size)) h small = small.1

pub foldl_small :
    (start m : ℕ) (ts : List Tensor)
    → start + m < 2 ^ 64
    → All (IsSmall start) ts
    → start + foldl grow m ts < 2 ^ 64
foldl_small start m [] h small = h
foldl_small start m (t ∷ ts) h small =
    let last =
      FitsWord-end start t.offset (product t.dims) (type_size t.kind) (omega arith) small.0 in
    foldl_small start (grow m t) ts (omega (arith, last, grow-exact start m t small.0)) small.1

grown-le :
    (m elems offset : ℕ) (kind : Option (ℕ × ℕ)) → m ≤ u64_max → grown m kind elems offset ≤ u64_max
unfolding grown saturating_add
grown-le m elems offset none h = h
grown-le m elems offset (some (block, size)) h = omega arith

pub foldl-le : (m : ℕ) (ts : List Tensor) → m ≤ u64_max → foldl grow m ts ≤ u64_max
foldl-le m [] h = h
foldl-le m (t ∷ ts) h =
    foldl-le (grow m t) ts (grown-le m (elems_of 1 t.dims) t.offset (type_size t.kind) h)

le-grown : (m elems offset : ℕ) (kind : Option (ℕ × ℕ)) → m ≤ grown m kind elems offset
unfolding grown
le-grown m elems offset none = omega arith
le-grown m elems offset (some (block, size)) = omega arith

le-foldl : (m : ℕ) (ts : List Tensor) → m ≤ foldl grow m ts
le-foldl m [] = omega arith
le-foldl m (t ∷ ts) =
    omega
      (arith, le-foldl (grow m t) ts, le-grown m (elems_of 1 t.dims) t.offset (type_size t.kind))

-- The bytes of a tensor as they are counted: the number of its elements saturates, the bytes wrap.
abbrev pub counted_bytes : Tensor → ℕ → ℕ → ℕ
counted_bytes t block size = min (product t.dims) (2 ^ 64 - 1) / block * size % 2 ^ 64

elems_of-min : (ds : List ℕ) → elems_of 1 ds ≡ min (product ds) u64_max
elems_of-min ds = omega (arith, elems_of-product 1 ds, elems_of-le 1 ds)

grown_saturated :
    (m elems offset block size : ℕ)
    → u64_max ≤ offset + elems / block * size % 2 ^ 64
    → u64_max ≤ grown m (some (block, size)) elems offset
unfolding grown saturating_add
grown_saturated m elems offset block size h = saturates (elems / block * size % 2 ^ 64) h
  where
    saturates : (n : ℕ) → u64_max ≤ offset + n → u64_max ≤ max m (min (offset + n) u64_max)
    saturates n h = omega arith

-- One row of a known type whose end saturates saturates the maximum of the ends.
pub foldl_saturated :
    (m : ℕ) (front back : List Tensor) (t : Tensor) (block size : ℕ)
    → type_size t.kind ≡ some (block, size)
    → u64_max ≤ t.offset + counted_bytes t block size
    → u64_max ≤ foldl grow m (front ++ (t ∷ back))
foldl_saturated m [] back t block size kind past =
    let last : u64_max ≤ grow m t =
      rw (kind, elems_of-min t.dims)
        (grown_saturated m (min (product t.dims) u64_max) t.offset block size past) in
    omega (arith, last, le-foldl (grow m t) back)
foldl_saturated m (f ∷ front) back t block size kind past =
    foldl_saturated (grow m f) front back t block size kind past
