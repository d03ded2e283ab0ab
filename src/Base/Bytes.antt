-- ===== src/Base/Bytes.antt =====
-- Little-endian numbers, and lists cut into pieces.
use Prim.Native.Nat.{ℕ, zero, suc, ◌+◌, ◌*◌, ◌/◌, ◌%◌, ◌^◌, ◌<◌, ◌≤◌}
use mathlib.Core.Path.{◌≡◌, refl, ap, ◌∙◌}
use mathlib.Core.List.{List, [], ◌∷◌, ◌++◌}
use native.Mathlib.Omega.{arith}
use native.Mathlib.Nat.{pow-suc}
use homeassistant_local_voic.Base.Lists.{
  length, take, drop, All, length-take, length-drop, take-append-drop,
}
use homeassistant_local_voic.Base.Tests.{ltb, if◌then◌else◌}
use homeassistant_local_voic.Base.Text.{is_empty, concat}

-- `to_le_bytes` of a number of `n` bytes.
abbrev pub to_le : ℕ → ℕ → List ℕ
to_le zero w = []
to_le (suc n) w = (w % 256) ∷ to_le n (w / 256)

-- `from_le_bytes`.
abbrev pub from_le : List ℕ → ℕ
from_le [] = 0
from_le (b ∷ bytes) = b + 256 * from_le bytes

pub length-to_le : (n w : ℕ) → length (to_le n w) ≡ n
length-to_le zero w = refl
length-to_le (suc n) w = ap suc (length-to_le n (w / 256))

pub from_le-to_le_two : (w : ℕ) → w < 2 ^ 16 → from_le (to_le 2 w) ≡ w
from_le-to_le_two w h = omega arith

pub from_le-to_le_four : (w : ℕ) → w < 2 ^ 32 → from_le (to_le 4 w) ≡ w
from_le-to_le_four w h = omega arith

pow_part : (n w : ℕ) → w < 256 ^ suc n → w / 256 < 256 ^ n
pow_part n w h = let e : 256 ^ suc n ≡ 256 ^ n * 256 = pow-suc 256 n in omega (arith, e)

pub from_le-to_le : (n w : ℕ) → w < 256 ^ n → from_le (to_le n w) ≡ w
from_le-to_le zero w h = omega arith
from_le-to_le (suc n) w h =
    let rest = from_le-to_le n (w / 256) (pow_part n w h) in omega (arith, rest)

-- `chunks` and `chunks_exact`: a piece takes at least one value, so the length bounds the rounds.
pieces {ℓ} : {A : Type ℓ} → ℕ → ℕ → List A → List (List A)
pieces zero n xs = []
pieces (suc f) n xs =
    let rest = pieces f n (drop n xs) in if is_empty xs then [] else take n xs ∷ rest

unfoldable pub chunks {ℓ} : {A : Type ℓ} → ℕ → List A → List (List A)
unfolding pieces
chunks n xs = pieces (length xs) n xs

unfoldable pub pieces_exact {ℓ} : {A : Type ℓ} → ℕ → ℕ → List A → List (List A)
pieces_exact zero n xs = []
pieces_exact (suc f) n xs =
    let rest = pieces_exact f n (drop n xs) in if ltb (length xs) n then [] else take n xs ∷ rest

unfoldable pub chunks_exact {ℓ} : {A : Type ℓ} → ℕ → List A → List (List A)
unfolding pieces_exact
chunks_exact n xs = pieces_exact (length xs) n xs

concat-pieces {ℓ} :
    {A : Type ℓ} (f n : ℕ) (xs : List A) → 0 < n → length xs ≤ f → concat (pieces f n xs) ≡ xs
unfolding pieces concat
concat-pieces zero n [] p h = refl
concat-pieces zero n (x ∷ xs) p h = absurd (omega arith)
concat-pieces (suc f) n [] p h = refl
concat-pieces (suc f) n (x ∷ xs) p h =
    ap (λ ys. take n (x ∷ xs) ++ ys)
      (concat-pieces f n (drop n (x ∷ xs)) p (omega (arith, length-drop n (x ∷ xs))))
    ∙ take-append-drop n (x ∷ xs)

-- The pieces are the list, cut.
pub concat-chunks {ℓ} : {A : Type ℓ} (n : ℕ) (xs : List A) → 0 < n → concat (chunks n xs) ≡ xs
unfolding chunks
concat-chunks n xs p = concat-pieces (length xs) n xs p (omega arith)

pieces_small :
    (f n : ℕ) (xs : List ℕ) → 0 < n → All (λ ys. (0 < length ys) × (length ys ≤ n)) (pieces f n xs)
unfolding pieces
pieces_small zero n xs p = tt
pieces_small (suc f) n [] p = tt
pieces_small (suc f) n (x ∷ xs) p =
    let long = length-take n (x ∷ xs) in
    ((omega arith, omega arith), pieces_small f n (drop n (x ∷ xs)) p)

pub chunks_small :
    (n : ℕ) (xs : List ℕ) → 0 < n → All (λ ys. (0 < length ys) × (length ys ≤ n)) (chunks n xs)
unfolding chunks
chunks_small n xs p = pieces_small (length xs) n xs p
