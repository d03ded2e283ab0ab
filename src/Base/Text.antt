-- ===== src/Base/Text.antt =====
-- Text as a list of Unicode scalar values: the functions of Rust's `str` that the hub calls.
use Prim.Native.Char.{code}
use Prim.Native.String.{String}
use Prim.Native.Nat.{ℕ, zero, suc, ◌+◌, ◌/◌, ◌%◌}
use mathlib.Core.Path.{◌≡◌, refl, sym}
use mathlib.Core.Logic.{◌↔◌, inl, inr}
use mathlib.Core.Bool.{Bool, true, false, ◌&&◌, ◌||◌}
use mathlib.Core.List.{List, [], ◌∷◌, ◌++◌, reverse}
use mathlib.Core.Option.{Option, none, some}
use native.Mathlib.Omega.{arith}
use homeassistant_local_voic.Base.Tests.{Bool-cases, ltb, leb, ◌==◌, if◌then◌else◌}
use homeassistant_local_voic.Base.Lists.{length, drop}

abbrev pub Text : Type 0
Text = List ℕ

abbrev pub codes : String → Text
codes String.[] = []
codes (String.◌∷◌ c s) = code c ∷ codes s

unfoldable pub text_eq : Text → Text → Bool
text_eq [] [] = true
text_eq (x ∷ xs) (y ∷ ys) = x == y && text_eq xs ys
text_eq _ _ = false

pub text_eq_iff : (a b : Text) → (text_eq a b ≡ true) ↔ (a ≡ b)
unfolding text_eq
text_eq_iff (x ∷ a) (y ∷ b) = ground (arith, text_eq_iff a b)
text_eq_iff _ _ = ground arith

pub text_eq_refl : (a : Text) → text_eq a a ≡ true
text_eq_refl a = (text_eq_iff a a).1 refl

pub text_eq_sym : (a b : Text) → text_eq a b ≡ false → text_eq b a ≡ false
text_eq_sym a b h = elim (Bool-cases (text_eq b a)) [
  | inr other ↦ other
  | inl same ↦
      let equal : b ≡ a = (text_eq_iff b a).0 same in
      let again = (text_eq_iff a b).1 (sym equal) in cc
]

-- The order of lists. For `String` it is that of the bytes, which is that of the scalar values.
unfoldable pub less_text : Text → Text → Bool
less_text a [] = false
less_text [] (y ∷ ys) = true
less_text (x ∷ xs) (y ∷ ys) = ltb x y || ((x == y) && less_text xs ys)

pub less_text_refl : (a : Text) → less_text a a ≡ false
unfolding less_text
less_text_refl [] = refl
less_text_refl (x ∷ xs) = let rest = less_text_refl xs in ground (arith, rest)

-- What is not below a list is not below what that is not below.
pub less_text_trans :
    (a b c : Text) → less_text b a ≡ false → less_text c b ≡ false → less_text c a ≡ false
unfolding less_text
less_text_trans [] b [] p q = refl
less_text_trans [] [] (z ∷ zs) p q = refl
less_text_trans [] (y ∷ ys) (z ∷ zs) p q = refl
less_text_trans (x ∷ xs) [] c p q = cc
less_text_trans (x ∷ xs) (y ∷ ys) [] p q = cc
less_text_trans (x ∷ xs) (y ∷ ys) (z ∷ zs) p q =
    let rest = less_text_trans xs ys zs in ground (arith, rest)

pub less_text_asym : (a b : Text) → less_text a b ≡ true → less_text b a ≡ false
unfolding less_text
less_text_asym a [] h = cc
less_text_asym [] (y ∷ ys) h = refl
less_text_asym (x ∷ xs) (y ∷ ys) h = let rest = less_text_asym xs ys in ground (arith, rest)

abbrev pub text_mem : Text → List Text → Bool
text_mem a [] = false
text_mem a (x ∷ xs) = text_eq x a || text_mem a xs

-- The property White_Space of Unicode: `char::is_whitespace`.
unfoldable pub is_whitespace : ℕ → Bool
is_whitespace c =
    (leb 9 c && leb c 13)
    || c == 0x20
    || c == 0x85
    || c == 0xa0
    || c == 0x1680
    || (leb 0x2000 c && leb c 0x200a)
    || c == 0x2028
    || c == 0x2029
    || c == 0x202f
    || c == 0x205f
    || c == 0x3000

unfoldable pub is_ascii_digit : ℕ → Bool
is_ascii_digit c = leb b'0' c && leb c b'9'

unfoldable pub is_ascii_alphanumeric : ℕ → Bool
unfolding is_ascii_digit
is_ascii_alphanumeric c =
    is_ascii_digit c || (leb b'a' c && leb c b'z') || (leb b'A' c && leb c b'Z')

unfoldable pub trim_start_matches : (ℕ → Bool) → Text → Text
trim_start_matches p [] = []
trim_start_matches p (c ∷ cs) = let rest = trim_start_matches p cs in if p c then rest else c ∷ cs

unfoldable pub trim_end_matches : (ℕ → Bool) → Text → Text
unfolding trim_start_matches
trim_end_matches p s = reverse (trim_start_matches p (reverse s))

unfoldable pub trim : Text → Text
unfolding trim_start_matches trim_end_matches is_whitespace
trim s = trim_end_matches is_whitespace (trim_start_matches is_whitespace s)

unfoldable pub trim_start : Text → Text
unfolding trim_start_matches is_whitespace
trim_start = trim_start_matches is_whitespace

unfoldable pub strip_prefix : Text → Text → Option Text
strip_prefix [] s = some s
strip_prefix (p ∷ ps) [] = none
strip_prefix (p ∷ ps) (c ∷ cs) = let rest = strip_prefix ps cs in if p == c then rest else none

unfoldable pub starts_with : Text → Text → Bool
starts_with s [] = true
starts_with [] (p ∷ ps) = false
starts_with (c ∷ cs) (p ∷ ps) = c == p && starts_with cs ps

unfoldable pub ends_with : Text → Text → Bool
unfolding starts_with
ends_with s suffix = starts_with (reverse s) (reverse suffix)

unfoldable pub contains : Text → Text → Bool
unfolding starts_with
contains [] part = starts_with [] part
contains (c ∷ cs) part = starts_with (c ∷ cs) part || contains cs part

-- The text in front of the first `sep`, and the text behind it.
unfoldable pub split_once : ℕ → Text → Option (Text × Text)
split_once sep [] = none
split_once sep (c ∷ cs) =
    let rest : Option (Text × Text) = elim (split_once sep cs) [
      | none ↦ none
      | some (a, b) ↦ some (c ∷ a, b)
    ] in
    if c == sep then some ([], cs) else rest

abbrev pub push_front : ℕ → List Text → List Text
push_front c [] = (c ∷ []) ∷ []
push_front c (w ∷ ws) = (c ∷ w) ∷ ws

-- `str::split` at every character that `p` accepts: always at least one piece.
unfoldable pub split : (ℕ → Bool) → Text → List Text
split p [] = [] ∷ []
split p (c ∷ cs) = let rest = split p cs in if p c then [] ∷ rest else push_front c rest

abbrev pub is_empty {ℓ} : {A : Type ℓ} → List A → Bool
is_empty [] = true
is_empty (c ∷ cs) = false

abbrev pub filter_nonempty : List Text → List Text
filter_nonempty [] = []
filter_nonempty (w ∷ ws) = if is_empty w then filter_nonempty ws else w ∷ filter_nonempty ws

unfoldable pub split_whitespace : Text → List Text
unfolding split is_whitespace
split_whitespace s = filter_nonempty (split is_whitespace s)

strip_cr : Text → Text
strip_cr [] = []
strip_cr (c ∷ []) = if c == 13 then [] else c ∷ []
strip_cr (c ∷ d ∷ cs) = c ∷ strip_cr (d ∷ cs)

-- The last piece is a line only if it is not empty, and `\r` goes only with its `\n`.
line_ends : List Text → List Text
unfolding strip_cr
line_ends [] = []
line_ends (l ∷ []) = if is_empty l then [] else l ∷ []
line_ends (l ∷ m ∷ ls) = strip_cr l ∷ line_ends (m ∷ ls)

unfoldable pub lines : Text → List Text
unfolding split line_ends
lines s = line_ends (split (λ c. c == b'\n') s)

unfoldable pub join : Text → List Text → Text
join sep [] = []
join sep (w ∷ []) = w
join sep (w ∷ v ∷ ws) = w ++ (sep ++ join sep (v ∷ ws))

unfoldable pub concat {ℓ} : {A : Type ℓ} → List (List A) → List A
concat [] = []
concat (w ∷ ws) = w ++ concat ws

decimal : ℕ → ℕ → Text → Text
decimal zero n rest = rest
decimal (suc f) n rest = elim (ltb n 10) [
  | true ↦ (b'0' + n) ∷ rest
  | false ↦ decimal f (n / 10) ((b'0' + n % 10) ∷ rest)
]

-- The decimal digits of an unsigned number: a number below 10 ^ n needs n rounds at most.
unfoldable pub to_string : ℕ → Text
unfolding decimal
to_string n = decimal (n + 1) n []

-- `split_once` at a text that is not empty.
unfoldable pub split_once_at : Text → Text → Option (Text × Text)
unfolding starts_with
split_once_at sep [] = none
split_once_at sep (c ∷ cs) =
    let rest : Option (Text × Text) = elim (split_once_at sep cs) [
      | none ↦ none
      | some (a, b) ↦ some (c ∷ a, b)
    ] in
    if starts_with (c ∷ cs) sep then some ([], drop (length sep) (c ∷ cs)) else rest
