-- ===== src/Config/Env.antt =====
-- src/config.rs: the reading of the environment. `env` is what `env::var` gives: none for a variable that is
-- not set or is no Unicode text. Paths are texts.
pub mod Llm
pub mod Settings
use homeassistant_local_voic.Base.{
  ℕ, ◌+◌, ◌-◌, ◌*◌, ◌^◌, Bool, true, false, Option, none, some, List, [], ◌∷◌, ◌++◌, ltb, ◌==◌,
  ◌||◌, if◌then◌else◌, unwrap_or,
}
use mathlib.Core.List.{reverse}
use homeassistant_local_voic.Base.Result.{Result, ok, err}
use homeassistant_local_voic.Base.Int.{ℤ, pos, negated}
use homeassistant_local_voic.Base.Text.{
  Text, codes, text_eq, trim, is_empty, is_ascii_digit, starts_with, ends_with, strip_prefix,
}

abbrev pub Env : Type 0
Env = Text → Option Text

abbrev pub nonempty : Option Text → Option Text
nonempty none = none
nonempty (some v) = if is_empty v then none else some v

abbrev pub trimmed : Option Text → Option Text
unfolding trim
trimmed none = none
trimmed (some v) = some (trim v)

unfoldable pub var : Env → Text → Option Text
unfolding trimmed
var env name = nonempty (trimmed (env name))

unfoldable pub var_or : Env → Text → Text → Text
unfolding var
var_or env name default = unwrap_or (var env name) default

abbrev pub on_off_of : Text → Bool → Option Text → Result Bool
unfolding text_eq
on_off_of name default none = ok default
on_off_of name default (some v) =
    if text_eq v (codes "on")
    then ok true
    else if text_eq v (codes "off")
    then ok false
    else err (codes "unknown " ++ (name ++ (codes "=" ++ (v ++ codes " (expected on or off)"))))

unfoldable pub on_off : Env → Text → Bool → Result Bool
unfolding var on_off_of
on_off env name default = on_off_of name default (var env name)

abbrev pub or_invalid {ℓ} : {A : Type ℓ} → Text → Text → Result A → Result A
or_invalid name v (ok a) = ok a
or_invalid name v (err e) =
    err (codes "invalid " ++ (name ++ (codes "=" ++ (v ++ (codes ": " ++ e)))))

abbrev pub parse_num_of {ℓ} : {A : Type ℓ} → (Text → Result A) → Text → A → Option Text → Result A
parse_num_of parse name default none = ok default
parse_num_of parse name default (some v) = or_invalid name v (parse v)

unfoldable pub parse_num {ℓ} : {A : Type ℓ} → (Text → Result A) → Env → Text → A → Result A
unfolding var
parse_num parse env name default = parse_num_of parse name default (var env name)

-- `str::parse` of integers: the first character that is no digit, or that makes the number too
-- large, decides the error.
unfoldable pub digits_below : Text → ℕ → ℕ → Text → Result ℕ
unfolding is_ascii_digit
digits_below too_far limit n [] = ok n
digits_below too_far limit n (c ∷ cs) =
    let m = n * 10 + (c - b'0') in
    let rest = digits_below too_far limit m cs in
    if is_ascii_digit c
    then (if ltb m limit then rest else err too_far)
    else err (codes "invalid digit found in string")

abbrev pub parse_digits : Text → ℕ → Text → Result ℕ
unfolding digits_below
parse_digits too_far limit [] = err (codes "invalid digit found in string")
parse_digits too_far limit (c ∷ cs) = digits_below too_far limit 0 (c ∷ cs)

abbrev pub too_large : Text
too_large = codes "number too large to fit in target type"

-- An unsigned number below `limit`.
unfoldable pub parse_unsigned : ℕ → Text → Result ℕ
unfolding parse_digits
parse_unsigned limit [] = err (codes "cannot parse integer from empty string")
parse_unsigned limit (c ∷ cs) =
    if c == b'+' then parse_digits too_large limit cs else parse_digits too_large limit (c ∷ cs)

abbrev pub negative : Result ℕ → Result ℤ
negative (ok n) = ok (negated n)
negative (err e) = err e

abbrev pub positive : Result ℕ → Result ℤ
positive (ok n) = ok (pos n)
positive (err e) = err e

unfoldable pub parse_i32 : Text → Result ℤ
unfolding parse_digits
parse_i32 [] = err (codes "cannot parse integer from empty string")
parse_i32 (c ∷ cs) =
    if c == b'-'
    then negative (parse_digits (codes "number too small to fit in target type") (2 ^ 31 + 1) cs)
    else if c == b'+'
    then positive (parse_digits too_large (2 ^ 31) cs)
    else positive (parse_digits too_large (2 ^ 31) (c ∷ cs))

-- `Path::join`.
unfoldable pub join_path : Text → Text → Text
unfolding starts_with ends_with
join_path dir file =
    if starts_with file (codes "/")
    then file
    else if is_empty dir || ends_with dir (codes "/")
    then dir ++ file
    else dir ++ (codes "/" ++ file)

abbrev reversed : Option Text → Option Text
reversed none = none
reversed (some s) = some (reverse s)

unfoldable pub strip_suffix : Text → Text → Option Text
unfolding strip_prefix
strip_suffix s suffix = reversed (strip_prefix (reverse suffix) (reverse s))
