-- ===== src/Base/Decimal.antt =====
-- `str::parse` of an unsigned number.
use Prim.Native.Nat.{ℕ, ◌+◌, ◌-◌, ◌*◌, ◌^◌}
use mathlib.Core.List.{[], ◌∷◌}
use mathlib.Core.Option.{Option, none, some}
use homeassistant_local_voic.Base.Tests.{ltb, ◌==◌, if◌then◌else◌}
use homeassistant_local_voic.Base.Text.{Text, is_ascii_digit, is_empty}

-- `str::parse::<u32>`.
abbrev digits_value : ℕ → Text → Option ℕ
unfolding is_ascii_digit
digits_value n [] = some n
digits_value n (c ∷ cs) =
    let rest = digits_value (n * 10 + (c - b'0')) cs in if is_ascii_digit c then rest else none

abbrev in_u32 : Option ℕ → Option ℕ
in_u32 none = none
in_u32 (some n) = if ltb n (2 ^ 32) then some n else none

unfoldable pub parse_u32 : Text → Option ℕ
unfolding digits_value
parse_u32 [] = none
parse_u32 (c ∷ cs) =
    let plus : Option ℕ = if is_empty cs then none else in_u32 (digits_value 0 cs) in
    if c == b'+' then plus else in_u32 (digits_value 0 (c ∷ cs))
