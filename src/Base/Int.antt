-- ===== src/Base/Int.antt =====
-- Signed numbers as their values, and the bit patterns of 16 and 32 bits.
use Prim.Native.Nat.{ℕ, zero, suc, ◌+◌, ◌-◌, ◌*◌, ◌/◌, ◌%◌, ◌<◌, min}
use mathlib.Core.Path.{◌≡◌, refl}
use native.Mathlib.Omega.{arith}
use mathlib.Core.Bool.{Bool, true, false}
use mathlib.Core.Option.{Option, none, some}
use homeassistant_local_voic.Base.Tests.{ltb, leb, ◌==◌, if◌then◌else◌}

pub data ℤ : Type 0 where
  pos : ℕ → ℤ
  negsuc : ℕ → ℤ

abbrev pub less : ℤ → ℤ → Bool
less (pos m) (pos n) = ltb m n
less (pos m) (negsuc n) = false
less (negsuc m) (pos n) = true
less (negsuc m) (negsuc n) = ltb n m

abbrev pub equal : ℤ → ℤ → Bool
equal (pos m) (pos n) = m == n
equal (pos m) (negsuc n) = false
equal (negsuc m) (pos n) = false
equal (negsuc m) (negsuc n) = m == n

abbrev pub same_option : Option ℤ → Option ℤ → Bool
same_option none none = true
same_option none (some y) = false
same_option (some x) none = false
same_option (some x) (some y) = equal x y

-- The negative of a number.
abbrev pub negated : ℕ → ℤ
negated zero = pos 0
negated (suc n) = negsuc n

abbrev pub plus : ℤ → ℤ → ℤ
plus (pos m) (pos n) = pos (m + n)
plus (pos m) (negsuc n) = if leb m n then negsuc (n - m) else pos (m - n - 1)
plus (negsuc m) (pos n) = if leb n m then negsuc (m - n) else pos (n - m - 1)
plus (negsuc m) (negsuc n) = negsuc (m + n + 1)

-- `/` of Rust: towards zero.
abbrev pub divided : ℤ → ℕ → ℤ
divided (pos m) d = pos (m / d)
divided (negsuc m) d = negated ((m + 1) / d)

-- `>> 16` of a signed number: downwards.
abbrev pub high_half : ℤ → ℤ
high_half (pos m) = pos (m / 65536)
high_half (negsuc m) = negsuc (m / 65536)

-- `n - 128`.
abbrev pub centred : ℕ → ℤ
centred n = if leb 128 n then pos (n - 128) else negated (128 - n)

-- `<< 8`.
abbrev pub times_256 : ℤ → ℤ
times_256 (pos m) = pos (m * 256)
times_256 (negsuc m) = negated ((m + 1) * 256)

-- The number that a bit pattern stands for, and the pattern of a number.
abbrev pub signed16 : ℕ → ℤ
signed16 w = if ltb w 32768 then pos w else negsuc (65535 - w)

abbrev pub pattern16 : ℤ → ℕ
pattern16 (pos m) = m % 65536
pattern16 (negsuc m) = 65535 - m % 65536

abbrev pub signed32 : ℕ → ℤ
signed32 w = if ltb w 2147483648 then pos w else negsuc (4294967295 - w)

-- `i16::MIN` to `i16::MAX`.
abbrev pub IsI16 : ℤ → Type 0
IsI16 (pos m) = m < 32768
IsI16 (negsuc m) = m < 32768

abbrev pub clamp16 : ℤ → ℤ
clamp16 (pos m) = pos (min m 32767)
clamp16 (negsuc m) = negsuc (min m 32767)

pub clamp16-IsI16 : (z : ℤ) → IsI16 (clamp16 z)
clamp16-IsI16 (pos m) = omega arith
clamp16-IsI16 (negsuc m) = omega arith

pub clamp16-same : (z : ℤ) → IsI16 z → clamp16 z ≡ z
clamp16-same (pos m) h = let e : min m 32767 ≡ m = omega arith in rw e refl
clamp16-same (negsuc m) h = let e : min m 32767 ≡ m = omega arith in rw e refl

pub signed16-pattern16 : (z : ℤ) → IsI16 z → signed16 (pattern16 z) ≡ z
signed16-pattern16 (pos m) h = ground arith
signed16-pattern16 (negsuc m) h = ground arith

pub pattern16_lt : (z : ℤ) → pattern16 z < 65536
pattern16_lt (pos m) = omega arith
pattern16_lt (negsuc m) = omega arith

pub plus-zero : (z : ℤ) → plus (pos 0) z ≡ z
plus-zero (pos m) = ground arith
plus-zero (negsuc m) = ground arith

pub divided-one : (z : ℤ) → divided z 1 ≡ z
divided-one (pos m) = let e : m / 1 ≡ m = omega arith in rw e refl
divided-one (negsuc m) = let e : (m + 1) / 1 ≡ suc m = omega arith in rw e refl
