-- ===== src/Youtube/Duration.antt =====
-- src/youtube.rs: parse_duration, and what it computes.
use mathlib.Core.Path.{subst}
use homeassistant_local_voic.Base.{
  ℕ, ◌+◌, ◌*◌, ◌^◌, ◌<◌, ◌≤◌, ◌≡◌, ◌↔◌, refl, sym, ap, Option, none, some, List, [], ◌∷◌, ◌==◌, ltb,
  ◌>>=◌, >>=-eq-some, arith, if◌then◌else◌,
}
use homeassistant_local_voic.Base.Decimal.{parse_u32}
use homeassistant_local_voic.Base.Text.{Text, split, trim}

-- `checked_mul` and `checked_add` of a u32.
abbrev pub checked : ℕ → Option ℕ
checked n = if ltb n (2 ^ 32) then some n else none

unfoldable pub duration_from : ℕ → List Text → Option ℕ
duration_from total [] = some total
duration_from total (part ∷ parts) = do
  scaled ← checked (total * 60)
  n ← parse_u32 part
  sum ← checked (scaled + n)
  duration_from sum parts

unfoldable pub parts_of : Text → List Text
unfolding split trim
parts_of s = split (λ c. c == b':') (trim s)

unfoldable pub parse_duration : Text → Option ℕ
unfolding duration_from parts_of
parse_duration s = duration_from 0 (parts_of s)

-- The numbers of the parts, if every part is one, and their value in base 60.
abbrev pub numbers : List Text → Option (List ℕ)
numbers [] = some []
numbers (part ∷ parts) = do n ← parse_u32 part; ns ← numbers parts; some (n ∷ ns)

abbrev pub base_sixty : ℕ → List ℕ → ℕ
base_sixty total [] = total
base_sixty total (n ∷ ns) = base_sixty (total * 60 + n) ns

numbers_cons :
    (part : Text) (parts : List Text) {n : ℕ} {ns : List ℕ}
    → parse_u32 part ≡ some n
    → numbers parts ≡ some ns
    → numbers (part ∷ parts) ≡ some (n ∷ ns)
numbers_cons part parts p q = rw (p, q) refl

checked_value : (n : ℕ) {m : ℕ} → checked n ≡ some m → (m ≡ n) × (m < 2 ^ 32)
checked_value n h = ground arith

checked_fits : (n : ℕ) → n < 2 ^ 32 → checked n ≡ some n
checked_fits n h = ground arith

le-base_sixty : (total : ℕ) (ns : List ℕ) → total ≤ base_sixty total ns
le-base_sixty total [] = omega arith
le-base_sixty total (n ∷ ns) = omega (arith, le-base_sixty (total * 60 + n) ns)

-- The parts are numbers, and their exact value is `t`, below 2 ^ 32.
abbrev pub Exact : ℕ → List Text → ℕ → Type 0
Exact total parts t =
    (ns : List ℕ) × (numbers parts ≡ some ns) × (base_sixty total ns ≡ t) × (t < 2 ^ 32)

duration_from-Exact :
    (total : ℕ) (parts : List Text) (t : ℕ)
    → total < 2 ^ 32
    → duration_from total parts ≡ some t
    → Exact total parts t
unfolding duration_from
duration_from-Exact total [] t small h = ([], refl, ground arith, ground arith)
duration_from-Exact total (part ∷ parts) t small h =
    let (scaled, p, h1) = >>=-eq-some (checked (total * 60)) _ h in
    let (n, q, h2) = >>=-eq-some (parse_u32 part) _ h1 in
    let (sum, r, h3) = >>=-eq-some (checked (scaled + n)) _ h2 in
    let a = checked_value (total * 60) p in
    let b = checked_value (scaled + n) r in
    let (ns, e, v, fits) = duration_from-Exact sum parts t (omega arith) h3 in
    let same : sum ≡ total * 60 + n = omega arith in
    (n ∷ ns, numbers_cons part parts q e, subst (λ m. base_sixty m ns ≡ t) same v, fits)

Exact-duration_from :
    (total : ℕ) (parts : List Text) (t : ℕ)
    → Exact total parts t
    → duration_from total parts ≡ some t
unfolding duration_from
Exact-duration_from total [] t (ns, e, v, small) =
    let same : [] ≡ ns = cc in
    let value : total ≡ t = subst (λ l. base_sixty total l ≡ t) (sym same) v in ap some value
Exact-duration_from total (part ∷ parts) t (ns, e, v, small) =
    let (n, p, e1) = >>=-eq-some (parse_u32 part) _ e in
    let (rest, q, e2) = >>=-eq-some (numbers parts) _ e1 in
    let same : ns ≡ n ∷ rest = cc in
    let value : base_sixty (total * 60 + n) rest ≡ t = subst (λ l. base_sixty total l ≡ t) same v in
    let bound = le-base_sixty (total * 60 + n) rest in
    let first = checked_fits (total * 60) (omega arith) in
    let second = checked_fits (total * 60 + n) (omega arith) in
    rw (first, p, second) (Exact-duration_from (total * 60 + n) parts t (rest, q, value, small))

-- A duration is read exactly as the base-60 value of its parts, each a u32: no value that fits is
-- lost to an overflow on the way, and none that does not fit is given.
pub parse_duration-Exact : (s : Text) (t : ℕ) → (parse_duration s ≡ some t) ↔ Exact 0 (parts_of s) t
unfolding parse_duration
parse_duration-Exact s t =
    (duration_from-Exact 0 (parts_of s) t (omega arith), Exact-duration_from 0 (parts_of s) t)
