-- ===== src/Base/Result.antt =====
-- anyhow::Result: a value, or an error with its message.
use mathlib.Core.Path.{◌≡◌, refl}
use mathlib.Core.Option.{Option, none, some}
use homeassistant_local_voic.Base.Text.{Text}

pub data Result {μ} (X : Type μ) : Type μ where
  err : Text → Result X
  ok : X → Result X

-- `Option::context`.
abbrev pub context {μ} : {X : Type μ} → Option X → Text → Result X
context none message = err message
context (some x) message = ok x

infixl 5 ◌>>=◌
abbrev pub ◌>>=◌ {μ ν} : {X : Type μ} {Y : Type ν} → Result X → (X → Result Y) → Result Y
err message >>= next = err message
ok x >>= next = next x

-- What a chain that succeeds went through.
pub >>=-eq-ok {μ ν} :
    {X : Type μ} {Y : Type ν} (first : Result X) (next : X → Result Y) {y : Y}
    → (first >>= next) ≡ ok y
    → (x : X) × (first ≡ ok x) × (next x ≡ ok y)
>>=-eq-ok (err message) next h = cc
>>=-eq-ok (ok x) next h = (x, refl, h)
