-- ===== src/Gguf/Laws.antt =====
-- The laws of the reader of src/gguf.rs as a monad.
use mathlib.Core.Path.{fun_ext}
use homeassistant_local_voic.Base.{ℕ, ◌≡◌, refl}
use homeassistant_local_voic.Gguf.{Run, failed, done, out_of_fuel, Reader, pure, ◌>>=◌}

bound_assoc {ℓ κ μ} :
    {A : Type ℓ} {B : Type κ} {C : Type μ} (f : A → Reader B) (g : B → Reader C) (r : Run (A × ℕ))
    → ((λ (_ : ℕ). r) >>= f >>= g) 0 ≡ ((λ (_ : ℕ). r) >>= λ a. f a >>= g) 0
unfolding ◌>>=◌
bound_assoc f g (failed message) = refl
bound_assoc f g (done (a, next)) = refl
bound_assoc f g out_of_fuel = refl

pub bind_assoc {ℓ κ μ} :
    {A : Type ℓ} {B : Type κ} {C : Type μ} (m : Reader A) (f : A → Reader B) (g : B → Reader C)
    → (m >>= f >>= g) ≡ (m >>= λ a. f a >>= g)
unfolding ◌>>=◌
bind_assoc m f g = fun_ext λ pos. bound_assoc f g (m pos)

pub pure-bind {ℓ κ} : {A : Type ℓ} {B : Type κ} (a : A) (f : A → Reader B) → (pure a >>= f) ≡ f a
unfolding ◌>>=◌ pure
pure-bind a f = refl

pub ruleset monad = (bind_assoc, pure-bind)

-- What a chain that comes to its end went through.
pub bind-eq-done {ℓ κ} :
    {A : Type ℓ} {B : Type κ} (m : Reader A) (f : A → Reader B) {pos : ℕ} {out : B × ℕ}
    → (m >>= f) pos ≡ done out
    → (a : A) × (next : ℕ) × (m pos ≡ done (a, next)) × (f a next ≡ done out)
unfolding ◌>>=◌
bind-eq-done m f {pos} {out} h =
    elim (m pos)
        as (λ r.
          m pos ≡ r
          → elim r [
            | failed message ↦ failed message
            | done (a, next) ↦ f a next
            | out_of_fuel ↦ out_of_fuel
          ]
            ≡ done out
          → (a : _) × (next : ℕ) × (m pos ≡ done (a, next)) × (f a next ≡ done out)) [
            | failed message ↦ λ e k. cc
            | done (a, next) ↦ λ e k. (a, next, e, k)
            | out_of_fuel ↦ λ e k. cc
          ]
      refl h

pub bind_done {ℓ κ} :
    {A : Type ℓ} {B : Type κ} (m : Reader A) (f : A → Reader B) {pos : ℕ} {a : A} {next : ℕ}
    → m pos ≡ done (a, next)
    → (m >>= f) pos ≡ f a next
unfolding ◌>>=◌
bind_done m f h = rw (h, ◌>>=◌) refl
