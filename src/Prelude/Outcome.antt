-- ===== src/Prelude/Outcome.antt =====
-- What a Go function returns: a value, an error value, or a run-time panic.
use mathlib.Core.Path.{◌≡◌, refl}

pub data Outcome {ℓ κ} (E : Type κ) (A : Type ℓ) : Type (ℓ ⊔ κ) where
  ok : A → Outcome E A
  err : E → Outcome E A
  panic : Outcome E A

infixl 5 ◌>>=◌
abbrev pub ◌>>=◌ {ℓ κ μ} :
    {E : Type κ} {A : Type ℓ} {B : Type μ} → Outcome E A → (A → Outcome E B) → Outcome E B
ok a >>= f = f a
err e >>= f = err e
panic >>= f = panic

-- A chain that returns has a first part that returned.
pub bind-ok {ℓ κ μ} :
    {E : Type κ} {X : Type ℓ} {Y : Type μ} (next : X → Outcome E Y) {y : Y} (first : Outcome E X)
    → (first >>= next) ≡ ok y
    → (x : X) × (next x ≡ ok y) × (first ≡ ok x)
bind-ok next (ok x) e = (x, e, refl)
bind-ok next (err _) e = absurd (cc)
bind-ok next panic e = absurd (cc)

pub ok-injective {ℓ κ} :
    {E : Type κ} {X : Type ℓ} {x y : X} → ◌≡◌ {A = Outcome E X} (ok x) (ok y) → x ≡ y
ok-injective e = cc
