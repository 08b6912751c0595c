-- ===== src/Outcome/Results.antt =====
-- A chain of steps that may fail: the early returns of the source.
use go_metrics_stas.Prelude.{◌≡◌, refl}
use go_metrics_stas.Outcome.{Result, ok, err}

infixl 5 ◌>>=◌
unfoldable pub ◌>>=◌ {ℓ κ} : {A : Type ℓ} {B : Type κ} → Result A → (A → Result B) → Result B
ok a >>= f = f a
err e >>= f = err e

-- Inversion of a successful chain.
pub bind-eq-ok {ℓ κ} :
    {A : Type ℓ} {B : Type κ} (r : Result A) (f : A → Result B) (b : B)
    → (r >>= f) ≡ ok b
    → (a : A) × (r ≡ ok a) × (f a ≡ ok b)
unfolding ◌>>=◌
bind-eq-ok (ok a) f b h = (a, refl, h)
bind-eq-ok (err e) f b h = cc

pub ok-inj {ℓ} : {A : Type ℓ} {a b : A} → ok a ≡ ok b → a ≡ b
ok-inj h = cc
