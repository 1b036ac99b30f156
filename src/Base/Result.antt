-- ===== src/Base/Result.antt =====
-- Go's pair of a value and an error, of which a caller uses the value only where the error is nil.
use mathlib.Core.Path.{◌≡◌, refl, ap}
use mathlib.Core.Logic.{◌⊎◌, inl, inr}
use mathlib.Core.Option.{Option, none, some}

pub data Result {ℓ κ} (E : Type ℓ) (A : Type κ) : Type (ℓ ⊔ κ) where
  ok : A → Result E A
  err : E → Result E A

module _ {ℓ κ ρ} {E : Type ℓ} {A : Type κ} {B : Type ρ} where
  infixl 5 ◌>>=◌
  abbrev pub ◌>>=◌ : Result E A → (A → Result E B) → Result E B
  ok a >>= f = f a
  err e >>= f = err e

  -- What a run that went through did: its first part went through, and its second on the value.
  pub bind-eq-ok :
      (r : Result E A) (f : A → Result E B) {b : B}
      → r >>= f ≡ ok b
      → (a : A) × (r ≡ ok a) × (f a ≡ ok b)
  bind-eq-ok (ok a) f h = (a, refl, h)
  bind-eq-ok (err e) f h = cc

-- fmt.Errorf with %w
abbrev pub wrap_error {ℓ κ ρ} :
    {E : Type ℓ} {F : Type κ} {A : Type ρ} → (E → F) → Result E A → Result F A
wrap_error w (ok a) = ok a
wrap_error w (err e) = err (w e)

module _ {ℓ κ} {E : Type ℓ} {A : Type κ} where
  -- The value that is there, or else the error
  abbrev pub ok_or : E → Option A → Result E A
  ok_or e none = err e
  ok_or e (some a) = ok a

  pub ok_or-eq-ok : (e : E) (o : Option A) {a : A} → ok_or e o ≡ ok a → o ≡ some a
  ok_or-eq-ok e none h = cc
  ok_or-eq-ok e (some b) h = cc

  pub ok_or-eq-err : (e : E) (o : Option A) {f : E} → ok_or e o ≡ err f → (o ≡ none) × (f ≡ e)
  ok_or-eq-err e none h = (refl, cc)
  ok_or-eq-err e (some b) h = cc

  pub ok_or-some : (e : E) (o : Option A) {a : A} → o ≡ some a → ok_or e o ≡ ok a
  ok_or-some e o h = ap (ok_or e) h

  pub bind-eq-err {ρ} :
      {B : Type ρ} (r : Result E A) (f : A → Result E B) {e : E}
      → r >>= f ≡ err e
      → (r ≡ err e) ⊎ ((a : A) × (r ≡ ok a) × (f a ≡ err e))
  bind-eq-err (ok a) f h = inr (a, refl, h)
  bind-eq-err (err e) f h = inl cc

pub wrap_error-eq-ok {ℓ κ ρ} :
    {E : Type ℓ} {F : Type κ} {A : Type ρ} (w : E → F) (r : Result E A) {a : A}
    → wrap_error w r ≡ ok a
    → r ≡ ok a
wrap_error-eq-ok w (ok b) h = cc
wrap_error-eq-ok w (err e) h = cc
