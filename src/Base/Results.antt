-- ===== src/Base/Results.antt =====
-- Go's pair of a value and an error, as a sum; the zero value beside an error is not kept.
use mathlib.Core.Path.{◌≡◌, refl}
use mathlib.Core.Logic.{◌⊎◌, inl, inr}

pub data Result {ℓ κ} (E : Type ℓ) (A : Type κ) : Type (ℓ ⊔ κ) where
  err : E → Result E A
  ok : A → Result E A

module _ {ℓ κ μ} {E : Type ℓ} {A : Type κ} {B : Type μ} where
  -- `if err != nil { return …, err }` before the rest of a function.
  abbrev pub bind : Result E A → (A → Result E B) → Result E B
  bind (err e) rest = err e
  bind (ok a) rest = rest a

  pub bind-eq-ok :
      (r : Result E A) {rest : A → Result E B} {b : B}
      → bind r rest ≡ ok b
      → (a : A) × (r ≡ ok a) × (rest a ≡ ok b)
  bind-eq-ok (err e) h = cc
  bind-eq-ok (ok a) h = (a, refl, h)

infixl 5 ◌>>=◌ ◌>>◌
abbrev pub ◌>>=◌ {ℓ κ μ} :
    {E : Type ℓ} {A : Type κ} {B : Type μ} → Result E A → (A → Result E B) → Result E B
◌>>=◌ = bind

abbrev pub ◌>>◌ {ℓ κ μ} :
    {E : Type ℓ} {A : Type κ} {B : Type μ} → Result E A → Result E B → Result E B
r >> s = bind r (λ _. s)

module _ {ℓ κ} {E : Type ℓ} {A : Type κ} where
  pub Result-cases : (r : Result E A) → ((a : A) × (r ≡ ok a)) ⊎ ((e : E) × (r ≡ err e))
  Result-cases (err e) = inr (e, refl)
  Result-cases (ok a) = inl (a, refl)

  pub ok-injective : {a b : A} → ◌≡◌ {A = Result E A} (ok a) (ok b) → a ≡ b
  ok-injective h = cc
