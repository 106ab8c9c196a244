-- ===== src/Base/Results.antt =====
-- A value, or the Python exception that the call raises: the type of exceptions is each module's.
use mathlib.Core.Path.{◌≡◌, refl}
use mathlib.Core.Logic.{◌⊎◌, inl, inr}

pub data Result {ℓ κ} (E : Type ℓ) (A : Type κ) : Type (ℓ ⊔ κ) where
  ok : A → Result E A
  err : E → Result E A

infixl 5 ◌>>=◌ ◌>>◌
abbrev pub ◌>>=◌ {ℓ κ μ} :
    {E : Type ℓ} {A : Type κ} {B : Type μ} → Result E A → (A → Result E B) → Result E B
ok a >>= f = f a
err e >>= f = err e

abbrev pub ◌>>◌ {ℓ κ} : {E : Type ℓ} {B : Type κ} → Result E (Unit {0}) → Result E B → Result E B
m >> k = m >>= λ _. k

-- Inversion: where `r` followed by `next` returns, `r` had returned a value that `next` accepts.
pub >>=-inv {ℓ κ μ} :
    {E : Type ℓ} {A : Type κ} {B : Type μ} (r : Result E A) (next : A → Result E B) {final : B}
    → (r >>= next) ≡ ok final
    → (mid : A) × (r ≡ ok mid) × (next mid ≡ ok final)
>>=-inv (err raised) next done = cc
>>=-inv (ok mid) next done = (mid, refl, done)

pub ok_injective {ℓ κ} :
    {E : Type ℓ} {A : Type κ} {x y : A} → ◌≡◌ {A = Result E A} (ok x) (ok y) → x ≡ y
ok_injective same = cc

-- The other inversion: an exception comes from the first step, or from what follows it.
pub >>=-raise {ℓ κ μ} :
    {E : Type ℓ} {A : Type κ} {B : Type μ} (r : Result E A) (next : A → Result E B) {e : E}
    → (r >>= next) ≡ err e
    → (r ≡ err e) ⊎ ((mid : A) × (r ≡ ok mid) × (next mid ≡ err e))
>>=-raise (err raised) next failed = inl (cc)
>>=-raise (ok mid) next failed = inr (mid, refl, failed)

pub Result-cases {ℓ κ} :
    {E : Type ℓ} {A : Type κ} (r : Result E A) → ((a : A) × (r ≡ ok a)) ⊎ ((e : E) × (r ≡ err e))
Result-cases (ok a) = inl (a, refl)
Result-cases (err e) = inr (e, refl)
