-- ===== src/Outcome.antt =====
-- The outcome of code that may throw: reading a property of `null` or `undefined` throws a
-- TypeError, and `assert` (megatree_web/js/index.js) throws an AssertException.
use megatree.Base.{◌≡◌, refl, ap, ◌⊎◌, inl, inr}

pub data Outcome {ℓ} (A : Type ℓ) : Type ℓ where
  returns : A → Outcome A
  throws : Outcome A

infixl 5 ◌>>=◌
abbrev pub ◌>>=◌ {ℓ κ} : {A : Type ℓ} {B : Type κ} → Outcome A → (A → Outcome B) → Outcome B
returns a >>= f = f a
throws >>= f = throws

-- Inversion of a chain that returns.
pub >>=-eq-returns {ℓ κ} :
    {A : Type ℓ} {B : Type κ} (m : Outcome A) (f : A → Outcome B) {b : B}
    → (m >>= f) ≡ returns b
    → (a : A) × (m ≡ returns a) × (f a ≡ returns b)
>>=-eq-returns (returns a) f h = (a, refl, h)
>>=-eq-returns throws f h = cc

pub returns-injective {ℓ} : {A : Type ℓ} {a b : A} → returns a ≡ returns b → a ≡ b
returns-injective {A} {a} {b} h = ap value h
  where
    value : Outcome A → A
    value (returns x) = x
    value throws = a

pub Outcome-cases {ℓ} : {A : Type ℓ} (m : Outcome A) → (m ≡ throws) ⊎ ((a : A) × (m ≡ returns a))
Outcome-cases throws = inl refl
Outcome-cases (returns a) = inr (a, refl)
