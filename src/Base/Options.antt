-- ===== src/Base/Options.antt =====
-- Results that may be missing: their sequence, a case on them, and what holds of them if they are
-- there.
use mathlib.Core.Path.{◌≡◌, refl, subst}
use mathlib.Core.Bool.{Bool, true, false}
use mathlib.Core.Option.{Option, none, some}
use megatree.Base.Tests.{if◌then◌else◌}

infixl 5 ◌>>=?◌
abbrev pub ◌>>=?◌ {ℓ κ} : {A : Type ℓ} {B : Type κ} → Option A → (A → Option B) → Option B
none >>=? f = none
some a >>=? f = f a

-- What the code does with a value, or without it.
abbrev pub when_some {ℓ κ} : {A : Type ℓ} {B : Type κ} → Option A → B → (A → B) → B
when_some none b f = b
when_some (some a) b f = f a

abbrev pub Ensures {ℓ κ} : {A : Type ℓ} → (A → Type κ) → Option A → Type κ
Ensures P none = Unit
Ensures P (some a) = P a

module _ {ℓ κ} {A : Type ℓ} (P : A → Type κ) where
  pub Ensures->>=? {ι μ} :
      {B : Type ι} (Q : B → Type μ) (m : Option B) (f : B → Option A)
      → Ensures Q m
      → ((b : B) → Q b → Ensures P (f b))
      → Ensures P (m >>=? f)
  Ensures->>=? Q none f h k = tt
  Ensures->>=? Q (some b) f h k = k b h

  pub Ensures-when_some {ι} :
      {B : Type ι} (o : Option B) (m : Option A) (f : B → Option A)
      → Ensures P m
      → ((b : B) → o ≡ some b → Ensures P (f b))
      → Ensures P (when_some o m f)
  Ensures-when_some none m f h k = h
  Ensures-when_some (some b) m f h k = k b refl

  pub Ensures-if :
      (b : Bool) (x y : Option A)
      → (b ≡ true → Ensures P x)
      → (b ≡ false → Ensures P y)
      → Ensures P (if b then x else y)
  Ensures-if true x y h k = h refl
  Ensures-if false x y h k = k refl

  pub Ensures-some : (m : Option A) {a : A} → Ensures P m → m ≡ some a → P a
  Ensures-some m {a} h e = subst (Ensures P) e h

-- The value is there, and has a property.
abbrev pub Yields {ℓ} : {A : Type ℓ} → (A → Type 0) → Option A → Type 0
Yields P none = ⊥
Yields P (some a) = P a

module _ {ℓ} {A : Type ℓ} (P : A → Type 0) where
  pub Yields->>=? {ι} :
      {B : Type ι} (Q : B → Type 0) (m : Option B) (f : B → Option A)
      → Yields Q m
      → ((b : B) → Q b → Yields P (f b))
      → Yields P (m >>=? f)
  Yields->>=? Q none f h k = absurd h
  Yields->>=? Q (some b) f h k = k b h

  pub Yields-when_some {ι} :
      {B : Type ι} (o : Option B) (m : Option A) (f : B → Option A)
      → Yields P m
      → ((b : B) → o ≡ some b → Yields P (f b))
      → Yields P (when_some o m f)
  Yields-when_some none m f h k = h
  Yields-when_some (some b) m f h k = k b refl

  pub Yields-some : (m : Option A) → Yields P m → (a : A) × (m ≡ some a) × P a
  Yields-some none h = absurd h
  Yields-some (some a) h = (a, refl, h)

  pub Yields-map : (Q : A → Type 0) (m : Option A) → Yields Q m → ((a : A) → Q a → P a) → Yields P m
  Yields-map Q none h k = h
  Yields-map Q (some a) h k = k a h
