-- ===== src/Numbers.antt =====
-- The numbers of JavaScript, a parameter: IEEE doubles with NaN, of which antt has none. A theorem
-- that needs a law of them takes `IsOrdered`, facts about `<` that hold of IEEE doubles.
pub mod Integers
pub mod Order
use megatree.Base.{ℕ, ◌≡◌, Bool, true, false, ◌||◌, if◌then◌else◌}

pub record Num : Type 1 where
  pub Number : Type 0
  pub add : Number → Number → Number
  pub sub : Number → Number → Number
  pub mul : Number → Number → Number
  pub div : Number → Number → Number
  pub neg : Number → Number
  pub lt : Number → Number → Bool
  pub eq : Number → Number → Bool
  pub is_nan : Number → Bool
  pub nan : Number
  -- `decimal m k` is the literal m / 10 ^ k.
  pub decimal : ℕ → ℕ → Number
  pub sqrt : Number → Number
  pub sin : Number → Number
  pub cos : Number → Number
  pub tan : Number → Number
  pub pow : Number → Number → Number
  pub pi : Number
  -- `Number.MAX_VALUE`
  pub max_value : Number
  -- A value as a Float32Array holds it.
  pub fround : Number → Number

abbrev pub Number : ⦃num : Num⦄ → Type 0
Number ⦃num⦄ = num.Number

module _ ⦃num : Num⦄ where
  infixl 65 ◌+◌ ◌-◌
  infixl 70 ◌*◌ ◌/◌
  infix 50 ◌<◌ ◌===◌ ◌<=◌
  abbrev pub ◌+◌ : Number → Number → Number
  ◌+◌ = num.add

  abbrev pub ◌-◌ : Number → Number → Number
  ◌-◌ = num.sub

  abbrev pub ◌*◌ : Number → Number → Number
  ◌*◌ = num.mul

  abbrev pub ◌/◌ : Number → Number → Number
  ◌/◌ = num.div

  abbrev pub neg : Number → Number
  neg = num.neg

  abbrev pub ◌<◌ : Number → Number → Bool
  ◌<◌ = num.lt

  abbrev pub ◌===◌ : Number → Number → Bool
  ◌===◌ = num.eq

  abbrev pub ◌<=◌ : Number → Number → Bool
  a <= b = num.lt a b || num.eq a b

  abbrev pub is_nan : Number → Bool
  is_nan = num.is_nan

  -- A whole literal, `lit 2` for 2.0, and a decimal one, `dec 5 2` for 0.05.
  abbrev pub lit : ℕ → Number
  lit n = num.decimal n 0

  abbrev pub dec : ℕ → ℕ → Number
  dec = num.decimal

  abbrev pub pi : Number
  pi = num.pi

  -- `Math.min`, `Math.max` and `Math.abs`.
  unfoldable pub min : Number → Number → Number
  min a b = if num.is_nan a || num.is_nan b then num.nan else if num.lt b a then b else a

  unfoldable pub max : Number → Number → Number
  max a b = if num.is_nan a || num.is_nan b then num.nan else if num.lt a b then b else a

  unfoldable pub abs : Number → Number
  abs a = if num.lt a (lit 0) then num.neg a else a

-- What IEEE 754 says of `<`, `==` and NaN.
pub record IsOrdered (num : Num) : Type 0 where
  pub lt_irrefl : (a : num.Number) → num.lt a a ≡ false
  pub lt_trans : (a b c : num.Number) → num.lt a b ≡ true → num.lt b c ≡ true → num.lt a c ≡ true
  -- If a is not below b, and b not below c, then a is not below c, for a number b.
  pub nlt_trans :
      (a b c : num.Number)
      → num.is_nan b ≡ false
      → num.lt a b ≡ false
      → num.lt b c ≡ false
      → num.lt a c ≡ false
  pub lt_nan_left : (a b : num.Number) → num.is_nan a ≡ true → num.lt a b ≡ false
  pub lt_nan_right : (a b : num.Number) → num.is_nan b ≡ true → num.lt a b ≡ false
  pub eq_refl : (a : num.Number) → num.is_nan a ≡ false → num.eq a a ≡ true
  pub lt_ne : (a b : num.Number) → num.lt a b ≡ true → num.eq b a ≡ false
  pub nan_is_nan : num.is_nan num.nan ≡ true
