-- ===== src/Numbers/Order.antt =====
-- Bounds of `Math.min` and `Math.max`.
use megatree.Base.{◌≡◌, true, false, arith, inl, inr, Bool-cases}
use megatree.Numbers.{Num, Number, ◌<◌, min, max, IsOrdered}

module _ ⦃num : Num⦄ (laws : IsOrdered num) where
  open laws use {lt_irrefl, lt_trans, lt_nan_left, lt_nan_right, nan_is_nan}

  -- A number that is below another is not above it.
  pub lt_asymm : (a b : Number) → (a < b) ≡ true → (b < a) ≡ false
  lt_asymm a b h = elim (Bool-cases (b < a)) [
    | inl back ↦ cc (lt_trans a b a h back, lt_irrefl a)
    | inr away ↦ away
  ]

  -- Of two bounds in order, neither is passed by a value that is clamped between them; the value may
  -- be NaN, which is on neither side of anything.
  pub clamp_bounds :
      (lo hi x : Number)
      → (hi < lo) ≡ false
      → ((max lo (min x hi) < lo) ≡ false) × ((hi < max lo (min x hi)) ≡ false)
  unfolding min max
  clamp_bounds lo hi x o = ground (
    arith,
    nan_is_nan,
    lt_nan_left num.nan lo nan_is_nan,
    lt_nan_right hi num.nan nan_is_nan,
    lt_asymm lo hi,
    lt_asymm lo x,
    lt_irrefl lo,
    lt_irrefl hi,
  )
