-- ===== src/Numbers/Integers.antt =====
-- The integers and a NaN as numbers: the parameter at which the witnesses evaluate the model.
use megatree.Base.{
  Option, none, some, ℕ, suc, ◌+◌, ◌-◌, ◌*◌, ◌/◌, ◌≡◌, refl, Bool, true, false, arith, ltb, leb,
  ◌==◌, if◌then◌else◌,
}
use megatree.Numbers.{Num, IsOrdered}

-- `negsuc n` is -(n + 1).
pub data ℤ : Type 0 where
  pos : ℕ → ℤ
  negsuc : ℕ → ℤ

abbrev pub pos_part : ℤ → ℕ
pos_part (pos n) = n
pos_part (negsuc n) = 0

abbrev pub neg_part : ℤ → ℕ
neg_part (pos n) = 0
neg_part (negsuc n) = suc n

abbrev pub sub_ℕ : ℕ → ℕ → ℤ
sub_ℕ a b = if leb b a then pos (a - b) else negsuc (b - a - 1)

abbrev pub lt_ℤ : ℤ → ℤ → Bool
lt_ℤ a b = ltb (pos_part a + neg_part b) (pos_part b + neg_part a)

-- Division towards zero.
abbrev pub div_ℤ : ℤ → ℤ → ℤ
div_ℤ a b =
    sub_ℕ
      ((pos_part a / (pos_part b + neg_part b)) * (pos_part b / pos_part b)
        + (neg_part a / (pos_part b + neg_part b)) * (neg_part b / neg_part b))
      ((pos_part a / (pos_part b + neg_part b)) * (neg_part b / neg_part b)
        + (neg_part a / (pos_part b + neg_part b)) * (pos_part b / pos_part b))

-- An operation on integers, with NaN where an argument is NaN.
abbrev lift2 : (ℤ → ℤ → ℤ) → Option ℤ → Option ℤ → Option ℤ
lift2 f none b = none
lift2 f (some a) none = none
lift2 f (some a) (some b) = some (f a b)

abbrev test2 : (ℤ → ℤ → Bool) → Option ℤ → Option ℤ → Bool
test2 f none b = false
test2 f (some a) none = false
test2 f (some a) (some b) = f a b

abbrev eq_ℤ : ℤ → ℤ → Bool
eq_ℤ a b = pos_part a + neg_part b == pos_part b + neg_part a

abbrev is_none : Option ℤ → Bool
is_none none = true
is_none (some a) = false

-- `none` is NaN.
abbrev pub integers : Num
integers = record {
  Number = Option ℤ;
  add = lift2 (λ a b. sub_ℕ (pos_part a + pos_part b) (neg_part a + neg_part b));
  sub = lift2 (λ a b. sub_ℕ (pos_part a + neg_part b) (neg_part a + pos_part b));
  mul = lift2 (λ a b.
      sub_ℕ (pos_part a * pos_part b + neg_part a * neg_part b)
        (pos_part a * neg_part b + neg_part a * pos_part b));
  div = lift2 div_ℤ;
  neg = λ a. lift2 (λ a b. sub_ℕ (neg_part a) (pos_part a)) a a;
  lt = test2 lt_ℤ;
  eq = test2 eq_ℤ;
  is_nan = is_none;
  nan = none;
  decimal = λ m k. some (pos m);
  sqrt = λ a. a;
  sin = λ a. some (pos 0);
  cos = λ a. some (pos 1);
  tan = λ a. some (pos 1);
  pow = λ a b. a;
  pi = some (pos 3);
  max_value = some (pos 1000000000);
  fround = λ a. a;
}

irrefl : (a : Option ℤ) → test2 lt_ℤ a a ≡ false
irrefl none = refl
irrefl (some a) = ground arith

trans : (a b c : Option ℤ) → test2 lt_ℤ a b ≡ true → test2 lt_ℤ b c ≡ true → test2 lt_ℤ a c ≡ true
trans (some a) (some b) (some c) g h = ground arith
trans none b c g h = cc
trans (some a) none c g h = cc
trans (some a) (some b) none g h = cc

ntrans :
    (a b c : Option ℤ)
    → is_none b ≡ false
    → test2 lt_ℤ a b ≡ false
    → test2 lt_ℤ b c ≡ false
    → test2 lt_ℤ a c ≡ false
ntrans none b c n g h = refl
ntrans (some a) b none n g h = refl
ntrans (some a) none (some c) n g h = cc
ntrans (some a) (some b) (some c) n g h = ground arith

nan_left : (a b : Option ℤ) → is_none a ≡ true → test2 lt_ℤ a b ≡ false
nan_left none b n = refl
nan_left (some a) b n = cc

nan_right : (a b : Option ℤ) → is_none b ≡ true → test2 lt_ℤ a b ≡ false
nan_right none b n = refl
nan_right (some a) none n = refl
nan_right (some a) (some b) n = cc

reflexive : (a : Option ℤ) → is_none a ≡ false → test2 eq_ℤ a a ≡ true
reflexive none n = cc
reflexive (some a) n = ground arith

apart : (a b : Option ℤ) → test2 lt_ℤ a b ≡ true → test2 eq_ℤ b a ≡ false
apart none b h = cc
apart (some a) none h = refl
apart (some a) (some b) h = ground arith

pub integers-IsOrdered : IsOrdered integers
integers-IsOrdered = record {
  lt_irrefl = irrefl;
  lt_trans = trans;
  nlt_trans = ntrans;
  lt_nan_left = nan_left;
  lt_nan_right = nan_right;
  eq_refl = reflexive;
  lt_ne = apart;
  nan_is_nan = refl;
}
