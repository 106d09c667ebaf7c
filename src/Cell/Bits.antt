-- ===== src/Cell/Bits.antt =====
-- The bits of a byte, for the masks `children` and `show_children` of megatree_web/js/cell.js.
use megatree.Base.{
  ℕ, zero, suc, ◌/◌, ◌%◌, ◌^◌, ◌<◌, ◌≡◌, refl, Bool, true, false, not, ◌&&◌, ◌==◌, arith,
}
use megatree.Cell.{has_bit, clear_bit}

-- The test passes for all numbers below `n`.
unfoldable pub passes_below : (n : ℕ) (test : ℕ → Bool) → Bool
passes_below zero test = true
passes_below (suc n) test = passes_below n test && test n

pub test_of-passes_below :
    (n : ℕ) (test : ℕ → Bool) (i : ℕ) → i < n → passes_below n test ≡ true → test i ≡ true
unfolding passes_below
test_of-passes_below zero test i lt passed = absurd (omega arith)
test_of-passes_below (suc n) test i lt passed = ground (arith, test_of-passes_below n test i)

abbrev pub same : Bool → Bool → Bool
same true b = b
same false b = not b

pub same_sound : (a b : Bool) → same a b ≡ true → a ≡ b
same_sound true true h = refl
same_sound true false h = cc
same_sound false true h = cc
same_sound false false h = refl

bit_table :
    passes_below 256 (λ b. passes_below 8 (λ i. same (has_bit b i) (b / 2 ^ i % 2 == 1))) ≡ true
unfolding passes_below has_bit
bit_table = refl

-- A bit of a byte is its binary digit.
pub has_bit-digit : (b i : ℕ) → b < 256 → i < 8 → has_bit b i ≡ (b / 2 ^ i % 2 == 1)
has_bit-digit b i hb hi =
    same_sound _ _ (test_of-passes_below 8 _ i hi (test_of-passes_below 256 _ b hb bit_table))

clear_table :
    passes_below 256 (λ b.
      passes_below 8
        (λ i. passes_below 8 (λ j. same (has_bit (clear_bit b i) j) (has_bit b j && not (i == j)))))
    ≡ true
unfolding passes_below has_bit clear_bit
clear_table = refl

-- Clearing one of the 8 bits of a byte clears that bit and no other.
has_bit-clear_bit :
    (b i j : ℕ)
    → b < 256
    → i < 8
    → j < 8
    → has_bit (clear_bit b i) j ≡ (has_bit b j && not (i == j))
has_bit-clear_bit b i j hb hi hj = same_sound _ _ (
    test_of-passes_below 8 _ j hj
      (test_of-passes_below 8 _ i hi (test_of-passes_below 256 _ b hb clear_table)))
