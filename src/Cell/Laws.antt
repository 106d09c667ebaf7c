-- ===== src/Cell/Laws.antt =====
-- Laws of cells and of their geometry (megatree_web/js/cell.js, megatree_web/js/geometry.js).
use Prim.Native.Nat.{bit_and}
use megatree.Base.{
  ℕ, zero, suc, ◌+◌, ◌*◌, ◌/◌, ◌%◌, ◌<◌, ◌≡◌, refl, ap, ◌≢◌, ◌⊎◌, Bool, true, not, ◌||◌, some, List,
  [], ◌∷◌, ◌++◌, arith, ◌==◌, ==_iff, if◌then◌else◌, All, get_or,
}
use megatree.Outcome.{returns}
use megatree.Numbers.{Num}
use megatree.OrbitCam.{float32}
use megatree.Cell.{
  Text, Cell, NodeGeometry, has_bit, get_child, new_cell, has_child, get_num_children, count_bits,
  pick_octant, pick_valid, child_id, init, final,
}
use megatree.Cell.Bits.{passes_below, test_of-passes_below, same}

-- The binary digits of a byte that are 1.
abbrev pub ones : ℕ → ℕ → ℕ
ones zero b = 0
ones (suc n) b = b % 2 + ones n (b / 2)

byte_at : (xs : List ℕ) (i : ℕ) → All (λ b. b < 256) xs → get_or xs i 0 < 256
byte_at [] i h = omega arith
byte_at (x ∷ xs) zero h = h.0
byte_at (x ∷ xs) (suc i) h = byte_at xs i h.1

high_bits : (a b c : ℕ) → a < 2 → b < 2 → c < 2 → bit_and (bit_and (a * 4) (b * 2)) c ≡ 0
high_bits zero zero zero h g k = refl
high_bits zero zero (suc zero) h g k = refl
high_bits zero (suc zero) zero h g k = refl
high_bits zero (suc zero) (suc zero) h g k = refl
high_bits (suc zero) zero zero h g k = refl
high_bits (suc zero) zero (suc zero) h g k = refl
high_bits (suc zero) (suc zero) zero h g k = refl
high_bits (suc zero) (suc zero) (suc zero) h g k = refl
high_bits (suc (suc a)) b c h g k = absurd (omega arith)
high_bits zero (suc (suc b)) c h g k = absurd (omega arith)
high_bits (suc zero) (suc (suc b)) c h g k = absurd (omega arith)
high_bits zero zero (suc (suc c)) h g k = absurd (omega arith)
high_bits zero (suc zero) (suc (suc c)) h g k = absurd (omega arith)
high_bits (suc zero) zero (suc (suc c)) h g k = absurd (omega arith)
high_bits (suc zero) (suc zero) (suc (suc c)) h g k = absurd (omega arith)

-- Two octants differ in a bit.
abbrev apart_at : ℕ → ℕ → ℕ → Bool
apart_at a b i = not (same (has_bit a i) (has_bit b i))

octant_table :
    passes_below 8 (λ a.
      passes_below 8 (λ b. (a == b) || (apart_at a b 2 || (apart_at a b 1 || apart_at a b 0))))
    ≡ true
unfolding passes_below has_bit
octant_table = refl

octants_apart :
    (a b : ℕ)
    → a < 8
    → b < 8
    → a ≢ b
    → (apart_at a b 2 ≡ true) ⊎ (apart_at a b 1 ≡ true) ⊎ (apart_at a b 0 ≡ true)
octants_apart a b ha hb ne =
    let row = test_of-passes_below 8 _ b hb (test_of-passes_below 8 _ a ha octant_table) in
    ground arith

count_table : passes_below 256 (λ b. count_bits 8 b == ones 8 b) ≡ true
unfolding passes_below count_bits has_bit
count_table = refl

init-append : (s : Text) (c : ℕ) → init (s ++ c ∷ []) ≡ s
init-append [] c = refl
init-append (d ∷ []) c = refl
init-append (d ∷ e ∷ s) c = ap (◌∷◌ d) (init-append (e ∷ s) c)

final-append : (s : Text) (c : ℕ) → final (s ++ c ∷ []) ≡ some c
final-append [] c = refl
final-append (d ∷ []) c = refl
final-append (d ∷ e ∷ s) c = final-append (e ∷ s) c

module _ ⦃num : Num⦄ where
  pick_octant_zero : (c : Cell) (i : ℕ) → All (λ b. b < 256) c.data_bytes → pick_octant c i ≡ 0
  unfolding pick_octant
  pick_octant_zero c i bytes =
      let x = byte_at c.data_bytes (6 * i) bytes in
      let y = byte_at c.data_bytes (6 * i + 1) bytes in
      let z = byte_at c.data_bytes (6 * i + 2) bytes in
      high_bits (get_or c.data_bytes (6 * i) 0 / 128) (get_or c.data_bytes (6 * i + 1) 0 / 128)
        (get_or c.data_bytes (6 * i + 2) 0 / 128) (omega arith) (omega arith) (omega arith)

  -- Where the data are bytes, a point that is no leaf is pickable exactly if the child 0 is not
  -- shown, wherever in the cell it lies.
  pub pick_valid-octant_zero :
      (c : Cell) (i : ℕ)
      → All (λ b. b < 256) c.data_bytes
      → pick_valid c i ≡ (
          if bit_and (get_or c.data_bytes (6 * i + 5) 0) 1 == 1
          then true
          else bit_and c.show_children 1 == 0)
  unfolding pick_valid
  pick_valid-octant_zero c i bytes = rw (pick_octant_zero c i bytes) (ground arith)

  -- `getNumChildren` of a cell whose mask of children is a byte is the number of its binary digits
  -- that are 1.
  pub get_num_children-ones : (c : Cell) → c.children < 256 → get_num_children c ≡ ones 8 c.children
  unfolding get_num_children has_child count_bits
  get_num_children-ones c h = (==_iff _ _).0 (test_of-passes_below 256 _ c.children h count_table)

  -- A cell that is made under the id of a child, with any geometry and a buffer that is not empty,
  -- knows its parent's id, which child it is, its mask of children and its points.
  pub new_cell-child_id :
      (id : Text) (child : ℕ) (g : NodeGeometry) (children : ℕ) (bytes : List ℕ)
      → child < 8
      → (c : Cell) × (new_cell (child_id id child) g (children ∷ bytes) ≡ returns c)
        × (c.parent_id ≡ id)
        × (c.which_child ≡ some child)
        × (c.children ≡ children)
        × (c.data_bytes ≡ bytes)
  unfolding new_cell
  new_cell-child_id id child g children bytes h =
      (_, refl, init-append id _, rw (final-append id _) (ground arith), refl, refl)

  -- Of two different octants of a cell one ends where the other begins, on some axis.
  pub get_child-apart :
      (g : NodeGeometry) (a b : ℕ)
      → a < 8
      → b < 8
      → a ≢ b
      → ((get_child g a).hi.x ≡ (get_child g b).lo.x)
        ⊎ ((get_child g a).lo.x ≡ (get_child g b).hi.x)
        ⊎ ((get_child g a).hi.y ≡ (get_child g b).lo.y)
        ⊎ ((get_child g a).lo.y ≡ (get_child g b).hi.y)
        ⊎ ((get_child g a).hi.z ≡ (get_child g b).lo.z)
        ⊎ ((get_child g a).lo.z ≡ (get_child g b).hi.z)
  unfolding get_child float32
  get_child-apart g a b ha hb ne = let differ = octants_apart a b ha hb ne in ground arith
