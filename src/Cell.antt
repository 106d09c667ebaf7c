-- ===== src/Cell.antt =====
-- Cells and their geometry: megatree_web/js/cell.js and megatree_web/js/geometry.js. Ids are lists of
-- character codes, buffers lists of bytes; a cell's `parent_cell` is an address. The WebGL calls are
-- not modelled.
pub mod Bits
pub mod Laws
use Prim.Native.Nat.{bit_and}
use megatree.Base.{
  ℕ, zero, suc, ◌+◌, ◌-◌, ◌*◌ as times, ◌/◌ as quotient, ◌^◌, Bool, true, false, not, ◌&&◌, Option,
  none, some, List, [], ◌∷◌, ◌++◌, ltb, leb, ◌==◌, if◌then◌else◌, length, get_elem?, get_or,
}
use megatree.Outcome.{Outcome, returns, throws}
use megatree.Numbers
use megatree.Numbers.{Num, Number, lit}
use megatree.Velocity.Trap.{Vec3}
use megatree.OrbitCam.{float32}

abbrev pub Text : Type 0
Text = List ℕ

abbrev pub x_bit : ℕ
x_bit = 2

abbrev pub y_bit : ℕ
y_bit = 1

abbrev pub z_bit : ℕ
z_bit = 0

-- `bits & (1 << i)`, as a test.
unfoldable pub has_bit : ℕ → ℕ → Bool
has_bit bits i = ltb 0 (bit_and (2 ^ i) bits)

-- `bits & ~(1 << i)` on 32 bits.
unfoldable pub clear_bit : ℕ → ℕ → ℕ
clear_bit bits i = bit_and bits (2 ^ 32 - 1 - 2 ^ i)

-- How many of the first `n` bits are set.
unfoldable pub count_bits : ℕ → ℕ → ℕ
count_bits zero bits = 0
count_bits (suc n) bits = count_bits n bits + (if has_bit bits n then 1 else 0)

pub record NodeGeometry ⦃num : Num⦄ : Type 0 where
  pub level : ℕ
  pub lo : Vec3
  pub hi : Vec3

-- -1, 0 and 1 of `isInsideFrustum` and of `inside_frustum`.
pub data Inside : Type 0 where
  outside part inside : Inside

pub record Cell ⦃num : Num⦄ : Type 0 where
  pub id : Text
  pub parent_id : Text
  pub which_child : Option ℕ
  pub children : ℕ
  pub data_bytes : List ℕ
  pub geometry : NodeGeometry
  pub scale : Number
  pub node_size : Number
  pub offset : Vec3
  pub radius : Number
  pub override_color : Vec3
  pub parent_cell : Option ℕ
  pub inside_frustum : Inside
  pub show_children : ℕ

-- All but the last character, and the last one: `substr(0, length - 1)` and `charAt(length - 1)`.
abbrev pub init : Text → Text
init [] = []
init (c ∷ []) = []
init (c ∷ d ∷ s) = c ∷ init (d ∷ s)

abbrev pub final : Text → Option ℕ
final [] = none
final (c ∷ []) = some c
final (c ∷ d ∷ s) = final (d ∷ s)

-- `parseInt` of one character; `none` is NaN.
abbrev pub parse_digit : Option ℕ → Option ℕ
parse_digit none = none
parse_digit (some c) = if leb 48 c && leb c 57 then some (c - 48) else none

-- `cell.id + child` for a child from 0 to 7.
abbrev pub child_id : Text → ℕ → Text
child_id id child = id ++ (48 + child) ∷ []

module _ ⦃num : Num⦄ where
  unfoldable pub get_center : NodeGeometry → Vec3
  get_center g = float32 (record {
    x = num.div (num.add g.hi.x g.lo.x) (lit 2);
    y = num.div (num.add g.hi.y g.lo.y) (lit 2);
    z = num.div (num.add g.hi.z g.lo.z) (lit 2);
  })

  -- The values that go into the Float32Arrays `lo` and `hi` of a child.
  unfoldable pub get_child : NodeGeometry → ℕ → NodeGeometry
  get_child g to_child =
      let mid0 = num.div (num.add g.lo.x g.hi.x) (lit 2) in
      let mid1 = num.div (num.add g.lo.y g.hi.y) (lit 2) in
      let mid2 = num.div (num.add g.lo.z g.hi.z) (lit 2) in
      record {
        level = g.level + 1;
        lo = float32 (record {
          x = if has_bit to_child x_bit then mid0 else g.lo.x;
          y = if has_bit to_child y_bit then mid1 else g.lo.y;
          z = if has_bit to_child z_bit then mid2 else g.lo.z;
        });
        hi = float32 (record {
          x = if has_bit to_child x_bit then g.hi.x else mid0;
          y = if has_bit to_child y_bit then g.hi.y else mid1;
          z = if has_bit to_child z_bit then g.hi.z else mid2;
        });
      }

  -- `new Cell(id, geometry, buffer)`; `new Uint8Array(buffer, 0, 1)` throws on an empty buffer.
  unfoldable pub new_cell : Text → NodeGeometry → List ℕ → Outcome Cell
  new_cell id geometry [] = throws
  new_cell id geometry (children ∷ bytes) =
      let scale = num.sub geometry.hi.x geometry.lo.x in
      returns (record {
        id = id;
        parent_id = init id;
        which_child = parse_digit (final id);
        children = children;
        data_bytes = bytes;
        geometry = geometry;
        scale = scale;
        node_size = num.div scale (lit 64);
        offset = float32 geometry.lo;
        radius = num.mul (num.div scale (lit 2)) (num.sqrt (lit 3));
        override_color = record { x = num.neg (lit 1); y = lit 0; z = lit 0 };
        parent_cell = none;
        inside_frustum = outside;
        show_children = 0;
      })

  unfoldable pub has_child : Cell → ℕ → Bool
  has_child c child = has_bit c.children child

  -- The loop of `getNumChildren`, on the mask.
  unfoldable pub get_num_children : Cell → ℕ
  get_num_children c = count_bits 8 c.children

  unfoldable pub is_leaf : Cell → Bool
  is_leaf c = c.children == 0

  unfoldable pub get_cell_center : Cell → Vec3
  get_cell_center c = float32 (record {
    x = num.add c.offset.x (num.div c.scale (lit 2));
    y = num.add c.offset.y (num.div c.scale (lit 2));
    z = num.add c.offset.z (num.div c.scale (lit 2));
  })

  -- `data[i]` as a number: undefined, out of range, is NaN in arithmetic.
  abbrev byte_number : Cell → ℕ → Number
  byte_number c i = elim (get_elem? c.data_bytes i) [ none ↦ num.nan | some b ↦ lit b ]

  unfoldable pub get_point : Cell → ℕ → Vec3
  get_point c i =
      let at = λ (k : ℕ) (o : Number).
        num.add (num.div (num.mul (byte_number c (times 6 i + k)) c.scale) (lit 255)) o in
      float32 (record { x = at 0 c.offset.x; y = at 1 c.offset.y; z = at 2 c.offset.z })

  unfoldable pub get_point_in_aligned_camera : Cell → ℕ → Vec3 → Vec3
  get_point_in_aligned_camera c i cam =
      let at = λ (k : ℕ) (o p : Number).
        num.add (num.div (num.mul (byte_number c (times 6 i + k)) c.scale) (lit 255))
          (num.sub o p) in
      float32
        (record { x = at 0 c.offset.x cam.x; y = at 1 c.offset.y cam.y; z = at 2 c.offset.z cam.z })

  -- A byte of `data` in a bitwise operation, where undefined counts as 0.
  abbrev byte_bits : Cell → ℕ → ℕ
  byte_bits c i = get_or c.data_bytes i 0

  unfoldable pub pick_octant : Cell → ℕ → ℕ
  pick_octant c i =
      bit_and
        (bit_and (times (quotient (byte_bits c (times 6 i)) 128) 4)
          (times (quotient (byte_bits c (times 6 i + 1)) 128) 2))
        (quotient (byte_bits c (times 6 i + 2)) 128)

  unfoldable pub pick_valid : Cell → ℕ → Bool
  pick_valid c i =
      if bit_and (byte_bits c (times 6 i + 5)) 1 == 1
      then true
      else if bit_and c.show_children (2 ^ pick_octant c i) == 0
      then true
      else false

  -- The corner that `toBox` adds for a child: 6 bytes.
  box_corner : Cell → ℕ → List ℕ
  box_corner c child =
      (if has_bit child x_bit then 136 else 120)
      ∷ (if has_bit child y_bit then 136 else 120)
      ∷ (if has_bit child z_bit then 136 else 120)
      ∷ (if has_child c child then 0 else 255)
      ∷ (if has_child c child then 255 else 0)
      ∷ 0
      ∷ []

  box_from : ℕ → ℕ → Cell → List ℕ
  box_from zero child c = []
  box_from (suc n) child c = box_corner c child ++ box_from n (child + 1) c

  unfoldable pub to_box : Cell → Cell
  unfolding box_from box_corner
  to_box c = record c { data_bytes = c.data_bytes ++ box_from 8 0 c }

  -- A new object with the same properties.
  unfoldable pub shallow_copy : Cell → Cell
  shallow_copy c = c
