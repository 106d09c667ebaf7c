-- ===== src/Page/Picking.antt =====
-- Picking a point of the cells that are shown: intersectCell, intersectPoint and pickPointFromCells of
-- megatree_web/js/index.js. `magic_ratio` depends on the height of the canvas and is an argument.
pub mod Nearest
pub mod Along
use megatree.Base.{
  ℕ, zero, suc, ◌≡◌, refl, Bool, true, ◌&&◌, Option, none, some, List, [], ◌∷◌, arith,
  if◌then◌else◌, if-elim, length, ◌/◌ as quotient, ◌+◌ as sum, get_elem?, Ensures, Ensures-some, ap,
  ◌∙◌,
}
use megatree.Numbers.{Num, Number, ◌-◌, ◌*◌, ◌/◌, ◌<◌, lit, dec}
use megatree.Velocity.Trap.{Vec3}
use megatree.Velocity.Mapped.{Mjs}
use megatree.Cell.{Cell, get_cell_center, get_point_in_aligned_camera, pick_valid}

module _ ⦃num : Num⦄ where
  unfoldable pub intersect_cell :
      Mjs → (origin ray cell_center : Vec3) (cell_radius radius : Number) → Number
  intersect_cell v3 origin ray cell_center cell_radius radius =
      let to_point = v3.sub cell_center origin in
      let t = v3.dot ray to_point in
      let distance_to_ray = v3.length (v3.sub to_point (v3.scale ray t)) - cell_radius in
      if lit 0 < t && distance_to_ray / t < radius then t else num.max_value

  unfoldable pub intersect_point : Mjs → (origin ray point : Vec3) (radius : Number) → Number
  intersect_point v3 origin ray point radius =
      let to_point = v3.sub point origin in
      let t = v3.dot ray to_point in
      let distance_to_ray = v3.length (v3.sub to_point (v3.scale ray t)) in
      if lit 0 < t && distance_to_ray / t < radius then t else num.max_value

  pub record PickRay : Type 0 where
    pub point : Vec3
    pub ray : Vec3

  -- `min_t` and `hit_pt`.
  pub record Hit : Type 0 where
    pub min_t : Number
    pub hit_pt : Option Vec3

  -- The hit before the loops.
  unfoldable pub no_hit : Hit
  no_hit = record { min_t = num.max_value; hit_pt = none }

  module _ (v3 : Mjs) (min_dist magic_ratio : Number) (cam_position : Vec3) (pick : PickRay) where
    -- The distance along the ray of a point of a cell.
    unfoldable pub point_t : Cell → ℕ → Number
    point_t cell j =
        intersect_point v3 pick.point pick.ray (get_point_in_aligned_camera cell j cam_position)
          magic_ratio

    -- One round of the inner loop.
    unfoldable pub pick_point : Cell → ℕ → Hit → Hit
    pick_point cell j hit =
        if pick_valid cell j && (min_dist * dec 20 1 < point_t cell j && point_t cell j < hit.min_t)
        then record {
          hit_pt = some (v3.clone (get_point_in_aligned_camera cell j cam_position));
          min_t = point_t cell j;
        }
        else hit

    -- The inner loop from point `j` on, with the number of the points that are left.
    unfoldable pub pick_points : Cell → (left j : ℕ) → Hit → Hit
    pick_points cell zero j hit = hit
    pick_points cell (suc left) j hit = pick_points cell left (suc j) (pick_point cell j hit)

    unfoldable pub is_near : Cell → Hit → Bool
    is_near cell hit =
        let center = v3.sub (get_cell_center cell) cam_position in
        intersect_cell v3 pick.point pick.ray center cell.radius magic_ratio < num.max_value
        && v3.length center - cell.radius < hit.min_t

    -- The rounds of the loop while `j` is below `numPoints()`, which is length / 6 and may be no integer.
    unfoldable pub num_points : Cell → ℕ
    num_points cell = quotient (sum (length cell.data_bytes) 5) 6

    -- The outer loop, over the cells from the last one to the first.
    unfoldable pub pick_cells : List Cell → Hit → Hit
    pick_cells [] hit = hit
    pick_cells (cell ∷ more) hit =
        pick_cells more (if is_near cell hit then pick_points cell (num_points cell) 0 hit else hit)

    unfoldable pub pick_point_from_cells : (cells_from_last : List Cell) → Option Vec3
    pick_point_from_cells cells = (pick_cells cells no_hit).hit_pt
