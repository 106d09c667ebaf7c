-- ===== src/Page/Picking/Along.antt =====
-- What pickPointFromCells of megatree_web/js/index.js picks lies along the ray.
use megatree.Base.{
  ℕ, zero, suc, ◌<◌ as below, ◌+◌ as sum, ◌*◌ as product, ◌≡◌, refl, sym, ap, ◌∙◌, subst, Bool,
  true, false, ◌&&◌, some, List, [], ◌∷◌, arith, if◌then◌else◌, if-elim, length, get_elem?, Ensures,
  Ensures-some,
}
use megatree.Numbers.{Num, Number, ◌*◌, ◌/◌, ◌<◌, lit, dec, IsOrdered}
use megatree.Velocity.Trap.{Vec3}
use megatree.Velocity.Mapped.{Mjs}
use megatree.Cell.{Cell, get_cell_center, get_point_in_aligned_camera, pick_valid}
use megatree.Page.Picking.{
  Hit, PickRay, point_t, pick_point, pick_points, is_near, num_points, pick_cells, no_hit,
  intersect_cell, intersect_point, pick_point_from_cells,
}

module _ ⦃num : Num⦄ (v3 : Mjs) (min_dist magic_ratio : Number) (cam_position : Vec3)
    (pick : PickRay) where
  -- How far along the ray a point is, and its distance from the ray.
  abbrev pub along : Vec3 → Number
  along p = v3.dot pick.ray (v3.sub p pick.point)

  abbrev pub aside : Vec3 → Number
  aside p = v3.length (v3.sub (v3.sub p pick.point) (v3.scale pick.ray (along p)))

  -- The point is one of the cell's, may be picked, and is in the cone around the ray, ahead and
  -- beyond twice the least distance, at distance t along the ray; the cell meets the cone.
  pub record IsPoint (cells : List Cell) (t : Number) (p : Vec3) : Type 0 where
    pub cell : Cell
    pub place : ℕ
    pub shown : get_elem? cells place ≡ some cell
    pub meets :
        (intersect_cell v3 pick.point pick.ray
            (v3.sub (get_cell_center cell) cam_position)
            cell.radius
            magic_ratio
          < num.max_value)
        ≡ true
    pub index : ℕ
    pub within : below (product index 6) (length cell.data_bytes)
    pub valid : pick_valid cell index ≡ true
    pub point : Vec3
    pub read : point ≡ get_point_in_aligned_camera cell index cam_position
    pub position : p ≡ v3.clone point
    pub distance : along point ≡ t
    pub ahead : (lit 0 < along point) ≡ true
    pub close : (aside point / along point < magic_ratio) ≡ true
    pub beyond : (min_dist * dec 20 1 < along point) ≡ true

module _ ⦃num : Num⦄ (ord : IsOrdered num) (v3 : Mjs) (min_dist magic_ratio : Number)
    (cam_position : Vec3) (pick : PickRay) where
  abbrev t_of : Cell → ℕ → Number
  t_of = point_t v3 min_dist magic_ratio cam_position pick

  abbrev near : Cell → Hit → Bool
  near = is_near v3 min_dist magic_ratio cam_position pick

  abbrev points : Cell → ℕ
  points = num_points v3 min_dist magic_ratio cam_position pick

  abbrev IsHit : List Cell → Number → Vec3 → Type 0
  IsHit = IsPoint v3 min_dist magic_ratio cam_position pick

  -- A test below the greatest number is one that was passed.
  abbrev cone : Vec3 → Bool
  cone p =
      lit 0 < along v3 min_dist magic_ratio cam_position pick p
      && aside v3 min_dist magic_ratio cam_position pick p
          / along v3 min_dist magic_ratio cam_position pick p
        < magic_ratio

  passed :
      (b : Bool) (t : Number)
      → ((if b then t else num.max_value) < num.max_value) ≡ true
      → (b ≡ true) × ((if b then t else num.max_value) ≡ t)
  passed true t h = (refl, refl)
  passed false t h = cc (h, ord.lt_irrefl num.max_value)

  cone-along :
      (cell : Cell) (j : ℕ)
      → (t_of cell j < num.max_value) ≡ true
      → (cone (get_point_in_aligned_camera cell j cam_position) ≡ true)
        × (t_of cell j
            ≡ along v3 min_dist magic_ratio cam_position pick
                (get_point_in_aligned_camera cell j cam_position))
  unfolding point_t intersect_point
  cone-along cell j h = passed _ _ h

  -- The hit is such a point, if there is one, and nearer than the greatest number.
  record Found (cells : List Cell) (hit : Hit) : Type 0 where
    point : Ensures (IsHit cells hit.min_t) hit.hit_pt
    nearer : (t : Number) → (t < hit.min_t) ≡ true → (t < num.max_value) ≡ true

  abbrev Meets : Cell → Type 0
  Meets cell =
      (intersect_cell v3 pick.point pick.ray (v3.sub (get_cell_center cell) cam_position)
          cell.radius magic_ratio
        < num.max_value)
      ≡ true

  pick_point-Found :
      (cells : List Cell) (cell : Cell) (place j : ℕ) (hit : Hit)
      → get_elem? cells place ≡ some cell
      → Meets cell
      → below (product j 6) (length cell.data_bytes)
      → Found cells hit
      → Found cells (pick_point v3 min_dist magic_ratio cam_position pick cell j hit)
  unfolding pick_point
  pick_point-Found cells cell place j hit shown meets within h =
      if-elim (Found cells)
        (pick_valid cell j && (min_dist * dec 20 1 < t_of cell j && t_of cell j < hit.min_t)) _ hit
        (λ picked.
          let less : (t_of cell j < num.max_value) ≡ true = h.nearer (t_of cell j) (ground arith) in
          let (inside, same) = cone-along cell j less in
          record {
            point = record {
              cell = cell;
              place = place;
              shown = shown;
              meets = meets;
              index = j;
              within = within;
              valid = ground arith;
              point = get_point_in_aligned_camera cell j cam_position;
              read = refl;
              position = refl;
              distance = sym same;
              ahead = ground arith;
              close = ground arith;
              beyond = subst (λ t. (min_dist * dec 20 1 < t) ≡ true) same (ground arith);
            };
            nearer = λ t l. ord.lt_trans t (t_of cell j) num.max_value l less;
          })
        (λ _. h)

  pick_points-Found :
      (cells : List Cell) (cell : Cell) (place left j : ℕ) (hit : Hit)
      → get_elem? cells place ≡ some cell
      → Meets cell
      → sum left j ≡ points cell
      → Found cells hit
      → Found cells (pick_points v3 min_dist magic_ratio cam_position pick cell left j hit)
  unfolding pick_points num_points
  pick_points-Found cells cell place zero j hit shown meets e h = h
  pick_points-Found cells cell place (suc left) j hit shown meets e h =
      pick_points-Found cells cell place left (suc j) _ shown meets (omega arith)
        (pick_point-Found cells cell place j hit shown meets (omega arith) h)

  pick_cells-Found :
      (all more : List Cell) (skipped : ℕ) (hit : Hit)
      → ((i : ℕ) → get_elem? all (sum skipped i) ≡ get_elem? more i)
      → Found all hit
      → Found all (pick_cells v3 min_dist magic_ratio cam_position pick more hit)
  unfolding pick_cells is_near
  pick_cells-Found all [] skipped hit rest h = h
  pick_cells-Found all (cell ∷ more) skipped hit rest h =
      pick_cells-Found all more (suc skipped) _
        (λ i. ap (get_elem? all) (shift skipped i) ∙ rest (suc i))
        (if-elim (Found all) (near cell hit) _ _
          (λ yes.
            pick_points-Found all cell (sum skipped 0) (points cell) 0 hit (rest 0) (ground arith)
              (omega arith) h)
          (λ _. h))
    where
      shift : (n i : ℕ) → sum (suc n) i ≡ sum n (suc i)
      shift n i = omega arith

  -- Over numbers with the order laws of IEEE 754, a point that pickPointFromCells returns is one of
  -- the points of one of the cells, by its index below a sixth of the bytes of that cell; the cell
  -- passes the test of intersectCell, pickValid admits the point, it is ahead on the ray, beyond
  -- twice the given least distance, its distance from the ray over that along it is below the ratio,
  -- and its distance along the ray is the one that the loops end with.
  pub pick-IsPoint :
      (cells : List Cell) (p : Vec3)
      → pick_point_from_cells v3 min_dist magic_ratio cam_position pick cells ≡ some p
      → IsPoint v3 min_dist magic_ratio cam_position pick cells
          (pick_cells v3 min_dist magic_ratio cam_position pick cells no_hit).min_t
          p
  unfolding pick_point_from_cells no_hit
  pick-IsPoint cells p e =
      Ensures-some _ _
        (pick_cells-Found cells cells 0 no_hit (λ i. ap (get_elem? cells) (start i))
          (record { point = tt; nearer = λ t l. l })).point
        e
    where
      start : (i : ℕ) → sum 0 i ≡ i
      start i = omega arith
