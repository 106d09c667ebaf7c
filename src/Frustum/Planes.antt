-- ===== src/Frustum/Planes.antt =====
-- The planes of the view frustum and the tests against them: the functions at the top of
-- megatree_web/js/frustum_querier.js. The array of 24 numbers is a list of six planes; a plane with a
-- point gives the number n that the loops compute.
use megatree.Base.{ℕ, ◌≡◌, ◌↔◌, Bool, true, false, not, List, [], ◌∷◌, if◌then◌else◌, All, arith}
use megatree.Numbers.{Num, Number, IsOrdered, ◌+◌, ◌-◌, ◌*◌, ◌/◌, ◌<◌, ◌<=◌, neg, dec, min}
use megatree.Numbers.Order.{lt_asymm}
use megatree.Velocity.Trap.{Vec3}
use megatree.Cell.{Inside, outside, part, inside}

module _ ⦃num : Num⦄ where
  pub record Plane : Type 0 where
    pub a : Number
    pub b : Number
    pub c : Number
    pub d : Number

  unfoldable pub normalize : Plane → Plane
  normalize p =
      let norm = num.sqrt (p.a * p.a + p.b * p.b + p.c * p.c) in
      record { a = p.a / norm; b = p.b / norm; c = p.c / norm; d = p.d / norm }

  -- `t` is the 4×4 matrix as an array of 16 numbers. The first component of each plane reads `t[0+3*4]`
  -- and `t[k+0*4]` where the others read `t[3+i*4]`.
  unfoldable pub extract_frustum_planes : (ℕ → Number) → List Plane
  extract_frustum_planes t =
      normalize (record { a = t 12 - t 0; b = t 7 - t 4; c = t 11 - t 8; d = t 15 - t 12 })
      ∷ normalize (record { a = t 12 + t 0; b = t 7 + t 4; c = t 11 + t 8; d = t 15 + t 12 })
      ∷ normalize (record { a = t 12 + t 1; b = t 7 + t 5; c = t 11 + t 9; d = t 15 + t 13 })
      ∷ normalize (record { a = t 12 - t 1; b = t 7 - t 5; c = t 11 - t 9; d = t 15 - t 13 })
      ∷ normalize (record { a = t 12 + t 2; b = t 7 + t 6; c = t 11 + t 10; d = t 15 + t 14 })
      ∷ normalize (record { a = t 12 - t 2; b = t 7 - t 6; c = t 11 - t 10; d = t 15 - t 14 })
      ∷ []

  unfoldable pub plane_distance : Plane → Vec3 → Number
  plane_distance p pnt = p.a * pnt.x + p.b * pnt.y + p.c * pnt.z + p.d

  unfoldable pub is_part_inside_frustum : List Plane → Number → Vec3 → Bool
  is_part_inside_frustum [] cell_radius pnt = true
  is_part_inside_frustum (p ∷ ps) cell_radius pnt =
      if plane_distance p pnt < neg cell_radius
      then false
      else is_part_inside_frustum ps cell_radius pnt

  unfoldable pub inside_from : List Plane → Number → Vec3 → Number → Inside
  inside_from [] cell_radius pnt min_n = if cell_radius < min_n then inside else part
  inside_from (p ∷ ps) cell_radius pnt min_n =
      if plane_distance p pnt < neg cell_radius
      then outside
      else inside_from ps cell_radius pnt (min min_n (plane_distance p pnt))

  unfoldable pub is_inside_frustum : List Plane → Number → Vec3 → Inside
  is_inside_frustum ps cell_radius pnt = inside_from ps cell_radius pnt (dec 20 1 * cell_radius)

  unfoldable pub distance_from : List Plane → Number → Vec3 → Number → Number
  distance_from [] cell_radius pnt dist = dist
  distance_from (p ∷ ps) cell_radius pnt dist =
      if plane_distance p pnt <= neg cell_radius
      then neg cell_radius
      else distance_from ps cell_radius pnt (min dist (plane_distance p pnt))

  unfoldable pub distance_to_frustum : List Plane → Number → Vec3 → Number
  distance_to_frustum ps cell_radius pnt = distance_from ps cell_radius pnt (dec 20 1 * cell_radius)

  -- The cell's ball lies strictly on the inner side of a plane.
  abbrev pub Clear : Number → Vec3 → Plane → Type 0
  Clear r pnt p = (r < plane_distance p pnt) ≡ true

  abbrev pub is_outside : Inside → Bool
  is_outside outside = true
  is_outside part = false
  is_outside inside = false

  inside_from-outside :
      (ps : List Plane) (r : Number) (pnt : Vec3) (m : Number)
      → is_part_inside_frustum ps r pnt ≡ not (is_outside (inside_from ps r pnt m))
  unfolding is_part_inside_frustum inside_from
  inside_from-outside [] r pnt m = ground arith
  inside_from-outside (p ∷ ps) r pnt m =
      let rest = inside_from-outside ps r pnt (min m (plane_distance p pnt)) in ground arith

  -- isPartInsideFrustum is false exactly where isInsideFrustum answers -1.
  part_inside-inside :
      (ps : List Plane) (r : Number) (pnt : Vec3)
      → is_part_inside_frustum ps r pnt ≡ not (is_outside (is_inside_frustum ps r pnt))
  unfolding is_inside_frustum
  part_inside-inside ps r pnt = inside_from-outside ps r pnt (dec 20 1 * r)

  module _ (laws : IsOrdered num) where
    open laws use {lt_trans, nlt_trans, lt_nan_right, lt_ne, nan_is_nan}

    below-min : (r a b : Number) → (r < min a b) ≡ true → ((r < a) ≡ true) × ((r < b) ≡ true)
    unfolding min
    below-min r a b h = ground (
      arith,
      lt_nan_right r num.nan nan_is_nan,
      lt_trans r b a,
      nlt_trans r b a,
      nlt_trans b a r,
      lt_nan_right r b,
    )

    min-below : (r a b : Number) → (r < a) ≡ true → (r < b) ≡ true → (r < min a b) ≡ true
    unfolding min
    min-below r a b h g = ground (arith, lt_nan_right r a, lt_nan_right r b)

    not_outside : (r n : Number) → (neg r < r) ≡ true → (r < n) ≡ true → (n <= neg r) ≡ false
    not_outside r n o h =
        let wide = lt_trans (neg r) r n o h in
        ground (arith, lt_ne (neg r) n wide, lt_asymm laws (neg r) n wide)

    inside_from-Clear :
        (ps : List Plane) (r : Number) (pnt : Vec3) (m : Number)
        → (neg r < r) ≡ true
        → inside_from ps r pnt m ≡ inside ↔ ((r < m) ≡ true) × All (Clear r pnt) ps
    unfolding inside_from
    inside_from-Clear [] r pnt m o = (λ h. ground arith, λ h. ground arith)
    inside_from-Clear (p ∷ ps) r pnt m o =
        let rest = inside_from-Clear ps r pnt (min m (plane_distance p pnt)) o in
        let split = below-min r m (plane_distance p pnt) in
        let join = min-below r m (plane_distance p pnt) in
        let away = not_outside r (plane_distance p pnt) o in (λ h. ground arith, λ h. ground arith)

    distance_from-Clear :
        (ps : List Plane) (r : Number) (pnt : Vec3) (m : Number)
        → (neg r < r) ≡ true
        → (r < distance_from ps r pnt m) ≡ true ↔ ((r < m) ≡ true) × All (Clear r pnt) ps
    unfolding distance_from
    distance_from-Clear [] r pnt m o = (λ h. (h, _), λ h. h.0)
    distance_from-Clear (p ∷ ps) r pnt m o =
        let rest = distance_from-Clear ps r pnt (min m (plane_distance p pnt)) o in
        let back = lt_asymm laws (neg r) r o in
        let split = below-min r m (plane_distance p pnt) in
        let join = min-below r m (plane_distance p pnt) in
        let away = not_outside r (plane_distance p pnt) o in (λ h. ground arith, λ h. ground arith)

    -- For a radius that is above its negation and below its double, and numbers with the order laws of
    -- IEEE 754, isInsideFrustum answers 1 exactly if the ball is strictly inside every plane, and
    -- exactly then distanceToFrustum is above the radius.
    pub inside-Clear :
        (ps : List Plane) (r : Number) (pnt : Vec3)
        → (neg r < r) ≡ true
        → (r < dec 20 1 * r) ≡ true
        → (is_inside_frustum ps r pnt ≡ inside ↔ All (Clear r pnt) ps)
          × ((r < distance_to_frustum ps r pnt) ≡ true ↔ All (Clear r pnt) ps)
    unfolding is_inside_frustum distance_to_frustum
    inside-Clear ps r pnt o d =
        let f = inside_from-Clear ps r pnt (dec 20 1 * r) o in
        let g = distance_from-Clear ps r pnt (dec 20 1 * r) o in
        ((λ h. (f.0 h).1, λ h. f.1 (d, h)), (λ h. (g.0 h).1, λ h. g.1 (d, h)))
