-- ===== src/Page/Picking/Nearest.antt =====
-- The point that pickPointFromCells of megatree_web/js/index.js picks is the nearest one.
use megatree.Base.{
  ℕ, zero, suc, ◌<◌ as below, ◌+◌ as sum, ◌≡◌, sym, subst, Bool, true, false, ◌&&◌, List, [], ◌∷◌,
  arith, if◌then◌else◌, if-elim, Bool-cases, inl, inr, get_elem?, some,
}
use megatree.Numbers.{Num, Number, ◌-◌, ◌*◌, ◌<◌, dec, IsOrdered}
use megatree.Velocity.Trap.{Vec3}
use megatree.Velocity.Mapped.{Mjs}
use megatree.Cell.{Cell, get_cell_center, pick_valid}
use megatree.Page.Picking.{
  Hit, PickRay, point_t, pick_point, pick_points, is_near, num_points, pick_cells, intersect_cell,
}

module _ ⦃num : Num⦄ (v3 : Mjs) (min_dist magic_ratio : Number) (cam_position : Vec3)
    (pick : PickRay) where
  -- The test of the inner loop but for the distance so far.
  abbrev pub pickable : Cell → ℕ → Bool
  pickable cell j =
      pick_valid cell j
      && min_dist * dec 20 1 < point_t v3 min_dist magic_ratio cam_position pick cell j

module _ ⦃num : Num⦄ (ord : IsOrdered num) (v3 : Mjs) (min_dist magic_ratio : Number)
    (cam_position : Vec3) (pick : PickRay) where
  -- A hit that is no farther.
  Closer : Hit → Hit → Type 0
  Closer new old = (t : Number) → (t < new.min_t) ≡ true → (t < old.min_t) ≡ true

  abbrev t_of : Cell → ℕ → Number
  t_of = point_t v3 min_dist magic_ratio cam_position pick

  abbrev step : Cell → ℕ → Hit → Hit
  step = pick_point v3 min_dist magic_ratio cam_position pick

  abbrev may_pick : Cell → ℕ → Bool
  may_pick = pickable v3 min_dist magic_ratio cam_position pick

  -- The hit after the loops over all cells.
  abbrev final : List Cell → Hit → Hit
  final = pick_cells v3 min_dist magic_ratio cam_position pick

  abbrev near : Cell → Hit → Bool
  near = is_near v3 min_dist magic_ratio cam_position pick

  stays :
      (new old : Hit) (t : Number)
      → Closer new old
      → (t < old.min_t) ≡ false
      → (t < new.min_t) ≡ false
  unfolding Closer
  stays new old t c far = elim (Bool-cases (t < new.min_t)) [ inl less ↦ cc (c t less) | inr e ↦ e ]

  step-Closer : (cell : Cell) (j : ℕ) (hit : Hit) → Closer (step cell j hit) hit
  unfolding pick_point Closer
  step-Closer cell j hit =
      if-elim (λ h. Closer h hit)
        (pick_valid cell j && (min_dist * dec 20 1 < t_of cell j && t_of cell j < hit.min_t)) _ hit
        (λ picked t less. ord.lt_trans t (t_of cell j) hit.min_t less (ground arith))
        (λ _ t less. less)

  -- A pickable point is no nearer than the hit after its round.
  step-nearest :
      (cell : Cell) (j : ℕ) (hit : Hit)
      → may_pick cell j ≡ true
      → (t_of cell j < (step cell j hit).min_t) ≡ false
  unfolding pick_point
  step-nearest cell j hit ok =
      if-elim (λ h. (t_of cell j < h.min_t) ≡ false)
        (pick_valid cell j && (min_dist * dec 20 1 < t_of cell j && t_of cell j < hit.min_t)) _ hit
        (λ _. ord.lt_irrefl (t_of cell j)) (λ far. ground arith)

  abbrev steps : Cell → (left j : ℕ) → Hit → Hit
  steps = pick_points v3 min_dist magic_ratio cam_position pick

  Closer-trans : (a b c : Hit) → Closer a b → Closer b c → Closer a c
  unfolding Closer
  Closer-trans a b c ab bc t less = bc t (ab t less)

  steps-Closer : (cell : Cell) (left j : ℕ) (hit : Hit) → Closer (steps cell left j hit) hit
  unfolding pick_points Closer
  steps-Closer cell zero j hit t less = less
  steps-Closer cell (suc left) j hit t less =
      step-Closer cell j hit t (steps-Closer cell left (suc j) (step cell j hit) t less)

  abbrev Missed : Cell → (m : ℕ) → Hit → Type 0
  Missed cell m hit = (t_of cell m < hit.min_t) ≡ false

  steps-nearest :
      (cell : Cell) (left j i m : ℕ) (hit : Hit)
      → below i left
      → sum i j ≡ m
      → may_pick cell m ≡ true
      → Missed cell m (steps cell left j hit)
  unfolding pick_points
  steps-nearest cell zero j i m hit less e ok = absurd (omega arith)
  steps-nearest cell (suc left) j zero m hit less e ok =
      stays _ (step cell j hit) (t_of cell m) (steps-Closer cell left (suc j) _) (
        subst (λ k. Missed cell k (step cell j hit)) j-m
          (step-nearest cell j hit (subst (λ k. may_pick cell k ≡ true) (sym j-m) ok)))
    where
      j-m : j ≡ m
      j-m = omega arith
  steps-nearest cell (suc left) j (suc i) m hit less e ok =
      steps-nearest cell left (suc j) i m (step cell j hit) (omega arith) (omega arith) ok

  abbrev points : Cell → ℕ
  points = num_points v3 min_dist magic_ratio cam_position pick

  abbrev round : Cell → Hit → Hit
  round cell hit = if near cell hit then steps cell (points cell) 0 hit else hit

  round-Closer : (cell : Cell) (hit : Hit) → Closer (round cell hit) hit
  unfolding Closer
  round-Closer cell hit =
      if-elim (λ h. Closer h hit) (near cell hit) _ hit (λ _. steps-Closer cell (points cell) 0 hit)
        (λ _ t less. less)

  final-Closer : (cells : List Cell) (hit : Hit) → Closer (final cells hit) hit
  unfolding pick_cells Closer
  final-Closer [] hit t less = less
  final-Closer (cell ∷ more) hit t less =
      round-Closer cell hit t (final-Closer more (round cell hit) t less)

  both : (a b b' : Bool) → (b ≡ true → b' ≡ true) → (a && b) ≡ true → (a && b') ≡ true
  both true b b' f h = f h
  both false b b' f h = h

  near-before :
      (cell : Cell) (new old : Hit) → Closer new old → near cell new ≡ true → near cell old ≡ true
  unfolding is_near Closer
  near-before cell new old c h =
      let center = v3.sub (get_cell_center cell) cam_position in
      both (intersect_cell v3 pick.point pick.ray center cell.radius magic_ratio < num.max_value)
        (v3.length center - cell.radius < new.min_t) (v3.length center - cell.radius < old.min_t)
        (c (v3.length center - cell.radius)) h

  round-nearest :
      (cell : Cell) (m : ℕ) (hit : Hit)
      → near cell hit ≡ true
      → below m (points cell)
      → may_pick cell m ≡ true
      → Missed cell m (round cell hit)
  round-nearest cell m hit shown less ok =
      subst (λ b. Missed cell m (if b then steps cell (points cell) 0 hit else hit)) (sym shown)
        (steps-nearest cell (points cell) 0 m m hit less (omega arith) ok)

  first-nearest :
      (cell : Cell) (more : List Cell) (m : ℕ) (hit : Hit)
      → below m (points cell)
      → may_pick cell m ≡ true
      → near cell (final more (round cell hit)) ≡ true
      → Missed cell m (final more (round cell hit))
  unfolding Closer
  first-nearest cell more m hit less ok shown =
      stays (final more (round cell hit)) (round cell hit) (t_of cell m)
        (final-Closer more (round cell hit))
        (round-nearest cell m hit (near-before cell (final more (round cell hit)) hit down shown)
          less ok)
    where
      down : Closer (final more (round cell hit)) hit
      down t l = round-Closer cell hit t (final-Closer more (round cell hit) t l)

  -- Over numbers with the order laws of IEEE 754, no point that the loops of pickPointFromCells may
  -- pick, of a cell that passes their test with the distance they end with, is nearer than that.
  pub pick-nearest :
      (cells : List Cell) (place : ℕ) (cell : Cell) (m : ℕ) (hit : Hit)
      → get_elem? cells place ≡ some cell
      → near cell (final cells hit) ≡ true
      → below m (points cell)
      → may_pick cell m ≡ true
      → (t_of cell m < (final cells hit).min_t) ≡ false
  unfolding pick_cells
  pick-nearest [] place cell m hit there shown less ok = cc there
  pick-nearest (c ∷ more) zero cell m hit there shown less ok =
      subst
        (λ d.
          near cell (final more (round d hit)) ≡ true → Missed cell m (final more (round d hit)))
        same (first-nearest cell more m hit less ok) shown
    where
      same : cell ≡ c
      same = cc there
  pick-nearest (c ∷ more) (suc place) cell m hit there shown less ok =
      pick-nearest more place cell m (round c hit) there shown less ok
