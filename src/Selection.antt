-- ===== src/Selection.antt =====
-- The selection of a point or a box: megatree_web/js/selection.js. Matrices and their product with a
-- vector are those of mjs.js, a library.
use megatree.Base.{Bool, true, false, Option, none, some}
use megatree.Outcome.{Outcome, returns, throws}
use megatree.Numbers.{Num, Number, ◌*◌, ◌/◌, neg, lit, dec}
use megatree.Velocity.Trap.{Vec3}
use megatree.Velocity.Mapped.{Mjs}
use megatree.OrbitCam.{Config, OrbitCam}

-- `V3.mul3x3`, `M3x3.transpose` and the matrices.
pub record Rotations ⦃num : Num⦄ : Type 1 where
  pub Matrix : Type 0
  pub mul3x3 : Matrix → Vec3 → Vec3
  pub transpose : Matrix → Matrix

pub record Selection ⦃num : Num⦄ (rot : Rotations) : Type 0 where
  pub r_selection_world : rot.Matrix
  pub p_world_selection : Vec3
  pub depth : Number
  pub picked_point_world : Vec3
  pub begin_selection : Vec3
  pub end_selection : Option Vec3

module _ ⦃num : Num⦄ (v3 : Mjs) (rot : Rotations) where
  unfoldable pub new_selection :
      (picked_point : Vec3) (r_camera_world : rot.Matrix) (p_world_camera : Vec3) → Selection rot
  new_selection picked_point r_camera_world p_world_camera =
      let picked_point_camera = rot.mul3x3 r_camera_world picked_point in
      let depth = picked_point_camera.z in
      record {
        r_selection_world = r_camera_world;
        p_world_selection = p_world_camera;
        depth = depth;
        picked_point_world = v3.add p_world_camera picked_point;
        begin_selection = v3.add picked_point_camera (v3.make (lit 0) (lit 0) (depth * dec 5 1));
        end_selection = none;
      }

  unfoldable pub set_end_point : (ray : Vec3) → Selection rot → Selection rot
  set_end_point ray s =
      let ray_camera = rot.mul3x3 s.r_selection_world ray in
      let picked_point_camera = v3.scale ray_camera (s.depth / ray_camera.z) in
      record s {
        end_selection =
            some (v3.add picked_point_camera (v3.make (lit 0) (lit 0) (neg s.depth * dec 5 1)));
      }

  unfoldable pub is_point : Selection rot → Bool
  is_point s = elim s.end_selection [ none ↦ true | some p ↦ false ]

  unfoldable pub get_point : Selection rot → Outcome Vec3
  get_point s = elim s.end_selection [ none ↦ returns s.picked_point_world | some p ↦ throws ]

  -- A point of the selection's frame in the world's.
  abbrev to_world : Selection rot → Vec3 → Vec3
  to_world s p = v3.add (rot.mul3x3 (rot.transpose s.r_selection_world) p) s.p_world_selection

  unfoldable pub get_box : Selection rot → Outcome (Vec3 × Vec3)
  get_box s = elim s.end_selection [
    | none ↦ throws
    | some p ↦ returns (to_world s s.begin_selection, to_world s p)
  ]

  -- For a point the centre is null, of which `V3.mul3x3` cannot read the components.
  unfoldable pub look_at : Selection rot → (current_cam : OrbitCam) → Outcome Config
  look_at s current_cam = elim s.end_selection [ none ↦ throws | some p ↦ returns (view_of p) ]
    where
      view_of : Vec3 → Config
      view_of p =
          let center = v3.scale (v3.add s.begin_selection p) (lit 1 / lit 2) in
          let plane_begin = record (v3.clone s.begin_selection) { z = lit 0 } in
          let plane_end = record (v3.clone p) { z = lit 0 } in
          let dist = v3.length (v3.sub plane_begin plane_end) in
          record {
            origin = some (to_world s center);
            distance = some (dist * lit 2);
            pitch = some current_cam.pitch;
            yaw = some current_cam.yaw;
            closest = none;
            farthest = none;
          }
