-- ===== src/Controls.antt =====
-- Mouse and keyboard: the handlers of megatree_web/js/index.js that move the camera, select, measure and
-- clip, DistanceMeasurement of megatree_web/js/measure.js and getMatrix of megatree_web/js/orbitcam.js.
-- Matrices are those of mjs.js, a library; what the browser knows of the window is an argument.
pub mod Mouse
pub mod Keys
pub mod Tape
pub mod Measures
pub mod Throws
pub mod Clipping
use megatree.Base.{
  ℕ, zero, suc, Bool, true, false, not, ◌&&◌, ◌||◌, Option, none, some, List, [], ◌∷◌, ◌++◌, ◌==◌,
  if◌then◌else◌,
}
use megatree.Outcome.{Outcome, returns, throws, ◌>>=◌}
use megatree.Numbers.{Num, Number, ◌+◌, ◌-◌, ◌*◌, ◌/◌, ◌<◌, ◌===◌, neg, lit, dec, pi, is_nan, max}
use megatree.Velocity.Trap.{Vec3}
use megatree.Velocity.Mapped.{Mjs}
use megatree.OrbitCam.{
  OrbitCam, Config, new_orbit_cam, get_position, get_up, yaw_by, pitch_by, go_left, go_up,
  go_closer,
}
use megatree.OrbitCam.Goto.{Timer, goto, stop_profile}
use megatree.Cell.{Text, Cell}
use megatree.Texts.{Strings, codes}
use megatree.Selection.{Rotations, Selection, new_selection, set_end_point, is_point, get_point}
use megatree.Page.Picking.{PickRay, pick_point_from_cells}

-- The matrices of mjs.js with four rows.
pub record Matrices ⦃num : Num⦄ (rot : Rotations) : Type 1 where
  pub Matrix4 : Type 0
  pub inverse : Matrix4 → Matrix4
  pub inverse_orthonormal : Matrix4 → Matrix4
  pub top_left3x3 : Matrix4 → rot.Matrix
  pub make_look_at : (eye centre up : Vec3) → Matrix4
  pub mul4x4 : Matrix4 → Vec3 → Vec3
  pub normalize : Vec3 → Vec3

pub record MouseEvent ⦃num : Num⦄ : Type 0 where
  pub which : ℕ
  pub shift_key : Bool
  pub page_x : Number
  pub page_y : Number
  pub client_x : Number
  pub client_y : Number

-- The canvas, how far the document is scrolled, and the cells that are shown, from the last one on.
pub record Window ⦃num : Num⦄ : Type 0 where
  pub width : Number
  pub height : Number
  pub offset_left : Number
  pub offset_top : Number
  pub body_scroll_left : Number
  pub body_scroll_top : Number
  pub element_scroll_left : Number
  pub element_scroll_top : Number
  pub cells_from_last : List Cell

pub record DistanceMeasurement ⦃num : Num⦄ : Type 0 where
  pub first : Vec3
  pub last : Vec3
  pub distance : Number
  pub mid : Vec3
  pub name : Text

pub record Controls ⦃num : Num⦄ (rot : Rotations) : Type 0 where
  pub cam : OrbitCam
  pub selection : Option (Selection rot)
  pub distance_measurement_start : Option Vec3
  pub all_measurements : List DistanceMeasurement
  pub g_measurement_number : ℕ
  pub mouse_position : Number × Number
  pub mouse_button_down : ℕ
  pub selection_vertex : Option Vec3
  pub near_plane_distance : Number
  pub custom_clipping : Bool
  pub updates : ℕ

module _ ⦃num : Num⦄ where
  abbrev pub truthy : Number → Bool
  truthy a = not (a === lit 0 || is_nan a)

  unfoldable pub get_cursor_position : Window → MouseEvent → Number × Number
  get_cursor_position w e =
      if truthy e.page_x || truthy e.page_y
      then (e.page_x - w.offset_left, e.page_y - w.offset_top)
      else (
        e.client_x + w.body_scroll_left + w.element_scroll_left - w.offset_left,
        e.client_y + w.body_scroll_top + w.element_scroll_top - w.offset_top,
      )

  -- A measurement that is given no name takes the next number.
  unfoldable pub new_distance_measurement :
      Mjs → Strings → (start end : Vec3) (g_measurement_number : ℕ) → DistanceMeasurement
  new_distance_measurement v3 str start end number = record {
    first = start;
    last = end;
    distance = v3.length (v3.sub end start);
    mid = v3.scale (v3.add start end) (dec 5 1);
    name = codes "measurement-" ++ str.show (lit number);
  }

module _ ⦃num : Num⦄ (v3 : Mjs) (rot : Rotations) (mat : Matrices rot) where
  unfoldable pub get_matrix : OrbitCam → mat.Matrix4
  get_matrix cam = mat.make_look_at (get_position v3 cam) cam.origin (get_up v3 cam)

  unfoldable pub compute_pick_ray :
      (projection_matrix : mat.Matrix4) (w : Window) (cam : OrbitCam) (mouse : Number × Number)
      → PickRay
  compute_pick_ray projection_matrix w cam (mouse_x, mouse_y) =
      let image_to_camera = mat.inverse projection_matrix in
      let image_point =
        v3.make (mouse_x / w.width * lit 2 - lit 1) (lit 1 - mouse_y / w.height * lit 2)
          (neg (dec 5 1)) in
      let camera_to_world_rotation = mat.top_left3x3 (mat.inverse_orthonormal (get_matrix cam)) in
      let cloud_pt = rot.mul3x3 camera_to_world_rotation (mat.mul4x4 image_to_camera image_point) in
      let pick_origin = v3.make (lit 0) (lit 0) (lit 0) in
      record { point = pick_origin; ray = mat.normalize (v3.sub cloud_pt pick_origin) }

  module _ (projection_matrix : mat.Matrix4) (str : Strings) (w : Window) where
    -- The point under the mouse, relative to the camera.
    unfoldable pub picked_point : MouseEvent → Controls rot → Option Vec3
    picked_point e c =
        pick_point_from_cells v3 (max (lit 1) c.near_plane_distance)
          (num.tan (pi / lit 6 / (w.height / lit 4))) (get_position v3 c.cam)
          (compute_pick_ray projection_matrix w c.cam (get_cursor_position w e)) w.cells_from_last
