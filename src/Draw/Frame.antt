-- ===== src/Draw/Frame.antt =====
-- A frame: renderLoop of megatree_web/js/index.js, with makeBillboardSpher and prettyBytes.
pub mod Calls
pub mod Loads
pub mod Stored
pub mod Shows
pub mod Adds
pub mod Parts
pub mod Halves
pub mod Whole
use megatree.Base.{
  ℕ, zero, suc, Bool, true, false, not, ◌||◌, Option, none, some, List, [], ◌∷◌, ◌++◌, ◌==◌,
  if◌then◌else◌, length,
}
use megatree.Outcome.{Outcome, returns, throws, ◌>>=◌}
use megatree.Numbers.{Num, Number, ◌+◌, ◌-◌, ◌*◌, ◌/◌, ◌<◌, ◌===◌, is_nan, neg, pi, lit, dec}
use megatree.Velocity.Trap.{Vec3}
use megatree.Velocity.Mapped.{Mjs}
use megatree.OrbitCam.{OrbitCam, get_position}
use megatree.Cell.{Cell, Text}
use megatree.Texts.{Strings, codes}
use megatree.Selection.{Rotations, Selection}
use megatree.Controls.{Matrices, get_matrix}
use megatree.Page.Triggers.{fov}
use megatree.Draw.{
  Buffer, Gl, Store, Command, call, call_all, ensure_loaded, render_cell, current, old, line,
  textured, get_error, clear_color, clear_color_and_depth, clear_depth, use_program, uniform1f,
  uniform3fv, uniform_matrix3fv, uniform_matrix4fv, box_size, point_size_multiplier,
  meters_to_pixels, r_camera_world, p_selection_camera, point_size, t_camera_world, lift,
  model_view_matrix,
}
use megatree.Draw.Marks.{Mark, Browser, gl_check, load_mark, render_mark, render_text}
use megatree.Draw.Clouds.{PointCloud, render_cloud}
use megatree.Draw.Panel.{Usage, display_text, cache_text}

-- The rest of what a frame takes from mjs.js, and a write of a matrix's entry.
pub record Transforms ⦃num : Num⦄ (rot : Rotations) (mat : Matrices rot) : Type 0 where
  pub mul : mat.Matrix4 → mat.Matrix4 → mat.Matrix4
  pub make_translate : Vec3 → mat.Matrix4
  pub set_entry : ℕ → Number → mat.Matrix4 → mat.Matrix4

pub record Screen ⦃num : Num⦄ (rot : Rotations) (mat : Matrices rot) : Type 0 where
  pub gl : Gl rot mat
  pub store : Store
  pub cam : Option OrbitCam
  pub current_cells : Option (List ℕ)
  pub selection : Option (Selection rot)
  pub all_measurements : List Mark
  pub selection_cloud : Option PointCloud
  pub box_size_px : Number
  pub point_scale : Number
  pub canvas_height : Number
  pub frames : ℕ
  pub last_time : Number
  pub display : Text
  pub cache : Text

module _ ⦃num : Num⦄ {rot : Rotations} {mat : Matrices rot} (v3 : Mjs) (tr : Transforms rot mat)
    (w : Browser rot mat) (str : Strings) where
  unfoldable pub make_billboard_spher : mat.Matrix4 → mat.Matrix4
  make_billboard_spher t_cam_world =
      tr.set_entry 12 (lit 0)
        (tr.set_entry 13 (lit 0) (tr.set_entry 14 (lit 0) (mat.inverse t_cam_world)))

  -- The loop over the cells, with the points so far.
  unfoldable pub render_cells :
      (cam_position : Vec3)
      → List ℕ
      → (total_points : Number) → Store
      → Gl rot mat
      → Outcome (Number × Store × Gl rot mat)
  render_cells cam_position [] total s g = returns (total, s, g)
  render_cells cam_position (r ∷ rs) total s g = do
    let total = total + lit (length (s.cell r).data_bytes) / lit 6
    let (s, g) = ensure_loaded r s (call (uniform1f current point_size (lit 20)) g)
    g ← render_cell v3 cam_position (s.cell r) (s.vbo r) g
    render_cells cam_position rs total s g

  unfoldable pub render_cloud_of_cells :
      OrbitCam
      → Option (List ℕ)
      → Option (Selection rot)
      → Store
      → Gl rot mat
      → Outcome (Number × Store × Gl rot mat)
  render_cloud_of_cells cam none selection s g = returns (lit 0, s, g)
  render_cloud_of_cells cam (some cells) selection s g =
      let g =
        call_all
          (use_program current
            ∷ uniform_matrix3fv current r_camera_world (mat.top_left3x3 (get_matrix v3 rot mat cam))
            ∷ [])
          g in
      let g : Gl rot mat = elim selection [
        | none ↦ g
        | some sel ↦
            call
              (uniform3fv current p_selection_camera
                (v3.sub (get_position v3 cam) sel.p_world_selection))
              g
      ] in
      render_cells (get_position v3 cam) cells (lit 0) s g

  unfoldable pub render_marks : List Mark → Gl rot mat → Outcome (List Mark × Gl rot mat)
  render_marks [] g = returns ([], g)
  render_marks (mark ∷ marks) g = do
    (mark, g) ← elim mark.vbo [ none ↦ load_mark w mark g | some vbo ↦ returns (mark, g) ]
    g ← render_mark w mark g
    (marks, g) ← render_marks marks g
    returns (mark ∷ marks, g)

  unfoldable pub render_texts : OrbitCam → List Mark → Gl rot mat → Outcome (Gl rot mat)
  render_texts cam [] g = returns g
  render_texts cam (mark ∷ marks) g = do
    let t = get_matrix v3 rot mat cam
    let trans = tr.make_translate mark.measurement.mid
    g ← render_text w mark (
        call
          (uniform_matrix4fv textured t_camera_world
            (tr.mul t (tr.mul trans (make_billboard_spher t))))
          g)
    render_texts cam marks g

  unfoldable pub render_selection :
      OrbitCam → (m_to_px : Number) → Option PointCloud → Gl rot mat → Outcome (Gl rot mat)
  render_selection cam m_to_px none g = returns g
  render_selection cam m_to_px (some cloud) g = do
    g ← render_cloud cloud (
        call_all
          (clear_depth
            ∷ use_program old
            ∷ uniform_matrix4fv old model_view_matrix (get_matrix v3 rot mat cam)
            ∷ uniform1f old meters_to_pixels m_to_px
            ∷ [])
          g)
    returns (call (use_program current) g)

  -- The end of a frame: four times a second the texts are written anew.
  unfoldable pub count_frame : (now total_points : Number) → Usage → Screen rot mat → Screen rot mat
  count_frame now total u s =
      let s = record s { frames = suc s.frames } in
      if lit 250 < now - s.last_time
      then record s {
        display =
            display_text w str (lit s.frames / (now - s.last_time) * lit 1000) total
              s.current_cells;
        cache = cache_text w str u;
        last_time = now;
        frames = 0;
      }
      else s

  -- A pixel is a metre over this many pixels.
  abbrev tan_half : Number
  tan_half = num.tan (fov / lit 2 * pi / lit 180)

  abbrev pub m_to_px : Screen rot mat → Number
  m_to_px s = s.canvas_height / (lit 2 * tan_half)

  abbrev pub frame_header : Screen rot mat → List (Command rot mat)
  frame_header s =
      clear_color (lit 0) (dec 5 1) (lit 1) (lit 1)
      ∷ clear_color_and_depth
      ∷ use_program current
      ∷ uniform1f current box_size (lit 2 * tan_half * s.box_size_px / s.canvas_height)
      ∷ uniform1f current point_size_multiplier s.point_scale
      ∷ uniform1f current meters_to_pixels (m_to_px s)
      ∷ []

  -- The error of the cells is only written to the console.
  abbrev pub line_header : OrbitCam → List (Command rot mat)
  line_header cam =
      get_error
      ∷ use_program line
      ∷ uniform_matrix4fv line t_camera_world (get_matrix v3 rot mat cam)
      ∷ uniform1f line lift (neg (lit 10))
      ∷ []

  abbrev pub text_header : List (Command rot mat)
  text_header = use_program textured ∷ uniform1f textured lift (neg (lit 1)) ∷ []

  unfoldable pub render_with :
      OrbitCam → (now : Number) → Usage → Screen rot mat → Outcome (Screen rot mat)
  render_with cam now u s = do
    (total, store, g) ←
        render_cloud_of_cells cam s.current_cells s.selection s.store
          (call_all (frame_header s) s.gl)
    g ← gl_check w (call_all (line_header cam) g)
    (marks, g) ← render_marks s.all_measurements g
    g ← gl_check w g
    g ← render_texts cam marks (call_all text_header g)
    g ← gl_check w g
    g ← render_selection cam (m_to_px s) s.selection_cloud g
    returns (count_frame now total u (record s { gl = g; store = store; all_measurements = marks }))

  unfoldable pub render_loop : (now : Number) → Usage → Screen rot mat → Outcome (Screen rot mat)
  render_loop now u s =
      let s = record s { gl = call get_error s.gl } in
      elim s.cam [ none ↦ returns s | some cam ↦ render_with cam now u s ]
