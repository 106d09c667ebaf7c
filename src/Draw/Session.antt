-- ===== src/Draw/Session.antt =====
-- What changes what is drawn between frames: the callbacks of triggerFrustumUpdate, the end of a selection in
-- onMouseUp, the measurements of onMouseDown, and the start (megatree_web/js/index.js).
pub mod Loads
pub mod Ready
use megatree.Base.{ℕ, Option, none, some, List, [], ◌∷◌, ◌++◌}
use megatree.Outcome.{Outcome, returns, throws, ◌>>=◌}
use megatree.Numbers.{Num, Number, lit}
use megatree.Velocity.Trap.{Vec3}
use megatree.Velocity.Mapped.{Mjs}
use megatree.OrbitCam.{OrbitCam}
use megatree.Cell.{Cell}
use megatree.Texts.{Strings}
use megatree.Selection.{Rotations, Selection}
use megatree.Controls.{Matrices, DistanceMeasurement}
use megatree.Draw.{Gl}
use megatree.Draw.Marks.{Mark, Browser}
use megatree.Draw.Clouds.{PointCloud, setup_gl}
use megatree.Draw.Panel.{Usage}
use megatree.Draw.Frame.{Transforms, Screen, render_loop}

module _ ⦃num : Num⦄ where
  -- `a[0] = v`, after a push where there is nothing.
  abbrev pub set_first : Vec3 → List Vec3 → List Vec3
  set_first v [] = v ∷ []
  set_first v (u ∷ us) = v ∷ us

  -- `selection_cloud` with a selected point, which is red.
  abbrev pub with_point : Vec3 → PointCloud → PointCloud
  with_point p cloud = record cloud {
    vertices = set_first p cloud.vertices;
    colors = set_first (record { x = lit 1; y = lit 0; z = lit 0 }) cloud.colors;
  }

  -- A new DistanceMeasurement.
  abbrev pub unloaded : DistanceMeasurement → Mark
  unloaded m = record { measurement = m; vbo = none; text_texture = none }

  abbrev pub empty_cloud : PointCloud
  empty_cloud = record { vertices = []; colors = []; buffers = none }

module _ ⦃num : Num⦄ {rot : Rotations} {mat : Matrices rot} where
  unfoldable pub show_point : Vec3 → Screen rot mat → Outcome (Screen rot mat)
  show_point p s = elim s.selection_cloud [
    | none ↦ throws
    | some cloud ↦
        let (cloud, g) = setup_gl (with_point p cloud) s.gl in
        returns (record s { selection_cloud = some cloud; gl = g })
  ]

  -- The screen before the first frame. The calls that set up the shaders are left out.
  unfoldable pub new_screen :
      (cells : ℕ → Cell) (box_size_px point_scale canvas_height now : Number) → Screen rot mat
  new_screen cells box_size_px point_scale canvas_height now =
      let (cloud, g) =
        setup_gl empty_cloud (record { calls = []; next_buffer = 0; next_texture = 0 }) in
      record {
        gl = g;
        store = record { cell = cells; vbo = λ r. none };
        cam = none;
        current_cells = none;
        selection = none;
        all_measurements = [];
        selection_cloud = some cloud;
        box_size_px = box_size_px;
        point_scale = point_scale;
        canvas_height = canvas_height;
        frames = 0;
        last_time = now;
        display = [];
        cache = [];
      }

module _ ⦃num : Num⦄ (rot : Rotations) where
  -- What happens on a page: a frame, an answer of the querier, a measurement, a selected point, and what
  -- the camera, the selection, the sliders and the window are set to.
  pub data Happening : Type 0 where
    frame : (now : Number) → Usage → Happening
    cells_given : List ℕ → Happening
    measured : DistanceMeasurement → Happening
    point_selected : Vec3 → Happening
    changed :
        (cam : Option OrbitCam)
        → Option (Selection rot)
        → (box_size_px point_scale canvas_height : Number) → Happening

module _ ⦃num : Num⦄ {rot : Rotations} {mat : Matrices rot} (v3 : Mjs) (tr : Transforms rot mat)
    (w : Browser rot mat) (str : Strings) where
  unfoldable pub happen : Happening rot → Screen rot mat → Outcome (Screen rot mat)
  happen (frame now u) s = render_loop v3 tr w str now u s
  happen (cells_given cells) s = returns (record s { current_cells = some cells })
  happen (measured m) s =
      returns (record s { all_measurements = s.all_measurements ++ unloaded m ∷ [] })
  happen (point_selected p) s = show_point p s
  happen (changed cam selection box_size_px point_scale canvas_height) s = returns (record s {
    cam = cam;
    selection = selection;
    box_size_px = box_size_px;
    point_scale = point_scale;
    canvas_height = canvas_height;
  })

  unfoldable pub happen_all : List (Happening rot) → Screen rot mat → Outcome (Screen rot mat)
  happen_all [] s = returns s
  happen_all (e ∷ es) s = do s ← happen e s; happen_all es s
