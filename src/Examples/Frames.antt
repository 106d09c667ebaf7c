-- ===== src/Examples/Frames.antt =====
-- A frame at concrete inputs: a cell that is current twice, a measurement, and the cloud of a selection.
use megatree.Base.{List, ◌≡◌, refl, false, none, some, [], ◌∷◌, arith}
use megatree.Outcome.{returns}
use megatree.Numbers.{lit}
use megatree.Cell.{Cell, outside}
use megatree.Texts.{codes}
use megatree.Controls.{Matrices}
use megatree.Draw.{Gl}
use megatree.Draw.Marks.{Mark, Browser}
use megatree.Draw.Clouds.{PointCloud, setup_gl, flatten_v3_array}
use megatree.Draw.Panel.{Usage}
use megatree.Draw.Frame.{Transforms, Screen, render_loop}
use megatree.Draw.Frame.Whole.{IsShown, frame-shows}
use megatree.Draw.Frame.Halves.{IsReady}
use megatree.Draw.Session.{
  Happening, frame, cells_given, measured, point_selected, changed, new_screen, happen_all,
}
use megatree.Draw.Session.Ready.{happen_all-IsReady}
use megatree.Examples.Data.{whole, at, v3, digits, cam, still, box}

abbrev mat : Matrices still
mat = record {
  Matrix4 = Unit;
  inverse = λ m. m;
  inverse_orthonormal = λ m. m;
  top_left3x3 = λ m. m;
  make_look_at = λ eye centre up. tt;
  mul4x4 = λ m v. at 1 0 0;
  normalize = λ v. v;
}

abbrev same : Transforms still mat
same = record { mul = λ m n. m; make_translate = λ v. tt; set_entry = λ k a m. m }

abbrev silent : Browser still mat
silent = record { has_error = λ calls. false; to_fixed = λ a n. digits.show a; floor = λ a. a }

-- A leaf with one point.
abbrev cell : Cell
cell = record {
  id = codes "f1";
  parent_id = codes "f";
  which_child = some 1;
  children = 0;
  data_bytes = 99 ∷ 0 ∷ 0 ∷ 10 ∷ 10 ∷ 1 ∷ [];
  geometry = record { level = 0; lo = at 0 0 0; hi = at 255 255 255 };
  scale = lit 255;
  node_size = lit 3;
  offset = at 0 0 0;
  radius = lit 500;
  override_color = at 0 0 0;
  parent_cell = none;
  inside_frustum = outside;
  show_children = 5;
}

abbrev mark : Mark
mark = record {
  measurement = record {
    first = at 0 0 0;
    last = at 4 0 0;
    distance = lit 4;
    mid = at 2 0 0;
    name = codes "m";
  };
  vbo = none;
  text_texture = none;
}

abbrev corner : PointCloud
corner = record { vertices = at 1 1 7 ∷ []; colors = at 1 0 0 ∷ []; buffers = none }

abbrev blank : Gl still mat
blank = record { calls = []; next_buffer = 0; next_texture = 0 }

abbrev screen : Screen still mat
unfolding setup_gl
screen = record {
  gl = (setup_gl corner blank).1;
  store = record { cell = λ r. cell; vbo = λ r. none };
  cam = some cam;
  current_cells = some (3 ∷ 3 ∷ []);
  selection = some box;
  all_measurements = mark ∷ [];
  selection_cloud = some (setup_gl corner blank).0;
  box_size_px = lit 1;
  point_scale = lit 1;
  canvas_height = lit 100;
  frames = 3;
  last_time = lit 0;
  display = [];
  cache = [];
}

screen-IsReady : IsReady screen
unfolding screen setup_gl flatten_v3_array
screen-IsReady = record {
  fresh = λ b above. ground arith;
  stored = λ r b h. ground arith;
  kept = (λ b h. ground arith, tt);
  set_up = record {
    buffers = record { vertex_buffer = 0; color_buffer = 1; num_items = 1 };
    has = refl;
    vertices = record { made = omega arith; holds = refl; once = refl };
    colors = record { made = omega arith; holds = refl; once = refl };
    count = refl;
  };
}

abbrev usage : Usage
usage = record {
  size = lit 1;
  max_size = lit 10;
  total_cell_bytes_downloaded = lit 0;
  in_flight = lit 2;
}

frame-shows_example :
    (s' : Screen still mat) × (render_loop v3 same silent digits (lit 100) usage screen
      ≡ returns s')
    × IsShown v3 same silent digits screen s'
unfolding screen
frame-shows_example =
    frame-shows v3 same silent digits (λ calls. refl) screen cam (lit 100) usage refl screen-IsReady

abbrev happenings : List (Happening still)
happenings =
    changed (some cam) (some box) (lit 1) (lit 1) (lit 100)
    ∷ cells_given (3 ∷ 4 ∷ [])
    ∷ measured (mark.measurement)
    ∷ frame (lit 10) usage
    ∷ point_selected (at 1 1 5)
    ∷ cells_given (4 ∷ 5 ∷ [])
    ∷ frame (lit 20) usage
    ∷ []

session_example :
    (s' : Screen still mat) × (happen_all v3 same silent digits happenings
        (new_screen (λ r. cell) (lit 1) (lit 1) (lit 100) (lit 0))
      ≡ returns s')
    × IsReady s'
    × (s'.store.cell ≡ (λ r. cell))
session_example =
    happen_all-IsReady v3 same silent digits (λ calls. refl) happenings (λ r. cell) (lit 1) (lit 1)
      (lit 100) (lit 0)
