-- ===== src/Examples/Users.antt =====
-- Controls and triggers at concrete inputs.
use megatree.Base.{◌==◌, ◌&&◌, ◌||◌, ◌≡◌, refl, true, false, none, some, List, [], ◌∷◌, arith}
use megatree.Numbers.{Number, lit, dec, ◌<◌, ◌+◌, max}
use megatree.Numbers.Integers.{integers-IsOrdered, pos, negsuc}
use megatree.OrbitCam.{float32, get_position, get_forward, get_up}
use megatree.OrbitCam.Goto.{stop_profile}
use megatree.Cell.{
  Cell, outside, get_cell_center, get_point_in_aligned_camera, pick_valid, pick_octant,
}
use megatree.Texts.{codes}
use megatree.Page.Picking.{
  intersect_cell, intersect_point, point_t, pick_point, pick_points, is_near, num_points,
  pick_cells, pick_point_from_cells, no_hit,
}
use megatree.Selection.{new_selection, get_point}
use megatree.Controls.Mouse.{on_mouse_down, select_point, measure}
use megatree.Page.Triggers.{
  Triggers, slides, moves, change_all, fire, trigger_frustum_update, box_size_meters, trigger-once,
}
use megatree.Controls.{
  Controls, Matrices, MouseEvent, Window, picked_point, compute_pick_ray, get_cursor_position,
  get_matrix, new_distance_measurement,
}
use megatree.Controls.Clipping.{IsClipped, wheel, key, turn_all, turn_all-IsClipped}
use megatree.Controls.Tape.{pairs, numbered}
use megatree.Controls.Measures.{Input, presses, perform_all, all_selected, perform_all-pairs}
use megatree.Controls.Throws.{stopped, goes_wrong, mouse_down-throws}
use megatree.Examples.Data.{whole, at, v3, digits, cam, still}

abbrev controls : Controls still
controls = record {
  cam = record cam { origin = at 7 0 0 };
  selection = none;
  distance_measurement_start = none;
  all_measurements = [];
  g_measurement_number = 1;
  mouse_position = (lit 0, lit 0);
  mouse_button_down = 0;
  selection_vertex = none;
  near_plane_distance = lit 1;
  custom_clipping = false;
  updates = 0;
}

raised : (a : Number) → (a < lit 1) ≡ false → (a + dec 5 1 < lit 1) ≡ false
raised none h = refl
raised (some (pos n)) h = ground arith
raised (some (negsuc n)) h = ground arith

turn_all_example : IsClipped (turn_all (key 80 ∷ wheel (lit 5) ∷ key 79 ∷ []) controls)
turn_all_example =
    turn_all-IsClipped integers-IsOrdered raised (key 80 ∷ wheel (lit 5) ∷ key 79 ∷ []) controls
      (record { not_below = refl; unclipped = λ e. refl })

abbrev mat : Matrices still
mat = record {
  Matrix4 = Unit;
  inverse = λ m. m;
  inverse_orthonormal = λ m. m;
  top_left3x3 = λ m. m;
  make_look_at = λ eye centre up. tt;
  mul4x4 = λ m v. at 1 0 0;
  normalize = λ v. v;
}

-- A cell of size 255 with the point (99, 0, 0), a leaf.
abbrev cell : Cell
cell = record {
  id = codes "f1";
  parent_id = codes "f";
  which_child = some 1;
  children = 0;
  data_bytes = 99 ∷ 0 ∷ 0 ∷ 10 ∷ 10 ∷ 1 ∷ [];
  geometry = record { level = 0; lo = at 0 0 0; hi = at 255 255 255 };
  scale = lit 255;
  node_size = lit 3;
  offset = at 0 0 0;
  radius = lit 500;
  override_color = at 0 0 0;
  parent_cell = none;
  inside_frustum = outside;
  show_children = 0;
}

abbrev window : Window
window = record {
  width = lit 100;
  height = lit 100;
  offset_left = lit 0;
  offset_top = lit 0;
  body_scroll_left = lit 0;
  body_scroll_top = lit 0;
  element_scroll_left = lit 0;
  element_scroll_top = lit 0;
  cells_from_last = cell ∷ [];
}

abbrev shift_click : MouseEvent
shift_click = record {
  which = 1;
  shift_key = true;
  page_x = lit 50;
  page_y = lit 50;
  client_x = lit 50;
  client_y = lit 50;
}

abbrev clicks : List (Input mat)
clicks = presses tt window shift_click ∷ presses tt window shift_click ∷ []

perform_all_example :
    ((perform_all v3 still mat digits clicks controls).all_measurements
      ≡ numbered v3 digits 1 (pairs (all_selected v3 still mat digits clicks controls)).0)
    × ((perform_all v3 still mat digits clicks controls).distance_measurement_start
        ≡ (pairs (all_selected v3 still mat digits clicks controls)).1)
perform_all_example = perform_all-pairs v3 still mat digits clicks controls refl refl

-- Both clicks hit the point of the cell.
hits : all_selected v3 still mat digits clicks controls ≡ at 99 0 0 ∷ at 99 0 0 ∷ []
unfolding on_mouse_down select_point measure new_selection get_point picked_point compute_pick_ray
    get_cursor_position get_matrix get_position get_forward get_up stop_profile max
    new_distance_measurement pick_point_from_cells no_hit pick_cells is_near num_points pick_points
    pick_point point_t intersect_cell intersect_point get_cell_center get_point_in_aligned_camera
    pick_valid pick_octant float32
hits = refl

abbrev triggers : Triggers
triggers = record {
  has_cam = true;
  box_size_px = lit 5;
  height = lit 10;
  point_size_multiplier = lit 1;
  desired_cell_count = lit 400;
  existing_frustum_trigger = none;
  queries = [];
}

trigger-once_example :
    ((fire (change_all (slides (lit 9) ∷ moves ∷ []) (trigger_frustum_update triggers))).queries
      ≡ box_size_meters triggers ∷ [])
    × ((fire (
          change_all
            (slides (lit 9) ∷ moves ∷ [])
            (trigger_frustum_update triggers))).existing_frustum_trigger
        ≡ none)
trigger-once_example = trigger-once triggers (slides (lit 9) ∷ moves ∷ []) refl refl

-- A click for the map, at a point that no map has.
abbrev map_click : MouseEvent
map_click = record shift_click { which = 3 }

mouse_down-throws_example : (on_mouse_down v3 still mat tt digits window map_click controls).2 ≡ (
    (map_click.which == 1 && map_click.shift_key || map_click.which == 3)
    && goes_wrong v3 window map_click controls (
        picked_point v3 still mat tt digits window map_click
          (stopped v3 window map_click controls)))
mouse_down-throws_example = mouse_down-throws refl v3 still mat tt digits window map_click controls
