-- ===== src/Examples/Pages.antt =====
-- The logic of the page at concrete inputs.
use megatree.Base.{
  ℕ, ◌<◌ as below, ◌^◌, ◌*◌, ◌≡◌, refl, true, false, Option, none, some, List, [], ◌∷◌, ◌++◌, arith,
  if◌then◌else◌, replicate,
}
use megatree.Numbers.{Num, ◌+◌ as plus, ◌*◌ as times, ◌<◌, lit}
use megatree.Numbers.Integers.{integers, integers-IsOrdered}
use megatree.Velocity.Trap.{Vec3}
use megatree.Velocity.Mapped.{Mjs}
use megatree.OrbitCam.{float32}
use megatree.Cell.{
  Cell, outside, get_cell_center, get_point_in_aligned_camera, pick_valid, pick_octant,
}
use megatree.Base.{All, get_elem?}
use megatree.Frustum.Querier.{TreeInfo}
use megatree.Page.Jobs.{JobInfo, Trees, is_named, remove_job, remove_job-trees}
use megatree.Page.Requests.{
  get_many, receive_all, fill, all_received, succeeded, failed, get_many-once,
}
use megatree.Page.Connection.{answered_all, new_checker, min, backoff-doubles}
use megatree.Page.Picking.{
  PickRay, intersect_cell, intersect_point, point_t, pick_point, pick_points, is_near, num_points,
  pick_cells, pick_point_from_cells, Hit, no_hit,
}
use megatree.Page.Picking.Along.{IsPoint, pick-IsPoint}
use megatree.Page.Picking.Nearest.{pick-nearest, pickable}

-- The file 1 before the file 0, which fails.
abbrev one : ℕ × Option ℕ
one = (1, some 7)

abbrev lost : List (ℕ × Option ℕ)
lost = (0, none) ∷ []

get_many_example :
    ((receive_all (one ∷ []) (get_many 2)).reports ≡ [])
    × ((receive_all (one ∷ lost) (get_many 2)).reports
        ≡ (if all_received (one ∷ lost)
            then succeeded (fill (one ∷ lost) (replicate 2 none))
            else failed (fill (one ∷ lost) (replicate 2 none)))
          ∷ [])
get_many_example = get_many-once one lost (one ∷ []) (omega arith)

backoff_example :
    ((answered_all ((false ∷ false ∷ []) ++ true ∷ replicate 3 false) new_checker).backoff
      ≡ min (1000 * 2 ^ 3) 300000)
    × ((answered_all (replicate 3 false) new_checker).backoff ≡ min (1000 * 2 ^ 3) 300000)
backoff_example = backoff-doubles (false ∷ false ∷ []) 3

instance abbrev whole : Num
whole = integers

abbrev at : ℕ → ℕ → ℕ → Vec3
at a b c = record { x = lit a; y = lit b; z = lit c }

abbrev v3 : Mjs
v3 = record {
  make = λ a b c. record { x = a; y = b; z = c };
  clone = λ v. v;
  add = λ u v. record { x = plus u.x v.x; y = plus u.y v.y; z = plus u.z v.z };
  sub = λ u v. record { x = whole.sub u.x v.x; y = whole.sub u.y v.y; z = whole.sub u.z v.z };
  scale = λ u k. record { x = times u.x k; y = times u.y k; z = times u.z k };
  dot = λ u v. plus (plus (times u.x v.x) (times u.y v.y)) (times u.z v.z);
  length = λ u. plus (plus u.x u.y) u.z;
  length_squared = λ u. plus (plus (times u.x u.x) (times u.y u.y)) (times u.z u.z);
}

-- A cell of size 255 with the point (99, 0, 0), a leaf.
abbrev cell : Cell
cell = record {
  id = 102 ∷ 49 ∷ [];
  parent_id = 102 ∷ [];
  which_child = some 1;
  children = 0;
  data_bytes = 99 ∷ 0 ∷ 0 ∷ 10 ∷ 10 ∷ 1 ∷ [];
  geometry = record { level = 0; lo = at 0 0 0; hi = at 255 255 255 };
  scale = lit 255;
  node_size = lit 3;
  offset = at 0 0 0;
  radius = lit 500;
  override_color = at 0 0 0;
  parent_cell = none;
  inside_frustum = outside;
  show_children = 0;
}

abbrev ray : PickRay
ray = record { point = at 0 0 0; ray = at 1 0 0 }

picked : pick_point_from_cells v3 (lit 1) (lit 1) (at 0 0 0) ray (cell ∷ []) ≡ some (at 99 0 0)
unfolding pick_point_from_cells no_hit pick_cells is_near num_points pick_points pick_point point_t
    intersect_cell intersect_point get_cell_center get_point_in_aligned_camera pick_valid
    pick_octant float32
picked = refl

abbrev hit : Hit
hit = pick_cells v3 (lit 1) (lit 1) (at 0 0 0) ray (cell ∷ []) no_hit

pick_example : IsPoint v3 (lit 1) (lit 1) (at 0 0 0) ray (cell ∷ []) hit.min_t (at 99 0 0)
pick_example =
    pick-IsPoint integers-IsOrdered v3 (lit 1) (lit 1) (at 0 0 0) ray (cell ∷ []) (at 99 0 0) picked

-- A second cell behind the first, with the points (20, 0, 0), beyond the least distance, and (99, 0, 0).
abbrev closer : Cell
closer = record cell { data_bytes = 20 ∷ 0 ∷ 0 ∷ 10 ∷ 10 ∷ 1 ∷ cell.data_bytes }

shown :
    is_near v3
      (lit 1)
      (lit 1)
      (at 0 0 0)
      ray
      cell
      (pick_cells v3 (lit 1) (lit 1) (at 0 0 0) ray (cell ∷ closer ∷ []) no_hit)
    ≡ true
unfolding pick_cells is_near num_points pick_points pick_point point_t intersect_cell
    intersect_point get_cell_center get_point_in_aligned_camera pick_valid pick_octant float32
    no_hit
shown = refl

reaches : below 0 (num_points v3 (lit 1) (lit 1) (at 0 0 0) ray cell)
unfolding num_points
reaches = omega arith

allowed : pickable v3 (lit 1) (lit 1) (at 0 0 0) ray cell 0 ≡ true
unfolding point_t intersect_point get_point_in_aligned_camera pick_valid pick_octant float32
allowed = refl

nearest_example :
    (point_t v3 (lit 1) (lit 1) (at 0 0 0) ray cell 0
      < (pick_cells v3 (lit 1) (lit 1) (at 0 0 0) ray (cell ∷ closer ∷ []) no_hit).min_t)
    ≡ false
nearest_example =
    pick-nearest integers-IsOrdered v3 (lit 1) (lit 1) (at 0 0 0) ray (cell ∷ closer ∷ []) 0 cell 0
      no_hit refl shown reaches allowed

abbrev tree : ℕ → TreeInfo
tree n = record {
  enabled = true;
  name = n ∷ [];
  override_color = false;
  color = at 0 0 0;
  root = n ∷ 47 ∷ 102 ∷ 49 ∷ [];
  geom = cell.geometry;
}

abbrev job : JobInfo
job = record {
  name = 106 ∷ [];
  finished = true;
  failed = false;
  removed = false;
  tree_name = some (98 ∷ []);
}

abbrev trees : Trees
trees = record { trees_info = some (tree 97) ∷ none ∷ some (tree 98) ∷ []; updates = 0 }

remove_job_example :
    All (λ u. is_named (98 ∷ []) u ≡ false) (remove_job job trees).1.trees_info
    × (get_elem? (remove_job job trees).1.trees_info 0 ≡ some (some (tree 97)))
    × ((remove_job job trees).0.removed ≡ true)
remove_job_example = remove_job-trees job 98 [] trees 0 (some (tree 97)) refl refl refl
