-- ===== src/Examples/Queries.antt =====
-- The cells and the frustum querier at concrete inputs, over the integers.
use Prim.Native.Nat.{bit_and}
use megatree.Base.{
  ℕ, ◌+◌, ◌*◌, ◌<◌, ◌≡◌, refl, ◌⊎◌, true, false, ◌==◌, if◌then◌else◌, Option, none, some, List, [],
  ◌∷◌, ◌↔◌, All, arith, get_or,
}
use megatree.Outcome.{returns}
use megatree.Numbers.{Num, lit}
use megatree.Numbers.{◌<◌ as below, ◌*◌ as times}
use megatree.Numbers.Integers.{integers, integers-IsOrdered}
use megatree.Velocity.Trap.{Vec3}
use megatree.Cell.{
  Cell, NodeGeometry, outside, inside, new_cell, child_id, get_num_children, pick_valid, get_child,
}
use megatree.Cell.Laws.{
  pick_valid-octant_zero, get_num_children-ones, new_cell-child_id, get_child-apart, ones,
}
use megatree.Frustum.Planes.{Plane, Clear, is_inside_frustum, distance_to_frustum, inside-Clear}
use megatree.Frustum.Querier.{
  CellCache, MatrixOps, FrustumQuerier, TreeInfo, Request, root_loaded, user, mem, progress,
  finished,
}
use megatree.Frustum.Process.{process_queue, give_results, copies}
use megatree.Frustum.Trigger.{new_frustum_querier, get_frustum, trigger_frustum, answer}
use megatree.Frustum.Pending.{IsAccounted}
use megatree.Frustum.Steps.{
  here, next, ask, adjust, Reach-IsAccounted, give_results-finished, failed-progress,
}
use megatree.Frustum.Cache.{text_eq}
use megatree.Frustum.Ends.{process_queue-returns, trigger_frustum-returns}

instance abbrev whole : Num
whole = integers

abbrev at : ℕ → ℕ → ℕ → Vec3
at a b c = record { x = lit a; y = lit b; z = lit c }

abbrev box : NodeGeometry
box = record { level = 0; lo = at 0 0 0; hi = at 64 64 64 }

-- A cell with the children 0 and 2 and one point, which is no leaf and lies in octant 7.
abbrev cell : Cell
cell = record {
  id = 102 ∷ 49 ∷ [];
  parent_id = 102 ∷ [];
  which_child = some 1;
  children = 5;
  data_bytes = 200 ∷ 200 ∷ 200 ∷ 10 ∷ 10 ∷ 10 ∷ [];
  geometry = box;
  scale = lit 64;
  node_size = lit 1;
  offset = at 0 0 0;
  radius = lit 32;
  override_color = at 0 0 0;
  parent_cell = none;
  inside_frustum = outside;
  show_children = 128;
}

pick_valid_example : pick_valid cell 0 ≡ (
    if bit_and (get_or cell.data_bytes (6 * 0 + 5) 0) 1 == 1
    then true
    else bit_and cell.show_children 1 == 0)
pick_valid_example =
    pick_valid-octant_zero cell 0
      (omega arith, (omega arith, (omega arith, (omega arith, (omega arith, (omega arith, tt))))))

num_children_example : get_num_children cell ≡ ones 8 5
num_children_example = get_num_children-ones cell (omega arith)

new_cell_example :
    (c : Cell) × (new_cell (child_id (102 ∷ []) 3) box (5 ∷ 1 ∷ 2 ∷ []) ≡ returns c)
    × (c.parent_id ≡ 102 ∷ [])
    × (c.which_child ≡ some 3)
    × (c.children ≡ 5)
    × (c.data_bytes ≡ 1 ∷ 2 ∷ [])
new_cell_example = new_cell-child_id (102 ∷ []) 3 box 5 (1 ∷ 2 ∷ []) (omega arith)

get_child_example :
    ((get_child box 1).hi.x ≡ (get_child box 2).lo.x)
    ⊎ ((get_child box 1).lo.x ≡ (get_child box 2).hi.x)
    ⊎ ((get_child box 1).hi.y ≡ (get_child box 2).lo.y)
    ⊎ ((get_child box 1).lo.y ≡ (get_child box 2).hi.y)
    ⊎ ((get_child box 1).hi.z ≡ (get_child box 2).lo.z)
    ⊎ ((get_child box 1).lo.z ≡ (get_child box 2).hi.z)
get_child_example = get_child-apart box 1 2 (omega arith) (omega arith) (omega arith)

-- The half space x > -10.
abbrev planes : List Plane
planes = record { a = lit 1; b = lit 0; c = lit 0; d = lit 10 } ∷ []

inside_example :
    (is_inside_frustum planes (lit 2) (at 1 0 0) ≡ inside ↔ All (Clear (lit 2) (at 1 0 0)) planes)
    × (below (lit 2) (distance_to_frustum planes (lit 2) (at 1 0 0)) ≡ true
        ↔ All (Clear (lit 2) (at 1 0 0)) planes)
inside_example = inside-Clear integers-IsOrdered planes (lit 2) (at 1 0 0) refl refl

-- A cache of one cell, whatever its id.
instance abbrev one_cell : CellCache
one_cell = record { State = Option ℕ; get = λ id s. (s, s); put = λ id at s. some at }

instance abbrev products : MatrixOps
products = record {
  Matrix = Unit;
  entries = λ m i. lit i;
  mul4x4 = λ m v. v;
  length_squared = λ v. times v.x v.x;
}

abbrev tree : TreeInfo
tree = record {
  enabled = true;
  name = 102 ∷ [];
  override_color = false;
  color = at 0 0 0;
  root = 102 ∷ 49 ∷ [];
  geom = box;
}

abbrev start : FrustumQuerier
start = new_frustum_querier (lit 10) (lit 1) false (some tree ∷ none ∷ []) none tt tt

start-IsAccounted : IsAccounted start
unfolding new_frustum_querier
start-IsAccounted = record { counted = omega arith; owned = tt }

asked : (p : FrustumQuerier) × (get_frustum 60 tt (lit 1) start ≡ some p)
unfolding get_frustum new_frustum_querier
asked = trigger_frustum-returns 60 user _ (omega arith)

-- A query, after which the key c is pressed.
reach-IsAccounted_example : IsAccounted (record asked.0 { run_on_cache_only = true })
reach-IsAccounted_example =
    Reach-IsAccounted (lit 10) (lit 1) false (some tree ∷ none ∷ []) none tt tt (
      next (next here (ask 60 tt (lit 1) asked.1))
        (adjust asked.0.desired_cell_count asked.0.min_box_size_meters true))

give_results_example :
    (((give_results start).delivered ≡ finished (copies start.cells start.queue) ∷ start.delivered)
      × (start.pending ≡ []))
    ⊎ (((give_results start).delivered
          ≡ progress (copies start.cells start.queue) ∷ start.delivered)
        × (0 < start.in_flight))
give_results_example = give_results-finished start start-IsAccounted

abbrev request : Request
request = record { serial = 0; cell_id = 102 ∷ 49 ∷ []; geometry = box; on_success = root_loaded 0 }

-- A querier that waits for one root.
abbrev waiting : FrustumQuerier
waiting = record start { pending = request ∷ []; storage_requests = 0 ∷ []; in_flight = 1 }

waiting-IsAccounted : IsAccounted waiting
unfolding mem
waiting-IsAccounted = record { counted = omega arith; owned = (refl, tt) }

failed_example :
    (p : FrustumQuerier) × (answer 60 request none (record waiting { pending = [] }) ≡ some p)
    × (p.pending ≡ [])
    × ((give_results p).delivered
        ≡ progress (copies waiting.cells waiting.queue) ∷ waiting.delivered)
failed_example = failed-progress 60 waiting request waiting-IsAccounted refl

-- A querier that is about to process one cell.
abbrev busy : FrustumQuerier
busy = record start {
  cells = cell ∷ [];
  queue = 0 ∷ [];
  queue_index = 0;
  is_processing_queue = true;
}

process_queue_example : (p : FrustumQuerier) × (process_queue 60 busy ≡ some p)
process_queue_example = process_queue-returns 60 busy refl (omega arith) (omega arith)

trigger_example : (p : FrustumQuerier) × (trigger_frustum 60 user busy ≡ some p)
unfolding new_frustum_querier
trigger_example = trigger_frustum-returns 60 user busy (omega arith)
