-- ===== src/Frustum/Process.antt =====
-- The operations of the frustum querier on its queue: processCell and processQueue of
-- megatree_web/js/frustum_querier.js. A success callback may run processQueue inside processCell, so
-- processQueue recurs on fuel; `none` is a run that needs more.
use megatree.Base.{
  ℕ, zero, suc, Bool, true, false, not, ◌||◌, ◌&&◌, Option, none, some, List, [], ◌∷◌, ◌++◌, ltb,
  if◌then◌else◌, length, get_elem?, get_or, set, when_some, ◌>>=?◌,
}
use megatree.Numbers.{Num, ◌+◌, ◌*◌, ◌/◌, ◌<◌, ◌<=◌, lit, dec}
use megatree.Cell.{
  Cell, Inside, outside, part, inside, clear_bit, is_leaf, has_child, get_child, get_center,
  get_cell_center, child_id, shallow_copy,
}
use megatree.Frustum.Planes.{is_inside_frustum}
use megatree.Frustum.Querier.{
  CellCache, MatrixOps, FrustumQuerier, more_cells, fewer_cells, process_later, trigger_later,
  progress, finished, child_loaded, cancel, change, modify, get_cell,
}

abbrev is_completely_inside : Inside → Bool
is_completely_inside outside = false
is_completely_inside part = false
is_completely_inside inside = true

abbrev is_completely_outside : Inside → Bool
is_completely_outside outside = true
is_completely_outside part = false
is_completely_outside inside = false

-- `1 << which_child`, where NaN counts as 0.
abbrev child_bit : Option ℕ → ℕ
child_bit none = 0
child_bit (some n) = n

module _ ⦃num : Num⦄ ⦃cache : CellCache⦄ ⦃mjs : MatrixOps⦄ where
  -- `cell.show_children &= ~(1 << child)`.
  unfoldable pub hide_child : (at child : ℕ) → FrustumQuerier → FrustumQuerier
  hide_child at child q =
      change at (λ c. record c { show_children = clear_bit c.show_children child }) q

  -- `child_in_frustum`.
  unfoldable pub child_place : Cell → (child : ℕ) → FrustumQuerier → Inside
  child_place cell child q =
      if is_completely_inside cell.inside_frustum
      then cell.inside_frustum
      else is_inside_frustum q.frustum_planes (cell.radius / dec 20 1)
          (mjs.mul4x4 q.camera_matrix (get_center (get_child cell.geometry child)))

  unfoldable pub is_wanted : Cell → Inside → Bool
  is_wanted cell place =
      is_completely_inside cell.inside_frustum || not (is_completely_outside place)

  -- One round of the loop over the children of a cell.
  unfoldable pub load_child :
      (FrustumQuerier → Option FrustumQuerier)
      → (at variable child : ℕ) → FrustumQuerier
      → Option FrustumQuerier
  load_child process at v child q = when_some (get_elem? q.cells at) (some q) (λ cell.
      let place = child_place cell child q in
      let p = record q { child_vars = set q.child_vars v place } in
      if has_child cell child
      then (if is_wanted cell place
          then get_cell process (child_id cell.id child) (get_child cell.geometry child)
              (child_loaded at v) (record p { in_flight = suc p.in_flight })
          else some (hide_child at child p))
      else some (hide_child at child q))

  unfoldable pub load_children :
      (FrustumQuerier → Option FrustumQuerier)
      → (at variable : ℕ) → List ℕ
      → FrustumQuerier
      → Option FrustumQuerier
  load_children process at v [] q = some q
  load_children process at v (child ∷ more) q =
      load_child process at v child q >>=? λ p. load_children process at v more p

  -- The start of processCell for a cell that is taken: it is counted, all its children are shown and
  -- its parent no longer shows it.
  unfoldable pub show_cell : ℕ → Cell → FrustumQuerier → FrustumQuerier
  show_cell at cell q =
      let p =
        change at (λ c. record c { show_children = c.children })
          (record q { cell_count = q.cell_count + lit 1 }) in
      record p {
        cells = when_some cell.parent_cell p.cells (λ parent. modify p.cells parent (λ c. record c {
          show_children = clear_bit c.show_children (child_bit cell.which_child);
        }));
      }

  -- Too many cells: the query is stopped and will be started again.
  unfoldable pub too_many : FrustumQuerier → FrustumQuerier
  too_many q =
      let p = cancel (record q {
        interrupt_frustum_query = true;
        cell_count = q.cell_count + lit q.in_flight;
      }) in
      record p { timers = p.timers ++ trigger_later fewer_cells ∷ [] }

  -- A leaf, or a cell that is small enough.
  unfoldable pub is_done : Cell → FrustumQuerier → Bool
  is_done cell q =
      let dist_sq = mjs.length_squared (mjs.mul4x4 q.camera_matrix (get_cell_center cell)) in
      is_leaf cell || cell.node_size * cell.node_size <= q.corrected_g_m_sq * dist_sq

  unfoldable pub process_cell :
      (FrustumQuerier → Option FrustumQuerier) → ℕ → FrustumQuerier → Option FrustumQuerier
  process_cell process at q =
      if q.desired_cell_count * dec 15 1 < q.cell_count + lit q.in_flight
      then some (too_many q)
      else when_some (get_elem? q.cells at) (some q) (λ cell.
        let p = show_cell at cell q in
        if is_done cell p
        then some p
        else load_children process at (length p.child_vars) (0 ∷ 1 ∷ 2 ∷ 3 ∷ 4 ∷ 5 ∷ 6 ∷ 7 ∷ [])
            (record p { child_vars = p.child_vars ++ outside ∷ [] }))

  abbrev pub copies : List Cell → List ℕ → List Cell
  copies cells [] = []
  copies cells (at ∷ more) =
      let rest = copies cells more in
      when_some (get_elem? cells at) rest (λ c. shallow_copy c ∷ rest)

  -- The end of processQueue.
  unfoldable pub give_results : FrustumQuerier → FrustumQuerier
  give_results q =
      let p = record q { is_processing_queue = false } in
      let result = copies p.cells p.queue in
      if ltb 0 p.in_flight
      then record p { delivered = progress result ∷ p.delivered }
      else record p {
        timers =
            if p.cell_count < p.desired_cell_count / dec 15 1
              && p.min_box_size_meters < p.corrected_g_m / p.resolution_step
            then p.timers ++ trigger_later more_cells ∷ []
            else p.timers;
        completed_full_frustum_query = true;
        delivered = finished result ∷ p.delivered;
      }

  unfoldable pub restart_calls : FrustumQuerier → FrustumQuerier
  restart_calls q = record q { process_calls_in_a_row = 0 }

  unfoldable pub next_index : FrustumQuerier → FrustumQuerier
  next_index q = record q { queue_index = suc q.queue_index }

  unfoldable pub pause : FrustumQuerier → FrustumQuerier
  pause q = record q { timers = q.timers ++ process_later ∷ [] }

  -- The end of a round of the loop: `next` is the rounds that are left.
  abbrev pub go_on :
      (FrustumQuerier → Option FrustumQuerier) → FrustumQuerier → Option FrustumQuerier
  go_on next p =
      if ltb 50 p.process_calls_in_a_row then some (pause (next_index p)) else next (next_index p)

  -- The loop of processQueue and what follows it.
  unfoldable pub queue_loop : ℕ → FrustumQuerier → Option FrustumQuerier
  queue_loop zero q = none
  queue_loop (suc fuel) q =
      if ltb q.queue_index (length q.queue) && not q.interrupt_frustum_query
      then (process_cell (λ p. queue_loop fuel (restart_calls p)) (get_or q.queue q.queue_index 0) q
          >>=? λ p. go_on (queue_loop fuel) p)
      else some (give_results q)

  unfoldable pub process_queue : ℕ → FrustumQuerier → Option FrustumQuerier
  process_queue fuel q = queue_loop fuel (restart_calls q)
