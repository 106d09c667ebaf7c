-- ===== src/Frustum/Trigger.antt =====
-- Queries from their start to the answers: triggerFrustum, getFrustum and the constructor of
-- FrustumQuerier, megatree_web/js/frustum_querier.js, and the answer of the server to a request of
-- getCell, megatree_web/js/megatree.js.
use megatree.Base.{
  ℕ, suc, Bool, true, false, not, ◌&&◌, Option, none, some, List, [], ◌∷◌, ◌++◌, ltb, if◌then◌else◌,
  length, set, ◌>>=?◌,
}
use megatree.Outcome.{Outcome, returns, throws}
use megatree.Numbers.{Num, Number, ◌*◌, ◌/◌, ◌<◌, lit, dec}
use megatree.Cell.{Cell, new_cell}
use megatree.Frustum.Planes.{extract_frustum_planes}
use megatree.Frustum.Querier.{
  CellCache, MatrixOps, FrustumQuerier, TriggerId, user, same_trigger, Timer, process_later,
  trigger_later, TreeInfo, Request, root_loaded, cancel, call_back, get_cell,
}
use megatree.Frustum.Process.{process_queue}

module _ ⦃num : Num⦄ ⦃cache : CellCache⦄ ⦃mjs : MatrixOps⦄ where
  -- "cancel all pending requests" and "adapt resolution".
  unfoldable pub adapt_resolution : FrustumQuerier → FrustumQuerier
  adapt_resolution q =
      let p = if ltb 0 q.in_flight then cancel q else q in
      let desired = q.desired_cell_count in
      let step = p.resolution_step in
      let finer = p.resolution_correction / step in
      let correction =
        if desired * step * dec 11 1 < p.cell_count
        then p.resolution_correction * step
        else (if p.cell_count < desired / step / dec 11 1 && p.completed_full_frustum_query
            then (if p.g_m * finer < p.min_box_size_meters then finer * step else finer)
            else p.resolution_correction) in
      record p {
        resolution_correction = correction;
        corrected_g_m = p.g_m * correction;
        corrected_g_m_sq = p.g_m * correction * (p.g_m * correction);
      }

  -- "set state for this frustum query".
  unfoldable pub reset : FrustumQuerier → FrustumQuerier
  reset q = record q {
    completed_full_frustum_query = false;
    cell_count = dec 0 1;
    queue = [];
    queue_index = 0;
    storage_requests = [];
    is_processing_queue = true;
    interrupt_frustum_query = false;
  }

  -- The loop that requests the roots; `v` is the place of `tree_info`.
  unfoldable pub request_roots :
      (FrustumQuerier → Option FrustumQuerier)
      → (variable : ℕ) → List (Option TreeInfo)
      → FrustumQuerier
      → Option FrustumQuerier
  request_roots process v [] q = some q
  request_roots process v (none ∷ more) q =
      request_roots process v more (record q { tree_vars = set q.tree_vars v none })
  request_roots process v (some t ∷ more) q =
      let p = record q { tree_vars = set q.tree_vars v (some t) } in
      (if t.enabled
        then get_cell process t.root t.geom (root_loaded v)
            (record p { in_flight = suc p.in_flight })
        else some p)
      >>=? λ r. request_roots process v more r

  -- "start processing root cells".
  unfoldable pub start_processing : ℕ → FrustumQuerier → Option FrustumQuerier
  start_processing fuel q =
      if ltb 0 (length q.queue)
      then process_queue fuel q
      else some (record q { is_processing_queue = false })

  unfoldable pub trigger_frustum : ℕ → TriggerId → FrustumQuerier → Option FrustumQuerier
  trigger_frustum fuel id q =
      if not (same_trigger q.last_frustum_trigger_id user)
        && not (same_trigger id q.last_frustum_trigger_id)
      then some q
      else let r = reset (adapt_resolution (record q { last_frustum_trigger_id = id })) in
        request_roots (process_queue fuel) (length r.tree_vars) r.trees_info
          (record r { tree_vars = r.tree_vars ++ none ∷ [] })
        >>=? λ p. start_processing fuel p

  unfoldable pub get_frustum : ℕ → mjs.Matrix → Number → FrustumQuerier → Option FrustumQuerier
  get_frustum fuel camera_matrix g_m q =
      trigger_frustum fuel user
        (record q { camera_matrix = camera_matrix; g_m = g_m; last_frustum_trigger_id = user })

  -- The rest of `onload`: the constructor of the cell may throw.
  unfoldable pub arrive : ℕ → Request → Outcome Cell → FrustumQuerier → Option FrustumQuerier
  arrive fuel r throws q = some q
  arrive fuel r (returns c) q =
      call_back (process_queue fuel) r.on_success (length q.cells) (record q {
        cells = q.cells ++ c ∷ [];
        cell_cache = cache.put r.cell_id (length q.cells) q.cell_cache;
      })

  -- The answer to a request that is no longer pending: the bytes of status 200, or a failure, which
  -- only writes to the console.
  unfoldable pub answer : ℕ → Request → Option (List ℕ) → FrustumQuerier → Option FrustumQuerier
  answer fuel r none q = some q
  answer fuel r (some bytes) q = arrive fuel r (new_cell r.cell_id r.geometry bytes) q

  unfoldable pub fire : ℕ → Timer → FrustumQuerier → Option FrustumQuerier
  fire fuel process_later q = process_queue fuel q
  fire fuel (trigger_later id) q = trigger_frustum fuel id q

  -- The constructor; `camera_matrix` and `g_m` are unset before the first getFrustum.
  unfoldable pub new_frustum_querier :
      (desired_cell_count min_box_size_meters : Number) (run_on_cache_only : Bool)
      → List (Option TreeInfo)
      → cache.State
      → (projection camera : mjs.Matrix) → FrustumQuerier
  new_frustum_querier desired least cache_only trees state projection camera = record {
    desired_cell_count = desired;
    min_box_size_meters = least;
    run_on_cache_only = cache_only;
    trees_info = trees;
    cells = [];
    cell_cache = state;
    tree_vars = [];
    child_vars = [];
    next_serial = 0;
    pending = [];
    timers = [];
    delivered = [];
    frustum_planes = extract_frustum_planes (mjs.entries projection);
    camera_matrix = camera;
    g_m = lit 0;
    corrected_g_m = lit 0;
    corrected_g_m_sq = lit 0;
    in_flight = 0;
    resolution_correction = lit 1;
    resolution_step = dec 12 1;
    cell_count = desired;
    completed_full_frustum_query = false;
    last_frustum_trigger_id = user;
    queue = [];
    queue_index = 0;
    storage_requests = [];
    is_processing_queue = false;
    interrupt_frustum_query = false;
    process_calls_in_a_row = 0;
  }
