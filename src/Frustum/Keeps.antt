-- ===== src/Frustum/Keeps.antt =====
-- Every operation of the frustum querier keeps its requests accounted for (megatree_web/js/frustum_querier.js).
use megatree.Base.{
  ℕ, zero, suc, ◌≤◌, ◌≡◌, refl, true, not, ◌&&◌, Option, none, some, List, [], ◌∷◌, arith, ltb,
  length, get_elem?, get_or, Ensures, Ensures->>=?, Ensures-when_some, Ensures-if, if-elim,
}
use megatree.Outcome.{Outcome, returns, throws}
use megatree.Numbers.{Num, ◌<◌ as below, ◌*◌, ◌+◌ as plus, dec, lit}
use megatree.Cell.{Cell, new_cell, has_child}
use megatree.Frustum.Querier.{
  CellCache, MatrixOps, FrustumQuerier, TriggerId, user, same_trigger, Timer, process_later,
  trigger_later, Request, TreeInfo, cancel, change, root_loaded,
}
use megatree.Frustum.Process.{
  is_wanted, child_place, is_done, load_child, load_children, show_cell, too_many, process_cell,
  give_results, queue_loop, process_queue, pause, next_index, restart_calls, hide_child,
}
use megatree.Frustum.Trigger.{
  adapt_resolution, reset, request_roots, start_processing, trigger_frustum, arrive, answer, fire,
}
use megatree.Frustum.Pending.{
  Accounted, IsAccounted, IsShort, Keeps, cancel-pending, cancel-IsAccounted, call_back-Keeps,
  get_cell-Keeps,
}

module _ ⦃num : Num⦄ ⦃cache : CellCache⦄ ⦃mjs : MatrixOps⦄ where
  counts : (q : FrustumQuerier) → IsAccounted q → IsShort (record q { in_flight = suc q.in_flight })
  counts q h = (omega (arith, h.counted), h.owned)

  load_child-Keeps :
      (process : FrustumQuerier → Option FrustumQuerier)
      → Keeps process
      → (at v child : ℕ) → Keeps (load_child process at v child)
  unfolding load_child hide_child change
  load_child-Keeps process keeps at v child q h =
      Ensures-when_some IsAccounted (get_elem? q.cells at) _ _ h (λ cell _.
        Ensures-if IsAccounted (has_child cell child) _ _
          (λ _.
            Ensures-if IsAccounted (is_wanted cell (child_place cell child q)) _ _
              (λ _. get_cell-Keeps process keeps _ _ _ _ (counts q h)) (λ _. h))
          (λ _. h))

  load_children-Keeps :
      (process : FrustumQuerier → Option FrustumQuerier)
      → Keeps process
      → (at v : ℕ) (children : List ℕ) → Keeps (load_children process at v children)
  unfolding load_children
  load_children-Keeps process keeps at v [] q h = h
  load_children-Keeps process keeps at v (child ∷ more) q h =
      Ensures->>=? IsAccounted IsAccounted (load_child process at v child q) _
        (load_child-Keeps process keeps at v child q h)
        (load_children-Keeps process keeps at v more)

  process_cell-Keeps :
      (process : FrustumQuerier → Option FrustumQuerier)
      → Keeps process
      → (at : ℕ) → Keeps (process_cell process at)
  unfolding process_cell too_many show_cell change
  process_cell-Keeps process keeps at q h =
      Ensures-if IsAccounted
        (below (q.desired_cell_count * dec 15 1) (plus q.cell_count (lit q.in_flight))) _ _
        (λ _.
          cancel-IsAccounted
            (record q {
              interrupt_frustum_query = true;
              cell_count = plus q.cell_count (lit q.in_flight);
            })
            h)
        (λ _. Ensures-when_some IsAccounted (get_elem? q.cells at) _ _ h (λ cell _.
          Ensures-if IsAccounted (is_done cell (show_cell at cell q)) _ _ (λ _. h)
            (λ _. load_children-Keeps process keeps at _ _ _ h)))

  give_results-IsAccounted : (q : FrustumQuerier) → IsAccounted q → IsAccounted (give_results q)
  unfolding give_results
  give_results-IsAccounted q h = if-elim IsAccounted (ltb 0 q.in_flight) _ _ (λ _. h) (λ _. h)

  queue_loop-Keeps : (fuel : ℕ) → Keeps (queue_loop fuel)
  unfolding queue_loop pause next_index restart_calls
  queue_loop-Keeps zero q h = tt
  queue_loop-Keeps (suc fuel) q h =
      let again = queue_loop-Keeps fuel in
      Ensures-if IsAccounted (ltb q.queue_index (length q.queue) && not q.interrupt_frustum_query) _
        _
        (λ _.
          Ensures->>=? IsAccounted IsAccounted (process_cell _ (get_or q.queue q.queue_index 0) q) _
            (process_cell-Keeps _ (λ p k. again (restart_calls p) k)
              (get_or q.queue q.queue_index 0) q h)
            (λ p k.
              Ensures-if IsAccounted (ltb 50 p.process_calls_in_a_row) _ _ (λ _. k)
                (λ _. again _ k)))
        (λ _. give_results-IsAccounted q h)

  process_queue-Keeps : (fuel : ℕ) → Keeps (process_queue fuel)
  unfolding process_queue restart_calls
  process_queue-Keeps fuel q h = queue_loop-Keeps fuel _ h

  pub no_length : (ps : List Request) → length ps ≤ 0 → ps ≡ []
  no_length [] h = refl
  no_length (p ∷ ps) h = absurd (omega arith)

  -- After "cancel all pending requests" none is pending, nor counted.
  reset-IsAccounted :
      (q : FrustumQuerier) → IsAccounted q → IsAccounted (reset (adapt_resolution q))
  unfolding reset adapt_resolution
  reset-IsAccounted q h =
      let none_pending = cancel-pending q h in
      if-elim (λ (p : FrustumQuerier). Accounted p.pending [] p.in_flight) (ltb 0 q.in_flight)
        (cancel q) q (λ _. rw none_pending (record { counted = omega arith; owned = tt }))
        (λ e.
          let is_zero : q.in_flight ≡ 0 = ground arith in
          let is_empty : q.pending ≡ [] = no_length q.pending (omega (arith, h.counted)) in
          rw is_empty (record { counted = omega arith; owned = tt }))

  request_roots-Keeps :
      (process : FrustumQuerier → Option FrustumQuerier)
      → Keeps process
      → (v : ℕ) (trees : List (Option TreeInfo)) → Keeps (request_roots process v trees)
  unfolding request_roots
  request_roots-Keeps process keeps v [] q h = h
  request_roots-Keeps process keeps v (none ∷ more) q h =
      request_roots-Keeps process keeps v more _ h
  request_roots-Keeps process keeps v (some t ∷ more) q h =
      Ensures->>=? IsAccounted IsAccounted _ _
        (Ensures-if IsAccounted t.enabled _ _
          (λ _. get_cell-Keeps process keeps t.root t.geom (root_loaded v) _ (counts q h)) (λ _. h))
        (request_roots-Keeps process keeps v more)

  start_processing-Keeps : (fuel : ℕ) → Keeps (start_processing fuel)
  unfolding start_processing
  start_processing-Keeps fuel q h =
      Ensures-if IsAccounted (ltb 0 (length q.queue)) _ _ (λ _. process_queue-Keeps fuel q h)
        (λ _. h)

  pub trigger_frustum-Keeps : (fuel : ℕ) (id : TriggerId) → Keeps (trigger_frustum fuel id)
  unfolding trigger_frustum
  trigger_frustum-Keeps fuel id q h =
      Ensures-if IsAccounted
        (not (same_trigger q.last_frustum_trigger_id user)
          && not (same_trigger id q.last_frustum_trigger_id))
        _ _ (λ _. h)
        (λ _.
          Ensures->>=? IsAccounted IsAccounted _ _
            (request_roots-Keeps (process_queue fuel) (process_queue-Keeps fuel) _ _ _
              (reset-IsAccounted (record q { last_frustum_trigger_id = id }) h))
            (start_processing-Keeps fuel))

  arrive-Keeps :
      (fuel : ℕ) (r : Request) (made : Outcome Cell) (q : FrustumQuerier)
      → IsShort q
      → Ensures IsAccounted (arrive fuel r made q)
  unfolding arrive
  arrive-Keeps fuel r throws q h = record { counted = omega (arith, h.0); owned = h.1 }
  arrive-Keeps fuel r (returns c) q h =
      call_back-Keeps (process_queue fuel) (process_queue-Keeps fuel) r.on_success _ _ h

  -- The answer to a request that was pending until now.
  pub answer-Keeps :
      (fuel : ℕ) (r : Request) (bytes : Option (List ℕ)) (q : FrustumQuerier)
      → IsShort q
      → Ensures IsAccounted (answer fuel r bytes q)
  unfolding answer
  answer-Keeps fuel r none q h = record { counted = omega (arith, h.0); owned = h.1 }
  answer-Keeps fuel r (some bytes) q h =
      arrive-Keeps fuel r (new_cell r.cell_id r.geometry bytes) q h

  pub fire-Keeps : (fuel : ℕ) (t : Timer) → Keeps (fire fuel t)
  unfolding fire
  fire-Keeps fuel process_later q h = process_queue-Keeps fuel q h
  fire-Keeps fuel (trigger_later id) q h = trigger_frustum-Keeps fuel id q h
