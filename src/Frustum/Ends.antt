-- ===== src/Frustum/Ends.antt =====
-- The loop of processQueue ends (megatree_web/js/frustum_querier.js).
use megatree.Base.{
  ℕ, zero, suc, ◌+◌, ◌≤◌, ◌<◌, ◌≡◌, refl, ap, true, not, ◌&&◌, Option, none, some, List, [], ◌∷◌,
  arith, ltb, length, length-append, get_elem?, get_or, Yields, Yields->>=?, Yields-when_some,
  Yields-some, if-elim,
}
use megatree.Numbers.{Num}
use megatree.Frustum.Querier.{
  CellCache, MatrixOps, FrustumQuerier, TriggerId, user, same_trigger, root_loaded, TreeInfo,
  cancel, change, enqueue, resume, call_back, send, get_cell,
}
use megatree.Frustum.Process.{
  process_cell, queue_loop, process_queue, pause, next_index, restart_calls,
}
use megatree.Frustum.Trigger.{
  adapt_resolution, reset, request_roots, start_processing, trigger_frustum,
}
use megatree.Frustum.Advances.{Advanced, process_cell-Advanced}

module _ ⦃num : Num⦄ ⦃cache : CellCache⦄ ⦃mjs : MatrixOps⦄ where
  queue_loop-returns :
      (fuel : ℕ) (q : FrustumQuerier)
      → q.is_processing_queue ≡ true
      → q.queue_index ≤ length q.queue
      → q.process_calls_in_a_row ≤ 50
      → length q.queue + 51 < fuel + q.queue_index + q.process_calls_in_a_row
      → Yields (λ _. Unit) (queue_loop fuel q)
  unfolding queue_loop next_index pause
  queue_loop-returns zero q on index calls enough = absurd (omega arith)
  queue_loop-returns (suc fuel) q on index calls enough =
      if-elim (Yields (λ _. Unit))
        (ltb q.queue_index (length q.queue) && not q.interrupt_frustum_query) _ _
        (λ more.
          let in_queue : q.queue_index < length q.queue = ground arith in
          Yields->>=? (λ _. Unit) (Advanced q) (process_cell _ (get_or q.queue q.queue_index 0) q) _
            (process_cell-Advanced _ (get_or q.queue q.queue_index 0) q on)
            (λ p a.
              if-elim (Yields (λ _. Unit)) (ltb 50 p.process_calls_in_a_row) _ _ (λ _. tt)
                (λ few.
                  queue_loop-returns fuel (next_index p) a.processing
                    (omega (arith, a.grown, a.same_index, a.more_calls, in_queue)) (ground arith)
                    (omega (arith, a.grown, a.same_index, enough)))))
        (λ _. tt)

  -- While the queue is being processed and its index is not beyond it, the loop of processQueue
  -- ends, with fuel for the cells that are left and 52 more.
  pub process_queue-returns :
      (fuel : ℕ) (q : FrustumQuerier)
      → q.is_processing_queue ≡ true
      → q.queue_index ≤ length q.queue
      → length q.queue + 51 < fuel + q.queue_index
      → (p : FrustumQuerier) × (process_queue fuel q ≡ some p)
  unfolding process_queue restart_calls
  process_queue-returns fuel q on index enough =
      let (p, e, _) =
        Yields-some (λ _. Unit) _
          (queue_loop-returns fuel (restart_calls q) on index (omega arith)
            (omega (arith, enough))) in
      (p, e)

  -- The queue has at most `n` cells, and none of them is done.
  abbrev Fresh : ℕ → FrustumQuerier → Type 0
  Fresh n q = (q.is_processing_queue ≡ true) × (q.queue_index ≡ 0) × (length q.queue ≤ n)

  root_call-Fresh :
      (process : FrustumQuerier → Option FrustumQuerier) (v at n : ℕ) (q : FrustumQuerier)
      → Fresh n q
      → Yields (Fresh (suc n)) (call_back process (root_loaded v) at q)
  unfolding call_back change resume enqueue
  root_call-Fresh process v at n q h =
      let same : Fresh (suc n) q = (h.0, h.1, omega (arith, h.2)) in
      Yields-when_some (Fresh (suc n)) (get_elem? q.tree_vars v) _ _ same (λ var _.
        Yields-when_some (Fresh (suc n)) var _ _ same (λ t _.
          if-elim (Yields (Fresh (suc n))) q.is_processing_queue _ _
            (λ _. (h.0, h.1, omega (arith, h.2, length-append q.queue (at ∷ [])))) (λ off. cc)))

  get_root-Fresh :
      (process : FrustumQuerier → Option FrustumQuerier) (v n : ℕ) (t : TreeInfo)
      (q : FrustumQuerier)
      → Fresh n q
      → Yields (Fresh (suc n)) (get_cell process t.root t.geom (root_loaded v) q)
  unfolding get_cell send
  get_root-Fresh process v n t q h =
      let same : Fresh (suc n) q = (h.0, h.1, omega (arith, h.2)) in
      Yields-when_some (Fresh (suc n)) (cache.get t.root q.cell_cache).0 _ _
        (if-elim (Yields (Fresh (suc n))) q.run_on_cache_only _ _ (λ _. same) (λ _. same))
        (λ at _. root_call-Fresh process v at n (record q { cell_cache = _ }) h)

  request_roots-Fresh :
      (process : FrustumQuerier → Option FrustumQuerier) (v n k : ℕ)
      (trees : List (Option TreeInfo)) (q : FrustumQuerier)
      → n + length trees ≤ k
      → Fresh n q
      → Yields (Fresh k) (request_roots process v trees q)
  unfolding request_roots
  request_roots-Fresh process v n k [] q le h = (h.0, h.1, omega (arith, h.2))
  request_roots-Fresh process v n k (none ∷ more) q le h =
      request_roots-Fresh process v n k more _ (omega arith) h
  request_roots-Fresh process v n k (some t ∷ more) q le h =
      Yields->>=? (Fresh k) (Fresh (suc n)) _ _
        (if-elim (Yields (Fresh (suc n))) t.enabled _ _ (λ _. get_root-Fresh process v n t _ h)
          (λ _. (h.0, h.1, omega (arith, h.2))))
        (λ p. request_roots-Fresh process v (suc n) k more p (omega arith))

  adapt_resolution-trees : (q : FrustumQuerier) → (adapt_resolution q).trees_info ≡ q.trees_info
  unfolding adapt_resolution cancel
  adapt_resolution-trees q =
      if-elim (λ (p : FrustumQuerier). p.trees_info ≡ q.trees_info) (ltb 0 q.in_flight) _ _
        (λ _. refl) (λ _. refl)

  start_processing-returns :
      (fuel n : ℕ) (q : FrustumQuerier)
      → n + 51 < fuel
      → Fresh n q
      → Yields (λ _. Unit) (start_processing fuel q)
  unfolding start_processing process_queue restart_calls
  start_processing-returns fuel n q enough h =
      if-elim (Yields (λ _. Unit)) (ltb 0 (length q.queue)) _ _
        (λ _.
          queue_loop-returns fuel _ h.0 (omega (arith, h.1)) (omega arith)
            (omega (arith, h.1, h.2)))
        (λ _. tt)

  -- triggerFrustum returns in every state and for every id, with fuel for the trees and 52 more.
  pub trigger_frustum-returns :
      (fuel : ℕ) (id : TriggerId) (q : FrustumQuerier)
      → length q.trees_info + 51 < fuel
      → (p : FrustumQuerier) × (trigger_frustum fuel id q ≡ some p)
  unfolding trigger_frustum reset
  trigger_frustum-returns fuel id q enough =
      let n = length q.trees_info in
      let q' = record q { last_frustum_trigger_id = id } in
      let same = adapt_resolution-trees q' in
      let (p, e, _) =
        Yields-some (λ _. Unit) _
          (if-elim (Yields (λ _. Unit))
            (not (same_trigger q.last_frustum_trigger_id user)
              && not (same_trigger id q.last_frustum_trigger_id))
            (some q) _ (λ _. tt)
            (λ _.
              Yields->>=? (λ _. Unit) (Fresh n) _ _
                (request_roots-Fresh (process_queue fuel) _ 0 n _ _ (omega (arith, ap length same))
                  (refl, refl, omega arith))
                (λ p. start_processing-returns fuel n p enough))) in
      (p, e)
