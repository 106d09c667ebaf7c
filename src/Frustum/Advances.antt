-- ===== src/Frustum/Advances.antt =====
-- A cell that is processed leaves the index of the queue and counts each cell that it adds.
use megatree.Base.{
  ℕ, suc, ◌+◌, ◌≤◌, ◌≡◌, refl, ◌∙◌, Bool, true, Option, List, [], ◌∷◌, arith, length, length-append,
  get_elem?, Yields, Yields->>=?, Yields-when_some, Yields-map, if-elim,
}
use megatree.Numbers.{Num, ◌<◌ as below, ◌*◌, ◌+◌ as plus, dec, lit}
use megatree.Cell.{NodeGeometry, Text, has_child}
use megatree.Frustum.Querier.{
  CellCache, MatrixOps, FrustumQuerier, child_loaded, cancel, change, enqueue, resume_or_count,
  call_back, send, get_cell,
}
use megatree.Frustum.Process.{
  is_wanted, child_place, is_done, load_child, load_children, show_cell, too_many, process_cell,
  hide_child,
}

module _ ⦃num : Num⦄ ⦃cache : CellCache⦄ ⦃mjs : MatrixOps⦄ where
  -- The queue grew by the calls that were counted, and the place in it is the same.
  pub record Grown (index size calls : ℕ) (on : Bool) (index' size' calls' : ℕ) : Type 0 where
    pub processing : on ≡ true
    pub same_index : index' ≡ index
    pub grown : size' + calls ≡ size + calls'
    pub more_calls : calls ≤ calls'

  abbrev pub Advanced : FrustumQuerier → FrustumQuerier → Type 0
  Advanced q p =
      Grown q.queue_index (length q.queue) q.process_calls_in_a_row p.is_processing_queue
        p.queue_index (length p.queue) p.process_calls_in_a_row

  stays : (q : FrustumQuerier) → q.is_processing_queue ≡ true → Advanced q q
  stays q on = record { processing = on; same_index = refl; grown = refl; more_calls = omega arith }

  compose : (q p r : FrustumQuerier) → Advanced q p → Advanced p r → Advanced q r
  compose q p r a b = record {
    processing = b.processing;
    same_index = b.same_index ∙ a.same_index;
    grown = omega (arith, a.grown, b.grown);
    more_calls = omega (arith, a.more_calls, b.more_calls);
  }

  module _ (process : FrustumQuerier → Option FrustumQuerier) where
    pushed :
        (at : ℕ) (q : FrustumQuerier)
        → q.is_processing_queue ≡ true
        → Advanced q
            (record (enqueue at q) { process_calls_in_a_row = suc q.process_calls_in_a_row })
    unfolding enqueue
    pushed at q on = record {
      processing = on;
      same_index = refl;
      grown = omega (arith, length-append q.queue (at ∷ []));
      more_calls = omega arith;
    }

    child_call-Advanced :
        (parent v at : ℕ) (q : FrustumQuerier)
        → q.is_processing_queue ≡ true
        → Yields (Advanced q) (call_back process (child_loaded parent v) at q)
    unfolding call_back change resume_or_count enqueue
    child_call-Advanced parent v at q on =
        let same = stays q on in
        Yields-when_some (Advanced q) (get_elem? q.cells parent) _ _ same (λ above _.
          Yields-when_some (Advanced q) (get_elem? q.child_vars v) _ _ same (λ place _.
            if-elim (Yields (Advanced q)) q.is_processing_queue _ _ (λ _. pushed at q on)
              (λ off. cc)))

    get_child-Advanced :
        (id : Text) (g : NodeGeometry) (parent v : ℕ) (q : FrustumQuerier)
        → q.is_processing_queue ≡ true
        → Yields (Advanced q) (get_cell process id g (child_loaded parent v) q)
    unfolding get_cell send
    get_child-Advanced id g parent v q on =
        let still = stays q on in
        Yields-when_some (Advanced q) (cache.get id q.cell_cache).0 _ _
          (if-elim (Yields (Advanced q)) q.run_on_cache_only _ _ (λ _. still) (λ _. still))
          (λ at _. child_call-Advanced parent v at (record q { cell_cache = _ }) on)

    load_child-Advanced :
        (at v child : ℕ) (q : FrustumQuerier)
        → q.is_processing_queue ≡ true
        → Yields (Advanced q) (load_child process at v child q)
    unfolding load_child hide_child change
    load_child-Advanced at v child q on =
        let still = stays q on in
        Yields-when_some (Advanced q) (get_elem? q.cells at) _ _ (stays q on) (λ cell _.
          if-elim (Yields (Advanced q)) (has_child cell child) _ _
            (λ _.
              if-elim (Yields (Advanced q)) (is_wanted cell (child_place cell child q)) _ _
                (λ _. get_child-Advanced _ _ at v _ on) (λ _. still))
            (λ _. still))

    load_children-Advanced :
        (at v : ℕ) (children : List ℕ) (q : FrustumQuerier)
        → q.is_processing_queue ≡ true
        → Yields (Advanced q) (load_children process at v children q)
    unfolding load_children
    load_children-Advanced at v [] q on = stays q on
    load_children-Advanced at v (child ∷ more) q on =
        Yields->>=? (Advanced q) (Advanced q) (load_child process at v child q) _
          (load_child-Advanced at v child q on)
          (λ p a.
            Yields-map (Advanced q) (Advanced p) _ (load_children-Advanced at v more p a.processing)
              (λ r. compose q p r a))

    pub process_cell-Advanced :
        (at : ℕ) (q : FrustumQuerier)
        → q.is_processing_queue ≡ true
        → Yields (Advanced q) (process_cell process at q)
    unfolding process_cell too_many show_cell change cancel
    process_cell-Advanced at q on =
        let still = stays q on in
        if-elim (Yields (Advanced q))
          (below (q.desired_cell_count * dec 15 1) (plus q.cell_count (lit q.in_flight))) _ _
          (λ _. still)
          (λ _. Yields-when_some (Advanced q) (get_elem? q.cells at) _ _ still (λ cell _.
            if-elim (Yields (Advanced q)) (is_done cell (show_cell at cell q)) _ _ (λ _. still)
              (λ _. load_children-Advanced at _ _ _ on)))
