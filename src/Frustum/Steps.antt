-- ===== src/Frustum/Steps.antt =====
-- The runs of the frustum querier (megatree_web/js/frustum_querier.js) as steps: calls of the user,
-- answers of the server and timers, in any order.
use megatree.Base.{
  ℕ, ◌≤◌, ◌<◌, ◌≡◌, refl, subst, ◌⊎◌, true, Bool, Option, none, some, List, [], ◌∷◌, ◌++◌, arith,
  inl, inr, ltb, length, length-append, Ensures-some, if-elim,
}
use megatree.Numbers.{Num, Number}
use megatree.Frustum.Querier.{
  CellCache, MatrixOps, FrustumQuerier, user, Timer, Request, progress, finished, TreeInfo,
  set_projection_matrix,
}
use megatree.Frustum.Process.{give_results, copies}
use megatree.Frustum.Trigger.{new_frustum_querier, get_frustum, answer, fire}
use megatree.Frustum.Pending.{Owned, Owned-remove, IsAccounted, IsShort}
use megatree.Frustum.Keeps.{no_length, trigger_frustum-Keeps, answer-Keeps, fire-Keeps}

module _ ⦃num : Num⦄ ⦃cache : CellCache⦄ ⦃mjs : MatrixOps⦄ where
  pub data Step : FrustumQuerier → FrustumQuerier → Type 0 where
    ask :
        {q q' : FrustumQuerier} (fuel : ℕ) (camera_matrix : mjs.Matrix) (g_m : Number)
        → get_frustum fuel camera_matrix g_m q ≡ some q'
        → Step q q'
    project :
        {q : FrustumQuerier} (projection : mjs.Matrix) → Step q (set_projection_matrix projection q)
    -- Sliders, the size of the canvas and the key c.
    adjust :
        {q : FrustumQuerier} (desired least : Number) (cache_only : Bool)
        → Step q (record q {
          desired_cell_count = desired;
          min_box_size_meters = least;
          run_on_cache_only = cache_only;
        })
    load_trees :
        {q : FrustumQuerier} (trees : List (Option TreeInfo))
        → Step q (record q { trees_info = trees })
    expire :
        {q q' : FrustumQuerier} (fuel : ℕ) (xs : List Timer) (t : Timer) (ys : List Timer)
        → q.timers ≡ xs ++ t ∷ ys
        → fire fuel t (record q { timers = xs ++ ys }) ≡ some q'
        → Step q q'
    respond :
        {q q' : FrustumQuerier} (fuel : ℕ) (xs : List Request) (r : Request) (ys : List Request)
        (bytes : Option (List ℕ))
        → q.pending ≡ xs ++ r ∷ ys
        → answer fuel r bytes (record q { pending = xs ++ ys }) ≡ some q'
        → Step q q'

  pub data Reach (q : FrustumQuerier) : FrustumQuerier → Type 0 where
    here : Reach q q
    next : {p p' : FrustumQuerier} → Reach q p → Step p p' → Reach q p'

  removed-IsShort :
      (q : FrustumQuerier) (xs : List Request) (r : Request) (ys : List Request)
      → IsAccounted q
      → q.pending ≡ xs ++ r ∷ ys
      → IsShort (record q { pending = xs ++ ys })
  removed-IsShort q xs r ys h e =
      let long = length-append xs (r ∷ ys) in
      let short = length-append xs ys in
      let counted = subst (λ ps. length ps ≤ q.in_flight) e h.counted in
      (
        omega (arith, long, short, counted),
        Owned-remove xs r ys q.storage_requests (subst (Owned q.storage_requests) e h.owned),
      )

  Step-IsAccounted : {q q' : FrustumQuerier} → Step q q' → IsAccounted q → IsAccounted q'
  unfolding get_frustum set_projection_matrix
  Step-IsAccounted (ask fuel m g runs) h =
      Ensures-some IsAccounted _ (trigger_frustum-Keeps fuel user _ h) runs
  Step-IsAccounted (project m) h = h
  Step-IsAccounted (adjust desired least cache_only) h = h
  Step-IsAccounted (load_trees trees) h = h
  Step-IsAccounted {q} (expire fuel xs t ys split runs) h =
      Ensures-some IsAccounted _ (fire-Keeps fuel t (record q { timers = xs ++ ys }) h) runs
  Step-IsAccounted {q} (respond fuel xs r ys bytes split runs) h =
      Ensures-some IsAccounted _
        (answer-Keeps fuel r bytes (record q { pending = xs ++ ys })
          (removed-IsShort q xs r ys h split))
        runs

  Reach-keeps : {q q' : FrustumQuerier} → IsAccounted q → Reach q q' → IsAccounted q'
  Reach-keeps h here = h
  Reach-keeps h (next r s) = Step-IsAccounted s (Reach-keeps h r)

  -- From a new querier, calls, changes of the trees and of the settings of the page, answers and
  -- timers, in any order, reach only queriers in which each pending request is counted in `inFlight`
  -- and is one that `cancel` would abort.
  pub Reach-IsAccounted :
      (desired least : Number) (cache_only : Bool) (trees : List (Option TreeInfo))
      (state : cache.State) (projection camera : mjs.Matrix) {q : FrustumQuerier}
      → Reach (new_frustum_querier desired least cache_only trees state projection camera) q
      → IsAccounted q
  unfolding new_frustum_querier
  Reach-IsAccounted desired least cache_only trees state projection camera r =
      Reach-keeps (record { counted = omega arith; owned = tt }) r

  -- In a querier whose pending requests are counted in `inFlight` and known to `cancel`, as in every
  -- one that is reached, processQueue gives its results either as final, and then no request is
  -- pending, or as progress, and then `inFlight` is above zero.
  pub give_results-finished :
      (q : FrustumQuerier)
      → IsAccounted q
      → (((give_results q).delivered ≡ finished (copies q.cells q.queue) ∷ q.delivered)
          × (q.pending ≡ []))
        ⊎ (((give_results q).delivered ≡ progress (copies q.cells q.queue) ∷ q.delivered)
            × (0 < q.in_flight))
  unfolding give_results
  give_results-finished q h =
      if-elim
        (λ (p : FrustumQuerier).
          ((p.delivered ≡ finished (copies q.cells q.queue) ∷ q.delivered) × (q.pending ≡ []))
          ⊎ ((p.delivered ≡ progress (copies q.cells q.queue) ∷ q.delivered) × (0 < q.in_flight)))
        (ltb 0 q.in_flight) _ _ (λ busy. inr (refl, ground arith))
        (λ idle.
          let is_zero : q.in_flight ≡ 0 = ground arith in
          inl (refl, no_length q.pending (omega (arith, h.counted))))

  -- In a querier whose pending requests are counted in `inFlight` and known to `cancel`, and of
  -- which one is pending, the failure of that one leaves none pending, and still the results are
  -- given as progress and not as final.
  pub failed-progress :
      (fuel : ℕ) (q : FrustumQuerier) (r : Request)
      → IsAccounted q
      → q.pending ≡ r ∷ []
      → (p : FrustumQuerier) × (answer fuel r none (record q { pending = [] }) ≡ some p)
        × (p.pending ≡ [])
        × ((give_results p).delivered ≡ progress (copies q.cells q.queue) ∷ q.delivered)
  unfolding answer give_results
  failed-progress fuel q r h only =
      let counted = subst (λ ps. length ps ≤ q.in_flight) only h.counted in
      let busy : ltb 0 q.in_flight ≡ true = ground (arith, counted) in
      (
        record q { pending = [] },
        refl,
        refl,
        if-elim
            (λ (p : FrustumQuerier). p.delivered ≡ progress (copies q.cells q.queue) ∷ q.delivered)
            (ltb 0 q.in_flight) _ _ (λ _. refl) (λ idle. cc),
      )
