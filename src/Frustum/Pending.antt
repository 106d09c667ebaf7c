-- ===== src/Frustum/Pending.antt =====
-- The count of the cells in flight of the frustum querier against the requests that are pending
-- (megatree_web/js/frustum_querier.js).
use megatree.Base.{
  ℕ, ◌≤◌, ◌<◌, ◌≡◌, refl, sym, subst, true, Option, some, List, [], ◌∷◌, ◌++◌, arith, length,
  length-append, get_elem?, Ensures, Ensures-when_some, Ensures-if, All, ==_iff,
}
use megatree.Numbers.{Num}
use megatree.Cell.{NodeGeometry, Text}
use megatree.Frustum.Querier.{
  CellCache, MatrixOps, FrustumQuerier, Request, Callback, root_loaded, child_loaded, cancel,
  change, call_back, get_cell, mem, without, enqueue, send, resume, resume_or_count,
}

module _ ⦃num : Num⦄ where
  abbrev pub Owned : List ℕ → List Request → Type 0
  Owned sent ps = All (λ r. mem r.serial sent ≡ true) ps

  -- The requests that are pending, the numbers in `storageRequests` and `inFlight`: each request that is
  -- pending is counted, and is one that `cancel` aborts.
  pub record Accounted (ps : List Request) (sent : List ℕ) (n : ℕ) : Type 0 where
    pub counted : length ps ≤ n
    pub owned : Owned sent ps

  mem-append : (n : ℕ) (ms ks : List ℕ) → mem n ms ≡ true → mem n (ms ++ ks) ≡ true
  unfolding mem
  mem-append n [] ks h = ground arith
  mem-append n (m ∷ ms) ks h = let rest = mem-append n ms ks in ground arith

  mem-last : (n : ℕ) (ms : List ℕ) → mem n (ms ++ n ∷ []) ≡ true
  unfolding mem
  mem-last n [] = ground (arith, (==_iff n n).1 refl)
  mem-last n (m ∷ ms) = let rest = mem-last n ms in ground arith

  Owned-append : (ps : List Request) (sent more : List ℕ) → Owned sent ps → Owned (sent ++ more) ps
  Owned-append [] sent more h = tt
  Owned-append (p ∷ ps) sent more h =
      (mem-append p.serial sent more h.0, Owned-append ps sent more h.1)

  Owned-send :
      (ps : List Request) (r : Request) (sent : List ℕ)
      → Owned sent ps
      → Owned (sent ++ r.serial ∷ []) (ps ++ r ∷ [])
  Owned-send [] r sent h = (mem-last r.serial sent, tt)
  Owned-send (p ∷ ps) r sent h = (mem-append p.serial sent _ h.0, Owned-send ps r sent h.1)

  pub Owned-remove :
      (xs : List Request) (r : Request) (ys : List Request) (sent : List ℕ)
      → Owned sent (xs ++ r ∷ ys)
      → Owned sent (xs ++ ys)
  Owned-remove [] r ys sent h = h.1
  Owned-remove (x ∷ xs) r ys sent h = (h.0, Owned-remove xs r ys sent h.1)

  without-Owned : (ps : List Request) (sent : List ℕ) → Owned sent ps → without sent ps ≡ []
  unfolding without
  without-Owned [] sent h = refl
  without-Owned (p ∷ ps) sent h = let rest = without-Owned ps sent h.1 in ground arith

  module _ ⦃cache : CellCache⦄ ⦃mjs : MatrixOps⦄ where
    abbrev pub IsAccounted : FrustumQuerier → Type 0
    IsAccounted q = Accounted q.pending q.storage_requests q.in_flight

    -- One request fewer is pending than is counted, as when the answer to it is being handled.
    abbrev pub IsShort : FrustumQuerier → Type 0
    IsShort q = (length q.pending < q.in_flight) × Owned q.storage_requests q.pending

    abbrev pub Keeps : (FrustumQuerier → Option FrustumQuerier) → Type 0
    Keeps f = (q : FrustumQuerier) → IsAccounted q → Ensures IsAccounted (f q)

    pub cancel-pending : (q : FrustumQuerier) → IsAccounted q → (cancel q).pending ≡ []
    unfolding cancel
    cancel-pending q h = without-Owned q.pending q.storage_requests h.owned

    pub cancel-IsAccounted : (q : FrustumQuerier) → IsAccounted q → IsAccounted (cancel q)
    unfolding cancel
    cancel-IsAccounted q h =
        subst (λ ps. Accounted ps q.storage_requests 0) (sym (cancel-pending q h))
          (record { counted = omega arith; owned = tt })

    enqueue-IsAccounted : (at : ℕ) (q : FrustumQuerier) → IsShort q → IsAccounted (enqueue at q)
    unfolding enqueue
    enqueue-IsAccounted at q h = record { counted = omega (arith, h.0); owned = h.1 }

    IsShort-IsAccounted : (q : FrustumQuerier) → IsShort q → IsAccounted q
    IsShort-IsAccounted q h = record { counted = omega (arith, h.0); owned = h.1 }

    resume-Keeps :
        (process : FrustumQuerier → Option FrustumQuerier) → Keeps process → Keeps (resume process)
    unfolding resume
    resume-Keeps process keeps q h =
        Ensures-if IsAccounted q.is_processing_queue (some q) (process q) (λ _. h) (λ _. keeps q h)

    resume_or_count-Keeps :
        (process : FrustumQuerier → Option FrustumQuerier)
        → Keeps process
        → Keeps (resume_or_count process)
    unfolding resume_or_count
    resume_or_count-Keeps process keeps q h =
        Ensures-if IsAccounted q.is_processing_queue _ (process q) (λ _. h) (λ _. keeps q h)

    -- Each success callback counts its request off.
    pub call_back-Keeps :
        (process : FrustumQuerier → Option FrustumQuerier)
        → Keeps process
        → (back : Callback) (at : ℕ) (q : FrustumQuerier) → IsShort q
        → Ensures IsAccounted (call_back process back at q)
    unfolding call_back change
    call_back-Keeps process keeps (root_loaded v) at q h =
        let fewer = IsShort-IsAccounted q h in
        Ensures-when_some IsAccounted (get_elem? q.tree_vars v) _ _ fewer (λ var _.
          Ensures-when_some IsAccounted var _ _ fewer
            (λ t _. resume-Keeps process keeps _ (enqueue-IsAccounted at (change at _ q) h)))
    call_back-Keeps process keeps (child_loaded parent v) at q h =
        let fewer = IsShort-IsAccounted q h in
        Ensures-when_some IsAccounted (get_elem? q.cells parent) _ _ fewer (λ above _.
          Ensures-when_some IsAccounted (get_elem? q.child_vars v) _ _ fewer (λ place _.
            resume_or_count-Keeps process keeps _ (enqueue-IsAccounted at (change at _ q) h)))

    send-IsAccounted :
        (id : Text) (g : NodeGeometry) (back : Callback) (q : FrustumQuerier)
        → IsShort q
        → IsAccounted (send id g back q)
    unfolding send
    send-IsAccounted id g back q h = record {
      counted = subst (λ n. n ≤ q.in_flight) (sym (length-append q.pending _)) (omega (arith, h.0));
      owned = Owned-send q.pending _ q.storage_requests h.1;
    }

    pub get_cell-Keeps :
        (process : FrustumQuerier → Option FrustumQuerier)
        → Keeps process
        → (id : Text) (g : NodeGeometry) (back : Callback) (q : FrustumQuerier) → IsShort q
        → Ensures IsAccounted (get_cell process id g back q)
    unfolding get_cell
    get_cell-Keeps process keeps id g back q h =
        Ensures-when_some IsAccounted (cache.get id q.cell_cache).0 _ _
          (Ensures-if IsAccounted q.run_on_cache_only _ _ (λ _. IsShort-IsAccounted q h)
            (λ _. send-IsAccounted id g back _ h))
          (λ at _. call_back-Keeps process keeps back at _ h)
