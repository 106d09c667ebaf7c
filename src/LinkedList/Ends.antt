-- ===== src/LinkedList/Ends.antt =====
-- push_front, push_back, pop_front and pop_back of megatree_web/js/lru_cache.js on the nodes of a
-- list.
use megatree.Base.{
  ℕ, ◌+◌, ◌≡◌, refl, true, false, Option, some, [], ◌∷◌, ◌++◌, arith, ◌==◌, ap, ◌∙◌,
}
use megatree.Outcome.{returns}
use megatree.LinkedList.{
  Ptr, Iter, LinkedList, iter, write, set_prev_lem, set_next_lem, push_front, push_back, pop_front,
  pop_back,
}
use megatree.LinkedList.Chain.{
  Cells, first, last, has, IsList, frame, list_of, eq_list_of, list_of-IsList, Holds, has_of_Below,
  Below-suc, Below-append, Below-prefix, Chain-split, Chain-append, ne_of_has, has-last, has-append,
  last-append, Disjoint-of_has, retarget_last, last-ne_zero,
}

module _ {A : Type 0} where
  -- `push_front` puts the item before the others, at an unused address.
  push_front_of :
      (c : Ptr → Option (Iter A)) (n : ℕ) (xs : Cells A) (v : A)
      → Holds c n xs
      → (c' : Ptr → Option (Iter A)) × (push_front v (list_of c n xs)
          ≡ returns (n, list_of c' (n + 1) ((n, v) ∷ xs)))
        × Holds c' (n + 1) ((n, v) ∷ xs)
  unfolding push_front
  push_front_of c n [] v h = (
    write c n (iter v 0 0),
    refl,
    record { chain = ground arith; below = ground arith; fresh = omega arith },
  )
  push_front_of c n ((p, w) ∷ xs) v h =
      let old : (p == n) ≡ false = ground arith in
      let real : (p == 0) ≡ false = ground arith in
      let clear : has n ((p, w) ∷ xs) ≡ false = has_of_Below n ((p, w) ∷ xs) h.below in
      (
        write (write c n (iter v 0 p)) p (iter w n (first xs 0)),
        rw (
          real,
          set_prev_lem (list_of (write c n (iter v 0 p)) (n + 1) ((p, w) ∷ xs)) p n
              (iter w 0 (first xs 0)) (ground arith),
          last-ne_zero c 0 (p, w) xs 0 h.chain,
        ),
        record {
          chain = (
            ground arith,
            ground arith,
            clear,
            (
              ground arith,
              h.chain.1,
              h.chain.2,
              frame _ p _ p xs 0 h.chain.2 (frame _ n _ p xs 0 (ground arith) h.chain.3),
            ),
          );
          below = (omega arith, Below-suc n (n + 1) ((p, w) ∷ xs) (omega arith) h.below);
          fresh = omega arith;
        },
      )

  -- `push_back` puts the item behind the others, at an unused address.
  push_back_of :
      (c : Ptr → Option (Iter A)) (n : ℕ) (xs : Cells A) (v : A)
      → Holds c n xs
      → (c' : Ptr → Option (Iter A)) × (push_back v (list_of c n xs)
          ≡ returns (n, list_of c' (n + 1) (xs ++ (n, v) ∷ [])))
        × Holds c' (n + 1) (xs ++ (n, v) ∷ [])
  unfolding push_back
  push_back_of c n [] v h = (
    write c n (iter v 0 0),
    refl,
    record { chain = ground arith; below = ground arith; fresh = omega arith },
  )
  push_back_of c n (x ∷ xs) v h =
      let end = last (x ∷ xs) 0 in
      let real : (end == 0) ≡ false = last-ne_zero c 0 x xs 0 h.chain in
      let head : (x.0 == 0) ≡ false = ground arith in
      let out : has n (x ∷ xs) ≡ false = has_of_Below n (x ∷ xs) h.below in
      let other : (n == end) ≡ false = ne_of_has n end (x ∷ xs) out (has-last x xs 0) in
      let c1 = write c n (iter v end 0) in
      let (node, at, chain) =
        retarget_last c1 0 x xs 0 n (frame c n (iter v end 0) 0 (x ∷ xs) 0 out h.chain) in
      (
        write c1 end (record node { next = n }),
        rw (
          real,
          set_next_lem (record (list_of c1 (n + 1) (x ∷ xs)) { back = end }) end n node at,
          last-append (x ∷ xs) ((n, v) ∷ []) 0,
          head,
        ),
        record {
          chain =
              Chain-append _ 0 (x ∷ xs) ((n, v) ∷ []) 0 (Disjoint-of_has n v (x ∷ xs) out) chain
                (rw other (ground arith), ground arith, refl, tt);
          below =
              Below-append (n + 1) (x ∷ xs) ((n, v) ∷ [])
                (Below-suc n (n + 1) (x ∷ xs) (omega arith) h.below) (omega arith, tt);
          fresh = omega arith;
        },
      )

  -- `pop_front` takes the first node off.
  pop_front_of :
      (c : Ptr → Option (Iter A)) (n : ℕ) (p : Ptr) (v : A) (xs : Cells A)
      → Holds c n ((p, v) ∷ xs)
      → (c' : Ptr → Option (Iter A)) × (pop_front (list_of c n ((p, v) ∷ xs))
          ≡ returns (some v, list_of c' n xs))
        × Holds c' n xs
  unfolding pop_front
  pop_front_of c n p v [] h =
      let real : (p == 0) ≡ false = ground arith in
      let same : (p == p) ≡ true = ground arith in
      (c, rw (real, h.chain.0, same), record { chain = tt; below = tt; fresh = h.fresh })
  pop_front_of c n p v ((q, w) ∷ xs) h =
      let real : (p == 0) ≡ false = ground arith in
      let next : (q == 0) ≡ false = ground arith in
      let more : (p == last xs q) ≡ false =
        ne_of_has p (last xs q) ((q, w) ∷ xs) h.chain.2 (has-last (q, w) xs 0) in
      (
        write c q (iter w 0 (first xs 0)),
        rw (
          real,
          h.chain.0,
          next,
          set_prev_lem (list_of c n ((p, v) ∷ (q, w) ∷ xs)) q 0 (iter w p (first xs 0)) h.chain.3.0,
          more,
        ),
        record {
          chain =
              (ground arith, h.chain.3.1, h.chain.3.2, frame c q _ q xs 0 h.chain.3.2 h.chain.3.3);
          below = h.below.1;
          fresh = h.fresh;
        },
      )

  -- `pop_back` takes the last node off.
  pop_back_of :
      (c : Ptr → Option (Iter A)) (n : ℕ) (xs : Cells A) (p : Ptr) (v : A)
      → Holds c n (xs ++ (p, v) ∷ [])
      → (c' : Ptr → Option (Iter A)) × (pop_back (list_of c n (xs ++ (p, v) ∷ []))
          ≡ returns (some v, list_of c' n xs))
        × Holds c' n xs
  unfolding pop_back
  pop_back_of c n [] p v h =
      let real : (p == 0) ≡ false = ground arith in
      let same : (p == p) ≡ true = ground arith in
      (c, rw (real, h.chain.0, same), record { chain = tt; below = tt; fresh = h.fresh })
  pop_back_of c n ((q, w) ∷ xs) p v h =
      let (before, node) = Chain-split c 0 ((q, w) ∷ xs) ((p, v) ∷ []) 0 h.chain in
      let end = last xs q in
      let inside : has p (xs ++ (p, v) ∷ []) ≡ true =
        ground (arith, has-append p xs ((p, v) ∷ [])) in
      let more : (q == p) ≡ false = ne_of_has q p (xs ++ (p, v) ∷ []) h.chain.2 inside in
      let real : (p == 0) ≡ false = ground arith in
      let prev : (end == 0) ≡ false = last-ne_zero c 0 (q, w) xs p before in
      let (n0, at, chain) = retarget_last c 0 (q, w) xs p 0 before in
      (
        write c end (record n0 { next = 0 }),
        rw (
          last-append xs ((p, v) ∷ []) q,
          real,
          node.0,
          more,
          prev,
          set_next_lem (record (list_of c n ((q, w) ∷ xs)) { back = p }) end 0 n0 at,
        ),
        record {
          chain = chain;
          below = Below-prefix n ((q, w) ∷ xs) ((p, v) ∷ []) h.below;
          fresh = h.fresh;
        },
      )

  -- On a well-formed list `push_front` throws nothing, returns the new node and puts it before the
  -- others, and the list stays well formed.
  pub push_front-IsList :
      (l : LinkedList A) (xs : Cells A) (v : A)
      → IsList l xs
      → (l' : LinkedList A) × (push_front v l ≡ returns (l.fresh, l'))
        × IsList l' ((l.fresh, v) ∷ xs)
        × (l'.fresh ≡ l.fresh + 1)
  push_front-IsList l xs v is =
      let (c, runs, holds) = push_front_of l.cells l.fresh xs v is.holds in
      (
        list_of c (l.fresh + 1) ((l.fresh, v) ∷ xs),
        ap (push_front v) (eq_list_of l xs is) ∙ runs,
        list_of-IsList c (l.fresh + 1) _ holds,
        refl,
      )

  -- On a well-formed list `push_back` throws nothing, returns the new node and puts it behind the
  -- others, and the list stays well formed.
  pub push_back-IsList :
      (l : LinkedList A) (xs : Cells A) (v : A)
      → IsList l xs
      → (l' : LinkedList A) × (push_back v l ≡ returns (l.fresh, l'))
        × IsList l' (xs ++ (l.fresh, v) ∷ [])
        × (l'.fresh ≡ l.fresh + 1)
  push_back-IsList l xs v is =
      let (c, runs, holds) = push_back_of l.cells l.fresh xs v is.holds in
      (
        list_of c (l.fresh + 1) (xs ++ (l.fresh, v) ∷ []),
        ap (push_back v) (eq_list_of l xs is) ∙ runs,
        list_of-IsList c (l.fresh + 1) _ holds,
        refl,
      )

  -- On a well-formed list that is not empty `pop_front` throws nothing, returns the first item and
  -- leaves the rest, a well-formed list.
  pub pop_front-IsList :
      (l : LinkedList A) (p : Ptr) (v : A) (xs : Cells A)
      → IsList l ((p, v) ∷ xs)
      → (l' : LinkedList A) × (pop_front l ≡ returns (some v, l'))
        × IsList l' xs
        × (l'.fresh ≡ l.fresh)
  pop_front-IsList l p v xs is =
      let (c, runs, holds) = pop_front_of l.cells l.fresh p v xs is.holds in
      (
        list_of c l.fresh xs,
        ap pop_front (eq_list_of l _ is) ∙ runs,
        list_of-IsList c l.fresh _ holds,
        refl,
      )

  -- On a well-formed list that is not empty `pop_back` throws nothing, returns the last item and
  -- leaves the rest, a well-formed list.
  pub pop_back-IsList :
      (l : LinkedList A) (xs : Cells A) (p : Ptr) (v : A)
      → IsList l (xs ++ (p, v) ∷ [])
      → (l' : LinkedList A) × (pop_back l ≡ returns (some v, l'))
        × IsList l' xs
        × (l'.fresh ≡ l.fresh)
  pop_back-IsList l xs p v is =
      let (c, runs, holds) = pop_back_of l.cells l.fresh xs p v is.holds in
      (
        list_of c l.fresh xs,
        ap pop_back (eq_list_of l _ is) ∙ runs,
        list_of-IsList c l.fresh _ holds,
        refl,
      )
