-- ===== src/LinkedList/Detach.antt =====
-- A node that leaves its place in the list, and `move_to_front` on the heap (megatree_web/js/lru_cache.js).
use megatree.Base.{ℕ, ◌≡◌, ◌≢◌, true, false, Option, some, [], ◌∷◌, ◌++◌, arith, ◌==◌, ◌∙◌}
use mathlib.Core.List.{append-nil}
use megatree.Outcome.{returns, ◌>>=◌}
use megatree.LinkedList.{
  Ptr, Iter, iter, write, set_prev, set_next, set_prev_lem, set_next_lem, move_to_front,
}
use megatree.LinkedList.Chain.{
  Cells, first, last, has, Chain, Holds, list_of, frame, Chain-split, Chain-append, Chain-Disjoint,
  Below, Below-append, Below-prefix, Below-suffix, Disjoint-left, Disjoint-right, Disjoint-tail,
  retarget_last, ne_of_has, has-last, has_self, has-head, has-tail, last-append, has-append,
}

module _ {A : Type 0} where
  -- The last node leaves: its neighbour becomes the end.
  pub detach_back :
      (c : Ptr → Option (Iter A)) (q : Ptr) (w : A) (xs : Cells A) (p : Ptr) (v : A)
      → Chain c 0 (((q, w) ∷ xs) ++ (p, v) ∷ []) 0
      → (m : Iter A) × (c (last xs q) ≡ some m)
        × Chain (write c (last xs q) (record m { next = 0 })) 0 ((q, w) ∷ xs) 0
        × ((p == last xs q) ≡ false)
  detach_back c q w xs p v h =
      let (before, node) = Chain-split c 0 ((q, w) ∷ xs) ((p, v) ∷ []) 0 h in
      let apart = Chain-Disjoint c 0 ((q, w) ∷ xs) ((p, v) ∷ []) 0 h in
      let (m, at, chain) = retarget_last c 0 (q, w) xs p 0 before in
      (
        m,
        at,
        chain,
        ne_of_has p (last xs q) ((q, w) ∷ xs)
            (Disjoint-left p ((q, w) ∷ xs) ((p, v) ∷ []) apart (has_self p v []))
            (has-last (q, w) xs 0),
      )

  -- A node between two others leaves: they become neighbours.
  pub detach_mid :
      (c : Ptr → Option (Iter A)) (q : Ptr) (w : A) (xs : Cells A) (p : Ptr) (v : A) (r : Ptr)
      (u : A) (ys : Cells A)
      → Chain c 0 (((q, w) ∷ xs) ++ (p, v) ∷ (r, u) ∷ ys) 0
      → (m : Iter A) × (c (last xs q) ≡ some m)
        × (write c (last xs q) (record m { next = r }) r ≡ some (iter u p (first ys 0)))
        × Chain
            (write
              (write c (last xs q) (record m { next = r }))
              r
              (iter u (last xs q) (first ys 0)))
            0
            (((q, w) ∷ xs) ++ (r, u) ∷ ys)
            0
        × ((p == last xs q) ≡ false)
        × ((p == r) ≡ false)
  detach_mid c q w xs p v r u ys h =
      let zs = (q, w) ∷ xs in
      let end = last xs q in
      let (before, node) = Chain-split c 0 zs ((p, v) ∷ (r, u) ∷ ys) 0 h in
      let apart = Chain-Disjoint c 0 zs ((p, v) ∷ (r, u) ∷ ys) 0 h in
      let apart' = Disjoint-tail zs (p, v) ((r, u) ∷ ys) apart in
      let (m, at, chain) = retarget_last c 0 (q, w) xs p r before in
      let out = Disjoint-right end zs ((p, v) ∷ (r, u) ∷ ys) apart (has-last (q, w) xs 0) in
      let r_out = Disjoint-left r zs ((r, u) ∷ ys) apart' (has_self r u ys) in
      let r_end : (r == end) ≡ false = ne_of_has r end zs r_out (has-last (q, w) xs 0) in
      (
        m,
        at,
        rw r_end node.3.0,
        Chain-append _ 0 zs ((r, u) ∷ ys) 0 apart' (frame _ r _ 0 zs r r_out chain) (
          ground arith,
          node.3.1,
          node.3.2,
          frame _ r _ r ys 0 node.3.2 (
              frame c end _ r ys 0 (has-tail end r u ys (has-tail end p v ((r, u) ∷ ys) out))
                node.3.3),
        ),
        ne_of_has p end zs
            (Disjoint-left p zs ((p, v) ∷ (r, u) ∷ ys) apart (has_self p v ((r, u) ∷ ys)))
            (has-last (q, w) xs 0),
        has-head p r u ys node.2,
      )

  -- A node that stands alone is put before the others: the last three writes of `move_to_front`.
  relink :
      (c : Ptr → Option (Iter A)) (n : ℕ) (back : Ptr) (p : Ptr) (v : A) (y z : Ptr) (q : Ptr)
      (w : A) (xs : Cells A)
      → c p ≡ some (iter v y z)
      → p ≢ 0
      → has p ((q, w) ∷ xs) ≡ false
      → Chain c 0 ((q, w) ∷ xs) 0
      → (c' : Ptr → Option (Iter A)) × ((set_prev p 0
              (record { cells = c; fresh = n; front = q; back = back })
            >>= λ l. set_next p l.front l >>= λ l.
                set_prev l.front p l >>= λ l. returns (record l { front = p }))
          ≡ returns (record { cells = c'; fresh = n; front = p; back = back }))
        × Chain c' 0 ((p, v) ∷ (q, w) ∷ xs) 0
  relink c n back p v y z q w xs at real out chain =
      let differ = has-head p q w xs out in
      let other : (q == p) ≡ false = ground arith in
      let c3 = write c p (iter v 0 z) in
      let c4 = write c3 p (iter v 0 q) in
      (
        write c4 q (iter w p (first xs 0)),
        rw (
          set_prev_lem (record { cells = c; fresh = n; front = q; back = back }) p 0 (iter v y z)
              at,
          set_next_lem (record { cells = c3; fresh = n; front = q; back = back }) p q (iter v 0 z)
              (ground arith),
          set_prev_lem (record { cells = c4; fresh = n; front = q; back = back }) q p
              (iter w 0 (first xs 0)) (rw other chain.0),
        ),
        (
          ground arith,
          real,
          out,
          (
            ground arith,
            chain.1,
            chain.2,
            frame c4 q _ q xs 0 chain.2
                (frame c3 p _ q xs 0 (ground arith) (frame c p _ q xs 0 (ground arith) chain.3)),
          ),
        ),
      )

  move_back_of :
      (c : Ptr → Option (Iter A)) (n : ℕ) (q : Ptr) (w : A) (xs : Cells A) (p : Ptr) (v : A)
      → Holds c n (((q, w) ∷ xs) ++ (p, v) ∷ [])
      → (c' : Ptr → Option (Iter A)) × (move_to_front p (list_of c n (((q, w) ∷ xs) ++ (p, v) ∷ []))
          ≡ returns (list_of c' n ((p, v) ∷ (q, w) ∷ xs)))
        × Chain c' 0 ((p, v) ∷ (q, w) ∷ xs) 0
  unfolding move_to_front
  move_back_of c n q w xs p v h =
      let zs = (q, w) ∷ xs in
      let (m, at, chain, away) = detach_back c q w xs p v h.chain in
      let (before, node) = Chain-split c 0 zs ((p, v) ∷ []) 0 h.chain in
      let out =
        Disjoint-left p zs ((p, v) ∷ []) (Chain-Disjoint c 0 zs ((p, v) ∷ []) 0 h.chain)
          (has_self p v []) in
      let not_front = has-head p q w xs out in
      let is_back : (p == p) ≡ true = ground arith in
      let (c', runs, chain') =
        relink (write c (last xs q) (record m { next = 0 })) n (last xs q) p v (last xs q) 0 q w xs
          (rw away node.0) node.1 out chain in
      (
        c',
        rw
            (
              last-append xs ((p, v) ∷ []) q,
              not_front,
              node.0,
              set_next_lem (record (list_of c n zs) { back = p }) (last xs q) 0 m at,
              is_back,
            )
            runs,
        chain',
      )

  move_mid_of :
      (c : Ptr → Option (Iter A)) (n : ℕ) (q : Ptr) (w : A) (xs : Cells A) (p : Ptr) (v : A)
      (r : Ptr) (u : A) (ys : Cells A)
      → Holds c n (((q, w) ∷ xs) ++ (p, v) ∷ (r, u) ∷ ys)
      → (c' : Ptr → Option (Iter A)) × (move_to_front p
            (list_of c n (((q, w) ∷ xs) ++ (p, v) ∷ (r, u) ∷ ys))
          ≡ returns (list_of c' n ((p, v) ∷ ((q, w) ∷ xs) ++ (r, u) ∷ ys)))
        × Chain c' 0 ((p, v) ∷ ((q, w) ∷ xs) ++ (r, u) ∷ ys) 0
  unfolding move_to_front
  move_mid_of c n q w xs p v r u ys h =
      let zs = (q, w) ∷ xs in
      let end = last xs q in
      let (m, at, next, chain, away, away_r) = detach_mid c q w xs p v r u ys h.chain in
      let (before, node) = Chain-split c 0 zs ((p, v) ∷ (r, u) ∷ ys) 0 h.chain in
      let out =
        Disjoint-left p zs ((p, v) ∷ (r, u) ∷ ys)
          (Chain-Disjoint c 0 zs ((p, v) ∷ (r, u) ∷ ys) 0 h.chain) (has_self p v ((r, u) ∷ ys)) in
      let not_front = has-head p q w xs out in
      let not_back : (p == last ys r) ≡ false =
        ne_of_has p (last ys r) ((r, u) ∷ ys) node.2 (has-last (r, u) ys 0) in
      let c1 = write c end (record m { next = r }) in
      let (c', runs, chain') =
        relink (write c1 r (iter u end (first ys 0))) n (last ys r) p v end r q w
          (xs ++ (r, u) ∷ ys) (rw (away_r, away) node.0) node.1
          (has-append p zs ((r, u) ∷ ys) ∙ rw out node.2) chain in
      (
        c',
        rw
            (
              last-append xs ((p, v) ∷ (r, u) ∷ ys) q,
              not_front,
              node.0,
              set_next_lem (record (list_of c n zs) { back = last ys r }) end r m at,
              not_back,
              set_prev_lem (record { cells = c1; fresh = n; front = q; back = last ys r }) r end
                  (iter u p (first ys 0)) next,
              last-append xs ((r, u) ∷ ys) q,
            )
            runs,
        chain',
      )

  pub Below-moved :
      (n : ℕ) (xs : Cells A) (p : Ptr) (v : A) (ys : Cells A)
      → Below n (xs ++ (p, v) ∷ ys)
      → Below n ((p, v) ∷ xs ++ ys)
  Below-moved n xs p v ys h =
      let tail = Below-suffix n xs ((p, v) ∷ ys) h in
      (tail.0, Below-append n xs ys (Below-prefix n xs ((p, v) ∷ ys) h) tail.1)

  pub move_to_front_of :
      (c : Ptr → Option (Iter A)) (n : ℕ) (xs : Cells A) (p : Ptr) (v : A) (ys : Cells A)
      → Holds c n (xs ++ (p, v) ∷ ys)
      → (c' : Ptr → Option (Iter A)) × (move_to_front p (list_of c n (xs ++ (p, v) ∷ ys))
          ≡ returns (list_of c' n ((p, v) ∷ xs ++ ys)))
        × Holds c' n ((p, v) ∷ xs ++ ys)
  unfolding move_to_front
  move_to_front_of c n [] p v ys h = let same : (p == p) ≡ true = ground arith in (c, rw same, h)
  move_to_front_of c n ((q, w) ∷ xs) p v [] h =
      let (c', runs, chain) = move_back_of c n q w xs p v h in
      (
        c',
        rw append-nil runs,
        record {
          chain = rw append-nil chain;
          below = Below-moved n ((q, w) ∷ xs) p v [] h.below;
          fresh = h.fresh;
        },
      )
  move_to_front_of c n ((q, w) ∷ xs) p v ((r, u) ∷ ys) h =
      let (c', runs, chain) = move_mid_of c n q w xs p v r u ys h in
      (
        c',
        runs,
        record {
          chain = chain;
          below = Below-moved n ((q, w) ∷ xs) p v ((r, u) ∷ ys) h.below;
          fresh = h.fresh;
        },
      )
