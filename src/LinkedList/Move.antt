-- ===== src/LinkedList/Move.antt =====
-- move_to_front and remove of megatree_web/js/lru_cache.js on the nodes of a list.
use megatree.Base.{ℕ, ◌≡◌, refl, true, false, Option, some, [], ◌∷◌, ◌++◌, arith, ◌==◌, ◌∙◌, ap}
use mathlib.Core.List.{append-nil}
use megatree.Outcome.{returns}
use megatree.LinkedList.{
  Ptr, Iter, LinkedList, iter, write, load_lem, set_prev_lem, set_next_lem, unlink, remove,
  move_to_front,
}
use megatree.LinkedList.Chain.{
  IsList, eq_list_of, list_of-IsList, Cells, first, last, has, Chain, Holds, list_of, frame,
  Chain-split, Chain-Disjoint, Disjoint-left, ne_of_has, has-last, has_self, has-head, last-append,
  has-append,
}
use megatree.LinkedList.Detach.{detach_back, detach_mid, Below-moved, move_to_front_of}

module _ {A : Type 0} where
  -- `unlink` leaves the other nodes as a list, and the node itself as it was.
  unlink_of :
      (c : Ptr → Option (Iter A)) (n : ℕ) (xs : Cells A) (p : Ptr) (v : A) (ys : Cells A)
      → Holds c n (xs ++ (p, v) ∷ ys)
      → (c' : Ptr → Option (Iter A)) × (unlink p (list_of c n (xs ++ (p, v) ∷ ys))
          ≡ returns (list_of c' n (xs ++ ys)))
        × Chain c' 0 (xs ++ ys) 0
        × (c' p ≡ c p)
  unfolding unlink
  unlink_of c n [] p v [] h = let same : (p == p) ≡ true = ground arith in (c, rw same, tt, refl)
  unlink_of c n [] p v ((r, u) ∷ ys) h =
      let same : (p == p) ≡ true = ground arith in
      let other = ne_of_has p (last ys r) ((r, u) ∷ ys) h.chain.2 (has-last (r, u) ys 0) in
      let away = has-head p r u ys h.chain.2 in
      (
        write c r (iter u 0 (first ys 0)),
        rw (
          same,
          other,
          h.chain.0,
          set_prev_lem (record (list_of c n ((r, u) ∷ ys)) { front = r }) r 0
              (iter u p (first ys 0)) h.chain.3.0,
        ),
        (ground arith, h.chain.3.1, h.chain.3.2, frame c r _ r ys 0 h.chain.3.2 h.chain.3.3),
        rw away,
      )
  unlink_of c n ((q, w) ∷ xs) p v [] h =
      let zs = (q, w) ∷ xs in
      let (m, at, chain, away) = detach_back c q w xs p v h.chain in
      let (before, node) = Chain-split c 0 zs ((p, v) ∷ []) 0 h.chain in
      let out =
        Disjoint-left p zs ((p, v) ∷ []) (Chain-Disjoint c 0 zs ((p, v) ∷ []) 0 h.chain)
          (has_self p v []) in
      let not_front = has-head p q w xs out in
      let is_back : (p == p) ≡ true = ground arith in
      (
        write c (last xs q) (record m { next = 0 }),
        rw (
          append-nil,
          last-append xs ((p, v) ∷ []) q,
          not_front,
          is_back,
          node.0,
          set_next_lem (record (list_of c n zs) { back = last xs q }) (last xs q) 0 m at,
        ),
        rw append-nil chain,
        rw away,
      )
  unlink_of c n ((q, w) ∷ xs) p v ((r, u) ∷ ys) h =
      let zs = (q, w) ∷ xs in
      let end = last xs q in
      let (m, at, next, chain, away, away_r) = detach_mid c q w xs p v r u ys h.chain in
      let (before, node) = Chain-split c 0 zs ((p, v) ∷ (r, u) ∷ ys) 0 h.chain in
      let out =
        Disjoint-left p zs ((p, v) ∷ (r, u) ∷ ys)
          (Chain-Disjoint c 0 zs ((p, v) ∷ (r, u) ∷ ys) 0 h.chain) (has_self p v ((r, u) ∷ ys)) in
      let not_front = has-head p q w xs out in
      let not_back : (p == last ys r) ≡ false =
        ne_of_has p (last ys r) ((r, u) ∷ ys) node.2 (has-last (r, u) ys 0) in
      let c1 = write c end (record m { next = r }) in
      (
        write c1 r (iter u end (first ys 0)),
        rw (
          last-append xs ((p, v) ∷ (r, u) ∷ ys) q,
          not_front,
          not_back,
          node.0,
          set_next_lem (record (list_of c n zs) { back = last ys r }) end r m at,
          set_prev_lem (record { cells = c1; fresh = n; front = q; back = last ys r }) r end
              (iter u p (first ys 0)) next,
          last-append xs ((r, u) ∷ ys) q,
        ),
        chain,
        rw (away_r, away),
      )

  has-middle :
      (c : Ptr → Option (Iter A)) (xs : Cells A) (p : Ptr) (v : A) (ys : Cells A)
      → Chain c 0 (xs ++ (p, v) ∷ ys) 0
      → has p (xs ++ ys) ≡ false
  has-middle c xs p v ys h =
      let out =
        Disjoint-left p xs ((p, v) ∷ ys) (Chain-Disjoint c 0 xs ((p, v) ∷ ys) 0 h)
          (has_self p v ys) in
      has-append p xs ys ∙ rw out (Chain-split c 0 xs ((p, v) ∷ ys) 0 h).1.2

  -- `remove` takes the node out of the list, wherever it stands, and clears its pointers.
  remove_of :
      (c : Ptr → Option (Iter A)) (n : ℕ) (xs : Cells A) (p : Ptr) (v : A) (ys : Cells A)
      → Holds c n (xs ++ (p, v) ∷ ys)
      → (c' : Ptr → Option (Iter A)) × (remove p (list_of c n (xs ++ (p, v) ∷ ys))
          ≡ returns (p, list_of c' n (xs ++ ys)))
        × Holds c' n (xs ++ ys)
        × (c' p ≡ some (iter v 0 0))
  unfolding remove
  remove_of c n xs p v ys h =
      let (c1, runs, chain, kept) = unlink_of c n xs p v ys h in
      let node = (Chain-split c 0 xs ((p, v) ∷ ys) 0 h.chain).1 in
      (
        write c1 p (iter v 0 0),
        rw (runs, load_lem (list_of c1 n (xs ++ ys)) p _ (kept ∙ node.0)),
        record {
          chain = frame c1 p _ 0 (xs ++ ys) 0 (has-middle c xs p v ys h.chain) chain;
          below = (Below-moved n xs p v ys h.below).1;
          fresh = h.fresh;
        },
        ground arith,
      )

  -- On a well-formed list `move_to_front` of any of its nodes throws nothing and moves that node to
  -- the front, and the list stays well formed.
  pub move_to_front-IsList :
      (l : LinkedList A) (xs : Cells A) (p : Ptr) (v : A) (ys : Cells A)
      → IsList l (xs ++ (p, v) ∷ ys)
      → (l' : LinkedList A) × (move_to_front p l ≡ returns l')
        × IsList l' ((p, v) ∷ xs ++ ys)
        × (l'.fresh ≡ l.fresh)
  move_to_front-IsList l xs p v ys is =
      let (c, runs, holds) = move_to_front_of l.cells l.fresh xs p v ys is.holds in
      (
        list_of c l.fresh ((p, v) ∷ xs ++ ys),
        ap (move_to_front p) (eq_list_of l _ is) ∙ runs,
        list_of-IsList c l.fresh _ holds,
        refl,
      )

  -- On a well-formed list `remove` of any of its nodes throws nothing, returns the node with its
  -- pointers cleared and leaves the other nodes in order, a well-formed list.
  pub remove-IsList :
      (l : LinkedList A) (xs : Cells A) (p : Ptr) (v : A) (ys : Cells A)
      → IsList l (xs ++ (p, v) ∷ ys)
      → (l' : LinkedList A) × (remove p l ≡ returns (p, l'))
        × IsList l' (xs ++ ys)
        × (l'.cells p ≡ some (iter v 0 0))
        × (l'.fresh ≡ l.fresh)
  remove-IsList l xs p v ys is =
      let (c, runs, holds, cleared) = remove_of l.cells l.fresh xs p v ys is.holds in
      (
        list_of c l.fresh (xs ++ ys),
        ap (remove p) (eq_list_of l _ is) ∙ runs,
        list_of-IsList c l.fresh _ holds,
        cleared,
        refl,
      )
