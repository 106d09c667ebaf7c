-- ===== src/LinkedList/Items.antt =====
-- A write of a node's item leaves the shape of the list (`existing.item.item = item` in
-- megatree_web/js/lru_cache.js).
use megatree.Base.{ℕ, ◌≡◌, sym, ◌∙◌, some, [], ◌∷◌, ◌++◌, arith}
use megatree.LinkedList.{Ptr, LinkedList, iter, store}
use megatree.LinkedList.Chain.{
  Cells, first, last, has_self, Below, IsList, Disjoint, Disjoint-left, Chain-Disjoint, Chain-split,
  Chain-append, frame, first-append, last-append,
}

module _ {A : Type 0} where
  Disjoint-item :
      (xs : Cells A) (p : Ptr) (v w : A) (ys : Cells A)
      → Disjoint xs ((p, v) ∷ ys)
      → Disjoint xs ((p, w) ∷ ys)
  Disjoint-item [] p v w ys h = tt
  Disjoint-item ((q, u) ∷ xs) p v w ys h = (h.0, Disjoint-item xs p v w ys h.1)

  Below-item :
      (n : ℕ) (xs : Cells A) (p : Ptr) (v w : A) (ys : Cells A)
      → Below n (xs ++ (p, v) ∷ ys)
      → Below n (xs ++ (p, w) ∷ ys)
  Below-item n [] p v w ys h = h
  Below-item n ((q, u) ∷ xs) p v w ys h = (h.0, Below-item n xs p v w ys h.1)

  pub item_at :
      (l : LinkedList A) (xs : Cells A) (p : Ptr) (v : A) (ys : Cells A)
      → IsList l (xs ++ (p, v) ∷ ys)
      → l.cells p ≡ some (iter v (last xs 0) (first ys 0))
  item_at l xs p v ys is = (Chain-split l.cells 0 xs ((p, v) ∷ ys) 0 is.holds.chain).1.0

  pub store_item-IsList :
      (l : LinkedList A) (xs : Cells A) (p : Ptr) (v w : A) (ys : Cells A)
      → IsList l (xs ++ (p, v) ∷ ys)
      → IsList (store p (iter w (last xs 0) (first ys 0)) l) (xs ++ (p, w) ∷ ys)
  store_item-IsList l xs p v w ys is =
      let (before, node) = Chain-split l.cells 0 xs ((p, v) ∷ ys) 0 is.holds.chain in
      let apart = Chain-Disjoint l.cells 0 xs ((p, v) ∷ ys) 0 is.holds.chain in
      let out = Disjoint-left p xs ((p, v) ∷ ys) apart (has_self p v ys) in
      record {
        front = is.front ∙ first-append xs ((p, v) ∷ ys) 0 ∙ sym (first-append xs ((p, w) ∷ ys) 0);
        back = is.back ∙ last-append xs ((p, v) ∷ ys) 0 ∙ sym (last-append xs ((p, w) ∷ ys) 0);
        holds = record {
          chain =
              Chain-append _ 0 xs ((p, w) ∷ ys) 0 (Disjoint-item xs p v w ys apart)
                (frame l.cells p _ 0 xs p out before)
                (ground arith, node.1, node.2, frame l.cells p _ p ys 0 node.2 node.3);
          below = Below-item l.fresh xs p v w ys is.holds.below;
          fresh = is.holds.fresh;
        };
      }
