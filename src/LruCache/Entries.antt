-- ===== src/LruCache/Entries.antt =====
-- The entries that a cache stands for, and a hit (megatree_web/js/lru_cache.js).
use megatree.Base.{
  ℕ, ◌≤◌, ◌≡◌, ap, ◌∙◌, none, some, List, [], ◌∷◌, ◌++◌, arith, Eq, length, length-append,
}
use megatree.Outcome.{returns}
use megatree.LinkedList.{Ptr, LinkedList, load_lem}
use megatree.LinkedList.Chain.{IsList}
use megatree.LinkedList.Move.{move_to_front-IsList}
use megatree.LinkedList.Items.{item_at, store_item-IsList}
use megatree.LruCache.{Node, LruCache, node, set_item, put, get}
use megatree.LruCache.Index.{
  Nodes, view, address, Distinct, find, erase, Distinct-erase, address-append, address-move,
}

module _ {K V : Type 0} ⦃e : Eq K⦄ where
  -- The cache's list holds the nodes `ns`, one for each id, and `lookup` finds each of them.
  pub record IsCache (c : LruCache K V) (ns : Nodes K V) : Type 0 where
    pub list : IsList c.list ns
    pub size : c.size ≡ length ns
    pub index : (k : K) → c.lookup k ≡ address k ns
    pub distinct : Distinct ns

  -- The cache stands for the entries `xs`, most recently used first, and is not over its size.
  pub record Represents (c : LruCache K V) (xs : List (K × V)) : Type 0 where
    pub nodes : Nodes K V
    pub cache : IsCache c nodes
    pub entries : view nodes ≡ xs
    pub bounded : length nodes ≤ c.max_size

  -- The entries after a `get`: a hit moves to the front.
  abbrev pub after_get : K → List (K × V) → List (K × V)
  after_get k xs = elim (find k xs) [ none ↦ xs | some v ↦ (k, v) ∷ erase k xs ]

  pub after_get-hit :
      (k : K) (v : V) (xs : List (K × V))
      → find k xs ≡ some v
      → after_get k xs ≡ (k, v) ∷ erase k xs
  after_get-hit k v xs h = rw (h, after_get)

  set_item_lem :
      (l : LinkedList (Node K V)) (xs : Nodes K V) (p : Ptr) (k : K) (v w : V) (ys : Nodes K V)
      → IsList l (xs ++ (p, node k v) ∷ ys)
      → (l' : LinkedList (Node K V)) × (set_item p w l ≡ returns l')
        × IsList l' (xs ++ (p, node k w) ∷ ys)
  unfolding set_item
  set_item_lem l xs p k v w ys is = (
    _,
    rw (load_lem l p _ (item_at l xs p (node k v) ys is)),
    store_item-IsList l xs p (node k v) (node k w) ys is,
  )

  length-middle :
      (xs : Nodes K V) (p : Ptr) (n m : Node K V) (ys : Nodes K V)
      → length (xs ++ (p, n) ∷ ys) ≡ length ((p, m) ∷ xs ++ ys)
  length-middle xs p n m ys = omega (arith, length-append xs ((p, n) ∷ ys), length-append xs ys)

  pub moved_bounded :
      (k : K) (xs : Nodes K V) (p : Ptr) (v w : V) (ys ns : Nodes K V) (m : ℕ)
      → ns ≡ xs ++ (p, node k v) ∷ ys
      → length ns ≤ m
      → length ((p, node k w) ∷ xs ++ ys) ≤ m
  moved_bounded k xs p v w ys ns m split h =
      omega (arith, length-middle xs p (node k v) (node k w) ys, ap length split)

  -- A node moved to the front, with any item.
  moved-IsCache :
      (c : LruCache K V) (l : LinkedList (Node K V)) (xs : Nodes K V) (p : Ptr) (k : K) (v w : V)
      (ys : Nodes K V)
      → IsCache c (xs ++ (p, node k v) ∷ ys)
      → address k xs ≡ none
      → IsList l ((p, node k w) ∷ xs ++ ys)
      → IsCache (record c { list = l }) ((p, node k w) ∷ xs ++ ys)
  moved-IsCache c l xs p k v w ys is out moved =
      let (away, away', rest) = Distinct-erase xs p (node k v) ys is.distinct in
      record {
        list = moved;
        size = is.size ∙ length-middle xs p (node k v) (node k w) ys;
        index = λ j. is.index j ∙ address-move j k xs p v ys out;
        distinct = (address-append k xs ys away ∙ away', rest);
      }

  pub get_hit :
      (c : LruCache K V) (xs : Nodes K V) (p : Ptr) (k : K) (v : V) (ys : Nodes K V)
      → IsCache c (xs ++ (p, node k v) ∷ ys)
      → address k xs ≡ none
      → c.lookup k ≡ some p
      → (l : LinkedList (Node K V)) × (get k c ≡ returns (some v, record c { list = l }))
        × IsCache (record c { list = l }) ((p, node k v) ∷ xs ++ ys)
  unfolding get
  get_hit c xs p k v ys is out hit =
      let (l, moves, moved, _) = move_to_front-IsList c.list xs p (node k v) ys is.list in
      (
        l,
        rw (hit, get) (rw (moves, load_lem l p _ (item_at l [] p (node k v) (xs ++ ys) moved))),
        moved-IsCache c l xs p k v v ys is out moved,
      )

  pub put_hit :
      (c : LruCache K V) (xs : Nodes K V) (p : Ptr) (k : K) (v w : V) (ys : Nodes K V)
      → IsCache c (xs ++ (p, node k v) ∷ ys)
      → address k xs ≡ none
      → c.lookup k ≡ some p
      → (l : LinkedList (Node K V)) × (put k w c ≡ returns (record c { list = l }))
        × IsCache (record c { list = l }) ((p, node k w) ∷ xs ++ ys)
  unfolding put
  put_hit c xs p k v w ys is out hit =
      let (l0, sets, is0) = set_item_lem c.list xs p k v w ys is.list in
      let (l, moves, moved, _) = move_to_front-IsList l0 xs p (node k w) ys is0 in
      (l, rw (hit, put) (rw (sets, moves)), moved-IsCache c l xs p k v w ys is out moved)
