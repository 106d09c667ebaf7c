-- ===== src/LruCache/Room.antt =====
-- The loop of `_enforceOverflow`, and a `put` of a new id (megatree_web/js/lru_cache.js).
use megatree.Base.{
  ℕ, zero, suc, ◌+◌, ◌-◌, ◌≤◌, ◌<◌, ◌≡◌, refl, sym, ap, subst, ◌∙◌, true, none, some, List, [], ◌∷◌,
  ◌++◌, arith, inl, inr, if◌then◌else◌, Bool-cases, Eq, length, length-append, take,
  take_of_length-le, take-append, unsnoc, ltb, lt→ltb,
}
use mathlib.Core.List.{append-nil}
use native.Mathlib.Decide.{dec_le}
use megatree.Outcome.{returns}
use megatree.LinkedList.{Ptr, LinkedList}
use megatree.LinkedList.Chain.{IsList}
use megatree.LinkedList.Ends.{push_front-IsList, pop_back-IsList}
use megatree.LruCache.{Node, LruCache, node, update, evict, enforce_overflow, put}
use megatree.LruCache.Index.{
  Nodes, view, view-append, length-view, find, erase, Distinct-erase, address-move,
}
use megatree.LruCache.Entries.{IsCache, Represents}

module _ {K V : Type 0} ⦃e : Eq K⦄ where
  -- The entries after a `put`: a known id moves to the front with the new item, and of more entries
  -- than the size allows the least recently used is dropped.
  abbrev pub after_put : ℕ → K → V → List (K × V) → List (K × V)
  after_put m k v xs = elim (find k xs) [
    | none ↦ take m ((k, v) ∷ xs)
    | some _ ↦ (k, v) ∷ erase k xs
  ]

  pub after_put-hit :
      (m : ℕ) (k : K) (v w : V) (xs : List (K × V))
      → find k xs ≡ some w
      → after_put m k v xs ≡ (k, v) ∷ erase k xs
  after_put-hit m k v w xs h = rw (h, after_put)

  pub after_put-miss :
      (m : ℕ) (k : K) (v : V) (xs : List (K × V))
      → find k xs ≡ none
      → after_put m k v xs ≡ take m ((k, v) ∷ xs)
  after_put-miss m k v xs h = rw (h, after_put)

  evict_lem :
      (c : LruCache K V) (xs : Nodes K V) (p : Ptr) (n : Node K V)
      → IsCache c (xs ++ (p, n) ∷ [])
      → (c' : LruCache K V) × (evict c ≡ returns c') × IsCache c' xs × (c'.max_size ≡ c.max_size)
  unfolding evict
  evict_lem c xs p n is =
      let (l, pops, popped, _) = pop_back-IsList c.list xs p n is.list in
      let (out, _, rest) = Distinct-erase xs p n [] is.distinct in
      (
        record c { list = l; lookup = update c.lookup n.id none; size = c.size - 1 },
        rw pops,
        record {
          list = popped;
          size = omega (arith, length-append xs ((p, n) ∷ []), is.size);
          index = λ j. elim (Bool-cases (e.beq n.id j)) [
            | inl same ↦ rw same (rw (← (e.beq_iff n.id j).0 same) (sym out))
            | inr other ↦
                rw other
                  (is.index j ∙ address-move j n.id xs p n.item [] out ∙ rw (other, append-nil))
          ];
          distinct = rw append-nil at rest;
        },
        refl,
      )

  enforce_fits :
      (f : ℕ) (c : LruCache K V) → 0 < f → c.size ≤ c.max_size → enforce_overflow f c ≡ returns c
  unfolding enforce_overflow
  enforce_fits zero c lt h = absurd (omega arith)
  enforce_fits (suc f) c lt h = ground arith

  enforce_over :
      (f : ℕ) (c : LruCache K V) (xs : Nodes K V) (p : Ptr) (n : Node K V)
      → IsCache c (xs ++ (p, n) ∷ [])
      → length xs ≡ c.max_size
      → 1 < f
      → (c' : LruCache K V) × (enforce_overflow f c ≡ returns c')
        × IsCache c' xs
        × (c'.max_size ≡ c.max_size)
  enforce_over zero c xs p n is full lt = absurd (omega arith)
  enforce_over (suc f) c xs p n is full lt =
      let (c', evicts, is', same) = evict_lem c xs p n is in
      let over : ltb c.max_size c.size ≡ true =
        lt→ltb _ _ (omega (arith, length-append xs ((p, n) ∷ []), is.size)) in
      (
        c',
        unfold enforce_overflow in
            rw (over, evicts) (enforce_fits f c' (omega arith) (omega (arith, is'.size))),
        is',
        same,
      )

  -- The cache with one more node in front, before `_enforceOverflow`.
  pushed-IsCache :
      (c : LruCache K V) (l : LinkedList (Node K V)) (p : Ptr) (k : K) (v : V) (ns : Nodes K V)
      → IsCache c ns
      → c.lookup k ≡ none
      → IsList l ((p, node k v) ∷ ns)
      → IsCache
          (record c { list = l; size = c.size + 1; lookup = update c.lookup k (some p) })
          ((p, node k v) ∷ ns)
  pushed-IsCache c l p k v ns is miss pushed = record {
    list = pushed;
    size = omega (arith, is.size);
    index = λ j. ap (λ o. if e.beq k j then some p else o) (is.index j);
    distinct = (sym (is.index k) ∙ miss, is.distinct);
  }

  -- A new id: the new node goes in front, and the last one goes where the cache was full.
  pub put_miss :
      (c : LruCache K V) (k : K) (v : V) (ns : Nodes K V)
      → IsCache c ns
      → length ns ≤ c.max_size
      → c.lookup k ≡ none
      → (c' : LruCache K V) × (put k v c ≡ returns c')
        × Represents c' (take c.max_size ((k, v) ∷ view ns))
        × (c'.max_size ≡ c.max_size)
  unfolding put
  put_miss c k v ns is fits miss =
      let (l, pushes, pushed, _) = push_front-IsList c.list ns (node k v) is.list in
      let p = c.list.fresh in
      let c1 : LruCache K V = record c {
        list = l;
        size = c.size + 1;
        lookup = update c.lookup k (some p);
      } in
      let is1 = pushed-IsCache c l p k v ns is miss pushed in
      let len = length-view ns in
      elim (dec_le (c.size + 1) c.max_size) [
        | yes room ↦ (
          c1,
          rw (miss, put) (rw pushes (enforce_fits (c.size + 1 + 1) c1 (omega arith) room)),
          record {
            nodes = (p, node k v) ∷ ns;
            cache = is1;
            entries =
                sym (take_of_length-le c.max_size ((k, v) ∷ view ns) (omega (arith, is.size)));
            bounded = omega (arith, is.size);
          },
          refl,
        )
        | no full ↦
            let (zs, (q, n), split) = unsnoc (p, node k v) ns in
            let size = ap length split ∙ length-append zs ((q, n) ∷ []) in
            let exact : length zs ≡ c.max_size = omega (arith, is.size) in
            let (c', runs, is', same) =
              enforce_over (c.size + 1 + 1) c1 zs q n (subst (IsCache c1) split is1) exact
                (omega arith) in
            let seen : (k, v) ∷ view ns ≡ view zs ++ (n.id, n.item) ∷ [] =
              ap view split ∙ view-append zs ((q, n) ∷ []) in
            (
              c',
              rw (miss, put) (rw pushes runs),
              record {
                nodes = zs;
                cache = is';
                entries =
                    rw seen (sym (take-append c.max_size (view zs) _ (length-view zs ∙ exact)));
                bounded = omega (arith, same, exact);
              },
              same,
            )
      ]
