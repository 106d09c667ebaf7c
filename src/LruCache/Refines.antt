-- ===== src/LruCache/Refines.antt =====
-- The cache of megatree_web/js/lru_cache.js refines a list of entries, most recently used first.
use megatree.Base.{
  ℕ, ◌≡◌, refl, sym, ap, subst, ◌∙◌, none, List, [], ◌∷◌, ◌++◌, arith, inl, inr, Option-cases, Eq,
  take,
}
use megatree.Outcome.{returns}
use megatree.LinkedList.{clear}
use megatree.LruCache.{LruCache, node, new_cache, put, get, clear_cache}
use megatree.LruCache.Index.{view, find, erase, address-split, view-split, view-miss}
use megatree.LruCache.Entries.{
  IsCache, Represents, after_get, after_get-hit, moved_bounded, get_hit, put_hit,
}
use megatree.LruCache.Room.{after_put, after_put-hit, after_put-miss, put_miss}

module _ {K V : Type 0} ⦃e : Eq K⦄ where
  -- On a cache that stands for a list of entries `get` throws nothing, returns the item of the id or
  -- none, and leaves a cache that stands for the entries with a hit moved to the front.
  pub get-Represents :
      (c : LruCache K V) (k : K) (xs : List (K × V))
      → Represents c xs
      → (c' : LruCache K V) × (get k c ≡ returns (find k xs, c'))
        × Represents c' (after_get k xs)
        × (c'.max_size ≡ c.max_size)
  unfolding get
  get-Represents c k xs r = elim (Option-cases (c.lookup k)) [
    | inl miss ↦
        let (absent, _) = view-miss k r.nodes (sym (r.cache.index k) ∙ miss) in
        let none_found : find k xs ≡ none = rw (← r.entries) absent in
        (c, rw (miss, get, none_found), rw (none_found, after_get) r, refl)
    | inr (p, hit) ↦
        let (before, after, v, split, out) =
          address-split k p r.nodes (sym (r.cache.index k) ∙ hit) in
        let (l, runs, is) =
          get_hit c before p k v after (subst (IsCache c) split r.cache) out hit in
        let (found, erased) = view-split k before after p v out in
        let entries : xs ≡ view (before ++ (p, node k v) ∷ after) = sym r.entries ∙ ap view split in
        (
          record c { list = l },
          runs ∙ ap (λ o. returns (o, record c { list = l })) (sym (ap (find k) entries ∙ found)),
          record {
            nodes = (p, node k v) ∷ before ++ after;
            cache = is;
            entries = sym (
                after_get-hit k v xs (ap (find k) entries ∙ found)
                ∙ ap (λ zs. (k, v) ∷ zs) (ap (erase k) entries ∙ erased));
            bounded = moved_bounded k before p v v after r.nodes c.max_size split r.bounded;
          },
          refl,
        )
  ]

  -- On a cache that stands for a list of entries, most recently used first, `put` throws nothing and
  -- leaves a cache of the same size limit that stands for the entry in front of the others, less its
  -- old entry and the least recently used one where there is no room.
  pub put-Represents :
      (c : LruCache K V) (k : K) (v : V) (xs : List (K × V))
      → Represents c xs
      → (c' : LruCache K V) × (put k v c ≡ returns c')
        × Represents c' (after_put c.max_size k v xs)
        × (c'.max_size ≡ c.max_size)
  put-Represents c k v xs r = elim (Option-cases (c.lookup k)) [
    | inl miss ↦
        let (absent, _) = view-miss k r.nodes (sym (r.cache.index k) ∙ miss) in
        let (c', runs, after, same) = put_miss c k v r.nodes r.cache r.bounded miss in
        (
          c',
          runs,
          subst (Represents c')
              (ap (λ zs. take c.max_size ((k, v) ∷ zs)) r.entries
                ∙ sym (after_put-miss c.max_size k v xs (ap (find k) (sym r.entries) ∙ absent)))
              after,
          same,
        )
    | inr (p, hit) ↦
        let (before, behind, w, split, out) =
          address-split k p r.nodes (sym (r.cache.index k) ∙ hit) in
        let (l, runs, is) =
          put_hit c before p k w v behind (subst (IsCache c) split r.cache) out hit in
        let (found, erased) = view-split k before behind p w out in
        let entries : xs ≡ view (before ++ (p, node k w) ∷ behind) =
          sym r.entries ∙ ap view split in
        (
          record c { list = l },
          runs,
          record {
            nodes = (p, node k v) ∷ before ++ behind;
            cache = is;
            entries = sym (
                after_put-hit c.max_size k v w xs (ap (find k) entries ∙ found)
                ∙ ap (λ zs. (k, v) ∷ zs) (ap (erase k) entries ∙ erased));
            bounded = moved_bounded k before p w v behind r.nodes c.max_size split r.bounded;
          },
          refl,
        )
  ]

  -- A new cache of any size holds no entry.
  pub new_cache-Represents : (n : ℕ) → Represents (new_cache {K = K} {V = V} n) []
  new_cache-Represents n = record {
    nodes = [];
    cache = record {
      list = record {
        front = refl;
        back = refl;
        holds = record { chain = tt; below = tt; fresh = omega arith };
      };
      size = refl;
      index = λ k. refl;
      distinct = tt;
    };
    entries = refl;
    bounded = omega arith;
  }

  -- After `clear` a cache that stood for any entries stands for none.
  pub clear_cache-Represents :
      (c : LruCache K V) (xs : List (K × V)) → Represents c xs → Represents (clear_cache c) []
  unfolding clear_cache clear
  clear_cache-Represents c xs r = record {
    nodes = [];
    cache = record {
      list = record {
        front = refl;
        back = refl;
        holds = record { chain = tt; below = tt; fresh = r.cache.list.holds.fresh };
      };
      size = refl;
      index = λ k. refl;
      distinct = tt;
    };
    entries = refl;
    bounded = omega arith;
  }
