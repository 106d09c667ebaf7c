-- ===== src/LruCache/Runs.antt =====
-- Programs of calls of the cache of megatree_web/js/lru_cache.js, from `new LRUCache(max_size)` on.
use megatree.Base.{ℕ, ◌≡◌, refl, subst, ◌∙◌, Option, List, [], ◌∷◌, ◌++◌, Eq}
use megatree.Outcome.{Outcome, returns, ◌>>=◌}
use megatree.LruCache.{LruCache, new_cache, put, get, clear_cache}
use megatree.LruCache.Index.{find}
use megatree.LruCache.Entries.{Represents, after_get}
use megatree.LruCache.Room.{after_put}
use megatree.LruCache.Refines.{
  put-Represents, get-Represents, clear_cache-Represents, new_cache-Represents,
}

-- A call of the cache.
pub data Call (K V : Type 0) : Type 0 where
  put_call : K → V → Call K V
  get_call : K → Call K V
  clear_call : Call K V

module _ {K V : Type 0} ⦃e : Eq K⦄ where
  -- A call, with what a `get` returned.
  unfoldable pub perform : Call K V → LruCache K V → Outcome (List (Option V) × LruCache K V)
  perform (put_call k v) c = do c' ← put k v c; returns ([], c')
  perform (get_call k) c = do (o, c') ← get k c; returns (o ∷ [], c')
  perform clear_call c = returns ([], clear_cache c)

  unfoldable pub perform_all :
      List (Call K V) → LruCache K V → Outcome (List (Option V) × LruCache K V)
  perform_all [] c = returns ([], c)
  perform_all (call ∷ calls) c = do
    (os, c') ← perform call c
    (more, c'') ← perform_all calls c'
    returns (os ++ more, c'')

  -- The entries after calls, most recently used first, of a cache with room for `m`.
  abbrev pub step_entries : (m : ℕ) → Call K V → List (K × V) → List (K × V)
  step_entries m (put_call k v) xs = after_put m k v xs
  step_entries m (get_call k) xs = after_get k xs
  step_entries m clear_call xs = []

  abbrev pub entries_after : (m : ℕ) → List (Call K V) → List (K × V) → List (K × V)
  entries_after m [] xs = xs
  entries_after m (call ∷ calls) xs = entries_after m calls (step_entries m call xs)

  -- What the entries say that a call returns.
  abbrev pub answer : Call K V → List (K × V) → List (Option V)
  answer (put_call k v) xs = []
  answer (get_call k) xs = find k xs ∷ []
  answer clear_call xs = []

  abbrev pub answers : (m : ℕ) → List (Call K V) → List (K × V) → List (Option V)
  answers m [] xs = []
  answers m (call ∷ calls) xs = answer call xs ++ answers m calls (step_entries m call xs)

  -- A cache with room for `m` that stands for the entries.
  pub record Holds (m : ℕ) (c : LruCache K V) (xs : List (K × V)) : Type 0 where
    pub represents : Represents c xs
    pub room : c.max_size ≡ m

  perform-Holds :
      (m : ℕ) (call : Call K V) (c : LruCache K V) (xs : List (K × V))
      → Holds m c xs
      → (c' : LruCache K V) × (perform call c ≡ returns (answer call xs, c'))
        × Holds m c' (step_entries m call xs)
  unfolding perform clear_cache
  perform-Holds m (put_call k v) c xs h =
      let (c', runs, after, same) = put-Represents c k v xs h.represents in
      (
        c',
        rw runs,
        record {
          represents = subst (λ n. Represents c' (after_put n k v xs)) h.room after;
          room = same ∙ h.room;
        },
      )
  perform-Holds m (get_call k) c xs h =
      let (c', runs, after, same) = get-Represents c k xs h.represents in
      (c', rw runs, record { represents = after; room = same ∙ h.room })
  perform-Holds m clear_call c xs h = (
    clear_cache c,
    refl,
    record { represents = clear_cache-Represents c xs h.represents; room = h.room },
  )

  pub perform_all-Holds :
      (m : ℕ) (calls : List (Call K V)) (c : LruCache K V) (xs : List (K × V))
      → Holds m c xs
      → (c' : LruCache K V) × (perform_all calls c ≡ returns (answers m calls xs, c'))
        × Holds m c' (entries_after m calls xs)
  unfolding perform_all
  perform_all-Holds m [] c xs h = (c, refl, h)
  perform_all-Holds m (call ∷ calls) c xs h =
      let (c', runs, now) = perform-Holds m call c xs h in
      let (c'', rest, after) = perform_all-Holds m calls c' (step_entries m call xs) now in
      (c'', rw (runs, rest), after)

  pub new_cache-Holds : (m : ℕ) → Holds m (new_cache {K = K} {V = V} m) []
  new_cache-Holds m = record { represents = new_cache-Represents m; room = refl }

  -- From `new LRUCache(m)` on, whatever calls of `put`, `get` and `clear` follow, none throws, each
  -- `get` returns what a plain list of entries has for its id, and the cache stands for that list,
  -- most recently used first: `put` puts the entry in front, less its old one or, where there is no
  -- room for m, the last one, and `get` moves a hit to the front.
  pub perform_all-answers :
      (m : ℕ) (calls : List (Call K V))
      → (c : LruCache K V) × (perform_all calls (new_cache m) ≡ returns (answers m calls [], c))
        × Represents c (entries_after m calls [])
        × (c.max_size ≡ m)
  perform_all-answers m calls =
      let (c, runs, after) = perform_all-Holds m calls (new_cache m) [] (new_cache-Holds m) in
      (c, runs, after.represents, after.room)
