-- ===== src/Examples/Caches.antt =====
-- The list and the cache of megatree_web/js/lru_cache.js at concrete inputs.
use megatree.Base.{ℕ, ◌≡◌, refl, some, none, List, [], ◌∷◌, ◌++◌, Option, arith, nat_eq}
use megatree.Outcome.{returns}
use megatree.LinkedList.{LinkedList, empty}
use megatree.LinkedList.Chain.{IsList}
use megatree.LinkedList.Runs
use megatree.LinkedList.Runs.{
  push_front_call, push_back_call, pop_front_call, pop_back_call, remove_call, move_to_front_call,
  node, item, nothing,
}
use megatree.LinkedList.Runs.Steps.{perform_all-plain}
use megatree.LruCache.{LruCache, new_cache}
use megatree.LruCache.Entries.{Represents}
use megatree.LruCache.Runs.{Call, put_call, get_call, perform_all, perform_all-answers}
use megatree.LruCache.Keeps.{perform_all-keeps}

-- The nodes 1, 2 and 3, of which 2 is moved to the front, 1 removed and the ends are popped.
abbrev list_calls : List (Runs.Call ℕ)
list_calls =
    push_back_call 5
    ∷ push_back_call 6
    ∷ push_front_call 7
    ∷ move_to_front_call 2
    ∷ remove_call 1
    ∷ pop_back_call
    ∷ []

perform_all-plain_example :
    (l : LinkedList ℕ) × (Runs.perform_all list_calls empty
      ≡ returns (node 1 ∷ node 2 ∷ node 3 ∷ nothing ∷ node 1 ∷ item (some 7) ∷ [], l))
    × IsList l ((2, 6) ∷ [])
perform_all-plain_example = perform_all-plain list_calls refl

-- Room for two: the entry of 1 goes, since 2 was used after it.
abbrev cache_calls : List (Call ℕ ℕ)
cache_calls =
    put_call 1 10 ∷ put_call 2 20 ∷ get_call 2 ∷ put_call 3 30 ∷ get_call 1 ∷ get_call 2 ∷ []

perform_all-answers_example :
    (c : LruCache ℕ ℕ) × (perform_all cache_calls (new_cache 2)
      ≡ returns (some 20 ∷ none ∷ some 20 ∷ [], c))
    × Represents c ((2, 20) ∷ (3, 30) ∷ [])
    × (c.max_size ≡ 2)
perform_all-answers_example = perform_all-answers 2 cache_calls

-- The entry of 1 stays while only 2 and 3 are asked for, each as often as may be.
abbrev between : List (Call ℕ ℕ)
between = put_call 2 21 ∷ get_call 3 ∷ get_call 2 ∷ put_call 3 30 ∷ put_call 2 22 ∷ []

perform_all-keeps_example :
    (os : List (Option ℕ)) × (c : LruCache ℕ ℕ) × (perform_all
        (cache_calls ++ (put_call 1 11 ∷ (between ++ get_call 1 ∷ [])))
        (new_cache 3)
      ≡ returns (os ++ some 11 ∷ [], c))
perform_all-keeps_example =
    perform_all-keeps 3 cache_calls 1 11 (2 ∷ 3 ∷ []) between (omega arith) refl
