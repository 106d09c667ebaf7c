-- ===== src/LruCache.antt =====
-- `LRUCache` of megatree_web/js/lru_cache.js. The object `lookup` is a function from ids to nodes of
-- the list; a missing id gives `none`. Ids are any type with an equality.
pub mod Index
pub mod Entries
pub mod Room
pub mod Refines
pub mod Runs
pub mod Keeps
use megatree.Base.{ℕ, zero, suc, ◌+◌, ◌-◌, Option, none, some, ltb, if◌then◌else◌, Eq}
use megatree.Outcome.{Outcome, returns, throws, ◌>>=◌}
use megatree.LinkedList.{
  Ptr, LinkedList, iter, empty, load, store, push_front, pop_back, move_to_front, clear,
}

-- `{"id": id, "item": item}`
pub record Node (K V : Type 0) : Type 0 where
  pub id : K
  pub item : V

pub record LruCache (K V : Type 0) : Type 0 where
  pub max_size : ℕ
  pub size : ℕ
  pub lookup : K → Option Ptr
  pub list : LinkedList (Node K V)

module _ {K V : Type 0} where
  abbrev pub node : K → V → Node K V
  node k v = record { id = k; item = v }

  -- `new LRUCache(max_size)`
  abbrev pub new_cache : ℕ → LruCache K V
  new_cache n = record { max_size = n; size = 0; lookup = λ _. none; list = empty }

  -- `existing.item.item = item`
  unfoldable pub set_item : Ptr → V → LinkedList (Node K V) → Outcome (LinkedList (Node K V))
  set_item p v l =
      load p l >>= λ n. returns (store p (iter (record n.item { item = v }) n.prev n.next) l)

  unfoldable pub clear_cache : LruCache K V → LruCache K V
  clear_cache c = record c { size = 0; lookup = λ _. none; list = clear c.list }

-- `lookup[id] = p` and `delete lookup[id]`
abbrev pub update : {K : Type 0} ⦃e : Eq K⦄ → (K → Option Ptr) → K → Option Ptr → K → Option Ptr
update ⦃e⦄ f k o j = if e.beq k j then o else f j

module _ {K V : Type 0} ⦃e : Eq K⦄ where
  -- One round of the loop of `_enforceOverflow`. `removed.id` throws where the list is empty.
  unfoldable pub evict : LruCache K V → Outcome (LruCache K V)
  evict c = do
    (removed, list') ← pop_back c.list
    elim removed [
      | none ↦ throws
      | some n ↦
          returns (record c { list = list'; lookup = update c.lookup n.id none; size = c.size - 1 })
    ]

  -- `_enforceOverflow`, on fuel; it throws where the fuel runs out.
  unfoldable pub enforce_overflow : ℕ → LruCache K V → Outcome (LruCache K V)
  enforce_overflow zero c = throws
  enforce_overflow (suc fuel) c =
      let rest = evict c >>= enforce_overflow fuel in
      if ltb c.max_size c.size then rest else returns c

  unfoldable pub put : K → V → LruCache K V → Outcome (LruCache K V)
  put id item c = elim (c.lookup id) [
    | some existing ↦ do
      l ← set_item existing item c.list
      l' ← move_to_front existing l
      returns (record c { list = l' })
    | none ↦ do
      (p, l) ← push_front (node id item) c.list
      let c' = record c { list = l; size = c.size + 1; lookup = update c.lookup id (some p) }
      enforce_overflow (c'.size + 1) c'
  ]

  -- The item, or `null`.
  unfoldable pub get : K → LruCache K V → Outcome (Option V × LruCache K V)
  get id c = elim (c.lookup id) [
    | some existing ↦ do
      l ← move_to_front existing c.list
      n ← load existing l
      returns (some n.item.item, record c { list = l })
    | none ↦ returns (none, c)
  ]
