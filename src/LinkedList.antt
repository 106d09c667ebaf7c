-- ===== src/LinkedList.antt =====
-- The doubly linked list `List` of megatree_web/js/lru_cache.js over an explicit heap: `null` is
-- address 0, `new Object()` takes the next unused address, and a property of `null` throws.
pub mod Chain
pub mod Ends
pub mod Detach
pub mod Items
pub mod Move
pub mod Runs
use megatree.Base.{ℕ, ◌+◌, ◌≡◌, ◌&&◌, Option, none, some, arith, ◌==◌, if◌then◌else◌}
use megatree.Outcome.{Outcome, returns, throws, ◌>>=◌}

abbrev pub Ptr : Type 0
Ptr = ℕ

-- A node: what the source calls `iter`.
pub record Iter (A : Type 0) : Type 0 where
  pub item : A
  pub prev : Ptr
  pub next : Ptr

-- The list object, with the heap that its nodes live in.
pub record LinkedList (A : Type 0) : Type 0 where
  pub cells : Ptr → Option (Iter A)
  pub fresh : Ptr
  pub front : Ptr
  pub back : Ptr

module _ {A : Type 0} where
  abbrev pub iter : A → Ptr → Ptr → Iter A
  iter v p q = record { item = v; prev = p; next = q }

  abbrev pub write : (Ptr → Option (Iter A)) → Ptr → Iter A → Ptr → Option (Iter A)
  write c p n q = if q == p then some n else c q

  -- `new List()`
  abbrev pub empty : LinkedList A
  empty = record { cells = λ _. none; fresh = 1; front = 0; back = 0 }

  -- A read of a node, which throws at `null`.
  abbrev pub load : Ptr → LinkedList A → Outcome (Iter A)
  load p l = elim (l.cells p) [ none ↦ throws | some n ↦ returns n ]

  abbrev pub store : Ptr → Iter A → LinkedList A → LinkedList A
  store p n l = record l { cells = write l.cells p n }

  -- `p.prev = q` and `p.next = q`
  unfoldable pub set_prev : Ptr → Ptr → LinkedList A → Outcome (LinkedList A)
  set_prev p q l = load p l >>= λ n. returns (store p (record n { prev = q }) l)

  unfoldable pub set_next : Ptr → Ptr → LinkedList A → Outcome (LinkedList A)
  set_next p q l = load p l >>= λ n. returns (store p (record n { next = q }) l)

  pub load_lem :
      (l : LinkedList A) (p : Ptr) (n : Iter A) → l.cells p ≡ some n → load p l ≡ returns n
  load_lem l p n e = ground arith

  pub set_prev_lem :
      (l : LinkedList A) (p q : Ptr) (n : Iter A)
      → l.cells p ≡ some n
      → set_prev p q l ≡ returns (store p (record n { prev = q }) l)
  unfolding set_prev
  set_prev_lem l p q n e = ground arith

  pub set_next_lem :
      (l : LinkedList A) (p q : Ptr) (n : Iter A)
      → l.cells p ≡ some n
      → set_next p q l ≡ returns (store p (record n { next = q }) l)
  unfolding set_next
  set_next_lem l p q n e = ground arith

  unfoldable pub push_front : A → LinkedList A → Outcome (Ptr × LinkedList A)
  push_front item l = do
    let p = l.fresh
    let l' = record (store p (iter item 0 l.front) l) { fresh = p + 1 }
    l' ← if l'.front == 0 then returns l' else set_prev l'.front p l'
    let l' = record l' { front = p }
    returns (p, if l'.back == 0 then record l' { back = p } else l')

  unfoldable pub push_back : A → LinkedList A → Outcome (Ptr × LinkedList A)
  push_back item l = do
    let p = l.fresh
    let l' = record (store p (iter item l.back 0) l) { fresh = p + 1 }
    l' ← if l'.back == 0 then returns l' else set_next l'.back p l'
    let l' = record l' { back = p }
    returns (p, if l'.front == 0 then record l' { front = p } else l')

  -- `null` on an empty list.
  unfoldable pub pop_front : LinkedList A → Outcome (Option A × LinkedList A)
  pop_front l = if l.front == 0 then returns (none, l) else do
    n ← load l.front l
    l' ← if n.next == 0 then returns l else set_prev n.next 0 l
    let l' = if l'.front == l'.back then record l' { back = 0 } else l'
    returns (some n.item, record l' { front = n.next })

  unfoldable pub pop_back : LinkedList A → Outcome (Option A × LinkedList A)
  pop_back l = if l.back == 0 then returns (none, l) else do
    n ← load l.back l
    let l' = if l.front == l.back then record l { front = 0 } else l
    l' ← if n.prev == 0 then returns l' else set_next n.prev 0 l'
    returns (some n.item, record l' { back = n.prev })

  -- The four branches of `remove`, before the node's own pointers are cleared.
  unfoldable pub unlink : Ptr → LinkedList A → Outcome (LinkedList A)
  unlink p l =
      if p == l.front && p == l.back
      then returns (record l { front = 0; back = 0 })
      else if p == l.front
      then (load p l >>= λ n. set_prev n.next 0 (record l { front = n.next }))
      else if p == l.back
      then (load p l >>= λ n. set_next n.prev 0 (record l { back = n.prev }))
      else do n ← load p l; l' ← set_next n.prev n.next l; set_prev n.next n.prev l'

  unfoldable pub remove : Ptr → LinkedList A → Outcome (Ptr × LinkedList A)
  unfolding unlink
  remove p l = do l' ← unlink p l; n ← load p l'; returns (p, store p (iter n.item 0 0) l')

  unfoldable pub move_to_front : Ptr → LinkedList A → Outcome (LinkedList A)
  move_to_front p l = if p == l.front then returns l else do
    n ← load p l
    l' ← set_next n.prev n.next l
    l' ← if p == l'.back then returns (record l' { back = n.prev }) else set_prev n.next n.prev l'
    l' ← set_prev p 0 l'
    l' ← set_next p l'.front l'
    l' ← set_prev l'.front p l'
    returns (record l' { front = p })

  unfoldable pub clear : LinkedList A → LinkedList A
  clear l = record l { front = 0; back = 0 }
