-- ===== src/LinkedList/Runs.antt =====
-- Programs of calls of `List` of megatree_web/js/lru_cache.js, from `new List()` on, and the plain list
-- that they stand for.
pub mod Steps
use megatree.Base.{
  ℕ, suc, ◌+◌, ◌≡◌, refl, sym, ap, subst, ◌∙◌, Bool, true, false, Option, none, some, inl, inr,
  Bool-cases, List, [], ◌∷◌, ◌++◌, arith, ◌==◌, ◌&&◌, if◌then◌else◌,
}
use megatree.Outcome.{Outcome, returns, ◌>>=◌}
use megatree.LinkedList.{
  Ptr, LinkedList, empty, push_front, push_back, pop_front, pop_back, remove, move_to_front, clear,
}
use megatree.LinkedList.Chain.{Cells, has, IsList}

pub data Call (A : Type 0) : Type 0 where
  push_front_call : A → Call A
  push_back_call : A → Call A
  pop_front_call : Call A
  pop_back_call : Call A
  remove_call : Ptr → Call A
  move_to_front_call : Ptr → Call A
  clear_call : Call A

-- What a call returns: the node, the item or `null`, or nothing.
pub data Answer (A : Type 0) : Type 0 where
  node : Ptr → Answer A
  item : Option A → Answer A
  nothing : Answer A

-- The items with the addresses of their nodes, and the next address.
pub record Plain (A : Type 0) : Type 0 where
  pub items : Cells A
  pub next : Ptr

module _ {A : Type 0} where
  unfoldable pub perform : Call A → LinkedList A → Outcome (Answer A × LinkedList A)
  perform (push_front_call v) l = do (p, l') ← push_front v l; returns (node p, l')
  perform (push_back_call v) l = do (p, l') ← push_back v l; returns (node p, l')
  perform pop_front_call l = do (o, l') ← pop_front l; returns (item o, l')
  perform pop_back_call l = do (o, l') ← pop_back l; returns (item o, l')
  perform (remove_call p) l = do (q, l') ← remove p l; returns (node q, l')
  perform (move_to_front_call p) l = do l' ← move_to_front p l; returns (nothing, l')
  perform clear_call l = returns (nothing, clear l)

  unfoldable pub perform_all :
      List (Call A) → LinkedList A → Outcome (List (Answer A) × LinkedList A)
  perform_all [] l = returns ([], l)
  perform_all (call ∷ calls) l = do
    (o, l') ← perform call l
    (os, l'') ← perform_all calls l'
    returns (o ∷ os, l'')

  abbrev pub without : Ptr → Cells A → Cells A
  without p [] = []
  without p ((q, v) ∷ xs) = if q == p then xs else (q, v) ∷ without p xs

  abbrev pub item_of : Ptr → Cells A → Option A
  item_of p [] = none
  item_of p ((q, v) ∷ xs) = if q == p then some v else item_of p xs

  abbrev pub tail : Cells A → Cells A
  tail [] = []
  tail (x ∷ xs) = xs

  abbrev pub head : Cells A → Option A
  head [] = none
  head ((p, v) ∷ xs) = some v

  abbrev pub init : Cells A → Cells A
  init [] = []
  init (x ∷ []) = []
  init (x ∷ y ∷ xs) = x ∷ init (y ∷ xs)

  abbrev pub last_item : Cells A → Option A
  last_item [] = none
  last_item ((p, v) ∷ []) = some v
  last_item (x ∷ y ∷ xs) = last_item (y ∷ xs)

  -- A node that was moved is the first.
  abbrev pub to_front : Ptr → Cells A → Cells A
  to_front p xs = elim (item_of p xs) [ none ↦ xs | some v ↦ (p, v) ∷ without p xs ]

  -- The call on a plain list.
  abbrev pub step : Call A → Plain A → Answer A × Plain A
  step (push_front_call v) s =
      (node s.next, record { items = (s.next, v) ∷ s.items; next = s.next + 1 })
  step (push_back_call v) s =
      (node s.next, record { items = s.items ++ (s.next, v) ∷ []; next = s.next + 1 })
  step pop_front_call s = (item (head s.items), record s { items = tail s.items })
  step pop_back_call s = (item (last_item s.items), record s { items = init s.items })
  step (remove_call p) s = (node p, record s { items = without p s.items })
  step (move_to_front_call p) s = (nothing, record s { items = to_front p s.items })
  step clear_call s = (nothing, record s { items = [] })

  -- `remove` and `move_to_front` are called with a node of the list.
  abbrev pub is_proper : Call A → Plain A → Bool
  is_proper (remove_call p) s = has p s.items
  is_proper (move_to_front_call p) s = has p s.items
  is_proper _ s = true

  abbrev pub all_proper : List (Call A) → Plain A → Bool
  all_proper [] s = true
  all_proper (call ∷ calls) s = is_proper call s && all_proper calls (step call s).1

  abbrev pub answers : List (Call A) → Plain A → List (Answer A)
  answers [] s = []
  answers (call ∷ calls) s = (step call s).0 ∷ answers calls (step call s).1

  abbrev pub plain_after : List (Call A) → Plain A → Plain A
  plain_after [] s = s
  plain_after (call ∷ calls) s = plain_after calls (step call s).1

  pub record Represents (l : LinkedList A) (s : Plain A) : Type 0 where
    pub list : IsList l s.items
    pub fresh : l.fresh ≡ s.next

  abbrev pub no_items : Plain A
  no_items = record { items = []; next = 1 }
