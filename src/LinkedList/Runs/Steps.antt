-- ===== src/LinkedList/Runs/Steps.antt =====
-- The calls of `List` of megatree_web/js/lru_cache.js do what they do on a plain list.
use megatree.Base.{
  ◌+◌, ◌≡◌, refl, sym, ap, subst, ◌∙◌, true, none, some, inl, inr, Bool-cases, List, [], ◌∷◌, ◌++◌,
  arith, ◌==◌,
}
use megatree.Outcome.{returns}
use megatree.LinkedList.{Ptr, LinkedList, empty, pop_front, pop_back, remove, move_to_front, clear}
use megatree.LinkedList.Chain.{Cells, has, IsList}
use megatree.LinkedList.Ends.{
  push_front-IsList, push_back-IsList, pop_front-IsList, pop_back-IsList,
}
use megatree.LinkedList.Move.{move_to_front-IsList, remove-IsList}
use megatree.LinkedList.Runs.{
  Call, push_front_call, push_back_call, pop_front_call, pop_back_call, remove_call,
  move_to_front_call, clear_call, Plain, Represents, perform, perform_all, step, is_proper,
  all_proper, answers, plain_after, no_items, without, item_of, head, tail, init, last_item,
  to_front,
}

module _ {A : Type 0} where
  -- Where a node stands.
  split_at :
      (p : Ptr) (xs : Cells A)
      → has p xs ≡ true
      → (before : Cells A) × (v : A) × (after : Cells A) × (xs ≡ before ++ (p, v) ∷ after)
        × (without p xs ≡ before ++ after)
        × (item_of p xs ≡ some v)
  split_at p [] h = cc
  split_at p ((q, w) ∷ xs) h = elim (Bool-cases (q == p)) [
    | inl same ↦ ([], w, xs, ground arith, ground arith, ground arith)
    | inr other ↦
        let (before, v, after, split, left, value) = split_at p xs (ground arith) in
        (
          (q, w) ∷ before,
          v,
          after,
          ap ((q, w) ∷◌) split,
          rw other (ap ((q, w) ∷◌) left),
          rw other value,
        )
  ]

  split_last :
      (x : Ptr × A) (xs : Cells A)
      → (p : Ptr) × (v : A) × (x ∷ xs ≡ init (x ∷ xs) ++ (p, v) ∷ [])
        × (last_item (x ∷ xs) ≡ some v)
  split_last (p, v) [] = (p, v, refl, refl)
  split_last x (y ∷ xs) =
      let (p, v, split, value) = split_last y xs in (p, v, ap (x ∷◌) split, value)

  pop_front-empty : (l : LinkedList A) → IsList l [] → pop_front l ≡ returns (none, l)
  unfolding pop_front
  pop_front-empty l is = rw is.front

  pop_back-empty : (l : LinkedList A) → IsList l [] → pop_back l ≡ returns (none, l)
  unfolding pop_back
  pop_back-empty l is = rw is.back

  module _ (l : LinkedList A) (n : Ptr) (next : l.fresh ≡ n) where
    pop_front_step :
        (xs : Cells A)
        → IsList l xs
        → (l' : LinkedList A) × (pop_front l ≡ returns (head xs, l'))
          × IsList l' (tail xs)
          × (l'.fresh ≡ n)
    pop_front_step [] is = (l, pop_front-empty l is, is, next)
    pop_front_step ((p, v) ∷ xs) is =
        let (l', runs, after, same) = pop_front-IsList l p v xs is in (l', runs, after, same ∙ next)

    pop_back_step :
        (xs : Cells A)
        → IsList l xs
        → (l' : LinkedList A) × (pop_back l ≡ returns (last_item xs, l'))
          × IsList l' (init xs)
          × (l'.fresh ≡ n)
    pop_back_step [] is = (l, pop_back-empty l is, is, next)
    pop_back_step (x ∷ xs) is =
        let (p, v, split, value) = split_last x xs in
        let (l', runs, after, same) =
          pop_back-IsList l (init (x ∷ xs)) p v (subst (IsList l) split is) in
        (l', rw value runs, after, same ∙ next)

    remove_step :
        (p : Ptr) (xs : Cells A)
        → has p xs ≡ true
        → IsList l xs
        → (l' : LinkedList A) × (remove p l ≡ returns (p, l'))
          × IsList l' (without p xs)
          × (l'.fresh ≡ n)
    remove_step p xs inside is =
        let (before, v, after, split, left, _) = split_at p xs inside in
        let (l', runs, is', _, same) =
          remove-IsList l before p v after (subst (IsList l) split is) in
        (l', runs, subst (IsList l') (sym left) is', same ∙ next)

    to_front_step :
        (p : Ptr) (xs : Cells A)
        → has p xs ≡ true
        → IsList l xs
        → (l' : LinkedList A) × (move_to_front p l ≡ returns l')
          × IsList l' (to_front p xs)
          × (l'.fresh ≡ n)
    to_front_step p xs inside is =
        let (before, v, after, split, left, value) = split_at p xs inside in
        let (l', runs, is', same) =
          move_to_front-IsList l before p v after (subst (IsList l) split is) in
        (
          l',
          runs,
          rw (value, to_front) (subst (λ ys. IsList l' ((p, v) ∷ ys)) (sym left) is'),
          same ∙ next,
        )

  clear-IsList : (l : LinkedList A) (xs : Cells A) → IsList l xs → IsList (clear l) []
  unfolding clear
  clear-IsList l xs is = record {
    front = refl;
    back = refl;
    holds = record { chain = tt; below = tt; fresh = is.holds.fresh };
  }

  perform-Represents :
      (call : Call A) (l : LinkedList A) (s : Plain A)
      → is_proper call s ≡ true
      → Represents l s
      → (l' : LinkedList A) × (perform call l ≡ returns ((step call s).0, l'))
        × Represents l' (step call s).1
  unfolding perform clear
  perform-Represents (push_front_call v) l s ok r =
      let (l', runs, is, up) = push_front-IsList l s.items v r.list in
      (
        l',
        rw (runs, r.fresh),
        record {
          list = subst (λ n. IsList l' ((n, v) ∷ s.items)) r.fresh is;
          fresh = up ∙ ap (λ n. n + 1) r.fresh;
        },
      )
  perform-Represents (push_back_call v) l s ok r =
      let (l', runs, is, up) = push_back-IsList l s.items v r.list in
      (
        l',
        rw (runs, r.fresh),
        record {
          list = subst (λ n. IsList l' (s.items ++ (n, v) ∷ [])) r.fresh is;
          fresh = up ∙ ap (λ n. n + 1) r.fresh;
        },
      )
  perform-Represents pop_front_call l s ok r =
      let (l', runs, is, same) = pop_front_step l s.next r.fresh s.items r.list in
      (l', rw runs, record { list = is; fresh = same })
  perform-Represents pop_back_call l s ok r =
      let (l', runs, is, same) = pop_back_step l s.next r.fresh s.items r.list in
      (l', rw runs, record { list = is; fresh = same })
  perform-Represents (remove_call p) l s ok r =
      let (l', runs, is, same) = remove_step l s.next r.fresh p s.items ok r.list in
      (l', rw runs, record { list = is; fresh = same })
  perform-Represents (move_to_front_call p) l s ok r =
      let (l', runs, is, same) = to_front_step l s.next r.fresh p s.items ok r.list in
      (l', rw runs, record { list = is; fresh = same })
  perform-Represents clear_call l s ok r =
      (clear l, refl, record { list = clear-IsList l s.items r.list; fresh = r.fresh })

  run-Represents :
      (calls : List (Call A)) (l : LinkedList A) (s : Plain A)
      → all_proper calls s ≡ true
      → Represents l s
      → (l' : LinkedList A) × (perform_all calls l ≡ returns (answers calls s, l'))
        × Represents l' (plain_after calls s)
  unfolding perform_all
  run-Represents [] l s ok r = (l, refl, r)
  run-Represents (call ∷ calls) l s ok r =
      let (l', runs, now) = perform-Represents call l s (ground arith) r in
      let (l'', rest, after) = run-Represents calls l' (step call s).1 (ground arith) now in
      (l'', rw (runs, rest), after)

  empty-Represents : Represents (empty {A = A}) no_items
  empty-Represents = record {
    list = record {
      front = refl;
      back = refl;
      holds = record { chain = tt; below = tt; fresh = omega arith };
    };
    fresh = refl;
  }

  -- From `new List()` on, calls of its methods in any order, where `remove` and `move_to_front` are
  -- given nodes of the list, throw nothing, return what they do on a plain list, `null` where an
  -- empty one is popped, and leave a well-formed list of its items, linked in both directions.
  pub perform_all-plain :
      (calls : List (Call A))
      → all_proper calls no_items ≡ true
      → (l : LinkedList A) × (perform_all calls empty ≡ returns (answers calls no_items, l))
        × IsList l (plain_after calls no_items).items
  perform_all-plain calls ok =
      let (l, runs, after) = run-Represents calls empty no_items ok empty-Represents in
      (l, runs, after.list)
