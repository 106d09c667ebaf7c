-- ===== src/LinkedList/Chain.antt =====
-- What the heap of a linked list holds: a chain of distinct nodes whose `prev` and `next` agree.
use megatree.Base.{
  ℕ, ◌<◌, ◌≡◌, refl, ◌≢◌, Bool, true, false, ◌||◌, Option, some, List, [], ◌∷◌, ◌++◌, arith, ◌==◌,
  ==_iff, Bool-cases, inl, inr, ap, ◌∙◌,
}
use megatree.LinkedList.{Ptr, Iter, LinkedList, iter, write}

-- The nodes of a list, front to back: address and item.
abbrev pub Cells : Type 0 → Type 0
Cells A = List (Ptr × A)

module _ {A : Type 0} where
  abbrev pub has : Ptr → Cells A → Bool
  has q [] = false
  has q ((p, _) ∷ xs) = (q == p) || has q xs

  -- The first and the last address, or what stands beyond that end.
  abbrev pub first : Cells A → Ptr → Ptr
  first [] after = after
  first ((p, _) ∷ xs) after = p

  abbrev pub last : Cells A → Ptr → Ptr
  last [] before = before
  last ((p, _) ∷ xs) before = last xs p

  abbrev pub Chain : (Ptr → Option (Iter A)) → Ptr → Cells A → Ptr → Type 0
  Chain c before [] after = Unit
  Chain c before ((p, v) ∷ xs) after =
      (c p ≡ some (iter v before (first xs after)))
      × (p ≢ 0)
      × (has p xs ≡ false)
      × Chain c p xs after

  abbrev pub Below : ℕ → Cells A → Type 0
  Below n [] = Unit
  Below n ((p, _) ∷ xs) = (p < n) × Below n xs

  -- The list object whose ends are those of the nodes `xs`.
  abbrev pub list_of : (Ptr → Option (Iter A)) → ℕ → Cells A → LinkedList A
  list_of c n xs = record { cells = c; fresh = n; front = first xs 0; back = last xs 0 }

  -- The heap holds the nodes `xs` as one list, and every address from `n` on is unused.
  pub record Holds (c : Ptr → Option (Iter A)) (n : ℕ) (xs : Cells A) : Type 0 where
    pub chain : Chain c 0 xs 0
    pub below : Below n xs
    pub fresh : 0 < n

  -- The list object stands for the nodes `xs`, front to back.
  pub record IsList (l : LinkedList A) (xs : Cells A) : Type 0 where
    pub front : l.front ≡ first xs 0
    pub back : l.back ≡ last xs 0
    pub holds : Holds l.cells l.fresh xs

  pub has-append : (q : Ptr) (xs ys : Cells A) → has q (xs ++ ys) ≡ (has q xs || has q ys)
  has-append q [] ys = refl
  has-append q ((p, v) ∷ xs) ys = ground (arith, has-append q xs ys)

  pub has_of_Below : (q : Ptr) (xs : Cells A) → Below q xs → has q xs ≡ false
  has_of_Below q [] h = refl
  has_of_Below q ((p, v) ∷ xs) h = ground (arith, has_of_Below q xs h.1)

  pub Below-suc : (n m : ℕ) (xs : Cells A) → n < m → Below n xs → Below m xs
  Below-suc n m [] lt h = tt
  Below-suc n m ((p, v) ∷ xs) lt h = (omega arith, Below-suc n m xs lt h.1)

  pub has_self : (p : Ptr) (v : A) (xs : Cells A) → has p ((p, v) ∷ xs) ≡ true
  has_self p v xs = ground arith

  pub has-head : (p q : Ptr) (v : A) (xs : Cells A) → has p ((q, v) ∷ xs) ≡ false → (p == q) ≡ false
  has-head p q v xs h = ground arith

  pub has-tail : (p q : Ptr) (v : A) (xs : Cells A) → has p ((q, v) ∷ xs) ≡ false → has p xs ≡ false
  has-tail p q v xs h = ground arith

  -- A write elsewhere leaves a chain.
  pub frame :
      (c : Ptr → Option (Iter A)) (q : Ptr) (n : Iter A) (b : Ptr) (xs : Cells A) (a : Ptr)
      → has q xs ≡ false
      → Chain c b xs a
      → Chain (write c q n) b xs a
  frame c q n b [] a out h = tt
  frame c q n b ((p, v) ∷ xs) a out h =
      (ground arith, h.1, h.2, frame c q n p xs a (ground arith) h.3)

  pub first-append : (xs ys : Cells A) (a : Ptr) → first (xs ++ ys) a ≡ first xs (first ys a)
  first-append [] ys a = refl
  first-append ((p, v) ∷ xs) ys a = refl

  pub last-append : (xs ys : Cells A) (b : Ptr) → last (xs ++ ys) b ≡ last ys (last xs b)
  last-append [] ys b = refl
  last-append ((p, v) ∷ xs) ys b = last-append xs ys p

  -- A chain of two parts, and back.
  pub Chain-split :
      (c : Ptr → Option (Iter A)) (b : Ptr) (xs ys : Cells A) (a : Ptr)
      → Chain c b (xs ++ ys) a
      → Chain c b xs (first ys a) × Chain c (last xs b) ys a
  Chain-split c b [] ys a h = (tt, h)
  Chain-split c b ((p, v) ∷ xs) ys a h =
      let (front, back) = Chain-split c p xs ys a h.3 in
      ((rw (← first-append xs ys a) h.0, h.1, ground (arith, has-append p xs ys), front), back)

  abbrev pub Disjoint : Cells A → Cells A → Type 0
  Disjoint [] ys = Unit
  Disjoint ((p, _) ∷ xs) ys = (has p ys ≡ false) × Disjoint xs ys

  pub Chain-Disjoint :
      (c : Ptr → Option (Iter A)) (b : Ptr) (xs ys : Cells A) (a : Ptr)
      → Chain c b (xs ++ ys) a
      → Disjoint xs ys
  Chain-Disjoint c b [] ys a h = tt
  Chain-Disjoint c b ((p, v) ∷ xs) ys a h =
      (ground (arith, has-append p xs ys), Chain-Disjoint c p xs ys a h.3)

  pub Chain-append :
      (c : Ptr → Option (Iter A)) (b : Ptr) (xs ys : Cells A) (a : Ptr)
      → Disjoint xs ys
      → Chain c b xs (first ys a)
      → Chain c (last xs b) ys a
      → Chain c b (xs ++ ys) a
  Chain-append c b [] ys a apart front back = back
  Chain-append c b ((p, v) ∷ xs) ys a apart front back = (
    rw (first-append xs ys a) front.0,
    front.1,
    rw (has-append p xs ys, front.2) apart.0,
    Chain-append c p xs ys a apart.1 front.3 back,
  )

  pub has-last : (y : Ptr × A) (xs : Cells A) (b : Ptr) → has (last (y ∷ xs) b) (y ∷ xs) ≡ true
  has-last (p, v) [] b = ground arith
  has-last (p, v) (y ∷ xs) b = ground (arith, has-last y xs p)

  pub ne_of_has : (p q : Ptr) (xs : Cells A) → has p xs ≡ false → has q xs ≡ true → (p == q) ≡ false
  ne_of_has p q xs out inside = elim (Bool-cases (p == q)) [
    | inl same ↦ cc (ap (λ r. has r xs) ((==_iff p q).0 same))
    | inr other ↦ other
  ]

  -- The last node of a chain, and the chain with another successor behind it.
  pub retarget_last :
      (c : Ptr → Option (Iter A)) (b : Ptr) (x : Ptr × A) (xs : Cells A) (a a' : Ptr)
      → Chain c b (x ∷ xs) a
      → (n : Iter A) × (c (last (x ∷ xs) b) ≡ some n)
        × Chain (write c (last (x ∷ xs) b) (record n { next = a' })) b (x ∷ xs) a'
  retarget_last c b (p, v) [] a a' h = (iter v b a, h.0, (ground arith, h.1, refl, tt))
  retarget_last c b (p, v) (y ∷ xs) a a' h =
      let (n, at, chain) = retarget_last c p y xs a a' h.3 in
      (n, at, (rw (ne_of_has p _ (y ∷ xs) h.2 (has-last y xs p)) h.0, h.1, h.2, chain))

  pub eq_list_of : (l : LinkedList A) (xs : Cells A) → IsList l xs → l ≡ list_of l.cells l.fresh xs
  eq_list_of l xs is = ground arith

  pub list_of-IsList :
      (c : Ptr → Option (Iter A)) (n : ℕ) (xs : Cells A) → Holds c n xs → IsList (list_of c n xs) xs
  list_of-IsList c n xs h = record { front = refl; back = refl; holds = h }

  pub last-ne_zero :
      (c : Ptr → Option (Iter A)) (b : Ptr) (x : Ptr × A) (xs : Cells A) (a : Ptr)
      → Chain c b (x ∷ xs) a
      → (last (x ∷ xs) b == 0) ≡ false
  last-ne_zero c b (p, v) [] a h = ground arith
  last-ne_zero c b (p, v) (y ∷ xs) a h = last-ne_zero c p y xs a h.3

  pub Below-append : (n : ℕ) (xs ys : Cells A) → Below n xs → Below n ys → Below n (xs ++ ys)
  Below-append n [] ys g h = h
  Below-append n ((p, v) ∷ xs) ys g h = (g.0, Below-append n xs ys g.1 h)

  pub Below-prefix : (n : ℕ) (xs ys : Cells A) → Below n (xs ++ ys) → Below n xs
  Below-prefix n [] ys h = tt
  Below-prefix n ((p, v) ∷ xs) ys h = (h.0, Below-prefix n xs ys h.1)

  pub Below-suffix : (n : ℕ) (xs ys : Cells A) → Below n (xs ++ ys) → Below n ys
  Below-suffix n [] ys h = h
  Below-suffix n ((p, v) ∷ xs) ys h = Below-suffix n xs ys h.1

  pub Disjoint-of_has :
      (p : Ptr) (v : A) (xs : Cells A) → has p xs ≡ false → Disjoint xs ((p, v) ∷ [])
  Disjoint-of_has p v [] h = tt
  Disjoint-of_has p v ((q, w) ∷ xs) h = (ground arith, Disjoint-of_has p v xs (ground arith))

  pub Disjoint-right :
      (p : Ptr) (xs ys : Cells A) → Disjoint xs ys → has p xs ≡ true → has p ys ≡ false
  Disjoint-right p [] ys apart h = cc
  Disjoint-right p ((q, w) ∷ xs) ys apart h = elim (Bool-cases (p == q)) [
    | inl same ↦ ap (λ r. has r ys) ((==_iff p q).0 same) ∙ apart.0
    | inr other ↦ Disjoint-right p xs ys apart.1 (rw other at h)
  ]

  pub Disjoint-left :
      (p : Ptr) (xs ys : Cells A) → Disjoint xs ys → has p ys ≡ true → has p xs ≡ false
  Disjoint-left p xs ys apart h = elim (Bool-cases (has p xs)) [
    | inl inside ↦ cc (Disjoint-right p xs ys apart inside)
    | inr outside ↦ outside
  ]

  pub Disjoint-tail :
      (xs : Cells A) (y : Ptr × A) (ys : Cells A) → Disjoint xs (y ∷ ys) → Disjoint xs ys
  Disjoint-tail [] y ys h = tt
  Disjoint-tail ((p, v) ∷ xs) (q, w) ys h = (ground arith, Disjoint-tail xs (q, w) ys h.1)
