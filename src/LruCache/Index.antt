-- ===== src/LruCache/Index.antt =====
-- Where an id stands among the nodes of the cache's list, and the entries that the nodes stand for.
use megatree.Base.{
  suc, ◌≡◌, refl, sym, ap, ◌∙◌, true, false, Option, none, some, List, [], ◌∷◌, ◌++◌, arith, inl,
  inr, if◌then◌else◌, Bool-cases, Eq, length,
}
use megatree.LinkedList.{Ptr}
use megatree.LinkedList.Chain.{Cells}
use megatree.LruCache.{Node, node}

abbrev pub Nodes : Type 0 → Type 0 → Type 0
Nodes K V = Cells (Node K V)

module _ {K V : Type 0} where
  -- The entries, most recently used first.
  abbrev pub view : Nodes K V → List (K × V)
  view [] = []
  view ((_, n) ∷ ns) = (n.id, n.item) ∷ view ns

  pub view-append : (xs ys : Nodes K V) → view (xs ++ ys) ≡ view xs ++ view ys
  view-append [] ys = refl
  view-append ((p, n) ∷ xs) ys = rw (view-append xs ys)

  pub length-view : (xs : Nodes K V) → length (view xs) ≡ length xs
  length-view [] = refl
  length-view ((p, n) ∷ xs) = ap suc (length-view xs)

module _ {K : Type 0} ⦃e : Eq K⦄ where
  pub beq_refl : (k : K) → e.beq k k ≡ true
  beq_refl k = (e.beq_iff k k).1 refl

  pub beq_comm : (j k : K) → e.beq j k ≡ e.beq k j
  beq_comm j k = elim (Bool-cases (e.beq j k)) [
    | inl same ↦ rw ((e.beq_iff j k).0 same)
    | inr other ↦ elim (Bool-cases (e.beq k j)) [
      | inl same ↦ cc ((e.beq_iff k j).0 same, beq_refl j)
      | inr other' ↦ other ∙ sym other'
    ]
  ]

module _ {K V : Type 0} ⦃e : Eq K⦄ where
  -- The address of the first node with the id.
  abbrev pub address : K → Nodes K V → Option Ptr
  address k [] = none
  address k ((p, n) ∷ ns) = if e.beq n.id k then some p else address k ns

  abbrev pub Distinct : Nodes K V → Type 0
  Distinct [] = Unit
  Distinct ((p, n) ∷ ns) = (address n.id ns ≡ none) × Distinct ns

  -- What a cache of these entries answers, and the entries without an id.
  abbrev pub find : K → List (K × V) → Option V
  find k [] = none
  find k ((j, v) ∷ xs) = if e.beq j k then some v else find k xs

  abbrev pub erase : K → List (K × V) → List (K × V)
  erase k [] = []
  erase k ((j, v) ∷ xs) = if e.beq j k then xs else (j, v) ∷ erase k xs

  pub address-append :
      (k : K) (xs ys : Nodes K V) → address k xs ≡ none → address k (xs ++ ys) ≡ address k ys
  address-append k [] ys h = refl
  address-append k ((p, n) ∷ xs) ys h = ground (arith, address-append k xs ys)

  pub address-prefix :
      (k : K) (xs ys : Nodes K V) → address k (xs ++ ys) ≡ none → address k xs ≡ none
  address-prefix k [] ys h = refl
  address-prefix k ((p, n) ∷ xs) ys h = ground (arith, address-prefix k xs ys)

  -- A hit splits the nodes at the one that it found.
  pub address-split :
      (k : K) (p : Ptr) (ns : Nodes K V)
      → address k ns ≡ some p
      → (xs ys : Nodes K V) × (v : V) × (ns ≡ xs ++ (p, node k v) ∷ ys) × (address k xs ≡ none)
  address-split k p [] h = cc
  address-split k p ((q, n) ∷ ns) h = elim (Bool-cases (e.beq n.id k)) [
    | inl hit ↦ ([], ns, n.item, ground (arith, (e.beq_iff n.id k).0 hit), refl)
    | inr miss ↦
        let (xs, ys, v, same, out) = address-split k p ns (rw miss at h) in
        ((q, n) ∷ xs, ys, v, rw same, rw miss out)
  ]

  pub view-split :
      (k : K) (xs ys : Nodes K V) (p : Ptr) (v : V)
      → address k xs ≡ none
      → (find k (view (xs ++ (p, node k v) ∷ ys)) ≡ some v)
        × (erase k (view (xs ++ (p, node k v) ∷ ys)) ≡ view (xs ++ ys))
  view-split k [] ys p v out = (rw (beq_refl k), rw (beq_refl k))
  view-split k ((q, n) ∷ xs) ys p v out = ground (arith, view-split k xs ys p v)

  pub view-miss :
      (k : K) (xs : Nodes K V)
      → address k xs ≡ none
      → (find k (view xs) ≡ none) × (erase k (view xs) ≡ view xs)
  view-miss k [] h = (refl, refl)
  view-miss k ((p, n) ∷ xs) h = ground (arith, view-miss k xs)

  address-middle :
      (k : K) (xs : Nodes K V) (p : Ptr) (n : Node K V) (ys : Nodes K V)
      → address k (xs ++ (p, n) ∷ ys) ≡ none
      → (e.beq n.id k ≡ false) × (address k (xs ++ ys) ≡ none)
  address-middle k [] p n ys h = (ground arith, ground arith)
  address-middle k ((q, m) ∷ xs) p n ys h =
      let hit : e.beq m.id k ≡ false = ground arith in
      let (other, rest) = address-middle k xs p n ys (rw hit at h) in (other, rw hit rest)

  pub Distinct-erase :
      (xs : Nodes K V) (p : Ptr) (n : Node K V) (ys : Nodes K V)
      → Distinct (xs ++ (p, n) ∷ ys)
      → (address n.id xs ≡ none) × (address n.id ys ≡ none) × Distinct (xs ++ ys)
  Distinct-erase [] p n ys h = (refl, h.0, h.1)
  Distinct-erase ((q, m) ∷ xs) p n ys h =
      let (out, out', rest) = Distinct-erase xs p n ys h.1 in
      let (other, away) = address-middle m.id xs p n ys h.0 in
      (rw (beq_comm m.id n.id, other) out, out', (away, rest))

  pub address-move :
      (j k : K) (xs : Nodes K V) (p : Ptr) (v : V) (ys : Nodes K V)
      → address k xs ≡ none
      → address j (xs ++ (p, node k v) ∷ ys) ≡ (if e.beq k j then some p else address j (xs ++ ys))
  address-move j k [] p v ys h = refl
  address-move j k ((q, m) ∷ xs) p v ys h = elim (Bool-cases (e.beq k j)) [
    | inl same ↦
        let eq = (e.beq_iff k j).0 same in
        let miss : e.beq m.id k ≡ false = ground arith in
        let miss' : e.beq m.id j ≡ false = rw eq at miss in
        rw (miss', address-move j k xs p v ys (rw miss at h), same)
    | inr other ↦
        let miss : e.beq m.id k ≡ false = ground arith in
        rw (address-move j k xs p v ys (rw miss at h), other)
  ]
