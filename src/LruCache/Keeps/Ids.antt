-- ===== src/LruCache/Keeps/Ids.antt =====
-- Lists of ids without repetition, for the entries of the cache of megatree_web/js/lru_cache.js.
use megatree.Base.{
  suc, ◌≤◌, ◌≡◌, refl, subst, ◌∙◌, Bool, true, false, ◌||◌, List, [], ◌∷◌, arith, inl, inr,
  if◌then◌else◌, if-elim, Bool-cases, Eq, length,
}
use megatree.LruCache.Index.{beq_comm}

module _ {K : Type 0} ⦃e : Eq K⦄ where
  abbrev pub is_one : K → List K → Bool
  is_one k [] = false
  is_one k (j ∷ js) = e.beq j k || is_one k js

  -- A list of ids without an id at its first place.
  abbrev pub without : K → List K → List K
  without k [] = []
  without k (j ∷ js) = if e.beq j k then js else j ∷ without k js

  abbrev pub AreDistinct : List K → Type 0
  AreDistinct [] = Unit {0}
  AreDistinct (j ∷ js) = (is_one j js ≡ false) × AreDistinct js

  -- Each id of the first list is one of the second.
  abbrev pub Within : List K → List K → Type 0
  Within [] ids = Unit {0}
  Within (j ∷ js) ids = (is_one j ids ≡ true) × Within js ids

  pub beq_eq : (j k : K) → e.beq j k ≡ true → j ≡ k
  beq_eq j k h = (e.beq_iff j k).0 h

  pub length-without :
      (k : K) (ids : List K) → is_one k ids ≡ true → length ids ≡ suc (length (without k ids))
  length-without k [] h = cc
  length-without k (j ∷ ids) h = ground (arith, length-without k ids)

  pub is_one-without :
      (j k : K) (ids : List K)
      → e.beq k j ≡ false
      → is_one j ids ≡ true
      → is_one j (without k ids) ≡ true
  is_one-without j k [] ne h = h
  is_one-without j k (i ∷ ids) ne h = ground (arith, beq_eq i k, is_one-without j k ids)

  pub Within-without :
      (k : K) (js ids : List K) → is_one k js ≡ false → Within js ids → Within js (without k ids)
  Within-without k [] ids out h = tt
  Within-without k (j ∷ js) ids out h =
      (is_one-without j k ids (comm ∙ first) h.0, Within-without k js ids rest h.1)
    where
      first : e.beq j k ≡ false
      first = ground arith

      rest : is_one k js ≡ false
      rest = ground arith

      comm : e.beq k j ≡ e.beq j k
      comm = beq_comm k j

  -- Distinct ids of a list are no more than the list has.
  pub length-le : (js ids : List K) → AreDistinct js → Within js ids → length js ≤ length ids
  length-le [] ids d h = omega arith
  length-le (j ∷ js) ids d h = omega (
    arith,
    length-without j ids h.0,
    length-le js (without j ids) d.1 (Within-without j js ids d.0 h.1),
  )

  pub is_one-without_out :
      (i j : K) (js : List K) → is_one i js ≡ false → is_one i (without j js) ≡ false
  is_one-without_out i j [] h = h
  is_one-without_out i j (k ∷ js) h = ground (arith, is_one-without_out i j js)

  pub without-AreDistinct : (j : K) (js : List K) → AreDistinct js → AreDistinct (without j js)
  without-AreDistinct j [] d = d
  without-AreDistinct j (k ∷ js) d =
      if-elim AreDistinct (e.beq k j) js (k ∷ without j js) (λ same. d.1)
        (λ other. (is_one-without_out k j js d.0, without-AreDistinct j js d.1))

  pub without-gone : (j : K) (js : List K) → AreDistinct js → is_one j (without j js) ≡ false
  without-gone j [] d = refl
  without-gone j (k ∷ js) d = elim (Bool-cases (e.beq k j)) [
    | inl same ↦ rw same (subst (λ i. is_one i js ≡ false) (beq_eq k j same) d.0)
    | inr other ↦ ground (arith, without-gone j js d.1)
  ]

  pub without-Within : (j : K) (js ids : List K) → Within js ids → Within (without j js) ids
  without-Within j [] ids h = h
  without-Within j (k ∷ js) ids h =
      if-elim (λ is. Within is ids) (e.beq k j) js (k ∷ without j js) (λ same. h.1)
        (λ other. (h.0, without-Within j js ids h.1))

-- The ids of the entries before the first one of an id.
