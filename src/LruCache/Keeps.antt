-- ===== src/LruCache/Keeps.antt =====
-- What the cache of megatree_web/js/lru_cache.js keeps: an entry stays while fewer other ids than it
-- has room for are asked for.
pub mod Ids
use megatree.Base.{
  ℕ, zero, suc, ◌≤◌, ◌<◌, ◌≡◌, refl, sym, ap, subst, ◌∙◌, Bool, true, false, not, ◌&&◌, ◌||◌,
  Option, none, some, List, [], ◌∷◌, ◌++◌, arith, inl, inr, if◌then◌else◌, if-elim, Bool-cases, Eq,
  length, all, take, Option-cases,
}
use mathlib.Core.List.{append_assoc}
use megatree.Outcome.{returns}
use megatree.LruCache.{LruCache, new_cache}
use megatree.LruCache.Index.{find, erase, beq_refl, beq_comm}
use megatree.LruCache.Entries.{after_get, after_get-hit}
use megatree.LruCache.Room.{after_put, after_put-hit, after_put-miss}
use megatree.LruCache.Runs.{
  Call, put_call, get_call, clear_call, step_entries, entries_after, answers, perform_all,
  perform_all-answers,
}
use megatree.LruCache.Keeps.Ids.{
  is_one, without, AreDistinct, Within, beq_eq, length-without, is_one-without, Within-without,
  length-le, is_one-without_out, without-AreDistinct, without-gone, without-Within,
}

module _ {K V : Type 0} ⦃e : Eq K⦄ where
  abbrev before : K → List (K × V) → List K
  before k [] = []
  before k ((j, v) ∷ xs) = if e.beq j k then [] else j ∷ before k xs

  find-erase : (j k : K) (xs : List (K × V)) → e.beq j k ≡ false → find k (erase j xs) ≡ find k xs
  find-erase j k [] ne = refl
  find-erase j k ((i, v) ∷ xs) ne = ground (arith, beq_eq i j, find-erase j k xs)

  before-erase :
      (j k : K) (xs : List (K × V))
      → e.beq j k ≡ false
      → before k (erase j xs) ≡ without j (before k xs)
  before-erase j k [] ne = refl
  before-erase j k ((i, v) ∷ xs) ne =
      ground (arith, beq_eq i j, beq_eq i k, beq_eq j k, before-erase j k xs)

  absent-before : (j k : K) (xs : List (K × V)) → find j xs ≡ none → is_one j (before k xs) ≡ false
  absent-before j k [] h = refl
  absent-before j k ((i, v) ∷ xs) h = ground (arith, absent-before j k xs)

  find-take :
      (m : ℕ) (k : K) (v : V) (xs : List (K × V))
      → find k xs ≡ some v
      → length (before k xs) < m
      → find k (take m xs) ≡ some v
  find-take zero k v xs h lt = absurd (omega arith)
  find-take (suc m) k v [] h lt = h
  find-take (suc m) k v ((j, w) ∷ xs) h lt = ground (arith, find-take m k v xs)

  before-take :
      (m : ℕ) (k : K) (v : V) (xs : List (K × V))
      → find k xs ≡ some v
      → length (before k xs) < m
      → before k (take m xs) ≡ before k xs
  before-take zero k v xs h lt = absurd (omega arith)
  before-take (suc m) k v [] h lt = refl
  before-take (suc m) k v ((j, w) ∷ xs) h lt = ground (arith, before-take m k v xs)

  -- The entry of an id is there, and those before it are of distinct ids of a list.
  record Kept (k : K) (v : V) (ids : List K) (xs : List (K × V)) : Type 0 where
    found : find k xs ≡ some v
    distinct : AreDistinct (before k xs)
    within : Within (before k xs) ids

  -- A call that asks for the id itself, or for one of a list.
  abbrev pub asks_within : K → List K → Call K V → Bool
  asks_within k ids (put_call j w) = not (e.beq j k) && is_one j ids
  asks_within k ids (get_call j) = e.beq j k || is_one j ids
  asks_within k ids clear_call = false

  module _ (m : ℕ) (k : K) (v : V) (ids : List K) (room : length ids < m) where
    -- Another entry comes to the front.
    other-Kept :
        (j : K) (w : V) (xs : List (K × V))
        → e.beq j k ≡ false
        → is_one j ids ≡ true
        → Kept k v ids xs
        → Kept k v ids ((j, w) ∷ erase j xs)
    other-Kept j w xs ne inside kept = record {
      found = rw ne (find-erase j k xs ne ∙ kept.found);
      distinct =
          rw (ne, before-erase j k xs ne)
            (
              without-gone j (before k xs) kept.distinct,
              without-AreDistinct j (before k xs) kept.distinct,
            );
      within =
          rw (ne, before-erase j k xs ne) (inside, without-Within j (before k xs) ids kept.within);
    }

    take-Kept : (xs : List (K × V)) → Kept k v ids xs → Kept k v ids (take m xs)
    take-Kept xs kept =
        let near : length (before k xs) < m =
          omega (arith, length-le (before k xs) ids kept.distinct kept.within) in
        let same = before-take m k v xs kept.found near in
        record {
          found = find-take m k v xs kept.found near;
          distinct = rw same kept.distinct;
          within = rw same kept.within;
        }

    new-Kept :
        (j : K) (w : V) (xs : List (K × V))
        → e.beq j k ≡ false
        → is_one j ids ≡ true
        → find j xs ≡ none
        → Kept k v ids xs
        → Kept k v ids ((j, w) ∷ xs)
    new-Kept j w xs ne inside absent kept = record {
      found = rw ne kept.found;
      distinct = rw ne (absent-before j k xs absent, kept.distinct);
      within = rw ne (inside, kept.within);
    }

    front-Kept : (xs : List (K × V)) → Kept k v ids ((k, v) ∷ xs)
    front-Kept xs = record {
      found = rw (beq_refl k);
      distinct = rw (beq_refl k) tt;
      within = rw (beq_refl k) tt;
    }

    step-Kept :
        (call : Call K V) (xs : List (K × V))
        → asks_within k ids call ≡ true
        → Kept k v ids xs
        → Kept k v ids (step_entries m call xs)
    step-Kept (put_call j w) xs ok kept =
        let ne : e.beq j k ≡ false = ground arith in
        let inside : is_one j ids ≡ true = ground arith in
        elim (Option-cases (find j xs)) [
          | inl absent ↦
              rw (after_put-miss m j w xs absent)
                (take-Kept ((j, w) ∷ xs) (new-Kept j w xs ne inside absent kept))
          | inr (w0, there) ↦
              rw (after_put-hit m j w w0 xs there) (other-Kept j w xs ne inside kept)
        ]
    step-Kept (get_call j) xs ok kept = elim (Bool-cases (e.beq j k)) [
      | inl same ↦
          let hit = after_get-hit j v xs (rw (beq_eq j k same) kept.found) in
          rw (hit, beq_eq j k same) (front-Kept (erase k xs))
      | inr ne ↦ elim (Option-cases (find j xs)) [
        | inl absent ↦ rw (absent, after_get) kept
        | inr (w, there) ↦
            rw (after_get-hit j w xs there) (other-Kept j w xs ne (ground arith) kept)
      ]
    ]
    step-Kept clear_call xs ok kept = cc

    steps-Kept :
        (calls : List (Call K V)) (xs : List (K × V))
        → all (asks_within k ids) calls ≡ true
        → Kept k v ids xs
        → Kept k v ids (entries_after m calls xs)
    steps-Kept [] xs ok kept = kept
    steps-Kept (call ∷ calls) xs ok kept =
        steps-Kept calls (step_entries m call xs) (ground arith)
          (step-Kept call xs (ground arith) kept)

    put-Kept : (xs : List (K × V)) → Kept k v ids (after_put m k v xs)
    put-Kept xs = elim (Option-cases (find k xs)) [
      | inl absent ↦ rw (after_put-miss m k v xs absent) (take-Kept ((k, v) ∷ xs) (front-Kept xs))
      | inr (w, there) ↦ rw (after_put-hit m k v w xs there) (front-Kept (erase k xs))
    ]

  answers-append :
      (m : ℕ) (calls more : List (Call K V)) (xs : List (K × V))
      → answers m (calls ++ more) xs
        ≡ answers m calls xs ++ answers m more (entries_after m calls xs)
  answers-append m [] more xs = refl
  answers-append m (call ∷ calls) more xs =
      simp (answers-append m calls more (step_entries m call xs), append_assoc)

  -- In a cache with room for m entries, after any earlier calls, an item that is put is what a later
  -- `get` of its id returns, where the calls between put or get ids of a list of fewer than m
  -- others, or get the id itself, and none is `clear`.
  pub perform_all-keeps :
      (m : ℕ) (earlier : List (Call K V)) (k : K) (v : V) (ids : List K) (calls : List (Call K V))
      → length ids < m
      → all (asks_within k ids) calls ≡ true
      → (os : List (Option V)) × (c : LruCache K V) × (perform_all
            (earlier ++ (put_call k v ∷ (calls ++ get_call k ∷ [])))
            (new_cache m)
          ≡ returns (os ++ some v ∷ [], c))
  perform_all-keeps m earlier k v ids calls room ok =
      let xs = entries_after m earlier [] in
      let ys = after_put m k v xs in
      let kept = steps-Kept m k v ids room calls ys ok (put-Kept m k v ids room xs) in
      let (c, runs, _, _) =
        perform_all-answers m (earlier ++ (put_call k v ∷ (calls ++ get_call k ∷ []))) in
      (
        answers m earlier [] ++ answers m calls ys,
        c,
        runs
            ∙ ap (λ os. returns (os, c))
                (answers-append m earlier (put_call k v ∷ (calls ++ get_call k ∷ [])) []
                  ∙ ap (λ os. answers m earlier [] ++ os)
                      (answers-append m calls (get_call k ∷ []) ys
                        ∙ ap (λ o. answers m calls ys ++ o ∷ []) kept.found)
                  ∙ sym (append_assoc (answers m earlier []) (answers m calls ys) (some v ∷ []))),
      )
