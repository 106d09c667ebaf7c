-- ===== src/Roads/Ends.antt =====
-- How a road detection (megatree_web/js/road_detection.js) ends.
use megatree.Base.{
  ℕ, zero, suc, ◌≤◌, ◌≡◌, refl, ap, true, false, List, [], ◌∷◌, ◌++◌, arith, if-elim,
}
use megatree.Numbers.{Num}
use megatree.Cell.{Text}
use megatree.Texts.{Strings}
use megatree.Roads.{
  Response, Detection, starting, polling_progress, waiting_progress, polling_completion,
  waiting_completion, over, Call, progress_call, success_call, failure_call, is_unready,
  is_finished, advance, after,
}

-- The calls but those that tell the progress.
abbrev pub outcomes : List Call → List Call
outcomes [] = []
outcomes (progress_call t ∷ calls) = outcomes calls
outcomes (success_call t ∷ calls) = success_call t ∷ outcomes calls
outcomes (failure_call ∷ calls) = failure_call ∷ outcomes calls

outcomes-append : (xs ys : List Call) → outcomes (xs ++ ys) ≡ outcomes xs ++ outcomes ys
outcomes-append [] ys = refl
outcomes-append (progress_call t ∷ xs) ys = outcomes-append xs ys
outcomes-append (success_call t ∷ xs) ys = ap (◌∷◌ (success_call t)) (outcomes-append xs ys)
outcomes-append (failure_call ∷ xs) ys = ap (◌∷◌ failure_call) (outcomes-append xs ys)

outcomes-quiet :
    (calls more : List Call)
    → outcomes calls ≡ []
    → outcomes more ≡ []
    → outcomes (calls ++ more) ≡ []
outcomes-quiet calls more g h = rw (outcomes-append calls more, g, h)

-- How many more answers and timers it takes until a started detection is over, if the server is ready.
abbrev pub left : Detection → ℕ
left starting = 4
left (waiting_progress t) = 3
left (polling_progress t) = 2
left (waiting_completion t) = 2
left (polling_completion t) = 1
left over = 0

-- A detection of the tree `name` that was started, with the calls so far.
abbrev pub Started : Text → Detection → List Call → Type 0
Started name starting calls = ⊥
Started name (waiting_progress t) calls = (t ≡ name) × (outcomes calls ≡ [])
Started name (polling_progress t) calls = (t ≡ name) × (outcomes calls ≡ [])
Started name (waiting_completion t) calls = (t ≡ name) × (outcomes calls ≡ [])
Started name (polling_completion t) calls = (t ≡ name) × (outcomes calls ≡ [])
Started name over calls = outcomes calls ≡ success_call name ∷ []

module _ ⦃num : Num⦄ (str : Strings) where
  pub advance-Started :
      (name : Text) (d : Detection) (calls : List Call) (r : Response)
      → Started name d calls
      → Started name (advance str d r).0 (calls ++ (advance str d r).1)
  unfolding advance
  advance-Started name starting calls r s = absurd s
  advance-Started name (waiting_progress t) calls r (e, q) = (e, outcomes-quiet calls [] q refl)
  advance-Started name (waiting_completion t) calls r (e, q) = (e, outcomes-quiet calls [] q refl)
  advance-Started name (polling_progress t) calls r (e, q) =
      let told = outcomes-quiet calls (progress_call r.response ∷ []) q refl in
      let Next : Detection × List Call → Type 0 = λ p. Started name p.0 (calls ++ p.1) in
      if-elim Next r.succeeded _ _
        (λ ok. if-elim Next (is_unready str r.response) _ _ (λ u. (e, told)) (λ u. (e, told)))
        (λ failed. (e, outcomes-quiet calls [] q refl))
  advance-Started name (polling_completion t) calls r (e, q) =
      let quiet = outcomes-quiet calls [] q refl in
      let Next : Detection × List Call → Type 0 = λ p. Started name p.0 (calls ++ p.1) in
      if-elim Next r.succeeded _ _
        (λ ok.
          if-elim Next (is_finished str r.response) _ _
            (λ f. rw (outcomes-append calls (success_call t ∷ []), q, e)) (λ f. (e, quiet)))
        (λ failed. (e, quiet))
  advance-Started name over calls r s = rw (outcomes-append calls [], s)

  -- What the server answers to a detection, once it has done its work.
  abbrev pub IsReady : Detection → Response → Type 0
  IsReady (polling_progress t) r = (r.succeeded ≡ true) × (is_unready str r.response ≡ false)
  IsReady (polling_completion t) r = (r.succeeded ≡ true) × (is_finished str r.response ≡ true)
  IsReady _ r = Unit

  pub advance-left :
      (name : Text) (d : Detection) (calls : List Call) (r : Response) (k : ℕ)
      → Started name d calls
      → IsReady d r
      → left d ≤ suc k
      → left (advance str d r).0 ≤ k
  unfolding advance
  advance-left name starting calls r k s ok l = absurd s
  advance-left name (waiting_progress t) calls r k s ok l = omega arith
  advance-left name (waiting_completion t) calls r k s ok l = omega arith
  advance-left name (polling_progress t) calls r k s (ok, u) l = rw (ok, u) (omega arith)
  advance-left name (polling_completion t) calls r k s (ok, f) l = rw (ok, f) (omega arith)
  advance-left name over calls r k s ok l = omega arith

  module _ (server : Detection → ℕ → Response) where
    abbrev Now : Text → ℕ → Type 0
    Now name n = Started name (after str server n).0 (after str server n).1

    after-Started :
        (n : ℕ) → (server starting 0).succeeded ≡ true → Now (server starting 0).response (suc n)
    unfolding after advance
    after-Started zero ok = rw ok (refl, refl)
    after-Started (suc n) ok =
        advance-Started (server starting 0).response (after str server (suc n)).0
          (after str server (suc n)).1 (server (after str server (suc n)).0 (suc n))
          (after-Started n ok)

    left-over :
        (name : Text) (d : Detection) (calls : List Call)
        → Started name d calls
        → left d ≤ 0
        → (d ≡ over) × (outcomes calls ≡ success_call name ∷ [])
    left-over name over calls s l = (refl, s)
    left-over name starting calls s l = absurd (omega arith)
    left-over name (waiting_progress t) calls s l = absurd (omega arith)
    left-over name (polling_progress t) calls s l = absurd (omega arith)
    left-over name (waiting_completion t) calls s l = absurd (omega arith)
    left-over name (polling_completion t) calls s l = absurd (omega arith)

    pub left-Started :
        (name : Text) (d : Detection) (calls : List Call) → Started name d calls → left d ≤ 3
    left-Started name starting calls s = absurd s
    left-Started name over calls s = omega arith
    left-Started name (waiting_progress t) calls s = omega arith
    left-Started name (polling_progress t) calls s = omega arith
    left-Started name (waiting_completion t) calls s = omega arith
    left-Started name (polling_completion t) calls s = omega arith

    after-left :
        (n k : ℕ)
        → (server starting 0).succeeded ≡ true
        → IsReady (after str server (suc n)).0 (server (after str server (suc n)).0 (suc n))
        → left (after str server (suc n)).0 ≤ suc k
        → left (after str server (suc (suc n))).0 ≤ k
    unfolding after
    after-left n k ok ready l =
        advance-left (server starting 0).response (after str server (suc n)).0
          (after str server (suc n)).1 (server (after str server (suc n)).0 (suc n)) k
          (after-Started n ok) ready l

    -- If the server accepts a detection and from its event n on answers each poll with success, a
    -- progress that is not below 1 and that it is finished, then after n + 4 events, whatever it
    -- answered before, the detection is over, and successCallback was called once, with the name of
    -- the tree, and failureCallback never.
    pub detection-ends :
        (n : ℕ)
        → (server starting 0).succeeded ≡ true
        → ((d : Detection) (m : ℕ) → n ≤ m → IsReady d (server d m))
        → ((after str server (suc (suc (suc (suc n))))).0 ≡ over)
          × (outcomes (after str server (suc (suc (suc (suc n))))).1
              ≡ success_call (server starting 0).response ∷ [])
    detection-ends n ok ready =
        let start = after-Started n ok in
        let l3 =
          left-Started (server starting 0).response (after str server (suc n)).0
            (after str server (suc n)).1 start in
        let l2 = after-left n 2 ok (ready _ (suc n) (omega arith)) l3 in
        let l1 = after-left (suc n) 1 ok (ready _ (suc (suc n)) (omega arith)) l2 in
        let l0 = after-left (suc (suc n)) 0 ok (ready _ (suc (suc (suc n))) (omega arith)) l1 in
        left-over (server starting 0).response (after str server (suc (suc (suc (suc n))))).0
          (after str server (suc (suc (suc (suc n))))).1 (after-Started (suc (suc (suc n))) ok) l0
