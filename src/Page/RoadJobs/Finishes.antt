-- ===== src/Page/RoadJobs/Finishes.antt =====
-- A job that is left alone, from the click on "Start job" to the new tree.
use megatree.Base.{
  ℕ, zero, suc, ◌+◌, ◌-◌, ◌≤◌, ◌≡◌, refl, ap, subst, sym, ◌∙◌, ◌⊎◌, inl, inr, Bool, true, Option,
  none, some, [], ◌∷◌, ◌++◌, arith,
}
use megatree.Numbers.{Num}
use megatree.Cell.{Text}
use megatree.Texts.{Strings}
use megatree.Metadata.{MetaData, new_metadata}
use megatree.Selection.{Rotations, Selection}
use megatree.Roads.{Response, Detection, starting, polling_progress, advance}
use megatree.Roads.Ends.{Started, left, left-Started, IsReady, advance-Started, advance-left}
use megatree.Page.Jobs.{new_job_info}
use megatree.Page.Trees.{Scene, add_tree}
use megatree.Page.RoadJobs.{
  Pending, detecting, serving, loading, nothing, Job, on_calls, still, override, on_answer,
}
use megatree.Page.RoadJobs.Advances.{
  at_work, with_tree, on, serves, left-positive, shown_tree, add_tree-trees, advance-Goes,
}

module _ ⦃num : Num⦄ (str : Strings) where
  module _ (rot : Rotations) where
    -- A job, the trees and the selection.
    abbrev pub Course : Type 0
    Course = Job × Scene × Option (Selection rot)

    -- The course of a job after `n` answers and timers, if nothing else happens.
    abbrev pub alone : (server : Pending → ℕ → Response) → ℕ → Course → Course
    alone server zero p = p
    alone server (suc n) p =
        let q = alone server n p in on_answer rot str (server q.0.pending n) q.0 q.1 q.2

    module _ (job_name tree : Text) (s : Scene) (selection : Option (Selection rot)) where
      abbrev pub finished_job : Job
      finished_job = record {
        info = record (new_job_info job_name) { tree_name = some tree; finished = true };
        pending = nothing;
      }

      -- How far the job is, and at most how many ready answers are left.
      data Stage (k : ℕ) (p : Course) : Type 0 where
        detects :
            (d : Detection)
            → Started tree d []
            → left d + 2 ≤ k
            → p ≡ (at_work job_name d, s, selection)
            → Stage k p
        is_served : 2 ≤ k → p ≡ (with_tree job_name tree (serving tree), s, selection) → Stage k p
        is_loaded : 1 ≤ k → p ≡ (with_tree job_name tree (loading tree), s, selection) → Stage k p
        is_done :
            (m : MetaData) → p ≡ (finished_job, override (add_tree tree m s), none) → Stage k p

      answer : Response → Course → Course
      answer r p = on_answer rot str r p.0 p.1 p.2

      -- The answers to the last two requests, if they succeed or not.
      served : Response → Bool → Course
      served r b =
          on_answer rot str (record r { succeeded = b }) (with_tree job_name tree (serving tree)) s
            selection

      loaded : Response → Bool → Course
      loaded r b =
          on_answer rot str (record r { succeeded = b }) (with_tree job_name tree (loading tree)) s
            selection

      step-Stage :
          (r : Response) (k k' : ℕ) (p : Course)
          → ((d : Detection)
              → p.0.pending ≡ detecting d
              → Started tree d []
              → left d + 2 ≤ k
              → left (advance str d r).0 + 2 ≤ k')
          → (2 ≤ k → 1 ≤ k')
          → ((t : Text)
              → (p.0.pending ≡ serving t) ⊎ (p.0.pending ≡ loading t)
              → r.succeeded ≡ true)
          → Stage k p
          → Stage k' (on_answer rot str r p.0 p.1 p.2)
      unfolding on_answer new_job_info answer served loaded
      step-Stage r k k' p b c ok (detects d started l e) =
          let bound = b d (ap (λ q. q.0.pending) e) started l in
          elim (advance-Goes str job_name tree d r started) [
            | on d' same started' called ↦
                detects d' started' (subst (λ x. left x + 2 ≤ k') same bound)
                  (ap (answer r) e ∙ ap (λ j. (j, s, selection)) called)
            | serves same called ↦
                let two = subst (λ x. left x + 2 ≤ k') same bound in
                is_served (omega arith) (ap (answer r) e ∙ ap (λ j. (j, s, selection)) called)
          ]
      step-Stage r k k' p b c ok (is_served l e) =
          let succeeded = ok tree (inl (ap (λ q. q.0.pending) e)) in
          is_loaded (c l) (ap (answer r) e ∙ ap (served r) succeeded)
      step-Stage r k k' p b c ok (is_loaded l e) =
          let succeeded = ok tree (inr (ap (λ q. q.0.pending) e)) in
          is_done (new_metadata str r.response).0 (ap (answer r) e ∙ ap (loaded r) succeeded)
      step-Stage r k k' p b c ok (is_done m e) = is_done m (ap (answer r) e)

    module _ (job_name : Text) (s : Scene) (selection : Option (Selection rot))
        (server : Pending → ℕ → Response) where
      abbrev start : Course
      start = (at_work job_name starting, s, selection)

      -- The tree that the server makes.
      abbrev tree : Text
      tree = (server (detecting starting) 0).response

      abbrev At : ℕ → ℕ → Type 0
      At k n = Stage job_name tree s selection k (alone server n start)

      begun : Response → Bool → Course
      begun r b =
          on_answer rot str (record r { succeeded = b }) (at_work job_name starting) s selection

      started-At : (server (detecting starting) 0).succeeded ≡ true → At 5 1
      unfolding on_answer advance on_calls still new_job_info begun
      started-At ok =
          detects (polling_progress tree) (refl, refl) (omega arith)
            (ap (begun (server (detecting starting) 0)) ok)

      module _ (first : (server (detecting starting) 0).succeeded ≡ true)
          (serves_well : (t : Text) (m : ℕ) → (server (serving t) m).succeeded ≡ true)
          (loads_well : (t : Text) (m : ℕ) → (server (loading t) m).succeeded ≡ true) where
        served-succeeded :
            (q : Pending) (m : ℕ) (t : Text)
            → (q ≡ serving t) ⊎ (q ≡ loading t)
            → (server q m).succeeded ≡ true
        served-succeeded q m t (inl e) = ap (λ q. (server q m).succeeded) e ∙ serves_well t m
        served-succeeded q m t (inr e) = ap (λ q. (server q m).succeeded) e ∙ loads_well t m

        any-At : (n : ℕ) → At 5 (suc n)
        any-At zero = started-At first
        any-At (suc n) =
            let q = alone server (suc n) start in
            let r = server q.0.pending (suc n) in
            step-Stage job_name tree s selection r 5 5 q
              (λ d e begun l.
                let next = advance-Started str tree d [] r begun in
                let few =
                  left-Started str (λ d m. r) tree (advance str d r).0 (advance str d r).1 next in
                omega arith)
              (λ l. omega arith) (served-succeeded q.0.pending (suc n)) (any-At n)

        ready-At :
            (n k : ℕ)
            → ((d : Detection) → IsReady str d (server (detecting d) (suc n)))
            → At (suc k) (suc n)
            → At k (suc (suc n))
        ready-At n k ready now =
            let q = alone server (suc n) start in
            let r = server q.0.pending (suc n) in
            step-Stage job_name tree s selection r (suc k) k q
              (λ d e begun l.
                let some_left = left-positive tree d begun in
                let ready_now = subst (λ x. IsReady str d (server x (suc n))) (sym e) (ready d) in
                let fewer =
                  advance-left str tree d [] r (left d - 1) begun ready_now (omega arith) in
                omega arith)
              (λ l. omega arith) (served-succeeded q.0.pending (suc n)) now

        -- Where nothing else happens and the server accepts the detection, serves each new tree and its
        -- metadata at once, and from its event n on answers each poll with success, a progress that is not
        -- below 1 and that it is finished, a new job has finished after n + 6 events, whatever was
        -- answered before: it has the name of the tree and not failed, the tree stands behind the others
        -- in its own colour, and the selection is cleared.
        pub job-finishes :
            (n : ℕ)
            → ((d : Detection) (m : ℕ) → n ≤ m → IsReady str d (server (detecting d) m))
            → (m : MetaData) × (alone server (suc (suc (suc (suc (suc (suc n)))))) start
                ≡ (finished_job job_name tree s selection, override (add_tree tree m s), none))
              × ((override (add_tree tree m s)).trees.trees_info
                  ≡ s.trees.trees_info ++ some (shown_tree tree m) ∷ [])
        job-finishes n ready = ends (
            ready-At _ 0 (λ d. ready d _ (omega arith))
              (ready-At _ 1 (λ d. ready d _ (omega arith))
                (ready-At _ 2 (λ d. ready d _ (omega arith))
                  (ready-At _ 3 (λ d. ready d _ (omega arith))
                    (ready-At n 4 (λ d. ready d _ (omega arith)) (any-At n))))))
          where
            ends :
                At 0 (suc (suc (suc (suc (suc (suc n))))))
                → (m : MetaData) × (alone server (suc (suc (suc (suc (suc (suc n)))))) start
                    ≡ (finished_job job_name tree s selection, override (add_tree tree m s), none))
                  × ((override (add_tree tree m s)).trees.trees_info
                      ≡ s.trees.trees_info ++ some (shown_tree tree m) ∷ [])
            ends (detects d started l e) = absurd (omega arith)
            ends (is_served l e) = absurd (omega arith)
            ends (is_loaded l e) = absurd (omega arith)
            ends (is_done m e) = (m, e, add_tree-trees tree m s)
