-- ===== src/Page/RoadJobs/Advances.antt =====
-- What an answer to a detection does to its job, and the new tree in the list.
use megatree.Base.{
  ◌≤◌, ◌≡◌, refl, ap, true, Option, none, some, List, [], ◌∷◌, ◌++◌, arith, if-elim,
}
use megatree.Numbers.{Num, lit}
use megatree.Cell.{Text}
use megatree.Frustum.Querier.{TreeInfo}
use megatree.Texts.{Strings}
use megatree.Metadata.{MetaData}
use megatree.Roads.{
  Response, Detection, starting, polling_progress, waiting_progress, polling_completion,
  waiting_completion, over, Call, is_unready, is_finished, advance,
}
use megatree.Roads.Ends.{Started, left}
use megatree.Page.Jobs.{new_job_info}
use megatree.Page.Trees.{Scene, add_tree, new_tree_info, init_cam, wants_cam}
use megatree.Page.RoadJobs.{
  Pending, detecting, serving, Job, on_call, on_calls, still, override_last, override,
}

abbrev pub at_work : Text → Detection → Job
at_work job_name d = record { info = new_job_info job_name; pending = detecting d }

abbrev pub with_tree : Text → Text → Pending → Job
with_tree job_name tree q = record {
  info = record (new_job_info job_name) { tree_name = some tree };
  pending = q;
}

-- A detection goes on, or it is over and its tree is to be served.
pub data Goes (job_name tree : Text) (q : Detection × List Call) : Type 0 where
  on :
      (d : Detection)
      → q.0 ≡ d
      → Started tree d []
      → on_calls q.1 (record { info = new_job_info job_name; pending = still q.0 })
        ≡ at_work job_name d
      → Goes job_name tree q
  serves :
      q.0 ≡ over
      → on_calls q.1 (record { info = new_job_info job_name; pending = still q.0 })
        ≡ with_tree job_name tree (serving tree)
      → Goes job_name tree q

pub left-positive : (tree : Text) (d : Detection) → Started tree d [] → 1 ≤ left d
left-positive tree starting s = absurd s
left-positive tree over s = cc
left-positive tree (waiting_progress t) s = omega arith
left-positive tree (polling_progress t) s = omega arith
left-positive tree (waiting_completion t) s = omega arith
left-positive tree (polling_completion t) s = omega arith

module _ ⦃num : Num⦄ where
  override_last-append :
      (trees : List (Option TreeInfo)) (t : TreeInfo)
      → override_last (trees ++ some t ∷ [])
        ≡ trees ++ some (record t { override_color = true }) ∷ []
  unfolding override_last
  override_last-append [] t = refl
  override_last-append (none ∷ []) t = refl
  override_last-append (some u ∷ []) t = refl
  override_last-append (none ∷ v ∷ trees) t = ap (◌∷◌ none) (override_last-append (v ∷ trees) t)
  override_last-append (some u ∷ v ∷ trees) t =
      ap (◌∷◌ (some u)) (override_last-append (v ∷ trees) t)

  -- The tree that addTree makes, in its own colour.
  abbrev pub shown_tree : Text → MetaData → TreeInfo
  shown_tree tree m = record (new_tree_info tree m (record { x = lit 1; y = lit 0; z = lit 0 })) {
    override_color = true;
  }

  pub add_tree-trees :
      (tree : Text) (m : MetaData) (s : Scene)
      → (override (add_tree tree m s)).trees.trees_info
        ≡ s.trees.trees_info ++ some (shown_tree tree m) ∷ []
  unfolding override add_tree init_cam
  add_tree-trees tree m s =
      if-elim {A = Scene}
        (λ c.
          override_last c.trees.trees_info ≡ s.trees.trees_info ++ some (shown_tree tree m) ∷ [])
        (wants_cam m s.cam) _ _ (λ b. override_last-append s.trees.trees_info _)
        (λ b. override_last-append s.trees.trees_info _)

module _ ⦃num : Num⦄ (str : Strings) where
  pub advance-Goes :
      (job_name tree : Text) (d : Detection) (r : Response)
      → Started tree d []
      → Goes job_name tree (advance str d r)
  unfolding advance on_calls on_call still new_job_info
  advance-Goes job_name tree starting r s = absurd s
  advance-Goes job_name tree over r s = cc
  advance-Goes job_name tree (waiting_progress t) r s = on (polling_progress t) refl s refl
  advance-Goes job_name tree (waiting_completion t) r s = on (polling_completion t) refl s refl
  advance-Goes job_name tree (polling_progress t) r s =
      if-elim (Goes job_name tree) r.succeeded _ _
        (λ ok.
          if-elim (Goes job_name tree) (is_unready str r.response) _ _
            (λ u. on (waiting_progress t) refl s refl) (λ u. on (polling_completion t) refl s refl))
        (λ failed. on (waiting_progress t) refl s refl)
  advance-Goes job_name tree (polling_completion t) r s =
      if-elim (Goes job_name tree) r.succeeded _ _
        (λ ok.
          if-elim (Goes job_name tree) (is_finished str r.response) _ _
            (λ f. serves refl (ap (λ u. with_tree job_name u (serving u)) s.0))
            (λ f. on (waiting_completion t) refl s refl))
        (λ failed. on (waiting_completion t) refl s refl)
