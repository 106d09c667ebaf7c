-- ===== src/Page/RoadJobs.antt =====
-- The jobs of the page: the click on "Start job" (in start), addJob, onRoadButtonClicked, serveNewTree
-- and clearSelection of megatree_web/js/index.js, with getMetaData of megatree_web/js/megatree.js. The
-- requests and timers of a job follow each other, so the one that is pending stands beside the job.
pub mod Flags
pub mod Orderly
pub mod Advances
pub mod Finishes
use megatree.Base.{
  ℕ, zero, suc, Bool, true, false, not, ◌||◌, Option, none, some, List, [], ◌∷◌, ◌++◌,
  if◌then◌else◌, get_elem?, set,
}
use megatree.Outcome.{Outcome, returns, throws}
use megatree.Numbers.{Num}
use megatree.Velocity.Mapped.{Mjs}
use megatree.Cell.{Text}
use megatree.Frustum.Querier.{TreeInfo}
use megatree.Texts.{Strings}
use megatree.Metadata.{new_metadata}
use megatree.Selection.{Rotations, Selection, get_box, look_at}
use megatree.Roads.{
  Response, Detection, starting, over, Call, progress_call, success_call, failure_call, advance,
}
use megatree.Page.Jobs.{JobInfo, new_job_info, remove_job}
use megatree.Page.Trees.{Scene, add_tree}

-- The detection of roads, the request of serveNewTree or that of getMetaData for the new tree.
pub data Pending : Type 0 where
  detecting : Detection → Pending
  serving loading : Text → Pending
  nothing : Pending

pub record Job : Type 0 where
  pub info : JobInfo
  pub pending : Pending

unfoldable pub fail : Job → Job
fail job = record { info = record job.info { failed = true }; pending = nothing }

-- The callbacks that onRoadButtonClicked passes to detectRoads.
unfoldable pub on_call : Call → Job → Job
on_call (progress_call progress) job = job
on_call (success_call tree) job = record {
  info = record job.info { tree_name = some tree };
  pending = if job.info.removed then nothing else serving tree;
}
on_call failure_call job = fail job

unfoldable pub on_calls : List Call → Job → Job
on_calls [] job = job
on_calls (c ∷ calls) job = on_calls calls (on_call c job)

unfoldable pub still : Detection → Pending
still over = nothing
still d = detecting d

-- The test of the last job before another one is started.
unfoldable pub is_settled : Job → Bool
is_settled job = job.info.finished || job.info.failed || job.info.removed

unfoldable pub is_running : List Job → Bool
is_running [] = false
is_running (job ∷ []) = not (is_settled job)
is_running (j ∷ k ∷ jobs) = is_running (k ∷ jobs)

module _ ⦃num : Num⦄ where
  -- `tree_object.override_color = true` for the tree that was added last.
  unfoldable pub override_last : List (Option TreeInfo) → List (Option TreeInfo)
  override_last [] = []
  override_last (none ∷ []) = none ∷ []
  override_last (some t ∷ []) = some (record t { override_color = true }) ∷ []
  override_last (t ∷ u ∷ trees) = t ∷ override_last (u ∷ trees)

  unfoldable pub override : Scene → Scene
  override s = record s { trees = record s.trees { trees_info = override_last s.trees.trees_info } }

  -- `trees_info[0].name`, which throws where there is no tree in the first place.
  unfoldable pub has_first : List (Option TreeInfo) → Bool
  has_first (some t ∷ trees) = true
  has_first _ = false

  module _ (rot : Rotations) where
    pub record JobPage : Type 0 where
      pub jobs_info : List Job
      pub scene : Scene
      pub selection : Option (Selection rot)

    -- What an answer for a job does to the job, the trees and the selection.
    unfoldable pub on_answer :
        Strings
        → Response
        → Job
        → Scene
        → Option (Selection rot)
        → Job × Scene × Option (Selection rot)
    on_answer str r job s selection = elim job.pending [
      | nothing ↦ (job, s, selection)
      | detecting d ↦ (
        on_calls (advance str d r).1 (record job { pending = still (advance str d r).0 }),
        s,
        selection,
      )
      | serving tree ↦
          if r.succeeded
          then (record job { pending = loading tree }, s, selection)
          else (fail job, s, selection)
      | loading tree ↦
          if r.succeeded
          then if job.info.removed
            then (
              record job { pending = nothing },
              add_tree tree (new_metadata str r.response).0 s,
              selection,
            )
            else (
              record { info = record job.info { finished = true }; pending = nothing },
              override (add_tree tree (new_metadata str r.response).0 s),
              none,
            )
          else (fail job, s, selection)
    ]

    unfoldable pub answered : Strings → ℕ → Response → JobPage → JobPage
    answered str i r p = elim (get_elem? p.jobs_info i) [
      | none ↦ p
      | some job ↦
          let (job', s, selection) = on_answer str r job p.scene p.selection in
          record { jobs_info = set p.jobs_info i job'; scene = s; selection = selection }
    ]

    -- The click on the bin beside a job.
    unfoldable pub remove_clicked : ℕ → JobPage → JobPage
    remove_clicked i p = elim (get_elem? p.jobs_info i) [
      | none ↦ p
      | some job ↦
          let (info, trees) = remove_job job.info p.scene.trees in
          record p {
            jobs_info = set p.jobs_info i (record job { info = info });
            scene = record p.scene { trees = trees };
          }
    ]

    unfoldable pub add_job : Text → Pending → JobPage → JobPage
    add_job name pending p = record p {
      jobs_info = p.jobs_info ++ record { info = new_job_info name; pending = pending } ∷ [];
    }

    -- addJob and onRoadButtonClicked, and whether they throw. Where the latter throws, the job stands in the list and nothing is
    -- pending for it.
    unfoldable pub run_job : Mjs → Text → Selection rot → JobPage → JobPage × Bool
    run_job v3 name selection p = elim p.scene.cam [
      | none ↦ (p, true)
      | some cam ↦ elim (look_at v3 rot selection cam.0) [
        | throws ↦ (p, true)
        | returns config ↦
            if has_first p.scene.trees.trees_info
            then elim (get_box v3 rot selection) [
              | throws ↦ (add_job name nothing p, true)
              | returns box ↦ (add_job name (detecting starting) p, false)
            ]
            else (add_job name nothing p, true)
      ]
    ]

    unfoldable pub start_clicked : Mjs → (job_name : Text) → JobPage → JobPage × Bool
    start_clicked v3 [] p = (p, false)
    start_clicked v3 (c ∷ name) p =
        if is_running p.jobs_info then (p, false) else elim p.selection [
          | none ↦ (p, false)
          | some selection ↦ run_job v3 (c ∷ name) selection p
        ]
