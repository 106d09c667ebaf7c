-- ===== src/Examples/Jobs.antt =====
-- Jobs at concrete inputs.
use megatree.Base.{
  ℕ, ◌≤◌, ◌≡◌, refl, true, false, none, some, List, [], ◌∷◌, ltb, arith, if◌then◌else◌,
}
use megatree.Texts.{codes}
use megatree.Roads.{
  Response, Detection, starting, polling_progress, waiting_progress, polling_completion,
  waiting_completion, over, success_call, is_unready, is_finished, after,
}
use megatree.Roads.Ends.{outcomes, IsReady, detection-ends}
use megatree.Page.RoadJobs.{JobPage}
use megatree.Page.RoadJobs.Orderly.{
  AreOrderly, Event, starts, answers, removes, happen_all, happen_all-AreOrderly,
}
use megatree.Examples.Data.{whole, v3, digits, cam, tree, still, box}
use megatree.Metadata.{MetaData}
use megatree.Page.Jobs.{new_job_info}
use megatree.Page.Trees.{add_tree}
use megatree.Page.RoadJobs.{Pending, detecting, override}
use megatree.Page.RoadJobs.Advances.{shown_tree}
use megatree.Page.RoadJobs.Finishes.{alone, finished_job, job-finishes}

-- The server fails twice, and then has done its work.
abbrev server : Detection → ℕ → Response
server starting m = record { succeeded = true; response = codes "roads" }
server d m =
    if ltb m 3
    then record { succeeded = false; response = [] }
    else record { succeeded = true; response = codes "1" }

server-IsReady : (d : Detection) (m : ℕ) → 3 ≤ m → IsReady digits d (server d m)
unfolding is_unready is_finished
server-IsReady starting m h = tt
server-IsReady (waiting_progress t) m h = tt
server-IsReady (waiting_completion t) m h = tt
server-IsReady over m h = tt
server-IsReady (polling_progress t) m h = ready
  where
    done : ltb m 3 ≡ false
    done = ground arith

    ready : IsReady digits (polling_progress t) (server (polling_progress t) m)
    ready = rw done (refl, refl)
server-IsReady (polling_completion t) m h = ready
  where
    done : ltb m 3 ≡ false
    done = ground arith

    ready : IsReady digits (polling_completion t) (server (polling_completion t) m)
    ready = rw done (refl, refl)

detection_example :
    ((after digits server 7).0 ≡ over)
    × (outcomes (after digits server 7).1 ≡ success_call (codes "roads") ∷ [])
detection_example = detection-ends digits server 3 refl server-IsReady

abbrev page : JobPage still
page = record {
  jobs_info = [];
  scene = record {
    trees = record { trees_info = some (tree (codes "cafe")) ∷ []; updates = 0 };
    cam = some (cam, false);
  };
  selection = some box;
}

abbrev events : List (Event still)
events =
    starts (codes "a")
    ∷ answers 0 (record { succeeded = true; response = codes "roads" })
    ∷ starts (codes "b")
    ∷ removes 0
    ∷ starts (codes "c")
    ∷ []

happen_all_example : AreOrderly (happen_all v3 still digits events page).jobs_info
happen_all_example =
    happen_all-AreOrderly v3 still digits events page (record { orderly = tt; consistent = tt })

-- The server of a job: it has made the tree after three events, and serves it at once.
abbrev job_server : Pending → ℕ → Response
job_server (detecting d) m = server d m
job_server _ m = record { succeeded = true; response = codes "version = 9" }

job_example :
    (m : MetaData) × (alone digits still job_server 9 (
      record { info = new_job_info (codes "a"); pending = detecting starting },
      page.scene,
      some box,
    )
      ≡ (
        finished_job digits still (codes "a") (codes "roads") page.scene (some box),
        override (add_tree (codes "roads") m page.scene),
        none,
      ))
    × ((override (add_tree (codes "roads") m page.scene)).trees.trees_info
        ≡ some (tree (codes "cafe")) ∷ some (shown_tree (codes "roads") m) ∷ [])
job_example =
    job-finishes digits still (codes "a") page.scene (some box) job_server refl (λ t m. refl)
      (λ t m. refl) 3 server-IsReady
