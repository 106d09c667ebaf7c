-- ===== src/Page/RoadJobs/Orderly.antt =====
-- The flags of the jobs, whatever the user does and in whatever order the answers come.
use megatree.Base.{
  ℕ, ◌≡◌, refl, Bool, false, Option, some, List, [], ◌∷◌, if-elim, get_elem?, set, All,
  All-get_elem?, All-set, All-append, Option-cases, inl, inr,
}
use megatree.Outcome.{Outcome-cases}
use megatree.Numbers.{Num}
use megatree.Velocity.Mapped.{Mjs}
use megatree.Cell.{Text}
use megatree.Texts.{Strings}
use megatree.Metadata.{MetaData}
use megatree.Selection.{Rotations, Selection, look_at, get_box}
use megatree.Roads.{Response, starting}
use megatree.Page.Jobs.{new_job_info, remove_job}
use megatree.Page.Trees.{add_tree}
use megatree.Page.RoadJobs.{
  Pending, detecting, nothing, Job, is_running, JobPage, answered, remove_clicked, add_job,
  has_first, run_job, start_clicked,
}
use megatree.Page.RoadJobs.Flags.{
  IsConsistent, IsOrderly, IsOrderly-set, IsOrderly-append, Follows, on_answer-Follows,
  removed-Follows,
}

-- The jobs of a page.
pub record AreOrderly (jobs : List Job) : Type 0 where
  pub orderly : IsOrderly jobs
  pub consistent : All IsConsistent jobs

module _ ⦃num : Num⦄ (rot : Rotations) (str : Strings) where
  AreOrderly-set :
      (jobs : List Job) (i : ℕ) (j j' : Job)
      → AreOrderly jobs
      → get_elem? jobs i ≡ some j
      → Follows j j'
      → AreOrderly (set jobs i j')
  unfolding Follows
  AreOrderly-set jobs i j j' o here (c, s) = record {
    orderly = IsOrderly-set jobs i j j' o.orderly here s;
    consistent = All-set IsConsistent jobs i j' o.consistent c;
  }

  answered-AreOrderly :
      (i : ℕ) (r : Response) (p : JobPage rot)
      → AreOrderly p.jobs_info
      → AreOrderly (answered rot str i r p).jobs_info
  unfolding answered
  answered-AreOrderly i r p o = elim (Option-cases (get_elem? p.jobs_info i)) [
    | inl e ↦ rw (answered, e) o
    | inr (job, e) ↦
        rw (answered, e)
          (AreOrderly-set p.jobs_info i job _ o e (
            on_answer-Follows rot str r job p.scene p.selection
              (All-get_elem? IsConsistent p.jobs_info i job o.consistent e)))
  ]

  remove_clicked-AreOrderly :
      (i : ℕ) (p : JobPage rot)
      → AreOrderly p.jobs_info
      → AreOrderly (remove_clicked rot i p).jobs_info
  unfolding remove_clicked remove_job
  remove_clicked-AreOrderly i p o = elim (Option-cases (get_elem? p.jobs_info i)) [
    | inl e ↦ rw (remove_clicked, e) o
    | inr (job, e) ↦
        rw (remove_clicked, e)
          (AreOrderly-set p.jobs_info i job _ o e (
            removed-Follows job _ refl
              (All-get_elem? IsConsistent p.jobs_info i job o.consistent e)))
  ]

  add_job-AreOrderly :
      (name : Text) (q : Pending) (p : JobPage rot)
      → AreOrderly p.jobs_info
      → is_running p.jobs_info ≡ false
      → IsConsistent (record { info = new_job_info name; pending = q })
      → AreOrderly (add_job rot name q p).jobs_info
  unfolding add_job
  add_job-AreOrderly name q p o idle c = record {
    orderly = IsOrderly-append p.jobs_info _ o.orderly idle;
    consistent = All-append IsConsistent p.jobs_info _ o.consistent (c, tt);
  }

  run_job-AreOrderly :
      (v3 : Mjs) (name : Text) (selection : Selection rot) (p : JobPage rot)
      → AreOrderly p.jobs_info
      → is_running p.jobs_info ≡ false
      → AreOrderly (run_job rot v3 name selection p).0.jobs_info
  unfolding run_job new_job_info
  run_job-AreOrderly v3 name selection p o idle = elim (Option-cases p.scene.cam) [
    | inl e ↦ rw (run_job, e) o
    | inr (cam, e) ↦ elim (Outcome-cases (look_at v3 rot selection cam.0)) [
      | inl t ↦ rw (run_job, e, t) o
      | inr (view, t) ↦
          rw (run_job, e, t)
            (if-elim Next (has_first p.scene.trees.trees_info) _ _
              (λ first. elim (Outcome-cases (get_box v3 rot selection)) [
                | inl b ↦ rw b (add_job-AreOrderly name nothing p o idle refl)
                | inr (box, b) ↦
                    rw b (add_job-AreOrderly name (detecting starting) p o idle (refl, refl))
              ])
              (λ none_first. add_job-AreOrderly name nothing p o idle refl))
    ]
  ]
    where
      Next : JobPage rot × Bool → Type 0
      Next q = AreOrderly q.0.jobs_info

  start_clicked-AreOrderly :
      (v3 : Mjs) (name : Text) (p : JobPage rot)
      → AreOrderly p.jobs_info
      → AreOrderly (start_clicked rot v3 name p).0.jobs_info
  unfolding start_clicked
  start_clicked-AreOrderly v3 [] p o = o
  start_clicked-AreOrderly v3 (c ∷ name) p o =
      if-elim Next (is_running p.jobs_info) _ _ (λ busy. o)
        (λ idle. elim (Option-cases p.selection) [
          | inl e ↦ rw e o
          | inr (selection, e) ↦ rw e (run_job-AreOrderly v3 (c ∷ name) selection p o idle)
        ])
    where
      Next : JobPage rot × Bool → Type 0
      Next q = AreOrderly q.0.jobs_info

-- What may happen to the jobs: a click on "Start job" with a name, an answer or a timer for a job, a
-- click on the bin of a job, a new selection or its end, and the arrival of another tree.
pub data Event ⦃num : Num⦄ (rot : Rotations) : Type 0 where
  starts : Text → Event rot
  answers : ℕ → Response → Event rot
  removes : ℕ → Event rot
  selects : Option (Selection rot) → Event rot
  arrives : Text → MetaData → Event rot

module _ ⦃num : Num⦄ (v3 : Mjs) (rot : Rotations) (str : Strings) where
  abbrev pub happen : Event rot → JobPage rot → JobPage rot
  happen (starts name) p = (start_clicked rot v3 name p).0
  happen (answers i r) p = answered rot str i r p
  happen (removes i) p = remove_clicked rot i p
  happen (selects selection) p = record p { selection = selection }
  happen (arrives tree metadata) p = record p { scene = add_tree tree metadata p.scene }

  abbrev pub happen_all : List (Event rot) → JobPage rot → JobPage rot
  happen_all [] p = p
  happen_all (e ∷ events) p = happen_all events (happen e p)

  -- Jobs may be started and removed, their answers come, and selections and trees change, in any
  -- order: if every job but the last is settled, that is finished, failed or removed, and no job has
  -- both finished and failed, or has a request or timer pending after either, that stays so.
  pub happen_all-AreOrderly :
      (events : List (Event rot)) (p : JobPage rot)
      → AreOrderly p.jobs_info
      → AreOrderly (happen_all events p).jobs_info
  happen_all-AreOrderly [] p o = o
  happen_all-AreOrderly (starts name ∷ events) p o =
      happen_all-AreOrderly events _ (start_clicked-AreOrderly rot str v3 name p o)
  happen_all-AreOrderly (answers i r ∷ events) p o =
      happen_all-AreOrderly events _ (answered-AreOrderly rot str i r p o)
  happen_all-AreOrderly (removes i ∷ events) p o =
      happen_all-AreOrderly events _ (remove_clicked-AreOrderly rot str i p o)
  happen_all-AreOrderly (selects selection ∷ events) p o = happen_all-AreOrderly events _ o
  happen_all-AreOrderly (arrives tree metadata ∷ events) p o = happen_all-AreOrderly events _ o
