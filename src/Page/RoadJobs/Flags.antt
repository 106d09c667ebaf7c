-- ===== src/Page/RoadJobs/Flags.antt =====
-- The flags of one job, and of a list of jobs that changes in one place.
use megatree.Base.{
  ℕ, zero, suc, ◌≡◌, refl, ap, sym, ◌∙◌, arith, true, false, ◌||◌, ◌&&◌, Option, some, List, [],
  ◌∷◌, ◌++◌, if◌then◌else◌, if-elim, subst, get_elem?, set,
}
use megatree.Numbers.{Num}
use megatree.Texts.{Strings}
use megatree.Selection.{Rotations, Selection}
use megatree.Roads.{
  Response, Detection, starting, polling_progress, waiting_progress, polling_completion,
  waiting_completion, over, Call, is_unready, is_finished, advance,
}
use megatree.Page.Jobs.{JobInfo}
use megatree.Page.Trees.{Scene}
use megatree.Page.RoadJobs.{
  Pending, detecting, serving, loading, nothing, Job, fail, on_call, on_calls, still, is_settled,
  is_running, on_answer,
}

-- Nothing is pending for a job that finished or failed, and none did both.
abbrev pub IsConsistent : Job → Type 0
IsConsistent job = elim job.pending [
  | nothing ↦ job.info.finished && job.info.failed ≡ false
  | _ ↦ (job.info.finished ≡ false) × (job.info.failed ≡ false)
]

-- Every job but the last has finished or failed, or was removed.
abbrev pub IsOrderly : List Job → Type 0
IsOrderly [] = Unit
IsOrderly (job ∷ []) = Unit
IsOrderly (j ∷ k ∷ jobs) = (is_settled j ≡ true) × IsOrderly (k ∷ jobs)

some_injective : {j k : Job} → some j ≡ some k → j ≡ k
some_injective e = cc

pub IsOrderly-set :
    (jobs : List Job) (i : ℕ) (j j' : Job)
    → IsOrderly jobs
    → get_elem? jobs i ≡ some j
    → (is_settled j ≡ true → is_settled j' ≡ true)
    → IsOrderly (set jobs i j')
IsOrderly-set [] i j j' o g s = tt
IsOrderly-set (k ∷ []) zero j j' o g s = tt
IsOrderly-set (k ∷ []) (suc i) j j' o g s = tt
IsOrderly-set (k ∷ l ∷ jobs) zero j j' (e, o) g s =
    (s (sym (ap is_settled (some_injective g)) ∙ e), o)
IsOrderly-set (k ∷ l ∷ jobs) (suc zero) j j' (e, o) g s =
    (e, IsOrderly-set (l ∷ jobs) zero j j' o g s)
IsOrderly-set (k ∷ l ∷ jobs) (suc (suc i)) j j' (e, o) g s =
    (e, IsOrderly-set (l ∷ jobs) (suc i) j j' o g s)

pub IsOrderly-append :
    (jobs : List Job) (j : Job)
    → IsOrderly jobs
    → is_running jobs ≡ false
    → IsOrderly (jobs ++ j ∷ [])
unfolding is_running
IsOrderly-append [] j o r = tt
IsOrderly-append (k ∷ []) j o r = (settled, tt)
  where
    settled : is_settled k ≡ true
    settled = ground arith
IsOrderly-append (k ∷ l ∷ jobs) j (e, o) r = (e, IsOrderly-append (l ∷ jobs) j o r)

-- A job goes on so that it stays consistent, and settled if it was.
unfoldable pub Follows : Job → Job → Type 0
Follows job job' = IsConsistent job' × (is_settled job ≡ true → is_settled job' ≡ true)

fail-Follows : (job : Job) → job.info.finished ≡ false → Follows job (fail job)
unfolding Follows fail is_settled
fail-Follows job fin = rw fin (refl, λ e. refl)

-- What a detection does to a job for which no more than it is pending.
After : JobInfo → Detection × List Call → Type 0
After info p =
    Follows (record { info = info; pending = detecting starting })
      (on_calls p.1 (record { info = info; pending = still p.0 }))

pub removed-Follows :
    (job : Job) (info : JobInfo)
    → info ≡ record job.info { removed = true }
    → IsConsistent job
    → Follows job (record job { info = info })
unfolding Follows is_settled
removed-Follows job info e c =
    subst (λ i. Follows job (record job { info = i })) (sym e) (c, λ s. flagged)
  where
    flagged : job.info.finished || job.info.failed || true ≡ true
    flagged = ground arith

module _ ⦃num : Num⦄ (rot : Rotations) (str : Strings) where
  detecting-After :
      (d : Detection) (r : Response) (info : JobInfo)
      → info.finished ≡ false
      → info.failed ≡ false
      → After info (advance str d r)
  unfolding After Follows advance on_calls on_call still fail is_settled
  detecting-After starting r info fin bad =
      if-elim (After info) r.succeeded _ _ (λ ok. ((fin, bad), λ e. e))
        (λ failed. rw fin (refl, λ e. refl))
  detecting-After (polling_progress t) r info fin bad =
      if-elim (After info) r.succeeded _ _
        (λ ok.
          if-elim (After info) (is_unready str r.response) _ _ (λ u. ((fin, bad), λ e. e))
            (λ u. ((fin, bad), λ e. e)))
        (λ failed. ((fin, bad), λ e. e))
  detecting-After (waiting_progress t) r info fin bad = ((fin, bad), λ e. e)
  detecting-After (polling_completion t) r info fin bad =
      if-elim (After info) r.succeeded _ _
        (λ ok.
          if-elim (After info) (is_finished str r.response) _ _ (λ u. (served, λ e. e))
            (λ u. ((fin, bad), λ e. e)))
        (λ failed. ((fin, bad), λ e. e))
    where
      told : JobInfo
      told = record info { tree_name = some t }

      served :
          IsConsistent
            (record { info = told; pending = if info.removed then nothing else serving t })
      served =
          if-elim (λ q. IsConsistent (record { info = told; pending = q })) info.removed _ _
            (λ gone. rw fin refl) (λ there. (fin, bad))
  detecting-After (waiting_completion t) r info fin bad = ((fin, bad), λ e. e)
  detecting-After over r info fin bad = (idle, λ e. e)
    where
      idle : info.finished && info.failed ≡ false
      idle = rw fin refl

  pub on_answer-Follows :
      (r : Response) (job : Job) (s : Scene) (selection : Option (Selection rot))
      → IsConsistent job
      → Follows job (on_answer rot str r job s selection).0
  unfolding on_answer Follows After is_settled
  on_answer-Follows r job s selection c =
      elim job.pending
          as (λ q.
            IsConsistent (record job { pending = q })
            → Follows (record job { pending = q })
                (on_answer rot str r (record job { pending = q }) s selection).0) [
                  | nothing ↦ λ c. (c, λ e. e)
                  | detecting d ↦ λ c. detecting-After d r job.info c.0 c.1
                  | serving t ↦ λ c.
                      if-elim (Next (serving t)) r.succeeded _ _ (λ ok. (c, λ e. e))
                        (λ failed. fail-Follows (record job { pending = serving t }) c.0)
                  | loading t ↦ λ c.
                      if-elim (Next (loading t)) r.succeeded _ _
                        (λ ok.
                          if-elim (Next (loading t)) job.info.removed _ _
                            (λ gone. (rw c.0 refl, λ e. e)) (λ there. (c.1, λ e. refl)))
                        (λ failed. fail-Follows (record job { pending = loading t }) c.0)
                ]
        c
    where
      Next : Pending → Job × Scene × Option (Selection rot) → Type 0
      Next q p = Follows (record job { pending = q }) p.0
