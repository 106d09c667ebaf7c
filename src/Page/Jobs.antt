-- ===== src/Page/Jobs.antt =====
-- `JobInfo` of megatree_web/js/megatree.js: a job that makes a tree, and its removal from the global list
-- `trees_info`.
use megatree.Base.{
  ℕ, zero, suc, ◌≡◌, refl, sym, ap, ◌∙◌, ◌≢◌, Bool, true, false, Option, none, some, List, [], ◌∷◌,
  if◌then◌else◌, if-elim, get_elem?, All,
}
use megatree.Numbers.{Num}
use megatree.Cell.{Text}
use megatree.Frustum.Querier.{TreeInfo}
use megatree.Frustum.Cache.{text_eq}

pub record JobInfo : Type 0 where
  pub name : Text
  pub finished : Bool
  pub failed : Bool
  pub removed : Bool
  pub tree_name : Option Text

unfoldable pub new_job_info : Text → JobInfo
new_job_info name = record {
  name = name;
  finished = false;
  failed = false;
  removed = false;
  tree_name = none;
}

module _ ⦃num : Num⦄ where
  -- The trees, and how often `triggerFrustumUpdate` was called.
  pub record Trees : Type 0 where
    pub trees_info : List (Option TreeInfo)
    pub updates : ℕ

  -- `trees_info[i] && trees_info[i].name == tree_name`
  abbrev pub is_named : Text → Option TreeInfo → Bool
  is_named name none = false
  is_named name (some t) = text_eq.beq t.name name

  unfoldable pub remove_trees : Text → List (Option TreeInfo) → ℕ → Trees
  remove_trees name [] updates = record { trees_info = []; updates = updates }
  remove_trees name (t ∷ more) updates =
      let rest = remove_trees name more (if is_named name t then suc updates else updates) in
      record rest { trees_info = (if is_named name t then none else t) ∷ rest.trees_info }

  -- The empty name is falsy, as `null` is.
  unfoldable pub remove_job : JobInfo → Trees → JobInfo × Trees
  remove_job job s = (record job { removed = true }, remaining job.tree_name s)
    where
      remaining : Option Text → Trees → Trees
      remaining none s = s
      remaining (some []) s = s
      remaining (some (c ∷ name)) s = remove_trees (c ∷ name) s.trees_info s.updates

  true_ne_false : true ≢ false
  true_ne_false e = cc

  some_injective : {t u : Option TreeInfo} → some t ≡ some u → t ≡ u
  some_injective e = cc

  gone :
      (name : Text) (trees : List (Option TreeInfo)) (n : ℕ)
      → All (λ t. is_named name t ≡ false) (remove_trees name trees n).trees_info
  unfolding remove_trees
  gone name [] n = tt
  gone name (t ∷ more) n = (
    if-elim (λ u. is_named name u ≡ false) (is_named name t) none t (λ _. refl) (λ other. other),
    gone name more _,
  )

  kept :
      (name : Text) (trees : List (Option TreeInfo)) (n i : ℕ) (t : Option TreeInfo)
      → get_elem? trees i ≡ some t
      → is_named name t ≡ false
      → get_elem? (remove_trees name trees n).trees_info i ≡ some t
  unfolding remove_trees
  kept name [] n i t at other = cc
  kept name (u ∷ more) n zero t at other =
      if-elim (λ v. some v ≡ some t) (is_named name u) none u
        (λ named.
          absurd (true_ne_false (sym named ∙ ap (is_named name) (some_injective at) ∙ other)))
        (λ _. at)
  kept name (u ∷ more) n (suc i) t at other = kept name more _ i t at other

  -- Removing a job whose tree has a name that is not empty marks the job as removed and takes every
  -- tree of that name from the list; a place of another name, or without a tree, stays as it was.
  pub remove_job-trees :
      (job : JobInfo) (c : ℕ) (name : Text) (s : Trees) (i : ℕ) (t : Option TreeInfo)
      → job.tree_name ≡ some (c ∷ name)
      → get_elem? s.trees_info i ≡ some t
      → is_named (c ∷ name) t ≡ false
      → All (λ u. is_named (c ∷ name) u ≡ false) (remove_job job s).1.trees_info
        × (get_elem? (remove_job job s).1.trees_info i ≡ some t)
        × ((remove_job job s).0.removed ≡ true)
  unfolding remove_job
  remove_job-trees job c name s i t made at other = rw made (
    gone (c ∷ name) s.trees_info s.updates,
    kept (c ∷ name) s.trees_info s.updates i t at other,
    refl,
  )
