-- ===== src/Page/Start/Arrivals.antt =====
-- What a page shows once the answers to its first requests have come, in whatever order.
use megatree.Base.{
  ℕ, ◌≡◌, refl, sym, ap, subst, ◌∙◌, Bool, true, false, Option, none, some, List, [], ◌∷◌, ◌++◌,
  get_elem?, erase_idx, erase_idx-perm, Option-cases, inl, inr, Bool-cases,
}
use mathlib.Core.List.{Perm, perm_middle, append_assoc}
use mathlib.Core.List.Perm
use megatree.Numbers.{Num}
use megatree.OrbitCam.{OrbitCam}
use megatree.Cell.{Text}
use megatree.Frustum.Querier.{TreeInfo}
use megatree.Texts.{Strings}
use megatree.Metadata.{MetaData, new_metadata}
use megatree.Page.Query.Link.{live}
use megatree.Page.Trees.{Scene, new_tree_info, wants_cam, add_tree, init_cam}
use megatree.Page.Trees.Viewpoint.{add_tree-cam}
use megatree.Page.Start.{
  Page, warn, on_metadata, on_supported_trees, Arrival, metadata_arrival, trees_arrival, arrive,
  arrive_all,
}

module _ ⦃num : Num⦄ where
  -- The names of the trees of a page.
  abbrev pub shown : Page → List Text
  shown p = live p.scene.trees.trees_info

  live-append : (xs ys : List (Option TreeInfo)) → live (xs ++ ys) ≡ live xs ++ live ys
  live-append [] ys = refl
  live-append (none ∷ xs) ys = live-append xs ys
  live-append (some t ∷ xs) ys = ap (t.name ∷◌) (live-append xs ys)

  live-add_tree :
      (tree : Text) (m : MetaData) (s : Scene)
      → live (add_tree tree m s).trees.trees_info ≡ live s.trees.trees_info ++ tree ∷ []
  unfolding add_tree init_cam new_tree_info
  live-add_tree tree m s = elim (Bool-cases (wants_cam m s.cam)) [
    | inl e ↦ rw e (live-append s.trees.trees_info _)
    | inr e ↦ rw e (live-append s.trees.trees_info _)
  ]

  -- The names of the trees whose metadata are refused, in the order in which that happens.
  abbrev refusals : Arrival → Page → List Text
  refusals (metadata_arrival i none) p = elim (get_elem? p.loading i) [
    | none ↦ []
    | some t ↦ t ∷ []
  ]
  refusals (metadata_arrival i (some _)) p = []
  refusals (trees_arrival _) p = []

  -- A page without trees.
  abbrev pub new_scene : Scene
  new_scene = record { trees = record { trees_info = []; updates = 0 }; cam = none }

  module _ (str : Strings) (href : Text) where
    abbrev pub refused : List Arrival → Page → List Text
    refused [] p = []
    refused (a ∷ arrivals) p = refusals a p ++ refused arrivals (arrive str href a p)

    -- The trees that are shown, refused or asked for are those of before.
    abbrev Follows : (gone : List Text) → Page → Page → Type 0
    Follows gone p p' = Perm (shown p' ++ (gone ++ p'.loading)) (shown p ++ p.loading)

    warn-scene : (b : Bool) (p : Page) → (warn b p).scene ≡ p.scene
    unfolding warn
    warn-scene true p = refl
    warn-scene false p = refl

    warn-loading : (b : Bool) (p : Page) → (warn b p).loading ≡ p.loading
    unfolding warn
    warn-loading true p = refl
    warn-loading false p = refl

    shown-on_metadata :
        (tree response : Text) (p : Page)
        → shown (on_metadata str tree (some response) p) ≡ shown p ++ tree ∷ []
    unfolding on_metadata
    shown-on_metadata tree response p =
        live-add_tree tree _ (warn (new_metadata str response).1 p).scene
        ∙ ap (λ s. live s.trees.trees_info ++ tree ∷ [])
            (warn-scene (new_metadata str response).1 p)

    loading-on_metadata :
        (tree response : Text) (p : Page)
        → (on_metadata str tree (some response) p).loading ≡ p.loading
    unfolding on_metadata
    loading-on_metadata tree response p = warn-loading (new_metadata str response).1 p

    -- The request of a tree that is asked for is taken off.
    answered : (p : Page) (i : ℕ) → Page
    answered p i = record p { loading = erase_idx p.loading i }

    served :
        (p : Page) (i : ℕ) (tree response : Text)
        → get_elem? p.loading i ≡ some tree
        → Follows [] p (on_metadata str tree (some response) (answered p i))
    unfolding answered
    served p i tree response there =
        let p1 = answered p i in
        subst (λ ws. Perm ws (shown p ++ p.loading))
          (sym (append_assoc (shown p) (tree ∷ []) (erase_idx p.loading i))
            ∙ ap (λ xs. xs ++ erase_idx p.loading i) (sym (shown-on_metadata tree response p1))
            ∙ ap (λ ys. shown (on_metadata str tree (some response) p1) ++ ys)
                (sym (loading-on_metadata tree response p1)))
          (Perm.append_left (shown p) (Perm.symm (erase_idx-perm p.loading i tree there)))

    arrive-Follows : (a : Arrival) (p : Page) → Follows (refusals a p) p (arrive str href a p)
    unfolding arrive on_metadata on_supported_trees answered
    arrive-Follows (metadata_arrival i none) p = elim (Option-cases (get_elem? p.loading i)) [
      | inl e ↦ rw (e, arrive, refusals) (Perm.refl (shown p ++ p.loading))
      | inr (tree, e) ↦
          rw (e, arrive, refusals)
            (Perm.append_left (shown p) (Perm.symm (erase_idx-perm p.loading i tree e)))
    ]
    arrive-Follows (metadata_arrival i (some response)) p =
        elim (Option-cases (get_elem? p.loading i)) [
          | inl e ↦ rw (e, arrive) (Perm.refl (shown p ++ p.loading))
          | inr (tree, e) ↦ rw (e, arrive) (served p i tree response e)
        ]
    arrive-Follows (trees_arrival none) p = elim (Bool-cases p.choosing) [
      | inl e ↦ rw (e, arrive) (Perm.refl (shown p ++ p.loading))
      | inr e ↦ rw (e, arrive) (Perm.refl (shown p ++ p.loading))
    ]
    arrive-Follows (trees_arrival (some response)) p = elim (Bool-cases p.choosing) [
      | inl e ↦ rw (e, arrive) (Perm.refl (shown p ++ p.loading))
      | inr e ↦ rw (e, arrive) (Perm.refl (shown p ++ p.loading))
    ]

    past : (xs ys zs : List Text) → Perm (xs ++ (ys ++ zs)) (ys ++ (xs ++ zs))
    past [] ys zs = Perm.refl (ys ++ zs)
    past (x ∷ xs) ys zs =
        Perm.trans (Perm.cons x (past xs ys zs)) (Perm.symm (perm_middle ys (xs ++ zs)))

    -- What one answer and the later ones refuse.
    Follows-trans :
        (gone later : List Text) (p q r : Page)
        → Follows gone p q
        → Follows later q r
        → Follows (gone ++ later) p r
    Follows-trans gone later p q r first then_ =
        subst (λ ws. Perm (shown r ++ ws) (shown p ++ p.loading))
          (sym (append_assoc gone later r.loading))
          (Perm.trans (past (shown r) gone (later ++ r.loading)) (
            Perm.trans (Perm.append_left gone then_)
              (Perm.trans (past gone (shown q) q.loading) first)))

    pub arrive_all-Follows :
        (arrivals : List Arrival) (p : Page)
        → Follows (refused arrivals p) p (arrive_all str href arrivals p)
    unfolding arrive_all
    arrive_all-Follows [] p = Perm.refl (shown p ++ p.loading)
    arrive_all-Follows (a ∷ arrivals) p =
        let q = arrive str href a p in
        Follows-trans (refusals a p) (refused arrivals q) p q (arrive_all str href arrivals q)
          (arrive-Follows a p) (arrive_all-Follows arrivals q)

    arrive-cam :
        (a : Arrival) (p : Page) (cam : OrbitCam)
        → p.scene.cam ≡ some (cam, true)
        → (arrive str href a p).scene.cam ≡ some (cam, true)
    unfolding arrive on_metadata on_supported_trees answered
    arrive-cam (metadata_arrival i none) p cam here = elim (Option-cases (get_elem? p.loading i)) [
      | inl e ↦ rw (e, arrive) here
      | inr (tree, e) ↦ rw (e, arrive) here
    ]
    arrive-cam (metadata_arrival i (some response)) p cam here =
        elim (Option-cases (get_elem? p.loading i)) [
          | inl e ↦ rw (e, arrive) here
          | inr (tree, e) ↦
              rw (e, arrive)
                (add_tree-cam tree (new_metadata str response).0
                  (warn (new_metadata str response).1 (answered p i)).scene cam
                  (ap (λ s. s.cam) (warn-scene (new_metadata str response).1 (answered p i))
                    ∙ here))
        ]
    arrive-cam (trees_arrival none) p cam here = elim (Bool-cases p.choosing) [
      | inl e ↦ rw (e, arrive) here
      | inr e ↦ rw (e, arrive) here
    ]
    arrive-cam (trees_arrival (some response)) p cam here = elim (Bool-cases p.choosing) [
      | inl e ↦ rw (e, arrive) here
      | inr e ↦ rw (e, arrive) here
    ]

    pub arrive_all-cam :
        (arrivals : List Arrival) (p : Page) (cam : OrbitCam)
        → p.scene.cam ≡ some (cam, true)
        → (arrive_all str href arrivals p).scene.cam ≡ some (cam, true)
    unfolding arrive_all
    arrive_all-cam [] p cam here = here
    arrive_all-cam (a ∷ arrivals) p cam here =
        arrive_all-cam arrivals (arrive str href a p) cam (arrive-cam a p cam here)
