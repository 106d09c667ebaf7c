-- ===== src/Page/Start/Links.antt =====
-- Links of the key l that are opened in a browser, and the pages that start makes of them
-- (megatree_web/js/index.js).
use megatree.Base.{
  ◌≢◌, ◌||◌, ◌&&◌, not, ltb, ◌==◌, ℕ, ◌≡◌, refl, sym, ap, subst, ◌∙◌, Bool, true, Option, some,
  List, [], ◌∷◌, ◌++◌, Option-cases, inl, inr, All,
}
use mathlib.Core.List.{Perm}
use megatree.Numbers.{Num}
use megatree.OrbitCam.{OrbitCam}
use megatree.Cell.{Text}
use megatree.Frustum.Querier.{TreeInfo}
use megatree.Texts.{Strings}
use megatree.Page.Query.{
  Opening, get_supported_trees, load_trees, link, opening, get_viewpoint_from_query,
}
use megatree.Page.Query.Parts.{IsName, base_of, asked}
use megatree.Page.Query.Link.{query_of, link-query, query-tree, query-view, IsShownCam, live}
use megatree.Page.Trees.{Scene, init_cam, open_viewpoint}
use megatree.Page.Trees.Viewpoint.{cam_of, view_of, opened}
use megatree.Page.Start.{start_page, Arrival, arrive_all}
use megatree.Page.Start.Arrivals.{shown, refused, new_scene, arrive_all-Follows, arrive_all-cam}

-- A character that stays as it is in the query of an address and does not end it: printable ASCII but
-- for the quotes, the angle brackets and the number sign.
abbrev pub is_plain : ℕ → Bool
is_plain c =
    ltb 32 c && ltb c 127 && not (c == 34 || c == b'#' || c == 39 || c == b'<' || c == b'>')

abbrev pub IsPlain : Text → Type 0
IsPlain = All (λ c. is_plain c ≡ true)

-- The browser's `window.location.search`, for the address that it opens: of one that starts with `base` it is
-- the question mark and the query behind it, where there are no other characters.
abbrev pub HasSearch : (search : Text → Text) (base : Text) → Type 0
HasSearch search base =
    (query : Text)
    → query ≢ []
    → IsPlain (base ++ b'?' ∷ query)
    → search (base ++ b'?' ∷ query) ≡ b'?' ∷ query

module _ ⦃num : Num⦄ where
  module _ (str : Strings) (href : Text) where
    opened-trees :
        (query : Text) (s : Scene)
        → (open_viewpoint str query s).trees.trees_info ≡ s.trees.trees_info
    unfolding open_viewpoint init_cam
    opened-trees query s = elim (Option-cases (get_viewpoint_from_query str query)) [
      | inl e ↦ rw (open_viewpoint, e)
      | inr (v, e) ↦ rw (open_viewpoint, e)
    ]

    start-scene :
        (query : Text) (s : Scene) (o : Opening)
        → opening query ≡ o
        → (start_page str (b'?' ∷ query) s).scene ≡ open_viewpoint str query s
    unfolding start_page
    start-scene query s get_supported_trees e = rw (e, start_page)
    start-scene query s (load_trees names) e = rw (e, start_page)

    start-names :
        (query : Text) (names : List Text) (s : Scene)
        → opening query ≡ asked names
        → s.trees.trees_info ≡ []
        → shown (start_page str (b'?' ∷ query) s) ++ (start_page str (b'?' ∷ query) s).loading
          ≡ names
    unfolding start_page
    start-names query [] s asks no_trees =
        rw (asks, start_page) (ap (λ ts. live ts ++ []) (opened-trees query s ∙ no_trees))
    start-names query (n ∷ names) s asks no_trees =
        rw (asks, start_page) (ap (λ ts. live ts ++ n ∷ names) (opened-trees query s ∙ no_trees))

    not_empty : (names : List Text) (cam : OrbitCam) → query_of str names cam ≢ []
    not_empty [] cam e = cc e
    not_empty (n ∷ names) cam e = cc e

  -- Under the conditions under which a link is read back, where the link has only printable ASCII
  -- characters and of those no quote, angle bracket or number sign, and the browser takes the query
  -- of an address of such characters that starts as that of the page as it is: a page that is opened
  -- by the link from the start shows, has seen refused or still waits for exactly the trees of the
  -- link, each as often as the link has it, whatever answers have come and in whatever order, and
  -- its camera is the one that initCam makes of the viewpoint of the link.
  pub link-arrivals :
      (str : Strings) (search : Text → Text) (href : Text) (trees : List (Option TreeInfo))
      (cam : OrbitCam)
      → All IsName (live trees)
      → IsShownCam str cam
      → HasSearch search (base_of href)
      → IsPlain (link str href trees cam)
      → (arrivals : List Arrival)
      → Perm
          (shown (
              arrive_all str href arrivals
                (start_page str (search (link str href trees cam)) new_scene))
            ++ (refused str href arrivals
                  (start_page str (search (link str href trees cam)) new_scene)
                ++ (arrive_all str href arrivals
                    (start_page str (search (link str href trees cam)) new_scene)).loading))
          (live trees)
        × ((arrive_all str href arrivals
              (start_page str (search (link str href trees cam)) new_scene)).scene.cam
            ≡ some (cam_of (view_of cam), true))
  link-arrivals str search href trees cam ok readable has plain arrivals =
      let query = query_of str (live trees) cam in
      let made = link-query str href trees cam in
      let searched : search (link str href trees cam) ≡ b'?' ∷ query =
        ap search made
        ∙ has query (not_empty str href (live trees) cam) (subst IsPlain made plain) in
      let start = start_page str (b'?' ∷ query) new_scene in
      let names =
        start-names str href query (live trees) new_scene
          (query-tree str (live trees) cam ok readable) refl in
      let view = query-view str (live trees) cam ok readable in
      subst
        (λ t.
          Perm
            (shown (arrive_all str href arrivals (start_page str t new_scene))
              ++ (refused str href arrivals (start_page str t new_scene)
                  ++ (arrive_all str href arrivals (start_page str t new_scene)).loading))
            (live trees)
          × ((arrive_all str href arrivals (start_page str t new_scene)).scene.cam
              ≡ some (cam_of (view_of cam), true)))
        (sym searched)
        (
          subst
              (Perm (
                shown (arrive_all str href arrivals start)
                ++ (refused str href arrivals start
                    ++ (arrive_all str href arrivals start).loading)))
              names (arrive_all-Follows str href arrivals start),
          arrive_all-cam str href arrivals start _ (
              ap (λ s. s.cam) (start-scene str href query new_scene (opening query) refl)
              ∙ opened str query (view_of cam) new_scene view),
        )
