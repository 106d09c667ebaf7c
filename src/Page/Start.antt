-- ===== src/Page/Start.antt =====
-- The last part of start of megatree_web/js/index.js: the camera and the trees of the page's address, or
-- the list of the server's trees, with getMetaData and getSupportedTrees of megatree_web/js/megatree.js.
-- A request is answered by a text, or by a status other than 200.
pub mod Arrivals
pub mod Links
use megatree.Base.{
  ℕ, zero, suc, Bool, true, false, Option, none, some, List, [], ◌∷◌, ◌++◌, if◌then◌else◌,
  get_elem?, get_or, erase_idx, take, Eq,
}
use megatree.Numbers.{Num}
use megatree.Cell.{Text}
use megatree.Frustum.Cache.{text_eq}
use megatree.Texts.{Strings, codes, split}
use megatree.Metadata.{new_metadata}
use megatree.Page.Query.{get_supported_trees, load_trees, opening}
use megatree.Page.Trees.{Scene, add_tree, open_viewpoint}

module _ ⦃num : Num⦄ where
  pub record Page : Type 0 where
    pub scene : Scene
    -- The trees of which the metadata are asked for, and whether the server's trees are.
    pub loading : List Text
    pub choosing : Bool
    -- What the user was shown by `$.prompt`, the last first.
    pub prompts : List Text

  abbrev pub prompt : Text → Page → Page
  prompt t p = record p { prompts = t ∷ p.prompts }

  -- `window.location.search.substring(1)`
  abbrev pub query_of : (search : Text) → Text
  query_of [] = []
  query_of (c ∷ query) = query

  unfoldable pub start_page : Strings → (search : Text) → Scene → Page
  start_page str search s =
      let scene = open_viewpoint str (query_of search) s in
      elim (opening (query_of search)) [
        | get_supported_trees ↦ record {
          scene = scene;
          loading = [];
          choosing = true;
          prompts = [];
        }
        | load_trees names ↦ record {
          scene = scene;
          loading = names;
          choosing = false;
          prompts = [];
        }
      ]

  unfoldable pub tree_item : (url tree : Text) → Text
  tree_item url tree =
      codes "<li><a href='" ++ url ++ tree ++ codes "'>" ++ tree ++ codes "</a></li>"

  -- The loop over the trees. Those whose name starts with `proc_` are left out.
  unfoldable pub tree_items : (url : Text) → List Text → Text
  tree_items url [] = []
  tree_items url (tree ∷ trees) =
      let rest = tree_items url trees in
      if text_eq.beq (take 5 tree) (codes "proc_") then rest else tree_item url tree ++ rest

  unfoldable pub tree_list : (href : Text) → List Text → Text
  tree_list href trees =
      codes "<h3>Which MegaTree would you like to see?</h3><h2><br>"
      ++ tree_items (get_or (split (b'?' ∷ []) href) 0 [] ++ codes "?tree=") trees
      ++ codes "</list></h2>"

  -- The answer to the request for the server's trees.
  unfoldable pub on_supported_trees : (href : Text) → Option Text → Page → Page
  on_supported_trees href none p =
      prompt (codes "Failed to get supported trees") (record p { choosing = false })
  on_supported_trees href (some response) p =
      prompt (tree_list href (split (b',' ∷ []) response)) (record p { choosing = false })

  unfoldable pub warn : Bool → Page → Page
  warn true p = prompt (codes "Web megatree does not work with subfolder depth less than 30!") p
  warn false p = p

  -- The answer to the request for the metadata of a tree.
  unfoldable pub on_metadata : Strings → (tree : Text) → Option Text → Page → Page
  on_metadata str tree none p = p
  on_metadata str tree (some response) p =
      let (metadata, shallow) = new_metadata str response in
      let p = warn shallow p in record p { scene = add_tree tree metadata p.scene }

  -- An answer: to one of the requests that are pending, by its place, or to the one for the trees.
  pub data Arrival : Type 0 where
    metadata_arrival : (request : ℕ) → Option Text → Arrival
    trees_arrival : Option Text → Arrival

  unfoldable pub arrive : Strings → (href : Text) → Arrival → Page → Page
  arrive str href (metadata_arrival i response) p = elim (get_elem? p.loading i) [
    | none ↦ p
    | some tree ↦ on_metadata str tree response (record p { loading = erase_idx p.loading i })
  ]
  arrive str href (trees_arrival response) p =
      if p.choosing then on_supported_trees href response p else p

  unfoldable pub arrive_all : Strings → (href : Text) → List Arrival → Page → Page
  arrive_all str href [] p = p
  arrive_all str href (a ∷ arrivals) p = arrive_all str href arrivals (arrive str href a p)
