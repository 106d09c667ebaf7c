-- ===== src/Page/Query/Link.antt =====
-- The link of the key l (onKeyDown of megatree_web/js/index.js) read back by start and
-- getViewpointFromQuery.
use megatree.Base.{
  ◌≡◌, refl, ap, ◌∙◌, true, false, Option, none, some, List, [], ◌∷◌, ◌++◌, if◌then◌else◌, All,
}
use mathlib.Core.List.{append_assoc}
use megatree.Numbers.{Num, Number, is_nan}
use megatree.OrbitCam.{OrbitCam}
use megatree.Cell.{Text}
use megatree.Frustum.Querier.{TreeInfo}
use megatree.Frustum.Cache.{text_eq}
use megatree.Texts.{
  Strings, codes, split, split-join, join, Lacks, Lacks-append, lacks, lacks-Lacks,
}
use megatree.Page.Query.{
  find_variable, get_variable_from_query, opens, opening, names_of, get_viewpoint_from_query, link,
}
use megatree.Page.Query.Parts.{
  trailing, start_of, tree_part, asked, IsName, part, found, tree_part-Lacks, tree_found,
  tree_passed, base_of,
}

module _ ⦃num : Num⦄ where
  abbrev pub live : List (Option TreeInfo) → List Text
  live [] = []
  live (none ∷ trees) = live trees
  live (some t ∷ trees) = t.name ∷ live trees

  names_of-live : (trees : List (Option TreeInfo)) → names_of trees ≡ trailing (live trees)
  unfolding names_of
  names_of-live [] = refl
  names_of-live (none ∷ trees) = names_of-live trees
  names_of-live (some t ∷ trees) = ap (λ s. t.name ++ b',' ∷ s) (names_of-live trees)

module _ ⦃num : Num⦄ (str : Strings) where
  -- The text of a number is read back, and has no separator of the query in it.
  pub record IsShown (a : Number) : Type 0 where
    pub parsed : str.parse_float (str.show a) ≡ a
    pub number : is_nan a ≡ false
    pub no_and : Lacks b'&' (str.show a)
    pub no_equals : Lacks b'=' (str.show a)

  abbrev pub parts : List (Text × Number) → List Text
  parts [] = []
  parts ((name, a) ∷ entries) = part name (str.show a) ∷ parts entries

  abbrev lookup : List (Text × Number) → Text → Option Text
  lookup [] v = none
  lookup ((name, a) ∷ entries) v =
      let rest = lookup entries v in if text_eq.beq name v then some (str.show a) else rest

  abbrev IsPart : Text × Number → Type 0
  IsPart (name, a) = Lacks b'&' name × Lacks b'=' name × IsShown a

  find-parts :
      (entries : List (Text × Number)) (v : Text)
      → All IsPart entries
      → find_variable (parts entries) v ≡ lookup entries v
  unfolding find_variable
  find-parts [] v ok = refl
  find-parts ((name, a) ∷ entries) v ((n, e, shown), ok) =
      found name (str.show a) (parts entries) v e shown.no_equals
      ∙ ap (λ o. if text_eq.beq name v then some (str.show a) else o) (find-parts entries v ok)

  parts_lack :
      (entries : List (Text × Number)) → All IsPart entries → All (Lacks b'&') (parts entries)
  parts_lack [] ok = tt
  parts_lack ((name, a) ∷ entries) ((n, e, shown), ok) =
      (Lacks-append b'&' name (b'=' ∷ str.show a) n (refl, shown.no_and), parts_lack entries ok)

  abbrev pub entries_of : OrbitCam → List (Text × Number)
  entries_of cam =
      (codes "c_x", cam.origin.x)
      ∷ (codes "c_y", cam.origin.y)
      ∷ (codes "c_z", cam.origin.z)
      ∷ (codes "c_d", cam.distance)
      ∷ (codes "c_pi", cam.pitch)
      ∷ (codes "c_ya", cam.yaw)
      ∷ []

  abbrev pub view_parts : OrbitCam → List Text
  view_parts cam = parts (entries_of cam)

  abbrev pub query_of : List Text → OrbitCam → Text
  query_of names cam = join b'&' (tree_part names ∷ view_parts cam)

  pub link-query :
      (href : Text) (trees : List (Option TreeInfo)) (cam : OrbitCam)
      → link str href trees cam ≡ base_of href ++ b'?' ∷ query_of (live trees) cam
  unfolding link
  link-query href trees cam =
      rw (names_of-live trees, start_of (base_of href) (live trees)) (simp (append_assoc) refl)

  -- The numbers of a camera can be read back, and its origin is as a Float32Array holds it.
  pub record IsShownCam (cam : OrbitCam) : Type 0 where
    pub x : IsShown cam.origin.x
    pub y : IsShown cam.origin.y
    pub z : IsShown cam.origin.z
    pub distance : IsShown cam.distance
    pub pitch : IsShown cam.pitch
    pub yaw : IsShown cam.yaw
    pub float_x : num.fround cam.origin.x ≡ cam.origin.x
    pub float_y : num.fround cam.origin.y ≡ cam.origin.y
    pub float_z : num.fround cam.origin.z ≡ cam.origin.z

  are_parts : (cam : OrbitCam) → IsShownCam cam → All IsPart (entries_of cam)
  are_parts cam ok = (
    named (codes "c_x") refl refl ok.x,
    (
      named (codes "c_y") refl refl ok.y,
      (
        named (codes "c_z") refl refl ok.z,
        (
          named (codes "c_d") refl refl ok.distance,
          (named (codes "c_pi") refl refl ok.pitch, (named (codes "c_ya") refl refl ok.yaw, tt)),
        ),
      ),
    ),
  )
    where
      named :
          (name : Text) {a : Number}
          → lacks b'&' name ≡ true
          → lacks b'=' name ≡ true
          → IsShown a
          → IsPart (name, a)
      named name g h shown = (lacks-Lacks b'&' name g, lacks-Lacks b'=' name h, shown)

  module _ (names : List Text) (cam : OrbitCam) (ok : All IsName names)
      (shown : IsShownCam cam) where
    query-split : split (b'&' ∷ []) (query_of names cam) ≡ tree_part names ∷ view_parts cam
    query-split =
        split-join b'&' (tree_part names) (view_parts cam)
          (tree_part-Lacks names ok, parts_lack (entries_of cam) (are_parts cam shown))

    pub query-tree : opening (query_of names cam) ≡ asked names
    unfolding opening get_variable_from_query
    query-tree =
        ap (λ ps. opens (find_variable ps (codes "tree"))) query-split
        ∙ tree_found names (view_parts cam) ok

    query-variable :
        (v : Text)
        → text_eq.beq (codes "tree") v ≡ false
        → get_variable_from_query (query_of names cam) v ≡ lookup (entries_of cam) v
    unfolding get_variable_from_query
    query-variable v other =
        ap (λ ps. find_variable ps v) query-split
        ∙ tree_passed names (view_parts cam) v ok other
        ∙ find-parts (entries_of cam) v (are_parts cam shown)

    pub query-view :
        get_viewpoint_from_query str (query_of names cam)
        ≡ some (record {
          origin = cam.origin;
          distance = cam.distance;
          pitch = cam.pitch;
          yaw = cam.yaw;
          name = none;
        })
    unfolding get_viewpoint_from_query
    query-view =
        let x = query-variable (codes "c_x") refl in
        let y = query-variable (codes "c_y") refl in
        let z = query-variable (codes "c_z") refl in
        let d = query-variable (codes "c_d") refl in
        let p = query-variable (codes "c_pi") refl in
        let w = query-variable (codes "c_ya") refl in
        let n = query-variable (codes "name") refl in
        rw (
          x, y, z, d, p, w, n, shown.x.parsed, shown.y.parsed, shown.z.parsed,
          shown.distance.parsed, shown.pitch.parsed, shown.yaw.parsed, shown.float_x, shown.float_y,
          shown.float_z, shown.x.number, shown.y.number, shown.z.number, shown.distance.number,
          shown.pitch.number, shown.yaw.number,
        )

  -- The link that the key l makes is the address up to its question mark, a question mark and a
  -- query, from which start reads the names of the trees in order, none if no tree is shown, and
  -- getViewpointFromQuery the origin, distance, pitch and yaw of the camera, where the names are not
  -- empty and have no ampersand, equals sign or comma, and each number is no NaN, is read back from
  -- its text and has neither of the first two in it, and the origin is as a Float32Array holds it.
  pub link-reads :
      (href : Text) (trees : List (Option TreeInfo)) (cam : OrbitCam)
      → All IsName (live trees)
      → IsShownCam cam
      → (query : Text) × (link str href trees cam ≡ base_of href ++ b'?' ∷ query)
        × (opening query ≡ asked (live trees))
        × (get_viewpoint_from_query str query
            ≡ some (record {
              origin = cam.origin;
              distance = cam.distance;
              pitch = cam.pitch;
              yaw = cam.yaw;
              name = none;
            }))
  link-reads href trees cam ok shown = (
    query_of (live trees) cam,
    link-query href trees cam,
    query-tree (live trees) cam ok shown,
    query-view (live trees) cam ok shown,
  )
