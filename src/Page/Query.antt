-- ===== src/Page/Query.antt =====
-- The query of the page's address and the link that the key l makes: getVariableFromQuery,
-- getViewpointFromQuery, onKeyDown and start of megatree_web/js/index.js, and getViews of
-- megatree_web/js/megatree.js.
pub mod Parts
pub mod Link
use megatree.Base.{
  ℕ, Bool, true, false, ◌&&◌, not, Option, none, some, List, [], ◌∷◌, ◌++◌, if◌then◌else◌,
  get_elem?, get_or, when_some, Eq,
}
use megatree.Numbers.{Num, Number, lit, is_nan}
use megatree.Velocity.Trap.{Vec3}
use megatree.OrbitCam.{Config, OrbitCam}
use megatree.Cell.{Text}
use megatree.Frustum.Querier.{TreeInfo}
use megatree.Frustum.Cache.{text_eq}
use megatree.Texts.{Strings, codes, parse_float_of, split}

-- The loop over the parts of the query. A part without an equals sign has the value undefined, which
-- the page treats as it does null.
unfoldable pub find_variable : List Text → (variable : Text) → Option Text
find_variable [] variable = none
find_variable (part ∷ vars) variable =
    let pair = split (b'=' ∷ []) part in
    let rest = find_variable vars variable in
    if text_eq.beq (get_or pair 0 []) variable then get_elem? pair 1 else rest

unfoldable pub get_variable_from_query : (query variable : Text) → Option Text
get_variable_from_query query variable = find_variable (split (b'&' ∷ []) query) variable

-- What the page does once it is loaded: offer the trees of the server, or load those of its address.
pub data Opening : Type 0 where
  get_supported_trees : Opening
  load_trees : List Text → Opening

unfoldable pub opens : (tree : Option Text) → Opening
opens none = get_supported_trees
opens (some []) = get_supported_trees
opens (some (c ∷ tree)) = load_trees (split (b',' ∷ []) (c ∷ tree))

unfoldable pub opening : (query : Text) → Opening
opening query = opens (get_variable_from_query query (codes "tree"))

-- `url.substr(0, url.length-1)`
unfoldable pub drop_last : Text → Text
drop_last [] = []
drop_last (c ∷ []) = []
drop_last (c ∷ d ∷ t) = c ∷ drop_last (d ∷ t)

module _ ⦃num : Num⦄ where
  -- A viewpoint and its name.
  pub record View : Type 0 where
    pub origin : Vec3
    pub distance : Number
    pub pitch : Number
    pub yaw : Number
    pub name : Option Text

  -- The names of the trees, each with a comma.
  unfoldable pub names_of : List (Option TreeInfo) → Text
  names_of [] = []
  names_of (none ∷ trees) = names_of trees
  names_of (some t ∷ trees) = t.name ++ b',' ∷ names_of trees

  module _ (str : Strings) where
    unfoldable pub get_viewpoint_from_query : (query : Text) → Option View
    get_viewpoint_from_query query =
        let number : Text → Number = λ v. parse_float_of str (get_variable_from_query query v) in
        let x = num.fround (number (codes "c_x")) in
        let y = num.fround (number (codes "c_y")) in
        let z = num.fround (number (codes "c_z")) in
        let distance = number (codes "c_d") in
        let pitch = number (codes "c_pi") in
        let yaw = number (codes "c_ya") in
        if not (is_nan x)
          && not (is_nan y)
          && not (is_nan z)
          && not (is_nan distance)
          && not (is_nan pitch)
          && not (is_nan yaw)
        then some (record {
          origin = record { x = x; y = y; z = z };
          distance = distance;
          pitch = pitch;
          yaw = yaw;
          name = get_variable_from_query query (codes "name");
        })
        else none

    -- The lines of a file of views that hold a viewpoint.
    unfoldable pub views_of : List Text → List View
    views_of [] = []
    views_of (line ∷ lines) =
        let rest = views_of lines in
        when_some (get_viewpoint_from_query line) rest (λ view. view ∷ rest)

    unfoldable pub get_views : (response : Text) → List View
    get_views response = views_of (split (b'\n' ∷ []) response)

    -- The link to what is shown.
    unfoldable pub link : (href : Text) → List (Option TreeInfo) → OrbitCam → Text
    link href trees cam =
        drop_last (get_or (split (b'?' ∷ []) href) 0 [] ++ codes "?tree=" ++ names_of trees)
        ++ codes "&c_x="
        ++ str.show cam.origin.x
        ++ codes "&c_y="
        ++ str.show cam.origin.y
        ++ codes "&c_z="
        ++ str.show cam.origin.z
        ++ codes "&c_d="
        ++ str.show cam.distance
        ++ codes "&c_pi="
        ++ str.show cam.pitch
        ++ codes "&c_ya="
        ++ str.show cam.yaw
