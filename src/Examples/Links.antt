-- ===== src/Examples/Links.antt =====
-- The texts of the page at concrete inputs: metadata and links.
use megatree.Base.{
  ap, arith, Bool, false, ◌==◌, ◌&&◌, if◌then◌else◌, ℕ, ◌≡◌, refl, Option, none, some, List, [],
  ◌∷◌, ◌++◌, All, ◌≢◌, true,
}
use megatree.Numbers.{lit, ◌<◌}
use megatree.Cell.{Text}
use megatree.Frustum.Querier.{TreeInfo}
use megatree.Texts.{split, split_from, codes, lacks, lacks-Lacks}
use megatree.Metadata.{default_metadata, new_metadata}
use megatree.Metadata.Reads.{
  described, file_of, values, last_value, IsEntry, new_metadata-described,
}
use megatree.Page.Query.{names_of, drop_last, link, opening, get_viewpoint_from_query}
use megatree.Page.Query.Parts.{IsName, base_of, asked}
use megatree.Page.Query.Link.{IsShown, IsShownCam, live, link-reads}
use megatree.Page.Trees.Viewpoint.{cam_of, view_of}
use mathlib.Core.List.{Perm}
use megatree.Page.Start.{Page, Arrival, metadata_arrival, start_page, arrive_all}
use megatree.Page.Start.Arrivals.{shown, refused, new_scene}
use megatree.Page.Start.Links.{is_plain, IsPlain, HasSearch, link-arrivals}
use megatree.Examples.Data.{whole, digits, cam, tree}

abbrev entries : List (Text × Text)
entries =
    (codes "version", codes "8")
    ∷ (codes "default_camera_yaw", codes "2")
    ∷ (codes "version", codes "9")
    ∷ []

lacks-IsEntry :
    (name value : Text)
    → lacks b' ' name ≡ true
    → lacks b'\n' name ≡ true
    → lacks b' ' value ≡ true
    → lacks b'\n' value ≡ true
    → IsEntry (name, value)
lacks-IsEntry name value g h k l = (
  lacks-Lacks b' ' name g,
  lacks-Lacks b'\n' name h,
  lacks-Lacks b' ' value k,
  lacks-Lacks b'\n' value l,
)

entries-IsEntry : All IsEntry entries
entries-IsEntry = (
  lacks-IsEntry (codes "version") (codes "8") refl refl refl refl,
  (
    lacks-IsEntry (codes "default_camera_yaw") (codes "2") refl refl refl refl,
    (lacks-IsEntry (codes "version") (codes "9") refl refl refl refl, tt),
  ),
)

new_metadata_example : new_metadata digits (file_of entries) ≡ (
  described (values digits entries) default_metadata,
  last_value (codes "subfolder_depth") (λ v. v) (values digits entries) (lit 0) < lit 30,
)
new_metadata_example = new_metadata-described digits entries entries-IsEntry

abbrev trees : List (Option TreeInfo)
trees = some (tree (codes "cafe")) ∷ none ∷ some (tree (codes "lab")) ∷ []

names-IsName : All IsName (live trees)
names-IsName = (
  name (codes "cafe") refl refl refl (λ e. cc),
  (name (codes "lab") refl refl refl (λ e. cc), tt),
)
  where
    name :
        (t : Text)
        → lacks b'&' t ≡ true
        → lacks b'=' t ≡ true
        → lacks b',' t ≡ true
        → t ≢ []
        → IsName t
    name t g h k l = (lacks-Lacks b'&' t g, lacks-Lacks b'=' t h, lacks-Lacks b',' t k, l)

abbrev href : Text
href = codes "http://here/?tree=old"

digit-IsShown :
    (n : ℕ)
    → digits.parse_float (digits.show (lit n)) ≡ lit n
    → lacks b'&' (digits.show (lit n)) ≡ true
    → lacks b'=' (digits.show (lit n)) ≡ true
    → IsShown digits (lit n)
digit-IsShown n e f g = record {
  parsed = e;
  number = refl;
  no_and = lacks-Lacks b'&' (digits.show (lit n)) f;
  no_equals = lacks-Lacks b'=' (digits.show (lit n)) g;
}

cam-IsShownCam : IsShownCam digits cam
cam-IsShownCam = record {
  x = digit-IsShown 1 refl refl refl;
  y = digit-IsShown 2 refl refl refl;
  z = digit-IsShown 3 refl refl refl;
  distance = digit-IsShown 7 refl refl refl;
  pitch = digit-IsShown 0 refl refl refl;
  yaw = digit-IsShown 1 refl refl refl;
  float_x = refl;
  float_y = refl;
  float_z = refl;
}

link_example :
    (query : Text) × (link digits href trees cam ≡ base_of href ++ b'?' ∷ query)
    × (opening query ≡ asked (live trees))
    × (get_viewpoint_from_query digits query ≡ some (view_of cam))
link_example = link-reads digits href trees cam names-IsName cam-IsShownCam

-- The second tree comes, the first is refused, and a request that is not pending is not answered.
abbrev arrivals : List Arrival
arrivals =
    metadata_arrival 1 (some (codes "version = 9"))
    ∷ metadata_arrival 3 (some [])
    ∷ metadata_arrival 0 none
    ∷ []

-- `location.search`: from the question mark on, and up to a number sign.
abbrev until_hash : Text → Text
until_hash [] = []
until_hash (c ∷ t) = let rest = until_hash t in if c == b'#' then [] else c ∷ rest

abbrev search : Text → Text
search [] = []
search (c ∷ t) = let rest = search t in if c == b'?' then until_hash (c ∷ t) else rest

plain-until_hash : (t : Text) → IsPlain t → until_hash t ≡ t
plain-until_hash [] h = refl
plain-until_hash (c ∷ t) (p, h) =
    let no_hash : (c == b'#') ≡ false = ground arith in
    rw no_hash (ap (c ∷◌) (plain-until_hash t h))

IsPlain-behind : (s t : Text) → IsPlain (s ++ t) → IsPlain t
IsPlain-behind [] t h = h
IsPlain-behind (c ∷ s) t (p, h) = IsPlain-behind s t h

search-HasSearch : HasSearch search (base_of href)
unfolding split split_from
search-HasSearch query some_query plain =
    ap (b'?' ∷◌) (plain-until_hash query (IsPlain-behind (codes "http://here/?") query plain))

are_plain : Text → Bool
are_plain [] = true
are_plain (c ∷ t) = let rest = are_plain t in is_plain c && rest

link-IsPlain : (t : Text) → are_plain t ≡ true → IsPlain t
unfolding are_plain
link-IsPlain [] h = tt
link-IsPlain (c ∷ t) h = (ground arith, link-IsPlain t (ground arith))

is_link_plain : are_plain (link digits href trees cam) ≡ true
unfolding are_plain link names_of drop_last split split_from
is_link_plain = refl

abbrev started : Page
started = start_page digits (search (link digits href trees cam)) new_scene

link-arrivals_example :
    Perm
      (shown (arrive_all digits href arrivals started)
        ++ (refused digits href arrivals started
            ++ (arrive_all digits href arrivals started).loading))
      (live trees)
    × ((arrive_all digits href arrivals started).scene.cam ≡ some (cam_of (view_of cam), true))
link-arrivals_example =
    link-arrivals digits search href trees cam names-IsName cam-IsShownCam search-HasSearch
      (link-IsPlain (link digits href trees cam) is_link_plain) arrivals
