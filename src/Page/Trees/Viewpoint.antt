-- ===== src/Page/Trees/Viewpoint.antt =====
-- The camera of a page that is opened by a link (start and addTree of megatree_web/js/index.js).
use megatree.Base.{◌≡◌, ap, ◌∙◌, true, false, none, some, Bool-cases, inl, inr}
use megatree.Numbers.{Num, lit, dec}
use megatree.OrbitCam.{OrbitCam, new_orbit_cam, or_default}
use megatree.Cell.{Text}
use megatree.Texts.{Strings}
use megatree.Metadata.{MetaData}
use megatree.Page.Query.{View, get_viewpoint_from_query}
use megatree.Page.Trees.{Scene, init_cam, wants_cam, add_tree, open_viewpoint}

module _ ⦃num : Num⦄ where
  unwanted : (m : MetaData) (cam : OrbitCam) → wants_cam m (some (cam, true)) ≡ false
  unfolding wants_cam
  unwanted m cam = elim (Bool-cases m.with_viewpoint) [ inl e ↦ rw e | inr e ↦ rw e ]

  pub add_tree-cam :
      (tree : Text) (m : MetaData) (s : Scene) (cam : OrbitCam)
      → s.cam ≡ some (cam, true)
      → (add_tree tree m s).cam ≡ some (cam, true)
  unfolding add_tree
  add_tree-cam tree m s cam here = let no = ap (wants_cam m) here ∙ unwanted m cam in rw no here

  -- The camera that initCam makes of a viewpoint.
  abbrev pub cam_of : View → OrbitCam
  cam_of v = new_orbit_cam (record {
    origin = some v.origin;
    distance = some v.distance;
    pitch = some v.pitch;
    yaw = some v.yaw;
    closest = some (dec 1 1);
    farthest = some (lit 1000000);
  })

  pub opened :
      (str : Strings) (query : Text) (v : View) (s : Scene)
      → get_viewpoint_from_query str query ≡ some v
      → (open_viewpoint str query s).cam ≡ some (cam_of v, true)
  unfolding open_viewpoint init_cam or_default
  opened str query v s view = rw (open_viewpoint, view)

  -- The viewpoint of a camera, without a name.
  abbrev pub view_of : OrbitCam → View
  view_of cam = record {
    origin = cam.origin;
    distance = cam.distance;
    pitch = cam.pitch;
    yaw = cam.yaw;
    name = none;
  }
