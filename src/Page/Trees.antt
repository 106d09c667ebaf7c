-- ===== src/Page/Trees.antt =====
-- The trees that are shown and the camera: addTree, initCam, toggleTreeMode and the start of the camera
-- in start, of megatree_web/js/index.js, and TreeInfo of megatree_web/js/megatree.js.
pub mod Viewpoint
use megatree.Base.{
  ℕ, zero, suc, Bool, true, false, not, ◌&&◌, ◌||◌, Option, none, some, List, [], ◌∷◌, ◌++◌,
  if◌then◌else◌, get_elem?, set, length, ltb,
}
use megatree.Outcome.{Outcome, returns, throws}
use megatree.Numbers.{Num, Number, lit, dec}
use megatree.Velocity.Trap.{Vec3}
use megatree.OrbitCam.{Config, OrbitCam, new_orbit_cam, or_default}
use megatree.Cell.{Text}
use megatree.Frustum.Querier.{TreeInfo}
use megatree.Texts.{Strings, codes}
use megatree.Metadata.{MetaData, get_root_geom}
use megatree.Page.Jobs.{Trees}
use megatree.Page.Query.{View, get_viewpoint_from_query}

module _ ⦃num : Num⦄ where
  unfoldable pub new_tree_info : (name : Text) (metadata : MetaData) (color : Vec3) → TreeInfo
  new_tree_info name metadata color = record {
    enabled = true;
    name = name;
    override_color = false;
    color = color;
    root = name ++ codes "/f1";
    geom = get_root_geom (some metadata);
  }

  -- The camera with its property `from_url`, and the trees.
  pub record Scene : Type 0 where
    pub trees : Trees
    pub cam : Option (OrbitCam × Bool)

  -- A call of triggerFrustumUpdate.
  abbrev pub update : Trees → Trees
  update s = record s { updates = suc s.updates }

  unfoldable pub init_cam : Config → Scene → Scene
  init_cam config s = record {
    cam = some (
      new_orbit_cam (record config {
        closest = some (or_default config.closest (dec 1 1));
        farthest = some (or_default config.farthest (lit 1000000));
      }),
      false,
    );
    trees = update s.trees;
  }

  unfoldable pub metadata_config : MetaData → Config
  metadata_config m = record {
    origin = some m.camera_origin;
    distance = some m.camera_distance;
    yaw = some m.camera_yaw;
    pitch = some m.camera_pitch;
    closest = none;
    farthest = none;
  }

  -- `cam == null || (metadata.with_viewpoint && !cam.from_url)`
  unfoldable pub wants_cam : MetaData → Option (OrbitCam × Bool) → Bool
  wants_cam m none = true
  wants_cam m (some (cam, from_url)) = m.with_viewpoint && not from_url

  unfoldable pub add_tree : (tree : Text) → MetaData → Scene → Scene
  add_tree tree metadata s =
      let red : Vec3 = record { x = lit 1; y = lit 0; z = lit 0 } in
      let trees_info = s.trees.trees_info ++ some (new_tree_info tree metadata red) ∷ [] in
      let s = record s { trees = record s.trees { trees_info = trees_info } } in
      let s = if wants_cam metadata s.cam then init_cam (metadata_config metadata) s else s in
      record s { trees = update s.trees }

  -- The camera of the address, of which start marks that it is from there.
  unfoldable pub open_viewpoint : Strings → (query : Text) → Scene → Scene
  open_viewpoint str query s = elim (get_viewpoint_from_query str query) [
    | none ↦ s
    | some v ↦ marked (init_cam (view_config v) s)
  ]
    where
      view_config : View → Config
      view_config v = record {
        origin = some v.origin;
        distance = some v.distance;
        pitch = some v.pitch;
        yaw = some v.yaw;
        closest = none;
        farthest = none;
      }

      marked : Scene → Scene
      marked s = record s { cam = elim s.cam [ none ↦ none | some c ↦ some (c.0, true) ] }

  unfoldable pub toggle_tree : (shift_key : Bool) → TreeInfo → TreeInfo
  toggle_tree true t = record t { enabled = true; override_color = not t.override_color }
  toggle_tree false t = record t { enabled = not t.enabled }

  -- Where the tree was removed, its place is null and the access throws.
  unfoldable pub toggle_tree_mode : (shift_key : Bool) (tree : ℕ) → Trees → Outcome Trees
  toggle_tree_mode shift tree s = elim (get_elem? s.trees_info tree) [
    | none ↦ returns s
    | some none ↦ throws
    | some (some t) ↦
        returns
          (update (record s { trees_info = set s.trees_info tree (some (toggle_tree shift t)) }))
  ]
