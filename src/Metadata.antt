-- ===== src/Metadata.antt =====
-- The metadata of a tree: MetaData of megatree_web/js/metadata.js and getRootGeom of
-- megatree_web/js/megatree.js. Writing to the console is not modelled.
pub mod Reads
use megatree.Base.{
  ℕ, Bool, true, false, Option, none, some, List, [], ◌∷◌, ◌++◌, if◌then◌else◌, get_elem?, get_or,
  Eq,
}
use megatree.Numbers.{Num, Number, ◌<◌, ◌+◌, ◌-◌, ◌/◌, lit}
use megatree.Velocity.Trap.{Vec3}
use megatree.OrbitCam.{float32}
use megatree.Cell.{Text, NodeGeometry}
use megatree.Frustum.Cache.{text_eq}
use megatree.Texts.{Strings, codes, parse_float_of, split}

pub record MetaData ⦃num : Num⦄ : Type 0 where
  pub version : Number
  pub subtree_width : Number
  pub subfolder_depth : Number
  pub min_cell_size : Number
  pub root_size : Number
  pub root_center : Vec3
  pub camera_origin : Vec3
  pub camera_distance : Number
  pub camera_yaw : Number
  pub camera_pitch : Number
  pub with_viewpoint : Bool

module _ ⦃num : Num⦄ where
  abbrev pub origin : Vec3
  origin = float32 (record { x = lit 0; y = lit 0; z = lit 0 })

  unfoldable pub default_metadata : MetaData
  default_metadata = record {
    version = lit 0;
    subtree_width = lit 0;
    subfolder_depth = lit 0;
    min_cell_size = lit 0;
    root_size = lit 0;
    root_center = origin;
    camera_origin = origin;
    camera_distance = lit 0;
    camera_yaw = lit 0;
    camera_pitch = lit 0;
    with_viewpoint = false;
  }

  -- The writes to the index 0, 1 or 2 of a Float32Array.
  unfoldable pub set_x : Number → Vec3 → Vec3
  set_x a v = record v { x = num.fround a }

  unfoldable pub set_y : Number → Vec3 → Vec3
  set_y a v = record v { y = num.fround a }

  unfoldable pub set_z : Number → Vec3 → Vec3
  set_z a v = record v { z = num.fround a }

  -- The `switch` on the name in front of the equals sign.
  unfoldable pub set_entry : Text → Number → MetaData → MetaData
  set_entry name nr m =
      if text_eq.beq name (codes "version")
      then record m { version = nr }
      else if text_eq.beq name (codes "min_cell_size")
      then record m { min_cell_size = nr }
      else if text_eq.beq name (codes "subtree_width")
      then record m { subtree_width = nr }
      else if text_eq.beq name (codes "subfolder_depth")
      then record m { subfolder_depth = nr }
      else if text_eq.beq name (codes "tree_center_x")
      then record m { root_center = set_x nr m.root_center }
      else if text_eq.beq name (codes "tree_center_y")
      then record m { root_center = set_y nr m.root_center }
      else if text_eq.beq name (codes "tree_center_z")
      then record m { root_center = set_z nr m.root_center }
      else if text_eq.beq name (codes "tree_size")
      then record m { root_size = nr }
      else if text_eq.beq name (codes "default_camera_center_x")
      then record m { with_viewpoint = true; camera_origin = set_x nr m.camera_origin }
      else if text_eq.beq name (codes "default_camera_center_y")
      then record m { with_viewpoint = true; camera_origin = set_y nr m.camera_origin }
      else if text_eq.beq name (codes "default_camera_center_z")
      then record m { with_viewpoint = true; camera_origin = set_z nr m.camera_origin }
      else if text_eq.beq name (codes "default_camera_distance")
      then record m { with_viewpoint = true; camera_distance = nr }
      else if text_eq.beq name (codes "default_camera_yaw")
      then record m { with_viewpoint = true; camera_yaw = nr }
      else if text_eq.beq name (codes "default_camera_pitch")
      then record m { with_viewpoint = true; camera_pitch = nr }
      else m

  module _ (str : Strings) where
    -- One round of the loop; an empty line is passed over.
    unfoldable pub read_line : Text → MetaData → MetaData
    read_line [] m = m
    read_line (c ∷ t) m =
        let line = split (codes " = ") (c ∷ t) in
        set_entry (get_or line 0 []) (parse_float_of str (get_elem? line 1)) m

    unfoldable pub read_lines : List Text → MetaData → MetaData
    read_lines [] m = m
    read_lines (l ∷ lines) m = read_lines lines (read_line l m)

    -- The metadata, and whether the user is told that the tree has too small a `subfolder_depth`.
    unfoldable pub new_metadata : Text → MetaData × Bool
    new_metadata data_text =
        let m = read_lines (split (b'\n' ∷ []) data_text) default_metadata in
        (m, m.subfolder_depth < lit 30)

    abbrev pub vec_text : Vec3 → Text
    vec_text v = str.show v.x ++ codes " " ++ str.show v.y ++ codes " " ++ str.show v.z

    -- One line of `toString`.
    abbrev pub line_of : Text → Text → Text
    line_of label value = codes "  " ++ label ++ codes ": " ++ value ++ b'\n' ∷ []

    unfoldable pub to_string : MetaData → Text
    to_string m =
        line_of (codes "version") (str.show m.version)
        ++ line_of (codes "min_cell_size") (str.show m.min_cell_size)
        ++ line_of (codes "subtree_width") (str.show m.subtree_width)
        ++ line_of (codes "subfolder_depth") (str.show m.subfolder_depth)
        ++ line_of (codes "tree_center") (vec_text m.root_center)
        ++ line_of (codes "tree_size") (str.show m.root_size)
        ++ line_of (codes "camera_origin") (vec_text m.camera_origin)
        ++ line_of (codes "camera_distance") (str.show m.camera_distance)
        ++ line_of (codes "camera_yaw") (str.show m.camera_yaw)
        ++ line_of (codes "camera_pitch") (str.show m.camera_pitch)

  -- The cube of a tree, and a point where there is no metadata.
  unfoldable pub get_root_geom : Option MetaData → NodeGeometry
  get_root_geom none = record { level = 1; lo = origin; hi = origin }
  get_root_geom (some m) =
      let s = m.root_size / lit 2 in
      let c = m.root_center in
      record {
        level = 1;
        lo = float32 (record { x = c.x - s; y = c.y - s; z = c.z - s });
        hi = float32 (record { x = c.x + s; y = c.y + s; z = c.z + s });
      }
