-- ===== src/Metadata/Reads.antt =====
-- What MetaData of megatree_web/js/metadata.js keeps of a file of lines `name = value`.
use megatree.Base.{
  ◌≡◌, refl, ap, sym, ◌∙◌, subst, Bool, true, false, List, [], ◌∷◌, ◌++◌, if◌then◌else◌, inl, inr,
  Bool-cases, All,
}
use megatree.Numbers.{Num, Number, ◌<◌, lit}
use megatree.Cell.{Text}
use megatree.Frustum.Cache.{text_eq}
use megatree.Texts.{
  Strings, codes, split, split_from, split-append, split-Lacks, Lacks, Lacks-append,
}
use megatree.Metadata.{
  MetaData, default_metadata, set_entry, set_x, set_y, set_z, read_line, read_lines, new_metadata,
}

-- A case on whether a text is a given one.
decide : (P : Text → Type 0) (t name : Text) → P name → (text_eq.beq t name ≡ false → P t) → P t
decide P t name same other = elim (Bool-cases (text_eq.beq t name)) [
  | inl e ↦ subst P (sym ((text_eq.beq_iff t name).0 e)) same
  | inr n ↦ other n
]

abbrev pub is_one_of : Text → List Text → Bool
is_one_of t [] = false
is_one_of t (n ∷ names) = if text_eq.beq t n then true else is_one_of t names

module _ ⦃num : Num⦄ where
  -- The last value of a name as `f` stores it, or `d`.
  abbrev pub last_value : Text → (Number → Number) → List (Text × Number) → Number → Number
  last_value name f [] d = d
  last_value name f ((n, v) ∷ es) d = last_value name f es (if text_eq.beq n name then f v else d)

  -- Whether an entry has one of the names, or `d` holds.
  abbrev pub mentions : List Text → List (Text × Number) → Bool → Bool
  mentions names [] d = d
  mentions names ((n, v) ∷ es) d = mentions names es (if is_one_of n names then true else d)

  abbrev pub viewpoint_names : List Text
  viewpoint_names =
      codes "default_camera_center_x"
      ∷ codes "default_camera_center_y"
      ∷ codes "default_camera_center_z"
      ∷ codes "default_camera_distance"
      ∷ codes "default_camera_yaw"
      ∷ codes "default_camera_pitch"
      ∷ []

  abbrev same : Number → Number
  same v = v

  -- The metadata that a list of entries describes, over that which was there before.
  unfoldable pub described : List (Text × Number) → MetaData → MetaData
  described es m = record {
    version = last_value (codes "version") same es m.version;
    subtree_width = last_value (codes "subtree_width") same es m.subtree_width;
    subfolder_depth = last_value (codes "subfolder_depth") same es m.subfolder_depth;
    min_cell_size = last_value (codes "min_cell_size") same es m.min_cell_size;
    root_size = last_value (codes "tree_size") same es m.root_size;
    root_center = record {
      x = last_value (codes "tree_center_x") num.fround es m.root_center.x;
      y = last_value (codes "tree_center_y") num.fround es m.root_center.y;
      z = last_value (codes "tree_center_z") num.fround es m.root_center.z;
    };
    camera_origin = record {
      x = last_value (codes "default_camera_center_x") num.fround es m.camera_origin.x;
      y = last_value (codes "default_camera_center_y") num.fround es m.camera_origin.y;
      z = last_value (codes "default_camera_center_z") num.fround es m.camera_origin.z;
    };
    camera_distance = last_value (codes "default_camera_distance") same es m.camera_distance;
    camera_yaw = last_value (codes "default_camera_yaw") same es m.camera_yaw;
    camera_pitch = last_value (codes "default_camera_pitch") same es m.camera_pitch;
    with_viewpoint = mentions viewpoint_names es m.with_viewpoint;
  }

  -- A name that the switch knows has its place, and another one is ignored.
  set_entry-described :
      (name : Text) (v : Number) (m : MetaData) → set_entry name v m ≡ described ((name, v) ∷ []) m
  unfolding set_entry set_x set_y set_z described
  set_entry-described name v m = named (codes "version") refl (λ n1.
      named (codes "min_cell_size") refl (λ n2. named (codes "subtree_width") refl (λ n3.
        named (codes "subfolder_depth") refl (λ n4. named (codes "tree_center_x") refl (λ n5.
          named (codes "tree_center_y") refl (λ n6. named (codes "tree_center_z") refl (λ n7.
            named (codes "tree_size") refl (λ n8.
              named (codes "default_camera_center_x") refl (λ n9.
                named (codes "default_camera_center_y") refl (λ n10.
                  named (codes "default_camera_center_z") refl (λ n11.
                    named (codes "default_camera_distance") refl (λ n12.
                      named (codes "default_camera_yaw") refl (λ n13.
                        named (codes "default_camera_pitch") refl (λ n14. rw (
                          n1, n2, n3, n4, n5, n6, n7, n8, n9, n10, n11, n12, n13, n14,
                        )))))))))))))))
    where
      named :
          (key : Text)
          → set_entry key v m ≡ described ((key, v) ∷ []) m
          → (text_eq.beq name key ≡ false → set_entry name v m ≡ described ((name, v) ∷ []) m)
          → set_entry name v m ≡ described ((name, v) ∷ []) m
      named key = decide (λ t. set_entry t v m ≡ described ((t, v) ∷ []) m) name key

  entries-described :
      (n : Text) (v : Number) (es : List (Text × Number)) (m : MetaData)
      → described es (set_entry n v m) ≡ described ((n, v) ∷ es) m
  unfolding described
  entries-described n v es m = ap (described es) (set_entry-described n v m)

-- A line of the file, and the file of such lines.
abbrev pub entry_line : Text × Text → Text
entry_line (name, value) = name ++ (codes " = " ++ value)

abbrev pub file_of : List (Text × Text) → Text
file_of [] = []
file_of (e ∷ es) = entry_line e ++ b'\n' ∷ file_of es

abbrev pub IsEntry : Text × Text → Type 0
IsEntry (name, value) = Lacks b' ' name × Lacks b'\n' name × Lacks b' ' value × Lacks b'\n' value

module _ ⦃num : Num⦄ (str : Strings) where
  abbrev pub values : List (Text × Text) → List (Text × Number)
  values [] = []
  values ((name, value) ∷ es) = (name, str.parse_float value) ∷ values es

  line_read :
      (name value : Text) (m : MetaData)
      → Lacks b' ' name
      → Lacks b' ' value
      → read_line str (entry_line (name, value)) m ≡ set_entry name (str.parse_float value) m
  unfolding read_line
  line_read [] value m n v =
      rw (split-append b' ' (codes "= ") [] value tt, split-Lacks b' ' (codes "= ") value v)
  line_read (c ∷ name) value m n v =
      rw (split-append b' ' (codes "= ") (c ∷ name) value n, split-Lacks b' ' (codes "= ") value v)

  lines_read :
      (es : List (Text × Text)) (m : MetaData)
      → All IsEntry es
      → read_lines str (split (b'\n' ∷ []) (file_of es)) m ≡ described (values es) m
  unfolding read_lines read_line described split split_from
  lines_read [] m none_left = refl
  lines_read ((name, value) ∷ es) m ((n, n', v, v'), rest) =
      ap (λ ls. read_lines str ls m)
        (split-append b'\n' [] (entry_line (name, value)) (file_of es)
          (Lacks-append b'\n' name (codes " = " ++ value) n' (refl, (refl, (refl, v')))))
      ∙ ap (read_lines str (split (b'\n' ∷ []) (file_of es))) (line_read name value m n v)
      ∙ lines_read es (set_entry name (str.parse_float value) m) rest
      ∙ entries-described name (str.parse_float value) (values es) m

  -- Of a file of lines `name = value`, whose names and values have no space and no line break,
  -- MetaData keeps for each of its fields the last value of its name or the default, in whatever
  -- order the names come, ignores other names, has a viewpoint exactly if one of the six names of
  -- the default camera is there, and warns exactly if the last `subfolder_depth` is below 30.
  pub new_metadata-described :
      (es : List (Text × Text))
      → All IsEntry es
      → new_metadata str (file_of es) ≡ (
        described (values es) default_metadata,
        last_value (codes "subfolder_depth") same (values es) (lit 0) < lit 30,
      )
  unfolding new_metadata described default_metadata
  new_metadata-described es entries = rw (lines_read es default_metadata entries)
