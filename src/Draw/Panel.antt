-- ===== src/Draw/Panel.antt =====
-- The texts of a frame: the displayed cells and the use of the cache (renderLoop and prettyBytes of
-- megatree_web/js/index.js).
use megatree.Base.{ℕ, Bool, not, ◌||◌, Option, none, some, List, [], ◌++◌, if◌then◌else◌, length}
use megatree.Numbers.{Num, Number, ◌*◌, ◌/◌, ◌<◌, ◌===◌, is_nan, lit}
use megatree.Cell.{Text}
use megatree.Texts.{Strings, codes}
use megatree.Selection.{Rotations}
use megatree.Controls.{Matrices}
use megatree.Draw.Marks.{Browser}

-- What a frame shows in texts: the bytes that were loaded, and the fields of the cache and the querier.
pub record Usage ⦃num : Num⦄ : Type 0 where
  pub size : Number
  pub max_size : Number
  pub total_cell_bytes_downloaded : Number
  pub in_flight : Number

module _ ⦃num : Num⦄ {rot : Rotations} {mat : Matrices rot} (w : Browser rot mat)
    (str : Strings) where
  unfoldable pub pretty_bytes : Number → Text
  pretty_bytes b =
      let kib = b / lit 1024 in
      let mib = kib / lit 1024 in
      let gib = mib / lit 1024 in
      if lit 1 < gib
      then w.to_fixed gib 1 ++ codes " GiB"
      else if lit 1 < mib
      then w.to_fixed mib 1 ++ codes " MiB"
      else if lit 1 < kib
      then w.to_fixed kib 1 ++ codes " KiB"
      else str.show b ++ codes " bytes"

  unfoldable pub points_text : (total_points : Number) → Text
  points_text total =
      if lit 1000000 < total
      then w.to_fixed (total / lit 1000000) 1 ++ codes " M points "
      else w.to_fixed (total / lit 1000) 0 ++ codes " k points "

  unfoldable pub display_text : (fps total_points : Number) (current_cells : Option (List ℕ)) → Text
  display_text fps total cells =
      codes "Display:<br>-  " ++ str.show (w.floor fps) ++ codes " fps<br>-  " ++ elim cells [
        | none ↦ []
        | some cells ↦
            points_text total ++ codes "(" ++ str.show (lit (length cells)) ++ codes " cells)<br>"
      ]

  abbrev truthy : Number → Bool
  truthy a = not (a === lit 0 || is_nan a)

  unfoldable pub cache_text : Usage → Text
  cache_text u =
      codes "Cache usage:<br>-  "
      ++ str.show u.size
      ++ codes "/"
      ++ str.show u.max_size
      ++ codes " = "
      ++ str.show (w.floor (lit 100 * u.size / u.max_size))
      ++ codes "%"
      ++ (if truthy u.total_cell_bytes_downloaded
          then codes "<br>-  " ++ pretty_bytes u.total_cell_bytes_downloaded
          else [])
      ++ (if truthy u.in_flight
          then codes "<br>-  loading " ++ str.show u.in_flight ++ codes " cells"
          else [])
