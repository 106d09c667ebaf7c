-- ===== src/Draw/Frame/Halves.antt =====
-- The two halves of a frame of renderLoop with a camera (megatree_web/js/index.js): the cells with the lines of the
-- measurements, and their texts with the selection.
use megatree.Base.{◌≡◌, refl, List, ◌++◌, All}
use megatree.Outcome.{returns}
use megatree.Numbers.{Num, Number}
use megatree.Velocity.Mapped.{Mjs}
use megatree.OrbitCam.{OrbitCam}
use megatree.Texts.{Strings}
use megatree.Selection.{Rotations}
use megatree.Controls.{Matrices}
use megatree.Draw.{Gl, Store, call, call_all, line, textured, lines, triangle_strip, get_error}
use megatree.Draw.Marks.{Mark, Browser}
use megatree.Draw.Frame.{
  Transforms, Screen, render_cloud_of_cells, render_marks, render_texts, render_selection,
  frame_header, line_header, text_header, m_to_px,
}
use megatree.Draw.Frame.Calls.{Later, AreFresh}
use megatree.Draw.Frame.Loads.{IsQuiet}
use megatree.Draw.Frame.Stored.{Extends, cell_drawings, IsLoaded, IsStored, Later-IsStored}
use megatree.Draw.Frame.Shows.{
  IsKept, Later-IsKept, mark_drawings, IsMarked, Lined, render_marks-Lined, render_texts-Draws,
}
use megatree.Draw.Frame.Adds.{
  Adds, Draws-Adds, Adds-plain, Adds-trans, Adds-then, Adds-after, cells_of, cloud_drawings,
  IsSetUp, Later-IsSetUp,
}
use megatree.Draw.Frame.Parts.{cells-Celled, selection-Adds}

module _ ⦃num : Num⦄ {rot : Rotations} {mat : Matrices rot} where
  -- Every buffer that was made holds what it was made for, which was uploaded to it once.
  pub record IsReady (s : Screen rot mat) : Type 0 where
    pub fresh : AreFresh s.gl
    pub stored : IsStored s.store s.gl
    pub kept : All (IsKept s.gl) s.all_measurements
    pub set_up : IsSetUp s.gl s.selection_cloud

  -- Later calls of WebGL keep a screen ready.
  pub Later-IsReady :
      (s : Screen rot mat) (g : Gl rot mat)
      → Later s.gl g
      → IsReady s
      → IsReady (record s { gl = g })
  Later-IsReady s g later ready = record {
    fresh = later.fresh ready.fresh;
    stored = Later-IsStored s.store s.gl g later ready.stored;
    kept = Later-IsKept s.gl g later s.all_measurements ready.kept;
    set_up = Later-IsSetUp s.gl g s.selection_cloud later ready.set_up;
  }

module _ ⦃num : Num⦄ {rot : Rotations} {mat : Matrices rot} (v3 : Mjs) (tr : Transforms rot mat)
    (w : Browser rot mat) (str : Strings) where
  -- The calls of get_error between the parts.
  abbrev pub asked : Gl rot mat → Gl rot mat
  asked g = call get_error g

  module _ (quiet : IsQuiet w) where
    -- The first half of a frame with a camera: the cells, and the lines of the measurements.
    pub record Halfway (s : Screen rot mat) (cam : OrbitCam) : Type 0 where
      pub total : Number
      pub store : Store
      pub g2 : Gl rot mat
      pub marks : List Mark
      pub g5 : Gl rot mat
      pub cells_run :
          render_cloud_of_cells v3 tr w str cam s.current_cells s.selection s.store
            (call_all (frame_header v3 tr w str s) s.gl)
          ≡ returns (total, store, g2)
      pub lines_run :
          render_marks v3 tr w str s.all_measurements
            (asked (call_all (line_header v3 tr w str cam) g2))
          ≡ returns (marks, g5)
      pub extends : Extends s.store store
      pub stored : IsStored store g5
      pub loaded : All (IsLoaded store) (cells_of s.current_cells)
      pub lined :
          Lined v3 tr w str quiet s.all_measurements marks
            (asked (call_all (line_header v3 tr w str cam) g2))
            g5
      pub adds :
          Adds s.gl g5
            (mark_drawings line lines marks ++ cell_drawings store (cells_of s.current_cells))

    pub halfway : (s : Screen rot mat) (cam : OrbitCam) → IsReady s → Halfway s cam
    halfway s cam ready =
        let g1 = call_all (frame_header v3 tr w str s) s.gl in
        let a1 = Adds-plain s.gl g1 refl (λ b. refl) (λ b. refl) refl in
        let (total, store, g2, runs2, c) =
          cells-Celled v3 tr w str cam s.current_cells s.selection s.store g1
            (a1.later.fresh ready.fresh) (Later-IsStored s.store s.gl g1 a1.later ready.stored) in
        let cells = cell_drawings store (cells_of s.current_cells) in
        let g4 = asked (call_all (line_header v3 tr w str cam) g2) in
        let b4 = Adds-plain g2 g4 refl (λ b. refl) (λ b. refl) refl in
        let c4 = Adds-then s.gl g2 g4 cells (Adds-after s.gl g1 g2 cells a1 c.adds) b4 in
        let (marks, g5, runs5, l) =
          render_marks-Lined v3 tr w str quiet s.all_measurements g4 (c4.later.fresh ready.fresh)
            (Later-IsKept s.gl g4 c4.later s.all_measurements ready.kept) refl in
        let lined = mark_drawings line lines marks in
        let a5 = Draws-Adds g4 g5 lined l.draws in
        record {
          total = total;
          store = store;
          g2 = g2;
          marks = marks;
          g5 = g5;
          cells_run = runs2;
          lines_run = runs5;
          extends = c.extends;
          stored =
              Later-IsStored store g4 g5 a5.later (Later-IsStored store g2 g4 b4.later c.stored);
          loaded = c.loaded;
          lined = l;
          adds = Adds-trans s.gl g4 g5 cells lined c4 a5;
        }

    -- The second half: the texts of the measurements, and the selection.
    pub record Finished (s : Screen rot mat) (cam : OrbitCam) (marks : List Mark) (g5 : Gl rot mat)
        : Type 0 where
      pub g8 : Gl rot mat
      pub g10 : Gl rot mat
      pub texts_run :
          render_texts v3 tr w str cam marks (call_all (text_header v3 tr w str) (asked g5))
          ≡ returns g8
      pub selection_run :
          render_selection v3 tr w str cam (m_to_px v3 tr w str s) s.selection_cloud (asked g8)
          ≡ returns g10
      pub adds :
          Adds g5 g10
            (cloud_drawings s.selection_cloud ++ mark_drawings textured triangle_strip marks)

    pub finished :
        (s : Screen rot mat) (cam : OrbitCam) (marks : List Mark) (g5 : Gl rot mat)
        → IsSetUp s.gl s.selection_cloud
        → All IsMarked marks
        → Finished s cam marks g5
    finished s cam marks g5 set_up marked =
        let g7 = call_all (text_header v3 tr w str) (asked g5) in
        let a7 = Adds-plain g5 g7 refl (λ b. refl) (λ b. refl) refl in
        let (g8, runs8, d8) = render_texts-Draws v3 tr w str quiet cam marks g7 marked refl in
        let texts = mark_drawings textured triangle_strip marks in
        let g9 = asked g8 in
        let a9 = Adds-plain g8 g9 refl (λ b. refl) (λ b. refl) refl in
        let (g10, runs10, a10) =
          selection-Adds v3 tr w str cam (m_to_px v3 tr w str s) s.selection_cloud s.gl g9 set_up in
        let cloud = cloud_drawings s.selection_cloud in
        let b8 = Adds-after g5 g7 g8 texts a7 (Draws-Adds g7 g8 texts d8) in
        record {
          g8 = g8;
          g10 = g10;
          texts_run = runs8;
          selection_run = runs10;
          adds = Adds-trans g5 g9 g10 texts cloud (Adds-then g5 g8 g9 texts b8 a9) a10;
        }
