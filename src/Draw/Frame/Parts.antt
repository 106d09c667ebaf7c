-- ===== src/Draw/Frame/Parts.antt =====
-- Two parts of a frame of renderLoop (megatree_web/js/index.js): the cells and the selection.
use megatree.Base.{ℕ, ◌≡◌, refl, sym, subst, Option, none, some, List, [], ◌∷◌, All}
use megatree.Outcome.{returns}
use megatree.Numbers.{Num, Number, lit}
use megatree.Velocity.Mapped.{Mjs}
use megatree.OrbitCam.{OrbitCam, get_position}
use megatree.Texts.{Strings}
use megatree.Selection.{Rotations, Selection}
use megatree.Controls.{Matrices, get_matrix}
use megatree.Draw.{
  Gl, Store, call, call_all, current, old, points, clear_depth, use_program, uniform1f, uniform3fv,
  uniform_matrix3fv, uniform_matrix4fv, meters_to_pixels, r_camera_world, p_selection_camera,
  model_view_matrix,
}
use megatree.Draw.Marks.{Browser}
use megatree.Draw.Clouds.{PointCloud}
use megatree.Draw.Frame.{Transforms, render_cells, render_cloud_of_cells, render_selection, m_to_px}
use megatree.Draw.Frame.Calls.{Drawing, in_use, AreFresh}
use megatree.Draw.Frame.Loads.{render_cloud-Draws}
use megatree.Draw.Frame.Stored.{
  Extends, Extends-refl, cell_drawings, IsLoaded, IsStored, Later-IsStored, render_cells-Drawn,
}
use megatree.Draw.Frame.Adds.{
  Adds, Draws-Adds, Adds-plain, Adds-trans, Adds-after, cells_of, vertices_of, cloud_drawings,
  IsSetUp,
}

module _ ⦃num : Num⦄ {rot : Rotations} {mat : Matrices rot} (v3 : Mjs) (tr : Transforms rot mat)
    (w : Browser rot mat) (str : Strings) where
  -- The cells that are drawn by a frame.
  pub record Celled (cells : Option (List ℕ)) (s s' : Store) (g g' : Gl rot mat) : Type 0 where
    pub extends : Extends s s'
    pub stored : IsStored s' g'
    pub loaded : All (IsLoaded s') (cells_of cells)
    pub adds : Adds g g' (cell_drawings s' (cells_of cells))

  from_header :
      (cam : OrbitCam) (cells : List ℕ) (s : Store) (g g1 : Gl rot mat)
      → AreFresh g
      → IsStored s g
      → Adds g g1 []
      → in_use g1.calls ≡ some current
      → (total : Number) × (s' : Store) × (g' : Gl rot mat) × (render_cells v3 tr w str
            (get_position v3 cam)
            cells
            (lit 0)
            s
            g1
          ≡ returns (total, s', g'))
        × Celled (some cells) s s' g g'
  from_header cam cells s g g1 free stored header using =
      let (total, s', g', runs, d) =
        render_cells-Drawn v3 tr w str (get_position v3 cam) cells (lit 0) s g1
          (header.later.fresh free) (Later-IsStored s g g1 header.later stored) using in
      (
        total,
        s',
        g',
        runs,
        record {
          extends = d.extends;
          stored = d.stored;
          loaded = d.loaded;
          adds =
              Adds-after g g1 g' (cell_drawings s' cells) header
                (Draws-Adds g1 g' (cell_drawings s' cells) d.draws);
        },
      )

  pub cells-Celled :
      (cam : OrbitCam) (cells : Option (List ℕ)) (selection : Option (Selection rot)) (s : Store)
      (g : Gl rot mat)
      → AreFresh g
      → IsStored s g
      → (total : Number) × (s' : Store) × (g' : Gl rot mat) × (render_cloud_of_cells v3 tr w str cam
            cells selection s g
          ≡ returns (total, s', g'))
        × Celled cells s s' g g'
  unfolding render_cloud_of_cells
  cells-Celled cam none selection s g free stored = (
    lit 0,
    s,
    g,
    refl,
    record {
      extends = Extends-refl s;
      stored = stored;
      loaded = tt;
      adds = Adds-plain g g refl (λ b. refl) (λ b. refl) refl;
    },
  )
  cells-Celled cam (some cells) none s g free stored =
      let matrix = mat.top_left3x3 (get_matrix v3 rot mat cam) in
      let g1 =
        call_all (use_program current ∷ uniform_matrix3fv current r_camera_world matrix ∷ []) g in
      from_header cam cells s g g1 free stored (Adds-plain g g1 refl (λ b. refl) (λ b. refl) refl)
        refl
  cells-Celled cam (some cells) (some sel) s g free stored =
      let matrix = mat.top_left3x3 (get_matrix v3 rot mat cam) in
      let g1 =
        call_all
          (use_program current
            ∷ uniform_matrix3fv current r_camera_world matrix
            ∷ uniform3fv current p_selection_camera
                (v3.sub (get_position v3 cam) sel.p_world_selection)
            ∷ [])
          g in
      from_header cam cells s g g1 free stored (Adds-plain g g1 refl (λ b. refl) (λ b. refl) refl)
        refl

  pub selection-Adds :
      (cam : OrbitCam) (m_to_px : Number) (cloud : Option PointCloud) (g0 g : Gl rot mat)
      → IsSetUp g0 cloud
      → (g' : Gl rot mat) × (render_selection v3 tr w str cam m_to_px cloud g ≡ returns g')
        × Adds g g' (cloud_drawings cloud)
  unfolding render_selection
  selection-Adds cam m_to_px none g0 g set_up =
      (g, refl, Adds-plain g g refl (λ b. refl) (λ b. refl) refl)
  selection-Adds cam m_to_px (some cloud) g0 g set_up =
      let b = set_up.buffers in
      let has = set_up.has in
      let g1 =
        call_all
          (clear_depth
            ∷ use_program old
            ∷ uniform_matrix4fv old model_view_matrix (get_matrix v3 rot mat cam)
            ∷ uniform1f old meters_to_pixels m_to_px
            ∷ [])
          g in
      let (g2, runs, d) = render_cloud-Draws cloud b g1 has in
      let g3 = call (use_program current) g2 in
      let one : Drawing = record {
        program = some old;
        shape = points;
        buffer = some b.vertex_buffer;
      } in
      (
        g3,
        rw runs refl,
        subst
            (λ o.
              Adds g g3
                (record { program = some old; shape = points; buffer = vertices_of o } ∷ []))
            (sym has)
            (Adds-trans g g2 g3 (one ∷ []) []
              (Adds-trans g g1 g2 [] (one ∷ []) (Adds-plain g g1 refl (λ b. refl) (λ b. refl) refl)
                (Draws-Adds g1 g2 (one ∷ []) d))
              (Adds-plain g2 g3 refl (λ b. refl) (λ b. refl) refl)),
      )
