-- ===== src/Draw/Frame/Adds.antt =====
-- Calls of WebGL that draw with any programs, and the cloud of the selection with its buffers (renderLoop of
-- megatree_web/js/index.js, setupGL of megatree_web/js/point_cloud.js).
use megatree.Base.{length, ℕ, ◌≡◌, sym, ap, subst, ◌∙◌, Option, none, some, List, [], ◌∷◌, ◌++◌}
use mathlib.Core.List.{append_assoc, append-nil}
use megatree.Numbers.{Num}
use megatree.Selection.{Rotations}
use megatree.Controls.{Matrices}
use megatree.Draw.{Buffer, Gl, old, points}
use megatree.Draw.Clouds.{flatten_v3_array, PointCloud, Buffers}
use megatree.Draw.Frame.Calls.{
  Holds, Later-Holds, floats, Drawing, drawn, content, uploads, Later, Later-plain, Later-trans,
  Draws,
}

module _ ⦃num : Num⦄ {rot : Rotations} {mat : Matrices rot} where
  -- Calls that draw `ds`, the last first, with any programs.
  pub record Adds (g g' : Gl rot mat) (ds : List Drawing) : Type 0 where
    pub later : Later g g'
    pub drawings : drawn g'.calls ≡ ds ++ drawn g.calls

  pub Draws-Adds : (g g' : Gl rot mat) (ds : List Drawing) → Draws g g' ds → Adds g g' ds
  Draws-Adds g g' ds d = record { later = d.later; drawings = d.drawings }

  pub Adds-plain :
      (g g' : Gl rot mat)
      → g'.next_buffer ≡ g.next_buffer
      → ((b : Buffer) → content b g'.calls ≡ content b g.calls)
      → ((b : Buffer) → uploads b g'.calls ≡ uploads b g.calls)
      → drawn g'.calls ≡ drawn g.calls
      → Adds g g' []
  Adds-plain g g' next c u d = record { later = Later-plain g g' next c u; drawings = d }

  pub Adds-trans :
      (f g h : Gl rot mat) (ds es : List Drawing) → Adds f g ds → Adds g h es → Adds f h (es ++ ds)
  Adds-trans f g h ds es p q = record {
    later = Later-trans f g h p.later q.later;
    drawings =
        q.drawings ∙ ap (λ xs. es ++ xs) p.drawings ∙ sym (append_assoc es ds (drawn f.calls));
  }

  -- Where one of the two draws nothing.
  pub Adds-then : (f g h : Gl rot mat) (ds : List Drawing) → Adds f g ds → Adds g h [] → Adds f h ds
  Adds-then f g h ds p q = Adds-trans f g h ds [] p q

  pub Adds-after :
      (f g h : Gl rot mat) (ds : List Drawing) → Adds f g [] → Adds g h ds → Adds f h ds
  Adds-after f g h ds p q = subst (Adds f h) (append-nil ds) (Adds-trans f g h [] ds p q)

module _ ⦃num : Num⦄ where
  -- What a frame draws of the cells and of the selection, the last first.
  abbrev pub cells_of : Option (List ℕ) → List ℕ
  cells_of none = []
  cells_of (some cells) = cells

  abbrev pub vertices_of : Option Buffers → Option Buffer
  vertices_of none = none
  vertices_of (some b) = some b.vertex_buffer

  abbrev pub cloud_drawings : Option PointCloud → List Drawing
  cloud_drawings none = []
  cloud_drawings (some cloud) =
      record { program = some old; shape = points; buffer = vertices_of cloud.buffers } ∷ []

module _ ⦃num : Num⦄ {rot : Rotations} {mat : Matrices rot} where
  -- A cloud whose buffers hold its points and colours, each uploaded once, and which counts its points.
  pub record IsFilled (g : Gl rot mat) (cloud : PointCloud) : Type 0 where
    pub buffers : Buffers
    pub has : cloud.buffers ≡ some buffers
    pub vertices : Holds g buffers.vertex_buffer (floats (flatten_v3_array cloud.vertices))
    pub colors : Holds g buffers.color_buffer (floats (flatten_v3_array cloud.colors))
    pub count : buffers.num_items ≡ length cloud.vertices

  abbrev pub IsSetUp : Gl rot mat → Option PointCloud → Type 0
  IsSetUp g none = Unit {0}
  IsSetUp g (some cloud) = IsFilled g cloud

  pub Later-IsSetUp :
      (g g' : Gl rot mat) (cloud : Option PointCloud)
      → Later g g'
      → IsSetUp g cloud
      → IsSetUp g' cloud
  Later-IsSetUp g g' none later h = tt
  Later-IsSetUp g g' (some cloud) later h = record {
    buffers = h.buffers;
    has = h.has;
    vertices =
        Later-Holds g g' h.buffers.vertex_buffer (floats (flatten_v3_array cloud.vertices)) later
          h.vertices;
    colors =
        Later-Holds g g' h.buffers.color_buffer (floats (flatten_v3_array cloud.colors)) later
          h.colors;
    count = h.count;
  }
