-- ===== src/Draw/Clouds.antt =====
-- The cloud that shows the selection: PointCloud of megatree_web/js/point_cloud.js.
use megatree.Base.{ℕ, suc, Option, none, some, List, [], ◌∷◌, false, length}
use megatree.Outcome.{Outcome, returns, throws}
use megatree.Numbers.{Num, Number, lit}
use megatree.Velocity.Trap.{Vec3}
use megatree.Selection.{Rotations}
use megatree.Controls.{Matrices}
use megatree.Draw.{
  Buffer, Command, Gl, call_all, old, vertex, color, points, create_buffer, bind_buffer,
  buffer_floats, vertex_attrib_pointer, draw_arrays,
}

-- The points and their colours. Of `ctx` and the buffers, which setupGL sets at once, and numItems.
pub record Buffers : Type 0 where
  pub vertex_buffer : Buffer
  pub color_buffer : Buffer
  pub num_items : ℕ

pub record PointCloud ⦃num : Num⦄ : Type 0 where
  pub vertices : List Vec3
  pub colors : List Vec3
  pub buffers : Option Buffers

module _ ⦃num : Num⦄ where
  unfoldable pub flatten_v3_array : List Vec3 → List Number
  flatten_v3_array [] = []
  flatten_v3_array (v ∷ vs) = v.x ∷ v.y ∷ v.z ∷ flatten_v3_array vs

module _ ⦃num : Num⦄ {rot : Rotations} {mat : Matrices rot} where
  unfoldable pub setup_gl : PointCloud → Gl rot mat → PointCloud × Gl rot mat
  setup_gl cloud g =
      let v = g.next_buffer in
      let c = suc v in
      (
        record cloud {
          buffers =
              some
                (record { vertex_buffer = v; color_buffer = c; num_items = length cloud.vertices });
        },
        call_all
            (create_buffer v
              ∷ bind_buffer v
              ∷ buffer_floats (flatten_v3_array cloud.vertices)
              ∷ create_buffer c
              ∷ bind_buffer c
              ∷ buffer_floats (flatten_v3_array cloud.colors)
              ∷ [])
            (record g { next_buffer = suc c }),
      )

  abbrev pub cloud_calls : Buffers → List (Command rot mat)
  cloud_calls b =
      bind_buffer b.vertex_buffer
      ∷ vertex_attrib_pointer old vertex 3 false 0 0
      ∷ bind_buffer b.color_buffer
      ∷ vertex_attrib_pointer old color 3 false 0 0
      ∷ draw_arrays points 0 (lit b.num_items)
      ∷ []

  -- Without a context a property of `null` is read.
  unfoldable pub render_cloud : PointCloud → Gl rot mat → Outcome (Gl rot mat)
  render_cloud cloud g = elim cloud.buffers [
    | none ↦ throws
    | some b ↦ returns (call_all (cloud_calls b) g)
  ]
