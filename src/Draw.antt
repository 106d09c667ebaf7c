-- ===== src/Draw.antt =====
-- What the page asks of WebGL, as a list of the calls, the last one first: loadGL and render of
-- megatree_web/js/cell.js. WebGL itself is the browser's: what the calls do is not modelled, and a
-- buffer is known by the number of the createBuffer that returned it.
pub mod Marks
pub mod Clouds
pub mod Panel
pub mod Frame
pub mod Session
use megatree.Base.{
  ℕ, zero, suc, ◌-◌ as minus, Bool, true, Option, none, some, List, [], ◌∷◌, ◌==◌, if◌then◌else◌,
  length,
}
use megatree.Outcome.{Outcome, returns, throws}
use megatree.Numbers.{Num, Number, ◌/◌, lit, dec, max}
use megatree.Velocity.Trap.{Vec3}
use megatree.Velocity.Mapped.{Mjs}
use megatree.Cell.{Cell, Text, has_bit}
use megatree.Selection.{Rotations}
use megatree.Controls.{Matrices}

abbrev pub Buffer : Type 0
Buffer = ℕ

abbrev pub Texture : Type 0
Texture = ℕ

-- `currProgram`, `oldProgram`, `lineShader` and `texturedShader`.
pub data Program : Type 0 where
  current old line textured : Program

pub data Attribute : Type 0 where
  vertex color texture_coord : Attribute

pub data Uniform : Type 0 where
  box_size point_size_multiplier meters_to_pixels r_camera_world p_selection_camera : Uniform
  point_size scale camera_to_cell_in_world point_size_meters : Uniform
  t_camera_world lift sampler model_view_matrix : Uniform
  show_children override_color : ℕ → Uniform

pub data Shape : Type 0 where
  points lines triangle_strip : Shape

module _ ⦃num : Num⦄ (rot : Rotations) (mat : Matrices rot) where
  pub data Command : Type 0 where
    get_error : Command
    clear_color : (r g b a : Number) → Command
    clear_color_and_depth clear_depth : Command
    use_program : Program → Command
    uniform1f : Program → Uniform → Number → Command
    uniform1i : Program → Uniform → ℕ → Command
    uniform3fv : Program → Uniform → Vec3 → Command
    uniform_matrix3fv : Program → Uniform → rot.Matrix → Command
    uniform_matrix4fv : Program → Uniform → mat.Matrix4 → Command
    create_buffer bind_buffer : Buffer → Command
    -- `bufferData` of a Uint8Array and of a Float32Array.
    buffer_bytes : List ℕ → Command
    buffer_floats : List Number → Command
    vertex_attrib_pointer :
        Program → Attribute → (size : ℕ) → (normalized : Bool) → (stride offset : ℕ) → Command
    draw_arrays : Shape → (first : ℕ) → (count : Number) → Command
    create_texture : Texture → Command
    bind_texture : Option Texture → Command
    -- The text on the canvas that the texture is made of.
    fill_text : Text → Command
    pixel_storei_flip tex_image2_d mag_filter_linear min_filter_mipmap : Command
    generate_mipmap active_texture0 : Command

  -- What was called, and the numbers of the next buffer and texture.
  pub record Gl : Type 0 where
    pub calls : List Command
    pub next_buffer : Buffer
    pub next_texture : Texture

-- The cells, and the buffers of those that were loaded (`cell.vbo`).
pub record Store ⦃num : Num⦄ : Type 0 where
  pub cell : ℕ → Cell
  pub vbo : ℕ → Option Buffer

abbrev pub put : (ℕ → Option Buffer) → ℕ → Buffer → ℕ → Option Buffer
put vbo r b q = if q == r then some b else vbo q

module _ ⦃num : Num⦄ {rot : Rotations} {mat : Matrices rot} where
  abbrev pub call : Command rot mat → Gl rot mat → Gl rot mat
  call c g = record g { calls = c ∷ g.calls }

  -- Several calls, in order.
  abbrev pub call_all : List (Command rot mat) → Gl rot mat → Gl rot mat
  call_all [] g = g
  call_all (c ∷ cs) g = call_all cs (call c g)

  -- `cell.loadGL(ctx)`
  unfoldable pub load_gl : ℕ → Store → Gl rot mat → Store × Gl rot mat
  load_gl r s g =
      let b = g.next_buffer in
      (
        record s { vbo = put s.vbo r b },
        call_all (create_buffer b ∷ bind_buffer b ∷ buffer_bytes (s.cell r).data_bytes ∷ [])
            (record g { next_buffer = suc b }),
      )

  -- `if (!cell.vbo) cell.loadGL(ctx)`
  unfoldable pub ensure_loaded : ℕ → Store → Gl rot mat → Store × Gl rot mat
  ensure_loaded r s g = elim (s.vbo r) [ none ↦ load_gl r s g | some vbo ↦ (s, g) ]

  -- The loops over the eight children and the three colours, with the rounds that are left.
  unfoldable pub set_children : (left : ℕ) → Cell → Gl rot mat → Gl rot mat
  set_children zero cell g = g
  set_children (suc left) cell g = set_children left cell (
      call
        (uniform1i current (show_children (minus 8 (suc left)))
          (if has_bit cell.show_children (minus 8 (suc left)) then 1 else 0))
        g)

  unfoldable pub render_cell :
      Mjs → (cam_position : Vec3) → Cell → Option Buffer → Gl rot mat → Outcome (Gl rot mat)
  render_cell v3 cam_position cell none g = throws
  render_cell v3 cam_position cell (some vbo) g = returns (
      call_all
        (uniform1f current (override_color 0) cell.override_color.x
          ∷ uniform1f current (override_color 1) cell.override_color.y
          ∷ uniform1f current (override_color 2) cell.override_color.z
          ∷ uniform1f current scale cell.scale
          ∷ uniform3fv current camera_to_cell_in_world (v3.sub cell.offset cam_position)
          ∷ uniform1f current point_size_meters (max (dec 1 3) (cell.scale / lit 64))
          ∷ bind_buffer vbo
          ∷ vertex_attrib_pointer current vertex 3 true 6 0
          ∷ vertex_attrib_pointer current color 3 true 6 3
          ∷ draw_arrays points 0 (lit (length cell.data_bytes) / lit 6)
          ∷ [])
        (set_children 8 cell g))
