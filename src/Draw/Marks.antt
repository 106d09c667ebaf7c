-- ===== src/Draw/Marks.antt =====
-- DistanceMeasurement of megatree_web/js/measure.js: loadGL, render and renderText, with
-- createTextureFromCanvas and makeBillboardSpher of megatree_web/js/index.js.
use megatree.Base.{ℕ, suc, Bool, false, Option, none, some, List, [], ◌∷◌, ◌++◌, if◌then◌else◌}
use megatree.Outcome.{Outcome, returns, throws, ◌>>=◌}
use megatree.Numbers.{Num, Number, lit, dec, neg}
use megatree.Cell.{Text}
use megatree.Texts.{codes}
use megatree.Selection.{Rotations}
use megatree.Controls.{Matrices, DistanceMeasurement}
use megatree.Draw.{
  Buffer, Texture, Gl, Command, call, call_all, line, textured, vertex, color, texture_coord, lines,
  triangle_strip, sampler, get_error, create_buffer, bind_buffer, buffer_floats,
  vertex_attrib_pointer, draw_arrays, create_texture, bind_texture, fill_text, pixel_storei_flip,
  tex_image2_d, mag_filter_linear, min_filter_mipmap, generate_mipmap, active_texture0, uniform1i,
}

-- A measurement with its `vbo` and `textTexture`.
pub record Mark ⦃num : Num⦄ : Type 0 where
  pub measurement : DistanceMeasurement
  pub vbo : Option Buffer
  pub text_texture : Option Texture

module _ ⦃num : Num⦄ where
  -- The line, and the square that shows the text.
  unfoldable pub mark_data : DistanceMeasurement → List Number
  mark_data m =
      let half = dec 5 1 in
      m.first.x
      ∷ m.first.y
      ∷ m.first.z
      ∷ lit 1
      ∷ lit 0
      ∷ lit 0
      ∷ m.last.x
      ∷ m.last.y
      ∷ m.last.z
      ∷ lit 1
      ∷ lit 1
      ∷ lit 0
      ∷ neg half
      ∷ neg half
      ∷ lit 0
      ∷ lit 0
      ∷ lit 0
      ∷ half
      ∷ neg half
      ∷ lit 0
      ∷ lit 1
      ∷ lit 0
      ∷ neg half
      ∷ half
      ∷ lit 0
      ∷ lit 0
      ∷ lit 1
      ∷ half
      ∷ half
      ∷ lit 0
      ∷ lit 1
      ∷ lit 1
      ∷ []

-- Whether `ctx.getError` reports an error, which depends on what was called; `toFixed`
-- and `Math.floor`.
pub record Browser ⦃num : Num⦄ (rot : Rotations) (mat : Matrices rot) : Type 0 where
  pub has_error : List (Command rot mat) → Bool
  pub to_fixed : Number → ℕ → Text
  pub floor : Number → Number

module _ ⦃num : Num⦄ {rot : Rotations} {mat : Matrices rot} where
  unfoldable pub gl_check : Browser rot mat → Gl rot mat → Outcome (Gl rot mat)
  gl_check w g = if w.has_error g.calls then throws else returns (call get_error g)

  unfoldable pub create_texture_from_canvas : Gl rot mat → Texture × Gl rot mat
  create_texture_from_canvas g =
      let t = g.next_texture in
      (
        t,
        call_all
            (create_texture t
              ∷ pixel_storei_flip
              ∷ bind_texture (some t)
              ∷ tex_image2_d
              ∷ mag_filter_linear
              ∷ min_filter_mipmap
              ∷ generate_mipmap
              ∷ bind_texture none
              ∷ [])
            (record g { next_texture = suc t }),
      )

  unfoldable pub load_mark : Browser rot mat → Mark → Gl rot mat → Outcome (Mark × Gl rot mat)
  load_mark w mark g = do
    let (t, g) =
        create_texture_from_canvas
          (call (fill_text (w.to_fixed mark.measurement.distance 2 ++ codes " m")) g)
    let b = g.next_buffer
    let g =
        call_all (create_buffer b ∷ bind_buffer b ∷ buffer_floats (mark_data mark.measurement) ∷ [])
          (record g { next_buffer = suc b })
    g ← gl_check w g
    returns (record mark { vbo = some b; text_texture = some t }, g)

  abbrev pub line_calls : Buffer → List (Command rot mat)
  line_calls vbo =
      bind_buffer vbo
      ∷ vertex_attrib_pointer line vertex 3 false 24 0
      ∷ vertex_attrib_pointer line color 3 false 24 12
      ∷ draw_arrays lines 0 (lit 2)
      ∷ []

  unfoldable pub render_mark : Browser rot mat → Mark → Gl rot mat → Outcome (Gl rot mat)
  render_mark w mark g = elim mark.vbo [
    | none ↦ throws
    | some vbo ↦ gl_check w (call_all (line_calls vbo) g)
  ]

  abbrev pub text_calls : Buffer → Option Texture → List (Command rot mat)
  text_calls vbo text_texture =
      bind_buffer vbo
      ∷ vertex_attrib_pointer textured vertex 3 false 20 48
      ∷ vertex_attrib_pointer textured texture_coord 2 false 20 60
      ∷ active_texture0
      ∷ bind_texture text_texture
      ∷ uniform1i textured sampler 0
      ∷ draw_arrays triangle_strip 0 (lit 4)
      ∷ []

  unfoldable pub render_text : Browser rot mat → Mark → Gl rot mat → Outcome (Gl rot mat)
  render_text w mark g = elim mark.vbo [
    | none ↦ throws
    | some vbo ↦ gl_check w (call_all (text_calls vbo mark.text_texture) g)
  ]
