-- ===== src/Draw/Frame/Loads.antt =====
-- The calls of megatree_web/js/cell.js, measure.js and point_cloud.js one by one: what they upload and
-- what they draw.
use megatree.Base.{
  ◌-◌ as minus, ℕ, zero, suc, ◌≡◌, refl, ap, ◌∙◌, false, some, List, [], ◌∷◌, ◌++◌, arith,
  if◌then◌else◌,
}
use megatree.Outcome.{returns}
use megatree.Numbers.{Num, Number}
use megatree.Velocity.Trap.{Vec3}
use megatree.Velocity.Mapped.{Mjs}
use megatree.Texts.{codes}
use megatree.Cell.{Cell, has_bit}
use megatree.Selection.{Rotations}
use megatree.Controls.{Matrices}
use megatree.Draw.{
  Buffer, Gl, Command, Shape, fill_text, call, call_all, create_buffer, bind_buffer, buffer_bytes,
  buffer_floats, set_children, render_cell, points, lines, triangle_strip, get_error, uniform1i,
  current, show_children,
}
use megatree.Draw.Marks.{
  Mark, Browser, gl_check, create_texture_from_canvas, mark_data, load_mark, render_mark,
  render_text, line_calls, text_calls,
}
use megatree.Draw.Clouds.{PointCloud, Buffers, cloud_calls, render_cloud}
use megatree.Draw.Frame.Calls.{
  bytes, floats, Drawing, in_use, drawn, uploads, Holds, AreFresh, Later, Later-Holds, Later-trans,
  Later-plain, Draws, Draws-plain, Draws-trans,
}

module _ ⦃num : Num⦄ {rot : Rotations} {mat : Matrices rot} where
  abbrev pub IsQuiet : Browser rot mat → Type 0
  IsQuiet w = (calls : List (Command rot mat)) → w.has_error calls ≡ false

  pub gl_check-returns :
      (w : Browser rot mat) (g : Gl rot mat) → IsQuiet w → gl_check w g ≡ returns (call get_error g)
  unfolding gl_check
  gl_check-returns w g quiet = rw (quiet g.calls)

  -- An upload of a cell's bytes to a new buffer.
  abbrev pub uploaded : List ℕ → Gl rot mat → Gl rot mat
  uploaded d g =
      call_all (create_buffer g.next_buffer ∷ bind_buffer g.next_buffer ∷ buffer_bytes d ∷ [])
        (record g { next_buffer = suc g.next_buffer })

  pub uploaded-Later : (d : List ℕ) (g : Gl rot mat) → Later g (uploaded d g)
  uploaded-Later d g = record {
    up = omega arith;
    same = λ b made. (ground arith, ground arith);
    fresh = λ free b above. (let h : uploads b g.calls ≡ 0 = free b (omega arith) in ground arith);
  }

  pub uploaded-Holds :
      (d : List ℕ) (g : Gl rot mat) → AreFresh g → Holds (uploaded d g) g.next_buffer (bytes d)
  uploaded-Holds d g free = record {
    made = omega arith;
    holds = ground arith;
    once =
        (let h : uploads g.next_buffer g.calls ≡ 0 = free g.next_buffer (omega arith) in
          ground arith);
  }

  abbrev flagged : (left : ℕ) → Cell → Gl rot mat → Gl rot mat
  flagged left cell g =
      call
        (uniform1i current (show_children (minus 8 (suc left)))
          (if has_bit cell.show_children (minus 8 (suc left)) then 1 else 0))
        g

  set_children-Draws :
      (left : ℕ) (cell : Cell) (g : Gl rot mat) → Draws g (set_children left cell g) []
  unfolding set_children
  set_children-Draws zero cell g = Draws-plain g g refl (λ b. refl) (λ b. refl) refl refl
  set_children-Draws (suc left) cell g =
      Draws-trans g (flagged left cell g) (set_children left cell (flagged left cell g)) [] []
        (Draws-plain g (flagged left cell g) refl (λ b. refl) (λ b. refl) refl refl)
        (set_children-Draws left cell (flagged left cell g))

  -- The calls of `render` draw once from the cell's buffer.
  pub render_cell-Draws :
      (v3 : Mjs) (at : Vec3) (cell : Cell) (b : Buffer) (g : Gl rot mat)
      → (g' : Gl rot mat) × (render_cell v3 at cell (some b) g ≡ returns g')
        × Draws g g' (record { program = in_use g.calls; shape = points; buffer = some b } ∷ [])
  unfolding render_cell
  render_cell-Draws v3 at cell b g =
      let h = set_children 8 cell g in
      let first = set_children-Draws 8 cell g in
      (
        _,
        refl,
        record {
          later = Later-trans g h _ first.later (Later-plain h _ refl (λ c. refl) (λ c. refl));
          program = first.program;
          drawings =
              ap (λ p. record { program = p; shape = points; buffer = some b } ∷ drawn h.calls)
                first.program
              ∙ ap (λ ds. record { program = in_use g.calls; shape = points; buffer = some b } ∷ ds)
                  first.drawings;
        },
      )

  -- The calls of one drawing, with whatever else they are.
  abbrev pub once : (g : Gl rot mat) → Shape → Buffer → List Drawing
  once g shape b = record { program = in_use g.calls; shape = shape; buffer = some b } ∷ []

  uploaded_floats : List Number → Gl rot mat → Gl rot mat
  uploaded_floats d g =
      call_all (create_buffer g.next_buffer ∷ bind_buffer g.next_buffer ∷ buffer_floats d ∷ [])
        (record g { next_buffer = suc g.next_buffer })

  uploaded_floats-Draws : (d : List Number) (g : Gl rot mat) → Draws g (uploaded_floats d g) []
  unfolding uploaded_floats
  uploaded_floats-Draws d g = record {
    later = record {
      up = omega arith;
      same = λ b made. (ground arith, ground arith);
      fresh =
          λ free b above. (let h : uploads b g.calls ≡ 0 = free b (omega arith) in ground arith);
    };
    program = refl;
    drawings = refl;
  }

  uploaded_floats-Holds :
      (d : List Number) (g : Gl rot mat)
      → AreFresh g
      → Holds (uploaded_floats d g) g.next_buffer (floats d)
  unfolding uploaded_floats
  uploaded_floats-Holds d g free = record {
    made = omega arith;
    holds = ground arith;
    once =
        (let h : uploads g.next_buffer g.calls ≡ 0 = free g.next_buffer (omega arith) in
          ground arith);
  }

  module _ (w : Browser rot mat) (quiet : IsQuiet w) where
    -- A measurement that is loaded, with a buffer of its own.
    pub load_mark-Holds :
        (m : Mark) (g : Gl rot mat)
        → AreFresh g
        → (m' : Mark) × (g' : Gl rot mat) × (load_mark w m g ≡ returns (m', g'))
          × (m'.measurement ≡ m.measurement)
          × (m'.vbo ≡ some g.next_buffer)
          × Holds g' g.next_buffer (floats (mark_data m.measurement))
          × Draws g g' []
    unfolding load_mark create_texture_from_canvas uploaded_floats
    load_mark-Holds m g free =
        let t =
          (create_texture_from_canvas
            (call (fill_text (w.to_fixed m.measurement.distance 2 ++ codes " m")) g)).1 in
        let u = uploaded_floats (mark_data m.measurement) t in
        let plain = Draws-plain g t refl (λ b. refl) (λ b. refl) refl refl in
        let up = uploaded_floats-Draws (mark_data m.measurement) t in
        let checked = Draws-plain u (call get_error u) refl (λ b. refl) (λ b. refl) refl refl in
        (
          record m { vbo = some g.next_buffer; text_texture = some g.next_texture },
          call get_error u,
          rw (gl_check-returns w u quiet) refl,
          refl,
          refl,
          Later-Holds u (call get_error u) g.next_buffer _ checked.later
              (uploaded_floats-Holds (mark_data m.measurement) t (plain.later.fresh free)),
          Draws-trans g u (call get_error u) [] [] (Draws-trans g t u [] [] plain up) checked,
        )

    pub render_mark-Draws :
        (m : Mark) (b : Buffer) (g : Gl rot mat)
        → m.vbo ≡ some b
        → (g' : Gl rot mat) × (render_mark w m g ≡ returns g') × Draws g g' (once g lines b)
    unfolding render_mark
    render_mark-Draws m b g has = (
      call get_error (call_all (line_calls b) g),
      rw has (gl_check-returns w (call_all (line_calls b) g) quiet),
      record {
        later =
            Later-plain g (call get_error (call_all (line_calls b) g)) refl (λ c. refl) (λ c. refl);
        program = refl;
        drawings = refl;
      },
    )

    pub render_text-Draws :
        (m : Mark) (b : Buffer) (g : Gl rot mat)
        → m.vbo ≡ some b
        → (g' : Gl rot mat) × (render_text w m g ≡ returns g')
          × Draws g g' (once g triangle_strip b)
    unfolding render_text
    render_text-Draws m b g has = (
      call get_error (call_all (text_calls b m.text_texture) g),
      rw has (gl_check-returns w (call_all (text_calls b m.text_texture) g) quiet),
      record {
        later =
            Later-plain g (call get_error (call_all (text_calls b m.text_texture) g)) refl
              (λ c. refl) (λ c. refl);
        program = refl;
        drawings = refl;
      },
    )

  pub render_cloud-Draws :
      (cloud : PointCloud) (b : Buffers) (g : Gl rot mat)
      → cloud.buffers ≡ some b
      → (g' : Gl rot mat) × (render_cloud cloud g ≡ returns g')
        × Draws g g' (once g points b.vertex_buffer)
  unfolding render_cloud
  render_cloud-Draws cloud b g has = (
    call_all (cloud_calls b) g,
    rw has refl,
    record {
      later = Later-plain g (call_all (cloud_calls b) g) refl (λ c. refl) (λ c. refl);
      program = refl;
      drawings = refl;
    },
  )
