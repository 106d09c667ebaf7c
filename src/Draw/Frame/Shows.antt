-- ===== src/Draw/Frame/Shows.antt =====
-- The loops of renderLoop over the measurements (megatree_web/js/index.js): each is loaded before its line is
-- drawn, once, and its text is drawn from the same buffer.
use megatree.Base.{
  ◌≡◌, refl, sym, ap, subst, ◌∙◌, Option, none, some, List, [], ◌∷◌, ◌++◌, All, Option-cases, inl,
  inr,
}
use megatree.Outcome.{Outcome, returns}
use megatree.Numbers.{Num}
use megatree.Velocity.Mapped.{Mjs}
use megatree.OrbitCam.{OrbitCam}
use megatree.Texts.{Strings}
use megatree.Selection.{Rotations}
use megatree.Controls.{Matrices, get_matrix}
use megatree.Draw.{
  Buffer, Gl, Program, Shape, call, line, textured, lines, triangle_strip, uniform_matrix4fv,
  t_camera_world,
}
use megatree.Draw.Marks.{Mark, Browser, mark_data, load_mark}
use megatree.Draw.Frame.{Transforms, render_marks, render_texts, make_billboard_spher}
use megatree.Draw.Frame.Calls.{
  floats, Drawing, in_use, Holds, AreFresh, Later, Later-Holds, Later-trans, Draws, Draws-plain,
  Draws-trans,
}
use megatree.Draw.Frame.Loads.{IsQuiet, load_mark-Holds, render_mark-Draws, render_text-Draws}

module _ ⦃num : Num⦄ {rot : Rotations} {mat : Matrices rot} where
  -- A measurement's buffer, if it is loaded, holds its line and its square.
  abbrev pub IsKept : Gl rot mat → Mark → Type 0
  IsKept g m = (b : Buffer) → m.vbo ≡ some b → Holds g b (floats (mark_data m.measurement))

  pub Later-IsKept :
      (g g' : Gl rot mat) → Later g g' → (ms : List Mark) → All (IsKept g) ms → All (IsKept g') ms
  Later-IsKept g g' later [] h = tt
  Later-IsKept g g' later (m ∷ ms) (h, hs) = (
    λ b has. Later-Holds g g' b (floats (mark_data m.measurement)) later (h b has),
    Later-IsKept g g' later ms hs,
  )

module _ ⦃num : Num⦄ where
  abbrev pub mark_drawings : Program → Shape → List Mark → List Drawing
  mark_drawings p shape [] = []
  mark_drawings p shape (m ∷ ms) =
      mark_drawings p shape ms ++ record { program = some p; shape = shape; buffer = m.vbo } ∷ []

  abbrev pub IsMarked : Mark → Type 0
  IsMarked m = (b : Buffer) × (m.vbo ≡ some b)

  -- The same measurements, in which what was loaded stays so, in its buffer.
  abbrev pub AreSame : List Mark → List Mark → Type 0
  AreSame [] [] = Unit {0}
  AreSame (m ∷ ms) (m' ∷ ms') =
      (m'.measurement ≡ m.measurement)
      × ((b : Buffer) → m.vbo ≡ some b → m'.vbo ≡ some b)
      × AreSame ms ms'
  AreSame _ _ = ⊥

module _ ⦃num : Num⦄ {rot : Rotations} {mat : Matrices rot} (v3 : Mjs) (tr : Transforms rot mat)
    (w : Browser rot mat) (str : Strings) (quiet : IsQuiet w) where
  -- A measurement, loaded.
  record Loaded (m m' : Mark) (g g' : Gl rot mat) : Type 0 where
    buffer : Buffer
    has : m'.vbo ≡ some buffer
    measurement : m'.measurement ≡ m.measurement
    keeps : (b : Buffer) → m.vbo ≡ some b → m'.vbo ≡ some b
    kept : IsKept g' m'
    draws : Draws g g' []

  ensure_mark : Mark → Gl rot mat → Outcome (Mark × Gl rot mat)
  ensure_mark m g = elim m.vbo [ none ↦ load_mark w m g | some vbo ↦ returns (m, g) ]

  ensure_mark-by :
      (m : Mark) (g : Gl rot mat) (o : Option Buffer)
      → m.vbo ≡ o
      → ensure_mark m g ≡ elim o [ none ↦ load_mark w m g | some vbo ↦ returns (m, g) ]
  unfolding ensure_mark
  ensure_mark-by m g o e = ap (λ (p : Option Buffer). chosen p) e
    where
      chosen : Option Buffer → Outcome (Mark × Gl rot mat)
      chosen p = elim p [ none ↦ load_mark w m g | some vbo ↦ returns (m, g) ]

  ensure_mark-Loaded :
      (m : Mark) (g : Gl rot mat)
      → AreFresh g
      → IsKept g m
      → (m' : Mark) × (g' : Gl rot mat) × (ensure_mark m g ≡ returns (m', g')) × Loaded m m' g g'
  unfolding ensure_mark
  ensure_mark-Loaded m g free kept = elim (Option-cases m.vbo) [
    | inr (b, e) ↦ (
      m,
      g,
      ensure_mark-by m g (some b) e,
      record {
        buffer = b;
        has = e;
        measurement = refl;
        keeps = λ c h. h;
        kept = kept;
        draws = Draws-plain g g refl (λ b. refl) (λ b. refl) refl refl;
      },
    )
    | inl e ↦
        let (m', g', runs, same, has, holds, draws) = load_mark-Holds w quiet m g free in
        (
          m',
          g',
          ensure_mark-by m g none e ∙ runs,
          record {
            buffer = g.next_buffer;
            has = has;
            measurement = same;
            keeps = λ c h. cc (h, e);
            kept = λ c h.
                let at : g.next_buffer ≡ c = cc (has, h) in
                subst (λ k. Holds g' k (floats (mark_data m'.measurement))) at
                  (subst (λ x. Holds g' g.next_buffer (floats (mark_data x))) (sym same) holds);
            draws = draws;
          },
        )
  ]

  -- The state after the loop over the lines.
  pub record Lined (ms ms' : List Mark) (g g' : Gl rot mat) : Type 0 where
    pub same : AreSame ms ms'
    pub kept : All (IsKept g') ms'
    pub marked : All IsMarked ms'
    pub draws : Draws g g' (mark_drawings line lines ms')

  pub render_marks-Lined :
      (ms : List Mark) (g : Gl rot mat)
      → AreFresh g
      → All (IsKept g) ms
      → in_use g.calls ≡ some line
      → (ms' : List Mark) × (g' : Gl rot mat) × (render_marks v3 tr w str ms g ≡ returns (ms', g'))
        × Lined ms ms' g g'
  unfolding render_marks ensure_mark
  render_marks-Lined [] g free kept using = (
    [],
    g,
    refl,
    record {
      same = tt;
      kept = tt;
      marked = tt;
      draws = Draws-plain g g refl (λ b. refl) (λ b. refl) refl refl;
    },
  )
  render_marks-Lined (m ∷ ms) g free (kept, rest_kept) using =
      let (m1, g1, loads, l) = ensure_mark-Loaded m g free kept in
      let (g2, runs, d2) = render_mark-Draws w quiet m1 l.buffer g1 l.has in
      let one : Drawing = record {
        program = in_use g1.calls;
        shape = lines;
        buffer = some l.buffer;
      } in
      let drawing = Draws-trans g g1 g2 [] (one ∷ []) l.draws d2 in
      let (ms', g', rest, done) =
        render_marks-Lined ms g2 (drawing.later.fresh free)
          (Later-IsKept g g2 drawing.later ms rest_kept) (drawing.program ∙ using) in
      (
        m1 ∷ ms',
        g',
        rw (loads, runs, rest) refl,
        record {
          same = (l.measurement, l.keeps, done.same);
          kept = (
            λ b has.
                Later-Holds g1 g' b (floats (mark_data m1.measurement))
                  (Later-trans g1 g2 g' d2.later done.draws.later) (l.kept b has),
            done.kept,
          );
          marked = ((l.buffer, l.has), done.marked);
          draws =
              subst (λ d. Draws g g' (mark_drawings line lines ms' ++ d ∷ []))
                (cc (l.draws.program, using, l.has))
                (Draws-trans g g2 g' (one ∷ []) (mark_drawings line lines ms') drawing done.draws);
        },
      )

  pub render_texts-Draws :
      (cam : OrbitCam) (ms : List Mark) (g : Gl rot mat)
      → All IsMarked ms
      → in_use g.calls ≡ some textured
      → (g' : Gl rot mat) × (render_texts v3 tr w str cam ms g ≡ returns g')
        × Draws g g' (mark_drawings textured triangle_strip ms)
  unfolding render_texts
  render_texts-Draws cam [] g marked using =
      (g, refl, Draws-plain g g refl (λ b. refl) (λ b. refl) refl refl)
  render_texts-Draws cam (m ∷ ms) g ((b, has), marked) using =
      let t = get_matrix v3 rot mat cam in
      let g1 =
        call
          (uniform_matrix4fv textured t_camera_world (
            tr.mul t
              (tr.mul (tr.make_translate m.measurement.mid) (make_billboard_spher v3 tr w str t))))
          g in
      let placed = Draws-plain g g1 refl (λ b. refl) (λ b. refl) refl refl in
      let (g2, runs, d2) = render_text-Draws w quiet m b g1 has in
      let one : Drawing = record {
        program = in_use g1.calls;
        shape = triangle_strip;
        buffer = some b;
      } in
      let drawing = Draws-trans g g1 g2 [] (one ∷ []) placed d2 in
      let (g', rest, done) = render_texts-Draws cam ms g2 marked (drawing.program ∙ using) in
      (
        g',
        rw runs rest,
        subst (λ d. Draws g g' (mark_drawings textured triangle_strip ms ++ d ∷ []))
            (cc (using, has))
            (Draws-trans g g2 g' (one ∷ []) (mark_drawings textured triangle_strip ms) drawing
              done),
      )
