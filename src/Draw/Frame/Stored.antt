-- ===== src/Draw/Frame/Stored.antt =====
-- The loop of renderLoop over the cells (megatree_web/js/index.js): each is loaded before it is drawn, once.
use megatree.Base.{
  ℕ, ◌≡◌, refl, sym, subst, ◌∙◌, some, List, [], ◌∷◌, ◌++◌, arith, ◌==◌, ==_iff, Bool-cases,
  Option-cases, inl, inr, All, length,
}
use megatree.Texts.{Strings}
use megatree.Draw.Marks.{Browser}
use megatree.Outcome.{Outcome, returns}
use megatree.Numbers.{Num, Number, ◌+◌ as plus, ◌/◌ as over, lit}
use megatree.Velocity.Trap.{Vec3}
use megatree.Velocity.Mapped.{Mjs}
use megatree.Selection.{Rotations}
use megatree.Controls.{Matrices}
use megatree.Draw.{
  Buffer, Gl, Store, call, load_gl, ensure_loaded, uniform1f, current, point_size, points,
}
use megatree.Draw.Frame.{Transforms, render_cells}
use megatree.Draw.Frame.Calls.{
  bytes, Drawing, in_use, Holds, AreFresh, Later, Later-Holds, Draws, Draws-plain, Draws-trans,
}
use megatree.Draw.Frame.Loads.{uploaded, uploaded-Later, uploaded-Holds, render_cell-Draws}

module _ ⦃num : Num⦄ where
  -- A store with the same cells, in which what was loaded stays so, in its buffer.
  pub record Extends (s s' : Store) : Type 0 where
    pub cells : s'.cell ≡ s.cell
    pub keeps : (r : ℕ) (b : Buffer) → s.vbo r ≡ some b → s'.vbo r ≡ some b

  pub Extends-refl : (s : Store) → Extends s s
  Extends-refl s = record { cells = refl; keeps = λ r b has. has }

  pub Extends-trans : (s t u : Store) → Extends s t → Extends t u → Extends s u
  Extends-trans s t u p q = record {
    cells = q.cells ∙ p.cells;
    keeps = λ r b has. q.keeps r b (p.keeps r b has);
  }

  -- What the loop over the cells draws, the last cell first.
  abbrev pub drawing_of : Store → ℕ → Drawing
  drawing_of s r = record { program = some current; shape = points; buffer = s.vbo r }

  abbrev pub cell_drawings : Store → List ℕ → List Drawing
  cell_drawings s [] = []
  cell_drawings s (r ∷ rs) = cell_drawings s rs ++ drawing_of s r ∷ []

  abbrev pub IsLoaded : Store → ℕ → Type 0
  IsLoaded s r = (b : Buffer) × (s.vbo r ≡ some b)

module _ ⦃num : Num⦄ {rot : Rotations} {mat : Matrices rot} where
  -- The loaded cells have buffers that hold their bytes.
  abbrev pub IsStored : Store → Gl rot mat → Type 0
  IsStored s g = (r : ℕ) (b : Buffer) → s.vbo r ≡ some b → Holds g b (bytes (s.cell r).data_bytes)

  pub Later-IsStored : (s : Store) (g g' : Gl rot mat) → Later g g' → IsStored s g → IsStored s g'
  Later-IsStored s g g' later h r b has =
      Later-Holds g g' b (bytes (s.cell r).data_bytes) later (h r b has)

  load_gl-IsStored :
      (r : ℕ) (s : Store) (g : Gl rot mat)
      → AreFresh g
      → IsStored s g
      → IsStored (load_gl r s g).0 (load_gl r s g).1
  unfolding load_gl
  load_gl-IsStored r s g free h q b has = elim (Bool-cases (q == r)) [
    | inl same ↦
        let here : q ≡ r = (==_iff q r).0 same in
        let at : g.next_buffer ≡ b = ground arith in
        subst (λ c. Holds (uploaded (s.cell r).data_bytes g) c (bytes (s.cell q).data_bytes)) at
          (subst
            (λ p.
              Holds (uploaded (s.cell r).data_bytes g) g.next_buffer (bytes (s.cell p).data_bytes))
            (sym here) (uploaded-Holds (s.cell r).data_bytes g free))
    | inr other ↦
        let was : s.vbo q ≡ some b = ground arith in
        Later-Holds g (uploaded (s.cell r).data_bytes g) b (bytes (s.cell q).data_bytes)
          (uploaded-Later (s.cell r).data_bytes g) (h q b was)
  ]

  module _ (r : ℕ) (s : Store) (g : Gl rot mat) (free : AreFresh g) (stored : IsStored s g) where
    -- A store and calls in which a cell is loaded, and nothing was drawn.
    record Loaded (s' : Store) (g' : Gl rot mat) : Type 0 where
      buffer : Buffer
      has : s'.vbo r ≡ some buffer
      extends : Extends s s'
      stored' : IsStored s' g'
      draws : Draws g g' []

    ensure_loaded-Loaded : Loaded (ensure_loaded r s g).0 (ensure_loaded r s g).1
    unfolding ensure_loaded load_gl
    ensure_loaded-Loaded = elim (Option-cases (s.vbo r)) [
      | inr (b, e) ↦
          rw (e, ensure_loaded)
            (record {
              buffer = b;
              has = e;
              extends = Extends-refl s;
              stored' = stored;
              draws = Draws-plain g g refl (λ b. refl) (λ b. refl) refl refl;
            })
      | inl e ↦
          rw (e, ensure_loaded)
            (record {
              buffer = g.next_buffer;
              has = ground arith;
              extends = record {
                cells = refl;
                keeps = λ q b was. elim (Bool-cases (q == r)) [
                  | inl same ↦ cc (was, e, (==_iff q r).0 same)
                  | inr other ↦ rw other was
                ];
              };
              stored' = load_gl-IsStored r s g free stored;
              draws = record {
                later = uploaded-Later (s.cell r).data_bytes g;
                program = refl;
                drawings = refl;
              };
            })
    ]

  module _ (v3 : Mjs) (tr : Transforms rot mat) (w : Browser rot mat) (str : Strings)
      (at : Vec3) where
    abbrev loop : List ℕ → Number → Store → Gl rot mat → Outcome (Number × Store × Gl rot mat)
    loop = render_cells v3 tr w str at

    -- The state after the loop.
    pub record Drawn (rs : List ℕ) (s s' : Store) (g g' : Gl rot mat) : Type 0 where
      pub extends : Extends s s'
      pub stored : IsStored s' g'
      pub loaded : All (IsLoaded s') rs
      pub draws : Draws g g' (cell_drawings s' rs)

    pub render_cells-Drawn :
        (rs : List ℕ) (total : Number) (s : Store) (g : Gl rot mat)
        → AreFresh g
        → IsStored s g
        → in_use g.calls ≡ some current
        → (total' : Number) × (s' : Store) × (g' : Gl rot mat) × (loop rs total s g
            ≡ returns (total', s', g'))
          × Drawn rs s s' g g'
    unfolding render_cells
    render_cells-Drawn [] total s g free stored using = (
      total,
      s,
      g,
      refl,
      record {
        extends = Extends-refl s;
        stored = stored;
        loaded = tt;
        draws = Draws-plain g g refl (λ b. refl) (λ b. refl) refl refl;
      },
    )
    render_cells-Drawn (r ∷ rs) total s g free stored using =
        let g1 = call (uniform1f current point_size (lit 20)) g in
        let sized = Draws-plain g g1 refl (λ b. refl) (λ b. refl) refl refl in
        let (s2, g2) = ensure_loaded r s g1 in
        let l =
          ensure_loaded-Loaded r s g1 (sized.later.fresh free)
            (Later-IsStored s g g1 sized.later stored) in
        let (g3, runs, d3) = render_cell-Draws v3 at (s2.cell r) l.buffer g2 in
        let one : Drawing = record {
          program = in_use g2.calls;
          shape = points;
          buffer = some l.buffer;
        } in
        let drawing =
          Draws-trans g g2 g3 [] (one ∷ []) (Draws-trans g g1 g2 [] [] sized l.draws) d3 in
        let (total', s', g', rest, done) =
          render_cells-Drawn rs (plus total (over (lit (length (s.cell r).data_bytes)) (lit 6))) s2
            g3 (drawing.later.fresh free) (Later-IsStored s2 g2 g3 d3.later l.stored')
            (drawing.program ∙ using) in
        let kept = done.extends.keeps r l.buffer l.has in
        (
          total',
          s',
          g',
          rw (l.has, runs) rest,
          record {
            extends = Extends-trans s s2 s' l.extends done.extends;
            stored = done.stored;
            loaded = ((l.buffer, kept), done.loaded);
            draws =
                subst (λ d. Draws g g' (cell_drawings s' rs ++ d ∷ []))
                  (cc (l.draws.program, using, kept))
                  (Draws-trans g g3 g' (one ∷ []) (cell_drawings s' rs) drawing done.draws);
          },
        )
