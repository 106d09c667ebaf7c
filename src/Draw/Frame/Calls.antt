-- ===== src/Draw/Frame/Calls.antt =====
-- What a list of WebGL calls says, the last call first: the program in use, the buffer that is bound,
-- what was uploaded to a buffer and how often, and what was drawn from which buffer.
use megatree.Base.{
  ℕ, ◌+◌, ◌≤◌, ◌<◌, ◌≡◌, refl, sym, ap, ◌∙◌, Bool, false, Option, none, some, List, [], ◌∷◌, ◌++◌,
  arith, ◌==◌, if◌then◌else◌,
}
use mathlib.Core.List.{append_assoc}
use megatree.Numbers.{Num, Number}
use megatree.Selection.{Rotations}
use megatree.Controls.{Matrices}
use megatree.Draw.{
  Buffer, Gl, Command, Program, Shape, use_program, bind_buffer, buffer_bytes, buffer_floats,
  vertex_attrib_pointer, vertex, draw_arrays,
}

pub data Content ⦃num : Num⦄ : Type 0 where
  bytes : List ℕ → Content
  floats : List Number → Content

-- A call that draws: the program, the shape and the buffer of the vertices.
pub record Drawing : Type 0 where
  pub program : Option Program
  pub shape : Shape
  pub buffer : Option Buffer

abbrev pub is_bound : Buffer → Option Buffer → Bool
is_bound b none = false
is_bound b (some c) = c == b

module _ ⦃num : Num⦄ {rot : Rotations} {mat : Matrices rot} where
  abbrev pub in_use : List (Command rot mat) → Option Program
  in_use [] = none
  in_use (use_program p ∷ older) = some p
  in_use (_ ∷ older) = in_use older

  abbrev pub bound : List (Command rot mat) → Option Buffer
  bound [] = none
  bound (bind_buffer b ∷ older) = some b
  bound (_ ∷ older) = bound older

  -- The buffer that the attribute of the vertices was last pointed to.
  abbrev pub pointed : List (Command rot mat) → Option Buffer
  pointed [] = none
  pointed (vertex_attrib_pointer p vertex size normalized stride offset ∷ older) = bound older
  pointed (_ ∷ older) = pointed older

  abbrev pub drawn : List (Command rot mat) → List Drawing
  drawn [] = []
  drawn (draw_arrays shape first count ∷ older) =
      record { program = in_use older; shape = shape; buffer = pointed older } ∷ drawn older
  drawn (_ ∷ older) = drawn older

  abbrev pub content : Buffer → List (Command rot mat) → Option Content
  content b [] = none
  content b (buffer_bytes d ∷ older) =
      if is_bound b (bound older) then some (bytes d) else content b older
  content b (buffer_floats d ∷ older) =
      if is_bound b (bound older) then some (floats d) else content b older
  content b (_ ∷ older) = content b older

  abbrev pub uploads : Buffer → List (Command rot mat) → ℕ
  uploads b [] = 0
  uploads b (buffer_bytes d ∷ older) = (if is_bound b (bound older) then 1 else 0) + uploads b older
  uploads b (buffer_floats d ∷ older) =
      (if is_bound b (bound older) then 1 else 0) + uploads b older
  uploads b (_ ∷ older) = uploads b older

  -- A buffer that was made holds this, and it was uploaded once.
  pub record Holds (g : Gl rot mat) (b : Buffer) (d : Content) : Type 0 where
    pub made : b < g.next_buffer
    pub holds : content b g.calls ≡ some d
    pub once : uploads b g.calls ≡ 1

  abbrev pub AreFresh : Gl rot mat → Type 0
  AreFresh g = (b : Buffer) → g.next_buffer ≤ b → uploads b g.calls ≡ 0

  -- Later calls leave the buffers that were made as they are.
  pub record Later (g g' : Gl rot mat) : Type 0 where
    pub up : g.next_buffer ≤ g'.next_buffer
    pub same :
        (b : Buffer)
        → b < g.next_buffer
        → (content b g'.calls ≡ content b g.calls) × (uploads b g'.calls ≡ uploads b g.calls)
    pub fresh : AreFresh g → AreFresh g'

  pub Later-refl : (g : Gl rot mat) → Later g g
  Later-refl g = record { up = omega arith; same = λ b h. (refl, refl); fresh = λ f. f }

  pub Later-trans : (f g h : Gl rot mat) → Later f g → Later g h → Later f h
  Later-trans f g h p q = record {
    up = omega (arith, p.up, q.up);
    same = λ b made.
        let (c, u) = p.same b made in
        let (c', u') = q.same b (omega (arith, p.up)) in (c' ∙ c, u' ∙ u);
    fresh = λ free. q.fresh (p.fresh free);
  }

  -- Calls that upload nothing and make no buffer.
  pub Later-plain :
      (g g' : Gl rot mat)
      → g'.next_buffer ≡ g.next_buffer
      → ((b : Buffer) → content b g'.calls ≡ content b g.calls)
      → ((b : Buffer) → uploads b g'.calls ≡ uploads b g.calls)
      → Later g g'
  Later-plain g g' next c u = record {
    up = omega arith;
    same = λ b made. (c b, u b);
    fresh = λ free b above. u b ∙ free b (omega arith);
  }

  pub Later-Holds :
      (g g' : Gl rot mat) (b : Buffer) (d : Content) → Later g g' → Holds g b d → Holds g' b d
  Later-Holds g g' b d later h = record {
    made = omega (arith, later.up, h.made);
    holds = (later.same b h.made).0 ∙ h.holds;
    once = (later.same b h.made).1 ∙ h.once;
  }

  -- Calls that draw `ds`, the last first, with the program that is in use.
  pub record Draws (g g' : Gl rot mat) (ds : List Drawing) : Type 0 where
    pub later : Later g g'
    pub program : in_use g'.calls ≡ in_use g.calls
    pub drawings : drawn g'.calls ≡ ds ++ drawn g.calls

  -- Calls that draw nothing at all.
  pub Draws-plain :
      (g g' : Gl rot mat)
      → g'.next_buffer ≡ g.next_buffer
      → ((b : Buffer) → content b g'.calls ≡ content b g.calls)
      → ((b : Buffer) → uploads b g'.calls ≡ uploads b g.calls)
      → in_use g'.calls ≡ in_use g.calls
      → drawn g'.calls ≡ drawn g.calls
      → Draws g g' []
  Draws-plain g g' next c u p d = record {
    later = Later-plain g g' next c u;
    program = p;
    drawings = d;
  }

  pub Draws-trans :
      (f g h : Gl rot mat) (ds es : List Drawing)
      → Draws f g ds
      → Draws g h es
      → Draws f h (es ++ ds)
  Draws-trans f g h ds es p q = record {
    later = Later-trans f g h p.later q.later;
    program = q.program ∙ p.program;
    drawings =
        q.drawings ∙ ap (λ xs. es ++ xs) p.drawings ∙ sym (append_assoc es ds (drawn f.calls));
  }
