-- ===== src/Controls/Measures.antt =====
-- The measurements that come of the points the user selects.
use megatree.Base.{
  ℕ, ◌≡◌, refl, ap, sym, ◌∙◌, Bool, not, ◌&&◌, ◌||◌, Option, none, some, List, [], ◌∷◌, ◌++◌, ◌==◌,
  if◌then◌else◌, if-elim, Option-cases, Bool-cases, inl, inr,
}
use megatree.Numbers.{Num, Number}
use megatree.Velocity.Trap.{Vec3}
use megatree.Velocity.Mapped.{Mjs}
use megatree.OrbitCam.{OrbitCam, get_position}
use megatree.OrbitCam.Goto.{stop_profile}
use megatree.Texts.{Strings}
use megatree.Selection.{Rotations, new_selection, get_point, is_point}
use megatree.Controls.{Matrices, MouseEvent, Window, Controls, get_cursor_position, picked_point}
use megatree.Controls.Mouse.{measure, select_point, on_mouse_down, on_mouse_up, on_mouse_move}
use megatree.Controls.Keys.{mouse_scroll, on_key_down, clip, set_projection_matrix, clear_selection}
use megatree.Controls.Tape.{
  pairs, numbered, Tape, next_tape, tape_after, tape_after-append, tape_after-pairs,
}

-- What the user does, with the window and the projection matrix of the moment, and a motion of the
-- camera by its timers.
pub data Input ⦃num : Num⦄ {rot : Rotations} (mat : Matrices rot) : Type 0 where
  presses releases moves : mat.Matrix4 → Window → MouseEvent → Input mat
  wheel : Number → Input mat
  key : ℕ → Input mat
  camera : OrbitCam → Input mat

module _ ⦃num : Num⦄ (v3 : Mjs) (rot : Rotations) (mat : Matrices rot) (str : Strings) where
  abbrev pub perform : Input mat → Controls rot → Controls rot
  perform (presses projection w e) c = (on_mouse_down v3 rot mat projection str w e c).0
  perform (releases projection w e) c = (on_mouse_up v3 rot mat projection str w e c).0
  perform (moves projection w e) c = (on_mouse_move v3 rot mat projection str w e c).0
  perform (wheel delta) c = mouse_scroll delta c
  perform (key code) c = on_key_down code c
  perform (camera cam) c = record c { cam = cam }

  abbrev pub perform_all : List (Input mat) → Controls rot → Controls rot
  perform_all [] c = c
  perform_all (i ∷ inputs) c = perform_all inputs (perform i c)

  -- The point in the world that a press of the left button with shift selects, if it hits one.
  abbrev pub selected : Input mat → Controls rot → List Vec3
  selected (presses projection w e) c =
      let c = record c { cam = stop_profile c.cam; mouse_position = get_cursor_position w e } in
      if e.which == 1 && e.shift_key
      then elim (picked_point v3 rot mat projection str w e c) [
        | none ↦ []
        | some picked ↦ v3.add (get_position v3 c.cam) picked ∷ []
      ]
      else []
  selected _ c = []

  abbrev pub all_selected : List (Input mat) → Controls rot → List Vec3
  all_selected [] c = []
  all_selected (i ∷ inputs) c = selected i c ++ all_selected inputs (perform i c)

  abbrev tape : Controls rot → Tape v3 str
  tape c = (c.distance_measurement_start, c.all_measurements, c.g_measurement_number)

  measure-tape :
      (p : Vec3) (c : Controls rot) → tape (measure v3 str p c) ≡ next_tape v3 str p (tape c)
  unfolding measure
  measure-tape p c = elim (Option-cases c.distance_measurement_start) [
    | inl e ↦ rw (measure, e) refl
    | inr (start, e) ↦ rw (measure, e) refl
  ]

  press-tape :
      (projection : mat.Matrix4) (w : Window) (e : MouseEvent) (c : Controls rot)
      → tape (on_mouse_down v3 rot mat projection str w e c).0
        ≡ tape_after v3 str (selected (presses projection w e) c) (tape c)
  unfolding on_mouse_down select_point new_selection get_point
  press-tape projection w e c = elim (Bool-cases (e.which == 1 && e.shift_key)) [
    | inl shifted ↦ elim (Option-cases point) [
      | inl missed ↦ rw (shifted, missed) refl
      | inr (p, hit) ↦
          rw (shifted, hit, shifted) (measure-tape (v3.add (get_position v3 stopped.cam) p) _)
    ]
    | inr plain ↦ rw plain (
        if-elim Kept (e.which == 3) _ _
          (λ right. elim (Option-cases point) [
            | inl missed ↦ rw missed refl
            | inr (p, hit) ↦
                rw (hit, plain) (if-elim Kept e.shift_key _ _ (λ map. refl) (λ centre. refl))
          ])
          (λ other.
            if-elim Kept ((e.which == 1 || e.which == 2) && not e.shift_key) _ _ (λ pan. refl)
              (λ none_of_them. refl)))
  ]
    where
      stopped : Controls rot
      stopped = record c { cam = stop_profile c.cam; mouse_position = get_cursor_position w e }

      point : Option Vec3
      point = picked_point v3 rot mat projection str w e stopped

      Kept : Controls rot × Option OrbitCam × Bool → Type 0
      Kept r = tape r.0 ≡ tape c

  perform-tape :
      (i : Input mat) (c : Controls rot)
      → tape (perform i c) ≡ tape_after v3 str (selected i c) (tape c)
  unfolding on_mouse_up on_mouse_move mouse_scroll on_key_down clip set_projection_matrix
      clear_selection
  perform-tape (presses projection w e) c = press-tape projection w e c
  perform-tape (releases projection w e) c =
      if-elim Kept (c.mouse_button_down == 4) _ _
        (λ selecting. elim (Option-cases c.selection) [
          | inl gone ↦ rw gone refl
          | inr (s, there) ↦ rw there (if-elim Kept (is_point v3 rot s) _ _ (λ b. refl) (λ b. refl))
        ])
        (λ other. refl)
    where
      Kept : Controls rot × Bool → Type 0
      Kept r = tape r.0 ≡ tape c
  perform-tape (moves projection w e) c =
      if-elim Kept (c.mouse_button_down == 1) _ _ (λ b. refl)
        (λ b.
          if-elim Kept (c.mouse_button_down == 2) _ _ (λ b. refl)
            (λ b.
              if-elim Kept (c.mouse_button_down == 4) _ _
                (λ selecting. elim (Option-cases c.selection) [
                  | inl gone ↦ rw gone refl
                  | inr (s, there) ↦ rw there refl
                ])
                (λ other. refl)))
    where
      Kept : Controls rot × Bool → Type 0
      Kept r = tape r.0 ≡ tape c
  perform-tape (wheel delta) c =
      if-elim {A = Controls rot} (λ r. tape r ≡ tape c) c.custom_clipping _ _ (λ b. refl)
        (λ b. refl)
  perform-tape (key code) c =
      if-elim Kept (code == 73) _ _ (λ b. refl)
        (λ b.
          if-elim Kept (code == 79) _ _ (λ b. refl)
            (λ b.
              if-elim Kept (code == 80) _ _ (λ b. refl)
                (λ b. if-elim Kept (code == 27) _ _ (λ b. refl) (λ b. refl))))
    where
      Kept : Controls rot → Type 0
      Kept r = tape r ≡ tape c
  perform-tape (camera cam) c = refl

  perform_all-tape :
      (inputs : List (Input mat)) (c : Controls rot)
      → tape (perform_all inputs c) ≡ tape_after v3 str (all_selected inputs c) (tape c)
  perform_all-tape [] c = refl
  perform_all-tape (i ∷ inputs) c =
      perform_all-tape inputs (perform i c)
      ∙ ap (tape_after v3 str (all_selected inputs (perform i c))) (perform-tape i c)
      ∙ sym (tape_after-append v3 str (selected i c) (all_selected inputs (perform i c)) (tape c))

  -- From controls without a measurement, whatever the user does with mouse, wheel and keys while the
  -- camera moves, the measurements are those between the first and second, third and fourth, ...
  -- point that a click with shift selects, numbered on from the next number, and a point that is
  -- left over is the start of the next one.
  pub perform_all-pairs :
      (inputs : List (Input mat)) (c : Controls rot)
      → c.distance_measurement_start ≡ none
      → c.all_measurements ≡ []
      → ((perform_all inputs c).all_measurements
          ≡ numbered v3 str c.g_measurement_number (pairs (all_selected inputs c)).0)
        × ((perform_all inputs c).distance_measurement_start ≡ (pairs (all_selected inputs c)).1)
  perform_all-pairs inputs c fresh empty =
      let start : tape c ≡ (none, [], c.g_measurement_number) = rw (fresh, empty) refl in
      let whole =
        perform_all-tape inputs c
        ∙ ap (tape_after v3 str (all_selected inputs c)) start
        ∙ tape_after-pairs v3 str (all_selected inputs c) [] c.g_measurement_number in
      (ap (λ t. t.1) whole, ap (λ t. t.0) whole)
