-- ===== src/Controls/Throws.antt =====
-- When the handler onMouseDown of megatree_web/js/index.js throws.
use megatree.Base.{
  ◌≡◌, refl, Bool, true, false, not, ◌&&◌, ◌||◌, Option, none, some, ◌==◌, if-elim, Option-cases,
  Bool-cases, inl, inr,
}
use megatree.Numbers.{Num, ◌===◌, dec}
use megatree.Velocity.Trap.{Vec3}
use megatree.Velocity.Mapped.{Mjs}
use megatree.OrbitCam.{OrbitCam, get_position}
use megatree.OrbitCam.Goto.{stop_profile}
use megatree.Texts.{Strings}
use megatree.Utm.{geo_constants, out_of_range, utm_to_lat_long}
use megatree.Selection.{Rotations, new_selection, get_point}
use megatree.Controls.{Controls, Matrices, MouseEvent, Window, get_cursor_position, picked_point}
use megatree.Controls.Mouse.{has_thrown, select_point, on_mouse_down}

module _ ⦃num : Num⦄ (v3 : Mjs) {rot : Rotations} (w : Window) where
  -- The controls once the motion has stopped and the cursor is known.
  abbrev pub stopped : MouseEvent → Controls rot → Controls rot
  stopped e c = record c { cam = stop_profile c.cam; mouse_position = get_cursor_position w e }

  -- No point is hit, or the point for the map is out of range.
  abbrev pub goes_wrong : MouseEvent → Controls rot → Option Vec3 → Bool
  goes_wrong e c none = true
  goes_wrong e c (some p) =
      not (e.which == 1)
      && e.shift_key
      && out_of_range (v3.add p (get_position v3 (stopped e c).cam))

module _ ⦃num : Num⦄ (apart : (dec 9996 4 === dec 9999 4) ≡ false) where
  utm-throws : (p : Vec3) → has_thrown (utm_to_lat_long p) ≡ out_of_range p
  unfolding utm_to_lat_long geo_constants
  utm-throws p = elim (Bool-cases (out_of_range p)) [
    | inl e ↦ rw e refl
    | inr e ↦ rw (e, apart) refl
  ]

  module _ (v3 : Mjs) (rot : Rotations) (mat : Matrices rot) (projection : mat.Matrix4)
      (str : Strings) (w : Window) where
    -- Where the numbers 0.9996 and 0.9999 differ, onMouseDown throws exactly if it looks for a point,
    -- as it does for the left button with shift and for the right one, and either hits none or, for
    -- the right button with shift, hits one whose coordinates are out of the range of the projection.
    pub mouse_down-throws :
        (e : MouseEvent) (c : Controls rot)
        → (on_mouse_down v3 rot mat projection str w e c).2 ≡ (
            (e.which == 1 && e.shift_key || e.which == 3)
            && goes_wrong v3 w e c (picked_point v3 rot mat projection str w e (stopped v3 w e c)))
    unfolding on_mouse_down select_point new_selection get_point
    mouse_down-throws e c = elim (Bool-cases (e.which == 1 && e.shift_key || e.which == 3)) [
      | inl looks ↦
          rw looks
            (elim (Option-cases (picked_point v3 rot mat projection str w e (stopped v3 w e c))) [
              | inl missed ↦ rw missed refl
              | inr (p, hit) ↦ elim (Bool-cases e.shift_key) [
                | inl shift ↦ elim (Bool-cases (e.which == 1)) [
                  | inl one ↦ rw (hit, shift, one) refl
                  | inr other ↦
                      rw (hit, shift, other)
                        (utm-throws (v3.add p (get_position v3 (stopped v3 w e c).cam)))
                ]
                | inr plain ↦ elim (Bool-cases (e.which == 1)) [
                  | inl one ↦ rw (hit, plain, one) refl
                  | inr other ↦ rw (hit, plain, other) refl
                ]
              ]
            ])
      | inr none_of_them ↦ rw none_of_them (
          if-elim {A = Controls rot × Option OrbitCam × Bool} (λ r. r.2 ≡ false)
            ((e.which == 1 || e.which == 2) && not e.shift_key) _ _ (λ pan. refl) (λ nothing. refl))
    ]
