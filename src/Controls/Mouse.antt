-- ===== src/Controls/Mouse.antt =====
-- The handlers of the mouse: onMouseDown, onMouseUp and onMouseMove of megatree_web/js/index.js.
use megatree.Base.{
  ℕ, suc, Bool, true, false, not, ◌&&◌, ◌||◌, Option, none, some, [], ◌∷◌, ◌++◌, ◌==◌,
  if◌then◌else◌,
}
use megatree.Outcome.{Outcome, returns, throws, ◌>>=◌}
use megatree.Numbers.{Num, ◌-◌, ◌*◌, ◌/◌, neg, lit, dec}
use megatree.Velocity.Trap.{Vec3}
use megatree.Velocity.Mapped.{Mjs}
use megatree.OrbitCam.{OrbitCam, new_orbit_cam, get_position, yaw_by, pitch_by, go_left, go_up}
use megatree.OrbitCam.Goto.{Timer, goto, stop_profile}
use megatree.Texts.{Strings}
use megatree.Selection.{Rotations, Selection, new_selection, set_end_point, is_point, get_point}
use megatree.Utm.{utm_to_lat_long}
use megatree.Controls.{
  Matrices, MouseEvent, Window, Controls, get_cursor_position, new_distance_measurement, get_matrix,
  compute_pick_ray, picked_point,
}

abbrev pub has_thrown {ℓ} : {A : Type ℓ} → Outcome A → Bool
has_thrown throws = true
has_thrown (returns a) = false

module _ ⦃num : Num⦄ (v3 : Mjs) where
  -- The point of the new selection starts a measurement or completes the one that was started.
  unfoldable pub measure : {rot : Rotations} → Strings → Vec3 → Controls rot → Controls rot
  measure str point c = elim c.distance_measurement_start [
    | none ↦ record c { distance_measurement_start = some point }
    | some start ↦ record c {
      all_measurements =
          c.all_measurements
          ++ new_distance_measurement v3 str start point c.g_measurement_number ∷ [];
      g_measurement_number = suc c.g_measurement_number;
      distance_measurement_start = none;
    }
  ]

  -- The camera that looks at a point from where the camera is now.
  unfoldable pub goal_of : Vec3 → OrbitCam → OrbitCam
  goal_of picked cam = new_orbit_cam (record {
    origin = some (v3.add picked (get_position v3 cam));
    distance = some (v3.length picked);
    pitch = some cam.pitch;
    yaw = some cam.yaw;
    closest = none;
    farthest = none;
  })

module _ ⦃num : Num⦄ (v3 : Mjs) (rot : Rotations) (mat : Matrices rot) where
  -- Whether the handler throws.
  unfoldable pub select_point : Strings → Vec3 → Controls rot → Controls rot × Bool
  select_point str picked c =
      let selection =
        new_selection v3 rot picked (mat.top_left3x3 (get_matrix v3 rot mat c.cam))
          (get_position v3 c.cam) in
      let c = record c { mouse_button_down = 4; selection = some selection } in
      elim (get_point v3 rot selection) [
        | throws ↦ (c, true)
        | returns point ↦ (measure v3 str point c, false)
      ]

  module _ (projection_matrix : mat.Matrix4) (str : Strings) (w : Window) where
    -- The controls, the goal that `cam.goto` is to be called with, and whether the handler throws, as
    -- it does where it looks for a point and there is none.
    unfoldable pub on_mouse_down : MouseEvent → Controls rot → Controls rot × Option OrbitCam × Bool
    on_mouse_down e c =
        let c = record c { cam = stop_profile c.cam; mouse_position = get_cursor_position w e } in
        if e.which == 1 && e.shift_key || e.which == 3
        then elim (picked_point v3 rot mat projection_matrix str w e c) [
          | none ↦ (c, none, true)
          | some picked ↦
              if e.which == 1 && e.shift_key
              then ((select_point str picked c).0, none, (select_point str picked c).1)
              else if e.shift_key
              then (c, none, has_thrown (utm_to_lat_long (v3.add picked (get_position v3 c.cam))))
              else (c, some (goal_of v3 picked c.cam), false)
        ]
        else if (e.which == 1 || e.which == 2) && not e.shift_key
        then (record c { mouse_button_down = e.which }, none, false)
        else (c, none, false)

    -- The call of `cam.goto`, on fuel for its two loops.
    unfoldable pub recentre :
        ℕ → (goal : OrbitCam) → Controls rot → Option (Outcome (Controls rot × Option Timer))
    recentre fuel goal c = elim (goto fuel v3 goal (some (lit 4)) c.cam) [
      | none ↦ none
      | some o ↦ some (o >>= λ r. returns (record c { cam = r.0 }, r.1))
    ]

    unfoldable pub end_selection : MouseEvent → Selection rot → Controls rot → Selection rot
    end_selection e s c =
        set_end_point v3 rot
          (compute_pick_ray v3 rot mat projection_matrix w c.cam (get_cursor_position w e)).ray s

    -- Whether the handler throws: then the button still counts as down.
    unfoldable pub on_mouse_up : MouseEvent → Controls rot → Controls rot × Bool
    on_mouse_up e c =
        if c.mouse_button_down == 4
        then elim c.selection [
          | none ↦ (c, true)
          | some s ↦
              if is_point v3 rot s
              then (
                record c { selection_vertex = some s.picked_point_world; mouse_button_down = 0 },
                false,
              )
              else (
                record c { selection = some (end_selection e s c); mouse_button_down = 0 },
                false,
              )
        ]
        else (record c { mouse_button_down = 0 }, false)

    unfoldable pub on_mouse_move : MouseEvent → Controls rot → Controls rot × Bool
    on_mouse_move e c =
        let cursor = get_cursor_position w e in
        let delta_x = (cursor.0 - c.mouse_position.0) / w.width in
        let delta_y = (cursor.1 - c.mouse_position.1) / w.height in
        if c.mouse_button_down == 1
        then (
          record c {
            cam = pitch_by (neg delta_y * lit 5) (yaw_by (neg delta_x * lit 5) c.cam);
            mouse_position = cursor;
          },
          false,
        )
        else if c.mouse_button_down == 2
        then (
          record c {
            cam =
                go_up v3 (delta_y * dec 5 1 * c.cam.distance)
                  (go_left v3 (delta_x * dec 5 1 * c.cam.distance) c.cam);
            mouse_position = cursor;
          },
          false,
        )
        else if c.mouse_button_down == 4
        then elim c.selection [
          | none ↦ (c, true)
          | some s ↦ (record c { selection = some (end_selection e s c) }, false)
        ]
        else (c, false)
