-- ===== src/Controls/Keys.antt =====
-- The wheel and the keys: mouseScroll, onFFMouseWheel, clearSelection and the keys of onKeyDown that
-- clip and that clear the selection, of megatree_web/js/index.js.
use megatree.Base.{ℕ, suc, false, none, ◌==◌, if◌then◌else◌}
use megatree.Numbers.{Num, Number, ◌+◌, ◌-◌, ◌*◌, ◌/◌, ◌<◌, neg, lit, dec, max}
use megatree.OrbitCam.{go_closer}
use megatree.OrbitCam.Goto.{stop_profile}
use megatree.Selection.{Rotations}
use megatree.Controls.{Controls}

module _ ⦃num : Num⦄ {rot : Rotations} where
  -- setProjectionMatrix calls triggerFrustumUpdate.
  unfoldable pub set_projection_matrix : Controls rot → Controls rot
  set_projection_matrix c = record c { updates = suc c.updates }

  unfoldable pub mouse_scroll : (wheel_delta : Number) → Controls rot → Controls rot
  mouse_scroll wheel_delta c =
      let c = record c { cam = stop_profile c.cam } in
      let move_by = wheel_delta * dec 1 2 * c.cam.distance / lit 10 in
      let c =
        if c.custom_clipping
        then set_projection_matrix (record c {
          near_plane_distance = max (lit 1) (c.near_plane_distance - move_by / lit 2);
        })
        else c in
      record c { cam = go_closer move_by c.cam }

  unfoldable pub on_ff_mouse_wheel : (detail : Number) → Controls rot → Controls rot
  on_ff_mouse_wheel detail = mouse_scroll (neg (lit 40) * detail)

  -- `near_plane_distance > 1.0` as the value of `custom_clipping`.
  unfoldable pub clip : Controls rot → Controls rot
  clip c = record c { custom_clipping = lit 1 < c.near_plane_distance }

  unfoldable pub clear_selection : Controls rot → Controls rot
  clear_selection c = record c { selection = none }

  -- The keys i, o, p and Esc. The others do not concern what is modelled here.
  unfoldable pub on_key_down : (key_code : ℕ) → Controls rot → Controls rot
  on_key_down key_code c =
      if key_code == 73
      then set_projection_matrix (record c { custom_clipping = false; near_plane_distance = lit 1 })
      else if key_code == 79
      then clip (
          set_projection_matrix
            (record c { near_plane_distance = max (lit 1) (c.near_plane_distance - dec 5 1) }))
      else if key_code == 80
      then clip (
          set_projection_matrix
            (record c { near_plane_distance = c.near_plane_distance + dec 5 1 }))
      else if key_code == 27
      then clear_selection c
      else c
