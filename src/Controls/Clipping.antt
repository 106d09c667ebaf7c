-- ===== src/Controls/Clipping.antt =====
-- The near plane stays where the keys and the wheel may put it.
use megatree.Base.{ℕ, ◌≡◌, false, ◌||◌, List, [], ◌∷◌, ◌==◌, if-elim}
use megatree.Numbers.{Num, Number, ◌+◌, ◌-◌, ◌*◌, ◌/◌, ◌<◌, lit, dec, max, IsOrdered}
use megatree.Numbers.Order.{lt_asymm}
use megatree.OrbitCam.{go_closer}
use megatree.OrbitCam.Goto.{stop_profile}
use megatree.Selection.{Rotations}
use megatree.Controls.{Controls}
use megatree.Controls.Keys.{mouse_scroll, on_key_down, clip, set_projection_matrix, clear_selection}

module _ ⦃num : Num⦄ {rot : Rotations} where
  -- The near plane is not before 1, and at 1 or NaN where nothing is clipped.
  pub record IsClipped (c : Controls rot) : Type 0 where
    pub not_below : (c.near_plane_distance < lit 1) ≡ false
    pub unclipped : c.custom_clipping ≡ false → (lit 1 < c.near_plane_distance) ≡ false

module _ ⦃num : Num⦄ (ord : IsOrdered num) where
  max-not_below : (a : Number) → (max (lit 1) a < lit 1) ≡ false
  unfolding max
  max-not_below a =
      if-elim Low (num.is_nan (lit 1) || num.is_nan a) _ _
        (λ n. ord.lt_nan_left num.nan (lit 1) ord.nan_is_nan)
        (λ n.
          if-elim Low (num.lt (lit 1) a) _ _ (λ above. lt_asymm ord (lit 1) a above)
            (λ below. ord.lt_irrefl (lit 1)))
    where
      Low : Number → Type 0
      Low b = (b < lit 1) ≡ false

  module _ {rot : Rotations}
      (raised : (a : Number) → (a < lit 1) ≡ false → (a + dec 5 1 < lit 1) ≡ false) where
    clip-IsClipped :
        (c : Controls rot) → (c.near_plane_distance < lit 1) ≡ false → IsClipped (clip c)
    unfolding clip
    clip-IsClipped c low = record { not_below = low; unclipped = λ e. e }

    mouse_scroll-IsClipped :
        (delta : Number) (c : Controls rot) → IsClipped c → IsClipped (mouse_scroll delta c)
    unfolding mouse_scroll set_projection_matrix
    mouse_scroll-IsClipped delta c i =
        if-elim {A = Controls rot} (λ c'. IsClipped (record c' { cam = go_closer move_by c'.cam }))
          c.custom_clipping _ _
          (λ on. record {
            not_below = max-not_below (c.near_plane_distance - move_by / lit 2);
            unclipped = λ off. cc;
          })
          (λ off. record { not_below = i.not_below; unclipped = i.unclipped })
      where
        move_by : Number
        move_by = delta * dec 1 2 * (stop_profile c.cam).distance / lit 10

    on_key_down-IsClipped :
        (key : ℕ) (c : Controls rot) → IsClipped c → IsClipped (on_key_down key c)
    unfolding on_key_down set_projection_matrix clear_selection
    on_key_down-IsClipped key c i =
        if-elim IsClipped (key == 73) _ _
          (λ k. record {
            not_below = ord.lt_irrefl (lit 1);
            unclipped = λ e. ord.lt_irrefl (lit 1);
          })
          (λ k.
            if-elim IsClipped (key == 79) _ _
              (λ k. clip-IsClipped _ (max-not_below (c.near_plane_distance - dec 5 1)))
              (λ k.
                if-elim IsClipped (key == 80) _ _
                  (λ k. clip-IsClipped _ (raised c.near_plane_distance i.not_below))
                  (λ k.
                    if-elim IsClipped (key == 27) _ _
                      (λ k. record { not_below = i.not_below; unclipped = i.unclipped }) (λ k. i))))

-- What moves the near plane: a turn of the wheel and a key.
pub data Turn ⦃num : Num⦄ : Type 0 where
  wheel : Number → Turn
  key : ℕ → Turn

module _ ⦃num : Num⦄ {rot : Rotations} where
  abbrev pub turn : Turn → Controls rot → Controls rot
  turn (wheel delta) c = mouse_scroll delta c
  turn (key code) c = on_key_down code c

  abbrev pub turn_all : List Turn → Controls rot → Controls rot
  turn_all [] c = c
  turn_all (t ∷ turns) c = turn_all turns (turn t c)

  -- Over numbers with the order laws of IEEE 754, where adding 0.5 to what is not below 1 stays not
  -- below 1, the wheel and the keys in any order keep the near plane from being below 1, and not
  -- above 1 where custom clipping is off.
  pub turn_all-IsClipped :
      IsOrdered num
      → ((a : Number) → (a < lit 1) ≡ false → (a + dec 5 1 < lit 1) ≡ false)
      → (turns : List Turn) (c : Controls rot) → IsClipped c
      → IsClipped (turn_all turns c)
  turn_all-IsClipped ord raised [] c i = i
  turn_all-IsClipped ord raised (wheel delta ∷ turns) c i =
      turn_all-IsClipped ord raised turns _ (mouse_scroll-IsClipped ord raised delta c i)
  turn_all-IsClipped ord raised (key code ∷ turns) c i =
      turn_all-IsClipped ord raised turns _ (on_key_down-IsClipped ord raised code c i)
