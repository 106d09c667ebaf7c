-- ===== src/Examples/Buttons.antt =====
-- The buttons of the list of views at concrete inputs.
use megatree.Base.{◌≡◌, refl, none, some, [], ◌∷◌, List, inl, inr}
use megatree.Numbers.{lit, dec}
use megatree.OrbitCam.{OrbitCam, float32}
use megatree.OrbitCam.Goto.{goto}
use megatree.Texts.{codes}
use megatree.Page.Views.{no_views, add_view, add_view_clicked, close_clicked, view_clicked}
use megatree.Page.Views.Remembers.{Act, typed, added, closed, act_all, AreAlike, view-remembers}
use megatree.Examples.Data.{whole, at, v3, cam}

abbrev other : OrbitCam
other = record cam { origin = at 9 9 9; distance = lit 2 }

-- A first view is added and closed, and an empty name is refused.
abbrev before : List Act
before = typed (codes "a") ∷ added (some other) ∷ closed 0 ∷ added (some other) ∷ []

abbrev after : List Act
after = typed (codes "c") ∷ added none ∷ added (some other) ∷ closed 2 ∷ closed 0 ∷ []

view-remembers_example :
    (goal : OrbitCam) × AreAlike cam goal
    × (view_clicked 5 v3 1 other
          (act_all (typed (codes "b") ∷ added (some cam) ∷ after) (act_all before no_views))
        ≡ goto 5 v3 goal (some (dec 9 1)) other)
unfolding float32 add_view_clicked add_view close_clicked
view-remembers_example =
    view-remembers v3 5 before after b'b' [] cam other
      (record { origin = refl; distance = refl; pitch = inl refl; yaw = inr refl })
      (tt, (tt, (tt, (refl, (refl, tt)))))
