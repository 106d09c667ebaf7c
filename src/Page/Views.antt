-- ===== src/Page/Views.antt =====
-- The list of views of megatree_web/js/index.js: addView, the click on "Add view", and the buttons of a view.
pub mod Remembers
use megatree.Base.{
  ℕ, suc, Bool, true, false, not, ◌&&◌, Option, none, some, List, [], ◌∷◌, ◌++◌, ◌==◌,
  if◌then◌else◌,
}
use megatree.Outcome.{Outcome, returns, throws}
use megatree.Numbers.{Num, dec}
use megatree.Velocity.Mapped.{Mjs}
use megatree.Cell.{Text}
use megatree.OrbitCam.{Config, OrbitCam, get_config, new_orbit_cam}
use megatree.OrbitCam.Goto.{Timer, goto}

-- An entry of the list: the ids of its elements end in `view_id`.
pub record SavedView ⦃num : Num⦄ : Type 0 where
  pub view_id : ℕ
  pub name : Text
  pub camera : OrbitCam
  pub saved : Bool

-- The list, the number of the next view, what is typed as a name, and how often one was asked for.
pub record Views ⦃num : Num⦄ : Type 0 where
  pub view_list : List SavedView
  pub view_id : ℕ
  pub view_name : Text
  pub prompts : ℕ

module _ ⦃num : Num⦄ where
  abbrev pub no_views : Views
  no_views = record { view_list = []; view_id = 0; view_name = []; prompts = 0 }

  unfoldable pub add_view : (name : Text) (viewpoint : Config) (saved : Bool) → Views → Views
  add_view name viewpoint saved s =
      let view : SavedView = record {
        view_id = s.view_id;
        name = name;
        camera = new_orbit_cam viewpoint;
        saved = saved;
      } in
      record s { view_list = s.view_list ++ view ∷ []; view_id = suc s.view_id }

  -- The click on "Add view". Without a camera a property of `null` is read.
  unfoldable pub add_view_clicked : Option OrbitCam → Views → Outcome Views
  add_view_clicked cam s = elim s.view_name [
    | [] ↦ returns (record s { prompts = suc s.prompts })
    | c ∷ name ↦ elim cam [
      | none ↦ throws
      | some cam ↦
          returns (record (add_view (c ∷ name) (get_config cam) false s) { view_name = [] })
    ]
  ]

  -- The button that removes a view, which does nothing for one that is saved.
  abbrev pub without : ℕ → List SavedView → List SavedView
  without id [] = []
  without id (v ∷ vs) =
      let rest = without id vs in if v.view_id == id && not v.saved then rest else v ∷ rest

  unfoldable pub close_clicked : ℕ → Views → Views
  close_clicked id s = record s { view_list = without id s.view_list }

  abbrev pub find_view : ℕ → List SavedView → Option SavedView
  find_view id [] = none
  find_view id (v ∷ vs) = let rest = find_view id vs in if v.view_id == id then some v else rest

  -- The button of a view, with fuel for `goto`; nothing happens where there is none.
  unfoldable pub view_clicked :
      ℕ → Mjs → (id : ℕ) → OrbitCam → Views → Option (Outcome (OrbitCam × Option Timer))
  view_clicked fuel v3 id cam s = elim (find_view id s.view_list) [
    | none ↦ some (returns (cam, none))
    | some v ↦ goto fuel v3 v.camera (some (dec 9 1)) cam
  ]
