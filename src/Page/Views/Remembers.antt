-- ===== src/Page/Views/Remembers.antt =====
-- A view is remembered until it is closed (megatree_web/js/index.js, getConfig of megatree_web/js/orbitcam.js).
use megatree.Base.{
  ℕ, suc, ◌<◌, ◌≡◌, refl, ap, ◌∙◌, false, not, ◌&&◌, Option, none, some, List, [], ◌∷◌, ◌++◌, ◌==◌,
  All, arith, ◌⊎◌, inl, inr, Bool-cases, ◌||◌,
}
use megatree.Outcome.{Outcome, returns, throws}
use megatree.Numbers.{Num, Number, ◌===◌, is_nan, lit, dec}
use megatree.Velocity.Mapped.{Mjs}
use megatree.Cell.{Text}
use megatree.OrbitCam.{OrbitCam, or_default, float32, get_config, new_orbit_cam}
use megatree.OrbitCam.Goto.{goto}
use megatree.Page.Views.{
  SavedView, Views, no_views, add_view, add_view_clicked, without, close_clicked, find_view,
  view_clicked,
}

module _ ⦃num : Num⦄ where
  -- What a user does: types a name, adds a view of the camera, if there is one, or closes a view.
  pub data Act : Type 0 where
    typed : Text → Act
    added : Option OrbitCam → Act
    closed : ℕ → Act

  -- A handler that throws does so before it changes anything.
  abbrev pub settled : Outcome Views → Views → Views
  settled throws s = s
  settled (returns s') s = s'

  abbrev pub act : Act → Views → Views
  act (typed name) s = record s { view_name = name }
  act (added cam) s = settled (add_view_clicked cam s) s
  act (closed id) s = close_clicked id s

  abbrev pub act_all : List Act → Views → Views
  act_all [] s = s
  act_all (a ∷ acts) s = act_all acts (act a s)

  -- An act other than closing this view.
  abbrev pub IsOther : ℕ → Act → Type 0
  IsOther id (closed q) = (q == id) ≡ false
  IsOther id _ = Unit {0}

  abbrev IsBelow : ℕ → SavedView → Type 0
  IsBelow n v = v.view_id < n

  find-append :
      (id : ℕ) (vs ws : List SavedView) (v : SavedView)
      → find_view id vs ≡ some v
      → find_view id (vs ++ ws) ≡ some v
  find-append id [] ws v h = ground arith
  find-append id (u ∷ vs) ws v h = elim (Bool-cases (u.view_id == id)) [
    | inl e ↦ rw e (ground (arith, h, e))
    | inr e ↦ rw e (find-append id vs ws v (ground (arith, h, e)))
  ]

  find-new :
      (vs : List SavedView) (v : SavedView)
      → All (IsBelow v.view_id) vs
      → find_view v.view_id (vs ++ v ∷ []) ≡ some v
  find-new [] v below = ground arith
  find-new (u ∷ vs) v (low, below) = ground (arith, find-new vs v below)

  find-without :
      (id q : ℕ) (vs : List SavedView)
      → (q == id) ≡ false
      → find_view id (without q vs) ≡ find_view id vs
  find-without id q [] other = refl
  find-without id q (u ∷ vs) other = ground (arith, find-without id q vs other)

  -- All views have numbers below the next one.
  append-IsBelow :
      (n : ℕ) (vs : List SavedView) (v : SavedView)
      → All (IsBelow n) vs
      → v.view_id < suc n
      → All (IsBelow (suc n)) (vs ++ v ∷ [])
  append-IsBelow n [] v h low = (low, tt)
  append-IsBelow n (u ∷ vs) v (k, h) low = (omega (arith, k), append-IsBelow n vs v h low)

  without-IsBelow :
      (n q : ℕ) (vs : List SavedView) → All (IsBelow n) vs → All (IsBelow n) (without q vs)
  without-IsBelow n q [] h = tt
  without-IsBelow n q (u ∷ vs) (k, h) = elim (Bool-cases (u.view_id == q && not u.saved)) [
    | inl e ↦ rw e (without-IsBelow n q vs h)
    | inr e ↦ rw e (k, without-IsBelow n q vs h)
  ]

  abbrev AreBelow : Views → Type 0
  AreBelow s = All (IsBelow s.view_id) s.view_list

  act-AreBelow : (a : Act) (s : Views) → AreBelow s → AreBelow (act a s)
  unfolding add_view_clicked add_view close_clicked
  act-AreBelow (typed name) s h = h
  act-AreBelow (added cam) s h = added-AreBelow cam s.view_name h
    where
      added-AreBelow :
          (cam : Option OrbitCam) (name : Text)
          → AreBelow s
          → AreBelow (act (added cam) (record s { view_name = name }))
      added-AreBelow cam [] h = h
      added-AreBelow none (c ∷ name) h = h
      added-AreBelow (some cam) (c ∷ name) h =
          append-IsBelow s.view_id s.view_list _ h (omega arith)
  act-AreBelow (closed q) s h = without-IsBelow s.view_id q s.view_list h

  act_all-AreBelow : (acts : List Act) (s : Views) → AreBelow s → AreBelow (act_all acts s)
  act_all-AreBelow [] s h = h
  act_all-AreBelow (a ∷ acts) s h = act_all-AreBelow acts (act a s) (act-AreBelow a s h)

  act-keeps :
      (id : ℕ) (a : Act) (s : Views) (v : SavedView)
      → IsOther id a
      → find_view id s.view_list ≡ some v
      → find_view id (act a s).view_list ≡ some v
  unfolding add_view_clicked add_view close_clicked
  act-keeps id (typed name) s v other h = h
  act-keeps id (added cam) s v other h = added-keeps cam s.view_name
    where
      added-keeps :
          (cam : Option OrbitCam) (name : Text)
          → find_view id (act (added cam) (record s { view_name = name })).view_list ≡ some v
      added-keeps cam [] = h
      added-keeps none (c ∷ name) = h
      added-keeps (some cam) (c ∷ name) = find-append id s.view_list _ v h
  act-keeps id (closed q) s v other h = find-without id q s.view_list other ∙ h

  act_all-keeps :
      (id : ℕ) (acts : List Act) (s : Views) (v : SavedView)
      → All (IsOther id) acts
      → find_view id s.view_list ≡ some v
      → find_view id (act_all acts s).view_list ≡ some v
  act_all-keeps id [] s v others h = h
  act_all-keeps id (a ∷ acts) s v (other, others) h =
      act_all-keeps id acts (act a s) v others (act-keeps id a s v other h)

  -- A camera that its configuration describes: a Float32Array as the origin, a distance that is not 0, and no NaN.
  pub record IsExact (cam : OrbitCam) : Type 0 where
    pub origin : float32 cam.origin ≡ cam.origin
    pub distance : (cam.distance === lit 0 || is_nan cam.distance) ≡ false
    pub pitch : (cam.pitch ≡ lit 0) ⊎ ((cam.pitch === lit 0 || is_nan cam.pitch) ≡ false)
    pub yaw : (cam.yaw ≡ lit 0) ⊎ ((cam.yaw === lit 0 || is_nan cam.yaw) ≡ false)

  -- Two cameras with one view.
  pub record AreAlike (cam goal : OrbitCam) : Type 0 where
    pub origin : goal.origin ≡ cam.origin
    pub distance : goal.distance ≡ cam.distance
    pub pitch : goal.pitch ≡ cam.pitch
    pub yaw : goal.yaw ≡ cam.yaw

  or_default-same :
      (x d : Number) → ((x ≡ d) ⊎ ((x === lit 0 || is_nan x) ≡ false)) → or_default (some x) d ≡ x
  unfolding or_default
  or_default-same x d (inl e) = ground (arith, e)
  or_default-same x d (inr e) = rw e refl

  get_config-AreAlike :
      (cam : OrbitCam) → IsExact cam → AreAlike cam (new_orbit_cam (get_config cam))
  unfolding new_orbit_cam get_config
  get_config-AreAlike cam h = record {
    origin = ap float32 h.origin ∙ h.origin;
    distance = or_default-same cam.distance (lit 10) (inr h.distance);
    pitch = or_default-same cam.pitch (lit 0) h.pitch;
    yaw = or_default-same cam.yaw (lit 0) h.yaw;
  }

  view_clicked-goto :
      (v3 : Mjs) (fuel id : ℕ) (now : OrbitCam) (s : Views) (v : SavedView)
      → find_view id s.view_list ≡ some v
      → view_clicked fuel v3 id now s ≡ goto fuel v3 v.camera (some (dec 9 1)) now
  unfolding view_clicked
  view_clicked-goto v3 fuel id now s v found = rw (found, view_clicked) refl

  -- Whatever names are typed and views added or closed before and after, but for closing this one:
  -- the button of a view that was added, with a name that is not empty, calls goto for a camera of
  -- the origin, distance, pitch and yaw that the camera then had, if its origin was as a
  -- Float32Array holds it, its distance neither 0 nor NaN, and its pitch and yaw the 0 of the
  -- source, or neither equal to 0 nor NaN.
  pub view-remembers :
      (v3 : Mjs) (fuel : ℕ) (before after : List Act) (c : ℕ) (name : Text) (cam now : OrbitCam)
      → IsExact cam
      → All (IsOther (act_all before no_views).view_id) after
      → (goal : OrbitCam) × AreAlike cam goal
        × (view_clicked fuel v3
              (act_all before no_views).view_id
              now
              (act_all (typed (c ∷ name) ∷ added (some cam) ∷ after) (act_all before no_views))
            ≡ goto fuel v3 goal (some (dec 9 1)) now)
  unfolding add_view_clicked add_view
  view-remembers v3 fuel before after c name cam now exact others =
      let s = act_all before no_views in
      let v : SavedView = record {
        view_id = s.view_id;
        name = c ∷ name;
        camera = new_orbit_cam (get_config cam);
        saved = false;
      } in
      let below = act_all-AreBelow before no_views tt in
      let found =
        act_all-keeps s.view_id after (act_all (typed (c ∷ name) ∷ added (some cam) ∷ []) s) v
          others (find-new s.view_list v below) in
      (
        v.camera,
        get_config-AreAlike cam exact,
        view_clicked-goto v3 fuel s.view_id now
            (act_all after (act_all (typed (c ∷ name) ∷ added (some cam) ∷ []) s)) v found,
      )
