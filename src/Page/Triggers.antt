-- ===== src/Page/Triggers.antt =====
-- The timer that collects the calls of triggerFrustumUpdate, the sliders and the resizing of the canvas, of
-- megatree_web/js/index.js. The tangent and the height of the canvas come from the browser.
use megatree.Base.{
  ◌≡◌, refl, inl, inr, Bool-cases, Bool, true, false, Option, none, some, List, [], ◌∷◌,
}
use megatree.Numbers.{Num, Number, ◌*◌, ◌/◌, lit, pi}

module _ ⦃num : Num⦄ where
  -- `existing_frustum_trigger` with the box size that its function captured, and the box sizes of the
  -- calls of getFrustum so far, the latest in front.
  pub record Triggers : Type 0 where
    pub has_cam : Bool
    pub box_size_px : Number
    pub height : Number
    pub point_size_multiplier : Number
    pub desired_cell_count : Number
    pub existing_frustum_trigger : Option Number
    pub queries : List Number

  abbrev pub fov : Number
  fov = lit 20

  unfoldable pub box_size_meters : Triggers → Number
  box_size_meters t = lit 2 * num.tan (fov / lit 2 * pi / lit 180) * t.box_size_px / t.height

  unfoldable pub trigger_frustum_update : Triggers → Triggers
  trigger_frustum_update t = elim t.has_cam [
    | false ↦ t
    | true ↦ elim t.existing_frustum_trigger [
      | none ↦ record t { existing_frustum_trigger = some (box_size_meters t) }
      | some b ↦ t
    ]
  ]

  -- The timer.
  unfoldable pub fire : Triggers → Triggers
  fire t = elim t.existing_frustum_trigger [
    | none ↦ t
    | some b ↦ record t { queries = b ∷ t.queries; existing_frustum_trigger = none }
  ]

  unfoldable pub on_slider_move : (value : Number) → Triggers → Triggers
  on_slider_move value t = trigger_frustum_update (record t { box_size_px = value })

  unfoldable pub on_point_slider_move : (value : Number) → Triggers → Triggers
  on_point_slider_move value t = record t { point_size_multiplier = value }

  unfoldable pub on_point_count_slider_move : (value : Number) → Triggers → Triggers
  on_point_count_slider_move value t =
      trigger_frustum_update (record t { desired_cell_count = value })

  -- onCanvasResize calls setProjectionMatrix, and that triggerFrustumUpdate.
  unfoldable pub on_canvas_resize : (height : Number) → Triggers → Triggers
  on_canvas_resize height t = trigger_frustum_update (record t { height = height })

  -- What may happen before the timer fires.
  pub data Change : Type 0 where
    slides counts scales resizes : Number → Change
    moves : Change

  abbrev pub change : Change → Triggers → Triggers
  change (slides value) t = on_slider_move value t
  change (counts value) t = on_point_count_slider_move value t
  change (scales value) t = on_point_slider_move value t
  change (resizes height) t = on_canvas_resize height t
  change moves t = trigger_frustum_update t

  abbrev pub change_all : List Change → Triggers → Triggers
  change_all [] t = t
  change_all (c ∷ changes) t = change_all changes (change c t)

  -- The timer is set with the box size `b`, after the queries `qs`.
  record IsWaiting (b : Number) (qs : List Number) (t : Triggers) : Type 0 where
    set : t.existing_frustum_trigger ≡ some b
    before : t.queries ≡ qs

  trigger-IsWaiting :
      (b : Number) (qs : List Number) (t : Triggers)
      → IsWaiting b qs t
      → IsWaiting b qs (trigger_frustum_update t)
  unfolding trigger_frustum_update
  trigger-IsWaiting b qs t i = elim (Bool-cases t.has_cam) [
    | inl e ↦ rw (trigger_frustum_update, e, i.set) i
    | inr e ↦ rw (trigger_frustum_update, e) i
  ]

  change-IsWaiting :
      (b : Number) (qs : List Number) (c : Change) (t : Triggers)
      → IsWaiting b qs t
      → IsWaiting b qs (change c t)
  unfolding on_slider_move on_point_count_slider_move on_point_slider_move on_canvas_resize
  change-IsWaiting b qs (slides value) t i =
      trigger-IsWaiting b qs _ (record { set = i.set; before = i.before })
  change-IsWaiting b qs (counts value) t i =
      trigger-IsWaiting b qs _ (record { set = i.set; before = i.before })
  change-IsWaiting b qs (scales value) t i = record { set = i.set; before = i.before }
  change-IsWaiting b qs (resizes height) t i =
      trigger-IsWaiting b qs _ (record { set = i.set; before = i.before })
  change-IsWaiting b qs moves t i = trigger-IsWaiting b qs t i

  change_all-IsWaiting :
      (b : Number) (qs : List Number) (changes : List Change) (t : Triggers)
      → IsWaiting b qs t
      → IsWaiting b qs (change_all changes t)
  change_all-IsWaiting b qs [] t i = i
  change_all-IsWaiting b qs (c ∷ changes) t i =
      change_all-IsWaiting b qs changes (change c t) (change-IsWaiting b qs c t i)

  -- With a camera and no timer set, a call of triggerFrustumUpdate, with whatever sliders, resizes
  -- and calls follow before the timer fires, leads to one query, with the box size at the first
  -- call, and leaves no timer.
  pub trigger-once :
      (t : Triggers) (changes : List Change)
      → t.has_cam ≡ true
      → t.existing_frustum_trigger ≡ none
      → ((fire (change_all changes (trigger_frustum_update t))).queries
          ≡ box_size_meters t ∷ t.queries)
        × ((fire (change_all changes (trigger_frustum_update t))).existing_frustum_trigger ≡ none)
  unfolding fire trigger_frustum_update box_size_meters
  trigger-once t changes cam idle =
      let i =
        change_all-IsWaiting (box_size_meters t) t.queries changes (trigger_frustum_update t)
          started in
      (rw (fire, i.set, i.before) refl, rw (fire, i.set) refl)
    where
      started : IsWaiting (box_size_meters t) t.queries (trigger_frustum_update t)
      started = rw (trigger_frustum_update, cam, idle) (record { set = refl; before = refl })
