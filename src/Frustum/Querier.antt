-- ===== src/Frustum/Querier.antt =====
-- The state of the frustum querier (FrustumQuerier, megatree_web/js/frustum_querier.js) and the requests for
-- cells (getCell, megatree_web/js/megatree.js). Cells are shared objects: they stand on the heap `cells` and the
-- queue, the cell cache and `parent_cell` hold addresses. A variable of a function that a callback
-- captures is a place on `tree_vars` or `child_vars`, since all callbacks of one call share it.
use megatree.Base.{
  ℕ, zero, suc, ◌-◌ as minus, Bool, true, false, Option, some, List, [], ◌∷◌, ◌++◌, ◌==◌,
  if◌then◌else◌, get_elem?, when_some,
}
use megatree.Numbers.{Num, Number, lit}
use megatree.Velocity.Trap.{Vec3}
use megatree.Cell.{Cell, NodeGeometry, Inside, Text}
use megatree.Frustum.Planes.{Plane, extract_frustum_planes}

-- The cell cache as the querier uses it: addresses of cells by their id.
pub record CellCache : Type 1 where
  pub State : Type 0
  pub get : Text → State → Option ℕ × State
  pub put : Text → ℕ → State → State

-- The argument of triggerFrustum: 0, 1.0 (more cells) and -1.0 (fewer cells).
pub data TriggerId : Type 0 where
  user more_cells fewer_cells : TriggerId

-- What `setTimeout` will run.
pub data Timer : Type 0 where
  process_later : Timer
  trigger_later : TriggerId → Timer

-- The success callback of a request: of a root with the place of `tree_info`, or of a child with its
-- parent and the place of `child_in_frustum`.
pub data Callback : Type 0 where
  root_loaded : ℕ → Callback
  child_loaded : (parent variable : ℕ) → Callback

unfoldable pub same_trigger : TriggerId → TriggerId → Bool
same_trigger user user = true
same_trigger more_cells more_cells = true
same_trigger fewer_cells fewer_cells = true
same_trigger _ _ = false

unfoldable pub mem : ℕ → List ℕ → Bool
mem n [] = false
mem n (m ∷ ms) = if n == m then true else mem n ms

module _ ⦃num : Num⦄ where
  pub record TreeInfo : Type 0 where
    pub enabled : Bool
    pub name : Text
    pub override_color : Bool
    pub color : Vec3
    pub root : Text
    pub geom : NodeGeometry

  -- A write to an address that is not on the heap changes nothing.
  abbrev pub modify : List Cell → ℕ → (Cell → Cell) → List Cell
  modify [] at f = []
  modify (c ∷ cs) zero f = f c ∷ cs
  modify (c ∷ cs) (suc at) f = c ∷ modify cs at f

  -- A request that was sent, with its number.
  pub record Request : Type 0 where
    pub serial : ℕ
    pub cell_id : Text
    pub geometry : NodeGeometry
    pub on_success : Callback

  -- The calls of the user's callbacks, with the copies of the cells.
  pub data Delivery : Type 0 where
    progress : List Cell → Delivery
    finished : List Cell → Delivery

  -- Of mjs.js the product of the camera matrix with a point and the squared length.
  pub record MatrixOps : Type 1 where
    pub Matrix : Type 0
    pub entries : Matrix → ℕ → Number
    pub mul4x4 : Matrix → Vec3 → Vec3
    pub length_squared : Vec3 → Number

  -- The querier, with what it reads of the page: the first three fields, `desired_cell_count`,
  -- `min_box_size_meters` and `RUN_ON_CACHE_ONLY`, which the page may change between steps.
  pub record FrustumQuerier ⦃cache : CellCache⦄ ⦃mjs : MatrixOps⦄ : Type 0 where
    pub desired_cell_count : Number
    pub min_box_size_meters : Number
    pub run_on_cache_only : Bool
    pub trees_info : List (Option TreeInfo)
    pub cells : List Cell
    pub cell_cache : cache.State
    pub tree_vars : List (Option TreeInfo)
    pub child_vars : List Inside
    pub next_serial : ℕ
    pub pending : List Request
    pub timers : List Timer
    pub delivered : List Delivery
    pub frustum_planes : List Plane
    pub camera_matrix : mjs.Matrix
    pub g_m : Number
    pub corrected_g_m : Number
    pub corrected_g_m_sq : Number
    pub in_flight : ℕ
    pub resolution_correction : Number
    pub resolution_step : Number
    pub cell_count : Number
    pub completed_full_frustum_query : Bool
    pub last_frustum_trigger_id : TriggerId
    pub queue : List ℕ
    pub queue_index : ℕ
    pub storage_requests : List ℕ
    pub is_processing_queue : Bool
    pub interrupt_frustum_query : Bool
    pub process_calls_in_a_row : ℕ

  -- The requests that are not among the aborted ones.
  unfoldable pub without : List ℕ → List Request → List Request
  without aborted [] = []
  without aborted (r ∷ rs) =
      if mem r.serial aborted then without aborted rs else r ∷ without aborted rs

  module _ ⦃cache : CellCache⦄ ⦃mjs : MatrixOps⦄ where
    -- `abort` of a request that is over has no effect.
    unfoldable pub cancel : FrustumQuerier → FrustumQuerier
    cancel q = record q { pending = without q.storage_requests q.pending; in_flight = 0 }

    unfoldable pub set_projection_matrix : mjs.Matrix → FrustumQuerier → FrustumQuerier
    set_projection_matrix m q = record q { frustum_planes = extract_frustum_planes (mjs.entries m) }

    -- The change of one cell on the heap.
    unfoldable pub change : ℕ → (Cell → Cell) → FrustumQuerier → FrustumQuerier
    change at f q = record q { cells = modify q.cells at f }

    -- The end of both success callbacks: `queue.push(child_cell)` and `inFlight--`. The count is above
    -- zero there.
    unfoldable pub enqueue : ℕ → FrustumQuerier → FrustumQuerier
    enqueue at q = record q { queue = q.queue ++ at ∷ []; in_flight = minus q.in_flight 1 }

    -- `if (!this.isProcessingQueue) this.processQueue()`, without and with its else part.
    unfoldable pub resume :
        (FrustumQuerier → Option FrustumQuerier) → FrustumQuerier → Option FrustumQuerier
    resume process q = if q.is_processing_queue then some q else process q

    unfoldable pub resume_or_count :
        (FrustumQuerier → Option FrustumQuerier) → FrustumQuerier → Option FrustumQuerier
    resume_or_count process q =
        if q.is_processing_queue
        then some (record q { process_calls_in_a_row = suc q.process_calls_in_a_row })
        else process q

    abbrev minus_one : Vec3
    minus_one = record { x = num.neg (lit 1); y = num.neg (lit 1); z = num.neg (lit 1) }

    -- The success callback of a root. `process` is processQueue. The access to `tree_info` throws where it is
    -- null, and then the rest of the callback is not run.
    abbrev pub on_root :
        (FrustumQuerier → Option FrustumQuerier)
        → (variable : ℕ) → ℕ
        → FrustumQuerier
        → Option FrustumQuerier
    on_root process v at q = when_some (get_elem? q.tree_vars v) (some q) (λ var.
        when_some var (some q) (λ t.
          let color = if t.override_color then t.color else minus_one in
          resume process (enqueue at (change at (λ c. record c { override_color = color }) q))))

    -- The success callback of a child.
    abbrev pub on_child :
        (FrustumQuerier → Option FrustumQuerier)
        → (parent variable : ℕ) → ℕ
        → FrustumQuerier
        → Option FrustumQuerier
    on_child process parent v at q = when_some (get_elem? q.cells parent) (some q) (λ above.
        when_some (get_elem? q.child_vars v) (some q) (λ place.
          let f = λ (c : Cell). record c {
            override_color = above.override_color;
            parent_cell = some parent;
            inside_frustum = place;
          } in
          resume_or_count process (enqueue at (change at f q))))

    unfoldable pub call_back :
        (FrustumQuerier → Option FrustumQuerier)
        → Callback
        → ℕ
        → FrustumQuerier
        → Option FrustumQuerier
    call_back process (root_loaded v) at q = on_root process v at q
    call_back process (child_loaded parent v) at q = on_child process parent v at q

    -- A request that is sent, and its push on `storageRequests`.
    unfoldable pub send : Text → NodeGeometry → Callback → FrustumQuerier → FrustumQuerier
    send id geometry on_success q = record q {
      next_serial = suc q.next_serial;
      pending =
          q.pending
          ++ record {
            serial = q.next_serial;
            cell_id = id;
            geometry = geometry;
            on_success = on_success;
          }
            ∷ [];
      storage_requests = q.storage_requests ++ q.next_serial ∷ [];
    }

    -- `getCell` and the push on `storageRequests` after it.
    unfoldable pub get_cell :
        (FrustumQuerier → Option FrustumQuerier)
        → Text
        → NodeGeometry
        → Callback
        → FrustumQuerier
        → Option FrustumQuerier
    get_cell process id geometry on_success q =
        let p = record q { cell_cache = (cache.get id q.cell_cache).1 } in
        when_some (cache.get id q.cell_cache).0
          (if q.run_on_cache_only then some p else some (send id geometry on_success p))
          (λ at. call_back process on_success at p)
