-- ===== src/Draw/Session/Ready.antt =====
-- Whatever happens on a page, its frames are drawn (renderLoop of megatree_web/js/index.js).
use megatree.Base.{ℕ, ◌≡◌, refl, ◌∙◌, Option, some, List, [], ◌∷◌, arith, Option-cases, inl, inr}
use megatree.Outcome.{returns}
use megatree.Numbers.{Num, Number}
use megatree.Velocity.Trap.{Vec3}
use megatree.Velocity.Mapped.{Mjs}
use megatree.OrbitCam.{OrbitCam}
use megatree.Cell.{Cell}
use megatree.Texts.{Strings}
use megatree.Selection.{Rotations, Selection}
use megatree.Controls.{Matrices}
use megatree.Draw.{Gl, call, get_error}
use megatree.Draw.Marks.{Browser}
use megatree.Draw.Clouds.{PointCloud, setup_gl}
use megatree.Draw.Panel.{Usage}
use megatree.Draw.Frame.{Transforms, Screen, render_loop}
use megatree.Draw.Frame.Calls.{AreFresh, Later-plain}
use megatree.Draw.Frame.Loads.{IsQuiet}
use megatree.Draw.Frame.Stored.{Extends, Extends-refl, Extends-trans}
use megatree.Draw.Frame.Whole.{frame-shows}
use megatree.Draw.Session.{
  Happening, frame, cells_given, measured, point_selected, changed, with_point, unloaded,
  show_point, new_screen, happen, happen_all, empty_cloud,
}
use megatree.Draw.Frame.Halves.{IsReady, Later-IsReady}
use megatree.Draw.Session.Loads.{setup_gl-Later, setup_gl-IsFilled, All-snoc}

module _ ⦃num : Num⦄ {rot : Rotations} {mat : Matrices rot} (v3 : Mjs) (tr : Transforms rot mat)
    (w : Browser rot mat) (str : Strings) (quiet : IsQuiet w) where
  -- A screen that is ready, with a cloud for the selection.
  record HasCloud (s : Screen rot mat) : Type 0 where
    ready : IsReady s
    cloud : (c : PointCloud) × (s.selection_cloud ≡ some c)

  -- And its cells have the buffers that they had.
  record Goes (s s' : Screen rot mat) : Type 0 where
    there : HasCloud s'
    cells : Extends s.store s'.store

  -- What a frame does not change may be set to anything.
  set-Goes :
      (s : Screen rot mat) (cam : Option OrbitCam) (cells : Option (List ℕ))
      (selection : Option (Selection rot)) (box scale height : Number)
      → HasCloud s
      → Goes s (record s {
        cam = cam;
        current_cells = cells;
        selection = selection;
        box_size_px = box;
        point_scale = scale;
        canvas_height = height;
      })
  set-Goes s cam cells selection box scale height h = record {
    there = record {
      ready = record {
        fresh = h.ready.fresh;
        stored = h.ready.stored;
        kept = h.ready.kept;
        set_up = h.ready.set_up;
      };
      cloud = h.cloud;
    };
    cells = Extends-refl s.store;
  }

  frame-Goes :
      (now : Number) (u : Usage) (s : Screen rot mat)
      → HasCloud s
      → (s' : Screen rot mat) × (render_loop v3 tr w str now u s ≡ returns s') × Goes s s'
  unfolding render_loop
  frame-Goes now u s h = elim (Option-cases s.cam) [
    | inr (cam, e) ↦
        let (s', runs, shown) = frame-shows v3 tr w str quiet s cam now u e h.ready in
        (
          s',
          runs,
          record {
            there = record { ready = shown.ready; cloud = (h.cloud.0, shown.cloud ∙ h.cloud.1) };
            cells = shown.cells;
          },
        )
    | inl e ↦
        let g1 = call get_error s.gl in
        let later = Later-plain s.gl g1 refl (λ b. refl) (λ b. refl) in
        (
          record s { gl = g1 },
          rw e refl,
          record {
            there = record { ready = Later-IsReady s g1 later h.ready; cloud = h.cloud };
            cells = Extends-refl s.store;
          },
        )
  ]

  show_point-Goes :
      (p : Vec3) (s : Screen rot mat)
      → HasCloud s
      → (s' : Screen rot mat) × (show_point p s ≡ returns s') × Goes s s'
  unfolding show_point
  show_point-Goes p s h =
      let c = with_point p h.cloud.0 in
      let g = (setup_gl c s.gl).1 in
      let moved = Later-IsReady s g (setup_gl-Later c s.gl) h.ready in
      (
        record s { selection_cloud = some (setup_gl c s.gl).0; gl = g },
        rw (h.cloud.1) refl,
        record {
          there = record {
            ready = record {
              fresh = moved.fresh;
              stored = moved.stored;
              kept = moved.kept;
              set_up = setup_gl-IsFilled c s.gl h.ready.fresh;
            };
            cloud = (_, refl);
          };
          cells = Extends-refl s.store;
        },
      )

  happen-Goes :
      (e : Happening rot) (s : Screen rot mat)
      → HasCloud s
      → (s' : Screen rot mat) × (happen v3 tr w str e s ≡ returns s') × Goes s s'
  unfolding happen
  happen-Goes (frame now u) s h = frame-Goes now u s h
  happen-Goes (cells_given cells) s h = (
    _,
    refl,
    set-Goes s s.cam (some cells) s.selection s.box_size_px s.point_scale s.canvas_height h,
  )
  happen-Goes (measured m) s h = (
    _,
    refl,
    record {
      there = record {
        ready = record {
          fresh = h.ready.fresh;
          stored = h.ready.stored;
          kept = All-snoc s.gl s.all_measurements (unloaded m) h.ready.kept (λ b e. ground arith);
          set_up = h.ready.set_up;
        };
        cloud = h.cloud;
      };
      cells = Extends-refl s.store;
    },
  )
  happen-Goes (point_selected p) s h = show_point-Goes p s h
  happen-Goes (changed cam selection box scale height) s h =
      (_, refl, set-Goes s cam s.current_cells selection box scale height h)

  happen_all-Goes :
      (es : List (Happening rot)) (s : Screen rot mat)
      → HasCloud s
      → (s' : Screen rot mat) × (happen_all v3 tr w str es s ≡ returns s') × Goes s s'
  unfolding happen_all
  happen_all-Goes [] s h = (s, refl, record { there = h; cells = Extends-refl s.store })
  happen_all-Goes (e ∷ es) s h =
      let (s1, runs, one) = happen-Goes e s h in
      let (s', rest, more) = happen_all-Goes es s1 one.there in
      (
        s',
        rw runs rest,
        record {
          there = more.there;
          cells = Extends-trans s.store s1.store s'.store one.cells more.cells;
        },
      )

  new_screen-HasCloud :
      (cells : ℕ → Cell) (box scale height now : Number)
      → HasCloud (new_screen cells box scale height now)
  unfolding new_screen
  new_screen-HasCloud cells box scale height now =
      let blank : Gl rot mat = record { calls = []; next_buffer = 0; next_texture = 0 } in
      let free : AreFresh blank = λ b above. refl in
      record {
        ready = record {
          fresh = (setup_gl-Later empty_cloud blank).fresh free;
          stored = λ r b e. ground arith;
          kept = tt;
          set_up = setup_gl-IsFilled empty_cloud blank free;
        };
        cloud = (_, refl);
      }

  -- Where the browser reports no WebGL error, then from the start on, whatever frames, cells,
  -- measurements, selected points and changes of the camera, the sliders and the window follow, in
  -- any order, no frame throws, and always each cell and each measurement that has a buffer has one
  -- that holds its data, uploaded once in all frames, no number of a later buffer was uploaded to,
  -- the cloud of the selection counts its points and has buffers that hold its points and colours,
  -- each uploaded once, and the cells are the same.
  pub happen_all-IsReady :
      (es : List (Happening rot)) (cells : ℕ → Cell) (box scale height now : Number)
      → (s' : Screen rot mat) × (happen_all v3 tr w str es (new_screen cells box scale height now)
          ≡ returns s')
        × IsReady s'
        × (s'.store.cell ≡ cells)
  unfolding new_screen
  happen_all-IsReady es cells box scale height now =
      let (s', runs, goes) =
        happen_all-Goes es (new_screen cells box scale height now)
          (new_screen-HasCloud cells box scale height now) in
      (s', runs, goes.there.ready, goes.cells.cells)
