-- ===== src/Draw/Frame/Whole.antt =====
-- A whole frame of renderLoop of megatree_web/js/index.js.
use megatree.Base.{ℕ, ◌≡◌, refl, ◌∙◌, some, List, ◌++◌, All, suc, if-elim}
use megatree.Outcome.{returns}
use megatree.Numbers.{Num, Number, ◌-◌, ◌<◌, lit}
use megatree.Velocity.Mapped.{Mjs}
use megatree.OrbitCam.{OrbitCam}
use megatree.Cell.{Text}
use megatree.Texts.{Strings}
use megatree.Selection.{Rotations}
use megatree.Controls.{Matrices}
use megatree.Draw.{call, call_all, line, textured, lines, triangle_strip, get_error}
use megatree.Draw.Marks.{Browser}
use megatree.Draw.Frame.{Transforms, Screen, count_frame, render_with, render_loop, line_header}
use megatree.Draw.Panel.{Usage}
use megatree.Draw.Frame.Calls.{Drawing, drawn}
use megatree.Draw.Frame.Loads.{IsQuiet, gl_check-returns}
use megatree.Draw.Frame.Stored.{Extends, cell_drawings, IsLoaded, Later-IsStored}
use megatree.Draw.Frame.Shows.{Later-IsKept, mark_drawings, IsMarked, AreSame}
use megatree.Draw.Frame.Adds.{Adds-plain, Adds-trans, cells_of, cloud_drawings, Later-IsSetUp}
use megatree.Draw.Frame.Halves.{IsReady, Later-IsReady, halfway, finished}

module _ ⦃num : Num⦄ {rot : Rotations} {mat : Matrices rot} (v3 : Mjs) (tr : Transforms rot mat)
    (w : Browser rot mat) (str : Strings) where
  -- What a frame draws, the last first.
  abbrev pub frame_drawings : Screen rot mat → List Drawing
  frame_drawings s =
      (cloud_drawings s.selection_cloud ++ mark_drawings textured triangle_strip s.all_measurements)
      ++ (mark_drawings line lines s.all_measurements
          ++ cell_drawings s.store (cells_of s.current_cells))

  -- A screen after a frame.
  pub record IsShown (s s' : Screen rot mat) : Type 0 where
    pub ready : IsReady s'
    pub cells : Extends s.store s'.store
    pub loaded : All (IsLoaded s'.store) (cells_of s.current_cells)
    pub measurements : AreSame s.all_measurements s'.all_measurements
    pub marked : All IsMarked s'.all_measurements
    pub cloud : s'.selection_cloud ≡ s.selection_cloud
    pub drawings : drawn s'.gl.calls ≡ frame_drawings s' ++ drawn s.gl.calls

  -- The texts of the page do not matter to that.
  retold :
      (s t : Screen rot mat) (frames : ℕ) (last_time : Number) (display cache : Text)
      → IsShown s t
      → IsShown s
          (record t { frames = frames; last_time = last_time; display = display; cache = cache })
  retold s t frames last_time display cache h = record {
    ready = record {
      fresh = h.ready.fresh;
      stored = h.ready.stored;
      kept = h.ready.kept;
      set_up = h.ready.set_up;
    };
    cells = h.cells;
    loaded = h.loaded;
    measurements = h.measurements;
    marked = h.marked;
    cloud = h.cloud;
    drawings = h.drawings;
  }

  counted :
      (s t : Screen rot mat) (now total : Number) (u : Usage)
      → IsShown s t
      → IsShown s (count_frame v3 tr w str now total u t)
  unfolding count_frame
  counted s t now total u h =
      if-elim (IsShown s) (lit 250 < now - t.last_time) _ _ (λ _. retold s t 0 now _ _ h)
        (λ _. retold s t (suc t.frames) t.last_time t.display t.cache h)

  module _ (quiet : IsQuiet w) where
    -- The rest of a frame with a camera, after the first call.
    with-shows :
        (s : Screen rot mat) (cam : OrbitCam) (now : Number) (u : Usage)
        → IsReady s
        → (s' : Screen rot mat) × (render_with v3 tr w str cam now u s ≡ returns s') × IsShown s s'
    unfolding render_with
    with-shows s cam now u ready =
        let h = halfway v3 tr w str quiet s cam ready in
        let f = finished v3 tr w str quiet s cam h.marks h.g5 ready.set_up h.lined.marked in
        let t : Screen rot mat = record s {
          gl = f.g10;
          store = h.store;
          all_measurements = h.marks;
        } in
        let cells = cell_drawings h.store (cells_of s.current_cells) in
        let lined = mark_drawings line lines h.marks in
        let texts = mark_drawings textured triangle_strip h.marks in
        let whole =
          Adds-trans s.gl h.g5 f.g10 (lined ++ cells) (cloud_drawings s.selection_cloud ++ texts)
            h.adds f.adds in
        (
          count_frame v3 tr w str now h.total u t,
          rw
              (
                h.cells_run,
                gl_check-returns w (call_all (line_header v3 tr w str cam) h.g2) quiet,
                h.lines_run,
                gl_check-returns w h.g5 quiet,
                f.texts_run,
                gl_check-returns w f.g8 quiet,
                f.selection_run,
              )
              refl,
          counted s t now h.total u (record {
            ready = record {
              fresh = whole.later.fresh ready.fresh;
              stored = Later-IsStored h.store h.g5 f.g10 f.adds.later h.stored;
              kept = Later-IsKept h.g5 f.g10 f.adds.later h.marks h.lined.kept;
              set_up = Later-IsSetUp s.gl f.g10 s.selection_cloud whole.later ready.set_up;
            };
            cells = h.extends;
            loaded = h.loaded;
            measurements = h.lined.same;
            marked = h.lined.marked;
            cloud = refl;
            drawings = whole.drawings;
          }),
        )

    loop-with :
        (s : Screen rot mat) (cam : OrbitCam) (now : Number) (u : Usage)
        → s.cam ≡ some cam
        → render_loop v3 tr w str now u s
          ≡ render_with v3 tr w str cam now u (record s { gl = call get_error s.gl })
    unfolding render_loop
    loop-with s cam now u here = rw here refl

    -- Where the browser reports no WebGL error, a frame with a camera throws nothing, so that no
    -- assertion on a missing buffer fails, and draws each of the current cells once as points, then
    -- the line of each measurement, then the text of each, then the cloud of the selection, each kind
    -- with its own program and each from its object's buffer, if the cells and measurements that have
    -- a buffer have one that holds their data, uploaded once, no number of a later buffer was uploaded
    -- to, and the cloud of the selection counts its points and has buffers that hold its points and
    -- colours, each uploaded once; after the frame that is so again, the cells and measurements that
    -- were drawn have buffers, and none has lost the one it had.
    pub frame-shows :
        (s : Screen rot mat) (cam : OrbitCam) (now : Number) (u : Usage)
        → s.cam ≡ some cam
        → IsReady s
        → (s' : Screen rot mat) × (render_loop v3 tr w str now u s ≡ returns s') × IsShown s s'
    frame-shows s cam now u here ready =
        let g1 = call get_error s.gl in
        let s1 = record s { gl = g1 } in
        let a1 = Adds-plain s.gl g1 refl (λ b. refl) (λ b. refl) refl in
        let (s', runs, shown) = with-shows s1 cam now u (Later-IsReady s g1 a1.later ready) in
        (
          s',
          loop-with s cam now u here ∙ runs,
          record {
            ready = shown.ready;
            cells = shown.cells;
            loaded = shown.loaded;
            measurements = shown.measurements;
            marked = shown.marked;
            cloud = shown.cloud;
            drawings = shown.drawings;
          },
        )
