-- ===== src/Lib.antt =====
-- The browser client of megatree: a viewer of point clouds that loads the cells of an octree from a
-- server as the camera needs them. The modules model the JavaScript of megatree_web/js.
--
-- - LinkedList and LruCache: megatree_web/js/lru_cache.js. `List` is a heap of nodes with the
--   addresses of the ends; `LRUCache` holds such a list and a function from ids to addresses. One
--   function per method: push_front, push_back, pop_front, pop_back, remove, move_to_front and
--   clear; put, get, clear_cache (clear) and enforce_overflow (_enforceOverflow). The loop of
--   enforce_overflow has fuel size + 1: each round takes one entry away. LinkedList/Runs and
--   LruCache/Runs have programs of such calls and the plain lists they are compared with.
-- - Frustum: megatree_web/js/frustum_querier.js with getCell and TreeInfo of
--   megatree_web/js/megatree.js. Frustum/Planes has the planes and the tests against them,
--   Frustum/Querier the state and the requests, Frustum/Process the queue (processCell is
--   process_cell, and so on), Frustum/Trigger the start of a query and the answers, Frustum/Cache
--   the LRU cache as the cell cache. Requests that are pending and timers that are set are lists,
--   and any of them may come next. processQueue may call itself through a success callback, and
--   recurs on fuel; `none` is a run that needs more. The settings of the page that the querier
--   reads are fields of its state, which a step may change.
-- - Cell: megatree_web/js/cell.js and megatree_web/js/geometry.js.
-- - OrbitCam: megatree_web/js/orbitcam.js; OrbitCam/Goto has the animated motion (goto,
--   executeProfile, executeProfileIteration, stopProfile), OrbitCam/Timers its timers,
--   OrbitCam/Moves these and the setters as steps. The loops of angle_diff run on fuel, `none`
--   where it is too small.
-- - Velocity: the profiles of megatree_web/js/velocityprofile_*.js.
-- - Texts: lists of character codes, `split` of JavaScript, and parseFloat, parseInt and the text
--   of a number as a parameter.
-- - Metadata: megatree_web/js/metadata.js and getRootGeom of megatree_web/js/megatree.js.
-- - Roads: megatree_web/js/road_detection.js. The three functions call each other through requests
--   and timers; what is pending is the state, and `advance` what an answer or a timer does.
-- - Selection: megatree_web/js/selection.js.
-- - Utm: megatree_web/js/utm.js, of which onMouseDown shows a picked point on a map.
-- - Controls: the mouse, the wheel and the keys of megatree_web/js/index.js, with
--   megatree_web/js/measure.js. Controls/Mouse has onMouseDown, onMouseUp and onMouseMove,
--   Controls/Keys mouseScroll and the keys i, o, p and Esc. A handler that throws keeps what it has
--   done so far.
-- - Page: the rest of megatree_web/js/index.js that is modelled. Page/Requests has getMany,
--   Page/Connection ServerConnectionChecker, Page/Picking intersectCell, intersectPoint and
--   pickPointFromCells, Page/Jobs JobInfo of megatree_web/js/megatree.js, Page/Query
--   getVariableFromQuery, getViewpointFromQuery and the link of the key l, Page/Trees addTree,
--   initCam and toggleTreeMode, Page/Start the trees and the camera of start, Page/Views addView,
--   the click on "Add view" and the buttons of a view, Page/RoadJobs the jobs that detect roads,
--   from the click on "Start job" through detectRoads, serveNewTree and getMetaData to addTree, and
--   Page/Triggers the timer of triggerFrustumUpdate and the sliders.
-- - Draw: a frame of renderLoop of megatree_web/js/index.js, with loadGL and render of
--   megatree_web/js/cell.js, megatree_web/js/measure.js and megatree_web/js/point_cloud.js. WebGL
--   is the browser's; its calls are a list, the last one first, and a buffer is the number of its
--   createBuffer. Whether it reports an error is a parameter that may depend on the calls.
--   Draw/Session has what changes the screen between frames: cells from the querier, measurements,
--   selected points. Draw/Frame/Calls reads from such a list what is bound, what was uploaded and
--   what was drawn.
--
-- The querier asks the cell cache, an interface that the LRU cache fills, for cells and queues
-- them; cells make their children's geometry; the camera moves along velocity profiles. A selection
-- starts a measurement or a job; a job's answers end in a new tree; a link carries trees and camera
-- to another page.
--
-- Base and Outcome have what the modules share: tests, lists over the native numbers, results that
-- may be missing and code that may throw. Numbers has JavaScript's numbers as a parameter, since
-- IEEE doubles are not at hand: operations without laws, and `IsOrdered`, facts about `<`, `==` and
-- NaN that IEEE 754 documents, as a hypothesis where a theorem needs them. Numbers/Integers gives
-- the integers with a NaN as an instance. Examples applies the theorems at concrete inputs.
--
-- Counts and addresses are natural numbers. `inFlight` goes down only after it went up, so it is
-- one too. Masks of bits are bytes.
--
-- What the browser makes of an address that it opens is a parameter of Page/Start/Links.
-- M4x4.inverse throws on a singular matrix; as a parameter it is total, as for the matrices of a
-- camera and of a perspective, to which it is applied.
--
-- Not modelled: what WebGL does with the calls, and the DOM; MatrixStack and renderAxis of
-- megatree_web/js/index.js, the intersection of Point of megatree_web/js/point_cloud.js, the walk
-- of megatree_web/js/old_stuff.js for tests, third-party code (jQuery, mjs.js, whose functions on
-- vectors and matrices are parameters) and the C++ packages of the server.
pub mod Base
pub mod Cell
pub mod Controls
pub mod Draw
pub mod Examples
pub mod Frustum
pub mod LinkedList
pub mod LruCache
pub mod Metadata
pub mod Numbers
pub mod OrbitCam
pub mod Outcome
pub mod Page
pub mod Roads
pub mod Selection
pub mod Texts
pub mod Utm
pub mod Velocity
