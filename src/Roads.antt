-- ===== src/Roads.antt =====
-- Road detection on the algorithm server: megatree_web/js/road_detection.js. The three functions call
-- each other through requests and timers, of which one at a time is pending for a detection: that is
-- the state. Writing to the console is not modelled.
pub mod Ends
use megatree.Base.{ℕ, zero, suc, Bool, true, false, not, ◌||◌, List, [], ◌∷◌, ◌++◌, if◌then◌else◌}
use megatree.Numbers.{Num, Number, ◌<◌, ◌===◌, lit, is_nan, min, max}
use megatree.Velocity.Trap.{Vec3}
use megatree.Cell.{Text}
use megatree.Texts.{Strings, codes}

-- The answer to a request: whether its status is 200, and its text.
pub record Response : Type 0 where
  pub succeeded : Bool
  pub response : Text

-- What is pending: the request of detectRoads, of pollRoadDetectionProgress or of
-- pollRoadDetectionCompletion, or the timer that sends one of the latter again.
pub data Detection : Type 0 where
  starting : Detection
  polling_progress waiting_progress : Text → Detection
  polling_completion waiting_completion : Text → Detection
  over : Detection

-- The calls of progressCallback, successCallback (with the name of the tree) and failureCallback.
pub data Call : Type 0 where
  progress_call success_call : Text → Call
  failure_call : Call

module _ ⦃num : Num⦄ (str : Strings) where
  unfoldable pub detection_url : (tree_name : Text) (corner0 corner1 : Vec3) → Text
  detection_url tree_name a b =
      codes "/algorithm/road_detection"
      ++ codes "?l_x="
      ++ str.show (min a.x b.x)
      ++ codes "&l_y="
      ++ str.show (min a.y b.y)
      ++ codes "&l_z="
      ++ str.show (min a.z b.z)
      ++ codes "&h_x="
      ++ str.show (max a.x b.x)
      ++ codes "&h_y="
      ++ str.show (max a.y b.y)
      ++ codes "&h_z="
      ++ str.show (max a.z b.z)
      ++ codes "&tree_name="
      ++ tree_name

  -- `progress < 1.0`
  unfoldable pub is_unready : Text → Bool
  is_unready response = str.parse_float response < lit 1

  -- `finished` as a test: neither 0 nor NaN.
  unfoldable pub is_finished : Text → Bool
  is_finished response = not (str.parse_int response === lit 0 || is_nan (str.parse_int response))

  -- What an answer does, or a timer, which brings no answer and reads none.
  unfoldable pub advance : Detection → Response → Detection × List Call
  advance starting r =
      if r.succeeded then (polling_progress r.response, []) else (over, failure_call ∷ [])
  advance (polling_progress tree_name) r =
      if r.succeeded
      then if is_unready r.response
        then (waiting_progress tree_name, progress_call r.response ∷ [])
        else (polling_completion tree_name, progress_call r.response ∷ [])
      else (waiting_progress tree_name, [])
  advance (waiting_progress tree_name) r = (polling_progress tree_name, [])
  advance (polling_completion tree_name) r =
      if r.succeeded
      then if is_finished r.response
        then (over, success_call tree_name ∷ [])
        else (waiting_completion tree_name, [])
      else (waiting_completion tree_name, [])
  advance (waiting_completion tree_name) r = (polling_completion tree_name, [])
  advance over r = (over, [])

  -- The detection after `n` answers and timers, and the calls so far. The answers may depend on what
  -- is asked and on when.
  unfoldable pub after : (server : Detection → ℕ → Response) → ℕ → Detection × List Call
  after server zero = (starting, [])
  after server (suc n) =
      let (d, calls) = after server n in
      let (d', more) = advance d (server d n) in (d', calls ++ more)
