-- ===== src/OrbitCam.antt =====
-- The orbit camera: megatree_web/js/orbitcam.js. `motions` counts the calls of `motionCallback`; the
-- functions of mjs.js are the parameter `v3`.
pub mod Goto
pub mod Laws
pub mod Moves
pub mod Timers
use megatree.Base.{ℕ, suc, ◌||◌, Bool, Option, none, some, if◌then◌else◌}
use megatree.Numbers.{
  Num, Number, ◌+◌, ◌-◌, ◌*◌, ◌/◌, neg, ◌<◌, ◌===◌, is_nan, lit, dec, pi, min, max, abs,
}
use megatree.Velocity.Trap.{Vec3}
use megatree.Velocity.Mapped.{Mjs}

-- A `config` object; a property that it lacks is `none`.
pub record Config ⦃num : Num⦄ : Type 0 where
  pub origin : Option Vec3
  pub distance : Option Number
  pub pitch : Option Number
  pub yaw : Option Number
  pub closest : Option Number
  pub farthest : Option Number

pub record OrbitCam ⦃num : Num⦄ : Type 0 where
  pub origin : Vec3
  pub old_origin : Vec3
  pub distance : Number
  pub old_distance : Number
  pub pitch : Number
  pub old_pitch : Number
  pub yaw : Number
  pub old_yaw : Number
  pub closest_distance : Number
  pub farthest_distance : Number
  pub profile_executor_id : ℕ
  pub motions : ℕ

module _ ⦃num : Num⦄ where
  -- `x || d`: 0, NaN and undefined are falsy.
  unfoldable pub or_default : Option Number → Number → Number
  or_default none d = d
  or_default (some x) d = if x === lit 0 || is_nan x then d else x

  -- A vector copied into a Float32Array.
  unfoldable pub float32 : Vec3 → Vec3
  float32 v = record { x = num.fround v.x; y = num.fround v.y; z = num.fround v.z }

  unfoldable pub new_orbit_cam : Config → OrbitCam
  new_orbit_cam config =
      let origin : Vec3 = elim config.origin [
        | none ↦ float32 (record { x = lit 0; y = lit 0; z = lit 0 })
        | some o ↦ float32 o
      ] in
      let distance = or_default config.distance (lit 10) in
      let pitch = or_default config.pitch (lit 0) in
      let yaw = or_default config.yaw (lit 0) in
      record {
        origin = origin;
        old_origin = origin;
        distance = distance;
        old_distance = distance;
        pitch = pitch;
        old_pitch = pitch;
        yaw = yaw;
        old_yaw = yaw;
        closest_distance = or_default config.closest (dec 1 1);
        farthest_distance = or_default config.farthest (lit 100);
        profile_executor_id = 0;
        motions = 0;
      }

  unfoldable pub get_config : OrbitCam → Config
  get_config cam = record {
    origin = some (float32 cam.origin);
    distance = some cam.distance;
    pitch = some cam.pitch;
    yaw = some cam.yaw;
    closest = some cam.closest_distance;
    farthest = some cam.farthest_distance;
  }

  unfoldable pub sgn : Number → Number
  sgn v = if lit 0 < v then lit 1 else neg (lit 1)

  unfoldable pub ang_dist : Number → Number → Number
  ang_dist a1 a2 =
      let res = a1 - a2 in
      let res = if pi < res then res - pi * lit 2 else res in
      if res < neg pi then res + pi * lit 2 else res

  unfoldable pub get_forward : Mjs → OrbitCam → Vec3
  get_forward v3 cam =
      v3.make (num.cos cam.yaw * num.cos cam.pitch) (num.sin cam.yaw * num.cos cam.pitch)
        (num.sin cam.pitch)

  unfoldable pub get_left : Mjs → OrbitCam → Vec3
  get_left v3 cam = v3.make (neg (num.sin cam.yaw)) (num.cos cam.yaw) (lit 0)

  unfoldable pub get_up : Mjs → OrbitCam → Vec3
  get_up v3 cam =
      v3.make (num.cos cam.yaw * num.sin (neg cam.pitch))
        (num.sin cam.yaw * num.sin (neg cam.pitch)) (num.cos cam.pitch)

  unfoldable pub get_position : Mjs → OrbitCam → Vec3
  get_position v3 cam = v3.add cam.origin (v3.scale (get_forward v3 cam) (neg cam.distance))

  unfoldable pub set_origin : Mjs → Vec3 → OrbitCam → OrbitCam
  set_origin v3 origin cam =
      let cam' = record cam { origin = origin } in
      if cam.distance * dec 5 2 < v3.length (v3.sub cam.old_origin origin)
      then record cam' { old_origin = float32 origin; motions = suc cam.motions }
      else cam'

  unfoldable pub set_distance : Number → OrbitCam → OrbitCam
  set_distance distance cam =
      let d = max cam.closest_distance (min distance cam.farthest_distance) in
      let cam' = record cam { distance = d } in
      if d * dec 5 2 < abs (cam.old_distance - d)
      then record cam' { old_distance = d; motions = suc cam.motions }
      else cam'

  -- Five degrees.
  abbrev pub angle_step : Number
  angle_step = lit 5 * pi / lit 180

  unfoldable pub set_pitch : Number → OrbitCam → OrbitCam
  set_pitch pitch cam =
      let p = max (neg pi / lit 2) (min pitch (pi / lit 2)) in
      let cam' = record cam { pitch = p } in
      if angle_step < abs (cam.old_pitch - p)
      then record cam' { old_pitch = p; motions = suc cam.motions }
      else cam'

  unfoldable pub set_yaw : Number → OrbitCam → OrbitCam
  set_yaw yaw cam =
      let cam' = record cam { yaw = yaw } in
      if angle_step < abs (cam.old_yaw - yaw)
      then record cam' { old_yaw = yaw; motions = suc cam.motions }
      else cam'

  unfoldable pub go_closer : Number → OrbitCam → OrbitCam
  go_closer step cam = set_distance (cam.distance - step) cam

  unfoldable pub pitch_by : Number → OrbitCam → OrbitCam
  pitch_by step cam = set_pitch (cam.pitch + step) cam

  unfoldable pub yaw_by : Number → OrbitCam → OrbitCam
  yaw_by step cam = set_yaw (cam.yaw + step) cam

  unfoldable pub add_origin : Mjs → Vec3 → OrbitCam → OrbitCam
  add_origin v3 step cam = set_origin v3 (v3.add cam.origin step) cam

  unfoldable pub go_forward : Mjs → Number → OrbitCam → OrbitCam
  go_forward v3 step cam = add_origin v3 (v3.scale (get_forward v3 cam) step) cam

  unfoldable pub go_left : Mjs → Number → OrbitCam → OrbitCam
  go_left v3 step cam = add_origin v3 (v3.scale (get_left v3 cam) step) cam

  unfoldable pub go_up : Mjs → Number → OrbitCam → OrbitCam
  go_up v3 step cam = add_origin v3 (v3.scale (get_up v3 cam) step) cam
