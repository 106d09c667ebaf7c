-- ===== src/OrbitCam/Laws.antt =====
-- Bounds of the camera's distance and pitch (megatree_web/js/orbitcam.js).
use megatree.Base.{◌≡◌, false, arith}
use megatree.Numbers.{Num, Number, ◌/◌, ◌<◌, neg, pi, lit, IsOrdered}
use megatree.Numbers.Order.{clamp_bounds}
use megatree.Velocity.Trap.{Vec3}
use megatree.Velocity.Mapped.{Mjs}
use megatree.OrbitCam.{
  OrbitCam, set_origin, set_distance, set_pitch, set_yaw, go_closer, pitch_by, yaw_by, add_origin,
  go_forward, go_left, go_up,
}
use megatree.OrbitCam.Goto.{stop_profile}

module _ ⦃num : Num⦄ where
  -- The calls that set a field of a camera, and stopProfile.
  pub data Act : Type 0 where
    origin : Vec3 → Act
    distance closer pitch turn_pitch yaw turn_yaw forward left up : Number → Act
    stop : Act

  abbrev pub act : Mjs → Act → OrbitCam → OrbitCam
  act v3 (Act.origin o) cam = set_origin v3 o cam
  act v3 (Act.distance d) cam = set_distance d cam
  act v3 (Act.closer d) cam = go_closer d cam
  act v3 (Act.pitch p) cam = set_pitch p cam
  act v3 (Act.turn_pitch p) cam = pitch_by p cam
  act v3 (Act.yaw y) cam = set_yaw y cam
  act v3 (Act.turn_yaw y) cam = yaw_by y cam
  act v3 (Act.forward s) cam = go_forward v3 s cam
  act v3 (Act.left s) cam = go_left v3 s cam
  act v3 (Act.up s) cam = go_up v3 s cam
  act v3 Act.stop cam = stop_profile cam

  -- The distance and the pitch pass none of their bounds, and those of the distance are in order.
  pub record IsBounded (cam : OrbitCam) : Type 0 where
    pub order : (cam.farthest_distance < cam.closest_distance) ≡ false
    pub near : (cam.distance < cam.closest_distance) ≡ false
    pub far : (cam.farthest_distance < cam.distance) ≡ false
    pub low : (cam.pitch < neg pi / lit 2) ≡ false
    pub high : (pi / lit 2 < cam.pitch) ≡ false

  module _ (laws : IsOrdered num) (limits : (pi / lit 2 < neg pi / lit 2) ≡ false) where
    pub set_distance-IsBounded :
        (cam : OrbitCam) (d : Number) → IsBounded cam → IsBounded (set_distance d cam)
    unfolding set_distance
    set_distance-IsBounded cam d h =
        ground (arith, clamp_bounds laws cam.closest_distance cam.farthest_distance d)

    pub set_pitch-IsBounded :
        (cam : OrbitCam) (p : Number) → IsBounded cam → IsBounded (set_pitch p cam)
    unfolding set_pitch
    set_pitch-IsBounded cam p h = ground (arith, clamp_bounds laws (neg pi / lit 2) (pi / lit 2) p)

    pub set_yaw-IsBounded :
        (cam : OrbitCam) (y : Number) → IsBounded cam → IsBounded (set_yaw y cam)
    unfolding set_yaw
    set_yaw-IsBounded cam y h = ground arith

    pub set_origin-IsBounded :
        (v3 : Mjs) (cam : OrbitCam) (o : Vec3) → IsBounded cam → IsBounded (set_origin v3 o cam)
    unfolding set_origin
    set_origin-IsBounded v3 cam o h = ground arith

    pub act-IsBounded :
        (v3 : Mjs) (a : Act) (cam : OrbitCam) → IsBounded cam → IsBounded (act v3 a cam)
    unfolding go_closer pitch_by yaw_by go_forward go_left go_up add_origin stop_profile
    act-IsBounded v3 (Act.origin o) cam h = set_origin-IsBounded v3 cam o h
    act-IsBounded v3 (Act.distance d) cam h = set_distance-IsBounded cam d h
    act-IsBounded v3 (Act.closer d) cam h = set_distance-IsBounded cam _ h
    act-IsBounded v3 (Act.pitch p) cam h = set_pitch-IsBounded cam p h
    act-IsBounded v3 (Act.turn_pitch p) cam h = set_pitch-IsBounded cam _ h
    act-IsBounded v3 (Act.yaw y) cam h = set_yaw-IsBounded cam y h
    act-IsBounded v3 (Act.turn_yaw y) cam h = set_yaw-IsBounded cam _ h
    act-IsBounded v3 (Act.forward s) cam h = set_origin-IsBounded v3 cam _ h
    act-IsBounded v3 (Act.left s) cam h = set_origin-IsBounded v3 cam _ h
    act-IsBounded v3 (Act.up s) cam h = set_origin-IsBounded v3 cam _ h
    act-IsBounded v3 Act.stop cam h = record {
      order = h.order;
      near = h.near;
      far = h.far;
      low = h.low;
      high = h.high;
    }

    -- Over numbers with the order laws of IEEE 754 in which pi/2 is not below -pi/2, after
    -- `setDistance` and `setPitch` of any values the distance and the pitch pass none of their bounds,
    -- whatever they were before, where the bounds of the distance are in order.
    pub set-IsBounded :
        (cam : OrbitCam) (d p : Number)
        → (cam.farthest_distance < cam.closest_distance) ≡ false
        → IsBounded (set_pitch p (set_distance d cam))
    unfolding set_distance set_pitch
    set-IsBounded cam d p order = ground (
      arith,
      clamp_bounds laws cam.closest_distance cam.farthest_distance d,
      clamp_bounds laws (neg pi / lit 2) (pi / lit 2) p,
    )
