-- ===== src/OrbitCam/Goto.antt =====
-- Animated camera motion: `goto`, `executeProfile` and `executeProfileIteration` of
-- megatree_web/js/orbitcam.js. A timer that the code sets is returned with the state.
use megatree.Base.{ℕ, zero, suc, Option, none, some, ◌==◌ as same_id, if◌then◌else◌}
use megatree.Outcome.{Outcome, returns, ◌>>=◌}
use megatree.Numbers.{Num, Number, ◌+◌, ◌-◌, ◌*◌, ◌/◌, neg, ◌<◌, lit, pi, max, abs}
use megatree.Velocity.Trap.{Trap, new_trap, set_trap_duration, trap_pos}
use megatree.Velocity.Mapped.{
  Mjs, Mapped, MappedDouble, Mapped3D, new_mapped, new_mapped_double, new_mapped3d,
  set_mapped_duration, set_mapped_double_duration, set_mapped3d_duration, mapped_pos,
  mapped_double_pos, mapped3d_pos,
}
use megatree.OrbitCam.{OrbitCam, or_default, set_origin, set_distance, set_pitch, set_yaw}

-- The two classes that `distance_profile` may have.
pub data DistanceProfile ⦃num : Num⦄ : Type 0 where
  near : Mapped → DistanceProfile
  far : MappedDouble → DistanceProfile

pub record Profiles ⦃num : Num⦄ : Type 0 where
  pub pitch : Trap
  pub yaw : Trap
  pub distance : DistanceProfile
  pub origin : Mapped3D

-- The timer of the next iteration: its arguments `id` and `next_time`, and those that stay.
pub record Timer ⦃num : Num⦄ : Type 0 where
  pub id : ℕ
  pub time : Number
  pub duration : Number
  pub profiles : Profiles

module _ ⦃num : Num⦄ where
  unfoldable pub mapping1 : (map1 map2 value power : Number) → Number
  mapping1 map1 map2 value power =
      if map1 < map2
      then num.pow value power
        * map2
        / ((map2 - map1) * value + map1 * num.pow value (power - lit 1) + lit 1 - value)
      else let v = neg value + lit 1 in
        lit 1
        - num.pow v power
          * map1
          / ((map1 - map2) * v + map2 * num.pow v (power - lit 1) + lit 1 - v)

  unfoldable pub mapping2 : Number → Number
  mapping2 value = (lit 1 - num.cos (value * pi)) / lit 2

  -- The two loops of `angle_diff`, on fuel; `none` where it runs out.
  raise_angle : ℕ → Number → Option Number
  raise_angle zero d = none
  raise_angle (suc f) d =
      let more = raise_angle f (d + pi * lit 2) in if d < neg pi then more else some d

  lower_angle : ℕ → Number → Option Number
  lower_angle zero d = none
  lower_angle (suc f) d =
      let more = lower_angle f (d - pi * lit 2) in if pi < d then more else some d

  unfoldable pub angle_diff : ℕ → Number → Number → Option Number
  unfolding raise_angle lower_angle
  angle_diff f a1 a2 = elim (raise_angle f (a1 - a2)) [ none ↦ none | some d ↦ lower_angle f d ]

  unfoldable pub profile_duration : DistanceProfile → Number
  profile_duration (near p) = p.duration
  profile_duration (far p) = p.duration

  unfoldable pub set_profile_duration : Number → DistanceProfile → Outcome DistanceProfile
  set_profile_duration d (near p) = set_mapped_duration d p >>= λ q. returns (near q)
  set_profile_duration d (far p) = set_mapped_double_duration d p >>= λ q. returns (far q)

  unfoldable pub profile_pos : DistanceProfile → Number → Outcome Number
  profile_pos (near p) time = mapped_pos p time
  profile_pos (far p) time = mapped_double_pos p time

  -- The four profiles of `goto`, before they are given a common duration. `speed_scale` is given;
  -- `pitch_diff` and `yaw_diff` are the results of `angle_diff`.
  unfoldable pub goto_profiles :
      Mjs → (cam goal : OrbitCam) (pitch_diff yaw_diff speed_scale : Number) → Profiles
  goto_profiles v3 cam goal pitch_diff yaw_diff speed_scale =
      let speed = lit 2 * speed_scale in
      let pitch = new_trap cam.pitch (cam.pitch + pitch_diff) speed speed in
      let yaw = new_trap cam.yaw (cam.yaw + yaw_diff) speed speed in
      let origin_distance = v3.length (v3.sub cam.origin goal.origin) in
      let map1 = cam.distance in
      let peak = lit 2 * origin_distance in
      let map3 = goal.distance in
      let near_distance = lit 4 * abs (map1 - map3) / (map1 + map3) in
      let near_origin = lit 4 * origin_distance / (map1 + map3) in
      let far_distance = lit 4 * (abs (map1 - peak) + abs (peak - map3)) / (map1 + peak + map3) in
      let far_origin = lit 4 * origin_distance / (map1 + peak + map3) in
      if origin_distance < map1 + map3
      then record {
        pitch = pitch;
        yaw = yaw;
        distance = near (
            new_mapped map1 map3 (λ v. mapping1 map1 map3 v (lit 3)) (speed / near_distance)
              (speed / near_distance));
        origin =
            new_mapped3d v3 cam.origin goal.origin (λ v. mapping1 map1 map3 v (lit 3))
              (speed / near_origin) (speed / near_origin);
      }
      else record {
        pitch = pitch;
        yaw = yaw;
        distance = far (
            new_mapped_double map1 peak map3 (λ v. mapping1 map1 peak v (lit 3))
              (λ v. mapping1 peak map3 v (lit 3)) (speed * lit 2 / far_distance)
              (speed * lit 2 / far_distance));
        origin =
            new_mapped3d v3 cam.origin goal.origin mapping2 (speed / far_origin)
              (speed / far_origin);
      }

  unfoldable pub common_duration : Profiles → Number
  common_duration p =
      max (max (max p.pitch.duration p.yaw.duration) (profile_duration p.distance))
        p.origin.duration

  unfoldable pub set_durations : Number → Profiles → Outcome Profiles
  set_durations duration p = do
    distance ← set_profile_duration duration p.distance
    origin ← set_mapped3d_duration duration p.origin
    returns (record {
      pitch = set_trap_duration duration p.pitch;
      yaw = set_trap_duration duration p.yaw;
      distance = distance;
      origin = origin;
    })

  -- One timer event: a timer of an earlier motion does nothing.
  unfoldable pub execute_profile_iteration :
      Mjs → Timer → OrbitCam → Outcome (OrbitCam × Option Timer)
  execute_profile_iteration v3 t cam =
      if same_id cam.profile_executor_id t.id
      then (do
        let cam = set_pitch (trap_pos t.profiles.pitch t.time) cam
        let cam = set_yaw (trap_pos t.profiles.yaw t.time) cam
        distance ← profile_pos t.profiles.distance t.time
        let cam = set_distance distance cam
        origin ← mapped3d_pos v3 t.profiles.origin t.time
        let cam = set_origin v3 origin cam
        let next_time = t.time + lit 1 / lit 30
        returns
            (cam, if next_time < t.duration then some (record t { time = next_time }) else none))
      else returns (cam, none)

  unfoldable pub execute_profile :
      Mjs → (time duration : Number) → Profiles → OrbitCam → Outcome (OrbitCam × Option Timer)
  execute_profile v3 time duration profiles cam =
      let id = suc cam.profile_executor_id in
      execute_profile_iteration v3
        (record { id = id; time = time; duration = duration; profiles = profiles })
        (record cam { profile_executor_id = id })

  unfoldable pub stop_profile : OrbitCam → OrbitCam
  stop_profile cam = record cam { profile_executor_id = suc cam.profile_executor_id }

  -- `goto` to another camera's view; `none` where `angle_diff` runs out of fuel.
  unfoldable pub goto :
      ℕ
      → Mjs
      → (goal : OrbitCam) (speed_scale : Option Number) → OrbitCam
      → Option (Outcome (OrbitCam × Option Timer))
  goto fuel v3 goal speed_scale cam = elim (angle_diff fuel goal.pitch cam.pitch) [
    | none ↦ none
    | some pitch_diff ↦ elim (angle_diff fuel goal.yaw cam.yaw) [
      | none ↦ none
      | some yaw_diff ↦ some (do
        let raw = goto_profiles v3 cam goal pitch_diff yaw_diff (or_default speed_scale (lit 1))
        let duration = common_duration raw
        profiles ← set_durations duration raw
        execute_profile v3 (lit 0) duration profiles cam)
    ]
  ]
