-- ===== src/Velocity/Trap.antt =====
-- Trapezoidal profiles: megatree_web/js/velocityprofile_trap.js and velocityprofile_trap3d.js.
use megatree.Base.{if◌then◌else◌}
use megatree.Numbers.{Num, Number, ◌+◌, ◌-◌, ◌*◌, ◌/◌, neg, ◌<◌, ◌<=◌, ◌===◌, lit, max}

-- A vector of three numbers, read by its indices 0, 1 and 2.
pub record Vec3 ⦃num : Num⦄ : Type 0 where
  pub x : Number
  pub y : Number
  pub z : Number

pub record Trap ⦃num : Num⦄ : Type 0 where
  pub maxvel : Number
  pub maxacc : Number
  pub startpos : Number
  pub endpos : Number
  pub duration : Number
  pub time1 : Number
  pub time2 : Number
  pub a1 : Number
  pub a2 : Number
  pub a3 : Number
  pub b1 : Number
  pub b2 : Number
  pub b3 : Number
  pub c1 : Number
  pub c2 : Number
  pub c3 : Number

pub record Trap3D ⦃num : Num⦄ : Type 0 where
  pub profile0 : Trap
  pub profile1 : Trap
  pub profile2 : Trap
  pub duration : Number

module _ ⦃num : Num⦄ where
  unfoldable pub sign : Number → Number
  sign v = if v < lit 0 then neg (lit 1) else lit 1

  -- `time1`, `time2` and `duration` where the velocity saturates, and where it does not.
  pub trap_times : (pos1 pos2 maxvel maxacc : Number) → Number × Number × Number
  unfolding sign
  trap_times pos1 pos2 maxvel maxacc =
      let time1 = maxvel / maxacc in
      let s = sign (pos2 - pos1) in
      let deltax1 = s * maxacc * time1 * time1 / lit 2 in
      let delta_t = (pos2 - pos1 - lit 2 * deltax1) / (s * maxvel) in
      let duration = lit 2 * time1 + delta_t in
      let short = num.sqrt ((pos2 - pos1) / s / maxacc) in
      if lit 0 < delta_t then (time1, duration - time1, duration) else (short, short, short * lit 2)

  unfoldable pub new_trap : (pos1 pos2 maxvel maxacc : Number) → Trap
  unfolding trap_times
  new_trap pos1 pos2 maxvel maxacc =
      let s = sign (pos2 - pos1) in
      let (time1, time2, duration) = trap_times pos1 pos2 maxvel maxacc in
      let a3 = s * maxacc / lit 2 in
      let a2 = lit 0 in
      let a1 = pos1 in
      let b3 = lit 0 in
      let b2 = a2 + lit 2 * a3 * time1 - lit 2 * b3 * time1 in
      let b1 = a1 + time1 * (a2 + a3 * time1) - time1 * (b2 + time1 * b3) in
      let c3 = neg s * maxacc / lit 2 in
      let c2 = b2 + lit 2 * b3 * time2 - lit 2 * c3 * time2 in
      let c1 = b1 + time2 * (b2 + b3 * time2) - time2 * (c2 + time2 * c3) in
      record {
        maxvel = maxvel;
        maxacc = maxacc;
        startpos = pos1;
        endpos = pos2;
        duration = duration;
        time1 = time1;
        time2 = time2;
        a1 = a1;
        a2 = a2;
        a3 = a3;
        b1 = b1;
        b2 = b2;
        b3 = b3;
        c1 = c1;
        c2 = c2;
        c3 = c3;
      }

  unfoldable pub set_trap_duration : Number → Trap → Trap
  set_trap_duration newduration p =
      if newduration === p.duration
      then p
      else let factor = p.duration / newduration in
        record p {
          a2 = p.a2 * factor;
          a3 = p.a3 * (factor * factor);
          b2 = p.b2 * factor;
          b3 = p.b3 * (factor * factor);
          c2 = p.c2 * factor;
          c3 = p.c3 * (factor * factor);
          duration = newduration;
          time1 = p.time1 / factor;
          time2 = p.time2 / factor;
        }

  unfoldable pub trap_pos : Trap → Number → Number
  trap_pos p time =
      if time < lit 0
      then p.startpos
      else if time < p.time1
      then p.a1 + time * (p.a2 + p.a3 * time)
      else if time < p.time2
      then p.b1 + time * (p.b2 + p.b3 * time)
      else if time <= p.duration
      then p.c1 + time * (p.c2 + p.c3 * time)
      else p.endpos

  unfoldable pub trap_vel : Trap → Number → Number
  trap_vel p time =
      if time < lit 0
      then lit 0
      else if time < p.time1
      then p.a2 + lit 2 * p.a3 * time
      else if time < p.time2
      then p.b2 + lit 2 * p.b3 * time
      else if time <= p.duration
      then p.c2 + lit 2 * p.c3 * time
      else lit 0

  unfoldable pub set_trap3d_duration : Number → Trap3D → Trap3D
  set_trap3d_duration newduration p = record {
    profile0 = set_trap_duration newduration p.profile0;
    profile1 = set_trap_duration newduration p.profile1;
    profile2 = set_trap_duration newduration p.profile2;
    duration = newduration;
  }

  unfoldable pub new_trap3d : (pos1 pos2 : Vec3) (maxvel maxacc : Number) → Trap3D
  new_trap3d pos1 pos2 maxvel maxacc =
      let p0 = new_trap pos1.x pos2.x maxvel maxacc in
      let p1 = new_trap pos1.y pos2.y maxvel maxacc in
      let p2 = new_trap pos1.z pos2.z maxvel maxacc in
      let duration = max (max p0.duration p1.duration) p2.duration in
      record {
        profile0 = set_trap_duration duration p0;
        profile1 = set_trap_duration duration p1;
        profile2 = set_trap_duration duration p2;
        duration = duration;
      }

  -- `V3.$(0, 0, 0)` is a Float32Array: each value is rounded as it is written.
  unfoldable pub trap3d_pos : Trap3D → Number → Vec3
  trap3d_pos p time = record {
    x = num.fround (trap_pos p.profile0 time);
    y = num.fround (trap_pos p.profile1 time);
    z = num.fround (trap_pos p.profile2 time);
  }

  unfoldable pub trap3d_vel : Trap3D → Number → Vec3
  trap3d_vel p time = record {
    x = num.fround (trap_vel p.profile0 time);
    y = num.fround (trap_vel p.profile1 time);
    z = num.fround (trap_vel p.profile2 time);
  }
