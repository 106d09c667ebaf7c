-- ===== src/Velocity/Slowdown.antt =====
-- Braking: megatree_web/js/velocityprofile_slowdown.js.
use megatree.Base.{if◌then◌else◌}
use megatree.Outcome.{Outcome, returns, throws}
use megatree.Numbers.{Num, Number, ◌+◌, ◌-◌, ◌*◌, ◌/◌, ◌<◌, ◌<=◌, lit}
use megatree.Velocity.Trap.{sign}

pub record Slowdown ⦃num : Num⦄ : Type 0 where
  pub startpos : Number
  pub startvel : Number
  pub maxacc : Number
  pub s : Number
  pub duration : Number
  pub endpos : Number

module _ ⦃num : Num⦄ where
  unfoldable pub new_slowdown : (pos1 vel1 maxacc : Number) → Slowdown
  new_slowdown pos1 vel1 maxacc =
      let s = sign vel1 in
      let duration = s * vel1 / maxacc in
      record {
        startpos = pos1;
        startvel = vel1;
        maxacc = maxacc;
        s = s;
        duration = duration;
        endpos = pos1 + vel1 * duration - s * duration * duration * maxacc / lit 2;
      }

  -- `assert(factor <= 1)` throws.
  unfoldable pub set_slowdown_duration : Number → Slowdown → Outcome Slowdown
  set_slowdown_duration newduration p =
      let factor = p.duration / newduration in
      if factor <= lit 1
      then returns (record p { maxacc = p.maxacc * factor; duration = newduration })
      else throws

  unfoldable pub slowdown_pos : Slowdown → Number → Number
  slowdown_pos p time =
      if time < lit 0
      then p.startpos
      else if time < p.duration
      then p.startpos + p.startvel * time - p.s * time * time * p.maxacc / lit 2
      else p.endpos

  unfoldable pub slowdown_vel : Slowdown → Number → Number
  slowdown_vel p time =
      if time < lit 0
      then p.startvel
      else if time < p.duration
      then p.startvel - p.s * time * p.maxacc
      else lit 0
