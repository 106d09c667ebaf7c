-- ===== src/Velocity/Cubic.antt =====
-- Cubic profiles: megatree_web/js/velocityprofile_cubic.js, velocityprofile_cubic3d.js and
-- velocityprofile_double_cubic.js.
use megatree.Base.{ℕ, zero, suc, List, [], ◌∷◌, get_or, if◌then◌else◌}
use megatree.Outcome.{Outcome, returns, throws, ◌>>=◌}
use megatree.Numbers.{Num, Number, ◌+◌, ◌-◌, ◌*◌, ◌/◌, neg, ◌<◌, ◌===◌, lit, abs}
use megatree.Velocity.Trap.{Vec3}

-- The four entries of the array `coefficients`.
pub record Coefficients ⦃num : Num⦄ : Type 0 where
  pub at0 : Number
  pub at1 : Number
  pub at2 : Number
  pub at3 : Number

pub record Cubic ⦃num : Num⦄ : Type 0 where
  pub pos1 : Number
  pub pos2 : Number
  pub vel1 : Number
  pub vel2 : Number
  pub duration : Number
  pub coefficients : Coefficients

pub record Cubic3D ⦃num : Num⦄ : Type 0 where
  pub profile0 : Cubic
  pub profile1 : Cubic
  pub profile2 : Cubic
  pub duration : Number

pub record DoubleCubic ⦃num : Num⦄ : Type 0 where
  pub d1 : Number
  pub d2 : Number
  pub profile0 : Cubic
  pub profile1 : Cubic
  pub duration : Number

module _ ⦃num : Num⦄ where
  -- The powers from `p` on, `n` of them: the loop of `generatePowers`.
  powers_from : ℕ → Number → Number → List Number
  powers_from zero x p = []
  powers_from (suc n) x p = (p * x) ∷ powers_from n x (p * x)

  unfoldable pub generate_powers : ℕ → Number → List Number
  unfolding powers_from
  generate_powers n x = lit 1 ∷ powers_from n x (lit 1)

  -- `T[n]` for `T = generatePowers(3, x)`; an entry that is not there is NaN in arithmetic.
  power : ℕ → Number → Number
  unfolding generate_powers
  power n x = get_or (generate_powers 3 x) n num.nan

  unfoldable pub spline_coefficients : (pos1 pos2 vel1 vel2 time : Number) → Coefficients
  unfolding power
  spline_coefficients pos1 pos2 vel1 vel2 time =
      if time === lit 0
      then record { at0 = pos2; at1 = vel2; at2 = lit 0; at3 = lit 0 }
      else record {
        at0 = pos1;
        at1 = vel1;
        at2 =
            (neg (lit 3) * pos1 + lit 3 * pos2 - lit 2 * vel1 * power 1 time - vel2 * power 1 time)
            / power 2 time;
        at3 =
            (lit 2 * pos1 - lit 2 * pos2 + vel1 * power 1 time + vel2 * power 1 time)
            / power 3 time;
      }

  unfoldable pub new_cubic : (pos1 pos2 duration : Number) → Cubic
  new_cubic pos1 pos2 duration = record {
    pos1 = pos1;
    pos2 = pos2;
    vel1 = lit 0;
    vel2 = lit 0;
    duration = duration;
    coefficients = spline_coefficients pos1 pos2 (lit 0) (lit 0) duration;
  }

  unfoldable pub set_cubic_duration : Number → Cubic → Cubic
  set_cubic_duration duration p = record p {
    duration = duration;
    coefficients = spline_coefficients p.pos1 p.pos2 p.vel1 p.vel2 duration;
  }

  unfoldable pub cubic_vel : Cubic → Number → Number
  unfolding power
  cubic_vel p time =
      power 0 time * p.coefficients.at1
      + lit 2 * power 1 time * p.coefficients.at2
      + lit 3 * power 2 time * p.coefficients.at3

  -- `VelocityProfileCubic` has no method `getPos`: the call throws.
  unfoldable pub cubic_pos : Cubic → Number → Outcome Number
  cubic_pos p time = throws

  unfoldable pub new_cubic3d : (pos1 pos2 : Vec3) (duration : Number) → Cubic3D
  new_cubic3d pos1 pos2 duration = record {
    profile0 = new_cubic pos1.x pos2.x duration;
    profile1 = new_cubic pos1.y pos2.y duration;
    profile2 = new_cubic pos1.z pos2.z duration;
    duration = duration;
  }

  unfoldable pub set_cubic3d_duration : Number → Cubic3D → Cubic3D
  set_cubic3d_duration newduration p = record {
    profile0 = set_cubic_duration newduration p.profile0;
    profile1 = set_cubic_duration newduration p.profile1;
    profile2 = set_cubic_duration newduration p.profile2;
    duration = newduration;
  }

  unfoldable pub cubic3d_pos : Cubic3D → Number → Outcome Vec3
  cubic3d_pos p time = do
    x ← cubic_pos p.profile0 time
    y ← cubic_pos p.profile1 time
    z ← cubic_pos p.profile2 time
    returns (record { x = num.fround x; y = num.fround y; z = num.fround z })

  unfoldable pub cubic3d_vel : Cubic3D → Number → Vec3
  cubic3d_vel p time = record {
    x = num.fround (cubic_vel p.profile0 time);
    y = num.fround (cubic_vel p.profile1 time);
    z = num.fround (cubic_vel p.profile2 time);
  }

  -- The part of a duration that goes to a stretch of length `d`.
  share : (duration d d1 d2 : Number) → Number
  share duration d d1 d2 = duration * d / (d1 + d2)

  unfoldable pub new_double_cubic : (pos1 pos2 pos3 duration : Number) → DoubleCubic
  unfolding share
  new_double_cubic pos1 pos2 pos3 duration =
      let d1 = abs (pos1 - pos2) in
      let d2 = abs (pos2 - pos3) in
      record {
        d1 = d1;
        d2 = d2;
        profile0 = new_cubic pos1 pos2 (share duration d1 d1 d2);
        profile1 = new_cubic pos2 pos3 (share duration d2 d1 d2);
        duration = duration;
      }

  unfoldable pub set_double_cubic_duration : Number → DoubleCubic → DoubleCubic
  unfolding share
  set_double_cubic_duration newduration p = record p {
    profile0 = set_cubic_duration (share newduration p.d1 p.d1 p.d2) p.profile0;
    profile1 = set_cubic_duration (share newduration p.d2 p.d1 p.d2) p.profile1;
    duration = newduration;
  }

  unfoldable pub double_cubic_pos : DoubleCubic → Number → Outcome Number
  unfolding share
  double_cubic_pos p time =
      if time < share p.duration p.d1 p.d1 p.d2
      then cubic_pos p.profile0 time
      else cubic_pos p.profile1 time

  unfoldable pub double_cubic_vel : DoubleCubic → Number → Number
  unfolding share
  double_cubic_vel p time =
      if time < share p.duration p.d1 p.d1 p.d2
      then cubic_vel p.profile0 time
      else cubic_vel p.profile1 time
