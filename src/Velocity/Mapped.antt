-- ===== src/Velocity/Mapped.antt =====
-- Profiles through a mapping of the way done: megatree_web/js/velocityprofile_mapped.js,
-- velocityprofile_mapped_double.js and velocityprofile_mapped3d.js. A property that the constructor
-- leaves undefined is `none`, and a call of a method on it throws.
use megatree.Base.{Option, none, some, if◌then◌else◌}
use megatree.Outcome.{Outcome, returns, throws, ◌>>=◌}
use megatree.Numbers.{Num, Number, ◌+◌, ◌-◌, ◌*◌, ◌/◌, ◌<◌, ◌===◌, lit, abs}
use megatree.Velocity.Trap.{Vec3, Trap, sign, new_trap, set_trap_duration, trap_pos}

-- The properties `dir` and `profile`, which a profile of length 0 lacks.
pub record Motion ⦃num : Num⦄ : Type 0 where
  pub dir : Number
  pub profile : Trap

pub record Mapped ⦃num : Num⦄ : Type 0 where
  pub mapping : Number → Number
  pub length : Number
  pub offset : Number
  pub duration : Number
  pub motion : Option Motion

pub record MappedDouble ⦃num : Num⦄ : Type 0 where
  pub profile0 : Mapped
  pub profile1 : Mapped
  pub duration : Number

pub record Mapped3D ⦃num : Num⦄ : Type 0 where
  pub length : Number
  pub dir : Vec3
  pub offset : Vec3
  pub profile : Mapped
  pub duration : Number

-- The functions of mjs.js on vectors that the viewer calls; mjs.js is a library.
pub record Mjs ⦃num : Num⦄ : Type 0 where
  pub make : Number → Number → Number → Vec3
  pub clone : Vec3 → Vec3
  pub add : Vec3 → Vec3 → Vec3
  pub sub : Vec3 → Vec3 → Vec3
  pub scale : Vec3 → Number → Vec3
  pub dot : Vec3 → Vec3 → Number
  pub length : Vec3 → Number
  pub length_squared : Vec3 → Number

module _ ⦃num : Num⦄ where
  unfoldable pub new_mapped :
      (pos1 pos2 : Number) (mapping : Number → Number) (maxvel maxacc : Number) → Mapped
  new_mapped pos1 pos2 mapping maxvel maxacc =
      let length = abs (pos2 - pos1) in
      let profile = new_trap (lit 0) (lit 1) maxvel maxacc in
      if length === lit 0
      then record {
        mapping = mapping;
        length = length;
        offset = pos1;
        duration = lit 0;
        motion = none;
      }
      else record {
        mapping = mapping;
        length = length;
        offset = pos1;
        duration = profile.duration;
        motion = some (record { dir = sign (pos2 - pos1); profile = profile });
      }

  unfoldable pub set_mapped_duration : Number → Mapped → Outcome Mapped
  set_mapped_duration newduration p =
      if p.length === lit 0 then returns (record p { duration = newduration }) else elim p.motion [
        | none ↦ throws
        | some m ↦ returns (record p {
          duration = newduration;
          motion = some (record m { profile = set_trap_duration newduration m.profile });
        })
      ]

  unfoldable pub mapped_pos : Mapped → Number → Outcome Number
  mapped_pos p time = if p.length === lit 0 then returns p.offset else elim p.motion [
    | none ↦ throws
    | some m ↦ returns (p.mapping (trap_pos m.profile time) * p.length * m.dir + p.offset)
  ]

  -- `VelocityProfileMapped` has no method `getVel`: the call throws.
  unfoldable pub mapped_vel : Mapped → Number → Outcome Number
  mapped_vel p time = throws

  unfoldable pub new_mapped_double :
      (pos1 pos2 pos3 : Number) (mapping1 mapping2 : Number → Number) (max_vel max_acc : Number)
      → MappedDouble
  new_mapped_double pos1 pos2 pos3 mapping1 mapping2 max_vel max_acc =
      let p0 = new_mapped pos1 pos2 mapping1 max_vel max_acc in
      let p1 = new_mapped pos2 pos3 mapping2 max_vel max_acc in
      record { profile0 = p0; profile1 = p1; duration = p0.duration + p1.duration }

  unfoldable pub set_mapped_double_duration : Number → MappedDouble → Outcome MappedDouble
  set_mapped_double_duration newduration p = do
    let factor = newduration / p.duration
    p0 ← set_mapped_duration (p.profile0.duration * factor) p.profile0
    p1 ← set_mapped_duration (p.profile1.duration * factor) p.profile1
    returns (record { profile0 = p0; profile1 = p1; duration = newduration })

  unfoldable pub mapped_double_pos : MappedDouble → Number → Outcome Number
  mapped_double_pos p time =
      if time < p.profile0.duration
      then mapped_pos p.profile0 time
      else mapped_pos p.profile1 (time - p.profile0.duration)

  unfoldable pub mapped_double_vel : MappedDouble → Number → Outcome Number
  mapped_double_vel p time =
      if time < p.profile0.duration
      then mapped_vel p.profile0 time
      else mapped_vel p.profile1 (time - p.profile0.duration)

  unfoldable pub new_mapped3d :
      Mjs → (pos1 pos2 : Vec3) (mapping : Number → Number) (maxvel maxacc : Number) → Mapped3D
  new_mapped3d v3 pos1 pos2 mapping maxvel maxacc =
      let length = v3.length (v3.sub pos2 pos1) in
      let profile = new_mapped (lit 0) length mapping maxvel maxacc in
      record {
        length = length;
        dir = v3.scale (v3.sub pos2 pos1) (lit 1 / length);
        offset = v3.clone pos1;
        profile = profile;
        duration = profile.duration;
      }

  unfoldable pub set_mapped3d_duration : Number → Mapped3D → Outcome Mapped3D
  set_mapped3d_duration newduration p = do
    profile ← set_mapped_duration newduration p.profile
    returns (record p { duration = newduration; profile = profile })

  unfoldable pub mapped3d_pos : Mjs → Mapped3D → Number → Outcome Vec3
  mapped3d_pos v3 p time =
      if p.length === lit 0
      then returns p.offset
      else (mapped_pos p.profile time >>= λ mapped.
          returns (v3.add (v3.scale p.dir mapped) p.offset))
