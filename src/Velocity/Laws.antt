-- ===== src/Velocity/Laws.antt =====
-- Laws of the velocity profiles (megatree_web/js/velocityprofile_*.js).
use megatree.Base.{
  ◌≡◌, ◌≢◌, inl, inr, true, false, none, some, List, [], ◌∷◌, arith, Bool-cases, Option-cases,
}
use megatree.Outcome.{Outcome, returns, ◌>>=◌}
use megatree.Numbers.{Num, Number, ◌+◌, ◌*◌, ◌<◌, ◌===◌, is_nan, lit, IsOrdered}
use megatree.Velocity.Trap.{
  Vec3, Trap, Trap3D, new_trap3d, set_trap_duration, set_trap3d_duration, trap_pos,
}
use megatree.Velocity.Mapped.{
  Mapped, MappedDouble, new_mapped, new_mapped_double, set_mapped_duration,
  set_mapped_double_duration, mapped_pos, mapped_double_pos,
}

module _ ⦃num : Num⦄ where
  -- The three profiles have the duration of the whole.
  pub record IsTogether (p : Trap3D) : Type 0 where
    pub at0 : (p.duration === p.profile0.duration) ≡ true
    pub at1 : (p.duration === p.profile1.duration) ≡ true
    pub at2 : (p.duration === p.profile2.duration) ≡ true

  module _ (laws : IsOrdered num) where
    open laws use {lt_irrefl, lt_trans, nlt_trans, eq_refl, lt_ne}

    set_trap_duration-eq :
        (d : Number) (p : Trap) → is_nan d ≡ false → (d === (set_trap_duration d p).duration) ≡ true
    unfolding set_trap_duration
    set_trap_duration-eq d p real = elim (Bool-cases (d === p.duration)) [
      | inl same ↦ rw (same, same)
      | inr other ↦ rw other (eq_refl d real)
    ]

    -- Over numbers with the order laws of IEEE 754 the three profiles of a new 3D profile have its
    -- duration, where that is no NaN, and `setProfileDuration` to a duration that is no NaN keeps them
    -- together.
    pub trap3d-IsTogether :
        (pos1 pos2 : Vec3) (maxvel maxacc newduration : Number)
        → is_nan newduration ≡ false
        → is_nan (new_trap3d pos1 pos2 maxvel maxacc).duration ≡ false
        → IsTogether (new_trap3d pos1 pos2 maxvel maxacc)
          × IsTogether (set_trap3d_duration newduration (new_trap3d pos1 pos2 maxvel maxacc))
    unfolding new_trap3d set_trap3d_duration
    trap3d-IsTogether pos1 pos2 maxvel maxacc newduration real real' = (
      record {
        at0 = set_trap_duration-eq _ _ real';
        at1 = set_trap_duration-eq _ _ real';
        at2 = set_trap_duration-eq _ _ real';
      },
      record {
        at0 = set_trap_duration-eq newduration _ real;
        at1 = set_trap_duration-eq newduration _ real;
        at2 = set_trap_duration-eq newduration _ real;
      },
    )

  -- A profile that moves has what `getPos` and `setProfileDuration` call.
  abbrev IsWhole : Mapped → Type 0
  IsWhole p = ((p.length === lit 0) ≡ false) → p.motion ≢ none

  new_mapped-IsWhole :
      (pos1 pos2 : Number) (m : Number → Number) (v a : Number)
      → IsWhole (new_mapped pos1 pos2 m v a)
  unfolding new_mapped
  new_mapped-IsWhole pos1 pos2 m v a = ground arith

  set_mapped-IsWhole :
      (d : Number) (p : Mapped)
      → IsWhole p
      → (q : Mapped) × (set_mapped_duration d p ≡ returns q) × IsWhole q
  unfolding set_mapped_duration
  set_mapped-IsWhole d p h = elim (Bool-cases (p.length === lit 0)) [
    | inl still ↦ (record p { duration = d }, rw still, λ moves. cc)
    | inr moves ↦ elim (Option-cases p.motion) [
      | inl lost ↦ absurd (h moves lost)
      | inr (m, has) ↦ (
        record p {
          duration = d;
          motion = some (record m { profile = set_trap_duration d m.profile });
        },
        rw (moves, has),
        λ _ e. cc e,
      )
    ]
  ]

  mapped_pos-returns :
      (p : Mapped) (t : Number) → IsWhole p → (x : Number) × (mapped_pos p t ≡ returns x)
  unfolding mapped_pos
  mapped_pos-returns p t h = elim (Bool-cases (p.length === lit 0)) [
    | inl still ↦ (p.offset, rw still)
    | inr moves ↦ elim (Option-cases p.motion) [
      | inl lost ↦ absurd (h moves lost)
      | inr (m, has) ↦
          (p.mapping (trap_pos m.profile t) * p.length * m.dir + p.offset, rw (moves, has))
    ]
  ]

  -- A double profile from its constructor, given any durations one after another.
  abbrev pub set_all : List Number → MappedDouble → Outcome MappedDouble
  set_all [] p = returns p
  set_all (d ∷ ds) p = set_mapped_double_duration d p >>= set_all ds

  run_whole :
      (ds : List Number) (p : MappedDouble) (t : Number)
      → IsWhole p.profile0
      → IsWhole p.profile1
      → (x : Number) × ((set_all ds p >>= λ q. mapped_double_pos q t) ≡ returns x)
  unfolding set_mapped_double_duration mapped_double_pos
  run_whole [] p t h0 h1 = elim (Bool-cases (t < p.profile0.duration)) [
    | inl first ↦ let (x, e) = mapped_pos-returns p.profile0 t h0 in (x, rw first e)
    | inr second ↦
        let (x, e) = mapped_pos-returns p.profile1 (num.sub t p.profile0.duration) h1 in
        (x, rw second e)
  ]
  run_whole (d ∷ ds) p t h0 h1 =
      let factor = num.div d p.duration in
      let (q0, e0, w0) = set_mapped-IsWhole (num.mul p.profile0.duration factor) p.profile0 h0 in
      let (q1, e1, w1) = set_mapped-IsWhole (num.mul p.profile1.duration factor) p.profile1 h1 in
      let (x, e) = run_whole ds (record { profile0 = q0; profile1 = q1; duration = d }) t w0 w1 in
      (x, rw (e0, e1) e)

  -- A double mapped profile has a position at every time, whatever its stretches, one of no length
  -- included, and however often its duration is set: no call throws.
  pub mapped_double-returns :
      (pos1 pos2 pos3 : Number) (m1 m2 : Number → Number) (v a : Number) (ds : List Number)
      (t : Number)
      → (x : Number) × ((set_all ds (new_mapped_double pos1 pos2 pos3 m1 m2 v a) >>= λ q.
            mapped_double_pos q t)
          ≡ returns x)
  unfolding new_mapped_double
  mapped_double-returns pos1 pos2 pos3 m1 m2 v a ds t =
      run_whole ds _ t (new_mapped-IsWhole pos1 pos2 m1 v a) (new_mapped-IsWhole pos2 pos3 m2 v a)
