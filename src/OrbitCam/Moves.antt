-- ===== src/OrbitCam/Moves.antt =====
-- Everything that moves a camera, in any order: its setters, goto, executeProfile, stopProfile and the
-- timers of animated motion (megatree_web/js/orbitcam.js).
use megatree.Base.{
  ℕ, ◌≡◌, ap, subst, false, Option, none, some, List, ◌∷◌, ◌++◌, arith, inl, inr, Bool-cases, ◌==◌,
  Option-cases,
}
use megatree.Outcome.{Outcome, returns, throws, >>=-eq-returns, returns-injective}
use megatree.Numbers.{Num, Number, ◌/◌, ◌<◌, neg, pi, lit, IsOrdered}
use megatree.Velocity.Trap.{trap_pos}
use megatree.Velocity.Mapped.{Mjs, mapped3d_pos}
use megatree.OrbitCam.{OrbitCam, or_default, set_distance, set_pitch, set_yaw}
use megatree.OrbitCam.Goto.{
  Timer, Profiles, angle_diff, common_duration, execute_profile, execute_profile_iteration, goto,
  goto_profiles, profile_pos, set_durations,
}
use megatree.OrbitCam.Laws.{
  Act, act, IsBounded, act-IsBounded, set_distance-IsBounded, set_origin-IsBounded,
  set_pitch-IsBounded, set_yaw-IsBounded,
}
use megatree.OrbitCam.Timers.{World, world, push}

module _ ⦃num : Num⦄ where
  -- A step: a call of a setter or of stopProfile, a motion that is started by goto or by executeProfile, or a
  -- timer that fires, each of which ends and throws nothing.
  pub data Move (v3 : Mjs) : World → World → Type 0 where
    acts : {c : OrbitCam} {ts : List Timer} (a : Act) → Move v3 (world c ts) (world (act v3 a c) ts)
    goes :
        {c c' : OrbitCam} {ts : List Timer} {after : Option Timer} (fuel : ℕ) (goal : OrbitCam)
        (speed_scale : Option Number)
        → goto fuel v3 goal speed_scale c ≡ some (returns (c', after))
        → Move v3 (world c ts) (world c' (push after ts))
    starts :
        {c c' : OrbitCam} {ts : List Timer} {after : Option Timer} (time duration : Number)
        (p : Profiles)
        → execute_profile v3 time duration p c ≡ returns (c', after)
        → Move v3 (world c ts) (world c' (push after ts))
    fires :
        {c c' : OrbitCam} {after : Option Timer} (xs : List Timer) (t : Timer) (ys : List Timer)
        {ts : List Timer}
        → ts ≡ xs ++ t ∷ ys
        → execute_profile_iteration v3 t c ≡ returns (c', after)
        → Move v3 (world c ts) (world c' (push after (xs ++ ys)))

  pub data Moves (v3 : Mjs) (w : World) : World → Type 0 where
    here : Moves v3 w w
    next : {u u' : World} → Moves v3 w u → Move v3 u u' → Moves v3 w u'

  opened : {A : Type 0} → Option (Outcome A) → Outcome A
  opened none = throws
  opened (some o) = o

  -- What goto does that returns is a motion from time 0.
  goto-executes :
      (v3 : Mjs) (fuel : ℕ) (goal c : OrbitCam) (speed_scale : Option Number)
      (r : OrbitCam × Option Timer)
      → goto fuel v3 goal speed_scale c ≡ some (returns r)
      → (duration : Number) × (p : Profiles) × (execute_profile v3 (lit 0) duration p c ≡ returns r)
  unfolding goto opened
  goto-executes v3 fuel goal c speed_scale r runs =
      elim (Option-cases (angle_diff fuel goal.pitch c.pitch)) [
        | inl e ↦ absurd (cc (rw (e, goto) at runs))
        | inr (pitch_diff, e) ↦ elim (Option-cases (angle_diff fuel goal.yaw c.yaw)) [
          | inl f ↦ absurd (cc (rw (e, f, goto) at runs))
          | inr (yaw_diff, f) ↦
              let raw =
                goto_profiles v3 c goal pitch_diff yaw_diff (or_default speed_scale (lit 1)) in
              let duration = common_duration raw in
              let (p, _, executes) =
                >>=-eq-returns (set_durations duration raw) _
                  (ap opened (rw (e, f, goto) at runs)) in
              (duration, p, executes)
        ]
      ]

module _ ⦃num : Num⦄ (laws : IsOrdered num) (limits : (pi / lit 2 < neg pi / lit 2) ≡ false)
    (v3 : Mjs) where
  iteration-IsBounded :
      (t : Timer) (c c' : OrbitCam) (after : Option Timer)
      → execute_profile_iteration v3 t c ≡ returns (c', after)
      → IsBounded c
      → IsBounded c'
  unfolding execute_profile_iteration
  iteration-IsBounded t c c' after runs h = elim (Bool-cases (c.profile_executor_id == t.id)) [
    | inr stale ↦ let same : c ≡ c' = ground arith in subst IsBounded same h
    | inl running ↦
        let (d, _, h1) =
          >>=-eq-returns (profile_pos t.profiles.distance t.time) _ (rw running at runs) in
        let (o, _, h2) = >>=-eq-returns (mapped3d_pos v3 t.profiles.origin t.time) _ h1 in
        let c1 = set_pitch (trap_pos t.profiles.pitch t.time) c in
        let c2 = set_yaw (trap_pos t.profiles.yaw t.time) c1 in
        subst IsBounded (ap (λ r. r.0) (returns-injective h2)) (
          set_origin-IsBounded laws limits v3 (set_distance d c2) o (
            set_distance-IsBounded laws limits c2 d
              (set_yaw-IsBounded laws limits c1 _ (set_pitch-IsBounded laws limits c _ h))))
  ]

  execute-IsBounded :
      (time duration : Number) (p : Profiles) (c c' : OrbitCam) (after : Option Timer)
      → execute_profile v3 time duration p c ≡ returns (c', after)
      → IsBounded c
      → IsBounded c'
  unfolding execute_profile
  execute-IsBounded time duration p c c' after runs h =
      iteration-IsBounded _ _ c' after runs
        (record { order = h.order; near = h.near; far = h.far; low = h.low; high = h.high })

  Move-IsBounded : {w w' : World} → Move v3 w w' → IsBounded w.cam → IsBounded w'.cam
  Move-IsBounded (acts {c} a) h = act-IsBounded laws limits v3 a c h
  Move-IsBounded (goes {c} {c'} {ts} {after} fuel goal speed_scale runs) h =
      let (duration, p, executes) = goto-executes v3 fuel goal c speed_scale (c', after) runs in
      execute-IsBounded (lit 0) duration p c c' after executes h
  Move-IsBounded (starts {c} {c'} {ts} {after} time duration p runs) h =
      execute-IsBounded time duration p c c' after runs h
  Move-IsBounded (fires {c} {c'} {after} xs t ys split runs) h =
      iteration-IsBounded t c c' after runs h

  -- Over numbers with the order laws of IEEE 754 in which pi/2 is not below -pi/2, a camera whose
  -- distance and pitch pass none of their bounds, those of the distance being in order, stays so,
  -- whatever calls of setters, of goto, of executeProfile and of stopProfile that end and throw
  -- nothing come, with whatever values, NaN among them, and whatever timers fire without a throw, in
  -- any order.
  pub Moves-IsBounded : {w w' : World} → IsBounded w.cam → Moves v3 w w' → IsBounded w'.cam
  Moves-IsBounded h here = h
  Moves-IsBounded h (next r m) = Move-IsBounded m (Moves-IsBounded h r)
