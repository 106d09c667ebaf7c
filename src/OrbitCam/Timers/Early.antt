-- ===== src/OrbitCam/Timers/Early.antt =====
-- When the timers of a motion fire (executeProfileIteration of megatree_web/js/orbitcam.js).
use megatree.Base.{
  ◌≡◌, refl, ap, subst, Bool, true, false, Option, none, some, List, [], ◌∷◌, ◌++◌, arith, inl, inr,
  Bool-cases, ◌==◌, All, if◌then◌else◌,
}
use megatree.Outcome.{returns, >>=-eq-returns, returns-injective}
use megatree.Numbers.{Num, ◌<◌}
use megatree.Velocity.Mapped.{Mjs, mapped3d_pos}
use megatree.OrbitCam.{OrbitCam}
use megatree.OrbitCam.Goto.{Timer, execute_profile, execute_profile_iteration, profile_pos}
use megatree.OrbitCam.Timers.{World, push, Step, start, stop, fire, Reach, here, next}

module _ ⦃num : Num⦄ where
  -- The timer moves the camera to a time before the end of its motion.
  abbrev pub IsEarly : Timer → Type 0
  IsEarly t = (t.time < t.duration) ≡ true

  abbrev pub AreEarly : World → Type 0
  AreEarly w = All IsEarly w.timers

  chosen-AreEarly :
      (b : Bool) (t : Timer) (after : Option Timer) (ts : List Timer)
      → (t.time < t.duration) ≡ b
      → (if b then some t else none) ≡ after
      → All IsEarly ts
      → All IsEarly (push after ts)
  chosen-AreEarly true t after ts early h all = subst (λ o. All IsEarly (push o ts)) h (early, all)
  chosen-AreEarly false t after ts early h all = subst (λ o. All IsEarly (push o ts)) h all

  iteration-AreEarly :
      (v3 : Mjs) (t : Timer) (c c' : OrbitCam) (after : Option Timer) (ts : List Timer)
      → execute_profile_iteration v3 t c ≡ returns (c', after)
      → All IsEarly ts
      → All IsEarly (push after ts)
  unfolding execute_profile_iteration
  iteration-AreEarly v3 t c c' after ts h all = elim (Bool-cases (c.profile_executor_id == t.id)) [
    | inr stale ↦ let e : none ≡ after = ground arith in subst (λ o. All IsEarly (push o ts)) e all
    | inl running ↦
        let (d, _, h1) =
          >>=-eq-returns (profile_pos t.profiles.distance t.time) _ (rw running at h) in
        let (o, _, h2) = >>=-eq-returns (mapped3d_pos v3 t.profiles.origin t.time) _ h1 in
        chosen-AreEarly _ (record t { time = _ }) after ts refl
          (ap (λ r. r.1) (returns-injective h2)) all
  ]

  All-remove :
      (xs : List Timer) (t : Timer) (ys : List Timer)
      → All IsEarly (xs ++ t ∷ ys)
      → All IsEarly (xs ++ ys)
  All-remove [] t ys h = h.1
  All-remove (x ∷ xs) t ys h = (h.0, All-remove xs t ys h.1)

  Step-AreEarly : {v3 : Mjs} {w w' : World} → Step v3 w w' → AreEarly w → AreEarly w'
  unfolding execute_profile
  Step-AreEarly {v3} (start {c} {c'} {ts} {after} time duration p runs) h =
      iteration-AreEarly v3 _ _ c' after ts runs h
  Step-AreEarly stop h = h
  Step-AreEarly {v3} (fire {c} {c'} {after} xs t ys {ts} split runs) h =
      iteration-AreEarly v3 t c c' after (xs ++ ys) runs
        (All-remove xs t ys (subst (λ zs. All IsEarly zs) split h))

  -- Motions may be started, stopped and overtaken and timers may fire in any order: from a world
  -- where each timer moves the camera to a time below the duration of its motion, only such worlds
  -- are reached, so no timer ever moves it to the position at the duration itself.
  pub Reach-AreEarly : {v3 : Mjs} {w w' : World} → AreEarly w → Reach v3 w w' → AreEarly w'
  Reach-AreEarly h here = h
  Reach-AreEarly h (next r s) = Step-AreEarly s (Reach-AreEarly h r)
