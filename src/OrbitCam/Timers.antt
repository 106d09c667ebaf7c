-- ===== src/OrbitCam/Timers.antt =====
-- The timers of animated motion (executeProfile, stopProfile and executeProfileIteration of
-- megatree_web/js/orbitcam.js) as a step relation: each timer that is set may fire at any time.
pub mod Early
pub mod Stopped
use megatree.Base.{
  ℕ, suc, ◌+◌, ◌≤◌, ◌<◌, ◌≡◌, refl, sym, ap, ◌∙◌, subst, ◌⊎◌, Bool, true, false, Option, none, some,
  List, [], ◌∷◌, ◌++◌, arith, inl, inr, ◌==◌, ==_iff, Bool-cases, if◌then◌else◌,
}
use megatree.Outcome.{returns, >>=-eq-returns, returns-injective}
use megatree.Numbers.{Num, Number}
use megatree.Velocity.Trap.{Vec3, trap_pos}
use megatree.Velocity.Mapped.{Mjs, mapped3d_pos}
use megatree.OrbitCam.{OrbitCam, set_origin, set_distance, set_pitch, set_yaw}
use megatree.OrbitCam.Goto.{
  Timer, Profiles, execute_profile, execute_profile_iteration, profile_pos, stop_profile,
}

module _ ⦃num : Num⦄ where
  abbrev pub AllLe : ℕ → List Timer → Type 0
  AllLe n [] = Unit
  AllLe n (t ∷ ts) = (t.id ≤ n) × AllLe n ts

  -- How many timers are of the motion with this id.
  abbrev pub live : ℕ → List Timer → ℕ
  live n [] = 0
  live n (t ∷ ts) = (if n == t.id then 1 else 0) + live n ts

  abbrev pub push : Option Timer → List Timer → List Timer
  push none ts = ts
  push (some t) ts = t ∷ ts

  pub record World : Type 0 where
    pub cam : OrbitCam
    pub timers : List Timer

  abbrev pub world : OrbitCam → List Timer → World
  world c ts = record { cam = c; timers = ts }

  pub data Step (v3 : Mjs) : World → World → Type 0 where
    start :
        {c c' : OrbitCam} {ts : List Timer} {after : Option Timer} (time duration : Number)
        (p : Profiles)
        → execute_profile v3 time duration p c ≡ returns (c', after)
        → Step v3 (world c ts) (world c' (push after ts))
    stop : {c : OrbitCam} {ts : List Timer} → Step v3 (world c ts) (world (stop_profile c) ts)
    fire :
        {c c' : OrbitCam} {after : Option Timer} (xs : List Timer) (t : Timer) (ys : List Timer)
        {ts : List Timer}
        → ts ≡ xs ++ t ∷ ys
        → execute_profile_iteration v3 t c ≡ returns (c', after)
        → Step v3 (world c ts) (world c' (push after (xs ++ ys)))

  pub data Reach (v3 : Mjs) (w : World) : World → Type 0 where
    here : Reach v3 w w
    next : {u u' : World} → Reach v3 w u → Step v3 u u' → Reach v3 w u'

  -- No timer is of a motion to come, and at most one is of the motion that runs.
  pub record Orderly (n : ℕ) (ts : List Timer) : Type 0 where
    pub started : AllLe n ts
    pub single : live n ts ≤ 1

  abbrev pub IsOrderly : World → Type 0
  IsOrderly w = Orderly w.cam.profile_executor_id w.timers

  set_pitch-id :
      (p : Number) (c : OrbitCam) → (set_pitch p c).profile_executor_id ≡ c.profile_executor_id
  unfolding set_pitch
  set_pitch-id p c = ground arith

  set_yaw-id :
      (y : Number) (c : OrbitCam) → (set_yaw y c).profile_executor_id ≡ c.profile_executor_id
  unfolding set_yaw
  set_yaw-id y c = ground arith

  set_distance-id :
      (d : Number) (c : OrbitCam) → (set_distance d c).profile_executor_id ≡ c.profile_executor_id
  unfolding set_distance
  set_distance-id d c = ground arith

  set_origin-id :
      (v3 : Mjs) (o : Vec3) (c : OrbitCam)
      → (set_origin v3 o c).profile_executor_id ≡ c.profile_executor_id
  unfolding set_origin
  set_origin-id v3 o c = ground arith

  -- The timer that is set, if any.
  chosen :
      (b : Bool) (n : ℕ) (t : Timer) (after : Option Timer)
      → n ≡ t.id
      → (if b then some t else none) ≡ after
      → (after ≡ none) ⊎ ((u : Timer) × (after ≡ some u) × (u.id ≡ t.id) × (n ≡ t.id))
  chosen true n t after id h = inr (t, sym h, refl, id)
  chosen false n t after id h = inl (sym h)

  -- A timer that an iteration sets is of the motion that runs, as its own timer was.
  iteration-Follows :
      (v3 : Mjs) (t : Timer) (c c' : OrbitCam) (after : Option Timer)
      → execute_profile_iteration v3 t c ≡ returns (c', after)
      → (c'.profile_executor_id ≡ c.profile_executor_id)
        × ((after ≡ none)
            ⊎ ((t' : Timer) × (after ≡ some t') × (t'.id ≡ t.id) × (c.profile_executor_id ≡ t.id)))
  unfolding execute_profile_iteration
  iteration-Follows v3 t c c' after h = elim (Bool-cases (c.profile_executor_id == t.id)) [
    | inr stale ↦ ground arith
    | inl running ↦
        let c1 = set_pitch (trap_pos t.profiles.pitch t.time) c in
        let c2 = set_yaw (trap_pos t.profiles.yaw t.time) c1 in
        let (d, _, h1) =
          >>=-eq-returns (profile_pos t.profiles.distance t.time) _ (rw running at h) in
        let (o, _, h2) = >>=-eq-returns (mapped3d_pos v3 t.profiles.origin t.time) _ h1 in
        let e = returns-injective h2 in
        let same =
          (set_origin-id v3 o (set_distance d c2)
            ∙ set_distance-id d c2
            ∙ set_yaw-id (trap_pos t.profiles.yaw t.time) c1
            ∙ set_pitch-id (trap_pos t.profiles.pitch t.time) c) in
        (
          ap (λ r. r.0.profile_executor_id) (sym e) ∙ same,
          chosen _ _ (record t { time = _ }) after ((==_iff _ _).0 running) (ap (λ r. r.1) e),
        )
  ]

  live-le : (n : ℕ) (ts : List Timer) → AllLe n ts → live (suc n) ts ≡ 0
  live-le n [] h = refl
  live-le n (t ∷ ts) h = ground (arith, live-le n ts h.1)

  AllLe-suc : (n : ℕ) (ts : List Timer) → AllLe n ts → AllLe (suc n) ts
  AllLe-suc n [] h = tt
  AllLe-suc n (t ∷ ts) h = (omega arith, AllLe-suc n ts h.1)

  AllLe-remove :
      (n : ℕ) (xs : List Timer) (t : Timer) (ys : List Timer)
      → AllLe n (xs ++ t ∷ ys)
      → (t.id ≤ n) × AllLe n (xs ++ ys)
  AllLe-remove n [] t ys h = h
  AllLe-remove n (x ∷ xs) t ys h = let (le, rest) = AllLe-remove n xs t ys h.1 in (le, (h.0, rest))

  live-remove :
      (n : ℕ) (xs : List Timer) (t : Timer) (ys : List Timer)
      → live n (xs ++ t ∷ ys) ≡ (if n == t.id then 1 else 0) + live n (xs ++ ys)
  live-remove n [] t ys = refl
  live-remove n (x ∷ xs) t ys = omega (arith, live-remove n xs t ys)

  start-IsOrderly :
      (v3 : Mjs) (c c' : OrbitCam) (ts : List Timer) (after : Option Timer) (time duration : Number)
      (p : Profiles)
      → execute_profile v3 time duration p c ≡ returns (c', after)
      → IsOrderly (world c ts)
      → IsOrderly (world c' (push after ts))
  unfolding execute_profile
  start-IsOrderly v3 c c' ts after time duration p runs h =
      let (same, set) = iteration-Follows v3 _ _ c' after runs in
      let n = c.profile_executor_id in
      elim set [
        | inl no_timer ↦
            subst (λ m. Orderly m (push after ts)) (sym same)
              (rw no_timer (record {
                started = AllLe-suc n ts h.started;
                single = rw (live-le n ts h.started) (omega arith);
              }))
        | inr (t, is, id, _) ↦
            subst (λ m. Orderly m (push after ts)) (sym same)
              (rw is (record {
                started = (omega (arith, id), AllLe-suc n ts h.started);
                single = rw (live-le n ts h.started) (ground arith);
              }))
      ]

  fire-IsOrderly :
      (v3 : Mjs) (c c' : OrbitCam) (after : Option Timer) (xs : List Timer) (t : Timer)
      (ys : List Timer)
      → execute_profile_iteration v3 t c ≡ returns (c', after)
      → IsOrderly (world c (xs ++ t ∷ ys))
      → IsOrderly (world c' (push after (xs ++ ys)))
  fire-IsOrderly v3 c c' after xs t ys runs h =
      let (same, set) = iteration-Follows v3 t c c' after runs in
      let (le, rest) = AllLe-remove c.profile_executor_id xs t ys h.started in
      let count = live-remove c.profile_executor_id xs t ys in
      elim set [
        | inl no_timer ↦
            subst (λ m. Orderly m (push after (xs ++ ys))) (sym same)
              (rw no_timer (record { started = rest; single = omega (arith, count, h.single) }))
        | inr (t', is, id, running) ↦
            subst (λ m. Orderly m (push after (xs ++ ys))) (sym same)
              (rw is (record {
                started = (omega (arith, id), rest);
                single = rw id (omega (arith, count, h.single));
              }))
      ]

  Step-IsOrderly : {v3 : Mjs} {w w' : World} → Step v3 w w' → IsOrderly w → IsOrderly w'
  unfolding stop_profile
  Step-IsOrderly {v3} (start {c} {c'} {ts} {after} time duration p runs) h =
      start-IsOrderly v3 c c' ts after time duration p runs h
  Step-IsOrderly (stop {c} {ts}) h = record {
    started = AllLe-suc _ ts h.started;
    single = rw (live-le _ ts h.started) (omega arith);
  }
  Step-IsOrderly {v3} (fire {c} {c'} {after} xs t ys {ts} split runs) h =
      fire-IsOrderly v3 c c' after xs t ys runs (subst (λ zs. IsOrderly (world c zs)) split h)

  -- Motions may be started, stopped and overtaken and timers may fire in any order: from a world
  -- where at most one timer is of the motion that runs and none of a later one, only such worlds are
  -- reached.
  pub Reach-IsOrderly : {v3 : Mjs} {w w' : World} → IsOrderly w → Reach v3 w w' → IsOrderly w'
  Reach-IsOrderly h here = h
  Reach-IsOrderly h (next r s) = Step-IsOrderly s (Reach-IsOrderly h r)

  -- A timer of a motion that was stopped or overtaken leaves the camera as it is, sets no timer and
  -- throws nothing.
  pub iteration-stale :
      (v3 : Mjs) (t : Timer) (c : OrbitCam)
      → t.id < c.profile_executor_id
      → execute_profile_iteration v3 t c ≡ returns (c, none)
  unfolding execute_profile_iteration
  iteration-stale v3 t c h = ground arith
