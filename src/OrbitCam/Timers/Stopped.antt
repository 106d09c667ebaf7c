-- ===== src/OrbitCam/Timers/Stopped.antt =====
-- What stopProfile stops (megatree_web/js/orbitcam.js).
use megatree.Base.{
  ℕ, suc, ◌<◌, ◌≡◌, refl, sym, ap, ◌∙◌, subst, ◌+◌, length, All, Option, List, [], ◌∷◌, ◌++◌, arith,
}
use megatree.Outcome.{returns, returns-injective}
use megatree.Numbers.{Num}
use megatree.Velocity.Mapped.{Mjs}
use megatree.OrbitCam.{OrbitCam}
use megatree.OrbitCam.Goto.{Timer, execute_profile_iteration, stop_profile}
use megatree.OrbitCam.Timers.{
  World, world, push, AllLe, IsOrderly, Reach, Reach-IsOrderly, iteration-stale,
}

module _ ⦃num : Num⦄ where
  -- Timers fire, in any order, and nothing else happens. The list has the cameras on the way, the last first.
  pub data Fires (v3 : Mjs) (w : World) : List OrbitCam → World → Type 0 where
    none_fired : Fires v3 w [] w
    fired :
        {cams : List OrbitCam} {c c' : OrbitCam} {ts : List Timer} {after : Option Timer}
        (xs : List Timer) (t : Timer) (ys : List Timer)
        → Fires v3 w cams (world c ts)
        → ts ≡ xs ++ t ∷ ys
        → execute_profile_iteration v3 t c ≡ returns (c', after)
        → Fires v3 w (c' ∷ cams) (world c' (push after (xs ++ ys)))

  -- All timers are of motions before this one.
  abbrev AllLt : ℕ → List Timer → Type 0
  AllLt n ts = All (λ t. t.id < n) ts

  AllLe-AllLt : (n : ℕ) (ts : List Timer) → AllLe n ts → AllLt (suc n) ts
  AllLe-AllLt n [] h = tt
  AllLe-AllLt n (t ∷ ts) (le, h) = (omega (arith, le), AllLe-AllLt n ts h)

  AllLt-remove :
      (n : ℕ) (xs : List Timer) (t : Timer) (ys : List Timer)
      → AllLt n (xs ++ t ∷ ys)
      → (t.id < n) × AllLt n (xs ++ ys)
  AllLt-remove n [] t ys h = h
  AllLt-remove n (x ∷ xs) t ys (k, h) = let (lt, rest) = AllLt-remove n xs t ys h in (lt, (k, rest))

  length-remove :
      (xs : List Timer) (t : Timer) (ys : List Timer)
      → length (xs ++ t ∷ ys) ≡ suc (length (xs ++ ys))
  length-remove [] t ys = refl
  length-remove (x ∷ xs) t ys = ap suc (length-remove xs t ys)

  -- The camera is this one and was so all the way, and for each timer that fired there is one less.
  record IsStill (c : OrbitCam) (count : ℕ) (cams : List OrbitCam) (w : World) : Type 0 where
    here : w.cam ≡ c
    way : All (λ d. d ≡ c) cams
    stale : AllLt c.profile_executor_id w.timers
    fewer : length w.timers + length cams ≡ count

  Fires-IsStill :
      {v3 : Mjs} {c : OrbitCam} {ts : List Timer} {cams : List OrbitCam} {w : World}
      → AllLt c.profile_executor_id ts
      → Fires v3 (world c ts) cams w
      → IsStill c (length ts) cams w
  Fires-IsStill stale none_fired = record {
    here = refl;
    way = tt;
    stale = stale;
    fewer = omega arith;
  }
  Fires-IsStill {v3} {c} {ts} stale
        (fired {cams} {c = d} {c' = d'} {ts = us} {after} xs t ys before split runs) =
      let h = Fires-IsStill stale before in
      let (lt, rest) =
        AllLt-remove c.profile_executor_id xs t ys
          (subst (AllLt c.profile_executor_id) split h.stale) in
      let old : t.id < d.profile_executor_id =
        subst (λ k. t.id < k.profile_executor_id) (sym h.here) lt in
      let e = returns-injective (sym (iteration-stale v3 t d old) ∙ runs) in
      let same : d' ≡ c = sym (ap (λ r. r.0) e) ∙ h.here in
      let gone = ap (λ us. length us) split ∙ length-remove xs t ys in
      subst (λ o. IsStill c (length ts) (d' ∷ cams) (world d' (push o (xs ++ ys))))
        (ap (λ r. r.1) e)
        (record {
          here = same;
          way = (same, h.way);
          stale = rest;
          fewer = omega (arith, gone, h.fewer);
        })

  -- Motions may be started, stopped and overtaken and timers may fire in any order, from a world
  -- where at most one timer is of the motion that runs and none of a later one: if then stopProfile
  -- is called and after it only timers fire, in any order, the camera stays at each of them as
  -- stopProfile left it, and there is one timer less for each that fired.
  pub stopped-still :
      {v3 : Mjs} {w : World} {c : OrbitCam} {ts : List Timer} {cams : List OrbitCam} {u : World}
      → IsOrderly w
      → Reach v3 w (world c ts)
      → Fires v3 (world (stop_profile c) ts) cams u
      → All (λ d. d ≡ stop_profile c) cams
        × (u.cam ≡ stop_profile c)
        × (length u.timers + length cams ≡ length ts)
  unfolding stop_profile
  stopped-still {c = c} {ts = ts} orderly reach fires =
      let h =
        Fires-IsStill (AllLe-AllLt c.profile_executor_id ts (Reach-IsOrderly orderly reach).started)
          fires in
      (h.way, h.here, h.fewer)
