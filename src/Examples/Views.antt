-- ===== src/Examples/Views.antt =====
-- The camera, the velocity profiles and the cells at concrete inputs, over the integers.
use megatree.Base.{List, All, length, ◌+◌ as sum, Option, ℕ, ◌≡◌, refl, false, none, [], ◌∷◌, arith}
use megatree.Outcome.{throws, returns, ◌>>=◌}
use megatree.Numbers.{abs, Num, Number, ◌+◌, ◌*◌, lit, neg, max}
use megatree.Numbers.Integers.{integers, integers-IsOrdered}
use megatree.Velocity.Trap.{Vec3, Trap, new_trap, new_trap3d, set_trap3d_duration, trap_pos}
use megatree.Velocity.Mapped.{
  Mjs, mapped3d_pos, mapped_pos, new_mapped, new_mapped3d, new_mapped_double, mapped_double_pos,
}
use megatree.Velocity.Laws.{IsTogether, trap3d-IsTogether, set_all, mapped_double-returns}
use megatree.OrbitCam.{OrbitCam, set_distance, set_pitch}
use megatree.OrbitCam.Goto.{
  Timer, near, execute_profile, profile_pos, execute_profile_iteration, stop_profile,
}
use megatree.OrbitCam.Laws.{Act, act, IsBounded, set-IsBounded}
use megatree.OrbitCam.Moves.{Moves, acts, starts, Moves-IsBounded}
use megatree.OrbitCam.Timers.Stopped.{none_fired, fired, stopped-still}
use megatree.OrbitCam.Timers.Early.{AreEarly, Reach-AreEarly}
use megatree.OrbitCam.Timers.{
  world, push, start, stop, here, next, IsOrderly, Reach-IsOrderly, iteration-stale,
}

instance abbrev whole : Num
whole = integers

abbrev at : ℕ → ℕ → ℕ → Vec3
at a b c = record { x = lit a; y = lit b; z = lit c }

abbrev v3 : Mjs
v3 = record {
  make = λ a b c. record { x = a; y = b; z = c };
  clone = λ v. v;
  add = λ u v. record { x = u.x + v.x; y = u.y + v.y; z = u.z + v.z };
  sub = λ u v. record { x = whole.sub u.x v.x; y = whole.sub u.y v.y; z = whole.sub u.z v.z };
  scale = λ u k. record { x = u.x * k; y = u.y * k; z = u.z * k };
  dot = λ u v. u.x * v.x + u.y * v.y + u.z * v.z;
  length = λ u. u.x + u.y + u.z;
  length_squared = λ u. u.x * u.x + u.y * u.y + u.z * u.z;
}

abbrev cam : OrbitCam
cam = record {
  origin = at 0 0 0;
  old_origin = at 0 0 0;
  distance = lit 10;
  old_distance = lit 10;
  pitch = lit 0;
  old_pitch = lit 0;
  yaw = lit 0;
  old_yaw = lit 0;
  closest_distance = lit 1;
  farthest_distance = lit 100;
  profile_executor_id = 3;
  motions = 0;
}

cam-IsBounded : IsBounded cam
cam-IsBounded = record { order = refl; near = refl; far = refl; low = refl; high = refl }

set_example : IsBounded (set_pitch none (set_distance (lit 500) cam))
set_example = set-IsBounded integers-IsOrdered refl cam (lit 500) none refl

-- A profile from 0 to 9 that accelerates up to time 2 and slows down from time 4.
abbrev trap : Trap
trap = record {
  maxvel = lit 2;
  maxacc = lit 1;
  startpos = lit 0;
  endpos = lit 9;
  duration = lit 6;
  time1 = lit 2;
  time2 = lit 4;
  a1 = lit 0;
  a2 = lit 0;
  a3 = lit 1;
  b1 = lit 2;
  b2 = lit 2;
  b3 = lit 0;
  c1 = lit 6;
  c2 = lit 2;
  c3 = neg (lit 1);
}

moved_is_real : whole.is_nan (new_trap3d (at 0 0 0) (at 4 4 4) (lit 2) (lit 1)).duration ≡ false
unfolding new_trap3d new_trap max
moved_is_real = refl

trap3d_example :
    IsTogether (new_trap3d (at 0 0 0) (at 4 4 4) (lit 2) (lit 1))
    × IsTogether (set_trap3d_duration (lit 8) (new_trap3d (at 0 0 0) (at 4 4 4) (lit 2) (lit 1)))
trap3d_example =
    trap3d-IsTogether integers-IsOrdered (at 0 0 0) (at 4 4 4) (lit 2) (lit 1) (lit 8) refl
      moved_is_real

mapped_double_example :
    (x : Number) × ((set_all
          (lit 4 ∷ lit 6 ∷ [])
          (new_mapped_double (lit 1) (lit 1) (lit 9) (λ v. v) (λ v. v) (lit 2) (lit 1))
        >>= λ q. mapped_double_pos q (lit 3))
      ≡ returns x)
mapped_double_example =
    mapped_double-returns (lit 1) (lit 1) (lit 9) (λ v. v) (λ v. v) (lit 2) (lit 1)
      (lit 4 ∷ lit 6 ∷ []) (lit 3)

abbrev timer : Timer
timer = record {
  id = 1;
  time = lit 0;
  duration = lit 6;
  profiles = record {
    pitch = trap;
    yaw = trap;
    distance = near (new_mapped (lit 1) (lit 9) (λ v. v) (lit 2) (lit 1));
    origin = new_mapped3d v3 (at 0 0 0) (at 4 4 4) (λ v. v) (lit 2) (lit 1);
  };
}

one_timer-IsOrderly : IsOrderly (world cam (timer ∷ []))
one_timer-IsOrderly = record { started = (omega arith, tt); single = omega arith }

reach-IsOrderly_example : IsOrderly (world (stop_profile (stop_profile cam)) (timer ∷ []))
reach-IsOrderly_example =
    Reach-IsOrderly {v3 = v3} {w = world cam (timer ∷ [])} one_timer-IsOrderly
      (next (next here stop) stop)

-- A motion of six seconds whose timer is due.
abbrev moved : OrbitCam × Option Timer
unfolding execute_profile execute_profile_iteration
moved = elim (execute_profile v3 (lit 0) (lit 6) timer.profiles cam) [
  | throws ↦ (cam, none)
  | returns r ↦ r
]

moved-returns : execute_profile v3 (lit 0) (lit 6) timer.profiles cam ≡ returns moved
unfolding moved execute_profile execute_profile_iteration profile_pos mapped3d_pos mapped_pos
    trap_pos new_mapped new_mapped3d abs
moved-returns = refl

reach-AreEarly_example : AreEarly (world (stop_profile moved.0) (push moved.1 (timer ∷ [])))
reach-AreEarly_example =
    Reach-AreEarly {v3 = v3} {w = world cam (timer ∷ [])} (refl, tt)
      (next (next here (start (lit 0) (lit 6) timer.profiles moved-returns)) stop)

-- The timer of a motion fires after it was stopped.
abbrev none_left : List Timer
none_left = []

stopped-still_example :
    All (λ d. d ≡ stop_profile cam) (stop_profile cam ∷ [])
    × (stop_profile cam ≡ stop_profile cam)
    × (sum (length none_left) (length (stop_profile cam ∷ [])) ≡ length (timer ∷ []))
unfolding stop_profile
stopped-still_example =
    stopped-still {v3 = v3} {w = world cam (timer ∷ [])} {c = cam} {ts = timer ∷ []}
      one_timer-IsOrderly here
      (fired [] timer [] none_fired refl
        (iteration-stale v3 timer (stop_profile cam) (omega arith)))

-- A motion of six seconds, a setter, and the timer of the motion.
moves_example : IsBounded (act v3 (Act.distance (lit 500)) moved.0)
moves_example = Moves-IsBounded integers-IsOrdered refl v3 {w = world cam []} cam-IsBounded (
    Moves.next (Moves.next Moves.here (starts (lit 0) (lit 6) timer.profiles moved-returns))
      (acts (Act.distance (lit 500))))
