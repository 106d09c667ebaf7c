-- ===== src/Examples/Data.antt =====
-- Values over the integers that the examples of texts, jobs and controls share.
use megatree.Base.{ℕ, ◌-◌ as minus, ◌+◌ as sum, Option, none, some, [], ◌∷◌, true, false}
use megatree.Numbers.{Num, ◌+◌, ◌*◌, lit}
use megatree.Numbers.Integers.{ℤ, pos, negsuc, integers}
use megatree.Velocity.Trap.{Vec3}
use megatree.Velocity.Mapped.{Mjs}
use megatree.OrbitCam.{OrbitCam}
use megatree.Cell.{Text}
use megatree.Texts.{Strings}
use megatree.Frustum.Querier.{TreeInfo}
use megatree.Selection.{Rotations, Selection}

instance abbrev pub whole : Num
whole = integers

abbrev pub at : ℕ → ℕ → ℕ → Vec3
at a b c = record { x = lit a; y = lit b; z = lit c }

abbrev pub v3 : Mjs
v3 = record {
  make = λ a b c. record { x = a; y = b; z = c };
  clone = λ v. v;
  add = λ u v. record { x = u.x + v.x; y = u.y + v.y; z = u.z + v.z };
  sub = λ u v. record { x = whole.sub u.x v.x; y = whole.sub u.y v.y; z = whole.sub u.z v.z };
  scale = λ u k. record { x = u.x * k; y = u.y * k; z = u.z * k };
  dot = λ u v. u.x * v.x + u.y * v.y + u.z * v.z;
  length = λ u. u.x + u.y + u.z;
  length_squared = λ u. u.x * u.x + u.y * u.y + u.z * u.z;
}

-- Numbers of one digit, and their negations.
abbrev show_digit : Option ℤ → Text
show_digit none = b'N' ∷ []
show_digit (some (pos n)) = sum b'0' n ∷ []
show_digit (some (negsuc n)) = b'-' ∷ sum b'0' n ∷ []

abbrev parse_digit : Text → Option ℤ
parse_digit [] = none
parse_digit (d ∷ []) = some (pos (minus d b'0'))
parse_digit (s ∷ d ∷ t) = some (negsuc (minus d b'0'))

abbrev pub digits : Strings
digits = record { parse_float = parse_digit; parse_int = parse_digit; show = show_digit }

abbrev pub cam : OrbitCam
cam = record {
  origin = at 1 2 3;
  old_origin = at 1 2 3;
  distance = lit 7;
  old_distance = lit 7;
  pitch = lit 0;
  old_pitch = lit 0;
  yaw = lit 1;
  old_yaw = lit 1;
  closest_distance = lit 1;
  farthest_distance = lit 100;
  profile_executor_id = 3;
  motions = 0;
}

abbrev pub tree : Text → TreeInfo
tree name = record {
  enabled = true;
  name = name;
  override_color = false;
  color = at 0 0 0;
  root = name;
  geom = record { level = 1; lo = at 0 0 0; hi = at 8 8 8 };
}

-- Rotations that turn nothing.
abbrev pub still : Rotations
still = record { Matrix = Unit; mul3x3 = λ m v. v; transpose = λ m. m }

abbrev pub box : Selection still
box = record {
  r_selection_world = tt;
  p_world_selection = at 0 0 0;
  depth = lit 5;
  picked_point_world = at 1 1 5;
  begin_selection = at 1 1 7;
  end_selection = some (at 4 5 3);
}
