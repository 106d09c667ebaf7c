-- ===== src/Controls/Tape.antt =====
-- Measurements of points two by two, and the state that the points leave.
use megatree.Base.{ℕ, suc, ◌+◌, ◌≡◌, refl, Option, none, some, List, [], ◌∷◌, ◌++◌, arith, length}
use mathlib.Core.List.{append_assoc, append-nil}
use megatree.Numbers.{Num}
use megatree.Velocity.Trap.{Vec3}
use megatree.Velocity.Mapped.{Mjs}
use megatree.Texts.{Strings}
use megatree.Controls.{DistanceMeasurement, new_distance_measurement}

-- The points two by two, and the last one if it is left over.
abbrev pub pairs {ℓ} : {A : Type ℓ} → List A → List (A × A) × Option A
pairs [] = ([], none)
pairs (p ∷ []) = ([], some p)
pairs (p ∷ q ∷ ps) = let (two, left) = pairs ps in ((p, q) ∷ two, left)

module _ ⦃num : Num⦄ (v3 : Mjs) (str : Strings) where
  -- The measurements of pairs of points, numbered from `n` on.
  abbrev pub numbered : ℕ → List (Vec3 × Vec3) → List DistanceMeasurement
  numbered n [] = []
  numbered n ((p, q) ∷ two) = new_distance_measurement v3 str p q n ∷ numbered (suc n) two

  -- The start of a measurement, the measurements and the next number.
  abbrev pub Tape : Type 0
  Tape = Option Vec3 × List DistanceMeasurement × ℕ

  abbrev pub next_tape : Vec3 → Tape → Tape
  next_tape p (none, l, n) = (some p, l, n)
  next_tape p (some s, l, n) = (none, l ++ new_distance_measurement v3 str s p n ∷ [], suc n)

  abbrev pub tape_after : List Vec3 → Tape → Tape
  tape_after [] t = t
  tape_after (p ∷ ps) t = tape_after ps (next_tape p t)

  pub tape_after-append :
      (ps qs : List Vec3) (t : Tape) → tape_after (ps ++ qs) t ≡ tape_after qs (tape_after ps t)
  tape_after-append [] qs t = refl
  tape_after-append (p ∷ ps) qs t = tape_after-append ps qs (next_tape p t)

  pub tape_after-pairs :
      (ps : List Vec3) (l : List DistanceMeasurement) (n : ℕ)
      → tape_after ps (none, l, n)
        ≡ ((pairs ps).1, l ++ numbered n (pairs ps).0, n + length (pairs ps).0)
  tape_after-pairs [] l n =
      let whole = append-nil l in let same : n + 0 ≡ n = omega arith in rw (whole, same)
  tape_after-pairs (p ∷ []) l n =
      let whole = append-nil l in let same : n + 0 ≡ n = omega arith in rw (whole, same)
  tape_after-pairs (p ∷ q ∷ ps) l n =
      let m = new_distance_measurement v3 str p q n in
      let rest = tape_after-pairs ps (l ++ m ∷ []) (suc n) in
      let moved = append_assoc l (m ∷ []) (numbered (suc n) (pairs ps).0) in
      let count : suc n + length (pairs ps).0 ≡ n + suc (length (pairs ps).0) = omega arith in
      rw (rest, moved, count)
