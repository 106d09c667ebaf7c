-- ===== src/Draw/Session/Loads.antt =====
-- What setupGL of megatree_web/js/point_cloud.js uploads.
use megatree.Base.{suc, ◌≡◌, refl, List, [], ◌∷◌, ◌++◌, All, arith}
use megatree.Numbers.{Num}
use megatree.Selection.{Rotations}
use megatree.Controls.{Matrices}
use megatree.Draw.{Gl}
use megatree.Draw.Marks.{Mark}
use megatree.Draw.Clouds.{PointCloud, setup_gl}
use megatree.Draw.Frame.Calls.{uploads, AreFresh, Later}
use megatree.Draw.Frame.Shows.{IsKept}
use megatree.Draw.Frame.Adds.{IsFilled}

module _ ⦃num : Num⦄ {rot : Rotations} {mat : Matrices rot} where
  pub setup_gl-Later : (cloud : PointCloud) (g : Gl rot mat) → Later g (setup_gl cloud g).1
  unfolding setup_gl
  setup_gl-Later cloud g = record {
    up = omega arith;
    same = λ b made. (ground arith, ground arith);
    fresh = λ free b above. (let h : uploads b g.calls ≡ 0 = free b (omega arith) in ground arith);
  }

  pub setup_gl-IsFilled :
      (cloud : PointCloud) (g : Gl rot mat)
      → AreFresh g
      → IsFilled (setup_gl cloud g).1 (setup_gl cloud g).0
  unfolding setup_gl
  setup_gl-IsFilled cloud g free = record {
    buffers = _;
    has = refl;
    vertices = record {
      made = omega arith;
      holds = ground arith;
      once =
          (let h : uploads g.next_buffer g.calls ≡ 0 = free g.next_buffer (omega arith) in
            ground arith);
    };
    colors = record {
      made = omega arith;
      holds = ground arith;
      once =
          (let h : uploads (suc g.next_buffer) g.calls ≡ 0 =
              free (suc g.next_buffer) (omega arith) in
            ground arith);
    };
    count = refl;
  }

  pub All-snoc :
      (g : Gl rot mat) (ms : List Mark) (m : Mark)
      → All (IsKept g) ms
      → IsKept g m
      → All (IsKept g) (ms ++ m ∷ [])
  All-snoc g [] m hs h = (h, tt)
  All-snoc g (n ∷ ms) m (k, hs) h = (k, All-snoc g ms m hs h)
