-- ===== src/Page/Requests.antt =====
-- `getMany` of megatree_web/js/index.js: several files at once. The answers come in any order, one for
-- each file; `none` is a failure.
use megatree.Base.{
  ℕ, suc, ◌-◌, ◌≤◌, ◌<◌, ◌≡◌, refl, Bool, true, false, ◌&&◌, Option, none, some, List, [], ◌∷◌,
  ◌==◌, arith, if◌then◌else◌, length, set, replicate,
}

-- The call of one of the two callbacks.
pub data Report (D : Type 0) : Type 0 where
  succeeded failed : List (Option D) → Report D

pub record GetMany (D : Type 0) : Type 0 where
  pub num_pending : ℕ
  pub num_failed : ℕ
  pub results : List (Option D)
  pub reports : List (Report D)

module _ {D : Type 0} where
  unfoldable pub get_many : ℕ → GetMany D
  get_many n = record { num_pending = n; num_failed = 0; results = replicate n none; reports = [] }

  unfoldable pub receive : ℕ × Option D → GetMany D → GetMany D
  receive (i, some file) s =
      let results = set s.results i (some file) in
      let left = s.num_pending - 1 in
      record s {
        num_pending = left;
        results = results;
        reports =
            if left == 0
            then (if s.num_failed == 0 then succeeded results else failed results) ∷ s.reports
            else s.reports;
      }
  receive (i, none) s =
      let left = s.num_pending - 1 in
      record s {
        num_pending = left;
        num_failed = suc s.num_failed;
        reports = if left == 0 then failed s.results ∷ s.reports else s.reports;
      }

  unfoldable pub receive_all : List (ℕ × Option D) → GetMany D → GetMany D
  receive_all [] s = s
  receive_all (r ∷ rs) s = receive_all rs (receive r s)

  -- The files as they were received.
  abbrev pub fill : List (ℕ × Option D) → List (Option D) → List (Option D)
  fill [] results = results
  fill ((i, none) ∷ rs) results = fill rs results
  fill ((i, some file) ∷ rs) results = fill rs (set results i (some file))

  abbrev pub all_received : List (ℕ × Option D) → Bool
  all_received [] = true
  all_received ((i, none) ∷ rs) = false
  all_received ((i, some file) ∷ rs) = all_received rs

  waits :
      (rs : List (ℕ × Option D)) (s : GetMany D)
      → length rs < s.num_pending
      → (receive_all rs s).reports ≡ s.reports
  unfolding receive_all receive
  waits [] s h = refl
  waits ((i, none) ∷ rs) s h =
      let rest = waits rs (receive (i, none) s) (omega arith) in ground arith
  waits ((i, some file) ∷ rs) s h =
      let rest = waits rs (receive (i, some file) s) (omega arith) in ground arith

  reports_once :
      (r : ℕ × Option D) (rs : List (ℕ × Option D)) (s : GetMany D)
      → s.num_pending ≡ suc (length rs)
      → (receive_all (r ∷ rs) s).reports
        ≡ (if (s.num_failed == 0) && all_received (r ∷ rs)
            then succeeded (fill (r ∷ rs) s.results)
            else failed (fill (r ∷ rs) s.results))
          ∷ s.reports
  unfolding receive_all receive
  reports_once (i, none) [] s h = ground arith
  reports_once (i, some file) [] s h = ground arith
  reports_once (i, none) (r ∷ rs) s h =
      let rest = reports_once r rs (receive (i, none) s) (omega arith) in ground arith
  reports_once (i, some file) (r ∷ rs) s h =
      let rest = reports_once r rs (receive (i, some file) s) (omega arith) in ground arith

  -- Where at least one file is asked for, getMany calls no callback before the last answer, in
  -- whatever order they come, and then calls one once, with what was received: the one for success
  -- if no answer failed.
  pub get_many-once :
      (r : ℕ × Option D) (rs early : List (ℕ × Option D))
      → length early ≤ length rs
      → ((receive_all early (get_many (suc (length rs)))).reports ≡ [])
        × ((receive_all (r ∷ rs) (get_many (suc (length rs)))).reports
            ≡ (if all_received (r ∷ rs)
                then succeeded (fill (r ∷ rs) (replicate (suc (length rs)) none))
                else failed (fill (r ∷ rs) (replicate (suc (length rs)) none)))
              ∷ [])
  unfolding get_many
  get_many-once r rs early h = (
    waits early (get_many (suc (length rs))) (omega arith),
    reports_once r rs (get_many (suc (length rs))) refl,
  )
