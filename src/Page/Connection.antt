-- ===== src/Page/Connection.antt =====
-- `ServerConnectionChecker` of megatree_web/js/index.js: the wait between two pings, in milliseconds. An
-- answer sets the timer anew, whatever it is.
use megatree.Base.{
  ℕ, zero, suc, ◌*◌, ◌^◌, ◌≡◌, refl, ap, ◌∙◌, Bool, true, false, List, [], ◌∷◌, ◌++◌, arith, ltb,
  if◌then◌else◌, replicate,
}
use native.Mathlib.Nat.{pow-suc}

pub record Checker : Type 0 where
  pub backoff : ℕ
  pub connected : Bool

-- The state before the first answer.
abbrev pub new_checker : Checker
new_checker = record { backoff = 1000; connected = false }

abbrev pub min : ℕ → ℕ → ℕ
min a b = if ltb b a then b else a

-- The answer to a ping, and the wait until the next one.
unfoldable pub answered : Bool → Checker → Checker
answered true c = record { backoff = 1000; connected = true }
answered false c = record { backoff = min (2 * c.backoff) (5 * 60 * 1000); connected = false }

unfoldable pub answered_all : List Bool → Checker → Checker
answered_all [] c = c
answered_all (b ∷ bs) c = answered_all bs (answered b c)

twice_zero : (n : ℕ) → n ≡ n * 2 ^ 0
twice_zero n = omega arith

twice : (n k : ℕ) → 2 * n * 2 ^ k ≡ n * 2 ^ suc k
twice n k = rw (pow-suc 2 k) (grind arith)

losses :
    (k : ℕ) (n : ℕ) (c : Checker)
    → c.backoff ≡ min (1000 * n) 300000
    → (answered_all (replicate k false) c).backoff ≡ min (1000 * (n * 2 ^ k)) 300000
unfolding answered_all answered
losses zero n c h = h ∙ ap (λ m. min (1000 * m) 300000) (twice_zero n)
losses (suc k) n c h =
    let rest = losses k (2 * n) (answered false c) (ground arith) in
    rest ∙ ap (λ m. min (1000 * m) 300000) (twice n k)

answered_all-append :
    (xs bs : List Bool) (c : Checker)
    → answered_all (xs ++ bs) c ≡ answered_all bs (answered_all xs c)
unfolding answered_all
answered_all-append [] bs c = refl
answered_all-append (a ∷ xs) bs c = answered_all-append xs bs (answered a c)

-- After any answers, k failures that follow a success double the wait of the connection checker k
-- times from a second on, up to five minutes, and so do k failures after the start.
pub backoff-doubles :
    (history : List Bool) (k : ℕ)
    → ((answered_all (history ++ true ∷ replicate k false) new_checker).backoff
        ≡ min (1000 * 2 ^ k) 300000)
      × ((answered_all (replicate k false) new_checker).backoff ≡ min (1000 * 2 ^ k) 300000)
unfolding answered_all answered
backoff-doubles history k =
    let before = answered_all history new_checker in
    let single : 1 * 2 ^ k ≡ 2 ^ k = omega arith in
    let last = losses k 1 (answered true before) refl in
    let first = losses k 1 new_checker refl in
    (
      ap (λ c. c.backoff) (answered_all-append history (true ∷ replicate k false) new_checker)
          ∙ last
          ∙ ap (λ m. min (1000 * m) 300000) single,
      first ∙ ap (λ m. min (1000 * m) 300000) single,
    )
