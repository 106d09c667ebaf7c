-- ===== src/Texts.antt =====
-- Texts as lists of character codes, cut at a separator as `split` of JavaScript's strings does it,
-- and the functions between texts and numbers that the browser provides, a parameter.
use Prim.Native.String.{String}
use Prim.Native.Char.{code}
use megatree.Base.{
  ℕ, zero, suc, ◌-◌ as minus, ◌≡◌, refl, ap, ◌∙◌, Bool, true, false, not, ◌&&◌, Option, none, some,
  List, [], ◌∷◌, ◌++◌, ◌==◌, arith, length, All,
}
use megatree.Cell.{Text}
use megatree.Numbers.{Num, Number}

-- The codes of a literal.
abbrev pub codes : String → Text
codes String.[] = []
codes (String.◌∷◌ c s) = code c ∷ codes s

-- `parseFloat`, `parseInt` and the text of a number.
pub record Strings ⦃num : Num⦄ : Type 0 where
  pub parse_float : Text → Number
  pub parse_int : Text → Number
  pub show : Number → Text

-- `parseFloat` of a value that may be null or undefined, which it reads as NaN.
abbrev pub parse_float_of : ⦃num : Num⦄ → Strings → Option Text → Number
parse_float_of ⦃num⦄ str none = num.nan
parse_float_of ⦃num⦄ str (some t) = str.parse_float t

abbrev pub starts_with : Text → Text → Bool
starts_with [] t = true
starts_with (c ∷ s) [] = false
starts_with (c ∷ s) (d ∷ t) = (c == d) && starts_with s t

-- A character in front of the first piece.
abbrev pub push : ℕ → List Text → List Text
push c [] = (c ∷ []) ∷ []
push c (p ∷ ps) = (c ∷ p) ∷ ps

-- The pieces of a text of which the first `skip` characters belong to a separator.
unfoldable pub split_from : (separator : Text) (skip : ℕ) → Text → List Text
split_from separator skip [] = [] ∷ []
split_from separator (suc skip) (c ∷ t) = split_from separator skip t
split_from separator zero (c ∷ t) = elim (starts_with separator (c ∷ t)) [
  | true ↦ [] ∷ split_from separator (minus (length separator) 1) t
  | false ↦ push c (split_from separator 0 t)
]

unfoldable pub split : (separator : Text) → Text → List Text
split separator t = split_from separator 0 t

-- No character of the text is `c`.
abbrev pub Lacks : ℕ → Text → Type 0
Lacks c t = All (λ d. (c == d) ≡ false) t

self : (t rest : Text) → starts_with t (t ++ rest) ≡ true
self [] rest = refl
self (c ∷ t) rest = let same = self t rest in ground arith

skip_all :
    (separator p rest : Text)
    → split_from separator (length p) (p ++ rest) ≡ split_from separator 0 rest
unfolding split_from
skip_all separator [] rest = refl
skip_all separator (c ∷ p) rest = skip_all separator p rest

elsewhere :
    (c : ℕ) (more : Text) (d : ℕ) (t : Text)
    → (c == d) ≡ false
    → split_from (c ∷ more) 0 (d ∷ t) ≡ push d (split_from (c ∷ more) 0 t)
unfolding split_from
elsewhere c more d t other = rw (split_from, other)

here :
    (c : ℕ) (more rest : Text)
    → split_from (c ∷ more) 0 ((c ∷ more) ++ rest) ≡ [] ∷ split_from (c ∷ more) 0 rest
unfolding split_from
here c more rest =
    let found = self (c ∷ more) rest in
    let less : minus (length (c ∷ more)) 1 ≡ length more = omega arith in
    rw (split_from, found, less, skip_all (c ∷ more) more rest)

pub split-Lacks : (c : ℕ) (more p : Text) → Lacks c p → split (c ∷ more) p ≡ p ∷ []
unfolding split split_from
split-Lacks c more p lacks = alone p lacks
  where
    alone : (p : Text) → Lacks c p → split_from (c ∷ more) 0 p ≡ p ∷ []
    alone [] l = refl
    alone (d ∷ p) (n, l) = elsewhere c more d p n ∙ ap (push d) (alone p l)

pub split-append :
    (c : ℕ) (more p rest : Text)
    → Lacks c p
    → split (c ∷ more) (p ++ ((c ∷ more) ++ rest)) ≡ p ∷ split (c ∷ more) rest
unfolding split
split-append c more p rest lacks = before p lacks
  where
    before :
        (p : Text)
        → Lacks c p
        → split_from (c ∷ more) 0 (p ++ ((c ∷ more) ++ rest)) ≡ p ∷ split_from (c ∷ more) 0 rest
    before [] l = here c more rest
    before (d ∷ p) (n, l) = elsewhere c more d _ n ∙ ap (push d) (before p l)

-- Pieces with a character between them.
abbrev pub join : ℕ → List Text → Text
join c [] = []
join c (p ∷ []) = p
join c (p ∷ q ∷ ps) = p ++ c ∷ join c (q ∷ ps)

pub split-join :
    (c : ℕ) (p : Text) (ps : List Text)
    → All (Lacks c) (p ∷ ps)
    → split (c ∷ []) (join c (p ∷ ps)) ≡ p ∷ ps
split-join c p [] (l, none_left) = split-Lacks c [] p l
split-join c p (q ∷ ps) (l, ls) =
    split-append c [] p (join c (q ∷ ps)) l ∙ ap (◌∷◌ p) (split-join c q ps ls)

pub Lacks-append : (c : ℕ) (s t : Text) → Lacks c s → Lacks c t → Lacks c (s ++ t)
Lacks-append c [] t g h = h
Lacks-append c (d ∷ s) t (n, g) h = (n, Lacks-append c s t g h)

pub Lacks-join :
    (c d : ℕ) (ps : List Text) → (c == d) ≡ false → All (Lacks c) ps → Lacks c (join d ps)
Lacks-join c d [] n ls = tt
Lacks-join c d (p ∷ []) n (l, ls) = l
Lacks-join c d (p ∷ q ∷ ps) n (l, ls) =
    Lacks-append c p (d ∷ join d (q ∷ ps)) l (n, Lacks-join c d (q ∷ ps) n ls)

-- `Lacks` as a test.
abbrev pub lacks : ℕ → Text → Bool
lacks c [] = true
lacks c (d ∷ t) = not (c == d) && lacks c t

pub lacks-Lacks : (c : ℕ) (t : Text) → lacks c t ≡ true → Lacks c t
lacks-Lacks c [] h = tt
lacks-Lacks c (d ∷ t) h = let rest = lacks-Lacks c t in (ground arith, rest (ground arith))
