-- ===== src/Page/Query/Parts.antt =====
-- The parts of a query: names of trees between commas, and variables between ampersands (onKeyDown and
-- getVariableFromQuery of megatree_web/js/index.js).
use megatree.Base.{
  ℕ, ◌≡◌, ◌≢◌, refl, ap, sym, ◌∙◌, false, none, some, List, [], ◌∷◌, ◌++◌, if◌then◌else◌, All,
  get_or,
}
use mathlib.Core.List.{append_assoc, append-nil}
use megatree.Cell.{Text}
use megatree.Frustum.Cache.{text_eq}
use megatree.Texts.{
  codes, split, split_from, split-append, split-Lacks, split-join, join, Lacks, Lacks-append,
  Lacks-join,
}
use megatree.Page.Query.{find_variable, Opening, get_supported_trees, load_trees, opens, drop_last}

-- The names with a comma behind each.
abbrev pub trailing : List Text → Text
trailing [] = []
trailing (n ∷ ns) = n ++ b',' ∷ trailing ns

drop_last-append : (s : Text) (c : ℕ) → drop_last (s ++ c ∷ []) ≡ s
unfolding drop_last
drop_last-append [] c = refl
drop_last-append (d ∷ []) c = refl
drop_last-append (d ∷ e ∷ s) c = ap (◌∷◌ d) (drop_last-append (e ∷ s) c)

trailing-join : (n : Text) (ns : List Text) → trailing (n ∷ ns) ≡ join b',' (n ∷ ns) ++ b',' ∷ []
trailing-join n [] = refl
trailing-join n (m ∷ ns) =
    ap (λ t. n ++ b',' ∷ t) (trailing-join m ns)
    ∙ sym (append_assoc n (b',' ∷ join b',' (m ∷ ns)) (b',' ∷ []))

-- `tree=` and the names, or `tree` alone.
abbrev pub tree_part : List Text → Text
tree_part [] = codes "tree"
tree_part (n ∷ ns) = codes "tree=" ++ join b',' (n ∷ ns)

pub start_of :
    (base : Text) (names : List Text)
    → drop_last (base ++ codes "?tree=" ++ trailing names) ≡ base ++ b'?' ∷ tree_part names
start_of base [] =
    ap drop_last
      (append-nil (base ++ codes "?tree=") ∙ sym (append_assoc base (codes "?tree") (codes "=")))
    ∙ drop_last-append (base ++ codes "?tree") b'='
start_of base (n ∷ ns) =
    ap drop_last (
      ap (◌++◌ (base ++ codes "?tree=")) (trailing-join n ns)
      ∙ sym (append_assoc (base ++ codes "?tree=") (join b',' (n ∷ ns)) (b',' ∷ [])))
    ∙ drop_last-append (base ++ codes "?tree=" ++ join b',' (n ∷ ns)) b','
    ∙ append_assoc base (codes "?tree=") (join b',' (n ∷ ns))

-- What a page with these names in its address loads.
abbrev pub asked : List Text → Opening
asked [] = get_supported_trees
asked (n ∷ ns) = load_trees (n ∷ ns)

abbrev pub IsName : Text → Type 0
IsName t = Lacks b'&' t × Lacks b'=' t × Lacks b',' t × (t ≢ [])

abbrev pub part : Text → Text → Text
part name s = name ++ b'=' ∷ s

commas : (ns : List Text) → All IsName ns → All (Lacks b',') ns
commas [] ok = tt
commas (n ∷ ns) ((a, e, c, ne), ok) = (c, commas ns ok)

ands : (ns : List Text) → All IsName ns → All (Lacks b'&') ns
ands [] ok = tt
ands (n ∷ ns) ((a, e, c, ne), ok) = (a, ands ns ok)

equals : (ns : List Text) → All IsName ns → All (Lacks b'=') ns
equals [] ok = tt
equals (n ∷ ns) ((a, e, c, ne), ok) = (e, equals ns ok)

opens-join :
    (n : Text) (ns : List Text)
    → All IsName (n ∷ ns)
    → opens (some (join b',' (n ∷ ns))) ≡ load_trees (n ∷ ns)
unfolding opens
opens-join [] ns ((a, e, c, ne), ok) = absurd (ne refl)
opens-join (d ∷ n) [] ok = ap load_trees (split-join b',' (d ∷ n) [] (commas ((d ∷ n) ∷ []) ok))
opens-join (d ∷ n) (m ∷ ns) ok =
    ap load_trees (split-join b',' (d ∷ n) (m ∷ ns) (commas ((d ∷ n) ∷ m ∷ ns) ok))

pub found :
    (name s : Text) (more : List Text) (v : Text)
    → Lacks b'=' name
    → Lacks b'=' s
    → find_variable (part name s ∷ more) v
      ≡ (if text_eq.beq name v then some s else find_variable more v)
unfolding find_variable
found name s more v n l = rw (split-append b'=' [] name s n, split-Lacks b'=' [] s l)

pub tree_part-Lacks : (names : List Text) → All IsName names → Lacks b'&' (tree_part names)
tree_part-Lacks [] ok = (refl, (refl, (refl, (refl, tt))))
tree_part-Lacks (n ∷ ns) ok =
    Lacks-append b'&' (codes "tree=") (join b',' (n ∷ ns))
      (refl, (refl, (refl, (refl, (refl, tt)))))
      (Lacks-join b'&' b',' (n ∷ ns) refl (ands (n ∷ ns) ok))

-- The part of the trees answers the question for them, and no other.
pub tree_found :
    (names : List Text) (more : List Text)
    → All IsName names
    → opens (find_variable (tree_part names ∷ more) (codes "tree")) ≡ asked names
unfolding find_variable split split_from opens
tree_found [] more ok = refl
tree_found (n ∷ ns) more ok =
    ap opens (
      found (codes "tree") (join b',' (n ∷ ns)) more (codes "tree")
        (refl, (refl, (refl, (refl, tt))))
        (Lacks-join b'=' b',' (n ∷ ns) refl (equals (n ∷ ns) ok)))
    ∙ opens-join n ns ok

pub tree_passed :
    (names : List Text) (more : List Text) (v : Text)
    → All IsName names
    → text_eq.beq (codes "tree") v ≡ false
    → find_variable (tree_part names ∷ more) v ≡ find_variable more v
unfolding find_variable split split_from
tree_passed [] more v ok other = ap (λ b. if b then none else find_variable more v) other
tree_passed (n ∷ ns) more v ok other =
    found (codes "tree") (join b',' (n ∷ ns)) more v (refl, (refl, (refl, (refl, tt))))
      (Lacks-join b'=' b',' (n ∷ ns) refl (equals (n ∷ ns) ok))
    ∙ ap (λ b. if b then some (join b',' (n ∷ ns)) else find_variable more v) other

-- The address up to its question mark.
abbrev pub base_of : Text → Text
base_of href = get_or (split (b'?' ∷ []) href) 0 []
