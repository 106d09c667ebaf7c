-- ===== src/Frustum/Cache.antt =====
-- The cell cache of the page: `cellCache` of megatree_web/js/index.js is an LRUCache by the ids of cells,
-- as getCell of megatree_web/js/megatree.js uses it.
use megatree.Base.{
  ℕ, ◌≡◌, refl, ◌↔◌, Bool, true, false, ◌&&◌, ◌==◌, ==_iff, Option, none, [], ◌∷◌, arith, Eq,
}
use megatree.Outcome.{Outcome, returns, throws}
use megatree.LruCache.{LruCache, get, put}
use megatree.Cell.{Text}
use megatree.Frustum.Querier.{CellCache}

abbrev same_text : Text → Text → Bool
same_text [] [] = true
same_text [] (d ∷ t) = false
same_text (c ∷ s) [] = false
same_text (c ∷ s) (d ∷ t) = (c == d) && same_text s t

pub same_text_iff : (s t : Text) → (same_text s t ≡ true) ↔ (s ≡ t)
same_text_iff [] [] = (λ _. refl, λ _. refl)
same_text_iff [] (d ∷ t) = (λ h. cc, λ h. cc)
same_text_iff (c ∷ s) [] = (λ h. cc, λ h. cc)
same_text_iff (c ∷ s) (d ∷ t) =
    let head = ==_iff c d in let rest = same_text_iff s t in (λ h. ground arith, λ h. ground arith)

instance abbrev pub text_eq : Eq Text
text_eq = record { beq = same_text; beq_iff = same_text_iff }

-- A call that throws leaves the cache as it is.
unfoldable pub looked_up :
    LruCache Text ℕ → Outcome (Option ℕ × LruCache Text ℕ) → Option ℕ × LruCache Text ℕ
looked_up s throws = (none, s)
looked_up s (returns r) = r

unfoldable pub stored : LruCache Text ℕ → Outcome (LruCache Text ℕ) → LruCache Text ℕ
stored s throws = s
stored s (returns s') = s'

abbrev pub lru_cells : CellCache
lru_cells = record {
  State = LruCache Text ℕ;
  get = λ id s. looked_up s (get id s);
  put = λ id at s. stored s (put id at s);
}
