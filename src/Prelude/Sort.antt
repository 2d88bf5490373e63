-- ===== src/Prelude/Sort.antt =====
-- `sort.Strings`: the byte order, and an insertion sort by it.
use mathlib.Core.Path.{◌≡◌, refl}
use mathlib.Core.Bool.{Bool, true, false, ◌&&◌, ◌||◌}
use mathlib.Core.List.{List, [], ◌∷◌}
use native.Mathlib.Omega.{arith}
use dockward.Prelude.Tests.{if◌then◌else◌, ltb}
use dockward.Prelude.Classes.{◌==◌, nat_eq}
use dockward.Prelude.Lists.{any_of}
use dockward.Prelude.Text.{Text, text_eq}

unfoldable pub before : Text → Text → Bool
before [] [] = false
before [] (d ∷ t) = true
before (c ∷ s) [] = false
before (c ∷ s) (d ∷ t) = ltb c d || c == d && before s t

unfoldable pub sort_into : Text → List Text → List Text
unfolding before
sort_into f [] = f ∷ []
sort_into f (g ∷ gs) = let rest = sort_into f gs in if before g f then g ∷ rest else f ∷ g ∷ gs

unfoldable pub sort_texts : List Text → List Text
unfolding sort_into
sort_texts [] = []
sort_texts (f ∷ fs) = sort_into f (sort_texts fs)

-- No text comes before its predecessor.
abbrev pub IsSorted : List Text → Type 0
IsSorted [] = Unit
IsSorted (f ∷ []) = Unit
IsSorted (f ∷ g ∷ gs) = (before g f ≡ false) × IsSorted (g ∷ gs)

before_asym : (s t : Text) → before s t ≡ true → before t s ≡ false
unfolding before
before_asym [] [] h = refl
before_asym [] (d ∷ t) h = refl
before_asym (c ∷ s) [] h = ground arith
before_asym (c ∷ s) (d ∷ t) h = ground (arith, before_asym s t)

sort_into-IsSorted : (f : Text) (gs : List Text) → IsSorted gs → IsSorted (sort_into f gs)
unfolding sort_into
sort_into-IsSorted f [] h = tt
sort_into-IsSorted f (g ∷ []) h = ground (arith, before_asym g f)
sort_into-IsSorted f (g ∷ k ∷ gs) (h, hs) =
    ground (arith, before_asym g f, before_asym k f, sort_into-IsSorted f (k ∷ gs) hs)

pub sort_texts-IsSorted : (fs : List Text) → IsSorted (sort_texts fs)
unfolding sort_texts
sort_texts-IsSorted [] = tt
sort_texts-IsSorted (f ∷ fs) = sort_into-IsSorted f (sort_texts fs) (sort_texts-IsSorted fs)

any_of-sort_into :
    (p : Text → Bool) (f : Text) (gs : List Text) → any_of p (sort_into f gs) ≡ p f || any_of p gs
unfolding sort_into
any_of-sort_into p f [] = ground arith
any_of-sort_into p f (g ∷ gs) = ground (arith, any_of-sort_into p f gs)

-- The same texts as before.
pub any_of-sort_texts : (p : Text → Bool) (fs : List Text) → any_of p (sort_texts fs) ≡ any_of p fs
unfolding sort_texts
any_of-sort_texts p [] = refl
any_of-sort_texts p (f ∷ fs) =
    ground (arith, any_of-sort_into p f (sort_texts fs), any_of-sort_texts p fs)
