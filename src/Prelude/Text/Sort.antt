-- ===== src/Prelude/Text/Sort.antt =====
-- `sort.Strings`: texts in the order of their bytes, which is that of their runes.
use mathlib.Core.Path.{◌≡◌, refl, ap, ◌∙◌}
use mathlib.Core.Bool.{Bool, true, false, ◌||◌, ◌&&◌}
use mathlib.Core.List.{List, [], ◌∷◌}
use native.Mathlib.Omega.{arith}
use earful.Prelude.Tests.{ltb, eqb, if◌then◌else◌}
use earful.Prelude.Equality.{◌==◌, contains, nat_eq, list_eq}
use earful.Prelude.Text.Spaces.{Text}

unfoldable pub less : Text → Text → Bool
less [] [] = false
less [] (d ∷ t) = true
less (c ∷ s) [] = false
less (c ∷ s) (d ∷ t) = ltb c d || (eqb c d && less s t)

place : Text → List Text → List Text
place t [] = t ∷ []
place t (s ∷ ss) = let rest = place t ss in if less s t then s ∷ rest else t ∷ s ∷ ss

unfoldable pub sort_strings : List Text → List Text
unfolding place
sort_strings [] = []
sort_strings (t ∷ ts) = place t (sort_strings ts)

contains-place :
    (t : Text) (ss : List Text) (k : Text) → contains (place t ss) k ≡ (t == k || contains ss k)
unfolding place contains
contains-place t [] k = refl
contains-place t (s ∷ ss) k = ground (arith, contains-place t ss k)

-- Sorting keeps which texts there are.
pub contains-sort_strings :
    (ts : List Text) (k : Text) → contains (sort_strings ts) k ≡ contains ts k
unfolding sort_strings contains
contains-sort_strings [] k = refl
contains-sort_strings (t ∷ ts) k =
    contains-place t (sort_strings ts) k ∙ ap (λ b. t == k || b) (contains-sort_strings ts k)
