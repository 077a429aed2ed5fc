-- ===== src/Prelude/Text/Split.antt =====
-- `strings.Split`, `strings.Join`, `strings.Cut` and `strings.Contains`.
use native.Mathlib.Omega.{arith}
use mathlib.Core.Path.{◌≡◌, refl}
use earful.Prelude.Lists.{All}
use Prim.Native.Nat.{ℕ}
use mathlib.Core.Bool.{Bool, true, false, ◌&&◌, ◌||◌}
use mathlib.Core.Option.{Option, none, some}
use mathlib.Core.List.{List, [], ◌∷◌, ◌++◌}
use earful.Prelude.Tests.{eqb, if◌then◌else◌}
use earful.Prelude.Text.Spaces.{Text}

-- The head of the first part is put in front of what is split from the rest.
abbrev put_first : ℕ → List Text → List Text
put_first c [] = (c ∷ []) ∷ []
put_first c (p ∷ ps) = (c ∷ p) ∷ ps

-- `strings.Split(s, sep)` for a separator of one rune.
unfoldable pub split : ℕ → Text → List Text
split sep [] = [] ∷ []
split sep (c ∷ s) = let rest = split sep s in if eqb c sep then [] ∷ rest else put_first c rest

-- `strings.Join(parts, sep)`.
unfoldable pub join : Text → List Text → Text
join sep [] = []
join sep (p ∷ []) = p
join sep (p ∷ q ∷ ps) = p ++ sep ++ join sep (q ∷ ps)

-- `strings.Cut(s, sep)` for a separator of one rune: what is before and after the first one.
unfoldable pub cut : ℕ → Text → Option (Text × Text)
cut sep [] = none
cut sep (c ∷ s) = let rest = cut sep s in if eqb c sep then some ([], s) else before c rest
  where
    before : ℕ → Option (Text × Text) → Option (Text × Text)
    before c none = none
    before c (some (a, b)) = some (c ∷ a, b)

unfoldable pub has_prefix : Text → Text → Bool
has_prefix s [] = true
has_prefix [] (c ∷ t) = false
has_prefix (d ∷ s) (c ∷ t) = eqb d c && has_prefix s t

-- `strings.Contains(s, t)`.
unfoldable pub contains_text : Text → Text → Bool
unfolding has_prefix
contains_text [] t = has_prefix [] t
contains_text (c ∷ s) t = has_prefix (c ∷ s) t || contains_text s t

-- The first separator is the one behind a text that holds none.
pub cut-append :
    (sep : ℕ) (s t : Text) → All (λ c. eqb c sep ≡ false) s → cut sep (s ++ sep ∷ t) ≡ some (s, t)
unfolding cut
cut-append sep [] t h = let same : eqb sep sep ≡ true = ground arith in rw same refl
cut-append sep (c ∷ s) t h = rw (h.0, cut-append sep s t h.1) refl
