-- ===== src/Prelude/Text/Spaces.antt =====
-- `strings.TrimSpace`, `strings.TrimRight` and `strings.Fields`.
use Prim.Native.Nat.{ℕ, ◌≤◌, ◌+◌}
use Prim.Native.Char.{code}
use Prim.Native.String.{String}
use mathlib.Core.Path.{◌≡◌, refl, ap, ◌∙◌}
use mathlib.Core.Bool.{Bool, true, false, ◌&&◌, ◌||◌}
use mathlib.Core.List.{List, [], ◌∷◌, ◌++◌}
use native.Mathlib.Omega.{arith}
use earful.Prelude.Tests.{leb, eqb, if◌then◌else◌}
use earful.Prelude.Lists.{length, is_nil, All}

-- A text, as its runes.
abbrev pub Text : Type 0
Text = List ℕ

-- The runes of a literal of the source.
abbrev pub codes : String → Text
codes String.[] = []
codes (String.◌∷◌ c s) = code c ∷ codes s

-- `unicode.IsSpace`: the code points with the property White_Space.
unfoldable pub is_space : ℕ → Bool
is_space c =
    (leb 9 c && leb c 13)
    || eqb c 32
    || eqb c 0x85
    || eqb c 0xa0
    || eqb c 0x1680
    || (leb 0x2000 c && leb c 0x200a)
    || (leb 0x2028 c && leb c 0x2029)
    || eqb c 0x202f
    || eqb c 0x205f
    || eqb c 0x3000

unfoldable pub trim_left_by : (ℕ → Bool) → Text → Text
trim_left_by p [] = []
trim_left_by p (c ∷ s) = let rest = trim_left_by p s in if p c then rest else c ∷ s

unfoldable pub trim_right_by : (ℕ → Bool) → Text → Text
trim_right_by p [] = []
trim_right_by p (c ∷ s) =
    let rest = trim_right_by p s in if is_nil rest && p c then [] else c ∷ rest

unfoldable pub trim_space : Text → Text
unfolding is_space trim_left_by trim_right_by
trim_space s = trim_right_by is_space (trim_left_by is_space s)

-- Nothing, or a first rune that fails the test.
abbrev starts_clean : (ℕ → Bool) → Text → Bool
starts_clean p [] = true
starts_clean p (c ∷ s) = if p c then false else true

trim_left_by-starts_clean : (p : ℕ → Bool) (s : Text) → starts_clean p (trim_left_by p s) ≡ true
unfolding trim_left_by
trim_left_by-starts_clean p [] = refl
trim_left_by-starts_clean p (c ∷ s) = ground (arith, trim_left_by-starts_clean p s)

trim_left_by_of_clean : (p : ℕ → Bool) (s : Text) → starts_clean p s ≡ true → trim_left_by p s ≡ s
unfolding trim_left_by
trim_left_by_of_clean p [] h = refl
trim_left_by_of_clean p (c ∷ s) h = ground arith

trim_right_by-starts_clean :
    (p : ℕ → Bool) (s : Text) → starts_clean p s ≡ true → starts_clean p (trim_right_by p s) ≡ true
unfolding trim_right_by
trim_right_by-starts_clean p [] h = refl
trim_right_by-starts_clean p (c ∷ s) h = ground arith

trim_right_by_idem :
    (p : ℕ → Bool) (s : Text) → trim_right_by p (trim_right_by p s) ≡ trim_right_by p s
unfolding trim_right_by
trim_right_by_idem p [] = refl
trim_right_by_idem p (c ∷ s) = ground (arith, trim_right_by_idem p s)

-- What has been trimmed stays as it is.
pub trim_space_idem : (s : Text) → trim_space (trim_space s) ≡ trim_space s
unfolding trim_space
trim_space_idem s =
    let t = trim_right_by is_space (trim_left_by is_space s) in
    let clean =
      trim_right_by-starts_clean is_space (trim_left_by is_space s)
        (trim_left_by-starts_clean is_space s) in
    ap (trim_right_by is_space) (trim_left_by_of_clean is_space t clean)
    ∙ trim_right_by_idem is_space (trim_left_by is_space s)

length-trim_left_by : (p : ℕ → Bool) (s : Text) → length (trim_left_by p s) ≤ length s
unfolding trim_left_by
length-trim_left_by p [] = omega arith
length-trim_left_by p (c ∷ s) = ground (arith, length-trim_left_by p s)

length-trim_right_by : (p : ℕ → Bool) (s : Text) → length (trim_right_by p s) ≤ length s
unfolding trim_right_by
length-trim_right_by p [] = omega arith
length-trim_right_by p (c ∷ s) = ground (arith, length-trim_right_by p s)

pub length-trim_space : (s : Text) → length (trim_space s) ≤ length s
unfolding trim_space
length-trim_space s =
    omega (
      arith,
      length-trim_left_by is_space s,
      length-trim_right_by is_space (trim_left_by is_space s),
    )

trim_right_by_of_none : (p : ℕ → Bool) (s : Text) → All (λ c. p c ≡ false) s → trim_right_by p s ≡ s
unfolding trim_right_by
trim_right_by_of_none p [] h = refl
trim_right_by_of_none p (c ∷ s) h = ground (arith, trim_right_by_of_none p s h.1)

trim_left_by_of_none : (p : ℕ → Bool) (s : Text) → All (λ c. p c ≡ false) s → trim_left_by p s ≡ s
unfolding trim_left_by
trim_left_by_of_none p [] h = refl
trim_left_by_of_none p (c ∷ s) h = ground arith

-- A text without a space stays as it is.
pub trim_space_of_none : (s : Text) → All (λ c. is_space c ≡ false) s → trim_space s ≡ s
unfolding trim_space
trim_space_of_none s h =
    ap (trim_right_by is_space) (trim_left_by_of_none is_space s h)
    ∙ trim_right_by_of_none is_space s h

-- `strings.Fields`: the words between the runs of spaces; `word` is the word being read.
fields_from : Text → Text → List Text
unfolding is_space
fields_from word [] = if is_nil word then [] else word ∷ []
fields_from word (c ∷ s) = elim (is_space c) [
  | true ↦ (if is_nil word then [] else word ∷ []) ++ fields_from [] s
  | false ↦ fields_from (word ++ c ∷ []) s
]

unfoldable pub fields : Text → List Text
unfolding fields_from
fields s = fields_from [] s

All-trim_left_by : (P : ℕ → Type 0) (p : ℕ → Bool) (s : Text) → All P s → All P (trim_left_by p s)
unfolding trim_left_by
All-trim_left_by P p [] h = tt
All-trim_left_by P p (c ∷ s) h = ground (arith, All-trim_left_by P p s h.1)

All-trim_right_by : (P : ℕ → Type 0) (p : ℕ → Bool) (s : Text) → All P s → All P (trim_right_by p s)
unfolding trim_right_by
All-trim_right_by P p [] h = tt
All-trim_right_by P p (c ∷ s) h = ground (arith, All-trim_right_by P p s h.1)

-- What holds of every rune of a text holds of every rune left by trimming it.
pub All-trim_space : (P : ℕ → Type 0) (s : Text) → All P s → All P (trim_space s)
unfolding trim_space
All-trim_space P s h = All-trim_right_by P is_space _ (All-trim_left_by P is_space s h)

-- `strings.Join(strings.Fields(s), " ")`: the words of a text in one line.
abbrev spaced : List Text → Text
spaced [] = []
spaced (w ∷ []) = w
spaced (w ∷ v ∷ ws) = w ++ 32 ∷ spaced (v ∷ ws)

unfoldable pub one_line : Text → Text
unfolding fields
one_line s = spaced (fields s)

-- `len(s)` of a Go string: the bytes of its UTF-8 form.
abbrev pub rune_len : ℕ → ℕ
rune_len c = if leb c 0x7f then 1 else if leb c 0x7ff then 2 else if leb c 0xffff then 3 else 4

unfoldable pub byte_len : Text → ℕ
byte_len [] = 0
byte_len (c ∷ s) = rune_len c + byte_len s
