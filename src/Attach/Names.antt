-- ===== src/Attach/Names.antt =====
-- internal/attach: the names of files and of members, which are labels only.
use earful.Prelude.{
  ◌≡◌, if◌then◌else◌, false, Option, ◌==◌, ℕ, length, take, not, arith, some, Bool-cases, is_nil,
  ◌&&◌, ◌||◌, inr, ◌∷◌, eqb, [], none, inl, All, contains, ◌≤◌, length-take, All-take, Bool, nat_eq,
  list_eq, bool_eq, refl,
}
use earful.Attach.Types.{Readers}
use earful.Domain.Answer.Check.{blank}
use earful.Prelude.Text.{trim_space, Text, trim_right_by, has_prefix, codes}

-- What stands behind the last rune of a set: strings.LastIndexAny and a cut there.
unfoldable pub after_last : (ℕ → Bool) → Text → Text
after_last p s = go s s
  where
    go : Text → Text → Text
    go whole [] = whole
    go whole (c ∷ s) = if p c then go s s else go whole s

unfoldable pub without : (ℕ → Bool) → Text → Text
without p [] = []
without p (c ∷ s) = let rest = without p s in if p c then rest else c ∷ rest

-- `path.Ext` without its dot, in lower case: what is behind the last dot of the last element.
unfoldable pub extension : Text → Option Text
extension [] = none
extension (c ∷ s) = let rest = extension s in if eqb c b'/' then rest else or_here c s rest
  where
    or_here : ℕ → Text → Option Text → Option Text
    or_here c s (some e) = some e
    or_here c s none = if eqb c b'.' && not (contains s b'/') then some s else none

-- `path.Base`: the last element, without the slashes at the end.
unfoldable pub base : Text → Text
unfolding after_last
base s =
    if is_nil s
    then b'.' ∷ []
    else let t = trim_right_by (λ c. eqb c b'/') s in
      if is_nil t then b'/' ∷ [] else after_last (λ c. eqb c b'/') t

-- `ignoredMember`
unfoldable pub ignored_member : Text → Bool
unfolding base
ignored_member name =
    has_prefix name (codes "__MACOSX/")
    || has_prefix (base name) (codes "._")
    || base name == codes ".DS_Store"
    || base name == codes "Thumbs.db"
    || base name == codes "desktop.ini"

abbrev pub slashed : Text → Text
slashed [] = []
slashed (c ∷ s) = (if eqb c 92 then b'/' else c) ∷ slashed s

abbrev without_slash : Text → Text
without_slash [] = []
without_slash (c ∷ s) = if eqb c b'/' then s else c ∷ s

module _ ⦃r : Readers⦄ where
  -- `memberName`
  unfoldable pub member_name : Text → Text
  unfolding without
  member_name name = without r.is_control (without_slash (r.clean_path (b'/' ∷ slashed name)))

  -- `cleanName`
  unfoldable pub clean_name : Text → Text
  unfolding after_last without
  clean_name name =
      let last = after_last (λ c. eqb c b'/' || eqb c 92) name in
      let kept = take 200 (without r.is_control last) in
      if is_nil (trim_space kept) then codes "file" else kept

  All-without : (p : ℕ → Bool) (s : Text) → All (λ c. p c ≡ false) (without p s)
  unfolding without
  All-without p [] = tt
  All-without p (c ∷ s) = elim (Bool-cases (p c)) [
    | inl yes_it_is ↦ rw (All, without, yes_it_is) (All-without p s)
    | inr other ↦ rw (All, without, other) (other, All-without p s)
  ]

  named_file : is_nil (trim_space (codes "file")) ≡ false
  unfolding trim_space
  named_file = refl

  -- The name that is kept of a file is never blank, has at most 200 runes, and holds no control
  -- character, as long as no letter of the word file is one.
  pub clean_name_lem :
      (name : Text)
      → All (λ c. r.is_control c ≡ false) (codes "file")
      → (is_nil (trim_space (clean_name name)) ≡ false)
        × (length (clean_name name) ≤ 200)
        × (All (λ c. r.is_control c ≡ false) (clean_name name))
  unfolding clean_name
  clean_name_lem name file =
      let last = after_last (λ c. eqb c b'/' || eqb c 92) name in
      let kept = take 200 (without r.is_control last) in
      let short = length-take 200 (without r.is_control last) in
      let free = All-take (λ c. r.is_control c ≡ false) 200 _ (All-without r.is_control last) in
      elim (Bool-cases (is_nil (trim_space kept))) [
        | inl blank ↦ rw blank (named_file, omega arith, file)
        | inr named ↦ rw named (named, omega (arith, short), free)
      ]
