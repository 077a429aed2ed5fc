-- ===== src/Prelude/Distinct.antt =====
-- Lists with no element twice, and what moving an element about does to them.
use earful.Prelude.Tests.{Bool-cases}
use Prim.Native.Nat.{ℕ, zero, suc, ◌≤◌, ◌+◌}
use mathlib.Core.Path.{◌≡◌, refl, ap, subst}
use mathlib.Core.Logic.{◌↔◌, inl, inr}
use mathlib.Core.Bool.{false, ◌||◌, true}
use mathlib.Core.Option.{some, some-injective}
use mathlib.Core.List.{List, [], ◌∷◌, ◌++◌, map}
use native.Mathlib.Omega.{arith}
use earful.Prelude.Lists.{
  length, take, drop, set, get_elem?, take-append-drop, All, All-append, All-take, All-drop,
}
use earful.Prelude.Equality.{Comparable, eq_iff, contains, ◌==◌}

module _ {ℓ} {A : Type ℓ} ⦃e : Comparable A⦄ where
  -- No element occurs again behind itself.
  abbrev pub AllDistinct : List A → Type 0
  AllDistinct [] = Unit {0}
  AllDistinct (x ∷ xs) = (contains xs x ≡ false) × AllDistinct xs

  pub contains-append :
      (xs ys : List A) (a : A) → contains (xs ++ ys) a ≡ (contains xs a || contains ys a)
  unfolding contains
  contains-append [] ys a = refl
  contains-append (x ∷ xs) ys a = ground (arith, contains-append xs ys a)

  -- Where in the list an element stands does not matter.
  pub AllDistinct-middle :
      (xs ys : List A) (a : A)
      → AllDistinct (xs ++ a ∷ ys) ↔ (AllDistinct (xs ++ ys) × (contains (xs ++ ys) a ≡ false))
  unfolding contains
  AllDistinct-middle [] ys a = ground arith
  AllDistinct-middle (x ∷ xs) ys a = ground (
    arith,
    AllDistinct-middle xs ys a,
    contains-append xs ys a,
    contains-append xs ys x,
    contains-append xs (a ∷ ys) x,
    eq_iff x a,
    eq_iff a x,
  )

-- An element taken out at a place, and put in at a place.
module _ {ℓ} {A : Type ℓ} where
  abbrev pub remove_at : ℕ → List A → List A
  remove_at i xs = take i xs ++ drop (suc i) xs

  abbrev pub insert_at : ℕ → A → List A → List A
  insert_at j x xs = take j xs ++ x ∷ drop j xs

  pub insert_at-remove_at :
      (i : ℕ) (x : A) (xs : List A) → get_elem? xs i ≡ some x → insert_at i x (remove_at i xs) ≡ xs
  insert_at-remove_at i x [] h = ground arith
  insert_at-remove_at zero x (y ∷ ys) h = ground arith
  insert_at-remove_at (suc i) x (y ∷ ys) h = ap (λ r. y ∷ r) (insert_at-remove_at i x ys h)

  pub remove_at-insert_at :
      (j : ℕ) (x : A) (xs : List A) → j ≤ length xs → remove_at j (insert_at j x xs) ≡ xs
  remove_at-insert_at zero x xs h = refl
  remove_at-insert_at (suc j) x [] h = absurd (omega arith)
  remove_at-insert_at (suc j) x (y ∷ ys) h =
      ap (λ r. y ∷ r) (remove_at-insert_at j x ys (omega arith))

  pub get_elem?-insert_at :
      (j : ℕ) (x : A) (xs : List A) → j ≤ length xs → get_elem? (insert_at j x xs) j ≡ some x
  get_elem?-insert_at zero x xs h = refl
  get_elem?-insert_at (suc j) x [] h = absurd (omega arith)
  get_elem?-insert_at (suc j) x (y ∷ ys) h = get_elem?-insert_at j x ys (omega arith)

  pub length-insert_at : (j : ℕ) (x : A) (xs : List A) → length (insert_at j x xs) ≡ length xs + 1
  length-insert_at zero x xs = omega arith
  length-insert_at (suc j) x [] = omega arith
  length-insert_at (suc j) x (y ∷ ys) = omega (arith, length-insert_at j x ys)

  pub set_same : (xs : List A) (i : ℕ) (x : A) → get_elem? xs i ≡ some x → set xs i x ≡ xs
  set_same [] i x h = refl
  set_same (y ∷ ys) zero x h = ground arith
  set_same (y ∷ ys) (suc i) x h = ap (λ r. y ∷ r) (set_same ys i x h)

module _ {ℓ κ} {A : Type ℓ} {B : Type κ} (f : A → B) where
  pub map-insert_at :
      (j : ℕ) (x : A) (xs : List A) → map f (insert_at j x xs) ≡ insert_at j (f x) (map f xs)
  map-insert_at zero x xs = refl
  map-insert_at (suc j) x [] = refl
  map-insert_at (suc j) x (y ∷ ys) = ap (λ r. f y ∷ r) (map-insert_at j x ys)

  pub map-remove_at : (i : ℕ) (xs : List A) → map f (remove_at i xs) ≡ remove_at i (map f xs)
  map-remove_at zero [] = refl
  map-remove_at zero (x ∷ xs) = refl
  map-remove_at (suc i) [] = refl
  map-remove_at (suc i) (x ∷ xs) = ap (λ r. f x ∷ r) (map-remove_at i xs)

  pub map-set : (xs : List A) (i : ℕ) (x : A) → map f (set xs i x) ≡ set (map f xs) i (f x)
  map-set [] i x = refl
  map-set (y ∷ ys) zero x = refl
  map-set (y ∷ ys) (suc i) x = ap (λ r. f y ∷ r) (map-set ys i x)

  pub get_elem?-map :
      (xs : List A) (i : ℕ) (x : A) → get_elem? xs i ≡ some x → get_elem? (map f xs) i ≡ some (f x)
  get_elem?-map [] i x h = ground arith
  get_elem?-map (y ∷ ys) zero x h = ground arith
  get_elem?-map (y ∷ ys) (suc i) x h = get_elem?-map ys i x h

module _ {ℓ} {A : Type ℓ} ⦃e : Comparable A⦄ where
  pub AllDistinct-insert_at :
      (j : ℕ) (x : A) (xs : List A)
      → AllDistinct (insert_at j x xs) ↔ (AllDistinct xs × (contains xs x ≡ false))
  AllDistinct-insert_at j x xs =
      subst (λ r. AllDistinct (insert_at j x xs) ↔ (AllDistinct r × (contains r x ≡ false)))
        (take-append-drop j xs) (AllDistinct-middle (take j xs) (drop j xs) x)

module _ {ℓ κ} {A : Type ℓ} (P : A → Type κ) where
  pub All-remove_at : (i : ℕ) (xs : List A) → All P xs → All P (remove_at i xs)
  All-remove_at i xs h =
      All-append P (take i xs) (drop (suc i) xs) (All-take P i xs h) (All-drop P (suc i) xs h)

  pub All-insert_at : (j : ℕ) (x : A) (xs : List A) → P x → All P xs → All P (insert_at j x xs)
  All-insert_at j x xs p h =
      All-append P (take j xs) (x ∷ drop j xs) (All-take P j xs h) (p, All-drop P j xs h)

  pub All-get_elem? : (xs : List A) (i : ℕ) (x : A) → get_elem? xs i ≡ some x → All P xs → P x
  All-get_elem? [] i x h a = absurd (ground arith)
  All-get_elem? (y ∷ ys) zero x h a = subst P (some-injective y x h) a.0
  All-get_elem? (y ∷ ys) (suc i) x h a = All-get_elem? ys i x h a.1

-- What holds of every element, by membership.
module _ {ℓ κ} {A : Type ℓ} ⦃e : Comparable A⦄ where
  pub All-of_contains :
      (P : A → Type κ) (xs : List A) → ((x : A) → contains xs x ≡ true → P x) → All P xs
  unfolding contains
  All-of_contains P [] h = tt
  All-of_contains P (x ∷ xs) h =
      (h x (ground (arith, eq_iff x x)), All-of_contains P xs (λ y there. h y (ground arith)))

  pub All-contains : (P : A → Type κ) (xs : List A) (x : A) → All P xs → contains xs x ≡ true → P x
  unfolding contains
  All-contains P [] x h there = absurd (ground arith)
  All-contains P (y ∷ xs) x h there = elim (Bool-cases (y == x)) [
    | inl same ↦ subst P ((eq_iff y x).0 same) h.0
    | inr other ↦ All-contains P xs x h.1 (ground arith)
  ]
