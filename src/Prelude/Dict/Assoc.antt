-- ===== src/Prelude/Dict/Assoc.antt =====
-- The representation of a dictionary: a list of entries, at most one for each key.
use Prim.Native.Nat.{ℕ, ◌≤◌}
use mathlib.Core.Path.{◌≡◌, refl}
use mathlib.Core.Bool.{Bool, true, false}
use mathlib.Core.Option.{Option, none, some}
use mathlib.Core.List.{List, [], ◌∷◌}
use native.Mathlib.Omega.{arith}
use earful.Prelude.Tests.{if◌then◌else◌}
use earful.Prelude.Lists.{length}
use earful.Prelude.Equality.{◌==◌, nat_eq, list_eq, eq_iff, contains}

module _ {ℓ} {V : Type ℓ} where
  unfoldable pub find : List ℕ → List (List ℕ × V) → Option V
  find k [] = none
  find k ((j, v) ∷ m) = if j == k then some v else find k m

  unfoldable pub without : List ℕ → List (List ℕ × V) → List (List ℕ × V)
  without k [] = []
  without k ((j, v) ∷ m) = let rest = without k m in if j == k then rest else (j, v) ∷ rest

  -- The entries whose value passes, each key's newest entry deciding for the key.
  unfoldable pub keep : (V → Bool) → List (List ℕ × V) → List (List ℕ × V)
  keep p [] = []
  keep p ((j, v) ∷ m) = let rest = without j (keep p m) in if p v then (j, v) ∷ rest else rest

  unfoldable pub keys_of : List (List ℕ × V) → List (List ℕ)
  keys_of [] = []
  keys_of ((j, v) ∷ m) = j ∷ keys_of m

  abbrev pub passing : (V → Bool) → Option V → Option V
  passing p none = none
  passing p (some v) = if p v then some v else none

  pub find-without :
      (k j : List ℕ) (m : List (List ℕ × V))
      → find j (without k m) ≡ (if k == j then none else find j m)
  unfolding find without
  find-without k j [] = ground arith
  find-without k j ((i, v) ∷ m) =
      ground (arith, find-without k j m, eq_iff i k, eq_iff i j, eq_iff k j)

  pub find-keep :
      (p : V → Bool) (j : List ℕ) (m : List (List ℕ × V)) → find j (keep p m) ≡ passing p (find j m)
  unfolding find keep
  find-keep p j [] = refl
  find-keep p j ((i, v) ∷ m) =
      ground (arith, find-keep p j m, find-without i j (keep p m), eq_iff i j)

  pub length-without : (k : List ℕ) (m : List (List ℕ × V)) → length (without k m) ≤ length m
  unfolding without
  length-without k [] = omega arith
  length-without k ((i, v) ∷ m) = ground (arith, length-without k m)

  pub length-keep : (p : V → Bool) (m : List (List ℕ × V)) → length (keep p m) ≤ length m
  unfolding keep
  length-keep p [] = omega arith
  length-keep p ((i, v) ∷ m) = ground (arith, length-keep p m, length-without i (keep p m))

  abbrev pub found : Option V → Bool
  found none = false
  found (some v) = true

  pub contains-keys_of :
      (k : List ℕ) (m : List (List ℕ × V)) → contains (keys_of m) k ≡ found (find k m)
  unfolding contains keys_of find
  contains-keys_of k [] = refl
  contains-keys_of k ((i, v) ∷ m) = ground (arith, contains-keys_of k m)
