-- ===== src/Prelude/Dict.antt =====
-- Go's `map[string]V`, behind its laws. The program sorts the keys that it ranges over, or does not
-- depend on their order, so the order of the entries says nothing.
mod Assoc
use Prim.Native.Nat.{ℕ, ◌+◌, ◌≤◌}
use mathlib.Core.Path.{◌≡◌, refl}
use mathlib.Core.Bool.{Bool}
use mathlib.Core.Option.{Option, none, some}
use mathlib.Core.List.{List, [], ◌∷◌}
use native.Mathlib.Omega.{arith}
use earful.Prelude.Tests.{if◌then◌else◌}
use earful.Prelude.Lists.{length}
use earful.Prelude.Equality.{◌==◌, nat_eq, list_eq, eq_refl, contains}
use Assoc.{
  find, without, find-without, keys_of, keep, find-keep, length-without, length-keep,
  contains-keys_of,
}
pub use Assoc.{passing, found}

pub record Dict {ℓ} (V : Type ℓ) : Type ℓ where
  entries : List (List ℕ × V)

module _ {ℓ} {V : Type ℓ} where
  pub empty : Dict V
  empty = record { entries = [] }

  -- v, ok := m[k]
  pub lookup : List ℕ → Dict V → Option V
  unfolding find
  lookup k m = find k m.entries

  -- delete(m, k)
  pub delete : List ℕ → Dict V → Dict V
  unfolding without
  delete k m = record { entries = without k m.entries }

  -- m[k] = v
  pub insert : List ℕ → V → Dict V → Dict V
  unfolding without
  insert k v m = record { entries = (k, v) ∷ without k m.entries }

  -- for k, v := range m { if !keep(v) { delete(m, k) } }
  pub retain : (V → Bool) → Dict V → Dict V
  unfolding keep
  retain p m = record { entries = keep p m.entries }

  -- len(m)
  pub size : Dict V → ℕ
  size m = length m.entries

  -- for k := range m
  pub keys : Dict V → List (List ℕ)
  unfolding keys_of
  keys m = keys_of m.entries

  pub lookup-empty : (k : List ℕ) → lookup k empty ≡ none
  unfolding lookup empty
  lookup-empty k = refl

  pub lookup-insert :
      (j k : List ℕ) (v : V) (m : Dict V)
      → lookup j (insert k v m) ≡ (if k == j then some v else lookup j m)
  unfolding lookup insert
  lookup-insert j k v m = ground (arith, find-without k j m.entries)

  pub lookup-delete :
      (j k : List ℕ) (m : Dict V) → lookup j (delete k m) ≡ (if k == j then none else lookup j m)
  unfolding lookup delete
  lookup-delete j k m = find-without k j m.entries

  pub lookup-retain :
      (j : List ℕ) (p : V → Bool) (m : Dict V) → lookup j (retain p m) ≡ passing p (lookup j m)
  unfolding lookup retain
  lookup-retain j p m = find-keep p j m.entries

  pub lookup-insert_self : (k : List ℕ) (v : V) (m : Dict V) → lookup k (insert k v m) ≡ some v
  lookup-insert_self k v m = rw (lookup-insert, eq_refl k)

  pub size-insert_le : (k : List ℕ) (v : V) (m : Dict V) → size (insert k v m) ≤ size m + 1
  unfolding size insert
  size-insert_le k v m = omega (arith, length-without k m.entries)

  pub size-retain_le : (p : V → Bool) (m : Dict V) → size (retain p m) ≤ size m
  unfolding size retain
  size-retain_le p m = length-keep p m.entries

  -- The keys are those that a lookup finds.
  pub contains-keys : (k : List ℕ) (m : Dict V) → contains (keys m) k ≡ found (lookup k m)
  unfolding keys lookup
  contains-keys k m = contains-keys_of k m.entries

pub keys-empty {ℓ} : (V : Type ℓ) → keys (empty {V = V}) ≡ []
unfolding keys empty
keys-empty V = refl

pub keys-insert-empty {ℓ} : {V : Type ℓ} (k : List ℕ) (v : V) → keys (insert k v empty) ≡ k ∷ []
unfolding keys insert empty
keys-insert-empty k v = refl

pub size-empty {ℓ} : (V : Type ℓ) → size (empty {V = V}) ≡ 0
unfolding size empty
size-empty V = refl

pub ruleset dict_laws = (lookup-empty, lookup-insert, lookup-delete, lookup-retain)
