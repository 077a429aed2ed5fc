-- ===== src/Prelude/Search.antt =====
-- `sort.Search`: the first index of a slice at which a test holds.
use mathlib.Core.Logic.{inl, inr}
use mathlib.Core.Bool.{Bool, true, false}
use native.Mathlib.Omega.{arith}
use mathlib.Core.Path.{◌≡◌}
use Prim.Native.Nat.{ℕ, zero, suc, ◌+◌, ◌/◌, ◌≤◌, ◌<◌}
use earful.Prelude.Tests.{ltb, Bool-cases}

-- The loop `for i < j`, on fuel: `j - i` rounds are enough, since each one brings i and j closer.
search_from : ℕ → ℕ → ℕ → (ℕ → Bool) → ℕ
search_from zero i j p = i
search_from (suc fuel) i j p =
    let h = (i + j) / 2 in
    elim (ltb i j) [
      | false ↦ i
      | true ↦ elim (p h) [ false ↦ search_from fuel (h + 1) j p | true ↦ search_from fuel i h p ]
    ]

unfoldable pub sort_search : ℕ → (ℕ → Bool) → ℕ
unfolding search_from
sort_search n p = search_from n 0 n p

-- Where the test first holds: at no index below, and at every one from there on.
pub record IsFirst (n : ℕ) (p : ℕ → Bool) (r : ℕ) : Type 0 where
  pub within : r ≤ n
  pub before : (k : ℕ) → k < r → p k ≡ false
  pub after : (k : ℕ) → r ≤ k → k < n → p k ≡ true

-- A test that holds at an index holds at every later one.
abbrev pub IsUpward : ℕ → (ℕ → Bool) → Type 0
IsUpward n p = (i j : ℕ) → i ≤ j → j < n → p i ≡ true → p j ≡ true

search_from-IsFirst :
    (fuel i j n : ℕ) (p : ℕ → Bool)
    → IsUpward n p
    → j ≤ i + fuel
    → i ≤ j
    → j ≤ n
    → ((k : ℕ) → k < i → p k ≡ false)
    → ((k : ℕ) → j ≤ k → k < n → p k ≡ true)
    → IsFirst n p (search_from fuel i j p)
unfolding search_from
search_from-IsFirst zero i j n p up enough le top below above =
    let same : i ≡ j = omega arith in
    record { within = omega arith; before = below; after = λ k ge. above k (omega arith) }
search_from-IsFirst (suc fuel) i j n p up enough le top below above =
    let h = (i + j) / 2 in
    elim (Bool-cases (ltb i j)) [
      | inl more ↦ elim (Bool-cases (p h)) [
        | inl found ↦
            rw (search_from, more, found)
              (search_from-IsFirst fuel i h n p up (ground arith) (ground arith) (ground arith)
                below (λ k ge lt. up h k ge lt found))
        | inr not_here ↦
            rw (search_from, more, not_here)
              (search_from-IsFirst fuel (h + 1) j n p up (ground arith) (ground arith) top
                (λ k lt. not_yet n p up h k (ground arith) (omega arith) not_here) above)
      ]
      | inr done ↦
          rw (search_from, done)
            record { within = omega arith; before = below; after = λ k ge. above k (ground arith) }
    ]
  where
    not_yet :
        (n : ℕ) (p : ℕ → Bool)
        → IsUpward n p
        → (h k : ℕ) → h < n
        → k ≤ h
        → p h ≡ false
        → p k ≡ false
    not_yet n p up h k lt le below = elim (Bool-cases (p k)) [
      | inl found ↦ (let later = up k h le lt found in absurd (ground arith))
      | inr here ↦ here
    ]

-- For a test that, once true, stays true, the search of n indexes ends with fuel n at the first index
-- where it holds, and at n where it holds nowhere.
pub sort_search-IsFirst : (n : ℕ) (p : ℕ → Bool) → IsUpward n p → IsFirst n p (sort_search n p)
unfolding sort_search
sort_search-IsFirst n p up =
    search_from-IsFirst n 0 n n p up (omega arith) (omega arith) (omega arith)
      (λ k lt. absurd (omega arith)) (λ k ge lt. absurd (omega arith))
