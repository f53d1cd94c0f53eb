-- ===== src/Util/Sort.antt =====
-- `sort_asc_uint16_ptrs` of src/jelatine/util.c. The two arrays, which the code changes at the same
-- places, are one list of pairs, and `d` is what stands for an entry outside of it.
pub mod Swaps
pub mod Rounds
pub mod Sorted
mod Tests
use jelatine.Common.{
  ℕ, zero, suc, ◌+◌, ◌-◌, ◌%◌, ◌^◌, List, ltb, ◌==◌, if◌then◌else◌, length, get_or, set,
}
use jelatine.Common.Outcome.{Outcome, ok, stuck}

module _ {ℓ} {A : Type ℓ} (d : ℕ × A) where
  -- `array[i]`
  abbrev pub key : List (ℕ × A) → ℕ → ℕ
  key a i = (get_or a i d).0

  -- The exchange of `x` and `y` in both arrays.
  unfoldable pub swap : List (ℕ × A) → ℕ → ℕ → List (ℕ × A)
  swap a x y = set (set a x (get_or a y d)) y (get_or a x d)

  -- The `for` loop, over `n` more places from `j` on: the places of a least and of a greatest entry.
  unfoldable pub scan : List (ℕ × A) → ℕ → ℕ → ℕ → ℕ → ℕ × ℕ
  scan a zero j min max = (min, max)
  scan a (suc n) j min max =
      scan a n (j + 1) (if ltb (key a j) (key a min) then j else min)
        (if ltb (key a max) (key a j) then j else max)

  -- What the body of the `while` loop does with the places found.
  unfoldable pub exchange : List (ℕ × A) → ℕ → ℕ → ℕ × ℕ → List (ℕ × A)
  exchange a i k (min, max) =
      let first = swap a min i in if max == i then swap first min k else swap first max k

  unfoldable pub sort_loop : ℕ → List (ℕ × A) → ℕ → ℕ → Outcome (List (ℕ × A))
  sort_loop zero a i k = stuck
  sort_loop (suc fuel) a i k =
      let rest = sort_loop fuel (exchange a i k (scan a (k - i) (i + 1) i i)) (i + 1) (k - 1) in
      if ltb i k then rest else ok a

  -- The arrays have `len` entries; `len - 1` wraps around.
  unfoldable pub sort_asc_uint16_ptrs : List (ℕ × A) → ℕ → Outcome (List (ℕ × A))
  sort_asc_uint16_ptrs a len = sort_loop (len + 1) a 0 ((len + (2 ^ 32 - 1)) % 2 ^ 32)
