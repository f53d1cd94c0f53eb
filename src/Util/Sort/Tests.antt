-- ===== src/Util/Sort/Tests.antt =====
-- Sorting concrete arrays.
use mathlib.Core.List.{Perm}
use jelatine.Common.{ℕ, ◌≡◌, refl, List, [], ◌∷◌, length, arith}
use jelatine.Common.Outcome.{ok}
use jelatine.Util.Sort.{swap, scan, exchange, sort_loop, sort_asc_uint16_ptrs}
use jelatine.Util.Sort.Sorted.{IsAscending, sort_asc_uint16_ptrs-IsAscending}

-- A greatest entry comes first, and two are equal.
abbrev five : List (ℕ × ℕ)
five = (9, 1) ∷ (3, 2) ∷ (7, 3) ∷ (3, 4) ∷ (1, 5) ∷ []

sorted_five :
    sort_asc_uint16_ptrs (0, 0) five 5 ≡ ok ((1, 5) ∷ (3, 2) ∷ (3, 4) ∷ (7, 3) ∷ (9, 1) ∷ [])
unfolding sort_asc_uint16_ptrs sort_loop exchange scan swap
sorted_five = refl

sort_asc_uint16_ptrs-IsAscending_example :
    (a' : List (ℕ × ℕ)) × (sort_asc_uint16_ptrs (0, 0) five (length five) ≡ ok a')
    × Perm a' five
    × IsAscending (0, 0) a'
    × (length a' ≡ length five)
sort_asc_uint16_ptrs-IsAscending_example =
    sort_asc_uint16_ptrs-IsAscending (0, 0) five (omega arith) (omega arith)
