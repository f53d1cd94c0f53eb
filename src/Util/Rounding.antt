-- ===== src/Util/Rounding.antt =====
-- The rounding functions meet their descriptions while `x + y` does not wrap.
use native.Mathlib.Nat.{div-mul-le_self, lt-div-mul-add, mul-mod_left, mod-eq_of_lt}
use jelatine.Common.{ℕ, ◌+◌, ◌-◌, ◌*◌, ◌/◌, ◌%◌, ◌^◌, ◌≤◌, ◌<◌, ◌≡◌, arith}
use jelatine.Util.{size_div_inf, size_ceil, size_floor, round_up}

-- The multiple of `y` below `n`.
div_mul_bounds : (n y : ℕ) → 0 < y → (n / y * y ≤ n) × (n < n / y * y + y) × (n / y * y % y ≡ 0)
div_mul_bounds n y h = (div-mul-le_self n y, lt-div-mul-add h, mul-mod_left (n / y) y)

-- For a positive `y`, `size_floor x y` is the largest multiple of `y` that is not above `x`.
size_floor_bounds :
    (x y : ℕ)
    → 0 < y
    → x < 2 ^ 64
    → (size_floor x y ≤ x) × (x < size_floor x y + y) × (size_floor x y % y ≡ 0)
unfolding size_floor
size_floor_bounds x y h k =
    let (lo, hi, m) = div_mul_bounds x y h in
    let e : x / y * y % 2 ^ 64 ≡ x / y * y = mod-eq_of_lt (omega arith) in rw e (lo, hi, m)

-- For a positive `y`, while `x + y` does not wrap, `size_ceil x y` is the smallest multiple of
-- `y` that is not below `x`.
size_ceil_bounds :
    (x y : ℕ)
    → 0 < y
    → x + y < 2 ^ 64
    → (x ≤ size_ceil x y) × (size_ceil x y < x + y) × (size_ceil x y % y ≡ 0)
unfolding size_ceil
size_ceil_bounds x y h k =
    let n : round_up x y ≡ x + y - 1 = omega arith in
    let (lo, hi, m) = div_mul_bounds (x + y - 1) y h in
    let e : (x + y - 1) / y * y % 2 ^ 64 ≡ (x + y - 1) / y * y = mod-eq_of_lt (omega arith) in
    rw (n, e) (omega arith, omega arith, m)

-- For a positive `y`, while `x + y` does not wrap, `size_div_inf x y` is the quotient rounded up.
size_div_inf_bounds :
    (x y : ℕ) → 0 < y → x + y < 2 ^ 64 → (x ≤ size_div_inf x y * y) × (size_div_inf x y * y < x + y)
unfolding size_div_inf
size_div_inf_bounds x y h k =
    let n : round_up x y ≡ x + y - 1 = omega arith in
    let (lo, hi, m) = div_mul_bounds (x + y - 1) y h in rw n (omega arith, omega arith)

-- For a positive `y`, while `x + y` does not wrap: `size_floor x y` is the largest multiple of `y` that
-- is not above `x`, `size_ceil x y` the smallest that is not below it, and `size_div_inf x y` the
-- quotient rounded up.
pub rounding_bounds :
    (x y : ℕ)
    → 0 < y
    → x + y < 2 ^ 64
    → ((size_floor x y ≤ x) × (x < size_floor x y + y) × (size_floor x y % y ≡ 0))
      × ((x ≤ size_ceil x y) × (size_ceil x y < x + y) × (size_ceil x y % y ≡ 0))
      × ((x ≤ size_div_inf x y * y) × (size_div_inf x y * y < x + y))
rounding_bounds x y h k =
    (size_floor_bounds x y h (omega arith), size_ceil_bounds x y h k, size_div_inf_bounds x y h k)
