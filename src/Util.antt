-- ===== src/Util.antt =====
-- Utility functions: src/jelatine/util.h and src/jelatine/util.c. A `size_t` is a number below 2 ^ 64.
pub mod Rounding
pub mod Clock
pub mod Sort
mod Tests
use jelatine.Common.{ℕ, ◌+◌, ◌-◌, ◌*◌, ◌/◌, ◌%◌, ◌^◌, ltb, if◌then◌else◌}

-- `x + y - 1` in `size_t`
abbrev pub round_up : ℕ → ℕ → ℕ
round_up x y = ((x + y) % 2 ^ 64 + (2 ^ 64 - 1)) % 2 ^ 64

unfoldable pub size_div_inf : ℕ → ℕ → ℕ
size_div_inf x y = round_up x y / y

unfoldable pub size_ceil : ℕ → ℕ → ℕ
size_ceil x y = round_up x y / y * y % 2 ^ 64

unfoldable pub size_floor : ℕ → ℕ → ℕ
size_floor x y = x / y * y % 2 ^ 64

unfoldable pub size_max : ℕ → ℕ → ℕ
size_max x y = if ltb y x then x else y

-- `struct timespec`
pub record Timespec : Type 0 where
  pub tv_sec : ℕ
  pub tv_nsec : ℕ

-- `get_time_with_offset`, where `now` is what the clock returns. The time in seconds is below
-- 2 ^ 63, and what is added to the nanoseconds fits a `long`.
unfoldable pub get_time_with_offset : Timespec → ℕ → ℕ → Timespec
get_time_with_offset now ms nanos =
    let sec = now.tv_sec + ms / 1000 in
    let nsec = now.tv_nsec + (ms % 1000 * 1000000 + nanos) in
    if ltb 1000000000 nsec
    then record { tv_sec = sec + 1; tv_nsec = nsec - 1000000000 }
    else record { tv_sec = sec; tv_nsec = nsec }
