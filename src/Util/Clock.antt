-- ===== src/Util/Clock.antt =====
-- The deadline of a timed wait, `get_time_with_offset`.
use jelatine.Common.{ℕ, ◌+◌, ◌*◌}
use jelatine.Util.{Timespec}

-- A time in nanoseconds.
abbrev pub total : Timespec → ℕ
total t = t.tv_sec * 1000000000 + t.tv_nsec
