-- ===== src/Util/Tests.antt =====
-- The utility functions at concrete inputs.
use jelatine.Common.{◌≡◌, refl}
use jelatine.Util.{Timespec, get_time_with_offset}

-- half a second past a second
abbrev half_past : Timespec
half_past = record { tv_sec = 1; tv_nsec = 500000000 }

-- Half a second later the nanoseconds are a whole second.
not_normal : get_time_with_offset half_past 500 0 ≡ record { tv_sec = 1; tv_nsec = 1000000000 }
unfolding get_time_with_offset
not_normal = refl
