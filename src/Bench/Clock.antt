-- ===== src/Bench/Clock.antt =====
-- c/bench_inodecache.c: `timespec_delta_usec`.
use pdistcc.Base.{ℕ, ℤ, pos, add_ℤ, sub_ℤ, scale_ℤ, quot_ℤ}

-- `struct timespec`
pub record Timespec : Type 0 where
  pub tv_sec : ℤ
  pub tv_nsec : ℤ

-- `timespec_delta_usec`; the differences are taken to fit their types.
unfoldable pub timespec_delta_usec : Timespec → Timespec → ℤ
timespec_delta_usec start end =
    add_ℤ (scale_ℤ 1000000 (sub_ℤ end.tv_sec start.tv_sec))
      (quot_ℤ (sub_ℤ end.tv_nsec start.tv_nsec) 1000)

-- A time that the monotonic clock shows: seconds and nanoseconds.
abbrev pub at_time : ℕ → ℕ → Timespec
at_time s n = record { tv_sec = pos s; tv_nsec = pos n }
