-- ===== src/Bench/Child.antt =====
-- c/bench_inodecache.c: `bench_inode_cache`, which each process of a benchmark runs. The clock, the
-- compiler's behaviour and what `barrier_wait` returns are parameters.
use pdistcc.Base.{
  ℕ, zero, suc, ◌%◌, ℤ, pos, negsuc, neg, is_zero, Bool, true, false, Option, none, some, Bytes,
  ascii, bytes_eq,
}
use pdistcc.System.World.{
  Env, M, Ptr, pure, ◌>>=◌, ◌>>◌, call, get_errno, note_misuse, text_of, einval,
}
use pdistcc.System.Memory.{free}
use pdistcc.System.Processes.{Child, Status, exited}
use pdistcc.InodeCache.Ops.{InodeCache, inode_cache_open, inode_cache_close, inode_cache_get}
use pdistcc.CompilerProperties.Triplet.{get_gcc_triplet}
use pdistcc.Bench.Clock.{Timespec, timespec_delta_usec}
use pdistcc.Bench.Stats.{
  Floats, BenchStats, bench_stats_reset, bench_stats_update, bench_stats_finalize,
  bench_stats_merge,
}
use pdistcc.Bench.Result.{BenchResult, attempt}

-- `GCC_TRIPLET`
abbrev pub gcc_triplet : ℕ
gcc_triplet = 1

-- How a run over the repetitions ends: with `goto out`, a result and what `value` is, or with the
-- figures.
pub data Phase ⦃floats : Floats⦄ : Type 0 where
  stopped : ℤ → Ptr → Phase
  measured : BenchStats → Phase

-- `*value` after a call; it is not NULL.
abbrev pub value_of : Option Ptr → Ptr
value_of none = none
value_of (some p) = p

abbrev pub is_null : Ptr → Bool
is_null none = true
is_null (some s) = false

module _ ⦃floats : Floats⦄ ⦃env : Env⦄ where
  -- `bench_inode_cache` from the label `out` on.
  unfoldable pub child_out : ℤ → Ptr → InodeCache → BenchResult → M (ℤ × BenchResult)
  child_out err value ic result = do free value; inode_cache_close ic; pure (err, result)

  -- After the `sem_post` of the lock.
  unfoldable pub child_posted : InodeCache → BenchResult → Option ℕ → M (ℤ × BenchResult)
  unfolding child_out
  child_posted ic result (some e) = child_out (pos (suc e)) none ic result
  child_posted ic result none = child_out (pos 0) none ic (record result { lock = some 1 })

  -- After the `sem_wait` of the lock, which returns when the lock is free.
  unfoldable pub child_locked :
      InodeCache → BenchResult → BenchStats → BenchStats → Option ℕ → M (ℤ × BenchResult)
  unfolding child_posted attempt
  child_locked ic result bstat nocache_stats (some e) = child_out (pos (suc e)) none ic result
  child_locked ic result bstat nocache_stats none = do
    failure ← attempt
    child_posted ic
        (record result {
          lock = some 0;
          stats = bench_stats_merge result.stats bstat;
          nocache_stats = bench_stats_merge result.nocache_stats nocache_stats;
        })
        failure

  -- After the second loop.
  unfoldable pub child_finished :
      InodeCache → BenchResult → BenchStats → Phase → M (ℤ × BenchResult)
  unfolding child_locked
  child_finished ic result bstat (stopped err value) = child_out err value ic result
  child_finished ic result bstat (measured nocache_stats) = do
    failure ← attempt
    child_locked ic result bstat nocache_stats failure

module _ ⦃floats : Floats⦄ ⦃env : Env⦄ (clock : ℕ → Timespec) where
  -- `clock_gettime(CLOCK_MONOTONIC, &t)`
  unfoldable pub clock_gettime : M (Option Timespec)
  clock_gettime = call none (λ w. (some (clock w.tick), w))

  module _ (query : M (ℤ × Option Ptr)) (triplet : Bytes) where
    -- After the second `clock_gettime`; `rest` goes on with the loop.
    unfoldable pub measure_compared :
        (BenchStats → M Phase) → BenchStats → Timespec → Ptr → Option Timespec → M Phase
    measure_compared rest st start value none = do e ← get_errno; pure (stopped (neg e) value)
    measure_compared rest st start value (some end) = do
      note_misuse (is_null value)
      elim (bytes_eq (text_of value) triplet) [
        | false ↦ pure (stopped (neg einval) value)
        | true ↦ do free value; rest (bench_stats_update st (timespec_delta_usec start end))
      ]

    -- After the call that is measured.
    unfoldable pub measure_queried :
        (BenchStats → M Phase) → BenchStats → Timespec → ℤ × Option Ptr → M Phase
    unfolding measure_compared clock_gettime
    measure_queried rest st start (err, value) = elim (is_zero err) [
      | false ↦ pure (stopped err (value_of value))
      | true ↦ do end ← clock_gettime; measure_compared rest st start (value_of value) end
    ]

    -- After the first `clock_gettime`.
    unfoldable pub measure_started : (BenchStats → M Phase) → BenchStats → Option Timespec → M Phase
    unfolding measure_queried
    measure_started rest st none = do e ← get_errno; pure (stopped (neg e) none)
    measure_started rest st (some start) = do r ← query; measure_queried rest st start r

    -- The loop over the repetitions that are left, and `bench_stats_finalize`.
    unfoldable pub measure_loop : ℕ → BenchStats → M Phase
    unfolding measure_started
    measure_loop zero st = pure (measured (bench_stats_finalize st))
    measure_loop (suc n) st = do start ← clock_gettime; measure_started (measure_loop n) st start

  module _ (child : Child) (barrier_result : ℕ) (compiler triplet : Bytes) (repetitions : ℕ) where
    -- After `barrier_wait`.
    unfoldable pub child_waited : InodeCache → BenchResult → BenchStats → ℕ → M (ℤ × BenchResult)
    unfolding child_finished measure_loop
    child_waited ic result bstat (suc e) = child_out (pos (suc e)) none ic result
    child_waited ic result bstat zero = do
      phase ←
          measure_loop (get_gcc_triplet child compiler (some none)) triplet repetitions
            bench_stats_reset
      child_finished ic result bstat phase

    -- After the first loop.
    unfoldable pub child_cached : InodeCache → BenchResult → Phase → M (ℤ × BenchResult)
    unfolding child_waited
    child_cached ic result (stopped err value) = child_out err value ic result
    child_cached ic result (measured bstat) = child_waited ic result bstat barrier_result

    -- After `inode_cache_open`.
    unfoldable pub child_opened : ℤ → InodeCache → BenchResult → M (ℤ × BenchResult)
    unfolding child_cached
    child_opened err ic result = elim (is_zero err) [
      | false ↦ child_out err none ic result
      | true ↦ do
        phase ←
            measure_loop (inode_cache_get ic compiler gcc_triplet (some none)) triplet repetitions
              bench_stats_reset
        child_cached ic result phase
    ]

    -- `bench_inode_cache`: its result, and the shared memory after it.
    unfoldable pub bench_inode_cache : ℤ → BenchResult → M (ℤ × BenchResult)
    unfolding child_opened
    bench_inode_cache cachedirfd result = do
      (err, ic) ← inode_cache_open (record { dir = some (ascii "none"); dirfd = cachedirfd })
      child_opened err ic result

-- The status that the parent sees of a child: `exit(err < 0 ? -err : err)`.
unfoldable pub exit_status : ℤ → Status
exit_status (pos n) = exited (n % 256)
exit_status (negsuc n) = exited (suc n % 256)
