-- ===== src/Bench/Result.antt =====
-- c/bench_inodecache.c: the memory that the processes of a benchmark share, `bench_result_map` and
-- `bench_result_unmap`.
use pdistcc.Base.{ℕ, zero, suc, ◌+◌, ℤ, pos, neg, Bool, true, false, Option, none, some}
use pdistcc.System.World.{Env, M, pure, ◌>>=◌, einval}
use pdistcc.Barrier.Init.{Barrier, blank, barrier_init, barrier_close}
use pdistcc.Bench.Stats.{Floats, BenchStats, bench_stats_reset}

-- A call that is tried: `none` if it is carried out, `some e` if it fails with the errno `e + 1`.
unfoldable pub attempt : ⦃env : Env⦄ → M (Option ℕ)
attempt ⦃env⦄ w = elim (env.fault w.tick) [
  | none ↦ (none, record w { tick = w.tick + 1 })
  | some e ↦ (some e, record w { tick = w.tick + 1; errno = suc e })
]

module _ ⦃floats : Floats⦄ where
  -- `struct bench_result`; a semaphore is its value, and `none` while it is not initialised.
  -- `is_mapped` is whether the memory is there.
  pub record BenchResult : Type 0 where
    pub lock : Option ℕ
    pub stats : BenchStats
    pub nocache_stats : BenchStats
    pub second_phase_barrier : Barrier
    pub lock_initialized : Bool
    pub is_mapped : Bool

  -- A `struct bench_result *`: NULL, MAP_FAILED, or what mmap(2) gave.
  pub data MapPtr : Type 0 where
    null map_failed : MapPtr
    mapped : BenchResult → MapPtr

  -- After `memset` and `bench_stats_reset`.
  unfoldable pub cleared : BenchResult
  cleared = record {
    lock = none;
    stats = bench_stats_reset;
    nocache_stats = bench_stats_reset;
    second_phase_barrier = blank 0;
    lock_initialized = false;
    is_mapped = true;
  }

  -- An object behind `bench_result_unmap`, and the errors of sem_destroy and munmap that are printed.
  pub record Unmapped : Type 0 where
    pub object : BenchResult
    pub destroy_error : Option ℕ
    pub munmap_error : Option ℕ

  -- `sem_destroy` has been called; a semaphore is there still if it has failed.
  abbrev pub destroyed : Option ℕ → BenchResult → BenchResult
  destroyed none obj = record obj { lock = none; lock_initialized = false }
  destroyed (some e) obj = record obj { lock_initialized = false }

  -- `munmap` has been called; the memory is there still if it has failed.
  abbrev pub unmapped : Option ℕ → BenchResult → BenchResult
  unmapped none obj = record obj { is_mapped = false }
  unmapped (some e) obj = obj

  module _ ⦃env : Env⦄ where
    -- `if (obj->lock_initialized)` and its block: the error of sem_destroy, and the object
    unfoldable pub release_lock : Bool → BenchResult → M (Option ℕ × BenchResult)
    unfolding attempt
    release_lock false obj = pure (none, obj)
    release_lock true obj = do error ← attempt; pure (error, destroyed error obj)

    -- The locks go, then the memory.
    unfoldable pub unmap_object : BenchResult → M Unmapped
    unfolding release_lock attempt
    unmap_object obj = do
      (destroy_error, unlocked) ← release_lock obj.lock_initialized obj
      let closed = record unlocked {
        second_phase_barrier = barrier_close unlocked.second_phase_barrier;
      }
      munmap_error ← attempt
      pure (record {
        object = unmapped munmap_error closed;
        destroy_error = destroy_error;
        munmap_error = munmap_error;
      })

    unfoldable pub unmap_mapped : BenchResult → M (Option MapPtr × Option Unmapped)
    unfolding unmap_object
    unmap_mapped obj = do left ← unmap_object obj; pure (some null, some left)

    -- `bench_result_unmap`: `*ptrptr` after it, and what has become of the object, if there is one.
    -- The argument is `none` for NULL.
    unfoldable pub bench_result_unmap : Option MapPtr → M (Option MapPtr × Option Unmapped)
    unfolding unmap_mapped
    bench_result_unmap none = pure (none, none)
    bench_result_unmap (some null) = pure (some null, none)
    bench_result_unmap (some map_failed) = pure (some null, none)
    bench_result_unmap (some (mapped obj)) = unmap_mapped obj

    -- `bench_result_map` from the label `out_err` on: its result, `*resultptr` after it, and what has
    -- become of an object that was made.
    unfoldable pub map_out_err :
        ℤ → Option MapPtr → MapPtr → M ((ℤ × Option MapPtr) × Option Unmapped)
    unfolding bench_result_unmap
    map_out_err err resultptr result = do
      (p, left) ← bench_result_unmap (some result)
      pure ((err, resultptr), left)

    -- After the `sem_init` of the lock.
    unfoldable pub map_locked :
        Option ℕ → Option MapPtr → BenchResult → M ((ℤ × Option MapPtr) × Option Unmapped)
    unfolding map_out_err
    map_locked (some e) resultptr result = map_out_err (neg (suc e)) resultptr (mapped result)
    map_locked none resultptr result =
        pure
          ((pos 0, some (mapped (record result { lock = some 1; lock_initialized = true }))), none)

    -- After `barrier_init`.
    unfoldable pub map_barrier :
        ℕ × Barrier → Option MapPtr → BenchResult → M ((ℤ × Option MapPtr) × Option Unmapped)
    unfolding map_locked attempt
    map_barrier (suc e, b) resultptr result =
        map_out_err (pos (suc e)) resultptr (mapped (record result { second_phase_barrier = b }))
    map_barrier (zero, b) resultptr result = do
      failure ← attempt
      map_locked failure resultptr (record result { second_phase_barrier = b })

    -- The second `sem_init` of `barrier_init` is called if the first is carried out.
    unfoldable pub attempt_second : Option ℕ → M (Option ℕ)
    unfolding attempt
    attempt_second none = attempt
    attempt_second (some e) = pure none

    -- After `mmap`.
    unfoldable pub map_made :
        Option ℕ → Option MapPtr → ℕ → M ((ℤ × Option MapPtr) × Option Unmapped)
    unfolding map_barrier attempt_second cleared
    map_made (some e) resultptr nproc = map_out_err (neg (suc e)) resultptr map_failed
    map_made none resultptr nproc = do
      first ← attempt
      second ← attempt_second first
      map_barrier (barrier_init first second nproc) resultptr cleared

    -- `bench_result_map`; the argument is `none` for NULL.
    unfoldable pub bench_result_map : Option MapPtr → ℕ → M ((ℤ × Option MapPtr) × Option Unmapped)
    unfolding map_made
    bench_result_map none nproc = map_out_err (neg einval) none map_failed
    bench_result_map (some map_failed) nproc = map_out_err (neg einval) (some map_failed) map_failed
    bench_result_map (some (mapped obj)) nproc =
        map_out_err (neg einval) (some (mapped obj)) map_failed
    bench_result_map (some null) nproc = do failure ← attempt; map_made failure (some null) nproc
