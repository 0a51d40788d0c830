-- ===== src/Bench/Samples.antt =====
-- What `bench_inode_cache` adds to the shared figures.
use pdistcc.Base.{
  ℕ, zero, suc, ℤ, pos, is_zero, Option, none, some, Bytes, ascii, ◌≡◌, ◌≢◌, refl, ◌⊎◌, inl, inr,
  Bool-cases, arith, subst, List, length, sym,
}
use pdistcc.System.World.{World, Env, M, Ptr}
use pdistcc.System.Processes.{Child}
use pdistcc.InodeCache.Ops.{InodeCache, inode_cache_open, inode_cache_get}
use pdistcc.CompilerProperties.Triplet.{get_gcc_triplet}
use pdistcc.Bench.Clock.{Timespec}
use pdistcc.Bench.Stats.{Floats, bench_stats_reset, bench_stats_merge}
use pdistcc.Bench.Result.{BenchResult, attempt}
use pdistcc.Bench.Loops.{figures, Sampled, IsMeasured, nonzero, measure_loop-IsMeasured}
use pdistcc.Bench.Child.{
  Phase, stopped, measured, gcc_triplet, measure_loop, child_out, child_posted, child_locked,
  child_finished, child_waited, child_cached, child_opened, bench_inode_cache,
}

module _ ⦃floats : Floats⦄ ⦃env : Env⦄ (clock : ℕ → Timespec) (child : Child)
    (compiler triplet : Bytes) (n : ℕ) (ic : InodeCache) (start : World) where
  abbrev cache_query : M (ℤ × Option Ptr)
  cache_query = inode_cache_get ic compiler gcc_triplet (some none)

  abbrev compiler_query : M (ℤ × Option Ptr)
  compiler_query = get_gcc_triplet child compiler (some none)

  -- From the world `start` on, `n` samples have been taken with the cache `ic`, and then `n` without
  -- it. The figures of the former have been merged into `stats`, those of the latter into
  -- `nocache_stats`; the lock is free again unless an error is returned.
  pub record IsMerged (result after : BenchResult) (err : ℤ) : Type 0 where
    pub cached : List ℤ
    pub uncached : List ℤ
    pub between : World
    pub behind : World
    pub cached_count : length cached ≡ n
    pub uncached_count : length uncached ≡ n
    pub cached_samples : Sampled clock cache_query triplet start cached between
    pub uncached_samples : Sampled clock compiler_query triplet between uncached behind
    pub stats : after.stats ≡ bench_stats_merge result.stats (figures cached)
    pub nocache_stats :
        after.nocache_stats ≡ bench_stats_merge result.nocache_stats (figures uncached)
    pub lock : (err ≡ pos 0) × (after.lock ≡ some 1) ⊎ (err ≢ pos 0) × (after.lock ≡ some 0)

  -- Nothing has changed, and an error is returned; or samples have been merged.
  abbrev pub Outcome : BenchResult → ℤ × BenchResult → Type 0
  Outcome result (err, after) = (err ≢ pos 0) × (after ≡ result) ⊎ IsMerged result after err

  module _ (result : BenchResult) where
    out-Outcome :
        (err : ℤ) (value : Ptr) (w : World)
        → err ≢ pos 0
        → Outcome result (child_out err value ic result w).0
    unfolding child_out
    out-Outcome err value w h = inl (h, refl)

    module _ (cached uncached : List ℤ) (between behind : World) (e : length cached ≡ n)
        (f : length uncached ≡ n) (g : Sampled clock cache_query triplet start cached between)
        (h : Sampled clock compiler_query triplet between uncached behind) where
      -- The lock is held, and both figures are merged.
      abbrev merging : BenchResult
      merging = record result {
        lock = some 0;
        stats = bench_stats_merge result.stats (figures cached);
        nocache_stats = bench_stats_merge result.nocache_stats (figures uncached);
      }

      -- How it ends.
      merged :
          (after : BenchResult) (err : ℤ)
          → after.stats ≡ merging.stats
          → after.nocache_stats ≡ merging.nocache_stats
          → (err ≡ pos 0) × (after.lock ≡ some 1) ⊎ (err ≢ pos 0) × (after.lock ≡ some 0)
          → IsMerged result after err
      merged after err i j l = record {
        cached = cached;
        uncached = uncached;
        between = between;
        behind = behind;
        cached_count = e;
        uncached_count = f;
        cached_samples = g;
        uncached_samples = h;
        stats = i;
        nocache_stats = j;
        lock = l;
      }

      posted-Outcome :
          (failure : Option ℕ) (w : World) → Outcome result (child_posted ic merging failure w).0
      unfolding child_posted child_out
      posted-Outcome none w =
          inr (merged (record merging { lock = some 1 }) (pos 0) refl refl (inl (refl, refl)))
      posted-Outcome (some k) w =
          inr (merged merging (pos (suc k)) refl refl (inr (ground arith, refl)))

      locked-Outcome :
          (failure : Option ℕ) (w : World)
          → Outcome result (child_locked ic result (figures cached) (figures uncached) failure w).0
      unfolding child_locked
      locked-Outcome none w = let (o, w') = attempt w in posted-Outcome o w'
      locked-Outcome (some k) w = out-Outcome (pos (suc k)) none w (ground arith)

    module _ (cached : List ℤ) (between : World) (e : length cached ≡ n)
        (g : Sampled clock cache_query triplet start cached between) where
      finished-Outcome :
          (phase : Phase) (w : World)
          → IsMeasured clock compiler_query triplet n bench_stats_reset between (phase, w)
          → Outcome result (child_finished ic result (figures cached) phase w).0
      unfolding child_finished
      finished-Outcome (stopped err value) w h = out-Outcome err value w h
      finished-Outcome (measured st) w (uncached, f, i, h) =
          let (o, w') = attempt w in
          subst (λ x. Outcome result (child_locked ic result (figures cached) x o w').0) (sym i)
            (locked-Outcome cached uncached between w e f g h o w')

      waited-Outcome :
          (barrier_result : ℕ)
          → Outcome result
              (child_waited clock child barrier_result compiler triplet n ic result
                (figures cached)
                barrier_result
                between).0
      unfolding child_waited
      waited-Outcome (suc k) = out-Outcome (pos (suc k)) none between (ground arith)
      waited-Outcome zero =
          let (phase, w') = measure_loop clock compiler_query triplet n bench_stats_reset between in
          finished-Outcome phase w'
            (measure_loop-IsMeasured clock compiler_query triplet n bench_stats_reset between)

    cached-Outcome :
        (barrier_result : ℕ) (phase : Phase) (w : World)
        → IsMeasured clock cache_query triplet n bench_stats_reset start (phase, w)
        → Outcome result
            (child_cached clock child barrier_result compiler triplet n ic result phase w).0
    unfolding child_cached
    cached-Outcome barrier_result (stopped err value) w h = out-Outcome err value w h
    cached-Outcome barrier_result (measured st) w (cached, e, i, g) =
        subst
          (λ x.
            Outcome result
              (child_waited clock child barrier_result compiler triplet n ic result x barrier_result
                w).0)
          (sym i) (waited-Outcome cached w e g barrier_result)

    pub opened-Outcome :
        (barrier_result : ℕ) (err : ℤ)
        → Outcome result
            (child_opened clock child barrier_result compiler triplet n err ic result start).0
    unfolding child_opened
    opened-Outcome barrier_result err = elim (Bool-cases (is_zero err)) [
      | inl e ↦
          let (phase, w') = measure_loop clock cache_query triplet n bench_stats_reset start in
          rw (e, child_opened)
            (cached-Outcome barrier_result phase w'
              (measure_loop-IsMeasured clock cache_query triplet n bench_stats_reset start))
      | inr e ↦ rw (e, child_opened) (out-Outcome err none start (nonzero err e))
    ]

module _ ⦃floats : Floats⦄ ⦃env : Env⦄ (clock : ℕ → Timespec) where
  -- What `inode_cache_open` gives for the name "none" and an open directory.
  abbrev pub opened_cache : ℤ → World → (ℤ × InodeCache) × World
  opened_cache cachedirfd =
      inode_cache_open (record { dir = some (ascii "none"); dirfd = cachedirfd })

  -- Whichever calls fail, whatever the cache holds and the compiler prints, and whatever
  -- `barrier_wait` returns, `bench_inode_cache` returns an error and leaves the shared memory alone;
  -- or it has merged the figures of `repetitions` samples with the cache into `stats`, and of as many
  -- taken after them without it into `nocache_stats`. A sample is the time that passes from the
  -- reading of the clock before a query to the one behind it, and each query has given the triplet.
  -- Then the lock is free if it returns 0, and held if it returns an error.
  pub bench_inode_cache-Outcome :
      (child : Child) (barrier_result : ℕ) (compiler triplet : Bytes) (repetitions : ℕ)
      (cachedirfd : ℤ) (result : BenchResult) (w : World)
      → let r =
          bench_inode_cache clock child barrier_result compiler triplet repetitions cachedirfd
            result w in
        let ((err, ic), start) = opened_cache cachedirfd w in
        Outcome clock child compiler triplet repetitions ic start result r.0
  unfolding bench_inode_cache
  bench_inode_cache-Outcome child barrier_result compiler triplet n cachedirfd result w =
      let ((err, ic), start) = opened_cache cachedirfd w in
      opened-Outcome clock child compiler triplet n ic start result barrier_result err
