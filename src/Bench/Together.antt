-- ===== src/Bench/Together.antt =====
-- The parent of a benchmark and its children together.
use pdistcc.Base.{ℕ, suc, ◌%◌, ◌<◌, ℤ, pos, negsuc, Bytes, length, ◌≡◌, inl, inr, ap, subst, arith}
use pdistcc.System.World.{World, Env, IsQuiet, Handle, Stat}
use pdistcc.System.Processes.{Child, Status, exited}
use pdistcc.InodeCache.Ops.{ino_cache_entry_max_size, InodeCache}
use pdistcc.InodeCache.RoundTrip.Put.{IsReady, IsFree}
use pdistcc.Bench.Clock.{Timespec}
use pdistcc.Bench.Stats.{Floats}
use pdistcc.Bench.Result.{BenchResult}
use pdistcc.Bench.Child.{gcc_triplet, bench_inode_cache, exit_status}
use pdistcc.Bench.Samples.{IsMerged, Outcome, opened_cache, bench_inode_cache-Outcome}
use pdistcc.Bench.Run.{run_bench}
use pdistcc.Bench.Count.{run_bench_zero}

-- A result that its exit status tells from 0.
abbrev pub IsByte : ℤ → Type 0
IsByte (pos n) = n < 256
IsByte (negsuc n) = suc n < 256

exited_number : Status → ℕ
exited_number (exited n) = n
exited_number _ = 1

exit_status_zero : (err : ℤ) → IsByte err → exit_status err ≡ exited 0 → err ≡ pos 0
unfolding exit_status exited_number
exit_status_zero (pos n) h e =
    let z : n % 256 ≡ 0 = ap exited_number e in ap pos (omega (arith, h, z))
exit_status_zero (negsuc n) h e =
    let z : suc n % 256 ≡ 0 = ap exited_number e in absurd (omega (arith, h, z))

-- A child: its own world and environment, the shared memory as it finds it, and what `barrier_wait`
-- returns to it.
pub record Process ⦃floats : Floats⦄ : Type 0 where
  pub env : Env
  pub world : World
  pub memory : BenchResult
  pub barrier_result : ℕ
  pub child : Child

module _ ⦃floats : Floats⦄ (clock : ℕ → Timespec) (compiler triplet : Bytes) (repetitions : ℕ)
    (cachedirfd : ℤ) where
  -- What `bench_inode_cache` gives in a child.
  abbrev pub child_result : Process → ℤ × BenchResult
  child_result p =
      (bench_inode_cache ⦃env = p.env⦄ clock p.child p.barrier_result compiler triplet repetitions
        cachedirfd p.memory p.world).0

  -- How the children end.
  abbrev pub child_ends : (ℕ → Process) → ℕ → Status
  child_ends processes j = exit_status (child_result (processes j)).0

  -- The samples of a child have been merged, and the lock is free again.
  abbrev pub HasMerged : Process → Type 0
  HasMerged p =
      let ((err, ic), start) = opened_cache ⦃env = p.env⦄ clock cachedirfd p.world in
      IsMerged ⦃env = p.env⦄ clock p.child compiler triplet repetitions ic start p.memory
        (child_result p).1 (pos 0)

  merged : (p : Process) → (child_result p).0 ≡ pos 0 → HasMerged p
  merged p e =
      let ((err, ic), start) = opened_cache ⦃env = p.env⦄ clock cachedirfd p.world in
      zero_merged
        (bench_inode_cache-Outcome ⦃env = p.env⦄ clock p.child p.barrier_result compiler triplet
          repetitions cachedirfd p.memory p.world)
        e
    where
      zero_merged :
          {ic : InodeCache} {start : World} {r : ℤ × BenchResult}
          → Outcome ⦃env = p.env⦄ clock p.child compiler triplet repetitions ic start p.memory r
          → r.0 ≡ pos 0
          → IsMerged ⦃env = p.env⦄ clock p.child compiler triplet repetitions ic start p.memory r.1
              (pos 0)
      zero_merged (inl (ne, same)) e = absurd (ne e)
      zero_merged {ic} {start} {r} (inr m) e =
          subst
            (IsMerged ⦃env = p.env⦄ clock p.child compiler triplet repetitions ic start p.memory
              r.1)
            e m

module _ ⦃floats : Floats⦄ ⦃env : Env⦄ (quiet : IsQuiet env)
    (sixteen : (x : Bytes) → length (env.md5 x) ≡ 16) (d : ℕ) (hd : Handle) (compiler : Bytes)
    (st : Stat) (nproc : ℕ) (triplet : Bytes) (clock : ℕ → Timespec) (repetitions : ℕ)
    (processes : ℕ → Process) where
  -- If `run_bench` returns 0 and no call of the parent has failed, each of its `nproc` children has
  -- measured all its repetitions with the cache and then all without it, has merged the figures of the
  -- former into `stats` and of the latter into `nocache_stats` of the shared memory as it found it, and
  -- has given back the lock, whatever calls failed there. The results of the children fit into a
  -- byte; the cache's directory is open, the compiler has an inode, the triplet has at most 511
  -- characters, a digest has 16 bytes, and no directory has the name of the entry or of its lock.
  pub run_bench-IsMerged :
      (w : World)
      → IsReady d hd compiler st w
      → IsFree hd st gcc_triplet w
      → length triplet < ino_cache_entry_max_size
      → ((j : ℕ) → IsByte (child_result clock compiler triplet repetitions (pos d) (processes j)).0)
      → (run_bench
          (child_ends clock compiler triplet repetitions (pos d) processes)
          nproc
          compiler
          triplet
          (pos d)
          w).0.0
        ≡ 0
      → (j : ℕ) → j < nproc
      → HasMerged clock compiler triplet repetitions (pos d) (processes j)
  run_bench-IsMerged w ready unused short small z j h =
      let (all_exit, back) =
        run_bench_zero quiet sixteen d hd compiler st _ nproc triplet w ready unused short in
      merged clock compiler triplet repetitions (pos d) (processes j)
        (exit_status_zero _ (small j) (all_exit z j h))
