-- ===== src/Bench/Count.antt =====
-- What `run_bench` returns when no call of the system fails.
use pdistcc.Base.{
  ℕ, zero, suc, ◌+◌, ◌<◌, pos, [], ◌∷◌, none, some, Bytes, length, replicate, ◌≡◌, ◌↔◌, refl, ◌∙◌,
  ap, sym, subst, arith, true,
}
use native.Mathlib.Nat.{add-zero}
use pdistcc.System.World.{World, Env, IsQuiet, Handle, Stat, Ptr, call_done}
use pdistcc.System.Processes.{Status, exited, signaled, other, fork, waitpid}
use pdistcc.InodeCache.Ops.{ino_cache_entry_max_size, inode_cache_open}
use pdistcc.InodeCache.RoundTrip.Put.{IsReady, IsFree, inode_cache_put-IsPut}
use pdistcc.Bench.Stats.{Floats}
use pdistcc.Bench.Result.{
  BenchResult, MapPtr, null, mapped, attempt, attempt_second, map_barrier, map_locked, map_made,
  bench_result_map, cleared,
}
use pdistcc.Barrier.Init.{barrier_init}
use pdistcc.Bench.Child.{gcc_triplet}
use pdistcc.Bench.Run.{
  child_failure, cache_of, calloc, fork_children, wait_child, wait_children, run_out, run_stored,
  run_opened, run_mapped, run_allocated, run_bench,
}

-- How many of `n` children, from `i` on, add to the result.
failures : (ℕ → Status) → ℕ → ℕ → ℕ
failures ends i zero = 0
failures ends i (suc n) = child_failure (some (ends i)) + failures ends (suc i) n

-- All of them exit with 0.
abbrev AllExit : (ℕ → Status) → ℕ → ℕ → Type 0
AllExit ends i zero = Unit
AllExit ends i (suc n) = (ends i ≡ exited 0) × AllExit ends (suc i) n

child_failure_zero : (s : Status) → child_failure (some s) ≡ 0 → s ≡ exited 0
unfolding child_failure
child_failure_zero (exited zero) e = refl
child_failure_zero (exited (suc k)) e = absurd (omega (arith, e))
child_failure_zero (signaled k) e = absurd (omega (arith, e))
child_failure_zero other e = absurd (omega (arith, e))

failures_zero : (ends : ℕ → Status) (i n : ℕ) → failures ends i n ≡ 0 → AllExit ends i n
unfolding failures
failures_zero ends i zero e = tt
failures_zero ends i (suc n) e = (
  child_failure_zero (ends i) (omega (arith, e)),
  failures_zero ends (suc i) n (omega (arith, e)),
)

zero_failures : (ends : ℕ → Status) (i n : ℕ) → AllExit ends i n → failures ends i n ≡ 0
unfolding failures child_failure
zero_failures ends i zero a = refl
zero_failures ends i (suc n) (e, a) = rw e (omega (arith, zero_failures ends (suc i) n a))

AllExit-to : (ends : ℕ → Status) (i n j : ℕ) → AllExit ends i n → j < n → ends (i + j) ≡ exited 0
AllExit-to ends i zero j a h = absurd (omega arith)
AllExit-to ends i (suc n) zero (e, a) h = rw add-zero e
AllExit-to ends i (suc n) (suc j) (e, a) h =
    subst (λ k. ends k ≡ exited 0) (omega arith) (AllExit-to ends (suc i) n j a (omega arith))

to-AllExit :
    (ends : ℕ → Status) (i n : ℕ) → ((j : ℕ) → j < n → ends (i + j) ≡ exited 0) → AllExit ends i n
to-AllExit ends i zero h = tt
to-AllExit ends i (suc n) h = (
  subst (λ k. ends k ≡ exited 0) (omega arith) (h 0 (omega arith)),
  to-AllExit ends (suc i) n
      (λ j l. subst (λ k. ends k ≡ exited 0) (omega arith) (h (suc j) (omega arith))),
)

module _ ⦃env : Env⦄ (quiet : IsQuiet env) where
  fork_children_quiet : (n : ℕ) (w : World) → (fork_children n w).0 ≡ replicate n (pos 1)
  unfolding fork_children fork
  fork_children_quiet zero w = refl
  fork_children_quiet (suc n) w =
      rw (call_done, quiet w.tick) (ap (λ l. pos 1 ∷ l) (fork_children_quiet n _))

  wait_child_quiet :
      (ends : ℕ → Status) (i : ℕ) (w : World)
      → wait_child ends i (pos 1) w
        ≡ (child_failure (some (ends i)), record w { tick = w.tick + 1 })
  unfolding wait_child waitpid
  wait_child_quiet ends i w = rw (call_done, quiet w.tick) refl

  wait_children_quiet :
      (ends : ℕ → Status) (i n ret : ℕ) (w : World)
      → (wait_children ends i (replicate n (pos 1)) ret w).0 ≡ ret + failures ends i n
  unfolding wait_children failures
  wait_children_quiet ends i zero ret w = omega arith
  wait_children_quiet ends i (suc n) ret w =
      ap (λ r. (wait_children ends (suc i) (replicate n (pos 1)) (ret + r.0) r.1).0)
        (wait_child_quiet ends i w)
      ∙ wait_children_quiet ends (suc i) n (ret + child_failure (some (ends i))) _
      ∙ omega arith

  attempt_quiet : (w : World) → attempt w ≡ (none, record w { tick = w.tick + 1 })
  unfolding attempt
  attempt_quiet w = rw (quiet w.tick, attempt) refl

module _ ⦃floats : Floats⦄ ⦃env : Env⦄ (quiet : IsQuiet env) (nproc : ℕ) where
  abbrev prepared : BenchResult
  prepared = record cleared {
    second_phase_barrier = (barrier_init none none nproc).1;
    lock = some 1;
    lock_initialized = true;
  }

  bench_result_map_quiet :
      (w : World)
      → bench_result_map (some null) nproc w
        ≡ (((pos 0, some (mapped prepared)), none), record w { tick = w.tick + 1 + 1 + 1 + 1 })
  unfolding bench_result_map map_made attempt_second map_barrier map_locked barrier_init
  bench_result_map_quiet w =
      let once = attempt_quiet quiet in rw once (rw once (rw once (rw once refl)))

module _ ⦃floats : Floats⦄ ⦃env : Env⦄ (quiet : IsQuiet env)
    (sixteen : (x : Bytes) → length (env.md5 x) ≡ 16) (d : ℕ) (hd : Handle) (compiler : Bytes)
    (st : Stat) (ends : ℕ → Status) (nproc : ℕ) (triplet : Bytes) where
  -- From `inode_cache_put` on.
  run_opened-failures :
      (children : Ptr) (result : MapPtr) (w : World)
      → IsReady d hd compiler st w
      → IsFree hd st gcc_triplet w
      → length triplet < ino_cache_entry_max_size
      → (run_opened ends nproc compiler triplet (pos 0) children result (cache_of (pos d)) w).0.0
        ≡ failures ends 0 nproc
  unfolding run_opened run_stored run_out
  run_opened-failures children result w ready unused short =
      let p =
        inode_cache_put-IsPut quiet sixteen none d hd compiler st gcc_triplet triplet w ready unused
          short in
      rw p.succeeds (
        rw (fork_children_quiet quiet nproc)
          (wait_children_quiet quiet ends 0 nproc 0 _ ∙ omega arith))

  run_bench-failures :
      (w : World)
      → IsReady d hd compiler st w
      → IsFree hd st gcc_triplet w
      → length triplet < ino_cache_entry_max_size
      → (run_bench ends nproc compiler triplet (pos d) w).0.0 ≡ failures ends 0 nproc
  unfolding run_bench calloc run_allocated run_mapped inode_cache_open
  run_bench-failures w ready unused short =
      rw (call_done, quiet w.tick)
        (rw (bench_result_map_quiet quiet nproc) (
          run_opened-failures (some (record { block = w.next_block; text = [] }))
            (mapped (prepared quiet nproc)) _
            (record {
              dir_open = ready.dir_open;
              old_fd = ready.old_fd;
              file_stat = ready.file_stat;
            })
            (record { entry_free = unused.entry_free; lock_free = unused.lock_free }) short))

  -- If no call of the parent fails, `run_bench` returns 0 exactly if all its `nproc` children exit
  -- with 0. The cache's directory is open, the compiler has an inode, the triplet has at most 511
  -- characters, a digest has 16 bytes, and no directory has the name of the entry or of its lock.
  pub run_bench_zero :
      (w : World)
      → IsReady d hd compiler st w
      → IsFree hd st gcc_triplet w
      → length triplet < ino_cache_entry_max_size
      → ((run_bench ends nproc compiler triplet (pos d) w).0.0 ≡ 0)
        ↔ ((j : ℕ) → j < nproc → ends j ≡ exited 0)
  run_bench_zero w ready unused short =
      let e = run_bench-failures w ready unused short in
      (
        λ z j h.
            subst (λ k. ends k ≡ exited 0) (omega arith)
              (AllExit-to ends 0 nproc j (failures_zero ends 0 nproc (sym e ∙ z)) h),
        λ h.
            e
            ∙ zero_failures ends 0 nproc (
                to-AllExit ends 0 nproc
                  λ j l. subst (λ k. ends k ≡ exited 0) (omega arith) (h j l)),
      )
