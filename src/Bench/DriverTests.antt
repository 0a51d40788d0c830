-- ===== src/Bench/DriverTests.antt =====
-- The theorems about the benchmark at concrete inputs.
use pdistcc.Base.{
  ℕ, ◌<◌, ◌↔◌, ℤ, pos, none, some, [], ◌∷◌, ◌++◌, ◌≡◌, refl, Bytes, ascii, arith, ◌==◌,
  if◌then◌else◌, ◌⊎◌, sub_ℕ, bytes_eq, path_eq, c_string, ap,
}
use pdistcc.System.Processes.{
  Child, Status, exited, signaled, pipe, fork, fdopen, getline, cut_line, fclose, waitpid,
}
use pdistcc.System.Resources.{numbers}
use pdistcc.System.Holding.{IsOrdered}
use pdistcc.System.Examples.{quiet, flaky, at_boot}
use pdistcc.InodeCache.Tests.{
  at_start, cache_handle, gcc_stat, at_start-IsOrdered, at_start-IsReady, at_start-IsFree,
}
use pdistcc.Bench.Tests.{whole}
use pdistcc.Bench.Clock.{at_time, Timespec}
use pdistcc.Bench.Result.{null, bench_result_map, attempt}
use pdistcc.Bench.Mapping.{IsMade, IsRefused, bench_result_map-IsMade}
use pdistcc.Bench.Result.{BenchResult, cleared}
use pdistcc.Bench.Child.{bench_inode_cache, clock_gettime, exit_status}
use pdistcc.Bench.Samples.{Outcome, opened_cache, bench_inode_cache-Outcome}
use pdistcc.Bench.Run.{run_bench, calloc}
use pdistcc.Bench.Clean.{IsClean, run_bench-IsClean}
use pdistcc.Bench.Count.{run_bench_zero}
use pdistcc.Bench.Main.{opt_n, opt_c, main}
use pdistcc.Bench.Whole.{Leaks, main-Leaks}
use pdistcc.Bench.Together.{
  Process, child_result, child_ends, run_bench-IsMerged, IsByte, HasMerged,
}
use pdistcc.System.World.{World, call, note_misuse}
use pdistcc.InodeCache.Ops.{inode_cache_put, inode_cache_open, inode_cache_get, inode_cache_close}
use pdistcc.InodeCache.RoundTrip.Put.{open_cache}
use pdistcc.InodeCache.Key.{hash_inode}
use pdistcc.System.Files.{
  stat, openat, base_of, walk, flock, set_fd, put_node, lookup_fd, remove_fd, close, read, write,
  fsync, open_path, mkdirat,
}
use pdistcc.System.Memory.{asprintf, free, strdup, has_block, remove_block}
use pdistcc.InodeCache.Lock.{inode_cache_lock, lock_name, inode_cache_unlock}
use pdistcc.Md5.{md5_digest}
use pdistcc.InodeCache.Entry.{read_entry, write_entry}
use pdistcc.CompilerProperties.Triplet.{get_gcc_triplet, first_line}
use pdistcc.MkdirP.Ops.{mkdir_p}
use pdistcc.Barrier.Init.{barrier_init}

bench_result_map-IsMade_example :
    let r = (bench_result_map ⦃floats = whole⦄ ⦃env = flaky⦄ (some null) 4 at_start).0 in
    IsMade ⦃floats = whole⦄ ⦃env = flaky⦄ 4 r
    ⊎ IsRefused ⦃floats = whole⦄ ⦃env = flaky⦄ (some null) r
bench_result_map-IsMade_example = bench_result_map-IsMade ⦃floats = whole⦄ ⦃env = flaky⦄ 4 at_start

-- A compiler that prints its triplet.
abbrev gcc : Child
gcc = record { output = ascii "x86_64-linux-gnu" ++ 10 ∷ []; status = exited 0 }

abbrev shared_memory : BenchResult ⦃floats = whole⦄
shared_memory = record (cleared ⦃floats = whole⦄) { lock = some 1 }

bench_inode_cache-Outcome_example :
    let r =
      bench_inode_cache ⦃floats = whole⦄ ⦃env = quiet⦄
        (λ t. at_time t 0)
        gcc
        0
        (ascii "gcc")
        (ascii "x86_64-linux-gnu")
        2
        (pos 3)
        shared_memory
        at_start in
    let ((err, ic), start) =
      opened_cache ⦃floats = whole⦄ ⦃env = quiet⦄ (λ t. at_time t 0) (pos 3) at_start in
    Outcome ⦃floats = whole⦄ ⦃env = quiet⦄
      (λ t. at_time t 0)
      gcc
      (ascii "gcc")
      (ascii "x86_64-linux-gnu")
      2
      ic
      start
      shared_memory
      r.0
bench_inode_cache-Outcome_example =
    bench_inode_cache-Outcome ⦃floats = whole⦄ ⦃env = quiet⦄ (λ t. at_time t 0) gcc 0 (ascii "gcc")
      (ascii "x86_64-linux-gnu") 2 (pos 3) shared_memory at_start

-- The second child is killed.
abbrev some_ends : ℕ → Status
some_ends i = if i == 1 then signaled 9 else exited 0

run_bench-IsClean_example :
    IsClean ⦃floats = whole⦄ ⦃env = flaky⦄ (numbers at_start.fds) at_start.blocks 2 (pos 3) (
      run_bench ⦃floats = whole⦄ ⦃env = flaky⦄ some_ends 2
        (ascii "gcc")
        (ascii "x86_64-linux-gnu")
        (pos 3)
        at_start)
run_bench-IsClean_example =
    run_bench-IsClean ⦃floats = whole⦄ ⦃env = flaky⦄ some_ends 2 (ascii "gcc")
      (ascii "x86_64-linux-gnu") (pos 3) at_start at_start-IsOrdered

run_bench_zero_example :
    let r =
      run_bench ⦃floats = whole⦄ ⦃env = quiet⦄ some_ends 2
        (ascii "gcc")
        (ascii "x86_64-linux-gnu")
        (pos 3)
        at_start in
    (r.0.0 ≡ 0) ↔ ((j : ℕ) → j < 2 → some_ends j ≡ exited 0)
run_bench_zero_example =
    run_bench_zero ⦃floats = whole⦄ ⦃env = quiet⦄ (λ t. refl) (λ x. refl) 3 cache_handle
      (ascii "gcc") gcc_stat some_ends 2 (ascii "x86_64-linux-gnu") at_start at_start-IsReady
      at_start-IsFree (omega arith)

abbrev one_digit : Bytes → ℤ
one_digit [] = pos 0
one_digit (x ∷ l) = sub_ℕ x 48

at_boot-IsOrdered : IsOrdered at_boot
at_boot-IsOrdered = (tt, tt)

main-Leaks_example :
    Leaks
      (numbers at_boot.fds)
      (main ⦃floats = whole⦄ ⦃env = flaky⦄ one_digit
        (pos 4)
        none
        gcc
        (λ n. some_ends)
        (opt_n (ascii "7") ∷ opt_c (ascii "/srv/cache") ∷ [])
        (ascii "gcc" ∷ [])
        at_boot).1
main-Leaks_example =
    main-Leaks ⦃floats = whole⦄ ⦃env = flaky⦄ one_digit (pos 4) none gcc (λ n. some_ends)
      (opt_n (ascii "7") ∷ opt_c (ascii "/srv/cache") ∷ []) (ascii "gcc" ∷ []) at_boot
      at_boot-IsOrdered

-- The world of a child, after the parent's put.
abbrev after_put : World
after_put =
    (inode_cache_put ⦃env = quiet⦄ (some (open_cache none 3)) (some (ascii "gcc")) 1
      (some (ascii "x86_64-linux-gnu")) at_start).1

abbrev a_process : Process ⦃floats = whole⦄
a_process = record {
  env = quiet;
  world = after_put;
  memory = shared_memory;
  barrier_result = 0;
  child = gcc;
}

abbrev ticking : ℕ → Timespec
ticking t = at_time t 0

abbrev a_result : ℤ × BenchResult ⦃floats = whole⦄
a_result =
    child_result ⦃floats = whole⦄ ticking (ascii "gcc") (ascii "x86_64-linux-gnu") 1 (pos 3)
      a_process

a_result_zero : a_result.0 ≡ pos 0
unfolding bench_inode_cache inode_cache_put inode_cache_open inode_cache_get hash_inode call stat
    bytes_eq asprintf inode_cache_lock openat base_of walk md5_digest path_eq flock free set_fd
    put_node lookup_fd remove_fd close read write fsync read_entry write_entry note_misuse strdup
    has_block remove_block c_string get_gcc_triplet pipe fork fdopen getline cut_line fclose waitpid
    first_line clock_gettime attempt lock_name inode_cache_unlock
a_result_zero = refl

abbrev two_ends : ℕ → Status
two_ends =
    child_ends ⦃floats = whole⦄ ticking (ascii "gcc") (ascii "x86_64-linux-gnu") 1 (pos 3)
      (λ j. a_process)

two_ends_zero : (j : ℕ) → j < 2 → two_ends j ≡ exited 0
unfolding exit_status
two_ends_zero j h = ap exit_status a_result_zero

two_children :
    (run_bench ⦃floats = whole⦄ ⦃env = quiet⦄ two_ends 2
      (ascii "gcc")
      (ascii "x86_64-linux-gnu")
      (pos 3)
      at_start).0.0
    ≡ 0
two_children =
    (run_bench_zero ⦃floats = whole⦄ ⦃env = quiet⦄ (λ t. refl) (λ x. refl) 3 cache_handle
        (ascii "gcc") gcc_stat two_ends 2 (ascii "x86_64-linux-gnu") at_start at_start-IsReady
        at_start-IsFree (omega arith)).1
      two_ends_zero

a_result-IsByte : IsByte a_result.0
a_result-IsByte = rw a_result_zero (omega arith)

run_bench-IsMerged_example :
    HasMerged ⦃floats = whole⦄ ticking (ascii "gcc") (ascii "x86_64-linux-gnu") 1 (pos 3) a_process
run_bench-IsMerged_example =
    run_bench-IsMerged ⦃floats = whole⦄ ⦃env = quiet⦄ (λ t. refl) (λ x. refl) 3 cache_handle
      (ascii "gcc") gcc_stat 2 (ascii "x86_64-linux-gnu") ticking 1 (λ j. a_process) at_start
      at_start-IsReady at_start-IsFree (omega arith) (λ j. a_result-IsByte) two_children 1
      (omega arith)

-- `gcc` is no file here, so the put fails: nothing is measured, the result is 0, and the descriptor
-- of the cache's directory is closed twice.
abbrev unmeasured : ℕ × World
unmeasured =
    main ⦃floats = whole⦄ ⦃env = quiet⦄ one_digit (pos 2) none gcc (λ n. some_ends)
      (opt_c (ascii "/srv") ∷ []) (ascii "gcc" ∷ []) at_boot

unmeasured_zero : (unmeasured.0 ≡ 0) × (unmeasured.1.misuse ≡ 1)
unfolding main strdup call mkdir_p open_path path_eq bytes_eq mkdirat base_of walk openat
    get_gcc_triplet pipe asprintf fork fdopen getline cut_line waitpid first_line fclose close free
    has_block remove_block put_node lookup_fd remove_fd inode_cache_put inode_cache_open
    inode_cache_close hash_inode stat inode_cache_unlock barrier_init calloc attempt note_misuse
unmeasured_zero = (refl, refl)

-- A compiler that prints a line and fails: the line is freed twice.
abbrev failing_gcc : Child
failing_gcc = record { output = ascii "error" ++ 10 ∷ []; status = exited 1 }

abbrev no_triplet : ℕ × World
no_triplet =
    main ⦃floats = whole⦄ ⦃env = quiet⦄ one_digit (pos 2) none failing_gcc (λ n. some_ends)
      (opt_c (ascii "/srv") ∷ []) (ascii "gcc" ∷ []) at_boot

no_triplet_one : (no_triplet.0 ≡ 1) × (no_triplet.1.misuse ≡ 1)
unfolding main strdup call mkdir_p open_path path_eq bytes_eq mkdirat base_of walk openat
    get_gcc_triplet pipe asprintf fork fdopen getline cut_line waitpid first_line fclose close free
    has_block remove_block put_node lookup_fd remove_fd
no_triplet_one = (refl, refl)
