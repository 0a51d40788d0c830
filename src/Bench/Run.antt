-- ===== src/Bench/Run.antt =====
-- c/bench_inodecache.c: `run_bench`, in the parent of the processes of a benchmark.
use pdistcc.Base.{
  ℕ, zero, suc, ◌+◌, ℤ, pos, negsuc, is_zero, true, false, List, [], ◌∷◌, Option, none, some, Bytes,
}
use pdistcc.System.World.{Env, M, Ptr, pure, ◌>>=◌, ◌>>◌, call, enomem}
use pdistcc.System.Memory.{new_block, free}
use pdistcc.System.Processes.{Status, exited, signaled, other, fork, waitpid}
use pdistcc.InodeCache.Ops.{InodeCache, inode_cache_open, inode_cache_close, inode_cache_put}
use pdistcc.Bench.Stats.{Floats}
use pdistcc.Bench.Result.{Unmapped, MapPtr, null, bench_result_map, bench_result_unmap}
use pdistcc.Bench.Child.{gcc_triplet}

-- What a child adds to `ret`: one, if it could not be waited for or has not exited with 0.
unfoldable pub child_failure : Option Status → ℕ
child_failure none = 1
child_failure (some (exited zero)) = 0
child_failure (some (exited (suc k))) = 1
child_failure (some (signaled k)) = 1
child_failure (some other) = 1

-- `cachedirfd` as a cache, without the name of its directory.
abbrev pub cache_of : ℤ → InodeCache
cache_of cachedirfd = record { dir = none; dirfd = cachedirfd }

module _ ⦃env : Env⦄ where
  -- `calloc(nproc, sizeof(pid_t))`
  unfoldable pub calloc : M Ptr
  calloc = call none (new_block [])

  -- The loop that starts the children: `children`, of which a negative one is a failure.
  unfoldable pub fork_children : ℕ → M (List ℤ)
  fork_children zero = pure []
  fork_children (suc n) = do pid ← fork; pids ← fork_children n; pure (pid ∷ pids)

  module _ (ends : ℕ → Status) where
    -- A turn of the loop that waits for the children: what child `i` adds to `ret`.
    unfoldable pub wait_child : ℕ → ℤ → M ℕ
    unfolding child_failure
    wait_child i (negsuc n) = pure 1
    wait_child i (pos n) = do
      status ← waitpid (record { output = []; status = ends i })
      pure (child_failure status)

    -- The loop, from child `i` on.
    unfoldable pub wait_children : ℕ → List ℤ → ℕ → M ℕ
    unfolding wait_child
    wait_children i [] ret = pure ret
    wait_children i (pid ∷ pids) ret = do k ← wait_child i pid; wait_children (suc i) pids (ret + k)

module _ ⦃floats : Floats⦄ ⦃env : Env⦄ where
  -- `run_bench` from the label `out` on: its result, and what has become of the shared memory, as
  -- `bench_result_map` left it behind an error and as it is now.
  unfoldable pub run_out :
      ℕ → Ptr → MapPtr → Option Unmapped → InodeCache → M (ℕ × Option Unmapped × Option Unmapped)
  unfolding bench_result_unmap
  run_out ret children result left ic = do
    (p, gone) ← bench_result_unmap (some result)
    free children
    inode_cache_close ic
    pure (ret, left, gone)

  module _ (ends : ℕ → Status) (nproc : ℕ) (compiler triplet : Bytes) where
    -- After `inode_cache_put`.
    unfoldable pub run_stored :
        ℤ → Ptr → MapPtr → InodeCache → M (ℕ × Option Unmapped × Option Unmapped)
    unfolding run_out fork_children wait_children
    run_stored err children result ic = elim (is_zero err) [
      | false ↦ run_out 0 children result none ic
      | true ↦ do
        pids ← fork_children nproc
        ret ← wait_children ends 0 pids 0
        run_out ret children result none ic
    ]

    -- After `inode_cache_open`.
    unfoldable pub run_opened :
        ℤ → Ptr → MapPtr → InodeCache → M (ℕ × Option Unmapped × Option Unmapped)
    unfolding run_stored
    run_opened err children result ic = elim (is_zero err) [
      | false ↦ run_out 0 children result none ic
      | true ↦ do
        stored ← inode_cache_put (some ic) (some compiler) gcc_triplet (some triplet)
        run_stored stored children result ic
    ]

    -- After `bench_result_map`.
    unfoldable pub run_mapped :
        (ℤ × Option MapPtr) × Option Unmapped
        → Ptr
        → InodeCache
        → M (ℕ × Option Unmapped × Option Unmapped)
    unfolding run_opened
    run_mapped ((err, none), left) children ic = run_out 0 children null left ic
    run_mapped ((err, some result), left) children ic = elim (is_zero err) [
      | false ↦ run_out 0 children result left ic
      | true ↦ do (opened, c) ← inode_cache_open ic; run_opened opened children result c
    ]

    -- After `calloc`.
    unfoldable pub run_allocated : Ptr → InodeCache → M (ℕ × Option Unmapped × Option Unmapped)
    unfolding run_mapped bench_result_map
    run_allocated none ic = run_out enomem none null none ic
    run_allocated (some children) ic = do
      r ← bench_result_map (some null) nproc
      run_mapped r (some children) ic

    -- `run_bench`; `ends` says how each child ends.
    unfoldable pub run_bench : ℤ → M (ℕ × Option Unmapped × Option Unmapped)
    unfolding run_allocated calloc
    run_bench cachedirfd = do children ← calloc; run_allocated children (cache_of cachedirfd)
