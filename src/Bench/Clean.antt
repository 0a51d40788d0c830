-- ===== src/Bench/Clean.antt =====
-- `run_bench` leaves nothing behind.
use pdistcc.Base.{
  ℕ, ◌≤◌, ℤ, pos, negsuc, is_zero, List, Option, none, some, Bytes, ◌≡◌, refl, ◌∙◌, ap, ◌⊎◌, inl,
  inr, Bool-cases, arith,
}
use pdistcc.System.World.{World, Env, Ptr, enomem, call_rule}
use pdistcc.System.Memory.{has_block, remove_block, free}
use pdistcc.System.Processes.{Status}
use pdistcc.System.Resources.{numbers, resources}
use pdistcc.System.Holding.{IsOrdered, own}
use pdistcc.InodeCache.Ops.{inode_cache_open, inode_cache_close, inode_cache_put}
use pdistcc.InodeCache.Balance.Put.{inode_cache_put-balanced}
use pdistcc.Bench.Stats.{Floats}
use pdistcc.Bench.Result.{Unmapped, MapPtr, null, bench_result_map, bench_result_unmap}
use pdistcc.Bench.Mapping.{IsGone, bench_result_map-IsMade}
use pdistcc.Bench.Child.{gcc_triplet}
use pdistcc.Bench.Run.{
  cache_of, calloc, fork_children, wait_children, run_out, run_stored, run_opened, run_mapped,
  run_allocated, run_bench,
}
use pdistcc.Bench.Steps.{
  Kept, bench_result_map-Same, bench_result_unmap-Same, close-without, fork_children-Same,
  IsMade-IsGone, inode_cache_open_unnamed, resources-Kept, wait_children-Same, without,
}

-- The end of `run_bench`, where the descriptors `F` were open and the blocks `B` live: `cachedirfd`
-- is closed, nothing of the shared memory is left that could be given back, and the result counts children or is ENOMEM.
pub record IsClean ⦃floats : Floats⦄ ⦃env : Env⦄ (F B : List ℕ) (nproc : ℕ) (cachedirfd : ℤ)
    (r : (ℕ × Option Unmapped × Option Unmapped) × World) : Type 0 where
  pub open_fds : numbers r.1.fds ≡ without cachedirfd F
  pub live_blocks : r.1.blocks ≡ B
  pub left_gone : IsGone r.0.1
  pub memory_gone : IsGone r.0.2
  pub bounded : (r.0.0 ≤ nproc) ⊎ (r.0.0 ≡ enomem)

module _ ⦃floats : Floats⦄ ⦃env : Env⦄ (F B : List ℕ) (nproc : ℕ) (cachedirfd : ℤ) where
  -- What `run_bench` holds under way.
  record IsHolding (children : Ptr) (w : World) : Type 0 where
    held_fds : numbers w.fds ≡ F
    held_blocks : w.blocks ≡ own children B
    in_order : IsOrdered w

  IsHolding-Kept :
      {children : Ptr} (w w' : World) → Kept w w' → IsHolding children w → IsHolding children w'
  IsHolding-Kept w w' (e, f, o) h = record {
    held_fds = e ∙ h.held_fds;
    held_blocks = f ∙ h.held_blocks;
    in_order = o;
  }

  IsHolding-Same :
      {children : Ptr} (w w' : World)
      → resources w' ≡ resources w
      → IsHolding children w
      → IsHolding children w'
  IsHolding-Same w w' e h = IsHolding-Kept w w' (resources-Kept w w' h.in_order e) h

  freed_blocks :
      (children : Ptr) (w : World)
      → w.blocks ≡ own children B
      → let v = (free children w).1 in (v.blocks ≡ B) × (v.fds ≡ w.fds)
  unfolding free has_block remove_block
  freed_blocks none w e = (e, refl)
  freed_blocks (some s) w e = ground arith

  out-IsClean :
      (ret : ℕ) (children : Ptr) (result : MapPtr) (left : Option Unmapped) (w : World)
      → IsHolding children w
      → (ret ≤ nproc) ⊎ (ret ≡ enomem)
      → IsGone left
      → ((v : World) → IsGone (bench_result_unmap (some result) v).0.1)
      → IsClean F B nproc cachedirfd (run_out ret children result left (cache_of cachedirfd) w)
  unfolding run_out inode_cache_close
  out-IsClean ret children result left w h bound gone unmapped =
      let u = (bench_result_unmap (some result) w).1 in
      let h' = IsHolding-Same w u (bench_result_unmap-Same (some result) w) h in
      let (e, f) = freed_blocks children u h'.held_blocks in
      let (i, j) = close-without cachedirfd (free children u).1 in
      record {
        open_fds =
            i ∙ ap (λ l. without cachedirfd (numbers l)) f ∙ ap (without cachedirfd) h'.held_fds;
        live_blocks = j ∙ e;
        left_gone = gone;
        memory_gone = unmapped w;
        bounded = bound;
      }

  module _ (ends : ℕ → Status) (compiler triplet : Bytes) where
    stored-IsClean :
        (err : ℤ) (children : Ptr) (result : MapPtr) (w : World)
        → IsHolding children w
        → ((v : World) → IsGone (bench_result_unmap (some result) v).0.1)
        → IsClean F B nproc cachedirfd
            (run_stored ends nproc compiler triplet err children result (cache_of cachedirfd) w)
    unfolding run_stored
    stored-IsClean err children result w h gone = elim (Bool-cases (is_zero err)) [
      | inr e ↦
          rw (e, run_stored) (out-IsClean 0 children result none w h (inl (omega arith)) tt gone)
      | inl e ↦
          let (pids, w1) = fork_children nproc w in
          let (ret, w2) = wait_children ends 0 pids 0 w1 in
          let (f, l) = fork_children-Same nproc w in
          let (g, b) = wait_children-Same ends 0 pids 0 w1 in
          rw (e, run_stored)
            (out-IsClean ret children result none w2 (IsHolding-Same w w2 (g ∙ f) h)
              (inl (omega (arith, b, l))) tt gone)
    ]

    opened-IsClean :
        (err : ℤ) (children : Ptr) (result : MapPtr) (w : World)
        → IsHolding children w
        → ((v : World) → IsGone (bench_result_unmap (some result) v).0.1)
        → IsClean F B nproc cachedirfd
            (run_opened ends nproc compiler triplet err children result (cache_of cachedirfd) w)
    unfolding run_opened
    opened-IsClean err children result w h gone = elim (Bool-cases (is_zero err)) [
      | inr e ↦
          rw (e, run_opened) (out-IsClean 0 children result none w h (inl (omega arith)) tt gone)
      | inl e ↦
          let ic = some (cache_of cachedirfd) in
          let (stored, w') = inode_cache_put ic (some compiler) gcc_triplet (some triplet) w in
          let b =
            inode_cache_put-balanced ic (some compiler) gcc_triplet (some triplet) w h.in_order in
          rw (e, run_opened)
            (stored-IsClean stored children result w' (IsHolding-Kept w w' (b.0, b.1, b.2) h) gone)
    ]

    reopened-IsClean :
        (children : Ptr) (result : MapPtr) (w : World)
        → IsHolding children w
        → ((v : World) → IsGone (bench_result_unmap (some result) v).0.1)
        → let ((err, ic), w') = inode_cache_open (cache_of cachedirfd) w in
          IsClean F B nproc cachedirfd
            (run_opened ends nproc compiler triplet err children result ic w')
    reopened-IsClean children result w h gone = elim (inode_cache_open_unnamed cachedirfd w) [
      | inl e ↦ rw e (opened-IsClean (pos 0) children result w h gone)
      | inr e ↦ rw e (opened-IsClean (negsuc 0) children result w h gone)
    ]

    mapped-IsClean :
        (err : ℤ) (p : Option MapPtr) (left : Option Unmapped) (children : Ptr) (w : World)
        → IsHolding children w
        → IsGone left
        → ((v : World) → IsGone (bench_result_unmap p v).0.1)
        → IsClean F B nproc cachedirfd (
            run_mapped ends nproc compiler triplet
              ((err, p), left)
              children
              (cache_of cachedirfd)
              w)
    unfolding run_mapped
    mapped-IsClean err none left children w h gone unmapped =
        out-IsClean 0 children null left w h (inl (omega arith)) gone (λ v. tt)
    mapped-IsClean err (some result) left children w h gone unmapped =
        elim (Bool-cases (is_zero err)) [
          | inl e ↦ rw (e, run_mapped) (reopened-IsClean children result w h unmapped)
          | inr e ↦
              rw (e, run_mapped)
                (out-IsClean 0 children result left w h (inl (omega arith)) gone unmapped)
        ]

    allocated-IsClean :
        (children : Ptr) (w : World)
        → IsHolding children w
        → IsClean F B nproc cachedirfd
            (run_allocated ends nproc compiler triplet children (cache_of cachedirfd) w)
    unfolding run_allocated
    allocated-IsClean none w h = out-IsClean enomem none null none w h (inr refl) tt (λ v. tt)
    allocated-IsClean (some s) w h =
        let (((err, p), left), w') = bench_result_map (some null) nproc w in
        let made = bench_result_map-IsMade nproc w in
        mapped-IsClean err p left (some s) w'
          (IsHolding-Same w w' (bench_result_map-Same nproc w) h)
          (IsMade-IsGone nproc ((err, p), left) w made).0
          (λ v. (IsMade-IsGone nproc ((err, p), left) v made).1)

module _ ⦃floats : Floats⦄ ⦃env : Env⦄ where
  -- Whichever calls fail, however the children end, and also if it gives up before it starts any,
  -- `run_bench` closes `cachedirfd` and no other descriptor that was open, opens none for good,
  -- leaves the heap's blocks as they were, no memory mapped and no semaphore initialised, but for
  -- memory for which munmap and semaphores for which sem_destroy has failed. It returns a number of
  -- at most `nproc`, or ENOMEM.
  pub run_bench-IsClean :
      (ends : ℕ → Status) (nproc : ℕ) (compiler triplet : Bytes) (cachedirfd : ℤ) (w : World)
      → IsOrdered w
      → IsClean
          (numbers w.fds)
          w.blocks
          nproc
          cachedirfd
          (run_bench ends nproc compiler triplet cachedirfd w)
  unfolding run_bench calloc
  run_bench-IsClean ends nproc compiler triplet cachedirfd w o =
      let F = numbers w.fds in
      let (children, w') = calloc w in
      allocated-IsClean F w.blocks nproc cachedirfd ends compiler triplet children w' (
        call_rule (λ p v. IsHolding F w.blocks nproc cachedirfd p v) _ _ w
          (λ e. record { held_fds = refl; held_blocks = refl; in_order = o })
          (record { held_fds = refl; held_blocks = refl; in_order = (o.0, (omega arith, o.1)) }))
