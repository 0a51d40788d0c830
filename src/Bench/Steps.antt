-- ===== src/Bench/Steps.antt =====
-- What the steps of `run_bench` leave as it was, whichever calls fail.
use pdistcc.Base.{
  ℕ, zero, suc, ◌+◌, ◌≤◌, ℤ, pos, negsuc, List, [], ◌∷◌, Option, none, some, length, ◌≡◌, refl, ◌∙◌,
  ap, ◌⊎◌, inl, inr, arith, if◌then◌else◌, Bool, true, false, neg,
}
use pdistcc.System.World.{World, Env, call_rule}
use pdistcc.System.Files.{close}
use pdistcc.System.Memory.{has_block, remove_block}
use pdistcc.System.Processes.{Status, exited, signaled, other, fork, waitpid}
use pdistcc.System.Resources.{numbers, resources, closed, close-closed}
use pdistcc.System.Holding.{IsOrdered}
use pdistcc.InodeCache.Ops.{inode_cache_open}
use pdistcc.Bench.Stats.{Floats}
use pdistcc.Bench.Result.{
  BenchResult, MapPtr, null, attempt, attempt_second, map_barrier, map_made, bench_result_map,
  bench_result_unmap, map_failed, mapped, Unmapped, map_out_err, map_locked, unmap_mapped,
  unmap_object, release_lock,
}
use pdistcc.Bench.Mapping.{IsGone, IsMade, IsRefused}
use pdistcc.Bench.Run.{child_failure, cache_of, fork_children, wait_child, wait_children}
use pdistcc.Barrier.Init.{Barrier}

-- The same descriptors and blocks, in order.
abbrev pub Kept : World → World → Type 0
Kept w w' = (numbers w'.fds ≡ numbers w.fds) × (w'.blocks ≡ w.blocks) × IsOrdered w'

pub resources-Kept : (w w' : World) → IsOrdered w → resources w' ≡ resources w → Kept w w'
unfolding resources
resources-Kept w w' o e = ground arith

module _ ⦃env : Env⦄ where
  pub fork-Same : (w : World) → resources (fork w).1 ≡ resources w
  unfolding fork resources
  fork-Same w = call_rule (λ p w'. resources w' ≡ resources w) _ _ w (λ e. refl) refl

  pub fork_children-Same :
      (n : ℕ) (w : World)
      → let (pids, w') = fork_children n w in (resources w' ≡ resources w) × (length pids ≡ n)
  unfolding fork_children
  fork_children-Same zero w = (refl, refl)
  fork_children-Same (suc n) w =
      let (pid, w') = fork w in let (e, l) = fork_children-Same n w' in (e ∙ fork-Same w, ap suc l)

  pub child_failure_le : (o : Option Status) → child_failure o ≤ 1
  unfolding child_failure
  child_failure_le none = omega arith
  child_failure_le (some (exited zero)) = omega arith
  child_failure_le (some (exited (suc k))) = omega arith
  child_failure_le (some (signaled k)) = omega arith
  child_failure_le (some other) = omega arith

  pub wait_child-Same :
      (ends : ℕ → Status) (i : ℕ) (pid : ℤ) (w : World)
      → let (k, w') = wait_child ends i pid w in (resources w' ≡ resources w) × (k ≤ 1)
  unfolding wait_child waitpid resources
  wait_child-Same ends i (negsuc n) w = (refl, omega arith)
  wait_child-Same ends i (pos n) w =
      (call_rule (λ p w'. resources w' ≡ resources w) _ _ w (λ e. refl) refl, child_failure_le _)

  pub wait_children-Same :
      (ends : ℕ → Status) (i : ℕ) (pids : List ℤ) (ret : ℕ) (w : World)
      → let (r, w') = wait_children ends i pids ret w in
        (resources w' ≡ resources w) × (r ≤ ret + length pids)
  unfolding wait_children
  wait_children-Same ends i [] ret w = (refl, omega arith)
  wait_children-Same ends i (pid ∷ pids) ret w =
      let (e, h) = wait_child-Same ends i pid w in
      let (k, w') = wait_child ends i pid w in
      let (f, g) = wait_children-Same ends (suc i) pids (ret + k) w' in (f ∙ e, omega (arith, h, g))

  pub attempt-Same : (w : World) → resources (attempt w).1 ≡ resources w
  unfolding attempt resources
  attempt-Same w = ground arith

module _ ⦃floats : Floats⦄ ⦃env : Env⦄ where
  release_lock-Same :
      (b : Bool) (obj : BenchResult) (w : World) → resources (release_lock b obj w).1 ≡ resources w
  unfolding release_lock
  release_lock-Same false obj w = refl
  release_lock-Same true obj w = attempt-Same w

  pub bench_result_unmap-Same :
      (p : Option MapPtr) (w : World) → resources (bench_result_unmap p w).1 ≡ resources w
  unfolding bench_result_unmap unmap_mapped unmap_object
  bench_result_unmap-Same none w = refl
  bench_result_unmap-Same (some null) w = refl
  bench_result_unmap-Same (some map_failed) w = refl
  bench_result_unmap-Same (some (mapped obj)) w =
      attempt-Same (release_lock obj.lock_initialized obj w).1
      ∙ release_lock-Same obj.lock_initialized obj w

module _ ⦃floats : Floats⦄ ⦃env : Env⦄ (nproc : ℕ) where
  map_out_err-Same :
      (err : ℤ) (p : MapPtr) (w : World)
      → resources (map_out_err err (some null) p w).1 ≡ resources w
  unfolding map_out_err
  map_out_err-Same err p w = bench_result_unmap-Same (some p) w

  map_locked-Same :
      (o : Option ℕ) (obj : BenchResult) (w : World)
      → resources (map_locked o (some null) obj w).1 ≡ resources w
  unfolding map_locked
  map_locked-Same none obj w = refl
  map_locked-Same (some e) obj w = map_out_err-Same (neg (suc e)) (mapped obj) w

  map_barrier-Same :
      (r : ℕ × Barrier) (obj : BenchResult) (w : World)
      → resources (map_barrier r (some null) obj w).1 ≡ resources w
  unfolding map_barrier
  map_barrier-Same (zero, b) obj w =
      let (o, w') = attempt w in
      map_locked-Same o (record obj { second_phase_barrier = b }) w' ∙ attempt-Same w
  map_barrier-Same (suc e, b) obj w =
      map_out_err-Same (pos (suc e)) (mapped (record obj { second_phase_barrier = b })) w

  pub bench_result_map-Same :
      (w : World) → resources (bench_result_map (some null) nproc w).1 ≡ resources w
  unfolding bench_result_map map_made
  bench_result_map-Same w = let (o, w') = attempt w in made o w' ∙ attempt-Same w
    where
      second : (o : Option ℕ) (w : World) → resources (attempt_second o w).1 ≡ resources w
      second none w = attempt-Same w
      second (some e) w = refl

      made : (o : Option ℕ) (w : World) → resources (map_made o (some null) nproc w).1 ≡ resources w
      made (some e) w = map_out_err-Same (neg (suc e)) map_failed w
      made none w =
          let (first, w1) = attempt w in
          let (o, w2) = attempt_second first w1 in
          map_barrier-Same _ _ w2 ∙ second first w1 ∙ attempt-Same w

-- However `bench_result_map` ends, nothing is left after an unmap.
pub IsMade-IsGone :
    ⦃floats : Floats⦄ ⦃env : Env⦄
    → (nproc : ℕ) (r : (ℤ × Option MapPtr) × Option Unmapped) (w : World)
    → IsMade nproc r ⊎ IsRefused (some null) r
    → IsGone r.1 × IsGone (bench_result_unmap r.0.1 w).0.1
unfolding bench_result_unmap
IsMade-IsGone nproc ((err, p), left) w (inl (e, l, obj, q, prepared, gone)) = (rw l tt, gone w)
IsMade-IsGone nproc ((err, p), left) w (inr (ne, q, gone)) = (gone, rw q tt)

-- Without the name of its directory a cache is open or cannot be opened.
pub inode_cache_open_unnamed :
    ⦃env : Env⦄
    → (fd : ℤ) (w : World)
    → (inode_cache_open (cache_of fd) w ≡ ((pos 0, cache_of fd), w))
      ⊎ (inode_cache_open (cache_of fd) w ≡ ((negsuc 0, cache_of fd), w))
unfolding inode_cache_open
inode_cache_open_unnamed (pos n) w = inl refl
inode_cache_open_unnamed (negsuc n) w = inr refl

-- The descriptors without one, if it is there.
abbrev pub without : ℤ → List ℕ → List ℕ
without (negsuc n) l = l
without (pos n) l = if has_block n l then remove_block n l else l

pub close-without :
    ⦃env : Env⦄
    → (fd : ℤ) (w : World)
    → let v = (close fd w).1 in (numbers v.fds ≡ without fd (numbers w.fds)) × (v.blocks ≡ w.blocks)
unfolding resources
close-without fd w = split fd (close-closed fd w)
  where
    split :
        (fd : ℤ)
        → resources (close fd w).1 ≡ closed fd (resources w)
        → let v = (close fd w).1 in
          (numbers v.fds ≡ without fd (numbers w.fds)) × (v.blocks ≡ w.blocks)
    split (negsuc n) e = ground arith
    split (pos n) e = ground arith
