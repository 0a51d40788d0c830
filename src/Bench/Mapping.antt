-- ===== src/Bench/Mapping.antt =====
-- What `bench_result_map` makes, and that nothing of it is left behind an error or an unmap.
use pdistcc.Base.{
  ℕ, ℤ, pos, true, false, Option, none, some, ◌≡◌, ◌≢◌, refl, ◌⊎◌, inl, inr, arith, Option-cases,
  Bool, subst, sym, neg, suc,
}
use pdistcc.System.World.{World, Env}
use pdistcc.Barrier.Wait.{at_init}
use pdistcc.Barrier.Init.{barrier_init, barrier_close, shared_of, IsReleased}
use pdistcc.Bench.Stats.{Floats, bench_stats_reset}
use pdistcc.Bench.Result.{
  BenchResult, MapPtr, null, mapped, bench_result_unmap, cleared, map_out_err, map_locked,
  map_barrier, attempt_second, attempt, map_made, bench_result_map, Unmapped, unmap_mapped,
  unmap_object, release_lock, destroyed, unmapped,
}

module _ ⦃floats : Floats⦄ where
  -- Memory with a lock that is free, a barrier of `nproc`, and no samples yet.
  pub record IsPrepared (nproc : ℕ) (obj : BenchResult) : Type 0 where
    pub there : obj.is_mapped ≡ true
    pub free_lock : obj.lock ≡ some 1
    pub barrier_size : obj.second_phase_barrier.size ≡ nproc
    pub barrier_state : shared_of obj.second_phase_barrier ≡ some at_init
    pub no_samples : obj.stats ≡ bench_stats_reset
    pub no_nocache_samples : obj.nocache_stats ≡ bench_stats_reset

  module _ ⦃env : Env⦄ where
    -- An error is one of a call that has failed.
    abbrev pub HasFailed : Option ℕ → Type 0
    HasFailed none = Unit
    HasFailed (some e) = (t : ℕ) × (env.fault t ≡ some e)

    -- It is so, or the call for it has failed.
    abbrev pub IsDone : Option ℕ → Type 0 → Type 0
    IsDone none P = P
    IsDone (some e) P = HasFailed (some e)

    -- No object, or one that is unmapped, with all its semaphores destroyed, but for what a failure
    -- of munmap or of sem_destroy leaves.
    abbrev pub IsGone : Option Unmapped → Type 0
    IsGone none = Unit
    IsGone (some u) =
        IsDone u.munmap_error (u.object.is_mapped ≡ false)
        × IsDone u.destroy_error (u.object.lock ≡ none)
        × (u.object.lock_initialized ≡ false)
        × IsReleased u.object.second_phase_barrier

    -- Prepared, and gone after an unmap.
    abbrev pub IsMade : ℕ → (ℤ × Option MapPtr) × Option Unmapped → Type 0
    IsMade nproc ((err, p), left) =
        (err ≡ pos 0)
        × (left ≡ none)
        × (obj : BenchResult) × (p ≡ some (mapped obj))
        × IsPrepared nproc obj
        × ((w : World) → IsGone (bench_result_unmap p w).0.1)

    -- An error, with `*resultptr` as it was.
    abbrev pub IsRefused : Option MapPtr → (ℤ × Option MapPtr) × Option Unmapped → Type 0
    IsRefused resultptr ((err, p), left) = (err ≢ pos 0) × (p ≡ resultptr) × IsGone left

    attempt-HasFailed : (w : World) → HasFailed (attempt w).0
    unfolding attempt
    attempt-HasFailed w = elim (Option-cases (env.fault w.tick)) [
      | inl e ↦ rw (e, attempt) tt
      | inr (k, e) ↦ rw (e, attempt) (w.tick, e)
    ]

    -- The lock is destroyed, or there is none.
    release_lock-IsDone :
        (obj : BenchResult) (w : World)
        → (obj.lock_initialized ≡ true) ⊎ (obj.lock ≡ none)
        → let r = (release_lock obj.lock_initialized obj w).0 in
          IsDone r.0 (r.1.lock ≡ none)
          × (r.1.lock_initialized ≡ false)
          × (r.1.second_phase_barrier ≡ obj.second_phase_barrier)
    unfolding release_lock
    release_lock-IsDone obj w h = split obj.lock_initialized obj refl h
      where
        after :
            (o : Option ℕ) (obj : BenchResult)
            → HasFailed o
            → IsDone o ((destroyed o obj).lock ≡ none)
              × ((destroyed o obj).lock_initialized ≡ false)
              × ((destroyed o obj).second_phase_barrier ≡ obj.second_phase_barrier)
        after none obj f = (refl, refl, refl)
        after (some e) obj f = (f, refl, refl)

        split :
            (b : Bool) (obj : BenchResult)
            → obj.lock_initialized ≡ b
            → (b ≡ true) ⊎ (obj.lock ≡ none)
            → let r = (release_lock b obj w).0 in
              IsDone r.0 (r.1.lock ≡ none)
              × (r.1.lock_initialized ≡ false)
              × (r.1.second_phase_barrier ≡ obj.second_phase_barrier)
        split true obj i h = after (attempt w).0 obj (attempt-HasFailed w)
        split false obj i (inl e) = absurd (ground (arith, e))
        split false obj i (inr e) = (e, i, refl)

    unmap_object-IsGone :
        (obj : BenchResult) (w : World)
        → (obj.lock_initialized ≡ true) ⊎ (obj.lock ≡ none)
        → IsReleased (barrier_close obj.second_phase_barrier)
        → IsGone (some (unmap_object obj w).0)
    unfolding unmap_object
    unmap_object-IsGone obj w h released =
        let (r, w') = release_lock obj.lock_initialized obj w in
        let (done, off, same) = release_lock-IsDone obj w h in
        after (attempt w').0 (attempt-HasFailed w') r done off
          (subst (λ b. IsReleased (barrier_close b)) (sym same) released)
      where
        after :
            (o : Option ℕ)
            → HasFailed o
            → (r : Option ℕ × BenchResult) → IsDone r.0 (r.1.lock ≡ none)
            → r.1.lock_initialized ≡ false
            → IsReleased (barrier_close r.1.second_phase_barrier)
            → let closed = record (r.1) {
              second_phase_barrier = barrier_close r.1.second_phase_barrier;
            } in
              IsGone (
                some (record { object = unmapped o closed; destroy_error = r.0; munmap_error = o }))
        after none f r d off b = (refl, d, off, b)
        after (some e) f r d off b = (f, d, off, b)

  module _ ⦃env : Env⦄ (nproc : ℕ) where
    abbrev Result : (ℤ × Option MapPtr) × Option Unmapped → Type 0
    Result r = IsMade nproc r ⊎ IsRefused (some null) r

    -- Behind an error the object goes.
    refused :
        (err : ℤ) (obj : BenchResult) (w : World)
        → err ≢ pos 0
        → obj.lock ≡ none
        → IsReleased (barrier_close obj.second_phase_barrier)
        → Result (map_out_err err (some null) (mapped obj) w).0
    unfolding map_out_err bench_result_unmap unmap_mapped
    refused err obj w ne e released = inr (ne, refl, unmap_object-IsGone obj w (inr e) released)

    -- The memory with its barrier.
    abbrev with_barrier : Option ℕ → Option ℕ → BenchResult
    with_barrier first second = record cleared {
      second_phase_barrier = (barrier_init first second nproc).1;
    }

    locked :
        (o : Option ℕ) (w : World) → Result (map_locked o (some null) (with_barrier none none) w).0
    unfolding map_locked bench_result_unmap unmap_mapped shared_of barrier_init barrier_close
        cleared
    locked (some e) w =
        refused (neg (suc e)) (with_barrier none none) w (ground arith) refl (refl, refl)
    locked none w =
        let obj = record (with_barrier none none) { lock = some 1; lock_initialized = true } in
        inl (
          refl,
          refl,
          obj,
          refl,
          record {
            there = refl;
            free_lock = refl;
            barrier_size = refl;
            barrier_state = refl;
            no_samples = refl;
            no_nocache_samples = refl;
          },
          λ v. unmap_object-IsGone obj v (inl refl) (refl, refl),
        )

    initialized :
        (first second : Option ℕ) (w : World)
        → Result (map_barrier (barrier_init first second nproc) (some null) cleared w).0
    unfolding map_barrier barrier_init cleared barrier_close
    initialized (some e) second w =
        refused (pos (suc e)) (with_barrier (some e) second) w (ground arith) refl (refl, refl)
    initialized none (some e) w =
        refused (pos (suc e)) (with_barrier none (some e)) w (ground arith) refl (refl, refl)
    initialized none none w = let (o, w') = attempt w in locked o w'

    made : (o : Option ℕ) (w : World) → Result (map_made o (some null) nproc w).0
    unfolding map_made map_out_err bench_result_unmap
    made (some e) w = inr (ground arith, refl, tt)
    made none w =
        let (first, w1) = attempt w in
        let (second, w2) = attempt_second first w1 in initialized first second w2

    -- Whichever calls fail, `bench_result_map` with `*resultptr` NULL returns 0 and puts there
    -- memory with a free lock, a barrier at which `nproc` threads can wait, and no samples, of
    -- which `bench_result_unmap` leaves nothing; or it returns an error, leaves `*resultptr` NULL,
    -- and nothing stays mapped and no semaphore initialised. In both cases the memory stays mapped
    -- where munmap has failed, and a semaphore initialised where sem_destroy has.
    pub bench_result_map-IsMade :
        (w : World)
        → let r = (bench_result_map (some null) nproc w).0 in
          IsMade nproc r ⊎ IsRefused (some null) r
    unfolding bench_result_map
    bench_result_map-IsMade w = let (o, w') = attempt w in made o w'
