-- ===== src/Bench/Loops.antt =====
-- What the loops of `bench_inode_cache` measure.
use pdistcc.Base.{
  ℕ, zero, suc, ◌+◌, ℤ, pos, negsuc, neg, is_zero, false, Option, none, some, Bytes, bytes_eq, ◌≡◌,
  ◌≢◌, refl, inl, inr, Bool-cases, arith, subst, List, [], ◌∷◌, length, true, ap, bytes_eq→eq, sym,
}
use pdistcc.System.World.{World, Env, M, Ptr, call_rule, text_of, note_misuse}
use pdistcc.System.Memory.{free}
use pdistcc.Bench.Clock.{Timespec, timespec_delta_usec}
use pdistcc.Bench.Stats.{
  Floats, BenchStats, bench_stats_reset, bench_stats_update, bench_stats_finalize, bench_stats_of,
}
use pdistcc.Bench.Child.{
  Phase, stopped, measured, value_of, clock_gettime, measure_compared, measure_queried,
  measure_started, measure_loop, is_null,
}

pub nonzero : (err : ℤ) → is_zero err ≡ false → err ≢ pos 0
nonzero (pos zero) e = absurd (ground (arith, e))
nonzero (pos (suc n)) e = ground arith
nonzero (negsuc n) e = ground arith

zero_is : (err : ℤ) → is_zero err ≡ true → err ≡ pos 0
zero_is (pos zero) e = refl
zero_is (pos (suc n)) e = absurd (ground (arith, e))
zero_is (negsuc n) e = absurd (ground (arith, e))

neg_nonzero : (e : ℕ) → e ≢ 0 → neg e ≢ pos 0
neg_nonzero zero h = absurd (h refl)
neg_nonzero (suc e) h = ground arith

module _ ⦃floats : Floats⦄ where
  -- The figures of some samples.
  abbrev pub figures : List ℤ → BenchStats
  figures l = bench_stats_finalize (bench_stats_of bench_stats_reset l)

module _ ⦃floats : Floats⦄ ⦃env : Env⦄ (clock : ℕ → Timespec) where
  -- The clock has been read, or errno is set.
  abbrev Clocked : World → Option Timespec → World → Type 0
  Clocked w none w' = w'.errno ≢ 0
  Clocked w (some t) w' = (w' ≡ record w { tick = w.tick + 1 }) × (t ≡ clock (w.tick + 1))

  clock_gettime-Clocked :
      (w : World) → Clocked w (clock_gettime clock w).0 (clock_gettime clock w).1
  unfolding clock_gettime
  clock_gettime-Clocked w = call_rule (Clocked w) _ _ w (λ e. omega arith) (refl, refl)

  module _ (query : M (ℤ × Option Ptr)) (triplet : Bytes) where
    -- A repetition ends: the clock is read, and the value is freed.
    abbrev pub repeated : Ptr → World → World
    repeated value v =
        (free value (note_misuse (is_null value) (record v { tick = v.tick + 1 })).1).1

    -- Repetitions one after the other, from one world to another: in each the query gives the triplet,
    -- and the sample is the time from the reading of the clock before it to the reading behind it.
    abbrev pub Sampled : World → List ℤ → World → Type 0
    Sampled w [] w' = w' ≡ w
    Sampled w (x ∷ l) w' =
        let u = record w { tick = w.tick + 1 } in
        let ((err, value), v) = query u in
        (err ≡ pos 0)
        × (text_of (value_of value) ≡ triplet)
        × (x ≡ timespec_delta_usec (clock (w.tick + 1)) (clock (v.tick + 1)))
        × Sampled (repeated (value_of value) v) l w'

    -- An error, or the figures of so many samples more.
    abbrev pub IsMeasured : ℕ → BenchStats → World → Phase × World → Type 0
    IsMeasured n st w (stopped err value, w') = err ≢ pos 0
    IsMeasured n st w (measured st', w') =
        (l : List ℤ) × (length l ≡ n)
        × (st' ≡ bench_stats_finalize (bench_stats_of st l))
        × Sampled w l w'

    module _ (n : ℕ) (rest : BenchStats → M Phase)
        (goes : (x : BenchStats) (v : World) → IsMeasured n x v (rest x v)) (st : BenchStats)
        (w : World) where
      abbrev started_at : World
      started_at = record w { tick = w.tick + 1 }

      abbrev value : Ptr
      value = value_of (query started_at).0.1

      abbrev queried_at : World
      queried_at = (query started_at).1

      abbrev sample : ℤ
      sample = timespec_delta_usec (clock (w.tick + 1)) (clock (queried_at.tick + 1))

      longer :
          (r : Phase × World)
          → (query started_at).0.0 ≡ pos 0
          → text_of value ≡ triplet
          → IsMeasured n (bench_stats_update st sample) (repeated value queried_at) r
          → IsMeasured (suc n) st w r
      unfolding bench_stats_of
      longer (stopped err p, w') z t m = m
      longer (measured st', w') z t (l, e, f, g) = (sample ∷ l, ap suc e, f, (z, t, refl, g))

      -- Behind the test of the value.
      going_on :
          (end : Timespec) (w1 : World)
          → Clocked queried_at (some end) w1
          → (query started_at).0.0 ≡ pos 0
          → text_of value ≡ triplet
          → IsMeasured (suc n) st w (
              rest
                (bench_stats_update st (timespec_delta_usec (clock (w.tick + 1)) end))
                (free value (note_misuse (is_null value) w1).1).1)
      going_on end w1 (h, k) z t =
          subst
            (λ e. IsMeasured (suc n) st w (
              rest (bench_stats_update st (timespec_delta_usec (clock (w.tick + 1)) e))
                (free value (note_misuse (is_null value) w1).1).1))
            (sym k)
            (subst
              (λ v. IsMeasured (suc n) st w (
                rest (bench_stats_update st sample)
                  (free value (note_misuse (is_null value) v).1).1))
              (sym h)
              (longer _ z t (goes (bench_stats_update st sample) (repeated value queried_at))))

      compared :
          (end : Option Timespec) (w1 : World)
          → Clocked queried_at end w1
          → (query started_at).0.0 ≡ pos 0
          → IsMeasured
              (suc n)
              st
              w
              (measure_compared clock query triplet rest st (clock (w.tick + 1)) value end w1)
      unfolding measure_compared
      compared none w1 h z = neg_nonzero w1.errno h
      compared (some end) w1 (h, k) z = elim (Bool-cases (bytes_eq (text_of value) triplet)) [
        | inl e ↦
            rw (e, measure_compared)
              (going_on end w1 (h, k) z (bytes_eq→eq (text_of value) triplet e))
        | inr e ↦ rw (e, measure_compared) (ground arith)
      ]

      queried : IsMeasured (suc n) st w (
          measure_queried clock query triplet rest st
            (clock (w.tick + 1))
            (query started_at).0
            queried_at)
      unfolding measure_queried
      queried = elim (Bool-cases (is_zero (query started_at).0.0)) [
        | inl e ↦
            let (end, w1) = clock_gettime clock queried_at in
            rw (e, measure_queried)
              (compared end w1 (clock_gettime-Clocked queried_at)
                (zero_is (query started_at).0.0 e))
        | inr e ↦ rw (e, measure_queried) (nonzero (query started_at).0.0 e)
      ]

      started :
          (start : Option Timespec) (w' : World)
          → Clocked w start w'
          → IsMeasured (suc n) st w (measure_started clock query triplet rest st start w')
      unfolding measure_started
      started none w' h = neg_nonzero w'.errno h
      started (some start) w' (h, k) = rw (h, k) queried

    pub measure_loop-IsMeasured :
        (n : ℕ) (st : BenchStats) (w : World)
        → IsMeasured n st w (measure_loop clock query triplet n st w)
    unfolding measure_loop bench_stats_of
    measure_loop-IsMeasured zero st w = ([], refl, refl, refl)
    measure_loop-IsMeasured (suc n) st w =
        let (start, w') = clock_gettime clock w in
        started n (measure_loop clock query triplet n) (measure_loop-IsMeasured n) st w start w'
          (clock_gettime-Clocked w)
