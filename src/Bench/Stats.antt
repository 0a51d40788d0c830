-- ===== src/Bench/Stats.antt =====
-- `struct bench_stats` and its operations. The arithmetic of `double` is a parameter.
use pdistcc.Base.{ℕ, ◌+◌, ◌*◌, ◌^◌, ◌-◌, ℤ, pos, negsuc, ltb_ℤ, List, [], ◌∷◌, if◌then◌else◌}

-- The operations of `double` that are used.
pub record Floats : Type 1 where
  pub Double : Type 0
  pub of_int : ℤ → Double
  pub nan : Double
  pub add : Double → Double → Double
  pub sub : Double → Double → Double
  pub mul : Double → Double → Double
  pub div : Double → Double → Double
  pub sqrt : Double → Double

abbrev pub int64_max : ℤ
int64_max = pos (2 ^ 63 - 1)

abbrev pub int64_min : ℤ
int64_min = negsuc (2 ^ 63 - 1)

-- The greater one, and the smaller one; the first if they are equal.
unfoldable pub pick_max : ℤ → ℤ → ℤ
pick_max m x = if ltb_ℤ m x then x else m

unfoldable pub pick_min : ℤ → ℤ → ℤ
pick_min m x = if ltb_ℤ x m then x else m

module _ ⦃floats : Floats⦄ where
  -- `struct bench_stats`. The count stays far below 2^63.
  pub record BenchStats : Type 0 where
    pub avg : floats.Double
    pub count : ℕ
    pub min : ℤ
    pub max : ℤ
    pub m2 : floats.Double
    pub var : floats.Double

  -- `bench_stats_reset`
  unfoldable pub bench_stats_reset : BenchStats
  bench_stats_reset = record {
    avg = floats.of_int (pos 0);
    count = 0;
    min = int64_max;
    max = int64_min;
    m2 = floats.of_int (pos 0);
    var = floats.nan;
  }

  -- `bench_stats_update`
  unfoldable pub bench_stats_update : BenchStats → ℤ → BenchStats
  unfolding pick_max pick_min
  bench_stats_update st x =
      let count = st.count + 1 in
      let avg =
        floats.add st.avg
          (floats.div (floats.sub (floats.of_int x) st.avg) (floats.of_int (pos count))) in
      record {
        avg = avg;
        count = count;
        min = pick_min st.min x;
        max = pick_max st.max x;
        m2 =
            floats.add st.m2
              (floats.mul (floats.sub (floats.of_int x) avg) (floats.sub (floats.of_int x) st.avg));
        var = st.var;
      }

  -- `square`
  unfoldable pub square : floats.Double → floats.Double
  square x = floats.mul x x

  -- `prod_over_sum`
  unfoldable pub prod_over_sum : ℕ → ℕ → floats.Double
  prod_over_sum x y = floats.div (floats.of_int (pos (x * y))) (floats.of_int (pos (x + y)))

  -- `bench_stats_finalize`
  unfoldable pub bench_stats_finalize : BenchStats → BenchStats
  bench_stats_finalize st = record st {
    var = floats.sqrt (floats.div st.m2 (floats.of_int (pos st.count)));
  }

  -- `bench_stats_merge`
  unfoldable pub bench_stats_merge : BenchStats → BenchStats → BenchStats
  unfolding bench_stats_finalize square prod_over_sum pick_max pick_min
  bench_stats_merge st other =
      let new_count = st.count + other.count in
      let delta = floats.sub st.avg other.avg in
      bench_stats_finalize (record {
        m2 =
            floats.add st.m2 (
              floats.add other.m2 (floats.mul (square delta) (prod_over_sum st.count other.count)));
        avg =
            floats.div
              (floats.add (floats.mul st.avg (floats.of_int (pos st.count)))
                (floats.mul other.avg (floats.of_int (pos other.count))))
              (floats.of_int (pos new_count));
        count = new_count;
        max = pick_max st.max other.max;
        min = pick_min st.min other.min;
        var = st.var;
      })

  -- The figures of some samples, one after the other.
  unfoldable pub bench_stats_of : BenchStats → List ℤ → BenchStats
  unfolding bench_stats_update
  bench_stats_of st [] = st
  bench_stats_of st (x ∷ l) = bench_stats_of (bench_stats_update st x) l
