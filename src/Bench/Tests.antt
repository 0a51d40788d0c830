-- ===== src/Bench/Tests.antt =====
-- The theorem about merging at concrete samples, with whole numbers in place of floating ones.
use pdistcc.Base.{ℤ, pos, negsuc, [], ◌∷◌, ◌≡◌}
use pdistcc.Bench.Stats.{Floats, bench_stats_of, bench_stats_reset, bench_stats_merge}
use pdistcc.Bench.Merge.{bench_stats_merge-append}

-- Only the types matter here.
abbrev pub whole : Floats
whole = record {
  Double = ℤ;
  of_int = λ x. x;
  nan = negsuc 0;
  add = λ x y. x;
  sub = λ x y. x;
  mul = λ x y. x;
  div = λ x y. x;
  sqrt = λ x. x;
}

bench_stats_merge-append_example :
    let merged =
      bench_stats_merge ⦃floats = whole⦄
        (bench_stats_of ⦃floats = whole⦄
          (bench_stats_reset ⦃floats = whole⦄)
          (pos 7 ∷ negsuc 3 ∷ []))
        (bench_stats_of ⦃floats = whole⦄ (bench_stats_reset ⦃floats = whole⦄) (pos 9 ∷ [])) in
    let r =
      bench_stats_of ⦃floats = whole⦄
        (bench_stats_reset ⦃floats = whole⦄)
        (pos 7 ∷ negsuc 3 ∷ pos 9 ∷ []) in
    (merged.count ≡ r.count) × (merged.min ≡ r.min) × (merged.max ≡ r.max)
bench_stats_merge-append_example =
    bench_stats_merge-append ⦃floats = whole⦄ (pos 7 ∷ negsuc 3 ∷ []) (pos 9 ∷ [])
