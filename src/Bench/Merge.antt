-- ===== src/Bench/Merge.antt =====
-- Count, minimum and maximum of samples that are taken together or apart.
use pdistcc.Base.{
  ◌+◌, ℤ, ltb_ℤ, List, [], ◌∷◌, ◌++◌, ◌≡◌, refl, ap, ap₂, length-append, ◌∙◌, sym, length, arith,
  false,
}
use pdistcc.Bench.Stats.{
  Floats, BenchStats, int64_max, int64_min, pick_max, pick_min, bench_stats_reset,
  bench_stats_update, bench_stats_merge, bench_stats_of,
}

pick_max_assoc : (a b c : ℤ) → pick_max (pick_max a b) c ≡ pick_max a (pick_max b c)
unfolding pick_max
pick_max_assoc a b c = ground arith

pick_min_assoc : (a b c : ℤ) → pick_min (pick_min a b) c ≡ pick_min a (pick_min b c)
unfolding pick_min
pick_min_assoc a b c = ground arith

fold_max : ℤ → List ℤ → ℤ
fold_max m [] = m
fold_max m (x ∷ l) = fold_max (pick_max m x) l

fold_min : ℤ → List ℤ → ℤ
fold_min m [] = m
fold_min m (x ∷ l) = fold_min (pick_min m x) l

pick_max_bottom : (m b : ℤ) → ltb_ℤ m b ≡ false → pick_max m b ≡ m
unfolding pick_max
pick_max_bottom m b h = ground arith

pick_min_top : (m t : ℤ) → ltb_ℤ t m ≡ false → pick_min m t ≡ m
unfolding pick_min
pick_min_top m t h = ground arith

pick_max_above : (b m x : ℤ) → ltb_ℤ m b ≡ false → ltb_ℤ (pick_max m x) b ≡ false
unfolding pick_max
pick_max_above b m x h = ground arith

pick_min_below : (t m x : ℤ) → ltb_ℤ t m ≡ false → ltb_ℤ t (pick_min m x) ≡ false
unfolding pick_min
pick_min_below t m x h = ground arith

ltb_ℤ_irrefl : (b : ℤ) → ltb_ℤ b b ≡ false
ltb_ℤ_irrefl b = ground arith

-- A maximum over more samples is one over the maximum of these, which starts at the bottom `b`.
fold_max-pick_max :
    (b m : ℤ) (l : List ℤ) → ltb_ℤ m b ≡ false → fold_max m l ≡ pick_max m (fold_max b l)
unfolding fold_max
fold_max-pick_max b m [] h = sym (pick_max_bottom m b h)
fold_max-pick_max b m (x ∷ l) h =
    fold_max-pick_max b (pick_max m x) l (pick_max_above b m x h)
    ∙ (ap (λ k. pick_max (pick_max k x) (fold_max b l)) (sym (pick_max_bottom m b h))
        ∙ (ap (λ k. pick_max k (fold_max b l)) (pick_max_assoc m b x)
            ∙ (pick_max_assoc m (pick_max b x) (fold_max b l)
                ∙ ap (pick_max m) (
                    sym (
                      fold_max-pick_max b (pick_max b x) l
                        (pick_max_above b b x (ltb_ℤ_irrefl b)))))))

fold_min-pick_min :
    (t m : ℤ) (l : List ℤ) → ltb_ℤ t m ≡ false → fold_min m l ≡ pick_min m (fold_min t l)
unfolding fold_min
fold_min-pick_min t m [] h = sym (pick_min_top m t h)
fold_min-pick_min t m (x ∷ l) h =
    fold_min-pick_min t (pick_min m x) l (pick_min_below t m x h)
    ∙ (ap (λ k. pick_min (pick_min k x) (fold_min t l)) (sym (pick_min_top m t h))
        ∙ (ap (λ k. pick_min k (fold_min t l)) (pick_min_assoc m t x)
            ∙ (pick_min_assoc m (pick_min t x) (fold_min t l)
                ∙ ap (pick_min m) (
                    sym (
                      fold_min-pick_min t (pick_min t x) l
                        (pick_min_below t t x (ltb_ℤ_irrefl t)))))))

fold_max-append : (m : ℤ) (xs ys : List ℤ) → fold_max m (xs ++ ys) ≡ fold_max (fold_max m xs) ys
unfolding fold_max
fold_max-append m [] ys = refl
fold_max-append m (x ∷ xs) ys = fold_max-append (pick_max m x) xs ys

fold_min-append : (m : ℤ) (xs ys : List ℤ) → fold_min m (xs ++ ys) ≡ fold_min (fold_min m xs) ys
unfolding fold_min
fold_min-append m [] ys = refl
fold_min-append m (x ∷ xs) ys = fold_min-append (pick_min m x) xs ys

fold_max_above : (b m : ℤ) (l : List ℤ) → ltb_ℤ m b ≡ false → ltb_ℤ (fold_max m l) b ≡ false
unfolding fold_max
fold_max_above b m [] h = h
fold_max_above b m (x ∷ l) h = fold_max_above b (pick_max m x) l (pick_max_above b m x h)

fold_min_below : (t m : ℤ) (l : List ℤ) → ltb_ℤ t m ≡ false → ltb_ℤ t (fold_min m l) ≡ false
unfolding fold_min
fold_min_below t m [] h = h
fold_min_below t m (x ∷ l) h = fold_min_below t (pick_min m x) l (pick_min_below t m x h)

module _ ⦃floats : Floats⦄ where
  -- The fields of the figures of some samples.
  bench_stats_of-folds :
      (st : BenchStats) (l : List ℤ)
      → let r = bench_stats_of st l in
        (r.count ≡ st.count + length l) × (r.min ≡ fold_min st.min l) × (r.max ≡ fold_max st.max l)
  unfolding bench_stats_of bench_stats_update fold_max fold_min
  bench_stats_of-folds st [] = (omega arith, refl, refl)
  bench_stats_of-folds st (x ∷ l) =
      let r = bench_stats_of-folds (bench_stats_update st x) l in (omega (arith, r.0), r.1, r.2)

  -- Merging the figures of two lists of samples gives the count, the minimum and the maximum that
  -- the samples have when they are taken one after the other, empty lists included.
  pub bench_stats_merge-append :
      (xs ys : List ℤ)
      → let merged =
          bench_stats_merge
            (bench_stats_of bench_stats_reset xs)
            (bench_stats_of bench_stats_reset ys) in
        let r = bench_stats_of bench_stats_reset (xs ++ ys) in
        (merged.count ≡ r.count) × (merged.min ≡ r.min) × (merged.max ≡ r.max)
  unfolding bench_stats_merge bench_stats_reset
  bench_stats_merge-append xs ys =
      let a = bench_stats_of-folds bench_stats_reset xs in
      let b = bench_stats_of-folds bench_stats_reset ys in
      let c = bench_stats_of-folds bench_stats_reset (xs ++ ys) in
      (
        omega (arith, a.0, b.0, c.0, length-append xs ys),
        ap₂ pick_min a.1 b.1
            ∙ sym (
                c.1
                ∙ fold_min-append int64_max xs ys
                ∙ fold_min-pick_min int64_max (fold_min int64_max xs) ys
                    (fold_min_below int64_max int64_max xs (ltb_ℤ_irrefl int64_max))),
        ap₂ pick_max a.2 b.2
            ∙ sym (
                c.2
                ∙ fold_max-append int64_min xs ys
                ∙ fold_max-pick_max int64_min (fold_max int64_min xs) ys
                    (fold_max_above int64_min int64_min xs (ltb_ℤ_irrefl int64_min))),
      )
