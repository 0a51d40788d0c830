-- ===== src/Barrier/Safety.antt =====
-- Who gets through a barrier.
use pdistcc.Base.{
  ℕ, zero, suc, ◌≤◌, List, ◌∷◌, ◌++◌, ◌≡◌, refl, arith, replicate, length, length-append, ◌∙◌,
  Bool-cases, inl, inr, ltb, ltb→lt,
}
use pdistcc.Barrier.Wait.{Shared, Pc, entering, returned, Step, step, Reach, start, after, at_init}
use pdistcc.Barrier.Counts.{total, total-append, total-AllArrived, holds, through, AllArrived}
use pdistcc.Barrier.Invariant.{at_init-IsSound, Reach-IsSound}

length-replicate : (n : ℕ) (p : Pc) → length (replicate n p) ≡ n
length-replicate zero p = refl
length-replicate (suc n) p = omega (arith, length-replicate n p)

Step-length : (n : ℕ) (a b : Shared × List Pc) → Step n a b → length b.1 ≡ length a.1
Step-length n _ _ (step xs ys p q s s' fault e) =
    omega (arith, length-append xs (p ∷ ys), length-append xs (q ∷ ys))

Reach-length : (n : ℕ) (a b : Shared × List Pc) → Reach n a b → length b.1 ≡ length a.1
Reach-length n a _ start = refl
Reach-length n a c (after {b} r s) = Step-length n b c s ∙ Reach-length n a b r

-- If one of n threads that wait at a new barrier of n has got 0 from `barrier_wait`, all n have
-- counted themselves: in whatever order the threads take their turns, and whichever semaphore calls
-- fail.
pub barrier_wait-AllArrived :
    (n : ℕ) (xs ys : List Pc) (s : Shared)
    → Reach n (at_init, replicate n entering) (s, xs ++ returned 0 ∷ ys)
    → AllArrived (xs ++ returned 0 ∷ ys)
barrier_wait-AllArrived n xs ys s r =
    let i = Reach-IsSound n _ _ r (at_init-IsSound n) in
    let l = Reach-length n _ _ r ∙ length-replicate n entering in
    elim (Bool-cases (ltb s.count n)) [
      | inl e ↦
          absurd
            (omega (arith, i.shut (ltb→lt s.count n e), total-append through xs ys (returned 0)))
      | inr e ↦
          let full : n ≤ s.count = ground arith in
          total-AllArrived (xs ++ returned 0 ∷ ys) (omega (arith, full, l, i.counted))
    ]

-- At no time do two of the threads hold the mutex, whichever semaphore calls fail.
pub barrier_wait-exclusive :
    (n : ℕ) (l : List Pc) (s : Shared)
    → Reach n (at_init, replicate n entering) (s, l)
    → total holds l ≤ 1
barrier_wait-exclusive n l s r =
    let i = Reach-IsSound n _ _ r (at_init-IsSound n) in omega (arith, i.exclusive)
