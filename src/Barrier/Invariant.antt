-- ===== src/Barrier/Invariant.antt =====
-- What holds of a barrier at any time, whichever of its semaphore calls fail.
use pdistcc.Base.{
  ℕ, ◌+◌, ◌≤◌, ◌<◌, List, ◌∷◌, ◌++◌, Option, none, some, ◌≡◌, refl, arith, replicate, Bool-cases,
  inl, inr, ltb, ltb→lt,
}
use pdistcc.Barrier.Wait.{
  Shared, Pc, entering, counting, storing, testing, opening, abandoning, leaving, waiting, passing,
  turned_away, returned, turn, Step, step, Reach, start, after, at_init,
}
use pdistcc.Barrier.Counts.{
  total, total-append, total-replicate, total-stale, holds, arrived, through, stale,
}

-- What a turn changes, for a thread that does not store a stale count.
record Turned (n : ℕ) (s : Shared) (p : Pc) (s' : Shared) (q : Pc) : Type 0 where
  mutex_held : s'.mutex + holds q ≤ s.mutex + holds p
  counted : arrived q + s.count ≡ arrived p + s'.count
  rises : s.count ≤ s'.count
  gate_shut : s.count < n → s.gate + through p ≡ 0 → s'.gate + through q ≡ 0
  fresh : stale s'.count q ≡ 0
  alone : s.count < s'.count → holds p ≡ 1

turn-Turned :
    (n : ℕ) (fault : Option ℕ) (s : Shared) (p : Pc) (s' : Shared) (q : Pc)
    → stale s.count p ≡ 0
    → turn n fault s p ≡ some (s', q)
    → Turned n s p s' q
unfolding turn
turn-Turned n none s entering s' q h e = ground arith
turn-Turned n (some k) s entering s' q h e = ground arith
turn-Turned n none s counting s' q h e = ground arith
turn-Turned n (some k) s counting s' q h e = ground arith
turn-Turned n none s (storing c) s' q h e = ground arith
turn-Turned n (some k) s (storing c) s' q h e = ground arith
turn-Turned n none s testing s' q h e = ground arith
turn-Turned n (some k) s testing s' q h e = ground arith
turn-Turned n none s opening s' q h e = ground arith
turn-Turned n (some k) s opening s' q h e = ground arith
turn-Turned n none s (abandoning c) s' q h e = ground arith
turn-Turned n (some k) s (abandoning c) s' q h e = ground arith
turn-Turned n none s leaving s' q h e = ground arith
turn-Turned n (some k) s leaving s' q h e = ground arith
turn-Turned n none s waiting s' q h e = ground arith
turn-Turned n (some k) s waiting s' q h e = ground arith
turn-Turned n none s passing s' q h e = ground arith
turn-Turned n (some k) s passing s' q h e = ground arith
turn-Turned n none s (turned_away c) s' q h e = ground arith
turn-Turned n (some k) s (turned_away c) s' q h e = ground arith
turn-Turned n none s (returned c) s' q h e = ground arith
turn-Turned n (some k) s (returned c) s' q h e = ground arith

-- The mutex excludes; the count is right and nobody has an old one; until it is `n` nobody gets
-- through.
pub record IsSound (n : ℕ) (s : Shared) (l : List Pc) : Type 0 where
  pub exclusive : s.mutex + total holds l ≤ 1
  pub up_to_date : total (stale s.count) l ≡ 0
  pub counted : total arrived l ≡ s.count
  pub shut : s.count < n → s.gate + total through l ≡ 0

turn-IsSound :
    (n : ℕ) (xs ys : List Pc) (p q : Pc) (s s' : Shared)
    → Turned n s p s' q
    → IsSound n s (xs ++ p ∷ ys)
    → IsSound n s' (xs ++ q ∷ ys)
turn-IsSound n xs ys p q s s' t i = record {
  exclusive =
      omega
        (arith, t.mutex_held, i.exclusive, total-append holds xs ys p, total-append holds xs ys q);
  up_to_date = omega (arith, others, total-append (stale s'.count) xs ys q, t.fresh);
  counted =
      omega
        (arith, t.counted, i.counted, total-append arrived xs ys p, total-append arrived xs ys q);
  shut = λ h. shut h;
}
  where
    others : total (stale s'.count) (xs ++ ys) ≡ 0
    others = elim (Bool-cases (ltb s.count s'.count)) [
      | inl e ↦ total-stale s'.count (xs ++ ys) (
          omega
            (arith, t.alone (ltb→lt s.count s'.count e), i.exclusive, total-append holds xs ys p))
      | inr e ↦
          let same : s'.count ≡ s.count = ground (arith, t.rises) in
          rw same (omega (arith, i.up_to_date, total-append (stale s.count) xs ys p))
    ]

    shut : s'.count < n → s'.gate + total through (xs ++ q ∷ ys) ≡ 0
    shut h =
        let z = i.shut (omega (arith, t.rises)) in
        omega (
          arith,
          z,
          t.gate_shut (omega (arith, t.rises)) (omega (arith, z, total-append through xs ys p)),
          total-append through xs ys p,
          total-append through xs ys q,
        )

pub Step-IsSound :
    (n : ℕ) (a b : Shared × List Pc) → Step n a b → IsSound n a.0 a.1 → IsSound n b.0 b.1
Step-IsSound n _ _ (step xs ys p q s s' fault e) i =
    turn-IsSound n xs ys p q s s'
      (turn-Turned n fault s p s' q
        (omega (arith, i.up_to_date, total-append (stale s.count) xs ys p)) e)
      i

pub at_init-IsSound : (n : ℕ) → IsSound n at_init (replicate n entering)
at_init-IsSound n = record {
  exclusive = omega (arith, total-replicate holds n entering refl);
  up_to_date = total-replicate (stale 0) n entering refl;
  counted = total-replicate arrived n entering refl;
  shut = λ h. omega (arith, total-replicate through n entering refl);
}

pub Reach-IsSound :
    (n : ℕ) (a b : Shared × List Pc) → Reach n a b → IsSound n a.0 a.1 → IsSound n b.0 b.1
Reach-IsSound n a _ start i = i
Reach-IsSound n a c (after {b} r s) i = Step-IsSound n b c s (Reach-IsSound n a b r i)
