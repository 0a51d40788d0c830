-- ===== src/Barrier/Live.antt =====
-- What holds of a barrier when no semaphore call fails.
use pdistcc.Base.{
  ℕ, zero, suc, ◌+◌, ◌*◌, ◌≤◌, ◌<◌, List, [], ◌∷◌, ◌++◌, none, some, ◌≡◌, ◌≢◌, refl, arith,
  replicate, length, length-append, ◌==◌, Bool-cases, inl, inr,
}
use pdistcc.Barrier.Wait.{
  Shared, Pc, entering, counting, storing, testing, opening, abandoning, leaving, waiting, passing,
  turned_away, returned, turn, step, at_init,
}
use pdistcc.Barrier.Counts.{total, total-append, total-replicate, holds, through, stale}
use pdistcc.Barrier.Invariant.{IsSound, at_init-IsSound, Step-IsSound}

-- It will open the gate, opens it, or holds it open.
abbrev pub opens : Pc → ℕ
opens testing = 1
opens opening = 1
opens passing = 1
opens _ = 0

-- A call of it has failed.
abbrev pub erred : Pc → ℕ
erred (abandoning e) = 1
erred (turned_away e) = 1
erred (returned (suc e)) = 1
erred _ = 0

-- How far a thread has come.
abbrev pub rank : Pc → ℕ
rank entering = 0
rank counting = 1
rank (storing c) = 2
rank testing = 3
rank opening = 4
rank (abandoning e) = 5
rank leaving = 5
rank waiting = 6
rank passing = 7
rank (turned_away e) = 8
rank (returned e) = 8

total-opens_le : (l : List Pc) → total opens l ≤ total through l + total holds l
unfolding total
total-opens_le [] = omega arith
total-opens_le (p ∷ l) = omega (arith, total-opens_le l, bound p)
  where
    bound : (p : Pc) → opens p ≤ through p + holds p
    bound p = ground arith

pub total-rank_le : (l : List Pc) → total rank l ≤ 8 * length l
unfolding total
total-rank_le [] = omega arith
total-rank_le (p ∷ l) = omega (arith, total-rank_le l, bound p)
  where
    bound : (p : Pc) → rank p ≤ 8
    bound p = ground arith

-- What a turn changes.
record Turned (n : ℕ) (s : Shared) (p : Pc) (s' : Shared) (q : Pc) : Type 0 where
  mutex_held : s'.mutex + holds q ≡ s.mutex + holds p
  healthy : erred q ≡ 0
  rises : rank p < rank q
  gate_kept : s'.count ≡ s.count → s.count ≡ n → s'.gate + opens q ≡ s.gate + opens p
  will_open : s'.count ≢ s.count → opens q ≡ 1
  gate_same : s'.count ≢ s.count → s'.gate ≡ s.gate
  holder : s'.count ≢ s.count → holds p ≡ 1
  count_up : s'.count ≢ s.count → s.count < s'.count

turn-Turned :
    (n : ℕ) (s : Shared) (p : Pc) (s' : Shared) (q : Pc)
    → stale s.count p ≡ 0
    → erred p ≡ 0
    → turn n none s p ≡ some (s', q)
    → Turned n s p s' q
unfolding turn
turn-Turned n s entering s' q u h e = ground arith
turn-Turned n s counting s' q u h e = ground arith
turn-Turned n s (storing c) s' q u h e = ground arith
turn-Turned n s testing s' q u h e = ground arith
turn-Turned n s opening s' q u h e = ground arith
turn-Turned n s (abandoning c) s' q u h e = ground arith
turn-Turned n s leaving s' q u h e = ground arith
turn-Turned n s waiting s' q u h e = ground arith
turn-Turned n s passing s' q u h e = ground arith
turn-Turned n s (turned_away c) s' q u h e = ground arith
turn-Turned n s (returned c) s' q u h e = ground arith

-- The mutex is free or held; once the count is `n` the gate is open or will be; no call has failed;
-- and `k` turns have been taken.
pub record IsLive (n k : ℕ) (s : Shared) (l : List Pc) : Type 0 where
  pub sound : IsSound n s l
  pub size : length l ≡ n
  pub held : s.mutex + total holds l ≡ 1
  pub opened : s.count ≡ n → 0 < n → s.gate + total opens l ≡ 1
  pub healthy : total erred l ≡ 0
  pub progress : k ≤ total rank l

turn-IsLive :
    (n k : ℕ) (xs ys : List Pc) (p q : Pc) (s s' : Shared)
    → turn n none s p ≡ some (s', q)
    → IsLive n k s (xs ++ p ∷ ys)
    → IsLive n (suc k) s' (xs ++ q ∷ ys)
turn-IsLive n k xs ys p q s s' e i = record {
  sound = sound;
  size = omega (arith, i.size, length-append xs (p ∷ ys), length-append xs (q ∷ ys));
  held =
      omega (arith, t.mutex_held, i.held, total-append holds xs ys p, total-append holds xs ys q);
  opened = opened;
  healthy =
      omega (arith, t.healthy, i.healthy, total-append erred xs ys p, total-append erred xs ys q);
  progress =
      omega (arith, t.rises, i.progress, total-append rank xs ys p, total-append rank xs ys q);
}
  where
    sound : IsSound n s' (xs ++ q ∷ ys)
    sound = Step-IsSound n (s, xs ++ p ∷ ys) (s', xs ++ q ∷ ys) (step xs ys p q s s' none e) i.sound

    t : Turned n s p s' q
    t =
        turn-Turned n s p s' q
          (omega (arith, i.sound.up_to_date, total-append (stale s.count) xs ys p))
          (omega (arith, i.healthy, total-append erred xs ys p)) e

    -- The count has become `n`: nobody else will open the gate.
    due : s'.count ≢ s.count → s'.count ≡ n → s'.gate + total opens (xs ++ q ∷ ys) ≡ 1
    due c d =
        let shut = i.sound.shut (omega (arith, t.count_up c)) in
        omega (
          arith,
          shut,
          t.will_open c,
          t.gate_same c,
          t.holder c,
          i.held,
          total-opens_le (xs ++ ys),
          total-append holds xs ys p,
          total-append through xs ys p,
          total-append opens xs ys q,
        )

    opened : s'.count ≡ n → 0 < n → s'.gate + total opens (xs ++ q ∷ ys) ≡ 1
    opened c z = elim (Bool-cases (s'.count == s.count)) [
      | inl h ↦
          let same : s'.count ≡ s.count = ground arith in
          omega (
            arith,
            t.gate_kept same (omega (arith, same)),
            i.opened (omega (arith, same)) z,
            total-append opens xs ys p,
            total-append opens xs ys q,
          )
      | inr h ↦ due (ground arith) c
    ]

-- A run in which no call fails, with its number of turns.
pub data Run (n : ℕ) (a : Shared × List Pc) : ℕ → Shared × List Pc → Type 0 where
  begin : Run n a 0 a
  more :
      (k : ℕ) (xs ys : List Pc) (p q : Pc) (s s' : Shared)
      → Run n a k (s, xs ++ p ∷ ys)
      → turn n none s p ≡ some (s', q)
      → Run n a (suc k) (s', xs ++ q ∷ ys)

length-replicate : (n : ℕ) (p : Pc) → length (replicate n p) ≡ n
length-replicate zero p = refl
length-replicate (suc n) p = omega (arith, length-replicate n p)

at_init-IsLive : (n : ℕ) → IsLive n 0 at_init (replicate n entering)
at_init-IsLive n = record {
  sound = at_init-IsSound n;
  size = length-replicate n entering;
  held = omega (arith, total-replicate holds n entering refl);
  opened = λ c z. absurd (omega arith);
  healthy = total-replicate erred n entering refl;
  progress = omega arith;
}

pub Run-IsLive :
    (n k : ℕ) (b : Shared × List Pc)
    → Run n (at_init, replicate n entering) k b
    → IsLive n k b.0 b.1
Run-IsLive n _ _ begin = at_init-IsLive n
Run-IsLive n _ _ (more k xs ys p q s s' r e) =
    turn-IsLive n k xs ys p q s s' e (Run-IsLive n k (s, xs ++ p ∷ ys) r)
