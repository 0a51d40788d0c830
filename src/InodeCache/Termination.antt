-- ===== src/InodeCache/Termination.antt =====
-- The loops of `read_entry` and `write_entry` end before their fuel does.
use pdistcc.Base.{
  ℕ, zero, suc, ◌≤◌, ◌<◌, ℤ, pos, negsuc, [], ◌∷◌, ◌≡◌, refl, Bytes, arith, length, drop, min,
  length-take, length-drop, Option-cases, inl, inr,
}
use pdistcc.System.World.{World, Env, M, call_rule}
use pdistcc.System.Files.{Transfer, failed, got, write, lookup_fd}
use pdistcc.InodeCache.Entry.{
  Reading, advance, read_step, read_round, read_loop, write_step, write_loop,
}

-- Two ways to go on that agree after each byte that is read, agree.
read_step-rest :
    (rest rest' : Reading → M Reading) (s : Reading) (t : Transfer) (w : World)
    → ((x : ℕ) (l : Bytes) (w : World) → rest (advance (x ∷ l) s) w ≡ rest' (advance (x ∷ l) s) w)
    → read_step rest s t w ≡ read_step rest' s t w
unfolding read_step
read_step-rest rest rest' s failed w h = refl
read_step-rest rest rest' s (got []) w h = refl
read_step-rest rest rest' s (got (x ∷ l)) w h = h x l w

module _ ⦃env : Env⦄ (fd : ℤ) where
  read_round-rest :
      (rest rest' : Reading → M Reading) (s : Reading) (room : ℕ) (w : World)
      → ((k : ℕ)
          → room ≡ suc k
          → (x : ℕ) (l : Bytes) (w : World)
          → rest (advance (x ∷ l) s) w ≡ rest' (advance (x ∷ l) s) w)
      → read_round rest fd s room w ≡ read_round rest' fd s room w
  unfolding read_round
  read_round-rest rest rest' s zero w h = refl
  read_round-rest rest rest' s (suc room) w h = read_step-rest rest rest' s _ _ (h room refl)

  -- The loop of `read_entry` gives the same result for any two amounts of fuel above the room in
  -- the array, whichever calls fail: it ends before its fuel does.
  pub read_loop-fuel :
      (fuel fuel' : ℕ) (s : Reading) (w : World)
      → s.room < fuel
      → s.room < fuel'
      → read_loop fuel fd s w ≡ read_loop fuel' fd s w
  unfolding read_loop advance
  read_loop-fuel zero fuel' s w h h' = absurd (omega arith)
  read_loop-fuel (suc fuel) zero s w h h' = absurd (omega arith)
  read_loop-fuel (suc fuel) (suc fuel') s w h h' =
      read_round-rest (read_loop fuel fd) (read_loop fuel' fd) s s.room w λ k e x l w'.
        read_loop-fuel fuel fuel' (advance (x ∷ l) s) w' (omega (arith, e)) (omega (arith, e))

-- A byte at least was taken, or the call failed.
abbrev IsProgress : ℤ → Type 0
IsProgress (negsuc n) = Unit
IsProgress (pos n) = 1 ≤ n

module _ ⦃env : Env⦄ where
  write-IsProgress : (fd : ℤ) (x : ℕ) (l : Bytes) (w : World) → IsProgress (write fd (x ∷ l) w).0
  unfolding write
  write-IsProgress (negsuc n) x l w = tt
  write-IsProgress (pos n) x l w = elim (Option-cases (lookup_fd n w.fds)) [
    | inl e ↦ rw (e, write) tt
    | inr (h, e) ↦
        rw (e, write)
          (call_rule (λ r w'. IsProgress r) _ _ _ (λ k. tt)
            (omega (arith, length-take (min (suc (length l)) (suc (env.chunk w.tick))) (x ∷ l))))
  ]

  write_step-rest :
      (rest rest' : Bytes → M ℤ) (value : Bytes) (r : ℤ) (w : World)
      → IsProgress r
      → ((k : ℕ) (w : World) → 1 ≤ k → rest (drop k value) w ≡ rest' (drop k value) w)
      → write_step rest value r w ≡ write_step rest' value r w
  unfolding write_step
  write_step-rest rest rest' value (negsuc k) w p h = refl
  write_step-rest rest rest' value (pos k) w p h = h k w p

  -- The loop of `write_entry` gives the same result for any two amounts of fuel above the length of
  -- what is left to write, whichever calls fail: it ends before its fuel does.
  pub write_loop-fuel :
      (fd : ℤ) (fuel fuel' : ℕ) (value : Bytes) (w : World)
      → length value < fuel
      → length value < fuel'
      → write_loop fuel fd value w ≡ write_loop fuel' fd value w
  unfolding write_loop
  write_loop-fuel fd zero fuel' value w h h' = absurd (omega arith)
  write_loop-fuel fd (suc fuel) zero value w h h' = absurd (omega arith)
  write_loop-fuel fd (suc fuel) (suc fuel') [] w h h' = refl
  write_loop-fuel fd (suc fuel) (suc fuel') (x ∷ l) w h h' =
      write_step-rest (write_loop fuel fd) (write_loop fuel' fd) (x ∷ l) _ _
        (write-IsProgress fd x l w)
        λ k w' p.
          write_loop-fuel fd fuel fuel' (drop k (x ∷ l)) w'
            (omega (arith, length-drop k (x ∷ l), p)) (omega (arith, length-drop k (x ∷ l), p))
