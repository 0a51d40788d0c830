-- ===== src/Barrier/Tests.antt =====
-- Runs of a barrier of two, and the theorems about barriers at concrete inputs.
use pdistcc.Base.{ℕ, ◌*◌, ◌≤◌, [], ◌∷◌, ◌≡◌, ◌≢◌, refl, none, some, replicate, ◌⊎◌}
use pdistcc.Barrier.Wait.{
  Shared, entering, counting, storing, testing, opening, leaving, waiting, passing, returned, turn,
  step, Reach, start, after, at_init,
}
use pdistcc.Barrier.Counts.{AllArrived, total, holds}
use pdistcc.Barrier.Live.{Run, begin, more}
use pdistcc.Barrier.Safety.{barrier_wait-AllArrived, barrier_wait-exclusive}
use pdistcc.Barrier.Progress.{CanGo, barrier_wait-CanGo}
use pdistcc.Barrier.Init.{
  barrier_init, barrier_close, shared_of, IsReleased, barrier_init-IsReleased,
}

abbrev at : ℕ → ℕ → ℕ → Shared
at c m g = record { count = c; mutex = m; gate = g }

-- The first thread waits at the gate; then the second one opens it and passes.
first_waits : Reach 2 (at_init, replicate 2 entering) (at 1 1 0, (waiting ∷ entering ∷ []))
unfolding turn
first_waits =
    (after
      (after
        (after
          (after
            (after start
              (step [] (entering ∷ []) entering counting (at 0 1 0) (at 0 0 0) none refl))
            (step [] (entering ∷ []) counting (storing 0) (at 0 0 0) (at 0 0 0) none refl))
          (step [] (entering ∷ []) (storing 0) testing (at 0 0 0) (at 1 0 0) none refl))
        (step [] (entering ∷ []) testing leaving (at 1 0 0) (at 1 0 0) none refl))
      (step [] (entering ∷ []) leaving waiting (at 1 0 0) (at 1 1 0) none refl))

second_waits : Reach 2 (at_init, replicate 2 entering) (at 2 0 1, (waiting ∷ leaving ∷ []))
unfolding turn
second_waits =
    (after
      (after
        (after
          (after
            (after first_waits
              (step (waiting ∷ []) [] entering counting (at 1 1 0) (at 1 0 0) none refl))
            (step (waiting ∷ []) [] counting (storing 1) (at 1 0 0) (at 1 0 0) none refl))
          (step (waiting ∷ []) [] (storing 1) testing (at 1 0 0) (at 2 0 0) none refl))
        (step (waiting ∷ []) [] testing opening (at 2 0 0) (at 2 0 0) none refl))
      (step (waiting ∷ []) [] opening leaving (at 2 0 0) (at 2 0 1) none refl))

second_passes : Reach 2 (at_init, replicate 2 entering) (at 2 1 1, (waiting ∷ returned 0 ∷ []))
unfolding turn
second_passes =
    (after
      (after
        (after second_waits
          (step (waiting ∷ []) [] leaving waiting (at 2 0 1) (at 2 1 1) none refl))
        (step (waiting ∷ []) [] waiting passing (at 2 1 1) (at 2 1 0) none refl))
      (step (waiting ∷ []) [] passing (returned 0) (at 2 1 0) (at 2 1 1) none refl))

first-Run : Run 2 (at_init, replicate 2 entering) 5 (at 1 1 0, (waiting ∷ entering ∷ []))
unfolding turn
first-Run =
    (more 4 [] (entering ∷ []) leaving waiting (at 1 0 0) (at 1 1 0)
      (more 3 [] (entering ∷ []) testing leaving (at 1 0 0) (at 1 0 0)
        (more 2 [] (entering ∷ []) (storing 0) testing (at 0 0 0) (at 1 0 0)
          (more 1 [] (entering ∷ []) counting (storing 0) (at 0 0 0) (at 0 0 0)
            (more 0 [] (entering ∷ []) entering counting (at 0 1 0) (at 0 0 0) begin refl) refl)
          refl)
        refl)
      refl)

second-Run : Run 2 (at_init, replicate 2 entering) 10 (at 2 0 1, (waiting ∷ leaving ∷ []))
unfolding turn
second-Run =
    (more 9 (waiting ∷ []) [] opening leaving (at 2 0 0) (at 2 0 1)
      (more 8 (waiting ∷ []) [] testing opening (at 2 0 0) (at 2 0 0)
        (more 7 (waiting ∷ []) [] (storing 1) testing (at 1 0 0) (at 2 0 0)
          (more 6 (waiting ∷ []) [] counting (storing 1) (at 1 0 0) (at 1 0 0)
            (more 5 (waiting ∷ []) [] entering counting (at 1 1 0) (at 1 0 0) first-Run refl) refl)
          refl)
        refl)
      refl)

barrier_wait-AllArrived_example : AllArrived (waiting ∷ returned 0 ∷ [])
barrier_wait-AllArrived_example =
    barrier_wait-AllArrived 2 (waiting ∷ []) [] (at 2 1 1) second_passes

barrier_wait-exclusive_example : total holds (waiting ∷ leaving ∷ []) ≤ 1
barrier_wait-exclusive_example =
    barrier_wait-exclusive 2 (waiting ∷ leaving ∷ []) (at 2 0 1) second_waits

barrier_wait-CanGo_example :
    (10 ≤ 8 * 2)
    × (CanGo 2 (at 2 0 1) (waiting ∷ leaving ∷ [])
        ⊎ ((waiting ∷ leaving ∷ []) ≡ replicate 2 (returned 0)))
barrier_wait-CanGo_example = barrier_wait-CanGo 2 10 (at 2 0 1) (waiting ∷ leaving ∷ []) second-Run

barrier_init-IsReleased_example :
    let (err, b) = barrier_init none (some 3) 2 in
    (err ≡ 0 → (b.size ≡ 2) × (shared_of b ≡ some at_init))
    × (err ≢ 0 → IsReleased b)
    × IsReleased (barrier_close b)
    × (barrier_close (barrier_close b) ≡ barrier_close b)
barrier_init-IsReleased_example = barrier_init-IsReleased none (some 3) 2
