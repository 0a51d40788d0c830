-- ===== src/Barrier/Init.antt =====
-- `barrier_init` and `barrier_close`.
use pdistcc.Base.{ℕ, suc, Bool, true, false, Option, none, some, ◌≡◌, ◌≢◌, refl, arith}
use pdistcc.Barrier.Wait.{Shared, at_init}

-- `struct barrier`; a semaphore is its value, and `none` while it is not initialised.
pub record Barrier : Type 0 where
  pub size : ℕ
  pub count : ℕ
  pub mutex : Option ℕ
  pub gate : Option ℕ
  pub has_mutex : Bool
  pub has_gate : Bool

-- `if (b->mutex_init) { sem_destroy(&b->mutex); b->mutex_init = 0; }`
unfoldable pub close_mutex : Bool → Barrier → Barrier
close_mutex true b = record b { mutex = none; has_mutex = false }
close_mutex false b = b

unfoldable pub close_gate : Bool → Barrier → Barrier
close_gate true b = record b { gate = none; has_gate = false }
close_gate false b = b

-- `barrier_close`
unfoldable pub barrier_close : Barrier → Barrier
unfolding close_mutex close_gate
barrier_close b = let c = close_mutex b.has_mutex b in close_gate c.has_gate c

-- After `memset`, with the size.
abbrev pub blank : ℕ → Barrier
blank n = record {
  size = n;
  count = 0;
  mutex = none;
  gate = none;
  has_mutex = false;
  has_gate = false;
}

-- After the first `sem_init`; `fault` is what the second fails with.
unfoldable pub init_gate : Option ℕ → Barrier → ℕ × Barrier
unfolding barrier_close
init_gate (some e) b = (suc e, barrier_close b)
init_gate none b = (0, record b { gate = some 0; has_gate = true })

-- `barrier_init`: its result and the barrier, for what the two calls of `sem_init` fail with, if
-- they do (`some e` is the errno `e + 1`).
unfoldable pub barrier_init : Option ℕ → Option ℕ → ℕ → ℕ × Barrier
unfolding init_gate
barrier_init (some e) fault n = (suc e, barrier_close (blank n))
barrier_init none fault n = init_gate fault (record (blank n) { mutex = some 1; has_mutex = true })

-- The state that threads find, if both semaphores are initialised.
unfoldable pub shared_of : Barrier → Option Shared
shared_of b = elim (b.mutex) [
  | none ↦ none
  | some m ↦ elim (b.gate) [
    | none ↦ none
    | some g ↦ some (record { count = b.count; mutex = m; gate = g })
  ]
]

-- No semaphore is initialised.
abbrev pub IsReleased : Barrier → Type 0
IsReleased b = (b.mutex ≡ none) × (b.gate ≡ none)

-- If `barrier_init` returns 0 the barrier has the size asked for and is one that n threads can wait
-- at; if it returns an error no semaphore is left initialised; and after `barrier_close`, once or
-- twice, none is in either case.
pub barrier_init-IsReleased :
    (first second : Option ℕ) (n : ℕ)
    → let (err, b) = barrier_init first second n in
      (err ≡ 0 → (b.size ≡ n) × (shared_of b ≡ some at_init))
      × (err ≢ 0 → IsReleased b)
      × IsReleased (barrier_close b)
      × (barrier_close (barrier_close b) ≡ barrier_close b)
unfolding barrier_init shared_of
barrier_init-IsReleased (some e) second n =
    (λ h. absurd (omega arith), λ h. (refl, refl), (refl, refl), refl)
barrier_init-IsReleased none (some e) n =
    (λ h. absurd (omega arith), λ h. (refl, refl), (refl, refl), refl)
barrier_init-IsReleased none none n = (λ h. (refl, refl), λ h. absurd (h refl), (refl, refl), refl)
