-- ===== src/Barrier/Wait.antt =====
-- `barrier_wait`, one shared access or semaphore call at a time, and the threads that run it.
use pdistcc.Base.{
  ℕ, zero, suc, ◌+◌, Bool, true, false, List, ◌∷◌, ◌++◌, Option, none, some, ◌==◌, ◌≡◌,
}

-- The fields of `struct barrier` that `barrier_wait` changes; a semaphore is its value.
pub record Shared : Type 0 where
  pub count : ℕ
  pub mutex : ℕ
  pub gate : ℕ

-- Where a thread stands, with what it keeps in its local variables.
pub data Pc : Type 0 where
  -- before `sem_wait(&b->mutex)`
  entering : Pc
  -- before and within `b->count++`: it has read the count
  counting : Pc
  storing : ℕ → Pc
  -- before `b->count == b->N`
  testing : Pc
  -- before `sem_post(&b->barrier)` of the last one, and after its failure with the errno `e + 1`
  opening : Pc
  abandoning : ℕ → Pc
  -- before `sem_post(&b->mutex)`
  leaving : Pc
  -- before `sem_wait(&b->barrier)`, and before the post that follows it
  waiting : Pc
  passing : Pc
  -- it has returned an error before it counted itself, or a result after it
  turned_away : ℕ → Pc
  returned : ℕ → Pc

-- `if (b->count == b->N)`
abbrev pub after_test : Bool → Pc
after_test true = opening
after_test false = leaving

-- `sem_wait` of a semaphore with a value: at 0 it blocks.
abbrev pub sem_wait : ℕ → (ℕ → Shared × Pc) → Option (Shared × Pc)
sem_wait zero k = none
sem_wait (suc v) k = some (k v)

-- One access or call of `barrier_wait`, for a barrier of `n`; `fault` is what the call fails with
-- (`some e` is the errno `e + 1`). A thread that has returned, or that a semaphore blocks, does
-- nothing.
unfoldable pub turn : ℕ → Option ℕ → Shared → Pc → Option (Shared × Pc)
turn n (some e) s entering = some (s, turned_away (suc e))
turn n none s entering = sem_wait s.mutex (λ m. (record s { mutex = m }, counting))
turn n fault s counting = some (s, storing s.count)
turn n fault s (storing c) = some (record s { count = c + 1 }, testing)
turn n fault s testing = some (s, after_test (s.count == n))
turn n (some e) s opening = some (s, abandoning e)
turn n none s opening = some (record s { gate = s.gate + 1 }, leaving)
turn n (some e) s (abandoning k) = some (s, returned (suc k))
turn n none s (abandoning k) = some (record s { mutex = s.mutex + 1 }, returned (suc k))
turn n (some e) s leaving = some (s, waiting)
turn n none s leaving = some (record s { mutex = s.mutex + 1 }, waiting)
turn n (some e) s waiting = some (s, returned (suc e))
turn n none s waiting = sem_wait s.gate (λ g. (record s { gate = g }, passing))
turn n (some e) s passing = some (s, returned (suc e))
turn n none s passing = some (record s { gate = s.gate + 1 }, returned 0)
turn n fault s (turned_away k) = none
turn n fault s (returned k) = none

-- One thread of a list takes a turn.
pub data Step (n : ℕ) : Shared × List Pc → Shared × List Pc → Type 0 where
  step :
      (xs ys : List Pc) (p q : Pc) (s s' : Shared) (fault : Option ℕ)
      → turn n fault s p ≡ some (s', q)
      → Step n (s, xs ++ p ∷ ys) (s', xs ++ q ∷ ys)

-- Any number of turns.
pub data Reach (n : ℕ) (a : Shared × List Pc) : Shared × List Pc → Type 0 where
  start : Reach n a a
  after : {b c : Shared × List Pc} → Reach n a b → Step n b c → Reach n a c

-- What `barrier_init` leaves.
abbrev pub at_init : Shared
at_init = record { count = 0; mutex = 1; gate = 0 }
