-- ===== src/InodeCache/Concurrent/Tests.antt =====
-- A put and a get of one entry at the same time, and the theorems about them at concrete inputs.
use pdistcc.Base.{
  ℕ, [], ◌∷◌, ◌≡◌, refl, none, some, Bytes, Bool, true, false, Option, ◌⊎◌, List, ascii,
}
use pdistcc.InodeCache.Concurrent.Turn.{
  Shared, Pc, put_locking, put_waiting, put_opening, put_writing, get_locking, get_waiting, Event,
  turn, System, step, Reach, start, after,
}
use pdistcc.InodeCache.Concurrent.Locks.{total, excludes, shares}
use pdistcc.InodeCache.Concurrent.Safety.{put, get, all_begin, beginning, concurrent-exclusive}

abbrev sharing : Bool → ℕ → ℕ → Option Bytes → Shared
sharing b r w e = record { lock_file = b; readers = r; writers = w; entry = e }

abbrev system : Shared → List Pc → List Event → System
system s l log = record { shared = s; processes = l; log = log }

abbrev x0 : Bytes
x0 = 120 ∷ 0 ∷ []

-- The put writes its first byte while the get waits for the lock.
put_half : Reach (beginning false none (put (ascii "x") ∷ get ∷ [])) (
    system
      (sharing true 0 1 (some (120 ∷ [])))
      (put_writing (120 ∷ []) (0 ∷ []) ∷ get_waiting ∷ [])
      [])
unfolding turn all_begin
put_half =
    (after
      (after
        (after
          (after
            (after start (
              step [] (get_locking ∷ []) (put_locking (ascii "x")) (put_waiting (ascii "x"))
                (sharing false 0 0 none) (sharing true 0 0 none) none [] none 0 refl))
            (step [] (get_locking ∷ []) (put_waiting (ascii "x")) (put_opening (ascii "x"))
              (sharing true 0 0 none) (sharing true 0 1 none) none [] none 0 refl))
          (step [] (get_locking ∷ []) (put_opening (ascii "x")) (put_writing [] x0)
            (sharing true 0 1 none) (sharing true 0 1 (some [])) none [] none 0 refl))
        (step (put_writing [] x0 ∷ []) [] get_locking get_waiting (sharing true 0 1 (some []))
          (sharing true 0 1 (some [])) none [] none 0 refl))
      (step [] (get_waiting ∷ []) (put_writing [] x0) (put_writing (120 ∷ []) (0 ∷ []))
        (sharing true 0 1 (some [])) (sharing true 0 1 (some (120 ∷ []))) none [] none 0 refl))

concurrent-exclusive_example :
    (total excludes (put_writing (120 ∷ []) (0 ∷ []) ∷ get_waiting ∷ []) ≡ 0)
    ⊎ ((total excludes (put_writing (120 ∷ []) (0 ∷ []) ∷ get_waiting ∷ []) ≡ 1)
        × (total shares (put_writing (120 ∷ []) (0 ∷ []) ∷ get_waiting ∷ []) ≡ 0))
concurrent-exclusive_example =
    concurrent-exclusive false none (put (ascii "x") ∷ get ∷ [])
      (system (sharing true 0 1 (some (120 ∷ [])))
        (put_writing (120 ∷ []) (0 ∷ []) ∷ get_waiting ∷ []) [])
      put_half
