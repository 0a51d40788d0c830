-- ===== src/Barrier/Counts.antt =====
-- How many threads stand where.
use pdistcc.Base.{
  ℕ, zero, suc, ◌+◌, ◌≤◌, List, [], ◌∷◌, ◌++◌, ◌≡◌, refl, arith, ◌==◌, if◌then◌else◌, replicate,
  length,
}
use pdistcc.Barrier.Wait.{
  Pc, counting, storing, testing, opening, abandoning, leaving, waiting, passing, returned,
}

-- The sum of a weight over all threads.
unfoldable pub total : (Pc → ℕ) → List Pc → ℕ
total f [] = 0
total f (p ∷ l) = f p + total f l

pub total-append :
    (f : Pc → ℕ) (xs ys : List Pc) (p : Pc) → total f (xs ++ p ∷ ys) ≡ total f (xs ++ ys) + f p
unfolding total
total-append f [] ys p = omega arith
total-append f (x ∷ xs) ys p = omega (arith, total-append f xs ys p)

pub total-replicate : (f : Pc → ℕ) (n : ℕ) (p : Pc) → f p ≡ 0 → total f (replicate n p) ≡ 0
unfolding total
total-replicate f zero p e = refl
total-replicate f (suc n) p e = omega (arith, total-replicate f n p e)

-- It holds the mutex.
abbrev pub holds : Pc → ℕ
holds counting = 1
holds (storing c) = 1
holds testing = 1
holds opening = 1
holds (abandoning e) = 1
holds leaving = 1
holds _ = 0

-- It has counted itself.
abbrev pub arrived : Pc → ℕ
arrived testing = 1
arrived opening = 1
arrived (abandoning e) = 1
arrived leaving = 1
arrived waiting = 1
arrived passing = 1
arrived (returned e) = 1
arrived _ = 0

-- It opens the gate, holds it open, or has passed it.
abbrev pub through : Pc → ℕ
through opening = 1
through passing = 1
through (returned zero) = 1
through _ = 0

-- It is about to store something else than one more than the count `c`.
abbrev pub stale : ℕ → Pc → ℕ
stale c (storing d) = if d == c then 0 else 1
stale c _ = 0

-- Without a holder nobody stores.
pub total-stale : (c : ℕ) (l : List Pc) → total holds l ≡ 0 → total (stale c) l ≡ 0
unfolding total
total-stale c [] h = refl
total-stale c (p ∷ l) h = omega (arith, total-stale c l (omega arith), bound p)
  where
    bound : (p : Pc) → stale c p ≤ holds p
    bound p = ground arith

-- All have counted themselves.
abbrev pub AllArrived : List Pc → Type 0
AllArrived [] = Unit
AllArrived (p ∷ l) = (arrived p ≡ 1) × AllArrived l

arrived_le : (p : Pc) → arrived p ≤ 1
arrived_le p = ground arith

pub total-arrived_le : (l : List Pc) → total arrived l ≤ length l
unfolding total
total-arrived_le [] = omega arith
total-arrived_le (p ∷ l) = omega (arith, total-arrived_le l, arrived_le p)

pub total-AllArrived : (l : List Pc) → length l ≤ total arrived l → AllArrived l
unfolding total
total-AllArrived [] h = tt
total-AllArrived (p ∷ l) h = (
  omega (arith, total-arrived_le l, arrived_le p),
  total-AllArrived l (omega (arith, arrived_le p)),
)
