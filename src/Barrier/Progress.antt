-- ===== src/Barrier/Progress.antt =====
-- Without failing calls no thread is left behind.
use pdistcc.Base.{
  length-append, subst, ℕ, ◌+◌, ◌*◌, ◌≤◌, ◌<◌, List, [], ◌∷◌, ◌++◌, none, some, ◌≡◌, refl, arith,
  ap, ap₂, replicate, length, Bool-cases, inl, inr, ◌⊎◌, ◌==◌,
}
use pdistcc.Barrier.Wait.{
  Shared, Pc, entering, counting, storing, testing, opening, abandoning, leaving, waiting, passing,
  turned_away, returned, turn, at_init,
}
use pdistcc.Barrier.Counts.{total, total-arrived_le, holds, arrived}
use pdistcc.Barrier.Live.{IsLive, opens, erred, total-rank_le, Run, Run-IsLive}

-- A thread of the list, and the turn that it can take.
pub record CanGo (n : ℕ) (s : Shared) (l : List Pc) : Type 0 where
  pub before : List Pc
  pub behind : List Pc
  pub who : Pc
  pub there : l ≡ before ++ who ∷ behind
  pub result : Shared × Pc
  pub goes : turn n none s who ≡ some result

-- A thread with a weight.
record Weighs (f : Pc → ℕ) (l : List Pc) : Type 0 where
  before : List Pc
  behind : List Pc
  who : Pc
  there : l ≡ before ++ who ∷ behind
  weight : 1 ≤ f who

total-Weighs : (f : Pc → ℕ) (l : List Pc) → 1 ≤ total f l → Weighs f l
unfolding total
total-Weighs f [] h = absurd (omega arith)
total-Weighs f (p ∷ l) h = elim (Bool-cases (f p == 0)) [
  | inl e ↦
      let w = total-Weighs f l (ground arith) in
      record {
        before = p ∷ w.before;
        behind = w.behind;
        who = w.who;
        there = ap (λ t. p ∷ t) w.there;
        weight = w.weight;
      }
  | inr e ↦ record { before = []; behind = l; who = p; there = refl; weight = ground arith }
]

-- A thread that holds the mutex can go on.
holder_goes :
    (n : ℕ) (s : Shared) (p : Pc) → 1 ≤ holds p → (r : Shared × Pc) × (turn n none s p ≡ some r)
unfolding turn
holder_goes n s counting h = (_, refl)
holder_goes n s (storing c) h = (_, refl)
holder_goes n s testing h = (_, refl)
holder_goes n s opening h = (_, refl)
holder_goes n s (abandoning c) h = (_, refl)
holder_goes n s leaving h = (_, refl)
holder_goes n s entering h = absurd (omega arith)
holder_goes n s waiting h = absurd (omega arith)
holder_goes n s passing h = absurd (omega arith)
holder_goes n s (turned_away c) h = absurd (omega arith)
holder_goes n s (returned c) h = absurd (omega arith)

abbrev enters : Pc → ℕ
enters entering = 1
enters _ = 0

abbrev waits : Pc → ℕ
waits waiting = 1
waits _ = 0

abbrev passes : Pc → ℕ
passes passing = 1
passes _ = 0

length-total_le :
    (l : List Pc) → length l ≤ total arrived l + total enters l + total holds l + total erred l
unfolding total
length-total_le [] = omega arith
length-total_le (p ∷ l) = omega (arith, length-total_le l, bound p)
  where
    bound : (p : Pc) → 1 ≤ arrived p + enters p + holds p + erred p
    bound p = ground arith

total-opens_le : (l : List Pc) → total opens l ≤ total holds l + total passes l
unfolding total
total-opens_le [] = omega arith
total-opens_le (p ∷ l) = omega (arith, total-opens_le l, bound p)
  where
    bound : (p : Pc) → opens p ≤ holds p + passes p
    bound p = ground arith

total-replicate_returned :
    (l : List Pc)
    → total holds l + total enters l + total passes l + total waits l + total erred l ≡ 0
    → l ≡ replicate (length l) (returned 0)
unfolding total
total-replicate_returned [] h = refl
total-replicate_returned (p ∷ l) h =
    ap₂ (λ x t. x ∷ t) (done p (omega arith)) (total-replicate_returned l (omega arith))
  where
    done : (p : Pc) → holds p + enters p + passes p + waits p + erred p ≡ 0 → p ≡ returned 0
    done p h = ground arith

module _ (n : ℕ) (s : Shared) (l : List Pc) where
  go :
      {f : Pc → ℕ} (w : Weighs f l)
      → (r : Shared × Pc) × (turn n none s w.who ≡ some r)
      → CanGo n s l
  go w (r, e) = record {
    before = w.before;
    behind = w.behind;
    who = w.who;
    there = w.there;
    result = r;
    goes = e;
  }

  entering_goes :
      (p : Pc) → 1 ≤ enters p → s.mutex ≡ 1 → (r : Shared × Pc) × (turn n none s p ≡ some r)
  unfolding turn
  entering_goes entering h e = rw e (_, refl)
  entering_goes p h e = absurd (ground arith)

  passing_goes : (p : Pc) → 1 ≤ passes p → (r : Shared × Pc) × (turn n none s p ≡ some r)
  unfolding turn
  passing_goes passing h = (_, refl)
  passing_goes p h = absurd (ground arith)

  waiting_goes :
      (p : Pc) → 1 ≤ waits p → s.gate ≡ 1 → (r : Shared × Pc) × (turn n none s p ≡ some r)
  unfolding turn
  waiting_goes waiting h e = rw e (_, refl)
  waiting_goes p h e = absurd (ground arith)

  -- Nobody holds the mutex or is before it.
  gate_goes :
      (k : ℕ)
      → IsLive n k s l
      → total holds l ≡ 0
      → total enters l ≡ 0
      → CanGo n s l ⊎ (l ≡ replicate n (returned 0))
  gate_goes k i h0 e0 = elim (Bool-cases (total passes l == 0)) [
    | inr e ↦
        let w = total-Weighs passes l (ground arith) in inl (go w (passing_goes w.who w.weight))
    | inl p ↦ elim (Bool-cases (total waits l == 0)) [
      | inr e ↦
          let w = total-Weighs waits l (ground arith) in
          inl (go w (waiting_goes w.who w.weight (gate w (ground arith))))
      | inl e ↦ inr (finished (ground arith) (ground arith))
    ]
  ]
    where
      gate : Weighs waits l → total passes l ≡ 0 → s.gate ≡ 1
      gate w p0 =
          let full : s.count ≡ n =
            omega
              (arith, i.size, i.healthy, i.sound.counted, length-total_le l, total-arrived_le l) in
          let some_one : 0 < n =
            omega (arith, i.size, ap length w.there, length-append w.before (w.who ∷ w.behind)) in
          omega (arith, i.opened full some_one, total-opens_le l)

      finished : total passes l ≡ 0 → total waits l ≡ 0 → l ≡ replicate n (returned 0)
      finished p0 w0 =
          subst (λ m. l ≡ replicate m (returned 0)) i.size
            (total-replicate_returned l (omega (arith, i.healthy)))

  pub IsLive-CanGo : (k : ℕ) → IsLive n k s l → CanGo n s l ⊎ (l ≡ replicate n (returned 0))
  IsLive-CanGo k i = elim (Bool-cases (total holds l == 0)) [
    | inr e ↦
        let w = total-Weighs holds l (ground arith) in inl (go w (holder_goes n s w.who w.weight))
    | inl h ↦ elim (Bool-cases (total enters l == 0)) [
      | inr e ↦
          let free : s.mutex ≡ 1 = ground (arith, i.held) in
          let w = total-Weighs enters l (ground arith) in
          inl (go w (entering_goes w.who w.weight free))
      | inl e ↦ gate_goes k i (ground arith) (ground arith)
    ]
  ]

-- If no semaphore call fails, no run of n threads through a new barrier of n has more than 8 n turns,
-- and in each state that a run reaches some thread can take a turn, or all n have returned 0: so
-- every run that goes on while it can ends with all of them through.
pub barrier_wait-CanGo :
    (n k : ℕ) (s : Shared) (l : List Pc)
    → Run n (at_init, replicate n entering) k (s, l)
    → (k ≤ 8 * n) × (CanGo n s l ⊎ (l ≡ replicate n (returned 0)))
barrier_wait-CanGo n k s l r =
    let i = Run-IsLive n k (s, l) r in
    (omega (arith, i.progress, i.size, total-rank_le l), IsLive-CanGo n s l k i)
