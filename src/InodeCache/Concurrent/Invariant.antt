-- ===== src/InodeCache/Concurrent/Invariant.antt =====
-- The invariant of all processes.
use pdistcc.Base.{
  ℕ, ◌+◌, ◌≤◌, List, [], ◌∷◌, ◌++◌, Option, none, some, Bytes, ◌≡◌, ◌∙◌, sym, arith, ◌⊎◌, inl, inr,
  subst,
}
use pdistcc.InodeCache.Concurrent.Turn.{
  get_unread, unread_unlocking, unread_returned, Shared, Pc, put_locking, put_waiting, put_opening,
  put_writing, put_syncing, put_closing, put_unlocking, put_returned, torn_unlocking, torn_returned,
  get_locking, get_waiting, get_opening, get_reading, get_copying, get_failing, get_unlocking,
  get_returned, del_locking, del_waiting, del_removing, del_unlocking, del_returned, Event, changed,
  seen, System, Step, step, logged,
}
use pdistcc.InodeCache.Concurrent.Locks.{
  total, total-append, excludes, shares, torn, IsAlone, Locks, turn-Locks,
}
use pdistcc.InodeCache.Concurrent.Serial.{writes, Knows, AllKnow, contents, IsSerial, Saw, Effects}
use pdistcc.InodeCache.Concurrent.Turns.{turn-Effects}

-- All processes, with what the entry held before them.
pub record IsSound (o : Option Bytes) (a : System) : Type 0 where
  pub excluding : total excludes a.processes ≡ a.shared.writers
  pub sharing : total shares a.processes ≡ a.shared.readers
  pub alone : IsAlone a.shared
  pub knows : AllKnow a.shared.entry a.processes
  pub serial : total torn a.processes ≡ 0 → IsSerial o a.log
  pub current :
      total torn a.processes ≡ 0 → total writes a.processes ≡ 0 → a.shared.entry ≡ contents o a.log

AllKnow-split :
    (e : Option Bytes) (xs ys : List Pc) (p : Pc)
    → AllKnow e (xs ++ p ∷ ys)
    → Knows e p × AllKnow e (xs ++ ys)
AllKnow-split e [] ys p k = k
AllKnow-split e (x ∷ xs) ys p (k, h) = let (a, b) = AllKnow-split e xs ys p h in (a, (k, b))

AllKnow-join :
    (e : Option Bytes) (xs ys : List Pc) (p : Pc)
    → Knows e p
    → AllKnow e (xs ++ ys)
    → AllKnow e (xs ++ p ∷ ys)
AllKnow-join e [] ys p k h = (k, h)
AllKnow-join e (x ∷ xs) ys p k (m, h) = (m, AllKnow-join e xs ys p k h)

-- Without a lock a process knows nothing of the entry.
Knows-free : (e : Option Bytes) (p : Pc) → excludes p ≡ 0 → shares p ≡ 0 → Knows e p
Knows-free e (put_locking v) h k = tt
Knows-free e (put_waiting v) h k = tt
Knows-free e (put_opening v) h k = tt
Knows-free e (put_writing l m) h k = absurd (omega arith)
Knows-free e put_syncing h k = tt
Knows-free e put_closing h k = tt
Knows-free e (put_unlocking r) h k = tt
Knows-free e (put_returned r) h k = tt
Knows-free e (torn_unlocking r) h k = tt
Knows-free e (torn_returned r) h k = tt
Knows-free e get_locking h k = tt
Knows-free e get_waiting h k = tt
Knows-free e get_opening h k = tt
Knows-free e (get_reading l) h k = absurd (omega arith)
Knows-free e (get_copying l) h k = absurd (omega arith)
Knows-free e get_unread h k = absurd (omega arith)
Knows-free e unread_unlocking h k = tt
Knows-free e unread_returned h k = tt
Knows-free e (get_failing r) h k = tt
Knows-free e (get_unlocking r l) h k = tt
Knows-free e (get_returned r l) h k = tt
Knows-free e del_locking h k = tt
Knows-free e del_waiting h k = tt
Knows-free e del_removing h k = tt
Knows-free e (del_unlocking r) h k = tt
Knows-free e (del_returned r) h k = tt

AllKnow-free :
    (e : Option Bytes) (l : List Pc) → total excludes l ≡ 0 → total shares l ≡ 0 → AllKnow e l
unfolding total
AllKnow-free e [] h k = tt
AllKnow-free e (p ∷ l) h k =
    (Knows-free e p (omega arith) (omega arith), AllKnow-free e l (omega arith) (omega arith))

-- Who writes holds the lock.
writes_excludes : (p : Pc) → writes p ≤ excludes p
writes_excludes (put_locking v) = omega arith
writes_excludes (put_waiting v) = omega arith
writes_excludes (put_opening v) = omega arith
writes_excludes (put_writing l m) = omega arith
writes_excludes put_syncing = omega arith
writes_excludes put_closing = omega arith
writes_excludes (put_unlocking r) = omega arith
writes_excludes (put_returned r) = omega arith
writes_excludes (torn_unlocking r) = omega arith
writes_excludes (torn_returned r) = omega arith
writes_excludes get_locking = omega arith
writes_excludes get_waiting = omega arith
writes_excludes get_opening = omega arith
writes_excludes (get_reading l) = omega arith
writes_excludes (get_copying l) = omega arith
writes_excludes get_unread = omega arith
writes_excludes unread_unlocking = omega arith
writes_excludes unread_returned = omega arith
writes_excludes (get_failing r) = omega arith
writes_excludes (get_unlocking r l) = omega arith
writes_excludes (get_returned r l) = omega arith
writes_excludes del_locking = omega arith
writes_excludes del_waiting = omega arith
writes_excludes del_removing = omega arith
writes_excludes (del_unlocking r) = omega arith
writes_excludes (del_returned r) = omega arith

total-writes : (l : List Pc) → total writes l ≤ total excludes l
unfolding total
total-writes [] = ground arith
total-writes (p ∷ l) = omega (arith, total-writes l, writes_excludes p)

-- The others know as much as before.
others-AllKnow :
    (e e' : Option Bytes) (s : Shared) (p : Pc) (l : List Pc)
    → (e' ≡ e) ⊎ (excludes p ≡ 1)
    → IsAlone s
    → total excludes l + excludes p ≡ s.writers
    → total shares l + shares p ≡ s.readers
    → AllKnow e l
    → AllKnow e' l
others-AllKnow e e' s p l (inl i) a w r k = rw i k
others-AllKnow e e' s p l (inr i) (inl a) w r k = absurd (omega arith)
others-AllKnow e e' s p l (inr i) (inr (a, b)) w r k = AllKnow-free e' l (omega arith) (omega arith)

-- Where a reader holds a lock, nobody writes.
nobody_writes :
    (s : Shared) (l : List Pc)
    → IsAlone s
    → total excludes l ≡ s.writers
    → 1 ≤ s.readers
    → total writes l ≡ 0
nobody_writes s l (inl a) w r = omega (arith, total-writes l)
nobody_writes s l (inr (a, b)) w r = absurd (omega arith)

logged-IsSerial :
    (o e : Option Bytes) (held : ℕ) (ev : Option Event) (log : List Event)
    → Saw e held ev
    → (held ≡ 1 → e ≡ contents o log)
    → IsSerial o log
    → IsSerial o (logged ev log)
unfolding IsSerial
logged-IsSerial o e held none log w c i = i
logged-IsSerial o e held (some (changed v)) log w c i = i
logged-IsSerial o e held (some (seen v)) log (w, h) c i = (w ∙ c h, i)

pub Step-IsSound : (o : Option Bytes) (a b : System) → Step a b → IsSound o a → IsSound o b
Step-IsSound o _ _ (step xs ys p q s s' ev log fault chunk e) i =
    let wp = total-append excludes xs ys p in
    let wq = total-append excludes xs ys q in
    let rp = total-append shares xs ys p in
    let rq = total-append shares xs ys q in
    let tp = total-append torn xs ys p in
    let tq = total-append torn xs ys q in
    let vp = total-append writes xs ys p in
    let vq = total-append writes xs ys q in
    let (known, others) = AllKnow-split s.entry xs ys p i.knows in
    let locks : Locks s p (some (s', q, ev)) = subst (Locks s p) e (
      turn-Locks fault chunk s p (omega (arith, i.excluding, wp)) (omega (arith, i.sharing, rp))) in
    let effects : Effects o log s p (some (s', q, ev)) =
      subst (Effects o log s p) e (turn-Effects o log fault chunk s p known) in
    record {
      excluding = omega (arith, i.excluding, locks.0, wp, wq);
      sharing = omega (arith, i.sharing, locks.1, rp, rq);
      alone = locks.3 i.alone (omega (arith, i.excluding, wp)) (omega (arith, i.sharing, rp));
      knows = AllKnow-join s'.entry xs ys q effects.1 (
          others-AllKnow s.entry s'.entry s p (xs ++ ys) effects.0 i.alone (sym wp ∙ i.excluding)
            (sym rp ∙ i.sharing) others);
      serial = λ t.
          let t' : total torn (xs ++ p ∷ ys) ≡ 0 = omega (arith, t, tp, tq, locks.2) in
          logged-IsSerial o s.entry (shares p) ev log effects.2
            (λ h. i.current t' (
              nobody_writes s (xs ++ p ∷ ys) i.alone i.excluding (omega (arith, h, rp, i.sharing))))
            (i.serial t');
      current = λ t w.
          effects.3
            (λ h. i.current (omega (arith, t, tp, tq, locks.2)) (omega (arith, h, w, vp, vq)))
            (omega (arith, t, tq)) (omega (arith, w, vq));
    }
