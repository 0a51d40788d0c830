-- ===== src/InodeCache/Concurrent/Intended.antt =====
-- What is logged as written is a text that a put was called with.
use mathlib.Core.List.{append_assoc, append-nil}
use pdistcc.Base.{
  ℕ, suc, Bool, true, false, List, [], ◌∷◌, ◌++◌, Option, none, some, Bytes, ◌≡◌, refl, ◌∙◌, ap,
  sym, subst, ◌==◌, length, take, drop, min, arith, inl, inr, Bool-cases, take-append-drop,
}
use pdistcc.InodeCache.Concurrent.Turn.{
  get_unread, unread_unlocking, unread_returned, Shared, Pc, put_locking, put_waiting, put_opening,
  put_writing, put_syncing, put_closing, put_unlocking, put_returned, torn_unlocking, torn_returned,
  get_locking, get_waiting, get_opening, get_reading, get_copying, get_failing, get_unlocking,
  get_returned, del_locking, del_waiting, del_removing, del_unlocking, del_returned, Event, changed,
  seen, Turned, after_write, after_read, open_entry, open_lock, lock_exclusive, is_free, room, turn,
  System, Step, step, write_file, logged,
}

-- `P` says which texts puts are called with.
module _ (P : Bytes → Type 0) where
  -- The bytes of a text, with the NUL.
  abbrev pub IsText0 : Bytes → Type 0
  IsText0 c = (v : Bytes) × P v × (c ≡ v ++ 0 ∷ [])

  abbrev pub Intends : Pc → Type 0
  Intends (put_locking v) = P v
  Intends (put_waiting v) = P v
  Intends (put_opening v) = P v
  Intends (put_writing l m) = IsText0 (l ++ m)
  Intends _ = Unit

  abbrev pub AllIntend : List Pc → Type 0
  AllIntend [] = Unit
  AllIntend (p ∷ l) = Intends p × AllIntend l

  abbrev IsLogged : Option Event → Type 0
  IsLogged none = Unit
  IsLogged (some (seen o)) = Unit
  IsLogged (some (changed none)) = Unit
  IsLogged (some (changed (some c))) = IsText0 c

  -- Each text in the log is one that a put was called with.
  abbrev pub AllLogged : List Event → Type 0
  AllLogged [] = Unit
  AllLogged (v ∷ log) = IsLogged (some v) × AllLogged log

  AllLogged-logged :
      (ev : Option Event) (log : List Event)
      → IsLogged ev
      → AllLogged log
      → AllLogged (logged ev log)
  AllLogged-logged none log h k = k
  AllLogged-logged (some v) log h k = (h, k)

  AllIntend-split :
      (xs ys : List Pc) (p : Pc) → AllIntend (xs ++ p ∷ ys) → Intends p × AllIntend (xs ++ ys)
  AllIntend-split [] ys p h = h
  AllIntend-split (x ∷ xs) ys p (k, h) = let (a, b) = AllIntend-split xs ys p h in (a, (k, b))

  AllIntend-join :
      (xs ys : List Pc) (p : Pc) → Intends p → AllIntend (xs ++ ys) → AllIntend (xs ++ p ∷ ys)
  AllIntend-join [] ys p k h = (k, h)
  AllIntend-join (x ∷ xs) ys p k (m, h) = (m, AllIntend-join xs ys p k h)

  abbrev Means : Option Turned → Type 0
  Means none = Unit
  Means (some (s', q, ev)) = Intends q × IsLogged ev

  after_write-Means :
      (s : Shared) (l m : Bytes) → IsText0 (l ++ m) → Means (some (after_write s l m))
  after_write-Means s l [] h = (tt, subst IsText0 (append-nil l) h)
  after_write-Means s l (x ∷ m) h = (h, tt)

  open_entry-Means : (s : Shared) (o : Option Bytes) → Means (some (open_entry s o))
  open_entry-Means s none = (tt, tt)
  open_entry-Means s (some c) = (tt, tt)

  open_lock-Intends : (b : Bool) → Intends (open_lock b)
  open_lock-Intends false = tt
  open_lock-Intends true = tt

  after_read-Intends : (l b : Bytes) → Intends (after_read l b)
  after_read-Intends [] [] = tt
  after_read-Intends (y ∷ l) [] = tt
  after_read-Intends l (x ∷ b) = elim (Bool-cases (length (l ++ x ∷ b) == room)) [
    | inl e ↦ rw e tt
    | inr e ↦ rw e tt
  ]

  lock_exclusive-Means : (b : Bool) (s : Shared) (p : Pc) → Intends p → Means (lock_exclusive b s p)
  lock_exclusive-Means false s p h = tt
  lock_exclusive-Means true s p h = (h, tt)

  turn-Means :
      (fault : Option ℕ) (chunk : ℕ) (s : Shared) (p : Pc)
      → Intends p
      → Means (turn fault chunk s p)
  unfolding turn
  turn-Means (some e) chunk s (put_locking v) h = (tt, tt)
  turn-Means none chunk s (put_locking v) h = (h, tt)
  turn-Means (some e) chunk s (put_waiting v) h = (tt, tt)
  turn-Means none chunk s (put_waiting v) h = lock_exclusive-Means (is_free s) s (put_opening v) h
  turn-Means (some e) chunk s (put_opening v) h = (tt, tt)
  turn-Means none chunk s (put_opening v) h = ((v, h, refl), tt)
  turn-Means (some e) chunk s (put_writing l m) h = (tt, tt)
  turn-Means none chunk s (put_writing l m) h =
      let n = min (length m) (suc chunk) in
      let b = take n m in
      let same : (l ++ b) ++ drop n m ≡ l ++ m =
        append_assoc l b (drop n m) ∙ ap (λ k. l ++ k) (take-append-drop n m) in
      after_write-Means (record s { entry = write_file (length l) b s.entry }) (l ++ b) (drop n m)
        (subst IsText0 (sym same) h)
  turn-Means (some e) chunk s put_syncing h = (tt, tt)
  turn-Means none chunk s put_syncing h = (tt, tt)
  turn-Means (some e) chunk s put_closing h = (tt, tt)
  turn-Means none chunk s put_closing h = (tt, tt)
  turn-Means fault chunk s (put_unlocking r) h = (tt, tt)
  turn-Means fault chunk s (put_returned r) h = tt
  turn-Means fault chunk s (torn_unlocking r) h = (tt, tt)
  turn-Means fault chunk s (torn_returned r) h = tt
  turn-Means (some e) chunk s get_locking h = (tt, tt)
  turn-Means none chunk s get_locking h = (open_lock-Intends s.lock_file, tt)
  turn-Means (some e) chunk s get_waiting h = (tt, tt)
  turn-Means none chunk s get_waiting h = ground arith
  turn-Means (some e) chunk s get_opening h = (tt, tt)
  turn-Means none chunk s get_opening h = open_entry-Means s s.entry
  turn-Means (some e) chunk s (get_reading l) h = (tt, tt)
  turn-Means none chunk s (get_reading l) h = (after_read-Intends l _, tt)
  turn-Means (some e) chunk s (get_copying l) h = (tt, tt)
  turn-Means none chunk s (get_copying l) h = (tt, tt)
  turn-Means (some e) chunk s get_unread h = (tt, tt)
  turn-Means none chunk s get_unread h = (tt, tt)
  turn-Means fault chunk s unread_unlocking h = (tt, tt)
  turn-Means fault chunk s unread_returned h = tt
  turn-Means (some e) chunk s (get_failing r) h = (tt, tt)
  turn-Means none chunk s (get_failing r) h = (tt, tt)
  turn-Means fault chunk s (get_unlocking r l) h = (tt, tt)
  turn-Means fault chunk s (get_returned r l) h = tt
  turn-Means (some e) chunk s del_locking h = (tt, tt)
  turn-Means none chunk s del_locking h = (tt, tt)
  turn-Means (some e) chunk s del_waiting h = (tt, tt)
  turn-Means none chunk s del_waiting h = lock_exclusive-Means (is_free s) s del_removing tt
  turn-Means (some e) chunk s del_removing h = (tt, tt)
  turn-Means none chunk s del_removing h = (tt, tt)
  turn-Means fault chunk s (del_unlocking r) h = (tt, tt)
  turn-Means fault chunk s (del_returned r) h = tt

  pub Step-AllLogged :
      (a b : System)
      → Step a b
      → AllIntend a.processes × AllLogged a.log
      → AllIntend b.processes × AllLogged b.log
  Step-AllLogged _ _ (step xs ys p q s s' ev log fault chunk e) (h, k) =
      let (known, others) = AllIntend-split xs ys p h in
      let (m, n) = subst Means e (turn-Means fault chunk s p known) in
      (AllIntend-join xs ys q m others, AllLogged-logged ev log n k)
