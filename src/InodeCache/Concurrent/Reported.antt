-- ===== src/InodeCache/Concurrent/Reported.antt =====
-- What a get returns is what the log says that it has seen.
use pdistcc.Base.{
  ℕ, zero, suc, Bool, true, false, List, [], ◌∷◌, ◌++◌, Option, none, some, Bytes, ◌≡◌, refl, ◌==◌,
  length, take, drop, min, arith, ◌⊎◌, inl, inr, Bool-cases, subst, c_string,
}
use pdistcc.InodeCache.Concurrent.Turn.{
  get_unread, unread_unlocking, unread_returned, Shared, Pc, put_locking, put_waiting, put_opening,
  put_writing, put_syncing, put_closing, put_unlocking, put_returned, torn_unlocking, torn_returned,
  get_locking, get_waiting, get_opening, get_reading, get_copying, get_failing, get_unlocking,
  get_returned, del_locking, del_waiting, del_removing, del_unlocking, del_returned, Event, seen,
  Turned, after_write, after_read, open_entry, open_lock, room, turn, System, Step, step,
  write_file, logged,
}

abbrev pub IsIn : Event → List Event → Type 0
IsIn v [] = ⊥
IsIn v (w ∷ log) = (v ≡ w) ⊎ IsIn v log

-- What a get returns is a copy of what it has been logged with.
abbrev pub IsCopied : List Event → Bytes → Type 0
IsCopied log v = (c : Bytes) × (v ≡ c_string c) × IsIn (seen (some c)) log

-- A get that succeeds has been logged with what it has copied, or with an empty file.
abbrev pub IsReported : List Event → Pc → Type 0
IsReported log (get_unlocking zero l) = IsCopied log l
IsReported log (get_returned zero l) = IsCopied log l
IsReported log unread_unlocking = IsIn (seen (some [])) log
IsReported log unread_returned = IsIn (seen (some [])) log
IsReported log _ = Unit

abbrev pub AllReported : List Event → List Pc → Type 0
AllReported log [] = Unit
AllReported log (p ∷ l) = IsReported log p × AllReported log l

IsIn-logged :
    (v : Event) (ev : Option Event) (log : List Event) → IsIn v log → IsIn v (logged ev log)
IsIn-logged v none log h = h
IsIn-logged v (some w) log h = inr h

IsReported-logged :
    (ev : Option Event) (log : List Event) (p : Pc)
    → IsReported log p
    → IsReported (logged ev log) p
IsReported-logged ev log (put_locking v) h = tt
IsReported-logged ev log (put_waiting v) h = tt
IsReported-logged ev log (put_opening v) h = tt
IsReported-logged ev log (put_writing l m) h = tt
IsReported-logged ev log put_syncing h = tt
IsReported-logged ev log put_closing h = tt
IsReported-logged ev log (put_unlocking r) h = tt
IsReported-logged ev log (put_returned r) h = tt
IsReported-logged ev log (torn_unlocking r) h = tt
IsReported-logged ev log (torn_returned r) h = tt
IsReported-logged ev log get_locking h = tt
IsReported-logged ev log get_waiting h = tt
IsReported-logged ev log get_opening h = tt
IsReported-logged ev log (get_reading l) h = tt
IsReported-logged ev log (get_copying l) h = tt
IsReported-logged ev log get_unread h = tt
IsReported-logged ev log unread_unlocking h = IsIn-logged (seen (some [])) ev log h
IsReported-logged ev log unread_returned h = IsIn-logged (seen (some [])) ev log h
IsReported-logged ev log (get_failing r) h = tt
IsReported-logged ev log (get_unlocking zero l) (c, e, h) =
    (c, e, IsIn-logged (seen (some c)) ev log h)
IsReported-logged ev log (get_unlocking (suc r) l) h = tt
IsReported-logged ev log (get_returned zero l) (c, e, h) =
    (c, e, IsIn-logged (seen (some c)) ev log h)
IsReported-logged ev log (get_returned (suc r) l) h = tt
IsReported-logged ev log del_locking h = tt
IsReported-logged ev log del_waiting h = tt
IsReported-logged ev log del_removing h = tt
IsReported-logged ev log (del_unlocking r) h = tt
IsReported-logged ev log (del_returned r) h = tt

AllReported-logged :
    (ev : Option Event) (log : List Event) (l : List Pc)
    → AllReported log l
    → AllReported (logged ev log) l
AllReported-logged ev log [] h = tt
AllReported-logged ev log (p ∷ l) (h, k) =
    (IsReported-logged ev log p h, AllReported-logged ev log l k)

AllReported-split :
    (log : List Event) (xs ys : List Pc) (p : Pc)
    → AllReported log (xs ++ p ∷ ys)
    → IsReported log p × AllReported log (xs ++ ys)
AllReported-split log [] ys p h = h
AllReported-split log (x ∷ xs) ys p (k, h) =
    let (a, b) = AllReported-split log xs ys p h in (a, (k, b))

AllReported-join :
    (log : List Event) (xs ys : List Pc) (p : Pc)
    → IsReported log p
    → AllReported log (xs ++ ys)
    → AllReported log (xs ++ p ∷ ys)
AllReported-join log [] ys p k h = (k, h)
AllReported-join log (x ∷ xs) ys p k (m, h) = (m, AllReported-join log xs ys p k h)

abbrev Reports : List Event → Option Turned → Type 0
Reports log none = Unit
Reports log (some (s', q, ev)) = IsReported (logged ev log) q

after_write-Reports :
    (log : List Event) (s : Shared) (l m : Bytes) → Reports log (some (after_write s l m))
after_write-Reports log s l [] = tt
after_write-Reports log s l (x ∷ m) = tt

open_entry-Reports :
    (log : List Event) (s : Shared) (o : Option Bytes) → Reports log (some (open_entry s o))
open_entry-Reports log s none = tt
open_entry-Reports log s (some c) = tt

open_lock-IsReported : (log : List Event) (b : Bool) → IsReported log (open_lock b)
open_lock-IsReported log false = tt
open_lock-IsReported log true = tt

after_read-IsReported : (log : List Event) (l b : Bytes) → IsReported log (after_read l b)
after_read-IsReported log [] [] = tt
after_read-IsReported log (y ∷ l) [] = tt
after_read-IsReported log l (x ∷ b) = elim (Bool-cases (length (l ++ x ∷ b) == room)) [
  | inl e ↦ rw e tt
  | inr e ↦ rw e tt
]

turn-Reports :
    (fault : Option ℕ) (chunk : ℕ) (s : Shared) (p : Pc) (log : List Event)
    → IsReported log p
    → Reports log (turn fault chunk s p)
unfolding turn
turn-Reports (some e) chunk s (put_locking v) log h = tt
turn-Reports none chunk s (put_locking v) log h = tt
turn-Reports (some e) chunk s (put_waiting v) log h = tt
turn-Reports none chunk s (put_waiting v) log h = ground arith
turn-Reports (some e) chunk s (put_opening v) log h = tt
turn-Reports none chunk s (put_opening v) log h = tt
turn-Reports (some e) chunk s (put_writing l m) log h = tt
turn-Reports none chunk s (put_writing l m) log h =
    let n = min (length m) (suc chunk) in
    let b = take n m in
    after_write-Reports log (record s { entry = write_file (length l) b s.entry }) (l ++ b)
      (drop n m)
turn-Reports (some e) chunk s put_syncing log h = tt
turn-Reports none chunk s put_syncing log h = tt
turn-Reports (some e) chunk s put_closing log h = tt
turn-Reports none chunk s put_closing log h = tt
turn-Reports fault chunk s (put_unlocking r) log h = tt
turn-Reports fault chunk s (put_returned r) log h = tt
turn-Reports fault chunk s (torn_unlocking r) log h = tt
turn-Reports fault chunk s (torn_returned r) log h = tt
turn-Reports (some e) chunk s get_locking log h = tt
turn-Reports none chunk s get_locking log h = open_lock-IsReported log s.lock_file
turn-Reports (some e) chunk s get_waiting log h = tt
turn-Reports none chunk s get_waiting log h = ground arith
turn-Reports (some e) chunk s get_opening log h = tt
turn-Reports none chunk s get_opening log h = open_entry-Reports log s s.entry
turn-Reports (some e) chunk s (get_reading l) log h = tt
turn-Reports none chunk s (get_reading l) log h = after_read-IsReported log l _
turn-Reports (some e) chunk s (get_copying l) log h = tt
turn-Reports none chunk s (get_copying l) log h = (l, refl, inl refl)
turn-Reports (some e) chunk s get_unread log h = tt
turn-Reports none chunk s get_unread log h = inl refl
turn-Reports fault chunk s unread_unlocking log h = h
turn-Reports fault chunk s unread_returned log h = tt
turn-Reports (some e) chunk s (get_failing r) log h = tt
turn-Reports none chunk s (get_failing r) log h = tt
turn-Reports fault chunk s (get_unlocking zero l) log h = h
turn-Reports fault chunk s (get_unlocking (suc r) l) log h = tt
turn-Reports fault chunk s (get_returned r l) log h = tt
turn-Reports (some e) chunk s del_locking log h = tt
turn-Reports none chunk s del_locking log h = tt
turn-Reports (some e) chunk s del_waiting log h = tt
turn-Reports none chunk s del_waiting log h = ground arith
turn-Reports (some e) chunk s del_removing log h = tt
turn-Reports none chunk s del_removing log h = tt
turn-Reports fault chunk s (del_unlocking r) log h = tt
turn-Reports fault chunk s (del_returned r) log h = tt

pub Step-AllReported :
    (a b : System) → Step a b → AllReported a.log a.processes → AllReported b.log b.processes
Step-AllReported _ _ (step xs ys p q s s' ev log fault chunk e) h =
    let (known, others) = AllReported-split log xs ys p h in
    AllReported-join (logged ev log) xs ys q
      (subst (Reports log) e (turn-Reports fault chunk s p log known))
      (AllReported-logged ev log (xs ++ ys) others)
