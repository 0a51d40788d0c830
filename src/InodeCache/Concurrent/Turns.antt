-- ===== src/InodeCache/Concurrent/Turns.antt =====
-- What each turn does to the entry.
use pdistcc.Base.{
  ℕ, suc, ◌-◌, Bool, true, false, List, ◌++◌, Option, none, some, Bytes, refl, sym, length, take,
  drop, min, arith, inl, inr, drop-length-append,
}
use pdistcc.InodeCache.Concurrent.Turn.{
  get_unread, unread_unlocking, unread_returned, Shared, Pc, put_locking, put_waiting, put_opening,
  put_writing, put_syncing, put_closing, put_unlocking, put_returned, torn_unlocking, torn_returned,
  get_locking, get_waiting, get_opening, get_reading, get_copying, get_failing, get_unlocking,
  get_returned, del_locking, del_waiting, del_removing, del_unlocking, del_returned, Event,
  after_read, open_lock, room, turn, write_file, content,
}
use pdistcc.InodeCache.Concurrent.Serial.{
  Knows, contents, Effects, write_file_end, after_write-Effects, open_entry-Effects,
  after_read-Knows,
}

open_lock-Knows : (e : Option Bytes) (b : Bool) → Knows e (open_lock b)
open_lock-Knows e false = tt
open_lock-Knows e true = tt

read-Knows :
    (e : Option Bytes) (l : Bytes) (chunk : ℕ)
    → Knows e (get_reading l)
    → Knows e
        (after_read l (take (min (room - length l) (suc chunk)) (drop (length l) (content e))))
read-Knows e l chunk (h, rest, k) =
    rw (k, drop-length-append l rest)
      (after_read-Knows l rest (min (room - length l) (suc chunk)) (omega arith) (omega arith))

pub turn-Effects :
    (o : Option Bytes) (log : List Event) (fault : Option ℕ) (chunk : ℕ) (s : Shared) (p : Pc)
    → Knows s.entry p
    → Effects o log s p (turn fault chunk s p)
unfolding turn contents
turn-Effects o log (some e) chunk s (put_locking v) k = (inl refl, tt, tt, λ h t w. h refl)
turn-Effects o log none chunk s (put_locking v) k = (inl refl, tt, tt, λ h t w. h refl)
turn-Effects o log (some e) chunk s (put_waiting v) k = (inl refl, tt, tt, λ h t w. h refl)
turn-Effects o log none chunk s (put_waiting v) k = ground arith
turn-Effects o log (some e) chunk s (put_opening v) k = (inl refl, tt, tt, λ h t w. h refl)
turn-Effects o log none chunk s (put_opening v) k =
    (inr refl, refl, tt, λ h t w. absurd (ground (arith, w)))
turn-Effects o log (some e) chunk s (put_writing l m) k =
    (inl refl, tt, tt, λ h t w. absurd (ground (arith, t)))
turn-Effects o log none chunk s (put_writing l m) k =
    let n = min (length m) (suc chunk) in
    let b = take n m in
    after_write-Effects o log s (record s { entry = write_file (length l) b s.entry }) l m (l ++ b)
      (drop n m) (write_file_end b l s.entry k)
turn-Effects o log (some e) chunk s put_syncing k = (inl refl, tt, tt, λ h t w. h refl)
turn-Effects o log none chunk s put_syncing k = (inl refl, tt, tt, λ h t w. h refl)
turn-Effects o log (some e) chunk s put_closing k = (inl refl, tt, tt, λ h t w. h refl)
turn-Effects o log none chunk s put_closing k = (inl refl, tt, tt, λ h t w. h refl)
turn-Effects o log fault chunk s (put_unlocking e) k = (inl refl, tt, tt, λ h t w. h refl)
turn-Effects o log fault chunk s (put_returned e) k = tt
turn-Effects o log fault chunk s (torn_unlocking e) k = (inl refl, tt, tt, λ h t w. h refl)
turn-Effects o log fault chunk s (torn_returned e) k = tt
turn-Effects o log (some e) chunk s get_locking k = (inl refl, tt, tt, λ h t w. h refl)
turn-Effects o log none chunk s get_locking k =
    (inl refl, open_lock-Knows s.entry s.lock_file, tt, λ h t w. h refl)
turn-Effects o log (some e) chunk s get_waiting k = (inl refl, tt, tt, λ h t w. h refl)
turn-Effects o log none chunk s get_waiting k = ground arith
turn-Effects o log (some e) chunk s get_opening k = (inl refl, tt, tt, λ h t w. h refl)
turn-Effects o log none chunk s get_opening k = open_entry-Effects o log s s.entry refl
turn-Effects o log (some e) chunk s (get_reading l) k = (inl refl, tt, tt, λ h t w. h refl)
turn-Effects o log none chunk s (get_reading l) k =
    (inl refl, read-Knows s.entry l chunk k, tt, λ h t w. h refl)
turn-Effects o log (some e) chunk s (get_copying l) k = (inl refl, tt, tt, λ h t w. h refl)
turn-Effects o log none chunk s (get_copying l) k = (inl refl, tt, (sym k, refl), λ h t w. h refl)
turn-Effects o log (some e) chunk s get_unread k = (inl refl, tt, tt, λ h t w. h refl)
turn-Effects o log none chunk s get_unread k = (inl refl, tt, (sym k, refl), λ h t w. h refl)
turn-Effects o log fault chunk s unread_unlocking k = (inl refl, tt, tt, λ h t w. h refl)
turn-Effects o log fault chunk s unread_returned k = tt
turn-Effects o log (some e) chunk s (get_failing r) k = (inl refl, tt, tt, λ h t w. h refl)
turn-Effects o log none chunk s (get_failing r) k = (inl refl, tt, tt, λ h t w. h refl)
turn-Effects o log fault chunk s (get_unlocking e l) k = (inl refl, tt, tt, λ h t w. h refl)
turn-Effects o log fault chunk s (get_returned e l) k = tt
turn-Effects o log (some e) chunk s del_locking k = (inl refl, tt, tt, λ h t w. h refl)
turn-Effects o log none chunk s del_locking k = (inl refl, tt, tt, λ h t w. h refl)
turn-Effects o log (some e) chunk s del_waiting k = (inl refl, tt, tt, λ h t w. h refl)
turn-Effects o log none chunk s del_waiting k = ground arith
turn-Effects o log (some e) chunk s del_removing k = (inl refl, tt, tt, λ h t w. h refl)
turn-Effects o log none chunk s del_removing k = (inr refl, tt, tt, λ h t w. refl)
turn-Effects o log fault chunk s (del_unlocking e) k = (inl refl, tt, tt, λ h t w. h refl)
turn-Effects o log fault chunk s (del_returned e) k = tt
