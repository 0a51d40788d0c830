-- ===== src/InodeCache/Concurrent/Turn.antt =====
-- inode_cache_put, inode_cache_get and inode_cache_del of c/inodecache.c, one call of the operating
-- system on the entry or its lock file at a time, and the processes that run them.
use pdistcc.Base.{
  ℕ, suc, ◌+◌, ◌-◌, Bool, true, false, List, [], ◌∷◌, ◌++◌, Option, none, some, Bytes, ◌≡◌, ◌==◌,
  length, take, drop, min, if◌then◌else◌, c_string,
}
use pdistcc.System.World.{enoent, enomem}

-- An entry and its lock file; `readers` and `writers` count the locks that are held on the latter,
-- the shared and the exclusive ones.
pub record Shared : Type 0 where
  pub lock_file : Bool
  pub readers : ℕ
  pub writers : ℕ
  pub entry : Option Bytes

-- Where a process stands, with what it keeps. A result is 0 or an errno, or 1 for -EXIT_FAILURE.
pub data Pc : Type 0 where
  -- put, of a text: before `openat` of the lock file, before `flock`, before `openat` of the entry
  put_locking : Bytes → Pc
  put_waiting : Bytes → Pc
  put_opening : Bytes → Pc
  -- before `write`: what has been written and what has not
  put_writing : Bytes → Bytes → Pc
  put_syncing : Pc
  put_closing : Pc
  -- before `inode_cache_unlock`, and behind it
  put_unlocking : ℕ → Pc
  put_returned : ℕ → Pc
  -- the same, when a `write` has failed
  torn_unlocking : ℕ → Pc
  torn_returned : ℕ → Pc
  -- get: before `openat` of the lock file, before `flock`, before `openat` of the entry
  get_locking : Pc
  get_waiting : Pc
  get_opening : Pc
  -- before `read`: what has been read; before `strdup` of that
  get_reading : Bytes → Pc
  get_copying : Bytes → Pc
  -- the same, when the file was empty and nothing has been written to the buffer; then before
  -- `inode_cache_unlock` and behind it, with the result 0 and a copy of what the buffer happened to hold
  get_unread : Pc
  unread_unlocking : Pc
  unread_returned : Pc
  -- the same, when `read_entry` has failed with the errno `r + 1`
  get_failing : ℕ → Pc
  -- before `inode_cache_unlock`, and behind it: the result, and the copy, which ends
  -- at the first NUL
  get_unlocking : ℕ → Bytes → Pc
  get_returned : ℕ → Bytes → Pc
  -- del: before `openat` of the lock file, before `flock`, before `unlinkat`
  del_locking : Pc
  del_waiting : Pc
  del_removing : Pc
  del_unlocking : ℕ → Pc
  del_returned : ℕ → Pc

-- What a turn completes: a put or a del has changed the entry, or a get has seen what it holds.
pub data Event : Type 0 where
  changed : Option Bytes → Event
  seen : Option Bytes → Event

abbrev pub Turned : Type 0
Turned = Shared × Pc × Option Event

abbrev silent : Shared → Pc → Option Turned
silent s p = some (s, p, none)

-- What `flock(fd, LOCK_EX)` waits for.
abbrev pub is_free : Shared → Bool
is_free s = s.readers + s.writers == 0

abbrev pub lock_exclusive : Bool → Shared → Pc → Option Turned
lock_exclusive true s p = silent (record s { writers = s.writers + 1 }) p
lock_exclusive false s p = none

abbrev pub lock_shared : Bool → Shared → Pc → Option Turned
lock_shared true s p = silent (record s { readers = s.readers + 1 }) p
lock_shared false s p = none

abbrev unlock_exclusive : Shared → Pc → Option Turned
unlock_exclusive s p = silent (record s { writers = s.writers - 1 }) p

abbrev unlock_shared : Shared → Pc → Option Turned
unlock_shared s p = silent (record s { readers = s.readers - 1 }) p

-- The bytes of a file behind a `write` at an offset.
unfoldable pub written : ℕ → Bytes → Bytes → Bytes
written n b old = take n old ++ (b ++ drop (n + length b) old)

abbrev pub write_file : ℕ → Bytes → Option Bytes → Option Bytes
write_file n b none = none
write_file n b (some old) = some (written n b old)

abbrev pub content : Option Bytes → Bytes
content none = []
content (some c) = c

-- The loop's test behind a `write`.
abbrev pub after_write : Shared → Bytes → Bytes → Turned
after_write s done [] = (s, put_syncing, some (changed (some done)))
after_write s done (x ∷ todo) = (s, put_writing done (x ∷ todo), none)

-- The room of the buffer, without the byte for the terminating NUL.
abbrev pub room : ℕ
room = 511

-- The loop has met the file's end. With an empty file nothing has been written to the buffer, and
-- `result[-1]` is the byte in front of it.
abbrev pub at_end : Bytes → Pc
at_end [] = get_unread
at_end (x ∷ l) = get_copying (x ∷ l)

-- Behind a `read`: the loop ends also when there is no room left.
abbrev pub after_read : Bytes → Bytes → Pc
after_read l [] = at_end l
after_read l (x ∷ b) =
    let all = l ++ x ∷ b in if length all == room then get_failing 0 else get_reading all

-- Behind `openat` of the entry for reading.
abbrev pub open_entry : Shared → Option Bytes → Turned
open_entry s none = (s, get_unlocking enoent [], some (seen none))
open_entry s (some c) = (s, get_reading [], none)

-- Behind `openat` of the lock file for reading.
abbrev pub open_lock : Bool → Pc
open_lock true = get_waiting
open_lock false = get_returned enoent []

-- One call of a process. `fault` is what the call fails with (`some e` is the errno `e + 1`), `chunk`
-- one less than the most bytes that it transfers. A process that has returned, or that a lock
-- blocks, does nothing.
unfoldable pub turn : Option ℕ → ℕ → Shared → Pc → Option Turned
unfolding written
turn (some e) chunk s (put_locking v) = silent s (put_returned (suc e))
turn none chunk s (put_locking v) = silent (record s { lock_file = true }) (put_waiting v)
turn (some e) chunk s (put_waiting v) = silent s (put_returned (suc e))
turn none chunk s (put_waiting v) = lock_exclusive (is_free s) s (put_opening v)
turn (some e) chunk s (put_opening v) = silent s (put_unlocking 1)
turn none chunk s (put_opening v) =
    silent (record s { entry = some [] }) (put_writing [] (v ++ 0 ∷ []))
turn (some e) chunk s (put_writing done todo) = silent s (torn_unlocking (suc e))
turn none chunk s (put_writing done todo) =
    let n = min (length todo) (suc chunk) in
    let b = take n todo in
    some (
      after_write (record s { entry = write_file (length done) b s.entry }) (done ++ b)
        (drop n todo))
turn (some e) chunk s put_syncing = silent s (put_unlocking (suc e))
turn none chunk s put_syncing = silent s put_closing
turn (some e) chunk s put_closing = silent s (put_unlocking (suc e))
turn none chunk s put_closing = silent s (put_unlocking 0)
turn fault chunk s (put_unlocking e) = unlock_exclusive s (put_returned e)
turn fault chunk s (put_returned e) = none
turn fault chunk s (torn_unlocking e) = unlock_exclusive s (torn_returned e)
turn fault chunk s (torn_returned e) = none
turn (some e) chunk s get_locking = silent s (get_returned (suc e) [])
turn none chunk s get_locking = silent s (open_lock s.lock_file)
turn (some e) chunk s get_waiting = silent s (get_returned (suc e) [])
turn none chunk s get_waiting = lock_shared (s.writers == 0) s get_opening
turn (some e) chunk s get_opening = silent s (get_unlocking (suc e) [])
turn none chunk s get_opening = some (open_entry s s.entry)
turn (some e) chunk s (get_reading l) = silent s (get_failing e)
turn none chunk s (get_reading l) =
    silent s
      (after_read l (take (min (room - length l) (suc chunk)) (drop (length l) (content s.entry))))
turn (some e) chunk s (get_copying l) = silent s (get_unlocking enomem [])
turn none chunk s (get_copying l) = some (s, get_unlocking 0 (c_string l), some (seen (some l)))
turn (some e) chunk s get_unread = silent s (get_unlocking enomem [])
turn none chunk s get_unread = some (s, unread_unlocking, some (seen (some [])))
turn fault chunk s unread_unlocking = unlock_shared s unread_returned
turn fault chunk s unread_returned = none
turn (some e) chunk s (get_failing r) = silent s (get_unlocking enomem [])
turn none chunk s (get_failing r) = silent s (get_unlocking (suc r) [])
turn fault chunk s (get_unlocking e l) = unlock_shared s (get_returned e l)
turn fault chunk s (get_returned e l) = none
turn (some e) chunk s del_locking = silent s (del_returned (suc e))
turn none chunk s del_locking = silent (record s { lock_file = true }) del_waiting
turn (some e) chunk s del_waiting = silent s (del_returned (suc e))
turn none chunk s del_waiting = lock_exclusive (is_free s) s del_removing
turn (some e) chunk s del_removing = silent s (del_unlocking (suc e))
turn none chunk s del_removing =
    some (record s { entry = none }, del_unlocking 0, some (changed none))
turn fault chunk s (del_unlocking e) = unlock_exclusive s (del_returned e)
turn fault chunk s (del_returned e) = none

abbrev pub logged : Option Event → List Event → List Event
logged none log = log
logged (some v) log = v ∷ log

-- The processes, and the events, the last one first.
pub record System : Type 0 where
  pub shared : Shared
  pub processes : List Pc
  pub log : List Event

-- A process takes a turn.
pub data Step : System → System → Type 0 where
  step :
      (xs ys : List Pc) (p q : Pc) (s s' : Shared) (ev : Option Event) (log : List Event)
      (fault : Option ℕ) (chunk : ℕ)
      → turn fault chunk s p ≡ some (s', q, ev)
      → Step
          (record { shared = s; processes = xs ++ p ∷ ys; log = log })
          (record { shared = s'; processes = xs ++ q ∷ ys; log = logged ev log })

-- Any number of turns.
pub data Reach (a : System) : System → Type 0 where
  start : Reach a a
  after : {b c : System} → Reach a b → Step b c → Reach a c
