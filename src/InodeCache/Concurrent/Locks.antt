-- ===== src/InodeCache/Concurrent/Locks.antt =====
-- Who holds the lock of an entry.
use pdistcc.Base.{ℕ, ◌+◌, ◌≤◌, List, [], ◌∷◌, ◌++◌, Option, none, some, ◌≡◌, arith, ◌⊎◌}
use pdistcc.InodeCache.Concurrent.Turn.{
  get_unread, unread_unlocking, unread_returned, Shared, Pc, put_locking, put_waiting, put_opening,
  put_writing, put_syncing, put_closing, put_unlocking, put_returned, torn_unlocking, torn_returned,
  get_locking, get_waiting, get_opening, get_reading, get_copying, get_failing, get_unlocking,
  get_returned, del_locking, del_waiting, del_removing, del_unlocking, del_returned, Turned, turn,
}

-- The sum of a weight over all processes.
unfoldable pub total : (Pc → ℕ) → List Pc → ℕ
total f [] = 0
total f (p ∷ l) = f p + total f l

pub total-append :
    (f : Pc → ℕ) (xs ys : List Pc) (p : Pc) → total f (xs ++ p ∷ ys) ≡ total f (xs ++ ys) + f p
unfolding total
total-append f [] ys p = omega arith
total-append f (x ∷ xs) ys p = omega (arith, total-append f xs ys p)

-- It holds the lock, exclusive or shared.
abbrev pub excludes : Pc → ℕ
excludes (put_opening v) = 1
excludes (put_writing l m) = 1
excludes put_syncing = 1
excludes put_closing = 1
excludes (put_unlocking e) = 1
excludes (torn_unlocking e) = 1
excludes del_removing = 1
excludes (del_unlocking e) = 1
excludes _ = 0

abbrev pub shares : Pc → ℕ
shares get_opening = 1
shares (get_reading l) = 1
shares (get_copying l) = 1
shares (get_failing r) = 1
shares get_unread = 1
shares unread_unlocking = 1
shares (get_unlocking e l) = 1
shares _ = 0

-- One of its `write` calls has failed.
abbrev pub torn : Pc → ℕ
torn (torn_unlocking e) = 1
torn (torn_returned e) = 1
torn _ = 0

-- The writer is alone.
abbrev pub IsAlone : Shared → Type 0
IsAlone s = (s.writers ≡ 0) ⊎ ((s.writers ≡ 1) × (s.readers ≡ 0))

-- What a turn does to the locks.
abbrev pub Locks : Shared → Pc → Option Turned → Type 0
Locks s p none = Unit
Locks s p (some (s', q, ev)) =
    (s'.writers + excludes p ≡ s.writers + excludes q)
    × (s'.readers + shares p ≡ s.readers + shares q)
    × (torn p ≤ torn q)
    × (IsAlone s → excludes p ≤ s.writers → shares p ≤ s.readers → IsAlone s')

pub turn-Locks :
    (fault : Option ℕ) (chunk : ℕ) (s : Shared) (p : Pc)
    → excludes p ≤ s.writers
    → shares p ≤ s.readers
    → Locks s p (turn fault chunk s p)
unfolding turn
turn-Locks (some e) chunk s (put_locking v) h k = ground arith
turn-Locks none chunk s (put_locking v) h k = ground arith
turn-Locks (some e) chunk s (put_waiting v) h k = ground arith
turn-Locks none chunk s (put_waiting v) h k = ground arith
turn-Locks (some e) chunk s (put_opening v) h k = ground arith
turn-Locks none chunk s (put_opening v) h k = ground arith
turn-Locks (some e) chunk s (put_writing l m) h k = ground arith
turn-Locks none chunk s (put_writing l m) h k = ground arith
turn-Locks (some e) chunk s put_syncing h k = ground arith
turn-Locks none chunk s put_syncing h k = ground arith
turn-Locks (some e) chunk s put_closing h k = ground arith
turn-Locks none chunk s put_closing h k = ground arith
turn-Locks fault chunk s (put_unlocking e) h k = ground arith
turn-Locks fault chunk s (put_returned e) h k = tt
turn-Locks fault chunk s (torn_unlocking e) h k = ground arith
turn-Locks fault chunk s (torn_returned e) h k = tt
turn-Locks (some e) chunk s get_locking h k = ground arith
turn-Locks none chunk s get_locking h k = ground arith
turn-Locks (some e) chunk s get_waiting h k = ground arith
turn-Locks none chunk s get_waiting h k = ground arith
turn-Locks (some e) chunk s get_opening h k = ground arith
turn-Locks none chunk s get_opening h k = ground arith
turn-Locks (some e) chunk s (get_reading l) h k = ground arith
turn-Locks none chunk s (get_reading l) h k = ground arith
turn-Locks (some e) chunk s (get_copying l) h k = ground arith
turn-Locks none chunk s (get_copying l) h k = ground arith
turn-Locks (some e) chunk s get_unread h k = ground arith
turn-Locks none chunk s get_unread h k = ground arith
turn-Locks fault chunk s unread_unlocking h k = ground arith
turn-Locks fault chunk s unread_returned h k = tt
turn-Locks (some e) chunk s (get_failing r) h k = ground arith
turn-Locks none chunk s (get_failing r) h k = ground arith
turn-Locks fault chunk s (get_unlocking e l) h k = ground arith
turn-Locks fault chunk s (get_returned e l) h k = tt
turn-Locks (some e) chunk s del_locking h k = ground arith
turn-Locks none chunk s del_locking h k = ground arith
turn-Locks (some e) chunk s del_waiting h k = ground arith
turn-Locks none chunk s del_waiting h k = ground arith
turn-Locks (some e) chunk s del_removing h k = ground arith
turn-Locks none chunk s del_removing h k = ground arith
turn-Locks fault chunk s (del_unlocking e) h k = ground arith
turn-Locks fault chunk s (del_returned e) h k = tt
