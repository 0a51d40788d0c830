-- ===== src/InodeCache/Concurrent/Serial.antt =====
-- What the processes on an entry see of each other.
use mathlib.Core.List.{append_assoc, append-nil}
use pdistcc.Base.{
  ℕ, zero, suc, ◌+◌, ◌≤◌, List, [], ◌∷◌, ◌++◌, Option, none, some, Bytes, ◌≡◌, refl, ◌∙◌, ap, sym,
  ◌==◌, length, take, drop, arith, ◌⊎◌, inl, inr, ◌<◌, take_all, drop_past, length-append,
  length-take, take-append-drop, Bool-cases,
}
use pdistcc.InodeCache.Concurrent.Turn.{
  get_unread, Shared, Pc, put_writing, get_opening, get_reading, get_copying, Event, changed, seen,
  Turned, after_write, after_read, open_entry, written, room, write_file, logged,
}
use pdistcc.InodeCache.Concurrent.Locks.{excludes, shares, torn}

-- It has written a part of a text.
abbrev pub writes : Pc → ℕ
writes (put_writing l m) = 1
writes _ = 0

-- What the process knows of the entry.
abbrev pub Knows : Option Bytes → Pc → Type 0
Knows o (put_writing l m) = o ≡ some l
Knows o (get_reading l) = (length l < room) × (rest : Bytes) × (o ≡ some (l ++ rest))
Knows o (get_copying l) = o ≡ some l
Knows o get_unread = o ≡ some []
Knows o _ = Unit

abbrev pub AllKnow : Option Bytes → List Pc → Type 0
AllKnow o [] = Unit
AllKnow o (p ∷ l) = Knows o p × AllKnow o l

-- What the entry holds when the events have been carried out one by one.
unfoldable pub contents : Option Bytes → List Event → Option Bytes
contents o [] = o
contents o (changed v ∷ log) = v
contents o (seen v ∷ log) = contents o log

-- Each get has seen what the entry held then.
unfoldable pub IsSerial : Option Bytes → List Event → Type 0
unfolding contents
IsSerial o [] = Unit
IsSerial o (changed v ∷ log) = IsSerial o log
IsSerial o (seen v ∷ log) = (v ≡ contents o log) × IsSerial o log

-- What an event has to do with the entry before a turn of a process that holds a lock.
abbrev pub Saw : Option Bytes → ℕ → Option Event → Type 0
Saw o held none = Unit
Saw o held (some (changed v)) = Unit
Saw o held (some (seen v)) = (v ≡ o) × (held ≡ 1)

-- What a turn does to the entry; `o` is what it held before all events, `log` the events before the
-- turn.
abbrev pub Effects : Option Bytes → List Event → Shared → Pc → Option Turned → Type 0
Effects o log s p none = Unit
Effects o log s p (some (s', q, ev)) =
    ((s'.entry ≡ s.entry) ⊎ (excludes p ≡ 1))
    × Knows s'.entry q
    × Saw s.entry (shares p) ev
    × ((writes p ≡ 0 → s.entry ≡ contents o log)
        → torn q ≡ 0
        → writes q ≡ 0
        → s'.entry ≡ contents o (logged ev log))

written_end : (b l : Bytes) → written (length l) b l ≡ l ++ b
unfolding written
written_end b l = rw (take_all l, drop_past l (length b), append-nil b) refl

pub write_file_end :
    (b l : Bytes) (o : Option Bytes) → o ≡ some l → write_file (length l) b o ≡ some (l ++ b)
write_file_end b l o e = rw e (ap some (written_end b l))

pub after_write-Effects :
    (o : Option Bytes) (log : List Event) (s s' : Shared) (l m done todo : Bytes)
    → s'.entry ≡ some done
    → Effects o log s (put_writing l m) (some (after_write s' done todo))
unfolding contents
after_write-Effects o log s s' l m done [] e = (inr refl, tt, tt, λ h t w. e)
after_write-Effects o log s s' l m done (x ∷ todo) e =
    (inr refl, e, tt, λ h t w. absurd (ground (arith, w)))

pub open_entry-Effects :
    (o : Option Bytes) (log : List Event) (s : Shared) (e : Option Bytes)
    → s.entry ≡ e
    → Effects o log s get_opening (some (open_entry s e))
unfolding contents
open_entry-Effects o log s none e = (inl refl, tt, (sym e, refl), λ h t w. h refl)
open_entry-Effects o log s (some c) e = (inl refl, (ground arith, c, e), tt, λ h t w. h refl)

-- A `read` for `n` bytes, one at least, of which `rest` is left.
pub after_read-Knows :
    (l rest : Bytes) (n : ℕ)
    → 0 < n
    → length l + n ≤ room
    → Knows (some (l ++ rest)) (after_read l (take n rest))
after_read-Knows [] [] (suc n) h k = refl
after_read-Knows (y ∷ l) [] (suc n) h k = ap some (append-nil (y ∷ l))
after_read-Knows l rest zero h k = absurd (omega arith)
after_read-Knows l (x ∷ rest) (suc n) h k =
    let b = take n rest in
    let all = l ++ x ∷ b in
    elim (Bool-cases (length all == room)) [
      | inl e ↦ rw e tt
      | inr e ↦ rw e (
        ground (arith, length-append l (x ∷ b), length-take n rest),
        drop n rest,
        ap some (
            ap (λ k. l ++ x ∷ k) (sym (take-append-drop n rest))
            ∙ sym (append_assoc l (x ∷ b) (drop n rest))),
      )
    ]
