-- ===== src/InodeCache/Concurrent/Defined.antt =====
-- No get finds an empty file.
use pdistcc.Base.{
  ℕ, List, [], ◌∷◌, ◌++◌, Option, none, some, Bytes, ◌≡◌, ◌≢◌, refl, ◌∙◌, sym, arith, inl, inr, ap,
}
use pdistcc.InodeCache.Concurrent.Turn.{
  Pc, put_locking, put_waiting, put_opening, put_writing, put_syncing, put_closing, put_unlocking,
  put_returned, torn_unlocking, torn_returned, get_locking, get_waiting, get_opening, get_reading,
  get_copying, get_failing, get_unread, unread_unlocking, unread_returned, get_unlocking,
  get_returned, del_locking, del_waiting, del_removing, del_unlocking, del_returned, Event, changed,
  seen,
}
use pdistcc.InodeCache.Concurrent.Locks.{total}
use pdistcc.InodeCache.Concurrent.Serial.{contents, IsSerial}
use pdistcc.InodeCache.Concurrent.Reported.{IsIn, IsReported, AllReported}
use pdistcc.InodeCache.Concurrent.Intended.{IsText0, AllLogged}

-- A get that succeeds with a copy of a buffer to which nothing has been written.
abbrev pub unread : Pc → ℕ
unread unread_unlocking = 1
unread unread_returned = 1
unread _ = 0

text_nonempty : (v : Bytes) → some (v ++ 0 ∷ []) ≢ some []
text_nonempty [] = ground arith
text_nonempty (x ∷ v) = ground arith

IsText0-ne : (P : Bytes → Type 0) (c : Bytes) → IsText0 P c → some c ≢ some []
IsText0-ne P c (v, p, e) = rw e (text_nonempty v)

-- If there is no empty file at first, there is none between the events.
contents-ne :
    (P : Bytes → Type 0) (e : Option Bytes) (log : List Event)
    → AllLogged P log
    → e ≢ some []
    → contents e log ≢ some []
unfolding contents
contents-ne P e [] l h = h
contents-ne P e (changed none ∷ log) l h = ground arith
contents-ne P e (changed (some c) ∷ log) (t, l) h = IsText0-ne P c t
contents-ne P e (seen v ∷ log) (t, l) h = contents-ne P e log l h

seen_same : (v w : Option Bytes) → seen v ≡ seen w → v ≡ w
seen_same v w i = ap seen_of i
  where
    seen_of : Event → Option Bytes
    seen_of (seen v) = v
    seen_of (changed v) = v

none_seen :
    (P : Bytes → Type 0) (e : Option Bytes) (log : List Event)
    → IsSerial e log
    → AllLogged P log
    → e ≢ some []
    → ¬ IsIn (seen (some [])) log
unfolding IsSerial
none_seen P e [] s l h i = i
none_seen P e (changed v ∷ log) s (t, l) h (inl i) = absurd (ground (arith, i))
none_seen P e (changed v ∷ log) s (t, l) h (inr i) = none_seen P e log s l h i
none_seen P e (seen v ∷ log) (c, s) (t, l) h (inl i) =
    contents-ne P e log l h (sym c ∙ seen_same v (some []) (sym i))
none_seen P e (seen v ∷ log) (c, s) (t, l) h (inr i) = none_seen P e log s l h i

unread_zero :
    (log : List Event) (p : Pc) → ¬ IsIn (seen (some [])) log → IsReported log p → unread p ≡ 0
unread_zero log (put_locking v) n h = refl
unread_zero log (put_waiting v) n h = refl
unread_zero log (put_opening v) n h = refl
unread_zero log (put_writing l m) n h = refl
unread_zero log put_syncing n h = refl
unread_zero log put_closing n h = refl
unread_zero log (put_unlocking r) n h = refl
unread_zero log (put_returned r) n h = refl
unread_zero log (torn_unlocking r) n h = refl
unread_zero log (torn_returned r) n h = refl
unread_zero log get_locking n h = refl
unread_zero log get_waiting n h = refl
unread_zero log get_opening n h = refl
unread_zero log (get_reading l) n h = refl
unread_zero log (get_copying l) n h = refl
unread_zero log (get_failing r) n h = refl
unread_zero log get_unread n h = refl
unread_zero log unread_unlocking n h = absurd (n h)
unread_zero log unread_returned n h = absurd (n h)
unread_zero log (get_unlocking r l) n h = refl
unread_zero log (get_returned r l) n h = refl
unread_zero log del_locking n h = refl
unread_zero log del_waiting n h = refl
unread_zero log del_removing n h = refl
unread_zero log (del_unlocking r) n h = refl
unread_zero log (del_returned r) n h = refl

pub total-unread :
    (P : Bytes → Type 0) (e : Option Bytes) (log : List Event) (l : List Pc)
    → IsSerial e log
    → AllLogged P log
    → e ≢ some []
    → AllReported log l
    → total unread l ≡ 0
unfolding total
total-unread P e log l s t h r = all_zero l r
  where
    all_zero : (l : List Pc) → AllReported log l → total unread l ≡ 0
    all_zero [] r = refl
    all_zero (p ∷ l) (a, r) =
        omega (arith, unread_zero log p (none_seen P e log s t h) a, all_zero l r)
