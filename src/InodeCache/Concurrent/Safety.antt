-- ===== src/InodeCache/Concurrent/Safety.antt =====
-- Concurrent gets see whole texts, in an order that all agree on.
use pdistcc.Base.{List, [], ◌∷◌, Option, Bytes, ◌≡◌, refl, arith, ◌⊎◌, inl, Bool}
use pdistcc.InodeCache.Concurrent.Turn.{
  Pc, put_locking, get_locking, del_locking, System, Reach, start, after,
}
use pdistcc.InodeCache.Concurrent.Locks.{total, excludes, shares}
use pdistcc.InodeCache.Concurrent.Serial.{writes, AllKnow, contents, IsSerial}
use pdistcc.InodeCache.Concurrent.Intended.{AllLogged}
use pdistcc.InodeCache.Concurrent.Reported.{AllReported}
use pdistcc.InodeCache.Concurrent.Defined.{unread}
use pdistcc.InodeCache.Concurrent.Invariant.{IsSound, Step-IsSound}

pub data Call : Type 0 where
  put : Bytes → Call
  get : Call
  del : Call

abbrev pub begins : Call → Pc
begins (put v) = put_locking v
begins get = get_locking
begins del = del_locking

unfoldable pub all_begin : List Call → List Pc
all_begin [] = []
all_begin (c ∷ l) = begins c ∷ all_begin l

-- Nobody holds the lock, and nobody knows of the entry.
record AreNew (e : Option Bytes) (l : List Pc) : Type 0 where
  excluding : total excludes l ≡ 0
  sharing : total shares l ≡ 0
  knows : AllKnow e l

all_begin-AreNew : (e : Option Bytes) (l : List Call) → AreNew e (all_begin l)
unfolding total all_begin
all_begin-AreNew e [] = record { excluding = refl; sharing = refl; knows = tt }
all_begin-AreNew e (put v ∷ l) =
    let n = all_begin-AreNew e l in
    record {
      excluding = omega (arith, n.excluding);
      sharing = omega (arith, n.sharing);
      knows = (tt, n.knows);
    }
all_begin-AreNew e (get ∷ l) =
    let n = all_begin-AreNew e l in
    record {
      excluding = omega (arith, n.excluding);
      sharing = omega (arith, n.sharing);
      knows = (tt, n.knows);
    }
all_begin-AreNew e (del ∷ l) =
    let n = all_begin-AreNew e l in
    record {
      excluding = omega (arith, n.excluding);
      sharing = omega (arith, n.sharing);
      knows = (tt, n.knows);
    }

abbrev pub beginning : Bool → Option Bytes → List Call → System
beginning b e l = record {
  shared = record { lock_file = b; readers = 0; writers = 0; entry = e };
  processes = all_begin l;
  log = [];
}

beginning-IsSound : (b : Bool) (e : Option Bytes) (l : List Call) → IsSound e (beginning b e l)
unfolding contents IsSerial
beginning-IsSound b e l =
    let n = all_begin-AreNew e l in
    record {
      excluding = n.excluding;
      sharing = n.sharing;
      alone = inl refl;
      knows = n.knows;
      serial = λ t. tt;
      current = λ t w. refl;
    }

Reach-IsSound : (o : Option Bytes) (a b : System) → Reach a b → IsSound o a → IsSound o b
Reach-IsSound o a _ start i = i
Reach-IsSound o a c (after {b} r s) i = Step-IsSound o b c s (Reach-IsSound o a b r i)

-- A put with this text is among the calls.
abbrev pub IsPut : List Call → Bytes → Type 0
IsPut [] v = ⊥
IsPut (put w ∷ l) v = (v ≡ w) ⊎ IsPut l v
IsPut (get ∷ l) v = IsPut l v
IsPut (del ∷ l) v = IsPut l v

-- What the log explains, for the entry before the calls and for the calls.
pub record IsExplained (e : Option Bytes) (l : List Call) (a : System) : Type 0 where
  -- a get has seen what the put or del before it in the log has left
  pub serial : IsSerial e a.log
  -- a put has written the text that it was called with, and the NUL
  pub texts : AllLogged (IsPut l) a.log
  -- a get that returns 0 returns what it has seen, up to the first NUL
  pub reported : AllReported a.log a.processes
  -- no get has succeeded with a copy of memory that was never written
  pub defined : total unread a.processes ≡ 0
  -- the entry is what the put or del that is the last in the log has left, unless a put is at work
  pub current : total writes a.processes ≡ 0 → a.shared.entry ≡ contents e a.log

-- Whichever calls fail, at no time does another process hold the entry's lock where one holds it
-- exclusively.
pub concurrent-exclusive :
    (b : Bool) (e : Option Bytes) (l : List Call) (a : System)
    → Reach (beginning b e l) a
    → (total excludes a.processes ≡ 0)
      ⊎ ((total excludes a.processes ≡ 1) × (total shares a.processes ≡ 0))
concurrent-exclusive b e l a r =
    let i = Reach-IsSound e (beginning b e l) a r (beginning-IsSound b e l) in
    rw (i.excluding, i.sharing) i.alone
