-- ===== src/InodeCache/RoundTrip/Locking.antt =====
-- `inode_cache_lock` when no call fails.
use pdistcc.Base.{
  ℕ, ◌≤◌, [], ◌∷◌, ◌≡◌, ◌≢◌, ◌∙◌, if◌then◌else◌, refl, Bool, true, false, ℤ, pos, some, Bytes,
  FilePath, arith,
}
use pdistcc.System.World.{World, Handle, directory, regular, shared, exclusive, Ptr, Env, IsQuiet}
use pdistcc.System.Files.{lookup_fd, flock, walk}
use pdistcc.System.Memory.{free}
use pdistcc.System.Keeps.{
  Frame, Frame-trans, Frame-weaken, Keeps, flock-Keeps, free-Keeps, kept_but,
}
use pdistcc.System.Quiet.{IsOpened, asprintf_new, flock_zero, openat_existing, openat_create}
use pdistcc.InodeCache.Lock.{
  lock_name, lock_out, lock_granted, lock_opened, lock_named, inode_cache_lock,
}

-- A descriptor from `b` on, with only the lock file changed, which holds `c`.
pub record IsLocked (b : ℕ) (lock : FilePath) (c : Bytes) (w : World) (r : ℤ × World) : Type 0 where
  pub fd : ℕ
  pub succeeds : r.0 ≡ pos fd
  pub is_new : b ≤ fd
  pub lock_file : r.1.node lock ≡ some (regular c)
  pub frame : Frame b (lock ∷ []) w r.1

IsLocked-before :
    {b : ℕ} {lock : FilePath} {c : Bytes} {v w : World} {r : ℤ × World}
    → Frame b (lock ∷ []) v w
    → IsLocked b lock c w r
    → IsLocked b lock c v r
IsLocked-before f l = record {
  fd = l.fd;
  succeeds = l.succeeds;
  is_new = l.is_new;
  lock_file = l.lock_file;
  frame = Frame-trans f l.frame;
}

module _ ⦃env : Env⦄ (quiet : IsQuiet env) (b : ℕ) where
  keeps_only : {p : FilePath} {w w' : World} → Keeps b w w' → Frame b (p ∷ []) w w'
  keeps_only f = Frame-weaken [] _ (λ q o. tt) f

  -- From the descriptor of the lock file on.
  opened-IsLocked :
      (lock : FilePath) (c : Bytes) (x : Bool) (name : Ptr) (w : World) (r : ℤ × World)
      → IsOpened b lock c w r
      → IsLocked b lock c w (lock_opened r.0 x name r.1)
  unfolding lock_opened lock_granted lock_out
  opened-IsLocked lock c x name w r o = rw o.succeeds (
      rw (flock_zero quiet o.fd (if x then exclusive else shared) o.handle r.1 o.after.is_open)
        (record {
          fd = o.fd;
          succeeds = refl;
          is_new = o.is_new;
          lock_file = unlocked_file;
          frame = Frame-trans o.frame (keeps_only granted);
        }))
    where
      granted : Keeps b r.1 (free name (flock (pos o.fd) (if x then exclusive else shared) r.1).1).1
      granted =
          Frame-trans (flock-Keeps o.fd (if x then exclusive else shared) r.1 o.is_new)
            (free-Keeps name _)

      unlocked_file :
          (free name (flock (pos o.fd) (if x then exclusive else shared) r.1).1).1.node lock
          ≡ some (regular c)
      unlocked_file = granted.nodes lock tt ∙ rw o.same_path at o.after.holds

  module _ (d : ℕ) {hd : Handle} (key : Bytes) (w : World) (found : lookup_fd d w.fds ≡ some hd)
      (walks : walk hd.path (lock_name key) ≡ some (lock_name key ∷ hd.path))
      (h : b ≤ w.next_fd) where
    abbrev lock_path : FilePath
    lock_path = lock_name key ∷ hd.path

    -- For writing the lock file is made, or emptied.
    pub inode_cache_lock_exclusive :
        w.node lock_path ≢ some directory
        → IsLocked b lock_path [] w (inode_cache_lock (pos d) key true w)
    unfolding inode_cache_lock lock_named
    inode_cache_lock_exclusive e = rw (asprintf_new quiet) (
        IsLocked-before (kept_but refl refl refl (omega arith)) (
          opened-IsLocked lock_path [] true _ _ _
            (openat_create quiet d (lock_name key) found walks h e)))

    -- For reading there has to be one.
    pub inode_cache_lock_shared :
        {c : Bytes}
        → w.node lock_path ≡ some (regular c)
        → IsLocked b lock_path c w (inode_cache_lock (pos d) key false w)
    unfolding inode_cache_lock lock_named
    inode_cache_lock_shared {c} e = rw (asprintf_new quiet) (
        IsLocked-before (kept_but refl refl refl (omega arith)) (
          opened-IsLocked lock_path c false _ _ _
            (openat_existing quiet d (lock_name key) found walks h e)))
