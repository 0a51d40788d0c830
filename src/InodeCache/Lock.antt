-- ===== src/InodeCache/Lock.antt =====
-- `inode_cache_lock` and `inode_cache_unlock`: an advisory lock on a file beside the entry.
use pdistcc.Base.{
  ℤ, pos, negsuc, neg, is_zero, true, false, Bool, ◌++◌, none, some, Bytes, ascii, if◌then◌else◌,
}
use pdistcc.System.World.{
  unlocked, shared, exclusive, Ptr, Env, M, pure, ◌>>=◌, ◌>>◌, get_errno, enomem,
}
use pdistcc.System.Files.{read_only, write_truncate_create, openat, close, flock}
use pdistcc.System.Memory.{asprintf, free}

-- The name of the lock file.
unfoldable pub lock_name : Bytes → Bytes
lock_name entry_name = entry_name ++ ascii ".lock"

module _ ⦃env : Env⦄ where
  -- `if (fd >= 0) close(fd);`
  abbrev pub close_open : ℤ → M (Unit {0})
  close_open (negsuc n) w = (tt, w)
  close_open (pos n) w = (tt, (close (pos n) w).1)

  -- What follows the label `out`.
  unfoldable pub lock_out : ℤ → ℤ → Ptr → M ℤ
  lock_out fd err name = do
    free name
    elim (is_zero err) [
      | true ↦ pure fd
      | false ↦ do close_open fd; elim err [ pos e ↦ pure (neg e) | negsuc e ↦ pure (negsuc e) ]
    ]

  -- After `flock`.
  unfoldable pub lock_granted : ℤ → ℤ → Ptr → M ℤ
  unfolding lock_out
  lock_granted (negsuc n) fd name = do e ← get_errno; lock_out fd (neg e) name
  lock_granted (pos n) fd name = lock_out fd (pos 0) name

  -- After `openat` of the lock file.
  unfoldable pub lock_opened : ℤ → Bool → Ptr → M ℤ
  unfolding lock_granted
  lock_opened (negsuc n) wants_exclusive name = do e ← get_errno; lock_out (negsuc n) (neg e) name
  lock_opened (pos n) wants_exclusive name = do
    r ← flock (pos n) (if wants_exclusive then exclusive else shared)
    lock_granted r (pos n) name

  -- After `asprintf`.
  unfoldable pub lock_named : ℤ → Ptr → Bool → M ℤ
  unfolding lock_opened
  lock_named dirfd none wants_exclusive = lock_out (neg enomem) (pos 0) none
  lock_named dirfd (some s) wants_exclusive = do
    fd ← openat dirfd s.text (if wants_exclusive then write_truncate_create else read_only)
    lock_opened fd wants_exclusive (some s)

  -- `inode_cache_lock`
  unfoldable pub inode_cache_lock : ℤ → Bytes → Bool → M ℤ
  unfolding lock_named lock_name
  inode_cache_lock dirfd entry_name wants_exclusive = do
    name ← asprintf (lock_name entry_name)
    lock_named dirfd name wants_exclusive

  -- `inode_cache_unlock`
  unfoldable pub inode_cache_unlock : ℤ → M (Unit {0})
  inode_cache_unlock lockfd = do flock lockfd unlocked; close lockfd; pure tt
