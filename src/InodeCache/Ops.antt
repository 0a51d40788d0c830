-- ===== src/InodeCache/Ops.antt =====
-- `struct inode_cache` and its operations.
use pdistcc.Base.{
  ℕ, ◌+◌, ℤ, pos, negsuc, neg, is_neg, is_zero, true, false, [], ◌∷◌, ◌++◌, Option, none, some,
  Bytes, c_string, ltb, leb, length, ◌==◌, if◌then◌else◌,
}
use pdistcc.System.World.{
  Ptr, Env, M, pure, ◌>>=◌, ◌>>◌, get_errno, note_misuse, text_of, einval, enomem, enoent, e2big,
}
use pdistcc.System.Files.{
  read_only, write_truncate_create, path_directory, openat, open_path, unlinkat, close, fsync,
}
use pdistcc.System.Memory.{strdup, free}
use pdistcc.InodeCache.Key.{hash_inode}
use pdistcc.InodeCache.Entry.{read_entry, write_entry}
use pdistcc.InodeCache.Lock.{close_open, inode_cache_lock, inode_cache_unlock}

-- INO_CACHE_ENTRY_MAX_SIZE
abbrev pub ino_cache_entry_max_size : ℕ
ino_cache_entry_max_size = 512

-- `struct inode_cache`; `dir` is `none` for NULL.
pub record InodeCache : Type 0 where
  pub dir : Option Bytes
  pub dirfd : ℤ

-- `if (fd >= 0) inode_cache_unlock(&fd);`
abbrev pub unlock_open : ⦃env : Env⦄ → ℤ → M (Unit {0})
unlock_open (negsuc n) w = (tt, w)
unlock_open (pos n) w = inode_cache_unlock (pos n) w

module _ ⦃env : Env⦄ where
  -- `inode_cache_open`
  unfoldable pub inode_cache_open : InodeCache → M (ℤ × InodeCache)
  inode_cache_open c = elim (is_neg c.dirfd) [
    | false ↦ pure (pos 0, c)
    | true ↦ elim (c.dir) [
      | none ↦ pure (negsuc 0, c)
      | some d ↦ do
        dirfd ← open_path d path_directory
        elim (is_neg dirfd) [
          | true ↦ pure (dirfd, c)
          | false ↦ pure (pos 0, record c { dirfd = dirfd })
        ]
    ]
  ]

  -- `inode_cache_close`
  unfoldable pub inode_cache_close : InodeCache → M InodeCache
  inode_cache_close c = do close c.dirfd; pure (record c { dirfd = negsuc 0 })

  -- `inode_cache_get` from the label `out` on.
  unfoldable pub get_out : ℤ → ℤ → ℤ → Ptr → Option Ptr → M (ℤ × Option Ptr)
  get_out err entry_fd lock_fd entry_name result = do
    close_open entry_fd
    unlock_open lock_fd
    free entry_name
    pure (err, result)

  -- After `strdup(val_buf)`.
  unfoldable pub get_copied : ℤ → ℤ → ℤ → Ptr → Ptr → M (ℤ × Option Ptr)
  unfolding get_out
  get_copied err entry_fd lock_fd entry_name none =
      get_out (neg enomem) entry_fd lock_fd entry_name (some none)
  get_copied err entry_fd lock_fd entry_name (some v) =
      get_out err entry_fd lock_fd entry_name (some (some v))

  -- From the read of the entry on: `strdup(val_buf)` runs on behind the array if no NUL ends it.
  unfoldable pub get_value : ℤ → ℤ → Ptr → M (ℤ × Option Ptr)
  unfolding get_copied c_string
  get_value entry_fd lock_fd entry_name = do
    (err, buf) ← read_entry entry_fd env.stack ino_cache_entry_max_size
    note_misuse (leb ino_cache_entry_max_size (length (c_string buf)))
    value ← strdup (c_string buf)
    get_copied err entry_fd lock_fd entry_name value

  -- After `openat` of the entry.
  unfoldable pub get_opened : ℤ → ℤ → Ptr → Ptr → M (ℤ × Option Ptr)
  unfolding get_value
  get_opened (negsuc n) lock_fd entry_name old = do
    e ← get_errno
    get_out (neg e) (negsuc n) lock_fd entry_name (some old)
  get_opened (pos n) lock_fd entry_name old = get_value (pos n) lock_fd entry_name

  -- After `inode_cache_lock`.
  unfoldable pub get_locked : InodeCache → ℤ → Ptr → Ptr → M (ℤ × Option Ptr)
  unfolding get_opened
  get_locked cache (negsuc n) entry_name old =
      get_out (negsuc n) (negsuc 0) (negsuc n) entry_name (some old)
  get_locked cache (pos n) entry_name old = do
    entry_fd ← openat cache.dirfd (text_of entry_name) read_only
    get_opened entry_fd (pos n) entry_name old

  -- After `hash_inode`.
  unfoldable pub get_hashed : InodeCache → ℤ → Ptr → Ptr → M (ℤ × Option Ptr)
  unfolding get_locked
  get_hashed cache err entry_name old = elim (is_zero err) [
    | false ↦ get_out err (negsuc 0) (negsuc 0) none (some old)
    | true ↦ do
      lock_fd ← inode_cache_lock cache.dirfd (text_of entry_name) false
      get_locked cache lock_fd entry_name old
  ]

  -- `inode_cache_get`: its result, and `*result` after it. The argument `result` is `none` for
  -- NULL, and else what `*result` is before.
  unfoldable pub inode_cache_get : InodeCache → Bytes → ℕ → Option Ptr → M (ℤ × Option Ptr)
  unfolding get_hashed
  inode_cache_get cache path kind none = get_out (neg einval) (negsuc 0) (negsuc 0) none none
  inode_cache_get cache path kind (some old) = do
    (err, entry_name) ← hash_inode path kind
    get_hashed cache err entry_name old

  -- `inode_cache_put` from the label `out` on.
  unfoldable pub put_out : ℤ → ℤ → ℤ → Ptr → M ℤ
  put_out err entry_fd lock_fd entry_name = do
    unlock_open lock_fd
    free entry_name
    close_open entry_fd
    pure err

  -- After `close(entry_fd)`: only on success does `entry_fd` become -1.
  unfoldable pub put_closed : ℤ → ℤ → ℤ → Ptr → M ℤ
  unfolding put_out
  put_closed (negsuc n) entry_fd lock_fd entry_name = do
    e ← get_errno
    put_out (neg e) entry_fd lock_fd entry_name
  put_closed (pos n) entry_fd lock_fd entry_name = put_out (pos 0) (negsuc 0) lock_fd entry_name

  -- After `fsync(entry_fd)`.
  unfoldable pub put_synced : ℤ → ℤ → ℤ → Ptr → M ℤ
  unfolding put_closed
  put_synced (negsuc n) entry_fd lock_fd entry_name = do
    e ← get_errno
    put_out (neg e) entry_fd lock_fd entry_name
  put_synced (pos n) entry_fd lock_fd entry_name = do
    closed ← close entry_fd
    put_closed closed entry_fd lock_fd entry_name

  -- After `write_entry`.
  unfoldable pub put_written : ℤ → ℤ → ℤ → Ptr → M ℤ
  unfolding put_synced
  put_written err entry_fd lock_fd entry_name = elim (is_zero err) [
    | false ↦ put_out err entry_fd lock_fd entry_name
    | true ↦ do synced ← fsync entry_fd; put_synced synced entry_fd lock_fd entry_name
  ]

  -- After `openat` of the entry.
  unfoldable pub put_opened : ℤ → ℤ → Ptr → Bytes → M ℤ
  unfolding put_written
  put_opened (negsuc n) lock_fd entry_name value = put_out (negsuc n) (negsuc n) lock_fd entry_name
  put_opened (pos n) lock_fd entry_name value = do
    err ← write_entry (pos n) (value ++ 0 ∷ [])
    put_written err (pos n) lock_fd entry_name

  -- After `inode_cache_lock`.
  unfoldable pub put_locked : InodeCache → ℤ → Ptr → Bytes → M ℤ
  unfolding put_opened
  put_locked cache (negsuc n) entry_name value = put_out (negsuc n) (negsuc 0) (negsuc n) entry_name
  put_locked cache (pos n) entry_name value = do
    entry_fd ← openat cache.dirfd (text_of entry_name) write_truncate_create
    put_opened entry_fd (pos n) entry_name value

  -- After `hash_inode`.
  unfoldable pub put_hashed : InodeCache → ℤ → Ptr → Bytes → M ℤ
  unfolding put_locked
  put_hashed cache err entry_name value = elim (is_zero err) [
    | false ↦ put_out err (negsuc 0) (negsuc 0) none
    | true ↦ do
      lock_fd ← inode_cache_lock cache.dirfd (text_of entry_name) true
      put_locked cache lock_fd entry_name value
  ]

  -- The part of `inode_cache_put` behind the checks of its arguments.
  unfoldable pub put_checked : InodeCache → Bytes → ℕ → Bytes → M ℤ
  unfolding put_hashed
  put_checked cache path kind value = do
    (err, entry_name) ← hash_inode path kind
    put_hashed cache err entry_name value

  -- `inode_cache_put`; `none` is a NULL argument.
  unfoldable pub inode_cache_put : Option InodeCache → Option Bytes → ℕ → Option Bytes → M ℤ
  unfolding put_checked
  inode_cache_put none path kind value = put_out (neg einval) (negsuc 0) (negsuc 0) none
  inode_cache_put (some c) none kind value = put_out (neg einval) (negsuc 0) (negsuc 0) none
  inode_cache_put (some c) (some p) kind none = put_out (neg einval) (negsuc 0) (negsuc 0) none
  inode_cache_put (some c) (some p) kind (some v) =
      elim (ltb ino_cache_entry_max_size (length v + 1)) [
        | true ↦ put_out (neg e2big) (negsuc 0) (negsuc 0) none
        | false ↦ put_checked c p kind v
      ]

  -- `inode_cache_del` from the label `out` on.
  unfoldable pub del_out : ℤ → ℤ → Ptr → M ℤ
  del_out err lock_fd entry_name = do unlock_open lock_fd; free entry_name; pure err

  -- After `unlinkat`.
  unfoldable pub del_unlinked : ℤ → ℤ → Ptr → M ℤ
  unfolding del_out
  del_unlinked r lock_fd entry_name = elim (is_zero r) [
    | true ↦ del_out (pos 0) lock_fd entry_name
    | false ↦ do e ← get_errno; del_out (if e == enoent then pos 0 else neg e) lock_fd entry_name
  ]

  -- After `inode_cache_lock`.
  unfoldable pub del_locked : InodeCache → ℤ → Ptr → M ℤ
  unfolding del_unlinked
  del_locked cache (negsuc n) entry_name = del_out (negsuc n) (negsuc n) entry_name
  del_locked cache (pos n) entry_name = do
    r ← unlinkat cache.dirfd (text_of entry_name)
    del_unlinked r (pos n) entry_name

  -- After `hash_inode`.
  unfoldable pub del_hashed : InodeCache → ℤ → Ptr → M ℤ
  unfolding del_locked
  del_hashed cache err entry_name = elim (is_zero err) [
    | false ↦ del_out err (negsuc 0) entry_name
    | true ↦ do
      lock_fd ← inode_cache_lock cache.dirfd (text_of entry_name) true
      del_locked cache lock_fd entry_name
  ]

  -- `inode_cache_del`
  unfoldable pub inode_cache_del : InodeCache → Bytes → ℕ → M ℤ
  unfolding del_hashed
  inode_cache_del cache path kind = do
    (err, entry_name) ← hash_inode path kind
    del_hashed cache err entry_name
