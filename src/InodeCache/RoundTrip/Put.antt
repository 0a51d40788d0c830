-- ===== src/InodeCache/RoundTrip/Put.antt =====
-- `inode_cache_put` when no call fails.
use pdistcc.Base.{
  ℕ, suc, ◌+◌, ◌≤◌, ◌<◌, [], ◌∷◌, ◌++◌, ◌≡◌, ◌≢◌, ◌∙◌, refl, subst, false, ℤ, pos, negsuc, Option,
  some, Bytes, FilePath, length, ltb, arith,
}
use pdistcc.System.World.{World, Handle, directory, regular, Ptr, Env, IsQuiet, Stat, text_of}
use pdistcc.System.Files.{lookup_fd, close, fsync, walk}
use pdistcc.System.Frames.{OpenAt}
use pdistcc.System.Keeps.{
  Frame, Frame-trans, Frame-weaken, IsFramed-Frame, Keeps, close-Keeps, fsync-Keeps, free-Keeps,
  kept_but,
}
use pdistcc.System.Quiet.{IsOpened, stat-some, asprintf_new, fsync_zero, close_zero, openat_create}
use pdistcc.System.Resources.{resources-next_fd}
use pdistcc.InodeCache.Balance.Loops.{write_entry-IsNeutral}
use pdistcc.InodeCache.Key.{entry_key, hash_named, hash_stated, hash_inode}
use pdistcc.InodeCache.Entry.{write_entry}
use pdistcc.InodeCache.Lock.{lock_name}
use pdistcc.InodeCache.Writes.{write_entry-Finished}
use pdistcc.InodeCache.Ops.{
  InodeCache, ino_cache_entry_max_size, put_out, put_closed, put_synced, put_written, put_opened,
  put_locked, put_hashed, put_checked, inode_cache_put,
}
use pdistcc.InodeCache.RoundTrip.Names.{
  walk_long, length-entry_key, length-lock_name, path_eq-lock_name, path_eq-lock_name_left,
}
use pdistcc.InodeCache.RoundTrip.Locking.{IsLocked, inode_cache_lock_exclusive}
use pdistcc.InodeCache.ReadOnly.{inode_cache_unlock-Keeps}

-- A successful end that leaves the tree alone.
abbrev Ends : ℕ → World → ℤ × World → Type 0
Ends b w r = (r.0 ≡ pos 0) × Keeps b w r.1

module _ ⦃env : Env⦄ (quiet : IsQuiet env) (b : ℕ) where
  put_out-Ends :
      (n : ℕ) (name : Ptr) (w : World)
      → b ≤ n
      → Ends b w (put_out (pos 0) (negsuc 0) (pos n) name w)
  unfolding put_out
  put_out-Ends n name w h = (refl, Frame-trans (inode_cache_unlock-Keeps n w h) (free-Keeps name _))

  put_synced-Ends :
      (m n : ℕ) (h : Handle) (name : Ptr) (w : World)
      → b ≤ m
      → b ≤ n
      → lookup_fd m w.fds ≡ some h
      → Ends b w (put_synced (pos 0) (pos m) (pos n) name w)
  unfolding put_synced put_closed
  put_synced-Ends m n h name w hm hn e =
      let out = put_out-Ends n name (close (pos m) w).1 hn in
      rw (close_zero quiet m h w e) (out.0, Frame-trans (close-Keeps m w hm) out.1)

  put_written-Ends :
      (m n : ℕ) (h : Handle) (name : Ptr) (w : World)
      → b ≤ m
      → b ≤ n
      → lookup_fd m w.fds ≡ some h
      → Ends b w (put_written (pos 0) (pos m) (pos n) name w)
  unfolding put_written
  put_written-Ends m n h name w hm hn e =
      let still = (fsync-Keeps {b = suc m} (pos m) w).handles m (omega arith) ∙ e in
      let out = put_synced-Ends m n h name (fsync (pos m) w).1 hm hn still in
      rw (fsync_zero quiet (pos m) w) (out.0, Frame-trans (fsync-Keeps (pos m) w) out.1)

  -- The entry holds the value and its NUL; nothing but it has changed.
  record IsStored (entry : FilePath) (value : Bytes) (w : World) (r : ℤ × World) : Type 0 where
    succeeds : r.0 ≡ pos 0
    entry_file : r.1.node entry ≡ some (regular (value ++ 0 ∷ []))
    frame : Frame b (entry ∷ []) w r.1

  put_opened-IsStored :
      (m n : ℕ) (h : Handle) (name : Ptr) (value : Bytes) (w : World)
      → b ≤ m
      → b ≤ n
      → OpenAt m h [] w
      → h.offset ≡ 0
      → IsStored h.path value w (put_opened (pos m) (pos n) name value w)
  unfolding put_opened
  put_opened-IsStored m n h name value w hm hn o e =
      let f = write_entry-Finished quiet m h [] (value ++ 0 ∷ []) w o e in
      let out =
        put_written-Ends m n f.handle name (write_entry (pos m) (value ++ 0 ∷ []) w).1 hm hn
          f.after.is_open in
      rw f.succeeds (record {
        succeeds = out.0;
        entry_file = out.1.nodes h.path tt ∙ (rw f.same_path at f.after.holds);
        frame =
            Frame-trans
              (IsFramed-Frame hm
                (resources-next_fd _ w (write_entry-IsNeutral (pos m) (value ++ 0 ∷ []) w)) f.frame)
              (Frame-weaken [] _ (λ q x. tt) out.1);
      })

-- A cache whose directory is open, and a file that has an inode.
pub record IsReady (d : ℕ) (hd : Handle) (path : Bytes) (st : Stat) (w : World) : Type 0 where
  pub dir_open : lookup_fd d w.fds ≡ some hd
  pub old_fd : d < w.next_fd
  pub file_stat : w.stats path ≡ some st

-- The names of an entry and its lock.
abbrev pub entry_path : ⦃env : Env⦄ → Handle → Stat → ℕ → FilePath
entry_path hd st kind = entry_key st kind ∷ hd.path

abbrev pub lock_file_path : ⦃env : Env⦄ → Handle → Stat → ℕ → FilePath
lock_file_path hd st kind = lock_name (entry_key st kind) ∷ hd.path

-- Neither name is taken by a directory.
pub record IsFree ⦃env : Env⦄ (hd : Handle) (st : Stat) (kind : ℕ) (w : World) : Type 0 where
  pub entry_free : w.node (entry_path hd st kind) ≢ some directory
  pub lock_free : w.node (lock_file_path hd st kind) ≢ some directory

-- The entry holds the value with its NUL, and the lock file is there. But for these two files and
-- for descriptors from `b` on, nothing has changed.
pub record IsPut ⦃env : Env⦄ (b : ℕ) (hd : Handle) (st : Stat) (kind : ℕ) (value : Bytes)
    (w : World) (r : ℤ × World) : Type 0 where
  pub succeeds : r.0 ≡ pos 0
  pub entry_file : r.1.node (entry_path hd st kind) ≡ some (regular (value ++ 0 ∷ []))
  pub lock_file : r.1.node (lock_file_path hd st kind) ≡ some (regular [])
  pub frame : Frame b (entry_path hd st kind ∷ lock_file_path hd st kind ∷ []) w r.1

-- A cache whose directory has been opened.
abbrev pub open_cache : Option Bytes → ℕ → InodeCache
open_cache dir d = record { dir = dir; dirfd = pos d }

module _ ⦃env : Env⦄ (quiet : IsQuiet env) (sixteen : (x : Bytes) → length (env.md5 x) ≡ 16)
    (dir : Option Bytes) (d : ℕ) (hd : Handle) (path : Bytes) (st : Stat) (kind : ℕ) where
  abbrev key : Bytes
  key = entry_key st kind

  -- From the lock on.
  put_locked-IsPut :
      (b n : ℕ) (name : Ptr) (value : Bytes) (w : World)
      → text_of name ≡ key
      → b ≤ n
      → b ≤ w.next_fd
      → lookup_fd d w.fds ≡ some hd
      → w.node (entry_path hd st kind) ≢ some directory
      → w.node (lock_file_path hd st kind) ≡ some (regular [])
      → IsPut b hd st kind value w (put_locked (open_cache dir d) (pos n) name value w)
  unfolding put_locked
  put_locked-IsPut b n name value w named hn hb found unused locked = rw named (
      stored _ (
        openat_create quiet d key found
          (walk_long hd.path key (omega (arith, length-entry_key sixteen st kind))) hb unused))
    where
      stored :
          (r : ℤ × World)
          → IsOpened b (entry_path hd st kind) [] w r
          → IsPut b hd st kind value w (put_opened r.0 (pos n) name value r.1)
      stored r o =
          let s =
            subst (λ p. IsStored quiet b p value r.1 (put_opened (pos o.fd) (pos n) name value r.1))
              o.same_path
              (put_opened-IsStored quiet b o.fd n o.handle name value r.1 o.is_new hn o.after
                o.at_start) in
          let f = Frame-trans o.frame s.frame in
          rw o.succeeds (record {
            succeeds = s.succeeds;
            entry_file = s.entry_file;
            lock_file = f.nodes _ (path_eq-lock_name key hd.path, tt) ∙ locked;
            frame = Frame-weaken (entry_path hd st kind ∷ []) _ (λ q x. (x.0, tt)) f;
          })

  long_key : 3 ≤ length key
  long_key = omega (arith, length-entry_key sixteen st kind)

  pub hash_inode_quiet :
      (w : World)
      → w.stats path ≡ some st
      → hash_inode path kind w ≡ (
        (pos 0, some (record { block = w.next_block; text = key })),
        record w {
          tick = w.tick + 1 + 1;
          blocks = w.next_block ∷ w.blocks;
          next_block = suc w.next_block;
        },
      )
  unfolding hash_inode hash_stated hash_named
  hash_inode_quiet w e = rw (stat-some quiet path st w e) (rw (asprintf_new quiet) refl)

  pub walk-lock_name : walk hd.path (lock_name key) ≡ some (lock_file_path hd st kind)
  walk-lock_name = walk_long hd.path (lock_name key) (omega (arith, long_key, length-lock_name key))

  -- After the lock: `v` is the world before it.
  after_lock :
      (name : Ptr) (value : Bytes) (w v : World) (r : ℤ × World)
      → text_of name ≡ key
      → IsReady d hd path st w
      → IsFree hd st kind w
      → Keeps w.next_fd w v
      → IsLocked w.next_fd (lock_file_path hd st kind) [] v r
      → IsPut w.next_fd hd st kind value w (put_locked (open_cache dir d) r.0 name value r.1)
  after_lock name value w v r named ready unused k l =
      let f = Frame-trans (Frame-weaken [] _ (λ q x. tt) k) l.frame in
      let p =
        put_locked-IsPut w.next_fd l.fd name value r.1 named l.is_new f.grows
          (f.handles d ready.old_fd ∙ ready.dir_open)
          (rw (f.nodes (entry_path hd st kind) (path_eq-lock_name_left key hd.path, tt))
            unused.entry_free)
          l.lock_file in
      rw l.succeeds (record {
        succeeds = p.succeeds;
        entry_file = p.entry_file;
        lock_file = p.lock_file;
        frame =
            Frame-trans (Frame-weaken (lock_file_path hd st kind ∷ []) _ (λ q x. x.1) f) p.frame;
      })

  put_checked-IsPut :
      (value : Bytes) (w : World)
      → IsReady d hd path st w
      → IsFree hd st kind w
      → IsPut w.next_fd hd st kind value w (put_checked (open_cache dir d) path kind value w)
  unfolding put_checked put_hashed
  put_checked-IsPut value w ready unused = rw (hash_inode_quiet w ready.file_stat) (
      after_lock (some (record { block = w.next_block; text = key })) value w _ _ refl ready unused
        (kept_but refl refl refl (omega arith))
        (inode_cache_lock_exclusive quiet w.next_fd d key _ ready.dir_open walk-lock_name
          (omega arith) unused.lock_free))

  -- If no call fails, a value of at most 511 characters is stored: `inode_cache_put` returns 0, the
  -- entry of the file's inode holds the value with its NUL, its lock file is there, and no other
  -- file and no descriptor that was open has changed. The cache's directory is open, the file has
  -- an inode, a digest has 16 bytes, and no directory has the name of the entry or of its lock.
  pub inode_cache_put-IsPut :
      (value : Bytes) (w : World)
      → IsReady d hd path st w
      → IsFree hd st kind w
      → length value < ino_cache_entry_max_size
      → IsPut w.next_fd hd st kind value w
          (inode_cache_put (some (open_cache dir d)) (some path) kind (some value) w)
  unfolding inode_cache_put
  inode_cache_put-IsPut value w ready unused short =
      rw (fits, inode_cache_put) (put_checked-IsPut value w ready unused)
    where
      fits : ltb ino_cache_entry_max_size (length value + 1) ≡ false
      fits = ground arith
