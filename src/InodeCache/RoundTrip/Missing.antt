-- ===== src/InodeCache/RoundTrip/Missing.antt =====
-- `inode_cache_get` when no call fails and there is no entry.
use pdistcc.Base.{
  ℕ, suc, ◌+◌, false, [], ◌∷◌, ◌≡◌, ◌∙◌, refl, ◌⊎◌, inl, inr, ℤ, pos, negsuc, Option, none, some,
  Bytes, length, arith,
}
use pdistcc.System.World.{World, Handle, regular, Ptr, Env, IsQuiet, Stat, text_of}
use pdistcc.System.Files.{lookup_fd, walk}
use pdistcc.System.Quiet.{asprintf_new, openat_missing}
use pdistcc.InodeCache.Key.{entry_key}
use pdistcc.InodeCache.Lock.{lock_name, lock_out, lock_opened, lock_named, inode_cache_lock}
use pdistcc.InodeCache.Ops.{get_out, get_opened, get_locked, get_hashed, inode_cache_get}
use pdistcc.InodeCache.RoundTrip.Names.{walk_long, length-entry_key, path_eq-lock_name_left}
use pdistcc.InodeCache.RoundTrip.Locking.{IsLocked, inode_cache_lock_shared}
use pdistcc.InodeCache.RoundTrip.Put.{
  IsReady, entry_path, lock_file_path, open_cache, hash_inode_quiet, walk-lock_name,
}

module _ ⦃env : Env⦄ (quiet : IsQuiet env) where
  -- Without a lock file there is nothing to lock for reading.
  inode_cache_lock_missing :
      (d : ℕ) {hd : Handle} (key : Bytes) (w : World)
      → lookup_fd d w.fds ≡ some hd
      → walk hd.path (lock_name key) ≡ some (lock_name key ∷ hd.path)
      → w.node (lock_name key ∷ hd.path) ≡ none
      → (inode_cache_lock (pos d) key false w).0 ≡ negsuc 1
  unfolding inode_cache_lock lock_named lock_opened lock_out
  inode_cache_lock_missing d key w found walks e =
      let v : World = record w {
        tick = w.tick + 1;
        blocks = w.next_block ∷ w.blocks;
        next_block = suc w.next_block;
      } in
      rw (asprintf_new quiet) (rw (openat_missing quiet d (lock_name key) v found walks e) refl)

module _ ⦃env : Env⦄ (quiet : IsQuiet env) (sixteen : (x : Bytes) → length (env.md5 x) ≡ 16)
    (dir : Option Bytes) (d : ℕ) (hd : Handle) (path : Bytes) (st : Stat) (kind : ℕ) where
  -- From the lock on, without an entry.
  get_locked_missing :
      (b : ℕ) (c : Bytes) (name old : Ptr) (w : World) (r : ℤ × World)
      → text_of name ≡ entry_key st kind
      → lookup_fd d r.1.fds ≡ some hd
      → w.node (entry_path hd st kind) ≡ none
      → IsLocked b (lock_file_path hd st kind) c w r
      → (get_locked (open_cache dir d) r.0 name old r.1).0 ≡ (negsuc 1, some old)
  unfolding get_locked get_opened get_out
  get_locked_missing b c name old w r named found e l =
      rw (l.succeeds, named)
        (rw
          (openat_missing quiet d (entry_key st kind) r.1 found
            (walk_long hd.path (entry_key st kind)
              (omega (arith, length-entry_key sixteen st kind)))
            (l.frame.nodes (entry_path hd st kind)
                (path_eq-lock_name_left (entry_key st kind) hd.path, tt)
              ∙ e))
          refl)

  -- If no call fails and a file has no entry, `inode_cache_get` returns -ENOENT and leaves `*result`
  -- alone, with a lock file and without one.
  pub inode_cache_get_missing :
      (old : Ptr) (w : World)
      → IsReady d hd path st w
      → w.node (entry_path hd st kind) ≡ none
      → (w.node (lock_file_path hd st kind) ≡ none)
        ⊎ (w.node (lock_file_path hd st kind) ≡ some (regular []))
      → (inode_cache_get (open_cache dir d) path kind (some old) w).0 ≡ (negsuc 1, some old)
  unfolding inode_cache_get get_hashed get_locked get_out
  inode_cache_get_missing old w ready e (inl f) =
      let v : World = record w {
        tick = w.tick + 1 + 1;
        blocks = w.next_block ∷ w.blocks;
        next_block = suc w.next_block;
      } in
      rw (hash_inode_quiet quiet sixteen dir d hd path st kind w ready.file_stat) (
        rw
          (inode_cache_lock_missing quiet d (entry_key st kind) v ready.dir_open
            (walk-lock_name quiet sixteen dir d hd path st kind) f)
          refl)
  inode_cache_get_missing old w ready e (inr f) =
      rw (hash_inode_quiet quiet sixteen dir d hd path st kind w ready.file_stat) (
        let l =
          inode_cache_lock_shared quiet w.next_fd d (entry_key st kind) _ ready.dir_open
            (walk-lock_name quiet sixteen dir d hd path st kind) (omega arith) f in
        get_locked_missing w.next_fd [] _ old _ _ refl
          (l.frame.handles d ready.old_fd ∙ ready.dir_open) e l)
