-- ===== src/InodeCache/RoundTrip/Del.antt =====
-- `inode_cache_del` when no call fails.
use pdistcc.Base.{
  ℕ, ◌+◌, ◌≤◌, [], ◌∷◌, ◌≡◌, ◌≢◌, ◌∙◌, refl, ℤ, pos, Option, none, some, Bytes, FilePath, length,
  arith,
}
use pdistcc.System.World.{
  World, Handle, Node, directory, regular, Ptr, Env, IsQuiet, Stat, text_of, call_done, enoent,
  eisdir,
}
use pdistcc.System.Files.{lookup_fd, unlinkat, walk, base_of, at_base, at_path, put_node, failing}
use pdistcc.System.Frames.{put_node_self, put_node_ne}
use pdistcc.System.Keeps.{Frame, Frame-trans, Frame-weaken, Keeps, free-Keeps, kept_but}
use pdistcc.InodeCache.Key.{entry_key}
use pdistcc.InodeCache.Ops.{del_out, del_unlinked, del_locked, del_hashed, inode_cache_del}
use pdistcc.InodeCache.ReadOnly.{inode_cache_unlock-Keeps}
use pdistcc.InodeCache.RoundTrip.Names.{
  walk_long, length-entry_key, path_eq-lock_name, path_eq-lock_name_left,
}
use pdistcc.InodeCache.RoundTrip.Locking.{IsLocked, inode_cache_lock_exclusive}
use pdistcc.InodeCache.RoundTrip.Put.{
  IsReady, IsFree, entry_path, lock_file_path, open_cache, hash_inode_quiet, walk-lock_name,
}
use native.Mathlib.Nat.{le_refl}

-- The entry is gone, and the lock file is there. But for these two files and for descriptors from
-- `b` on, nothing has changed.
pub record IsDeleted ⦃env : Env⦄ (b : ℕ) (hd : Handle) (st : Stat) (kind : ℕ) (w : World)
    (r : ℤ × World) : Type 0 where
  pub succeeds : r.0 ≡ pos 0
  pub entry_gone : r.1.node (entry_path hd st kind) ≡ none
  pub lock_file : r.1.node (lock_file_path hd st kind) ≡ some (regular [])
  pub frame : Frame b (entry_path hd st kind ∷ lock_file_path hd st kind ∷ []) w r.1

module _ ⦃env : Env⦄ (quiet : IsQuiet env) (b : ℕ) where
  -- The last steps: success, and nothing else has changed.
  del_out-Keeps :
      (n : ℕ) (name : Ptr) (w : World)
      → b ≤ n
      → let r = del_out (pos 0) (pos n) name w in (r.0 ≡ pos 0) × Keeps b w r.1
  unfolding del_out
  del_out-Keeps n name w h =
      (refl, Frame-trans (inode_cache_unlock-Keeps n w h) (free-Keeps name _))

  -- The file `p` is gone; nothing else has changed.
  record IsUnlinked (p : FilePath) (w : World) (r : ℤ × World) : Type 0 where
    succeeds : r.0 ≡ pos 0
    gone : r.1.node p ≡ none
    frame : Frame b (p ∷ []) w r.1

  -- With or without the file.
  unlinked :
      (p : FilePath) (n : ℕ) (name : Ptr) (o : Option Node) (w : World)
      → b ≤ n
      → o ≢ some directory
      → w.node p ≡ o
      → let r : ℤ × World = elim o [
        | none ↦ failing enoent (record w { tick = w.tick + 1 })
        | some directory ↦ failing eisdir (record w { tick = w.tick + 1 })
        | some (regular c) ↦ (pos 0, record w { tick = w.tick + 1; node = put_node p none w.node })
      ] in
        IsUnlinked p w (del_unlinked r.0 (pos n) name r.1)
  unfolding del_unlinked
  unlinked p n name none w h ne e =
      let (z, f) = del_out-Keeps n name (record w { tick = w.tick + 1; errno = enoent }) h in
      record {
        succeeds = z;
        gone = f.nodes p tt ∙ e;
        frame =
            Frame-trans (kept_but refl refl refl (omega arith)) (Frame-weaken [] _ (λ q x. tt) f);
      }
  unlinked p n name (some directory) w h ne e = absurd (ne refl)
  unlinked p n name (some (regular c)) w h ne e =
      let v : World = record w { tick = w.tick + 1; node = put_node p none w.node } in
      let (z, f) = del_out-Keeps n name v h in
      record {
        succeeds = z;
        gone = f.nodes p tt ∙ put_node_self p none w.node;
        frame =
            Frame-trans
              (record {
                nodes = λ q o. put_node_ne p q none w.node o.0;
                handles = λ k l. refl;
                stats = refl;
                grows = omega arith;
              })
              (Frame-weaken [] _ (λ q x. tt) f);
      }

  unlinkat-IsUnlinked :
      (d : ℕ) {hd : Handle} (key : Bytes) {p : FilePath} (n : ℕ) (name : Ptr) (w : World)
      → lookup_fd d w.fds ≡ some hd
      → walk hd.path key ≡ some p
      → b ≤ n
      → w.node p ≢ some directory
      → let r = unlinkat (pos d) key w in IsUnlinked p w (del_unlinked r.0 (pos n) name r.1)
  unfolding unlinkat base_of
  unlinkat-IsUnlinked d key {p} n name w found walks h ne =
      rw (call_done, quiet w.tick)
        (rw (found, base_of, at_base)
          (rw (walks, at_path) (unlinked p n name (w.node p) w h ne refl)))

module _ ⦃env : Env⦄ (quiet : IsQuiet env) (sixteen : (x : Bytes) → length (env.md5 x) ≡ 16)
    (dir : Option Bytes) (d : ℕ) (hd : Handle) (path : Bytes) (st : Stat) (kind : ℕ) where
  -- After the lock: `w` is the world before it.
  del_locked-IsDeleted :
      (b : ℕ) (name : Ptr) (w : World) (r : ℤ × World)
      → text_of name ≡ entry_key st kind
      → lookup_fd d r.1.fds ≡ some hd
      → w.node (entry_path hd st kind) ≢ some directory
      → IsLocked b (lock_file_path hd st kind) [] w r
      → IsDeleted b hd st kind w (del_locked (open_cache dir d) r.0 name r.1)
  unfolding del_locked
  del_locked-IsDeleted b name w r named found unused l =
      let key = entry_key st kind in
      let f = l.frame in
      let u =
        unlinkat-IsUnlinked quiet b d key l.fd name r.1 found
          (walk_long hd.path key (omega (arith, length-entry_key sixteen st kind))) l.is_new
          (rw (f.nodes (entry_path hd st kind) (path_eq-lock_name_left key hd.path, tt)) unused) in
      rw (l.succeeds, named)
        (record {
          succeeds = u.succeeds;
          entry_gone = u.gone;
          lock_file = u.frame.nodes _ (path_eq-lock_name key hd.path, tt) ∙ l.lock_file;
          frame =
              Frame-trans (Frame-weaken (lock_file_path hd st kind ∷ []) _ (λ q x. x.1) f)
                (Frame-weaken (entry_path hd st kind ∷ []) _ (λ q x. (x.0, tt)) u.frame);
        })

  -- If no call fails, `inode_cache_del` returns 0 whether the file has an entry or not: the entry
  -- of its inode is gone, its lock file is there, and no other file and no descriptor that was open
  -- has changed. The cache's directory is open, the file has an inode, a digest has 16 bytes, and
  -- no directory has the name of the entry or of its lock.
  pub inode_cache_del-IsDeleted :
      (w : World)
      → IsReady d hd path st w
      → IsFree hd st kind w
      → IsDeleted w.next_fd hd st kind w (inode_cache_del (open_cache dir d) path kind w)
  unfolding inode_cache_del del_hashed
  inode_cache_del-IsDeleted w ready unused =
      rw (hash_inode_quiet quiet sixteen dir d hd path st kind w ready.file_stat) (
        let l =
          inode_cache_lock_exclusive quiet w.next_fd d (entry_key st kind) _ ready.dir_open
            (walk-lock_name quiet sixteen dir d hd path st kind) (le_refl w.next_fd)
            unused.lock_free in
        before
          (del_locked-IsDeleted w.next_fd _ _ _ refl
            (l.frame.handles d ready.old_fd ∙ ready.dir_open) unused.entry_free l)
          (kept_but refl refl refl (omega arith)))
    where
      before :
          {v : World} {r : ℤ × World}
          → IsDeleted w.next_fd hd st kind v r
          → Frame w.next_fd [] w v
          → IsDeleted w.next_fd hd st kind w r
      before i f = record {
        succeeds = i.succeeds;
        entry_gone = i.entry_gone;
        lock_file = i.lock_file;
        frame = Frame-trans (Frame-weaken [] _ (λ q x. tt) f) i.frame;
      }
