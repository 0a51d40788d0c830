-- ===== src/System/Quiet.antt =====
-- The result of each call when no call fails.
use pdistcc.Base.{
  ℕ, ◌+◌, ◌≤◌, ℤ, pos, [], ◌∷◌, ◌≡◌, ◌≢◌, refl, ==_refl, Option, none, some, Bytes, FilePath, arith,
  negsuc,
}
use pdistcc.System.World.{
  World, Handle, Lock, unlocked, Node, directory, regular, Stat, Env, IsQuiet, call_done, enoent,
}
use pdistcc.System.Files.{
  lookup_fd, put_node, base_of, walk, OpenMode, read_only, write_truncate_create, openat, open_node,
  new_fd, close, flock, fsync, stat, at_base, at_path,
}
use pdistcc.System.Memory.{new_block, asprintf, strdup}
use pdistcc.System.Frames.{OpenAt, put_node_self, put_node_ne}
use pdistcc.System.Keeps.{Frame, Frame-trans, kept_but}

-- A descriptor on the file `p`, at its start, where the file holds `c`.
pub record IsOpened (b : ℕ) (p : FilePath) (c : Bytes) (w : World) (r : ℤ × World) : Type 0 where
  pub fd : ℕ
  pub succeeds : r.0 ≡ pos fd
  pub is_new : b ≤ fd
  pub handle : Handle
  pub same_path : handle.path ≡ p
  pub at_start : handle.offset ≡ 0
  pub after : OpenAt fd handle c r.1
  pub frame : Frame b (p ∷ []) w r.1

emptied :
    {b t : ℕ} {p : FilePath} {w : World}
    → Frame b (p ∷ []) w (record w { tick = t; node = put_node p (some (regular [])) w.node })
emptied {p} {w} = record {
  nodes = λ q o. put_node_ne p q _ w.node o.0;
  handles = λ k l. refl;
  stats = refl;
  grows = omega arith;
}

module _ ⦃env : Env⦄ (quiet : IsQuiet env) where
  pub stat-some :
      (path : Bytes) (st : Stat) (w : World)
      → w.stats path ≡ some st
      → stat path w ≡ (some st, record w { tick = w.tick + 1 })
  unfolding stat
  stat-some path st w e = rw (call_done, quiet w.tick) (rw e refl)

  pub stat-none :
      (path : Bytes) (w : World)
      → w.stats path ≡ none
      → stat path w ≡ (none, record w { tick = w.tick + 1; errno = enoent })
  unfolding stat
  stat-none path w e = rw (call_done, quiet w.tick) (rw e refl)

  pub asprintf_new :
      (t : Bytes) (w : World) → asprintf t w ≡ new_block t (record w { tick = w.tick + 1 })
  unfolding asprintf
  asprintf_new t w = rw (call_done, quiet w.tick) refl

  pub strdup_new :
      (t : Bytes) (w : World) → strdup t w ≡ new_block t (record w { tick = w.tick + 1 })
  unfolding strdup
  strdup_new t w = rw (call_done, quiet w.tick) refl

  pub fsync_zero : (fd : ℤ) (w : World) → (fsync fd w).0 ≡ pos 0
  unfolding fsync
  fsync_zero fd w = rw (call_done, quiet w.tick) refl

  pub flock_zero :
      (n : ℕ) (l : Lock) (h : Handle) (w : World)
      → lookup_fd n w.fds ≡ some h
      → (flock (pos n) l w).0 ≡ pos 0
  unfolding flock
  flock_zero n l h w e = rw (e, flock) (rw (call_done, quiet w.tick) refl)

  pub close_zero :
      (n : ℕ) (h : Handle) (w : World) → lookup_fd n w.fds ≡ some h → (close (pos n) w).0 ≡ pos 0
  unfolding close
  close_zero n h w e = rw (e, close) (rw (call_done, quiet w.tick) refl)

  openat-open_node :
      (d : ℕ) (hd : Handle) (name : Bytes) (mode : OpenMode) (p : FilePath) (w : World)
      → lookup_fd d w.fds ≡ some hd
      → walk hd.path name ≡ some p
      → openat (pos d) name mode w ≡ open_node p mode (w.node p) (record w { tick = w.tick + 1 })
  unfolding openat base_of
  openat-open_node d hd name mode p w e f =
      rw (call_done, quiet w.tick) (rw (e, base_of, at_base) (rw (f, at_path) refl))

  new_fd-IsOpened :
      (b : ℕ) (p : FilePath) (c : Bytes) (w v : World)
      → b ≤ v.next_fd
      → v.node p ≡ some (regular c)
      → Frame b (p ∷ []) w v
      → IsOpened b p c w (new_fd p v)
  unfolding lookup_fd
  new_fd-IsOpened b p c w v h e f = record {
    fd = v.next_fd;
    succeeds = refl;
    is_new = h;
    handle = record { path = p; offset = 0; lock = unlocked };
    same_path = refl;
    at_start = refl;
    after = record { is_open = rw ==_refl refl; holds = e };
    frame = Frame-trans f (record {
      nodes = λ q o. refl;
      handles = λ k l. ground arith;
      stats = refl;
      grows = omega arith;
    });
  }

  -- A file that does not exist is not opened for reading.
  pub openat_missing :
      (d : ℕ) (name : Bytes) {hd : Handle} {p : FilePath} (w : World)
      → lookup_fd d w.fds ≡ some hd
      → walk hd.path name ≡ some p
      → w.node p ≡ none
      → openat (pos d) name read_only w ≡ (negsuc 0, record w { tick = w.tick + 1; errno = enoent })
  openat_missing d name {hd} {p} w found walks e =
      rw (openat-open_node d hd name read_only p w found walks) (rw e refl)

  module _ (d : ℕ) (name : Bytes) {hd : Handle} {p : FilePath} {b : ℕ} {w : World}
      (found : lookup_fd d w.fds ≡ some hd) (walks : walk hd.path name ≡ some p)
      (h : b ≤ w.next_fd) where
    -- A file that exists is opened for reading.
    pub openat_existing :
        {c : Bytes}
        → w.node p ≡ some (regular c)
        → IsOpened b p c w (openat (pos d) name read_only w)
    openat_existing {c} e =
        rw (openat-open_node d hd name read_only p w found walks)
          (rw e (new_fd-IsOpened b p c w _ h e (kept_but refl refl refl (omega arith))))

    -- Unless it is a directory, a file is made or emptied, and opened for writing.
    pub openat_create :
        w.node p ≢ some directory → IsOpened b p [] w (openat (pos d) name write_truncate_create w)
    openat_create e =
        rw (openat-open_node d hd name write_truncate_create p w found walks) (made (w.node p) e)
      where
        made :
            (o : Option Node)
            → o ≢ some directory
            → IsOpened b p [] w
                (open_node p write_truncate_create o (record w { tick = w.tick + 1 }))
        made none e = new_fd-IsOpened b p [] w _ h (put_node_self p _ w.node) emptied
        made (some directory) e = absurd (e refl)
        made (some (regular c)) e = new_fd-IsOpened b p [] w _ h (put_node_self p _ w.node) emptied
