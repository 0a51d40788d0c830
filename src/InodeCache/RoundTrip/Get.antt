-- ===== src/InodeCache/RoundTrip/Get.antt =====
-- `inode_cache_get` when no call fails, and a value that `inode_cache_put` has stored.
use mathlib.Core.List.{append_assoc}
use pdistcc.Base.{
  List, negsuc, ℕ, suc, ◌-◌, ◌≤◌, ◌<◌, [], ◌∷◌, ◌++◌, ◌≡◌, ◌∙◌, refl, ap, ℤ, pos, Option, some,
  Bytes, IsText, c_string-IsText, FilePath, length, length-append, get_elem?, drop, arith,
}
use pdistcc.System.World.{World, Handle, Env, IsQuiet, Ptr, Str, Stat, regular, text_of}
use pdistcc.System.Files.{got, lookup_fd}
use pdistcc.System.Frames.{OpenAt}
use pdistcc.System.Keeps.{Frame}
use pdistcc.System.Quiet.{strdup_new, IsOpened, openat_existing}
use pdistcc.InodeCache.Key.{entry_key}
use pdistcc.InodeCache.RoundTrip.Names.{walk_long, length-entry_key, path_eq-lock_name_left}
use pdistcc.InodeCache.RoundTrip.Locking.{IsLocked, inode_cache_lock_shared}
use pdistcc.InodeCache.RoundTrip.Put.{
  IsReady, IsFree, entry_path, lock_file_path, open_cache, hash_inode_quiet, walk-lock_name,
  inode_cache_put-IsPut,
}
use pdistcc.InodeCache.Entry.{
  Reading, reading, read_loop, read_end, read_entry, read_array, terminate, byte_before,
}
use pdistcc.InodeCache.Reads.{read_loop-ReadTo, read_loop-IsCutOff}
use pdistcc.InodeCache.Ops.{
  ino_cache_entry_max_size, inode_cache_put, get_out, get_copied, get_value, get_opened, get_locked,
  get_hashed, inode_cache_get,
}

-- What is had from an entry that holds a text.
abbrev pub IsHad : Bytes → (ℤ × Option Ptr) × World → Type 0
IsHad v r = (s : Str) × (r.0 ≡ (pos 0, some (some s))) × (s.text ≡ v)

last_byte : (v rest : Bytes) → get_elem? ((v ++ 0 ∷ []) ++ rest) (length v) ≡ some 0
last_byte [] rest = refl
last_byte (x ∷ v) rest = last_byte v rest

module _ ⦃env : Env⦄ where
  byte_before_lem :
      (v rest : Bytes) (s : Reading)
      → s.buf ≡ (v ++ 0 ∷ []) ++ rest
      → s.at ≡ suc (length v)
      → byte_before s ≡ 0
  unfolding byte_before
  byte_before_lem v rest s e f =
      let p : suc (length v) - 1 ≡ length v = omega arith in
      rw (f, e) (rw (p, last_byte v rest) (ground arith))

  -- A string that ends in a NUL is left as it is.
  terminate_lem :
      (v rest : Bytes) (s : Reading)
      → s.buf ≡ (v ++ 0 ∷ []) ++ rest
      → s.at ≡ suc (length v)
      → terminate s ≡ (v ++ 0 ∷ []) ++ rest
  unfolding terminate
  terminate_lem v rest s e f = rw (byte_before_lem v rest s e f) e

  read_end_text :
      (v rest : Bytes) (s : Reading) (w : World)
      → s.buf ≡ (v ++ 0 ∷ []) ++ rest
      → s.at ≡ suc (length v)
      → s.last ≡ got []
      → (read_end s s.last w).0 ≡ (pos 0, (v ++ 0 ∷ []) ++ rest)
  unfolding read_end
  read_end_text v rest s w e f g = rw g (ap (λ b. (pos 0, b)) (terminate_lem v rest s e f))

  module _ (quiet : IsQuiet env) where
    -- The array that is read holds the text with its NUL, and whatever was there before.
    read_entry_text :
        (n : ℕ) (h : Handle) (v : Bytes) (w : World)
        → OpenAt n h (v ++ 0 ∷ []) w
        → h.offset ≡ 0
        → length v < 510
        → (rest : Bytes) × ((read_entry (pos n) env.stack 512 w).0 ≡ (pos 0, (v ++ 0 ∷ []) ++ rest))
    unfolding read_entry read_array
    read_entry_text n h v w o e short =
        let l = length-append v (0 ∷ []) in
        let s = read_loop 512 (pos n) (reading env.stack 511) w in
        let t =
          read_loop-ReadTo quiet n 512 h [] (v ++ 0 ∷ []) env.stack 511 (got []) w o e
            (omega (arith, l)) (omega (arith, l)) in
        (
          drop (length (v ++ 0 ∷ [])) env.stack,
          read_end_text v _ s.0 s.1 t.filled (t.position ∙ omega (arith, l)) t.at_eof,
        )

    get_value-IsHad :
        (n : ℕ) (h : Handle) (l : ℤ) (name : Ptr) (v : Bytes) (w : World)
        → OpenAt n h (v ++ 0 ∷ []) w
        → h.offset ≡ 0
        → length v < 510
        → IsText v
        → IsHad v (get_value (pos n) l name w)
    unfolding get_value get_copied get_out
    get_value-IsHad n h l name v w o e short text =
        let (rest, r) = read_entry_text n h v w o e short in
        rw r (
          rw (append_assoc v (0 ∷ []) rest, c_string-IsText v rest text)
            (rw (strdup_new quiet) (_, refl, refl)))

    -- A file of 511 or 512 bytes fills the array: an error.
    read_entry_cut :
        (n : ℕ) (h : Handle) (content : Bytes) (w : World)
        → OpenAt n h content w
        → h.offset ≡ 0
        → 511 ≤ length content
        → (read_entry (pos n) env.stack 512 w).0.0 ≡ negsuc 0
    unfolding read_entry read_array read_end
    read_entry_cut n h content w o e long =
        let c =
          read_loop-IsCutOff quiet n 512 h [] content env.stack 510 (got []) w o e
            (omega (arith, long)) (omega arith) in
        rw c.2 refl

    get_value_cut :
        (n : ℕ) (h : Handle) (l : ℤ) (name : Ptr) (content : Bytes) (w : World)
        → OpenAt n h content w
        → h.offset ≡ 0
        → 511 ≤ length content
        → (get_value (pos n) l name w).0.0 ≡ negsuc 0
    unfolding get_value get_copied get_out
    get_value_cut n h l name content w o e long =
        rw (strdup_new quiet) (read_entry_cut n h content w o e long)

-- An entry with a content whose read ends in one way, which `Ends` says.
module _ ⦃env : Env⦄ (quiet : IsQuiet env) (sixteen : (x : Bytes) → length (env.md5 x) ≡ 16)
    (dir : Option Bytes) (d : ℕ) (hd : Handle) (path : Bytes) (st : Stat) (kind : ℕ)
    (content : Bytes) (Ends : (ℤ × Option Ptr) × World → Type 0)
    (ends : (n : ℕ) (h : Handle) (l : ℤ) (name : Ptr) (w : World)
      → OpenAt n h content w
      → h.offset ≡ 0
      → Ends (get_value (pos n) l name w)) where
  -- From the descriptor of the entry on.
  get_opened-Ends :
      (b : ℕ) (p : FilePath) (l : ℤ) (name : Ptr) (old : Ptr) (w : World) (r : ℤ × World)
      → IsOpened b p content w r
      → Ends (get_opened r.0 l name old r.1)
  unfolding get_opened
  get_opened-Ends b p l name old w r o =
      rw o.succeeds (ends o.fd o.handle l name r.1 o.after o.at_start)

  -- After the lock: `w` is the world before it.
  get_locked-Ends :
      (b : ℕ) (c : Bytes) (name old : Ptr) (w : World) (r : ℤ × World)
      → text_of name ≡ entry_key st kind
      → d < b
      → b ≤ w.next_fd
      → lookup_fd d w.fds ≡ some hd
      → w.node (entry_path hd st kind) ≡ some (regular content)
      → IsLocked b (lock_file_path hd st kind) c w r
      → Ends (get_locked (open_cache dir d) r.0 name old r.1)
  unfolding get_locked
  get_locked-Ends b c name old w r named old_fd new found e l = rw l.succeeds (
      rw named (
        get_opened-Ends b (entry_path hd st kind) (pos l.fd) name old r.1 _ (
          openat_existing quiet d (entry_key st kind) (l.frame.handles d old_fd ∙ found)
            (walk_long hd.path (entry_key st kind)
              (omega (arith, length-entry_key sixteen st kind)))
            (omega (arith, l.frame.grows, new))
            (l.frame.nodes (entry_path hd st kind)
                (path_eq-lock_name_left (entry_key st kind) hd.path, tt)
              ∙ e))))

  inode_cache_get-Ends :
      (old : Ptr) (c : Bytes) (w : World)
      → IsReady d hd path st w
      → w.node (entry_path hd st kind) ≡ some (regular content)
      → w.node (lock_file_path hd st kind) ≡ some (regular c)
      → Ends (inode_cache_get (open_cache dir d) path kind (some old) w)
  unfolding inode_cache_get get_hashed
  inode_cache_get-Ends old c w ready e f =
      rw (hash_inode_quiet quiet sixteen dir d hd path st kind w ready.file_stat) (
        get_locked-Ends w.next_fd c _ old _ _ refl ready.old_fd (omega arith) ready.dir_open e (
          inode_cache_lock_shared quiet w.next_fd d (entry_key st kind) _ ready.dir_open
            (walk-lock_name quiet sixteen dir d hd path st kind) (omega arith) f))

IsReady-Frame :
    {d : ℕ} {hd : Handle} {path : Bytes} {st : Stat} {ps : List FilePath} {w w' : World}
    → Frame w.next_fd ps w w'
    → IsReady d hd path st w
    → IsReady d hd path st w'
IsReady-Frame {d} {path} f ready = record {
  dir_open = f.handles d ready.old_fd ∙ ready.dir_open;
  old_fd = omega (arith, f.grows, ready.old_fd);
  file_stat = ap (λ s. s path) f.stats ∙ ready.file_stat;
}

module _ ⦃env : Env⦄ (quiet : IsQuiet env) (sixteen : (x : Bytes) → length (env.md5 x) ≡ 16)
    (dir : Option Bytes) (d : ℕ) (hd : Handle) (path : Bytes) (st : Stat) (kind : ℕ) where
  -- An entry that holds a text is had.
  pub inode_cache_get-IsHad :
      (old : Ptr) (v : Bytes) (w : World)
      → IsReady d hd path st w
      → w.node (entry_path hd st kind) ≡ some (regular (v ++ 0 ∷ []))
      → w.node (lock_file_path hd st kind) ≡ some (regular [])
      → length v < 510
      → IsText v
      → IsHad v (inode_cache_get (open_cache dir d) path kind (some old) w)
  inode_cache_get-IsHad old v w ready e f short text =
      inode_cache_get-Ends quiet sixteen dir d hd path st kind (v ++ 0 ∷ []) (IsHad v)
        (λ n h l name u o i. get_value-IsHad quiet n h l name v u o i short text) old [] w ready e f

  -- If no call fails, a text of at most 509 characters that `inode_cache_put` stores for a file is
  -- what `inode_cache_get` then returns: both return 0, and `*result` points to the text. The
  -- cache's directory is open, the file has an inode, a digest has 16 bytes, and no directory has
  -- the name of the entry or of its lock.
  pub inode_cache_get-inode_cache_put :
      (old : Ptr) (value : Bytes) (w : World)
      → IsReady d hd path st w
      → IsFree hd st kind w
      → length value < 510
      → IsText value
      → let (err, w') = inode_cache_put (some (open_cache dir d)) (some path) kind (some value) w in
        (err ≡ pos 0) × IsHad value (inode_cache_get (open_cache dir d) path kind (some old) w')
  inode_cache_get-inode_cache_put old value w ready unused short text =
      let p =
        inode_cache_put-IsPut quiet sixteen dir d hd path st kind value w ready unused
          (omega arith) in
      (
        p.succeeds,
        inode_cache_get-IsHad old value _ (IsReady-Frame p.frame ready) p.entry_file p.lock_file
            short text,
      )

  -- A value of 510 or 511 characters is stored under the same conditions, but not had back:
  -- `inode_cache_put` returns 0, and `inode_cache_get` then -1.
  pub inode_cache_get-inode_cache_put_long :
      (old : Ptr) (value : Bytes) (w : World)
      → IsReady d hd path st w
      → IsFree hd st kind w
      → 510 ≤ length value
      → length value < ino_cache_entry_max_size
      → let (err, w') = inode_cache_put (some (open_cache dir d)) (some path) kind (some value) w in
        (err ≡ pos 0)
        × ((inode_cache_get (open_cache dir d) path kind (some old) w').0.0 ≡ negsuc 0)
  inode_cache_get-inode_cache_put_long old value w ready unused long short =
      let p =
        inode_cache_put-IsPut quiet sixteen dir d hd path st kind value w ready unused short in
      (
        p.succeeds,
        inode_cache_get-Ends quiet sixteen dir d hd path st kind (value ++ 0 ∷ [])
            (λ r. r.0.0 ≡ negsuc 0)
            (λ n h l name v o e.
              get_value_cut quiet n h l name (value ++ 0 ∷ []) v o e
                (omega (arith, long, length-append value (0 ∷ []))))
            old [] _ (IsReady-Frame p.frame ready) p.entry_file p.lock_file,
      )
