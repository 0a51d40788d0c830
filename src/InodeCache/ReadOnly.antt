-- ===== src/InodeCache/ReadOnly.antt =====
-- `inode_cache_get` changes no file, nor a descriptor that was open, whichever calls fail.
use pdistcc.Base.{
  ℕ, zero, suc, ◌≤◌, ℤ, pos, negsuc, neg, Bool, true, false, Option, none, some, [], ◌∷◌, Bytes,
  ◌==◌, arith, refl,
}
use pdistcc.System.World.{
  World, Ptr, Env, Stat, M, einval, enomem, text_of, note_misuse, shared, unlocked,
}
use pdistcc.System.Files.{Transfer, failed, got}
use pdistcc.System.Keeps.{
  Keeps, Frame-trans, kept, IsFrom, openat-KeepsFrom, read-Keeps, stat-Keeps, close-Keeps,
  flock-Keeps, asprintf-Keeps, strdup-Keeps, free-Keeps,
}
use pdistcc.InodeCache.Key.{hash_named, hash_stated, hash_inode}
use pdistcc.InodeCache.Entry.{
  Reading, reading, read_step, read_round, read_loop, read_end, read_array, read_entry,
}
use pdistcc.InodeCache.Lock.{
  close_open, lock_name, lock_out, lock_granted, lock_opened, lock_named, inode_cache_lock,
  inode_cache_unlock,
}
use pdistcc.InodeCache.Ops.{
  InodeCache, ino_cache_entry_max_size, unlock_open, get_out, get_copied, get_value, get_opened,
  get_locked, get_hashed, inode_cache_get,
}

module _ {b : ℕ} ⦃env : Env⦄ where
  close_open-Keeps : (fd : ℤ) (w : World) → IsFrom b fd → Keeps b w (close_open fd w).1
  close_open-Keeps (negsuc n) w h = kept refl refl refl (omega arith)
  close_open-Keeps (pos n) w h = close-Keeps n w h

  pub inode_cache_unlock-Keeps :
      (n : ℕ) (w : World) → b ≤ n → Keeps b w (inode_cache_unlock (pos n) w).1
  unfolding inode_cache_unlock
  inode_cache_unlock-Keeps n w h = Frame-trans (flock-Keeps n unlocked w h) (close-Keeps n _ h)

  unlock_open-Keeps : (fd : ℤ) (w : World) → IsFrom b fd → Keeps b w (unlock_open fd w).1
  unlock_open-Keeps (negsuc n) w h = kept refl refl refl (omega arith)
  unlock_open-Keeps (pos n) w h = inode_cache_unlock-Keeps n w h

  hash_named-Keeps : (name : Ptr) (w : World) → Keeps b w (hash_named name w).1
  unfolding hash_named
  hash_named-Keeps none w = kept refl refl refl (omega arith)
  hash_named-Keeps (some n) w = kept refl refl refl (omega arith)

  hash_stated-Keeps :
      (st : Option Stat) (kind : ℕ) (w : World) → Keeps b w (hash_stated st kind w).1
  unfolding hash_stated
  hash_stated-Keeps none kind w = kept refl refl refl (omega arith)
  hash_stated-Keeps (some s) kind w = Frame-trans (asprintf-Keeps _ w) (hash_named-Keeps _ _)

  hash_inode-Keeps : (path : Bytes) (kind : ℕ) (w : World) → Keeps b w (hash_inode path kind w).1
  unfolding hash_inode
  hash_inode-Keeps path kind w = Frame-trans (stat-Keeps path w) (hash_stated-Keeps _ kind _)

-- What a call leaves alone, and a descriptor that it gives.
abbrev Granted : ℕ → World → ℤ × World → Type 0
Granted b w r = Keeps b w r.1 × IsFrom b r.0

module _ {b : ℕ} ⦃env : Env⦄ where
  after : {v w : World} (r : ℤ × World) → Keeps b v w → Granted b w r → Granted b v r
  after r f g = (Frame-trans f g.0, g.1)

  lock_out-Granted :
      (fd err : ℤ) (name : Ptr) (w : World) → IsFrom b fd → Granted b w (lock_out fd err name w)
  unfolding lock_out
  lock_out-Granted fd (pos zero) name w h = (free-Keeps name w, h)
  lock_out-Granted fd (pos (suc e)) name w h =
      (Frame-trans (free-Keeps name w) (close_open-Keeps fd _ h), tt)
  lock_out-Granted fd (negsuc e) name w h =
      (Frame-trans (free-Keeps name w) (close_open-Keeps fd _ h), tt)

  lock_granted-Granted :
      (r : ℤ) (fd : ℤ) (name : Ptr) (w : World)
      → IsFrom b fd
      → Granted b w (lock_granted r fd name w)
  unfolding lock_granted
  lock_granted-Granted (negsuc n) fd name w h = lock_out-Granted fd (neg w.errno) name w h
  lock_granted-Granted (pos n) fd name w h = lock_out-Granted fd (pos 0) name w h

  lock_opened-Granted :
      (fd : ℤ) (name : Ptr) (w : World) → IsFrom b fd → Granted b w (lock_opened fd false name w)
  unfolding lock_opened
  lock_opened-Granted (negsuc n) name w h = lock_out-Granted (negsuc n) (neg w.errno) name w h
  lock_opened-Granted (pos n) name w h =
      after _ (flock-Keeps n shared w h) (lock_granted-Granted _ (pos n) name _ h)

  lock_named-Granted :
      (dirfd : ℤ) (name : Ptr) (w : World)
      → b ≤ w.next_fd
      → Granted b w (lock_named dirfd name false w)
  unfolding lock_named
  lock_named-Granted dirfd none w h = lock_out-Granted (neg enomem) (pos 0) none w tt
  lock_named-Granted dirfd (some s) w h =
      let (f, from) = openat-KeepsFrom dirfd s.text w h in
      after _ f (lock_opened-Granted _ (some s) _ from)

  inode_cache_lock-Granted :
      (dirfd : ℤ) (name : Bytes) (w : World)
      → b ≤ w.next_fd
      → Granted b w (inode_cache_lock dirfd name false w)
  unfolding inode_cache_lock
  inode_cache_lock-Granted dirfd name w h =
      let f = asprintf-Keeps {b = b} (lock_name name) w in
      after _ f (lock_named-Granted dirfd _ _ (omega (arith, f.grows)))

  read_step-Keeps :
      (rest : Reading → M Reading) (s : Reading) (t : Transfer) (w : World)
      → ((s : Reading) (w : World) → Keeps b w (rest s w).1)
      → Keeps b w (read_step rest s t w).1
  unfolding read_step
  read_step-Keeps rest s failed w h = kept refl refl refl (omega arith)
  read_step-Keeps rest s (got []) w h = kept refl refl refl (omega arith)
  read_step-Keeps rest s (got (x ∷ l)) w h = h _ w

  read_round-Keeps :
      (rest : Reading → M Reading) (n : ℕ) (s : Reading) (room : ℕ) (w : World)
      → b ≤ n
      → ((s : Reading) (w : World) → Keeps b w (rest s w).1)
      → Keeps b w (read_round rest (pos n) s room w).1
  unfolding read_round
  read_round-Keeps rest n s zero w i h = kept refl refl refl (omega arith)
  read_round-Keeps rest n s (suc room) w i h =
      Frame-trans (read-Keeps n (suc room) w i) (read_step-Keeps rest s _ _ h)

  read_loop-Keeps :
      (fuel n : ℕ) (s : Reading) (w : World) → b ≤ n → Keeps b w (read_loop fuel (pos n) s w).1
  unfolding read_loop
  read_loop-Keeps zero n s w h = kept refl refl refl (omega arith)
  read_loop-Keeps (suc fuel) n s w h =
      read_round-Keeps (read_loop fuel (pos n)) n s s.room w h
        λ s' w'. read_loop-Keeps fuel n s' w' h

  note_misuse-Keeps : (x : Bool) (w : World) → Keeps b w (note_misuse x w).1
  unfolding note_misuse
  note_misuse-Keeps true w = kept refl refl refl (omega arith)
  note_misuse-Keeps false w = kept refl refl refl (omega arith)

  read_end-Keeps : (s : Reading) (t : Transfer) (w : World) → Keeps b w (read_end s t w).1
  unfolding read_end
  read_end-Keeps s failed w = kept refl refl refl (omega arith)
  read_end-Keeps s (got []) w = note_misuse-Keeps (s.at == 0) w
  read_end-Keeps s (got (x ∷ l)) w = kept refl refl refl (omega arith)

  read_entry-Keeps :
      (n : ℕ) (buf : Bytes) (w : World)
      → b ≤ n
      → Keeps b w (read_entry (pos n) buf ino_cache_entry_max_size w).1
  unfolding read_entry read_array
  read_entry-Keeps n buf w h =
      Frame-trans (read_loop-Keeps ino_cache_entry_max_size n (reading buf 511) w h) (
        let (s, w') = read_loop ino_cache_entry_max_size (pos n) (reading buf 511) w in
        read_end-Keeps s s.last w')

  get_out-Keeps :
      (err entry_fd lock_fd : ℤ) (name : Ptr) (result : Option Ptr) (w : World)
      → IsFrom b entry_fd
      → IsFrom b lock_fd
      → Keeps b w (get_out err entry_fd lock_fd name result w).1
  unfolding get_out
  get_out-Keeps err entry_fd lock_fd name result w h i =
      Frame-trans (close_open-Keeps entry_fd w h)
        (Frame-trans (unlock_open-Keeps lock_fd _ i) (free-Keeps name _))

  get_copied-Keeps :
      (err : ℤ) (m n : ℕ) (name value : Ptr) (w : World)
      → b ≤ m
      → b ≤ n
      → Keeps b w (get_copied err (pos m) (pos n) name value w).1
  unfolding get_copied
  get_copied-Keeps err m n name none w h i =
      get_out-Keeps (neg enomem) (pos m) (pos n) name (some none) w h i
  get_copied-Keeps err m n name (some v) w h i =
      get_out-Keeps err (pos m) (pos n) name (some (some v)) w h i

  get_value-Keeps :
      (m n : ℕ) (name : Ptr) (w : World)
      → b ≤ m
      → b ≤ n
      → Keeps b w (get_value (pos m) (pos n) name w).1
  unfolding get_value
  get_value-Keeps m n name w h i = Frame-trans (read_entry-Keeps m env.stack w h) (
      Frame-trans (note_misuse-Keeps _ _)
        (Frame-trans (strdup-Keeps _ _) (get_copied-Keeps _ m n name _ _ h i)))

  get_opened-Keeps :
      (fd : ℤ) (n : ℕ) (name old : Ptr) (w : World)
      → IsFrom b fd
      → b ≤ n
      → Keeps b w (get_opened fd (pos n) name old w).1
  unfolding get_opened
  get_opened-Keeps (negsuc k) n name old w h i =
      get_out-Keeps (neg w.errno) (negsuc k) (pos n) name (some old) w tt i
  get_opened-Keeps (pos m) n name old w h i = get_value-Keeps m n name w h i

  get_locked-Keeps :
      (cache : InodeCache) (fd : ℤ) (name old : Ptr) (w : World)
      → IsFrom b fd
      → b ≤ w.next_fd
      → Keeps b w (get_locked cache fd name old w).1
  unfolding get_locked
  get_locked-Keeps cache (negsuc n) name old w h i =
      get_out-Keeps (negsuc n) (negsuc 0) (negsuc n) name (some old) w tt tt
  get_locked-Keeps cache (pos n) name old w h i =
      let (f, from) = openat-KeepsFrom cache.dirfd (text_of name) w i in
      Frame-trans f (get_opened-Keeps _ n name old _ from h)

  get_hashed-Keeps :
      (cache : InodeCache) (err : ℤ) (name old : Ptr) (w : World)
      → b ≤ w.next_fd
      → Keeps b w (get_hashed cache err name old w).1
  unfolding get_hashed
  get_hashed-Keeps cache (negsuc k) name old w h =
      get_out-Keeps (negsuc k) (negsuc 0) (negsuc 0) none (some old) w tt tt
  get_hashed-Keeps cache (pos (suc k)) name old w h =
      get_out-Keeps (pos (suc k)) (negsuc 0) (negsuc 0) none (some old) w tt tt
  get_hashed-Keeps cache (pos zero) name old w h =
      let (f, from) = inode_cache_lock-Granted cache.dirfd (text_of name) w h in
      Frame-trans f (get_locked-Keeps cache _ name old _ from (omega (arith, h, f.grows)))

module _ ⦃env : Env⦄ where
  -- Whichever calls fail, `inode_cache_get` leaves every file as it was, and every descriptor
  -- numbered below the next one to be given, with its offset and its lock.
  pub inode_cache_get-Keeps :
      (cache : InodeCache) (path : Bytes) (kind : ℕ) (result : Option Ptr) (w : World)
      → Keeps w.next_fd w (inode_cache_get cache path kind result w).1
  unfolding inode_cache_get
  inode_cache_get-Keeps cache path kind none w =
      get_out-Keeps (neg einval) (negsuc 0) (negsuc 0) none none w tt tt
  inode_cache_get-Keeps cache path kind (some old) w =
      let f = hash_inode-Keeps {b = w.next_fd} path kind w in
      Frame-trans f (get_hashed-Keeps cache _ (hash_inode path kind w).0.1 old _ f.grows)
