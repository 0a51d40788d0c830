-- ===== src/InodeCache/Balance/Put.antt =====
-- `inode_cache_put` and `inode_cache_del` give back what they hold.
use pdistcc.Base.{
  ℕ, zero, suc, ◌+◌, ℤ, pos, negsuc, neg, Bool, true, false, List, [], ◌∷◌, ◌++◌, ◌≡◌, ltb, length,
  ◌≤◌, refl, ◌⊎◌, inl, inr, Option, none, some, Bytes, arith,
}
use pdistcc.System.World.{World, Ptr, Env, M, einval, e2big, text_of}
use pdistcc.System.Resources.{numbers}
use pdistcc.System.Holding.{
  Holding-start, Holding-IsOrdered, IsOrdered, IsFalling, IsFalling-mono, own, own_fd, same,
  openat-Holding, fsync-Holding, close-Holding, close-Holding_again, free-Holding,
}
use pdistcc.InodeCache.Ops.{
  InodeCache, ino_cache_entry_max_size, put_out, put_closed, put_synced, put_written, put_opened,
  put_locked, put_hashed, put_checked, inode_cache_put,
}
use pdistcc.InodeCache.Balance.Parts.{
  Held, HashedHeld, close_open-Held, inode_cache_lock-Held, inode_cache_unlock-Held,
  inode_cache_unlock-Held_below, hash_inode-Held,
}
use pdistcc.InodeCache.Balance.Loops.{write_entry-IsNeutral}

module _ (F B : List ℕ) (c : ℕ) ⦃env : Env⦄ where
  -- Nothing is held any more; at most one descriptor has been closed twice.
  abbrev pub Settled : World → Type 0
  Settled w = Held F B c [] [] w ⊎ Held F B (c + 1) [] [] w

  put_out-Held :
      (err entry_fd lock_fd : ℤ) (name : Ptr) (w : World)
      → Held F B c (own_fd entry_fd (own_fd lock_fd [])) (own name []) w
      → Held F B c [] [] (put_out err entry_fd lock_fd name w).1
  unfolding put_out
  put_out-Held err entry_fd (negsuc n) name w h =
      close_open-Held F B c [] [] entry_fd (free-Holding F B c name _ h)
  put_out-Held err (negsuc m) (pos n) name w h =
      free-Holding F B c name _ (inode_cache_unlock-Held F B c [] _ n w h)
  put_out-Held err (pos m) (pos n) name w h =
      close_open-Held F B c [] [] (pos m)
        (free-Holding F B c name _ (inode_cache_unlock-Held_below F B c [] _ m n w h))

  -- With `entry_fd` closed already: a second close.
  put_out-Held_again :
      (err : ℤ) (m n : ℕ) (name : Ptr) (w : World)
      → IsFalling m F
      → Held F B c (n ∷ []) (own name []) w
      → Held F B (c + 1) [] [] (put_out err (pos m) (pos n) name w).1
  unfolding put_out
  put_out-Held_again err m n name w below h =
      close-Holding_again F B c m below
        (free-Holding F B c name _ (inode_cache_unlock-Held F B c [] _ n w h))

  put_closed-Settled :
      (r : ℤ) (m n : ℕ) (name : Ptr) (w : World)
      → IsFalling m F
      → Held F B c (n ∷ []) (own name []) w
      → Settled (put_closed r (pos m) (pos n) name w).1
  unfolding put_closed
  put_closed-Settled (negsuc k) m n name w below h =
      inr (put_out-Held_again (neg w.errno) m n name w below h)
  put_closed-Settled (pos k) m n name w below h =
      inl (put_out-Held (pos 0) (negsuc 0) (pos n) name w h)

  -- From here on the entry and the lock are held.
  abbrev Both : ℕ → ℕ → Ptr → World → Type 0
  Both m n name w = Held F B c (m ∷ n ∷ []) (own name []) w

  put_synced-Settled :
      (r : ℤ) (m n : ℕ) (name : Ptr) (w : World)
      → Both m n name w
      → Settled (put_synced r (pos m) (pos n) name w).1
  unfolding put_synced
  put_synced-Settled (negsuc k) m n name w h =
      inl (put_out-Held (neg w.errno) (pos m) (pos n) name w h)
  put_synced-Settled (pos k) m n name w h =
      put_closed-Settled _ m n name _ (IsFalling-mono F (omega (arith, h.fds_fall)) h.fds_fall.1.1)
        (close-Holding F B c h)

  put_written-Settled :
      (err : ℤ) (m n : ℕ) (name : Ptr) (w : World)
      → Both m n name w
      → Settled (put_written err (pos m) (pos n) name w).1
  unfolding put_written
  put_written-Settled (negsuc k) m n name w h =
      inl (put_out-Held (negsuc k) (pos m) (pos n) name w h)
  put_written-Settled (pos zero) m n name w h =
      put_synced-Settled _ m n name _ (fsync-Holding F B c h (pos m))
  put_written-Settled (pos (suc k)) m n name w h =
      inl (put_out-Held (pos (suc k)) (pos m) (pos n) name w h)

  put_opened-Settled :
      (entry_fd : ℤ) (n : ℕ) (name : Ptr) (value : Bytes) (w : World)
      → Held F B c (own_fd entry_fd (n ∷ [])) (own name []) w
      → Settled (put_opened entry_fd (pos n) name value w).1
  unfolding put_opened
  put_opened-Settled (negsuc k) n name value w h =
      inl (put_out-Held (negsuc k) (negsuc k) (pos n) name w h)
  put_opened-Settled (pos m) n name value w h =
      put_written-Settled _ m n name _
        (same F B c h _ (write_entry-IsNeutral (pos m) (value ++ 0 ∷ []) w))

  put_locked-Settled :
      (cache : InodeCache) (lock_fd : ℤ) (name : Ptr) (value : Bytes) (w : World)
      → Held F B c (own_fd lock_fd []) (own name []) w
      → Settled (put_locked cache lock_fd name value w).1
  unfolding put_locked
  put_locked-Settled cache (negsuc k) name value w h =
      inl (put_out-Held (negsuc k) (negsuc 0) (negsuc k) name w h)
  put_locked-Settled cache (pos n) name value w h =
      put_opened-Settled _ n name value _ (openat-Holding F B c h cache.dirfd (text_of name) _)

  put_hashed-Settled :
      (cache : InodeCache) (err : ℤ) (name : Ptr) (value : Bytes) (w : World)
      → HashedHeld F B c [] [] (err, name) w
      → Settled (put_hashed cache err name value w).1
  unfolding put_hashed
  put_hashed-Settled cache (negsuc k) name value w (h, e) =
      inl (put_out-Held (negsuc k) (negsuc 0) (negsuc 0) none w (rw (e refl) at h))
  put_hashed-Settled cache (pos zero) name value w (h, e) =
      put_locked-Settled cache _ name value _
        (inode_cache_lock-Held F B c [] _ cache.dirfd (text_of name) true w h)
  put_hashed-Settled cache (pos (suc k)) name value w (h, e) =
      inl (put_out-Held (pos (suc k)) (negsuc 0) (negsuc 0) none w (rw (e refl) at h))

  put_checked-Settled :
      (cache : InodeCache) (path : Bytes) (kind : ℕ) (value : Bytes) (w : World)
      → Held F B c [] [] w
      → Settled (put_checked cache path kind value w).1
  unfolding put_checked
  put_checked-Settled cache path kind value w h =
      put_hashed-Settled cache _ _ value _ (hash_inode-Held F B c [] [] path kind w h)

  put_unchecked-Settled :
      (err : ℤ) (w : World)
      → Held F B c [] [] w
      → Settled (put_out err (negsuc 0) (negsuc 0) none w).1
  put_unchecked-Settled err w h = inl (put_out-Held err (negsuc 0) (negsuc 0) none w h)

  inode_cache_put-Settled :
      (cache : Option InodeCache) (path : Option Bytes) (kind : ℕ) (value : Option Bytes)
      (w : World)
      → Held F B c [] [] w
      → Settled (inode_cache_put cache path kind value w).1
  unfolding inode_cache_put
  inode_cache_put-Settled none path kind value w h = put_unchecked-Settled (neg einval) w h
  inode_cache_put-Settled (some c') none kind value w h = put_unchecked-Settled (neg einval) w h
  inode_cache_put-Settled (some c') (some p) kind none w h = put_unchecked-Settled (neg einval) w h
  inode_cache_put-Settled (some c') (some p) kind (some v) w h =
      sized (ltb ino_cache_entry_max_size (length v + 1))
    where
      sized :
          (b : Bool)
          → let m : M ℤ = elim b [
            | true ↦ put_out (neg e2big) (negsuc 0) (negsuc 0) none
            | false ↦ put_checked c' p kind v
          ] in
            Settled (m w).1
      sized true = put_unchecked-Settled (neg e2big) w h
      sized false = put_checked-Settled c' p kind v w h

module _ ⦃env : Env⦄ where
  -- Whatever the arguments and whichever calls fail, `inode_cache_put` ends with the descriptors
  -- open and the blocks live that were so before, in a world that numbers them in rising order.
  -- It makes at most one close of a descriptor that is not open.
  pub inode_cache_put-balanced :
      (cache : Option InodeCache) (path : Option Bytes) (kind : ℕ) (value : Option Bytes)
      (w : World)
      → IsOrdered w
      → let w' = (inode_cache_put cache path kind value w).1 in
        (numbers w'.fds ≡ numbers w.fds)
        × (w'.blocks ≡ w.blocks)
        × IsOrdered w'
        × (w'.misuse ≤ w.misuse + 1)
  inode_cache_put-balanced cache path kind value w o =
      elim (inode_cache_put-Settled _ _ _ cache path kind value w (Holding-start w o)) [
        | inl h ↦ (h.open_fds, h.live_blocks, Holding-IsOrdered h, omega arith)
        | inr h ↦ (h.open_fds, h.live_blocks, Holding-IsOrdered h, omega arith)
      ]
