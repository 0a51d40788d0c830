-- ===== src/InodeCache/Balance/Del.antt =====
-- `inode_cache_del` gives back what it holds.
use pdistcc.Base.{
  ℕ, zero, suc, ℤ, pos, negsuc, neg, List, [], ◌∷◌, ◌≡◌, true, Bytes, if◌then◌else◌, ◌==◌,
}
use pdistcc.System.World.{World, Ptr, Env, enoent, text_of}
use pdistcc.System.Resources.{numbers}
use pdistcc.System.Holding.{
  Holding-start, Holding-IsOrdered, IsOrdered, own, own_fd, unlinkat-Holding, free-Holding,
}
use pdistcc.InodeCache.Ops.{
  InodeCache, del_out, del_unlinked, del_locked, del_hashed, inode_cache_del,
}
use pdistcc.InodeCache.Balance.Parts.{
  Held, inode_cache_lock-Held, inode_cache_unlock-Held, hash_inode-Held,
}

module _ (F B : List ℕ) (c : ℕ) ⦃env : Env⦄ where
  del_out-Held :
      (err lock_fd : ℤ) (name : Ptr) (w : World)
      → Held F B c (own_fd lock_fd []) (own name []) w
      → Held F B c [] [] (del_out err lock_fd name w).1
  unfolding del_out
  del_out-Held err (negsuc n) name w h = free-Holding F B c name _ h
  del_out-Held err (pos n) name w h =
      free-Holding F B c name _ (inode_cache_unlock-Held F B c [] _ n w h)

  del_unlinked-Held :
      (r : ℤ) (n : ℕ) (name : Ptr) (w : World)
      → Held F B c (n ∷ []) (own name []) w
      → Held F B c [] [] (del_unlinked r (pos n) name w).1
  unfolding del_unlinked
  del_unlinked-Held (negsuc k) n name w h =
      del_out-Held (if w.errno == enoent then pos 0 else neg w.errno) (pos n) name w h
  del_unlinked-Held (pos zero) n name w h = del_out-Held (pos 0) (pos n) name w h
  del_unlinked-Held (pos (suc k)) n name w h =
      del_out-Held (if w.errno == enoent then pos 0 else neg w.errno) (pos n) name w h

  del_locked-Held :
      (cache : InodeCache) (lock_fd : ℤ) (name : Ptr) (w : World)
      → Held F B c (own_fd lock_fd []) (own name []) w
      → Held F B c [] [] (del_locked cache lock_fd name w).1
  unfolding del_locked
  del_locked-Held cache (negsuc k) name w h = del_out-Held (negsuc k) (negsuc k) name w h
  del_locked-Held cache (pos n) name w h =
      del_unlinked-Held _ n name _ (unlinkat-Holding F B c h cache.dirfd (text_of name))

  del_hashed-Held :
      (cache : InodeCache) (err : ℤ) (name : Ptr) (w : World)
      → Held F B c [] (own name []) w
      → Held F B c [] [] (del_hashed cache err name w).1
  unfolding del_hashed
  del_hashed-Held cache (negsuc k) name w h = del_out-Held (negsuc k) (negsuc 0) name w h
  del_hashed-Held cache (pos zero) name w h =
      del_locked-Held cache _ name _
        (inode_cache_lock-Held F B c [] _ cache.dirfd (text_of name) true w h)
  del_hashed-Held cache (pos (suc k)) name w h = del_out-Held (pos (suc k)) (negsuc 0) name w h

module _ ⦃env : Env⦄ where
  -- Whichever calls fail, `inode_cache_del` ends with the descriptors open and the blocks live that
  -- were so before, in a world that numbers them in rising order, and misuses none of them.
  pub inode_cache_del-balanced :
      (cache : InodeCache) (path : Bytes) (kind : ℕ) (w : World)
      → IsOrdered w
      → let w' = (inode_cache_del cache path kind w).1 in
        (numbers w'.fds ≡ numbers w.fds)
        × (w'.blocks ≡ w.blocks)
        × IsOrdered w'
        × (w'.misuse ≡ w.misuse)
  unfolding inode_cache_del
  inode_cache_del-balanced cache path kind w o =
      let hashed =
        hash_inode-Held (numbers w.fds) w.blocks w.misuse [] [] path kind w (Holding-start w o) in
      let h = del_hashed-Held _ _ _ cache _ _ _ hashed.0 in
      (h.open_fds, h.live_blocks, Holding-IsOrdered h, h.misuses)
