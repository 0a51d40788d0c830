-- ===== src/InodeCache/Balance/Parts.antt =====
-- What the parts of an operation hold: the lock, the name of the entry.
use pdistcc.Base.{
  ℕ, zero, suc, ℤ, pos, negsuc, neg, is_zero, Bool, false, List, ◌∷◌, ◌≡◌, refl, Option, none, some,
  Bytes,
}
use pdistcc.System.World.{World, Stat, Ptr, Env, enomem}
use pdistcc.System.Holding.{
  Holding, HoldingAllocated, own, own_fd, openat-Holding, asprintf-Holding, flock-Holding,
  stat-Holding, close-Holding, close-Holding_below, free-Holding,
}
use pdistcc.InodeCache.Key.{hash_named, hash_stated, hash_inode, entry_key}
use pdistcc.InodeCache.Lock.{
  lock_out, lock_granted, lock_opened, lock_named, inode_cache_lock, inode_cache_unlock, close_open,
}

module _ (F B : List ℕ) (c : ℕ) ⦃env : Env⦄ where
  abbrev pub Held : List ℕ → List ℕ → World → Type 0
  Held = Holding F B c

  module _ (fs bs : List ℕ) where
    pub close_open-Held :
        (fd : ℤ) {w : World} → Held (own_fd fd fs) bs w → Held fs bs (close_open fd w).1
    close_open-Held (negsuc n) h = h
    close_open-Held (pos n) h = close-Holding F B c h

    lock_out-Held :
        (fd err : ℤ) (name : Ptr) (w : World)
        → Held (own_fd fd fs) (own name bs) w
        → let r = lock_out fd err name w in Held (own_fd r.0 fs) bs r.1
    unfolding lock_out
    lock_out-Held fd (pos zero) name w h = free-Holding F B c name w h
    lock_out-Held fd (pos (suc e)) name w h = close_open-Held fd (free-Holding F B c name w h)
    lock_out-Held fd (negsuc e) name w h = close_open-Held fd (free-Holding F B c name w h)

    lock_granted-Held :
        (r : ℤ) (fd : ℤ) (name : Ptr) (w : World)
        → Held (own_fd fd fs) (own name bs) w
        → let r = lock_granted r fd name w in Held (own_fd r.0 fs) bs r.1
    unfolding lock_granted
    lock_granted-Held (negsuc n) fd name w h = lock_out-Held fd (neg w.errno) name w h
    lock_granted-Held (pos n) fd name w h = lock_out-Held fd (pos 0) name w h

    lock_opened-Held :
        (fd : ℤ) (wants_exclusive : Bool) (name : Ptr) (w : World)
        → Held (own_fd fd fs) (own name bs) w
        → let r = lock_opened fd wants_exclusive name w in Held (own_fd r.0 fs) bs r.1
    unfolding lock_opened
    lock_opened-Held (negsuc n) x name w h = lock_out-Held (negsuc n) (neg w.errno) name w h
    lock_opened-Held (pos n) x name w h =
        lock_granted-Held _ (pos n) name _ (flock-Holding F B c h (pos n) _)

    lock_named-Held :
        (dirfd : ℤ) (name : Ptr) (wants_exclusive : Bool) (w : World)
        → Held fs (own name bs) w
        → let r = lock_named dirfd name wants_exclusive w in Held (own_fd r.0 fs) bs r.1
    unfolding lock_named
    lock_named-Held dirfd none x w h = lock_out-Held (neg enomem) (pos 0) none w h
    lock_named-Held dirfd (some s) x w h =
        lock_opened-Held _ x (some s) _ (openat-Holding F B c h dirfd s.text _)

    pub inode_cache_lock-Held :
        (dirfd : ℤ) (entry_name : Bytes) (wants_exclusive : Bool) (w : World)
        → Held fs bs w
        → let r = inode_cache_lock dirfd entry_name wants_exclusive w in Held (own_fd r.0 fs) bs r.1
    unfolding inode_cache_lock
    inode_cache_lock-Held dirfd entry_name x w h =
        lock_named-Held dirfd _ x _ (asprintf-Holding F B c h _)

    pub inode_cache_unlock-Held :
        (n : ℕ) (w : World) → Held (n ∷ fs) bs w → Held fs bs (inode_cache_unlock (pos n) w).1
    unfolding inode_cache_unlock
    inode_cache_unlock-Held n w h = close-Holding F B c (flock-Holding F B c h _ _)

    pub inode_cache_unlock-Held_below :
        (m n : ℕ) (w : World)
        → Held (m ∷ n ∷ fs) bs w
        → Held (m ∷ fs) bs (inode_cache_unlock (pos n) w).1
    unfolding inode_cache_unlock
    inode_cache_unlock-Held_below m n w h = close-Holding_below F B c (flock-Holding F B c h _ _)

  module _ (fs bs : List ℕ) where
    -- The name is freed by the caller; without one there is an error.
    abbrev pub HashedHeld : ℤ × Ptr → World → Type 0
    HashedHeld (err, name) w = Held fs (own name bs) w × (is_zero err ≡ false → name ≡ none)

    hash_stated-Held :
        (st : Option Stat) (kind : ℕ) (w : World)
        → Held fs bs w
        → let r = hash_stated st kind w in HashedHeld r.0 r.1
    unfolding hash_stated
    hash_stated-Held none kind w h = (h, λ _. refl)
    hash_stated-Held (some s) kind w h = named _ _ (asprintf-Holding F B c h (entry_key s kind))
      where
        named :
            (p : Ptr) (w' : World)
            → HoldingAllocated F B c fs bs p w'
            → let r = hash_named p w' in HashedHeld r.0 r.1
        named none w' h' = (h', λ _. refl)
        named (some n) w' h' = (h', λ e. cc)

    pub hash_inode-Held :
        (path : Bytes) (kind : ℕ) (w : World)
        → Held fs bs w
        → let r = hash_inode path kind w in HashedHeld r.0 r.1
    unfolding hash_inode
    hash_inode-Held path kind w h = hash_stated-Held _ kind _ (stat-Holding F B c h path)
