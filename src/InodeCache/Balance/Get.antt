-- ===== src/InodeCache/Balance/Get.antt =====
-- `inode_cache_get` gives back what it holds, but for the string that it returns.
use pdistcc.Base.{
  c_string, ℕ, zero, suc, ℤ, pos, negsuc, neg, List, [], ◌∷◌, ◌≡◌, refl, ◌⊎◌, inl, inr, Option,
  none, some, false, Bytes, arith, leb, length,
}
use pdistcc.System.World.{World, Ptr, Env, enomem, text_of, note_misuse}
use pdistcc.System.Files.{read_only}
use pdistcc.System.Memory.{strdup}
use pdistcc.System.Resources.{resources, numbers}
use pdistcc.System.Holding.{
  Holding-start, Holding-IsOrdered, IsOrdered, own, own_fd, openat-Holding, strdup-Holding,
  free-Holding, free-Holding_below,
}
use pdistcc.InodeCache.Ops.{
  InodeCache, ino_cache_entry_max_size, get_out, get_copied, get_value, get_opened, get_locked,
  get_hashed, inode_cache_get,
}
use pdistcc.InodeCache.Entry.{read_entry, read_array}
use pdistcc.InodeCache.Balance.Parts.{
  Held, HashedHeld, close_open-Held, inode_cache_lock-Held, inode_cache_unlock-Held,
  hash_inode-Held,
}
use pdistcc.InodeCache.Balance.Loops.{Noted, note_misuse-Noted, read_array-Noted}

module _ (F B : List ℕ) ⦃env : Env⦄ where
  -- `*result` is as it was, or holds the only block that is left.
  abbrev pub Delivered : Ptr → Option Ptr → World → Type 0
  Delivered old r w =
      (c : ℕ) × ((r ≡ some old) × Held F B c [] [] w
        ⊎ (p : Ptr) × (r ≡ some p) × Held F B c [] (own p []) w)

  noted :
      {c : ℕ} {fs bs : List ℕ} {w : World} (w' : World)
      → Held F B c fs bs w
      → Noted (resources w) (resources w')
      → (k : ℕ) × Held F B k fs bs w'
  unfolding resources
  noted w' h (k, e) = (k, ground arith)

  module _ (c : ℕ) where
    unlock_out :
        (lock_fd : ℤ) (value name : Ptr) (w : World)
        → Held F B c (own_fd lock_fd []) (own value (own name [])) w
        → let r = get_out (pos 0) (negsuc 0) lock_fd name none w in Held F B c [] (own value []) r.1
    unfolding get_out
    unlock_out (negsuc n) none name w h = free-Holding F B c name _ h
    unlock_out (negsuc n) (some v) name w h = free-Holding_below F B c name _ h
    unlock_out (pos n) none name w h =
        free-Holding F B c name _ (inode_cache_unlock-Held F B c [] _ n w h)
    unlock_out (pos n) (some v) name w h =
        free-Holding_below F B c name _ (inode_cache_unlock-Held F B c [] _ n w h)

    get_out-Held :
        (err entry_fd lock_fd : ℤ) (value name : Ptr) (result : Option Ptr) (w : World)
        → Held F B c (own_fd entry_fd (own_fd lock_fd [])) (own value (own name [])) w
        → Held F B c [] (own value []) (get_out err entry_fd lock_fd name result w).1
    unfolding get_out
    get_out-Held err entry_fd lock_fd value name result w h =
        unlock_out lock_fd value name _ (close_open-Held F B c (own_fd lock_fd []) _ entry_fd h)

    get_copied-Delivered :
        (err : ℤ) (m n : ℕ) (old name value : Ptr) (w : World)
        → Held F B c (m ∷ n ∷ []) (own value (own name [])) w
        → let r = get_copied err (pos m) (pos n) name value w in Delivered old r.0.1 r.1
    unfolding get_copied get_out
    get_copied-Delivered err m n old name none w h =
        (c, inr (none, refl, get_out-Held (neg enomem) (pos m) (pos n) none name (some none) w h))
    get_copied-Delivered err m n old name (some v) w h =
        (c, inr (some v, refl, get_out-Held err (pos m) (pos n) (some v) name (some (some v)) w h))

  -- The call of `note_misuse` and the copy.
  copied :
      (c : ℕ) (err : ℤ) (m n : ℕ) (old name : Ptr) (buf : Bytes) (w : World)
      → Held F B c (m ∷ n ∷ []) (own name []) w
      → let noted_w = (note_misuse (leb ino_cache_entry_max_size (length (c_string buf))) w).1 in
        let v = strdup (c_string buf) noted_w in
        let r = get_copied err (pos m) (pos n) name v.0 v.1 in Delivered old r.0.1 r.1
  copied c err m n old name buf w h =
      let (k, h') = noted _ h (note_misuse-Noted _ w) in
      get_copied-Delivered k err m n old name _ _ (strdup-Holding F B k h' (c_string buf))

  get_value-Delivered :
      (c m n : ℕ) (old name : Ptr) (w : World)
      → Held F B c (m ∷ n ∷ []) (own name []) w
      → let r = get_value (pos m) (pos n) name w in Delivered old r.0.1 r.1
  unfolding get_value read_entry
  get_value-Delivered c m n old name w h =
      let ((err, buf), w') = read_array (pos m) env.stack ino_cache_entry_max_size w in
      let (k, h') = noted w' h (read_array-Noted (pos m) env.stack ino_cache_entry_max_size w) in
      copied k err m n old name buf w' h'

  -- With `*result` untouched.
  untouched :
      (c : ℕ) (err entry_fd lock_fd : ℤ) (old name : Ptr) (w : World)
      → Held F B c (own_fd entry_fd (own_fd lock_fd [])) (own name []) w
      → let r = get_out err entry_fd lock_fd name (some old) w in Delivered old r.0.1 r.1
  unfolding get_out
  untouched c err entry_fd lock_fd old name w h =
      (c, inl (refl, get_out-Held c err entry_fd lock_fd none name (some old) w h))

  get_opened-Delivered :
      (c : ℕ) (entry_fd : ℤ) (n : ℕ) (old name : Ptr) (w : World)
      → Held F B c (own_fd entry_fd (n ∷ [])) (own name []) w
      → let r = get_opened entry_fd (pos n) name old w in Delivered old r.0.1 r.1
  unfolding get_opened
  get_opened-Delivered c (negsuc k) n old name w h =
      untouched c (neg w.errno) (negsuc k) (pos n) old name w h
  get_opened-Delivered c (pos m) n old name w h = get_value-Delivered c m n old name w h

  get_locked-Delivered :
      (cache : InodeCache) (c : ℕ) (lock_fd : ℤ) (old name : Ptr) (w : World)
      → Held F B c (own_fd lock_fd []) (own name []) w
      → let r = get_locked cache lock_fd name old w in Delivered old r.0.1 r.1
  unfolding get_locked
  get_locked-Delivered cache c (negsuc k) old name w h =
      untouched c (negsuc k) (negsuc 0) (negsuc k) old name w h
  get_locked-Delivered cache c (pos n) old name w h =
      get_opened-Delivered c _ n old name _
        (openat-Holding F B c h cache.dirfd (text_of name) read_only)

  get_hashed-Delivered :
      (cache : InodeCache) (c : ℕ) (err : ℤ) (old name : Ptr) (w : World)
      → HashedHeld F B c [] [] (err, name) w
      → let r = get_hashed cache err name old w in Delivered old r.0.1 r.1
  unfolding get_hashed
  get_hashed-Delivered cache c (negsuc k) old name w (h, e) =
      untouched c (negsuc k) (negsuc 0) (negsuc 0) old none w (rw (e refl) at h)
  get_hashed-Delivered cache c (pos zero) old name w (h, e) =
      get_locked-Delivered cache c _ old name _
        (inode_cache_lock-Held F B c [] _ cache.dirfd (text_of name) false w h)
  get_hashed-Delivered cache c (pos (suc k)) old name w (h, e) =
      untouched c (pos (suc k)) (negsuc 0) (negsuc 0) old none w (rw (e refl) at h)

-- What a call of `inode_cache_get` has left: `*result` as it was and the blocks of before, or a
-- string in `*result` that is the only new block, or NULL there.
abbrev pub IsDelivered : Ptr → World → Option Ptr → World → Type 0
IsDelivered old w r w' =
    (r ≡ some old) × (w'.blocks ≡ w.blocks)
    ⊎ (p : Ptr) × (r ≡ some p) × (w'.blocks ≡ own p w.blocks)

module _ ⦃env : Env⦄ where
  delivered :
      (old : Ptr) (w : World) (r : Option Ptr) (w' : World)
      → Delivered (numbers w.fds) w.blocks old r w'
      → (numbers w'.fds ≡ numbers w.fds) × IsDelivered old w r w' × IsOrdered w'
  delivered old w r w' (c, inl (e, h)) = (h.open_fds, inl (e, h.live_blocks), Holding-IsOrdered h)
  delivered old w r w' (c, inr (none, e, h)) =
      (h.open_fds, inr (none, e, h.live_blocks), Holding-IsOrdered h)
  delivered old w r w' (c, inr (some s, e, h)) =
      (h.open_fds, inr (some s, e, h.live_blocks), Holding-IsOrdered h)

  -- Whichever calls fail, `inode_cache_get` with a place for its result ends with the descriptors
  -- open that were so before, in a world that numbers things in rising order. It leaves `*result`
  -- and the live blocks alone, or it leaves one new block, which `*result` points to (none, if it
  -- has put NULL there).
  pub inode_cache_get-balanced :
      (cache : InodeCache) (path : Bytes) (kind : ℕ) (old : Ptr) (w : World)
      → IsOrdered w
      → let ((err, result), w') = inode_cache_get cache path kind (some old) w in
        (numbers w'.fds ≡ numbers w.fds) × IsDelivered old w result w' × IsOrdered w'
  unfolding inode_cache_get
  inode_cache_get-balanced cache path kind old w o = delivered old w _ _ (
      get_hashed-Delivered _ _ cache w.misuse _ old _ _
        (hash_inode-Held _ _ w.misuse [] [] path kind w (Holding-start w o)))
