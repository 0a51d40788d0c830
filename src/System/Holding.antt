-- ===== src/System/Holding.antt =====
-- Who owns what: a function under way holds some descriptors and blocks of its own, above those
-- that were there when it was called. One rule for each call.
use pdistcc.Base.{
  ℕ, ◌+◌, ◌≤◌, ◌<◌, false, ℤ, pos, negsuc, List, [], ◌∷◌, ◌++◌, ◌≡◌, refl, none, some, Bytes, arith,
}
use native.Mathlib.Nat.{le_refl}
use pdistcc.System.World.{World, Lock, Ptr, Env}
use pdistcc.System.Files.{
  OpenMode, openat, open_path, mkdirat, unlinkat, close, flock, fsync, read, write, stat,
}
use pdistcc.System.Memory.{has_block, remove_block, asprintf, strdup, free}
use pdistcc.System.Resources.{
  resources, numbers, Opened, Allocated, openat-Opened, open_path-Opened, mkdirat-Same,
  unlinkat-Same, close-closed, flock-Same, fsync-Same, read-Same, write-Same, stat-Same,
  asprintf-Allocated, strdup-Allocated, free-freed,
}

-- The numbers fall, all below `n`: so they differ from one another, and `n` is new.
abbrev pub IsFalling : ℕ → List ℕ → Type 0
IsFalling n [] = Unit
IsFalling n (x ∷ l) = (x < n) × IsFalling x l

pub IsFalling-mono : {a b : ℕ} (l : List ℕ) → a ≤ b → IsFalling a l → IsFalling b l
IsFalling-mono [] h f = tt
IsFalling-mono (x ∷ l) h f = (omega arith, f.1)

pub IsFalling-has_block : (n k : ℕ) (l : List ℕ) → IsFalling k l → k ≤ n → has_block n l ≡ false
unfolding has_block
IsFalling-has_block n k [] f h = refl
IsFalling-has_block n k (x ∷ l) f h = ground (arith, IsFalling-has_block n x l)

-- Numbers are given in rising order.
abbrev pub IsOrdered : World → Type 0
IsOrdered w = IsFalling w.next_fd (numbers w.fds) × IsFalling w.next_block w.blocks

-- Above the descriptors `base_fds` and the blocks `base_blocks` stand `fds` and `bs`.
pub record Holding (base_fds base_blocks : List ℕ) (count : ℕ) (fds bs : List ℕ) (w : World)
    : Type 0 where
  pub open_fds : numbers w.fds ≡ fds ++ base_fds
  pub live_blocks : w.blocks ≡ bs ++ base_blocks
  pub misuses : w.misuse ≡ count
  pub fds_fall : IsFalling w.next_fd (fds ++ base_fds)
  pub blocks_fall : IsFalling w.next_block (bs ++ base_blocks)

-- The block of a pointer, above others.
abbrev pub own : Ptr → List ℕ → List ℕ
own none bs = bs
own (some s) bs = s.block ∷ bs

-- A descriptor, above others; a negative one is none.
abbrev pub own_fd : ℤ → List ℕ → List ℕ
own_fd (negsuc n) fs = fs
own_fd (pos n) fs = n ∷ fs

pub Holding-start : (w : World) → IsOrdered w → Holding (numbers w.fds) w.blocks w.misuse [] [] w
Holding-start w o = record {
  open_fds = refl;
  live_blocks = refl;
  misuses = refl;
  fds_fall = o.0;
  blocks_fall = o.1;
}

pub Holding-IsOrdered :
    {F B fs bs : List ℕ} {c : ℕ} {w : World} → Holding F B c fs bs w → IsOrdered w
Holding-IsOrdered h = (rw h.open_fds h.fds_fall, rw h.live_blocks h.blocks_fall)

module _ (F B : List ℕ) (c : ℕ) where
  -- After a call that may have made a descriptor.
  abbrev pub HoldingOpened : List ℕ → List ℕ → ℤ → World → Type 0
  HoldingOpened fs bs fd w = Holding F B c (own_fd fd fs) bs w

  -- After a call that may have made a block.
  abbrev pub HoldingAllocated : List ℕ → List ℕ → Ptr → World → Type 0
  HoldingAllocated fs bs p w = Holding F B c fs (own p bs) w

  module _ {fs bs : List ℕ} {w : World} (h : Holding F B c fs bs w) where
    opened : (fd : ℤ) (w' : World) → Opened (resources w) fd w' → HoldingOpened fs bs fd w'
    unfolding resources
    opened (negsuc n) w' e = ground arith
    opened (pos n) w' e = ground arith

    allocated : (p : Ptr) (w' : World) → Allocated (resources w) p w' → HoldingAllocated fs bs p w'
    unfolding resources
    allocated none w' e = ground arith
    allocated (some s) w' e = ground arith

    pub same : (w' : World) → resources w' ≡ resources w → Holding F B c fs bs w'
    unfolding resources
    same w' e = ground arith

  module _ ⦃env : Env⦄ {fs bs : List ℕ} {w : World} (h : Holding F B c fs bs w) where
    pub openat-Holding :
        (dirfd : ℤ) (name : Bytes) (mode : OpenMode)
        → HoldingOpened fs bs (openat dirfd name mode w).0 (openat dirfd name mode w).1
    openat-Holding dirfd name mode = opened h _ _ (openat-Opened dirfd name mode w)

    pub open_path-Holding :
        (name : Bytes) (mode : OpenMode)
        → HoldingOpened fs bs (open_path name mode w).0 (open_path name mode w).1
    open_path-Holding name mode = opened h _ _ (open_path-Opened name mode w)

    pub asprintf-Holding : (b : Bytes) → HoldingAllocated fs bs (asprintf b w).0 (asprintf b w).1
    asprintf-Holding b = allocated h _ _ (asprintf-Allocated b w)

    pub strdup-Holding : (b : Bytes) → HoldingAllocated fs bs (strdup b w).0 (strdup b w).1
    strdup-Holding b = allocated h _ _ (strdup-Allocated b w)

    pub mkdirat-Holding : (dirfd : ℤ) (name : Bytes) → Holding F B c fs bs (mkdirat dirfd name w).1
    mkdirat-Holding dirfd name = same h _ (mkdirat-Same dirfd name w)

    pub unlinkat-Holding :
        (dirfd : ℤ) (name : Bytes) → Holding F B c fs bs (unlinkat dirfd name w).1
    unlinkat-Holding dirfd name = same h _ (unlinkat-Same dirfd name w)

    pub flock-Holding : (fd : ℤ) (l : Lock) → Holding F B c fs bs (flock fd l w).1
    flock-Holding fd l = same h _ (flock-Same fd l w)

    pub fsync-Holding : (fd : ℤ) → Holding F B c fs bs (fsync fd w).1
    fsync-Holding fd = same h _ (fsync-Same fd w)

    pub read-Holding : (fd : ℤ) (len : ℕ) → Holding F B c fs bs (read fd len w).1
    read-Holding fd len = same h _ (read-Same fd len w)

    pub write-Holding : (fd : ℤ) (b : Bytes) → Holding F B c fs bs (write fd b w).1
    write-Holding fd b = same h _ (write-Same fd b w)

    pub stat-Holding : (path : Bytes) → Holding F B c fs bs (stat path w).1
    stat-Holding path = same h _ (stat-Same path w)

  module _ ⦃env : Env⦄ {n : ℕ} {bs : List ℕ} {w : World} where
    -- The newest descriptor is closed.
    pub close-Holding :
        {fs : List ℕ} → Holding F B c (n ∷ fs) bs w → Holding F B c fs bs (close (pos n) w).1
    unfolding resources has_block remove_block
    close-Holding {fs} h = ground (
      arith,
      close-closed (pos n) w,
      IsFalling-mono {b = w.next_fd} (fs ++ F) (omega arith) h.fds_fall.1,
    )

    -- The descriptor under the newest is closed.
    pub close-Holding_below :
        {m : ℕ} {fs : List ℕ}
        → Holding F B c (m ∷ n ∷ fs) bs w
        → Holding F B c (m ∷ fs) bs (close (pos n) w).1
    unfolding resources has_block remove_block
    close-Holding_below {m} {fs} h = ground (
      arith,
      close-closed (pos n) w,
      IsFalling-mono {b = m} (fs ++ F) (omega arith) h.fds_fall.1.1,
    )

  pub free-Holding :
      {fs bs : List ℕ} (p : Ptr) (w : World)
      → HoldingAllocated fs bs p w
      → Holding F B c fs bs (free p w).1
  unfolding resources has_block remove_block
  free-Holding none w h = ground (arith, free-freed none w)
  free-Holding {bs} (some s) w h = ground (
    arith,
    free-freed (some s) w,
    IsFalling-mono {b = w.next_block} (bs ++ B) (omega arith) h.blocks_fall.1,
  )

  -- The block under the newest is freed.
  pub free-Holding_below :
      {fs bs : List ℕ} {m : ℕ} (p : Ptr) (w : World)
      → (Holding F B c fs (m ∷ own p bs) w)
      → Holding F B c fs (m ∷ bs) (free p w).1
  unfolding resources has_block remove_block
  free-Holding_below none w h = ground (arith, free-freed none w)
  free-Holding_below {bs} {m} (some s) w h = ground (
    arith,
    free-freed (some s) w,
    IsFalling-mono {b = m} (bs ++ B) (omega arith) h.blocks_fall.1.1,
  )

  -- A descriptor that is closed already is closed again.
  pub close-Holding_again :
      ⦃env : Env⦄
      → {fs bs : List ℕ} (n : ℕ) {w : World} → IsFalling n (fs ++ F)
      → Holding F B c fs bs w
      → Holding F B (c + 1) fs bs (close (pos n) w).1
  unfolding resources has_block
  close-Holding_again {fs} n {w} below h =
      ground (arith, close-closed (pos n) w, IsFalling-has_block n n (fs ++ F) below (le_refl n))
