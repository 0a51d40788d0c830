-- ===== src/MkdirP/Balance.antt =====
-- `mkdir_p` gives back what it holds.
use pdistcc.Base.{
  ℕ, zero, suc, ℤ, pos, negsuc, neg, List, [], ◌∷◌, ◌++◌, Option, none, some, Bytes, length, ◌==◌,
  ◌≡◌, refl, Bool-cases, inl, inr, ◌∙◌,
}
use pdistcc.System.World.{Env, M, World, eexist}
use pdistcc.System.Files.{close, openat, open_path, path_directory, mkdirat, at_fdcwd}
use pdistcc.System.Resources.{numbers, close-closed}
use pdistcc.System.Holding.{
  Holding, Holding-start, Holding-IsOrdered, IsOrdered, own_fd, same, openat-Holding,
  open_path-Holding, mkdirat-Holding, close-Holding, close-Holding_below,
}
use pdistcc.MkdirP.Ops.{
  PathText, whole, cut_path, close_fd, mkdir_out, mkdir_next, mkdir_open, mkdir_opened, mkdir_made,
  mkdir_round, mkdir_loop, mkdir_root, mkdir_p,
}

own_fd-append : (fd : ℤ) (l : List ℕ) → own_fd fd [] ++ l ≡ own_fd fd l
own_fd-append (pos n) l = refl
own_fd-append (negsuc n) l = refl

module _ (F B : List ℕ) (c : ℕ) ⦃env : Env⦄ where
  -- A directory descriptor is held, and no block.
  abbrev Held : ℤ → World → Type 0
  Held fd w = Holding F B c (own_fd fd []) [] w

  -- What goes on with the loop ends with the descriptor that it returns.
  abbrev Returns : (ℤ × Bytes) × World → Type 0
  Returns r = Held r.0.0 r.1

  close_fd-Held : (fd : ℤ) (w : World) → Held fd w → Holding F B c [] [] (close_fd fd w).1
  close_fd-Held (negsuc n) w h = h
  close_fd-Held (pos n) w h = close-Holding F B c h

  mkdir_fail-Returns :
      (k : ℕ) (dirfd : ℤ) (n : ℕ) (p : PathText) (w : World)
      → Held dirfd w
      → Returns (mkdir_out (negsuc k) dirfd (negsuc n) p w)
  unfolding mkdir_out
  mkdir_fail-Returns k dirfd n p w h = close_fd-Held dirfd w h

  -- The errno 0 of an error would make it a success: then the descriptor is returned.
  mkdir_error-Returns :
      (e : ℕ) (dirfd : ℤ) (n : ℕ) (p : PathText) (w : World)
      → Held dirfd w
      → Returns (mkdir_out (neg e) dirfd (negsuc n) p w)
  unfolding mkdir_out
  mkdir_error-Returns zero dirfd n p w h = h
  mkdir_error-Returns (suc k) dirfd n p w h = mkdir_fail-Returns k dirfd n p w h

  mkdir_end-Returns :
      (m n : ℕ) (p : PathText) (w : World)
      → Held (pos m) w
      → Returns (mkdir_out (pos 0) (pos m) (negsuc n) p w)
  unfolding mkdir_out
  mkdir_end-Returns m n p w h = h

  -- The descriptor below the new one is closed.
  close-Held_below :
      (dirfd : ℤ) (m : ℕ) (w : World)
      → Holding F B c (m ∷ own_fd dirfd []) [] w
      → Held (pos m) (close dirfd w).1
  close-Held_below (negsuc n) m w h = same F B c h _ (close-closed (negsuc n) w)
  close-Held_below (pos n) m w h = close-Holding_below F B c h

  abbrev AlwaysReturns : (ℤ → Bytes → Bytes → M (ℤ × Bytes)) → Type 0
  AlwaysReturns rest =
      (fd : ℤ) (before path : Bytes) (w : World) → Held fd w → Returns (rest fd before path w)

  module _ (rest : ℤ → Bytes → Bytes → M (ℤ × Bytes)) (returns : AlwaysReturns rest) where
    mkdir_next-Returns :
        (m : ℕ) (p : PathText) (w : World) (o : Option Bytes)
        → Held (pos m) w
        → Returns (mkdir_next rest (pos m) p o w)
    unfolding mkdir_next
    mkdir_next-Returns m p w none h = mkdir_end-Returns m 0 p w h
    mkdir_next-Returns m p w (some r) h = returns (pos m) _ r w h

    mkdir_opened-Returns :
        (dirfd nextdirfd : ℤ) (p : PathText) (w : World)
        → Holding F B c (own_fd nextdirfd (own_fd dirfd [])) [] w
        → Returns (mkdir_opened rest dirfd nextdirfd p w)
    unfolding mkdir_opened
    mkdir_opened-Returns dirfd (negsuc n) p w h = mkdir_error-Returns w.errno dirfd n p w h
    mkdir_opened-Returns dirfd (pos m) p w h =
        mkdir_next-Returns m p (close dirfd w).1 p.behind (close-Held_below dirfd m w h)

    mkdir_open-Returns :
        (dirfd : ℤ) (p : PathText) (w : World) → Held dirfd w → Returns (mkdir_open rest dirfd p w)
    unfolding mkdir_open
    mkdir_open-Returns dirfd p w h =
        let r = openat dirfd p.comp path_directory w in
        mkdir_opened-Returns dirfd r.0 p r.1 (openat-Holding F B c h dirfd p.comp path_directory)

    mkdir_made-Returns :
        (dirfd made : ℤ) (e : ℕ) (p : PathText) (w : World)
        → Held dirfd w
        → Returns (mkdir_made rest dirfd made e p w)
    unfolding mkdir_made
    mkdir_made-Returns dirfd (pos n) e p w h = mkdir_open-Returns dirfd p w h
    mkdir_made-Returns dirfd (negsuc n) e p w h = elim (Bool-cases (e == eexist)) [
      | inl q ↦ rw (q, mkdir_made) (mkdir_open-Returns dirfd p w h)
      | inr q ↦ rw (q, mkdir_made) (mkdir_error-Returns e dirfd n p w h)
    ]

  mkdir_loop-Returns : (fuel : ℕ) → AlwaysReturns (mkdir_loop fuel)
  unfolding mkdir_loop mkdir_round
  mkdir_loop-Returns zero fd before path w h = h
  mkdir_loop-Returns (suc fuel) fd before path w h =
      let p = cut_path before path in
      let m = mkdirat fd p.comp w in
      mkdir_made-Returns (mkdir_loop fuel) (mkdir_loop-Returns fuel) fd m.0 m.1.errno p m.1
        (mkdirat-Holding F B c h fd p.comp)

  mkdir_root-Returns : (r : ℤ) (path : Bytes) (w : World) → Held r w → Returns (mkdir_root r path w)
  unfolding mkdir_root
  mkdir_root-Returns (negsuc n) path w h =
      mkdir_error-Returns w.errno (negsuc n) 0 (whole (b'/' ∷ path)) w h
  mkdir_root-Returns (pos n) path w h =
      mkdir_loop-Returns (suc (length path)) (pos n) (b'/' ∷ []) path w h

  mkdir_p-Returns : (path : Bytes) (w : World) → Holding F B c [] [] w → Returns (mkdir_p path w)
  unfolding mkdir_p
  mkdir_p-Returns [] w h = mkdir_loop-Returns 1 at_fdcwd [] [] w h
  mkdir_p-Returns (x ∷ path) w h = elim (Bool-cases (x == b'/')) [
    | inl e ↦
        let r = open_path (b'/' ∷ []) path_directory w in
        rw (e, mkdir_p)
          (mkdir_root-Returns r.0 path r.1 (open_path-Holding F B c h (b'/' ∷ []) path_directory))
    | inr e ↦
        rw (e, mkdir_p) (mkdir_loop-Returns (suc (suc (length path))) at_fdcwd [] (x ∷ path) w h)
  ]

module _ ⦃env : Env⦄ where
  -- Whichever calls fail, `mkdir_p` ends with the descriptors open that were so before and with the
  -- one that it returns, if its result is not negative. It leaves the heap alone and misuses
  -- nothing.
  pub mkdir_p-balanced :
      (path : Bytes) (w : World)
      → IsOrdered w
      → let ((fd, text), w') = mkdir_p path w in
        (numbers w'.fds ≡ own_fd fd (numbers w.fds))
        × (w'.blocks ≡ w.blocks)
        × IsOrdered w'
        × (w'.misuse ≡ w.misuse)
  mkdir_p-balanced path w o =
      let h = mkdir_p-Returns (numbers w.fds) w.blocks w.misuse path w (Holding-start w o) in
      (
        h.open_fds ∙ own_fd-append (mkdir_p path w).0.0 (numbers w.fds),
        h.live_blocks,
        Holding-IsOrdered h,
        h.misuses,
      )
