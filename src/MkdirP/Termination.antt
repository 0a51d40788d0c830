-- ===== src/MkdirP/Termination.antt =====
-- The loop of `mkdir_p` ends before its fuel does.
use pdistcc.Base.{
  ℕ, zero, suc, ◌<◌, ℤ, pos, negsuc, [], ◌∷◌, ◌≡◌, refl, Bool-cases, inl, inr, Option, none, some,
  Bytes, arith, length, ◌==◌,
}
use pdistcc.System.World.{World, Env, M, eexist}
use pdistcc.MkdirP.Ops.{
  strchr_slash, PathText, cut_path, mkdir_next, mkdir_opened, mkdir_open, mkdir_made, mkdir_round,
  mkdir_loop,
}
use pdistcc.System.Files.{openat, mkdirat, path_directory}

-- What stands behind the slash is shorter.
strchr_slash-length : (path r : Bytes) → (strchr_slash path).1 ≡ some r → length r < length path
unfolding strchr_slash
strchr_slash-length [] r e = absurd (ground (arith, e))
strchr_slash-length (x ∷ l) r e = ground (arith, strchr_slash-length l r)

-- How a turn goes on.
abbrev Rest : Type 0
Rest = ℤ → Bytes → Bytes → M (ℤ × Bytes)

-- Two ways to go on that agree on what stands behind the slash, agree.
module _ ⦃env : Env⦄ (rest rest' : Rest) (p : PathText)
    (same : (dirfd : ℤ) (before r : Bytes) (w : World)
      → p.behind ≡ some r
      → rest dirfd before r w ≡ rest' dirfd before r w) where
  mkdir_next-rest :
      (dirfd : ℤ) (o : Option Bytes) (w : World)
      → p.behind ≡ o
      → mkdir_next rest dirfd p o w ≡ mkdir_next rest' dirfd p o w
  unfolding mkdir_next
  mkdir_next-rest dirfd none w e = refl
  mkdir_next-rest dirfd (some r) w e = same dirfd _ r w e

  mkdir_opened-rest :
      (dirfd fd : ℤ) (w : World) → mkdir_opened rest dirfd fd p w ≡ mkdir_opened rest' dirfd fd p w
  unfolding mkdir_opened
  mkdir_opened-rest dirfd (negsuc n) w = refl
  mkdir_opened-rest dirfd (pos n) w = mkdir_next-rest (pos n) p.behind _ refl

  mkdir_open-rest : (dirfd : ℤ) (w : World) → mkdir_open rest dirfd p w ≡ mkdir_open rest' dirfd p w
  unfolding mkdir_open
  mkdir_open-rest dirfd w =
      let (fd, w') = openat dirfd p.comp path_directory w in mkdir_opened-rest dirfd fd w'

  mkdir_made-rest :
      (dirfd made : ℤ) (e : ℕ) (w : World)
      → mkdir_made rest dirfd made e p w ≡ mkdir_made rest' dirfd made e p w
  unfolding mkdir_made
  mkdir_made-rest dirfd (pos n) e w = mkdir_open-rest dirfd w
  mkdir_made-rest dirfd (negsuc n) e w = elim (Bool-cases (e == eexist)) [
    | inl i ↦ rw (i, mkdir_made) (mkdir_open-rest dirfd w)
    | inr i ↦ rw (i, mkdir_made) refl
  ]

  mkdir_round-rest :
      (dirfd : ℤ) (w : World) → mkdir_round rest dirfd p w ≡ mkdir_round rest' dirfd p w
  unfolding mkdir_round
  mkdir_round-rest dirfd w =
      let (made, w') = mkdirat dirfd p.comp w in mkdir_made-rest dirfd made w'.errno w'

module _ ⦃env : Env⦄ where
  -- The loop of `mkdir_p` gives the same result for any two amounts of fuel above the length of what
  -- is left of the path, whichever calls fail: it ends before its fuel does.
  pub mkdir_loop-fuel :
      (fuel fuel' : ℕ) (dirfd : ℤ) (before path : Bytes) (w : World)
      → length path < fuel
      → length path < fuel'
      → mkdir_loop fuel dirfd before path w ≡ mkdir_loop fuel' dirfd before path w
  unfolding mkdir_loop cut_path
  mkdir_loop-fuel zero fuel' dirfd before path w h h' = absurd (omega arith)
  mkdir_loop-fuel (suc fuel) zero dirfd before path w h h' = absurd (omega arith)
  mkdir_loop-fuel (suc fuel) (suc fuel') dirfd before path w h h' =
      mkdir_round-rest (mkdir_loop fuel) (mkdir_loop fuel') (cut_path before path)
        (λ fd b r w' e.
          mkdir_loop-fuel fuel fuel' fd b r w' (omega (arith, strchr_slash-length path r e))
            (omega (arith, strchr_slash-length path r e)))
        dirfd w
