-- ===== src/MkdirP/Restored.antt =====
-- The path that `mkdir_p` cuts up is whole again when it returns.
use mathlib.Core.List.{append_assoc, append-nil}
use pdistcc.Base.{
  ℕ, zero, suc, ℤ, pos, negsuc, neg, true, [], ◌∷◌, ◌++◌, Option, none, some, Bytes, length, ◌==◌,
  ◌≡◌, refl, ap, arith, Bool-cases, inl, inr, ◌∙◌,
}
use pdistcc.System.World.{Env, M, World, eexist}
use pdistcc.System.Files.{at_fdcwd, close, openat, open_path, path_directory, mkdirat}
use pdistcc.MkdirP.Ops.{
  strchr_slash, PathText, whole, array_of, cut_path, restore, mkdir_out, mkdir_next, mkdir_opened,
  mkdir_open, mkdir_made, mkdir_round, mkdir_loop, mkdir_root, mkdir_p,
}

-- The string that was cut, put together.
abbrev joined : Bytes × Option Bytes → Bytes
joined c = c.0 ++ elim (c.1) [ none ↦ [] | some r ↦ b'/' ∷ r ]

strchr_slash-joined : (l : Bytes) → joined (strchr_slash l) ≡ l
unfolding strchr_slash
strchr_slash-joined [] = refl
strchr_slash-joined (x ∷ l) = ground (arith, strchr_slash-joined l)

restored : (before path : Bytes) → array_of (restore (cut_path before path)) ≡ before ++ path
unfolding array_of restore cut_path
restored before path = ap (λ l. before ++ l) (strchr_slash-joined path)

-- What goes on with the loop leaves the array with the path in it.
abbrev Leaves : (ℤ → Bytes → Bytes → M (ℤ × Bytes)) → Type 0
Leaves rest =
    (fd : ℤ) (before path : Bytes) (w : World) → (rest fd before path w).0.1 ≡ before ++ path

module _ ⦃env : Env⦄ where
  mkdir_out-array_of :
      (err dirfd nextdirfd : ℤ) (p : PathText) (w : World)
      → (mkdir_out err dirfd nextdirfd p w).0.1 ≡ array_of (restore p)
  unfolding mkdir_out
  mkdir_out-array_of (pos zero) dirfd nextdirfd p w = refl
  mkdir_out-array_of (pos (suc k)) dirfd nextdirfd p w = refl
  mkdir_out-array_of (negsuc k) dirfd nextdirfd p w = refl

  module _ (rest : ℤ → Bytes → Bytes → M (ℤ × Bytes)) (leaves : Leaves rest) where
    mkdir_next-array_of :
        (dirfd : ℤ) (p : PathText) (w : World) (o : Option Bytes)
        → p.behind ≡ o
        → (mkdir_next rest dirfd p o w).0.1 ≡ array_of (restore p)
    unfolding mkdir_next array_of restore
    mkdir_next-array_of dirfd p w none e = mkdir_out-array_of (pos 0) dirfd (negsuc 0) p w
    mkdir_next-array_of dirfd p w (some r) e =
        leaves dirfd _ r w
        ∙ rw e (
            append_assoc p.before (p.comp ++ b'/' ∷ []) r
            ∙ ap (λ l. p.before ++ l) (append_assoc p.comp (b'/' ∷ []) r))

    mkdir_opened-array_of :
        (dirfd nextdirfd : ℤ) (p : PathText) (w : World)
        → (mkdir_opened rest dirfd nextdirfd p w).0.1 ≡ array_of (restore p)
    unfolding mkdir_opened
    mkdir_opened-array_of dirfd (negsuc n) p w =
        mkdir_out-array_of (neg w.errno) dirfd (negsuc n) p w
    mkdir_opened-array_of dirfd (pos n) p w =
        mkdir_next-array_of (pos n) p (close dirfd w).1 p.behind refl

    mkdir_open-array_of :
        (dirfd : ℤ) (p : PathText) (w : World)
        → (mkdir_open rest dirfd p w).0.1 ≡ array_of (restore p)
    unfolding mkdir_open
    mkdir_open-array_of dirfd p w =
        let r = openat dirfd p.comp path_directory w in mkdir_opened-array_of dirfd r.0 p r.1

    mkdir_made-array_of :
        (dirfd made : ℤ) (e : ℕ) (p : PathText) (w : World)
        → (mkdir_made rest dirfd made e p w).0.1 ≡ array_of (restore p)
    unfolding mkdir_made
    mkdir_made-array_of dirfd (pos n) e p w = mkdir_open-array_of dirfd p w
    mkdir_made-array_of dirfd (negsuc n) e p w = elim (Bool-cases (e == eexist)) [
      | inl h ↦ rw (h, mkdir_made) (mkdir_open-array_of dirfd p w)
      | inr h ↦ rw (h, mkdir_made) (mkdir_out-array_of (neg e) dirfd (negsuc n) p w)
    ]

  mkdir_loop-Leaves : (fuel : ℕ) → Leaves (mkdir_loop fuel)
  unfolding mkdir_loop mkdir_round
  mkdir_loop-Leaves zero fd before path w = refl
  mkdir_loop-Leaves (suc fuel) fd before path w =
      let m = mkdirat fd (cut_path before path).comp w in
      mkdir_made-array_of (mkdir_loop fuel) (mkdir_loop-Leaves fuel) fd m.0 m.1.errno
        (cut_path before path) m.1
      ∙ restored before path

  mkdir_root-array : (r : ℤ) (path : Bytes) (w : World) → (mkdir_root r path w).0.1 ≡ b'/' ∷ path
  unfolding mkdir_root array_of restore
  mkdir_root-array (negsuc n) path w =
      mkdir_out-array_of (neg w.errno) (negsuc n) (negsuc 0) (whole (b'/' ∷ path)) w
      ∙ append-nil (b'/' ∷ path)
  mkdir_root-array (pos n) path w = mkdir_loop-Leaves (suc (length path)) (pos n) (b'/' ∷ []) path w

  -- Whichever calls fail, the array of the path holds after `mkdir_p` what it held before: each
  -- slash that was overwritten is put back.
  pub mkdir_p-path : (path : Bytes) (w : World) → (mkdir_p path w).0.1 ≡ path
  unfolding mkdir_p
  mkdir_p-path [] w = mkdir_loop-Leaves 1 at_fdcwd [] [] w
  mkdir_p-path (c ∷ path) w = elim (Bool-cases (c == b'/')) [
    | inl h ↦
        let r = open_path (b'/' ∷ []) path_directory w in
        rw (h, mkdir_p) (mkdir_root-array r.0 path r.1 ∙ ap (λ d. d ∷ path) (slash h))
    | inr h ↦ rw (h, mkdir_p) (mkdir_loop-Leaves (suc (suc (length path))) at_fdcwd [] (c ∷ path) w)
  ]
    where
      slash : (c == b'/') ≡ true → b'/' ≡ c
      slash h = ground arith
