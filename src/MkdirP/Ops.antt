-- ===== src/MkdirP/Ops.antt =====
-- `mkdir_p`, and the string that it cuts into components in place.
use pdistcc.Base.{
  Bool, ℕ, zero, suc, ℤ, pos, negsuc, neg, is_zero, true, false, [], ◌∷◌, ◌++◌, Option, none, some,
  Bytes, length, ◌==◌, if◌then◌else◌,
}
use pdistcc.System.World.{Env, M, pure, ◌>>=◌, ◌>>◌, get_errno, eexist}
use pdistcc.System.Files.{at_fdcwd, path_directory, openat, open_path, mkdirat, close}

-- `strchr(path, '/')`: what stands before the slash, and what stands behind it.
unfoldable pub strchr_slash : Bytes → Bytes × Option Bytes
strchr_slash [] = ([], none)
strchr_slash (x ∷ l) =
    let (comp, behind) = strchr_slash l in if x == b'/' then ([], some l) else (x ∷ comp, behind)

-- The array of the path: what stands before the pointer `path`, the component there, and behind it
-- the byte `cell` at the pointer `end` with what follows, unless `end` is NULL.
pub record PathText : Type 0 where
  pub before : Bytes
  pub comp : Bytes
  pub cell : ℕ
  pub behind : Option Bytes

-- The bytes of the array up to its NUL at the end of the path.
unfoldable pub array_of : PathText → Bytes
array_of p = p.before ++ (p.comp ++ elim (p.behind) [ none ↦ [] | some r ↦ p.cell ∷ r ])

-- `end = strchr(path, '/')`, and `*end = '\0'` if there is one.
unfoldable pub cut_path : Bytes → Bytes → PathText
unfolding strchr_slash
cut_path before path =
    let (comp, behind) = strchr_slash path in
    record { before = before; comp = comp; cell = 0; behind = behind }

-- Before the first cut `end` is NULL.
abbrev pub whole : Bytes → PathText
whole path = record { before = []; comp = path; cell = 0; behind = none }

-- `*end = '/'`
unfoldable pub restore : PathText → PathText
restore p = record p { cell = b'/' }

module _ ⦃env : Env⦄ where
  -- `if (fd >= 0) close(fd);`
  abbrev pub close_fd : ℤ → M (Unit {0})
  close_fd (negsuc n) w = (tt, w)
  close_fd (pos n) w = (tt, (close (pos n) w).1)

  -- From the label `out` on: the result, and the array of the path.
  unfoldable pub mkdir_out : ℤ → ℤ → ℤ → PathText → M (ℤ × Bytes)
  unfolding restore array_of
  mkdir_out err dirfd nextdirfd p = do
    close_fd nextdirfd
    elim (is_zero err) [
      | true ↦ pure (dirfd, array_of (restore p))
      | false ↦ do close_fd dirfd; pure (err, array_of (restore p))
    ]

  -- The next turn, behind the slash if there is one: `rest` goes on with the loop.
  unfoldable pub mkdir_next :
      (ℤ → Bytes → Bytes → M (ℤ × Bytes)) → ℤ → PathText → Option Bytes → M (ℤ × Bytes)
  unfolding mkdir_out
  mkdir_next rest dirfd p none = mkdir_out (pos 0) dirfd (negsuc 0) p
  mkdir_next rest dirfd p (some r) = rest dirfd (p.before ++ (p.comp ++ b'/' ∷ [])) r

  -- After `openat` of a component.
  unfoldable pub mkdir_opened :
      (ℤ → Bytes → Bytes → M (ℤ × Bytes)) → ℤ → ℤ → PathText → M (ℤ × Bytes)
  unfolding mkdir_next
  mkdir_opened rest dirfd (negsuc n) p = do e ← get_errno; mkdir_out (neg e) dirfd (negsuc n) p
  mkdir_opened rest dirfd (pos n) p = do close dirfd; mkdir_next rest (pos n) p p.behind

  -- The component is opened.
  unfoldable pub mkdir_open : (ℤ → Bytes → Bytes → M (ℤ × Bytes)) → ℤ → PathText → M (ℤ × Bytes)
  unfolding mkdir_opened
  mkdir_open rest dirfd p = do
    nextdirfd ← openat dirfd p.comp path_directory
    mkdir_opened rest dirfd nextdirfd p

  -- After `mkdirat`, with the errno `e`: that the component exists is no error.
  unfoldable pub mkdir_made :
      (ℤ → Bytes → Bytes → M (ℤ × Bytes)) → ℤ → ℤ → ℕ → PathText → M (ℤ × Bytes)
  unfolding mkdir_open
  mkdir_made rest dirfd (pos n) e p = mkdir_open rest dirfd p
  mkdir_made rest dirfd (negsuc n) e p = elim (e == eexist) [
    | true ↦ mkdir_open rest dirfd p
    | false ↦ mkdir_out (neg e) dirfd (negsuc n) p
  ]

  -- One round of the loop.
  unfoldable pub mkdir_round : (ℤ → Bytes → Bytes → M (ℤ × Bytes)) → ℤ → PathText → M (ℤ × Bytes)
  unfolding mkdir_made
  mkdir_round rest dirfd p = do
    made ← mkdirat dirfd p.comp
    e ← get_errno
    mkdir_made rest dirfd made e p

  -- `while (keep_going)`, on fuel: a round but the last takes a slash.
  unfoldable pub mkdir_loop : ℕ → ℤ → Bytes → Bytes → M (ℤ × Bytes)
  unfolding mkdir_round cut_path
  mkdir_loop zero dirfd before path = pure (dirfd, before ++ path)
  mkdir_loop (suc fuel) dirfd before path =
      mkdir_round (mkdir_loop fuel) dirfd (cut_path before path)

  -- After the open of the root directory.
  unfoldable pub mkdir_root : ℤ → Bytes → M (ℤ × Bytes)
  unfolding mkdir_loop
  mkdir_root (negsuc n) path = do
    e ← get_errno
    mkdir_out (neg e) (negsuc n) (negsuc 0) (whole (b'/' ∷ path))
  mkdir_root (pos n) path = mkdir_loop (suc (length path)) (pos n) (b'/' ∷ []) path

  -- The start of the loop, of an absolute path and of a relative one.
  unfoldable pub mkdir_start : Bool → ℕ → Bytes → M (ℤ × Bytes)
  unfolding mkdir_root
  mkdir_start true c path = do dirfd ← open_path (b'/' ∷ []) path_directory; mkdir_root dirfd path
  mkdir_start false c path = mkdir_loop (suc (suc (length path))) at_fdcwd [] (c ∷ path)

  -- `mkdir_p`: its result, and the array of the path after it.
  unfoldable pub mkdir_p : Bytes → M (ℤ × Bytes)
  unfolding mkdir_start
  mkdir_p [] = mkdir_loop 1 at_fdcwd [] []
  mkdir_p (c ∷ path) = mkdir_start (c == b'/') c path
