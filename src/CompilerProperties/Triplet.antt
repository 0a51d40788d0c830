-- ===== src/CompilerProperties/Triplet.antt =====
-- `get_gcc_triplet`: the first line that the compiler prints for -dumpmachine.
use pdistcc.Base.{
  ℕ, zero, suc, ℤ, pos, negsuc, neg, is_zero, Bool, true, false, [], ◌∷◌, ◌++◌, Option, none, some,
  Bytes, ascii, ◌==◌, if◌then◌else◌, ◌||◌,
}
use pdistcc.System.World.{Ptr, Env, M, pure, ◌>>=◌, ◌>>◌, get_errno, einval, enomem}
use pdistcc.System.Files.{close}
use pdistcc.System.Memory.{asprintf, free}
use pdistcc.System.Processes.{
  Status, exited, signaled, other, Child, Stream, pipe, fork, fdopen, getline, fclose, waitpid,
}

-- The string at `*value`, which a NUL ends, after `strchr(*value, '\n')` and a NUL in its place
unfoldable pub first_line : Bytes → Bytes
first_line [] = []
first_line (x ∷ l) = if x == 10 || x == 0 then [] else x ∷ first_line l

-- `*value` when its newline has been overwritten.
abbrev pub without_newline : Ptr → Ptr
without_newline none = none
without_newline (some s) = some (record s { text = first_line s.text })

-- `errno ? -errno : -ENOMEM`
abbrev pub fdopen_error : ℕ → ℤ
fdopen_error e = if e == 0 then neg enomem else neg e

module _ ⦃env : Env⦄ where
  -- `if (gccpipe) fclose(gccpipe); else if (pipefd[0] >= 0) close(pipefd[0]);`
  unfoldable pub close_pipe : ℤ → Option Stream → M (Unit {0})
  close_pipe fd (some s) w = fclose s w
  close_pipe (pos n) none w = (tt, (close (pos n) w).1)
  close_pipe (negsuc n) none w = (tt, w)

  -- `if (err && value) { free(*value); value = NULL; }` leaves `*value` as it is.
  unfoldable pub free_value : Bool → Option Ptr → M (Unit {0})
  free_value true value w = (tt, w)
  free_value false none w = (tt, w)
  free_value false (some p) w = free p w

  -- From the label `out` on: the result, and `*value` after it.
  unfoldable pub triplet_out : ℤ → ℤ → Option Stream → Ptr → Option Ptr → M (ℤ × Option Ptr)
  unfolding close_pipe free_value
  triplet_out err fd gccpipe cmd value = do
    close_pipe fd gccpipe
    free cmd
    free_value (is_zero err) value
    pure (err, value)

  -- After `waitpid`.
  unfoldable pub triplet_waited : ℕ → Stream → Ptr → Ptr → Option Status → M (ℤ × Option Ptr)
  unfolding triplet_out first_line
  triplet_waited fd s cmd value none = do
    e ← get_errno
    triplet_out (neg e) (pos fd) (some s) cmd (some value)
  triplet_waited fd s cmd value (some (exited zero)) =
      triplet_out (pos 0) (pos fd) (some s) cmd (some (without_newline value))
  triplet_waited fd s cmd value (some (exited (suc k))) =
      triplet_out (pos (suc k)) (pos fd) (some s) cmd (some value)
  triplet_waited fd s cmd value (some (signaled k)) =
      triplet_out (pos k) (pos fd) (some s) cmd (some value)
  triplet_waited fd s cmd value (some other) =
      triplet_out (neg einval) (pos fd) (some s) cmd (some value)

  module _ (child : Child) where
    -- After `getline`.
    unfoldable pub triplet_read : ℕ → Ptr → Bool × Ptr × Stream → M (ℤ × Option Ptr)
    unfolding triplet_waited
    triplet_read fd cmd (false, value, s) = do
      e ← get_errno
      triplet_out (neg e) (pos fd) (some s) cmd (some value)
    triplet_read fd cmd (true, value, s) = do
      status ← waitpid child
      triplet_waited fd s cmd value status

    -- After `fdopen`.
    unfoldable pub triplet_opened : ℕ → Ptr → Ptr → Option Stream → M (ℤ × Option Ptr)
    unfolding triplet_read
    triplet_opened fd cmd old none = do
      e ← get_errno
      triplet_out (fdopen_error e) (pos fd) none cmd (some old)
    triplet_opened fd cmd old (some s) = do
      free old
      line ← getline none s
      triplet_read fd cmd line

    -- After `fork`, in the parent.
    unfoldable pub triplet_forked : ℕ → ℕ → Ptr → Ptr → ℤ → M (ℤ × Option Ptr)
    unfolding triplet_opened
    triplet_forked fd write_fd cmd old (negsuc n) = do
      e ← get_errno
      triplet_out (neg e) (pos fd) none cmd (some old)
    triplet_forked fd write_fd cmd old (pos n) = do
      close (pos write_fd)
      gccpipe ← fdopen child fd
      triplet_opened fd cmd old gccpipe

    -- After `asprintf`.
    unfoldable pub triplet_named : ℕ → ℕ → Ptr → Ptr → M (ℤ × Option Ptr)
    unfolding triplet_forked
    triplet_named fd write_fd old none = triplet_out (neg enomem) (pos fd) none none (some old)
    triplet_named fd write_fd old (some cmd) = do
      gccpid ← fork
      triplet_forked fd write_fd (some cmd) old gccpid

    -- After `pipe`.
    unfoldable pub triplet_piped : Bytes → Ptr → Option (ℕ × ℕ) → M (ℤ × Option Ptr)
    unfolding triplet_named
    triplet_piped compiler old none = do
      e ← get_errno
      triplet_out (neg e) (negsuc 0) none none (some old)
    triplet_piped compiler old (some (fd, write_fd)) = do
      cmd ← asprintf (compiler ++ ascii " -dumpmachine")
      triplet_named fd write_fd old cmd

    -- `get_gcc_triplet`: its result, and `*value` after it. `value` is `none` for NULL, and else
    -- what `*value` is before.
    unfoldable pub get_gcc_triplet : Bytes → Option Ptr → M (ℤ × Option Ptr)
    unfolding triplet_piped
    get_gcc_triplet compiler none = triplet_out (neg einval) (negsuc 0) none none none
    get_gcc_triplet compiler (some old) = do pipefd ← pipe; triplet_piped compiler old pipefd
