-- ===== src/CompilerProperties/March.antt =====
-- `get_march_native`: what the compiler takes an option's value `native` for.
use pdistcc.Base.{
  ℕ, zero, suc, ◌+◌, ℤ, pos, negsuc, neg, is_zero, Bool, true, false, not, ◌&&◌, ◌||◌, [], ◌∷◌,
  ◌++◌, Option, none, some, Bytes, ascii, c_string, ltb, length, get_elem?, drop, ◌==◌,
  if◌then◌else◌,
}
use pdistcc.System.World.{
  Ptr, Env, M, pure, ◌>>=◌, ◌>>◌, get_errno, einval, enomem, enoent, text_of,
}
use pdistcc.System.Files.{close}
use pdistcc.System.Memory.{asprintf, strdup, free}
use pdistcc.System.Processes.{
  Status, exited, signaled, other, Child, Stream, pipe, fork, fdopen, getline, waitpid,
}
use pdistcc.CompilerProperties.Whitespace.{skip_whitespace}
use pdistcc.CompilerProperties.Triplet.{close_pipe, fdopen_error}

-- `strncmp(a, b, n) == 0`, for strings that end in a NUL, or with their list
unfoldable pub strncmp_eq : ℕ → Bytes → Bytes → Bool
strncmp_eq zero a b = true
strncmp_eq (suc n) [] [] = true
strncmp_eq (suc n) [] (y ∷ b) = y == 0
strncmp_eq (suc n) (x ∷ a) [] = x == 0
strncmp_eq (suc n) (x ∷ a) (y ∷ b) = x == y && (x == 0 || strncmp_eq n a b)

-- `line[i] == c`
abbrev pub byte_is : Option ℕ → ℕ → Bool
byte_is none c = false
byte_is (some x) c = x == c

-- The tests of a line of `len` characters without white space: it is `-`, the option, `=` and the
-- value, which is a character at least. The value, if they hold.
unfoldable pub option_value : Bytes → Bytes → ℕ → Option Bytes
unfolding strncmp_eq
option_value opt line len =
    if ltb len 2 || not (byte_is (get_elem? line 0) b'-')
    then none
    else if ltb len (length opt + 3) || not (byte_is (get_elem? line (length opt + 1)) b'=')
    then none
    else if strncmp_eq (length opt) (drop 1 line) opt
    then some (c_string (drop (length opt + 2) line))
    else none

-- The line's buffer, with another text.
abbrev pub with_text : Ptr → Bytes → Ptr
with_text none t = none
with_text (some s) t = some (record s { text = t })

module _ ⦃env : Env⦄ where
  -- `if (err && value) { free(*value); *value = NULL; }`
  unfoldable pub drop_value : Bool → Option Ptr → M (Option Ptr)
  drop_value true value w = (value, w)
  drop_value false none w = (none, w)
  drop_value false (some p) w = (some none, (free p w).1)

  -- From the label `out` on: the result, and `*value` after it.
  unfoldable pub march_out : ℤ → ℤ → Option Stream → Ptr → Ptr → Option Ptr → M (ℤ × Option Ptr)
  unfolding drop_value close_pipe
  march_out err fd gccpipe line cmd value = do
    value ← drop_value (is_zero err) value
    close_pipe fd gccpipe
    free line
    free cmd
    pure (err, value)

  -- After the child's end: without a value the option was not found.
  unfoldable pub march_found : ℕ → Stream → Ptr → Ptr → Ptr → M (ℤ × Option Ptr)
  unfolding march_out
  march_found fd s line cmd none = march_out (neg enoent) (pos fd) (some s) line cmd (some none)
  march_found fd s line cmd (some v) = march_out (pos 0) (pos fd) (some s) line cmd (some (some v))

  -- After `waitpid`.
  unfoldable pub march_waited : ℕ → Stream → Ptr → Ptr → Ptr → Option Status → M (ℤ × Option Ptr)
  unfolding march_found
  march_waited fd s line cmd value none = do
    e ← get_errno
    march_out (neg e) (pos fd) (some s) line cmd (some value)
  march_waited fd s line cmd value (some (exited zero)) = march_found fd s line cmd value
  march_waited fd s line cmd value (some (exited (suc k))) =
      march_out (pos (suc k)) (pos fd) (some s) line cmd (some value)
  march_waited fd s line cmd value (some (signaled k)) =
      march_out (pos k) (pos fd) (some s) line cmd (some value)
  march_waited fd s line cmd value (some other) =
      march_out (neg einval) (pos fd) (some s) line cmd (some value)

  module _ (child : Child) where
    -- Behind the loop.
    unfoldable pub march_wait : ℕ → Stream → Ptr → Ptr → Ptr → M (ℤ × Option Ptr)
    unfolding march_waited
    march_wait fd s line cmd value = do
      status ← waitpid child
      march_waited fd s line cmd value status

    -- After `strdup` of the value.
    unfoldable pub march_copied : ℕ → Stream → Ptr → Ptr → Ptr → M (ℤ × Option Ptr)
    unfolding march_wait
    march_copied fd s line cmd none = march_out (neg enomem) (pos fd) (some s) line cmd (some none)
    march_copied fd s line cmd (some v) = march_wait fd s line cmd (some v)

    module _ (fd : ℕ) (cmd : Ptr) (opt : Bytes) where
      -- After the tests of a line; `rest` goes on with the loop.
      unfoldable pub march_matched :
          (Ptr → Stream → M (ℤ × Option Ptr)) → Ptr → Stream → Option Bytes → M (ℤ × Option Ptr)
      unfolding march_copied
      march_matched rest line s none = rest line s
      march_matched rest line s (some v) = do value ← strdup v; march_copied fd s line cmd value

      -- After `getline`.
      unfoldable pub march_read :
          (Ptr → Stream → M (ℤ × Option Ptr)) → Bool × Ptr × Stream → M (ℤ × Option Ptr)
      unfolding march_matched skip_whitespace option_value
      march_read rest (false, line, s) = do
        e ← get_errno
        march_out (neg e) (pos fd) (some s) line cmd (some none)
      march_read rest (true, line, s) =
          let (array, len) = skip_whitespace (text_of line ++ 0 ∷ []) in
          march_matched rest (with_text line (c_string array)) s (option_value opt array len)

      -- The loop's test `!feof(gccpipe) && !ferror(gccpipe)`, negated, and a round.
      unfoldable pub march_round :
          (Ptr → Stream → M (ℤ × Option Ptr)) → Ptr → Stream → Bool → M (ℤ × Option Ptr)
      unfolding march_read march_wait
      march_round rest line s true = march_wait fd s line cmd none
      march_round rest line s false = do r ← getline line s; march_read rest r

      -- The loop, on fuel: each round but the last takes a byte of the output.
      unfoldable pub march_loop : ℕ → Ptr → Stream → M (ℤ × Option Ptr)
      unfolding march_round
      march_loop zero line s = march_wait fd s line cmd none
      march_loop (suc fuel) line s = march_round (march_loop fuel) line s (s.eof || s.error)

    -- After `fdopen`.
    unfoldable pub march_opened : ℕ → Ptr → Bytes → Option Stream → M (ℤ × Option Ptr)
    unfolding march_loop
    march_opened fd cmd opt none = do
      e ← get_errno
      march_out (fdopen_error e) (pos fd) none none cmd (some none)
    march_opened fd cmd opt (some s) = march_loop fd cmd opt (length s.rest + 1) none s

    -- After `fork`, in the parent.
    unfoldable pub march_forked : ℕ → ℕ → Ptr → Bytes → ℤ → M (ℤ × Option Ptr)
    unfolding march_opened
    march_forked fd write_fd cmd opt (negsuc n) = do
      e ← get_errno
      march_out (neg e) (pos fd) none none cmd (some none)
    march_forked fd write_fd cmd opt (pos n) = do
      close (pos write_fd)
      gccpipe ← fdopen child fd
      march_opened fd cmd opt gccpipe

    -- After `pipe`.
    unfoldable pub march_piped : Ptr → Bytes → Option (ℕ × ℕ) → M (ℤ × Option Ptr)
    unfolding march_forked
    march_piped cmd opt none = do
      e ← get_errno
      march_out (neg e) (negsuc 0) none none cmd (some none)
    march_piped cmd opt (some (fd, write_fd)) = do
      gccpid ← fork
      march_forked fd write_fd cmd opt gccpid

    -- After `asprintf`.
    unfoldable pub march_named : Bytes → Ptr → M (ℤ × Option Ptr)
    unfolding march_piped
    march_named opt none = march_out (neg enomem) (negsuc 0) none none none (some none)
    march_named opt (some cmd) = do pipefd ← pipe; march_piped (some cmd) opt pipefd

    -- `get_march_native`: its result, and `*value` after it. `value` is `none` for NULL, and else
    -- what `*value` is before.
    unfoldable pub get_march_native : Bytes → Bytes → Option Ptr → M (ℤ × Option Ptr)
    unfolding march_named
    get_march_native compiler opt none = march_out (neg einval) (negsuc 0) none none none none
    get_march_native compiler opt (some old) = do
      free old
      cmd ← asprintf (compiler ++ (ascii " -" ++ (opt ++ ascii "=native -Q --help=target")))
      march_named opt cmd
