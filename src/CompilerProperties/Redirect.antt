-- ===== src/CompilerProperties/Redirect.antt =====
-- Where a forked child reads and writes when it becomes the compiler.
use pdistcc.Base.{
  ℕ, zero, suc, ◌+◌, ◌<◌, ◌≤◌, ℤ, pos, negsuc, false, List, ◌∷◌, ◌≡◌, ◌≢◌, refl, ◌∙◌, ap, none,
  some, Bytes, ascii, arith, ◌==◌,
}
use pdistcc.System.World.{World, Handle, Env, IsQuiet}
use pdistcc.System.Files.{lookup_fd, remove_fd, read_only, open_path, close}
use pdistcc.System.Keeps.{lookup_fd-remove_fd_ne}
use pdistcc.System.Processes.{ChildEnd, executes, child_exits, errno_or, dup2}
use pdistcc.System.Descriptors.{
  IsUnique, lookup_fd-remove_fd_self, remove_fd-IsUnique, Copied, close-fds, close-next_fd,
  open_path-MadeFd, dup2-Copied, dup2_quiet, execv_quiet, lookup_fd-remove_fd-none, execv_rule,
}
use pdistcc.CompilerProperties.Prepared.{
  HasPipe, IsInput, IsPrepared, IsInput-remove_fd, null_input-IsPrepared, closed-IsPrepared,
}
use pdistcc.CompilerProperties.Forked.{null_input, child_redirected, child_exec}

module _ ⦃env : Env⦄ (r x : ℕ) (out : Handle) where
  -- The program with its arguments writes to the pipe, and has no other descriptor of it; or the
  -- child has exited with an error.
  abbrev pub Arranged : Bytes → List Bytes → List (ℕ × Handle) → ChildEnd × World → Type 0
  Arranged compiler args before (child_exits code, w') = code ≢ 0
  Arranged compiler args before (executes path l, w') =
      (path ≡ compiler)
      × (l ≡ args)
      × (lookup_fd 1 w'.fds ≡ some out)
      × (lookup_fd r w'.fds ≡ none)
      × (lookup_fd x w'.fds ≡ none)
      × IsInput before w'.fds

  -- The pipe's end for writing is the standard output, and is closed.
  output_ready :
      (compiler : Bytes) (args : List Bytes) (v : World) (l : List (ℕ × Handle)) (w : World)
      → 2 ≤ r
      → 2 ≤ x
      → IsPrepared r x out v.fds l
      → w.fds ≡ remove_fd x ((1, out) ∷ remove_fd 1 l)
      → Arranged compiler args v.fds (executes compiler args, w)
  unfolding lookup_fd
  output_ready compiler args v l w big_r big_x p e =
      let l' = (1, out) ∷ remove_fd 1 l in
      let apart_1 : (x == 1) ≡ false = ground arith in
      let apart_0 : (x == 0) ≡ false = ground arith in
      let apart_r : (1 == r) ≡ false = ground arith in
      let without_r : lookup_fd r l' ≡ none =
        rw apart_r (lookup_fd-remove_fd-none r 1 l p.read_closed) in
      let unique : IsUnique l' =
        (lookup_fd-remove_fd_self 1 l p.unique, remove_fd-IsUnique 1 l p.unique) in
      rw e (
        refl,
        refl,
        lookup_fd-remove_fd_ne x 1 l' apart_1,
        lookup_fd-remove_fd-none r x l' without_r,
        lookup_fd-remove_fd_self x l' unique,
        IsInput-remove_fd x v.fds l' apart_0 (IsInput-remove_fd 1 v.fds l (ground arith) p.input),
      )

  errno_or_nonzero : (code e : ℕ) → code ≢ 0 → errno_or code e ≢ 0
  errno_or_nonzero code zero h = h
  errno_or_nonzero code (suc e) h = omega arith

  -- From the `dup2` of the pipe's end for writing on.
  child_redirected-Arranged :
      (compiler : Bytes) (args : List Bytes) (c : ℤ) (v w : World) (l : List (ℕ × Handle))
      → 2 ≤ r
      → 2 ≤ x
      → IsPrepared r x out v.fds l
      → Copied 1 out l c w
      → Arranged compiler args v.fds (child_redirected x compiler args c w)
  unfolding child_redirected
  child_redirected-Arranged compiler args (negsuc n) v w l big_r big_x p c =
      errno_or_nonzero 125 w.errno (omega arith)
  child_redirected-Arranged compiler args (pos n) v w l big_r big_x p c =
      let w' = (close (pos x) w).1 in
      execv_rule (λ e u. Arranged compiler args v.fds (e, u)) compiler args w'
        (output_ready compiler args v l (record w' { tick = w'.tick + 1 }) big_r big_x p
          (close-fds x w ∙ ap (remove_fd x) c))
        (λ e. omega arith)

  apart_1 : 2 ≤ x → (x == 1) ≡ false
  apart_1 h = ground arith

  -- Before the `dup2` of the pipe's end for writing.
  abbrev with_input : World → World
  with_input w =
      let (fd, w2) = open_path (ascii "/dev/null") read_only (close (pos r) w).1 in
      (null_input fd w2).1

  with_input-IsPrepared :
      (w : World) → HasPipe r x out w → IsPrepared r x out w.fds (with_input w).fds
  with_input-IsPrepared w h =
      let w1 = (close (pos r) w).1 in
      let (fd, w2) = open_path (ascii "/dev/null") read_only w1 in
      let closed = close-fds r w in
      let same = close-next_fd r w in
      let new : lookup_fd w1.next_fd w1.fds ≡ none =
        rw (closed, same) (lookup_fd-remove_fd-none w.next_fd r w.fds h.fresh) in
      let below : r < w1.next_fd = rw same h.old_read in
      null_input-IsPrepared r x out h.read_standard h.write_standard w.fds w1.next_fd fd w1.fds w2
        (open_path-MadeFd (ascii "/dev/null") w1) below new
        (closed-IsPrepared r x out w w1.fds h closed)

  -- From `close(pipefd[0])` on.
  pub child_exec-Arranged :
      (compiler : Bytes) (args : List Bytes) (w : World)
      → HasPipe r x out w
      → Arranged compiler args w.fds (child_exec r x compiler args w)
  unfolding child_exec
  child_exec-Arranged compiler args w h =
      let w3 = with_input w in
      let p = with_input-IsPrepared w h in
      child_redirected-Arranged compiler args (dup2 (pos x) 1 w3).0 w (dup2 (pos x) 1 w3).1 w3.fds
        h.read_standard h.write_standard p
        (dup2-Copied x 1 out w3 (apart_1 h.write_standard) p.writes)

  -- Where no call fails, it becomes the program.
  pub child_exec_quiet :
      IsQuiet env
      → (compiler : Bytes) (args : List Bytes) (w : World) → HasPipe r x out w
      → (child_exec r x compiler args w).0 ≡ executes compiler args
  unfolding child_exec child_redirected
  child_exec_quiet q compiler args w h =
      let w3 = with_input w in
      let p = with_input-IsPrepared w h in
      let copied : (dup2 (pos x) 1 w3).0 ≡ pos 1 = dup2_quiet q x 1 out w3 p.writes in
      rw (copied, child_redirected) (execv_quiet q compiler args _)
