-- ===== src/CompilerProperties/MarchAnswer.antt =====
-- The whole of `get_march_native` when no call fails.
use pdistcc.Base.{
  ℕ, suc, ◌+◌, ◌<◌, pos, false, Bool-cases, inl, inr, List, [], ◌∷◌, none, some, Bytes, IsText,
  length, length-append, ◌≡◌, refl, ◌∙◌, arith, ==_refl,
}
use pdistcc.System.World.{World, Handle, unlocked, Ptr, Env, IsQuiet, call_done}
use pdistcc.System.Files.{close, lookup_fd}
use pdistcc.System.Memory.{free, asprintf, has_block}
use pdistcc.System.Processes.{Child, exited, Stream, pipe, fork, fdopen}
use pdistcc.CompilerProperties.March.{
  march_opened, march_forked, march_piped, march_named, get_march_native,
}
use pdistcc.CompilerProperties.FirstMatch.{unlines, IsLines, first_value, Finds, march_loop-Finds}

-- Each line has its newline.
length-unlines : (lines : List Bytes) → length lines < length (unlines lines) + 1
length-unlines [] = ground arith
length-unlines (line ∷ lines) =
    omega (arith, length-unlines lines, length-append line (10 ∷ unlines lines))

free-errno : (p : Ptr) (w : World) → (free p w).1.errno ≡ w.errno
unfolding free
free-errno none w = refl
free-errno (some s) w = elim (Bool-cases (has_block s.block w.blocks)) [
  | inl e ↦ rw (e, free) refl
  | inr e ↦ rw (e, free) refl
]

module _ ⦃env : Env⦄ (quiet : IsQuiet env) where
  close-errno :
      (n : ℕ) (h : Handle) (w : World)
      → lookup_fd n w.fds ≡ some h
      → (close (pos n) w).1.errno ≡ w.errno
  unfolding close
  close-errno n h w e = rw (e, close, call_done) refl

  module _ (child : Child) (ends_well : child.status ≡ exited 0) (opt : Bytes) (lines : List Bytes)
      (t : IsText opt) (is_lines : IsLines lines) (prints : child.output ≡ unlines lines) where
    forked-Finds :
        (fd write_fd : ℕ) (h : Handle) (cmd : Ptr) (n e : ℕ) (w : World)
        → lookup_fd write_fd w.fds ≡ some h
        → w.errno ≡ e
        → Finds e (first_value opt lines) (march_forked child fd write_fd cmd opt (pos n) w)
    unfolding march_forked fdopen march_opened
    forked-Finds fd write_fd h cmd n e w found i =
        let v = (close (pos write_fd) w).1 in
        let s : Stream = record { fd = fd; rest = child.output; eof = false; error = false } in
        rw (call_done, quiet v.tick)
          (march_loop-Finds quiet child ends_well fd cmd opt (length child.output + 1) lines none s
            e (record v { tick = v.tick + 1 }) t is_lines (rw prints (length-unlines lines)) prints
            refl refl (close-errno write_fd h w found ∙ i))

    -- If no call fails, the compiler prints whole lines without a NUL and exits with 0,
    -- `get_march_native` returns 0 and `*value` points to the value in the first line that is the
    -- option with a value, white space left aside. If there is no such line, `*value` is NULL and the
    -- result is -errno for the errno from before the call, which is 0 if that was.
    pub get_march_native-first_value :
        (compiler : Bytes) (old : Ptr) (w : World)
        → Finds w.errno (first_value opt lines) (get_march_native child compiler opt (some old) w)
    unfolding get_march_native march_named march_piped asprintf pipe fork lookup_fd
    get_march_native-first_value compiler old w =
        let v = (free old w).1 in
        let n : ℕ = v.next_fd in
        let h : Handle = record { path = []; offset = 0; lock = unlocked } in
        let found : lookup_fd (suc n) ((suc n, h) ∷ (n, h) ∷ v.fds) ≡ some h =
          rw (==_refl (suc n)) refl in
        rw (call_done, quiet v.tick)
          (rw call_done (rw call_done (forked-Finds _ _ h _ 1 w.errno _ found (free-errno old w))))
