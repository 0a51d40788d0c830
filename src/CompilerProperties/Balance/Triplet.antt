-- ===== src/CompilerProperties/Balance/Triplet.antt =====
-- `get_gcc_triplet` gives back what it holds, but for one end of the pipe.
use pdistcc.Base.{
  ℕ, zero, suc, ◌≤◌, ℤ, pos, negsuc, neg, is_zero, Bool, true, false, List, [], ◌∷◌, ◌++◌, ◌≡◌,
  Option, none, some, Bytes, ascii, length, arith, ◌∙◌,
}
use pdistcc.System.World.{World, Ptr, Env, enomem, einval}
use pdistcc.System.Files.{close}
use pdistcc.System.Memory.{free, asprintf}
use pdistcc.System.Holding.{
  Holding-IsOrdered, IsOrdered, own, close-Holding, free-Holding, free-Holding_below,
  asprintf-Holding,
}
use pdistcc.System.Processes.{
  Child, Stream, Status, exited, signaled, other, pipe, fork, fdopen, getline, waitpid,
}
use pdistcc.System.Resources.{numbers}
use pdistcc.CompilerProperties.Triplet.{
  close_pipe, free_value, without_newline, fdopen_error, triplet_out, triplet_waited, triplet_read,
  triplet_opened, triplet_forked, triplet_named, triplet_piped, get_gcc_triplet,
}
use pdistcc.CompilerProperties.Balance.Parts.{
  own_pipe, own_value, Held, pipe-Held, fork-Held, fdopen-Held, waitpid-Held, getline-Held,
  LineHeld, IsOf, left_over, close_pipe-Held, close_pipe-Held_below, AtEnd, Ended, Holding-old,
}

module _ (F B : List ℕ) (c : ℕ) ⦃env : Env⦄ where
  value_freed :
      (b : Bool) (fs : List ℕ) (value : Option Ptr) (w : World)
      → Held F B c fs (own_value value) w
      → AtEnd F B c fs b value (free_value b value w).1
  unfolding free_value
  value_freed true fs value w h = h
  value_freed false fs none w h = h
  value_freed false fs (some p) w h = free-Holding F B c p w h

  -- An end of `get_gcc_triplet`, with what is left when the command has been freed.
  out-Ended :
      (err fd : ℤ) (gccpipe : Option Stream) (cmd : Ptr) (value : Option Ptr) (leak : List ℕ)
      (w : World)
      → length leak ≤ 1
      → Held F B c leak (own_value value) (free cmd (close_pipe fd gccpipe w).1).1
      → Ended F B c (triplet_out err fd gccpipe cmd value w)
  unfolding triplet_out
  out-Ended err fd gccpipe cmd value leak w l h =
      (leak, l, value_freed (is_zero err) leak value _ h)

  -- The command lies above the caller's value.
  old-Ended :
      (err : ℤ) (n : ℕ) (cmd old : Ptr) (leak : List ℕ) (w : World)
      → length leak ≤ 1
      → Held F B c leak (own cmd (own old [])) (close_pipe (pos n) none w).1
      → Ended F B c (triplet_out err (pos n) none cmd (some old) w)
  old-Ended err n cmd old leak w l h =
      out-Ended err (pos n) none cmd (some old) leak w l (free-Holding F B c cmd _ h)

  -- The value lies above the command.
  value-Ended :
      (err : ℤ) (n : ℕ) (s : Stream) (cmd value : Ptr) (w : World)
      → s.fd ≡ n
      → Held F B c (n ∷ []) (own value (own cmd [])) w
      → Ended F B c (triplet_out err (pos n) (some s) cmd (some value) w)
  value-Ended err n s cmd value w e h =
      out-Ended err (pos n) (some s) cmd (some value) [] w (omega arith)
        (below value (close_pipe-Held F B c n (some s) w e h))
    where
      below :
          (p : Ptr) {v : World}
          → Held F B c [] (own p (own cmd [])) v
          → Held F B c [] (own p []) (free cmd v).1
      below none h = free-Holding F B c cmd _ h
      below (some q) h = free-Holding_below F B c cmd _ h

  module _ (n : ℕ) (cmd : Ptr) where
    waited-Ended :
        (s : Stream) (value : Ptr) (o : Option Status) (w : World)
        → s.fd ≡ n
        → Held F B c (n ∷ []) (own value (own cmd [])) w
        → Ended F B c (triplet_waited n s cmd value o w)
    unfolding triplet_waited
    waited-Ended s value none w e h = value-Ended (neg w.errno) n s cmd value w e h
    waited-Ended s none (some (exited zero)) w e h = value-Ended (pos 0) n s cmd none w e h
    waited-Ended s (some v) (some (exited zero)) w e h =
        value-Ended (pos 0) n s cmd (without_newline (some v)) w e h
    waited-Ended s value (some (exited (suc k))) w e h =
        value-Ended (pos (suc k)) n s cmd value w e h
    waited-Ended s value (some (signaled k)) w e h = value-Ended (pos k) n s cmd value w e h
    waited-Ended s value (some other) w e h = value-Ended (neg einval) n s cmd value w e h

    module _ (child : Child) where
      read-Ended :
          (r : Bool × Ptr × Stream) (w : World)
          → LineHeld F B c (n ∷ []) (own cmd []) n r w
          → Ended F B c (triplet_read child n cmd r w)
      unfolding triplet_read
      read-Ended (false, value, s) w h = value-Ended (neg w.errno) n s cmd value w h.1 h.0
      read-Ended (true, value, s) w h =
          let r = waitpid child w in waited-Ended s value r.0 r.1 h.1 (waitpid-Held F B c h.0 child)

      opened-Ended :
          (old : Ptr) (o : Option Stream) (w : World)
          → IsOf n o
          → Held F B c (n ∷ []) (own cmd (own old [])) w
          → Ended F B c (triplet_opened child n cmd old o w)
      unfolding triplet_opened
      opened-Ended old none w e h =
          old-Ended (fdopen_error w.errno) n cmd old [] w (omega arith)
            (close_pipe-Held F B c n none w tt h)
      opened-Ended old (some s) w e h =
          let r = getline none s (free old w).1 in
          let l = getline-Held F B c (own cmd []) none s (old_freed cmd h) in
          read-Ended r.0 r.1 (l.0, l.1 ∙ e)
        where
          old_freed :
              (p : Ptr)
              → Held F B c (n ∷ []) (own p (own old [])) w
              → Held F B c (n ∷ []) (own p []) (free old w).1
          old_freed none h = free-Holding F B c old _ h
          old_freed (some q) h = free-Holding_below F B c old _ h

      forked-Ended :
          (x : ℕ) (old : Ptr) (pid : ℤ) (w : World)
          → Held F B c (x ∷ n ∷ []) (own cmd (own old [])) w
          → Ended F B c (triplet_forked child n x cmd old pid w)
      unfolding triplet_forked
      forked-Ended x old (negsuc k) w h =
          old-Ended (neg w.errno) n cmd old (x ∷ []) w (omega arith)
            (close_pipe-Held_below F B c n x w h)
      forked-Ended x old (pos k) w h =
          let v = (close (pos x) w).1 in
          let s = fdopen child n v in
          let l = fdopen-Held F B c (close-Holding F B c h) child n in
          opened-Ended old s.0 s.1 l.1 l.0

  module _ (child : Child) where
    named-Ended :
        (n x : ℕ) (old cmd : Ptr) (w : World)
        → Held F B c (x ∷ n ∷ []) (own cmd (own old [])) w
        → Ended F B c (triplet_named child n x old cmd w)
    unfolding triplet_named
    named-Ended n x old none w h =
        old-Ended (neg enomem) n none old (x ∷ []) w (omega arith)
          (close_pipe-Held_below F B c n x w h)
    named-Ended n x old (some q) w h =
        let r = fork w in forked-Ended n (some q) child x old r.0 r.1 (fork-Held F B c h)

    piped-Ended :
        (compiler : Bytes) (old : Ptr) (o : Option (ℕ × ℕ)) (w : World)
        → Held F B c (own_pipe o []) (own old []) w
        → Ended F B c (triplet_piped child compiler old o w)
    unfolding triplet_piped close_pipe free
    piped-Ended compiler old none w h =
        out-Ended (neg w.errno) (negsuc 0) none none (some old) [] w (omega arith) h
    piped-Ended compiler old (some (n, x)) w h =
        let r = asprintf (compiler ++ ascii " -dumpmachine") w in
        named-Ended n x old r.0 r.1 (asprintf-Holding F B c h (compiler ++ ascii " -dumpmachine"))

    triplet-Ended :
        (compiler : Bytes) (old : Ptr) (w : World)
        → Held F B c [] (own old []) w
        → Ended F B c (get_gcc_triplet child compiler (some old) w)
    unfolding get_gcc_triplet
    triplet-Ended compiler old w h =
        let r = pipe w in piped-Ended compiler old r.0 r.1 (pipe-Held F B c h)

module _ ⦃env : Env⦄ where
  -- Whichever calls fail and whatever the compiler does, `get_gcc_triplet` closes what it opens but
  -- for one descriptor at most, frees what it allocates but for the value of a success, frees the
  -- old value, and misuses nothing. The old value is the newest block, or NULL.
  pub get_gcc_triplet-balanced :
      (child : Child) (compiler : Bytes) (old : Ptr) (B : List ℕ) (w : World)
      → IsOrdered w
      → w.blocks ≡ own old B
      → let ((err, value), w') = get_gcc_triplet child compiler (some old) w in
        (leak : List ℕ) × (length leak ≤ 1)
        × (numbers w'.fds ≡ leak ++ numbers w.fds)
        × (w'.blocks ≡ left_over (is_zero err) value ++ B)
        × IsOrdered w'
        × (w'.misuse ≡ w.misuse)
  get_gcc_triplet-balanced child compiler old B w o e =
      let t =
        triplet-Ended (numbers w.fds) B w.misuse child compiler old w (Holding-old B old w o e) in
      (t.0, t.1, t.2.open_fds, t.2.live_blocks, Holding-IsOrdered t.2, t.2.misuses)
