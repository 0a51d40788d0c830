-- ===== src/CompilerProperties/Balance/March.antt =====
-- `get_march_native` gives back what it holds, but for one end of the pipe.
use pdistcc.Base.{
  ℕ, zero, suc, ◌+◌, ◌≤◌, ℤ, pos, negsuc, neg, is_zero, Bool, true, false, ◌||◌, List, [], ◌∷◌,
  ◌++◌, ◌≡◌, ◌∙◌, Option, none, some, Bytes, ascii, c_string, length, arith,
}
use pdistcc.System.World.{World, Ptr, Env, M, enomem, enoent, einval, text_of}
use pdistcc.System.Files.{close}
use pdistcc.System.Memory.{free, asprintf, strdup}
use pdistcc.System.Resources.{numbers}
use pdistcc.System.Holding.{
  Holding-IsOrdered, IsOrdered, own, close-Holding, free-Holding, asprintf-Holding, strdup-Holding,
  free-Holding_below,
}
use pdistcc.System.Processes.{
  Child, Stream, Status, exited, signaled, other, pipe, fork, fdopen, getline, waitpid,
}
use pdistcc.CompilerProperties.Whitespace.{skip_whitespace}
use pdistcc.CompilerProperties.Triplet.{close_pipe, fdopen_error}
use pdistcc.CompilerProperties.March.{
  with_text, option_value, drop_value, march_out, march_found, march_waited, march_wait,
  march_copied, march_matched, march_read, march_round, march_loop, march_opened, march_forked,
  march_piped, march_named, get_march_native,
}
use pdistcc.CompilerProperties.Balance.Parts.{
  IsOf, left_over, own_pipe, Held, pipe-Held, fork-Held, fdopen-Held, waitpid-Held, getline-Held,
  LineHeld, close_pipe-Held, close_pipe-Held_below, Ended, Holding-old,
}

module _ (F B : List ℕ) (c : ℕ) ⦃env : Env⦄ where
  -- The value lies above the line, and the line above the command.
  abbrev Stacked : ℕ → Ptr → Ptr → Ptr → World → Type 0
  Stacked n value line cmd w = Held F B c (n ∷ []) (own value (own line (own cmd []))) w

  -- Line and command are freed under a value.
  freed_under :
      (value line cmd : Ptr) (w : World)
      → Held F B c [] (own value (own line (own cmd []))) w
      → Held F B c [] (own value []) (free cmd (free line w).1).1
  freed_under none line cmd w h = free-Holding F B c cmd _ (free-Holding F B c line w h)
  freed_under (some v) line cmd w h =
      free-Holding_below F B c cmd _ (free-Holding_below F B c line w h)

  -- After a success with a value, or an error.
  out-Ended :
      (err : ℤ) (n : ℕ) (s : Stream) (line cmd value : Ptr) (w : World)
      → s.fd ≡ n
      → Stacked n value line cmd w
      → Ended F B c (march_out err (pos n) (some s) line cmd (some value) w)
  unfolding march_out drop_value
  out-Ended (pos zero) n s line cmd value w e h =
      ([], omega arith, freed_under value line cmd _ (close_pipe-Held F B c n (some s) w e h))
  out-Ended (pos (suc k)) n s line cmd value w e h = (
    [],
    omega arith,
    freed_under none line cmd _
        (close_pipe-Held F B c n (some s) _ e (free-Holding F B c value w h)),
  )
  out-Ended (negsuc k) n s line cmd value w e h = (
    [],
    omega arith,
    freed_under none line cmd _
        (close_pipe-Held F B c n (some s) _ e (free-Holding F B c value w h)),
  )

  -- Before there is a line; `leak` is what the close leaves.
  early-Ended :
      (err fd : ℤ) (cmd : Ptr) (leak : List ℕ) (w : World)
      → length leak ≤ 1
      → Held F B c leak (own cmd []) (close_pipe fd none w).1
      → Ended F B c (march_out err fd none none cmd (some none) w)
  unfolding march_out drop_value free
  early-Ended (pos zero) fd cmd leak w l h = (leak, l, free-Holding F B c cmd _ h)
  early-Ended (pos (suc k)) fd cmd leak w l h = (leak, l, free-Holding F B c cmd _ h)
  early-Ended (negsuc k) fd cmd leak w l h = (leak, l, free-Holding F B c cmd _ h)

  module _ (n : ℕ) (cmd : Ptr) where
    found-Ended :
        (s : Stream) (line value : Ptr) (w : World)
        → s.fd ≡ n
        → Stacked n value line cmd w
        → Ended F B c (march_found n s line cmd value w)
    unfolding march_found
    found-Ended s line none w e h = out-Ended (neg enoent) n s line cmd none w e h
    found-Ended s line (some v) w e h = out-Ended (pos 0) n s line cmd (some v) w e h

    waited-Ended :
        (s : Stream) (line value : Ptr) (o : Option Status) (w : World)
        → s.fd ≡ n
        → Stacked n value line cmd w
        → Ended F B c (march_waited n s line cmd value o w)
    unfolding march_waited
    waited-Ended s line value none w e h = out-Ended (neg w.errno) n s line cmd value w e h
    waited-Ended s line value (some (exited zero)) w e h = found-Ended s line value w e h
    waited-Ended s line value (some (exited (suc k))) w e h =
        out-Ended (pos (suc k)) n s line cmd value w e h
    waited-Ended s line value (some (signaled k)) w e h = out-Ended (pos k) n s line cmd value w e h
    waited-Ended s line value (some other) w e h = out-Ended (neg einval) n s line cmd value w e h

    with_text-Stacked :
        (p : Ptr) (t : Bytes) (w : World)
        → Stacked n none p cmd w
        → Stacked n none (with_text p t) cmd w
    with_text-Stacked none t w h = h
    with_text-Stacked (some s) t w h = h

    module _ (child : Child) where
      wait-Ended :
          (s : Stream) (line value : Ptr) (w : World)
          → s.fd ≡ n
          → Stacked n value line cmd w
          → Ended F B c (march_wait child n s line cmd value w)
      unfolding march_wait
      wait-Ended s line value w e h =
          let r = waitpid child w in
          waited-Ended s line value r.0 r.1 e (waitpid-Held F B c h child)

      copied-Ended :
          (s : Stream) (line value : Ptr) (w : World)
          → s.fd ≡ n
          → Stacked n value line cmd w
          → Ended F B c (march_copied child n s line cmd value w)
      unfolding march_copied
      copied-Ended s line none w e h = out-Ended (neg enomem) n s line cmd none w e h
      copied-Ended s line (some v) w e h = wait-Ended s line (some v) w e h

      module _ (opt : Bytes) where
        -- What goes on with the loop.
        abbrev Goes : (Ptr → Stream → M (ℤ × Option Ptr)) → Type 0
        Goes rest =
            (line : Ptr) (s : Stream) (w : World)
            → s.fd ≡ n
            → Stacked n none line cmd w
            → Ended F B c (rest line s w)

        matched-Ended :
            (rest : Ptr → Stream → M (ℤ × Option Ptr)) (line : Ptr) (s : Stream) (o : Option Bytes)
            (w : World)
            → Goes rest
            → s.fd ≡ n
            → Stacked n none line cmd w
            → Ended F B c (march_matched child n cmd opt rest line s o w)
        unfolding march_matched
        matched-Ended rest line s none w g e h = g line s w e h
        matched-Ended rest line s (some v) w g e h =
            let r = strdup v w in copied-Ended s line r.0 r.1 e (strdup-Holding F B c h v)

        read-Ended :
            (rest : Ptr → Stream → M (ℤ × Option Ptr)) (r : Bool × Ptr × Stream) (w : World)
            → Goes rest
            → LineHeld F B c (n ∷ []) (own cmd []) n r w
            → Ended F B c (march_read child n cmd opt rest r w)
        unfolding march_read
        read-Ended rest (false, line, s) w g h = out-Ended (neg w.errno) n s line cmd none w h.1 h.0
        read-Ended rest (true, line, s) w g h =
            let (array, len) = skip_whitespace (text_of line ++ 0 ∷ []) in
            matched-Ended rest (with_text line (c_string array)) s (option_value opt array len) w g
              h.1 (with_text-Stacked line (c_string array) w h.0)

        round-Ended :
            (rest : Ptr → Stream → M (ℤ × Option Ptr)) (line : Ptr) (s : Stream) (b : Bool)
            (w : World)
            → Goes rest
            → s.fd ≡ n
            → Stacked n none line cmd w
            → Ended F B c (march_round child n cmd opt rest line s b w)
        unfolding march_round
        round-Ended rest line s true w g e h = wait-Ended s line none w e h
        round-Ended rest line s false w g e h =
            let r = getline line s w in
            let l = getline-Held F B c (own cmd []) line s h in
            read-Ended rest r.0 r.1 g (l.0, l.1 ∙ e)

        loop-Ended : (fuel : ℕ) → Goes (march_loop child n cmd opt fuel)
        unfolding march_loop
        loop-Ended zero line s w e h = wait-Ended s line none w e h
        loop-Ended (suc fuel) line s w e h =
            round-Ended (march_loop child n cmd opt fuel) line s (s.eof || s.error) w
              (loop-Ended fuel) e h

        opened-Ended :
            (o : Option Stream) (w : World)
            → IsOf n o
            → Held F B c (n ∷ []) (own cmd []) w
            → Ended F B c (march_opened child n cmd opt o w)
        unfolding march_opened
        opened-Ended none w e h =
            early-Ended (fdopen_error w.errno) (pos n) cmd [] w (omega arith)
              (close_pipe-Held F B c n none w tt h)
        opened-Ended (some s) w e h = loop-Ended (length s.rest + 1) none s w e h

        forked-Ended :
            (x : ℕ) (pid : ℤ) (w : World)
            → Held F B c (x ∷ n ∷ []) (own cmd []) w
            → Ended F B c (march_forked child n x cmd opt pid w)
        unfolding march_forked
        forked-Ended x (negsuc k) w h =
            early-Ended (neg w.errno) (pos n) cmd (x ∷ []) w (omega arith)
              (close_pipe-Held_below F B c n x w h)
        forked-Ended x (pos k) w h =
            let s = fdopen child n (close (pos x) w).1 in
            let l = fdopen-Held F B c (close-Holding F B c h) child n in
            opened-Ended s.0 s.1 l.1 l.0

  module _ (child : Child) (opt : Bytes) where
    piped-Ended :
        (cmd : Ptr) (o : Option (ℕ × ℕ)) (w : World)
        → Held F B c (own_pipe o []) (own cmd []) w
        → Ended F B c (march_piped child cmd opt o w)
    unfolding march_piped close_pipe
    piped-Ended cmd none w h = early-Ended (neg w.errno) (negsuc 0) cmd [] w (omega arith) h
    piped-Ended cmd (some (n, x)) w h =
        let r = fork w in forked-Ended n cmd child opt x r.0 r.1 (fork-Held F B c h)

    named-Ended :
        (cmd : Ptr) (w : World)
        → Held F B c [] (own cmd []) w
        → Ended F B c (march_named child opt cmd w)
    unfolding march_named close_pipe
    named-Ended none w h = early-Ended (neg enomem) (negsuc 0) none [] w (omega arith) h
    named-Ended (some q) w h = let r = pipe w in piped-Ended (some q) r.0 r.1 (pipe-Held F B c h)

    march-Ended :
        (compiler : Bytes) (old : Ptr) (w : World)
        → Held F B c [] (own old []) w
        → Ended F B c (get_march_native child compiler opt (some old) w)
    unfolding get_march_native
    march-Ended compiler old w h =
        let text = compiler ++ (ascii " -" ++ (opt ++ ascii "=native -Q --help=target")) in
        let r = asprintf text (free old w).1 in
        named-Ended r.0 r.1 (asprintf-Holding F B c (free-Holding F B c old w h) text)

module _ ⦃env : Env⦄ where
  -- Whichever calls fail and whatever the compiler does, `get_march_native` closes what it opens
  -- but for one descriptor at most, frees what it allocates but for the value of a success, frees
  -- the old value, and misuses nothing. The old value is the newest block, or NULL.
  pub get_march_native-balanced :
      (child : Child) (compiler opt : Bytes) (old : Ptr) (B : List ℕ) (w : World)
      → IsOrdered w
      → w.blocks ≡ own old B
      → let ((err, value), w') = get_march_native child compiler opt (some old) w in
        (leak : List ℕ) × (length leak ≤ 1)
        × (numbers w'.fds ≡ leak ++ numbers w.fds)
        × (w'.blocks ≡ left_over (is_zero err) value ++ B)
        × IsOrdered w'
        × (w'.misuse ≡ w.misuse)
  get_march_native-balanced child compiler opt old B w o e =
      let t =
        march-Ended (numbers w.fds) B w.misuse child opt compiler old w (Holding-old B old w o e) in
      (t.0, t.1, t.2.open_fds, t.2.live_blocks, Holding-IsOrdered t.2, t.2.misuses)
