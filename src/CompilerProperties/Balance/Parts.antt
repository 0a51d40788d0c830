-- ===== src/CompilerProperties/Balance/Parts.antt =====
-- What a reader of a child's output holds: the ends of the pipe, the command, the line, the value.
use pdistcc.Base.{
  ℕ, ◌≤◌, ℤ, pos, Bool, true, false, List, [], ◌∷◌, ◌++◌, ◌≡◌, refl, Option, none, some, Bytes,
  is_zero, length, arith, ◌∙◌, subst,
}
use pdistcc.System.World.{World, Ptr, Env, call_rule}
use pdistcc.System.Resources.{numbers, resources}
use pdistcc.System.Holding.{
  Holding, IsOrdered, IsFalling, own, same, close-Holding, close-Holding_below,
}
use pdistcc.System.Processes.{
  Child, Stream, pipe, fork, fdopen, getline, next_line, line_buffer, fclose, waitpid, cut_line,
}
use pdistcc.CompilerProperties.Triplet.{close_pipe}

-- The ends of a pipe, if there is one.
abbrev pub own_pipe : Option (ℕ × ℕ) → List ℕ → List ℕ
own_pipe none fs = fs
own_pipe (some (r, x)) fs = x ∷ r ∷ fs

-- The block that `*value` points to.
abbrev pub own_value : Option Ptr → List ℕ
own_value none = []
own_value (some p) = own p []

-- A stream, if there is one, reads a descriptor.
abbrev pub IsOf : ℕ → Option Stream → Type 0
IsOf n none = Unit
IsOf n (some s) = s.fd ≡ n

-- What is left for the caller to free: after a success the value.
abbrev pub left_over : Bool → Option Ptr → List ℕ
left_over true value = own_value value
left_over false value = []

module _ (F B : List ℕ) (c : ℕ) ⦃env : Env⦄ where
  abbrev pub Held : List ℕ → List ℕ → World → Type 0
  Held = Holding F B c

  module _ {fs bs : List ℕ} {w : World} (h : Held fs bs w) where
    pub pipe-Held : Held (own_pipe (pipe w).0 fs) bs (pipe w).1
    unfolding pipe resources
    pipe-Held =
        call_rule (λ p w'. Held (own_pipe p fs) bs w') _ _ w (λ e. same F B c h _ refl)
          (ground arith)

    pub fork-Held : Held fs bs (fork w).1
    unfolding fork resources
    fork-Held =
        call_rule (λ p w'. Held fs bs w') _ _ w (λ e. same F B c h _ refl) (same F B c h _ refl)

    pub fdopen-Held :
        (child : Child) (n : ℕ) → Held fs bs (fdopen child n w).1 × IsOf n (fdopen child n w).0
    unfolding fdopen resources
    fdopen-Held child n =
        call_rule (λ p w'. Held fs bs w' × IsOf n p) _ _ w (λ e. (same F B c h _ refl, tt))
          (same F B c h _ refl, refl)

    pub waitpid-Held : (child : Child) → Held fs bs (waitpid child w).1
    unfolding waitpid resources
    waitpid-Held child =
        call_rule (λ p w'. Held fs bs w') _ _ w (λ e. same F B c h _ refl) (same F B c h _ refl)

  -- After a call of `getline` the buffer is held, and the stream has its descriptor.
  abbrev pub LineHeld : List ℕ → List ℕ → ℕ → Bool × Ptr × Stream → World → Type 0
  LineHeld fs bs n r w = Held fs (own r.1 bs) w × (r.2.fd ≡ n)

  line_buffer-Held :
      {fs : List ℕ} (bs : List ℕ) (p : Ptr) (text : Bytes) (w : World)
      → Held fs (own p bs) w
      → Held fs (own (line_buffer p text w).0 bs) (line_buffer p text w).1
  line_buffer-Held bs none text w h = ground arith
  line_buffer-Held bs (some s) text w h = h

  next_line-Held :
      {fs : List ℕ} (bs : List ℕ) (p : Ptr) (s : Stream) (b : Bytes) (w : World)
      → Held fs (own p bs) w
      → LineHeld fs bs s.fd (next_line p s b w).0 (next_line p s b w).1
  next_line-Held bs p s [] w h = (line_buffer-Held bs p [] w h, refl)
  next_line-Held bs p s (x ∷ l) w h = (line_buffer-Held bs p (cut_line (x ∷ l)).0 w h, refl)

  pub getline-Held :
      {fs : List ℕ} (bs : List ℕ) {w : World} (p : Ptr) (s : Stream)
      → Held fs (own p bs) w
      → LineHeld fs bs s.fd (getline p s w).0 (getline p s w).1
  unfolding getline resources
  getline-Held {fs} bs {w} p s h =
      call_rule (LineHeld fs bs s.fd) _ _ w (λ e. (same F B c h _ refl, refl))
        (next_line-Held bs p s s.rest _ (same F B c h _ refl))

  -- The end for reading is closed, whether or not a stream was made of it.
  pub close_pipe-Held :
      {bs : List ℕ} (n : ℕ) (gccpipe : Option Stream) (w : World)
      → IsOf n gccpipe
      → Held (n ∷ []) bs w
      → Held [] bs (close_pipe (pos n) gccpipe w).1
  unfolding close_pipe fclose
  close_pipe-Held n none w e h = close-Holding F B c h
  close_pipe-Held n (some s) w e h = rw e (close-Holding F B c h)

  -- The end for writing lies above it.
  pub close_pipe-Held_below :
      {bs : List ℕ} (n x : ℕ) (w : World)
      → Held (x ∷ n ∷ []) bs w
      → Held (x ∷ []) bs (close_pipe (pos n) none w).1
  unfolding close_pipe
  close_pipe-Held_below n x w h = close-Holding_below F B c h

  -- After an error no block is left; after a success the value's.
  abbrev pub AtEnd : List ℕ → Bool → Option Ptr → World → Type 0
  AtEnd fs success value w = Held fs (left_over success value) w

  -- The pipe's end for writing may have been left open.
  abbrev pub Ended : (ℤ × Option Ptr) × World → Type 0
  Ended r = (leak : List ℕ) × (length leak ≤ 1) × AtEnd leak (is_zero r.0.0) r.0.1 r.1

-- A caller's value is the newest block, if it is not NULL.
pub Holding-old :
    (B : List ℕ) (old : Ptr) (w : World)
    → IsOrdered w
    → w.blocks ≡ own old B
    → Holding (numbers w.fds) B w.misuse [] (own old []) w
Holding-old B old w o e = record {
  open_fds = refl;
  live_blocks = e ∙ own-append old;
  misuses = refl;
  fds_fall = o.0;
  blocks_fall = subst (λ l. IsFalling w.next_block l) (e ∙ own-append old) o.1;
}
  where
    own-append : (p : Ptr) → own p B ≡ own p [] ++ B
    own-append none = refl
    own-append (some s) = refl
