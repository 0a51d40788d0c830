-- ===== src/CompilerProperties/FirstMatch.antt =====
-- `get_march_native` when no call fails.
use pdistcc.Base.{
  ℕ, zero, suc, ◌+◌, ◌<◌, ℤ, pos, neg, true, false, List, [], ◌∷◌, ◌++◌, Option, none, some,
  Option-cases, inl, inr, Bytes, IsText, length, ◌≡◌, refl, ◌∙◌, ap, arith, c_string, ◌||◌,
}
use pdistcc.System.World.{World, Ptr, Env, IsQuiet, call_done, text_of}
use pdistcc.System.Memory.{strdup}
use pdistcc.System.Processes.{
  Child, exited, Stream, cut_line, line_buffer, next_line, getline, waitpid,
}
use pdistcc.CompilerProperties.Whitespace.{
  skip_whitespace, without_space, skip_whitespace-without_space,
}
use pdistcc.CompilerProperties.March.{
  with_text, option_value, drop_value, march_out, march_wait, march_copied, march_matched,
  march_read, march_round, march_loop,
}
use pdistcc.CompilerProperties.Match.{line_value, option_value-line_value}
use pdistcc.CompilerProperties.Answer.{IsLine, cut_line-append, Answers}

-- The lines, each with its newline.
abbrev pub unlines : List Bytes → Bytes
unlines [] = []
unlines (line ∷ lines) = line ++ 10 ∷ unlines lines

-- What is in each of the lines a character other than the newline and NUL.
abbrev pub IsLines : List Bytes → Type 0
IsLines [] = Unit
IsLines (line ∷ lines) = IsLine line × IsText line × IsLines lines

abbrev first_of : Option Bytes → Option Bytes → Option Bytes
first_of none o = o
first_of (some v) o = some v

-- The value in the first line that is the option with a value, white space left aside.
unfoldable pub first_value : Bytes → List Bytes → Option Bytes
unfolding line_value without_space
first_value opt [] = none
first_value opt (line ∷ lines) =
    first_of (line_value opt (without_space line)) (first_value opt lines)

-- With a value a success, and else the errno there was.
abbrev pub Finds : ℕ → Option Bytes → (ℤ × Option Ptr) × World → Type 0
Finds e none r = r.0 ≡ (neg e, some none)
Finds e (some v) r = Answers v r

next_line_split :
    (p : Ptr) (s : Stream) (line rest : Bytes) (w : World)
    → IsLine line
    → next_line p s (line ++ 10 ∷ rest) w ≡ (
        let (q, w') = line_buffer p (line ++ 10 ∷ []) w in
        ((true, q, record s { rest = rest; eof = false }), w'))
unfolding cut_line
next_line_split p s [] rest w h = refl
next_line_split p s (x ∷ line) rest w h =
    ap
      (λ c.
        let (q, w') = line_buffer p c.0 w in ((true, q, record s { rest = c.1; eof = c.2 }), w'))
      (cut_line-append (x ∷ line) rest h)

line_buffer-text : (p : Ptr) (t : Bytes) (w : World) → text_of (line_buffer p t w).0 ≡ t
line_buffer-text none t w = refl
line_buffer-text (some s) t w = refl

line_buffer-errno : (p : Ptr) (t : Bytes) (w : World) → (line_buffer p t w).1.errno ≡ w.errno
line_buffer-errno none t w = refl
line_buffer-errno (some s) t w = refl

-- The newline is white space.
without_space-newline : (line : Bytes) → without_space (line ++ 10 ∷ []) ≡ without_space line
unfolding without_space
without_space-newline [] = refl
without_space-newline (x ∷ line) = ground (arith, without_space-newline line)

newline-IsText : (line : Bytes) → IsText line → IsText (line ++ 10 ∷ [])
newline-IsText [] t = ground arith
newline-IsText (x ∷ line) (h, t) = (h, newline-IsText line t)

without_space-IsText : (line : Bytes) → IsText line → IsText (without_space line)
unfolding without_space
without_space-IsText [] t = tt
without_space-IsText (x ∷ line) (h, t) = ground (arith, without_space-IsText line t)

-- The tests of a line that has been read.
line_read :
    (opt line : Bytes)
    → IsText opt
    → IsText line
    → (let (array, len) = skip_whitespace ((line ++ 10 ∷ []) ++ 0 ∷ []) in
        option_value opt array len)
      ≡ line_value opt (without_space line)
line_read opt line t u =
    let (more, e) = skip_whitespace-without_space (line ++ 10 ∷ []) [] (newline-IsText line u) in
    rw (e, without_space-newline line)
      (option_value-line_value opt (without_space line) more t (without_space-IsText line u))

module _ ⦃env : Env⦄ (quiet : IsQuiet env) (child : Child)
    (ends_well : child.status ≡ exited 0) where
  -- A line is read.
  getline_line :
      (p : Ptr) (s : Stream) (line rest : Bytes) (w : World)
      → s.rest ≡ line ++ 10 ∷ rest
      → IsLine line
      → (q : Ptr) × (w' : World) × (getline p s w
          ≡ ((true, q, record s { rest = rest; eof = false }), w'))
        × (text_of q ≡ line ++ 10 ∷ [])
        × (w'.errno ≡ w.errno)
  unfolding getline
  getline_line p s line rest w e h =
      let v = record w { tick = w.tick + 1 } in
      let (q, w') = line_buffer p (line ++ 10 ∷ []) v in
      (
        q,
        w',
        rw (call_done, quiet w.tick)
            (ap (λ b. next_line p s b v) e ∙ next_line_split p s line rest v h),
        line_buffer-text p (line ++ 10 ∷ []) v,
        line_buffer-errno p (line ++ 10 ∷ []) v,
      )

  module _ (fd : ℕ) (cmd : Ptr) (opt : Bytes) where
    -- The line with the value has been found.
    matched-Answers :
        (rest : Ptr → Stream → World → (ℤ × Option Ptr) × World)
        → (line : Ptr) (s : Stream) (v : Bytes) (w : World)
        → Answers v (march_matched child fd cmd opt rest line s (some v) w)
    unfolding march_matched strdup march_copied march_wait waitpid
    matched-Answers rest line s v w = rw call_done (
        rw (march_copied, march_wait, waitpid, call_done)
          (rw ends_well (record { block = w.next_block; text = v }, refl, refl)))

    out_none :
        (e : ℕ) (s : Stream) (line : Ptr) (w : World)
        → (march_out (neg e) (pos fd) (some s) line cmd (some none) w).0 ≡ (neg e, some none)
    unfolding march_out drop_value
    out_none zero s line w = refl
    out_none (suc e) s line w = refl

    -- A line has been read.
    march_read-Finds :
        (rest : Ptr → Stream → World → (ℤ × Option Ptr) × World)
        → (l : Bytes) (lines : List Bytes) (q : Ptr) (s : Stream) (e : ℕ) (w : World) → IsText opt
        → IsText l
        → text_of q ≡ l ++ 10 ∷ []
        → ((line : Ptr) → Finds e (first_value opt lines) (rest line s w))
        → Finds e (first_value opt (l ∷ lines)) (march_read child fd cmd opt rest (true, q, s) w)
    unfolding march_read first_value
    march_read-Finds rest l lines q s e w t u text next =
        let (array, len) = skip_whitespace (text_of q ++ 0 ∷ []) in
        let line = with_text q (c_string array) in
        let value : option_value opt array len ≡ line_value opt (without_space l) =
          rw text (line_read opt l t u) in
        elim (Option-cases (line_value opt (without_space l))) [
          | inl i ↦ rw (value, i, march_matched) (next line)
          | inr (v, i) ↦ rw (value, i) (matched-Answers rest line s v w)
        ]

    march_loop_round :
        (fuel : ℕ) (line : Ptr) (s : Stream) (w : World)
        → s.eof ≡ false
        → s.error ≡ false
        → march_loop child fd cmd opt (suc fuel) line s w ≡ (
            let (r, w') = getline line s w in
            march_read child fd cmd opt (march_loop child fd cmd opt fuel) r w')
    unfolding march_loop march_round
    march_loop_round fuel line s w e1 e2 =
        let goes_on : (s.eof || s.error) ≡ false = ground (arith, e1, e2) in
        ap (λ b. march_round child fd cmd opt (march_loop child fd cmd opt fuel) line s b w) goes_on

    -- There is no line left.
    march_read_end :
        (rest : Ptr → Stream → World → (ℤ × Option Ptr) × World)
        → (line : Ptr) (s : Stream) (w : World) → s.rest ≡ []
        → (let (r, w') = getline line s w in (march_read child fd cmd opt rest r w').0)
          ≡ (neg w.errno, some none)
    unfolding march_read getline
    march_read_end rest line s w e =
        let v = record w { tick = w.tick + 1 } in
        let at_end = record s { eof = true } in
        rw (call_done, quiet w.tick)
          (ap (λ b. let (r, w') = next_line line s b v in (march_read child fd cmd opt rest r w').0)
              e
            ∙ ended line at_end v)
      where
        ended :
            (line : Ptr) (s : Stream) (v : World)
            → (let (q, w') = line_buffer line [] v in
                (march_read child fd cmd opt rest (false, q, s) w').0)
              ≡ (neg v.errno, some none)
        ended none s v = out_none v.errno s (line_buffer none [] v).0 (line_buffer none [] v).1
        ended (some q) s v = out_none v.errno s (line_buffer (some q) [] v).0 v

    pub march_loop-Finds :
        (fuel : ℕ) (lines : List Bytes) (line : Ptr) (s : Stream) (e : ℕ) (w : World)
        → IsText opt
        → IsLines lines
        → length lines < fuel
        → s.rest ≡ unlines lines
        → s.eof ≡ false
        → s.error ≡ false
        → w.errno ≡ e
        → Finds e (first_value opt lines) (march_loop child fd cmd opt fuel line s w)
    unfolding first_value
    march_loop-Finds zero lines line s e w t h f e1 e2 e3 e4 = absurd (omega arith)
    march_loop-Finds (suc fuel) [] line s e w t h f e1 e2 e3 e4 =
        rw (march_loop_round fuel line s w e2 e3) (
          march_read_end (march_loop child fd cmd opt fuel) line s w e1
          ∙ ap (λ k. (neg k, some none)) e4)
    march_loop-Finds (suc fuel) (l ∷ lines) line s e w t h f e1 e2 e3 e4 =
        let (q, w', g, text, errno) = getline_line line s l (unlines lines) w e1 h.0 in
        let s' = record s { rest = unlines lines; eof = false } in
        rw (march_loop_round fuel line s w e2 e3, g)
          (march_read-Finds (march_loop child fd cmd opt fuel) l lines q s' e w' t h.1 text λ line'.
            march_loop-Finds fuel lines line' s' e w' t h.2 (omega arith) refl refl e3 (errno ∙ e4))
