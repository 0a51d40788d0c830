-- ===== src/CompilerProperties/Answer.antt =====
-- `get_gcc_triplet` when no call fails.
use pdistcc.Base.{
  ℕ, ◌+◌, ℤ, pos, Bool, true, false, [], ◌∷◌, ◌++◌, Option, none, some, Bytes, ◌≡◌, ◌≢◌, refl, ◌∙◌,
  ap, arith, ◌==◌, c_string,
}
use pdistcc.System.World.{World, Ptr, Str, Env, IsQuiet, call_done}
use pdistcc.System.Files.{close}
use pdistcc.System.Memory.{free}
use pdistcc.System.Quiet.{asprintf_new}
use pdistcc.System.Processes.{
  Child, exited, Stream, cut_line, next_line, pipe, fork, fdopen, getline, waitpid,
}
use pdistcc.CompilerProperties.Triplet.{
  first_line, triplet_out, triplet_waited, triplet_read, triplet_opened, triplet_forked,
  triplet_named, triplet_piped, get_gcc_triplet,
}

-- No newline in a line.
abbrev pub IsLine : Bytes → Type 0
IsLine [] = Unit
IsLine (x ∷ l) = (x ≢ 10) × IsLine l

pub cut_line-append :
    (line rest : Bytes)
    → IsLine line
    → cut_line (line ++ 10 ∷ rest) ≡ (line ++ 10 ∷ [], rest, false)
unfolding cut_line
cut_line-append [] rest h = refl
cut_line-append (x ∷ line) rest h =
    let other : (x == 10) ≡ false = ground (arith, h.0) in
    rw (other, cut_line) (rw (cut_line-append line rest h.1) refl)

first_line-append : (line : Bytes) → IsLine line → first_line (line ++ 10 ∷ []) ≡ c_string line
unfolding first_line c_string
first_line-append [] h = refl
first_line-append (x ∷ line) h = ground (arith, first_line-append line h.1)

-- A success whose value is a text.
abbrev pub Answers : Bytes → (ℤ × Option Ptr) × World → Type 0
Answers text r = (s : Str) × (r.0 ≡ (pos 0, some (some s))) × (s.text ≡ text)

next_line-cut_line :
    (s : Stream) (line rest : Bytes) (w : World)
    → IsLine line
    → (next_line none s (line ++ 10 ∷ rest) w).0 ≡ (
      true,
      some (record { block = w.next_block; text = line ++ 10 ∷ [] }),
      record s { rest = rest; eof = false },
    )
unfolding cut_line
next_line-cut_line s [] rest w h = refl
next_line-cut_line s (x ∷ line) rest w h =
    ap
      (λ c. (
        true,
        some (record { block = w.next_block; text = c.0 }),
        record s { rest = c.1; eof = c.2 },
      ))
      (cut_line-append (x ∷ line) rest h)

module _ ⦃env : Env⦄ (quiet : IsQuiet env) (child : Child) (line rest : Bytes)
    (is_line : IsLine line) (ends_well : child.status ≡ exited 0) where
  waited-Answers :
      (fd : ℕ) (cmd : Ptr) (r : Bool × Ptr × Stream) (b : ℕ) (w : World)
      → r.0 ≡ true
      → r.1 ≡ some (record { block = b; text = line ++ 10 ∷ [] })
      → Answers (c_string line) (triplet_read child fd cmd r w)
  unfolding triplet_read waitpid triplet_waited triplet_out
  waited-Answers fd cmd (false, value, s) b w e f = absurd (ground arith)
  waited-Answers fd cmd (true, value, s) b w e f =
      rw (call_done, quiet w.tick)
        (rw ends_well (
          rw f (
            record { block = b; text = first_line (line ++ 10 ∷ []) },
            refl,
            first_line-append line is_line,
          )))

  opened-Answers :
      (fd : ℕ) (cmd old : Ptr) (o : Option Stream) (s : Stream) (w : World)
      → o ≡ some s
      → s.rest ≡ line ++ 10 ∷ rest
      → Answers (c_string line) (triplet_opened child fd cmd old o w)
  unfolding triplet_opened getline
  opened-Answers fd cmd old none s w e f = absurd (ground arith)
  opened-Answers fd cmd old (some u) s w e f =
      let v = (free old w).1 in
      let same : u.rest ≡ line ++ 10 ∷ rest = ground (arith, e, f) in
      let g = getline none u v in
      let v' = record v { tick = v.tick + 1 } in
      let c : g.0 ≡ (
        true,
        some (record { block = v.next_block; text = line ++ 10 ∷ [] }),
        record u { rest = rest; eof = false },
      ) =
        rw (call_done, quiet v.tick)
          (ap (λ b. (next_line none u b v').0) same ∙ next_line-cut_line u line rest v' is_line) in
      waited-Answers fd cmd g.0 v.next_block g.1 (ap (λ t. t.0) c) (ap (λ t. t.1) c)

  abbrev whole_output : ℕ → Stream
  whole_output fd = record { fd = fd; rest = child.output; eof = false; error = false }

  fdopen-some : (fd : ℕ) (w : World) → (fdopen child fd w).0 ≡ some (whole_output fd)
  unfolding fdopen
  fdopen-some fd w = rw (call_done, quiet w.tick) refl

  forked-Answers :
      (fd write_fd : ℕ) (cmd old : Ptr) (n : ℕ) (w : World)
      → child.output ≡ line ++ 10 ∷ rest
      → Answers (c_string line) (triplet_forked child fd write_fd cmd old (pos n) w)
  unfolding triplet_forked
  forked-Answers fd write_fd cmd old n w e =
      let v = (close (pos write_fd) w).1 in
      opened-Answers fd cmd old (fdopen child fd v).0 (whole_output fd) (fdopen child fd v).1
        (fdopen-some fd v) e

  -- If no call fails, and the compiler prints a line, and perhaps more, and exits with 0,
  -- `get_gcc_triplet` returns 0, and `*value` points to the line without its newline, up to its
  -- first NUL if there is one.
  pub get_gcc_triplet-first_line :
      (compiler : Bytes) (old : Ptr) (w : World)
      → child.output ≡ line ++ 10 ∷ rest
      → Answers (c_string line) (get_gcc_triplet child compiler (some old) w)
  unfolding get_gcc_triplet pipe triplet_piped triplet_named fork
  get_gcc_triplet-first_line compiler old w e =
      rw (call_done, quiet w.tick)
        (rw (asprintf_new quiet)
          (rw (call_done, quiet (w.tick + 1 + 1)) (forked-Answers _ _ _ old 1 _ e)))
