-- ===== src/CompilerProperties/Termination.antt =====
-- The loop over the lines of the compiler's output ends before its fuel does.
use pdistcc.Base.{
  ℕ, zero, suc, ◌<◌, ℤ, [], ◌∷◌, ◌++◌, ◌≡◌, refl, Bool, true, false, Option, none, some, Bytes,
  arith, length, ◌||◌, c_string,
}
use pdistcc.System.World.{World, Ptr, Env, M, call_rule, text_of}
use pdistcc.System.Processes.{Child, Stream, cut_line, next_line, getline}
use pdistcc.CompilerProperties.Whitespace.{skip_whitespace}
use pdistcc.CompilerProperties.March.{
  with_text, option_value, march_matched, march_read, march_round, march_loop,
}

-- What follows a line is shorter.
cut_line-length : (x : ℕ) (l : Bytes) → length (cut_line (x ∷ l)).1 < suc (length l)
unfolding cut_line
cut_line-length x [] = ground arith
cut_line-length x (y ∷ l) = ground (arith, cut_line-length y l)

-- After a line the stream has less than before.
abbrev IsShorter : Stream → Bool × Ptr × Stream → Type 0
IsShorter s (false, q, s') = Unit
IsShorter s (true, q, s') = length s'.rest < length s.rest

next_line-IsShorter :
    (p : Ptr) (s : Stream) (rest : Bytes) (w : World)
    → s.rest ≡ rest
    → IsShorter s (next_line p s rest w).0
next_line-IsShorter p s [] w e = tt
next_line-IsShorter p s (x ∷ l) w e = rw e (cut_line-length x l)

module _ ⦃env : Env⦄ where
  getline-IsShorter : (p : Ptr) (s : Stream) (w : World) → IsShorter s (getline p s w).0
  unfolding getline
  getline-IsShorter p s w =
      call_rule (λ r w'. IsShorter s r) _ _ w (λ e. tt) (next_line-IsShorter p s s.rest _ refl)

  module _ (child : Child) (fd : ℕ) (cmd : Ptr) (opt : Bytes)
      (rest rest' : Ptr → Stream → M (ℤ × Option Ptr)) where
    march_matched-rest :
        (line : Ptr) (s : Stream) (o : Option Bytes) (w : World)
        → ((line : Ptr) (w : World) → rest line s w ≡ rest' line s w)
        → march_matched child fd cmd opt rest line s o w
          ≡ march_matched child fd cmd opt rest' line s o w
    unfolding march_matched
    march_matched-rest line s none w h = h line w
    march_matched-rest line s (some v) w h = refl

    march_read-rest :
        (s : Stream) (r : Bool × Ptr × Stream) (w : World)
        → IsShorter s r
        → ((line : Ptr) (s' : Stream) (w : World)
            → length s'.rest < length s.rest
            → rest line s' w ≡ rest' line s' w)
        → march_read child fd cmd opt rest r w ≡ march_read child fd cmd opt rest' r w
    unfolding march_read
    march_read-rest s (false, line, s') w i h = refl
    march_read-rest s (true, line, s') w i h =
        let (array, len) = skip_whitespace (text_of line ++ 0 ∷ []) in
        march_matched-rest (with_text line (c_string array)) s' (option_value opt array len) w
          λ line' w'. h line' s' w' i

    march_round-rest :
        (line : Ptr) (s : Stream) (ended : Bool) (w : World)
        → ((line : Ptr) (s' : Stream) (w : World)
            → length s'.rest < length s.rest
            → rest line s' w ≡ rest' line s' w)
        → march_round child fd cmd opt rest line s ended w
          ≡ march_round child fd cmd opt rest' line s ended w
    unfolding march_round
    march_round-rest line s true w h = refl
    march_round-rest line s false w h =
        let (r, w') = getline line s w in march_read-rest s r w' (getline-IsShorter line s w) h

  -- The loop of `get_march_native` gives the same result for any two amounts of fuel above the
  -- length of the output that is left, whichever calls fail: it ends before its fuel does.
  pub march_loop-fuel :
      (child : Child) (fd : ℕ) (cmd : Ptr) (opt : Bytes) (fuel fuel' : ℕ) (line : Ptr) (s : Stream)
      (w : World)
      → length s.rest < fuel
      → length s.rest < fuel'
      → march_loop child fd cmd opt fuel line s w ≡ march_loop child fd cmd opt fuel' line s w
  unfolding march_loop
  march_loop-fuel child fd cmd opt zero fuel' line s w h h' = absurd (omega arith)
  march_loop-fuel child fd cmd opt (suc fuel) zero line s w h h' = absurd (omega arith)
  march_loop-fuel child fd cmd opt (suc fuel) (suc fuel') line s w h h' =
      march_round-rest child fd cmd opt (march_loop child fd cmd opt fuel)
        (march_loop child fd cmd opt fuel') line s (s.eof || s.error) w
        λ line' s' w' i.
          march_loop-fuel child fd cmd opt fuel fuel' line' s' w' (omega (arith, h, i))
            (omega (arith, h', i))
