-- ===== src/InodeCache/Reads.antt =====
-- The loop of `read_entry` when no call fails: however few bytes each call gives, the whole file is
-- read, or as much as there is room for.
use mathlib.Core.List.{append_assoc, append-nil}
use pdistcc.Base.{
  ℕ, zero, suc, ◌+◌, ◌-◌, ◌<◌, pos, [], ◌∷◌, ◌++◌, ◌≡◌, refl, ◌∙◌, ap, sym, subst, Bytes, arith,
  length, take, drop, min, length-append, length-take, length-drop, take-length-append,
  drop-length-add-append, drop-drop,
}
use pdistcc.System.World.{World, Handle, Env, IsQuiet}
use pdistcc.System.Files.{Transfer, got, read}
use pdistcc.System.Frames.{
  OpenAt, IsFramed, IsFramed-trans, read_on, read-read_on, read_on-OpenAt, read_on-IsFramed,
}
use pdistcc.InodeCache.Entry.{Reading, read_step, read_round, read_loop, advance, store_at}
use pdistcc.InodeCache.Writes.{take-nil, take-append-drop-length}

-- The loop of `read_entry` has read the rest of a file, or has run out of room.
pub record ReadTo (n : ℕ) (h : Handle) (file : Bytes) (rest : Bytes) (w : World)
    (r : Reading × World) : Type 0 where
  pub filled : r.0.buf ≡ file ++ rest
  pub position : r.0.at ≡ length file
  pub at_eof : r.0.last ≡ got []
  pub frame : IsFramed h.path n w r.1

module _ ⦃env : Env⦄ (quiet : IsQuiet env) (n : ℕ) where
  advance_lem :
      (done b rest : Bytes) (room : ℕ) (last : Transfer)
      → advance b (record { buf = done ++ rest; at = length done; room = room; last = last })
        ≡ record {
          buf = (done ++ b) ++ drop (length b) rest;
          at = length (done ++ b);
          room = room - length b;
          last = got b;
        }
  unfolding advance store_at
  advance_lem done b rest room last =
      rw (take-length-append, drop-length-add-append, append_assoc, length-append) refl

  -- The variables after `done` was read into an array of which `rest` follows.
  abbrev read_so_far : Bytes → Bytes → ℕ → Transfer → Reading
  read_so_far done rest room last = record {
    buf = done ++ rest;
    at = length done;
    room = room;
    last = last;
  }

  -- One read, and the rest.
  ReadTo-read_on :
      (h : Handle) (done b todo' file rest : Bytes) (w : World) (r : Reading × World)
      → (done ++ b) ++ todo' ≡ file
      → ReadTo n
          (record h { offset = length done + length b })
          ((done ++ b) ++ todo')
          rest
          (read_on quiet n h done b w)
          r
      → ReadTo n h file rest w r
  ReadTo-read_on h done b todo' file rest w r e t = record {
    filled = rw (← e) t.filled;
    position = rw (← e) t.position;
    at_eof = t.at_eof;
    frame = IsFramed-trans (read_on-IsFramed quiet n h done b w) t.frame;
  }

  -- The call reads a byte at least, and goes on with the loop.
  read_loop-suc :
      (fuel room : ℕ) (h : Handle) (done : Bytes) (x : ℕ) (l rest : Bytes) (last : Transfer)
      (w : World)
      → OpenAt n h (done ++ x ∷ l) w
      → h.offset ≡ length done
      → let b = x ∷ take (min (suc room) (suc (env.chunk w.tick)) - 1) l in
        read_loop (suc fuel) (pos n) (read_so_far done rest (suc room) last) w
        ≡ read_loop fuel
            (pos n)
            (read_so_far (done ++ b) (drop (length b) rest) (suc room - length b) (got b))
            (read_on quiet n h done b w)
  unfolding read_loop read_round read_step
  read_loop-suc fuel room h done x l rest last w o e =
      let c = env.chunk w.tick in
      let k : min (suc room) (suc c) ≡ suc (min (suc room) (suc c) - 1) = omega arith in
      let called : read (pos n) (suc room) w ≡ (
        got (x ∷ take (min (suc room) (suc c) - 1) l),
        read_on quiet n h done (x ∷ take (min (suc room) (suc c) - 1) l) w,
      ) =
        subst
          (λ m.
            read (pos n) (suc room) w
            ≡ (got (take m (x ∷ l)), read_on quiet n h done (take m (x ∷ l)) w))
          k (read-read_on quiet n (suc room) h done (x ∷ l) w o e) in
      rw called (
        ap
          (λ s.
            read_loop fuel (pos n) s
              (read_on quiet n h done (x ∷ take (min (suc room) (suc c) - 1) l) w))
          (advance_lem done (x ∷ take (min (suc room) (suc c) - 1) l) rest (suc room) last))

  -- The loop reads a file that leaves room in the array to its end.
  pub read_loop-ReadTo :
      (fuel : ℕ) (h : Handle) (done todo rest : Bytes) (room : ℕ) (last : Transfer) (w : World)
      → OpenAt n h (done ++ todo) w
      → h.offset ≡ length done
      → length todo < room
      → length todo < fuel
      → ReadTo n h
          (done ++ todo)
          (drop (length todo) rest)
          w
          (read_loop fuel (pos n) (read_so_far done rest room last) w)
  unfolding read_loop read_step read_round
  read_loop-ReadTo zero h done todo rest room last w o e f g = absurd (omega arith)
  read_loop-ReadTo (suc fuel) h done todo rest zero last w o e f g = absurd (omega arith)
  read_loop-ReadTo (suc fuel) h done [] rest (suc room) last w o e f g =
      rw (read-read_on quiet n (suc room) h done [] w o e) (
        rw take-nil (record {
          filled = rw append-nil refl;
          position = rw append-nil refl;
          at_eof = refl;
          frame = read_on-IsFramed quiet n h done [] w;
        }))
  read_loop-ReadTo (suc fuel) h done (x ∷ l) rest (suc room) last w o e f g =
      let k = min (suc room) (suc (env.chunk w.tick)) - 1 in
      let b = x ∷ take k l in
      let l' = drop (length b) (x ∷ l) in
      let whole : (done ++ b) ++ l' ≡ done ++ x ∷ l =
        append_assoc done b l' ∙ ap (λ t. done ++ t) (take-append-drop-length (suc k) (x ∷ l)) in
      let skipped : drop (length (x ∷ l)) rest ≡ drop (length l') (drop (length b) rest) = sym (
        drop-drop (length b) (length l') rest
        ∙ ap (λ t. drop t rest)
            (sym (length-append b l') ∙ ap length (take-append-drop-length (suc k) (x ∷ l)))) in
      rw (read_loop-suc fuel room h done x l rest last w o e) (
        ReadTo-read_on h done b l' (done ++ x ∷ l) (drop (length (x ∷ l)) rest) w _ whole (
          rw skipped (
            read_loop-ReadTo fuel _ (done ++ b) l' (drop (length b) rest) (suc room - length b)
              (got b) _ (read_on-OpenAt quiet n h done b _ w (rw whole o))
              (omega (arith, length-append done b))
              (omega (arith, length-drop (length b) (x ∷ l), length-take k l))
              (omega (arith, length-drop (length b) (x ∷ l), length-take k l)))))

-- The last read of the loop has returned bytes.
abbrev pub IsCutOff : Reading × World → Type 0
IsCutOff r = (x : ℕ) × (l : Bytes) × (r.0.last ≡ got (x ∷ l))

read_loop-got :
    ⦃env : Env⦄
    → (fuel n : ℕ) (buf : Bytes) (at : ℕ) (b : Bytes) (w : World)
    → (read_loop fuel (pos n) (record { buf = buf; at = at; room = 0; last = got b }) w).0.last
      ≡ got b
unfolding read_loop read_round
read_loop-got zero n buf at b w = refl
read_loop-got (suc fuel) n buf at b w = refl

module _ ⦃env : Env⦄ (quiet : IsQuiet env) (n : ℕ) where
  -- A file that fills the room: the loop ends for want of it.
  pub read_loop-IsCutOff :
      (fuel : ℕ) (h : Handle) (done todo rest : Bytes) (room : ℕ) (last : Transfer) (w : World)
      → OpenAt n h (done ++ todo) w
      → h.offset ≡ length done
      → room < length todo
      → room < fuel
      → IsCutOff (read_loop fuel (pos n) (read_so_far quiet n done rest (suc room) last) w)
  read_loop-IsCutOff zero h done todo rest room last w o e f g = absurd (omega arith)
  read_loop-IsCutOff (suc fuel) h done [] rest room last w o e f g = absurd (omega arith)
  read_loop-IsCutOff (suc fuel) h done (x ∷ l) rest room last w o e f g =
      rw (read_loop-suc quiet n fuel room h done x l rest last w o e) (
        goes (suc room - length b)
          (λ k i.
            read_loop-IsCutOff fuel _ (done ++ b) (drop (length b) (x ∷ l)) (drop (length b) rest) k
              (got b) _ (read_on-OpenAt quiet n h done b _ w (rw whole o))
              (omega (arith, length-append done b))
              (omega (arith, i, length-drop (length b) (x ∷ l))) (omega (arith, i)))
          refl)
    where
      b : Bytes
      b = x ∷ take (min (suc room) (suc (env.chunk w.tick)) - 1) l

      whole : (done ++ b) ++ drop (length b) (x ∷ l) ≡ done ++ x ∷ l
      whole =
          append_assoc done b (drop (length b) (x ∷ l))
          ∙ ap (λ t. done ++ t)
              (take-append-drop-length (suc (min (suc room) (suc (env.chunk w.tick)) - 1)) (x ∷ l))

      -- The rest of the loop, with `k` bytes of room.
      Rest : ℕ → Type 0
      Rest k = IsCutOff (
          read_loop fuel (pos n) (read_so_far quiet n (done ++ b) (drop (length b) rest) k (got b))
            (read_on quiet n h done b w))

      goes :
          (k : ℕ)
          → ((j : ℕ) → suc room - length b ≡ suc j → Rest (suc j))
          → suc room - length b ≡ k
          → Rest k
      goes zero again i =
          (x, take (min (suc room) (suc (env.chunk w.tick)) - 1) l, read_loop-got fuel n _ _ b _)
      goes (suc k) again i = again k i
