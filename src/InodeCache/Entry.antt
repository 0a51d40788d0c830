-- ===== src/InodeCache/Entry.antt =====
-- `read_entry` and `write_entry`: the loops over read(2) and write(2).
use pdistcc.Base.{
  ℕ, zero, suc, ◌+◌, ◌-◌, ℤ, pos, negsuc, neg, [], ◌∷◌, ◌++◌, Option, none, some, Bytes, length,
  get_elem?, take, drop, leb, ◌==◌, if◌then◌else◌,
}
use pdistcc.System.World.{Env, M, pure, ◌>>=◌, ◌>>◌, get_errno, note_misuse, einval}
use pdistcc.System.Files.{Transfer, failed, got, read, write}

-- The variables of the loop in `read_entry`: the array, how far `result` has advanced in it, how
-- much room is left, and the last `bytes_read`.
pub record Reading : Type 0 where
  pub buf : Bytes
  pub at : ℕ
  pub room : ℕ
  pub last : Transfer

-- Before the first round.
abbrev pub reading : Bytes → ℕ → Reading
reading buf room = record { buf = buf; at = 0; room = room; last = got [] }

-- `b` is stored at index `i` of an array.
unfoldable pub store_at : ℕ → Bytes → Bytes → Bytes
store_at i b buf = take i buf ++ (b ++ drop (i + length b) buf)

-- The array after a read that stored `b`.
unfoldable pub advance : Bytes → Reading → Reading
unfolding store_at
advance b s = record s {
  buf = store_at s.at b s.buf;
  at = s.at + length b;
  room = s.room - length b;
  last = got b;
}

abbrev pub byte_of : Option ℕ → ℕ
byte_of none = 0
byte_of (some c) = c

-- What follows a call of read(2); `rest` goes on with the loop.
unfoldable pub read_step : (Reading → M Reading) → Reading → Transfer → M Reading
unfolding advance
read_step rest s failed = pure (record s { last = failed })
read_step rest s (got []) = pure (record s { last = got [] })
read_step rest s (got (x ∷ l)) = rest (advance (x ∷ l) s)

-- What follows a call of write(2).
unfoldable pub write_step : (Bytes → M ℤ) → Bytes → ℤ → M ℤ
write_step rest value (negsuc k) = do e ← get_errno; pure (neg e)
write_step rest value (pos k) = rest (drop k value)

module _ ⦃env : Env⦄ where
  -- The test `len > 0`, and the call.
  unfoldable pub read_round : (Reading → M Reading) → ℤ → Reading → ℕ → M Reading
  unfolding read_step
  read_round rest fd s zero = pure s
  read_round rest fd s (suc room) = read fd (suc room) >>= read_step rest s

  -- `while ((len > 0) && (bytes_read = read(fd, result, len)) > 0)`, on fuel. Each round but the
  -- last takes a byte at least.
  unfoldable pub read_loop : ℕ → ℤ → Reading → M Reading
  unfolding read_round
  read_loop zero fd s = pure s
  read_loop (suc fuel) fd s = read_round (read_loop fuel fd) fd s s.room

  -- `result[-1]`
  unfoldable pub byte_before : Reading → ℕ
  byte_before s = if s.at == 0 then env.before else byte_of (get_elem? s.buf (s.at - 1))

  -- After a last `bytes_read` of 0 the string is ended, if it is not.
  unfoldable pub terminate : Reading → Bytes
  unfolding store_at byte_before
  terminate s = if byte_before s == 0 then s.buf else store_at s.at (0 ∷ []) s.buf

  -- After the loop.
  unfoldable pub read_end : Reading → Transfer → M (ℤ × Bytes)
  unfolding terminate
  read_end s failed = do e ← get_errno; pure (neg e, s.buf)
  read_end s (got []) = do note_misuse (s.at == 0); pure (pos 0, terminate s)
  read_end s (got (x ∷ l)) = pure (negsuc 0, s.buf)

  -- `read_entry(fd, result, len)`, for a `len` above 1: its result and the array
  unfoldable pub read_array : ℤ → Bytes → ℕ → M (ℤ × Bytes)
  unfolding read_loop read_end
  read_array fd buf len = do s ← read_loop len fd (reading buf (len - 1)); read_end s s.last

  -- `read_entry`
  unfoldable pub read_entry : ℤ → Bytes → ℕ → M (ℤ × Bytes)
  unfolding read_array
  read_entry fd buf len = if leb len 1 then pure (neg einval, buf) else read_array fd buf len

  -- `while (len > 0)` of `write_entry`, on fuel; `value` is what is left.
  unfoldable pub write_loop : ℕ → ℤ → Bytes → M ℤ
  unfolding write_step
  write_loop zero fd value = pure (pos 0)
  write_loop (suc fuel) fd [] = pure (pos 0)
  write_loop (suc fuel) fd (x ∷ l) = write fd (x ∷ l) >>= write_step (write_loop fuel fd) (x ∷ l)

  -- `write_entry(fd, value, len)`, for `len` the length of `value`
  unfoldable pub write_entry : ℤ → Bytes → M ℤ
  unfolding write_loop
  write_entry fd value = write_loop (suc (length value)) fd value
