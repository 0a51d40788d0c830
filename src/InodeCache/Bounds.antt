-- ===== src/InodeCache/Bounds.antt =====
-- `read_entry` writes inside its array only.
use pdistcc.Base.{
  ℕ, zero, suc, ◌+◌, ◌-◌, ◌≤◌, ◌<◌, ℤ, pos, negsuc, [], ◌∷◌, ◌++◌, ◌≡◌, refl, ◌∙◌, Bytes, arith,
  length, take, drop, min, length-append, length-take, length-drop, Option-cases, inl, inr, leb,
  ◌==◌, Bool-cases, drop-length-add-append, drop-drop, subst, ap,
}
use pdistcc.System.World.{World, Env, M, call_rule}
use pdistcc.System.Files.{Transfer, failed, got, read, lookup_fd, content}
use pdistcc.InodeCache.Entry.{
  Reading, reading, store_at, advance, read_step, read_round, read_loop, byte_before, terminate,
  read_end, read_array, read_entry,
}

-- An array differs from another in its first `len` bytes only.
abbrev pub SameBeyond : ℕ → Bytes → Bytes → Type 0
SameBeyond len a b = (length a ≡ length b) × (drop len a ≡ drop len b)

-- The array differs from `buf` in its first `suc limit` bytes only, and of the `limit` bytes that
-- may be read no more than the room is left behind `result`.
record InBounds (buf : Bytes) (limit : ℕ) (s : Reading) : Type 0 where
  same : SameBeyond (suc limit) s.buf buf
  within : s.at + s.room ≤ limit

length-store_at :
    (i : ℕ) (b buf : Bytes) → i + length b ≤ length buf → length (store_at i b buf) ≡ length buf
unfolding store_at
length-store_at i b buf h = omega (
  arith,
  length-append (take i buf) (b ++ drop (i + length b) buf),
  length-append b (drop (i + length b) buf),
  length-take i buf,
  length-drop (i + length b) buf,
)

-- Bytes behind those stored.
drop-store_at :
    (i m : ℕ) (b buf : Bytes)
    → i + length b ≤ length buf
    → drop (i + (length b + m)) (store_at i b buf) ≡ drop (i + (length b + m)) buf
unfolding store_at
drop-store_at i m b buf h =
    let before : length (take i buf) ≡ i = omega (arith, length-take i buf) in
    let behind = drop (i + length b) buf in
    subst (λ k. drop (k + (length b + m)) (take i buf ++ (b ++ behind)) ≡ drop m behind) before
      (drop-length-add-append (take i buf) (b ++ behind) (length b + m)
        ∙ drop-length-add-append b behind m)
    ∙ drop-drop (i + length b) m buf
    ∙ ap (λ k. drop k buf) (omega arith)

store_at-SameBeyond :
    (len i : ℕ) (b buf old : Bytes)
    → i + length b ≤ len
    → len ≤ length old
    → SameBeyond len buf old
    → SameBeyond len (store_at i b buf) old
store_at-SameBeyond len i b buf old h g s = (
  length-store_at i b buf (omega (arith, h, g, s.0)) ∙ s.0,
  subst (λ k. drop k (store_at i b buf) ≡ drop k buf) (omega arith)
        (drop-store_at i (len - (i + length b)) b buf (omega (arith, h, g, s.0)))
      ∙ s.1,
)

-- No more bytes than there is room for.
abbrev IsWithin : ℕ → Transfer → Type 0
IsWithin len failed = Unit
IsWithin len (got b) = length b ≤ len

read-IsWithin : ⦃env : Env⦄ → (fd : ℤ) (len : ℕ) (w : World) → IsWithin len (read fd len w).0
unfolding read
read-IsWithin (negsuc n) len w = tt
read-IsWithin ⦃env⦄ (pos n) len w = elim (Option-cases (lookup_fd n w.fds)) [
  | inl e ↦ rw (e, read) tt
  | inr (h, e) ↦
      rw (e, read)
        (call_rule (λ t w'. IsWithin len t) _ _ _ (λ k. tt)
          (omega (
            arith,
            length-take (min len (suc (env.chunk w.tick)))
                (drop h.offset (content (w.node h.path))),
          )))
]

module _ {buf : Bytes} {limit : ℕ} (fits : limit < length buf) where
  advance-InBounds :
      (b : Bytes) (s : Reading)
      → InBounds buf limit s
      → length b ≤ s.room
      → InBounds buf limit (advance b s)
  unfolding advance
  advance-InBounds b s i h = record {
    same =
        store_at-SameBeyond (suc limit) s.at b s.buf buf (omega (arith, i.within, h)) fits i.same;
    within = omega (arith, i.within, h);
  }

  read_step-InBounds :
      (rest : Reading → M Reading) (s : Reading) (t : Transfer) (w : World)
      → InBounds buf limit s
      → IsWithin s.room t
      → ((s : Reading) (w : World) → InBounds buf limit s → InBounds buf limit (rest s w).0)
      → InBounds buf limit (read_step rest s t w).0
  unfolding read_step
  read_step-InBounds rest s failed w i h r = record { same = i.same; within = i.within }
  read_step-InBounds rest s (got []) w i h r = record { same = i.same; within = i.within }
  read_step-InBounds rest s (got (x ∷ l)) w i h r = r _ w (advance-InBounds (x ∷ l) s i h)

  module _ ⦃env : Env⦄ (fd : ℤ) where
    read_round-InBounds :
        (rest : Reading → M Reading) (s : Reading) (room : ℕ) (w : World)
        → s.room ≡ room
        → InBounds buf limit s
        → ((s : Reading) (w : World) → InBounds buf limit s → InBounds buf limit (rest s w).0)
        → InBounds buf limit (read_round rest fd s room w).0
    unfolding read_round
    read_round-InBounds rest s zero w e i r = i
    read_round-InBounds rest s (suc room) w e i r =
        let (t, w') = read fd (suc room) w in
        read_step-InBounds rest s t w' i (rw e (read-IsWithin fd (suc room) w)) r

    read_loop-InBounds :
        (fuel : ℕ) (s : Reading) (w : World)
        → InBounds buf limit s
        → InBounds buf limit (read_loop fuel fd s w).0
    unfolding read_loop
    read_loop-InBounds zero s w i = i
    read_loop-InBounds (suc fuel) s w i =
        read_round-InBounds (read_loop fuel fd) s s.room w refl i (read_loop-InBounds fuel)

    terminate-SameBeyond :
        (s : Reading) → InBounds buf limit s → SameBeyond (suc limit) (terminate s) buf
    unfolding terminate
    terminate-SameBeyond s i = elim (Bool-cases (byte_before s == 0)) [
      | inl e ↦ rw (e, terminate) i.same
      | inr e ↦
          rw (e, terminate)
            (store_at-SameBeyond (suc limit) s.at (0 ∷ []) s.buf buf (omega (arith, i.within)) fits
              i.same)
    ]

    read_end-SameBeyond :
        (s : Reading) (t : Transfer) (w : World)
        → InBounds buf limit s
        → SameBeyond (suc limit) (read_end s t w).0.1 buf
    unfolding read_end
    read_end-SameBeyond s failed w i = i.same
    read_end-SameBeyond s (got []) w i = terminate-SameBeyond s i
    read_end-SameBeyond s (got (x ∷ l)) w i = i.same

module _ ⦃env : Env⦄ where
  read_array-SameBeyond :
      (fd : ℤ) (buf : Bytes) (limit : ℕ) (w : World)
      → limit < length buf
      → SameBeyond (suc limit) (read_array fd buf (suc limit) w).0.1 buf
  unfolding read_array
  read_array-SameBeyond fd buf limit w fits =
      let (s, w') = read_loop (suc limit) fd (reading buf (suc limit - 1)) w in
      read_end-SameBeyond fits fd s s.last w' (
        read_loop-InBounds fits fd (suc limit) (reading buf (suc limit - 1)) w
          (record { same = (refl, refl); within = omega arith }))

  -- Whichever calls fail and whatever the file holds, `read_entry` writes to the first `len` bytes
  -- of its array only: an array of at least `len` bytes has after the call as many bytes as before
  -- it, and the same ones from index `len` on.
  pub read_entry-SameBeyond :
      (fd : ℤ) (buf : Bytes) (len : ℕ) (w : World)
      → len ≤ length buf
      → SameBeyond len (read_entry fd buf len w).0.1 buf
  unfolding read_entry
  read_entry-SameBeyond fd buf zero w fits = (refl, refl)
  read_entry-SameBeyond fd buf (suc limit) w fits = elim (Bool-cases (leb (suc limit) 1)) [
    | inl e ↦ rw (e, read_entry) (refl, refl)
    | inr e ↦ rw (e, read_entry) (read_array-SameBeyond fd buf limit w fits)
  ]
