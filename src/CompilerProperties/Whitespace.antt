-- ===== src/CompilerProperties/Whitespace.antt =====
-- `skip_whitespace`: a string is rid of white space in place.
use mathlib.Core.List.{append_assoc, append-nil}
use pdistcc.Base.{
  ℕ, zero, suc, ◌+◌, ◌<◌, Bool, true, false, ◌&&◌, ◌||◌, [], ◌∷◌, ◌++◌, Option, none, some, Bytes,
  IsText, length, get_elem?, set, leb, ltb, ◌==◌, if◌then◌else◌, ◌≡◌, refl, ap, arith, sym, ◌∙◌,
  get_elem?-length_append, length-append, Bool-cases, inl, inr,
}

-- `isspace`, in the C locale
abbrev pub isspace : ℕ → Bool
isspace c = c == 32 || (leb 9 c && leb c 13)

-- The array, and `w` and `len` after the loop.
pub record Squeezed : Type 0 where
  pub array : Bytes
  pub write_at : ℕ
  pub len : ℕ

-- `if (w < r) *w = *r;`: `w` is never above `r`, so the code's last branch is not reached.
unfoldable pub move : Bytes → ℕ → ℕ → ℕ → Bytes
move str w r c = if ltb w r then set str w c else str

abbrev squeezed : Bytes → ℕ → ℕ → Squeezed
squeezed str w len = record { array = str; write_at = w; len = len }

-- A byte `c` that is not NUL: white space is passed, and else it is copied; `rest` goes on with the
-- loop.
unfoldable pub skip_byte : (Bytes → ℕ → ℕ → ℕ → Squeezed) → Bytes → ℕ → ℕ → ℕ → ℕ → Bool → Squeezed
unfolding move
skip_byte rest str w r len c true = rest str w (r + 1) len
skip_byte rest str w r len c false = rest (move str w r c) (w + 1) (r + 1) (len + 1)

-- The byte that `r` points to.
unfoldable pub skip_step : (Bytes → ℕ → ℕ → ℕ → Squeezed) → Bytes → ℕ → ℕ → ℕ → Option ℕ → Squeezed
unfolding skip_byte
skip_step rest str w r len none = squeezed str w len
skip_step rest str w r len (some zero) = squeezed str w len
skip_step rest str w r len (some (suc c)) = skip_byte rest str w r len (suc c) (isspace (suc c))

-- `while (*r)`, on fuel: each round takes one byte of the array.
unfoldable pub skip_loop : ℕ → Bytes → ℕ → ℕ → ℕ → Squeezed
unfolding skip_step
skip_loop zero str w r len = squeezed str w len
skip_loop (suc fuel) str w r len = skip_step (skip_loop fuel) str w r len (get_elem? str r)

-- `skip_whitespace`: the array after it, and its result.
unfoldable pub skip_whitespace : Bytes → Bytes × ℕ
unfolding skip_loop
skip_whitespace str = let s = skip_loop (length str) str 0 0 0 in (set s.array s.write_at 0, s.len)

-- The string without its white space.
unfoldable pub without_space : Bytes → Bytes
without_space [] = []
without_space (x ∷ l) = if isspace x then without_space l else x ∷ without_space l

-- The loop has copied `out` to the front; what follows it in the array is of no interest.
record IsSqueezed (out : Bytes) (s : Squeezed) : Type 0 where
  next : ℕ
  more : Bytes
  copied : s.array ≡ out ++ next ∷ more
  written : s.write_at ≡ length out
  counted : s.len ≡ length out

set-length_append : (xs ys : Bytes) (y c : ℕ) → set (xs ++ y ∷ ys) (length xs) c ≡ xs ++ c ∷ ys
set-length_append [] ys y c = refl
set-length_append (x ∷ xs) ys y c = ap (λ l. x ∷ l) (set-length_append xs ys y c)

-- `gap` is what lies between `w` and `r`.
move_gap :
    (kept gap : Bytes) (c : ℕ) (todo : Bytes)
    → (gap' : Bytes) × (move (kept ++ (gap ++ c ∷ todo)) (length kept) (length kept + length gap) c
        ≡ (kept ++ c ∷ []) ++ (gap' ++ todo))
      × (length gap' ≡ length gap)
unfolding move
move_gap kept [] c todo =
    let here : ltb (length kept) (length kept + 0) ≡ false = ground arith in
    ([], rw here (sym (append_assoc kept (c ∷ []) todo)), refl)
move_gap kept (g ∷ gap) c todo =
    let above : ltb (length kept) (length kept + suc (length gap)) ≡ true = ground arith in
    (
      gap ++ c ∷ [],
      rw above (
          set-length_append kept (gap ++ c ∷ todo) g c
          ∙ sym (
              append_assoc kept (c ∷ []) ((gap ++ c ∷ []) ++ todo)
              ∙ ap (λ l. kept ++ c ∷ l) (append_assoc gap (c ∷ []) todo))),
      length-append gap (c ∷ []) ∙ omega arith,
    )

-- The byte behind the gap is read.
get_elem?-gap :
    (kept gap : Bytes) (c : ℕ) (todo : Bytes)
    → get_elem? (kept ++ (gap ++ c ∷ todo)) (length kept + length gap) ≡ some c
get_elem?-gap kept gap c todo =
    rw (← append_assoc, ← length-append) (get_elem?-length_append (kept ++ gap) todo c)

IsSqueezed-end :
    (kept gap tail : Bytes) (w len : ℕ)
    → w ≡ length kept
    → len ≡ length kept
    → IsSqueezed (kept ++ []) (squeezed (kept ++ (gap ++ 0 ∷ tail)) w len)
IsSqueezed-end kept [] tail w len e f =
    rw append-nil (record { next = 0; more = tail; copied = refl; written = e; counted = f })
IsSqueezed-end kept (g ∷ gap) tail w len e f =
    rw append-nil
      (record { next = g; more = gap ++ 0 ∷ tail; copied = refl; written = e; counted = f })

-- From a gap on the loop copies what is not white space.
skip_loop-IsSqueezed :
    (fuel : ℕ) (kept gap todo tail str : Bytes) (w r len : ℕ)
    → IsText todo
    → length todo < fuel
    → str ≡ kept ++ (gap ++ (todo ++ 0 ∷ tail))
    → w ≡ length kept
    → r ≡ length kept + length gap
    → len ≡ length kept
    → IsSqueezed (kept ++ without_space todo) (skip_loop fuel str w r len)
unfolding skip_loop skip_step without_space
skip_loop-IsSqueezed zero kept gap todo tail str w r len t f e1 e2 e3 e4 = absurd (omega arith)
skip_loop-IsSqueezed (suc fuel) kept gap [] tail str w r len t f e1 e2 e3 e4 =
    rw (e1, e3, get_elem?-gap kept gap 0 tail) (IsSqueezed-end kept gap tail w len e2 e4)
skip_loop-IsSqueezed (suc fuel) kept gap (zero ∷ todo) tail str w r len t f e1 e2 e3 e4 =
    absurd (t.0 refl)
skip_loop-IsSqueezed (suc fuel) kept gap (suc x ∷ todo) tail str w r len t f e1 e2 e3 e4 =
    rw (e1, e3, get_elem?-gap kept gap (suc x) (todo ++ 0 ∷ tail))
      (elim (Bool-cases (isspace (suc x))) [
        | inl e ↦
            rw (e, skip_byte, skip_step, without_space)
              (skip_loop-IsSqueezed fuel kept (gap ++ suc x ∷ []) todo tail
                (kept ++ (gap ++ (suc x ∷ (todo ++ 0 ∷ tail)))) w (length kept + length gap + 1) len
                t.1 (omega arith)
                (ap (λ l. kept ++ l) (sym (append_assoc gap (suc x ∷ []) (todo ++ 0 ∷ tail)))) e2
                (omega (arith, length-append gap (suc x ∷ []))) e4)
        | inr e ↦
            rw (e, e2, skip_byte, skip_step, without_space)
              (let g = move_gap kept gap (suc x) (todo ++ 0 ∷ tail) in
                let l = length-append kept (suc x ∷ []) in
                rw (sym (append_assoc kept (suc x ∷ []) (without_space todo))) (
                  skip_loop-IsSqueezed fuel (kept ++ suc x ∷ []) g.0 todo tail
                    (move (kept ++ (gap ++ (suc x ∷ (todo ++ 0 ∷ tail)))) (length kept)
                      (length kept + length gap) (suc x))
                    (length kept + 1) (length kept + length gap + 1) (len + 1) t.1 (omega arith) g.1
                    (omega (arith, l)) (omega (arith, l, g.2)) (omega (arith, l))))
      ])

-- A string's white space is taken out in place: `skip_whitespace` leaves the other characters at
-- the start of the array, in their order, with a NUL behind them, and returns how many they are.
-- The string ends at the first NUL of the array, and `tail` is what stands behind it.
pub skip_whitespace-without_space :
    (str tail : Bytes)
    → IsText str
    → (more : Bytes) × (skip_whitespace (str ++ 0 ∷ tail)
        ≡ (without_space str ++ 0 ∷ more, length (without_space str)))
unfolding skip_whitespace
skip_whitespace-without_space str tail t =
    let s =
      skip_loop-IsSqueezed (length (str ++ 0 ∷ tail)) [] [] str tail (str ++ 0 ∷ tail) 0 0 0 t
        (omega (arith, length-append str (0 ∷ tail))) refl refl refl refl in
    (
      s.more,
      rw (s.copied, s.written, s.counted)
          (rw (set-length_append (without_space str) s.more s.next 0) refl),
    )
