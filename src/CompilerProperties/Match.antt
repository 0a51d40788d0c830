-- ===== src/CompilerProperties/Match.antt =====
-- The tests that `get_march_native` makes of a line, against a description of such a line.
use pdistcc.Base.{
  ℕ, suc, ◌+◌, not, ◌||◌, [], ◌∷◌, ◌++◌, Option, none, some, Bytes, IsText, c_string,
  c_string-IsText, ltb, length, get_elem?, drop, ◌==◌, if◌then◌else◌, ◌≡◌, refl, arith,
}
use pdistcc.CompilerProperties.March.{strncmp_eq, byte_is, option_value}

-- What follows a prefix.
unfoldable pub strip_prefix : Bytes → Bytes → Option Bytes
strip_prefix [] line = some line
strip_prefix (x ∷ p) [] = none
strip_prefix (x ∷ p) (y ∷ line) = if x == y then strip_prefix p line else none

abbrev pub nonempty : Option Bytes → Option Bytes
nonempty none = none
nonempty (some []) = none
nonempty (some (x ∷ v)) = some (x ∷ v)

-- The value in a line `-OPTION=VALUE`, for a value of a character at least.
unfoldable pub line_value : Bytes → Bytes → Option Bytes
unfolding strip_prefix
line_value opt line = nonempty (strip_prefix (b'-' ∷ (opt ++ b'=' ∷ [])) line)

-- The tests behind the dash, for `n` characters.
abbrev tail_value : Bytes → Bytes → ℕ → Option Bytes
tail_value opt rest n =
    if ltb n (length opt + 2) || not (byte_is (get_elem? rest (length opt)) b'=')
    then none
    else if strncmp_eq (length opt) rest opt
    then some (c_string (drop (length opt + 1) rest))
    else none

tail_value_lem :
    (opt line more : Bytes)
    → IsText opt
    → IsText line
    → tail_value opt (line ++ 0 ∷ more) (length line)
      ≡ nonempty (strip_prefix (opt ++ b'=' ∷ []) line)
unfolding strncmp_eq strip_prefix c_string
tail_value_lem [] [] more t u = refl
tail_value_lem [] (y ∷ []) more t u = ground arith
tail_value_lem [] (y ∷ z ∷ l) more t u = ground (arith, c_string-IsText (y ∷ z ∷ l) more u)
tail_value_lem (x ∷ opt) [] more t u = ground arith
tail_value_lem (x ∷ opt) (y ∷ line) more t u = ground (arith, tail_value_lem opt line more t.1 u.1)

-- `get_march_native` takes its value from a line exactly if the line, rid of white space, is a dash,
-- the option, an equals sign and a value of a character at least: the tests on the array give the
-- value that the line has, or none. Line and option have no NUL, `more` is what stands in the array
-- behind the line's NUL.
pub option_value-line_value :
    (opt line more : Bytes)
    → IsText opt
    → IsText line
    → option_value opt (line ++ 0 ∷ more) (length line) ≡ line_value opt line
unfolding option_value line_value strip_prefix
option_value-line_value opt [] more t u = refl
option_value-line_value opt (x ∷ line) more t u =
    let p : length opt + 1 ≡ suc (length opt) = omega arith in
    let q : length opt + 2 ≡ suc (length opt + 1) = omega arith in
    let r : length opt + 3 ≡ suc (length opt + 2) = omega arith in
    rw (option_value, r, q) (rw p ground (arith, tail_value_lem opt line more t u.1))
