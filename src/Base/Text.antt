-- ===== src/Base/Text.antt =====
-- Byte strings, and their comparison.
use Prim.Native.Nat.{ℕ}
use Prim.Native.Char.{code}
use Prim.Native.String.{String}
use mathlib.Core.Path.{◌≡◌, refl}
use mathlib.Core.Bool.{Bool, true, false, ◌&&◌}
use mathlib.Core.List.{List, [], ◌∷◌, ◌++◌}
use native.Mathlib.Omega.{arith}
use mathlib.Core.Logic.{◌≢◌}
use pdistcc.Base.Tests.{◌==◌, if◌then◌else◌}

-- The bytes of a C string, without the terminating NUL.
abbrev pub Bytes : Type 0
Bytes = List ℕ

-- A literal's bytes.
abbrev pub ascii : String → Bytes
ascii String.[] = []
ascii (String.◌∷◌ c s) = code c ∷ ascii s

-- The string that starts an array: up to the first NUL.
unfoldable pub c_string : Bytes → Bytes
c_string [] = []
c_string (x ∷ l) = if x == 0 then [] else x ∷ c_string l

-- No byte of the text is NUL.
abbrev pub IsText : Bytes → Type 0
IsText [] = Unit
IsText (x ∷ l) = (x ≢ 0) × IsText l

pub c_string-IsText : (v rest : Bytes) → IsText v → c_string (v ++ 0 ∷ rest) ≡ v
unfolding c_string
c_string-IsText [] rest h = refl
c_string-IsText (x ∷ l) rest (h, t) = ground (arith, c_string-IsText l rest t)

-- `strcmp(a, b) == 0`
unfoldable pub bytes_eq : Bytes → Bytes → Bool
bytes_eq [] [] = true
bytes_eq (x ∷ xs) (y ∷ ys) = x == y && bytes_eq xs ys
bytes_eq _ _ = false

pub bytes_eq_refl : (a : Bytes) → bytes_eq a a ≡ true
unfolding bytes_eq
bytes_eq_refl [] = refl
bytes_eq_refl (x ∷ xs) = ground (arith, bytes_eq_refl xs)

pub bytes_eq→eq : (a b : Bytes) → bytes_eq a b ≡ true → a ≡ b
unfolding bytes_eq
bytes_eq→eq [] [] h = refl
bytes_eq→eq [] (y ∷ ys) h = ground arith
bytes_eq→eq (x ∷ xs) [] h = ground arith
bytes_eq→eq (x ∷ xs) (y ∷ ys) h = ground (arith, bytes_eq→eq xs ys)

-- A path is the list of its components, the innermost first; the root is empty.
abbrev pub FilePath : Type 0
FilePath = List Bytes

unfoldable pub path_eq : FilePath → FilePath → Bool
path_eq [] [] = true
path_eq (x ∷ xs) (y ∷ ys) = bytes_eq x y && path_eq xs ys
path_eq _ _ = false

pub path_eq_refl : (p : FilePath) → path_eq p p ≡ true
unfolding path_eq
path_eq_refl [] = refl
path_eq_refl (x ∷ xs) = ground (arith, bytes_eq_refl x, path_eq_refl xs)

pub path_eq→eq : (p q : FilePath) → path_eq p q ≡ true → p ≡ q
unfolding path_eq
path_eq→eq [] [] h = refl
path_eq→eq [] (y ∷ ys) h = ground arith
path_eq→eq (x ∷ xs) [] h = ground arith
path_eq→eq (x ∷ xs) (y ∷ ys) h = ground (arith, bytes_eq→eq x y, path_eq→eq xs ys)
