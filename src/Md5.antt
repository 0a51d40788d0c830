-- ===== src/Md5.antt =====
-- c/md5.c: the text form of a digest. The digest itself is libmd's and a parameter of the model
-- (`Env.md5`); `MD5Digest` writes it in hexadecimal.
use pdistcc.Base.{ℕ, ◌/◌, ◌%◌, [], ◌∷◌, Option, none, some, Bytes, ascii, get_elem?}
use pdistcc.System.World.{Env}

-- `hex`
abbrev pub hex_digits : Bytes
hex_digits = ascii "0123456789abcdef"

abbrev pub or_zero : Option ℕ → ℕ
or_zero none = 0
or_zero (some c) = c

-- `hex[i]`
unfoldable pub hex_digit : ℕ → ℕ
hex_digit i = or_zero (get_elem? hex_digits i)

-- The loop over the bytes of `digest`.
unfoldable pub hex_bytes : Bytes → Bytes
unfolding hex_digit
hex_bytes [] = []
hex_bytes (d ∷ l) = hex_digit (d / 16) ∷ hex_digit (d % 16) ∷ hex_bytes l

-- `MD5Digest`: the string in `*ret`
unfoldable pub md5_digest : ⦃env : Env⦄ → Bytes → Bytes
unfolding hex_bytes
md5_digest ⦃env⦄ input = hex_bytes (env.md5 input)
