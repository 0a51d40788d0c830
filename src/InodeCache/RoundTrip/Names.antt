-- ===== src/InodeCache/RoundTrip/Names.antt =====
-- The names of an entry and of its lock file are two components of a path.
use pdistcc.Base.{
  ℕ, ◌+◌, ◌*◌, ◌≤◌, [], ◌∷◌, ◌≡◌, ◌≢◌, refl, false, some, Bytes, FilePath, bytes_eq, path_eq, ascii,
  length, length-append, arith,
}
use pdistcc.System.World.{Env, Stat}
use pdistcc.System.Files.{walk}
use pdistcc.Md5.{hex_bytes, md5_digest}
use pdistcc.InodeCache.Key.{entry_key}
use pdistcc.InodeCache.Lock.{lock_name}

pub bytes_eq-length_ne : (a b : Bytes) → length b ≢ length a → bytes_eq a b ≡ false
unfolding bytes_eq
bytes_eq-length_ne [] [] h = absurd (h refl)
bytes_eq-length_ne [] (y ∷ b) h = refl
bytes_eq-length_ne (x ∷ a) [] h = refl
bytes_eq-length_ne (x ∷ a) (y ∷ b) h = ground (arith, bytes_eq-length_ne a b)

-- Only "." and ".." are not names of their own.
pub walk_long : (p : FilePath) (name : Bytes) → 3 ≤ length name → walk p name ≡ some (name ∷ p)
unfolding walk
walk_long p [] h = absurd (omega arith)
walk_long p (c ∷ []) h = absurd (omega arith)
walk_long p (c ∷ e ∷ []) h = absurd (omega arith)
walk_long p (c ∷ e ∷ f ∷ l) h = ground arith

pub length-hex_bytes : (b : Bytes) → length (hex_bytes b) ≡ 2 * length b
unfolding hex_bytes
length-hex_bytes [] = refl
length-hex_bytes (x ∷ b) = omega (arith, length-hex_bytes b)

pub length-lock_name : (a : Bytes) → length (lock_name a) ≡ length a + 5
unfolding lock_name
length-lock_name a = length-append a (ascii ".lock")

pub path_eq-lock_name : (a : Bytes) (p : FilePath) → path_eq (a ∷ p) (lock_name a ∷ p) ≡ false
unfolding path_eq
path_eq-lock_name a p =
    rw (bytes_eq-length_ne a (lock_name a) (omega (arith, length-lock_name a))) refl

pub path_eq-lock_name_left : (a : Bytes) (p : FilePath) → path_eq (lock_name a ∷ p) (a ∷ p) ≡ false
unfolding path_eq
path_eq-lock_name_left a p =
    rw (bytes_eq-length_ne (lock_name a) a (omega (arith, length-lock_name a))) refl

-- A digest has 16 bytes, so a name has 32 characters.
pub length-entry_key :
    ⦃env : Env⦄
    → ((b : Bytes) → length (env.md5 b) ≡ 16)
    → (st : Stat) (kind : ℕ) → length (entry_key st kind) ≡ 32
unfolding entry_key md5_digest
length-entry_key ⦃env⦄ sixteen st kind = omega (arith, length-hex_bytes (env.md5 _), sixteen _)
