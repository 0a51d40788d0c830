-- ===== src/InodeCache/Key.antt =====
-- `struct ino_hash` and `hash_inode`: the name of a cache entry.
use pdistcc.Base.{
  ℕ, zero, suc, ◌+◌, ◌-◌, ◌*◌, ◌/◌, ◌%◌, ◌^◌, ℤ, pos, negsuc, neg, Option, [], ◌∷◌, ◌++◌, none,
  some, Bytes,
}
use pdistcc.System.World.{Stat, Ptr, Env, M, pure, ◌>>=◌, get_errno, enomem}
use pdistcc.System.Files.{stat}
use pdistcc.System.Memory.{asprintf}
use pdistcc.Md5.{md5_digest}

abbrev pub ino_cache_version : ℕ
ino_cache_version = 1

-- `struct ino_hash`
pub record InoHash : Type 0 where
  pub version : ℕ
  pub kind : ℕ
  pub dev : ℕ
  pub ino : ℕ
  pub size : ℕ
  pub mtime : ℕ

-- `n` bytes of an unsigned integer, as they lie in memory on a little-endian machine
abbrev pub le_bytes : ℕ → ℕ → Bytes
le_bytes zero x = []
le_bytes (suc n) x = x % 256 ∷ le_bytes n (x / 256)

-- The packed structure as bytes.
unfoldable pub pack : InoHash → Bytes
pack h =
    le_bytes 2 h.version
    ++ (le_bytes 2 h.kind
        ++ (le_bytes 4 h.dev ++ (le_bytes 8 h.ino ++ (le_bytes 8 h.size ++ le_bytes 8 h.mtime))))

-- A signed integer as a `uint64_t`.
unfoldable pub to_u64 : ℤ → ℕ
to_u64 (pos n) = n % 2 ^ 64
to_u64 (negsuc n) = 2 ^ 64 - 1 - n % 2 ^ 64

-- The assignments to `buf`, with their casts.
unfoldable pub ino_hash_of : Stat → ℕ → InoHash
unfolding to_u64
ino_hash_of st kind = record {
  version = ino_cache_version;
  kind = kind;
  dev = st.dev % 2 ^ 32;
  ino = st.ino % 2 ^ 64;
  size = st.size % 2 ^ 64;
  mtime = (1000000 * to_u64 st.mtime_sec + st.mtime_nsec / 1000) % 2 ^ 64;
}

module _ ⦃env : Env⦄ where
  -- The text in `digest`.
  unfoldable pub entry_key : Stat → ℕ → Bytes
  entry_key st kind = md5_digest (pack (ino_hash_of st kind))

  -- After `asprintf`.
  unfoldable pub hash_named : Ptr → M (ℤ × Ptr)
  hash_named none = pure (neg enomem, none)
  hash_named (some n) = pure (pos 0, some n)

  -- After `stat`.
  unfoldable pub hash_stated : Option Stat → ℕ → M (ℤ × Ptr)
  unfolding hash_named entry_key
  hash_stated none kind = do e ← get_errno; pure (neg e, none)
  hash_stated (some s) kind = do name ← asprintf (entry_key s kind); hash_named name

  -- `hash_inode`: its result, and what it leaves in `*entry_name`
  unfoldable pub hash_inode : Bytes → ℕ → M (ℤ × Ptr)
  unfolding hash_stated
  hash_inode path kind = do st ← stat path; hash_stated st kind
