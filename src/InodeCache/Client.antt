-- ===== src/InodeCache/Client.antt =====
-- A client of the cache: any sequence of calls of `inode_cache_put`, `inode_cache_get` and
-- `inode_cache_del`, as the code answers them, and as a map from names to texts answers them.
use pdistcc.Base.{
  ℕ, ◌<◌, ℤ, pos, negsuc, is_zero, List, [], ◌∷◌, Option, none, some, Bytes, IsText, bytes_eq,
  length, if◌then◌else◌,
}
use pdistcc.System.World.{Stat, Ptr, Env, M, pure, ◌>>=◌, text_of}
use pdistcc.InodeCache.Key.{entry_key}
use pdistcc.InodeCache.Ops.{InodeCache, inode_cache_put, inode_cache_get, inode_cache_del}

-- A call, with the path of a file, a kind, and a value.
pub data Op : Type 0 where
  put : Bytes → ℕ → Bytes → Op
  get : Bytes → ℕ → Op
  del : Bytes → ℕ → Op

-- What the client learns: the result, or the text in `*result` when that is 0.
pub data Answer : Type 0 where
  returned : ℤ → Answer
  found : Bytes → Answer

abbrev result_text : Option Ptr → Bytes
result_text none = []
result_text (some p) = text_of p

abbrev pub answer : ℤ × Option Ptr → Answer
answer (err, result) = if is_zero err then found (result_text result) else returned err

module _ ⦃env : Env⦄ where
  -- The code's answer. `*result` is NULL before a get.
  unfoldable pub run_op : InodeCache → Op → M Answer
  run_op c (put path kind value) = do
    err ← inode_cache_put (some c) (some path) kind (some value)
    pure (returned err)
  run_op c (get path kind) = do r ← inode_cache_get c path kind (some none); pure (answer r)
  run_op c (del path kind) = do err ← inode_cache_del c path kind; pure (returned err)

  unfoldable pub run : InodeCache → List Op → M (List Answer)
  unfolding run_op
  run c [] = pure []
  run c (op ∷ ops) = do a ← run_op c op; l ← run c ops; pure (a ∷ l)

-- The texts, by the names of their entries.
abbrev pub Contents : Type 0
Contents = Bytes → Option Bytes

unfoldable pub update : Bytes → Option Bytes → Contents → Contents
update n v m k = if bytes_eq n k then v else m k

abbrev pub answer_of : Option Bytes → Answer
answer_of none = returned (negsuc 1)
answer_of (some v) = found v

-- What a map answers: -ENOENT for a file that does not exist, and for a get without a text.
module _ ⦃env : Env⦄ (files : Bytes → Option Stat) where
  abbrev pub map_named : Option Stat → Op → Contents → Answer × Contents
  map_named none op m = (returned (negsuc 1), m)
  map_named (some st) (put path kind value) m =
      (returned (pos 0), update (entry_key st kind) (some value) m)
  map_named (some st) (get path kind) m = (answer_of (m (entry_key st kind)), m)
  map_named (some st) (del path kind) m = (returned (pos 0), update (entry_key st kind) none m)

  abbrev pub path_of : Op → Bytes
  path_of (put path kind value) = path
  path_of (get path kind) = path
  path_of (del path kind) = path

  unfoldable pub map_op : Op → Contents → Answer × Contents
  map_op op m = map_named (files (path_of op)) op m

  unfoldable pub map_run : List Op → Contents → List Answer × Contents
  unfolding map_op
  map_run [] m = ([], m)
  map_run (op ∷ ops) m = let (a, m') = map_op op m in let (l, m'') = map_run ops m' in (a ∷ l, m'')

-- A text that the cache can give back.
abbrev pub IsFitting : Bytes → Type 0
IsFitting v = (length v < 510) × IsText v

-- Only such texts are put.
abbrev pub IsFit : List Op → Type 0
IsFit [] = Unit
IsFit (put path kind value ∷ ops) = IsFitting value × IsFit ops
IsFit (get path kind ∷ ops) = IsFit ops
IsFit (del path kind ∷ ops) = IsFit ops
