-- ===== src/CompilerProperties/Forked.antt =====
-- The branches of `get_gcc_triplet` and of `get_march_native` in the forked child.
use pdistcc.Base.{ℤ, pos, negsuc, ℕ, List, [], ◌∷◌, ◌++◌, none, some, Bytes, ascii}
use pdistcc.System.World.{Env, M, Ptr, pure, ◌>>=◌, ◌>>◌, get_errno, enomem}
use pdistcc.System.Files.{read_only, open_path, close}
use pdistcc.System.Memory.{asprintf, strdup}
use pdistcc.System.Processes.{ChildEnd, child_exits, errno_or, dup2, execv}

module _ ⦃env : Env⦄ where
  -- The standard input from /dev/null, if that can be opened.
  unfoldable pub null_input : ℤ → M (Unit {0})
  null_input (negsuc n) = pure tt
  null_input (pos n) = do dup2 (pos n) 0; close (pos n); pure tt

  -- After the `dup2` of the pipe's end for writing.
  unfoldable pub child_redirected : ℕ → Bytes → List Bytes → ℤ → M ChildEnd
  unfolding execv
  child_redirected write_fd compiler args (negsuc n) = do
    e ← get_errno
    pure (child_exits (errno_or 125 e))
  child_redirected write_fd compiler args (pos n) = do close (pos write_fd); execv compiler args

  -- From `close(pipefd[0])` on.
  unfoldable pub child_exec : ℕ → ℕ → Bytes → List Bytes → M ChildEnd
  unfolding null_input child_redirected
  child_exec read_fd write_fd compiler args = do
    close (pos read_fd)
    nullfd ← open_path (ascii "/dev/null") read_only
    null_input nullfd
    out ← dup2 (pos write_fd) 1
    child_redirected write_fd compiler args out

  -- `get_gcc_triplet` in the child, after `strdup`.
  unfoldable pub triplet_child_named : ℕ → ℕ → Bytes → Ptr → M ChildEnd
  unfolding child_exec
  triplet_child_named read_fd write_fd compiler none = pure (child_exits enomem)
  triplet_child_named read_fd write_fd compiler (some name) =
      child_exec read_fd write_fd compiler (name.text ∷ ascii "-dumpmachine" ∷ [])

  -- `get_gcc_triplet` in the child.
  unfoldable pub triplet_child : ℕ → ℕ → Bytes → M ChildEnd
  unfolding triplet_child_named
  triplet_child read_fd write_fd compiler = do
    name ← strdup compiler
    triplet_child_named read_fd write_fd compiler name

  -- `get_march_native` in the child, after `asprintf`.
  unfoldable pub march_child_option : ℕ → ℕ → Bytes → Bytes → Ptr → M ChildEnd
  unfolding child_exec
  march_child_option read_fd write_fd compiler name none = pure (child_exits enomem)
  march_child_option read_fd write_fd compiler name (some option) =
      child_exec read_fd write_fd compiler
        (name ∷ option.text ∷ ascii "-Q" ∷ ascii "--help=target" ∷ [])

  -- After `strdup`.
  unfoldable pub march_child_named : ℕ → ℕ → Bytes → Bytes → Ptr → M ChildEnd
  unfolding march_child_option
  march_child_named read_fd write_fd compiler opt none = pure (child_exits enomem)
  march_child_named read_fd write_fd compiler opt (some name) = do
    option ← asprintf (ascii "-" ++ (opt ++ ascii "=native"))
    march_child_option read_fd write_fd compiler name.text option

  -- `get_march_native` in the child.
  unfoldable pub march_child : ℕ → ℕ → Bytes → Bytes → M ChildEnd
  unfolding march_child_named
  march_child read_fd write_fd compiler opt = do
    name ← strdup compiler
    march_child_named read_fd write_fd compiler opt name
