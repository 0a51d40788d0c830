-- ===== src/System/Files.antt =====
-- Descriptors and the file tree: the calls of open(2), openat(2), read(2), write(2), close(2),
-- flock(2), fsync(2), unlinkat(2), mkdirat(2) and stat(2).
use pdistcc.Base.{
  ℕ, suc, ◌+◌, ℤ, pos, negsuc, List, [], ◌∷◌, ◌++◌, Option, none, some, Bytes, FilePath, bytes_eq,
  path_eq, ◌==◌, if◌then◌else◌, length, take, drop, min,
}
use pdistcc.System.World.{
  ebadf, eexist, enoent, enotdir, eisdir, World, Handle, Lock, unlocked, Node, directory, regular,
  Stat, Env, M, call,
}

-- A call that returns -1, with its errno.
abbrev pub failing : ℕ → M ℤ
failing e w = (negsuc 0, record w { errno = e })

unfoldable pub lookup_fd : ℕ → List (ℕ × Handle) → Option Handle
lookup_fd n [] = none
lookup_fd n ((m, h) ∷ l) = if m == n then some h else lookup_fd n l

unfoldable pub remove_fd : ℕ → List (ℕ × Handle) → List (ℕ × Handle)
remove_fd n [] = []
remove_fd n ((m, h) ∷ l) = if m == n then l else (m, h) ∷ remove_fd n l

unfoldable pub set_fd : ℕ → Handle → List (ℕ × Handle) → List (ℕ × Handle)
set_fd n k [] = []
set_fd n k ((m, h) ∷ l) = if m == n then (m, k) ∷ l else (m, h) ∷ set_fd n k l

unfoldable pub put_node : FilePath → Option Node → (FilePath → Option Node) → FilePath → Option Node
put_node p v f q = if path_eq p q then v else f q

-- AT_FDCWD
abbrev pub at_fdcwd : ℤ
at_fdcwd = negsuc 99

-- The directory that a descriptor stands for.
unfoldable pub base_of : ⦃env : Env⦄ → ℤ → World → Option FilePath
unfolding lookup_fd
base_of (pos n) w = elim (lookup_fd n w.fds) [ none ↦ none | some h ↦ some h.path ]
base_of ⦃env⦄ (negsuc n) w = if n == 99 then some env.cwd else none

abbrev parent : FilePath → FilePath
parent [] = []
parent (c ∷ p) = p

-- One component below a directory: "." and ".." are looked up as the kernel does, and the empty
-- name is no name.
unfoldable pub walk : FilePath → Bytes → Option FilePath
unfolding bytes_eq
walk p [] = none
walk p (c ∷ s) =
    if bytes_eq (c ∷ s) (b'.' ∷ [])
    then some p
    else if bytes_eq (c ∷ s) (b'.' ∷ b'.' ∷ [])
    then some (parent p)
    else some ((c ∷ s) ∷ p)

pub data OpenMode : Type 0 where
  -- O_RDONLY, and O_RDONLY | O_NOFOLLOW: the tree has no symbolic links
  read_only : OpenMode
  -- O_WRONLY | O_TRUNC | O_CREAT
  write_truncate_create : OpenMode
  -- O_PATH | O_DIRECTORY
  path_directory : OpenMode

-- A new descriptor for `p`.
abbrev pub new_fd : FilePath → M ℤ
new_fd p w = (
  pos w.next_fd,
  record w {
    fds = (w.next_fd, record { path = p; offset = 0; lock = unlocked }) ∷ w.fds;
    next_fd = suc w.next_fd;
  },
)

abbrev pub open_node : FilePath → OpenMode → Option Node → M ℤ
open_node p read_only none = failing enoent
open_node p read_only (some n) = new_fd p
open_node p write_truncate_create (some directory) = failing eisdir
open_node p write_truncate_create none =
    λ w. new_fd p (record w { node = put_node p (some (regular [])) w.node })
open_node p write_truncate_create (some (regular b)) =
    λ w. new_fd p (record w { node = put_node p (some (regular [])) w.node })
open_node p path_directory none = failing enoent
open_node p path_directory (some (regular b)) = failing enotdir
open_node p path_directory (some directory) = new_fd p

abbrev pub at_path : Option FilePath → (FilePath → M ℤ) → M ℤ
at_path none k = failing enoent
at_path (some p) k = k p

abbrev pub at_base : Option FilePath → (FilePath → M ℤ) → M ℤ
at_base none k = failing ebadf
at_base (some p) k = k p

module _ ⦃env : Env⦄ where
  -- `openat(dirfd, name, flags, 0666)`, for a name of one component
  unfoldable pub openat : ℤ → Bytes → OpenMode → M ℤ
  openat dirfd name mode = call (negsuc 0) λ w.
      at_base (base_of dirfd w)
        (λ b. at_path (walk b name) (λ p w'. open_node p mode (w'.node p) w')) w

  -- `open(path, flags)`
  unfoldable pub open_path : Bytes → OpenMode → M ℤ
  open_path name mode =
      call (negsuc 0) λ w. open_node (env.resolve name) mode (w.node (env.resolve name)) w

  -- `mkdirat(dirfd, name, mode)`
  unfoldable pub mkdirat : ℤ → Bytes → M ℤ
  mkdirat dirfd name = call (negsuc 0) λ w.
      at_base (base_of dirfd w)
        (λ b. at_path (walk b name) (λ p w'. elim (w'.node p) [
          | some n ↦ failing eexist w'
          | none ↦ (pos 0, record w' { node = put_node p (some directory) w'.node })
        ]))
        w

  -- `unlinkat(dirfd, name, 0)`
  unfoldable pub unlinkat : ℤ → Bytes → M ℤ
  unlinkat dirfd name = call (negsuc 0) λ w.
      at_base (base_of dirfd w)
        (λ b. at_path (walk b name) (λ p w'. elim (w'.node p) [
          | none ↦ failing enoent w'
          | some directory ↦ failing eisdir w'
          | some (regular c) ↦ (pos 0, record w' { node = put_node p none w'.node })
        ]))
        w

  -- `close(fd)`: the descriptor is gone also when the call reports an error.
  unfoldable pub close : ℤ → M ℤ
  close (negsuc n) w = failing ebadf w
  close (pos n) w = elim (lookup_fd n w.fds) [
    | none ↦ failing ebadf (record w { misuse = w.misuse + 1 })
    | some h ↦ call (negsuc 0) (λ w'. (pos 0, w')) (record w { fds = remove_fd n w.fds })
  ]

  -- `flock(fd, op)`: it returns when the lock is granted.
  unfoldable pub flock : ℤ → Lock → M ℤ
  flock (negsuc n) l w = failing ebadf w
  flock (pos n) l w = elim (lookup_fd n w.fds) [
    | none ↦ failing ebadf w
    | some h ↦
        call (negsuc 0) (λ w'. (pos 0, record w' { fds = set_fd n (record h { lock = l }) w'.fds }))
          w
  ]

  -- `fsync(fd)`
  unfoldable pub fsync : ℤ → M ℤ
  fsync fd = call (negsuc 0) (λ w. (pos 0, w))

abbrev pub content : Option Node → Bytes
content (some (regular b)) = b
content _ = []

pub data Transfer : Type 0 where
  failed : Transfer
  got : Bytes → Transfer

module _ ⦃env : Env⦄ where
  -- `read(fd, buf, len)`: the bytes that it stores. It stops at the end of the file, and may stop
  -- before.
  unfoldable pub read : ℤ → ℕ → M Transfer
  read (negsuc n) len w = (failed, record w { errno = ebadf })
  read (pos n) len w = elim (lookup_fd n w.fds) [
    | none ↦ (failed, record w { errno = ebadf })
    | some h ↦
        let b = take (min len (suc (env.chunk w.tick))) (drop h.offset (content (w.node h.path))) in
        call failed
          (λ w'. (
            got b,
            record w' { fds = set_fd n (record h { offset = h.offset + length b }) w'.fds },
          ))
          w
  ]

  -- `write(fd, buf, len)`: how many bytes it takes, one at least unless `buf` is empty.
  unfoldable pub write : ℤ → Bytes → M ℤ
  write (negsuc n) buf w = failing ebadf w
  write (pos n) buf w = elim (lookup_fd n w.fds) [
    | none ↦ failing ebadf w
    | some h ↦
        let b = take (min (length buf) (suc (env.chunk w.tick))) buf in
        let old = content (w.node h.path) in
        let new = take h.offset old ++ (b ++ drop (h.offset + length b) old) in
        call (negsuc 0)
          (λ w'. (
            pos (length b),
            record w' {
              node = put_node h.path (some (regular new)) w'.node;
              fds = set_fd n (record h { offset = h.offset + length b }) w'.fds;
            },
          ))
          w
  ]

  -- `stat(path, &st)`; `none` is the -1.
  unfoldable pub stat : Bytes → M (Option Stat)
  stat path =
      call none λ w. elim (w.stats path) [
        | none ↦ (none, record w { errno = enoent })
        | some s ↦ (some s, w)
      ]
