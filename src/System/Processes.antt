-- ===== src/System/Processes.antt =====
-- A child process whose output is read through a pipe: pipe(2), fork(2), fdopen(3), getline(3),
-- fclose(3) and waitpid(2), as the parent sees them.
use pdistcc.Base.{
  ℕ, suc, ℤ, pos, negsuc, Bool, true, false, [], ◌∷◌, Option, none, some, Bytes, ◌==◌,
  if◌then◌else◌, zero, ◌+◌, List,
}
use pdistcc.System.World.{unlocked, Ptr, Env, M, call, ebadf}
use pdistcc.System.Files.{close, lookup_fd, remove_fd, failing}
use pdistcc.System.Memory.{new_block}

-- How a child ended: WIFEXITED with its WEXITSTATUS, WIFSIGNALED with its WTERMSIG, or neither.
pub data Status : Type 0 where
  exited : ℕ → Status
  signaled : ℕ → Status
  other : Status

-- What a child writes to its standard output until it ends, and how it ends.
pub record Child : Type 0 where
  pub output : Bytes
  pub status : Status

-- A `FILE *` that reads a child's output: what has not been read yet, and its indicators.
pub record Stream : Type 0 where
  pub fd : ℕ
  pub rest : Bytes
  pub eof : Bool
  pub error : Bool

-- A line with its newline, what follows it, and whether the end was met before a newline.
unfoldable pub cut_line : Bytes → Bytes × Bytes × Bool
cut_line [] = ([], [], true)
cut_line (x ∷ l) =
    let (line, rest, at_end) = cut_line l in
    if x == 10 then (x ∷ [], l, false) else (x ∷ line, rest, at_end)

-- The buffer of `getline`: the one given, or a new one, with a text.
abbrev pub line_buffer : Ptr → Bytes → M Ptr
line_buffer none text w = new_block text w
line_buffer (some s) text w = (some (record s { text = text }), w)

-- What `getline` finds: no line at the end, and else one.
abbrev pub next_line : Ptr → Stream → Bytes → M (Bool × Ptr × Stream)
next_line p s [] w = let (q, w') = line_buffer p [] w in ((false, q, record s { eof = true }), w')
next_line p s (x ∷ l) w =
    let (line, rest, at_end) = cut_line (x ∷ l) in
    let (q, w') = line_buffer p line w in ((true, q, record s { rest = rest; eof = at_end }), w')

module _ ⦃env : Env⦄ where
  -- `pipe(pipefd)`: the end for reading, and the one for writing
  unfoldable pub pipe : M (Option (ℕ × ℕ))
  pipe = call none λ w. (
    some (w.next_fd, suc w.next_fd),
    record w {
      fds =
          (suc w.next_fd, record { path = []; offset = 0; lock = unlocked })
          ∷ (w.next_fd, record { path = []; offset = 0; lock = unlocked })
          ∷ w.fds;
      next_fd = suc (suc w.next_fd);
    },
  )

  -- `fork()` in the parent
  unfoldable pub fork : M ℤ
  fork = call (negsuc 0) (λ w. (pos 1, w))

  -- `fdopen(fd, "r")` of the pipe that a child writes to
  unfoldable pub fdopen : Child → ℕ → M (Option Stream)
  fdopen child fd =
      call none λ w. (some (record { fd = fd; rest = child.output; eof = false; error = false }), w)

  -- `getline(&line, &size, stream)`: whether there is a line, and `line` after it
  unfoldable pub getline : Ptr → Stream → M (Bool × Ptr × Stream)
  unfolding cut_line
  getline p s = call (false, p, record s { error = true }) (next_line p s s.rest)

  -- `fclose(stream)`
  unfoldable pub fclose : Stream → M (Unit {0})
  fclose s w = (tt, (close (pos s.fd) w).1)

  -- `waitpid(pid, &wstatus, 0)`
  unfoldable pub waitpid : Child → M (Option Status)
  waitpid child = call none (λ w. (some child.status, w))

  -- `dup2(old, new)`: `new` becomes a copy of `old`.
  unfoldable pub dup2 : ℤ → ℕ → M ℤ
  unfolding lookup_fd remove_fd
  dup2 (negsuc n) new w = failing ebadf w
  dup2 (pos old) new w = elim (lookup_fd old w.fds) [
    | none ↦ failing ebadf w
    | some h ↦
        call (negsuc 0)
          (λ w'. (
            pos new,
            if old == new then w' else record w' { fds = (new, h) ∷ remove_fd new w'.fds },
          ))
          w
  ]

-- How the branch of a forked child ends: it has become another program, with the descriptors that
-- are open then, or it exits.
pub data ChildEnd : Type 0 where
  executes : Bytes → List Bytes → ChildEnd
  child_exits : ℕ → ChildEnd

-- `errno ? errno : code`
abbrev pub errno_or : ℕ → ℕ → ℕ
errno_or code zero = code
errno_or code (suc e) = suc e

-- `execv(path, args)`, and the exit with 126 or the errno behind it
unfoldable pub execv : ⦃env : Env⦄ → Bytes → List Bytes → M ChildEnd
execv ⦃env⦄ path args w = elim (env.fault w.tick) [
  | none ↦ (executes path args, record w { tick = w.tick + 1 })
  | some e ↦ (child_exits (errno_or 126 (suc e)), record w { tick = w.tick + 1; errno = suc e })
]
