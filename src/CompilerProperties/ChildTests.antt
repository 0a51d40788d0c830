-- ===== src/CompilerProperties/ChildTests.antt =====
-- Runs of the forked children, and the theorems about them at concrete inputs.
use pdistcc.Base.{[], ◌∷◌, ◌≡◌, some, refl, path_eq, bytes_eq, ascii, length}
use pdistcc.System.World.{call, World, Handle, unlocked, regular}
use pdistcc.System.Files.{open_path, close}
use pdistcc.System.Memory.{strdup, asprintf}
use pdistcc.System.Examples.{quiet, flaky, at_boot}
use pdistcc.System.Processes.{pipe, executes, child_exits, dup2, execv}
use pdistcc.CompilerProperties.Forked.{triplet_child, march_child}
use pdistcc.CompilerProperties.Executed.{march_args}

-- A pipe is open, with the numbers 3 and 4, and there is a /dev/null.
abbrev pipe_end : Handle
pipe_end = record { path = []; offset = 0; lock = unlocked }

abbrev with_pipe : World
with_pipe = record at_boot {
  node = λ p. some (regular []);
  fds = (4, pipe_end) ∷ (3, pipe_end) ∷ [];
  next_fd = 5;
}

with_pipe_made : (pipe ⦃env = quiet⦄ at_boot).1.fds ≡ with_pipe.fds
unfolding pipe call
with_pipe_made = refl

-- The compiler has two descriptors, its standard input and its standard output.
two_descriptors :
    let (e, w) = march_child ⦃env = quiet⦄ 3 4 (ascii "gcc") (ascii "march") with_pipe in
    (e ≡ executes (ascii "gcc") (march_args (ascii "gcc") (ascii "march"))) × (length w.fds ≡ 2)
unfolding march_child strdup asprintf call dup2 open_path close path_eq bytes_eq execv
two_descriptors = (refl, refl)

-- The call number 5 is the `dup2` of the pipe.
no_output : (triplet_child ⦃env = flaky⦄ 3 4 (ascii "gcc") with_pipe).0 ≡ child_exits 28
unfolding triplet_child strdup call dup2 open_path close path_eq bytes_eq
no_output = refl
