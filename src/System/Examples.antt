-- ===== src/System/Examples.antt =====
-- Two environments and a world for runs on concrete inputs.
use pdistcc.Base.{none, some, [], ◌∷◌, replicate, bytes_eq, path_eq, ascii, if◌then◌else◌, ◌==◌}
use pdistcc.System.World.{World, Env, directory, regular}

-- No call fails; each read and write transfers 7 bytes at most.
abbrev pub quiet : Env
quiet = record {
  fault = λ t. none;
  chunk = λ t. 6;
  md5 = λ b. replicate 16 7;
  resolve = λ b. if bytes_eq b (b'/' ∷ []) then [] else b ∷ [];
  cwd = [];
  stack = replicate 600 b'x';
  before = 1;
}

-- The call number 5 fails.
abbrev pub flaky : Env
flaky = record quiet { fault = λ t. if t == 5 then some 27 else none }

-- The root directory with a directory `srv` and a file `log` in it; nothing is open.
abbrev pub at_boot : World
at_boot = record {
  node = λ p.
      if path_eq p []
      then some directory
      else if path_eq p (ascii "srv" ∷ [])
      then some directory
      else if path_eq p (ascii "log" ∷ [])
      then some (regular [])
      else none;
  stats = λ p. none;
  fds = [];
  next_fd = 3;
  blocks = [];
  next_block = 1;
  errno = 0;
  tick = 0;
  misuse = 0;
}
