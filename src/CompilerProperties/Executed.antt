-- ===== src/CompilerProperties/Executed.antt =====
-- The forked children of `get_gcc_triplet` and of `get_march_native` become the compiler.
use pdistcc.Base.{ℕ, List, [], ◌∷◌, ◌++◌, ◌≢◌, Bytes, ascii}
use pdistcc.System.World.{World, Handle, Env, IsQuiet}
use pdistcc.System.Processes.{ChildEnd, executes, child_exits}
use pdistcc.CompilerProperties.Redirect.{Arranged}

abbrev pub triplet_args : Bytes → List Bytes
triplet_args compiler = compiler ∷ ascii "-dumpmachine" ∷ []

abbrev pub march_args : Bytes → Bytes → List Bytes
march_args compiler opt =
    compiler ∷ (ascii "-" ++ (opt ++ ascii "=native")) ∷ ascii "-Q" ∷ ascii "--help=target" ∷ []

module _ ⦃env : Env⦄ (r x : ℕ) (out : Handle) where
  -- The child has become the compiler with these arguments, which writes to the pipe and has no
  -- other descriptor of it, or it exits with an error behind a call that failed.
  abbrev pub Redirected : Bytes → List Bytes → List (ℕ × Handle) → ChildEnd × World → Type 0
  Redirected compiler args before (child_exits code, w') = (code ≢ 0) × (¬ IsQuiet env)
  Redirected compiler args before (executes path l, w') =
      Arranged r x out compiler args before (executes path l, w')
