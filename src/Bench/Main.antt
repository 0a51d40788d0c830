-- ===== src/Bench/Main.antt =====
-- c/bench_inodecache.c: `main`. What getopt(3) finds, atoi(3), sysconf(3), getenv(3), and the
-- behaviour of the processes that are started, are parameters.
use pdistcc.Base.{
  ℕ, zero, suc, ℤ, pos, negsuc, is_zero, true, false, List, [], ◌∷◌, ◌++◌, Option, none, some,
  Bytes, ascii,
}
use pdistcc.System.World.{Env, M, Ptr, pure, ◌>>=◌, ◌>>◌, text_of}
use pdistcc.System.Memory.{asprintf, strdup, free}
use pdistcc.System.Processes.{Child, Status}
use pdistcc.MkdirP.Ops.{mkdir_p, close_fd}
use pdistcc.CompilerProperties.Triplet.{get_gcc_triplet}
use pdistcc.Bench.Stats.{Floats}
use pdistcc.Bench.Run.{run_bench}

-- What a call of getopt(3) gives, with the argument of an option that has one.
pub data Opt : Type 0 where
  opt_n opt_j opt_c : Bytes → Opt
  opt_h opt_unknown : Opt

-- The variables that the options set; `cachedir` is NULL without an option.
pub record Options : Type 0 where
  pub repetitions : ℤ
  pub nproc : ℤ
  pub cachedir : Ptr

-- The program has ended by exit(3), or goes on.
pub data Parsed : Type 0 where
  exits : ℕ → Parsed
  goes : Options → Parsed

-- DEFAULT_NPROC and DEFAULT_REPETITIONS
abbrev pub default_nproc : ℕ
default_nproc = 10

abbrev pub default_repetitions : ℕ
default_repetitions = 500

-- `repetitions > 0 ? repetitions : DEFAULT_REPETITIONS`
unfoldable pub repetitions_of : ℤ → ℕ
repetitions_of (pos (suc n)) = suc n
repetitions_of (pos zero) = default_repetitions
repetitions_of (negsuc n) = default_repetitions

-- `if (nproc <= 0) nproc = DEFAULT_NPROC`
abbrev pub at_least_one : ℤ → ℕ
at_least_one (pos (suc n)) = suc n
at_least_one (pos zero) = default_nproc
at_least_one (negsuc n) = default_nproc

-- The number of processes; `online` is what sysconf(_SC_NPROCESSORS_ONLN) gives.
unfoldable pub nproc_of : ℤ → ℤ → ℕ
nproc_of online (pos (suc n)) = suc n
nproc_of online (pos zero) = at_least_one online
nproc_of online (negsuc n) = default_nproc

-- `err < 0 ? -err : err`
unfoldable pub exit_code : ℤ → ℕ
exit_code (pos n) = n
exit_code (negsuc n) = suc n

-- `if (run_bench(...)) err = EXIT_FAILURE;`
abbrev pub ret_code : ℕ → ℤ
ret_code zero = pos 0
ret_code (suc n) = pos 1

module _ ⦃env : Env⦄ where
  -- `main` from the label `out` on.
  unfoldable pub main_out : ℤ → ℤ → Ptr → Ptr → M ℕ
  unfolding exit_code
  main_out err cachedirfd cachedir triplet = do
    close_fd cachedirfd
    free cachedir
    free triplet
    pure (exit_code err)

  module _ (atoi : Bytes → ℤ) where
    -- After `strdup(optarg)`; `rest` goes on with the loop.
    unfoldable pub parse_copied : (Options → M Parsed) → Options → Ptr → M Parsed
    parse_copied rest o none = pure (exits 1)
    parse_copied rest o (some s) = rest (record o { cachedir = some s })

    -- The loop over the options.
    unfoldable pub parse_options : List Opt → Options → M Parsed
    unfolding parse_copied
    parse_options [] o = pure (goes o)
    parse_options (opt_n arg ∷ l) o = parse_options l (record o { repetitions = atoi arg })
    parse_options (opt_j arg ∷ l) o = parse_options l (record o { nproc = atoi arg })
    parse_options (opt_c arg ∷ l) o = do
      cachedir ← strdup arg
      parse_copied (parse_options l) o cachedir
    parse_options (opt_h ∷ l) o = pure (exits 0)
    parse_options (opt_unknown ∷ l) o = pure (exits 1)

module _ ⦃floats : Floats⦄ ⦃env : Env⦄ (child : Child) (ends : ℕ → Status) (compiler : Bytes)
    (nproc : ℕ) where
  -- After `get_gcc_triplet`.
  unfoldable pub main_triplet : ℤ → Ptr → ℤ × Option Ptr → M ℕ
  unfolding main_out run_bench
  main_triplet cachedirfd cachedir (err, none) = main_out err cachedirfd cachedir none
  main_triplet cachedirfd cachedir (err, some triplet) = elim (is_zero err) [
    | false ↦ main_out err cachedirfd cachedir triplet
    | true ↦ do
      free cachedir
      (ret, left, gone) ← run_bench ends nproc compiler (text_of triplet) cachedirfd
      main_out (ret_code ret) cachedirfd none triplet
  ]

  -- After `mkdir_p`: `err` is `-cachedirfd` if that is negative.
  unfoldable pub main_opened : ℤ → Ptr → M ℕ
  unfolding main_triplet
  main_opened (negsuc n) cachedir = main_out (pos (suc n)) (negsuc n) cachedir none
  main_opened (pos n) cachedir = do
    r ← get_gcc_triplet child compiler (some none)
    main_triplet (pos n) cachedir r

  -- With the name of the directory; `none` is a failure of `asprintf`.
  unfoldable pub main_named : Ptr → M ℕ
  unfolding main_opened
  main_named none = pure 1
  main_named (some cachedir) = do
    (cachedirfd, path) ← mkdir_p cachedir.text
    main_opened cachedirfd (some cachedir)

  module _ (home : Option Bytes) where
    -- The directory's name without the option `-c`; `home` is the variable HOME.
    unfoldable pub main_cachedir : Ptr → M ℕ
    unfolding main_named
    main_cachedir (some cachedir) = main_named (some cachedir)
    main_cachedir none = elim home [
      | none ↦ pure 1
      | some h ↦ do cachedir ← asprintf (h ++ ascii "/.cache"); main_named cachedir
    ]

module _ ⦃floats : Floats⦄ ⦃env : Env⦄ (atoi : Bytes → ℤ) (online : ℤ) (home : Option Bytes)
    (child : Child) (ends : ℕ → ℕ → Status) where
  -- After the options; `arguments` is what follows them, and `ends` says how each child ends after
  -- so many repetitions.
  unfoldable pub main_parsed : List Bytes → Parsed → M ℕ
  unfolding main_cachedir nproc_of repetitions_of
  main_parsed arguments (exits code) = pure code
  main_parsed [] (goes o) = pure 1
  main_parsed (compiler ∷ more) (goes o) =
      main_cachedir child (ends (repetitions_of o.repetitions)) compiler (nproc_of online o.nproc)
        home o.cachedir

  -- `main`: its exit code
  unfoldable pub main : List Opt → List Bytes → M ℕ
  unfolding main_parsed parse_options
  main options arguments = do
    parsed ←
        parse_options atoi options (record { repetitions = pos 0; nproc = pos 0; cachedir = none })
    main_parsed arguments parsed
