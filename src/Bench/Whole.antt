-- ===== src/Bench/Whole.antt =====
-- What `main` of c/bench_inodecache.c leaves open.
use pdistcc.Base.{
  ℕ, suc, ◌≤◌, ℤ, pos, negsuc, is_zero, List, [], ◌∷◌, ◌++◌, Option, none, some, Bytes, ascii,
  length, ◌≡◌, refl, ◌∙◌, ap, subst, inl, inr, Bool-cases, arith,
}
use native.Mathlib.Nat.{le_refl}
use pdistcc.System.World.{World, Env, Ptr, text_of, M}
use pdistcc.System.Files.{close}
use pdistcc.System.Memory.{has_block, remove_block, asprintf, strdup, free}
use pdistcc.System.Processes.{Child, Status}
use pdistcc.System.Resources.{
  numbers, resources, Allocated, free-freed, asprintf-Allocated, strdup-Allocated,
}
use pdistcc.System.Holding.{IsOrdered, IsFalling, IsFalling-mono, IsFalling-has_block, own_fd}
use pdistcc.MkdirP.Ops.{mkdir_p}
use pdistcc.MkdirP.Balance.{mkdir_p-balanced}
use pdistcc.CompilerProperties.Triplet.{get_gcc_triplet}
use pdistcc.CompilerProperties.Balance.Triplet.{get_gcc_triplet-balanced}
use pdistcc.Bench.Stats.{Floats}
use pdistcc.Bench.Run.{run_bench}
use pdistcc.Bench.Steps.{without, close-without}
use pdistcc.Bench.Clean.{run_bench-IsClean}
use pdistcc.Bench.Main.{
  Opt, opt_n, opt_j, opt_c, opt_h, opt_unknown, Options, Parsed, exits, goes, ret_code, main_out,
  parse_copied, parse_options, main_triplet, main_opened, main_named, main_cachedir, main_parsed,
  main,
}

-- One descriptor more at most than `F`.
abbrev pub Leaks : List ℕ → World → Type 0
Leaks F w = (leak : List ℕ) × (length leak ≤ 1) × (numbers w.fds ≡ leak ++ F)

IsFalling-remove_block : (n k : ℕ) (l : List ℕ) → IsFalling k l → IsFalling k (remove_block n l)
unfolding remove_block
IsFalling-remove_block n k [] f = tt
IsFalling-remove_block n k (m ∷ l) f =
    ground
      (arith, IsFalling-remove_block n m l f.1, IsFalling-mono {a = m} {b = k} l (omega arith) f.1)

free-fds :
    (p : Ptr) (w : World)
    → IsOrdered w
    → let w' = (free p w).1 in (numbers w'.fds ≡ numbers w.fds) × IsOrdered w'
unfolding resources
free-fds none w o = ground (arith, free-freed none w)
free-fds (some s) w o =
    ground (arith, free-freed (some s) w, IsFalling-remove_block s.block w.next_block w.blocks o.1)

Allocated-fds :
    (p : Ptr) (w w' : World)
    → Allocated (resources w) p w'
    → IsOrdered w
    → (numbers w'.fds ≡ numbers w.fds) × IsOrdered w'
unfolding resources
Allocated-fds none w w' e o = ground arith
Allocated-fds (some s) w w' e o = ground arith

-- The descriptor of the cache's directory, under what has leaked since, is closed, and once more.
without_once :
    (k n : ℕ) (leak F : List ℕ)
    → length leak ≤ 1
    → IsFalling k (leak ++ n ∷ F)
    → without (pos n) (leak ++ n ∷ F) ≡ leak ++ F
unfolding has_block remove_block
without_once k n [] F h f = ground arith
without_once k n (x ∷ []) F h f = ground arith
without_once k n (x ∷ y ∷ l) F h f = absurd (omega arith)

without_twice :
    (k n : ℕ) (leak F : List ℕ)
    → length leak ≤ 1
    → IsFalling k (leak ++ n ∷ F)
    → without (pos n) (leak ++ F) ≡ leak ++ F
unfolding has_block remove_block
without_twice k n [] F h f = ground (arith, IsFalling-has_block n n F f.1 (le_refl n))
without_twice k n (x ∷ []) F h f = ground (arith, IsFalling-has_block n n F f.1.1 (le_refl n))
without_twice k n (x ∷ y ∷ l) F h f = absurd (omega arith)

free-numbers : (p : Ptr) (w : World) → numbers (free p w).1.fds ≡ numbers w.fds
unfolding resources
free-numbers none w = ground (arith, free-freed none w)
free-numbers (some s) w = ground (arith, free-freed (some s) w)

module _ ⦃env : Env⦄ where
  main_out-without :
      (err cachedirfd : ℤ) (cachedir triplet : Ptr) (w : World)
      → numbers (main_out err cachedirfd cachedir triplet w).1.fds
        ≡ without cachedirfd (numbers w.fds)
  unfolding main_out
  main_out-without err (negsuc n) cachedir triplet w =
      free-numbers triplet (free cachedir w).1 ∙ free-numbers cachedir w
  main_out-without err (pos n) cachedir triplet w =
      let v = (close (pos n) w).1 in
      free-numbers triplet (free cachedir v).1
      ∙ free-numbers cachedir v
      ∙ (close-without (pos n) w).0

  parse_copied-fds :
      (atoi : Bytes → ℤ) (rest : Options → M Parsed) (o : Options) (p : Ptr) (w : World)
      → IsOrdered w
      → ((o : Options) (w : World)
          → IsOrdered w
          → (numbers (rest o w).1.fds ≡ numbers w.fds) × IsOrdered (rest o w).1)
      → let w' = (parse_copied atoi rest o p w).1 in (numbers w'.fds ≡ numbers w.fds) × IsOrdered w'
  unfolding parse_copied
  parse_copied-fds atoi rest o none w h again = (refl, h)
  parse_copied-fds atoi rest o (some s) w h again = again _ w h

  -- Nothing but a block is new after the options.
  parse_options-fds :
      (atoi : Bytes → ℤ) (l : List Opt) (o : Options) (w : World)
      → IsOrdered w
      → let w' = (parse_options atoi l o w).1 in (numbers w'.fds ≡ numbers w.fds) × IsOrdered w'
  unfolding parse_options
  parse_options-fds atoi [] o w h = (refl, h)
  parse_options-fds atoi (opt_n arg ∷ l) o w h = parse_options-fds atoi l _ w h
  parse_options-fds atoi (opt_j arg ∷ l) o w h = parse_options-fds atoi l _ w h
  parse_options-fds atoi (opt_h ∷ l) o w h = (refl, h)
  parse_options-fds atoi (opt_unknown ∷ l) o w h = (refl, h)
  parse_options-fds atoi (opt_c arg ∷ l) o w h =
      let (p, w') = strdup arg w in
      let (e, h') = Allocated-fds p w w' (strdup-Allocated arg w) h in
      let (f, i) =
        parse_copied-fds atoi (parse_options atoi l) o p w' h'
          λ o' v. parse_options-fds atoi l o' v in
      (f ∙ e, i)

module _ ⦃floats : Floats⦄ ⦃env : Env⦄ (child : Child) (ends : ℕ → Status) (compiler : Bytes)
    (nproc : ℕ) where
  main_triplet-Leaks :
      (n : ℕ) (cachedir : Ptr) (r : ℤ × Option Ptr) (leak F : List ℕ) (w : World)
      → length leak ≤ 1
      → numbers w.fds ≡ leak ++ n ∷ F
      → IsOrdered w
      → Leaks F (main_triplet child ends compiler nproc (pos n) cachedir r w).1
  unfolding main_triplet
  main_triplet-Leaks n cachedir (err, none) leak F w h e o =
      let falling = subst (IsFalling w.next_fd) e o.0 in
      (
        leak,
        h,
        main_out-without err (pos n) cachedir none w
            ∙ ap (without (pos n)) e
            ∙ without_once w.next_fd n leak F h falling,
      )
  main_triplet-Leaks n cachedir (err, some triplet) leak F w h e o =
      let falling = subst (IsFalling w.next_fd) e o.0 in
      elim (Bool-cases (is_zero err)) [
        | inr i ↦ (
          leak,
          h,
          rw (i, main_triplet)
              (main_out-without err (pos n) cachedir triplet w
                ∙ ap (without (pos n)) e
                ∙ without_once w.next_fd n leak F h falling),
        )
        | inl i ↦
            let (f, o') = free-fds cachedir w o in
            let v = (free cachedir w).1 in
            let ((ret, left, gone), v') =
              run_bench ends nproc compiler (text_of triplet) (pos n) v in
            let clean = run_bench-IsClean ends nproc compiler (text_of triplet) (pos n) v o' in
            (
              leak,
              h,
              rw (i, main_triplet)
                  (main_out-without (ret_code ret) (pos n) none triplet v'
                    ∙ ap (without (pos n)) (
                        clean.open_fds
                        ∙ ap (without (pos n)) (f ∙ e)
                        ∙ without_once w.next_fd n leak F h falling)
                    ∙ without_twice w.next_fd n leak F h falling),
            )
      ]

  main_opened-Leaks :
      (fd : ℤ) (cachedir : Ptr) (F : List ℕ) (w : World)
      → numbers w.fds ≡ own_fd fd F
      → IsOrdered w
      → Leaks F (main_opened child ends compiler nproc fd cachedir w).1
  unfolding main_opened
  main_opened-Leaks (negsuc n) cachedir F w e o =
      ([], omega arith, main_out-without (pos (suc n)) (negsuc n) cachedir none w ∙ e)
  main_opened-Leaks (pos n) cachedir F w e o =
      let (r, v) = get_gcc_triplet child compiler (some none) w in
      let (leak, h, f, blocks, o', misuse) =
        get_gcc_triplet-balanced child compiler none w.blocks w o refl in
      main_triplet-Leaks n cachedir r leak F v h (f ∙ ap (λ l. leak ++ l) e) o'

  main_named-Leaks :
      (cachedir : Ptr) (w : World)
      → IsOrdered w
      → Leaks (numbers w.fds) (main_named child ends compiler nproc cachedir w).1
  unfolding main_named
  main_named-Leaks none w o = ([], omega arith, refl)
  main_named-Leaks (some s) w o =
      let ((fd, path), v) = mkdir_p s.text w in
      let (e, blocks, o', misuse) = mkdir_p-balanced s.text w o in
      main_opened-Leaks fd (some s) (numbers w.fds) v e o'

  main_cachedir-Leaks :
      (home : Option Bytes) (cachedir : Ptr) (w : World)
      → IsOrdered w
      → Leaks (numbers w.fds) (main_cachedir child ends compiler nproc home cachedir w).1
  unfolding main_cachedir
  main_cachedir-Leaks home (some s) w o = main_named-Leaks (some s) w o
  main_cachedir-Leaks none none w o = ([], omega arith, refl)
  main_cachedir-Leaks (some h) none w o =
      let text = h ++ ascii "/.cache" in
      let (p, v) = asprintf text w in
      let (e, o') = Allocated-fds p w v (asprintf-Allocated text w) o in
      subst (λ F. Leaks F (main_named child ends compiler nproc p v).1) e (main_named-Leaks p v o')

module _ ⦃floats : Floats⦄ ⦃env : Env⦄ (atoi : Bytes → ℤ) (online : ℤ) (home : Option Bytes)
    (child : Child) (ends : ℕ → ℕ → Status) where
  main_parsed-Leaks :
      (arguments : List Bytes) (parsed : Parsed) (w : World)
      → IsOrdered w
      → Leaks (numbers w.fds) (main_parsed atoi online home child ends arguments parsed w).1
  unfolding main_parsed
  main_parsed-Leaks arguments (exits code) w o = ([], omega arith, refl)
  main_parsed-Leaks [] (goes o') w o = ([], omega arith, refl)
  main_parsed-Leaks (compiler ∷ more) (goes o') w o =
      main_cachedir-Leaks child _ compiler _ home o'.cachedir w o

  -- Whatever its options and arguments are, whichever calls fail, and however the compiler and the
  -- children behave, `main` ends with the descriptors open that were so before, and with one more at
  -- most.
  pub main-Leaks :
      (options : List Opt) (arguments : List Bytes) (w : World)
      → IsOrdered w
      → Leaks (numbers w.fds) (main atoi online home child ends options arguments w).1
  unfolding main
  main-Leaks options arguments w o =
      let start : Options = record { repetitions = pos 0; nproc = pos 0; cachedir = none } in
      let (parsed, v) = parse_options atoi options start w in
      let (e, o') = parse_options-fds atoi options start w o in
      subst (λ F. Leaks F (main_parsed atoi online home child ends arguments parsed v).1) e
        (main_parsed-Leaks arguments parsed v o')
