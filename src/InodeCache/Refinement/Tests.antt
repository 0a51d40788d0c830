-- ===== src/InodeCache/Refinement/Tests.antt =====
-- The refinement on a directory without entries.
use pdistcc.Base.{none, [], ◌∷◌, ◌≡◌, refl, ascii, path_eq, arith, inl, List}
use pdistcc.System.Files.{lookup_fd}
use pdistcc.System.Examples.{quiet}
use pdistcc.InodeCache.Lock.{lock_name}
use pdistcc.InodeCache.Tests.{at_start, cache_handle}
use pdistcc.InodeCache.RoundTrip.Names.{bytes_eq-length_ne, length-lock_name}
use pdistcc.InodeCache.RoundTrip.Put.{open_cache}
use pdistcc.InodeCache.Client.{Op, put, get, del, run, map_run, Contents, IsFit}
use pdistcc.InodeCache.Refinement.{Represents}
use pdistcc.InodeCache.Refinement.Run.{run-map_run}

abbrev no_texts : Contents
no_texts = λ k. none

at_start-Represents : Represents at_start.stats 3 cache_handle no_texts at_start
unfolding lookup_fd path_eq
at_start-Represents = record {
  dir_open = refl;
  old_fd = omega arith;
  inodes = refl;
  entries = λ k h. rw (bytes_eq-length_ne k (ascii "cache") (omega (arith, h))) refl;
  locks = λ k h. inl (
      rw (bytes_eq-length_ne (lock_name k) (ascii "cache") (omega (arith, h, length-lock_name k)))
        refl);
  fits = λ k v e. absurd (ground (arith, e));
}

-- A put, and gets before and after a del; `cc` is no file.
abbrev some_calls : List Op
some_calls =
    get (ascii "gcc") 1
    ∷ put (ascii "gcc") 1 (ascii "x86_64-linux-gnu")
    ∷ get (ascii "gcc") 1
    ∷ get (ascii "cc") 1
    ∷ del (ascii "gcc") 1
    ∷ get (ascii "gcc") 1
    ∷ []

some_calls-IsFit : IsFit some_calls
some_calls-IsFit = ((omega arith, ground arith), tt)

run-map_run_example :
    let (answers, w') = run ⦃env = quiet⦄ (open_cache none 3) some_calls at_start in
    (answers ≡ (map_run ⦃env = quiet⦄ at_start.stats some_calls no_texts).0)
    × Represents at_start.stats 3 cache_handle
        (map_run ⦃env = quiet⦄ at_start.stats some_calls no_texts).1
        w'
run-map_run_example =
    run-map_run ⦃env = quiet⦄ (λ t. refl) (λ x. refl) at_start.stats none 3 cache_handle some_calls
      no_texts at_start some_calls-IsFit at_start-Represents
