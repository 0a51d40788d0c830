-- ===== src/MkdirP/Tests.antt =====
-- Runs of `mkdir_p`, and the theorems about it at concrete inputs.
use pdistcc.Base.{[], ◌∷◌, ◌≡◌, refl, ascii, arith, some, bytes_eq, path_eq, pos}
use pdistcc.System.Resources.{numbers}
use pdistcc.System.Holding.{IsOrdered, own_fd}
use pdistcc.System.Examples.{flaky, at_boot}
use pdistcc.MkdirP.Ops.{mkdir_p, mkdir_loop}
use pdistcc.System.World.{directory}
use pdistcc.System.Files.{walk}
use pdistcc.MkdirP.Way.{prefixes, NoFiles, IsPlain}
use pdistcc.MkdirP.Created.{IsCreated, mkdir_p-IsCreated, mkdir_p-IsCreated_root}
use pdistcc.System.Examples.{quiet}
use pdistcc.MkdirP.Restored.{mkdir_p-path}
use pdistcc.MkdirP.Balance.{mkdir_p-balanced}
use pdistcc.MkdirP.Termination.{mkdir_loop-fuel}

mkdir_p-path_example : (mkdir_p ⦃env = flaky⦄ (ascii "/srv/a/b/c") at_boot).0.1 ≡ ascii "/srv/a/b/c"
mkdir_p-path_example = mkdir_p-path ⦃env = flaky⦄ (ascii "/srv/a/b/c") at_boot

at_boot-IsOrdered : IsOrdered at_boot
at_boot-IsOrdered = omega arith

mkdir_p-balanced_example :
    let ((fd, text), w') = mkdir_p ⦃env = flaky⦄ (ascii "/srv/a/b/c") at_boot in
    (numbers w'.fds ≡ own_fd fd []) × (w'.blocks ≡ []) × IsOrdered w' × (w'.misuse ≡ 0)
mkdir_p-balanced_example =
    mkdir_p-balanced ⦃env = flaky⦄ (ascii "/srv/a/b/c") at_boot at_boot-IsOrdered

srv-IsPlain : IsPlain (ascii "srv")
unfolding walk bytes_eq
srv-IsPlain = record { slashless = ground arith; own_name = λ p. refl }

cache-IsPlain : IsPlain (ascii "cache")
unfolding walk bytes_eq
cache-IsPlain = record { slashless = ground arith; own_name = λ p. refl }

at_boot-NoFiles : NoFiles at_boot.node (prefixes [] (ascii "srv" ∷ ascii "cache" ∷ []))
unfolding path_eq bytes_eq
at_boot-NoFiles = (λ b. ground arith, (λ b. ground arith, tt))

mkdir_p-IsCreated_example :
    IsCreated ⦃env = quiet⦄ []
      (ascii "srv" ∷ ascii "cache" ∷ [])
      at_boot
      (mkdir_p ⦃env = quiet⦄ (ascii "srv/cache") at_boot)
mkdir_p-IsCreated_example =
    mkdir_p-IsCreated ⦃env = quiet⦄ (λ t. refl) (ascii "srv") (ascii "cache" ∷ []) at_boot
      (srv-IsPlain, (cache-IsPlain, tt)) at_boot-NoFiles

root_there : at_boot.node [] ≡ some directory
unfolding path_eq
root_there = refl

root_found : (quiet.resolve) (b'/' ∷ []) ≡ []
unfolding bytes_eq
root_found = refl

mkdir_p-IsCreated_root_example :
    IsCreated ⦃env = quiet⦄ []
      (ascii "srv" ∷ ascii "cache" ∷ [])
      at_boot
      (mkdir_p ⦃env = quiet⦄ (ascii "/srv/cache") at_boot)
mkdir_p-IsCreated_root_example =
    mkdir_p-IsCreated_root ⦃env = quiet⦄ (λ t. refl) (ascii "srv") (ascii "cache" ∷ []) at_boot
      root_found root_there (srv-IsPlain, (cache-IsPlain, tt)) at_boot-NoFiles

mkdir_loop-fuel_example :
    mkdir_loop ⦃env = flaky⦄ 9 (pos 5) [] (ascii "a/b") at_boot
    ≡ mkdir_loop ⦃env = flaky⦄ 4 (pos 5) [] (ascii "a/b") at_boot
mkdir_loop-fuel_example =
    mkdir_loop-fuel ⦃env = flaky⦄ 9 4 (pos 5) [] (ascii "a/b") at_boot (omega arith) (omega arith)
