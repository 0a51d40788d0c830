-- ===== src/CompilerProperties/Tests.antt =====
-- Runs of the readers of a compiler's output, and the theorems about them at concrete inputs.
use pdistcc.Base.{
  [], ◌∷◌, ◌++◌, ◌≡◌, ◌≤◌, refl, ascii, is_zero, none, some, length, arith, Bytes, List, ℕ, false,
  pos, c_string,
}
use pdistcc.System.Resources.{numbers}
use pdistcc.System.Holding.{IsOrdered}
use pdistcc.System.Processes.{Child, exited, Stream}
use pdistcc.System.Examples.{flaky, at_boot}
use pdistcc.CompilerProperties.Whitespace.{
  skip_whitespace, without_space, skip_whitespace-without_space,
}
use pdistcc.CompilerProperties.Triplet.{get_gcc_triplet}
use pdistcc.CompilerProperties.Balance.Parts.{left_over}
use pdistcc.CompilerProperties.March.{option_value, get_march_native, march_loop}
use pdistcc.CompilerProperties.Answer.{Answers, get_gcc_triplet-first_line}
use pdistcc.System.Examples.{quiet}
use pdistcc.CompilerProperties.Match.{line_value, option_value-line_value}
use pdistcc.CompilerProperties.FirstMatch.{first_value, Finds}
use pdistcc.CompilerProperties.MarchAnswer.{get_march_native-first_value}
use pdistcc.CompilerProperties.Balance.March.{get_march_native-balanced}
use pdistcc.CompilerProperties.Balance.Triplet.{get_gcc_triplet-balanced}
use pdistcc.CompilerProperties.Termination.{march_loop-fuel}

skip_whitespace-without_space_example :
    (more : Bytes) × (skip_whitespace (ascii " -march= x86" ++ 0 ∷ 9 ∷ []) ≡ (
      without_space (ascii " -march= x86") ++ 0 ∷ more,
      length (without_space (ascii " -march= x86")),
    ))
skip_whitespace-without_space_example =
    skip_whitespace-without_space (ascii " -march= x86") (9 ∷ []) (ground arith)

abbrev gcc : Child
gcc = record { output = ascii "x86_64-linux-gnu" ++ 10 ∷ []; status = exited 0 }

at_boot-IsOrdered : IsOrdered at_boot
at_boot-IsOrdered = omega arith

get_gcc_triplet-balanced_example :
    let ((err, value), w') = get_gcc_triplet ⦃env = flaky⦄ gcc (ascii "gcc") (some none) at_boot in
    (leak : List ℕ) × (length leak ≤ 1)
    × (numbers w'.fds ≡ leak ++ [])
    × (w'.blocks ≡ left_over (is_zero err) value ++ [])
    × IsOrdered w'
    × (w'.misuse ≡ 0)
get_gcc_triplet-balanced_example =
    get_gcc_triplet-balanced ⦃env = flaky⦄ gcc (ascii "gcc") none [] at_boot at_boot-IsOrdered refl

-- The compiler prints the options that it takes for the processor.
abbrev native_gcc : Child
native_gcc = record {
  output = ascii "options:" ++ 10 ∷ (ascii "  -march=  haswell" ++ 10 ∷ []);
  status = exited 0;
}

get_march_native-balanced_example :
    let ((err, value), w') =
      get_march_native ⦃env = flaky⦄ native_gcc (ascii "gcc") (ascii "march") (some none) at_boot in
    (leak : List ℕ) × (length leak ≤ 1)
    × (numbers w'.fds ≡ leak ++ [])
    × (w'.blocks ≡ left_over (is_zero err) value ++ [])
    × IsOrdered w'
    × (w'.misuse ≡ 0)
get_march_native-balanced_example =
    get_march_native-balanced ⦃env = flaky⦄ native_gcc (ascii "gcc") (ascii "march") none [] at_boot
      at_boot-IsOrdered refl

option_value-line_value_example :
    option_value (ascii "march") (ascii "-march=haswell" ++ 0 ∷ 10 ∷ []) 14
    ≡ line_value (ascii "march") (ascii "-march=haswell")
option_value-line_value_example =
    option_value-line_value (ascii "march") (ascii "-march=haswell") (10 ∷ []) (ground arith)
      (ground arith)

get_gcc_triplet-first_line_example :
    Answers
      (c_string (ascii "x86_64-linux-gnu"))
      (get_gcc_triplet ⦃env = quiet⦄ gcc (ascii "gcc") (some none) at_boot)
get_gcc_triplet-first_line_example =
    get_gcc_triplet-first_line ⦃env = quiet⦄ (λ t. refl) gcc (ascii "x86_64-linux-gnu") []
      (ground arith) refl (ascii "gcc") none at_boot refl

abbrev two_lines : Stream
two_lines = record {
  fd = 3;
  rest = ascii "a" ++ 10 ∷ ascii "-march=x" ++ 10 ∷ [];
  eof = false;
  error = false;
}

march_loop-fuel_example :
    march_loop ⦃env = flaky⦄ gcc 3 none (ascii "march") 40 none two_lines at_boot
    ≡ march_loop ⦃env = flaky⦄ gcc 3 none (ascii "march") 12 none two_lines at_boot
march_loop-fuel_example =
    march_loop-fuel ⦃env = flaky⦄ gcc 3 none (ascii "march") 40 12 none two_lines at_boot
      (omega arith) (omega arith)

abbrev gcc_lines : List Bytes
gcc_lines = ascii "options:" ∷ ascii "  -march=  haswell" ∷ []

get_march_native-first_value_example :
    Finds 0
      (first_value (ascii "march") gcc_lines)
      (get_march_native ⦃env = quiet⦄ native_gcc (ascii "gcc") (ascii "march") (some none) at_boot)
get_march_native-first_value_example =
    get_march_native-first_value ⦃env = quiet⦄ (λ t. refl) native_gcc refl (ascii "march") gcc_lines
      (ground arith) (ground arith) refl (ascii "gcc") none at_boot

haswell_first : first_value (ascii "march") gcc_lines ≡ some (ascii "haswell")
unfolding first_value line_value without_space
haswell_first = refl

-- A success without a value.
no_line_zero :
    (get_march_native ⦃env = quiet⦄ native_gcc (ascii "gcc") (ascii "mcpu") (some none) at_boot).0
    ≡ (pos 0, some none)
unfolding first_value line_value without_space
no_line_zero =
    get_march_native-first_value ⦃env = quiet⦄ (λ t. refl) native_gcc refl (ascii "mcpu") gcc_lines
      (ground arith) (ground arith) refl (ascii "gcc") none at_boot
