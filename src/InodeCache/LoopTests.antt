-- ===== src/InodeCache/LoopTests.antt =====
-- The theorems about the loops of the cache and about its reads at concrete inputs.
use pdistcc.Base.{pos, none, some, ◌≡◌, ascii, arith}
use pdistcc.System.Examples.{quiet, flaky}
use pdistcc.System.Keeps.{Keeps}
use pdistcc.InodeCache.Tests.{at_start, cache}
use pdistcc.InodeCache.Entry.{reading, read_loop, write_loop, read_entry}
use pdistcc.InodeCache.Ops.{inode_cache_get}
use pdistcc.InodeCache.Termination.{read_loop-fuel, write_loop-fuel}
use pdistcc.InodeCache.Bounds.{SameBeyond, read_entry-SameBeyond}
use pdistcc.InodeCache.ReadOnly.{inode_cache_get-Keeps}
use pdistcc.System.World.{World, regular}

-- The descriptor 3 is on a file.
abbrev on_file : World
on_file = record at_start { node = λ p. some (regular (ascii "abcdefghij")) }

read_loop-fuel_example :
    read_loop ⦃env = flaky⦄ 9 (pos 3) (reading (ascii "12345678") 7) on_file
    ≡ read_loop ⦃env = flaky⦄ 8 (pos 3) (reading (ascii "12345678") 7) on_file
read_loop-fuel_example =
    read_loop-fuel ⦃env = flaky⦄ (pos 3) 9 8 (reading (ascii "12345678") 7) on_file (omega arith)
      (omega arith)

write_loop-fuel_example :
    write_loop ⦃env = quiet⦄ 20 (pos 3) (ascii "x86_64") on_file
    ≡ write_loop ⦃env = quiet⦄ 7 (pos 3) (ascii "x86_64") on_file
write_loop-fuel_example =
    write_loop-fuel ⦃env = quiet⦄ (pos 3) 20 7 (ascii "x86_64") on_file (omega arith) (omega arith)

read_entry-SameBeyond_example :
    SameBeyond 4
      (read_entry ⦃env = quiet⦄ (pos 3) (ascii "12345678") 4 on_file).0.1
      (ascii "12345678")
read_entry-SameBeyond_example =
    read_entry-SameBeyond ⦃env = quiet⦄ (pos 3) (ascii "12345678") 4 on_file (omega arith)

inode_cache_get-Keeps_example :
    Keeps 4 at_start (inode_cache_get ⦃env = flaky⦄ cache (ascii "gcc") 1 (some none) at_start).1
inode_cache_get-Keeps_example =
    inode_cache_get-Keeps ⦃env = flaky⦄ cache (ascii "gcc") 1 (some none) at_start
