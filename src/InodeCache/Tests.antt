-- ===== src/InodeCache/Tests.antt =====
-- Runs of the cache on a small file tree, and the theorems about it at concrete inputs.
use pdistcc.Base.{
  negsuc, replicate, ◌+◌, ◌^◌, ◌≤◌, pos, refl, [], ◌∷◌, none, some, ascii, path_eq, bytes_eq,
  if◌then◌else◌, ◌≡◌, arith,
}
use pdistcc.System.World.{World, Handle, Stat, directory, unlocked}
use pdistcc.System.Files.{lookup_fd}
use pdistcc.Md5.{hex_digit, hex_bytes, md5_digest}
use pdistcc.InodeCache.Key.{entry_key}
use pdistcc.InodeCache.Lock.{lock_name}
use pdistcc.System.Examples.{quiet, flaky}
use pdistcc.System.Resources.{numbers}
use pdistcc.System.Holding.{IsOrdered}
use pdistcc.InodeCache.Ops.{InodeCache, inode_cache_get, inode_cache_put, inode_cache_del}
use pdistcc.InodeCache.Balance.Put.{inode_cache_put-balanced}
use pdistcc.InodeCache.Balance.Del.{inode_cache_del-balanced}
use pdistcc.InodeCache.Key.{ino_hash_of, pack}
use pdistcc.InodeCache.Injective.{Same, entry_key-injective}
use pdistcc.InodeCache.RoundTrip.Put.{IsReady, IsFree, IsPut, open_cache, inode_cache_put-IsPut}
use pdistcc.InodeCache.RoundTrip.Get.{
  IsHad, inode_cache_get-inode_cache_put, inode_cache_get-inode_cache_put_long,
}
use pdistcc.InodeCache.Balance.Get.{IsDelivered, inode_cache_get-balanced}

abbrev pub gcc_stat : Stat
gcc_stat = record { dev = 1; ino = 77; size = 5000; mtime_sec = pos 1600000000; mtime_nsec = 5000 }

-- The cache directory is open as descriptor 3.
abbrev pub at_start : World
at_start = record {
  node = λ p. if path_eq p (ascii "cache" ∷ []) then some directory else none;
  stats = λ p. if bytes_eq p (ascii "gcc") then some gcc_stat else none;
  fds = (3, record { path = ascii "cache" ∷ []; offset = 0; lock = unlocked }) ∷ [];
  next_fd = 4;
  blocks = [];
  next_block = 1;
  errno = 0;
  tick = 0;
  misuse = 0;
}

abbrev pub cache : InodeCache
cache = record { dir = some (ascii "cache"); dirfd = pos 3 }

pub at_start-IsOrdered : IsOrdered at_start
at_start-IsOrdered = omega arith

inode_cache_put-balanced_example :
    let w' =
      (inode_cache_put ⦃env = flaky⦄
        (some cache)
        (some (ascii "gcc"))
        1
        (some (ascii "v"))
        at_start).1 in
    (numbers w'.fds ≡ 3 ∷ []) × (w'.blocks ≡ []) × IsOrdered w' × (w'.misuse ≤ 1)
inode_cache_put-balanced_example =
    inode_cache_put-balanced ⦃env = flaky⦄ (some cache) (some (ascii "gcc")) 1 (some (ascii "v"))
      at_start at_start-IsOrdered

inode_cache_del-balanced_example :
    let w' = (inode_cache_del ⦃env = flaky⦄ cache (ascii "gcc") 1 at_start).1 in
    (numbers w'.fds ≡ 3 ∷ []) × (w'.blocks ≡ []) × IsOrdered w' × (w'.misuse ≡ 0)
inode_cache_del-balanced_example =
    inode_cache_del-balanced ⦃env = flaky⦄ cache (ascii "gcc") 1 at_start at_start-IsOrdered

inode_cache_get-balanced_example :
    let ((err, result), w') =
      inode_cache_get ⦃env = flaky⦄ cache (ascii "gcc") 1 (some none) at_start in
    (numbers w'.fds ≡ 3 ∷ []) × IsDelivered none at_start result w' × IsOrdered w'
inode_cache_get-balanced_example =
    inode_cache_get-balanced ⦃env = flaky⦄ cache (ascii "gcc") 1 none at_start at_start-IsOrdered

abbrev pub cache_handle : Handle
cache_handle = record { path = ascii "cache" ∷ []; offset = 0; lock = unlocked }

pub at_start-IsReady : IsReady 3 cache_handle (ascii "gcc") gcc_stat at_start
unfolding lookup_fd bytes_eq
at_start-IsReady = record { dir_open = refl; old_fd = omega arith; file_stat = refl }

pub at_start-IsFree : IsFree ⦃env = quiet⦄ cache_handle gcc_stat 1 at_start
unfolding path_eq bytes_eq entry_key md5_digest hex_bytes hex_digit lock_name
at_start-IsFree = record { entry_free = ground arith; lock_free = ground arith }

inode_cache_put-IsPut_example :
    IsPut ⦃env = quiet⦄ 4 cache_handle gcc_stat 1 (ascii "x86_64-linux-gnu") at_start (
      inode_cache_put ⦃env = quiet⦄
        (some (open_cache none 3))
        (some (ascii "gcc"))
        1
        (some (ascii "x86_64-linux-gnu"))
        at_start)
inode_cache_put-IsPut_example =
    inode_cache_put-IsPut ⦃env = quiet⦄ (λ t. refl) (λ x. refl) none 3 cache_handle (ascii "gcc")
      gcc_stat 1 (ascii "x86_64-linux-gnu") at_start at_start-IsReady at_start-IsFree (omega arith)

inode_cache_get-inode_cache_put_example :
    let (err, w') =
      inode_cache_put ⦃env = quiet⦄
        (some (open_cache none 3))
        (some (ascii "gcc"))
        1
        (some (ascii "x86_64-linux-gnu"))
        at_start in
    (err ≡ pos 0)
    × IsHad
        (ascii "x86_64-linux-gnu")
        (inode_cache_get ⦃env = quiet⦄ (open_cache none 3) (ascii "gcc") 1 (some none) w')
inode_cache_get-inode_cache_put_example =
    inode_cache_get-inode_cache_put ⦃env = quiet⦄ (λ t. refl) (λ x. refl) none 3 cache_handle
      (ascii "gcc") gcc_stat 1 none (ascii "x86_64-linux-gnu") at_start at_start-IsReady
      at_start-IsFree (omega arith) (ground arith)

-- The same inode on a device whose number has a bit that the structure does not hold.
abbrev far_stat : Stat
far_stat = record gcc_stat { dev = 1 + 2 ^ 32 }

far_stat-entry_key : entry_key ⦃env = quiet⦄ gcc_stat 1 ≡ entry_key ⦃env = quiet⦄ far_stat 1
unfolding entry_key ino_hash_of
far_stat-entry_key = refl

far_stat-pack : pack (ino_hash_of gcc_stat 1) ≡ pack (ino_hash_of far_stat 1)
unfolding pack ino_hash_of
far_stat-pack = refl

entry_key-injective_example : Same (ino_hash_of gcc_stat 1) (ino_hash_of far_stat 1)
entry_key-injective_example =
    entry_key-injective ⦃env = quiet⦄ gcc_stat far_stat 1 1 (omega arith) (omega arith)
      (ground arith) (ground arith) (λ e. far_stat-pack) far_stat-entry_key

inode_cache_get-inode_cache_put_long_example :
    let (err, w') =
      inode_cache_put ⦃env = quiet⦄
        (some (open_cache none 3))
        (some (ascii "gcc"))
        1
        (some (replicate 510 b'v'))
        at_start in
    (err ≡ pos 0)
    × ((inode_cache_get ⦃env = quiet⦄ (open_cache none 3) (ascii "gcc") 1 (some none) w').0.0
        ≡ negsuc 0)
inode_cache_get-inode_cache_put_long_example =
    inode_cache_get-inode_cache_put_long ⦃env = quiet⦄ (λ t. refl) (λ x. refl) none 3 cache_handle
      (ascii "gcc") gcc_stat 1 none (replicate 510 b'v') at_start at_start-IsReady at_start-IsFree
      (omega arith) (omega arith)
