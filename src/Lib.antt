-- ===== src/Lib.antt =====
-- pdistcc: the C programs of the compile cache (c/), modelled and verified.
--
-- The cache in c/inodecache.c keeps small values, such as a compiler's target triplet, for files.
-- An entry is named by the digest of the file's inode metadata, and is read and written under an
-- advisory lock on a file beside it.
--
-- Base holds what all modules share: Boolean tests, lists and byte strings over the native
-- numbers, and the C int as an integer. System is the part of POSIX and of the C library that the
-- sources call: World is the state (file tree, open descriptors, live heap blocks, errno), Files
-- and Memory the calls, Resources and Holding what the calls do to descriptors and blocks,
-- Descriptors what they do to the table of descriptors, Frames what reads and writes do to files,
-- Keeps what each call leaves alone, Quiet what each call gives when none fails. An environment
-- (Env) decides which call fails and how many bytes a read or write transfers, so a theorem over
-- every environment covers every error path. Descriptors and blocks are numbered afresh each
-- time, so that a second close or free shows; an access outside an array, a close of a descriptor
-- that is not open and a free of a dead block are counted in World.misuse.
--
-- InodeCache is c/inodecache.c: Key is hash_inode, Injective what its name tells apart, Entry is
-- read_entry and write_entry, Lock is inode_cache_lock and inode_cache_unlock, Ops the exported
-- operations. A goto is a call of the function named for its label (get_out, put_out, del_out,
-- lock_out), and the code behind each test is a function of its own, named for what has been done
-- (get_locked, put_synced). Md5 is MD5Digest of c/md5.c; the digest proper is libmd's code and a
-- parameter of the environment.
--
-- Client is any sequence of a client's calls, as the code answers them and as a map from the
-- entries' names to texts does; Refinement says when a directory stands for such a map. RoundTrip
-- has each operation when no call fails, ReadOnly and Balance what holds whichever calls fail,
-- Bounds where read_entry writes. Injective says which files share an entry.
--
-- The loops over read(2) and write(2) run on fuel: one more than the bytes that can be
-- transferred, since each round but the last transfers a byte at least.
--
-- Concurrent has any number of processes that put, get and delete one entry at the same time:
-- Turn cuts the three operations into turns, one call on the entry or its lock file each, and
-- logs what a turn completes; entries do not share files, so one entry is enough. A lock blocks a
-- turn; a process that is killed is not modelled. A get of an empty file copies a buffer to which
-- nothing has been written, and returns 0: it ends as unread_returned. Locks, Serial, Turns,
-- Invariant, Reported and Intended are the invariants, Defined says that no get finds an empty
-- file, Safety what follows.
--
-- MkdirP is c/mkdir_p.c: Ops is mkdir_p, its loop on fuel of one more than the path's length,
-- since a round but the last takes a slash; Way and Descent describe the directories of a path
-- and one round. CompilerProperties is c/compiler_properties.c: Whitespace is skip_whitespace,
-- Triplet is get_gcc_triplet, March is get_march_native, both in the parent of the fork;
-- System.Processes has the calls that read a child's output, and a Child says what the compiler
-- prints and how it ends. The loop over lines runs on fuel of one more than the bytes of the
-- output, since a line has a byte at least. Match describes the lines that are looked for, Answer
-- what get_gcc_triplet gives when nothing fails, FirstMatch and MarchAnswer what get_march_native
-- gives then. Forked is the child of the fork up to its execv, Prepared, Redirect and Executed
-- follow its descriptors; a child has a pipe that HasPipe describes, and a table of descriptors
-- of its own.
--
-- Barrier is c/barrier.c: Wait is barrier_wait, cut into the turns of a thread (one semaphore
-- call or one access to the count each), and the interleavings of many threads; Counts, Invariant
-- and Live are the counting arguments, Init is barrier_init and barrier_close.
--
-- Bench is c/bench_stats.c and c/bench_inodecache.c. Stats has the functions of the former over a
-- parameter for the arithmetic of double, Merge what merging does to count, minimum and maximum.
-- Clock is timespec_delta_usec, Result the memory that the processes share with bench_result_map
-- and bench_result_unmap, Child is bench_inode_cache, Loops and Samples what it measures and
-- merges, Run is run_bench, Main is main. A child runs in a world of its own and sees the shared
-- memory as it is when it holds the lock; run_bench sees of a child how it ends, and Together
-- puts the two sides together. What barrier_wait returns to a child is a parameter there, since
-- Barrier has it; so are the clock, getopt(3), atoi(3), sysconf(3) and HOME. A failure of the
-- munmap or of the sem_destroy that bench_result_unmap calls leaves the memory or the lock; that
-- of the barrier's semaphores, whose results barrier_close does not look at, is taken to succeed.
--
-- The loops on fuel do not depend on how much there is of it, if it is enough: the modules named
-- Termination.
--
-- Not modelled: what the programs print, signal(2), the Python programs, the test drivers,
-- symbolic links and permissions beyond a call's failure, other processes that change the tree
-- between two calls, but for those that Concurrent has.
pub mod Base
pub mod System
pub mod Md5
pub mod InodeCache
pub mod MkdirP
pub mod CompilerProperties
pub mod Barrier
pub mod Bench
