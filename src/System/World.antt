-- ===== src/System/World.antt =====
-- What the C code sees of the operating system and of the C library's heap: the state that a call
-- reads and changes, the environment that decides what the state leaves open, and the monad.
use pdistcc.Base.{
  ◌≡◌, refl, Bool, true, false, ℕ, suc, ◌+◌, ℤ, List, [], Option, none, some, Bytes, FilePath,
}

-- The error numbers that the sources name, and those that the calls report.
abbrev pub enoent : ℕ
enoent = 2

abbrev pub ebadf : ℕ
ebadf = 9

abbrev pub enomem : ℕ
enomem = 12

abbrev pub eexist : ℕ
eexist = 17

abbrev pub enotdir : ℕ
enotdir = 20

abbrev pub eisdir : ℕ
eisdir = 21

abbrev pub einval : ℕ
einval = 22

abbrev pub e2big : ℕ
e2big = 7

-- A directory, or a file with its content.
pub data Node : Type 0 where
  directory : Node
  regular : Bytes → Node

pub data Lock : Type 0 where
  unlocked shared exclusive : Lock

-- An open file description.
pub record Handle : Type 0 where
  pub path : FilePath
  pub offset : ℕ
  pub lock : Lock

-- The fields of `struct stat` that are read.
pub record Stat : Type 0 where
  pub dev : ℕ
  pub ino : ℕ
  pub size : ℕ
  pub mtime_sec : ℤ
  pub mtime_nsec : ℕ

-- Descriptors and heap blocks are numbered in the order in which they are made, and no number is
-- given twice: so a second close or free of one is seen, and counted in `misuse`.
pub record World : Type 0 where
  pub node : FilePath → Option Node
  pub stats : Bytes → Option Stat
  pub fds : List (ℕ × Handle)
  pub next_fd : ℕ
  pub blocks : List ℕ
  pub next_block : ℕ
  pub errno : ℕ
  pub tick : ℕ
  pub misuse : ℕ

-- `fault t` is an error that the call number `t` fails with (`some e` is the errno `e + 1`);
-- `chunk t` bounds how many bytes it transfers. `md5` is the digest that the functions of libmd
-- compute, `resolve` the lookup of a whole path, `cwd` the working directory. `stack` is what an array
-- on the stack holds before it is written, with what stands behind it, and `before` the byte in front.
pub record Env : Type 0 where
  pub fault : ℕ → Option ℕ
  pub chunk : ℕ → ℕ
  pub md5 : Bytes → Bytes
  pub resolve : Bytes → FilePath
  pub cwd : FilePath
  pub stack : Bytes
  pub before : ℕ

abbrev pub M : Type 0 → Type 0
M A = World → A × World

abbrev pub pure : {A : Type 0} → A → M A
pure a w = (a, w)

infixl 5 ◌>>=◌ ◌>>◌
abbrev pub ◌>>=◌ : {A B : Type 0} → M A → (A → M B) → M B
◌>>=◌ m f w = let (a, w') = m w in f a w'

abbrev pub ◌>>◌ : {A B : Type 0} → M A → M B → M B
m >> k = m >>= λ _. k

abbrev pub get_errno : M ℕ
get_errno w = (w.errno, w)

-- A value that a C caller holds by pointer, and the block that it lies in.
pub record Str : Type 0 where
  pub block : ℕ
  pub text : Bytes

-- A `char *`; `none` is NULL.
abbrev pub Ptr : Type 0
Ptr = Option Str

abbrev pub text_of : Ptr → Bytes
text_of none = []
text_of (some s) = s.text

-- One call of the operating system: it fails as the environment says, or is carried out.
unfoldable pub call : {A : Type 0} ⦃env : Env⦄ → A → M A → M A
call ⦃env⦄ bad act w = elim (env.fault w.tick) [
  | none ↦ act (record w { tick = w.tick + 1 })
  | some e ↦ (bad, record w { tick = w.tick + 1; errno = suc e })
]

-- An access outside an array, or to what was never written.
unfoldable pub note_misuse : Bool → M (Unit {0})
note_misuse true w = (tt, record w { misuse = w.misuse + 1 })
note_misuse false w = (tt, w)

-- What holds of a call whether it fails or is carried out.
pub call_rule {ℓ} :
    {A : Type 0} ⦃env : Env⦄
    → (P : A → World → Type ℓ) (bad : A) (act : M A) (w : World)
    → ((e : ℕ) → P bad (record w { tick = w.tick + 1; errno = suc e }))
    → (let r = act (record w { tick = w.tick + 1 }) in P r.0 r.1)
    → P (call bad act w).0 (call bad act w).1
unfolding call
call_rule {A} ⦃env⦄ P bad act w fails done = split (env.fault w.tick)
  where
    split :
        (o : Option ℕ)
        → let r : A × World = elim o [
          | none ↦ act (record w { tick = w.tick + 1 })
          | some e ↦ (bad, record w { tick = w.tick + 1; errno = suc e })
        ] in
          P r.0 r.1
    split none = done
    split (some e) = fails e

-- A call that does not fail is carried out.
pub call_done :
    {A : Type 0} ⦃env : Env⦄
    → (bad : A) (act : M A) (w : World) → env.fault w.tick ≡ none
    → call bad act w ≡ act (record w { tick = w.tick + 1 })
unfolding call
call_done bad act w e = rw (e, call) refl

-- Nothing fails.
abbrev pub IsQuiet : Env → Type 0
IsQuiet env = (t : ℕ) → env.fault t ≡ none
