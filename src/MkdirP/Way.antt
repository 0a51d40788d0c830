-- ===== src/MkdirP/Way.antt =====
-- A path with its components, and the directories that it leads through.
use pdistcc.Base.{
  ◌≤◌, ◌<◌, false, List, [], ◌∷◌, ◌++◌, Option, none, some, Bytes, FilePath, path_eq, length, ◌≡◌,
  ◌≢◌, refl, ◌∙◌, sym, arith,
}
use pdistcc.System.World.{Node, directory, regular}
use pdistcc.System.Files.{walk}
use pdistcc.System.Keeps.{IsOutside}
use pdistcc.MkdirP.Ops.{strchr_slash}

-- The directories on the way from `p` down.
abbrev pub prefixes : FilePath → List Bytes → List FilePath
prefixes p [] = []
prefixes p (c ∷ cs) = (c ∷ p) ∷ prefixes (c ∷ p) cs

-- The last of them.
abbrev pub extend : FilePath → List Bytes → FilePath
extend p [] = p
extend p (c ∷ cs) = extend (c ∷ p) cs

abbrev pub AllDirectories : (FilePath → Option Node) → List FilePath → Type 0
AllDirectories node [] = Unit
AllDirectories node (p ∷ ps) = (node p ≡ some directory) × AllDirectories node ps

-- No file is in the way.
abbrev pub NoFiles : (FilePath → Option Node) → List FilePath → Type 0
NoFiles node [] = Unit
NoFiles node (p ∷ ps) = ((b : Bytes) → node p ≢ some (regular b)) × NoFiles node ps

-- No slash.
abbrev pub IsComponent : Bytes → Type 0
IsComponent [] = Unit
IsComponent (x ∷ l) = (x ≢ b'/') × IsComponent l

-- A component that is a name of its own.
pub record IsPlain (c : Bytes) : Type 0 where
  pub slashless : IsComponent c
  pub own_name : (p : FilePath) → walk p c ≡ some (c ∷ p)

abbrev pub ArePlain : List Bytes → Type 0
ArePlain [] = Unit
ArePlain (c ∷ cs) = IsPlain c × ArePlain cs

-- The components with slashes between them.
abbrev pub join : Bytes → List Bytes → Bytes
join c [] = c
join c (d ∷ cs) = c ++ b'/' ∷ join d cs

pub strchr_slash-none : (c : Bytes) → IsComponent c → strchr_slash c ≡ (c, none)
unfolding strchr_slash
strchr_slash-none [] h = refl
strchr_slash-none (x ∷ c) h = ground (arith, strchr_slash-none c h.1)

pub strchr_slash-some : (c r : Bytes) → IsComponent c → strchr_slash (c ++ b'/' ∷ r) ≡ (c, some r)
unfolding strchr_slash
strchr_slash-some [] r h = refl
strchr_slash-some (x ∷ c) r h = ground (arith, strchr_slash-some c r h.1)

pub path_eq-length : (p q : FilePath) → length p ≢ length q → path_eq p q ≡ false
unfolding path_eq
path_eq-length [] [] h = absurd (h refl)
path_eq-length [] (y ∷ q) h = refl
path_eq-length (x ∷ p) [] h = refl
path_eq-length (x ∷ p) (y ∷ q) h = ground (arith, path_eq-length p q)

-- A path that is not longer than `p` is outside.
pub IsOutside-prefixes :
    (p q : FilePath) (cs : List Bytes) → length q ≤ length p → IsOutside q (prefixes p cs)
IsOutside-prefixes p q [] h = tt
IsOutside-prefixes p q (c ∷ cs) h =
    (path_eq-length (c ∷ p) q (ground arith), IsOutside-prefixes (c ∷ p) q cs (omega arith))

pub NoFiles-prefixes :
    (node node' : FilePath → Option Node) (p : FilePath) (cs : List Bytes)
    → ((q : FilePath) → length p < length q → node' q ≡ node q)
    → NoFiles node (prefixes p cs)
    → NoFiles node' (prefixes p cs)
NoFiles-prefixes node node' p [] e h = tt
NoFiles-prefixes node node' p (c ∷ cs) e h = (
  λ b f. h.0 b (sym (e (c ∷ p) (omega arith)) ∙ f),
  NoFiles-prefixes node node' (c ∷ p) cs (λ q l. e q (omega (arith, l))) h.1,
)
