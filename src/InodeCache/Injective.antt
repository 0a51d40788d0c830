-- ===== src/InodeCache/Injective.antt =====
-- The name of an entry tells the fields of the inode apart, unless two digests collide.
use pdistcc.Base.{
  ℕ, zero, suc, ◌+◌, ◌*◌, ◌/◌, ◌%◌, ◌^◌, ◌<◌, [], ◌∷◌, ◌++◌, ◌≡◌, refl, arith, Bytes, length,
  get_elem?, ap, ap₂, if◌then◌else◌, ltb, ◌-◌, sym, ◌∙◌,
}
use pdistcc.System.World.{Stat, Env}
use pdistcc.Md5.{hex_digits, or_zero, hex_digit, hex_bytes, md5_digest}
use pdistcc.InodeCache.Key.{InoHash, le_bytes, pack, ino_hash_of, entry_key}

head_of : Bytes → ℕ
head_of [] = 0
head_of (x ∷ l) = x

tail_of : Bytes → Bytes
tail_of [] = []
tail_of (x ∷ l) = l

append-injective :
    (xs ys xs' ys' : Bytes)
    → length xs ≡ length xs'
    → xs ++ ys ≡ xs' ++ ys'
    → (xs ≡ xs') × (ys ≡ ys')
unfolding head_of tail_of
append-injective [] ys [] ys' l e = (refl, e)
append-injective [] ys (y ∷ xs') ys' l e = absurd (omega arith)
append-injective (x ∷ xs) ys [] ys' l e = absurd (omega arith)
append-injective (x ∷ xs) ys (y ∷ xs') ys' l e =
    let t = append-injective xs ys xs' ys' (omega arith) (ap tail_of e) in
    (ap₂ (λ c r. c ∷ r) (ap head_of e) t.0, t.1)

length-le_bytes : (n x : ℕ) → length (le_bytes n x) ≡ n
length-le_bytes zero x = refl
length-le_bytes (suc n) x = omega (arith, length-le_bytes n (x / 256))

-- 256 to the power of a number of bytes.
abbrev pub span : ℕ → ℕ
span zero = 1
span (suc n) = 256 * span n

le_bytes-injective : (n x y : ℕ) → x < span n → y < span n → le_bytes n x ≡ le_bytes n y → x ≡ y
unfolding head_of tail_of
le_bytes-injective zero x y h k e = omega arith
le_bytes-injective (suc n) x y h k e =
    let q : x / 256 ≡ y / 256 =
      le_bytes-injective n (x / 256) (y / 256) (omega arith) (omega arith) (ap tail_of e) in
    let r : x % 256 ≡ y % 256 = ap head_of e in omega (arith, q, r)

-- A hexadecimal digit tells its value.
hex_value : ℕ → ℕ
hex_value c = if ltb c b'a' then c - b'0' else c - b'a' + 10

-- The digits of a table have the values from `k` on.
abbrev Values : ℕ → Bytes → Type 0
Values k [] = Unit
Values k (c ∷ l) = (hex_value c ≡ k) × Values (suc k) l

get_elem?-Values :
    (k : ℕ) (l : Bytes) (i : ℕ)
    → Values k l
    → i < length l
    → hex_value (or_zero (get_elem? l i)) ≡ k + i
get_elem?-Values k [] i v h = absurd (omega arith)
get_elem?-Values k (c ∷ l) zero v h = v.0 ∙ omega arith
get_elem?-Values k (c ∷ l) (suc i) v h =
    get_elem?-Values (suc k) l i v.1 (omega arith) ∙ omega arith

hex_digits-Values : Values 0 hex_digits
unfolding hex_value
hex_digits-Values = ground arith

hex_value-hex_digit : (i : ℕ) → i < 16 → hex_value (hex_digit i) ≡ i
unfolding hex_digit
hex_value-hex_digit i h = get_elem?-Values 0 hex_digits i hex_digits-Values h ∙ omega arith

hex_digit-injective : (i j : ℕ) → i < 16 → j < 16 → hex_digit i ≡ hex_digit j → i ≡ j
hex_digit-injective i j h k e =
    sym (hex_value-hex_digit i h) ∙ (ap hex_value e ∙ hex_value-hex_digit j k)

-- Bytes.
abbrev pub AreBytes : Bytes → Type 0
AreBytes [] = Unit
AreBytes (x ∷ l) = (x < 256) × AreBytes l

hex_bytes-injective : (a b : Bytes) → AreBytes a → AreBytes b → hex_bytes a ≡ hex_bytes b → a ≡ b
unfolding hex_bytes head_of tail_of
hex_bytes-injective [] [] h k e = refl
hex_bytes-injective [] (y ∷ b) h k e = absurd (omega (arith, ap length e))
hex_bytes-injective (x ∷ a) [] h k e = absurd (omega (arith, ap length e))
hex_bytes-injective (x ∷ a) (y ∷ b) h k e =
    let q : x / 16 ≡ y / 16 =
      hex_digit-injective (x / 16) (y / 16) (omega (arith, h.0)) (omega (arith, k.0))
        (ap head_of e) in
    let r : x % 16 ≡ y % 16 =
      hex_digit-injective (x % 16) (y % 16) (omega arith) (omega arith)
        (ap (λ l. head_of (tail_of l)) e) in
    ap₂ (λ c l. c ∷ l) (omega (arith, q, r))
      (hex_bytes-injective a b h.1 k.1 (ap (λ l. tail_of (tail_of l)) e))

-- The fields fit into the structure.
pub record IsPacked (h : InoHash) : Type 0 where
  pub version_fits : h.version < span 2
  pub kind_fits : h.kind < span 2
  pub dev_fits : h.dev < span 4
  pub ino_fits : h.ino < span 8
  pub size_fits : h.size < span 8
  pub mtime_fits : h.mtime < span 8

field-injective :
    (n x y : ℕ) (l m : Bytes)
    → x < span n
    → y < span n
    → le_bytes n x ++ l ≡ le_bytes n y ++ m
    → (x ≡ y) × (l ≡ m)
field-injective n x y l m h k e =
    let t =
      append-injective (le_bytes n x) l (le_bytes n y) m
        (length-le_bytes n x ∙ sym (length-le_bytes n y)) e in
    (le_bytes-injective n x y h k t.0, t.1)

ino_hash_of-IsPacked : (st : Stat) (kind : ℕ) → kind < span 2 → IsPacked (ino_hash_of st kind)
unfolding ino_hash_of
ino_hash_of-IsPacked st kind h = record {
  version_fits = omega arith;
  kind_fits = h;
  dev_fits = omega arith;
  ino_fits = omega arith;
  size_fits = omega arith;
  mtime_fits = omega arith;
}

-- All fields but the version, which is the same for all.
abbrev pub Same : InoHash → InoHash → Type 0
Same h k =
    (h.kind ≡ k.kind) × (h.dev ≡ k.dev) × (h.ino ≡ k.ino) × (h.size ≡ k.size) × (h.mtime ≡ k.mtime)

pack-injective : (h k : InoHash) → IsPacked h → IsPacked k → pack h ≡ pack k → Same h k
unfolding pack
pack-injective h k p q e =
    let a = field-injective 2 h.version k.version _ _ p.version_fits q.version_fits e in
    let b = field-injective 2 h.kind k.kind _ _ p.kind_fits q.kind_fits a.1 in
    let c = field-injective 4 h.dev k.dev _ _ p.dev_fits q.dev_fits b.1 in
    let d = field-injective 8 h.ino k.ino _ _ p.ino_fits q.ino_fits c.1 in
    let f = field-injective 8 h.size k.size _ _ p.size_fits q.size_fits d.1 in
    (b.0, c.0, d.0, f.0, le_bytes-injective 8 h.mtime k.mtime p.mtime_fits q.mtime_fits f.1)

-- Two inodes whose entries have the same name have the same fields in the hashed structure: device,
-- inode number, size and time of change, as far as the structure holds them, and the kind of the
-- value. The digests of the two structures are bytes and do not collide; a kind has 16 bits.
pub entry_key-injective :
    ⦃env : Env⦄
    → (st st' : Stat) (kind kind' : ℕ) → kind < 2 ^ 16
    → kind' < 2 ^ 16
    → AreBytes (env.md5 (pack (ino_hash_of st kind)))
    → AreBytes (env.md5 (pack (ino_hash_of st' kind')))
    → (env.md5 (pack (ino_hash_of st kind)) ≡ env.md5 (pack (ino_hash_of st' kind'))
        → pack (ino_hash_of st kind) ≡ pack (ino_hash_of st' kind'))
    → entry_key st kind ≡ entry_key st' kind'
    → Same (ino_hash_of st kind) (ino_hash_of st' kind')
unfolding entry_key md5_digest
entry_key-injective st st' kind kind' h k b c collides e =
    pack-injective (ino_hash_of st kind) (ino_hash_of st' kind')
      (ino_hash_of-IsPacked st kind (omega arith)) (ino_hash_of-IsPacked st' kind' (omega arith))
      (collides (hex_bytes-injective _ _ b c e))
