-- ===== src/System/Keeps.antt =====
-- What each call leaves alone below a descriptor and outside some files, whatever the environment
-- decides.
use pdistcc.Base.{
  ℕ, ◌≤◌, ◌<◌, ℤ, pos, false, List, [], ◌∷◌, ◌≡◌, refl, ◌∙◌, ap, Bool-cases, none, some, Bytes,
  FilePath, path_eq, arith, ◌==◌, Option-cases, inl, inr, negsuc, Option, ◌+◌,
}
use pdistcc.System.World.{World, Handle, Lock, Ptr, Env, call_rule, Node, M}
use pdistcc.System.Files.{
  lookup_fd, remove_fd, close, flock, fsync, openat, open_node, base_of, walk, read_only, at_base,
  at_path, read, stat,
}
use pdistcc.System.Memory.{has_block, asprintf, strdup, free}
use pdistcc.System.Frames.{IsFramed, lookup_fd-set_fd_ne}

-- `q` is none of the files `ps`.
abbrev pub IsOutside : FilePath → List FilePath → Type 0
IsOutside q [] = Unit
IsOutside q (p ∷ ps) = (path_eq p q ≡ false) × IsOutside q ps

-- Of the tree only `ps`, and of the descriptors only those from `b` on may differ.
pub record Frame (b : ℕ) (ps : List FilePath) (w w' : World) : Type 0 where
  pub nodes : (q : FilePath) → IsOutside q ps → w'.node q ≡ w.node q
  pub handles : (k : ℕ) → k < b → lookup_fd k w'.fds ≡ lookup_fd k w.fds
  pub stats : w'.stats ≡ w.stats
  pub grows : w.next_fd ≤ w'.next_fd

pub Frame-trans :
    {b : ℕ} {ps : List FilePath} {u v w : World} → Frame b ps u v → Frame b ps v w → Frame b ps u w
Frame-trans f g = record {
  nodes = λ q o. g.nodes q o ∙ f.nodes q o;
  handles = λ k h. g.handles k h ∙ f.handles k h;
  stats = g.stats ∙ f.stats;
  grows = omega (arith, f.grows, g.grows);
}

-- More files may differ.
pub Frame-weaken :
    {b : ℕ} {w w' : World} (ps qs : List FilePath)
    → ((q : FilePath) → IsOutside q qs → IsOutside q ps)
    → Frame b ps w w'
    → Frame b qs w w'
Frame-weaken ps qs out f = record {
  nodes = λ q o. f.nodes q (out q o);
  handles = f.handles;
  stats = f.stats;
  grows = f.grows;
}

pub IsFramed-Frame :
    {b : ℕ} {p : FilePath} {n : ℕ} {w w' : World}
    → b ≤ n
    → w.next_fd ≤ w'.next_fd
    → IsFramed p n w w'
    → Frame b (p ∷ []) w w'
IsFramed-Frame h g f = record {
  nodes = λ q o. f.nodes q o.0;
  handles = λ k l. f.handles k (ground arith);
  stats = f.stats;
  grows = g;
}

-- The file tree and all descriptors below `b` are as before.
abbrev pub Keeps : ℕ → World → World → Type 0
Keeps b w w' = Frame b [] w w'

pub lookup_fd-remove_fd_ne :
    (n k : ℕ) (l : List (ℕ × Handle))
    → (n == k) ≡ false
    → lookup_fd k (remove_fd n l) ≡ lookup_fd k l
unfolding lookup_fd remove_fd
lookup_fd-remove_fd_ne n k [] e = refl
lookup_fd-remove_fd_ne n k ((m, j) ∷ l) e = ground (arith, lookup_fd-remove_fd_ne n k l)

-- Neither the tree nor the table of descriptors has changed.
pub kept :
    {b : ℕ} {w w' : World}
    → w'.node ≡ w.node
    → w'.fds ≡ w.fds
    → w'.stats ≡ w.stats
    → w.next_fd ≤ w'.next_fd
    → Keeps b w w'
kept e f g h = record {
  nodes = λ q o. ap (λ n. n q) e;
  handles = λ k l. ap (lookup_fd k) f;
  stats = g;
  grows = h;
}

-- A descriptor from `b` on was closed.
removed :
    {b : ℕ} (n : ℕ) (w w' : World)
    → b ≤ n
    → w'.node ≡ w.node
    → w'.fds ≡ remove_fd n w.fds
    → w'.stats ≡ w.stats
    → w.next_fd ≤ w'.next_fd
    → Keeps b w w'
removed n w w' h e f g i = record {
  nodes = λ q o. ap (λ m. m q) e;
  handles = λ k l. ap (lookup_fd k) f ∙ lookup_fd-remove_fd_ne n k w.fds (ground arith);
  stats = g;
  grows = i;
}

module _ ⦃env : Env⦄ {b : ℕ} where
  pub close-Keeps : (n : ℕ) (w : World) → b ≤ n → Keeps b w (close (pos n) w).1
  unfolding close
  close-Keeps n w h = elim (Option-cases (lookup_fd n w.fds)) [
    | inl e ↦ rw (e, close) (kept refl refl refl (omega arith))
    | inr (j, e) ↦
        rw (e, close)
          (call_rule (λ x w'. Keeps b w w') _ _ _
            (λ x. removed n w _ h refl refl refl (omega arith))
            (removed n w _ h refl refl refl (omega arith)))
  ]

  pub flock-Keeps : (n : ℕ) (l : Lock) (w : World) → b ≤ n → Keeps b w (flock (pos n) l w).1
  unfolding flock
  flock-Keeps n l w h = elim (Option-cases (lookup_fd n w.fds)) [
    | inl e ↦ rw (e, flock) (kept refl refl refl (omega arith))
    | inr (j, e) ↦
        rw (e, flock)
          (call_rule (λ x w'. Keeps b w w') _ _ _ (λ x. kept refl refl refl (omega arith))
            (record {
              nodes = λ q o. refl;
              handles = λ k m. lookup_fd-set_fd_ne n k _ w.fds (ground arith);
              stats = refl;
              grows = omega arith;
            }))
  ]

  pub fsync-Keeps : (fd : ℤ) (w : World) → Keeps b w (fsync fd w).1
  unfolding fsync
  fsync-Keeps fd w =
      call_rule (λ x w'. Keeps b w w') _ _ _ (λ x. kept refl refl refl (omega arith))
        (kept refl refl refl (omega arith))

  pub asprintf-Keeps : (t : Bytes) (w : World) → Keeps b w (asprintf t w).1
  unfolding asprintf
  asprintf-Keeps t w =
      call_rule (λ x w'. Keeps b w w') _ _ _ (λ x. kept refl refl refl (omega arith))
        (kept refl refl refl (omega arith))

  pub strdup-Keeps : (t : Bytes) (w : World) → Keeps b w (strdup t w).1
  unfolding strdup
  strdup-Keeps t w =
      call_rule (λ x w'. Keeps b w w') _ _ _ (λ x. kept refl refl refl (omega arith))
        (kept refl refl refl (omega arith))

pub free-Keeps : {b : ℕ} (p : Ptr) (w : World) → Keeps b w (free p w).1
unfolding free
free-Keeps none w = kept refl refl refl (omega arith)
free-Keeps (some s) w = elim (Bool-cases (has_block s.block w.blocks)) [
  | inl e ↦ rw (e, free) (kept refl refl refl (omega arith))
  | inr e ↦ rw (e, free) (kept refl refl refl (omega arith))
]

pub kept_but :
    {b : ℕ} {ps : List FilePath} {w w' : World}
    → w'.node ≡ w.node
    → w'.fds ≡ w.fds
    → w'.stats ≡ w.stats
    → w.next_fd ≤ w'.next_fd
    → Frame b ps w w'
kept_but {ps} e f g h = Frame-weaken [] ps (λ q o. tt) (kept e f g h)

-- A descriptor from `b` on, or an error.
abbrev pub IsFrom : ℕ → ℤ → Type 0
IsFrom b (negsuc n) = Unit
IsFrom b (pos n) = b ≤ n

abbrev KeepsFrom : ℕ → World → ℤ → World → Type 0
KeepsFrom b w fd w' = Keeps b w w' × IsFrom b fd

at_path-KeepsFrom :
    {b : ℕ} {v : World} (o : Option FilePath) (k : FilePath → M ℤ) (w : World)
    → Keeps b v w
    → ((p : FilePath) → KeepsFrom b v (k p w).0 (k p w).1)
    → KeepsFrom b v (at_path o k w).0 (at_path o k w).1
at_path-KeepsFrom none k w f h = (Frame-trans f (kept refl refl refl (omega arith)), tt)
at_path-KeepsFrom (some p) k w f h = h p

at_base-KeepsFrom :
    {b : ℕ} {v : World} (o : Option FilePath) (k : FilePath → M ℤ) (w : World)
    → Keeps b v w
    → ((p : FilePath) → KeepsFrom b v (k p w).0 (k p w).1)
    → KeepsFrom b v (at_base o k w).0 (at_base o k w).1
at_base-KeepsFrom none k w f h = (Frame-trans f (kept refl refl refl (omega arith)), tt)
at_base-KeepsFrom (some p) k w f h = h p

open_node-KeepsFrom :
    {b : ℕ} {v : World} (p : FilePath) (o : Option Node) (w : World)
    → b ≤ w.next_fd
    → Keeps b v w
    → KeepsFrom b v (open_node p read_only o w).0 (open_node p read_only o w).1
unfolding lookup_fd
open_node-KeepsFrom p none w h f = (Frame-trans f (kept refl refl refl (omega arith)), tt)
open_node-KeepsFrom p (some n) w h f = (
  Frame-trans f (record {
    nodes = λ q o. refl;
    handles = λ k l. ground arith;
    stats = refl;
    grows = omega arith;
  }),
  h,
)

module _ ⦃env : Env⦄ {b : ℕ} where
  -- An open for reading changes no file.
  pub openat-KeepsFrom :
      (dirfd : ℤ) (name : Bytes) (w : World)
      → b ≤ w.next_fd
      → KeepsFrom b w (openat dirfd name read_only w).0 (openat dirfd name read_only w).1
  unfolding openat
  openat-KeepsFrom dirfd name w h =
      let f : Keeps b w (record w { tick = w.tick + 1 }) = kept refl refl refl (omega arith) in
      call_rule (KeepsFrom b w) _ _ w (λ e. (kept refl refl refl (omega arith), tt))
        (at_base-KeepsFrom (base_of dirfd _) _ _ f
          λ p. at_path-KeepsFrom (walk p name) _ _ f λ q. open_node-KeepsFrom q (w.node q) _ h f)

  pub read-Keeps : (n len : ℕ) (w : World) → b ≤ n → Keeps b w (read (pos n) len w).1
  unfolding read
  read-Keeps n len w h = elim (Option-cases (lookup_fd n w.fds)) [
    | inl e ↦ rw (e, read) (kept refl refl refl (omega arith))
    | inr (j, e) ↦
        rw (e, read)
          (call_rule (λ x w'. Keeps b w w') _ _ _ (λ x. kept refl refl refl (omega arith))
            (record {
              nodes = λ q o. refl;
              handles = λ k m. lookup_fd-set_fd_ne n k _ w.fds (ground arith);
              stats = refl;
              grows = omega arith;
            }))
  ]

  pub stat-Keeps : (path : Bytes) (w : World) → Keeps b w (stat path w).1
  unfolding stat
  stat-Keeps path w =
      call_rule (λ x w'. Keeps b w w') _ _ w (λ x. kept refl refl refl (omega arith))
        (elim (Option-cases (w.stats path)) [
          | inl e ↦ rw e (kept refl refl refl (omega arith))
          | inr (s, e) ↦ rw e (kept refl refl refl (omega arith))
        ])
