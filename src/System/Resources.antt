-- ===== src/System/Resources.antt =====
-- What a call changes of the descriptors and the heap: an abstract state, and one lemma for each
-- call that says what it does to that state, whatever the environment decides.
use pdistcc.Base.{
  ◌≤◌, ap, ℕ, suc, ◌+◌, ℤ, pos, negsuc, true, false, List, [], ◌∷◌, ◌≡◌, refl, Option, Option-cases,
  inl, inr, none, some, Bytes, arith, if◌then◌else◌, FilePath,
}
use pdistcc.System.World.{
  enoent, World, Handle, Node, directory, regular, Lock, Stat, Ptr, Env, M, call_rule,
}
use pdistcc.System.Files.{
  lookup_fd, remove_fd, set_fd, OpenMode, read_only, write_truncate_create, path_directory, openat,
  open_path, open_node, mkdirat, unlinkat, close, flock, fsync, read, write, stat, base_of, walk,
  at_base, at_path,
}
use pdistcc.System.Memory.{has_block, remove_block, asprintf, strdup, free}

-- The numbers of the open descriptors and of the live blocks, newest first, and the counters.
pub record Resources : Type 0 where
  pub open_fds : List ℕ
  pub next_fd : ℕ
  pub blocks : List ℕ
  pub next_block : ℕ
  pub misuse : ℕ

abbrev pub numbers : List (ℕ × Handle) → List ℕ
numbers [] = []
numbers ((n, h) ∷ l) = n ∷ numbers l

unfoldable pub resources : World → Resources
resources w = record {
  open_fds = numbers w.fds;
  next_fd = w.next_fd;
  blocks = w.blocks;
  next_block = w.next_block;
  misuse = w.misuse;
}

abbrev pub with_fd : Resources → Resources
with_fd r = record r { open_fds = r.next_fd ∷ r.open_fds; next_fd = suc r.next_fd }

abbrev pub with_block : Resources → Resources
with_block r = record r { blocks = r.next_block ∷ r.blocks; next_block = suc r.next_block }

-- Closing and freeing, on the abstract state.
abbrev pub closed : ℤ → Resources → Resources
closed (negsuc n) r = r
closed (pos n) r =
    if has_block n r.open_fds
    then record r { open_fds = remove_block n r.open_fds }
    else record r { misuse = r.misuse + 1 }

abbrev pub freed : Ptr → Resources → Resources
freed none r = r
freed (some s) r =
    if has_block s.block r.blocks
    then record r { blocks = remove_block s.block r.blocks }
    else record r { misuse = r.misuse + 1 }

-- The state after a call that may have made a descriptor.
abbrev pub Opened : Resources → ℤ → World → Type 0
Opened r (negsuc n) w = resources w ≡ r
Opened r (pos n) w = (n ≡ r.next_fd) × (resources w ≡ with_fd r)

-- The state after a call that may have made a block.
abbrev pub Allocated : Resources → Ptr → World → Type 0
Allocated r none w = resources w ≡ r
Allocated r (some s) w = (s.block ≡ r.next_block) × (resources w ≡ with_block r)

numbers-set_fd : (n : ℕ) (k : Handle) (l : List (ℕ × Handle)) → numbers (set_fd n k l) ≡ numbers l
unfolding set_fd
numbers-set_fd n k [] = refl
numbers-set_fd n k ((m, h) ∷ l) = ground (arith, numbers-set_fd n k l)

numbers-remove_fd :
    (n : ℕ) (l : List (ℕ × Handle)) → numbers (remove_fd n l) ≡ remove_block n (numbers l)
unfolding remove_fd remove_block
numbers-remove_fd n [] = refl
numbers-remove_fd n ((m, h) ∷ l) = ground (arith, numbers-remove_fd n l)

has_block-numbers-none :
    (n : ℕ) (l : List (ℕ × Handle)) → lookup_fd n l ≡ none → has_block n (numbers l) ≡ false
unfolding lookup_fd has_block
has_block-numbers-none n [] e = refl
has_block-numbers-none n ((m, h) ∷ l) e = ground (arith, has_block-numbers-none n l)

has_block-numbers-some :
    (n : ℕ) (l : List (ℕ × Handle)) (k : Handle)
    → lookup_fd n l ≡ some k
    → has_block n (numbers l) ≡ true
unfolding lookup_fd has_block
has_block-numbers-some n [] k e = ground arith
has_block-numbers-some n ((m, h) ∷ l) k e = ground (arith, has_block-numbers-some n l k)

open_node-Opened :
    (p : FilePath) (mode : OpenMode) (o : Option Node) (w : World)
    → Opened (resources w) (open_node p mode o w).0 (open_node p mode o w).1
unfolding resources
open_node-Opened p read_only none w = refl
open_node-Opened p read_only (some n) w = (refl, refl)
open_node-Opened p write_truncate_create none w = (refl, refl)
open_node-Opened p write_truncate_create (some directory) w = refl
open_node-Opened p write_truncate_create (some (regular b)) w = (refl, refl)
open_node-Opened p path_directory none w = refl
open_node-Opened p path_directory (some directory) w = (refl, refl)
open_node-Opened p path_directory (some (regular b)) w = refl

at_path-Opened :
    (o : Option FilePath) (k : FilePath → M ℤ) (r : Resources) (w : World)
    → resources w ≡ r
    → ((p : FilePath) → Opened r (k p w).0 (k p w).1)
    → Opened r (at_path o k w).0 (at_path o k w).1
unfolding resources
at_path-Opened none k r w e h = e
at_path-Opened (some p) k r w e h = h p

at_base-Opened :
    (o : Option FilePath) (k : FilePath → M ℤ) (r : Resources) (w : World)
    → resources w ≡ r
    → ((p : FilePath) → Opened r (k p w).0 (k p w).1)
    → Opened r (at_base o k w).0 (at_base o k w).1
unfolding resources
at_base-Opened none k r w e h = e
at_base-Opened (some p) k r w e h = h p

-- The state is as before.
abbrev pub Same {ℓ} : {A : Type ℓ} → Resources → A → World → Type 0
Same r a w = resources w ≡ r

at_path-Same :
    (o : Option FilePath) (k : FilePath → M ℤ) (r : Resources) (w : World)
    → resources w ≡ r
    → ((p : FilePath) → Same r (k p w).0 (k p w).1)
    → Same r (at_path o k w).0 (at_path o k w).1
unfolding resources
at_path-Same none k r w e h = e
at_path-Same (some p) k r w e h = h p

at_base-Same :
    (o : Option FilePath) (k : FilePath → M ℤ) (r : Resources) (w : World)
    → resources w ≡ r
    → ((p : FilePath) → Same r (k p w).0 (k p w).1)
    → Same r (at_base o k w).0 (at_base o k w).1
unfolding resources
at_base-Same none k r w e h = e
at_base-Same (some p) k r w e h = h p

module _ ⦃env : Env⦄ where
  pub openat-Opened :
      (dirfd : ℤ) (name : Bytes) (mode : OpenMode) (w : World)
      → Opened (resources w) (openat dirfd name mode w).0 (openat dirfd name mode w).1
  unfolding openat resources
  openat-Opened dirfd name mode w =
      call_rule (Opened (resources w)) _ _ w (λ e. refl)
        (at_base-Opened (base_of dirfd _) _ _ _ refl
          λ b. at_path-Opened (walk b name) _ _ _ refl λ p. open_node-Opened p mode (w.node p) _)

  pub open_path-Opened :
      (name : Bytes) (mode : OpenMode) (w : World)
      → Opened (resources w) (open_path name mode w).0 (open_path name mode w).1
  unfolding open_path resources
  open_path-Opened name mode w =
      call_rule (Opened (resources w)) _ _ w (λ e. refl)
        (open_node-Opened (env.resolve name) mode (w.node (env.resolve name)) _)

  pub unlinkat-Same :
      (dirfd : ℤ) (name : Bytes) (w : World)
      → Same (resources w) (unlinkat dirfd name w).0 (unlinkat dirfd name w).1
  unfolding unlinkat resources
  unlinkat-Same dirfd name w =
      call_rule (Same (resources w)) _ _ w (λ e. refl)
        (at_base-Same (base_of dirfd _) _ _ _ refl
          λ b. at_path-Same (walk b name) _ _ _ refl λ p. ground arith)

  pub mkdirat-Same :
      (dirfd : ℤ) (name : Bytes) (w : World)
      → Same (resources w) (mkdirat dirfd name w).0 (mkdirat dirfd name w).1
  unfolding mkdirat resources
  mkdirat-Same dirfd name w =
      call_rule (Same (resources w)) _ _ w (λ e. refl)
        (at_base-Same (base_of dirfd _) _ _ _ refl
          λ b. at_path-Same (walk b name) _ _ _ refl λ p. ground arith)

  pub close-closed : (fd : ℤ) (w : World) → resources (close fd w).1 ≡ closed fd (resources w)
  unfolding close resources
  close-closed (negsuc n) w = refl
  close-closed (pos n) w = elim (Option-cases (lookup_fd n w.fds)) [
    | inl e ↦ rw (e, close, has_block-numbers-none n w.fds e) refl
    | inr (h, e) ↦
        rw (e, close, has_block-numbers-some n w.fds h e, ← numbers-remove_fd n w.fds)
          (call_rule (Same _) _ _ _ (λ k. refl) refl)
  ]

  pub flock-Same : (fd : ℤ) (l : Lock) (w : World) → resources (flock fd l w).1 ≡ resources w
  unfolding flock resources
  flock-Same (negsuc n) l w = refl
  flock-Same (pos n) l w = elim (Option-cases (lookup_fd n w.fds)) [
    | inl e ↦ rw (e, flock) refl
    | inr (h, e) ↦ rw (e, flock) (call_rule (Same _) _ _ _ (λ k. refl) (rw numbers-set_fd refl))
  ]

  pub fsync-Same : (fd : ℤ) (w : World) → resources (fsync fd w).1 ≡ resources w
  unfolding fsync resources
  fsync-Same fd w = call_rule (Same _) _ _ _ (λ k. refl) refl

  pub read-Same : (fd : ℤ) (len : ℕ) (w : World) → resources (read fd len w).1 ≡ resources w
  unfolding read resources
  read-Same (negsuc n) len w = refl
  read-Same (pos n) len w = elim (Option-cases (lookup_fd n w.fds)) [
    | inl e ↦ rw (e, read) refl
    | inr (h, e) ↦ rw (e, read) (call_rule (Same _) _ _ _ (λ k. refl) (rw numbers-set_fd refl))
  ]

  pub write-Same : (fd : ℤ) (b : Bytes) (w : World) → resources (write fd b w).1 ≡ resources w
  unfolding write resources
  write-Same (negsuc n) b w = refl
  write-Same (pos n) b w = elim (Option-cases (lookup_fd n w.fds)) [
    | inl e ↦ rw (e, write) refl
    | inr (h, e) ↦ rw (e, write) (call_rule (Same _) _ _ _ (λ k. refl) (rw numbers-set_fd refl))
  ]

  pub stat-Same : (path : Bytes) (w : World) → resources (stat path w).1 ≡ resources w
  unfolding stat resources
  stat-Same path w = call_rule (Same _) _ _ _ (λ k. refl) (split (w.stats path))
    where
      split :
          (o : Option Stat)
          → resources (
              let r : Option Stat × World = elim o [
                | none ↦ (none, record w { errno = enoent; tick = w.tick + 1 })
                | some s ↦ (some s, record w { tick = w.tick + 1 })
              ] in
              r.1)
            ≡ resources w
      split none = refl
      split (some s) = refl

  pub asprintf-Allocated :
      (b : Bytes) (w : World) → Allocated (resources w) (asprintf b w).0 (asprintf b w).1
  unfolding asprintf resources
  asprintf-Allocated b w = call_rule (Allocated (resources w)) _ _ _ (λ k. refl) (refl, refl)

  pub strdup-Allocated :
      (b : Bytes) (w : World) → Allocated (resources w) (strdup b w).0 (strdup b w).1
  unfolding strdup resources
  strdup-Allocated b w = call_rule (Allocated (resources w)) _ _ _ (λ k. refl) (refl, refl)

pub free-freed : (p : Ptr) (w : World) → resources (free p w).1 ≡ freed p (resources w)
unfolding free resources
free-freed none w = refl
free-freed (some s) w = ground arith

pub resources-next_fd : (v w : World) → resources v ≡ resources w → w.next_fd ≤ v.next_fd
unfolding resources
resources-next_fd v w e = let same : v.next_fd ≡ w.next_fd = ap (λ r. r.next_fd) e in omega arith
