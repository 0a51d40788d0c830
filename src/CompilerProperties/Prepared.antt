-- ===== src/CompilerProperties/Prepared.antt =====
-- The descriptors of a forked child before the pipe's end for writing becomes its standard output.
use pdistcc.Base.{
  ℕ, ◌<◌, ◌≤◌, ℤ, pos, negsuc, false, List, ◌∷◌, ◌≡◌, refl, ◌∙◌, sym, ◌⊎◌, inl, inr, none, some,
  ascii, arith, ◌==◌, ==_refl, Bool-cases,
}
use pdistcc.System.World.{World, Handle, Env}
use pdistcc.System.Files.{lookup_fd, remove_fd}
use pdistcc.System.Keeps.{lookup_fd-remove_fd_ne}
use pdistcc.System.Processes.{dup2}
use pdistcc.System.Descriptors.{
  IsUnique, lookup_fd-remove_fd_self, remove_fd-IsUnique, MadeFd, Copied, close-fds, opened_handle,
  dup2-Copied, lookup_fd-remove_fd-none,
}
use pdistcc.CompilerProperties.Forked.{null_input}

differ :
    (k x : ℕ) (l : List (ℕ × Handle)) (h : Handle)
    → lookup_fd k l ≡ none
    → lookup_fd x l ≡ some h
    → (k == x) ≡ false
differ k x l h e f = elim (Bool-cases (k == x)) [
  | inr i ↦ i
  | inl i ↦
      let same : x ≡ k = ground (arith, i) in
      let both : none ≡ some h = sym e ∙ (rw same at f) in absurd (ground (arith, both))
]

-- A child with a pipe: `r` and `x` are its ends, neither of them a standard descriptor, and `out` is
-- what `x` writes to.
pub record HasPipe (r x : ℕ) (out : Handle) (w : World) : Type 0 where
  pub unique : IsUnique w.fds
  pub fresh : lookup_fd w.next_fd w.fds ≡ none
  pub writes : lookup_fd x w.fds ≡ some out
  pub old_read : r < w.next_fd
  pub read_standard : 2 ≤ r
  pub write_standard : 2 ≤ x
  pub apart : (r == x) ≡ false

module _ ⦃env : Env⦄ where
  -- The standard input is the parent's, or /dev/null.
  abbrev pub IsInput : List (ℕ × Handle) → List (ℕ × Handle) → Type 0
  IsInput before l =
      (lookup_fd 0 l ≡ lookup_fd 0 before)
      ⊎ ((h : Handle) × (lookup_fd 0 l ≡ some h) × (h.path ≡ env.resolve (ascii "/dev/null")))

  pub IsInput-remove_fd :
      (n : ℕ) (before l : List (ℕ × Handle))
      → (n == 0) ≡ false
      → IsInput before l
      → IsInput before (remove_fd n l)
  IsInput-remove_fd n before l e (inl i) = inl (lookup_fd-remove_fd_ne n 0 l e ∙ i)
  IsInput-remove_fd n before l e (inr (h, i, j)) = inr (h, lookup_fd-remove_fd_ne n 0 l e ∙ i, j)

module _ ⦃env : Env⦄ (r x : ℕ) (out : Handle) where
  -- Before the pipe's end for writing becomes the standard output.
  pub record IsPrepared (before : List (ℕ × Handle)) (l : List (ℕ × Handle)) : Type 0 where
    pub unique : IsUnique l
    pub writes : lookup_fd x l ≡ some out
    pub read_closed : lookup_fd r l ≡ none
    pub input : IsInput before l

  -- Another descriptor is closed.
  IsPrepared-remove_fd :
      (n : ℕ) (before l : List (ℕ × Handle))
      → IsPrepared before l
      → (n == x) ≡ false
      → (n == 0) ≡ false
      → IsPrepared before (remove_fd n l)
  IsPrepared-remove_fd n before l p e f = record {
    unique = remove_fd-IsUnique n l p.unique;
    writes = lookup_fd-remove_fd_ne n x l e ∙ p.writes;
    read_closed = lookup_fd-remove_fd-none r n l p.read_closed;
    input = IsInput-remove_fd n before l f p.input;
  }

  -- Another descriptor is new.
  IsPrepared-cons :
      (n : ℕ) (h : Handle) (before l : List (ℕ × Handle))
      → IsPrepared before l
      → lookup_fd n l ≡ none
      → (n == x) ≡ false
      → (n == r) ≡ false
      → (n == 0) ≡ false
      → IsPrepared before ((n, h) ∷ l)
  unfolding lookup_fd
  IsPrepared-cons n h before l p new e f g = record {
    unique = (new, p.unique);
    writes = rw e p.writes;
    read_closed = rw f p.read_closed;
    input = rw g p.input;
  }

  -- Another descriptor is the standard input.
  IsPrepared-input :
      (h : Handle) (before l : List (ℕ × Handle))
      → IsPrepared before l
      → h.path ≡ env.resolve (ascii "/dev/null")
      → (0 == x) ≡ false
      → (0 == r) ≡ false
      → IsPrepared before ((0, h) ∷ remove_fd 0 l)
  unfolding lookup_fd
  IsPrepared-input h before l p e f g = record {
    unique = (lookup_fd-remove_fd_self 0 l p.unique, remove_fd-IsUnique 0 l p.unique);
    writes = rw f (lookup_fd-remove_fd_ne 0 x l f ∙ p.writes);
    read_closed = rw g (lookup_fd-remove_fd-none r 0 l p.read_closed);
    input = inr (h, refl, e);
  }

  module _ (big_r : 2 ≤ r) (big_x : 2 ≤ x) (before : List (ℕ × Handle)) where
    abbrev null_handle : Handle
    null_handle = opened_handle (ascii "/dev/null")

    Copied-IsPrepared :
        (k : ℕ) (l : List (ℕ × Handle)) (r : ℤ) (w : World)
        → Copied 0 null_handle l r w
        → IsPrepared before l
        → IsPrepared before w.fds
    Copied-IsPrepared k l (negsuc n) w c p = rw c p
    Copied-IsPrepared k l (pos n) w c p =
        rw c (IsPrepared-input null_handle before l p refl (ground arith) (ground arith))

    pub null_input-IsPrepared :
        (k : ℕ) (fd : ℤ) (l : List (ℕ × Handle)) (w : World)
        → MadeFd k null_handle l fd w
        → r < k
        → lookup_fd k l ≡ none
        → IsPrepared before l
        → IsPrepared before (null_input fd w).1.fds
    unfolding null_input lookup_fd
    null_input-IsPrepared k (negsuc n) l w m h new p = rw m p
    null_input-IsPrepared k (pos n) l w (e, m) h new p =
        let ne_x = differ k x l out new p.writes in
        let ne_0 : (k == 0) ≡ false = ground arith in
        let p1 = IsPrepared-cons k null_handle before l p new ne_x (ground arith) ne_0 in
        let found : lookup_fd k w.fds ≡ some null_handle = rw (m, ==_refl) refl in
        let (c, w') = dup2 (pos k) 0 w in
        let p2 =
          Copied-IsPrepared k w.fds c w' (dup2-Copied k 0 null_handle w ne_0 found) (rw m p1) in
        rw (e, close-fds k w') (IsPrepared-remove_fd k before w'.fds p2 ne_x ne_0)

  -- The end of the pipe for reading is closed.
  pub closed-IsPrepared :
      (w : World) (l : List (ℕ × Handle))
      → HasPipe r x out w
      → l ≡ remove_fd r w.fds
      → IsPrepared w.fds l
  closed-IsPrepared w l h e = rw e (record {
    unique = remove_fd-IsUnique r w.fds h.unique;
    writes = lookup_fd-remove_fd_ne r x w.fds h.apart ∙ h.writes;
    read_closed = lookup_fd-remove_fd_self r w.fds h.unique;
    input = inl (lookup_fd-remove_fd_ne r 0 w.fds (apart_0 h.read_standard));
  })
    where
      apart_0 : 2 ≤ r → (r == 0) ≡ false
      apart_0 h = ground arith
