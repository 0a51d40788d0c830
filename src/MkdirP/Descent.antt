-- ===== src/MkdirP/Descent.antt =====
-- One round of `mkdir_p`'s loop when no call fails: a component is made and opened.
use pdistcc.Base.{
  ℕ, ◌+◌, ◌<◌, ℤ, pos, negsuc, false, ◌∷◌, Option, none, some, Bytes, FilePath, path_eq, ◌==◌,
  ==_refl, ◌≡◌, ◌≢◌, refl, ◌∙◌, ap, subst, arith, Bool-cases, Option-cases, inl, inr,
}
use pdistcc.System.World.{
  World, Handle, Node, directory, regular, unlocked, Env, IsQuiet, M, call_done, call_rule, eexist,
}
use pdistcc.System.Files.{
  lookup_fd, put_node, base_of, walk, at_base, at_path, path_directory, new_fd, openat, mkdirat,
  close,
}
use pdistcc.System.Frames.{put_node_self, put_node_ne}
use pdistcc.System.Keeps.{lookup_fd-remove_fd_ne}
use pdistcc.MkdirP.Ops.{PathText, mkdir_next, mkdir_opened, mkdir_open, mkdir_made, mkdir_round}

module _ ⦃env : Env⦄ where
  base_of-fds : (fd : ℤ) (w w' : World) → w'.fds ≡ w.fds → base_of fd w' ≡ base_of fd w
  unfolding base_of
  base_of-fds (pos n) w w' e = rw (e, base_of) refl
  base_of-fds (negsuc n) w w' e = refl

  pub base_of-lookup_fd :
      (n : ℕ) (h : Handle) (w : World)
      → lookup_fd n w.fds ≡ some h
      → base_of (pos n) w ≡ some h.path
  unfolding base_of
  base_of-lookup_fd n h w e = rw (e, base_of) refl

  base_of-tick : (fd : ℤ) (w : World) (t : ℕ) → base_of fd (record w { tick = t }) ≡ base_of fd w
  unfolding base_of
  base_of-tick (pos n) w t = refl
  base_of-tick (negsuc n) w t = refl

pub lookup_fd-new_fd :
    (p : FilePath) (w : World)
    → lookup_fd w.next_fd (new_fd p w).1.fds
      ≡ some (record { path = p; offset = 0; lock = unlocked })
unfolding lookup_fd
lookup_fd-new_fd p w = rw ==_refl refl

module _ ⦃env : Env⦄ where
  -- A component is a directory after `mkdirat`, and only that has changed.
  pub record IsMade (p : FilePath) (w w' : World) : Type 0 where
    pub made : w'.node p ≡ some directory
    pub others : (q : FilePath) → path_eq p q ≡ false → w'.node q ≡ w.node q
    fds : w'.fds ≡ w.fds
    next : w'.next_fd ≡ w.next_fd

  -- A new descriptor `n` stands for `p`.
  pub record IsAt (n : ℕ) (p : FilePath) (w : World) : Type 0 where
    pub at : base_of (pos n) w ≡ some p
    pub old : n < w.next_fd

  -- What follows the descent into a component.
  pub record IsDown (p : FilePath) (w w' : World) (n : ℕ) : Type 0 where
    pub is_at : IsAt n p w'
    pub made : w'.node p ≡ some directory
    pub others : (q : FilePath) → path_eq p q ≡ false → w'.node q ≡ w.node q

-- A descriptor that was open before the next one.
abbrev pub IsOld : ℤ → World → Type 0
IsOld (negsuc n) w = Unit
IsOld (pos n) w = n < w.next_fd

-- Another descriptor has been closed.
record IsClosed (n : ℕ) (w w' : World) : Type 0 where
  tree : w'.node ≡ w.node
  still : lookup_fd n w'.fds ≡ lookup_fd n w.fds
  next : w'.next_fd ≡ w.next_fd

close-IsClosed :
    ⦃env : Env⦄ → (fd : ℤ) (n : ℕ) (w : World) → fd ≢ pos n → IsClosed n w (close fd w).1
unfolding close
close-IsClosed (negsuc m) n w h = record { tree = refl; still = refl; next = refl }
close-IsClosed (pos m) n w h = elim (Option-cases (lookup_fd m w.fds)) [
  | inl e ↦ rw (e, close) (record { tree = refl; still = refl; next = refl })
  | inr (j, e) ↦
      let other : (m == n) ≡ false = other_number in
      rw (e, close)
        (call_rule (λ x w'. IsClosed n w w') _ _ _
          (λ x. record { tree = refl; still = lookup_fd-remove_fd_ne m n w.fds other; next = refl })
          (record { tree = refl; still = lookup_fd-remove_fd_ne m n w.fds other; next = refl }))
]
  where
    other_number : (m == n) ≡ false
    other_number = elim (Bool-cases (m == n)) [
      | inl e ↦ let q : m ≡ n = ground arith in absurd (h (ap pos q))
      | inr e ↦ e
    ]

module _ ⦃env : Env⦄ (quiet : IsQuiet env) where
  module _ (fd : ℤ) (c : Bytes) {p : FilePath} (w : World) (base : base_of fd w ≡ some p)
      (walks : walk p c ≡ some (c ∷ p)) where
    ticked : base_of fd (record w { tick = w.tick + 1 }) ≡ some p
    ticked = base_of-tick fd w (w.tick + 1) ∙ base

    mkdirat_new :
        w.node (c ∷ p) ≡ none
        → mkdirat fd c w
          ≡ (pos 0, record w { tick = w.tick + 1; node = put_node (c ∷ p) (some directory) w.node })
    unfolding mkdirat
    mkdirat_new e =
        rw (call_done, quiet w.tick) (rw (ticked, at_base) (rw (walks, at_path) (rw e refl)))

    mkdirat_there :
        w.node (c ∷ p) ≡ some directory
        → mkdirat fd c w ≡ (negsuc 0, record w { tick = w.tick + 1; errno = eexist })
    unfolding mkdirat
    mkdirat_there e =
        rw (call_done, quiet w.tick) (rw (ticked, at_base) (rw (walks, at_path) (rw e refl)))

    openat_directory :
        w.node (c ∷ p) ≡ some directory
        → openat fd c path_directory w ≡ new_fd (c ∷ p) (record w { tick = w.tick + 1 })
    unfolding openat
    openat_directory e =
        rw (call_done, quiet w.tick) (rw (ticked, at_base) (rw (walks, at_path) (rw e refl)))

  module _ (rest : ℤ → Bytes → Bytes → M (ℤ × Bytes)) (fd : ℤ) (t : PathText) (p : FilePath)
      (w : World) (base : base_of fd w ≡ some p) (walks : walk p t.comp ≡ some (t.comp ∷ p)) where
    pub round-IsMade :
        (o : Option Node)
        → w.node (t.comp ∷ p) ≡ o
        → ((b : Bytes) → o ≢ some (regular b))
        → (w' : World) × IsMade (t.comp ∷ p) w w'
          × (mkdir_round rest fd t w ≡ mkdir_open rest fd t w')
    unfolding mkdir_round mkdir_made
    round-IsMade none e f = (
      record w { tick = w.tick + 1; node = put_node (t.comp ∷ p) (some directory) w.node },
      record {
        made = put_node_self (t.comp ∷ p) _ w.node;
        others = λ q o. put_node_ne (t.comp ∷ p) q _ w.node o;
        fds = refl;
        next = refl;
      },
      rw (mkdirat_new fd t.comp w base walks e) refl,
    )
    round-IsMade (some directory) e f = (
      record w { tick = w.tick + 1; errno = eexist },
      record { made = e; others = λ q o. refl; fds = refl; next = refl },
      rw (mkdirat_there fd t.comp w base walks e) refl,
    )
    round-IsMade (some (regular b)) e f = absurd (f b refl)

  module _ (rest : ℤ → Bytes → Bytes → M (ℤ × Bytes)) (fd : ℤ) (t : PathText) (p : FilePath)
      (w : World) (base : base_of fd w ≡ some p) (old : IsOld fd w)
      (walks : walk p t.comp ≡ some (t.comp ∷ p)) where
    new_is_other : (w' : World) → w'.next_fd ≡ w.next_fd → fd ≢ pos w'.next_fd
    new_is_other w' e f =
        (let h : w'.next_fd < w.next_fd = subst (λ x. IsOld x w) f old in omega (arith, h))

    pub open-IsDown :
        (w' : World)
        → IsMade (t.comp ∷ p) w w'
        → (v : World) × IsDown (t.comp ∷ p) w v w'.next_fd
          × (mkdir_open rest fd t w' ≡ mkdir_next rest (pos w'.next_fd) t t.behind v)
    unfolding mkdir_open mkdir_opened
    open-IsDown w' m =
        let v = (new_fd (t.comp ∷ p) (record w' { tick = w'.tick + 1 })).1 in
        let k = close-IsClosed fd w'.next_fd v (new_is_other w' m.next) in
        (
          (close fd v).1,
          record {
            is_at = record {
              at = base_of-lookup_fd w'.next_fd _ _ (k.still ∙ lookup_fd-new_fd (t.comp ∷ p) w');
              old = omega (arith, k.next);
            };
            made = ap (λ f. f (t.comp ∷ p)) k.tree ∙ m.made;
            others = λ q o. ap (λ f. f q) k.tree ∙ m.others q o;
          },
          rw (openat_directory fd t.comp w' (base_of-fds fd w w' m.fds ∙ base) walks m.made) refl,
        )
