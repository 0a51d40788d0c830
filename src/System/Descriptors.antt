-- ===== src/System/Descriptors.antt =====
-- The table of descriptors after each call that changes it, whatever the environment decides.
use pdistcc.Base.{
  ℕ, suc, ◌+◌, ℤ, pos, negsuc, false, List, [], ◌∷◌, ◌≡◌, refl, Option, Option-cases, inl, inr,
  none, some, Bytes, arith, ◌==◌,
}
use pdistcc.System.World.{World, Handle, Node, unlocked, Env, call_rule, call_done, IsQuiet}
use pdistcc.System.Files.{lookup_fd, remove_fd, read_only, open_node, open_path, close}
use pdistcc.System.Processes.{dup2, ChildEnd, executes, child_exits, execv}

-- No number is given twice.
abbrev pub IsUnique : List (ℕ × Handle) → Type 0
IsUnique [] = Unit
IsUnique ((n, h) ∷ l) = (lookup_fd n l ≡ none) × IsUnique l

pub lookup_fd-remove_fd-none :
    (m n : ℕ) (l : List (ℕ × Handle)) → lookup_fd m l ≡ none → lookup_fd m (remove_fd n l) ≡ none
unfolding lookup_fd remove_fd
lookup_fd-remove_fd-none m n [] e = refl
lookup_fd-remove_fd-none m n ((k, h) ∷ l) e = ground (arith, lookup_fd-remove_fd-none m n l)

pub lookup_fd-remove_fd_self :
    (n : ℕ) (l : List (ℕ × Handle)) → IsUnique l → lookup_fd n (remove_fd n l) ≡ none
unfolding lookup_fd remove_fd
lookup_fd-remove_fd_self n [] u = refl
lookup_fd-remove_fd_self n ((k, h) ∷ l) u = ground (arith, lookup_fd-remove_fd_self n l u.1)

pub remove_fd-IsUnique : (n : ℕ) (l : List (ℕ × Handle)) → IsUnique l → IsUnique (remove_fd n l)
unfolding remove_fd
remove_fd-IsUnique n [] u = tt
remove_fd-IsUnique n ((k, h) ∷ l) u =
    ground (arith, remove_fd-IsUnique n l u.1, lookup_fd-remove_fd-none k n l u.0)

remove_fd-none : (n : ℕ) (l : List (ℕ × Handle)) → lookup_fd n l ≡ none → remove_fd n l ≡ l
unfolding lookup_fd remove_fd
remove_fd-none n [] e = refl
remove_fd-none n ((k, h) ∷ l) e = ground (arith, remove_fd-none n l)

-- The table after a call that may have made the descriptor `n`.
abbrev pub MadeFd : ℕ → Handle → List (ℕ × Handle) → ℤ → World → Type 0
MadeFd n h l (negsuc k) w = w.fds ≡ l
MadeFd n h l (pos k) w = (k ≡ n) × (w.fds ≡ (n, h) ∷ l)

-- The table after a `dup2`.
abbrev pub Copied : ℕ → Handle → List (ℕ × Handle) → ℤ → World → Type 0
Copied new h l (negsuc k) w = w.fds ≡ l
Copied new h l (pos k) w = w.fds ≡ (new, h) ∷ remove_fd new l

module _ ⦃env : Env⦄ where
  pub close-fds : (n : ℕ) (w : World) → (close (pos n) w).1.fds ≡ remove_fd n w.fds
  unfolding close
  close-fds n w = elim (Option-cases (lookup_fd n w.fds)) [
    | inl e ↦ rw (e, close, remove_fd-none n w.fds e) refl
    | inr (h, e) ↦
        rw (e, close) (call_rule (λ x w'. w'.fds ≡ remove_fd n w.fds) _ _ _ (λ k. refl) refl)
  ]

  pub close-next_fd : (n : ℕ) (w : World) → (close (pos n) w).1.next_fd ≡ w.next_fd
  unfolding close
  close-next_fd n w = elim (Option-cases (lookup_fd n w.fds)) [
    | inl e ↦ rw (e, close) refl
    | inr (h, e) ↦ rw (e, close) (call_rule (λ x w'. w'.next_fd ≡ w.next_fd) _ _ _ (λ k. refl) refl)
  ]

  -- An open of a file for reading.
  abbrev pub opened_handle : Bytes → Handle
  opened_handle name = record { path = env.resolve name; offset = 0; lock = unlocked }

  pub open_path-MadeFd :
      (name : Bytes) (w : World)
      → MadeFd w.next_fd
          (opened_handle name)
          w.fds
          (open_path name read_only w).0
          (open_path name read_only w).1
  unfolding open_path
  open_path-MadeFd name w =
      call_rule (MadeFd w.next_fd (opened_handle name) w.fds) _ _ w (λ k. refl)
        (made (w.node (env.resolve name)) (record w { tick = w.tick + 1 }))
    where
      made :
          (o : Option Node) (w : World)
          → let r = open_node (env.resolve name) read_only o w in
            MadeFd w.next_fd (opened_handle name) w.fds r.0 r.1
      made none w = refl
      made (some n) w = (refl, refl)

  pub dup2-Copied :
      (old new : ℕ) (h : Handle) (w : World)
      → (old == new) ≡ false
      → lookup_fd old w.fds ≡ some h
      → Copied new h w.fds (dup2 (pos old) new w).0 (dup2 (pos old) new w).1
  unfolding dup2
  dup2-Copied old new h w ne e =
      rw (e, dup2) (call_rule (Copied new h w.fds) _ _ w (λ k. refl) (rw ne refl))

  -- A program is executed or the child exits with an error.
  pub execv_rule {ℓ} :
      (P : ChildEnd → World → Type ℓ) (path : Bytes) (args : List Bytes) (w : World)
      → P (executes path args) (record w { tick = w.tick + 1 })
      → ((e : ℕ) → P (child_exits (suc e)) (record w { tick = w.tick + 1; errno = suc e }))
      → P (execv path args w).0 (execv path args w).1
  unfolding execv
  execv_rule P path args w done fails = split (env.fault w.tick)
    where
      split :
          (o : Option ℕ)
          → let r : ChildEnd × World = elim o [
            | none ↦ (executes path args, record w { tick = w.tick + 1 })
            | some e ↦ (child_exits (suc e), record w { tick = w.tick + 1; errno = suc e })
          ] in
            P r.0 r.1
      split none = done
      split (some e) = fails e

  -- Where no call fails.
  pub dup2_quiet :
      IsQuiet env
      → (old new : ℕ) (h : Handle) (w : World) → lookup_fd old w.fds ≡ some h
      → (dup2 (pos old) new w).0 ≡ pos new
  unfolding dup2
  dup2_quiet q old new h w e = rw (e, dup2, call_done) refl

  pub execv_quiet :
      IsQuiet env
      → (path : Bytes) (args : List Bytes) (w : World) → (execv path args w).0 ≡ executes path args
  unfolding execv
  execv_quiet q path args w = rw (q w.tick, execv) refl
