-- ===== src/InodeCache/Refinement.antt =====
-- A directory of entries and lock files that stands for a map from names to texts.
pub mod Run
mod Tests
use pdistcc.Base.{
  ℕ, ◌+◌, ◌<◌, ◌≤◌, List, [], ◌∷◌, ◌++◌, ◌≡◌, ◌≢◌, ◌∙◌, refl, sym, ap, subst, ◌⊎◌, inl, inr,
  Bool-cases, true, false, Option, none, some, Bytes, FilePath, bytes_eq, bytes_eq→eq,
  bytes_eq_refl, path_eq, length, arith, if◌then◌else◌, ascii,
}
use pdistcc.System.World.{World, Handle, Node, directory, regular, Stat, Env}
use pdistcc.System.Files.{lookup_fd}
use pdistcc.System.Keeps.{Frame, Keeps}
use pdistcc.InodeCache.Lock.{lock_name}
use pdistcc.InodeCache.Client.{Contents, update, IsFitting}
use pdistcc.InodeCache.RoundTrip.Names.{bytes_eq-length_ne, length-lock_name}

-- What an entry holds.
abbrev pub stored : Option Bytes → Option Node
stored none = none
stored (some v) = some (regular (v ++ 0 ∷ []))

-- A lock file is there if there is an entry, and may be there if there is none.
abbrev pub IsLockFile : Option Bytes → Option Node → Type 0
IsLockFile none o = (o ≡ none) ⊎ (o ≡ some (regular []))
IsLockFile (some v) o = o ≡ some (regular [])

-- The directory, open as `d`, holds the entries of `m` and their lock files, and the files have the
-- inodes that `files` says. A name of an entry has 32 characters.
pub record Represents (files : Bytes → Option Stat) (d : ℕ) (hd : Handle) (m : Contents) (w : World)
    : Type 0 where
  pub dir_open : lookup_fd d w.fds ≡ some hd
  pub old_fd : d < w.next_fd
  pub inodes : w.stats ≡ files
  pub entries : (key : Bytes) → length key ≡ 32 → w.node (key ∷ hd.path) ≡ stored (m key)
  pub locks :
      (key : Bytes) → length key ≡ 32 → IsLockFile (m key) (w.node (lock_name key ∷ hd.path))
  pub fits : (key v : Bytes) → m key ≡ some v → IsFitting v

pub stored_ne : (o : Option Bytes) → stored o ≢ some directory
stored_ne none = ground arith
stored_ne (some v) = ground arith

pub IsLockFile-ne : (v : Option Bytes) (o : Option Node) → IsLockFile v o → o ≢ some directory
IsLockFile-ne none o (inl e) = rw e (ground arith)
IsLockFile-ne none o (inr e) = rw e (ground arith)
IsLockFile-ne (some v) o e = rw e (ground arith)

IsLockFile-there : (v : Option Bytes) (o : Option Node) → o ≡ some (regular []) → IsLockFile v o
IsLockFile-there none o e = inr e
IsLockFile-there (some v) o e = e

bytes_eq-append_false :
    (a b s : Bytes)
    → length a ≡ length b
    → bytes_eq a b ≡ false
    → bytes_eq (a ++ s) (b ++ s) ≡ false
unfolding bytes_eq
bytes_eq-append_false [] [] s h e = ground arith
bytes_eq-append_false [] (y ∷ b) s h e = absurd (omega (arith, h))
bytes_eq-append_false (x ∷ a) [] s h e = absurd (omega (arith, h))
bytes_eq-append_false (x ∷ a) (y ∷ b) s h e = ground (arith, bytes_eq-append_false a b s)

path_eq-bytes_eq :
    (a b : Bytes) (p : FilePath) → bytes_eq a b ≡ false → path_eq (a ∷ p) (b ∷ p) ≡ false
unfolding path_eq
path_eq-bytes_eq a b p e = rw e refl

-- Two names of entries, and their lock files: none is another's.
module _ (n k : Bytes) (hn : length n ≡ 32) (hk : length k ≡ 32) where
  lock_name_ne : bytes_eq (lock_name n) k ≡ false
  lock_name_ne = bytes_eq-length_ne (lock_name n) k (omega (arith, length-lock_name n, hn, hk))

  ne_lock_name : bytes_eq n (lock_name k) ≡ false
  ne_lock_name = bytes_eq-length_ne n (lock_name k) (omega (arith, length-lock_name k, hn, hk))

  lock_names_ne : bytes_eq n k ≡ false → bytes_eq (lock_name n) (lock_name k) ≡ false
  unfolding lock_name
  lock_names_ne e = bytes_eq-append_false n k (ascii ".lock") (hn ∙ sym hk) e

module _ {files : Bytes → Option Stat} {d : ℕ} {hd : Handle} {m : Contents} {w w' : World} where
  -- A call that changes nothing of the tree.
  pub Represents-Keeps :
      Keeps w.next_fd w w' → Represents files d hd m w → Represents files d hd m w'
  Represents-Keeps f r = record {
    dir_open = f.handles d r.old_fd ∙ r.dir_open;
    old_fd = omega (arith, r.old_fd, f.grows);
    inodes = f.stats ∙ r.inodes;
    entries = λ k h. f.nodes (k ∷ hd.path) tt ∙ r.entries k h;
    locks = λ k h. rw (f.nodes (lock_name k ∷ hd.path) tt) (r.locks k h);
    fits = r.fits;
  }

  -- A call that puts or removes one entry, under its lock.
  module _ (n : Bytes) (v : Option Bytes) (hn : length n ≡ 32)
      (f : Frame w.next_fd ((n ∷ hd.path) ∷ (lock_name n ∷ hd.path) ∷ []) w w')
      (entry : w'.node (n ∷ hd.path) ≡ stored v)
      (lock : w'.node (lock_name n ∷ hd.path) ≡ some (regular []))
      (fitting : (t : Bytes) → v ≡ some t → IsFitting t) (r : Represents files d hd m w) where
    updated_entries : (k : Bytes) → length k ≡ 32 → w'.node (k ∷ hd.path) ≡ stored (update n v m k)
    unfolding update
    updated_entries k h = elim (Bool-cases (bytes_eq n k)) [
      | inl e ↦ rw e (subst (λ x. w'.node (x ∷ hd.path) ≡ stored v) (bytes_eq→eq n k e) entry)
      | inr e ↦ rw e (
          f.nodes (k ∷ hd.path) (
            path_eq-bytes_eq n k _ e,
            (path_eq-bytes_eq (lock_name n) k _ (lock_name_ne n k hn h), tt),
          )
          ∙ r.entries k h)
    ]

    updated_locks :
        (k : Bytes) → length k ≡ 32 → IsLockFile (update n v m k) (w'.node (lock_name k ∷ hd.path))
    unfolding update
    updated_locks k h = elim (Bool-cases (bytes_eq n k)) [
      | inl e ↦ rw e (
          IsLockFile-there v _ (
            subst (λ x. w'.node (lock_name x ∷ hd.path) ≡ some (regular [])) (bytes_eq→eq n k e)
              lock))
      | inr e ↦ rw e (
          rw
            (f.nodes (lock_name k ∷ hd.path) (
              path_eq-bytes_eq n (lock_name k) _ (ne_lock_name n k hn h),
              (path_eq-bytes_eq (lock_name n) (lock_name k) _ (lock_names_ne n k hn h e), tt),
            ))
            (r.locks k h))
    ]

    updated_fits : (k t : Bytes) → update n v m k ≡ some t → IsFitting t
    unfolding update
    updated_fits k t e = elim (Bool-cases (bytes_eq n k)) [
      | inl i ↦ fitting t (rw i at e)
      | inr i ↦ r.fits k t (rw i at e)
    ]

    pub Represents-update : Represents files d hd (update n v m) w'
    Represents-update = record {
      dir_open = f.handles d r.old_fd ∙ r.dir_open;
      old_fd = omega (arith, r.old_fd, f.grows);
      inodes = f.stats ∙ r.inodes;
      entries = updated_entries;
      locks = updated_locks;
      fits = updated_fits;
    }
