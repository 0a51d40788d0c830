-- ===== src/System/Frames.antt =====
-- What reads and writes do to an open file when no call fails, and what they leave alone.
use pdistcc.Base.{
  ℕ, suc, ◌+◌, pos, false, List, [], ◌∷◌, ◌++◌, ◌≡◌, refl, ◌∙◌, Option, some, Bytes, arith, ◌==◌,
  length, take, min, FilePath, path_eq, path_eq_refl, drop-length-append, take_all, drop_past,
}
use mathlib.Core.List.{append-nil}
use pdistcc.System.World.{World, Handle, Node, regular, Env, IsQuiet, call_done}
use pdistcc.System.Files.{lookup_fd, set_fd, put_node, got, read, write}

pub lookup_fd-set_fd_self :
    (n : ℕ) (h k : Handle) (l : List (ℕ × Handle))
    → lookup_fd n l ≡ some h
    → lookup_fd n (set_fd n k l) ≡ some k
unfolding lookup_fd set_fd
lookup_fd-set_fd_self n h k [] e = ground arith
lookup_fd-set_fd_self n h k ((m, j) ∷ l) e = ground (arith, lookup_fd-set_fd_self n h k l)

pub lookup_fd-set_fd_ne :
    (n d : ℕ) (k : Handle) (l : List (ℕ × Handle))
    → (n == d) ≡ false
    → lookup_fd d (set_fd n k l) ≡ lookup_fd d l
unfolding lookup_fd set_fd
lookup_fd-set_fd_ne n d k [] e = refl
lookup_fd-set_fd_ne n d k ((m, j) ∷ l) e = ground (arith, lookup_fd-set_fd_ne n d k l)

pub put_node_self :
    (p : FilePath) (v : Option Node) (f : FilePath → Option Node) → put_node p v f p ≡ v
unfolding put_node
put_node_self p v f = rw (path_eq_refl p) refl

pub put_node_ne :
    (p q : FilePath) (v : Option Node) (f : FilePath → Option Node)
    → path_eq p q ≡ false
    → put_node p v f q ≡ f q
unfolding put_node
put_node_ne p q v f e = rw e refl

-- The descriptor `n` is open with `h` on a file that holds `b`.
pub record OpenAt (n : ℕ) (h : Handle) (b : Bytes) (w : World) : Type 0 where
  pub is_open : lookup_fd n w.fds ≡ some h
  pub holds : w.node h.path ≡ some (regular b)

-- Only the file `p` and the descriptor `n` differ.
pub record IsFramed (p : FilePath) (n : ℕ) (w w' : World) : Type 0 where
  pub nodes : (q : FilePath) → path_eq p q ≡ false → w'.node q ≡ w.node q
  pub handles : (d : ℕ) → (n == d) ≡ false → lookup_fd d w'.fds ≡ lookup_fd d w.fds
  pub stats : w'.stats ≡ w.stats

pub IsFramed-refl : (p : FilePath) (n : ℕ) (w : World) → IsFramed p n w w
IsFramed-refl p n w = record { nodes = λ q e. refl; handles = λ d e. refl; stats = refl }

pub IsFramed-trans :
    {p : FilePath} {n : ℕ} {u v w : World} → IsFramed p n u v → IsFramed p n v w → IsFramed p n u w
IsFramed-trans f g = record {
  nodes = λ q e. g.nodes q e ∙ f.nodes q e;
  handles = λ d e. g.handles d e ∙ f.handles d e;
  stats = g.stats ∙ f.stats;
}

module _ ⦃env : Env⦄ (quiet : IsQuiet env) where
  -- The world after `b` was written at the end of a file that held `done`.
  abbrev pub grown : ℕ → Handle → Bytes → Bytes → World → World
  grown n h done b w = record w {
    tick = w.tick + 1;
    node = put_node h.path (some (regular (done ++ b))) w.node;
    fds = set_fd n (record h { offset = length done + length b }) w.fds;
  }

  pub write-grown :
      (n : ℕ) (h : Handle) (done v : Bytes) (w : World)
      → OpenAt n h done w
      → h.offset ≡ length done
      → let b = take (min (length v) (suc (env.chunk w.tick))) v in
        write (pos n) v w ≡ (pos (length b), grown n h done b w)
  unfolding write
  write-grown n h done v w o e =
      rw (o.is_open, write)
        (rw (call_done, quiet w.tick) (rw (o.holds, e, take_all, drop_past, append-nil) refl))

  pub grown-OpenAt :
      (n : ℕ) (h : Handle) (done b : Bytes) (w : World)
      → OpenAt n h done w
      → OpenAt n (record h { offset = length done + length b }) (done ++ b) (grown n h done b w)
  grown-OpenAt n h done b w o = record {
    is_open = lookup_fd-set_fd_self n h _ w.fds o.is_open;
    holds = put_node_self h.path _ w.node;
  }

  pub grown-IsFramed :
      (n : ℕ) (h : Handle) (done b : Bytes) (w : World) → IsFramed h.path n w (grown n h done b w)
  grown-IsFramed n h done b w = record {
    nodes = λ q e. put_node_ne h.path q _ w.node e;
    handles = λ d e. lookup_fd-set_fd_ne n d _ w.fds e;
    stats = refl;
  }

  -- The world after `b` was read from a file of which `done` had been read.
  abbrev pub read_on : ℕ → Handle → Bytes → Bytes → World → World
  read_on n h done b w = record w {
    tick = w.tick + 1;
    fds = set_fd n (record h { offset = length done + length b }) w.fds;
  }

  pub read-read_on :
      (n len : ℕ) (h : Handle) (done todo : Bytes) (w : World)
      → OpenAt n h (done ++ todo) w
      → h.offset ≡ length done
      → let b = take (min len (suc (env.chunk w.tick))) todo in
        read (pos n) len w ≡ (got b, read_on n h done b w)
  unfolding read
  read-read_on n len h done todo w o e =
      rw (o.is_open, read) (rw (call_done, quiet w.tick) (rw (o.holds, e, drop-length-append) refl))

  pub read_on-OpenAt :
      (n : ℕ) (h : Handle) (done b c : Bytes) (w : World)
      → OpenAt n h c w
      → OpenAt n (record h { offset = length done + length b }) c (read_on n h done b w)
  read_on-OpenAt n h done b c w o = record {
    is_open = lookup_fd-set_fd_self n h _ w.fds o.is_open;
    holds = o.holds;
  }

  pub read_on-IsFramed :
      (n : ℕ) (h : Handle) (done b : Bytes) (w : World) → IsFramed h.path n w (read_on n h done b w)
  read_on-IsFramed n h done b w = record {
    nodes = λ q e. refl;
    handles = λ d e. lookup_fd-set_fd_ne n d _ w.fds e;
    stats = refl;
  }
