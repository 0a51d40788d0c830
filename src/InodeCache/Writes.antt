-- ===== src/InodeCache/Writes.antt =====
-- The loop of `write_entry` when no call fails: however few bytes each call takes, the whole value
-- is written.
use mathlib.Core.List.{append_assoc, append-nil}
use pdistcc.Base.{
  ℕ, zero, suc, ◌+◌, ◌<◌, ℤ, pos, [], ◌∷◌, ◌++◌, ◌≡◌, refl, ap, Bytes, arith, length, take, drop,
  min, length-append, length-take, length-drop,
}
use pdistcc.System.World.{World, Handle, Env, IsQuiet}
use pdistcc.System.Frames.{
  OpenAt, IsFramed, IsFramed-refl, IsFramed-trans, grown, write-grown, grown-OpenAt, grown-IsFramed,
}
use pdistcc.InodeCache.Entry.{write_step, write_loop, write_entry}

-- A file that held `done` holds `done ++ v`.
pub record Finished (n : ℕ) (h : Handle) (done v : Bytes) (w : World) (r : ℤ × World) : Type 0 where
  pub succeeds : r.0 ≡ pos 0
  pub handle : Handle
  pub same_path : handle.path ≡ h.path
  pub after : OpenAt n handle (done ++ v) r.1
  pub frame : IsFramed h.path n w r.1

pub take-nil : (k : ℕ) → take {A = ℕ} k [] ≡ []
take-nil zero = refl
take-nil (suc k) = refl

pub take-append-drop-length : (k : ℕ) (l : Bytes) → take k l ++ drop (length (take k l)) l ≡ l
take-append-drop-length zero l = refl
take-append-drop-length (suc k) [] = refl
take-append-drop-length (suc k) (x ∷ l) = ap (λ t. x ∷ t) (take-append-drop-length k l)

module _ ⦃env : Env⦄ (quiet : IsQuiet env) (n : ℕ) where
  -- One write, and the rest.
  Finished-grown :
      (h : Handle) (done b v' v : Bytes) (w : World) (r : ℤ × World)
      → b ++ v' ≡ v
      → Finished n
          (record h { offset = length done + length b })
          (done ++ b)
          v'
          (grown quiet n h done b w)
          r
      → Finished n h done v w r
  Finished-grown h done b v' v w r e f = record {
    succeeds = f.succeeds;
    handle = f.handle;
    same_path = f.same_path;
    after = rw (← e, ← append_assoc) f.after;
    frame = IsFramed-trans (grown-IsFramed quiet n h done b w) f.frame;
  }

  write_loop-Finished :
      (fuel : ℕ) (h : Handle) (done v : Bytes) (w : World)
      → OpenAt n h done w
      → h.offset ≡ length done
      → length v < fuel
      → Finished n h done v w (write_loop fuel (pos n) v w)
  unfolding write_loop write_step
  write_loop-Finished zero h done v w o e f = absurd (omega arith)
  write_loop-Finished (suc fuel) h done [] w o e f = record {
    succeeds = refl;
    handle = h;
    same_path = refl;
    after = rw append-nil o;
    frame = IsFramed-refl h.path n w;
  }
  write_loop-Finished (suc fuel) h done (x ∷ l) w o e f =
      let k = min (length (x ∷ l)) (suc (env.chunk w.tick)) in
      let b = take k (x ∷ l) in
      let counted : length b ≡ k = omega (arith, length-take k (x ∷ l)) in
      rw (write-grown quiet n h done (x ∷ l) w o e) (
        Finished-grown h done b (drop (length b) (x ∷ l)) (x ∷ l) w _
          (take-append-drop-length k (x ∷ l))
          (write_loop-Finished fuel _ (done ++ b) (drop (length b) (x ∷ l)) _
            (grown-OpenAt quiet n h done b w o) (omega (arith, length-append done b))
            (omega (arith, length-drop (length b) (x ∷ l), length-take k l))))

  -- `write_entry` stores the whole value behind what the file holds.
  pub write_entry-Finished :
      (h : Handle) (done v : Bytes) (w : World)
      → OpenAt n h done w
      → h.offset ≡ length done
      → Finished n h done v w (write_entry (pos n) v w)
  unfolding write_entry
  write_entry-Finished h done v w o e =
      write_loop-Finished (suc (length v)) h done v w o e (omega arith)
