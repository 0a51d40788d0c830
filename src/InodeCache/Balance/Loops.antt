-- ===== src/InodeCache/Balance/Loops.antt =====
-- What the loops of `read_entry` and `write_entry` do to descriptors and blocks: nothing.
use pdistcc.Base.{
  ℕ, zero, suc, ℤ, pos, negsuc, [], ◌∷◌, ◌≡◌, refl, ◌∙◌, Bytes, length, ◌-◌, ◌==◌, Bool, true,
  false, ◌+◌,
}
use pdistcc.System.World.{World, Env, M, note_misuse}
use pdistcc.System.Files.{Transfer, failed, got}
use pdistcc.System.Resources.{Resources, resources, read-Same, write-Same}
use pdistcc.InodeCache.Entry.{
  Reading, reading, read_step, write_step, read_round, read_loop, read_end, read_array, write_loop,
  write_entry,
}

abbrev IsNeutral : {A : Type 0} → M A → Type 0
IsNeutral m = (w : World) → resources (m w).1 ≡ resources w

write_step-IsNeutral :
    (rest : Bytes → M ℤ) (value : Bytes) (n : ℤ)
    → ((v : Bytes) → IsNeutral (rest v))
    → IsNeutral (write_step rest value n)
unfolding write_step
write_step-IsNeutral rest value (negsuc k) h w = refl
write_step-IsNeutral rest value (pos k) h w = h _ w

read_step-IsNeutral :
    (rest : Reading → M Reading) (s : Reading) (t : Transfer)
    → ((s : Reading) → IsNeutral (rest s))
    → IsNeutral (read_step rest s t)
unfolding read_step
read_step-IsNeutral rest s failed h w = refl
read_step-IsNeutral rest s (got []) h w = refl
read_step-IsNeutral rest s (got (x ∷ l)) h w = h _ w

module _ ⦃env : Env⦄ where
  write_loop-IsNeutral : (fuel : ℕ) (fd : ℤ) (value : Bytes) → IsNeutral (write_loop fuel fd value)
  unfolding write_loop
  write_loop-IsNeutral zero fd value w = refl
  write_loop-IsNeutral (suc fuel) fd [] w = refl
  write_loop-IsNeutral (suc fuel) fd (x ∷ l) w =
      write_step-IsNeutral (write_loop fuel fd) (x ∷ l) _ (write_loop-IsNeutral fuel fd) _
      ∙ write-Same fd (x ∷ l) w

  pub write_entry-IsNeutral :
      (fd : ℤ) (value : Bytes) (w : World) → resources (write_entry fd value w).1 ≡ resources w
  unfolding write_entry
  write_entry-IsNeutral fd value w = write_loop-IsNeutral (suc (length value)) fd value w

  read_round-IsNeutral :
      (rest : Reading → M Reading) (fd : ℤ) (s : Reading) (room : ℕ)
      → ((s : Reading) → IsNeutral (rest s))
      → IsNeutral (read_round rest fd s room)
  unfolding read_round
  read_round-IsNeutral rest fd s zero h w = refl
  read_round-IsNeutral rest fd s (suc room) h w =
      read_step-IsNeutral rest s _ h _ ∙ read-Same fd (suc room) w

  read_loop-IsNeutral : (fuel : ℕ) (fd : ℤ) (s : Reading) → IsNeutral (read_loop fuel fd s)
  unfolding read_loop
  read_loop-IsNeutral zero fd s w = refl
  read_loop-IsNeutral (suc fuel) fd s w =
      read_round-IsNeutral (read_loop fuel fd) fd s s.room (read_loop-IsNeutral fuel fd) w

  -- At most one access outside the array, and nothing else.
  abbrev pub Noted : Resources → Resources → Type 0
  Noted r r' = (k : ℕ) × (r' ≡ record r { misuse = k })

  pub note_misuse-Noted :
      (b : Bool) (w : World) → Noted (resources w) (resources (note_misuse b w).1)
  unfolding note_misuse resources
  note_misuse-Noted true w = (w.misuse + 1, refl)
  note_misuse-Noted false w = (w.misuse, refl)

  read_end-Noted :
      (s : Reading) (t : Transfer) (w : World) → Noted (resources w) (resources (read_end s t w).1)
  unfolding read_end resources
  read_end-Noted s failed w = (w.misuse, refl)
  read_end-Noted s (got []) w = note_misuse-Noted (s.at == 0) w
  read_end-Noted s (got (x ∷ l)) w = (w.misuse, refl)

  pub read_array-Noted :
      (fd : ℤ) (buf : Bytes) (len : ℕ) (w : World)
      → Noted (resources w) (resources (read_array fd buf len w).1)
  unfolding read_array
  read_array-Noted fd buf len w =
      rw (← read_loop-IsNeutral len fd (reading buf (len - 1)) w)
        (let (s, w') = read_loop len fd (reading buf (len - 1)) w in read_end-Noted s s.last w')
