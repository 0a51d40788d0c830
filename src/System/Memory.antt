-- ===== src/System/Memory.antt =====
-- The heap: asprintf(3), strdup(3) and free(3).
use pdistcc.Base.{
  ℕ, suc, ◌+◌, Bool, false, List, [], ◌∷◌, ◌||◌, none, some, Bytes, ◌==◌, if◌then◌else◌,
}
use pdistcc.System.World.{Ptr, Env, M, call}

unfoldable pub has_block : ℕ → List ℕ → Bool
has_block n [] = false
has_block n (m ∷ l) = m == n || has_block n l

unfoldable pub remove_block : ℕ → List ℕ → List ℕ
remove_block n [] = []
remove_block n (m ∷ l) = if m == n then l else m ∷ remove_block n l

abbrev pub new_block : Bytes → M Ptr
new_block b w = (
  some (record { block = w.next_block; text = b }),
  record w { blocks = w.next_block ∷ w.blocks; next_block = suc w.next_block },
)

module _ ⦃env : Env⦄ where
  -- `asprintf(&p, ...)`: NULL is its -1.
  unfoldable pub asprintf : Bytes → M Ptr
  asprintf b = call none (new_block b)

  -- `strdup(s)`
  unfoldable pub strdup : Bytes → M Ptr
  strdup b = call none (new_block b)

-- `free(p)`
unfoldable pub free : Ptr → M (Unit {0})
unfolding has_block remove_block
free none w = (tt, w)
free (some s) w =
    if has_block s.block w.blocks
    then (tt, record w { blocks = remove_block s.block w.blocks })
    else (tt, record w { misuse = w.misuse + 1 })
