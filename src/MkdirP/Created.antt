-- ===== src/MkdirP/Created.antt =====
-- `mkdir_p` when no call fails: the directories that it makes, and the descriptor that it returns.
use pdistcc.Base.{
  ℕ, zero, suc, ◌+◌, ◌<◌, ℤ, pos, negsuc, Bool, false, List, [], ◌∷◌, ◌++◌, Option, none, some,
  Bytes, FilePath, length, length-append, ◌==◌, ◌≡◌, ◌≢◌, refl, ◌∙◌, ap, sym, subst, arith,
}
use pdistcc.System.World.{World, directory, regular, Env, IsQuiet, M, call_done}
use pdistcc.System.Files.{base_of, walk, at_fdcwd, open_path, new_fd}
use pdistcc.System.Keeps.{IsOutside}
use pdistcc.MkdirP.Ops.{
  PathText, cut_path, mkdir_out, mkdir_next, mkdir_round, mkdir_loop, mkdir_root, mkdir_start,
  mkdir_p,
}
use pdistcc.MkdirP.Way.{
  prefixes, extend, AllDirectories, NoFiles, IsComponent, IsPlain, ArePlain, join,
  strchr_slash-none, strchr_slash-some, path_eq-length, IsOutside-prefixes, NoFiles-prefixes,
}
use pdistcc.MkdirP.Descent.{
  base_of-lookup_fd, lookup_fd-new_fd, IsAt, IsDown, IsOld, round-IsMade, open-IsDown,
}

module _ ⦃env : Env⦄ where
  -- The directories are there, the last one is open, and nothing else has changed.
  pub record IsCreated (p : FilePath) (cs : List Bytes) (w : World) (r : (ℤ × Bytes) × World)
      : Type 0 where
    pub fd : ℕ
    pub succeeds : r.0.0 ≡ pos fd
    pub is_at : IsAt fd (extend p cs) r.1
    pub made : AllDirectories r.1.node (prefixes p cs)
    pub others : (q : FilePath) → IsOutside q (prefixes p cs) → r.1.node q ≡ w.node q

module _ ⦃env : Env⦄ where
  IsCreated-last :
      (c : Bytes) (p : FilePath) (w v : World) (n : ℕ) (t : PathText)
      → IsDown (c ∷ p) w v n
      → IsCreated p (c ∷ []) w (mkdir_out (pos 0) (pos n) (negsuc 0) t v)
  unfolding mkdir_out
  IsCreated-last c p w v n t d = record {
    fd = n;
    succeeds = refl;
    is_at = d.is_at;
    made = (d.made, tt);
    others = λ q o. d.others q o.0;
  }

  IsCreated-more :
      (c : Bytes) (cs : List Bytes) (p : FilePath) (w v : World) (n : ℕ) (r : (ℤ × Bytes) × World)
      → IsDown (c ∷ p) w v n
      → IsCreated (c ∷ p) cs v r
      → IsCreated p (c ∷ cs) w r
  IsCreated-more c cs p w v n r d i = record {
    fd = i.fd;
    succeeds = i.succeeds;
    is_at = i.is_at;
    made =
        (i.others (c ∷ p) (IsOutside-prefixes (c ∷ p) (c ∷ p) cs (omega arith)) ∙ d.made, i.made);
    others = λ q o. i.others q o.1 ∙ d.others q o.0;
  }

IsCreated-same :
    ⦃env : Env⦄
    → (p : FilePath) (cs : List Bytes) (v w : World) (r : (ℤ × Bytes) × World)
    → ((q : FilePath) → v.node q ≡ w.node q)
    → IsCreated p cs v r
    → IsCreated p cs w r
IsCreated-same p cs v w r e i = record {
  fd = i.fd;
  succeeds = i.succeeds;
  is_at = i.is_at;
  made = i.made;
  others = λ q o. i.others q o ∙ e q;
}

none_ne_some {ℓ} : {A : Type ℓ} {a : A} → (none ≡ some a) → ⊥
none_ne_some h = absurd (ground arith)

module _ ⦃env : Env⦄ (quiet : IsQuiet env) where
  -- A round descends into its component.
  round-IsCreated :
      (rest : ℤ → Bytes → Bytes → M (ℤ × Bytes)) (fd : ℤ) (t : PathText) (cs : List Bytes)
      (p : FilePath) (w : World)
      → base_of fd w ≡ some p
      → IsOld fd w
      → IsPlain t.comp
      → ((b : Bytes) → w.node (t.comp ∷ p) ≢ some (regular b))
      → ((v : World) (n : ℕ)
          → IsDown (t.comp ∷ p) w v n
          → IsCreated p (t.comp ∷ cs) w (mkdir_next rest (pos n) t t.behind v))
      → IsCreated p (t.comp ∷ cs) w (mkdir_round rest fd t w)
  round-IsCreated rest fd t cs p w base old plain way goes =
      let m =
        round-IsMade quiet rest fd t p w base (plain.own_name p) (w.node (t.comp ∷ p)) refl way in
      let d = open-IsDown quiet rest fd t p w base old (plain.own_name p) m.0 m.1 in
      rw (m.2 ∙ d.2) (goes d.0 m.0.next_fd d.1)

  abbrev cut_text : Bytes → Bytes → Option Bytes → PathText
  cut_text before c r = record { before = before; comp = c; cell = 0; behind = r }

  cut_path-last : (before c : Bytes) → IsComponent c → cut_path before c ≡ cut_text before c none
  unfolding cut_path
  cut_path-last before c h = rw (strchr_slash-none c h) refl

  cut_path-more :
      (before c r : Bytes)
      → IsComponent c
      → cut_path before (c ++ b'/' ∷ r) ≡ cut_text before c (some r)
  unfolding cut_path
  cut_path-more before c r h = rw (strchr_slash-some c r h) refl

  mkdir_loop-IsCreated :
      (fuel : ℕ) (c : Bytes) (cs : List Bytes) (fd : ℤ) (before : Bytes) (p : FilePath) (w : World)
      → base_of fd w ≡ some p
      → IsOld fd w
      → ArePlain (c ∷ cs)
      → NoFiles w.node (prefixes p (c ∷ cs))
      → length (join c cs) < fuel
      → IsCreated p (c ∷ cs) w (mkdir_loop fuel fd before (join c cs) w)
  unfolding mkdir_loop mkdir_next
  mkdir_loop-IsCreated zero c cs fd before p w base old plain way f = absurd (omega arith)
  mkdir_loop-IsCreated (suc fuel) c [] fd before p w base old plain way f =
      let t : PathText = cut_text before c none in
      subst (λ u. IsCreated p (c ∷ []) w (mkdir_round (mkdir_loop fuel) fd u w))
        (sym (cut_path-last before c plain.0.slashless))
        (round-IsCreated (mkdir_loop fuel) fd t [] p w base old plain.0 way.0
          (λ v n d. IsCreated-last c p w v n t d))
  mkdir_loop-IsCreated (suc fuel) c (e ∷ cs) fd before p w base old plain way f =
      let t : PathText = cut_text before c (some (join e cs)) in
      subst (λ u. IsCreated p (c ∷ e ∷ cs) w (mkdir_round (mkdir_loop fuel) fd u w))
        (sym (cut_path-more before c (join e cs) plain.0.slashless))
        (round-IsCreated (mkdir_loop fuel) fd t (e ∷ cs) p w base old plain.0 way.0 (λ v n d.
          IsCreated-more c (e ∷ cs) p w v n _ d (
            mkdir_loop-IsCreated fuel e cs (pos n) (before ++ (c ++ b'/' ∷ [])) (c ∷ p) v d.is_at.at
              d.is_at.old plain.1
              (NoFiles-prefixes w.node v.node (c ∷ p) (e ∷ cs)
                (λ q l. d.others q (path_eq-length (c ∷ p) q (ground arith))) way.1)
              (omega (arith, f, length-append c (b'/' ∷ join e cs))))))

  start_false :
      (b : Bool) (x : ℕ) (path : Bytes) (w : World)
      → b ≡ false
      → mkdir_start b x path w ≡ mkdir_loop (suc (suc (length path))) at_fdcwd [] (x ∷ path) w
  unfolding mkdir_start
  start_false b x path w h = ap (λ t. mkdir_start t x path w) h

  -- A component does not start with a slash.
  first_lem :
      (x : ℕ) (path : Bytes) (w : World)
      → x ≢ b'/'
      → mkdir_p (x ∷ path) w ≡ mkdir_loop (suc (length (x ∷ path))) at_fdcwd [] (x ∷ path) w
  unfolding mkdir_p
  first_lem x path w h = start_false (x == b'/') x path w (ground arith)

  join_lem :
      (c : Bytes) (cs : List Bytes) (w : World)
      → IsPlain c
      → mkdir_p (join c cs) w ≡ mkdir_loop (suc (length (join c cs))) at_fdcwd [] (join c cs) w
  unfolding walk
  join_lem [] cs w p = absurd (none_ne_some (p.own_name []))
  join_lem (x ∷ c) [] w p = first_lem x c w p.slashless.0
  join_lem (x ∷ c) (d ∷ cs) w p = first_lem x (c ++ b'/' ∷ join d cs) w p.slashless.0

  -- If no call fails and no file has the name of a directory on the way, `mkdir_p` of a relative path
  -- returns a descriptor of the directory that the path leads to from the working directory; that one
  -- and all above it are there, and nothing else has changed in the tree. The path's components are
  -- names: not empty, "." or "..".
  pub mkdir_p-IsCreated :
      (c : Bytes) (cs : List Bytes) (w : World)
      → ArePlain (c ∷ cs)
      → NoFiles w.node (prefixes env.cwd (c ∷ cs))
      → IsCreated env.cwd (c ∷ cs) w (mkdir_p (join c cs) w)
  unfolding base_of
  mkdir_p-IsCreated c cs w plain way = rw (join_lem c cs w plain.0) (
      mkdir_loop-IsCreated (suc (length (join c cs))) c cs at_fdcwd [] env.cwd w refl tt plain way
        (omega arith))

  -- The same of an absolute path, from the root directory on, which is there.
  pub mkdir_p-IsCreated_root :
      (c : Bytes) (cs : List Bytes) (w : World)
      → env.resolve (b'/' ∷ []) ≡ []
      → w.node [] ≡ some directory
      → ArePlain (c ∷ cs)
      → NoFiles w.node (prefixes [] (c ∷ cs))
      → IsCreated [] (c ∷ cs) w (mkdir_p (b'/' ∷ join c cs) w)
  unfolding mkdir_p mkdir_root open_path
  mkdir_p-IsCreated_root c cs w root there plain way =
      rw (call_done, quiet w.tick)
        (rw (root, there)
          (IsCreated-same [] (c ∷ cs) _ w _ (λ q. refl)
            (mkdir_loop-IsCreated (suc (length (join c cs))) c cs (pos w.next_fd) (b'/' ∷ []) []
              (new_fd [] (record w { tick = w.tick + 1 })).1
              (base_of-lookup_fd w.next_fd _ _
                (lookup_fd-new_fd [] (record w { tick = w.tick + 1 })))
              (omega arith) plain way (omega arith))))
