-- ===== src/InodeCache/Refinement/Run.antt =====
-- The code answers a client's calls as the map does, when no call of the system fails.
use pdistcc.Base.{
  ℕ, ◌+◌, ◌<◌, negsuc, List, [], ◌∷◌, ◌≡◌, ◌∙◌, refl, ap, ap₂, subst, inl, inr, Option-cases, false,
  Option, none, some, Bytes, length, ltb, arith,
}
use pdistcc.System.World.{World, Handle, Stat, Env, IsQuiet, enoent}
use pdistcc.System.Keeps.{kept}
use pdistcc.System.Quiet.{stat-none}
use pdistcc.InodeCache.Key.{entry_key, hash_stated, hash_inode}
use pdistcc.InodeCache.Ops.{
  ino_cache_entry_max_size, put_out, put_hashed, put_checked, inode_cache_put, get_out, get_hashed,
  inode_cache_get, del_out, del_hashed, inode_cache_del,
}
use pdistcc.InodeCache.ReadOnly.{inode_cache_get-Keeps}
use pdistcc.InodeCache.RoundTrip.Names.{length-entry_key}
use pdistcc.InodeCache.RoundTrip.Put.{
  IsReady, IsFree, open_cache, lock_file_path, inode_cache_put-IsPut,
}
use pdistcc.InodeCache.RoundTrip.Get.{inode_cache_get-IsHad}
use pdistcc.InodeCache.RoundTrip.Del.{inode_cache_del-IsDeleted}
use pdistcc.InodeCache.RoundTrip.Missing.{inode_cache_get_missing}
use pdistcc.InodeCache.Client.{
  Op, put, get, del, returned, found, answer, run_op, run, Contents, map_op, map_run, path_of,
  IsFitting, IsFit,
}
use pdistcc.InodeCache.Refinement.{
  Represents, Represents-Keeps, Represents-update, IsLockFile, IsLockFile-ne, stored, stored_ne,
}
use pdistcc.System.Memory.{free}

module _ ⦃env : Env⦄ (quiet : IsQuiet env) (sixteen : (x : Bytes) → length (env.md5 x) ≡ 16)
    (files : Bytes → Option Stat) (dir : Option Bytes) (d : ℕ) (hd : Handle) where
  -- One call: the same answer, and a directory that stands for the map after it.
  abbrev Refines : Op → Contents → World → Type 0
  Refines op m w =
      ((run_op (open_cache dir d) op w).0 ≡ (map_op files op m).0)
      × Represents files d hd (map_op files op m).1 (run_op (open_cache dir d) op w).1

  hash_inode_absent :
      (path : Bytes) (kind : ℕ) (w : World)
      → w.stats path ≡ none
      → hash_inode path kind w ≡ ((negsuc 1, none), record w { tick = w.tick + 1; errno = enoent })
  unfolding hash_inode hash_stated
  hash_inode_absent path kind w e = rw (stat-none quiet path w e) refl

  put_absent :
      (path : Bytes) (kind : ℕ) (value : Bytes) (w : World)
      → length value < 510
      → w.stats path ≡ none
      → inode_cache_put (some (open_cache dir d)) (some path) kind (some value) w
        ≡ (negsuc 1, record w { tick = w.tick + 1; errno = enoent })
  unfolding inode_cache_put put_checked put_hashed put_out free
  put_absent path kind value w short e =
      let fits : ltb ino_cache_entry_max_size (length value + 1) ≡ false = ground arith in
      rw (fits, inode_cache_put) (rw (hash_inode_absent path kind w e) refl)

  -- A file that does not exist.
  absent :
      (op : Op) (m : Contents) (w : World)
      → IsFit (op ∷ [])
      → files (path_of files op) ≡ none
      → Represents files d hd m w
      → Refines op m w
  unfolding run_op map_op inode_cache_put put_checked put_hashed put_out inode_cache_get get_hashed
      get_out inode_cache_del del_hashed del_out free
  absent (put path kind value) m w fit e r = rw e (
      rw (put_absent path kind value w fit.0.0 (ap (λ f. f path) r.inodes ∙ e))
        (refl, Represents-Keeps (kept refl refl refl (omega arith)) r))
  absent (get path kind) m w fit e r = rw e (
      rw (hash_inode_absent path kind w (ap (λ f. f path) r.inodes ∙ e))
        (refl, Represents-Keeps (kept refl refl refl (omega arith)) r))
  absent (del path kind) m w fit e r = rw e (
      rw (hash_inode_absent path kind w (ap (λ f. f path) r.inodes ∙ e))
        (refl, Represents-Keeps (kept refl refl refl (omega arith)) r))

  module _ (path : Bytes) (st : Stat) (kind : ℕ) (m : Contents) (w : World)
      (e : files path ≡ some st) (r : Represents files d hd m w) where
    abbrev key : Bytes
    key = entry_key st kind

    length-key : length key ≡ 32
    length-key = length-entry_key sixteen st kind

    ready : IsReady d hd path st w
    ready = record {
      dir_open = r.dir_open;
      old_fd = r.old_fd;
      file_stat = ap (λ f. f path) r.inodes ∙ e;
    }

    unused : IsFree hd st kind w
    unused = record {
      entry_free = rw (r.entries key length-key) (stored_ne (m key));
      lock_free = IsLockFile-ne (m key) _ (r.locks key length-key);
    }

    put-Refines : (value : Bytes) → IsFitting value → Refines (put path kind value) m w
    unfolding run_op map_op
    put-Refines value fit =
        let p =
          inode_cache_put-IsPut quiet sixteen dir d hd path st kind value w ready unused
            (omega (arith, fit.0)) in
        rw e (
          ap returned p.succeeds,
          Represents-update key (some value) length-key p.frame p.entry_file p.lock_file
              (λ t i. subst (λ o. IsFitting (IsSome_text o)) i fit) r,
        )
      where
        IsSome_text : Option Bytes → Bytes
        IsSome_text none = []
        IsSome_text (some t) = t

    del-Refines : Refines (del path kind) m w
    unfolding run_op map_op
    del-Refines =
        let p = inode_cache_del-IsDeleted quiet sixteen dir d hd path st kind w ready unused in
        rw e (
          ap returned p.succeeds,
          Represents-update key none length-key p.frame p.entry_gone p.lock_file
              (λ t i. absurd (ground (arith, i))) r,
        )

    got_none : m key ≡ none → Refines (get path kind) m w
    unfolding run_op map_op
    got_none i =
        let there : IsLockFile none (w.node (lock_file_path hd st kind)) =
          subst (λ o. IsLockFile o (w.node (lock_file_path hd st kind))) i
            (r.locks key length-key) in
        let g =
          inode_cache_get_missing quiet sixteen dir d hd path st kind none w ready
            (r.entries key length-key ∙ ap stored i) there in
        rw (e, i)
          (
            ap answer g,
            Represents-Keeps (inode_cache_get-Keeps (open_cache dir d) path kind (some none) w) r,
          )

    got_some : (v : Bytes) → m key ≡ some v → Refines (get path kind) m w
    unfolding run_op map_op
    got_some v i =
        let (short, text) = r.fits key v i in
        let (s, g, t) =
          inode_cache_get-IsHad quiet sixteen dir d hd path st kind none v w ready
            (r.entries key length-key ∙ ap stored i)
            (subst (λ o. IsLockFile o (w.node (lock_file_path hd st kind))) i
              (r.locks key length-key))
            short text in
        rw (e, i)
          (
            ap answer g ∙ ap found t,
            Represents-Keeps (inode_cache_get-Keeps (open_cache dir d) path kind (some none) w) r,
          )

    get-Refines : Refines (get path kind) m w
    get-Refines = elim (Option-cases (m key)) [ inl i ↦ got_none i | inr (v, i) ↦ got_some v i ]

  -- A file that exists.
  present :
      (op : Op) (st : Stat) (m : Contents) (w : World)
      → IsFit (op ∷ [])
      → files (path_of files op) ≡ some st
      → Represents files d hd m w
      → Refines op m w
  present (put path kind value) st m w fit e r = put-Refines path st kind m w e r value fit.0
  present (get path kind) st m w fit e r = get-Refines path st kind m w e r
  present (del path kind) st m w fit e r = del-Refines path st kind m w e r

  run_op-Refines :
      (op : Op) (m : Contents) (w : World)
      → IsFit (op ∷ [])
      → Represents files d hd m w
      → Refines op m w
  run_op-Refines op m w fit r = elim (Option-cases (files (path_of files op))) [
    | inl e ↦ absent op m w fit e r
    | inr (st, e) ↦ present op st m w fit e r
  ]

  IsFit-head : (op : Op) (ops : List Op) → IsFit (op ∷ ops) → IsFit (op ∷ []) × IsFit ops
  IsFit-head (put path kind value) ops (f, g) = ((f, tt), g)
  IsFit-head (get path kind) ops f = (tt, f)
  IsFit-head (del path kind) ops f = (tt, f)

  -- If no call of the system fails, any sequence of calls of `inode_cache_put`, `inode_cache_get`
  -- and `inode_cache_del` is answered as a map from the entries' names to texts answers it: a put
  -- and a del with 0, a get with the text last put and not deleted since, or with -ENOENT, and each
  -- call for a file that does not exist with -ENOENT. At the start the cache's directory is open
  -- and stands for a map, and so it does at the end. The texts put have at most 509 characters, and
  -- a digest has 16 bytes.
  pub run-map_run :
      (ops : List Op) (m : Contents) (w : World)
      → IsFit ops
      → Represents files d hd m w
      → let (answers, w') = run (open_cache dir d) ops w in
        (answers ≡ (map_run files ops m).0) × Represents files d hd (map_run files ops m).1 w'
  unfolding run map_run
  run-map_run [] m w fit r = (refl, r)
  run-map_run (op ∷ ops) m w fit r =
      let (f, g) = IsFit-head op ops fit in
      let (a, r') = run_op-Refines op m w f r in
      let (l, r'') = run-map_run ops _ _ g r' in (ap₂ (λ x y. x ∷ y) a l, r'')
