-- ===== src/Fs/Paths.antt =====
-- fs/src/fs.c: `split_path`, `resolve_dir` and `cmd_cd`.
use cs2310_prj.Base.{
  ℕ, Bool, false, not, ◌&&◌, Option, none, some, List, [], ◌∷◌, ◌++◌, if◌then◌else◌, ltb, ◌==◌,
  length,
}
use cs2310_prj.Base.Text.{str_eq}
use cs2310_prj.Fs.{Device, Fs, M, ◌>>=◌, ◌>>◌, pure, fault, gets, get_inode}
use cs2310_prj.Fs.Inodes.{t_dir, iget, iput}
use cs2310_prj.Fs.Dir.{maxname, is_none, dir_lookup, dot, slash, e_success, e_error}
use cs2310_prj.Fs.Commands.{deref, set_cwd}

-- What stands before and behind the last slash, `strrchr(path, '/')`.
unfoldable pub last_slash : List ℕ → Option (List ℕ × List ℕ)
last_slash [] = none
last_slash (c ∷ s) = elim (last_slash s) [
  | some (dir, leaf) ↦ some (c ∷ dir, leaf)
  | none ↦ if c == b'/' then some ([], s) else none
]

-- The directory and the last segment of a path.
unfoldable pub split_at : List ℕ → Option (List ℕ × List ℕ) → List ℕ × List ℕ
split_at path none = ([], path)
split_at path (some ([], leaf)) = (slash, leaf)
split_at path (some (c ∷ dir, leaf)) = (c ∷ dir, leaf)

abbrev pub split_path : List ℕ → List ℕ × List ℕ
split_path path = split_at path (last_slash path)

abbrev pub push_segment : List ℕ → List (List ℕ) → List (List ℕ)
push_segment [] rest = rest
push_segment (c ∷ s) rest = (c ∷ s) ∷ rest

-- The segments that `strtok_r(…, "/")` delivers; `seg` has been read of the first.
unfoldable pub segments : List ℕ → List ℕ → List (List ℕ)
segments seg [] = push_segment seg []
segments seg (c ∷ s) =
    let rest = segments (if c == b'/' then [] else seg ++ c ∷ []) s in
    if c == b'/' then push_segment seg rest else rest

abbrev pub is_absolute : List ℕ → Bool
is_absolute [] = false
is_absolute (c ∷ s) = c == b'/'

-- The sizes of the arrays `dirpath` and `leaf` of `cmd_cd`, with the terminating zero byte.
abbrev pub fits_arrays : List ℕ × List ℕ → Bool
fits_arrays (dir, leaf) = ltb (length dir) 256 && ltb (length leaf) maxname

module _ {D : Device} where
  -- The directory left behind is released.
  unfoldable pub step_into : List ℕ → Option ℕ → M (Fs D) (Option ℕ)
  step_into seg ip = do p ← dir_lookup ip seg t_dir; iput ip; pure p

  -- One step for each segment but ".", up to the first that fails.
  unfoldable pub walk : List (List ℕ) → Option ℕ → M (Fs D) (Option ℕ)
  walk [] ip = pure ip
  walk (seg ∷ segs) ip = do
    next ← if str_eq seg dot then pure ip else step_into seg ip
    if not (str_eq seg dot) && is_none next then pure none else walk segs next

  abbrev pub cwd_inum : M (Fs D) ℕ
  cwd_inum = do s ← gets (λ s. s.session); cwd ← deref s.cwd; ip ← get_inode cwd; pure ip.inum

  unfoldable pub resolve_dir : List ℕ → M (Fs D) (Option ℕ)
  resolve_dir [] = do inum ← cwd_inum; iget inum
  resolve_dir (c ∷ s) = do
    inum ← if is_absolute (c ∷ s) then pure 0 else cwd_inum
    ip ← iget inum
    walk (segments [] (c ∷ s)) ip

  -- The directory that the last segment names, under `parent`, which is released but for ".".
  unfoldable pub enter_leaf : List ℕ → ℕ → M (Fs D) (Option ℕ)
  enter_leaf leaf parent =
      if str_eq leaf dot then pure (some parent) else step_into leaf (some parent)

  abbrev pub replace_cwd : Option ℕ → M (Fs D) (Unit {0})
  replace_cwd target = do s ← gets (λ s. s.session); iput s.cwd; set_cwd target

  unfoldable pub change_to : Option ℕ → M (Fs D) ℕ
  change_to none = pure e_error
  change_to (some target) = do
    ip ← get_inode target
    if ip.type == t_dir
        then (do replace_cwd (some target); pure e_success)
        else (do iput (some target); pure e_error)

  unfoldable pub cd_from : List ℕ → Option ℕ → M (Fs D) ℕ
  cd_from leaf none = pure e_error
  cd_from leaf (some parent) = do target ← enter_leaf leaf parent; change_to target

  -- A path that does not fit the arrays is written past their ends: a fault.
  unfoldable pub cd_path : List ℕ → M (Fs D) ℕ
  cd_path path =
      if fits_arrays (split_path path)
      then (do parent ← resolve_dir (split_path path).0; cd_from (split_path path).1 parent)
      else fault

  unfoldable pub cmd_cd : Option (List ℕ) → M (Fs D) ℕ
  cmd_cd none = pure e_error
  cmd_cd (some path) =
      if str_eq path slash
      then (do
        s ← gets (λ s. s.session)
        iput s.cwd
        root ← iget 0
        set_cwd root
        pure (if is_none root then e_error else e_success))
      else cd_path path
