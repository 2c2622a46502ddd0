-- ===== src/Fs/Directories.antt =====
-- fs/src/fs.c: the commands on directories, `cmd_mkdir`, `cmd_rmdir` and `cmd_ls`.
use cs2310_prj.Base.{
  ℕ, zero, suc, ◌+◌, ◌%◌, Bool, not, ◌&&◌, Option, none, some, List, [], ◌∷◌, if◌then◌else◌, leb,
  ◌==◌, replicate,
}
use cs2310_prj.Fs.{Device, Fs, M, ◌>>=◌, ◌>>◌, pure, gets, to_u32, get_inode, put_inode}
use cs2310_prj.Fs.Inodes.{t_dir, iput, ialloc, iupdate}
use cs2310_prj.Fs.Remove.{iremove}
use cs2310_prj.Fs.Dir.{
  DirEntry, decode_entry, entry_size, rounds, read_entry, same_name, dot, dot_dot, slash, dir_add,
  dir_lookup, dir_remove, dir_is_empty, e_success, e_error,
}
use cs2310_prj.Fs.Commands.{deref, owned_by}

-- The test of both loops of `cmd_ls`.
abbrev pub is_listed : DirEntry → Bool
is_listed e =
    not (
      e.inum == 0
      && (not (same_name e.name dot_dot)
          && (not (same_name e.name dot) && not (same_name e.name slash))))
    && (not (same_name e.name dot) && not (same_name e.name dot_dot))

module _ {D : Device} where
  -- The new directory is not written to the disk before its entries are; `iupdate` follows them.
  unfoldable pub make_dir : List ℕ → ℕ → Option ℕ → M (Fs D) ℕ
  make_dir name mode none = pure e_error
  make_dir name mode (some i) = do
    s ← gets (λ s. s.session)
    now ← gets (λ s. s.now)
    ip ← get_inode i
    put_inode i (owned_by ip mode (to_u32 s.uid) 2 now)
    added ← dir_add i dot t_dir ip.inum
    cwd ← deref s.cwd
    top ← get_inode cwd
    added ← dir_add i dot_dot t_dir top.inum
    iupdate i
    self ← get_inode i
    r ← dir_add cwd name t_dir self.inum
    iput (some i)
    pure (if r == e_success then e_success else e_error)

  abbrev pub make_unless : List ℕ → ℕ → Option ℕ → M (Fs D) ℕ
  make_unless name mode (some old) = pure e_error
  make_unless name mode none = do ip ← ialloc t_dir; make_dir name mode ip

  unfoldable pub cmd_mkdir : List ℕ → ℕ → M (Fs D) ℕ
  cmd_mkdir name mode = do
    s ← gets (λ s. s.session)
    old ← dir_lookup s.cwd name t_dir
    make_unless name mode old

  -- `ip->nlink -= 2` of an unsigned short.
  unfoldable pub unlink_dir : List ℕ → ℕ → M (Fs D) ℕ
  unlink_dir name i = do
    s ← gets (λ s. s.session)
    r ← dir_remove s.cwd name t_dir
    if r == e_success
        then (do
          ip ← get_inode i
          put_inode i (record ip { nlink = (ip.nlink + 65_534) % 65_536 })
          if (ip.nlink + 65_534) % 65_536 == 0 then iremove i else pure tt
          iput (some i)
          pure e_success)
        else (do iput (some i); pure e_error)

  unfoldable pub remove_dir : List ℕ → Option ℕ → M (Fs D) ℕ
  remove_dir name none = pure e_error
  remove_dir name (some i) = do
    empty ← dir_is_empty i
    if empty then unlink_dir name i else (do iput (some i); pure e_error)

  unfoldable pub cmd_rmdir : List ℕ → M (Fs D) ℕ
  cmd_rmdir name = do
    s ← gets (λ s. s.session)
    ip ← dir_lookup s.cwd name t_dir
    remove_dir name ip

  -- One loop over the directory, and the entries that pass the test.
  unfoldable pub list_from : ℕ → ℕ → ℕ → List ℕ → M (Fs D) (List DirEntry)
  list_from zero slot off tmp = pure []
  list_from (suc n) slot off tmp = do
    ip ← get_inode slot
    if leb ip.size off then pure [] else (do
      tmp' ← read_entry slot off tmp
      rest ← list_from n slot (off + entry_size) tmp'
      pure (if is_listed (decode_entry tmp') then decode_entry tmp' ∷ rest else rest))

  abbrev pub list_dir : ℕ → M (Fs D) (List DirEntry)
  list_dir slot = do ip ← get_inode slot; list_from (rounds ip.size) slot 0 (replicate entry_size 0)

  -- The first loop counts the entries, the second collects them.
  unfoldable pub cmd_ls : M (Fs D) (Option (List DirEntry))
  cmd_ls = do
    s ← gets (λ s. s.session)
    cwd ← deref s.cwd
    ip ← get_inode cwd
    if ip.type == t_dir
        then (do counted ← list_dir cwd; entries ← list_dir cwd; pure (some entries))
        else pure none
