-- ===== src/Fs/Listing.antt =====
-- fs/src/handle.c: `handle_ls`, with the lines it prints. `time_text` is the text that
-- `localtime_r` and `strftime` make of a time.

use cs2310_prj.Base.{
  ℕ, ◌+◌, ◌-◌, Bool, not, Option, none, some, List, [], ◌∷◌, ◌++◌, if◌then◌else◌, ltb, ◌==◌, length,
  replicate, ℤ, pos,
}
use cs2310_prj.Base.Text.{c_str, show_nat}
use cs2310_prj.TcpBuffer.{reply_with_yes}
use cs2310_prj.Fs.{Device, Inode, Fs, M, ◌>>=◌, ◌>>◌, pure, fault, gets, get_inode, set_session}
use cs2310_prj.Fs.Inodes.{t_dir, iget, iput}
use cs2310_prj.Fs.Dir.{DirEntry}
use cs2310_prj.Fs.Directories.{cmd_ls}
use cs2310_prj.Fs.User.{has_bit, perm_read}
use cs2310_prj.Fs.Handle.{may_cwd, refuse}
use cs2310_prj.Fs.Messages

-- `%2u`, `%5u` and `%8u`.
abbrev pub padded : ℕ → ℕ → List ℕ
padded width n = replicate (width - length (show_nat n)) b' ' ++ show_nat n

abbrev pub flag : Bool → ℕ → ℕ
flag b c = if b then c else b'-'

-- "drwxrwxrwx", with a dash for what is not set.
unfoldable pub perm_str : Inode → List ℕ
perm_str ip =
    flag (ip.type == t_dir) b'd'
    ∷ flag (has_bit ip.mode 256) b'r'
    ∷ flag (has_bit ip.mode 128) b'w'
    ∷ flag (has_bit ip.mode 64) b'x'
    ∷ flag (has_bit ip.mode 32) b'r'
    ∷ flag (has_bit ip.mode 16) b'w'
    ∷ flag (has_bit ip.mode 8) b'x'
    ∷ flag (has_bit ip.mode 4) b'r'
    ∷ flag (has_bit ip.mode 2) b'w'
    ∷ flag (has_bit ip.mode 1) b'x'
    ∷ []

abbrev pub space : List ℕ
space = b' ' ∷ []

module _ (time_text : ℕ → List ℕ) where
  unfoldable pub ls_line : Inode → List ℕ → List ℕ
  ls_line ip name =
      perm_str ip
      ++ (space
          ++ (padded 2 ip.nlink
              ++ (space
                  ++ (padded 5 ip.uid
                      ++ (space
                          ++ (padded 5 ip.gid
                              ++ (space
                                  ++ (padded 8 ip.size
                                      ++ (space
                                          ++ (time_text ip.mtime
                                              ++ (space
                                                  ++ (c_str name ++ b'\r' ∷ b'\n' ∷ []))))))))))))

  module _ {D : Device} where
    -- A line of 256 bytes or more is left out. One that goes behind the 4096 bytes of `ls_buf` is
    -- written there before the test; one that just fills them ends the loop, without `iput`.
    unfoldable pub ls_entry : List ℕ → List ℕ → ℕ → (List ℕ → M (Fs D) (List ℕ)) → M (Fs D) (List ℕ)
    ls_entry out line i rest =
        if ltb (length line) 256
        then (if ltb 4096 (length out + length line)
            then fault
            else (if length out + length line == 4096
                then pure (out ++ line)
                else (do iput (some i); rest (out ++ line))))
        else (do iput (some i); rest out)

    unfoldable pub ls_found :
        List ℕ → List ℕ → Option ℕ → (List ℕ → M (Fs D) (List ℕ)) → M (Fs D) (List ℕ)
    ls_found name out none rest = rest out
    ls_found name out (some i) rest = do ip ← get_inode i; ls_entry out (ls_line ip name) i rest

    unfoldable pub ls_append : List DirEntry → List ℕ → M (Fs D) (List ℕ)
    ls_append [] out = pure out
    ls_append (e ∷ entries) out = do ip ← iget e.inum; ls_found e.name out ip (ls_append entries)

    -- The lines behind "\r\n", without the last "\r\n".
    abbrev pub answer_listing : Option (List DirEntry) → M (Fs D) ℤ
    answer_listing none = refuse Messages.failed_to_list_files
    answer_listing (some entries) = do
      out ← ls_append entries (b'\r' ∷ b'\n' ∷ [])
      s ← gets (λ s. s.session)
      set_session (record s { wb = reply_with_yes s.wb out (pos (length out - 2)) })
      pure (pos 0)

    unfoldable pub handle_ls : M (Fs D) ℤ
    handle_ls = do
      ok ← may_cwd perm_read
      if not ok
          then refuse Messages.permission_denied
          else (do entries ← cmd_ls; answer_listing entries)
