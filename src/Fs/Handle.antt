-- ===== src/Fs/Handle.antt =====
-- fs/src/handle.c: the handlers of the commands on files and directories but `ls`: arguments,
-- permissions, the command, the reply. The result is the handler's return code. `none` stands for
-- arguments that are `NULL`.
use cs2310_prj.Base.{
  ℕ, Bool, false, not, Option, none, some, List, [], ◌∷◌, if◌then◌else◌, ◌==◌, length, ℤ, pos,
  negsuc,
}
use cs2310_prj.Base.Text.{atoi, skip_delims, token_of, after_token}
use cs2310_prj.TcpBuffer.{reply_with_yes, reply_with_no}
use cs2310_prj.Fs.{Device, Fs, M, ◌>>=◌, ◌>>◌, pure, fault, gets, to_u32, get_inode, set_session}
use cs2310_prj.Fs.Inodes.{t_dir, t_file, iput, ialloc}
use cs2310_prj.Fs.Dir.{dir_lookup, is_none, e_success, e_error}
use cs2310_prj.Fs.Commands.{deref, cmd_f, cmd_mk, cmd_rm, cmd_cat}
use cs2310_prj.Fs.Edits.{cmd_w, cmd_i, cmd_d}
use cs2310_prj.Fs.Directories.{cmd_mkdir, cmd_rmdir}
use cs2310_prj.Fs.Paths.{cmd_cd}
use cs2310_prj.Fs.User.{perm_read, perm_write, user_check_perm}
use cs2310_prj.Fs.Messages

abbrev pub is_blank : ℕ → Bool
is_blank c = c == 32

-- `strtok(s, " ")`, with what is left for the next call.
abbrev pub non_empty : List ℕ → List ℕ → Option (List ℕ × List ℕ)
non_empty [] rest = none
non_empty (c ∷ s) rest = some (c ∷ s, rest)

unfoldable pub next_token : List ℕ → Option (List ℕ × List ℕ)
next_token s =
    let p = skip_delims is_blank s in non_empty (token_of is_blank p) (after_token is_blank p)

-- `strtok(NULL, "")`
abbrev pub rest_of : List ℕ → Option (List ℕ)
rest_of [] = none
rest_of (c ∷ s) = some (c ∷ s)

module _ {D : Device} where
  unfoldable pub ry : List ℕ → M (Fs D) (Unit {0})
  ry text = do
    s ← gets (λ s. s.session)
    set_session (record s { wb = reply_with_yes s.wb text (pos (length text)) })

  unfoldable pub rn : List ℕ → M (Fs D) (Unit {0})
  rn text = do
    s ← gets (λ s. s.session)
    set_session (record s { wb = reply_with_no s.wb text (pos (length text)) })

  -- RY or RN, by the result of a command.
  abbrev pub answer : ℕ → List ℕ → M (Fs D) ℤ
  answer r text = do if r == e_success then ry [] else rn text; pure (pos 0)

  abbrev pub refuse : List ℕ → M (Fs D) ℤ
  refuse text = do rn text; pure (pos 0)

  abbrev pub get_token : Option (List ℕ × List ℕ) → M (Fs D) (List ℕ × List ℕ)
  get_token none = fault
  get_token (some t) = pure t

  abbrev pub token : List ℕ → M (Fs D) (List ℕ × List ℕ)
  token s = get_token (next_token s)

  -- A permission on the inode in a slot, and on the current directory.
  abbrev pub may : ℕ → ℕ → M (Fs D) Bool
  may i perm = do s ← gets (λ s. s.session); ip ← get_inode i; pure (user_check_perm s ip perm)

  abbrev pub may_cwd : ℕ → M (Fs D) Bool
  may_cwd perm = do s ← gets (λ s. s.session); cwd ← deref s.cwd; may cwd perm

  abbrev pub look_up : Option (List ℕ) → ℕ → M (Fs D) (Option ℕ)
  look_up none type = pure none
  look_up (some name) type = do s ← gets (λ s. s.session); dir_lookup s.cwd name type

  unfoldable pub handle_f : M (Fs D) ℤ
  handle_f = do s ← gets (λ s. s); r ← cmd_f s.ncyl s.nsec; answer r Messages.failed_to_format

  -- Without a name, the new inode's entry is copied from `NULL`.
  abbrev pub make_nameless : ℕ → M (Fs D) ℕ
  make_nameless type = do ip ← ialloc type; if is_none ip then pure e_error else fault

  abbrev pub make_file : Option (List ℕ) → M (Fs D) ℕ
  make_file none = make_nameless t_file
  make_file (some name) = cmd_mk name 432

  unfoldable pub handle_mk : Option (List ℕ) → M (Fs D) ℤ
  handle_mk args = do
    ok ← may_cwd perm_write
    if not ok
        then refuse Messages.permission_denied
        else (do r ← make_file args; answer r Messages.failed_to_create_file)

  abbrev pub make_dir : Option (List ℕ) → M (Fs D) ℕ
  make_dir none = make_nameless t_dir
  make_dir (some name) = cmd_mkdir name 504

  unfoldable pub handle_mkdir : Option (List ℕ) → M (Fs D) ℤ
  handle_mkdir args = do
    ok ← may_cwd perm_write
    if not ok
        then refuse Messages.permission_denied
        else (do r ← make_dir args; answer r Messages.failed_to_create_dir)

  -- A command on a name that was found. `args` is not `NULL` then.
  abbrev pub on_name : Option (List ℕ) → (List ℕ → M (Fs D) ℕ) → M (Fs D) ℕ
  on_name none command = fault
  on_name (some name) command = command name

  -- The write permission on the current directory and on the inode found.
  abbrev pub may_unlink : ℕ → M (Fs D) Bool
  may_unlink i = do ok ← may_cwd perm_write; if not ok then pure false else may i perm_write

  unfoldable pub rm_found : Option (List ℕ) → Option ℕ → M (Fs D) ℤ
  rm_found args none = refuse Messages.file_not_found
  rm_found args (some i) = do
    ok ← may_unlink i
    iput (some i)
    if not ok
        then refuse Messages.permission_denied
        else (do r ← on_name args cmd_rm; answer r Messages.failed_to_remove_file)

  unfoldable pub handle_rm : Option (List ℕ) → M (Fs D) ℤ
  handle_rm args = do ip ← look_up args t_file; rm_found args ip

  unfoldable pub rmdir_found : Option (List ℕ) → Option ℕ → M (Fs D) ℤ
  rmdir_found args none = refuse Messages.dir_not_found
  rmdir_found args (some i) = do
    ok ← may_unlink i
    iput (some i)
    if not ok
        then refuse Messages.permission_denied
        else (do r ← on_name args cmd_rmdir; answer r Messages.failed_to_remove_dir)

  unfoldable pub handle_rmdir : Option (List ℕ) → M (Fs D) ℤ
  handle_rmdir args = do ip ← look_up args t_dir; rmdir_found args ip

  unfoldable pub cd_found : Option (List ℕ) → Option ℕ → M (Fs D) ℤ
  cd_found args none = refuse Messages.dir_not_found
  cd_found args (some i) = do
    ok ← may i perm_read
    iput (some i)
    if not ok
        then refuse Messages.permission_denied
        else (do r ← cmd_cd args; answer r Messages.failed_to_change_dir)

  unfoldable pub handle_cd : Option (List ℕ) → M (Fs D) ℤ
  handle_cd args = do ip ← look_up args t_dir; cd_found args ip

  abbrev pub cat_named : Option (List ℕ) → M (Fs D) (Option (List ℕ))
  cat_named none = fault
  cat_named (some name) = cmd_cat name

  abbrev pub answer_text : Option (List ℕ) → M (Fs D) ℤ
  answer_text none = refuse Messages.failed_to_read_file
  answer_text (some text) = do ry text; pure (pos 0)

  unfoldable pub cat_found : Option (List ℕ) → Option ℕ → M (Fs D) ℤ
  cat_found args none = refuse Messages.file_not_found
  cat_found args (some i) = do
    ok ← may i perm_read
    iput (some i)
    if not ok
        then refuse Messages.permission_denied
        else (do text ← cat_named args; answer_text text)

  unfoldable pub handle_cat : Option (List ℕ) → M (Fs D) ℤ
  handle_cat args = do ip ← look_up args t_file; cat_found args ip

  -- What `w`, `i` and `d` share: the file is looked up and its write permission tested.
  unfoldable pub edit_found : List ℕ → M (Fs D) ℕ → Option ℕ → M (Fs D) ℤ
  edit_found failure command none = refuse Messages.file_not_found
  edit_found failure command (some i) = do
    ok ← may i perm_write
    iput (some i)
    if not ok then refuse Messages.permission_denied else (do r ← command; answer r failure)

  -- "<name> <len> <data>". `strtok` without arguments, and `atoi` of a missing word, read `NULL`.
  unfoldable pub handle_w : Option (List ℕ) → M (Fs D) ℤ
  handle_w none = fault
  handle_w (some args) = do
    (name, p) ← token args
    (len, q) ← token p
    ip ← look_up (some name) t_file
    edit_found Messages.failed_to_write_file (cmd_w name (to_u32 (atoi len)) (rest_of q)) ip

  -- "<name> <pos> <len> <data>"
  unfoldable pub handle_i : Option (List ℕ) → M (Fs D) ℤ
  handle_i none = fault
  handle_i (some args) = do
    (name, p) ← token args
    (at_byte, q) ← token p
    (len, r) ← token q
    ip ← look_up (some name) t_file
    edit_found Messages.failed_to_insert
        (cmd_i name (to_u32 (atoi at_byte)) (to_u32 (atoi len)) (rest_of r)) ip

  -- "<name> <pos> <len>"
  unfoldable pub handle_d : Option (List ℕ) → M (Fs D) ℤ
  handle_d none = fault
  handle_d (some args) = do
    (name, p) ← token args
    (at_byte, q) ← token p
    (len, r) ← token q
    ip ← look_up (some name) t_file
    edit_found Messages.failed_to_delete (cmd_d name (to_u32 (atoi at_byte)) (to_u32 (atoi len))) ip

  unfoldable pub handle_e : M (Fs D) ℤ
  handle_e = do ry Messages.bye; pure (negsuc 0)
