-- ===== src/Fs/User.antt =====
-- fs/src/user.c: users, their home directories and the permission check.
use Prim.Native.Nat.{bit_and}
use cs2310_prj.Base.{
  ℕ, ◌-◌, Bool, true, not, ◌&&◌, Option, none, some, List, if◌then◌else◌, ◌==◌, ℤ, is_neg, to_nat,
}
use cs2310_prj.Base.Text.{show_nat}
use cs2310_prj.Fs.{
  Device, Inode, Session, Fs, M, ◌>>=◌, ◌>>◌, pure, gets, to_u32, get_inode, set_session,
}
use cs2310_prj.Fs.Inodes.{t_dir, iget, iput, ialloc, iupdate}
use cs2310_prj.Fs.Dir.{
  dot, dot_dot, dir_add, dir_lookup, dir_remove, dir_is_empty, e_success, e_error,
}
use cs2310_prj.Fs.Commands.{set_owner, home_name, make_home}

abbrev pub e_invalid_user : ℕ
e_invalid_user = 2

abbrev pub e_user_not_found : ℕ
e_user_not_found = 3

abbrev pub e_permission_denied : ℕ
e_permission_denied = 4

abbrev pub e_exists : ℕ
e_exists = 5

abbrev pub perm_read : ℕ
perm_read = 1

abbrev pub perm_write : ℕ
perm_write = 2

-- `perm & bit` and `mode & bit` as tests.
abbrev pub has_bit : ℕ → ℕ → Bool
has_bit v bit = not (bit_and v bit == 0)

-- `perm &= ~bit` for a permission that others have.
abbrev pub drop_perm : ℕ → ℕ → ℕ → ℕ → ℕ
drop_perm perm bit mode others =
    if has_bit perm bit && has_bit mode others then perm - bit else perm

-- The owner may do everything; anyone else needs each bit of `perm` among the bits of the others.
unfoldable pub user_check_perm : Session → Inode → ℕ → Bool
user_check_perm s ip perm =
    if ip.uid == to_u32 s.uid
    then true
    else drop_perm (drop_perm perm perm_read ip.mode 4) perm_write ip.mode 2 == 0

-- The name of a user's directory, `%d` of a number that is not negative.
abbrev pub dirname : ℤ → List ℕ
dirname uid = show_nat (to_nat uid)

module _ {D : Device} where
  unfoldable pub get_home_root : M (Fs D) (Option ℕ)
  get_home_root = do root ← iget 0; home ← dir_lookup root home_name t_dir; iput root; pure home

  -- The directory of a new user, under /home.
  unfoldable pub make_user_dir : ℕ → ℤ → Option ℕ → M (Fs D) ℕ
  make_user_dir home uid none = do iput (some home); pure e_error
  make_user_dir home uid (some ud) = do
    set_owner ud 448 (to_u32 uid) 2
    iupdate ud
    ip ← get_inode ud
    added ← dir_add ud dot t_dir ip.inum
    top ← get_inode home
    added ← dir_add ud dot_dot t_dir top.inum
    self ← get_inode ud
    added ← dir_add home (dirname uid) t_dir self.inum
    iput (some ud)
    iput (some home)
    pure e_success

  abbrev pub add_unless : ℕ → ℤ → Option ℕ → M (Fs D) ℕ
  add_unless home uid (some old) = do iput (some home); pure e_exists
  add_unless home uid none = do ud ← ialloc t_dir; make_user_dir home uid ud

  unfoldable pub add_under : ℤ → Option ℕ → M (Fs D) ℕ
  add_under uid none = pure e_error
  add_under uid (some home) = do
    old ← dir_lookup (some home) (dirname uid) t_dir
    add_unless home uid old

  -- `/home`, made if it is missing.
  unfoldable pub home_or_make : Option ℕ → M (Fs D) (Option ℕ)
  home_or_make (some home) = pure (some home)
  home_or_make none = do made ← make_home; if made == e_success then get_home_root else pure none

  unfoldable pub user_add : ℤ → M (Fs D) ℕ
  user_add uid =
      if is_neg uid
      then pure e_invalid_user
      else (do found ← get_home_root; home ← home_or_make found; add_under uid home)

  unfoldable pub delete_dir : ℤ → ℕ → Option ℕ → M (Fs D) ℕ
  delete_dir uid home none = do iput (some home); pure e_user_not_found
  delete_dir uid home (some ud) = do
    empty ← dir_is_empty ud
    if empty
        then (do
          removed ← dir_remove (some home) (dirname uid) t_dir
          iput (some ud)
          iput (some home)
          pure e_success)
        else (do iput (some ud); iput (some home); pure e_error)

  unfoldable pub delete_under : ℤ → Option ℕ → M (Fs D) ℕ
  delete_under uid none = pure e_error
  delete_under uid (some home) = do
    ud ← dir_lookup (some home) (dirname uid) t_dir
    delete_dir uid home ud

  unfoldable pub user_delete : ℤ → M (Fs D) ℕ
  user_delete uid = do
    s ← gets (λ s. s.session)
    if not (to_u32 s.uid == 1)
        then pure e_permission_denied
        else (if is_neg uid
            then pure e_invalid_user
            else (do home ← get_home_root; delete_under uid home))

  abbrev pub become : ℤ → M (Fs D) (Unit {0})
  become uid = do s ← gets (λ s. s.session); set_session (record s { uid = uid })

  -- The session takes the user's number and goes to the root directory.
  unfoldable pub log_in : ℤ → Option ℕ → M (Fs D) ℕ
  log_in uid none = pure e_error
  log_in uid (some ud) = do
    become uid
    s ← gets (λ s. s.session)
    iput s.cwd
    root ← iget 0
    t ← gets (λ s. s.session)
    set_session (record t { cwd = root })
    iput (some ud)
    pure e_success

  abbrev pub look_up_user : ℤ → M (Fs D) (Option ℕ)
  look_up_user uid = do
    home ← get_home_root
    ud ← dir_lookup home (dirname uid) t_dir
    iput home
    pure ud

  -- A user without a directory gets one.
  unfoldable pub log_in_or_add : ℤ → Option ℕ → M (Fs D) ℕ
  log_in_or_add uid (some ud) = log_in uid (some ud)
  log_in_or_add uid none = do
    r ← user_add uid
    if r == e_success then (do ud ← look_up_user uid; log_in uid ud) else pure r

  unfoldable pub login_under : ℤ → Option ℕ → M (Fs D) ℕ
  login_under uid none = pure e_error
  login_under uid (some home) = do
    ud ← dir_lookup (some home) (dirname uid) t_dir
    iput (some home)
    log_in_or_add uid ud

  unfoldable pub user_login : ℤ → M (Fs D) ℕ
  user_login uid =
      if is_neg uid
      then pure e_invalid_user
      else (if to_nat uid == 1
          then (do become uid; pure e_success)
          else (do home ← get_home_root; login_under uid home))
