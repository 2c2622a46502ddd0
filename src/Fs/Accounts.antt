-- ===== src/Fs/Accounts.antt =====
-- fs/src/handle.c: the handlers of the commands on users. `none` stands for arguments that are
-- `NULL`.
use cs2310_prj.Base.{ℕ, Option, none, some, List, if◌then◌else◌, ◌==◌, ℤ}
use cs2310_prj.Base.Text.{atoi}
use cs2310_prj.Fs.{Device, Fs, M, ◌>>=◌}
use cs2310_prj.Fs.Dir.{e_error}
use cs2310_prj.Fs.User.{
  e_invalid_user, e_permission_denied, e_exists, user_add, user_delete, user_login,
}
use cs2310_prj.Fs.Handle.{answer, refuse}
use cs2310_prj.Fs.Messages

-- The reply to a result code.
unfoldable pub useradd_failure : ℕ → List ℕ
useradd_failure r =
    if r == e_permission_denied
    then Messages.permission_denied
    else (if r == e_exists
        then Messages.user_already_exists
        else (if r == e_invalid_user
            then Messages.invalid_user_id
            else Messages.failed_to_add_user))

unfoldable pub userdel_failure : ℕ → List ℕ
userdel_failure r =
    if r == e_permission_denied
    then Messages.permission_denied
    else (if r == e_error
        then Messages.delete_failed
        else (if r == e_invalid_user then Messages.invalid_user_id else Messages.user_not_found))

unfoldable pub login_failure : ℕ → List ℕ
login_failure r =
    if r == e_error
    then Messages.login_failed
    else (if r == e_invalid_user then Messages.invalid_user_id else Messages.unknown_error)

module _ {D : Device} where
  unfoldable pub handle_useradd : Option (List ℕ) → M (Fs D) ℤ
  handle_useradd none = refuse Messages.usage_useradd
  handle_useradd (some args) = do r ← user_add (atoi args); answer r (useradd_failure r)

  unfoldable pub handle_userdel : Option (List ℕ) → M (Fs D) ℤ
  handle_userdel none = refuse Messages.usage_userdel
  handle_userdel (some args) = do r ← user_delete (atoi args); answer r (userdel_failure r)

  unfoldable pub handle_login : Option (List ℕ) → M (Fs D) ℤ
  handle_login none = refuse Messages.usage_login
  handle_login (some args) = do r ← user_login (atoi args); answer r (login_failure r)
