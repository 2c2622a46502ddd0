-- ===== src/Fs/Dispatch.antt =====
-- fs/src/server.c and fs/src/session.c: the sessions of the clients, the tests before a command,
-- and the table of commands. A session is loaded into the state while it is served.
use cs2310_prj.Base.{
  ℕ, ◌-◌, Bool, false, not, ◌&&◌, ◌||◌, Option, none, some, List, [], ◌∷◌, if◌then◌else◌, ◌==◌,
  take, length, ℤ, negsuc, is_neg,
}
use cs2310_prj.Base.Text.{atoi, c_str, str_eq}
use cs2310_prj.TcpBuffer.{TcpBuffer}
use cs2310_prj.Cache.Links.{update}
use cs2310_prj.Fs.{Device, Session, Fs, M, ◌>>=◌, gets, to_u32}
use cs2310_prj.Fs.Inodes.{iput}
use cs2310_prj.Fs.Commands.{fs_mount}
use cs2310_prj.Fs.Handle.{
  rest_of, refuse, token, handle_f, handle_mk, handle_mkdir, handle_rm, handle_rmdir, handle_cd,
  handle_cat, handle_w, handle_i, handle_d, handle_e,
}
use cs2310_prj.Fs.Accounts.{handle_useradd, handle_userdel, handle_login}
use cs2310_prj.Fs.Listing.{handle_ls}
use cs2310_prj.Fs.Messages

-- The commands of `cmd_table`.
pub data Command : Type 0 where
  cmd_f : Command
  cmd_mk : Command
  cmd_mkdir : Command
  cmd_rm : Command
  cmd_rmdir : Command
  cmd_cd : Command
  cmd_ls : Command
  cmd_cat : Command
  cmd_w : Command
  cmd_i : Command
  cmd_d : Command
  cmd_login : Command
  cmd_useradd : Command
  cmd_userdel : Command
  cmd_e : Command

-- The names of `cmd_table`, in its order.
abbrev pub cmd_table : List (List ℕ × Command)
cmd_table =
    (b'f' ∷ [], cmd_f)
    ∷ (b'm' ∷ b'k' ∷ [], cmd_mk)
    ∷ (b'm' ∷ b'k' ∷ b'd' ∷ b'i' ∷ b'r' ∷ [], cmd_mkdir)
    ∷ (b'r' ∷ b'm' ∷ [], cmd_rm)
    ∷ (b'r' ∷ b'm' ∷ b'd' ∷ b'i' ∷ b'r' ∷ [], cmd_rmdir)
    ∷ (b'c' ∷ b'd' ∷ [], cmd_cd)
    ∷ (b'l' ∷ b's' ∷ [], cmd_ls)
    ∷ (b'c' ∷ b'a' ∷ b't' ∷ [], cmd_cat)
    ∷ (b'w' ∷ [], cmd_w)
    ∷ (b'i' ∷ [], cmd_i)
    ∷ (b'd' ∷ [], cmd_d)
    ∷ (b'l' ∷ b'o' ∷ b'g' ∷ b'i' ∷ b'n' ∷ [], cmd_login)
    ∷ (b'u' ∷ b's' ∷ b'e' ∷ b'r' ∷ b'a' ∷ b'd' ∷ b'd' ∷ [], cmd_useradd)
    ∷ (b'u' ∷ b's' ∷ b'e' ∷ b'r' ∷ b'd' ∷ b'e' ∷ b'l' ∷ [], cmd_userdel)
    ∷ (b'e' ∷ [], cmd_e)
    ∷ []

-- The first row whose name is the command's.
unfoldable pub find_command : List (List ℕ × Command) → List ℕ → Option Command
find_command [] name = none
find_command ((row, c) ∷ rows) name =
    let rest = find_command rows name in if str_eq name row then some c else rest

abbrev pub login_name : List ℕ
login_name = b'l' ∷ b'o' ∷ b'g' ∷ b'i' ∷ b'n' ∷ []

abbrev pub f_name : List ℕ
f_name = b'f' ∷ []

abbrev pub useradd_name : List ℕ
useradd_name = b'u' ∷ b's' ∷ b'e' ∷ b'r' ∷ b'a' ∷ b'd' ∷ b'd' ∷ []

abbrev pub userdel_name : List ℕ
userdel_name = b'u' ∷ b's' ∷ b'e' ∷ b'r' ∷ b'd' ∷ b'e' ∷ b'l' ∷ []

-- `args && atoi(args) != 1`
abbrev pub is_other_user : Option (List ℕ) → Bool
is_other_user none = false
is_other_user (some args) = not (to_u32 (atoi args) == 1)

-- The text of the refusal of the first test that fails, on an unformatted file system.
unfoldable pub refused_before_format : List ℕ → Option (List ℕ) → Option (List ℕ)
refused_before_format cmd args =
    if not (str_eq cmd login_name) && not (str_eq cmd f_name)
    then some Messages.not_formatted
    else (if str_eq cmd login_name && is_other_user args
        then some Messages.only_root_login
        else none)

-- The tests on the user.
unfoldable pub refused_for_user : ℤ → List ℕ → Option (List ℕ)
refused_for_user uid cmd =
    if str_eq cmd f_name && not (to_u32 uid == 1)
    then some Messages.only_root_format
    else (if is_neg uid && not (str_eq cmd login_name)
        then some Messages.login_first
        else (if not (to_u32 uid == 1) && (str_eq cmd useradd_name || str_eq cmd userdel_name)
            then some Messages.only_root_users
            else none))

abbrev pub or_else : Option (List ℕ) → Option (List ℕ) → Option (List ℕ)
or_else (some text) other = some text
or_else none other = other

-- All tests of `on_recv`.
unfoldable pub refused : Bool → ℤ → List ℕ → Option (List ℕ) → Option (List ℕ)
refused formatted uid cmd args =
    or_else (if formatted then none else refused_before_format cmd args) (refused_for_user uid cmd)

-- `msg[len-2]=0`, and the text up to the first zero byte.
abbrev pub request_text : List ℕ → List ℕ
request_text msg = c_str (take (length msg - 2) msg)

module _ (time_text : ℕ → List ℕ) {D : Device} where
  unfoldable pub run : Option Command → Option (List ℕ) → M (Fs D) ℤ
  run none args = refuse Messages.unknown_command
  run (some cmd_f) args = handle_f
  run (some cmd_mk) args = handle_mk args
  run (some cmd_mkdir) args = handle_mkdir args
  run (some cmd_rm) args = handle_rm args
  run (some cmd_rmdir) args = handle_rmdir args
  run (some cmd_cd) args = handle_cd args
  run (some cmd_ls) args = handle_ls time_text
  run (some cmd_cat) args = handle_cat args
  run (some cmd_w) args = handle_w args
  run (some cmd_i) args = handle_i args
  run (some cmd_d) args = handle_d args
  run (some cmd_login) args = handle_login args
  run (some cmd_useradd) args = handle_useradd args
  run (some cmd_userdel) args = handle_userdel args
  run (some cmd_e) args = handle_e

  abbrev pub run_unless : Option (List ℕ) → List ℕ → Option (List ℕ) → M (Fs D) ℤ
  run_unless (some text) cmd args = refuse text
  run_unless none cmd args = run (find_command cmd_table cmd) args

  -- A message without a word makes `cmd` `NULL`.
  unfoldable pub serve : List ℕ → M (Fs D) ℤ
  serve text = do
    (cmd, rest) ← token text
    s ← gets (λ s. s)
    run_unless (refused s.fs_initialized s.session.uid cmd (rest_of rest)) cmd (rest_of rest)

abbrev pub new_session : ℕ → TcpBuffer → Session
new_session conn_id wb = record {
  conn_id = conn_id;
  wb = wb;
  cwd = none;
  uid = negsuc 0;
  gid = 0;
  umask = 18;
}

-- The server: the file system and the array `sessions`.
pub record Server (D : Device) : Type 0 where
  pub fs : Fs D
  pub sessions : ℕ → Option Session

module _ {D : Device} where
  -- The session that was served goes back to its place.
  abbrev pub store_session : {A : Type 0} → ℕ → Server D → Option (A × Fs D) → Option (A × Server D)
  store_session id srv none = none
  store_session id srv (some (a, fs)) =
      some (a, record { fs = fs; sessions = update srv.sessions id (some fs.session) })

  abbrev pub serve_session : {A : Type 0} → ℕ → Session → M (Fs D) A → M (Server D) A
  serve_session id s m srv = store_session id srv (m (record srv.fs { session = s }))

  -- A new session, whose buffer is that of the connection, and `fs_mount`.
  unfoldable pub on_connection : ℕ → TcpBuffer → M (Server D) (Unit {0})
  on_connection id wb = serve_session id (new_session id wb) fs_mount

  abbrev pub drop_session : ℕ → Server D → Option (Unit {0} × Fs D) → Option (Unit {0} × Server D)
  drop_session id srv none = none
  drop_session id srv (some (u, fs)) =
      some (u, record { fs = fs; sessions = update srv.sessions id none })

  -- `session_destroy` releases the current directory.
  unfoldable pub cleanup : ℕ → M (Server D) (Unit {0})
  cleanup id srv = elim (srv.sessions id) [
    | none ↦ some (tt, srv)
    | some s ↦ drop_session id srv (iput s.cwd srv.fs)
  ]

module _ (time_text : ℕ → List ℕ) {D : Device} where
  -- `wb` is the buffer of the connection.
  unfoldable pub on_recv : ℕ → TcpBuffer → List ℕ → M (Server D) ℤ
  on_recv id wb msg srv = elim (srv.sessions id) [
    | none ↦ none
    | some s ↦ serve_session id (record s { wb = wb }) (serve time_text (request_text msg)) srv
  ]
