-- ===== src/Fs/Login.antt =====
-- How a client becomes user 1: `login 1` in fs/src/server.c, fs/src/handle.c and fs/src/user.c.
use cs2310_prj.Base.{to_int, ℕ, List, [], ◌∷◌, ◌≡◌, refl, ◌∙◌, true, some, pos, arith}
use cs2310_prj.Base.Text.{atoi, str_eq, token_of, skip_delims, after_token}
use cs2310_prj.Fs.Handle.{next_token, ry}
use cs2310_prj.Fs.Accounts.{handle_login}
use cs2310_prj.Fs.User.{user_login}
use cs2310_prj.TcpBuffer.{reply_with_yes}
use cs2310_prj.Fs.{Device, Fs}
use cs2310_prj.Fs.Dispatch.{serve, run, find_command, login_name}
use cs2310_prj.Fs.Admission.{permitted, serve-permitted}

-- "1" and "login 1"
abbrev pub one_text : List ℕ
one_text = b'1' ∷ []

abbrev pub login_one : List ℕ
login_one = b'l' ∷ b'o' ∷ b'g' ∷ b'i' ∷ b'n' ∷ b' ' ∷ one_text

module _ (time_text : ℕ → List ℕ) {D : Device} (s : Fs D) where
  login_permitted : permitted s.fs_initialized s.session.uid login_name (some one_text) ≡ true
  unfolding str_eq atoi to_int
  login_permitted = ground arith

  -- `login 1` always succeeds, whether the file system is formatted or not and whoever is logged
  -- in: the session becomes that of user 1 and gets the reply "Yes ", and nothing else changes. No
  -- secret is asked for.
  pub serve-login_one :
      serve time_text login_one s
      ≡ some (
        pos 0,
        record s {
          session = record s.session { uid = pos 1; wb = reply_with_yes s.session.wb [] (pos 0) };
        },
      )
  unfolding next_token token_of skip_delims after_token run find_command str_eq handle_login
      user_login atoi to_int ry
  serve-login_one =
      serve-permitted time_text login_one login_name one_text s refl login_permitted ∙ refl
