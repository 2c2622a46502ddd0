-- ===== src/Tests/Requests.antt =====
-- The theorems on the requests to the file system server at concrete inputs.
use cs2310_prj.Base.{ℕ, ◌≡◌, ◌||◌, ◌&&◌, ◌==◌, refl, some, List, [], ◌∷◌, pos}
use cs2310_prj.Base.Text.{token_of, skip_delims, after_token, str_eq}
use cs2310_prj.Fs.{to_u32}
use cs2310_prj.Fs.User.{user_check_perm, perm_read, perm_write, has_bit}
use cs2310_prj.Fs.Handle.{next_token}
use cs2310_prj.Fs.Dispatch.{serve}
use cs2310_prj.Fs.Admission.{after_refusal, serve-forbidden, serve-permitted}
use cs2310_prj.Fs.Permissions.{user_check_perm_lem}
use cs2310_prj.TcpBuffer.{reply_with_yes}
use cs2310_prj.Fs.Login.{login_one, serve-login_one}
use cs2310_prj.Fs.Handle.{handle_e}
use cs2310_prj.Tests.Data.{null_fs, private_inode, user_session}

abbrev no_time : ℕ → List ℕ
no_time t = []

-- "f" and "e"
abbrev f_text : List ℕ
f_text = b'f' ∷ []

abbrev e_text : List ℕ
e_text = b'e' ∷ []

serve-forbidden_example :
    (t : List ℕ) × (serve no_time f_text null_fs ≡ some (pos 0, after_refusal null_fs t))
unfolding next_token token_of skip_delims after_token str_eq
serve-forbidden_example = serve-forbidden no_time f_text f_text [] null_fs refl refl

serve-permitted_example : serve no_time e_text null_fs ≡ handle_e null_fs
unfolding next_token token_of skip_delims after_token str_eq
serve-permitted_example = serve-permitted no_time e_text e_text [] null_fs refl refl

user_check_perm_lem_example :
    (user_check_perm user_session (private_inode 3) perm_read
      ≡ (1 == to_u32 (pos 7) || has_bit 448 4))
    × (user_check_perm user_session (private_inode 3) perm_write
        ≡ (1 == to_u32 (pos 7) || has_bit 448 2))
    × (user_check_perm user_session (private_inode 3) 3
        ≡ (1 == to_u32 (pos 7) || (has_bit 448 4 && has_bit 448 2)))
user_check_perm_lem_example = user_check_perm_lem user_session (private_inode 3)

serve-login_one_example :
    serve no_time login_one null_fs
    ≡ some (
      pos 0,
      record null_fs {
        session = record user_session {
          uid = pos 1;
          wb = reply_with_yes user_session.wb [] (pos 0);
        };
      },
    )
serve-login_one_example = serve-login_one no_time null_fs
