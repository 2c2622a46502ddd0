-- ===== src/DiskServer/Requests.antt =====
-- The requests that the file system sends, as disk/src/server.c answers them.
use cs2310_prj.Base.{int_max, ℕ, ◌≤◌, ◌≡◌, refl, ap, ◌∙◌, List, [], ◌∷◌, ◌++◌, pos}
use cs2310_prj.Base.Text.{
  str_eq, after_token, token_of, skip_delims, skip_space, show_nat, atoi-show_nat,
  skip_word-show_nat, skip_space-show_nat,
}
use cs2310_prj.TcpBuffer.{TcpBuffer, reply_with_yes, reply_with_no}
use cs2310_prj.Disk.{Disk, block_size, success, invalid, cmd_r, cmd_w}
use cs2310_prj.DiskServer.{
  parse_args_r, parse_args_w, next_word, served, handle_r, handle_w, dispatch, on_recv,
}

-- A cylinder and a sector that an `int` holds.
abbrev pub AreInts : ℕ → ℕ → Type 0
AreInts c s = (c ≤ int_max) × (s ≤ int_max)

-- "R c s\n"
abbrev pub request_r : ℕ → ℕ → List ℕ
request_r c s = b'R' ∷ b' ' ∷ show_nat c ++ b' ' ∷ (show_nat s ++ 10 ∷ [])

-- "W c s n text\n", where the text may hold any bytes.
abbrev pub request_w : ℕ → ℕ → ℕ → List ℕ → List ℕ
request_w c s n text =
    b'W' ∷ b' ' ∷ show_nat c ++ b' ' ∷ (show_nat s ++ b' ' ∷ (show_nat n ++ b' ' ∷ text))

-- Behind a printed number and a blank, the next word begins with the next printed number.
next_word-show_nat :
    (n m : ℕ) (rest : List ℕ)
    → next_word (show_nat n ++ b' ' ∷ (show_nat m ++ rest)) ≡ show_nat m ++ rest
unfolding skip_space
next_word-show_nat n m rest =
    ap skip_space (skip_word-show_nat n b' ' (show_nat m ++ rest) refl) ∙ skip_space-show_nat m rest

parse_args_r-show_nat :
    (c s : ℕ)
    → AreInts c s
    → parse_args_r (show_nat c ++ b' ' ∷ (show_nat s ++ 10 ∷ [])) ≡ (pos c, pos s)
unfolding parse_args_r
parse_args_r-show_nat c s h = rw (
  skip_space-show_nat c (b' ' ∷ (show_nat s ++ 10 ∷ [])),
  next_word-show_nat c s (10 ∷ []),
  atoi-show_nat c b' ' (show_nat s ++ 10 ∷ []) refl h.0,
  atoi-show_nat s 10 [] refl h.1,
)

pub parse_args_w-show_nat :
    (c s n : ℕ) (text : List ℕ)
    → AreInts c s
    → n ≤ int_max
    → parse_args_w (show_nat c ++ b' ' ∷ (show_nat s ++ b' ' ∷ (show_nat n ++ b' ' ∷ text)))
      ≡ (pos c, pos s, pos n, skip_space text)
unfolding parse_args_w skip_space
parse_args_w-show_nat c s n text h k = rw (
  skip_space-show_nat c (b' ' ∷ (show_nat s ++ b' ' ∷ (show_nat n ++ b' ' ∷ text))),
  next_word-show_nat c s (b' ' ∷ (show_nat n ++ b' ' ∷ text)),
  next_word-show_nat s n (b' ' ∷ text),
  atoi-show_nat c b' ' (show_nat s ++ b' ' ∷ (show_nat n ++ b' ' ∷ text)) refl h.0,
  atoi-show_nat s b' ' (show_nat n ++ b' ' ∷ text) refl h.1,
  atoi-show_nat n b' ' text refl k,
  skip_word-show_nat n b' ' text refl,
)

on_recv-handle_r :
    (d : Disk) (wb : TcpBuffer) (args : List ℕ)
    → on_recv d wb (b'R' ∷ b' ' ∷ args) ≡ handle_r d wb args
unfolding on_recv dispatch skip_delims token_of after_token str_eq
on_recv-handle_r d wb args = refl

on_recv-handle_w :
    (d : Disk) (wb : TcpBuffer) (args : List ℕ)
    → on_recv d wb (b'W' ∷ b' ' ∷ args) ≡ handle_w d wb args
unfolding on_recv dispatch skip_delims token_of after_token str_eq
on_recv-handle_w d wb args = refl

-- The server answers a read request by "Yes " and what `cmd_r` delivers, and by "No " where `cmd_r`
-- refuses, and it keeps the disk.
pub on_recv-request_r :
    (d : Disk) (wb : TcpBuffer) (c s : ℕ)
    → AreInts c s
    → ((text : List ℕ)
        → cmd_r d (pos c) (pos s) ≡ success text
        → on_recv d wb (request_r c s) ≡ served d (reply_with_yes wb text (pos block_size)) (pos 0))
      × (cmd_r d (pos c) (pos s) ≡ invalid
          → on_recv d wb (request_r c s) ≡ served d (reply_with_no wb [] (pos 0)) (pos 0))
unfolding handle_r
on_recv-request_r d wb c s h = (
  λ text e. rw on_recv-handle_r (rw (parse_args_r-show_nat c s h, handle_r) (rw e)),
  λ e. rw on_recv-handle_r (rw (parse_args_r-show_nat c s h, handle_r) (rw e)),
)

-- A write request stores its text less the blanks that it begins with: where `cmd_w` succeeds on
-- that, the server keeps the new disk and answers "Yes ", and where `cmd_w` refuses it keeps the
-- old one and answers "No ".
pub on_recv-request_w :
    (d : Disk) (wb : TcpBuffer) (c s n : ℕ) (text : List ℕ)
    → AreInts c s
    → n ≤ int_max
    → ((d' : Disk)
        → cmd_w d (pos c) (pos s) (pos n) (skip_space text) ≡ success d'
        → on_recv d wb (request_w c s n text) ≡ served d' (reply_with_yes wb [] (pos 0)) (pos 0))
      × (cmd_w d (pos c) (pos s) (pos n) (skip_space text) ≡ invalid
          → on_recv d wb (request_w c s n text) ≡ served d (reply_with_no wb [] (pos 0)) (pos 0))
unfolding handle_w
on_recv-request_w d wb c s n text h k = (
  λ d' e. rw on_recv-handle_w (rw (parse_args_w-show_nat c s n text h k, handle_w) (rw e)),
  λ e. rw on_recv-handle_w (rw (parse_args_w-show_nat c s n text h k, handle_w) (rw e)),
)
