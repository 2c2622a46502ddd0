-- ===== src/DiskServer.antt =====
-- disk/src/server.c: the commands of the disk server, from the text of a message to the reply that
-- is queued. `cmd_i`, `cmd_r` and `cmd_w` are those of disk.c. What stands in memory
-- behind a message is not modelled: its end is taken for a zero byte, and a write that copies bytes
-- from behind it is `crash`.
pub mod Requests
pub mod Replies
use cs2310_prj.Base.{
  ℕ, ◌+◌, Bool, true, false, ◌||◌, List, [], ◌∷◌, ◌++◌, if◌then◌else◌, ◌==◌, drop, replicate,
  length, ℤ, pos, negsuc,
}
use cs2310_prj.Base.Text.{
  atoi, skip_space, skip_word, skip_delims, token_of, after_token, str_eq, show_nat,
}
use cs2310_prj.TcpBuffer.{TcpBuffer, reply, buffer_append, reply_with_yes, reply_with_no}
use cs2310_prj.Disk.{Disk, Outcome, success, invalid, fault, cmd_i, cmd_r, cmd_w, block_size}

-- The text behind the current word and the blanks that follow it.
abbrev pub next_word : List ℕ → List ℕ
next_word p = skip_space (skip_word p)

unfoldable pub parse_args_r : List ℕ → ℤ × ℤ
parse_args_r args = let p = skip_space args in let q = next_word p in (atoi p, atoi q)

unfoldable pub parse_args_w : List ℕ → ℤ × ℤ × ℤ × List ℕ
parse_args_w args =
    let p = skip_space args in
    let q = next_word p in let r = next_word q in (atoi p, atoi q, atoi r, next_word r)

-- A handler's effect: the disk, the reply buffer and the return code. `crash` is a write that reads
-- outside the message, whose effect the model does not have.
pub data Served : Type 0 where
  served : Disk → TcpBuffer → ℤ → Served
  crash : Served

unfoldable pub handle_i : Disk → TcpBuffer → Served
handle_i d wb =
    let text = show_nat (cmd_i d).0 ++ b' ' ∷ (show_nat (cmd_i d).1 ++ 0 ∷ []) in
    served d (reply wb text (pos (length text))) (pos 0)

unfoldable pub handle_r : Disk → TcpBuffer → List ℕ → Served
handle_r d wb args =
    let (cyl, sec) = parse_args_r args in
    elim (cmd_r d cyl sec) [
      | success buf ↦ served d (reply_with_yes wb buf (pos block_size)) (pos 0)
      | invalid ↦ served d (reply_with_no wb [] (pos 0)) (pos 0)
      | fault ↦ crash
    ]

unfoldable pub handle_w : Disk → TcpBuffer → List ℕ → Served
handle_w d wb args =
    let (cyl, sec, datalen, text) = parse_args_w args in
    elim (cmd_w d cyl sec datalen text) [
      | success d' ↦ served d' (reply_with_yes wb [] (pos 0)) (pos 0)
      | invalid ↦ served d (reply_with_no wb [] (pos 0)) (pos 0)
      | fault ↦ crash
    ]

-- "Bye!" with its zero byte.
abbrev bye : List ℕ
bye = b'B' ∷ b'y' ∷ b'e' ∷ b'!' ∷ 0 ∷ []

unfoldable pub handle_e : Disk → TcpBuffer → Served
handle_e d wb = served d (reply wb bye (pos 5)) (negsuc 0)

-- The delimiters " \r\n".
abbrev pub is_delim : ℕ → Bool
is_delim c = c == 32 || c == 13 || c == 10

-- "Unknown command" with its zero byte.
abbrev pub unknown_command : List ℕ
unknown_command =
    85 ∷ 110 ∷ 107 ∷ 110 ∷ 111 ∷ 119 ∷ 110 ∷ 32 ∷ 99 ∷ 111 ∷ 109 ∷ 109 ∷ 97 ∷ 110 ∷ 100 ∷ 0 ∷ []

-- The table of commands, looked through in order. A handler returns 0 or -1, never the 1 that
-- stands for an unknown command.
unfoldable pub dispatch : Disk → TcpBuffer → List ℕ → List ℕ → Served
dispatch d wb name args =
    if str_eq name (b'I' ∷ [])
    then handle_i d wb
    else (if str_eq name (b'R' ∷ [])
        then handle_r d wb args
        else (if str_eq name (b'W' ∷ [])
            then handle_w d wb args
            else (if str_eq name (b'E' ∷ [])
                then handle_e d wb
                else served d (buffer_append wb unknown_command (pos 16)) (pos 0))))

unfoldable pub on_recv : Disk → TcpBuffer → List ℕ → Served
on_recv d wb msg =
    let p = skip_delims is_delim msg in dispatch d wb (token_of is_delim p) (after_token is_delim p)
