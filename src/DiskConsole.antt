-- ===== src/DiskConsole.antt =====
-- disk/src/main.c: the disk on a terminal. Its `parse_args_r` and `parse_args_w` are those of
-- disk/src/server.c, letter for letter.
pub mod Agreement
use cs2310_prj.Base.{
  ℕ, ◌-◌, Bool, Option, none, some, List, [], ◌∷◌, ◌++◌, if◌then◌else◌, ◌==◌, take, length, ℤ, pos,
  negsuc, is_neg,
}
use cs2310_prj.Base.Text.{c_str, skip_delims, token_of, after_token, str_eq, show_nat}
use cs2310_prj.Disk.{Disk, Outcome, success, invalid, fault, cmd_i, cmd_r, cmd_w}
use cs2310_prj.DiskServer.{parse_args_r, parse_args_w}

-- A command's effect: the disk, what is printed, and the return code. `crashed` is a write that
-- reads outside the line, whose effect the model does not have, or the store in front of `buf` for a line that begins with a zero byte.
pub data Ran : Type 0 where
  ran : Disk → List ℕ → ℤ → Ran
  crashed : Ran

abbrev pub yes_line : List ℕ
yes_line = b'Y' ∷ b'e' ∷ b's' ∷ 10 ∷ []

abbrev pub no_line : List ℕ
no_line = b'N' ∷ b'o' ∷ 10 ∷ []

abbrev pub bye_line : List ℕ
bye_line = b'B' ∷ b'y' ∷ b'e' ∷ b'!' ∷ 10 ∷ []

unfoldable pub handle_i : Disk → Ran
handle_i d = ran d (show_nat (cmd_i d).0 ++ b' ' ∷ (show_nat (cmd_i d).1 ++ 10 ∷ [])) (pos 0)

abbrev pub printed_read : Disk → Outcome (List ℕ) → Ran
printed_read d (success buf) = ran d (yes_line ++ (buf ++ 10 ∷ [])) (pos 0)
printed_read d invalid = ran d no_line (pos 0)
printed_read d fault = crashed

unfoldable pub handle_r : Disk → List ℕ → Ran
handle_r d args = let (cyl, sec) = parse_args_r args in printed_read d (cmd_r d cyl sec)

abbrev pub printed_write : Disk → Outcome Disk → Ran
printed_write d (success d') = ran d' yes_line (pos 0)
printed_write d invalid = ran d no_line (pos 0)
printed_write d fault = crashed

unfoldable pub handle_w : Disk → List ℕ → Ran
handle_w d args =
    let (cyl, sec, len, text) = parse_args_w args in printed_write d (cmd_w d cyl sec len text)

unfoldable pub handle_e : Disk → Ran
handle_e d = ran d bye_line (negsuc 0)

-- The table of commands, looked through in order; a name that it does not have prints "No", and
-- leaves the code 1 behind.
unfoldable pub dispatch : Disk → List ℕ → List ℕ → Ran
dispatch d name args =
    if str_eq name (b'I' ∷ [])
    then handle_i d
    else (if str_eq name (b'R' ∷ [])
        then handle_r d args
        else (if str_eq name (b'W' ∷ [])
            then handle_w d args
            else (if str_eq name (b'E' ∷ []) then handle_e d else ran d no_line (pos 1))))

abbrev pub is_blank : ℕ → Bool
is_blank c = c == b' '

-- One line, as `fgets` delivers it. Its last byte is cut off, which is the line's end, or the
-- 1023rd byte of a longer one. Behind the line that is left stand two zero bytes, the one in place
-- of the byte that is cut off and the one that `fgets` writes; what a longer line left in `buf`
-- behind these is not modelled.
unfoldable pub run_line : Disk → List ℕ → Ran
run_line d line =
    let text = c_str line in
    let p = skip_delims is_blank (take (length text - 1) text) in
    if length text == 0
    then crashed
    else dispatch d (token_of is_blank p) (after_token is_blank p ++ 0 ∷ 0 ∷ [])

abbrev pub printed : List ℕ → Option (Disk × List ℕ) → Option (Disk × List ℕ)
printed out none = none
printed out (some (d, more)) = some (d, out ++ more)

abbrev pub after_line : Ran → (Disk → Option (Disk × List ℕ)) → Option (Disk × List ℕ)
after_line crashed rest = none
after_line (ran d out code) rest = if is_neg code then some (d, out) else printed out (rest d)

-- The loop of `main`, over the lines before the end of the input: the disk when it ends, and all
-- that was printed. `none` is a crash.
unfoldable pub run_lines : List (List ℕ) → Disk → Option (Disk × List ℕ)
run_lines [] d = some (d, [])
run_lines (line ∷ lines) d = after_line (run_line d line) (run_lines lines)
