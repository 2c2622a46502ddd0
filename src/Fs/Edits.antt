-- ===== src/Fs/Edits.antt =====
-- fs/src/fs.c: `cmd_w`, `cmd_i` and `cmd_d`, which change the bytes of a file. `len` bytes are
-- taken of the text that the client sent; `data` may be `NULL`.
use cs2310_prj.Base.{
  ℕ, ◌-◌, Bool, false, Option, none, some, List, [], if◌then◌else◌, ltb, ◌==◌, take, splice,
  replicate, is_neg, add32,
}
use cs2310_prj.Fs.{Device, Fs, M, ◌>>=◌, ◌>>◌, pure, gets, get_inode, put_inode}
use cs2310_prj.Fs.Inodes.{t_file, iput, iupdate}
use cs2310_prj.Fs.FileIo.{readi, writei}
use cs2310_prj.Fs.Dir.{dir_lookup, e_success, e_error}
use cs2310_prj.Fs.Commands.{cmd_mk}

abbrev pub text_of : Option (List ℕ) → List ℕ
text_of none = []
text_of (some text) = text

-- `!data && len > 0`
abbrev pub is_missing : Option (List ℕ) → ℕ → Bool
is_missing none len = ltb 0 len
is_missing (some text) len = false

module _ {D : Device} where
  abbrev pub look_up_file : List ℕ → M (Fs D) (Option ℕ)
  look_up_file name = do s ← gets (λ s. s.session); dir_lookup s.cwd name t_file

  -- The file is emptied, its blocks kept, and written from its start.
  unfoldable pub rewrite_file : List ℕ → Option ℕ → M (Fs D) ℕ
  rewrite_file text none = pure e_error
  rewrite_file text (some i) = do
    ip ← get_inode i
    put_inode i (record ip { size = 0; blocks = 0 })
    iupdate i
    w ← writei i text 0
    iput (some i)
    pure (if is_neg w then e_error else e_success)

  -- A file that does not exist is made first.
  unfoldable pub open_or_make : List ℕ → Option ℕ → M (Fs D) (Option ℕ)
  open_or_make name (some i) = pure (some i)
  open_or_make name none = do
    made ← cmd_mk name 420
    if made == e_success then look_up_file name else pure none

  unfoldable pub cmd_w : List ℕ → ℕ → Option (List ℕ) → M (Fs D) ℕ
  cmd_w name len text = if is_missing text len then pure e_error else (do
    found ← look_up_file name
    ip ← open_or_make name found
    rewrite_file (take len (text_of text)) ip)

  -- The bytes behind `pos` are read, the new ones are written at `pos`, and the old ones behind
  -- them.
  unfoldable pub insert_bytes : ℕ → ℕ → List ℕ → Option ℕ → M (Fs D) ℕ
  insert_bytes at_byte len text none = pure e_error
  insert_bytes at_byte len text (some i) = do
    ip ← get_inode i
    let start = if ltb ip.size at_byte then ip.size else at_byte
    let tail_len = ip.size - start
    (r, got) ← readi i start tail_len
    w ← writei i (take len text) start
    v ← writei i (splice 0 got (replicate tail_len 0)) (add32 start len)
    iput (some i)
    pure e_success

  unfoldable pub cmd_i : List ℕ → ℕ → ℕ → Option (List ℕ) → M (Fs D) ℕ
  cmd_i name at_byte len text =
      if is_missing text len
      then pure e_error
      else (do found ← look_up_file name; insert_bytes at_byte len (text_of text) found)

  -- The bytes behind the deleted ones are written over them, and the file is cut.
  unfoldable pub delete_bytes : ℕ → ℕ → ℕ → M (Fs D) ℕ
  delete_bytes at_byte len i = do
    ip ← get_inode i
    let tail_pos = if ltb ip.size (add32 at_byte len) then ip.size else add32 at_byte len
    let tail_len = ip.size - tail_pos
    (r, got) ← readi i tail_pos tail_len
    w ← writei i (splice 0 got (replicate tail_len 0)) at_byte
    ip' ← get_inode i
    put_inode i (record ip' { size = add32 at_byte tail_len })
    iupdate i
    iput (some i)
    pure e_success

  unfoldable pub delete_in : ℕ → ℕ → Option ℕ → M (Fs D) ℕ
  delete_in at_byte len none = pure e_error
  delete_in at_byte len (some i) = do
    ip ← get_inode i
    if ltb ip.size at_byte then (do iput (some i); pure e_error) else delete_bytes at_byte len i

  unfoldable pub cmd_d : List ℕ → ℕ → ℕ → M (Fs D) ℕ
  cmd_d name at_byte len = do found ← look_up_file name; delete_in at_byte len found
