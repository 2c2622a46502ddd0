-- ===== src/TcpClient/DiskClient.antt =====
-- A client of the disk server over its connection: disk/src/client.c or the file system on one
-- side, disk/src/server.c on the other, lib/tcp_utils.c and lib/tcp_buffer.c between them.

use cs2310_prj.Base.{
  int_max, ℕ, ◌+◌, ◌-◌, ◌≤◌, ◌<◌, ◌≡◌, refl, sym, ap, ◌∙◌, some, List, [], ◌++◌, arith, length,
  length-append, length-take, length-drop, drop, slice, pos,
}
use cs2310_prj.Base.Text.{skip_space}
use cs2310_prj.TcpBuffer.{
  TcpBuffer, tcp_buf_size, buffer_append, reply_with_yes, yes_prefix, no_prefix,
}
use cs2310_prj.TcpBuffer.Frames.{
  Fits, frame, reply_with_yes-buffer_append, reply_with_no-buffer_append,
}
use cs2310_prj.Disk.{
  Disk, Outcome, success, invalid, fault, cmd_r, cmd_w, block_size, offset, out_of_disk,
}
use cs2310_prj.Disk.Sectors.{IsValid, InRange, offset_bound}
use cs2310_prj.DiskServer.Requests.{AreInts, request_r, request_w}
use cs2310_prj.DiskServer.Replies.{served_read, served_write, on_recv-read, on_recv-write}
use cs2310_prj.TcpServer.{Pool}
use cs2310_prj.TcpServer.Programs.{disk_callbacks, outcome_of}
use cs2310_prj.TcpClient.{Client}
use cs2310_prj.TcpClient.Calls.{IsIdle, IsCall, call}
use cs2310_prj.TcpClient.Delivery.{Arrive, concat}

-- The reply to a read request, and to a write request.
abbrev pub read_reply : Outcome (List ℕ) → List ℕ
read_reply (success text) = yes_prefix ++ text
read_reply invalid = no_prefix
read_reply fault = []

abbrev pub write_reply : Outcome Disk → List ℕ
write_reply (success d) = yes_prefix
write_reply invalid = no_prefix
write_reply fault = []

-- The disk behind a write request.
abbrev pub disk_after : Disk → Outcome Disk → Disk
disk_after d (success d') = d'
disk_after d invalid = d
disk_after d fault = d

yes_reply :
    (wb : TcpBuffer) (text : List ℕ) (n : ℕ)
    → n ≡ length text
    → reply_with_yes wb text (pos n)
      ≡ buffer_append wb (yes_prefix ++ text) (pos (length (yes_prefix ++ text)))
yes_reply wb text n e =
    let sum : length text + 4 ≡ length (yes_prefix ++ text) =
      omega (arith, length-append yes_prefix text) in
    ap (λ k. reply_with_yes wb text (pos k)) e
    ∙ reply_with_yes-buffer_append wb text
    ∙ ap (λ k. buffer_append wb (yes_prefix ++ text) (pos k)) sum

length-cmd_r :
    (d : Disk) (c s : ℕ) (text : List ℕ)
    → IsValid d
    → cmd_r d (pos c) (pos s) ≡ success text
    → length text ≡ block_size
unfolding cmd_r out_of_disk
length-cmd_r d c s text v e =
    let r : InRange d c s = ground arith in
    let bound = offset_bound d c s v r in
    let block : slice (offset d c s) block_size d.image ≡ text = ground arith in
    sym (ap length block)
    ∙ omega (
      arith,
      bound,
      length-take block_size (drop (offset d c s) d.image),
      length-drop (offset d c s) d.image,
    )

module _ (i : ℕ) (d : Disk) (wb : TcpBuffer) (c s : ℕ) where
  read_answer :
      (o : Outcome (List ℕ))
      → IsValid d
      → cmd_r d (pos c) (pos s) ≡ o
      → outcome_of (served_read d wb o)
        ≡ some (pos 0, buffer_append wb (read_reply o) (pos (length (read_reply o))), d)
  unfolding cmd_r
  read_answer (success text) v e =
      rw (yes_reply wb text block_size (sym (length-cmd_r d c s text v e)))
  read_answer invalid v e = rw (reply_with_no-buffer_append wb [])
  read_answer fault v e = absurd (ground arith)

  write_answer :
      (n : ℕ) (text : List ℕ) (o : Outcome Disk)
      → n ≤ length text
      → cmd_w d (pos c) (pos s) (pos n) text ≡ o
      → outcome_of (served_write d wb o)
        ≡ some
            (pos 0, buffer_append wb (write_reply o) (pos (length (write_reply o))), disk_after d o)
  unfolding cmd_w
  write_answer n text (success d') h e = rw (yes_reply wb [] 0 refl)
  write_answer n text invalid h e = rw (reply_with_no-buffer_append wb [])
  write_answer n text fault h e = absurd (ground arith)

pub read_reply_short :
    (d : Disk) (c s : ℕ) (o : Outcome (List ℕ))
    → IsValid d
    → cmd_r d (pos c) (pos s) ≡ o
    → length (read_reply o) ≤ 516
read_reply_short d c s (success text) v e = omega (arith, length-cmd_r d c s text v e)
read_reply_short d c s invalid v e = omega arith
read_reply_short d c s fault v e = omega arith

pub write_reply_short : (o : Outcome Disk) → length (write_reply o) ≤ 4
write_reply_short (success d) = omega arith
write_reply_short invalid = omega arith
write_reply_short fault = omega arith

module _ (i : ℕ) (p : Pool) (d : Disk) (client : Client) (max_len : ℕ)
    (ready : IsIdle (p.read_buf i)) (idle : IsIdle (p.write_buf i))
    (c_ready : IsIdle client.read_buf) (c_idle : IsIdle client.write_buf) (c s : ℕ)
    (ints : AreInts c s) (pieces : List (List ℕ)) (arrive : Arrive pieces client.read_buf)
    (room : Fits (p.write_buf i) 516) (enough : 516 ≤ max_len) where
  -- On a valid disk, between idle buffers with room for the request and for a reply of 516 bytes: a
  -- client that sends the read request for two numbers that an `int` holds, receives "Yes
  -- " and what `cmd_r` reads there, or "No " where `cmd_r` refuses, in whatever pieces the reply
  -- arrives, and the disk is not changed. All buffers are idle again.
  pub remote_read :
      IsValid d
      → Fits client.write_buf (length (request_r c s))
      → 4 + length (request_r c s) < tcp_buf_size - (p.read_buf i).write_index
      → concat pieces ≡ frame (read_reply (cmd_r d (pos c) (pos s)))
      → IsCall disk_callbacks i p d d client max_len
          (request_r c s)
          (read_reply (cmd_r d (pos c) (pos s)))
          pieces
  remote_read v c_room r_room whole =
      let o = cmd_r d (pos c) (pos s) in
      let short = read_reply_short d c s o v refl in
      let replied =
        ap outcome_of (on_recv-read d (p.write_buf i) c s ints)
        ∙ read_answer i d (p.write_buf i) c s o v refl in
      call disk_callbacks i p d d client max_len (request_r c s) (read_reply o) pieces ready idle
        c_ready c_idle c_room r_room (omega (arith, short)) replied arrive whole
        (omega (arith, short))

  -- Between idle buffers with room for the request and for a reply of 516 bytes, a client that sends
  -- a write request for numbers that an `int` holds, with at least as many bytes of text behind the
  -- blanks that the text begins with as it says, receives "Yes " or "No " as `cmd_w` takes or
  -- refuses it, on the text less these blanks, in whatever pieces the reply arrives; and the disk is
  -- then the one that `cmd_w` leaves, or the same as before. All buffers are idle again.
  pub remote_write :
      (n : ℕ) (text : List ℕ)
      → n ≤ int_max
      → n ≤ length (skip_space text)
      → Fits client.write_buf (length (request_w c s n text))
      → 4 + length (request_w c s n text) < tcp_buf_size - (p.read_buf i).write_index
      → concat pieces ≡ frame (write_reply (cmd_w d (pos c) (pos s) (pos n) (skip_space text)))
      → IsCall disk_callbacks i p d
          (disk_after d (cmd_w d (pos c) (pos s) (pos n) (skip_space text)))
          client
          max_len
          (request_w c s n text)
          (write_reply (cmd_w d (pos c) (pos s) (pos n) (skip_space text)))
          pieces
  remote_write n text n_int n_text c_room r_room whole =
      let o = cmd_w d (pos c) (pos s) (pos n) (skip_space text) in
      let short = write_reply_short o in
      let replied =
        ap outcome_of (on_recv-write d (p.write_buf i) c s ints n text n_int n_text)
        ∙ write_answer i d (p.write_buf i) c s n (skip_space text) o n_text refl in
      call disk_callbacks i p d (disk_after d o) client max_len (request_w c s n text)
        (write_reply o) pieces ready idle c_ready c_idle c_room r_room (omega (arith, short))
        replied arrive whole (omega (arith, short))
