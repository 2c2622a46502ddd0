-- ===== src/DiskServer/Replies.antt =====
-- The reply of disk/src/server.c to each request that the file system sends, in one equation.
use cs2310_prj.Base.{int_max, ℕ, ◌≤◌, length, ◌≡◌, refl, List, [], pos, arith}
use cs2310_prj.Base.Text.{skip_space}
use cs2310_prj.TcpBuffer.{TcpBuffer, reply_with_yes, reply_with_no}
use cs2310_prj.Disk.{Disk, Outcome, success, invalid, fault, cmd_r, cmd_w, block_size}
use cs2310_prj.DiskServer.{Served, served, crash, on_recv}
use cs2310_prj.DiskServer.Requests.{
  AreInts, request_r, request_w, on_recv-request_r, on_recv-request_w,
}

-- "Yes " and the block, or "No ".
abbrev pub served_read : Disk → TcpBuffer → Outcome (List ℕ) → Served
served_read d wb (success text) = served d (reply_with_yes wb text (pos block_size)) (pos 0)
served_read d wb invalid = served d (reply_with_no wb [] (pos 0)) (pos 0)
served_read d wb fault = crash

-- The new disk and "Yes ", or the old one and "No ".
abbrev pub served_write : Disk → TcpBuffer → Outcome Disk → Served
served_write d wb (success d') = served d' (reply_with_yes wb [] (pos 0)) (pos 0)
served_write d wb invalid = served d (reply_with_no wb [] (pos 0)) (pos 0)
served_write d wb fault = crash

module _ (d : Disk) (wb : TcpBuffer) (c s : ℕ) (ints : AreInts c s) where
  read_by_outcome :
      (o : Outcome (List ℕ))
      → cmd_r d (pos c) (pos s) ≡ o
      → on_recv d wb (request_r c s) ≡ served_read d wb o
  read_by_outcome (success text) e = (on_recv-request_r d wb c s ints).0 text e
  read_by_outcome invalid e = (on_recv-request_r d wb c s ints).1 e
  read_by_outcome fault e = absurd (unfold cmd_r in ground arith)

  -- The bytes of a read request for numbers that an `int` holds, as the file system prints them,
  -- are taken by the disk server for the numbers that were printed: it replies with the outcome of `cmd_r` on them.
  pub on_recv-read : on_recv d wb (request_r c s) ≡ served_read d wb (cmd_r d (pos c) (pos s))
  on_recv-read = read_by_outcome (cmd_r d (pos c) (pos s)) refl

  module _ (n : ℕ) (text : List ℕ) (small : n ≤ int_max)
      (enough : n ≤ length (skip_space text)) where
    write_by_outcome :
        (o : Outcome Disk)
        → cmd_w d (pos c) (pos s) (pos n) (skip_space text) ≡ o
        → on_recv d wb (request_w c s n text) ≡ served_write d wb o
    write_by_outcome (success d') e = (on_recv-request_w d wb c s n text ints small).0 d' e
    write_by_outcome invalid e = (on_recv-request_w d wb c s n text ints small).1 e
    write_by_outcome fault e = absurd (unfold cmd_w in ground arith)

    -- The bytes of a write request for numbers that an `int` holds, with at least as many bytes of
    -- text behind the blanks that the text begins with as the request says, are taken for the
    -- numbers that were printed and for the text less these blanks. The server replies with the
    -- outcome of `cmd_w` on these: "Yes " and the new disk, or "No " and the old one.
    pub on_recv-write :
        on_recv d wb (request_w c s n text)
        ≡ served_write d wb (cmd_w d (pos c) (pos s) (pos n) (skip_space text))
    on_recv-write = write_by_outcome (cmd_w d (pos c) (pos s) (pos n) (skip_space text)) refl
