-- ===== src/Tests/Disks.antt =====
-- The theorems on the disk server at concrete inputs.
use cs2310_prj.Base.{◌≡◌, ◌∷◌, pos, inr, arith}
use cs2310_prj.Base.Text.{skip_space}
use cs2310_prj.Disk.{cmd_r, cmd_w, copy_in, offset, success}
use cs2310_prj.Disk.Sectors.{IsValid, padded, cmd_r-cmd_w, cmd_r-cmd_w_ne}
use cs2310_prj.DiskServer.{on_recv}
use cs2310_prj.DiskServer.Requests.{request_w}
use cs2310_prj.DiskServer.Replies.{served_write, on_recv-write}
use cs2310_prj.Tests.Data.{
  empty_buffer, hi, small_disk, small_disk-IsValid, second_sector, first_sector,
}

cmd_r-cmd_w_example :
    (cmd_w small_disk (pos 0) (pos 1) (pos 2) hi
      ≡ success (copy_in small_disk (offset small_disk 0 1) 2 hi))
    × IsValid (copy_in small_disk (offset small_disk 0 1) 2 hi)
    × (cmd_r (copy_in small_disk (offset small_disk 0 1) 2 hi) (pos 0) (pos 1)
        ≡ success (padded hi))
cmd_r-cmd_w_example = cmd_r-cmd_w small_disk 0 1 hi small_disk-IsValid second_sector (omega arith)

cmd_r-cmd_w_ne_example :
    cmd_r (copy_in small_disk (offset small_disk 0 1) 2 hi) (pos 0) (pos 0)
    ≡ cmd_r small_disk (pos 0) (pos 0)
cmd_r-cmd_w_ne_example =
    cmd_r-cmd_w_ne small_disk 0 1 hi small_disk-IsValid second_sector (omega arith) 0 0 first_sector
      (inr (omega arith))

on_recv-write_example :
    on_recv small_disk empty_buffer (request_w 0 1 2 (b' ' ∷ hi))
    ≡ served_write small_disk empty_buffer
        (cmd_w small_disk (pos 0) (pos 1) (pos 2) (skip_space (b' ' ∷ hi)))
on_recv-write_example =
    on_recv-write small_disk empty_buffer 0 1 (omega arith, omega arith) 2 (b' ' ∷ hi) (omega arith)
      (unfold skip_space in omega arith)
