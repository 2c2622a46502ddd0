-- ===== src/Fs/Allocation.antt =====
-- `allocate_block` of fs/src/block.c on a file system that `sbinit` of fs/src/fs.c laid out.
use cs2310_prj.Fs.{Fs}
