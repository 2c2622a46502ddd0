-- ===== src/Fs/Geometry.antt =====
-- Where `sbinit` of fs/src/fs.c puts the parts of the file system.
use cs2310_prj.Base.{ℕ, ◌+◌, ◌≤◌, ◌<◌, ◌≡◌, arith, u32_mod, refl}
use cs2310_prj.Fs.Commands.{sbinit}

-- On a disk of 35 blocks or more, the superblock, the bitmap of the inodes, that of the data
-- blocks, the inodes and the data blocks follow each other without gap or overlap, and fill the
-- disk.
pub sbinit_lem :
    (n : ℕ)
    → 35 ≤ n
    → n < u32_mod
    → ((sbinit n).inode_bitmap_start ≡ 1)
      × ((sbinit n).inode_bitmap_start + (sbinit n).ninode_blocks_bitmap_blocks
          ≡ (sbinit n).bmapstart)
      × ((sbinit n).bmapstart + (sbinit n).ndata_blocks_bitmap_blocks ≡ (sbinit n).inode_start)
      × ((sbinit n).inode_start + (sbinit n).ninode_blocks ≡ (sbinit n).block_start)
      × ((sbinit n).block_start + (sbinit n).ndata_blocks ≡ n)
unfolding sbinit
sbinit_lem n l h = (refl, refl, refl, refl, omega arith)
