-- ===== src/Fs/Inodes.antt =====
-- fs/src/inode.c: the cache of inodes and the inodes on the disk. The mutex around the cache is
-- left out: a request is served to its end before the next.

use cs2310_prj.Base.{
  ℕ, zero, suc, ◌+◌, ◌-◌, ◌*◌, ◌/◌, ◌%◌, Option, none, some, List, [], ◌∷◌, if◌then◌else◌, leb,
  ◌==◌, slice, splice, replicate, add32, u32_mod,
}
use cs2310_prj.Cache.Links.{update}
use cs2310_prj.Fs.{
  Device, Inode, Fs, M, ◌>>=◌, ◌>>◌, pure, gets, modify, bsize, uninit_block, get_inode, put_inode,
}
use cs2310_prj.Fs.Block.{read_block, write_block, set_bit, scan_bits, first_of_two}
use cs2310_prj.Fs.Layout.{inode_size, encode_inode, decode_inode}

abbrev pub ninodes : ℕ
ninodes = 20

-- (uint)-1
abbrev pub no_inum : ℕ
no_inum = 4_294_967_295

abbrev pub t_dir : ℕ
t_dir = 1

abbrev pub t_file : ℕ
t_file = 2

-- The number of inodes in a block.
abbrev pub ipb : ℕ
ipb = bsize / inode_size

abbrev pub zero_inode : Inode
zero_inode = record {
  inum = 0;
  type = 0;
  nlink = 0;
  size = 0;
  blocks = 0;
  uid = 0;
  gid = 0;
  mode = 0;
  atime = 0;
  mtime = 0;
  ctime = 0;
  flags = 0;
  addrs = replicate 13 0;
  reference_count = 0;
  reserved = replicate 7 0;
}

-- The first of the `n` slots from `i` on with the number `inum`.
unfoldable pub slot_from : ℕ → ℕ → ℕ → (ℕ → Inode) → Option ℕ
slot_from zero i inum inodes = none
slot_from (suc n) i inum inodes =
    let rest = slot_from n (i + 1) inum inodes in if (inodes i).inum == inum then some i else rest

unfoldable pub wipe_from : ℕ → ℕ → (ℕ → Inode) → ℕ → Inode
wipe_from zero i inodes = inodes
wipe_from (suc n) i inodes =
    wipe_from n (i + 1) (update inodes i (record (inodes i) { inum = no_inum }))

-- The byte loops of `ialloc`: the first clear bit of the bitmap.
unfoldable pub free_inum : ℕ → List ℕ → Option ℕ
unfolding scan_bits
free_inum byte [] = none
free_inum byte (v ∷ vs) =
    let rest = free_inum (byte + 1) vs in
    if v == 255 then rest else first_of_two (scan_bits 8 0 (byte * 8 + 8) byte v) rest

-- `ip->reference_count--`, not below 0.
abbrev pub drop_reference : Inode → Inode
drop_reference ip = record ip { reference_count = ip.reference_count - 1 }

abbrev pub fresh_inode : ℕ → ℕ → ℕ → Inode
fresh_inode inum type now = record zero_inode {
  inum = inum;
  type = type;
  nlink = 1;
  mode = if type == t_dir then 493 else 420;
  atime = now;
  mtime = now;
  ctime = now;
}

module _ {D : Device} where
  unfoldable pub init_inode_cache : M (Fs D) (Unit {0})
  unfolding wipe_from
  init_inode_cache = modify λ s. record s { inodes = wipe_from ninodes 0 s.inodes }

  -- The inode is read into a free slot.
  unfoldable pub fill_slot : ℕ → ℕ → M (Fs D) (Option ℕ)
  fill_slot empty inum = do
    sb ← gets (λ s. s.sb)
    buf ← read_block (add32 sb.inode_start (inum / ipb)) uninit_block
    put_inode empty (record (decode_inode (slice (inum % ipb * inode_size) inode_size buf)) {
      inum = inum;
      reference_count = 1;
    })
    pure (some empty)

  unfoldable pub add_reference : ℕ → M (Fs D) (Option ℕ)
  add_reference i = do
    ip ← get_inode i
    put_inode i (record ip { reference_count = add32 ip.reference_count 1 })
    pure (some i)

  abbrev pub fill_empty : Option ℕ → ℕ → M (Fs D) (Option ℕ)
  fill_empty none inum = pure none
  fill_empty (some empty) inum = fill_slot empty inum

  -- A slot that has the inode gets one more reference; otherwise a free slot is filled. `none` is
  -- `NULL`: a number that is out of range, or a full cache.
  abbrev pub get_cached : Option ℕ → ℕ → M (Fs D) (Option ℕ)
  get_cached (some i) inum = add_reference i
  get_cached none inum = λ s. fill_empty (slot_from ninodes 0 no_inum s.inodes) inum s

  unfoldable pub iget : ℕ → M (Fs D) (Option ℕ)
  unfolding slot_from
  iget inum s =
      if leb (s.sb.ninode_blocks * ipb % u32_mod) inum
      then some (none, s)
      else get_cached (slot_from ninodes 0 inum s.inodes) inum s

  -- The inode replaces its 128 bytes in its block.
  unfoldable pub iupdate : ℕ → M (Fs D) (Unit {0})
  iupdate i = do
    sb ← gets (λ s. s.sb)
    ip ← get_inode i
    buf ← read_block (add32 sb.inode_start (ip.inum / ipb)) uninit_block
    write_block (add32 sb.inode_start (ip.inum / ipb))
        (splice (ip.inum % ipb * inode_size) (encode_inode ip) buf)

  -- The last reference writes the inode to the disk and frees its slot.
  abbrev pub release_slot : ℕ → M (Fs D) (Unit {0})
  release_slot i = do iupdate i; put_inode i (record zero_inode { inum = no_inum })

  unfoldable pub iput : Option ℕ → M (Fs D) (Unit {0})
  iput none = pure tt
  iput (some i) = do
    ip ← get_inode i
    put_inode i (drop_reference ip)
    if (drop_reference ip).reference_count == 0 then release_slot i else pure tt

  -- The new inode is written into its block on the disk, and read back into the cache.
  unfoldable pub place_inode : ℕ → ℕ → M (Fs D) (Option ℕ)
  place_inode inum type = do
    sb ← gets (λ s. s.sb)
    now ← gets (λ s. s.now)
    buf ← read_block (add32 sb.inode_start (inum / ipb)) uninit_block
    write_block (add32 sb.inode_start (inum / ipb))
        (splice (inum % ipb * inode_size) (encode_inode (fresh_inode inum type now)) buf)
    iget inum

  unfoldable pub claim_inum :
      ℕ → ℕ → List ℕ → ℕ → Option ℕ → M (Fs D) (Option ℕ) → M (Fs D) (Option ℕ)
  claim_inum b type bitmap size none rest = rest
  claim_inum b type bitmap size (some bit) rest =
      let inum = (b * (bsize * 8) + bit) % u32_mod in
      if leb size inum then pure none else (do
        sb ← gets (λ s. s.sb)
        write_block (add32 sb.inode_bitmap_start b) (set_bit bitmap bit)
        if inum == no_inum then pure none else place_inode inum type)

  -- The loop over the blocks of the inode bitmap.
  unfoldable pub ialloc_from : ℕ → ℕ → ℕ → List ℕ → M (Fs D) (Option ℕ)
  ialloc_from zero b type old = pure none
  ialloc_from (suc n) b type old = do
    sb ← gets (λ s. s.sb)
    bitmap ← read_block (add32 sb.inode_bitmap_start b) old
    claim_inum b type bitmap sb.size (free_inum 0 bitmap) (ialloc_from n (b + 1) type bitmap)

  unfoldable pub ialloc : ℕ → M (Fs D) (Option ℕ)
  ialloc type = do
    sb ← gets (λ s. s.sb)
    ialloc_from sb.ninode_blocks_bitmap_blocks 0 type uninit_block
