-- ===== src/Fs/Remove.antt =====
-- `iremove` of fs/src/inode.c: the blocks of a file go back to the bitmap, then its inode.
use Prim.Native.Nat.{bit_and}
use cs2310_prj.Base.{
  ℕ, zero, suc, ◌+◌, ◌-◌, ◌*◌, ◌/◌, ◌%◌, ◌^◌, not, ◌&&◌, ◌||◌, List, if◌then◌else◌, ltb, leb, ◌==◌,
  get_or, set, add32, sub32,
}
use cs2310_prj.Fs.{
  Device, Inode, Fs, M, ◌>>=◌, ◌>>◌, pure, gets, bsize, uninit_block, get_inode, put_inode,
}
use cs2310_prj.Fs.Block.{read_block, write_block, free_block}
use cs2310_prj.Fs.Bmap.{ndirect, iptrs, word_at, put_word, addr}

-- `mapbuf[byte] &= ~(1 << bit)`
abbrev pub clear_bit : List ℕ → ℕ → List ℕ
clear_bit buf idx = set buf (idx / 8) (bit_and (get_or buf (idx / 8) 0) (255 - 2 ^ (idx % 8)))

-- `ip->blocks--; ip->addrs[k] = 0`
abbrev pub forget_addr : Inode → ℕ → Inode
forget_addr ip k = record ip { blocks = sub32 ip.blocks 1; addrs = set ip.addrs k 0 }

abbrev pub uncount_block : Inode → Inode
uncount_block ip = record ip { blocks = sub32 ip.blocks 1 }

module _ {D : Device} where
  unfoldable pub release_addr : ℕ → ℕ → ℕ → M (Fs D) (Unit {0})
  release_addr slot k blkno = do
    free_block blkno
    ip ← get_inode slot
    put_inode slot (forget_addr ip k)

  unfoldable pub release_block : ℕ → ℕ → M (Fs D) (Unit {0})
  release_block slot blkno = do
    free_block blkno
    ip ← get_inode slot
    put_inode slot (uncount_block ip)

  unfoldable pub free_direct : ℕ → ℕ → ℕ → M (Fs D) (Unit {0})
  free_direct zero k slot = pure tt
  free_direct (suc n) k slot = do
    ip ← get_inode slot
    if addr ip k == 0 then pure tt else release_addr slot k (addr ip k)
    free_direct n (k + 1) slot

  -- The entries of an index block, from `j` on. The array is left with zeros in their place.
  unfoldable pub free_entries : ℕ → ℕ → List ℕ → ℕ → M (Fs D) (List ℕ)
  free_entries zero j buf slot = pure buf
  free_entries (suc n) j buf slot = do
    if word_at buf j == 0 then pure tt else release_block slot (word_at buf j)
    free_entries n (j + 1) (if word_at buf j == 0 then buf else put_word buf j 0) slot

  unfoldable pub free_indirect_block : ℕ → ℕ → ℕ → M (Fs D) (Unit {0})
  free_indirect_block slot k blkno = do
    buf ← read_block blkno uninit_block
    rest ← free_entries iptrs 0 buf slot
    release_addr slot k blkno

  unfoldable pub free_indirect : ℕ → ℕ → M (Fs D) (Unit {0})
  free_indirect slot k = do
    ip ← get_inode slot
    if addr ip k == 0 then pure tt else free_indirect_block slot k (addr ip k)

  -- Entry `i1` of the doubly indirect block. `dbl` and `ind` are the one array `buf`: the inner
  -- block is read over the outer one, so `dbl[i1]` is by then an entry of the inner block.
  unfoldable pub free_inner : ℕ → List ℕ → ℕ → M (Fs D) (List ℕ)
  free_inner i1 buf slot = do
    ind ← read_block (word_at buf i1) buf
    rest ← free_entries iptrs 0 ind slot
    release_block slot (word_at rest i1)
    pure (put_word rest i1 0)

  unfoldable pub free_inners : ℕ → ℕ → List ℕ → ℕ → M (Fs D) (Unit {0})
  free_inners zero i1 buf slot = pure tt
  free_inners (suc n) i1 buf slot = do
    rest ← if word_at buf i1 == 0 then pure buf else free_inner i1 buf slot
    free_inners n (i1 + 1) rest slot

  unfoldable pub free_double_block : ℕ → ℕ → M (Fs D) (Unit {0})
  free_double_block slot blkno = do
    buf ← read_block blkno uninit_block
    free_inners iptrs 0 buf slot
    release_addr slot (ndirect + 2) blkno

  unfoldable pub free_double : ℕ → M (Fs D) (Unit {0})
  free_double slot = do
    ip ← get_inode slot
    if addr ip (ndirect + 2) == 0 then pure tt else free_double_block slot (addr ip (ndirect + 2))

  -- The bit of the inode in the bitmap block that covers it.
  unfoldable pub clear_inum : ℕ → ℕ → ℕ → M (Fs D) (Unit {0})
  clear_inum zero bi inum = pure tt
  clear_inum (suc n) bi inum = do
    sb ← gets (λ s. s.sb)
    map ← read_block (add32 sb.inode_bitmap_start bi) uninit_block
    if leb (bi * (bsize * 8)) inum && ltb inum (bi * (bsize * 8) + bsize * 8)
        then write_block (add32 sb.inode_bitmap_start bi) (clear_bit map (inum - bi * (bsize * 8)))
        else clear_inum n (bi + 1) inum

  unfoldable pub remove_inode : ℕ → M (Fs D) (Unit {0})
  remove_inode slot = do
    free_direct ndirect 0 slot
    free_indirect slot ndirect
    free_indirect slot (ndirect + 1)
    free_double slot
    sb ← gets (λ s. s.sb)
    ip ← get_inode slot
    clear_inum sb.ninode_blocks_bitmap_blocks 0 ip.inum

  -- An inode with a link or a reference is kept.
  unfoldable pub iremove : ℕ → M (Fs D) (Unit {0})
  iremove slot = do
    ip ← get_inode slot
    if not (ip.nlink == 0) || not (ip.reference_count == 0) then pure tt else remove_inode slot
