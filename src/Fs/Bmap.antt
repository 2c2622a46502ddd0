-- ===== src/Fs/Bmap.antt =====
-- `bmap` of fs/src/inode.c: the physical block of a file's block, through the ten direct blocks,
-- the two indirect blocks and the doubly indirect block of its inode.
use cs2310_prj.Base.{
  ℕ, ◌+◌, ◌-◌, ◌*◌, ◌/◌, ◌%◌, Bool, ◌&&◌, List, if◌then◌else◌, ltb, ◌==◌, get_or, set, slice,
  splice, replicate, le32, from_le32, add32,
}
use cs2310_prj.Fs.{
  Device, Inode, Fs, M, ◌>>=◌, ◌>>◌, pure, bsize, uninit_block, get_inode, put_inode,
}
use cs2310_prj.Fs.Block.{read_block, write_block, allocate_block}

abbrev pub ndirect : ℕ
ndirect = 10

-- The number of block numbers in a block.
abbrev pub iptrs : ℕ
iptrs = 128

abbrev pub dptrs : ℕ
dptrs = iptrs * iptrs

-- `((uint *)buf)[k]`, read and written.
abbrev pub word_at : List ℕ → ℕ → ℕ
word_at buf k = from_le32 (slice (4 * k) 4 buf)

abbrev pub put_word : List ℕ → ℕ → ℕ → List ℕ
put_word buf k v = splice (4 * k) (le32 v) buf

abbrev pub addr : Inode → ℕ → ℕ
addr ip k = get_or ip.addrs k 0

-- `ip->addrs[k] = b; ip->blocks++`
abbrev pub set_addr : Inode → ℕ → ℕ → Inode
set_addr ip k b = record ip { addrs = set ip.addrs k b; blocks = add32 ip.blocks 1 }

abbrev pub count_block : Inode → Inode
count_block ip = record ip { blocks = add32 ip.blocks 1 }

module _ {D : Device} where
  -- Fills in `ip->addrs[k]`.
  unfoldable pub allocate_addr : ℕ → ℕ → M (Fs D) ℕ
  allocate_addr slot k = do
    b ← allocate_block
    ip ← get_inode slot
    put_inode slot (set_addr ip k b)
    pure b

  unfoldable pub bmap_direct : ℕ → ℕ → Bool → M (Fs D) ℕ
  bmap_direct slot bnum alloc = do
    ip ← get_inode slot
    if addr ip bnum == 0 && alloc then allocate_addr slot bnum else pure (addr ip bnum)

  -- An indirect block is zeroed when it is allocated.
  unfoldable pub index_block : ℕ → ℕ → Bool → M (Fs D) ℕ
  index_block slot k alloc = do
    ip ← get_inode slot
    if addr ip k == 0 && alloc
        then (do b ← allocate_addr slot k; write_block b (replicate bsize 0); pure b)
        else pure (addr ip k)

  -- Entry `k` of the index block `b`, whose content is `buf`.
  unfoldable pub entry_of : ℕ → ℕ → List ℕ → ℕ → Bool → M (Fs D) ℕ
  entry_of slot b buf k alloc =
      if word_at buf k == 0 && alloc
      then (do
        v ← allocate_block
        ip ← get_inode slot
        put_inode slot (count_block ip)
        write_block b (put_word buf k v)
        pure v)
      else pure (word_at buf k)

  unfoldable pub bmap_indirect : ℕ → ℕ → ℕ → Bool → M (Fs D) ℕ
  bmap_indirect slot level bnum alloc = do
    b ← index_block slot level alloc
    if b == 0 then pure 0 else (do buf ← read_block b uninit_block; entry_of slot b buf bnum alloc)

  -- Entry `i1` of the doubly indirect block `b`; a new index block is zeroed before it is entered.
  unfoldable pub inner_block : ℕ → ℕ → List ℕ → ℕ → Bool → M (Fs D) ℕ
  inner_block slot b buf i1 alloc =
      if word_at buf i1 == 0 && alloc
      then (do
        v ← allocate_block
        ip ← get_inode slot
        put_inode slot (count_block ip)
        write_block v (replicate bsize 0)
        write_block b (put_word buf i1 v)
        pure v)
      else pure (word_at buf i1)

  unfoldable pub bmap_double : ℕ → ℕ → Bool → M (Fs D) ℕ
  bmap_double slot bnum alloc = do
    b ← index_block slot (ndirect + 2) alloc
    if b == 0 then pure 0 else (do
      buf ← read_block b uninit_block
      inner ← inner_block slot b buf (bnum / iptrs) alloc
      if inner == 0 then pure 0 else (do
        sub ← read_block inner uninit_block
        entry_of slot inner sub (bnum % iptrs) alloc))

  unfoldable pub bmap : ℕ → ℕ → Bool → M (Fs D) ℕ
  bmap slot bnum alloc =
      if ltb bnum ndirect
      then bmap_direct slot bnum alloc
      else (if ltb (bnum - ndirect) iptrs
          then bmap_indirect slot ndirect (bnum - ndirect) alloc
          else (if ltb (bnum - ndirect - iptrs) iptrs
              then bmap_indirect slot (ndirect + 1) (bnum - ndirect - iptrs) alloc
              else (if ltb (bnum - ndirect - iptrs - iptrs) dptrs
                  then bmap_double slot (bnum - ndirect - iptrs - iptrs) alloc
                  else pure 0)))
