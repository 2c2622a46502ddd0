-- ===== src/Fs/FileUpdates/RoundTrip.antt =====
-- `readi` behind `writei`, fs/src/inode.c.
use mathlib.Core.Path.{subst}
use cs2310_prj.Base.{
  ℕ, ◌+◌, ◌*◌, ◌/◌, ◌%◌, ◌<◌, ◌≤◌, ◌≡◌, ◌≢◌, sym, ap, ◌∙◌, some, List, arith, length, splice,
  get_or, pos, ◌==◌, true, u32_mod,
}
use cs2310_prj.Cache.Links.{update}
use cs2310_prj.Fs.{Device, Fs, Inode}
use cs2310_prj.Fs.Layout.{encode_inode, inode_size}
use cs2310_prj.Fs.Inodes.{ipb}
use cs2310_prj.Fs.FileIo.{writei, readi, max_size}
use cs2310_prj.Fs.Storage.{IsStorage, IsUsable}
use cs2310_prj.Fs.Mapping.{HasIndex, file_block}
use cs2310_prj.Fs.FileBytes.{file_byte, file_bytes, Holds, AreMapped}
use cs2310_prj.Fs.FileBlocks.{
  IsApart, AvoidsIndex, with_block, with_block_ne, blocks_kept, kept-HasIndex,
}
use cs2310_prj.Fs.FileReads.{
  inode_block, with_inode, update_here, in_file, accessed, readi-file_bytes,
}
use cs2310_prj.Fs.FileWrites.{AreStorable, Wrote}
use cs2310_prj.Fs.FileWrites.Loop.{bytes_of_file}
use cs2310_prj.Fs.FileUpdates.{modified, Wrote-AvoidsIndex, writei-file_bytes}

-- The contents of the file's blocks where another block is replaced.
module _ (w : ℕ → List ℕ) (ip : Inode) (b : ℕ) (y : List ℕ) (avoids : AvoidsIndex w ip b)
    (free : (q : ℕ) → file_block w ip q ≢ b) where
  content_kept :
      (q : ℕ) → with_block w b y (file_block (with_block w b y) ip q) ≡ w (file_block w ip q)
  content_kept q =
      ap (with_block w b y) (blocks_kept w ip b y avoids q)
      ∙ with_block_ne w b y (file_block w ip q) (free q)

  byte_kept : (p : ℕ) → file_byte (with_block w b y) ip p ≡ file_byte w ip p
  byte_kept p = ap (λ x. get_or x (p % 512) 0) (content_kept (p / 512))

module _ {D : Device} (S : IsStorage D) where
  mapped_kept :
      (s : Fs D) (v w z : ℕ → List ℕ) (ip : Inode) (o n : ℕ) (src : List ℕ)
      → Wrote v w ip o src
      → ((q : ℕ) → file_block z ip q ≡ file_block w ip q)
      → ((q : ℕ) → z (file_block z ip q) ≡ w (file_block w ip q))
      → AreMapped S s v ip o n
      → AreMapped S s z ip o n
  mapped_kept s v w z ip o n src wrote blocks contents mapped q a b =
      let (there, usable, size) = mapped q a b in
      let same : file_block z ip q ≡ file_block v ip q = blocks q ∙ wrote.blocks q in
      (
        λ e. there (sym same ∙ e),
        subst (IsUsable S s) (sym same) usable,
        ap length (contents q) ∙ wrote.sizes q ∙ size,
      )

  -- `readi` with its inode named.
  readi_inode :
      (slot o n : ℕ) (s : Fs D) (v : ℕ → List ℕ) (ip : Inode)
      → s.inodes slot ≡ ip
      → 0 < n
      → o + n ≤ ip.size
      → ip.size < u32_mod
      → Holds S s.dev v
      → HasIndex v ip (IsUsable S s)
      → AreMapped S s v ip o n
      → IsUsable S s (inode_block S s ip)
      → S.Storable (with_inode S v s (record ip { atime = s.now }))
      → (u : Fs D) × (readi slot o n s ≡ some ((pos n, file_bytes v ip o n), u))
  readi_inode slot o n s v ip e =
      subst
        (λ j.
          0 < n
          → o + n ≤ j.size
          → j.size < u32_mod
          → Holds S s.dev v
          → HasIndex v j (IsUsable S s)
          → AreMapped S s v j o n
          → IsUsable S s (inode_block S s j)
          → S.Storable (with_inode S v s (record j { atime = s.now }))
          → (u : Fs D) × (readi slot o n s ≡ some ((pos n, file_bytes v j o n), u)))
        e
        (λ more bound small h x mapped usable ok.
          let whole : in_file (s.inodes slot).size o n ≡ n = ground arith in
          let (d, r, h') =
            readi-file_bytes S slot o n s v more (omega arith) small (omega arith) h x
              (subst (AreMapped S s v (s.inodes slot) o) (sym whole) mapped) usable ok in
          (
            record s { dev = d; inodes = update s.inodes slot (accessed S s slot) },
            r
                ∙ ap
                    (λ k. some (
                      (pos k, file_bytes v (s.inodes slot) o k),
                      record s { dev = d; inodes = update s.inodes slot (accessed S s slot) },
                    ))
                    whole,
          ))

  -- On a device that keeps its blocks, where the inode's size is below 2^32: a write of one byte or
  -- more that ends within the largest file, into blocks that are there, hold 512 bytes each and are
  -- apart from each other and from the file's index blocks. These blocks, the index blocks and the
  -- inode's block lie within the file system; the inode's block is not block 0, is none of the
  -- file's blocks and not used by its index. The device can store the blocks with the new bytes,
  -- and the inode's block with the inode that the write leaves and with the one that the read
  -- leaves. Then `writei` returns the number of bytes, and `readi` of as many bytes at the same
  -- offset returns this number and the bytes that were written.
  pub readi-writei :
      (slot o : ℕ) (src : List ℕ) (s : Fs D) (v : ℕ → List ℕ)
      → 0 < length src
      → o + length src ≤ max_size
      → (s.inodes slot).size < u32_mod
      → Holds S s.dev v
      → HasIndex v (s.inodes slot) (IsUsable S s)
      → IsApart v (s.inodes slot)
      → AreMapped S s v (s.inodes slot) o (length src)
      → AreStorable S (length src) v (s.inodes slot) o src
      → IsUsable S s (inode_block S s (s.inodes slot))
      → ((q : ℕ) → file_block v (s.inodes slot) q ≢ inode_block S s (s.inodes slot))
      → AvoidsIndex v (s.inodes slot) (inode_block S s (s.inodes slot))
      → S.Storable (with_inode S v s (modified (s.inodes slot) (o + length src) s.now))
      → S.Storable (
          splice
            ((s.inodes slot).inum % ipb * inode_size)
            (encode_inode
              (record (modified (s.inodes slot) (o + length src) s.now) { atime = s.now }))
            (with_inode S v s (modified (s.inodes slot) (o + length src) s.now)))
      → (t : Fs D) × (u : Fs D) × (writei slot src o s ≡ some (pos (length src), t))
        × (readi slot o (length src) t ≡ some ((pos (length src), src), u))
  readi-writei slot o src s v more bound small h x apart mapped store usable free avoids ok1 ok2 =
      let ip = s.inodes slot in
      let n = length src in
      let b = inode_block S s ip in
      let ip' = modified ip (o + n) s.now in
      let y = with_inode S v s ip' in
      let (d, w, e, h1, x1, wrote) =
        writei-file_bytes S slot o src s v more bound h x apart mapped store usable free ok1 in
      let z = with_block w b y in
      let t = record s { dev = d; inodes = update s.inodes slot ip' } in
      let avoids1 = Wrote-AvoidsIndex v w ip o src b apart wrote avoids in
      let free1 : (q : ℕ) → file_block w ip q ≢ b = λ q k. free q (sym (wrote.blocks q) ∙ k) in
      let x3 = kept-HasIndex w ip b y avoids1 (IsUsable S s) x1 in
      let x2 : HasIndex z ip' (IsUsable S t) = record {
        first = x3.first;
        second = x3.second;
        outer = x3.outer;
        inner = x3.inner;
      } in
      let mapped2 =
        mapped_kept s v w z ip o n src wrote (blocks_kept w ip b y avoids1)
          (content_kept w ip b y avoids1 free1) mapped in
      let bytes : file_bytes z ip' o n ≡ src =
        bytes_of_file S z ip' o src
          (λ p l. byte_kept w ip b y avoids1 free1 (o + p) ∙ wrote.within p l) in
      let hit : (b == b) ≡ true = ground arith in
      let here : z b ≡ y = rw (hit) in
      let (u, r) =
        readi_inode slot o n t z ip' (update_here S s.inodes slot ip') more (ground arith)
          (ground arith) h1 x2 mapped2 usable
          (subst
            (λ c.
              S.Storable (
                splice (ip.inum % ipb * inode_size) (encode_inode (record ip' { atime = s.now }))
                  c))
            (sym here) ok2) in
      (t, u, e, r ∙ ap (λ c. some ((pos n, c), u)) bytes)
