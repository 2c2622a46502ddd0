-- ===== src/Fs/StoredInodes.antt =====
-- `iupdate` and `iget` of fs/src/inode.c, one behind the other: an inode on its way to the disk and
-- back.
use cs2310_prj.Base.{
  ◌++◌, le32, ℕ, ◌*◌, ◌%◌, ◌<◌, ◌≡◌, refl, sym, ap, ◌∙◌, false, true, none, some, List, arith, le32,
  le16, leb, ◌==◌, length, length-append, u32_mod, slice, slice-splice_self,
}
use cs2310_prj.Cache.Links.{update}
use cs2310_prj.Fs.{Device, Fs, Inode, uninit_block}
use cs2310_prj.Fs.Layout.{encode_inode, decode_inode, inode_size, le_words}
use cs2310_prj.Fs.Inodes.{iupdate, iget, fill_slot, slot_from, ninodes, no_inum, ipb}
use cs2310_prj.Fs.Storage.{IsStorage, IsUsable, read_usable}
use cs2310_prj.Fs.FileBytes.{Holds}
use cs2310_prj.Fs.FileBlocks.{with_block}
use cs2310_prj.Fs.FileReads.{inode_block, with_inode, iupdate-Holds}
use cs2310_prj.Fs.Encodings.{InodeFits, length-le_words, decode_inode-encode_inode}

length-encode_inode : (ip : Inode) → InodeFits ip → length (encode_inode ip) ≡ inode_size
unfolding encode_inode le_words le32 le16
length-encode_inode ip f = omega (
  arith,
  length-append (le_words ip.addrs) (le32 ip.reference_count ++ le_words ip.reserved),
  length-le_words ip.addrs,
  length-le_words ip.reserved,
  f.addrs_length,
  f.reserved_length,
)

module _ {D : Device} (S : IsStorage D) where
  -- On a device that keeps its blocks, where an inode in a slot of the cache has fields of the
  -- widths of the C structure, its number is one of the file system, and its block lies within the
  -- file system, has 512 bytes and can be stored with it: `iupdate` stores it; and `iget` of its
  -- number, once the inode cache has no slot with that number and `free` is its first free slot,
  -- puts the same inode into `free`, with one reference, and changes no other slot.
  pub iget-iupdate :
      (slot free : ℕ) (inodes : ℕ → Inode) (s : Fs D) (v : ℕ → List ℕ)
      → InodeFits (s.inodes slot)
      → (s.inodes slot).inum < s.sb.ninode_blocks * ipb % u32_mod
      → Holds S s.dev v
      → IsUsable S s (inode_block S s (s.inodes slot))
      → length (v (inode_block S s (s.inodes slot))) ≡ 512
      → S.Storable (with_inode S v s (s.inodes slot))
      → slot_from ninodes 0 (s.inodes slot).inum inodes ≡ none
      → slot_from ninodes 0 no_inum inodes ≡ some free
      → (d : D.State) × (d' : D.State) × (iupdate slot s ≡ some (tt, record s { dev = d }))
        × (iget (s.inodes slot).inum (record s { dev = d; inodes = inodes })
            ≡ some (
              some free,
              record s {
                dev = d';
                inodes = update inodes free (record (s.inodes slot) { reference_count = 1 });
              },
            ))
  unfolding iget fill_slot
  iget-iupdate slot free inodes s v fits known h usable whole ok absent empty =
      let ip = s.inodes slot in
      let b = inode_block S s ip in
      let x = with_inode S v s ip in
      let at = ip.inum % ipb * inode_size in
      let (d, u, h1) = iupdate-Holds S slot s v ip refl h usable ok in
      let t = record s { dev = d; inodes = inodes } in
      let (d', r, k) = read_usable S t b usable uninit_block h1.0 in
      let hit : (b == b) ≡ true = ground arith in
      let here : with_block v b x b ≡ x = rw hit in
      let bytes : S.view d b ≡ x = h1.1 b usable.0 ∙ here in
      let size = length-encode_inode ip fits in
      let back : decode_inode (slice at inode_size x) ≡ ip =
        ap decode_inode
          (slice-splice_self at (encode_inode ip) (v b) inode_size (sym size) (omega arith))
        ∙ decode_inode-encode_inode ip fits in
      let inside : leb (s.sb.ninode_blocks * ipb % u32_mod) ip.inum ≡ false = ground arith in
      (d, d', u, rw (inside, absent, empty, r, bytes, back))
