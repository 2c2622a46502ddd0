-- ===== src/Fs/Layout.antt =====
-- The 128 bytes of an inode on the disk, fs/include/inode.h, on a little-endian machine. The inode
-- in memory has the same layout, with its reference count in place of the first reserved word.
use cs2310_prj.Base.{
  ℕ, ◌*◌, List, [], ◌∷◌, ◌++◌, slice, le32, from_le32, le16, from_le16, zero, suc,
}
use cs2310_prj.Fs.{Inode}

-- An array of words.
unfoldable pub le_words : List ℕ → List ℕ
le_words [] = []
le_words (w ∷ ws) = le32 w ++ le_words ws

unfoldable pub from_le_words : ℕ → List ℕ → List ℕ
from_le_words zero d = []
from_le_words (suc n) d = from_le32 (slice 0 4 d) ∷ from_le_words n (slice 4 (4 * n) d)

abbrev pub inode_size : ℕ
inode_size = 128

unfoldable pub encode_inode : Inode → List ℕ
encode_inode ip =
    le32 ip.inum
    ++ (le16 ip.type
        ++ (le16 ip.nlink
            ++ (le_words (
                  ip.size ∷ ip.blocks ∷ ip.uid ∷ ip.gid ∷ ip.mode ∷ ip.atime ∷ ip.mtime ∷ ip.ctime
                  ∷ ip.flags ∷ [])
                ++ (le_words ip.addrs ++ (le32 ip.reference_count ++ le_words ip.reserved)))))

unfoldable pub decode_inode : List ℕ → Inode
decode_inode d = record {
  inum = from_le32 (slice 0 4 d);
  type = from_le16 (slice 4 2 d);
  nlink = from_le16 (slice 6 2 d);
  size = from_le32 (slice 8 4 d);
  blocks = from_le32 (slice 12 4 d);
  uid = from_le32 (slice 16 4 d);
  gid = from_le32 (slice 20 4 d);
  mode = from_le32 (slice 24 4 d);
  atime = from_le32 (slice 28 4 d);
  mtime = from_le32 (slice 32 4 d);
  ctime = from_le32 (slice 36 4 d);
  flags = from_le32 (slice 40 4 d);
  addrs = from_le_words 13 (slice 44 52 d);
  reference_count = from_le32 (slice 96 4 d);
  reserved = from_le_words 7 (slice 100 28 d);
}
