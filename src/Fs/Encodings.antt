-- ===== src/Fs/Encodings.antt =====
-- The bytes on the disk of the superblock, the inodes and the directory entries, written by
-- fs/src/fs.c, fs/src/inode.c and fs/src/dirop.c and read by them.
use cs2310_prj.Base.{
  ℕ, zero, suc, ◌+◌, ◌-◌, ◌*◌, ◌<◌, ◌≤◌, ◌≡◌, refl, sym, ap, ◌∙◌, List, [], ◌∷◌, ◌++◌, arith,
  length, take, drop, slice, splice, replicate, le32, le16, from_le32, from_le32-le32,
  from_le16-le16, u32_mod, take-append, drop-append, drop-drop, take-length, slice-splice_prefix,
}
use cs2310_prj.Fs.{Superblock, Inode}
use cs2310_prj.Fs.Layout.{le_words, from_le_words, encode_inode, decode_inode}
use cs2310_prj.Fs.Dir.{DirEntry, encode_entry, decode_entry, maxname}
use cs2310_prj.Fs.Commands.{encode_superblock, decode_superblock}

-- Words of 32 bits.
abbrev pub AreWords : List ℕ → Type 0
AreWords [] = Unit {0}
AreWords (w ∷ ws) = (w < u32_mod) × AreWords ws

pub length-le_words : (ws : List ℕ) → length (le_words ws) ≡ 4 * length ws
unfolding le_words le32
length-le_words [] = refl
length-le_words (w ∷ ws) = omega (arith, length-le_words ws)

le32-prefix : (w n : ℕ) (d : List ℕ) → slice 4 n (le32 w ++ d) ≡ take n d
unfolding le32
le32-prefix w n d = refl

le32-head : (w : ℕ) (d : List ℕ) → w < u32_mod → from_le32 (slice 0 4 (le32 w ++ d)) ≡ w
unfolding le32
le32-head w d h = from_le32-le32 w h

from_le_words-le_words :
    (n : ℕ) (ws : List ℕ) → n ≡ length ws → AreWords ws → from_le_words n (le_words ws) ≡ ws
unfolding le_words from_le_words
from_le_words-le_words zero [] e h = refl
from_le_words-le_words zero (w ∷ ws) e h = absurd (omega arith)
from_le_words-le_words (suc n) [] e h = absurd (omega arith)
from_le_words-le_words (suc n) (w ∷ ws) e h =
    rw
      (
        le32-head w (le_words ws) h.0,
        le32-prefix w (4 * n) (le_words ws),
        take-length (le_words ws) (4 * n) (omega (arith, length-le_words ws)),
        from_le_words-le_words n ws (omega arith) h.1,
      )
      refl

abbrev pub superblock_words : Superblock → List ℕ
superblock_words sb =
    sb.magic ∷ sb.size ∷ sb.ndata_blocks ∷ sb.ninode_blocks ∷ sb.ndata_blocks_bitmap_blocks
    ∷ sb.ninode_blocks_bitmap_blocks ∷ sb.bmapstart ∷ sb.inode_start ∷ sb.inode_bitmap_start
    ∷ sb.block_start ∷ []

-- The superblock that `cmd_f` writes into block 0 is the one that `fs_mount` reads from it, where
-- its fields are words of 32 bits.
pub decode_superblock-encode_superblock :
    (sb old : Superblock) (block : List ℕ)
    → AreWords (superblock_words sb)
    → 40 ≤ length block
    → decode_superblock (splice 0 (encode_superblock sb) block) old ≡ sb
unfolding decode_superblock encode_superblock
decode_superblock-encode_superblock sb old block h l =
    let ws = superblock_words sb in
    let n = length-le_words ws in
    rw
      (
        slice-splice_prefix 0 (le_words ws) block 40 (omega arith) (omega arith),
        take-length (le_words ws) 40 (omega arith),
        from_le_words-le_words 10 ws refl h,
      )
      refl

-- An inode whose fields have the widths of the C structure.
pub record InodeFits (ip : Inode) : Type 0 where
  pub type_fits : ip.type < 65_536
  pub nlink_fits : ip.nlink < 65_536
  pub inum_fits : ip.inum < u32_mod
  pub size_fits : ip.size < u32_mod
  pub blocks_fits : ip.blocks < u32_mod
  pub uid_fits : ip.uid < u32_mod
  pub gid_fits : ip.gid < u32_mod
  pub mode_fits : ip.mode < u32_mod
  pub atime_fits : ip.atime < u32_mod
  pub mtime_fits : ip.mtime < u32_mod
  pub ctime_fits : ip.ctime < u32_mod
  pub flags_fits : ip.flags < u32_mod
  pub reference_fits : ip.reference_count < u32_mod
  pub addrs_length : length ip.addrs ≡ 13
  pub addrs_fit : AreWords ip.addrs
  pub reserved_length : length ip.reserved ≡ 7
  pub reserved_fit : AreWords ip.reserved

module _ (addrs reserved : List ℕ) (rc : ℕ) (al : length addrs ≡ 13)
    (rl : length reserved ≡ 7) where
  -- The words of an inode behind its first 44 bytes.
  abbrev tail_bytes : List ℕ
  tail_bytes = le_words addrs ++ (le32 rc ++ le_words reserved)

  addrs-length : 52 ≡ length (le_words addrs)
  addrs-length = omega (arith, length-le_words addrs, al)

  take-addrs : take 52 tail_bytes ≡ le_words addrs
  take-addrs = take-append (le_words addrs) (le32 rc ++ le_words reserved) 52 addrs-length

  drop-addrs : drop 52 tail_bytes ≡ le32 rc ++ le_words reserved
  drop-addrs = drop-append (le_words addrs) (le32 rc ++ le_words reserved) 52 addrs-length

  read_addrs : AreWords addrs → from_le_words 13 (take 52 tail_bytes) ≡ addrs
  read_addrs h =
      ap (from_le_words 13) take-addrs ∙ from_le_words-le_words 13 addrs (omega (arith, al)) h

  read_count : rc < u32_mod → from_le32 (slice 52 4 tail_bytes) ≡ rc
  read_count h = ap (λ d. from_le32 (take 4 d)) drop-addrs ∙ le32-head rc (le_words reserved) h

  drop_count : drop 4 (le32 rc ++ le_words reserved) ≡ le_words reserved
  unfolding le32
  drop_count = refl

  read_reserved : AreWords reserved → from_le_words 7 (slice 56 28 tail_bytes) ≡ reserved
  read_reserved h =
      ap (λ d. from_le_words 7 (take 28 d))
        (sym (drop-drop 4 52 56 tail_bytes refl) ∙ ap (drop 4) drop-addrs ∙ drop_count)
      ∙ ap (from_le_words 7)
          (take-length (le_words reserved) 28 (omega (arith, length-le_words reserved, rl)))
      ∙ from_le_words-le_words 7 reserved (omega (arith, rl)) h

-- An inode that `iupdate` writes is the one that `iget` reads from the same place, where its fields
-- have the widths of the C structure.
pub decode_inode-encode_inode : (ip : Inode) → InodeFits ip → decode_inode (encode_inode ip) ≡ ip
unfolding decode_inode encode_inode le32 le16 le_words
decode_inode-encode_inode ip f =
    let a =
      read_addrs ip.addrs ip.reserved ip.reference_count f.addrs_length f.reserved_length
        f.addrs_fit in
    let c =
      read_count ip.addrs ip.reserved ip.reference_count f.addrs_length f.reserved_length
        f.reference_fits in
    let r =
      read_reserved ip.addrs ip.reserved ip.reference_count f.addrs_length f.reserved_length
        f.reserved_fit in
    λ j. record {
      inum = from_le32-le32 ip.inum f.inum_fits j;
      type = from_le16-le16 ip.type f.type_fits j;
      nlink = from_le16-le16 ip.nlink f.nlink_fits j;
      size = from_le32-le32 ip.size f.size_fits j;
      blocks = from_le32-le32 ip.blocks f.blocks_fits j;
      uid = from_le32-le32 ip.uid f.uid_fits j;
      gid = from_le32-le32 ip.gid f.gid_fits j;
      mode = from_le32-le32 ip.mode f.mode_fits j;
      atime = from_le32-le32 ip.atime f.atime_fits j;
      mtime = from_le32-le32 ip.mtime f.mtime_fits j;
      ctime = from_le32-le32 ip.ctime f.ctime_fits j;
      flags = from_le32-le32 ip.flags f.flags_fits j;
      addrs = a j;
      reference_count = c j;
      reserved = r j;
    }

-- A directory entry that `dir_add` writes is the one that the searches read, where its fields have
-- the widths of the C structure.
pub decode_entry-encode_entry :
    (e : DirEntry)
    → e.type < 65_536
    → e.inum < u32_mod
    → length e.name ≡ maxname
    → decode_entry (encode_entry e) ≡ e
unfolding decode_entry encode_entry le32 le16
decode_entry-encode_entry e t i n = λ j. record {
  type = from_le16-le16 e.type t j;
  inum = from_le32-le32 e.inum i j;
  name = take-append e.name (replicate (maxname + 2 - length e.name) 0) maxname (sym n) j;
}
