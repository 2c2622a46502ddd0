-- ===== src/Tests/Files.antt =====
-- The theorems on the file system at concrete inputs.
use cs2310_prj.Base.{
  ◌≢◌, to_int, from_le32, from_le16, le16, le32, ℕ, zero, suc, ◌≡◌, ◌⊎◌, ◌++◌, refl, false, Option,
  none, some, List, [], ◌∷◌, replicate, arith, splice,
}
use cs2310_prj.Base.Text.{c_str, str_eq}
use cs2310_prj.Fs.{Device, Fs, Inode, ◌>>=◌, ◌>>◌, pure}
use cs2310_prj.Fs.Inodes.{iupdate, slot_from, iget, iput, t_file, t_dir}
use cs2310_prj.Fs.Bmap.{
  bmap, bmap_direct, allocate_addr, bmap_double, bmap_indirect, entry_of, index_block, inner_block,
}
use cs2310_prj.Fs.FileIo.{readi, read_loop, finish_write, write_loop, writei}
use cs2310_prj.Fs.Dir.{
  find_entry, read_entry, dir_remove, slash, e_success, encode_entry, decode_entry,
}
use cs2310_prj.Fs.Commands.{unlink_file}
use cs2310_prj.Fs.Paths.{split_path}
use cs2310_prj.Fs.Layout.{le_words, encode_inode}
use cs2310_prj.Fs.Block.{
  read_block, readable, write_block, writable, allocate_block, allocate_from, scan_bits, take_bit,
  scan_bytes,
}
use cs2310_prj.Fs.PathSyntax.{has_slash, split_path_lem}
use cs2310_prj.Fs.Encodings.{AreWords, superblock_words}
use cs2310_prj.Fs.References.{iget-iput}
use cs2310_prj.Fs.Removal.{unlinked, unlink_file-keeps_blocks}
use cs2310_prj.Fs.Fuel.{write_loop-fuel}
use cs2310_prj.Tests.Data.{null_device, fs_on, null_fs, small_sb, private_inode, user_session}

-- "e"
abbrev e_text : List ℕ
e_text = b'e' ∷ []

-- "a/b"
abbrev a_path : List ℕ
a_path = b'a' ∷ b'/' ∷ b'b' ∷ []

split_path_lem_example :
    (has_slash (split_path a_path).1 ≡ false)
    × ((((split_path a_path).0 ≡ []) × ((split_path a_path).1 ≡ a_path))
        ⊎ (((split_path a_path).0 ≡ slash) × (slash ++ (split_path a_path).1 ≡ a_path))
        ⊎ (((split_path a_path).0 ≢ [])
            × ((split_path a_path).0 ++ b'/' ∷ (split_path a_path).1 ≡ a_path)))
split_path_lem_example = split_path_lem a_path

zeros-AreWords : (n : ℕ) → AreWords (replicate n 0)
zeros-AreWords zero = tt
zeros-AreWords (suc n) = (omega arith, zeros-AreWords n)

small_words : AreWords (superblock_words small_sb)
small_words = (
  omega arith,
  (
    omega arith,
    (
      omega arith,
      (
        omega arith,
        (
          omega arith,
          (omega arith, (omega arith, (omega arith, (omega arith, (omega arith, tt))))),
        ),
      ),
    ),
  ),
)

iget-iput_example : (iget 3 >>= iput) null_fs ≡ some (tt, null_fs)
unfolding slot_from
iget-iput_example = iget-iput 3 3 null_fs (omega arith) refl (omega arith) (omega arith)

-- Two bytes of a bitmap, the second with its third bit clear.
abbrev bitmap : List ℕ
bitmap = 255 ∷ 251 ∷ []

-- A directory of one entry, "e" with inode 3: block 40 of a device that stores nothing.
abbrev one_block_device : ℕ → Device
one_block_device type = record {
  State = Unit {0};
  cache_read = λ b s. some (
    s,
    encode_entry (record { type = type; inum = 3; name = b'e' ∷ replicate 25 0 })
        ++ replicate 476 0,
  );
  cache_write = λ b x s. some s;
}

abbrev one_entry : ℕ → Inode
one_entry i = record (private_inode i) { size = 36; addrs = 40 ∷ replicate 12 0 }

abbrev one_fs : (type : ℕ) → Fs (one_block_device type)
one_fs type = record (fs_on (one_block_device type) tt user_session) { inodes = one_entry }

-- The state that `dir_remove` leaves.
abbrev state_of : (type : ℕ) → Option (ℕ × Fs (one_block_device type)) → Fs (one_block_device type)
state_of type none = one_fs type
state_of type (some (r, s)) = s

abbrev after_removal : (type : ℕ) → Fs (one_block_device type)
after_removal type = state_of type (dir_remove (some 0) e_text type (one_fs type))

file_found :
    dir_remove (some 0) e_text t_file (one_fs t_file) ≡ some (e_success, after_removal t_file)
unfolding dir_remove find_entry read_entry readi read_loop bmap bmap_direct read_block readable
    to_int iupdate write_block writable decode_entry from_le32 splice encode_entry from_le16 le16
    le32 c_str str_eq allocate_block allocate_from scan_bits scan_bytes take_bit allocate_addr
    bmap_double bmap_indirect entry_of index_block inner_block finish_write write_loop writei
    encode_inode le_words
file_found = refl

file_held : ((after_removal t_file).inodes 3).reference_count ≡ 1
unfolding dir_remove find_entry read_entry readi read_loop bmap bmap_direct read_block readable
    to_int iupdate write_block writable decode_entry from_le32 splice encode_entry from_le16 le16
    le32 c_str str_eq allocate_block allocate_from scan_bits scan_bytes take_bit allocate_addr
    bmap_double bmap_indirect entry_of index_block inner_block finish_write write_loop writei
    encode_inode le_words
file_held = refl

dir_found : dir_remove (some 0) e_text t_dir (one_fs t_dir) ≡ some (e_success, after_removal t_dir)
unfolding dir_remove find_entry read_entry readi read_loop bmap bmap_direct read_block readable
    to_int iupdate write_block writable decode_entry from_le32 splice encode_entry from_le16 le16
    le32 c_str str_eq allocate_block allocate_from scan_bits scan_bytes take_bit allocate_addr
    bmap_double bmap_indirect entry_of index_block inner_block finish_write write_loop writei
    encode_inode le_words
dir_found = refl

dir_held : ((after_removal t_dir).inodes 3).reference_count ≡ 1
unfolding dir_remove find_entry read_entry readi read_loop bmap bmap_direct read_block readable
    to_int iupdate write_block writable decode_entry from_le32 splice encode_entry from_le16 le16
    le32 c_str str_eq allocate_block allocate_from scan_bits scan_bytes take_bit allocate_addr
    bmap_double bmap_indirect entry_of index_block inner_block finish_write write_loop writei
    encode_inode le_words
dir_held = refl

unlink_file-keeps_blocks_example :
    unlink_file e_text (some 3) (one_fs t_file)
    ≡ (iput (some 3) >> pure e_success) (unlinked 3 1 (after_removal t_file))
unlink_file-keeps_blocks_example =
    unlink_file-keeps_blocks e_text 3 (one_fs t_file) (after_removal t_file) file_found
      (omega (arith, file_held))

write_loop-fuel_example :
    write_loop {D = null_device} 9 0 510 e_text 0 ≡ write_loop {D = null_device} 1 0 510 e_text 0
write_loop-fuel_example = write_loop-fuel 0 9 1 510 e_text 0 (omega arith) (omega arith)
