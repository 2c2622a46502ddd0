-- ===== src/Tests/Contents.antt =====
-- The theorems on the bytes of a file at concrete inputs.
use cs2310_prj.Base.{
  ℕ, zero, suc, ◌+◌, ◌<◌, ◌≤◌, ◌≡◌, ◌≢◌, ◌⊎◌, refl, sym, ◌∙◌, true, some, List, [], ◌∷◌, arith, pos,
  le32, le16, length, splice,
}
use cs2310_prj.Disk.{init_disk}
use cs2310_prj.Cache.{find_from, cache_init}
use cs2310_prj.Cache.Contents.{blocks}
use cs2310_prj.Fs.{Fs, Inode}
use cs2310_prj.Fs.Inodes.{zero_inode}
use cs2310_prj.Fs.OnCache.{cache_device}
use cs2310_prj.Fs.Storage.{IsStorage, IsUsable, cache_storage}
use cs2310_prj.Fs.Mapping.{HasIndex, file_block, Finds, bmap-file_block}
use cs2310_prj.Fs.Bmap.{bmap}
use cs2310_prj.Fs.FileIo.{read_loop, write_loop, readi}
use cs2310_prj.Fs.FileBytes.{file_byte, file_bytes, Holds, AreMapped}
use cs2310_prj.Fs.FileBlocks.{IsApart, with_block}
use cs2310_prj.Cache.Links.{update}
use cs2310_prj.Fs.Layout.{encode_inode, le_words}
use cs2310_prj.Fs.FileReads.{accessed, with_inode, readi-file_bytes}
use cs2310_prj.Fs.FileWrites.{AreStorable}
use cs2310_prj.Fs.FileWrites.Loop.{read_loop-write_loop}
use cs2310_prj.Tests.Data.{small_sb, backend, server, disk_fs, fresh_cache, fresh_cache-IsValid, hi}

-- A file of one block, the second sector of the disk.
abbrev one_block_file : Inode
one_block_file = record zero_inode { addrs = 1 ∷ []; size = 2 }

abbrev file_fs : Fs (cache_device backend)
file_fs = record disk_fs { inodes = λ i. one_block_file; sb = record small_sb { inode_start = 0 } }

abbrev contents : ℕ → List ℕ
contents = blocks server.view fresh_cache

fresh-Holds : Holds (cache_storage server) file_fs.dev contents
fresh-Holds = (fresh_cache-IsValid, λ m r. refl)

file-HasIndex : HasIndex contents one_block_file (IsUsable (cache_storage server) file_fs)
file-HasIndex = record {
  first = λ ne. absurd (ne refl);
  second = λ ne. absurd (ne refl);
  outer = λ ne. absurd (ne refl);
  inner = λ i ne. absurd (ne refl);
}

no_more : (q : ℕ) → file_block contents one_block_file (suc q) ≡ 0
no_more q = ground arith

only_block : (q : ℕ) → file_block contents one_block_file q ≢ 0 → q ≡ 0
only_block zero ne = refl
only_block (suc q) ne = absurd (ne (no_more q))

file-IsApart : IsApart contents one_block_file
file-IsApart = record {
  blocks = λ q q' ne e. only_block q ne ∙ sym (only_block q' (λ z. ne (e ∙ z)));
  first = λ q ne e. ne (sym e);
  second = λ q ne e. ne (sym e);
  outer = λ q ne e. ne (sym e);
  inner = λ q i ne e. ne (sym e);
}

sector_length : length (contents 1) ≡ 512
unfolding find_from cache_init init_disk
sector_length = refl

file-AreMapped : AreMapped (cache_storage server) file_fs contents one_block_file 0 2
file-AreMapped zero a b =
    (λ z. absurd (omega (arith, z)), (omega arith, omega arith, omega arith), sector_length)
file-AreMapped (suc q) a b = absurd (omega arith)

file-AreStorable : AreStorable (cache_storage server) 2 contents one_block_file 0 hi
unfolding splice find_from cache_init init_disk
file-AreStorable = ((refl, refl), tt)

read_loop-write_loop_example :
    (d : (cache_device backend).State) × (d' : (cache_device backend).State) × (w : ℕ → List ℕ)
    × (write_loop 2 0 0 hi 0 file_fs ≡ some ((true, 2), record file_fs { dev = d }))
    × (read_loop 2 0 0 2 [] (record file_fs { dev = d }) ≡ some (hi, record file_fs { dev = d' }))
    × Holds (cache_storage server) d' w
    × ((p : ℕ)
        → (p < 0) ⊎ (0 + 2 ≤ p)
        → file_byte w one_block_file p ≡ file_byte contents one_block_file p)
    × ((q : ℕ) → file_block w one_block_file q ≡ file_block contents one_block_file q)
read_loop-write_loop_example =
    read_loop-write_loop (cache_storage server) 0 0 hi file_fs contents (omega arith) fresh-Holds
      file-HasIndex file-IsApart file-AreMapped file-AreStorable

bmap-file_block_example : Finds (cache_storage server) file_fs 1 (bmap 0 0 true)
bmap-file_block_example =
    bmap-file_block (cache_storage server) file_fs 0 0 true fresh_cache-IsValid file-HasIndex
      (λ a z. absurd (omega (arith, z)))

inode-Storable :
    IsStorage.Storable (cache_storage server) (
      with_inode
        (cache_storage server)
        contents
        file_fs
        (accessed (cache_storage server) file_fs 0))
unfolding splice find_from cache_init init_disk encode_inode le_words le32 le16
inode-Storable = (refl, refl)

readi-file_bytes_example :
    (d : (cache_device backend).State) × (readi 0 0 2 file_fs
      ≡ some (
        (pos 2, file_bytes contents one_block_file 0 2),
        record file_fs {
          dev = d;
          inodes = update file_fs.inodes 0 (accessed (cache_storage server) file_fs 0);
        },
      ))
    × Holds (cache_storage server) d (
        with_block contents 0 (
          with_inode
            (cache_storage server)
            contents
            file_fs
            (accessed (cache_storage server) file_fs 0)))
readi-file_bytes_example =
    readi-file_bytes (cache_storage server) 0 0 2 file_fs contents (omega arith) (omega arith)
      (omega arith) (omega arith) fresh-Holds file-HasIndex file-AreMapped
      (omega arith, omega arith, omega arith) inode-Storable
