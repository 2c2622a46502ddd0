-- ===== src/Tests/Updates.antt =====
-- The theorems on a file that is written and read again at concrete inputs.
use cs2310_prj.Base.{
  replicate, ℕ, zero, suc, ◌≡◌, ◌≢◌, refl, sym, ◌∙◌, true, some, List, [], ◌∷◌, arith, pos, le32,
  le16, length, splice,
}
use cs2310_prj.Disk.{init_disk}
use cs2310_prj.Disk.Sectors.{init_disk-IsValid}
use cs2310_prj.Cache.{Backend, Cache, cache_init, find_from}
use cs2310_prj.Cache.Wire.{Link, wire_backend}
use cs2310_prj.Cache.Contents.{IsBlockServer, blocks}
use cs2310_prj.Cache.Alloc
use cs2310_prj.Cache.Views.{cache_init-IsValid}
use cs2310_prj.Cache.OnDisk.{disk_transport, disk_server, IsGood}
use cs2310_prj.Disk.{Disk}
use cs2310_prj.Fs.{Fs, Inode}
use cs2310_prj.Fs.Inodes.{zero_inode}
use cs2310_prj.Fs.OnCache.{cache_device}
use cs2310_prj.Fs.Storage.{IsStorage, IsUsable, cache_storage}
use cs2310_prj.Fs.Mapping.{HasIndex, file_block}
use cs2310_prj.Fs.FileIo.{readi, writei}
use cs2310_prj.Fs.FileBytes.{Holds, AreMapped}
use cs2310_prj.Fs.FileBlocks.{IsApart, AvoidsIndex}
use cs2310_prj.Fs.Layout.{encode_inode, le_words}
use cs2310_prj.Fs.FileReads.{with_inode}
use cs2310_prj.Fs.FileWrites.{AreStorable}
use cs2310_prj.Fs.FileUpdates.{modified}
use cs2310_prj.Fs.FileUpdates.RoundTrip.{readi-writei}
use cs2310_prj.Cache.Links.{update}
use cs2310_prj.Fs.Commands.{sbinit}
use cs2310_prj.Fs.Inodes.{iupdate, iget, no_inum, slot_from}
use cs2310_prj.Fs.Encodings.{AreWords, InodeFits}
use cs2310_prj.Fs.StoredInodes.{iget-iupdate}
use cs2310_prj.Tests.Data.{small_sb, raw_cache, user_session, hi}

-- A disk of one cylinder of three sectors.
abbrev three_sectors : Link Disk
three_sectors = record { server = init_disk [] 1 3; pending = [] }

three_sectors-IsGood : IsGood 1 3 three_sectors
unfolding init_disk
three_sectors-IsGood = record {
  disk = init_disk-IsValid 1 3;
  cylinders = refl;
  sectors = refl;
  idle = refl;
  ints = (omega arith, omega arith);
}

abbrev wide_backend : Backend
wide_backend = wire_backend disk_transport 3

abbrev wide_server : IsBlockServer wide_backend
wide_server = disk_server 1 3

abbrev wide_cache : Cache (Link Disk)
wide_cache = cache_init (record raw_cache { server = three_sectors })

wide_cache-IsValid : Alloc.IsValid wide_server wide_cache
wide_cache-IsValid =
    cache_init-IsValid wide_server (record raw_cache { server = three_sectors })
      three_sectors-IsGood

-- A file of one block, the second sector of the disk; its inode is in the third.
abbrev short_file : Inode
short_file = record zero_inode { addrs = 1 ∷ []; size = 1 }

abbrev wide_fs : Fs (cache_device wide_backend)
wide_fs = record {
  dev = wide_cache;
  sb = record small_sb { inode_start = 2 };
  inodes = λ i. short_file;
  fs_initialized = true;
  ncyl = 1;
  nsec = 3;
  now = 0;
  session = user_session;
}

abbrev sectors : ℕ → List ℕ
sectors = blocks wide_server.view wide_cache

sectors-Holds : Holds (cache_storage wide_server) wide_fs.dev sectors
sectors-Holds = (wide_cache-IsValid, λ m r. refl)

short-HasIndex : HasIndex sectors short_file (IsUsable (cache_storage wide_server) wide_fs)
short-HasIndex = record {
  first = λ ne. absurd (ne refl);
  second = λ ne. absurd (ne refl);
  outer = λ ne. absurd (ne refl);
  inner = λ i ne. absurd (ne refl);
}

no_more : (q : ℕ) → file_block sectors short_file (suc q) ≡ 0
no_more q = ground arith

only_block : (q : ℕ) → file_block sectors short_file q ≢ 0 → q ≡ 0
only_block zero ne = refl
only_block (suc q) ne = absurd (ne (no_more q))

short-IsApart : IsApart sectors short_file
short-IsApart = record {
  blocks = λ q q' ne e. only_block q ne ∙ sym (only_block q' (λ z. ne (e ∙ z)));
  first = λ q ne e. ne (sym e);
  second = λ q ne e. ne (sym e);
  outer = λ q ne e. ne (sym e);
  inner = λ q i ne e. ne (sym e);
}

sector_length : length (sectors 1) ≡ 512
unfolding find_from cache_init init_disk
sector_length = refl

short-AreMapped : AreMapped (cache_storage wide_server) wide_fs sectors short_file 0 2
short-AreMapped zero a b =
    (λ z. absurd (omega (arith, z)), (omega arith, omega arith, omega arith), sector_length)
short-AreMapped (suc q) a b = absurd (omega arith)

short-AreStorable : AreStorable (cache_storage wide_server) 2 sectors short_file 0 hi
unfolding splice find_from cache_init init_disk
short-AreStorable = ((refl, refl), tt)

not_the_inode : (q : ℕ) → file_block sectors short_file q ≢ 2
not_the_inode zero e = absurd (omega (arith, e))
not_the_inode (suc q) e = absurd (omega (arith, sym (no_more q) ∙ e))

inode-AvoidsIndex : AvoidsIndex sectors short_file 2
inode-AvoidsIndex = record {
  first = λ e. absurd (omega (arith, e));
  second = λ e. absurd (omega (arith, e));
  outer = λ e. absurd (omega (arith, e));
  inner = λ i e. absurd (omega (arith, e));
}

written-Storable :
    IsStorage.Storable
      (cache_storage wide_server)
      (with_inode (cache_storage wide_server) sectors wide_fs (modified short_file 2 0))
unfolding splice find_from cache_init init_disk encode_inode le_words le32 le16
written-Storable = (refl, refl)

read-Storable : IsStorage.Storable (cache_storage wide_server) (
    splice 0
      (encode_inode (record (modified short_file 2 0) { atime = 0 }))
      (with_inode (cache_storage wide_server) sectors wide_fs (modified short_file 2 0)))
unfolding splice find_from cache_init init_disk encode_inode le_words le32 le16
read-Storable = (refl, refl)

readi-writei_example :
    (t : Fs (cache_device wide_backend)) × (u : Fs (cache_device wide_backend)) × (writei 0 hi 0
        wide_fs
      ≡ some (pos 2, t))
    × (readi 0 0 2 t ≡ some ((pos 2, hi), u))
readi-writei_example =
    readi-writei (cache_storage wide_server) 0 0 hi wide_fs sectors (omega arith) (omega arith)
      (omega arith) sectors-Holds short-HasIndex short-IsApart short-AreMapped short-AreStorable
      (omega arith, omega arith, omega arith) not_the_inode inode-AvoidsIndex written-Storable
      read-Storable

-- The same disk, with no inode in the cache.
abbrev formatted : Fs (cache_device wide_backend)
formatted = record wide_fs { sb = sbinit 100 }

-- The inode in a slot of the cache, all of whose thirteen addresses are there.
abbrev whole_file : Inode
whole_file = record zero_inode { addrs = 1 ∷ replicate 12 0; size = 1 }

abbrev file_fs : Fs (cache_device wide_backend)
file_fs = record wide_fs { inodes = λ i. whole_file }

abbrev no_inodes : ℕ → Inode
no_inodes i = record zero_inode { inum = no_inum }

zeros-AreWords : (n : ℕ) → AreWords (replicate n 0)
zeros-AreWords zero = tt
zeros-AreWords (suc n) = (omega arith, zeros-AreWords n)

whole_file-InodeFits : InodeFits whole_file
whole_file-InodeFits = record {
  type_fits = omega arith;
  nlink_fits = omega arith;
  inum_fits = omega arith;
  size_fits = omega arith;
  blocks_fits = omega arith;
  uid_fits = omega arith;
  gid_fits = omega arith;
  mode_fits = omega arith;
  atime_fits = omega arith;
  mtime_fits = omega arith;
  ctime_fits = omega arith;
  flags_fits = omega arith;
  reference_fits = omega arith;
  addrs_length = refl;
  addrs_fit = (omega arith, zeros-AreWords 12);
  reserved_length = refl;
  reserved_fit = zeros-AreWords 7;
}

whole_file-Storable :
    IsStorage.Storable
      (cache_storage wide_server)
      (with_inode (cache_storage wide_server) sectors file_fs whole_file)
unfolding splice find_from cache_init init_disk encode_inode le_words le32 le16
whole_file-Storable = (refl, refl)

inode_sector_length : length (sectors 2) ≡ 512
unfolding find_from cache_init init_disk
inode_sector_length = refl

iget-iupdate_example :
    (d : (cache_device wide_backend).State) × (d' : (cache_device wide_backend).State) × (iupdate 4
        file_fs
      ≡ some (tt, record file_fs { dev = d }))
    × (iget 0 (record file_fs { dev = d; inodes = no_inodes })
        ≡ some (
          some 0,
          record file_fs {
            dev = d';
            inodes = update no_inodes 0 (record whole_file { reference_count = 1 });
          },
        ))
unfolding slot_from
iget-iupdate_example =
    iget-iupdate (cache_storage wide_server) 4 0 no_inodes file_fs sectors whole_file-InodeFits
      (omega arith) sectors-Holds (omega arith, omega arith, omega arith) inode_sector_length
      whole_file-Storable refl refl
