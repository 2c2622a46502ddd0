-- ===== src/Tests/Data.antt =====
-- Small states of each part, on which the theorems are applied.
use cs2310_prj.Base.{
  ℕ, ◌≡◌, refl, true, false, none, some, List, [], ◌∷◌, replicate, length-replicate, arith, pos,
}
use cs2310_prj.TcpBuffer.{TcpBuffer, tcp_buf_size}
use cs2310_prj.TcpBuffer.Frames
use cs2310_prj.TcpBuffer.Frames.{queued}
use cs2310_prj.Disk.{Disk, init_disk}
use cs2310_prj.Disk.Sectors
use cs2310_prj.Disk.Sectors.{init_disk-IsValid}
use cs2310_prj.Cache.{Backend, Cache, cache_init}
use cs2310_prj.Cache.Wire.{Link, wire_backend}
use cs2310_prj.Cache.Contents.{IsBlockServer}
use cs2310_prj.Cache.Alloc
use cs2310_prj.Cache.Views.{cache_init-IsValid}
use cs2310_prj.Cache.OnDisk.{disk_transport, disk_server, IsGood, Storable}
use cs2310_prj.Fs.{Device, Superblock, Inode, Session, Fs}
use cs2310_prj.Fs.Inodes.{zero_inode, t_dir}
use cs2310_prj.Fs.OnCache.{cache_device}

abbrev pub empty_buffer : TcpBuffer
empty_buffer = record { read_index = 0; write_index = 0; buf = replicate tcp_buf_size 0 }

pub empty_buffer-IsValid : Frames.IsValid empty_buffer
empty_buffer-IsValid = record {
  ordered = omega arith;
  within = omega arith;
  sized = length-replicate {A = ℕ} tcp_buf_size 0;
}

pub empty_buffer-queued : queued empty_buffer ≡ []
unfolding queued
empty_buffer-queued = refl

abbrev pub hi : List ℕ
hi = b'h' ∷ b'i' ∷ []

-- One cylinder of two sectors.
abbrev pub small_disk : Disk
small_disk = init_disk [] 1 2

pub small_disk-IsValid : Sectors.IsValid small_disk
small_disk-IsValid = init_disk-IsValid 1 2

pub second_sector : Sectors.InRange small_disk 0 1
unfolding init_disk
second_sector = (omega arith, omega arith)

pub first_sector : Sectors.InRange small_disk 0 0
unfolding init_disk
first_sector = (omega arith, omega arith)

abbrev pub small_link : Link Disk
small_link = record { server = small_disk; pending = [] }

pub small_link-IsGood : IsGood 1 2 small_link
unfolding init_disk
small_link-IsGood = record {
  disk = small_disk-IsValid;
  cylinders = refl;
  sectors = refl;
  idle = refl;
  ints = (omega arith, omega arith);
}

abbrev pub sevens : List ℕ
sevens = replicate 512 7

pub sevens-Storable : Storable 1 2 sevens
sevens-Storable = (length-replicate {A = ℕ} 512 7, refl)

abbrev pub backend : Backend
backend = wire_backend disk_transport 2

abbrev pub server : IsBlockServer backend
server = disk_server 1 2

-- A cache before `cache_init`.
abbrev pub raw_cache : Cache (Link Disk)
raw_cache = record {
  entry = λ i. record { blockno = 0; bytes = []; dirty = false };
  size = 0;
  lru = record { prev = λ i. none; next = λ i. none; head = none; tail = none };
  hits = 0;
  misses = 0;
  server = small_link;
}

abbrev pub fresh_cache : Cache (Link Disk)
fresh_cache = cache_init raw_cache

pub fresh_cache-IsValid : Alloc.IsValid server fresh_cache
fresh_cache-IsValid = cache_init-IsValid server raw_cache small_link-IsGood

abbrev pub small_sb : Superblock
small_sb = record {
  magic = 0x2004_1216;
  size = 100;
  ndata_blocks = 65;
  ninode_blocks = 32;
  ndata_blocks_bitmap_blocks = 1;
  ninode_blocks_bitmap_blocks = 1;
  bmapstart = 2;
  inode_start = 3;
  inode_bitmap_start = 1;
  block_start = 35;
}

-- A user who is logged in as number 7, in the directory of slot 0.
abbrev pub user_session : Session
user_session = record {
  conn_id = 0;
  wb = empty_buffer;
  cwd = some 0;
  uid = pos 7;
  gid = 0;
  umask = 18;
}

-- Slot `i` holds inode `i`, a directory of user 1 that only he may read and write.
abbrev pub private_inode : ℕ → Inode
private_inode i = record zero_inode {
  inum = i;
  type = t_dir;
  mode = 448;
  uid = 1;
  nlink = 2;
  reference_count = 1;
}

abbrev pub fs_on : (D : Device) → D.State → Session → Fs D
fs_on D d t = record {
  dev = d;
  sb = small_sb;
  inodes = private_inode;
  fs_initialized = true;
  ncyl = 1;
  nsec = 2;
  now = 0;
  session = t;
}

-- A device that reads zeros and stores nothing.
abbrev pub null_device : Device
null_device = record {
  State = Unit {0};
  cache_read = λ b s. some (s, replicate 512 0);
  cache_write = λ b x s. some s;
}

abbrev pub null_fs : Fs null_device
null_fs = fs_on null_device tt user_session

abbrev pub disk_fs : Fs (cache_device backend)
disk_fs = fs_on (cache_device backend) fresh_cache user_session
