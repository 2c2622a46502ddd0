-- ===== src/Fs.antt =====
-- The file system server of fs/src: its global state, and the state monad of its functions.
-- `none` is a fault, a read or write through a `NULL` pointer.
pub mod Block
pub mod DiskInfo
pub mod Layout
pub mod Inodes
pub mod Bmap
pub mod FileIo
pub mod Remove
pub mod Dir
pub mod Commands
pub mod Edits
pub mod Directories
pub mod Paths
pub mod User
pub mod Messages
pub mod Listing
pub mod Handle
pub mod Accounts
pub mod Dispatch
pub mod Admission
pub mod Permissions
pub mod Encodings
pub mod PathSyntax
pub mod Removal
pub mod OnCache
pub mod Storage
pub mod Mapping
pub mod FileBytes
pub mod FileBlocks
pub mod FileWrites
pub mod FileReads
pub mod FileUpdates
pub mod Allocation
pub mod StoredInodes
pub mod References
pub mod Bitmap
pub mod Fuel
pub mod Login
pub mod Geometry
use cs2310_prj.Base.{
  ℕ, ◌+◌, ◌*◌, ◌/◌, Bool, Option, none, some, List, ◌≡◌, ◌≢◌, replicate, length, ℤ, pos, negsuc,
  u32_mod, ◌-◌, ◌^◌, ◌%◌,
}
use cs2310_prj.Cache.Links.{update}
use cs2310_prj.TcpBuffer.{TcpBuffer}

-- The block cache, as block.c calls it: fs/src/cache.c is one such device.
pub record Device : Type 1 where
  pub State : Type 0
  pub cache_read : ℕ → State → Option (State × List ℕ)
  pub cache_write : ℕ → List ℕ → State → Option State

-- fs/include/superblock.h
pub record Superblock : Type 0 where
  pub magic : ℕ
  pub size : ℕ
  pub ndata_blocks : ℕ
  pub ninode_blocks : ℕ
  pub ndata_blocks_bitmap_blocks : ℕ
  pub ninode_blocks_bitmap_blocks : ℕ
  pub bmapstart : ℕ
  pub inode_start : ℕ
  pub inode_bitmap_start : ℕ
  pub block_start : ℕ

-- The inode in memory, fs/include/inode.h.
pub record Inode : Type 0 where
  pub inum : ℕ
  pub type : ℕ
  pub nlink : ℕ
  pub size : ℕ
  pub blocks : ℕ
  pub uid : ℕ
  pub gid : ℕ
  pub mode : ℕ
  pub atime : ℕ
  pub mtime : ℕ
  pub ctime : ℕ
  pub flags : ℕ
  pub addrs : List ℕ
  pub reference_count : ℕ
  pub reserved : List ℕ

-- fs/include/session.h, with the client's buffer. `cwd` is an index into the inode cache.
pub record Session : Type 0 where
  pub conn_id : ℕ
  pub wb : TcpBuffer
  pub cwd : Option ℕ
  pub uid : ℤ
  pub gid : ℕ
  pub umask : ℕ

-- The globals, and the session whose request is served. `now` is what `time(NULL)` returns.
pub record Fs (D : Device) : Type 0 where
  pub dev : D.State
  pub sb : Superblock
  pub inodes : ℕ → Inode
  pub fs_initialized : Bool
  pub ncyl : ℕ
  pub nsec : ℕ
  pub now : ℕ
  pub session : Session

abbrev pub bsize : ℕ
bsize = 512

-- An array on the stack before its first write, taken as zeros.
abbrev pub uninit_block : List ℕ
uninit_block = replicate bsize 0

-- An `int` as an unsigned word.
abbrev pub to_u32 : ℤ → ℕ
to_u32 (pos n) = n
to_u32 (negsuc n) = u32_mod - 1 - n

abbrev pub M : Type 0 → Type 0 → Type 0
M S A = S → Option (A × S)

infixl 5 ◌>>=◌ ◌>>◌
module _ {S : Type 0} where
  abbrev pub and_then : {A B : Type 0} → Option (A × S) → (A → M S B) → Option (B × S)
  and_then none k = none
  and_then (some (a, s)) k = k a s

  abbrev pub pure : {A : Type 0} → A → M S A
  pure a s = some (a, s)

  abbrev pub fault : {A : Type 0} → M S A
  fault s = none

  abbrev pub gets : {A : Type 0} → (S → A) → M S A
  gets f s = some (f s, s)

  abbrev pub modify : (S → S) → M S (Unit {0})
  modify f s = some (tt, f s)

abbrev pub ◌>>=◌ : {S A B : Type 0} → M S A → (A → M S B) → M S B
m >>= k = λ s. and_then (m s) k

abbrev pub ◌>>◌ : {S A B : Type 0} → M S A → M S B → M S B
m >> k = m >>= λ _. k

module _ {D : Device} where
  -- `ip->…` for a pointer into the inode cache.
  abbrev pub get_inode : ℕ → M (Fs D) Inode
  get_inode i = gets λ s. s.inodes i

  abbrev pub put_inode : ℕ → Inode → M (Fs D) (Unit {0})
  put_inode i ip = modify λ s. record s { inodes = update s.inodes i ip }

  abbrev pub set_session : Session → M (Fs D) (Unit {0})
  set_session t = modify λ s. record s { session = t }
