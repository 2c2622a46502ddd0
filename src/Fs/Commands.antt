-- ===== src/Fs/Commands.antt =====
-- fs/src/fs.c: formatting, mounting and the commands on files. `s->cwd` may be `NULL`; what reads
-- through it then is a fault. `malloc` succeeds.
use cs2310_prj.Base.{
  ℕ, zero, suc, ◌+◌, ◌*◌, ◌%◌, true, not, Option, none, some, List, [], ◌∷◌, if◌then◌else◌, ◌==◌,
  slice, splice, replicate, is_neg, sub32, add32, u32_mod,
}
use cs2310_prj.Fs.{
  Device, Superblock, Inode, Fs, M, ◌>>=◌, ◌>>◌, pure, fault, gets, modify, bsize, uninit_block,
  to_u32, get_inode, put_inode, set_session,
}
use cs2310_prj.Fs.Block.{read_block, write_block}
use cs2310_prj.Fs.Layout.{le_words, from_le_words}
use cs2310_prj.Fs.Inodes.{t_dir, t_file, init_inode_cache, iget, iput, ialloc, iupdate}
use cs2310_prj.Fs.FileIo.{readi}
use cs2310_prj.Fs.Remove.{iremove}
use cs2310_prj.Fs.Dir.{dir_add, dir_lookup, dir_remove, e_success, e_error, dot, dot_dot}

abbrev pub magic_num : ℕ
magic_num = 0x2004_1216

-- `sbinit`, on the number of blocks as an unsigned word.
unfoldable pub sbinit : ℕ → Superblock
sbinit nblocks = record {
  magic = magic_num;
  size = nblocks;
  ndata_blocks = sub32 nblocks 35;
  ninode_blocks = 32;
  ndata_blocks_bitmap_blocks = 1;
  ninode_blocks_bitmap_blocks = 1;
  bmapstart = 2;
  inode_start = 3;
  inode_bitmap_start = 1;
  block_start = 35;
}

-- The ten words of the superblock.
unfoldable pub encode_superblock : Superblock → List ℕ
encode_superblock sb = le_words (
    sb.magic ∷ sb.size ∷ sb.ndata_blocks ∷ sb.ninode_blocks ∷ sb.ndata_blocks_bitmap_blocks
    ∷ sb.ninode_blocks_bitmap_blocks ∷ sb.bmapstart ∷ sb.inode_start ∷ sb.inode_bitmap_start
    ∷ sb.block_start ∷ [])

unfoldable pub decode_superblock : List ℕ → Superblock → Superblock
decode_superblock d old = from_words (from_le_words 10 (slice 0 40 d))
  where
    from_words : List ℕ → Superblock
    from_words (a ∷ b ∷ c ∷ e ∷ f ∷ g ∷ h ∷ i ∷ j ∷ k ∷ []) = record {
      magic = a;
      size = b;
      ndata_blocks = c;
      ninode_blocks = e;
      ndata_blocks_bitmap_blocks = f;
      ninode_blocks_bitmap_blocks = g;
      bmapstart = h;
      inode_start = i;
      inode_bitmap_start = j;
      block_start = k;
    }
    from_words _ = old

-- "home"
abbrev pub home_name : List ℕ
home_name = b'h' ∷ b'o' ∷ b'm' ∷ b'e' ∷ []

-- The fields that a command gives to a new inode.
abbrev pub owned_by : Inode → ℕ → ℕ → ℕ → ℕ → Inode
owned_by ip mode uid nlink now = record ip {
  mode = mode;
  uid = uid;
  gid = 0;
  nlink = nlink;
  atime = now;
  mtime = now;
  ctime = now;
}

module _ {D : Device} where
  -- `p->…` for a pointer that the code does not test.
  abbrev pub deref : Option ℕ → M (Fs D) ℕ
  deref none = fault
  deref (some i) = pure i

  abbrev pub set_owner : ℕ → ℕ → ℕ → ℕ → M (Fs D) (Unit {0})
  set_owner i mode uid nlink = do
    ip ← get_inode i
    now ← gets (λ s. s.now)
    put_inode i (owned_by ip mode uid nlink now)

  -- for (i = 0; i < n; i++) write_block(start + i, zero)
  unfoldable pub zero_blocks : ℕ → ℕ → M (Fs D) (Unit {0})
  zero_blocks zero start = pure tt
  zero_blocks (suc n) start = do
    write_block start (replicate bsize 0)
    zero_blocks n (add32 start 1)

  abbrev pub set_cwd : Option ℕ → M (Fs D) (Unit {0})
  set_cwd p = do s ← gets (λ s. s.session); set_session (record s { cwd = p })

  -- The directory /home, made by `cmd_f` and, where it is missing, by `user_add`.
  unfoldable pub make_home : M (Fs D) ℕ
  make_home = do root ← iget 0; tmp ← ialloc t_dir; fill root tmp
    where
      fill : Option ℕ → Option ℕ → M (Fs D) ℕ
      fill root none = do iput root; pure e_error
      fill root (some tmp) = do
        set_owner tmp 493 1 2
        iupdate tmp
        r ← deref root
        ip ← get_inode tmp
        added ← dir_add r home_name t_dir ip.inum
        added ← dir_add tmp dot t_dir ip.inum
        top ← get_inode r
        added ← dir_add tmp dot_dot t_dir top.inum
        iput (some tmp)
        iput (some r)
        pure e_success

  unfoldable pub format_root : Option ℕ → M (Fs D) ℕ
  format_root none = pure e_error
  format_root (some root) = do
    set_owner root 493 1 1
    iupdate root
    ip ← get_inode root
    added ← dir_add root dot t_dir ip.inum
    iupdate root
    home ← make_home
    if home == e_success
        then (do
          set_cwd (some root)
          modify (λ s. record s { fs_initialized = true })
          pure e_success)
        else pure e_error

  unfoldable pub cmd_f : ℕ → ℕ → M (Fs D) ℕ
  cmd_f ncyl nsec = do
    modify (λ s. record s { sb = sbinit (ncyl * nsec % u32_mod) })
    sb ← gets (λ s. s.sb)
    write_block 0 (splice 0 (encode_superblock sb) uninit_block)
    zero_blocks sb.ninode_blocks_bitmap_blocks sb.inode_bitmap_start
    zero_blocks sb.ndata_blocks_bitmap_blocks sb.bmapstart
    zero_blocks sb.ninode_blocks sb.inode_start
    init_inode_cache
    root ← ialloc t_dir
    format_root root

  unfoldable pub fs_mount : M (Fs D) (Unit {0})
  fs_mount = do
    buf ← read_block 0 uninit_block
    modify (λ s. record s { sb = decode_superblock buf s.sb })
    sb ← gets (λ s. s.sb)
    if not (sb.magic == magic_num) then pure tt else (do
      init_inode_cache
      root ← iget 0
      set_cwd root
      modify (λ s. record s { fs_initialized = true }))

  unfoldable pub make_file : List ℕ → ℕ → Option ℕ → M (Fs D) ℕ
  make_file name mode none = pure e_error
  make_file name mode (some i) = do
    s ← gets (λ s. s.session)
    set_owner i mode (to_u32 s.uid) 1
    iupdate i
    cwd ← deref s.cwd
    ip ← get_inode i
    r ← dir_add cwd name t_file ip.inum
    iput (some i)
    pure (if r == e_success then e_success else e_error)

  -- A file that exists is an error; the reference that the look-up took is kept.
  unfoldable pub cmd_mk : List ℕ → ℕ → M (Fs D) ℕ
  cmd_mk name mode = do s ← gets (λ s. s.session); old ← dir_lookup s.cwd name t_file; make old
    where
      make : Option ℕ → M (Fs D) ℕ
      make (some i) = pure e_error
      make none = do ip ← ialloc t_file; make_file name mode ip

  -- `ip->nlink--` of an unsigned short.
  unfoldable pub unlink_file : List ℕ → Option ℕ → M (Fs D) ℕ
  unlink_file name none = pure e_error
  unlink_file name (some i) = do
    s ← gets (λ s. s.session)
    r ← dir_remove s.cwd name t_file
    if r == e_success
        then (do
          ip ← get_inode i
          put_inode i (record ip { nlink = (ip.nlink + 65_535) % 65_536 })
          if (ip.nlink + 65_535) % 65_536 == 0 then iremove i else pure tt
          iput (some i)
          pure e_success)
        else (do iput (some i); pure e_error)

  unfoldable pub cmd_rm : List ℕ → M (Fs D) ℕ
  cmd_rm name = do s ← gets (λ s. s.session); ip ← dir_lookup s.cwd name t_file; unlink_file name ip

  -- The result code and what `*buf` and `*len` get.
  unfoldable pub cat_file : Option ℕ → M (Fs D) (Option (List ℕ))
  cat_file none = pure none
  cat_file (some i) = do
    ip ← get_inode i
    (r, got) ← readi i 0 ip.size
    iput (some i)
    pure (if is_neg r then none else some got)

  unfoldable pub cmd_cat : List ℕ → M (Fs D) (Option (List ℕ))
  cmd_cat name = do s ← gets (λ s. s.session); ip ← dir_lookup s.cwd name t_file; cat_file ip
