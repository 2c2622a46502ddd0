-- ===== src/Fs/Removal.antt =====
-- What removing a file does to its blocks and its inode, fs/src/inode.c and fs/src/block.c.
use cs2310_prj.Base.{
  ℕ, ◌+◌, ◌-◌, ◌≡◌, ◌≢◌, ◌%◌, refl, Bool, true, false, some, List, ◌==◌, arith, if◌then◌else◌,
}
use cs2310_prj.Fs.{Device, Fs, pure, ◌>>◌}
use cs2310_prj.Fs.Inodes.{t_file, t_dir, iput}
use cs2310_prj.Fs.Dir.{dir_remove, e_success}
use cs2310_prj.Fs.Commands.{unlink_file}
use cs2310_prj.Fs.Directories.{unlink_dir}
use cs2310_prj.Cache.Links.{update}
use cs2310_prj.Fs.Remove.{iremove}

module _ {D : Device} where
  -- An inode that is linked or referenced is left alone by `iremove`, and so are all blocks.
  iremove-held :
      (i : ℕ) (s : Fs D)
      → (s.inodes i).nlink + (s.inodes i).reference_count ≢ 0
      → iremove i s ≡ some (tt, s)
  unfolding iremove
  iremove-held i s h = ground arith

  -- The state with `d` fewer links on the inode in slot `i`, in 16 bits.
  abbrev pub unlinked : ℕ → ℕ → Fs D → Fs D
  unlinked i d s = record s {
    inodes =
        update s.inodes i
          (record (s.inodes i) { nlink = ((s.inodes i).nlink + (65_536 - d)) % 65_536 });
  }

  unlink_step :
      (i : ℕ) (s : Fs D) (b : Bool)
      → (s.inodes i).reference_count ≢ 0
      → (if b then iremove i else pure tt) s ≡ some (tt, s)
  unlink_step i s true h = iremove-held i s (λ e. h (omega arith))
  unlink_step i s false h = refl

  -- Once the entry is out of the directory, `rm` only takes a link and a reference off an inode
  -- that is still referenced, as it is by the caller's own look-up: no block goes back to the
  -- bitmap, not even when the last link is gone.
  pub unlink_file-keeps_blocks :
      (name : List ℕ) (i : ℕ) (s s' : Fs D)
      → dir_remove s.session.cwd name t_file s ≡ some (e_success, s')
      → (s'.inodes i).reference_count ≢ 0
      → unlink_file name (some i) s ≡ (iput (some i) >> pure e_success) (unlinked i 1 s')
  unfolding unlink_file
  unlink_file-keeps_blocks name i s s' e h =
      let self : (i == i) ≡ true = ground arith in
      let held : ((unlinked i 1 s').inodes i).reference_count ≢ 0 = rw self h in
      rw (e, unlink_step i (unlinked i 1 s') (((s'.inodes i).nlink + 65_535) % 65_536 == 0) held)
        refl

  -- Once the entry is out of the directory, `rmdir` only takes two links and a reference off an
  -- inode that is still referenced: no block goes back to the bitmap, not even when the last link
  -- is gone.
  pub unlink_dir-keeps_blocks :
      (name : List ℕ) (i : ℕ) (s s' : Fs D)
      → dir_remove s.session.cwd name t_dir s ≡ some (e_success, s')
      → (s'.inodes i).reference_count ≢ 0
      → unlink_dir name i s ≡ (iput (some i) >> pure e_success) (unlinked i 2 s')
  unfolding unlink_dir
  unlink_dir-keeps_blocks name i s s' e h =
      let self : (i == i) ≡ true = ground arith in
      let held : ((unlinked i 2 s').inodes i).reference_count ≢ 0 = rw self h in
      rw (e, unlink_step i (unlinked i 2 s') (((s'.inodes i).nlink + 65_534) % 65_536 == 0) held)
        refl
