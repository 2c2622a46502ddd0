-- ===== src/Fs/Permissions.antt =====
-- The permission check of fs/src/user.c, and what the handlers of fs/src/handle.c do when it fails.
use cs2310_prj.Base.{
  inr, inl, ℕ, false, ◌&&◌, ◌||◌, Option, some, List, ◌≡◌, refl, ◌==◌, Bool-cases,
}
use cs2310_prj.Fs.{Device, Inode, Session, Fs, M, ◌>>◌, to_u32}
use cs2310_prj.Fs.Inodes.{iput}
use cs2310_prj.Fs.User.{user_check_perm, has_bit, perm_read, perm_write}
use cs2310_prj.Fs.Handle.{refuse, edit_found, cat_found, rm_found, rmdir_found, cd_found}
use cs2310_prj.Fs.Messages

-- A user may read an inode if he owns it or if its mode has the bit 4, may write it if he owns it
-- or if its mode has the bit 2, and may do both if he owns it or if its mode has both bits.
pub user_check_perm_lem :
    (s : Session) (ip : Inode)
    → (user_check_perm s ip perm_read ≡ (ip.uid == to_u32 s.uid || has_bit ip.mode 4))
      × (user_check_perm s ip perm_write ≡ (ip.uid == to_u32 s.uid || has_bit ip.mode 2))
      × (user_check_perm s ip 3
          ≡ (ip.uid == to_u32 s.uid || (has_bit ip.mode 4 && has_bit ip.mode 2)))
unfolding user_check_perm
user_check_perm_lem s ip = elim (Bool-cases (ip.uid == to_u32 s.uid)) [
  | inl e ↦ rw e (refl, refl, refl)
  | inr e ↦ elim (Bool-cases (has_bit ip.mode 4)) [
    | inl r ↦ elim (Bool-cases (has_bit ip.mode 2)) [
      | inl w ↦ rw (e, r, w) (refl, refl, refl)
      | inr w ↦ rw (e, r, w) (refl, refl, refl)
    ]
    | inr r ↦ elim (Bool-cases (has_bit ip.mode 2)) [
      | inl w ↦ rw (e, r, w) (refl, refl, refl)
      | inr w ↦ rw (e, r, w) (refl, refl, refl)
    ]
  ]
]

module _ {D : Device} where
  -- Where the user may not write the file that was found, `w`, `i` and `d` only release the inode
  -- and refuse: whatever the command would have done is not done.
  pub edit_found-denied :
      (failure : List ℕ) (command : M (Fs D) ℕ) (i : ℕ) (s : Fs D)
      → user_check_perm s.session (s.inodes i) perm_write ≡ false
      → edit_found failure command (some i) s
        ≡ (iput (some i) >> refuse Messages.permission_denied) s
  unfolding edit_found
  edit_found-denied failure command i s h = rw h refl

  -- Where the user may not read the file or the directory that was found, `cat` and `cd` only
  -- release the inode and refuse.
  pub read_found-denied :
      (args : Option (List ℕ)) (i : ℕ) (s : Fs D)
      → user_check_perm s.session (s.inodes i) perm_read ≡ false
      → (cat_found args (some i) s ≡ (iput (some i) >> refuse Messages.permission_denied) s)
        × (cd_found args (some i) s ≡ (iput (some i) >> refuse Messages.permission_denied) s)
  unfolding cat_found cd_found
  read_found-denied args i s h = rw h (refl, refl)

  -- `rm` and `rmdir` only release the inode and refuse where the user may not write the current
  -- directory, or may not write what the name stands for.
  pub unlink_found-denied :
      (args : Option (List ℕ)) (i cwd : ℕ) (s : Fs D)
      → s.session.cwd ≡ some cwd
      → (user_check_perm s.session (s.inodes cwd) perm_write
          && user_check_perm s.session (s.inodes i) perm_write)
        ≡ false
      → (rm_found args (some i) s ≡ (iput (some i) >> refuse Messages.permission_denied) s)
        × (rmdir_found args (some i) s ≡ (iput (some i) >> refuse Messages.permission_denied) s)
  unfolding rm_found rmdir_found user_check_perm iput
  unlink_found-denied args i cwd s e h =
      elim (Bool-cases (user_check_perm s.session (s.inodes cwd) perm_write)) [
        | inl w ↦
            let d : user_check_perm s.session (s.inodes i) perm_write ≡ false = cc in
            rw (e, w, d) (refl, refl)
        | inr w ↦ rw (e, w) (refl, refl)
      ]
