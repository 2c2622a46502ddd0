-- ===== src/Fs/FileReads.antt =====
-- `readi` of fs/src/inode.c as a whole, with the inode that it stores at its end.

use cs2310_prj.Base.{
  ℕ, zero, suc, ◌+◌, ◌-◌, ◌*◌, ◌/◌, ◌%◌, ◌<◌, ◌≤◌, ◌≡◌, refl, ap, ◌∙◌, false, some, List, [], arith,
  ltb, ◌==◌, Bool-cases, inl, inr, length, splice, min, pos, add32, sub32, u32_mod,
}
use cs2310_prj.Cache.Links.{update}
use cs2310_prj.Fs.{Device, Fs, Inode, uninit_block}
use cs2310_prj.Fs.Layout.{encode_inode, inode_size}
use cs2310_prj.Fs.Inodes.{iupdate, ipb}
use cs2310_prj.Fs.FileIo.{read_loop, readi, readable_length}
use cs2310_prj.Fs.Storage.{IsStorage, IsUsable, read_usable, write_usable}
use cs2310_prj.Fs.Mapping.{HasIndex}
use cs2310_prj.Fs.FileBytes.{file_bytes, Holds, Holds-Keeps, AreMapped, read_loop-file_bytes}
use cs2310_prj.Fs.FileBlocks.{with_block, Holds-write}

-- The bytes of a request that the file has.
abbrev pub in_file : ℕ → ℕ → ℕ → ℕ
in_file size o n = min n (size - o)

readable_length-in_file :
    (size o n : ℕ)
    → o ≤ size
    → size < u32_mod
    → o + n < u32_mod
    → readable_length size o n ≡ in_file size o n
readable_length-in_file size o n h k l =
    let sum : add32 o n ≡ o + n = omega arith in
    let diff : sub32 size o ≡ size - o = omega arith in
    elim (Bool-cases (ltb size (o + n))) [
      | inl over ↦ rw (sum, over, diff) (ground arith)
      | inr fits ↦ rw (sum, fits) (ground arith)
    ]

length-file_bytes : (v : ℕ → List ℕ) (ip : Inode) (o n : ℕ) → length (file_bytes v ip o n) ≡ n
length-file_bytes v ip o zero = refl
length-file_bytes v ip o (suc n) = ap suc (length-file_bytes v ip (o + 1) n)

module _ {D : Device} (S : IsStorage D) where
  -- The block of an inode, and what it holds once the inode is stored.
  abbrev pub inode_block : Fs D → Inode → ℕ
  inode_block s ip = add32 s.sb.inode_start (ip.inum / ipb)

  abbrev pub with_inode : (ℕ → List ℕ) → Fs D → Inode → List ℕ
  with_inode v s ip = splice (ip.inum % ipb * inode_size) (encode_inode ip) (v (inode_block s ip))

  pub iupdate-Holds :
      (slot : ℕ) (s : Fs D) (v : ℕ → List ℕ) (ip : Inode)
      → s.inodes slot ≡ ip
      → Holds S s.dev v
      → IsUsable S s (inode_block s ip)
      → S.Storable (with_inode v s ip)
      → (d : D.State) × (iupdate slot s ≡ some (tt, record s { dev = d }))
        × Holds S d (with_block v (inode_block s ip) (with_inode v s ip))
  unfolding iupdate
  iupdate-Holds slot s v ip e h usable ok =
      let b = inode_block s ip in
      let (d1, e1, k1) = read_usable S s b usable uninit_block h.0 in
      let h1 = Holds-Keeps S s.dev d1 v h k1 in
      let bytes : S.view s.dev b ≡ v b = h.1 b usable.0 in
      let (d2, e2, good, this, same) =
        write_usable S (record s { dev = d1 }) b usable (with_inode v s ip) h1.0 ok in
      (d2, rw (e, e1, bytes) e2, Holds-write S d1 d2 v b (with_inode v s ip) h1 good this same)

  -- The inode that a read leaves.
  abbrev pub accessed : Fs D → ℕ → Inode
  accessed s slot = record (s.inodes slot) { atime = s.now }

  pub update_here : (inodes : ℕ → Inode) (slot : ℕ) (ip : Inode) → update inodes slot ip slot ≡ ip
  update_here inodes slot ip = ground arith

  read_steps :
      (slot o n len : ℕ) (s : Fs D) (got : List ℕ) (d1 d2 : D.State)
      → (n == 0) ≡ false
      → ltb (s.inodes slot).size o ≡ false
      → readable_length (s.inodes slot).size o n ≡ len
      → read_loop len slot o len [] s ≡ some (got, record s { dev = d1 })
      → iupdate slot (record s { dev = d1; inodes = update s.inodes slot (accessed s slot) })
        ≡ some (tt, record s { dev = d2; inodes = update s.inodes slot (accessed s slot) })
      → readi slot o n s
        ≡ some (
          (pos (length got), got),
          record s { dev = d2; inodes = update s.inodes slot (accessed s slot) },
        )
  unfolding readi
  read_steps slot o n len s got d1 d2 e0 e1 e2 r u = rw (e0, e1, e2, r, u)

  -- On a device that keeps its blocks, for a file whose blocks over the range are there and whose
  -- inode can be stored: a read of one byte or more from an offset within the file, without
  -- overflow, returns the bytes of the file from there on, as many as were asked for or as the file
  -- has, and their number. It sets the time of the last access to now, in the inode cache and in
  -- the inode's block on the device; every other block holds what it held.
  pub readi-file_bytes :
      (slot o n : ℕ) (s : Fs D) (v : ℕ → List ℕ)
      → 0 < n
      → o ≤ (s.inodes slot).size
      → (s.inodes slot).size < u32_mod
      → o + n < u32_mod
      → Holds S s.dev v
      → HasIndex v (s.inodes slot) (IsUsable S s)
      → AreMapped S s v (s.inodes slot) o (in_file (s.inodes slot).size o n)
      → IsUsable S s (inode_block s (s.inodes slot))
      → S.Storable (with_inode v s (accessed s slot))
      → (d : D.State) × (readi slot o n s
          ≡ some (
            (
              pos (in_file (s.inodes slot).size o n),
              file_bytes v (s.inodes slot) o (in_file (s.inodes slot).size o n),
            ),
            record s { dev = d; inodes = update s.inodes slot (accessed s slot) },
          ))
        × Holds S d
            (with_block v (inode_block s (s.inodes slot)) (with_inode v s (accessed s slot)))
  readi-file_bytes slot o n s v more start small bound h x mapped usable ok =
      let ip = s.inodes slot in
      let len = in_file ip.size o n in
      let e0 : (n == 0) ≡ false = ground arith in
      let e1 : ltb ip.size o ≡ false = ground arith in
      let e2 = readable_length-in_file ip.size o n start small bound in
      let (d1, r, h1) =
        read_loop-file_bytes S len slot o len [] s v (omega arith) (omega arith) h x mapped in
      let t = record s { dev = d1; inodes = update s.inodes slot (accessed s slot) } in
      let here = update_here s.inodes slot (accessed s slot) in
      let (d2, u, h2) = iupdate-Holds slot t v (accessed s slot) here h1 usable ok in
      let bytes = file_bytes v ip o len in
      let count : pos (length bytes) ≡ pos len = ap pos (length-file_bytes v ip o len) in
      let u' = record t { dev = d2 } in
      (
        d2,
        read_steps slot o n len s bytes d1 d2 e0 e1 e2 r u ∙ ap (λ c. some ((c, bytes), u')) count,
        h2,
      )
