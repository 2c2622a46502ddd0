-- ===== src/Fs/FileUpdates.antt =====
-- `writei` of fs/src/inode.c as a whole, with the inode that it stores at its end, and `readi` behind
-- it.
pub mod RoundTrip
use mathlib.Core.Path.{subst}
use cs2310_prj.Base.{
  ℕ, zero, suc, ◌+◌, ◌-◌, ◌*◌, ◌/◌, ◌%◌, ◌<◌, ◌≤◌, ◌≡◌, ◌≢◌, refl, sym, ap, ◌∙◌, Bool, true, false,
  some, List, [], ◌∷◌, ◌++◌, arith, if◌then◌else◌, ltb, ◌==◌, Bool-cases, inl, inr, length, splice,
  get_or, ℤ, pos, add32, u32_mod,
}
use cs2310_prj.Cache.Links.{update}
use cs2310_prj.Fs.{Device, Fs, Inode}
use cs2310_prj.Fs.Layout.{encode_inode, inode_size}
use cs2310_prj.Fs.Inodes.{iupdate, ipb}
use cs2310_prj.Fs.Bmap.{addr}
use cs2310_prj.Fs.FileIo.{write_loop, finish_write, writei, readi, max_size}
use cs2310_prj.Fs.Storage.{IsStorage, IsUsable}
use cs2310_prj.Fs.Mapping.{HasIndex, file_block, through, non_zero}
use cs2310_prj.Fs.FileBytes.{file_byte, file_bytes, Holds, AreMapped}
use cs2310_prj.Fs.FileBlocks.{
  IsApart, AvoidsIndex, with_block, with_block_ne, blocks_kept, kept-HasIndex,
}
use cs2310_prj.Fs.FileReads.{
  inode_block, with_inode, iupdate-Holds, update_here, in_file, accessed, readi-file_bytes,
}
use cs2310_prj.Fs.FileWrites.{AreStorable, Wrote}
use cs2310_prj.Fs.FileWrites.Loop.{write_loop-file_bytes, bytes_of_file}

-- The inode that a write up to `end` leaves at the time `now`.
abbrev pub modified : Inode → ℕ → ℕ → Inode
modified ip end now = record ip {
  size = if ltb ip.size end then end else ip.size;
  mtime = now;
  ctime = now;
}

pub Wrote-AvoidsIndex :
    (v w : ℕ → List ℕ) (ip : Inode) (o : ℕ) (src : List ℕ) (b : ℕ)
    → IsApart v ip
    → Wrote v w ip o src
    → AvoidsIndex v ip b
    → AvoidsIndex w ip b
Wrote-AvoidsIndex v w ip o src b apart wrote avoids = record {
  first = avoids.first;
  second = avoids.second;
  outer = avoids.outer;
  inner = λ i e. avoids.inner i (sym (kept i) ∙ e);
}
  where
    kept : (i : ℕ) → through w (addr ip 12) i ≡ through v (addr ip 12) i
    kept i = elim (Bool-cases (addr ip 12 == 0)) [
      | inl none_there ↦ rw none_there
      | inr there ↦
          let ne = non_zero (addr ip 12) there in
          let same : w (addr ip 12) ≡ v (addr ip 12) =
            wrote.others (addr ip 12) (λ q e. apart.outer q (λ z. ne (sym e ∙ z)) (sym e)) in
          rw (there, same)
    ]

module _ {D : Device} (S : IsStorage D) where
  write_steps :
      (slot o : ℕ) (src : List ℕ) (s : Fs D) (d1 d2 : D.State)
      → (length src == 0) ≡ false
      → add32 o (length src) ≡ o + length src
      → ltb max_size (o + length src) ≡ false
      → write_loop (length src) slot o src 0 s ≡ some ((true, length src), record s { dev = d1 })
      → iupdate slot (record s {
        dev = d1;
        inodes = update s.inodes slot (modified (s.inodes slot) (o + length src) s.now);
      })
        ≡ some (
          tt,
          record s {
            dev = d2;
            inodes = update s.inodes slot (modified (s.inodes slot) (o + length src) s.now);
          },
        )
      → writei slot src o s
        ≡ some (
          pos (length src),
          record s {
            dev = d2;
            inodes = update s.inodes slot (modified (s.inodes slot) (o + length src) s.now);
          },
        )
  unfolding writei finish_write
  write_steps slot o src s d1 d2 e0 e1 e2 r u = rw (e0, e1, e2, r, u)

  pub writei-file_bytes :
      (slot o : ℕ) (src : List ℕ) (s : Fs D) (v : ℕ → List ℕ)
      → 0 < length src
      → o + length src ≤ max_size
      → Holds S s.dev v
      → HasIndex v (s.inodes slot) (IsUsable S s)
      → IsApart v (s.inodes slot)
      → AreMapped S s v (s.inodes slot) o (length src)
      → AreStorable S (length src) v (s.inodes slot) o src
      → IsUsable S s (inode_block S s (s.inodes slot))
      → ((q : ℕ) → file_block v (s.inodes slot) q ≢ inode_block S s (s.inodes slot))
      → S.Storable (with_inode S v s (modified (s.inodes slot) (o + length src) s.now))
      → (d : D.State) × (w : ℕ → List ℕ) × (writei slot src o s
          ≡ some (
            pos (length src),
            record s {
              dev = d;
              inodes = update s.inodes slot (modified (s.inodes slot) (o + length src) s.now);
            },
          ))
        × Holds S d (
            with_block w
              (inode_block S s (s.inodes slot))
              (with_inode S v s (modified (s.inodes slot) (o + length src) s.now)))
        × HasIndex w (s.inodes slot) (IsUsable S s)
        × Wrote v w (s.inodes slot) o src
  writei-file_bytes slot o src s v more bound h x apart mapped store usable free ok =
      let ip = s.inodes slot in
      let n = length src in
      let b = inode_block S s ip in
      let ip' = modified ip (o + n) s.now in
      let (d1, w, r, h1, x1, wrote) =
        write_loop-file_bytes S n slot o src 0 s v (omega arith) (omega arith) h x apart mapped
          store in
      let sum : 0 + n ≡ n = omega arith in
      let bytes : v b ≡ w b = sym (wrote.others b free) in
      let t = record s { dev = d1; inodes = update s.inodes slot ip' } in
      let ok' : S.Storable (with_inode S w s ip') =
        subst (λ y. S.Storable (splice (ip.inum % ipb * inode_size) (encode_inode ip') y)) bytes
          ok in
      let (d2, u, h2) =
        iupdate-Holds S slot t w ip' (update_here S s.inodes slot ip') h1 usable ok' in
      let h3 =
        subst
          (λ y.
            Holds S d2 (with_block w b (splice (ip.inum % ipb * inode_size) (encode_inode ip') y)))
          (sym bytes) h2 in
      (
        d2,
        w,
        write_steps slot o src s d1 d2 (ground arith) (omega arith) (ground arith)
            (r ∙ ap (λ c. some ((true, c), record s { dev = d1 })) sum) u,
        h3,
        x1,
        wrote,
      )
