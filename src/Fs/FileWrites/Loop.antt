-- ===== src/Fs/FileWrites/Loop.antt =====
-- The loop of `writei`, fs/src/inode.c, over blocks that the file has, and a read behind it.
use mathlib.Core.Path.{subst}
use cs2310_prj.Base.{
  ℕ, zero, suc, ◌+◌, ◌/◌, ◌%◌, ◌<◌, ◌≤◌, ◌≡◌, ◌≢◌, ◌⊎◌, refl, sym, ap, ◌∙◌, true, false, some, List,
  [], ◌∷◌, arith, ◌==◌, length, take, drop, splice, get_or, add32, u32_mod, length-drop,
}
use cs2310_prj.Fs.{Device, Fs, Inode, uninit_block}
use cs2310_prj.Fs.Block.{read_block, write_block}
use cs2310_prj.Fs.Bmap.{bmap}
use cs2310_prj.Fs.FileIo.{read_loop, chunk, write_loop}
use cs2310_prj.Fs.Storage.{IsStorage, IsUsable, read_usable, write_usable}
use cs2310_prj.Fs.Mapping.{HasIndex, file_block, bmap-file_block}
use cs2310_prj.Fs.FileBytes.{
  file_bytes, read_loop-file_bytes, file_byte, Holds, Holds-Keeps, HasIndex-agree, file_block-agree,
  AreMapped,
}
use cs2310_prj.Fs.FileBlocks.{
  Holds-write, IsApart, same_blocks, changed-HasIndex, changed-IsApart, changed_elsewhere,
}
use cs2310_prj.Fs.FileWrites.{
  patched, AreStorable, Wrote, AreStorable-agree, nothing_written, one_round, round_sizes,
  Wrote-round,
}

module _ {D : Device} (S : IsStorage D) where
  write_round :
      (fuel slot o tot : ℕ) (src : List ℕ) (s : Fs D) (blk : ℕ) (buf : List ℕ) (d1 d2 d3 : D.State)
      → (length src == 0) ≡ false
      → bmap slot (o / 512) true s ≡ some (blk, record s { dev = d1 })
      → (blk == 0) ≡ false
      → read_block blk uninit_block (record s { dev = d1 }) ≡ some (buf, record s { dev = d2 })
      → write_block blk
          (splice (o % 512) (take (chunk o (length src)) src) buf)
          (record s { dev = d2 })
        ≡ some (tt, record s { dev = d3 })
      → add32 o (chunk o (length src)) ≡ o + chunk o (length src)
      → write_loop (suc fuel) slot o src tot s
        ≡ write_loop fuel slot
            (o + chunk o (length src))
            (drop (chunk o (length src)) src)
            (tot + chunk o (length src))
            (record s { dev = d3 })
  unfolding write_loop
  write_round fuel slot o tot src s blk buf d1 d2 d3 more e1 nz e2 e3 next =
      rw (more, e1, nz, e2, e3, next)

  -- The condition on the blocks, for the rounds behind the first.
  mapped_rest :
      (s : Fs D) (v : ℕ → List ℕ) (ip : Inode) (o : ℕ) (src : List ℕ) (apart : IsApart v ip)
      (there : file_block v ip (o / 512) ≢ 0) (sized : length (v (file_block v ip (o / 512))) ≡ 512)
      → AreMapped S s v ip o (length src)
      → AreMapped S s
          (one_round v ip o src apart there sized)
          ip
          (o + chunk o (length src))
          (length (drop (chunk o (length src)) src))
  mapped_rest s v ip o src apart there sized mapped q a b =
      let rest = length-drop (chunk o (length src)) src in
      let same = same_blocks v ip (o / 512) (patched v ip o src) apart there q in
      let (nz, usable, size) = mapped q (omega arith) (omega (arith, rest)) in
      (
        λ z. nz (sym same ∙ z),
        subst (IsUsable S s) (sym same) usable,
        round_sizes v ip o src apart there sized q ∙ size,
      )

  -- The loop of `writei` over blocks that the file has writes all its bytes, and the file then
  -- holds them; every other byte of the file is what it was.
  pub write_loop-file_bytes :
      (fuel slot o : ℕ) (src : List ℕ) (tot : ℕ) (s : Fs D) (v : ℕ → List ℕ)
      → length src ≤ fuel
      → o + length src < u32_mod
      → Holds S s.dev v
      → HasIndex v (s.inodes slot) (IsUsable S s)
      → IsApart v (s.inodes slot)
      → AreMapped S s v (s.inodes slot) o (length src)
      → AreStorable S fuel v (s.inodes slot) o src
      → (d : D.State) × (w : ℕ → List ℕ) × (write_loop fuel slot o src tot s
          ≡ some ((true, tot + length src), record s { dev = d }))
        × Holds S d w
        × HasIndex w (s.inodes slot) (IsUsable S s)
        × Wrote v w (s.inodes slot) o src
  unfolding write_loop
  write_loop-file_bytes zero slot o [] tot s v f small h x apart mapped store =
      let e : tot + 0 ≡ tot = omega arith in
      (s.dev, v, rw e refl, h, x, nothing_written v (s.inodes slot) o)
  write_loop-file_bytes zero slot o (c ∷ src) tot s v f small h x apart mapped store =
      absurd (omega arith)
  write_loop-file_bytes (suc fuel) slot o [] tot s v f small h x apart mapped store =
      let e : tot + 0 ≡ tot = omega arith in
      (s.dev, v, rw e refl, h, x, nothing_written v (s.inodes slot) o)
  write_loop-file_bytes (suc fuel) slot o (c ∷ cs) tot s v f small h x apart mapped store =
      let src = c ∷ cs in
      let ip = s.inodes slot in
      let blk = file_block v ip (o / 512) in
      let k = chunk o (length src) in
      let (there, usable, sized) = mapped (o / 512) (omega arith) (omega arith) in
      let found : file_block (S.view s.dev) ip (o / 512) ≡ blk =
        file_block-agree S s v ip (o / 512) h x in
      let (d1, e1, k1) =
        bmap-file_block S s slot (o / 512) true h.0 (HasIndex-agree S s v ip h x)
          (λ a z. there (sym found ∙ z)) in
      let h1 = Holds-Keeps S s.dev d1 v h k1 in
      let t1 = record s { dev = d1 } in
      let (d2, e2, k2) = read_usable S t1 blk usable uninit_block h1.0 in
      let h2 = Holds-Keeps S d1 d2 v h1 k2 in
      let t2 = record s { dev = d2 } in
      let bytes : S.view d1 blk ≡ v blk = h1.1 blk usable.0 in
      let (d3, e3, good, this, same) =
        write_usable S t2 blk usable (patched v ip o src) h2.0 store.0 in
      let v1 = one_round v ip o src apart there sized in
      let h3 = Holds-write S d2 d3 v blk (patched v ip o src) h2 good this same in
      let nz : (blk == 0) ≡ false = ground arith in
      let next : add32 o k ≡ o + k = omega arith in
      let more : (length src == 0) ≡ false = ground arith in
      let round =
        write_round fuel slot o tot src s blk (v blk) d1 d2 d3 more
          (e1 ∙ ap (λ b. some (b, t1)) found) nz (e2 ∙ ap (λ y. some (y, t2)) bytes) e3 next in
      let rest = length-drop k src in
      let q = o / 512 in
      let px = patched v ip o src in
      let apart1 = changed-IsApart v ip q px apart there in
      let index1 = changed-HasIndex v ip q px apart there (IsUsable S s) x in
      let store1 =
        AreStorable-agree S fuel v v1 ip (o + k) (drop k src)
          (λ l n a. changed_elsewhere v ip q px apart there n (ground (arith, rest))) store.1 in
      let (d4, w, e4, h4, index4, wrote) =
        write_loop-file_bytes fuel slot (o + k) (drop k src) (tot + k) (record s { dev = d3 }) v1
          (omega (arith, rest)) (omega (arith, rest)) h3 index1 apart1
          (mapped_rest s v ip o src apart there sized mapped) store1 in
      let sum : tot + k + length (drop k src) ≡ tot + length src = omega (arith, rest) in
      (
        d4,
        w,
        round ∙ e4 ∙ ap (λ t. some ((true, t), record s { dev = d4 })) sum,
        h4,
        index4,
        Wrote-round v ip o src apart there sized w wrote,
      )

  pub bytes_of_file :
      (w : ℕ → List ℕ) (ip : Inode) (o : ℕ) (src : List ℕ)
      → ((p : ℕ) → p < length src → file_byte w ip (o + p) ≡ get_or src p 0)
      → file_bytes w ip o (length src) ≡ src
  bytes_of_file w ip o [] h = refl
  bytes_of_file w ip o (c ∷ src) h =
      let z : o + 0 ≡ o = omega arith in
      let first : file_byte w ip o ≡ c = ap (file_byte w ip) (sym z) ∙ h 0 (omega arith) in
      let rest : file_bytes w ip (o + 1) (length src) ≡ src = bytes_of_file w ip (o + 1) src (λ p l.
        let e : o + 1 + p ≡ o + suc p = omega arith in
        ap (file_byte w ip) e ∙ h (suc p) (omega arith)) in
      ap (λ x. x ∷ file_bytes w ip (o + 1) (length src)) first ∙ ap (λ t. c ∷ t) rest

  still_mapped :
      (s : Fs D) (v w : ℕ → List ℕ) (ip : Inode) (o n q : ℕ)
      → ((m : ℕ) → file_block w ip m ≡ file_block v ip m)
      → ((m : ℕ) → length (w (file_block w ip m)) ≡ length (v (file_block v ip m)))
      → (file_block v ip q ≢ 0)
        × IsUsable S s (file_block v ip q)
        × (length (v (file_block v ip q)) ≡ 512)
      → (file_block w ip q ≢ 0)
        × IsUsable S s (file_block w ip q)
        × (length (w (file_block w ip q)) ≡ 512)
  still_mapped s v w ip o n q blocks sizes (there, usable, size) = (
    λ z. there (sym (blocks q) ∙ z),
    subst (IsUsable S s) (sym (blocks q)) usable,
    sizes q ∙ size,
  )

  -- On a device that keeps its blocks, for a file whose blocks over the range are there, lie within
  -- the file system, hold 512 bytes each and are apart from each other and from the file's index
  -- blocks, and for bytes that leave blocks that the device stores: the loop of `writei` writes all
  -- the bytes, and the loop of `readi` over the same range then delivers exactly these bytes. Every
  -- other byte of the file is what it was, and the file has the same blocks.
  pub read_loop-write_loop :
      (slot o : ℕ) (src : List ℕ) (s : Fs D) (v : ℕ → List ℕ)
      → o + length src < u32_mod
      → Holds S s.dev v
      → HasIndex v (s.inodes slot) (IsUsable S s)
      → IsApart v (s.inodes slot)
      → AreMapped S s v (s.inodes slot) o (length src)
      → AreStorable S (length src) v (s.inodes slot) o src
      → (d : D.State) × (d' : D.State) × (w : ℕ → List ℕ) × (write_loop (length src) slot o src 0 s
          ≡ some ((true, length src), record s { dev = d }))
        × (read_loop (length src) slot o (length src) [] (record s { dev = d })
            ≡ some (src, record s { dev = d' }))
        × Holds S d' w
        × ((p : ℕ)
            → (p < o) ⊎ (o + length src ≤ p)
            → file_byte w (s.inodes slot) p ≡ file_byte v (s.inodes slot) p)
        × ((q : ℕ) → file_block w (s.inodes slot) q ≡ file_block v (s.inodes slot) q)
  read_loop-write_loop slot o src s v small h x apart mapped store =
      let ip = s.inodes slot in
      let n = length src in
      let (d, w, e, h1, x1, wrote) =
        write_loop-file_bytes n slot o src 0 s v (omega arith) small h x apart mapped store in
      let sum : 0 + n ≡ n = omega arith in
      let mapped1 : AreMapped S (record s { dev = d }) w ip o n =
        λ q a b. still_mapped s v w ip o n q wrote.blocks wrote.sizes (mapped q a b) in
      let (d', r, h2) =
        read_loop-file_bytes S n slot o n [] (record s { dev = d }) w (omega arith) small h1 x1
          mapped1 in
      (
        d,
        d',
        w,
        e ∙ ap (λ t. some ((true, t), record s { dev = d })) sum,
        r ∙ ap (λ t. some (t, record s { dev = d' })) (bytes_of_file w ip o src wrote.within),
        h2,
        wrote.outside,
        wrote.blocks,
      )
