-- ===== src/Fs/Fuel.antt =====
-- The loops of `readi` and `writei` in fs/src/inode.c, and their fuel.
use cs2310_prj.Base.{
  ℕ, zero, suc, ◌+◌, ◌-◌, ◌/◌, ◌%◌, ◌≤◌, ◌≡◌, refl, true, false, List, ◌++◌, ◌==◌, if◌then◌else◌,
  arith, Bool-cases, inl, inr, length, take, drop, slice, splice, length-drop, add32,
}
use cs2310_prj.Fs.{Device, ◌>>=◌, ◌>>◌, pure, bsize, uninit_block}
use cs2310_prj.Fs.Block.{read_block, write_block}
use cs2310_prj.Fs.Bmap.{bmap}
use cs2310_prj.Fs.FileIo.{chunk, read_loop, write_loop}

-- A round handles at least one byte.
chunk_shrinks :
    (at_byte left f : ℕ) → (left == 0) ≡ false → left ≤ suc f → left - chunk at_byte left ≤ f
chunk_shrinks at_byte left f n h = ground arith

module _ {D : Device} (slot : ℕ) where
  -- Two runs of the loop of `readi` on fuel for every byte that is left are the same: the loop ends
  -- because all is read or a block is missing, never because the fuel is used up.
  pub read_loop-fuel :
      (f g at_byte left : ℕ) (got : List ℕ)
      → left ≤ f
      → left ≤ g
      → read_loop {D = D} f slot at_byte left got ≡ read_loop g slot at_byte left got
  unfolding read_loop
  read_loop-fuel zero zero at_byte left got h k = refl
  read_loop-fuel zero (suc g) at_byte left got h k =
      let e : (left == 0) ≡ true = ground arith in rw e refl
  read_loop-fuel (suc f) zero at_byte left got h k =
      let e : (left == 0) ≡ true = ground arith in rw e refl
  read_loop-fuel (suc f) (suc g) at_byte left got h k = elim (Bool-cases (left == 0)) [
    | inl e ↦ rw e refl
    | inr e ↦ rw e (λ j. bmap slot (at_byte / bsize) false >>= λ blk.
        if blk == 0
        then pure got
        else (read_block blk uninit_block >>= λ buf.
            read_loop-fuel f g (add32 at_byte (chunk at_byte left)) (left - chunk at_byte left)
              (got ++ slice (at_byte % bsize) (chunk at_byte left) buf)
              (chunk_shrinks at_byte left f e h) (chunk_shrinks at_byte left g e k) j))
  ]

  -- Two runs of the loop of `writei` on fuel for every byte that is left are the same: the loop
  -- ends because all is written or no block can be had, never because the fuel is used up.
  pub write_loop-fuel :
      (f g at_byte : ℕ) (src : List ℕ) (tot : ℕ)
      → length src ≤ f
      → length src ≤ g
      → write_loop {D = D} f slot at_byte src tot ≡ write_loop g slot at_byte src tot
  unfolding write_loop
  write_loop-fuel zero zero at_byte src tot h k = refl
  write_loop-fuel zero (suc g) at_byte src tot h k =
      let e : (length src == 0) ≡ true = ground arith in rw e refl
  write_loop-fuel (suc f) zero at_byte src tot h k =
      let e : (length src == 0) ≡ true = ground arith in rw e refl
  write_loop-fuel (suc f) (suc g) at_byte src tot h k = elim (Bool-cases (length src == 0)) [
    | inl e ↦ rw e refl
    | inr e ↦
        let n = chunk at_byte (length src) in
        let d = length-drop n src in
        let p = chunk_shrinks at_byte (length src) f e h in
        let q = chunk_shrinks at_byte (length src) g e k in
        rw e (λ j. bmap slot (at_byte / bsize) true >>= λ blk.
        if blk == 0
        then pure (false, tot)
        else (read_block blk uninit_block >>= λ buf.
            write_block blk (splice (at_byte % bsize) (take n src) buf)
            >> write_loop-fuel f g (add32 at_byte n) (drop n src) (tot + n) (omega (arith, d, p))
                (omega (arith, d, q)) j))
  ]
