-- ===== src/Fs/Block.antt =====
-- fs/src/block.c: guarded block transfers, and the bitmap of the data blocks.
use Prim.Native.Nat.{bit_and, bit_or}
use cs2310_prj.Base.{
  ℕ, zero, suc, ◌+◌, ◌*◌, ◌/◌, ◌%◌, ◌^◌, Bool, not, ◌&&◌, ◌||◌, Option, none, some, List, [], ◌∷◌,
  if◌then◌else◌, leb, ◌==◌, get_or, set, replicate, to_int, is_neg, ltb_ℤ, add32,
}
use cs2310_prj.Fs.{Device, Fs, M, ◌>>=◌, ◌>>◌, pure, gets, bsize, uninit_block}

-- The guards of `read_block` and `write_block`, on the block number as an `int`. Block 0 may be
-- read before the superblock is known.
unfoldable pub readable : ℕ → ℕ → Bool
readable size b = not (is_neg (to_int b)) && (b == 0 || ltb_ℤ (to_int b) (to_int size))

unfoldable pub writable : ℕ → ℕ → Bool
writable size b = not (is_neg (to_int b)) && ltb_ℤ (to_int b) (to_int size)

-- The bits of a bitmap block.
abbrev pub bit_is_clear : ℕ → ℕ → Bool
bit_is_clear v bit = bit_and v (2 ^ bit) == 0

abbrev pub set_bit : List ℕ → ℕ → List ℕ
set_bit buf idx = set buf (idx / 8) (bit_or (get_or buf (idx / 8) 0) (2 ^ (idx % 8)))

-- The inner loop: the first clear bit of a byte, below `limit`.
unfoldable pub scan_bits : ℕ → ℕ → ℕ → ℕ → ℕ → Option ℕ
scan_bits zero bit limit byte v = none
scan_bits (suc n) bit limit byte v =
    let rest = scan_bits n (bit + 1) limit byte v in
    if leb limit (byte * 8 + bit)
    then none
    else (if bit_is_clear v bit then some (byte * 8 + bit) else rest)

abbrev pub first_of_two : Option ℕ → Option ℕ → Option ℕ
first_of_two (some i) o = some i
first_of_two none o = o

-- The loop over the bytes: the first clear bit of the block.
unfoldable pub scan_bytes : ℕ → ℕ → List ℕ → Option ℕ
unfolding scan_bits
scan_bytes byte limit [] = none
scan_bytes byte limit (v ∷ vs) =
    let rest = scan_bytes (byte + 1) limit vs in
    if v == 255 then rest else first_of_two (scan_bits 8 0 limit byte v) rest

module _ {D : Device} where
  abbrev pub loaded : Fs D → Option (D.State × List ℕ) → Option (List ℕ × Fs D)
  loaded s none = none
  loaded s (some (dev, x)) = some (x, record s { dev = dev })

  abbrev pub load : ℕ → M (Fs D) (List ℕ)
  load b s = loaded s (D.cache_read b s.dev)

  abbrev pub stored : Fs D → Option D.State → Option (Unit {0} × Fs D)
  stored s none = none
  stored s (some dev) = some (tt, record s { dev = dev })

  abbrev pub store : ℕ → List ℕ → M (Fs D) (Unit {0})
  store b x s = stored s (D.cache_write b x s.dev)

  -- The new content of `out_buf`, which keeps the old one where the number is refused.
  unfoldable pub read_block : ℕ → List ℕ → M (Fs D) (List ℕ)
  read_block b out_buf s = if readable s.sb.size b then load b s else some (out_buf, s)

  unfoldable pub write_block : ℕ → List ℕ → M (Fs D) (Unit {0})
  write_block b in_buf s = if writable s.sb.size b then store b in_buf s else some (tt, s)

  abbrev pub zero_block : ℕ → M (Fs D) (Unit {0})
  zero_block b = write_block b (replicate bsize 0)

  -- What is done with bitmap block `bbi` once it is scanned.
  unfoldable pub take_bit : ℕ → List ℕ → Option ℕ → M (Fs D) ℕ → M (Fs D) ℕ
  take_bit blockno buf none rest = rest
  take_bit blockno buf (some idx) rest = do
    sb ← gets (λ s. s.sb)
    write_block blockno (set_bit buf idx)
    pure (add32 sb.block_start idx)

  unfoldable pub allocate_from : ℕ → ℕ → List ℕ → M (Fs D) ℕ
  allocate_from zero bbi old = pure 0
  allocate_from (suc n) bbi old = do
    sb ← gets (λ s. s.sb)
    buf ← read_block (add32 sb.bmapstart bbi) old
    take_bit (add32 sb.bmapstart bbi) buf (scan_bytes 0 sb.ndata_blocks buf)
        (allocate_from n (bbi + 1) buf)

  -- The physical number of a block that was free, or 0.
  unfoldable pub allocate_block : M (Fs D) ℕ
  allocate_block = do
    sb ← gets (λ s. s.sb)
    allocate_from sb.ndata_blocks_bitmap_blocks 0 uninit_block

  -- `sram` is a null pointer, which no code assigns.
  unfoldable pub free_block : ℕ → M (Fs D) (Unit {0})
  free_block b s = if leb s.sb.size b then some (tt, s) else none
