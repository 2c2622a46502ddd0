-- ===== src/Fs/FileIo.antt =====
-- `readi` and `writei` of fs/src/inode.c. A loop runs on fuel, one round for each byte at most.
-- What `readi` copies to `dst` is its second result, from `dst[0]` on.
use cs2310_prj.Base.{
  length, ℕ, zero, suc, ◌+◌, ◌-◌, ◌*◌, ◌/◌, ◌%◌, Bool, true, false, List, [], ◌++◌, if◌then◌else◌,
  ltb, ◌==◌, slice, splice, min, ℤ, pos, negsuc, add32, sub32, take, drop,
}
use cs2310_prj.Fs.{
  Device, Fs, M, ◌>>=◌, ◌>>◌, pure, gets, bsize, uninit_block, get_inode, put_inode,
}
use cs2310_prj.Fs.Block.{read_block, write_block}
use cs2310_prj.Fs.Inodes.{iupdate}
use cs2310_prj.Fs.Bmap.{bmap}

-- The bytes of one round: to the end of the block, or of the request.
abbrev pub chunk : ℕ → ℕ → ℕ
chunk at_byte left = min (bsize - at_byte % bsize) left

-- The bytes that a request of `n` from `off` gets of a file of `size` bytes.
abbrev pub readable_length : ℕ → ℕ → ℕ → ℕ
readable_length size off n = if ltb size (add32 off n) then sub32 size off else n

abbrev pub max_size : ℕ
max_size = bsize * (10 + 2 * 128 + 128 * 128)

module _ {D : Device} where
  -- `left` bytes are to come; a block that is not allocated ends the read.
  unfoldable pub read_loop : ℕ → ℕ → ℕ → ℕ → List ℕ → M (Fs D) (List ℕ)
  read_loop zero slot at_byte left got = pure got
  read_loop (suc fuel) slot at_byte left got = if left == 0 then pure got else (do
    blk ← bmap slot (at_byte / bsize) false
    if blk == 0 then pure got else (do
      buf ← read_block blk uninit_block
      read_loop fuel slot (add32 at_byte (chunk at_byte left)) (left - chunk at_byte left)
          (got ++ slice (at_byte % bsize) (chunk at_byte left) buf)))

  unfoldable pub readi : ℕ → ℕ → ℕ → M (Fs D) (ℤ × List ℕ)
  readi slot off n = if n == 0 then pure (pos 0, []) else (do
    ip ← get_inode slot
    if ltb ip.size off then pure (negsuc 0, []) else (do
      got ← read_loop (readable_length ip.size off n) slot off (readable_length ip.size off n) []
      now ← gets (λ s. s.now)
      ip' ← get_inode slot
      put_inode slot (record ip' { atime = now })
      iupdate slot
      pure (pos (length got), got)))

  -- The bytes of `src` that are left are written. `true` if all were, and how many were.
  unfoldable pub write_loop : ℕ → ℕ → ℕ → List ℕ → ℕ → M (Fs D) (Bool × ℕ)
  write_loop zero slot at_byte src tot = pure (true, tot)
  write_loop (suc fuel) slot at_byte src tot = if length src == 0 then pure (true, tot) else (do
    blk ← bmap slot (at_byte / bsize) true
    if blk == 0 then pure (false, tot) else (do
      buf ← read_block blk uninit_block
      write_block blk (splice (at_byte % bsize) (take (chunk at_byte (length src)) src) buf)
      write_loop fuel slot (add32 at_byte (chunk at_byte (length src)))
          (drop (chunk at_byte (length src)) src) (tot + chunk at_byte (length src))))

  -- The new size and times, once all is written.
  unfoldable pub finish_write : ℕ → ℕ → Bool × ℕ → M (Fs D) ℤ
  finish_write slot end (false, tot) = pure (pos tot)
  finish_write slot end (true, tot) = do
    ip ← get_inode slot
    now ← gets (λ s. s.now)
    put_inode slot
        (record ip { size = if ltb ip.size end then end else ip.size; mtime = now; ctime = now })
    iupdate slot
    pure (pos tot)

  -- `src` are the `n` bytes to write.
  unfoldable pub writei : ℕ → List ℕ → ℕ → M (Fs D) ℤ
  writei slot src off =
      if length src == 0
      then pure (pos 0)
      else (if ltb max_size (add32 off (length src)) then pure (negsuc 0) else (do
        done ← write_loop (length src) slot off src 0
        finish_write slot (add32 off (length src)) done))
