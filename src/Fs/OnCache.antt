-- ===== src/Fs/OnCache.antt =====
-- The block cache of fs/src/cache.c under the block layer of fs/src/block.c.
use cs2310_prj.Base.{
  ap, ◌∙◌, ℕ, ◌<◌, ◌≤◌, ◌≡◌, ◌≢◌, refl, true, false, some, List, arith, to_int, int_max, pos,
}
use cs2310_prj.Cache.{Backend, Cache, cache_read, cache_write}
use cs2310_prj.Cache.Contents.{IsBlockServer, blocks}
use cs2310_prj.Cache.Alloc.{IsValid}
use cs2310_prj.Cache.Access.{cache_read-blocks, cache_write-blocks, Written}
use cs2310_prj.Fs.{Device, Fs}
use cs2310_prj.Fs.Block.{read_block, write_block, readable, writable}

-- The two functions of the cache that block.c calls.
abbrev pub cache_device : Backend → Device
cache_device B = record {
  State = Cache B.State;
  cache_read = cache_read B;
  cache_write = cache_write B;
}

to_int-small : (b : ℕ) → b ≤ int_max → to_int b ≡ pos b
unfolding to_int
to_int-small b h = ground arith

pub readable-in : (size b : ℕ) → b < size → size ≤ int_max → readable size b ≡ true
unfolding readable
readable-in size b l h = rw (to_int-small b (omega arith), to_int-small size h) (ground arith)

pub writable-in : (size b : ℕ) → b < size → size ≤ int_max → writable size b ≡ true
unfolding writable
writable-in size b l h = rw (to_int-small b (omega arith), to_int-small size h) (ground arith)

writable-out : (size b : ℕ) → size ≤ b → b ≤ int_max → writable size b ≡ false
unfolding writable
writable-out size b l h = rw (to_int-small b h, to_int-small size (omega arith)) (ground arith)

readable-out : (size b : ℕ) → 0 < b → size ≤ b → b ≤ int_max → readable size b ≡ false
unfolding readable
readable-out size b p l h = rw (to_int-small b h, to_int-small size (omega arith)) (ground arith)

module _ {B : Backend} (S : IsBlockServer B) (s : Fs (cache_device B)) (b : ℕ) where
  read_inside :
      (old : List ℕ)
      → IsValid S s.dev
      → S.InRange b
      → b < s.sb.size
      → s.sb.size ≤ int_max
      → (c : Cache B.State) × (read_block b old s
          ≡ some (blocks S.view s.dev b, record s { dev = c }))
        × IsValid S c
        × ((m : ℕ) → S.InRange m → blocks S.view c m ≡ blocks S.view s.dev m)
  unfolding read_block
  read_inside old v r l h =
      let (c, e, w, same) = cache_read-blocks S b s.dev v r in
      (c, rw (readable-in s.sb.size b l h, e) refl, w, same)

  write_inside :
      (x : List ℕ)
      → IsValid S s.dev
      → S.InRange b
      → S.Storable x
      → b < s.sb.size
      → s.sb.size ≤ int_max
      → (c : Cache B.State) × (write_block b x s ≡ some (tt, record s { dev = c }))
        × Written S b x s.dev c
  unfolding write_block
  write_inside x v r ok l h =
      let (c, e, w) = cache_write-blocks S b x s.dev v r ok in
      (c, rw (writable-in s.sb.size b l h, e) refl, w)

module _ {B : Backend} (S : IsBlockServer B) (s : Fs (cache_device B)) (b : ℕ) where
  -- On a valid cache in front of a server of blocks, a block within the file system that
  -- `write_block` stored is what `read_block` delivers afterwards, where the server can store
  -- it, and every other block is delivered as it was before. Neither call faults, and the cache
  -- stays valid.
  pub read_block-write_block :
      (x old : List ℕ) (m : ℕ)
      → IsValid S s.dev
      → S.InRange b
      → S.Storable x
      → b < s.sb.size
      → s.sb.size ≤ int_max
      → S.InRange m
      → b ≢ m
      → (c : Cache B.State) × (c' : Cache B.State) × (write_block b x s
          ≡ some (tt, record s { dev = c }))
        × (read_block b old (record s { dev = c }) ≡ some (x, record s { dev = c' }))
        × IsValid S c'
        × (blocks S.view c' m ≡ blocks S.view s.dev m)
  read_block-write_block x old m v r ok l h q ne =
      let (c, e, w) = write_inside S s b x v r ok l h in
      let (c', e', v', same) = read_inside S (record s { dev = c }) b old w.0 r l h in
      (c, c', e, e' ∙ ap (λ y. some (y, record s { dev = c' })) w.1, v', same m q ∙ w.2 m q ne)

  -- A number behind the end of the file system is refused: neither the cache nor the buffer
  -- changes.
  pub block_outside :
      (x old : List ℕ)
      → 0 < b
      → s.sb.size ≤ b
      → b ≤ int_max
      → (write_block b x s ≡ some (tt, s)) × (read_block b old s ≡ some (old, s))
  unfolding read_block write_block
  block_outside x old p l h =
      (rw (writable-out s.sb.size b l h) refl, rw (readable-out s.sb.size b p l h) refl)
