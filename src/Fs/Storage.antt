-- ===== src/Fs/Storage.antt =====
-- What the block layer of fs/src/block.c needs of the block cache, as an interface, and the cache
-- of fs/src/cache.c as an instance of it.
use cs2310_prj.Base.{ℕ, ◌<◌, ◌≤◌, ◌≡◌, ◌≢◌, refl, some, List, int_max}
use cs2310_prj.Cache.{Backend}
use cs2310_prj.Cache.Contents.{IsBlockServer, blocks}
use cs2310_prj.Cache.Alloc.{IsValid}
use cs2310_prj.Cache.Access.{cache_read-blocks, cache_write-blocks}
use cs2310_prj.Fs.{Device, Fs}
use cs2310_prj.Fs.Block.{read_block, write_block}
use cs2310_prj.Fs.OnCache.{cache_device, readable-in, writable-in}

-- A device that holds a content for each block within its range, and keeps it until the block is
-- written. It stores the contents that are `Storable`.
pub record IsStorage (D : Device) : Type 1 where
  pub IsGood : D.State → Type 0
  pub view : D.State → ℕ → List ℕ
  pub InRange : ℕ → Type 0
  pub Storable : List ℕ → Type 0
  pub cache_read_lem :
      (b : ℕ) (d : D.State)
      → IsGood d
      → InRange b
      → (d' : D.State) × (D.cache_read b d ≡ some (d', view d b))
        × IsGood d'
        × ((m : ℕ) → InRange m → view d' m ≡ view d m)
  pub cache_write_lem :
      (b : ℕ) (x : List ℕ) (d : D.State)
      → IsGood d
      → InRange b
      → Storable x
      → (d' : D.State) × (D.cache_write b x d ≡ some d')
        × IsGood d'
        × (view d' b ≡ x)
        × ((m : ℕ) → InRange m → b ≢ m → view d' m ≡ view d m)

abbrev pub cache_storage : {B : Backend} → IsBlockServer B → IsStorage (cache_device B)
cache_storage {B} S = record {
  IsGood = IsValid S;
  view = blocks S.view;
  InRange = S.InRange;
  Storable = S.Storable;
  cache_read_lem = λ b d v r. cache_read-blocks S b d v r;
  cache_write_lem =
      λ b x d v r ok. let (d', e, w) = cache_write-blocks S b x d v r ok in (d', e, w.0, w.1, w.2);
}

-- A block that may be read and written: within the device and within the file system.
abbrev pub IsUsable : {D : Device} → IsStorage D → Fs D → ℕ → Type 0
IsUsable S s b = S.InRange b × (b < s.sb.size) × (s.sb.size ≤ int_max)

-- The state but for the device, whose blocks hold what they held.
abbrev pub Keeps : {D : Device} → IsStorage D → D.State → D.State → Type 0
Keeps S d d' = S.IsGood d' × ((m : ℕ) → S.InRange m → S.view d' m ≡ S.view d m)

module _ {D : Device} (S : IsStorage D) (s : Fs D) (b : ℕ) (usable : IsUsable S s b) where
  pub read_usable :
      (old : List ℕ)
      → S.IsGood s.dev
      → (d : D.State) × (read_block b old s ≡ some (S.view s.dev b, record s { dev = d }))
        × Keeps S s.dev d
  unfolding read_block
  read_usable old good =
      let (r, l, h) = usable in
      let (d, e, g, same) = S.cache_read_lem b s.dev good r in
      (d, rw (readable-in s.sb.size b l h, e) refl, (g, same))

  pub write_usable :
      (x : List ℕ)
      → S.IsGood s.dev
      → S.Storable x
      → (d : D.State) × (write_block b x s ≡ some (tt, record s { dev = d }))
        × S.IsGood d
        × (S.view d b ≡ x)
        × ((m : ℕ) → S.InRange m → b ≢ m → S.view d m ≡ S.view s.dev m)
  unfolding write_block
  write_usable x good ok =
      let (r, l, h) = usable in
      let (d, e, g, this, same) = S.cache_write_lem b x s.dev good r ok in
      (d, rw (writable-in s.sb.size b l h, e) refl, g, this, same)
