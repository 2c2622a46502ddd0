-- ===== src/Cache/Views.antt =====
-- What a client of fs/src/cache.c sees of one block while it reads or writes another.
use cs2310_prj.Base.{ℕ, ◌≡◌, ◌≢◌, some, List, arith}
use cs2310_prj.Cache.{Backend, Cache, cache_init, cache_read, cache_write}
use cs2310_prj.Cache.Contents.{IsBlockServer, blocks}
use cs2310_prj.Cache.Alloc.{IsValid}
use cs2310_prj.Cache.Access.{cache_read-blocks, cache_write-blocks}

module _ {B : Backend} (S : IsBlockServer B) where
  -- A cache that `cache_init` has emptied is valid, whatever its entries and pointers were.
  pub cache_init-IsValid : (c : Cache B.State) → S.IsGood c.server → IsValid S (cache_init c)
  unfolding cache_init
  cache_init-IsValid c g = record {
    contents = record {
      good = g;
      distinct = λ i j l. elim l [ ];
      ranged = λ i l. elim l [ ];
      clean = λ i l. elim l [ ];
      storable = λ i l. elim l [ ];
      fits = omega arith;
    };
    links = record { prevs = λ i l. elim l [ ]; nexts = λ i l. elim l [ ]; head = tt; tail = tt };
    headed = λ l. elim l [ ];
  }

  -- On a valid cache in front of a server of blocks, `cache_read` of a block of the server never
  -- meets a `NULL` victim. It delivers the newest content of the block, and no block changes, in
  -- the cache or behind it, also where another block is evicted and written back. The cache
  -- stays valid.
  pub cache_read-view :
      (b m : ℕ) (c : Cache B.State)
      → IsValid S c
      → S.InRange b
      → S.InRange m
      → (c' : Cache B.State) × (cache_read B b c ≡ some (c', blocks S.view c b))
        × IsValid S c'
        × (blocks S.view c' m ≡ blocks S.view c m)
  cache_read-view b m c h r q =
      let (c', e, v, same) = cache_read-blocks S b c h r in (c', e, v, same m q)

  -- On a valid cache in front of a server of blocks, `cache_write` of a block of the server
  -- never meets a `NULL` victim. Where the server can store the new content, the block has it
  -- afterwards, every other block keeps its own, and the cache stays valid.
  pub cache_write-view :
      (b m : ℕ) (x : List ℕ) (c : Cache B.State)
      → IsValid S c
      → S.InRange b
      → S.Storable x
      → S.InRange m
      → b ≢ m
      → (c' : Cache B.State) × (cache_write B b x c ≡ some c')
        × IsValid S c'
        × (blocks S.view c' b ≡ x)
        × (blocks S.view c' m ≡ blocks S.view c m)
  cache_write-view b m x c h r ok q ne =
      let (c', e, w) = cache_write-blocks S b x c h r ok in (c', e, w.0, w.1, w.2 m q ne)
