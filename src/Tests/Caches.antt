-- ===== src/Tests/Caches.antt =====
-- The theorems on the block cache, in front of the disk server, at concrete inputs.
use cs2310_prj.Base.{◌≡◌, some, replicate, arith}
use cs2310_prj.Cache.{Cache, cache_read, cache_write, cache_flush}
use cs2310_prj.Disk.{Disk}
use cs2310_prj.Cache.Wire.{Link, fetch_block_from_server, push_block_to_server}
use cs2310_prj.Cache.Contents.{blocks}
use cs2310_prj.Cache.Alloc.{IsValid}
use cs2310_prj.Cache.WriteBack.{cache_flush-view}
use cs2310_prj.Cache.Views.{cache_read-view, cache_write-view}
use cs2310_prj.Cache.OnDisk.{disk_transport, sector, IsGood, fetch-sector, push-sector}
use cs2310_prj.Fs.Block.{read_block, write_block}
use cs2310_prj.Fs.OnCache.{read_block-write_block}
use cs2310_prj.Tests.Data.{
  backend, server, fresh_cache, fresh_cache-IsValid, small_link, small_link-IsGood, sevens,
  sevens-Storable, disk_fs,
}

cache_read-view_example :
    (c : Cache (Link Disk)) × (cache_read backend 1 fresh_cache
      ≡ some (c, blocks server.view fresh_cache 1))
    × IsValid server c
    × (blocks server.view c 0 ≡ blocks server.view fresh_cache 0)
cache_read-view_example =
    cache_read-view server 1 0 fresh_cache fresh_cache-IsValid (omega arith) (omega arith)

cache_write-view_example :
    (c : Cache (Link Disk)) × (cache_write backend 1 sevens fresh_cache ≡ some c)
    × IsValid server c
    × (blocks server.view c 1 ≡ sevens)
    × (blocks server.view c 0 ≡ blocks server.view fresh_cache 0)
cache_write-view_example =
    cache_write-view server 1 0 sevens fresh_cache fresh_cache-IsValid (omega arith) sevens-Storable
      (omega arith) (omega arith)

cache_flush-view_example :
    server.view (cache_flush backend fresh_cache).server 1 ≡ blocks server.view fresh_cache 1
cache_flush-view_example =
    cache_flush-view server fresh_cache 1 fresh_cache-IsValid.contents (omega arith)

fetch-sector_example :
    fetch_block_from_server disk_transport 2 1 sevens small_link
    ≡ (small_link, sector 1 2 small_link.server 1)
fetch-sector_example = fetch-sector 1 2 1 sevens small_link small_link-IsGood (omega arith)

push-sector_example :
    IsGood 1 2 (push_block_to_server disk_transport 2 1 sevens small_link)
    × (sector 1 2 (push_block_to_server disk_transport 2 1 sevens small_link).server 1 ≡ sevens)
    × (sector 1 2 (push_block_to_server disk_transport 2 1 sevens small_link).server 0
        ≡ sector 1 2 small_link.server 0)
push-sector_example =
    push-sector 1 2 1 0 sevens small_link small_link-IsGood (omega arith) sevens-Storable
      (omega arith) (omega arith)

read_block-write_block_example :
    (c : Cache (Link Disk)) × (c' : Cache (Link Disk)) × (write_block 1 sevens disk_fs
      ≡ some (tt, record disk_fs { dev = c }))
    × (read_block 1 (replicate 512 0) (record disk_fs { dev = c })
        ≡ some (sevens, record disk_fs { dev = c' }))
    × IsValid server c'
    × (blocks server.view c' 0 ≡ blocks server.view fresh_cache 0)
read_block-write_block_example =
    read_block-write_block server disk_fs 1 sevens (replicate 512 0) 0 fresh_cache-IsValid
      (omega arith) sevens-Storable (omega arith) (omega arith) (omega arith) (omega arith)
