-- ===== src/Cache.antt =====
-- fs/src/cache.c: the block cache between the file system and the disk server. The two transfers
-- over the socket are those of a `Backend`; Cache/Wire.antt builds one from messages.
pub mod Links
pub mod Contents
pub mod WriteBack
pub mod Alloc
pub mod Load
pub mod Access
pub mod Views
pub mod Wire
pub mod OnDisk
use cs2310_prj.Base.{
  ℕ, zero, suc, ◌+◌, ◌%◌, Bool, true, false, Option, none, some, List, if◌then◌else◌, ltb, ◌==◌,
  add32,
}
use Links.{Lru, update, unlinked, detach, attach_tail}

abbrev pub cache_capacity : ℕ
cache_capacity = 1024

-- `fetch_block_from_server(blockno, buf)` gives the new content of `buf`, which is the old one
-- where the transfer fails. `push_block_to_server` tells its caller nothing.
pub record Backend : Type 1 where
  pub State : Type 0
  pub fetch : ℕ → List ℕ → State → State × List ℕ
  pub push : ℕ → List ℕ → State → State

-- `cache_entry_t`, less its two pointers, which stand in `Lru`.
pub record Entry : Type 0 where
  pub blockno : ℕ
  pub bytes : List ℕ
  pub dirty : Bool

-- The static variables, and the server behind them.
pub record Cache (S : Type 0) : Type 0 where
  pub entry : ℕ → Entry
  pub size : ℕ
  pub lru : Lru
  pub hits : ℕ
  pub misses : ℕ
  pub server : S

-- The loop of `cache_read` and `cache_write`: the first of the `n` entries from `i` on that holds
-- the block.
unfoldable pub find_from : ℕ → ℕ → (ℕ → Entry) → ℕ → Option ℕ
find_from zero i entry b = none
find_from (suc n) i entry b =
    let rest = find_from n (i + 1) entry b in if (entry i).blockno == b then some i else rest

module _ {S : Type 0} where
  unfoldable pub cache_init : Cache S → Cache S
  cache_init c = record c {
    size = 0;
    lru = record c.lru { head = none; tail = none };
    hits = 0;
    misses = 0;
  }

  abbrev pub find : Cache S → ℕ → Option ℕ
  find c b = find_from c.size 0 c.entry b

  abbrev pub set_entry : Cache S → ℕ → Entry → Cache S
  set_entry c i e = record c { entry = update c.entry i e }

  abbrev pub touch : Cache S → ℕ → Cache S
  touch c i = record c { lru = attach_tail (detach c.lru i) i }

  abbrev pub append_entry : Cache S → ℕ → Cache S
  append_entry c i = record c { lru = attach_tail c.lru i }

  abbrev pub count_hit : Cache S → Cache S
  count_hit c = record c { hits = add32 c.hits 1 }

  abbrev pub count_miss : Cache S → Cache S
  count_miss c = record c { misses = add32 c.misses 1 }

module _ (B : Backend) where
  -- A dirty entry goes to the server.
  unfoldable pub write_back : Cache B.State → ℕ → Cache B.State
  write_back c i =
      let e = c.entry i in
      if e.dirty
      then record c {
        entry = update c.entry i (record e { dirty = false });
        server = B.push e.blockno e.bytes c.server;
      }
      else c

  -- The victim is unlinked, and written back if it is dirty.
  abbrev pub evict : Cache B.State → ℕ → Cache B.State
  evict c v = write_back (record c { lru = detach c.lru v }) v

  -- The oldest entry is the victim. `none` is a `NULL` head, which `detach` would read through.
  abbrev pub evict_head : Option ℕ → Cache B.State → Option (ℕ × Cache B.State)
  evict_head none c = none
  evict_head (some v) c = some (v, evict c v)

  unfoldable pub alloc_entry : Cache B.State → Option (ℕ × Cache B.State)
  alloc_entry c =
      if ltb c.size cache_capacity
      then some (
        c.size,
        record c {
          size = c.size + 1;
          entry = update c.entry c.size (record (c.entry c.size) { dirty = false });
          lru = unlinked c.lru c.size;
        },
      )
      else evict_head c.lru.head c

  -- e->blockno = blockno; fetch_block_from_server(blockno, e->data);
  unfoldable pub load_entry : Cache B.State → ℕ → ℕ → Cache B.State
  load_entry c i b =
      let got = B.fetch b (c.entry i).bytes c.server in
      record c {
        entry = update c.entry i (record (c.entry i) { blockno = b; bytes = got.1 });
        server = got.0;
      }

  abbrev pub read_loaded : Cache B.State → ℕ → Cache B.State × List ℕ
  read_loaded c i = (append_entry c i, (c.entry i).bytes)

  unfoldable pub cache_read : ℕ → Cache B.State → Option (Cache B.State × List ℕ)
  cache_read b c = elim (find c b) [
    | some i ↦ some (touch (count_hit c) i, (c.entry i).bytes)
    | none ↦ elim (alloc_entry (count_miss c)) [
      | none ↦ none
      | some (i, c') ↦ some (read_loaded (load_entry c' i b) i)
    ]
  ]

  abbrev pub store_bytes : Cache B.State → ℕ → List ℕ → Cache B.State
  store_bytes c i x = set_entry c i (record (c.entry i) { bytes = x; dirty = true })

  -- On a miss the entry is detached though it is not linked, and the list is left with that entry
  -- alone.
  unfoldable pub cache_write : ℕ → List ℕ → Cache B.State → Option (Cache B.State)
  cache_write b x c = elim (find c b) [
    | some i ↦ some (store_bytes (touch (count_hit c) i) i x)
    | none ↦ elim (alloc_entry (count_miss c)) [
      | none ↦ none
      | some (i, c') ↦ some (store_bytes (touch (load_entry c' i b) i) i x)
    ]
  ]

  -- The loop of `cache_flush` over the `n` entries from `i` on.
  unfoldable pub flush_from : ℕ → ℕ → Cache B.State → Cache B.State
  flush_from zero i c = c
  flush_from (suc n) i c = flush_from n (i + 1) (write_back c i)

  abbrev pub cache_flush : Cache B.State → Cache B.State
  cache_flush c = flush_from c.size 0 c

  abbrev pub cache_destroy : Cache B.State → Cache B.State
  cache_destroy = cache_flush
