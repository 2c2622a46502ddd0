-- ===== src/Cache/Access.antt =====
-- `cache_read` and `cache_write` of fs/src/cache.c against an array of blocks.
use cs2310_prj.Base.{
  ℕ, ◌<◌, ◌≡◌, ◌≢◌, inl, inr, refl, sym, ap, ◌∙◌, true, List, arith, ◌==◌, Bool-cases, none, some,
}
use cs2310_prj.Cache.Links.{InBounds, detach, detach-InBounds, attach_tail-InBounds}
use cs2310_prj.Cache.{
  Backend, Cache, find, touch, append_entry, read_loaded, count_hit, count_miss, store_bytes,
  alloc_entry, load_entry, cache_read, cache_write,
}
use cs2310_prj.Cache.Contents.{IsBlockServer, Contents, find_cases, blocks, blocks_hit, blocks_miss}
use cs2310_prj.Cache.Load.{
  loaded-size, loaded-lru, loaded_at, loaded_bytes, loaded-Contents, loaded-blocks,
}
use cs2310_prj.Cache.Alloc.{IsValid, Vacated, alloc_entry-Vacated}

module _ {B : Backend} (S : IsBlockServer B) where
  -- Overwriting the bytes of the entry that holds block `b`.
  module _ (c : Cache B.State) (h : Contents S c) (i b : ℕ) (used : i < c.size)
      (named : (c.entry i).blockno ≡ b) (x : List ℕ) (ok : S.Storable x) where
    stored : Cache B.State
    stored = store_bytes B c i x

    stored_no : (j : ℕ) → (stored.entry j).blockno ≡ (c.entry j).blockno
    unfolding stored
    stored_no j = ground arith

    stored-Storable :
        (j : ℕ)
        → j < c.size
        → j ≢ c.size
        → (stored.entry j).dirty ≡ true
        → S.Storable (stored.entry j).bytes
    unfolding stored
    stored-Storable j p n = elim (Bool-cases (j == i)) [
      | inl same ↦ rw same (λ d. ok)
      | inr ne ↦ rw ne (h.storable j p n)
    ]

    stored-Contents : Contents S (store_bytes B c i x)
    unfolding stored
    stored-Contents = record {
      good = h.good;
      distinct = λ j k p q n o e. h.distinct j k p q n o (sym (stored_no j) ∙ e ∙ stored_no k);
      ranged = λ j p n. rw (stored_no j) (h.ranged j p n);
      clean = λ j p n. ground (arith, h.clean j p n);
      storable = λ j p n. stored-Storable j p n;
      fits = h.fits;
    }

    stored_self : blocks S.view (store_bytes B c i x) b ≡ x
    stored_self =
        ap (blocks S.view (store_bytes B c i x)) (sym (at_i ∙ named))
        ∙ blocks_hit S (store_bytes B c i x) stored-Contents i used
        ∙ ground arith
      where
        at_i : ((store_bytes B c i x).entry i).blockno ≡ (c.entry i).blockno
        at_i = ground arith

    stored_ne : (m : ℕ) → b ≢ m → blocks S.view (store_bytes B c i x) m ≡ blocks S.view c m
    unfolding stored
    stored_ne m ne = elim (find_cases c m) [
      | inl (k, f) ↦ rw (← f.named) (
          ap (blocks S.view (store_bytes B c i x)) (sym (stored_no k))
          ∙ blocks_hit S (store_bytes B c i x) stored-Contents k f.used
          ∙ kept k f.named
          ∙ sym (blocks_hit S c h k f.used))
      | inr a ↦
          blocks_miss S (store_bytes B c i x) m (λ k p e. a.nowhere k p (sym (stored_no k) ∙ e))
          ∙ sym (blocks_miss S c m a.nowhere)
    ]
      where
        kept : (k : ℕ) → (c.entry k).blockno ≡ m → (stored.entry k).bytes ≡ (c.entry k).bytes
        kept k e = elim (Bool-cases (k == i)) [
          | inl same ↦ absurd (ne (ground arith))
          | inr differ ↦ rw differ
        ]

  -- The bookkeeping of an access: an entry in use goes to the end of the list.
  touched-IsValid :
      (c : Cache B.State) (i : ℕ)
      → Contents S c
      → InBounds c.size c.lru
      → i < c.size
      → IsValid S (touch c i) × IsValid S (append_entry c i)
  touched-IsValid c i h l used =
      let (a, head_a) =
        attach_tail-InBounds c.size (detach c.lru i) i (detach-InBounds c.size c.lru i l used)
          used in
      let (b, head_b) = attach_tail-InBounds c.size c.lru i l used in
      (
        record { contents = h; links = a; headed = λ p. head_a },
        record { contents = h; links = b; headed = λ p. head_b },
      )

  module _ (b : ℕ) (c : Cache B.State) where
    read_hit :
        (k : ℕ)
        → find c b ≡ some k
        → cache_read B b c ≡ some (touch (count_hit c) k, (c.entry k).bytes)
    unfolding cache_read
    read_hit k e = rw (e, cache_read)

    read_miss :
        (v : ℕ) (c' : Cache B.State)
        → find c b ≡ none
        → alloc_entry B (count_miss c) ≡ some (v, c')
        → cache_read B b c ≡ some (read_loaded B (load_entry B c' v b) v)
    unfolding cache_read
    read_miss v c' e f = rw (e, cache_read) (rw f)

    write_hit :
        (x : List ℕ) (k : ℕ)
        → find c b ≡ some k
        → cache_write B b x c ≡ some (store_bytes B (touch (count_hit c) k) k x)
    unfolding cache_write
    write_hit x k e = rw (e, cache_write)

    write_miss :
        (x : List ℕ) (v : ℕ) (c' : Cache B.State)
        → find c b ≡ none
        → alloc_entry B (count_miss c) ≡ some (v, c')
        → cache_write B b x c ≡ some (store_bytes B (touch (load_entry B c' v b) v) v x)
    unfolding cache_write
    write_miss x v c' e f = rw (e, cache_write) (rw f)

  -- A state that `cache_read` or `cache_write` goes on from: block `b` has an entry in use.
  record Holding (c : Cache B.State) (b : ℕ) (i : ℕ) (c' : Cache B.State) : Type 0 where
    valid : Contents S c'
    links : InBounds c'.size c'.lru
    used : i < c'.size
    named : (c'.entry i).blockno ≡ b
    bytes : (c'.entry i).bytes ≡ blocks S.view c b
    same : (m : ℕ) → S.InRange m → blocks S.view c' m ≡ blocks S.view c m

  counted_miss : (c : Cache B.State) → IsValid S c → IsValid S (count_miss c)
  counted_miss c h = record { contents = h.contents; links = h.links; headed = h.headed }

  load-Holding :
      (c : Cache B.State) (b v : ℕ) (c' : Cache B.State)
      → S.InRange b
      → ((k : ℕ) → k < c.size → (c.entry k).blockno ≢ b)
      → Vacated S (count_miss c) v c'
      → Holding c b v (load_entry B c' v b)
  load-Holding c b v c' r absent w = record {
    valid = loaded-Contents S (count_miss c) v c' w b r absent;
    links =
        rw
          (
            loaded-size S (count_miss c) v c' w b r absent,
            loaded-lru S (count_miss c) v c' w b r absent,
          )
          w.links;
    used = rw (loaded-size S (count_miss c) v c' w b r absent) w.used;
    named = loaded_at S (count_miss c) v c' w b r absent;
    bytes = loaded_bytes S (count_miss c) v c' w b r absent;
    same = loaded-blocks S (count_miss c) v c' w b r absent;
  }

  -- `cache_read` never meets a `NULL` victim; it delivers the block, and changes none.
  pub cache_read-blocks :
      (b : ℕ) (c : Cache B.State)
      → IsValid S c
      → S.InRange b
      → (c' : Cache B.State) × (cache_read B b c ≡ some (c', blocks S.view c b))
        × IsValid S c'
        × ((m : ℕ) → S.InRange m → blocks S.view c' m ≡ blocks S.view c m)
  cache_read-blocks b c h r = elim (find_cases c b) [
    | inl (k, f) ↦ (
      touch (count_hit c) k,
      read_hit b c k f.by_find
          ∙ ap (λ x. some (touch (count_hit c) k, x))
              (sym (blocks_hit S c h.contents k f.used) ∙ ap (blocks S.view c) f.named),
      (touched-IsValid (count_hit c) k h.contents h.links f.used).0,
      λ m p. refl,
    )
    | inr a ↦
        let (v, c', e, w) = alloc_entry-Vacated S (count_miss c) (counted_miss c h) in
        let g = load-Holding c b v c' r a.nowhere w in
        let l = load_entry B c' v b in
        (
          append_entry l v,
          read_miss b c v c' a.by_find e ∙ ap (λ x. some (append_entry l v, x)) g.bytes,
          (touched-IsValid l v g.valid g.links g.used).1,
          g.same,
        )
  ]

  -- What a write to block `b` makes of the blocks.
  abbrev pub Written : ℕ → List ℕ → Cache B.State → Cache B.State → Type 0
  Written b x c c' =
      IsValid S c'
      × (blocks S.view c' b ≡ x)
      × ((m : ℕ) → S.InRange m → b ≢ m → blocks S.view c' m ≡ blocks S.view c m)

  store-Written :
      (c : Cache B.State) (b i : ℕ) (x : List ℕ) (c' : Cache B.State)
      → Holding c b i c'
      → S.Storable x
      → Written b x c (store_bytes B (touch c' i) i x)
  store-Written c b i x c' g ok =
      let t = (touched-IsValid c' i g.valid g.links g.used).0 in
      (
        record {
          contents = stored-Contents (touch c' i) g.valid i b g.used g.named x ok;
          links = t.links;
          headed = t.headed;
        },
        stored_self (touch c' i) g.valid i b g.used g.named x ok,
        λ m r ne. stored_ne (touch c' i) g.valid i b g.used g.named x ok m ne ∙ g.same m r,
      )

  -- `cache_write` never meets a `NULL` victim; it replaces its block and leaves the others alone.
  pub cache_write-blocks :
      (b : ℕ) (x : List ℕ) (c : Cache B.State)
      → IsValid S c
      → S.InRange b
      → S.Storable x
      → (c' : Cache B.State) × (cache_write B b x c ≡ some c') × Written b x c c'
  cache_write-blocks b x c h r ok = elim (find_cases c b) [
    | inl (k, f) ↦ (
      store_bytes B (touch (count_hit c) k) k x,
      write_hit b c x k f.by_find,
      store-Written c b k x (count_hit c)
          (record {
            valid = h.contents;
            links = h.links;
            used = f.used;
            named = f.named;
            bytes = sym (blocks_hit S c h.contents k f.used) ∙ ap (blocks S.view c) f.named;
            same = λ m p. refl;
          })
          ok,
    )
    | inr a ↦
        let (v, c', e, w) = alloc_entry-Vacated S (count_miss c) (counted_miss c h) in
        (
          store_bytes B (touch (load_entry B c' v b) v) v x,
          write_miss b c x v c' a.by_find e,
          store-Written c b v x (load_entry B c' v b) (load-Holding c b v c' r a.nowhere w) ok,
        )
  ]
