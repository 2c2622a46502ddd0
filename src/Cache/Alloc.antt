-- ===== src/Cache/Alloc.antt =====
-- `alloc_entry` of fs/src/cache.c and the load that follows it: a free or evicted entry takes a new
-- block, and no block changes.
use cs2310_prj.Base.{
  ℕ, ◌+◌, ◌<◌, ◌≡◌, ◌≢◌, inl, inr, sym, ap, ◌∙◌, false, arith, ◌==◌, Bool-cases, some, ltb,
}
use cs2310_prj.Cache.Links.{
  update, InBounds, Headed, unlinked, detach, detach-InBounds, unlinked-grown,
}
use cs2310_prj.Cache.{Backend, Entry, Cache, cache_capacity, evict, evict_head, alloc_entry}
use cs2310_prj.Cache.Contents.{
  IsBlockServer, ContentsBut, Contents, find_cases, blocks, blocks_hit, blocks_miss,
}
use cs2310_prj.Cache.WriteBack.{
  write_back-Contents, size-write_back, lru-write_back, blockno-write_back, dirty-write_back,
}

module _ {B : Backend} (S : IsBlockServer B) where
  -- Between operations the pointers lead to entries in use, and the list has a head.
  pub record IsValid (c : Cache B.State) : Type 0 where
    pub contents : Contents S c
    pub links : InBounds c.size c.lru
    pub headed : 0 < c.size → Headed c.size c.lru

  -- The blocks of `c`, told by the entries of `c'` other than `v` and by its server.
  pub record Vacated (c : Cache B.State) (v : ℕ) (c' : Cache B.State) : Type 0 where
    pub used : v < c'.size
    pub others : ContentsBut S v c'.size c'.entry c'.server
    pub unchanged : (c'.entry v).dirty ≡ false
    pub links : InBounds c'.size c'.lru
    pub told :
        (k : ℕ) → k < c'.size → k ≢ v → (c'.entry k).bytes ≡ blocks S.view c (c'.entry k).blockno
    pub untold :
        (m : ℕ)
        → S.InRange m
        → ((k : ℕ) → k < c'.size → k ≢ v → (c'.entry k).blockno ≢ m)
        → S.view c'.server m ≡ blocks S.view c m
    pub from :
        (k : ℕ)
        → k < c'.size
        → k ≢ v
        → (j : ℕ) × (j < c.size) × ((c.entry j).blockno ≡ (c'.entry k).blockno)

  module _ (c : Cache B.State) (h : IsValid c) where
    abbrev grown : Cache B.State
    grown = record c {
      size = c.size + 1;
      entry = update c.entry c.size (record (c.entry c.size) { dirty = false });
      lru = unlinked c.lru c.size;
    }

    old : (k : ℕ) → k ≢ c.size → grown.entry k ≡ c.entry k
    old k ne = ground arith

    old_no : (k : ℕ) → k ≢ c.size → (grown.entry k).blockno ≡ (c.entry k).blockno
    old_no k ne = ap (λ (x : Entry). x.blockno) (old k ne)

    grown-others : c.size < cache_capacity → ContentsBut S c.size (c.size + 1) grown.entry c.server
    grown-others l = record {
      good = g.good;
      distinct = λ i j p q n o e.
          g.distinct i j (omega arith) (omega arith) n o (sym (old_no i n) ∙ e ∙ old_no j o);
      ranged = λ i p n. rw (old i n) (g.ranged i (omega arith) n);
      clean = λ i p n. rw (old i n) (g.clean i (omega arith) n);
      storable = λ i p n. rw (old i n) (g.storable i (omega arith) n);
      fits = omega arith;
    }
      where
        open h use {contents as g}

    grown-Vacated : c.size < cache_capacity → Vacated c c.size grown
    grown-Vacated l = record {
      used = omega arith;
      others = grown-others l;
      unchanged = ground arith;
      links = unlinked-grown c.size c.lru h.links;
      told = λ k p n. rw (old k n) (sym (blocks_hit S c h.contents k (omega arith)));
      untold = λ m r none_of. sym (
          blocks_miss S c m
            λ k p e. none_of k (omega arith) (omega arith) (old_no k (omega arith) ∙ e));
      from = λ k p n. (k, omega arith, sym (old_no k n));
    }

    module _ (v : ℕ) (v_used : v < c.size) where
      abbrev evicted : Cache B.State
      evicted = evict B c v

      abbrev detached : Cache B.State
      detached = record c { lru = detach c.lru v }

      evicted-size : evicted.size ≡ c.size
      evicted-size = size-write_back S detached v

      evicted-Contents :
          Contents S evicted × ((m : ℕ) → S.InRange m → blocks S.view evicted m ≡ blocks S.view c m)
      evicted-Contents = write_back-Contents S detached v h.contents v_used

      evicted_clean : (evicted.entry v).dirty ≡ false
      evicted_clean = dirty-write_back S detached v v ∙ ground arith

      evicted-untold :
          (m : ℕ)
          → S.InRange m
          → ((k : ℕ) → k < evicted.size → k ≢ v → (evicted.entry k).blockno ≢ m)
          → S.view evicted.server m ≡ blocks S.view c m
      evicted-untold m r none_of = elim (find_cases evicted m) [
        | inl (k, f) ↦ elim (Bool-cases (k == v)) [
          | inl same ↦
              let e : k ≡ v = ground arith in
              let clean : (evicted.entry k).dirty ≡ false = rw e evicted_clean in
              rw (← f.named) (
                sym (evicted-Contents.0.clean k f.used (omega (arith, f.used)) clean)
                ∙ sym (blocks_hit S evicted evicted-Contents.0 k f.used))
              ∙ evicted-Contents.1 m r
          | inr ne ↦ absurd (none_of k f.used (ground arith) f.named)
        ]
        | inr a ↦ sym (blocks_miss S evicted m a.nowhere) ∙ evicted-Contents.1 m r
      ]

      evicted-Vacated : Vacated c v evicted
      evicted-Vacated = record {
        used = omega (arith, evicted-size);
        others = record {
          good = g.good;
          distinct = λ i j p q n o e. g.distinct i j p q (omega arith) (omega arith) e;
          ranged = λ i p n. g.ranged i p (omega arith);
          clean = λ i p n. g.clean i p (omega arith);
          storable = λ i p n. g.storable i p (omega arith);
          fits = g.fits;
        };
        unchanged = evicted_clean;
        links =
            rw (evicted-size, lru-write_back S detached v)
              (detach-InBounds c.size c.lru v h.links v_used);
        told = λ k p n.
            sym (blocks_hit S evicted g k p) ∙ evicted-Contents.1 _ (g.ranged k p (omega arith));
        untold = evicted-untold;
        from = λ k p n. (k, omega (arith, evicted-size), sym (blockno-write_back S detached v k));
      }
        where
          g : Contents S evicted
          g = evicted-Contents.0

    -- `alloc_entry` succeeds, and what it hands out stands for no block.
    pub alloc_entry-Vacated :
        (v : ℕ) × (c' : Cache B.State) × (alloc_entry B c ≡ some (v, c')) × Vacated c v c'
    unfolding alloc_entry
    alloc_entry-Vacated = elim (Bool-cases (ltb c.size cache_capacity)) [
      | inl free ↦ (c.size, grown, rw free, grown-Vacated (ground arith))
      | inr full ↦
          let (v, v_used, e) = h.headed (ground arith) in
          (v, evicted v v_used, rw full (ap (λ o. evict_head B o c) e), evicted-Vacated v v_used)
    ]
