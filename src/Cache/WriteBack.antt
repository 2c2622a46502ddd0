-- ===== src/Cache/WriteBack.antt =====
-- Writing an entry back, in an eviction or a flush of fs/src/cache.c, changes no block.
use cs2310_prj.Base.{
  ℕ, zero, suc, ◌+◌, ◌<◌, ◌≡◌, ◌≢◌, inl, inr, refl, sym, ap, ◌∙◌, true, false, arith, ◌==◌,
  if◌then◌else◌, Bool-cases,
}
use cs2310_prj.Cache.Links.{update}
use cs2310_prj.Cache.{Backend, Entry, Cache, write_back, flush_from, cache_flush}
use cs2310_prj.Cache.Contents.{
  IsBlockServer, Contents, find_cases, blocks, blocks_hit, blocks_miss, same_entry,
}

module _ {B : Backend} (S : IsBlockServer B) where
  -- Two states whose entries hold the same bytes under the same numbers, and whose servers agree on
  -- the blocks of no entry.
  pub blocks_agree :
      (c c' : Cache B.State)
      → Contents S c
      → Contents S c'
      → c'.size ≡ c.size
      → ((i : ℕ) → ((c'.entry i).blockno ≡ (c.entry i).blockno))
      → ((i : ℕ) → ((c'.entry i).bytes ≡ (c.entry i).bytes))
      → (m : ℕ)
      → (((k : ℕ) → k < c.size → (c.entry k).blockno ≢ m) → S.view c'.server m ≡ S.view c.server m)
      → blocks S.view c' m ≡ blocks S.view c m
  blocks_agree c c' h h' same named held m away = elim (find_cases c m) [
    | inl (k, f) ↦ rw (← f.named) (
        ap (blocks S.view c') (sym (named k))
        ∙ blocks_hit S c' h' k (omega (arith, f.used))
        ∙ held k
        ∙ sym (blocks_hit S c h k f.used))
    | inr a ↦
        blocks_miss S c' m (λ k l e. a.nowhere k (omega arith) (sym (named k) ∙ e))
        ∙ away a.nowhere
        ∙ sym (blocks_miss S c m a.nowhere)
  ]

  module _ (c : Cache B.State) (i : ℕ) where
    pub size-write_back : (write_back B c i).size ≡ c.size
    unfolding write_back
    size-write_back = ground arith

    pub lru-write_back : (write_back B c i).lru ≡ c.lru
    unfolding write_back
    lru-write_back = ground arith

    pub blockno-write_back : (j : ℕ) → ((write_back B c i).entry j).blockno ≡ (c.entry j).blockno
    unfolding write_back
    blockno-write_back j = ground arith

    pub bytes-write_back : (j : ℕ) → ((write_back B c i).entry j).bytes ≡ (c.entry j).bytes
    unfolding write_back
    bytes-write_back j = ground arith

    pub dirty-write_back :
        (j : ℕ) → ((write_back B c i).entry j).dirty ≡ (if j == i then false else (c.entry j).dirty)
    unfolding write_back
    dirty-write_back j = ground arith

    module _ (h : Contents S c) (used : i < c.size) where
      pushed :
          (c.entry i).dirty ≡ true
          → S.IsGood (B.push (c.entry i).blockno (c.entry i).bytes c.server)
            × (S.view (B.push (c.entry i).blockno (c.entry i).bytes c.server) (c.entry i).blockno
                ≡ (c.entry i).bytes)
            × ((m : ℕ)
                → S.InRange m
                → (c.entry i).blockno ≢ m
                → S.view (B.push (c.entry i).blockno (c.entry i).bytes c.server) m
                  ≡ S.view c.server m)
      pushed e =
          S.push_lem (c.entry i).blockno (c.entry i).bytes c.server h.good
            (h.ranged i used (omega arith)) (h.storable i used (omega arith) e)

      cleaned : ℕ → Entry
      cleaned = update c.entry i (record (c.entry i) { dirty = false })

      named : (j : ℕ) → (cleaned j).blockno ≡ (c.entry j).blockno
      unfolding cleaned
      named j = ground arith

      other : (j : ℕ) → j < c.size → (j == i) ≡ false → (c.entry i).blockno ≢ (c.entry j).blockno
      other j l ne e = ground (arith, same_entry S c h i j used l e)

      cleaned_agrees :
          (e : (c.entry i).dirty ≡ true) (j : ℕ)
          → j < c.size
          → j ≢ c.size
          → (cleaned j).dirty ≡ false
          → (cleaned j).bytes
            ≡ S.view (B.push (c.entry i).blockno (c.entry i).bytes c.server) (cleaned j).blockno
      unfolding cleaned
      cleaned_agrees e j l n d = elim (Bool-cases (j == i)) [
        | inl same ↦ rw same (sym (pushed e).1)
        | inr ne ↦
            let d' : (c.entry j).dirty ≡ false = rw ne at d in
            rw ne (
              h.clean j l n d'
              ∙ sym ((pushed e).2 (c.entry j).blockno (h.ranged j l n) (other j l ne)))
      ]

      write_back-dirty : (c.entry i).dirty ≡ true → Contents S (write_back B c i)
      unfolding write_back cleaned
      write_back-dirty e =
          rw (e, write_back)
            (record {
              good = (pushed e).0;
              distinct = λ j k l m n o q. h.distinct j k l m n o (sym (named j) ∙ q ∙ named k);
              ranged = λ j l n. rw (named j) (h.ranged j l n);
              clean = cleaned_agrees e;
              storable = λ j l n d. ground (arith, h.storable j l n);
              fits = h.fits;
            })

      -- Writing an entry back keeps the invariant and every block.
      pub write_back-Contents :
          Contents S (write_back B c i)
          × ((m : ℕ) → S.InRange m → blocks S.view (write_back B c i) m ≡ blocks S.view c m)
      write_back-Contents = elim (Bool-cases (c.entry i).dirty) [
        | inl e ↦ (
          write_back-dirty e,
          λ m r.
              blocks_agree c (write_back B c i) h (write_back-dirty e) size-write_back
                blockno-write_back bytes-write_back m (away e m r),
        )
        | inr e ↦ rw (unchanged e) (h, λ m r. refl)
      ]
        where
          unchanged : (c.entry i).dirty ≡ false → write_back B c i ≡ c
          unchanged e = unfold write_back in ground arith

          away :
              (c.entry i).dirty ≡ true
              → (m : ℕ) → S.InRange m
              → ((k : ℕ) → k < c.size → (c.entry k).blockno ≢ m)
              → S.view (write_back B c i).server m ≡ S.view c.server m
          away e m r none_of = unfold write_back in rw e ((pushed e).2 m r (none_of i used))

-- The loop of `cache_flush`.
module _ {B : Backend} (S : IsBlockServer B) where
  pub flush_from-Contents :
      (n i : ℕ) (c : Cache B.State)
      → Contents S c
      → i + n ≡ c.size
      → ((j : ℕ) → j < i → (c.entry j).dirty ≡ false)
      → Contents S (flush_from B n i c)
        × ((flush_from B n i c).size ≡ c.size)
        × ((j : ℕ) → j < c.size → ((flush_from B n i c).entry j).dirty ≡ false)
        × ((m : ℕ) → S.InRange m → blocks S.view (flush_from B n i c) m ≡ blocks S.view c m)
  unfolding flush_from
  flush_from-Contents zero i c h e done = (h, refl, λ j l. done j (omega arith), λ m r. refl)
  flush_from-Contents (suc n) i c h e done =
      let (h', keeps) = write_back-Contents S c i h (omega arith) in
      let size' = size-write_back S c i in
      let (g, same_size, all_clean, all_kept) =
        flush_from-Contents n (i + 1) (write_back B c i) h' (omega arith)
          λ j l. ground (arith, dirty-write_back S c i j, done j) in
      (g, same_size ∙ size', λ j l. all_clean j (omega arith), λ m r. all_kept m r ∙ keeps m r)

  -- After a flush of a cache whose entries are consistent, the server itself has for each block
  -- what the cache told of it before the flush.
  pub cache_flush-view :
      (c : Cache B.State) (m : ℕ)
      → Contents S c
      → S.InRange m
      → S.view (cache_flush B c).server m ≡ blocks S.view c m
  cache_flush-view c m h r =
      let (g, same_size, all_clean, kept) =
        flush_from-Contents c.size 0 c h (omega arith) (λ j l. elim l [ ]) in
      on_server g same_size all_clean ∙ kept m r
    where
      on_server :
          Contents S (cache_flush B c)
          → (cache_flush B c).size ≡ c.size
          → ((j : ℕ) → j < c.size → ((cache_flush B c).entry j).dirty ≡ false)
          → S.view (cache_flush B c).server m ≡ blocks S.view (cache_flush B c) m
      on_server g same_size all_clean = elim (find_cases (cache_flush B c) m) [
        | inl (k, f) ↦ rw (← f.named) (
            sym (g.clean k f.used (omega (arith, f.used)) (all_clean k (omega (arith, f.used))))
            ∙ sym (blocks_hit S (cache_flush B c) g k f.used))
        | inr a ↦ sym (blocks_miss S (cache_flush B c) m a.nowhere)
      ]
