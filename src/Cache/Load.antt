-- ===== src/Cache/Load.antt =====
-- The load of a block into the entry that `alloc_entry` hands out, fs/src/cache.c.
use cs2310_prj.Base.{
  ℕ, ◌<◌, ◌≡◌, ◌≢◌, inl, inr, refl, sym, ap, ◌∙◌, true, false, arith, ◌==◌, Bool-cases,
}
use cs2310_prj.Cache.{Backend, Entry, Cache, load_entry}
use cs2310_prj.Cache.Contents.{IsBlockServer, Contents, find_cases, blocks, blocks_hit, blocks_miss}
use cs2310_prj.Cache.Alloc.{Vacated}

module _ {B : Backend} (S : IsBlockServer B) where
  -- Loading block `b`, which no entry holds, into a vacated entry.
  module _ (c : Cache B.State) (v : ℕ) (c' : Cache B.State) (w : Vacated S c v c') (b : ℕ)
      (r : S.InRange b) (absent : (k : ℕ) → k < c.size → (c.entry k).blockno ≢ b) where
    abbrev pub loaded : Cache B.State
    loaded = load_entry B c' v b

    got :
        S.IsGood (B.fetch b (c'.entry v).bytes c'.server).0
        × ((m : ℕ)
            → S.InRange m
            → S.view (B.fetch b (c'.entry v).bytes c'.server).0 m ≡ S.view c'.server m)
        × ((B.fetch b (c'.entry v).bytes c'.server).1 ≡ S.view c'.server b)
    got = S.fetch_lem b (c'.entry v).bytes c'.server w.others.good r

    not_b : (k : ℕ) → k < c'.size → k ≢ v → (c'.entry k).blockno ≢ b
    not_b k p n e = let (j, l, f) = w.from k p n in absurd (absent j l (f ∙ e))

    pub loaded-size : loaded.size ≡ c'.size
    unfolding load_entry
    loaded-size = refl

    pub loaded-lru : loaded.lru ≡ c'.lru
    unfolding load_entry
    loaded-lru = refl

    pub loaded_at : (loaded.entry v).blockno ≡ b
    unfolding load_entry
    loaded_at = ground arith

    pub loaded_bytes : (loaded.entry v).bytes ≡ blocks S.view c b
    unfolding load_entry
    loaded_bytes = ground (arith, got.2, w.untold b r not_b)

    loaded_other : (k : ℕ) → k ≢ v → loaded.entry k ≡ c'.entry k
    unfolding load_entry
    loaded_other k n = ground arith

    fresh : Entry
    fresh = record (c'.entry v) { blockno = b; bytes = (B.fetch b (c'.entry v).bytes c'.server).1 }

    -- Entry `v` is the fresh one, and every other is as it was.
    at_or_other :
        (P : Entry → Type 0) (k : ℕ) → P fresh → (k ≢ v → P (c'.entry k)) → P (loaded.entry k)
    unfolding load_entry fresh
    at_or_other P k new old = elim (Bool-cases (k == v)) [
      | inl same ↦ rw same new
      | inr ne ↦ rw ne (old (ground arith))
    ]

    loaded-distinct :
        (i j : ℕ)
        → i < c'.size
        → j < c'.size
        → (loaded.entry i).blockno ≡ (loaded.entry j).blockno
        → i ≡ j
    unfolding load_entry
    loaded-distinct i j p q e = elim (Bool-cases (i == v)) [
      | inl i_v ↦ elim (Bool-cases (j == v)) [
        | inl j_v ↦ ground arith
        | inr j_ne ↦ absurd (not_b j q (ground arith) (ground arith))
      ]
      | inr i_ne ↦ elim (Bool-cases (j == v)) [
        | inl j_v ↦ absurd (not_b i p (ground arith) (ground arith))
        | inr j_ne ↦ w.others.distinct i j p q (ground arith) (ground arith) (ground arith)
      ]
    ]

    pub loaded-Contents : Contents S loaded
    unfolding load_entry fresh
    loaded-Contents = record {
      good = got.0;
      distinct = λ i j p q n o e. loaded-distinct i j p q e;
      ranged = λ i p n. at_or_other (λ x. S.InRange x.blockno) i r (λ ne. w.others.ranged i p ne);
      clean = λ i p n.
          at_or_other (λ x. x.dirty ≡ false → x.bytes ≡ S.view loaded.server x.blockno) i
            (λ d. got.2 ∙ sym (got.1 b r))
            (λ ne d.
              w.others.clean i p ne d ∙ sym (got.1 (c'.entry i).blockno (w.others.ranged i p ne)));
      storable = λ i p n.
          at_or_other (λ x. x.dirty ≡ true → S.Storable x.bytes) i (λ d. absurd (cc (w.unchanged)))
            (λ ne. w.others.storable i p ne);
      fits = w.others.fits;
    }

    pub loaded-blocks : (m : ℕ) → S.InRange m → blocks S.view loaded m ≡ blocks S.view c m
    unfolding fresh load_entry
    loaded-blocks m in_range = elim (find_cases loaded m) [
      | inl (k, f) ↦ rw (← f.named) (
          blocks_hit S loaded loaded-Contents k f.used
          ∙ at_or_other (λ x. x.bytes ≡ blocks S.view c x.blockno) k (got.2 ∙ w.untold b r not_b)
              (w.told k (rw loaded-size at f.used)))
      | inr a ↦
          blocks_miss S loaded m a.nowhere
          ∙ got.1 m in_range
          ∙ w.untold m in_range
              λ k p n e. a.nowhere k p (ap (λ (x : Entry). x.blockno) (loaded_other k n) ∙ e)
    ]
