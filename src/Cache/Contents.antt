-- ===== src/Cache/Contents.antt =====
-- What the cache of fs/src/cache.c holds, block by block, and what it needs of the disk server.
use cs2310_prj.Base.{
  ℕ, zero, suc, ◌+◌, ◌≤◌, ◌<◌, ◌≡◌, ◌≢◌, ◌⊎◌, inl, inr, refl, ap, true, false, Option, none, some,
  List, arith, ◌==◌, Bool-cases,
}
use cs2310_prj.Cache.{Backend, Entry, Cache, cache_capacity, find_from, find}

-- A server of blocks: a transfer delivers the server's block, a push replaces it and leaves the
-- others alone. `Storable` are the blocks that a push carries over unchanged.
pub record IsBlockServer (B : Backend) : Type 1 where
  pub IsGood : B.State → Type 0
  pub view : B.State → ℕ → List ℕ
  pub InRange : ℕ → Type 0
  pub Storable : List ℕ → Type 0
  pub fetch_lem :
      (n : ℕ) (buf : List ℕ) (s : B.State)
      → IsGood s
      → InRange n
      → IsGood (B.fetch n buf s).0
        × ((m : ℕ) → InRange m → view (B.fetch n buf s).0 m ≡ view s m)
        × ((B.fetch n buf s).1 ≡ view s n)
  pub push_lem :
      (n : ℕ) (x : List ℕ) (s : B.State)
      → IsGood s
      → InRange n
      → Storable x
      → IsGood (B.push n x s)
        × (view (B.push n x s) n ≡ x)
        × ((m : ℕ) → InRange m → n ≢ m → view (B.push n x s) m ≡ view s m)

find_from-some :
    (n i : ℕ) (entry : ℕ → Entry) (b k : ℕ)
    → find_from n i entry b ≡ some k
    → (k < i + n) × ((entry k).blockno ≡ b)
unfolding find_from
find_from-some zero i entry b k e = absurd (cc)
find_from-some (suc n) i entry b k e = elim (Bool-cases ((entry i).blockno == b)) [
  | inl hit ↦ ground arith
  | inr miss ↦ ground (arith, find_from-some n (i + 1) entry b k)
]

find_from-none :
    (n i : ℕ) (entry : ℕ → Entry) (b k : ℕ)
    → find_from n i entry b ≡ none
    → i ≤ k
    → k < i + n
    → (entry k).blockno ≢ b
unfolding find_from
find_from-none zero i entry b k e h g same = absurd (omega arith)
find_from-none (suc n) i entry b k e h g same = elim (Bool-cases (i == k)) [
  | inl here ↦ ground arith
  | inr there ↦ ground (arith, find_from-none n (i + 1) entry b k)
]

module _ {S : Type 0} (c : Cache S) (b : ℕ) where
  -- The block stands in entry `k`.
  pub record Found (k : ℕ) : Type 0 where
    pub used : k < c.size
    pub named : (c.entry k).blockno ≡ b
    pub by_find : find c b ≡ some k

  pub record Absent : Type 0 where
    pub nowhere : (k : ℕ) → k < c.size → (c.entry k).blockno ≢ b
    pub by_find : find c b ≡ none

  pub find_cases : ((k : ℕ) × Found k) ⊎ Absent
  find_cases = split (find c b) refl
    where
      split : (o : Option ℕ) → find c b ≡ o → ((k : ℕ) × Found k) ⊎ Absent
      split (some k) e =
          let (l, n) = find_from-some c.size 0 c.entry b k e in
          inl (k, record { used = omega arith; named = n; by_find = e })
      split none e = inr (record {
        nowhere = λ k h. find_from-none c.size 0 c.entry b k e (omega arith) (omega arith);
        by_find = e;
      })

-- The content of a block: that of its entry, or the server's.
abbrev pub content : {S : Type 0} → (S → ℕ → List ℕ) → Cache S → ℕ → Option ℕ → List ℕ
content view c b none = view c.server b
content view c b (some k) = (c.entry k).bytes

abbrev pub blocks : {S : Type 0} → (S → ℕ → List ℕ) → Cache S → ℕ → List ℕ
blocks view c b = content view c b (find c b)

module _ {B : Backend} (S : IsBlockServer B) where
  -- What holds of the first `n` entries, but for entry `v`: they are of different blocks, and those
  -- that are not dirty agree with the server.
  pub record ContentsBut (v n : ℕ) (entry : ℕ → Entry) (server : B.State) : Type 0 where
    pub good : S.IsGood server
    pub distinct :
        (i j : ℕ) → i < n → j < n → i ≢ v → j ≢ v → (entry i).blockno ≡ (entry j).blockno → i ≡ j
    pub ranged : (i : ℕ) → i < n → i ≢ v → S.InRange (entry i).blockno
    pub clean :
        (i : ℕ)
        → i < n
        → i ≢ v
        → (entry i).dirty ≡ false
        → (entry i).bytes ≡ S.view server (entry i).blockno
    pub storable : (i : ℕ) → i < n → i ≢ v → (entry i).dirty ≡ true → S.Storable (entry i).bytes
    pub fits : n ≤ cache_capacity

  -- The same with no exception, since entry `c.size` is not in use.
  abbrev pub Contents : Cache B.State → Type 0
  Contents c = ContentsBut c.size c.size c.entry c.server

  module _ (c : Cache B.State) (h : Contents c) where
    pub same_entry :
        (i j : ℕ) → i < c.size → j < c.size → (c.entry i).blockno ≡ (c.entry j).blockno → i ≡ j
    same_entry i j p q = h.distinct i j p q (omega arith) (omega arith)

    pub blocks_hit : (k : ℕ) → k < c.size → blocks S.view c (c.entry k).blockno ≡ (c.entry k).bytes
    blocks_hit k l = elim (find_cases c (c.entry k).blockno) [
      | inl (j, f) ↦ rw f.by_find (ap (λ i. (c.entry i).bytes) (same_entry j k f.used l f.named))
      | inr a ↦ absurd (a.nowhere k l refl)
    ]

  pub blocks_miss :
      (c : Cache B.State) (b : ℕ)
      → ((k : ℕ) → k < c.size → (c.entry k).blockno ≢ b)
      → blocks S.view c b ≡ S.view c.server b
  blocks_miss c b no_entry = elim (find_cases c b) [
    | inl (j, f) ↦ absurd (no_entry j f.used f.named)
    | inr a ↦ rw a.by_find
  ]
