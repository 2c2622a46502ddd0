-- ===== src/Fs/Mapping.antt =====
-- `bmap` of fs/src/inode.c where nothing is allocated, beside a map that only looks at the blocks.
use cs2310_prj.Base.{
  Option, ℕ, ◌-◌, ◌/◌, ◌%◌, ◌≡◌, ◌≢◌, refl, sym, ap, ◌∙◌, Bool, true, false, ◌&&◌, some, List,
  arith, if◌then◌else◌, ltb, ◌==◌, Bool-cases, inl, inr,
}
use cs2310_prj.Fs.{Device, Fs, Inode, uninit_block}
use cs2310_prj.Fs.Bmap.{
  word_at, addr, bmap, bmap_direct, index_block, entry_of, bmap_indirect, inner_block, bmap_double,
}
use cs2310_prj.Fs.Storage.{IsStorage, IsUsable, Keeps, read_usable}

-- Entry `k` of the index block `b` of a content, 0 where there is no such block.
abbrev pub through : (ℕ → List ℕ) → ℕ → ℕ → ℕ
through v b k = if b == 0 then 0 else word_at (v b) k

-- The physical block of a file's block, 0 where there is none.
abbrev pub file_block : (ℕ → List ℕ) → Inode → ℕ → ℕ
file_block v ip n =
    if ltb n 10
    then addr ip n
    else (if ltb (n - 10) 128
        then through v (addr ip 10) (n - 10)
        else (if ltb (n - 10 - 128) 128
            then through v (addr ip 11) (n - 10 - 128)
            else (if ltb (n - 10 - 128 - 128) 16_384
                then through v (through v (addr ip 12) ((n - 10 - 128 - 128) / 128))
                    ((n - 10 - 128 - 128) % 128)
                else 0)))

-- The index blocks of a file satisfy `ok`.
pub record HasIndex (v : ℕ → List ℕ) (ip : Inode) (ok : ℕ → Type 0) : Type 0 where
  pub first : addr ip 10 ≢ 0 → ok (addr ip 10)
  pub second : addr ip 11 ≢ 0 → ok (addr ip 11)
  pub outer : addr ip 12 ≢ 0 → ok (addr ip 12)
  pub inner : (i : ℕ) → through v (addr ip 12) i ≢ 0 → ok (through v (addr ip 12) i)

-- Nothing is allocated for an entry that is there.
no_alloc : (b : ℕ) (alloc : Bool) → (alloc ≡ true → b ≢ 0) → (b == 0 && alloc) ≡ false
no_alloc b true h = let ne = h refl in ground arith
no_alloc b false h = elim (Bool-cases (b == 0)) [ inl e ↦ rw e | inr e ↦ rw e ]

pub non_zero : (b : ℕ) → (b == 0) ≡ false → b ≢ 0
non_zero b e = ground arith

module _ {D : Device} (S : IsStorage D) where
  -- What an action without allocation gives: a number, and a device that holds the same.
  abbrev pub Finds : Fs D → ℕ → (Fs D → Option (ℕ × Fs D)) → Type 0
  Finds s n m = (d : D.State) × (m s ≡ some (n, record s { dev = d })) × Keeps S s.dev d

  through_zero : (v : ℕ → List ℕ) (b k : ℕ) → through v b k ≢ 0 → b ≢ 0
  through_zero v b k h z = h (let e : (b == 0) ≡ true = ground arith in rw e)

  bmap_indirect-through :
      (s : Fs D) (slot level k : ℕ) (alloc : Bool)
      → S.IsGood s.dev
      → (addr (s.inodes slot) level ≢ 0 → IsUsable S s (addr (s.inodes slot) level))
      → (alloc ≡ true → through (S.view s.dev) (addr (s.inodes slot) level) k ≢ 0)
      → Finds s
          (through (S.view s.dev) (addr (s.inodes slot) level) k)
          (bmap_indirect slot level k alloc)
  unfolding bmap_indirect index_block entry_of
  bmap_indirect-through s slot level k alloc good ok live =
      let b = addr (s.inodes slot) level in
      let v = S.view s.dev in
      let stays = no_alloc b alloc (λ a. through_zero v b k (live a)) in
      elim (Bool-cases (b == 0)) [
        | inl none_there ↦ (s.dev, rw (stays, none_there), (good, λ m r. refl))
        | inr there ↦
            let (d, e, keeps) = read_usable S s b (ok (non_zero b there)) uninit_block good in
            let entry = word_at (v b) k in
            let same : through v b k ≡ entry = rw there in
            let kept = no_alloc entry alloc (λ a z. live a (same ∙ z)) in
            (d, rw (stays, there, e, kept), keeps)
      ]

  Keeps-trans : (d d' d'' : D.State) → Keeps S d d' → Keeps S d' d'' → Keeps S d d''
  Keeps-trans d d' d'' p q = (q.0, λ m r. q.1 m r ∙ p.1 m r)

  inner-IsUsable :
      (s : Fs D) (slot i : ℕ)
      → HasIndex (S.view s.dev) (s.inodes slot) (IsUsable S s)
      → (addr (s.inodes slot) 12 == 0) ≡ false
      → (word_at (S.view s.dev (addr (s.inodes slot) 12)) i == 0) ≡ false
      → IsUsable S s (word_at (S.view s.dev (addr (s.inodes slot) 12)) i)
  inner-IsUsable s slot i index there has_inner =
      let inner = word_at (S.view s.dev (addr (s.inodes slot) 12)) i in
      let same : through (S.view s.dev) (addr (s.inodes slot) 12) i ≡ inner = rw there in
      rw same at (index.inner i (λ z. non_zero inner has_inner (sym same ∙ z)))

  bmap_double-through :
      (s : Fs D) (slot k : ℕ) (alloc : Bool)
      → S.IsGood s.dev
      → HasIndex (S.view s.dev) (s.inodes slot) (IsUsable S s)
      → (alloc ≡ true
          → through
              (S.view s.dev)
              (through (S.view s.dev) (addr (s.inodes slot) 12) (k / 128))
              (k % 128)
            ≢ 0)
      → Finds s
          (through
            (S.view s.dev)
            (through (S.view s.dev) (addr (s.inodes slot) 12) (k / 128))
            (k % 128))
          (bmap_double slot k alloc)
  unfolding bmap_double index_block inner_block entry_of
  bmap_double-through s slot k alloc good index live =
      let b = addr (s.inodes slot) 12 in
      let v = S.view s.dev in
      let outer_live =
        λ (a : alloc ≡ true). through_zero v (through v b (k / 128)) (k % 128) (live a) in
      let stays = no_alloc b alloc (λ a. through_zero v b (k / 128) (outer_live a)) in
      elim (Bool-cases (b == 0)) [
        | inl none_there ↦ (s.dev, rw (stays, none_there), (good, λ m r. refl))
        | inr there ↦
            let (d, e, keeps) =
              read_usable S s b (index.outer (non_zero b there)) uninit_block good in
            let inner = word_at (v b) (k / 128) in
            let same : through v b (k / 128) ≡ inner = rw there in
            let kept = no_alloc inner alloc (λ a z. outer_live a (same ∙ z)) in
            elim (Bool-cases (inner == 0)) [
              | inl no_inner ↦ (d, rw (stays, there, e, kept, no_inner), keeps)
              | inr has_inner ↦
                  let usable = inner-IsUsable s slot (k / 128) index there has_inner in
                  let t = record s { dev = d } in
                  let (d', e', keeps') = read_usable S t inner usable uninit_block keeps.0 in
                  let entry = word_at (v inner) (k % 128) in
                  let agree : S.view d inner ≡ v inner = keeps.1 inner usable.0 in
                  let same' : through v (through v b (k / 128)) (k % 128) ≡ entry =
                    ap (λ w. through v w (k % 128)) same ∙ rw has_inner in
                  let kept' = no_alloc entry alloc (λ a z. live a (same' ∙ z)) in
                  (
                    d',
                    rw (stays, there, e, kept, has_inner, e', agree, kept'),
                    Keeps-trans s.dev d d' keeps keeps',
                  )
            ]
      ]

  -- Behind the blocks of the two indirect blocks.
  bmap_last :
      (s : Fs D) (slot n : ℕ) (alloc : Bool)
      → S.IsGood s.dev
      → HasIndex (S.view s.dev) (s.inodes slot) (IsUsable S s)
      → (alloc ≡ true → file_block (S.view s.dev) (s.inodes slot) n ≢ 0)
      → ltb n 10 ≡ false
      → ltb (n - 10) 128 ≡ false
      → ltb (n - 10 - 128) 128 ≡ false
      → Finds s (file_block (S.view s.dev) (s.inodes slot) n) (bmap slot n alloc)
  unfolding bmap
  bmap_last s slot n alloc good index live n1 n2 n3 =
      let v = S.view s.dev in
      let ip = s.inodes slot in
      let r = n - 10 - 128 - 128 in
      elim (Bool-cases (ltb r 16_384)) [
        | inl three ↦
            let same : file_block v ip n ≡ through v (through v (addr ip 12) (r / 128)) (r % 128) =
              rw (n1, n2, n3, three) in
            let (d, e, keeps) =
              bmap_double-through s slot r alloc good index (λ a z. live a (same ∙ z)) in
            (d, rw (n1, n2, n3, three) e, keeps)
        | inr beyond ↦ (s.dev, rw (n1, n2, n3, beyond), (good, λ m r. refl))
      ]

  -- `bmap`, on a device that keeps its blocks, delivers the number that the inode and its index
  -- blocks hold for a block, 0 where there is none, and changes nothing but the device, whose
  -- blocks hold what they held: without allocation always, with allocation where the block is
  -- there. The index blocks that there are have to be usable.
  pub bmap-file_block :
      (s : Fs D) (slot n : ℕ) (alloc : Bool)
      → S.IsGood s.dev
      → HasIndex (S.view s.dev) (s.inodes slot) (IsUsable S s)
      → (alloc ≡ true → file_block (S.view s.dev) (s.inodes slot) n ≢ 0)
      → Finds s (file_block (S.view s.dev) (s.inodes slot) n) (bmap slot n alloc)
  unfolding bmap bmap_direct
  bmap-file_block s slot n alloc good index live =
      let v = S.view s.dev in
      let ip = s.inodes slot in
      elim (Bool-cases (ltb n 10)) [
        | inl direct ↦
            let same : file_block v ip n ≡ addr ip n = rw direct in
            let kept = no_alloc (addr ip n) alloc (λ a z. live a (same ∙ z)) in
            (s.dev, rw (direct, kept), (good, λ m r. refl))
        | inr n1 ↦ elim (Bool-cases (ltb (n - 10) 128)) [
          | inl one ↦
              let same : file_block v ip n ≡ through v (addr ip 10) (n - 10) = rw (n1, one) in
              let (d, e, keeps) =
                bmap_indirect-through s slot 10 (n - 10) alloc good index.first
                  (λ a z. live a (same ∙ z)) in
              (d, rw (n1, one) e, keeps)
          | inr n2 ↦ elim (Bool-cases (ltb (n - 10 - 128) 128)) [
            | inl two ↦
                let same : file_block v ip n ≡ through v (addr ip 11) (n - 10 - 128) =
                  rw (n1, n2, two) in
                let (d, e, keeps) =
                  bmap_indirect-through s slot 11 (n - 10 - 128) alloc good index.second
                    (λ a z. live a (same ∙ z)) in
                (d, rw (n1, n2, two) e, keeps)
            | inr n3 ↦ bmap_last s slot n alloc good index live n1 n2 n3
          ]
        ]
      ]
