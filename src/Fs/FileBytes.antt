-- ===== src/Fs/FileBytes.antt =====
-- The loop of `readi`, fs/src/inode.c, beside the bytes of the file one by one.
use mathlib.Core.Path.{subst}
use mathlib.Core.List.{append-nil, append_assoc}
use cs2310_prj.Base.{
  ℕ, zero, suc, ◌+◌, ◌-◌, ◌*◌, ◌/◌, ◌%◌, ◌<◌, ◌≤◌, ◌≡◌, ◌≢◌, refl, sym, ap, ◌∙◌, false, some, List,
  [], ◌∷◌, ◌++◌, arith, ltb, ◌==◌, Bool-cases, inl, inr, length, slice, get_or, add32, u32_mod,
}
use cs2310_prj.Fs.{Device, Fs, Inode, uninit_block}
use cs2310_prj.Fs.Block.{read_block}
use cs2310_prj.Fs.Bmap.{addr, bmap}
use cs2310_prj.Fs.FileIo.{chunk, read_loop}
use cs2310_prj.Fs.Storage.{IsStorage, IsUsable, Keeps, read_usable}
use cs2310_prj.Fs.Mapping.{non_zero, HasIndex, file_block, bmap-file_block, through}

-- The byte of a file at an offset, and `n` bytes from an offset on.
abbrev pub file_byte : (ℕ → List ℕ) → Inode → ℕ → ℕ
file_byte v ip o = get_or (v (file_block v ip (o / 512))) (o % 512) 0

abbrev pub file_bytes : (ℕ → List ℕ) → Inode → ℕ → ℕ → List ℕ
file_bytes v ip o zero = []
file_bytes v ip o (suc n) = file_byte v ip o ∷ file_bytes v ip (o + 1) n

slice-cons :
    (xs : List ℕ) (r k : ℕ)
    → r < length xs
    → slice r (suc k) xs ≡ get_or xs r 0 ∷ slice (r + 1) k xs
slice-cons [] r k h = absurd (omega arith)
slice-cons (x ∷ xs) zero k h = refl
slice-cons (x ∷ xs) (suc r) k h =
    let e : suc r + 1 ≡ suc (r + 1) = omega arith in rw e (slice-cons xs r k (omega (arith, h)))

file_bytes-append :
    (v : ℕ → List ℕ) (ip : Inode) (o k m : ℕ)
    → file_bytes v ip o (k + m) ≡ file_bytes v ip o k ++ file_bytes v ip (o + k) m
file_bytes-append v ip o zero m =
    let e : 0 + m ≡ m = omega arith in let f : o + 0 ≡ o = omega arith in rw (e, f)
file_bytes-append v ip o (suc k) m =
    let e : suc k + m ≡ suc (k + m) = omega arith in
    let f : o + suc k ≡ o + 1 + k = omega arith in rw (e, f, file_bytes-append v ip (o + 1) k m)

-- Within one block.
file_bytes-slice :
    (v : ℕ → List ℕ) (ip : Inode) (q r k : ℕ)
    → r + k ≤ 512
    → length (v (file_block v ip q)) ≡ 512
    → file_bytes v ip (q * 512 + r) k ≡ slice r k (v (file_block v ip q))
file_bytes-slice v ip q r zero h l = refl
file_bytes-slice v ip q r (suc k) h l =
    let e : (q * 512 + r) / 512 ≡ q = omega arith in
    let f : (q * 512 + r) % 512 ≡ r = omega arith in
    let g : q * 512 + r + 1 ≡ q * 512 + (r + 1) = omega arith in
    rw (e, f, g, file_bytes-slice v ip q (r + 1) k (omega arith) l)
      (sym (slice-cons (v (file_block v ip q)) r k (omega (arith, l))))

-- The bytes of one round, and those behind it.
file_bytes-chunk :
    (v : ℕ → List ℕ) (ip : Inode) (o left : ℕ)
    → length (v (file_block v ip (o / 512))) ≡ 512
    → slice (o % 512) (chunk o left) (v (file_block v ip (o / 512)))
        ++ file_bytes v ip (o + chunk o left) (left - chunk o left)
      ≡ file_bytes v ip o left
file_bytes-chunk v ip o left l =
    let k = chunk o left in
    let at_byte : o / 512 * 512 + o % 512 ≡ o = omega arith in
    let all : k + (left - k) ≡ left = omega arith in
    let here = file_bytes-slice v ip (o / 512) (o % 512) k (omega arith) l in
    ap (λ xs. xs ++ file_bytes v ip (o + k) (left - k))
      (sym here ∙ ap (λ p. file_bytes v ip p k) at_byte)
    ∙ sym (file_bytes-append v ip o k (left - k))
    ∙ ap (file_bytes v ip o) all

module _ {D : Device} (S : IsStorage D) where
  -- A device that holds the contents `v`.
  abbrev pub Holds : D.State → (ℕ → List ℕ) → Type 0
  Holds d v = S.IsGood d × ((m : ℕ) → S.InRange m → S.view d m ≡ v m)

  pub Holds-Keeps : (d d' : D.State) (v : ℕ → List ℕ) → Holds d v → Keeps S d d' → Holds d' v
  Holds-Keeps d d' v h k = (k.0, λ m r. k.1 m r ∙ h.1 m r)

  through-agree :
      (d : D.State) (v : ℕ → List ℕ) (b k : ℕ)
      → Holds d v
      → (b ≢ 0 → S.InRange b)
      → through (S.view d) b k ≡ through v b k
  through-agree d v b k h r = elim (Bool-cases (b == 0)) [
    | inl none_there ↦ rw none_there
    | inr there ↦ let e = h.1 b (r (non_zero b there)) in rw (there, e)
  ]

  pub HasIndex-agree :
      (s : Fs D) (v : ℕ → List ℕ) (ip : Inode)
      → Holds s.dev v
      → HasIndex v ip (IsUsable S s)
      → HasIndex (S.view s.dev) ip (IsUsable S s)
  HasIndex-agree s v ip h x =
      let same : (i : ℕ) → through (S.view s.dev) (addr ip 12) i ≡ through v (addr ip 12) i =
        λ i. through-agree s.dev v (addr ip 12) i h (λ ne. (x.outer ne).0) in
      record {
        first = x.first;
        second = x.second;
        outer = x.outer;
        inner = λ i ne. subst (IsUsable S s) (sym (same i)) (x.inner i (λ z. ne (same i ∙ z)));
      }

  pub file_block-agree :
      (s : Fs D) (v : ℕ → List ℕ) (ip : Inode) (n : ℕ)
      → Holds s.dev v
      → HasIndex v ip (IsUsable S s)
      → file_block (S.view s.dev) ip n ≡ file_block v ip n
  file_block-agree s v ip n h x =
      let r = n - 10 - 128 - 128 in
      let one = through-agree s.dev v (addr ip 10) (n - 10) h (λ ne. (x.first ne).0) in
      let two = through-agree s.dev v (addr ip 11) (n - 10 - 128) h (λ ne. (x.second ne).0) in
      let three = through-agree s.dev v (addr ip 12) (r / 128) h (λ ne. (x.outer ne).0) in
      let four =
        through-agree s.dev v (through v (addr ip 12) (r / 128)) (r % 128) h
          (λ ne. (x.inner (r / 128) ne).0) in
      elim (Bool-cases (ltb n 10)) [
        | inl a ↦ rw a
        | inr a ↦ elim (Bool-cases (ltb (n - 10) 128)) [
          | inl b ↦ rw (a, b) one
          | inr b ↦ elim (Bool-cases (ltb (n - 10 - 128) 128)) [
            | inl c ↦ rw (a, b, c) two
            | inr c ↦ elim (Bool-cases (ltb r 16_384)) [
              | inl d ↦ rw (a, b, c, d) (ap (λ w. through (S.view s.dev) w (r % 128)) three ∙ four)
              | inr d ↦ rw (a, b, c, d)
            ]
          ]
        ]
      ]

  -- The blocks of the bytes from `o` to `o + n` are there, and may be read.
  abbrev pub AreMapped : Fs D → (ℕ → List ℕ) → Inode → ℕ → ℕ → Type 0
  AreMapped s v ip o n =
      (q : ℕ)
      → o / 512 ≤ q
      → q * 512 < o + n
      → (file_block v ip q ≢ 0)
        × IsUsable S s (file_block v ip q)
        × (length (v (file_block v ip q)) ≡ 512)

  read_round :
      (fuel slot o left : ℕ) (got : List ℕ) (s : Fs D) (blk : ℕ) (buf : List ℕ) (d1 d2 : D.State)
      → (left == 0) ≡ false
      → bmap slot (o / 512) false s ≡ some (blk, record s { dev = d1 })
      → (blk == 0) ≡ false
      → read_block blk uninit_block (record s { dev = d1 }) ≡ some (buf, record s { dev = d2 })
      → add32 o (chunk o left) ≡ o + chunk o left
      → read_loop (suc fuel) slot o left got s
        ≡ read_loop fuel slot
            (o + chunk o left)
            (left - chunk o left)
            (got ++ slice (o % 512) (chunk o left) buf)
            (record s { dev = d2 })
  unfolding read_loop
  read_round fuel slot o left got s blk buf d1 d2 more e1 nz e2 next = rw (more, e1, nz, e2, next)

  -- On a device that keeps its blocks, for a file whose blocks over a range are there, lie within
  -- the file system and hold 512 bytes each, and whose index blocks may be read: the loop of
  -- `readi` over the range delivers the bytes of the file, which are those that its block map and
  -- the contents of the blocks define one by one, and the blocks hold what they held.
  pub read_loop-file_bytes :
      (fuel slot o left : ℕ) (got : List ℕ) (s : Fs D) (v : ℕ → List ℕ)
      → left ≤ fuel
      → o + left < u32_mod
      → Holds s.dev v
      → HasIndex v (s.inodes slot) (IsUsable S s)
      → AreMapped s v (s.inodes slot) o left
      → (d : D.State) × (read_loop fuel slot o left got s
          ≡ some (got ++ file_bytes v (s.inodes slot) o left, record s { dev = d }))
        × Holds d v
  unfolding read_loop
  read_loop-file_bytes zero slot o left got s v f small h x mapped =
      let e : left ≡ 0 = omega arith in (s.dev, rw (e, append-nil got), h)
  read_loop-file_bytes (suc fuel) slot o left got s v f small h x mapped =
      elim (Bool-cases (left == 0)) [
        | inl done ↦ let e : left ≡ 0 = ground arith in (s.dev, rw (e, append-nil got), h)
        | inr more ↦
            let ip = s.inodes slot in
            let blk = file_block v ip (o / 512) in
            let k = chunk o left in
            let (d1, e1, k1) =
              bmap-file_block S s slot (o / 512) false h.0 (HasIndex-agree s v ip h x)
                (λ a. absurd (cc)) in
            let found : file_block (S.view s.dev) ip (o / 512) ≡ blk =
              file_block-agree s v ip (o / 512) h x in
            let h1 = Holds-Keeps s.dev d1 v h k1 in
            let (there, usable, sized) = mapped (o / 512) (omega arith) (ground arith) in
            let t1 = record s { dev = d1 } in
            let (d2, e2, k2) = read_usable S t1 blk usable uninit_block h1.0 in
            let h2 = Holds-Keeps d1 d2 v h1 k2 in
            let nz : (blk == 0) ≡ false = ground arith in
            let next : add32 o k ≡ o + k = omega arith in
            let bytes : S.view d1 blk ≡ v blk = h1.1 blk usable.0 in
            let round =
              read_round fuel slot o left got s blk (v blk) d1 d2 (ground arith)
                (e1 ∙ ap (λ b. some (b, t1)) found) nz
                (e2 ∙ ap (λ y. some (y, record s { dev = d2 })) bytes) next in
            let (d3, e3, h3) =
              read_loop-file_bytes fuel slot (o + k) (left - k) (got ++ slice (o % 512) k (v blk))
                (record s { dev = d2 }) v (ground arith) (omega arith) h2 x
                (λ q a b. mapped q (omega arith) (omega arith)) in
            let joined =
              append_assoc got (slice (o % 512) k (v blk)) (file_bytes v ip (o + k) (left - k))
              ∙ ap (λ t. got ++ t) (file_bytes-chunk v ip o left sized) in
            (d3, round ∙ e3 ∙ ap (λ t. some (t, record s { dev = d3 })) joined, h3)
      ]
