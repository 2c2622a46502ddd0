-- ===== src/Fs/FileBlocks.antt =====
-- A file whose blocks are apart, fs/src/inode.c: what a change of one of its blocks makes of it.
use mathlib.Core.Path.{subst}
use cs2310_prj.Base.{
  ℕ, ◌-◌, ◌/◌, ◌%◌, ◌≡◌, ◌≢◌, refl, sym, ap, ◌∙◌, true, false, List, arith, if◌then◌else◌, ltb,
  ◌==◌, Bool-cases, inl, inr,
}
use cs2310_prj.Fs.{Device, Inode}
use cs2310_prj.Fs.FileBytes.{Holds}
use cs2310_prj.Fs.Storage.{IsStorage}
use cs2310_prj.Fs.Bmap.{addr}
use cs2310_prj.Fs.Mapping.{HasIndex, file_block, through}

-- No two blocks of the file are the same, and none is an index block of it.
pub record IsApart (v : ℕ → List ℕ) (ip : Inode) : Type 0 where
  pub blocks : (q q' : ℕ) → file_block v ip q ≢ 0 → file_block v ip q ≡ file_block v ip q' → q ≡ q'
  pub first : (q : ℕ) → file_block v ip q ≢ 0 → addr ip 10 ≢ file_block v ip q
  pub second : (q : ℕ) → file_block v ip q ≢ 0 → addr ip 11 ≢ file_block v ip q
  pub outer : (q : ℕ) → file_block v ip q ≢ 0 → addr ip 12 ≢ file_block v ip q
  pub inner : (q i : ℕ) → file_block v ip q ≢ 0 → through v (addr ip 12) i ≢ file_block v ip q

-- The contents with one block replaced.
abbrev pub with_block : (ℕ → List ℕ) → ℕ → List ℕ → ℕ → List ℕ
with_block v b x m = if m == b then x else v m

pub with_block_ne : (v : ℕ → List ℕ) (b : ℕ) (x : List ℕ) (m : ℕ) → m ≢ b → with_block v b x m ≡ v m
with_block_ne v b x m ne = let e : (m == b) ≡ false = ground arith in rw e

through-with_block :
    (v : ℕ → List ℕ) (b : ℕ) (x : List ℕ) (b' k : ℕ)
    → b' ≢ b
    → through (with_block v b x) b' k ≡ through v b' k
through-with_block v b x b' k ne = rw (with_block_ne v b x b' ne)

-- A block that is no index block of the file.
pub record AvoidsIndex (v : ℕ → List ℕ) (ip : Inode) (b : ℕ) : Type 0 where
  pub first : addr ip 10 ≢ b
  pub second : addr ip 11 ≢ b
  pub outer : addr ip 12 ≢ b
  pub inner : (i : ℕ) → through v (addr ip 12) i ≢ b

-- The file keeps its blocks where such a block is replaced.
module _ (v : ℕ → List ℕ) (ip : Inode) (b : ℕ) (x : List ℕ) (avoids : AvoidsIndex v ip b) where
  pub outer_kept : (i : ℕ) → through (with_block v b x) (addr ip 12) i ≡ through v (addr ip 12) i
  outer_kept i = through-with_block v b x (addr ip 12) i avoids.outer

  pub blocks_kept : (n : ℕ) → file_block (with_block v b x) ip n ≡ file_block v ip n
  blocks_kept n =
      let r = n - 10 - 128 - 128 in
      let one = through-with_block v b x (addr ip 10) (n - 10) avoids.first in
      let two = through-with_block v b x (addr ip 11) (n - 10 - 128) avoids.second in
      let four =
        through-with_block v b x (through v (addr ip 12) (r / 128)) (r % 128)
          (avoids.inner (r / 128)) in
      elim (Bool-cases (ltb n 10)) [
        | inl a ↦ rw a
        | inr a ↦ elim (Bool-cases (ltb (n - 10) 128)) [
          | inl c ↦ rw (a, c) one
          | inr c ↦ elim (Bool-cases (ltb (n - 10 - 128) 128)) [
            | inl d ↦ rw (a, c, d) two
            | inr d ↦ elim (Bool-cases (ltb r 16_384)) [
              | inl e ↦
                  rw (a, c, d, e)
                    (ap (λ w. through (with_block v b x) w (r % 128)) (outer_kept (r / 128)) ∙ four)
              | inr e ↦ rw (a, c, d, e)
            ]
          ]
        ]
      ]

  pub kept-HasIndex : (ok : ℕ → Type 0) → HasIndex v ip ok → HasIndex (with_block v b x) ip ok
  kept-HasIndex ok h = record {
    first = h.first;
    second = h.second;
    outer = h.outer;
    inner = λ i ne. subst ok (sym (outer_kept i)) (h.inner i (λ z. ne (outer_kept i ∙ z)));
  }

module _ (v : ℕ → List ℕ) (ip : Inode) (q : ℕ) (x : List ℕ) (apart : IsApart v ip)
    (there : file_block v ip q ≢ 0) where
  abbrev pub changed : ℕ → List ℕ
  changed = with_block v (file_block v ip q) x

  changed-AvoidsIndex : AvoidsIndex v ip (file_block v ip q)
  changed-AvoidsIndex = record {
    first = apart.first q there;
    second = apart.second q there;
    outer = apart.outer q there;
    inner = λ i. apart.inner q i there;
  }

  outer_same : (i : ℕ) → through changed (addr ip 12) i ≡ through v (addr ip 12) i
  outer_same = outer_kept v ip (file_block v ip q) x changed-AvoidsIndex

  pub same_blocks : (n : ℕ) → file_block changed ip n ≡ file_block v ip n
  same_blocks = blocks_kept v ip (file_block v ip q) x changed-AvoidsIndex

  pub changed-HasIndex : (ok : ℕ → Type 0) → HasIndex v ip ok → HasIndex changed ip ok
  changed-HasIndex = kept-HasIndex v ip (file_block v ip q) x changed-AvoidsIndex

  pub changed-IsApart : IsApart changed ip
  changed-IsApart = record {
    blocks = λ m n ne e.
        apart.blocks m n (λ z. ne (same_blocks m ∙ z)) (sym (same_blocks m) ∙ e ∙ same_blocks n);
    first = λ m ne e. apart.first m (λ z. ne (same_blocks m ∙ z)) (e ∙ same_blocks m);
    second = λ m ne e. apart.second m (λ z. ne (same_blocks m ∙ z)) (e ∙ same_blocks m);
    outer = λ m ne e. apart.outer m (λ z. ne (same_blocks m ∙ z)) (e ∙ same_blocks m);
    inner = λ m i ne e.
        apart.inner m i (λ z. ne (same_blocks m ∙ z)) (sym (outer_same i) ∙ e ∙ same_blocks m);
  }

  pub changed_here : changed (file_block changed ip q) ≡ x
  changed_here =
      let e : (file_block v ip q == file_block v ip q) ≡ true = ground arith in
      ap changed (same_blocks q) ∙ rw e refl

  pub changed_elsewhere :
      (n : ℕ) → n ≢ q → changed (file_block changed ip n) ≡ v (file_block v ip n)
  changed_elsewhere n ne =
      ap changed (same_blocks n)
      ∙ with_block_ne v (file_block v ip q) x (file_block v ip n)
          (λ e. ne (sym (apart.blocks q n there (sym e))))

module _ {D : Device} (S : IsStorage D) where
  -- The device after a write of one block.
  pub Holds-write :
      (d d' : D.State) (v : ℕ → List ℕ) (b : ℕ) (x : List ℕ)
      → Holds S d v
      → S.IsGood d'
      → S.view d' b ≡ x
      → ((m : ℕ) → S.InRange m → b ≢ m → S.view d' m ≡ S.view d m)
      → Holds S d' (with_block v b x)
  Holds-write d d' v b x h good this same = (
    good,
    λ m r. elim (Bool-cases (m == b)) [
      | inl e ↦ let p : m ≡ b = ground arith in rw e (ap (S.view d') p ∙ this)
      | inr e ↦ rw e (same m r (ground arith) ∙ h.1 m r)
    ],
  )
