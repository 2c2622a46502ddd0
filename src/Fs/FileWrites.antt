-- ===== src/Fs/FileWrites.antt =====
-- The rounds of the loop of `writei`, fs/src/inode.c, over blocks that the file has, beside the
-- bytes of the file one by one.
use mathlib.Core.Path.{subst}
use cs2310_prj.Base.{
  ℕ, zero, suc, ◌+◌, ◌-◌, ◌*◌, ◌/◌, ◌%◌, ◌<◌, ◌≤◌, ◌≡◌, ◌≢◌, ◌⊎◌, refl, sym, ap, ◌∙◌, Bool, true,
  false, some, List, [], ◌∷◌, arith, if◌then◌else◌, ltb, ◌==◌, Bool-cases, inl, inr, length, take,
  drop, splice, get_or, add32, u32_mod, length-drop, length-take, length-splice,
}
pub mod Loop
use cs2310_prj.Base.Items.{get_or-splice_in, get_or-splice_out, get_or-take, get_or-drop}
use cs2310_prj.Fs.{Device, Fs, Inode, uninit_block}
use cs2310_prj.Fs.Block.{read_block, write_block}
use cs2310_prj.Fs.Bmap.{bmap}
use cs2310_prj.Fs.FileIo.{chunk, write_loop}
use cs2310_prj.Fs.Storage.{IsStorage, IsUsable, Keeps, read_usable, write_usable}
use cs2310_prj.Fs.Mapping.{HasIndex, file_block, bmap-file_block}
use cs2310_prj.Fs.FileBytes.{
  file_byte, Holds, Holds-Keeps, HasIndex-agree, file_block-agree, AreMapped,
}
use cs2310_prj.Fs.FileBlocks.{
  IsApart, with_block, with_block_ne, changed, same_blocks, changed-HasIndex, changed-IsApart,
  changed_here, changed_elsewhere,
}

-- The block of a round, with the bytes that the round writes.
abbrev pub patched : (ℕ → List ℕ) → Inode → ℕ → List ℕ → List ℕ
patched v ip o src =
    splice (o % 512) (take (chunk o (length src)) src) (v (file_block v ip (o / 512)))

-- Every block that is written is one that the device stores.
abbrev pub AreStorable : {D : Device} → IsStorage D → ℕ → (ℕ → List ℕ) → Inode → ℕ → List ℕ → Type 0
AreStorable S zero v ip o src = Unit {0}
AreStorable S (suc fuel) v ip o [] = Unit {0}
AreStorable S (suc fuel) v ip o (c ∷ src) =
    S.Storable (patched v ip o (c ∷ src))
    × AreStorable S fuel v ip (o + chunk o (length (c ∷ src)))
        (drop (chunk o (length (c ∷ src))) (c ∷ src))

-- The contents `w` are those of `v`, but that the file holds the bytes `src` from `o` on.
pub record Wrote (v w : ℕ → List ℕ) (ip : Inode) (o : ℕ) (src : List ℕ) : Type 0 where
  pub blocks : (q : ℕ) → file_block w ip q ≡ file_block v ip q
  pub sizes : (q : ℕ) → length (w (file_block w ip q)) ≡ length (v (file_block v ip q))
  pub within : (p : ℕ) → p < length src → file_byte w ip (o + p) ≡ get_or src p 0
  pub outside : (p : ℕ) → (p < o) ⊎ (o + length src ≤ p) → file_byte w ip p ≡ file_byte v ip p
  pub others : (m : ℕ) → ((q : ℕ) → file_block v ip q ≢ m) → w m ≡ v m

AreStorable-agree :
    {D : Device} (S : IsStorage D) (fuel : ℕ) (v w : ℕ → List ℕ) (ip : Inode) (o : ℕ) (src : List ℕ)
    → (0 < length src → (q : ℕ) → o / 512 ≤ q → w (file_block w ip q) ≡ v (file_block v ip q))
    → AreStorable S fuel v ip o src
    → AreStorable S fuel w ip o src
AreStorable-agree S zero v w ip o src same h = tt
AreStorable-agree S (suc fuel) v w ip o [] same h = tt
AreStorable-agree S (suc fuel) v w ip o (c ∷ src) same h =
    let k = chunk o (length (c ∷ src)) in
    let here = same (omega arith) (o / 512) (omega arith) in
    (
      subst (λ buf. S.Storable (splice (o % 512) (take k (c ∷ src)) buf)) (sym here) h.0,
      AreStorable-agree S fuel v w ip (o + k) (drop k (c ∷ src))
          (λ l q a. same (omega arith) q (omega arith)) h.1,
    )

nothing_written : (v : ℕ → List ℕ) (ip : Inode) (o : ℕ) → Wrote v v ip o []
nothing_written v ip o = record {
  blocks = λ q. refl;
  sizes = λ q. refl;
  within = λ p l. absurd (omega arith);
  outside = λ p a. refl;
  others = λ m ne. refl;
}

-- One round, on a block of the file.
module _ (v : ℕ → List ℕ) (ip : Inode) (o : ℕ) (src : List ℕ) (apart : IsApart v ip)
    (there : file_block v ip (o / 512) ≢ 0)
    (sized : length (v (file_block v ip (o / 512))) ≡ 512) where
  abbrev one_round : ℕ → List ℕ
  one_round = changed v ip (o / 512) (patched v ip o src) apart there

  taken : length (take (chunk o (length src)) src) ≡ chunk o (length src)
  taken = omega (arith, length-take (chunk o (length src)) src)

  byte_within : (p : ℕ) → p < chunk o (length src) → file_byte one_round ip (o + p) ≡ get_or src p 0
  byte_within p h =
      let e : (o + p) / 512 ≡ o / 512 = omega arith in
      let f : (o + p) % 512 ≡ o % 512 + p = omega arith in
      let front = take (chunk o (length src)) src in
      let block = v (file_block v ip (o / 512)) in
      rw (e, f, changed_here v ip (o / 512) (patched v ip o src) apart there)
        (get_or-splice_in (o % 512) front block p (omega (arith, taken)) (omega (arith, sized))
          ∙ get_or-take (chunk o (length src)) src p h)

  byte_outside :
      (p : ℕ)
      → (p < o) ⊎ (o + chunk o (length src) ≤ p)
      → file_byte one_round ip p ≡ file_byte v ip p
  byte_outside p h =
      let x = patched v ip o src in
      elim (Bool-cases (p / 512 == o / 512)) [
        | inr other ↦
            ap (λ b. get_or b (p % 512) 0)
              (changed_elsewhere v ip (o / 512) x apart there (p / 512) (ground arith))
        | inl same ↦
            let e : p / 512 ≡ o / 512 = ground arith in
            let front = take (chunk o (length src)) src in
            let apart_here : (p % 512 < o % 512) ⊎ (o % 512 + length front ≤ p % 512) = elim h [
              | inl a ↦ inl (omega arith)
              | inr b ↦ inr (omega (arith, taken))
            ] in
            rw (e, changed_here v ip (o / 512) x apart there)
              (get_or-splice_out (o % 512) front (v (file_block v ip (o / 512))) (p % 512)
                apart_here)
      ]

  round_sizes :
      (q : ℕ) → length (one_round (file_block one_round ip q)) ≡ length (v (file_block v ip q))
  round_sizes q =
      let x = patched v ip o src in
      elim (Bool-cases (q == o / 512)) [
        | inr other ↦ ap length (changed_elsewhere v ip (o / 512) x apart there q (ground arith))
        | inl same ↦
            let e : q ≡ o / 512 = ground arith in
            let front = take (chunk o (length src)) src in
            ap (λ n. length (one_round (file_block one_round ip n))) e
            ∙ ap length (changed_here v ip (o / 512) x apart there)
            ∙ length-splice (o % 512) front (v (file_block v ip (o / 512)))
            ∙ ap (λ n. length (v (file_block v ip n))) (sym e)
      ]

  -- The first round and the rounds behind it.
  Wrote-round :
      (w : ℕ → List ℕ)
      → Wrote one_round w ip (o + chunk o (length src)) (drop (chunk o (length src)) src)
      → Wrote v w ip o src
  Wrote-round w h =
      let k = chunk o (length src) in
      let x = patched v ip o src in
      let rest = length-drop k src in
      record {
        blocks = λ q. h.blocks q ∙ same_blocks v ip (o / 512) x apart there q;
        sizes = λ q. h.sizes q ∙ round_sizes q;
        within = λ p l. elim (Bool-cases (ltb p k)) [
          | inl front ↦ h.outside (o + p) (inl (ground arith)) ∙ byte_within p (ground arith)
          | inr back ↦
              let e : o + p ≡ o + k + (p - k) = ground arith in
              let f : k + (p - k) ≡ p = ground arith in
              ap (file_byte w ip) e
              ∙ h.within (p - k) (ground (arith, rest))
              ∙ get_or-drop k src (p - k)
              ∙ ap (λ i. get_or src i 0) f
        ];
        outside = λ p a.
            h.outside p (elim a [ inl b ↦ inl (omega arith) | inr b ↦ inr (omega (arith, rest)) ])
            ∙ byte_outside p (elim a [ inl b ↦ inl b | inr b ↦ inr (omega arith) ]);
        others = λ m ne.
            h.others m (λ q e. ne q (sym (same_blocks v ip (o / 512) x apart there q) ∙ e))
            ∙ with_block_ne v (file_block v ip (o / 512)) x m (λ e. ne (o / 512) (sym e));
      }
