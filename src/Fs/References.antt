-- ===== src/Fs/References.antt =====
-- The reference counts of the inode cache, fs/src/inode.c.
use cs2310_prj.Base.{
  ℕ, zero, suc, ◌+◌, ◌-◌, ◌*◌, ◌%◌, ◌<◌, ◌≡◌, refl, sym, ap, true, false, some, arith, leb, ◌==◌,
  Bool-cases, inl, inr, u32_mod, add32,
}
use cs2310_prj.Cache.Links.{update}
use cs2310_prj.Fs.{Device, Inode, Fs, ◌>>=◌}
use cs2310_prj.Fs.Inodes.{ninodes, ipb, slot_from, iget, iput, add_reference}

slot_from-found :
    (n i inum : ℕ) (inodes : ℕ → Inode) (k : ℕ)
    → slot_from n i inum inodes ≡ some k
    → (k < i + n) × ((inodes k).inum ≡ inum)
unfolding slot_from
slot_from-found zero i inum inodes k e = absurd (cc)
slot_from-found (suc n) i inum inodes k e = elim (Bool-cases ((inodes i).inum == inum)) [
  | inl hit ↦ ground arith
  | inr miss ↦ ground (arith, slot_from-found n (i + 1) inum inodes k)
]

update_twice : (f : ℕ → Inode) (i : ℕ) (a : Inode) (k : ℕ) → update (update f i a) i (f i) k ≡ f k
update_twice f i a k = elim (Bool-cases (k == i)) [
  | inl e ↦ let q : k ≡ i = ground arith in rw (e) (ap f (sym q))
  | inr e ↦ rw e refl
]

module _ {D : Device} where
  -- The state with `n` references on the inode in slot `i`.
  abbrev pub with_references : ℕ → ℕ → Fs D → Fs D
  with_references i n s = record s {
    inodes = update s.inodes i (record (s.inodes i) { reference_count = n });
  }

  -- `iget` of an inode that is in the cache, with a number below the number of inodes, delivers its
  -- slot, which is one of the 20 and holds the number asked for, with one reference more, and
  -- touches neither the disk nor another slot.
  pub iget-cached :
      (inum i : ℕ) (s : Fs D)
      → inum < s.sb.ninode_blocks * ipb % u32_mod
      → slot_from ninodes 0 inum s.inodes ≡ some i
      → (i < ninodes)
        × ((s.inodes i).inum ≡ inum)
        × (iget inum s ≡ some (some i, with_references i (add32 (s.inodes i).reference_count 1) s))
  unfolding iget add_reference
  iget-cached inum i s l e =
      let f = slot_from-found ninodes 0 inum s.inodes i e in
      let b : leb (s.sb.ninode_blocks * ipb % u32_mod) inum ≡ false = ground arith in
      (omega (arith, f), f.1, rw (b, e) refl)

  iput-one :
      (i : ℕ) (s : Fs D)
      → 0 < (s.inodes i).reference_count
      → iput (some i) (with_references i (suc (s.inodes i).reference_count) s) ≡ some (tt, s)
  unfolding iput
  iput-one i s p =
      let self : (i == i) ≡ true = ground arith in
      let more : ((s.inodes i).reference_count == 0) ≡ false = ground arith in
      let less : suc (s.inodes i).reference_count - 1 ≡ (s.inodes i).reference_count =
        omega arith in
      rw (self, less, more)
        (λ j. some (
          tt,
          record s {
            inodes = λ k.
                update_twice s.inodes i
                  (record (s.inodes i) { reference_count = suc (s.inodes i).reference_count }) k j;
          },
        ))

  -- An inode that is in the cache with at least one reference, and is taken by `iget` and given
  -- back by `iput`, leaves the whole state as it was: no transfer takes place, and no slot changes.
  pub iget-iput :
      (inum i : ℕ) (s : Fs D)
      → inum < s.sb.ninode_blocks * ipb % u32_mod
      → slot_from ninodes 0 inum s.inodes ≡ some i
      → 0 < (s.inodes i).reference_count
      → (s.inodes i).reference_count + 1 < u32_mod
      → (iget inum >>= iput) s ≡ some (tt, s)
  iget-iput inum i s l e p h =
      let taken = (iget-cached inum i s l e).2 in
      let n : add32 (s.inodes i).reference_count 1 ≡ suc (s.inodes i).reference_count =
        omega arith in
      rw (taken, n) (iput-one i s p)
