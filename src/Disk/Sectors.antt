-- ===== src/Disk/Sectors.antt =====
-- Reads and writes of disk/src/disk.c against the image: what a write stores, what it leaves alone.
use cs2310_prj.Base.{
  [], take-length, ℕ, ◌+◌, ◌-◌, ◌*◌, ◌≤◌, ◌<◌, ◌≡◌, ◌≢◌, ◌⊎◌, inl, inr, refl, sym, ap, ◌∙◌, false,
  List, ◌++◌, arith, length, replicate, slice, splice, length-append, length-replicate,
  length-splice, slice-splice_self, slice-splice_before, slice-splice_after, splice-splice_behind,
  ℤ, pos, negsuc,
}
use cs2310_prj.Disk.{
  Disk, block_size, file_size, init_disk, out_of_disk, offset, success, fault, cmd_r, copy_in,
  cmd_w,
}

-- The image has a byte for each place of each sector.
abbrev pub IsValid : Disk → Type 0
IsValid d = length d.image ≡ file_size d.ncyl d.nsec

-- A sector that exists.
abbrev pub InRange : Disk → ℕ → ℕ → Type 0
InRange d c s = (c < d.ncyl) × (s < d.nsec)

-- The block that a write stores: its text, filled up with zeros.
abbrev pub padded : List ℕ → List ℕ
padded text = text ++ replicate (block_size - length text) 0

pub in_disk : (d : Disk) (c s : ℕ) → InRange d c s → out_of_disk d (pos c) (pos s) ≡ false
unfolding out_of_disk
in_disk d c s h = ground arith

-- Rows of `n` sectors: the places of two sectors that differ are a whole block apart.
sector_end : (n m c s : ℕ) → c < m → s < n → c * n + s + 1 ≤ m * n
sector_end n m c s p q = grind arith

pub offset_bound :
    (d : Disk) (c s : ℕ) → IsValid d → InRange d c s → offset d c s + block_size ≤ length d.image
offset_bound d c s v h = omega (arith, v, sector_end d.nsec d.ncyl c s h.0 h.1)

rows : (a b n : ℕ) → a ≤ b → a * n ≤ b * n
rows a b n h = grind arith

sector_apart :
    (n c s c' s' : ℕ)
    → s < n
    → s' < n
    → (c ≢ c') ⊎ (s ≢ s')
    → (c * n + s + 1 ≤ c' * n + s') ⊎ (c' * n + s' + 1 ≤ c * n + s)
sector_apart n c s c' s' p q h = ground (arith, rows (c + 1) c' n, rows (c' + 1) c n)

-- What `copy_in` stores is one splice of the padded block.
image-copy_in :
    (d : Disk) (at_byte : ℕ) (text : List ℕ)
    → (copy_in d at_byte (length text) text).image ≡ splice at_byte (padded text) d.image
unfolding copy_in
image-copy_in d at_byte text = rw (take-length text (length text) refl) (
    splice-splice_behind at_byte (at_byte + length text) text
      (replicate (block_size - length text) 0) d.image refl)

length-padded : (text : List ℕ) → length text ≤ block_size → length (padded text) ≡ block_size
length-padded text h = omega (
  arith,
  length-append text (replicate (block_size - length text) 0),
  length-replicate {A = ℕ} (block_size - length text) 0,
)

module _ (d : Disk) (c s : ℕ) (text : List ℕ) (v : IsValid d) (r : InRange d c s)
    (short : length text ≤ block_size) where
  abbrev written : Disk
  written = copy_in d (offset d c s) (length text) text

  length-written : length written.image ≡ length d.image
  length-written =
      ap length (image-copy_in d (offset d c s) text)
      ∙ length-splice (offset d c s) (padded text) d.image

  -- On a valid disk, a write to a sector that exists, of at most 512 bytes, succeeds; the disk
  -- keeps its geometry and the size of its image; and a read of that sector gives the text filled
  -- up with zeros.
  pub cmd_r-cmd_w :
      (cmd_w d (pos c) (pos s) (pos (length text)) text ≡ success written)
      × IsValid written
      × (cmd_r written (pos c) (pos s) ≡ success (padded text))
  unfolding cmd_w cmd_r
  cmd_r-cmd_w = (
    rw (in_disk d c s r) (ground arith),
    length-written ∙ v,
    rw (in_disk written c s r, image-copy_in d (offset d c s) text)
        (ap success (
          slice-splice_self (offset d c s) (padded text) d.image block_size
            (sym (length-padded text short)) (offset_bound d c s v r))),
  )

  in_written : (c' s' : ℕ) → InRange d c' s' → out_of_disk written (pos c') (pos s') ≡ false
  unfolding copy_in
  in_written c' s' r' = in_disk written c' s' r'

  offset-written : (c' s' : ℕ) → offset written c' s' ≡ offset d c' s'
  unfolding copy_in
  offset-written c' s' = refl

  -- On a valid disk, a write to a sector that exists, of at most 512 bytes, leaves what a read of
  -- any other sector that exists delivers as it was.
  pub cmd_r-cmd_w_ne :
      (c' s' : ℕ)
      → InRange d c' s'
      → (c ≢ c') ⊎ (s ≢ s')
      → cmd_r written (pos c') (pos s') ≡ cmd_r d (pos c') (pos s')
  unfolding cmd_r
  cmd_r-cmd_w_ne c' s' r' ne =
      rw
        (
          in_written c' s' r',
          offset-written c' s',
          in_disk d c' s' r',
          image-copy_in d (offset d c s) text,
        )
        (ap success (apart (sector_apart d.nsec c s c' s' r.1 r'.1 ne)))
    where
      apart :
          (c * d.nsec + s + 1 ≤ c' * d.nsec + s') ⊎ (c' * d.nsec + s' + 1 ≤ c * d.nsec + s)
          → slice (offset d c' s') block_size (splice (offset d c s) (padded text) d.image)
            ≡ slice (offset d c' s') block_size d.image
      apart (inl before) =
          slice-splice_after (offset d c s) (padded text) d.image (offset d c' s') block_size
            (omega (arith, length-padded text short))
      apart (inr after) =
          slice-splice_before (offset d c s) (padded text) d.image (offset d c' s') block_size
            (omega arith)

-- A sector of the disk, its cylinder and number given as `int`s.
abbrev pub IsSector : Disk → ℤ → ℤ → Type 0
IsSector d (pos c) (pos s) = InRange d c s
IsSector d (pos c) (negsuc s) = ⊥
IsSector d (negsuc c) sec = ⊥

-- A write of a negative length to a sector that exists passes the guards, and reaches `memcpy` with
-- a huge length: a fault.
pub cmd_w_negative :
    (d : Disk) (c s n : ℕ) (text : List ℕ)
    → InRange d c s
    → cmd_w d (pos c) (pos s) (negsuc n) text ≡ fault
unfolding cmd_w
cmd_w_negative d c s n text r = rw (in_disk d c s r)

pub init_disk-IsValid : (ncyl nsec : ℕ) → IsValid (init_disk [] ncyl nsec)
unfolding init_disk
init_disk-IsValid ncyl nsec = length-replicate {A = ℕ} (file_size ncyl nsec) 0
