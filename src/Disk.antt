-- ===== src/Disk.antt =====
-- disk/src/disk.c: the disk image, addressed by cylinder and sector.
-- `mmap`, `open` and the like are the system's. `init_disk` is modelled from the point where the
-- file's bytes are at hand.
pub mod Sectors
use cs2310_prj.Base.{
  ℕ, ◌+◌, ◌*◌, Bool, ◌||◌, Option, none, some, List, ◌++◌, if◌then◌else◌, not, take, replicate,
  slice, splice, ℤ, pos, negsuc, is_neg, to_nat, ltb_ℤ, ltb, length, ◌-◌,
}

abbrev pub block_size : ℕ
block_size = 512

-- The globals `_ncyl`, `_nsec` and `_data`.
pub record Disk : Type 0 where
  pub ncyl : ℕ
  pub nsec : ℕ
  pub image : List ℕ

abbrev pub file_size : ℕ → ℕ → ℕ
file_size ncyl nsec = ncyl * nsec * block_size

-- An empty file is stretched by zero bytes to the size of the disk. A file that is shorter than the
-- disk and not empty is mapped as it stands.
unfoldable pub init_disk : List ℕ → ℕ → ℕ → Disk
init_disk file ncyl nsec = record {
  ncyl = ncyl;
  nsec = nsec;
  image = if ltb 0 (length file) then file else replicate (file_size ncyl nsec) 0;
}

abbrev pub cmd_i : Disk → ℕ × ℕ
cmd_i d = (d.ncyl, d.nsec)

-- The guard of both commands.
unfoldable pub out_of_disk : Disk → ℤ → ℤ → Bool
out_of_disk d cyl sec =
    not (ltb_ℤ cyl (pos d.ncyl)) || not (ltb_ℤ sec (pos d.nsec)) || is_neg cyl || is_neg sec

abbrev pub offset : Disk → ℕ → ℕ → ℕ
offset d cyl sec = cyl * d.nsec * block_size + sec * block_size

-- What a command returns: `invalid` is the code 1. `fault` is where the command reads
-- outside the text that it was given, so that what it does depends on memory that the model does
-- not have: a negative length, which passes the guard of `cmd_w` and reaches `memcpy` as a huge
-- size, and a length that goes beyond the end of the text.
pub data Outcome {ℓ} (A : Type ℓ) : Type ℓ where
  success : A → Outcome A
  invalid : Outcome A
  fault : Outcome A

unfoldable pub cmd_r : Disk → ℤ → ℤ → Outcome (List ℕ)
unfolding out_of_disk
cmd_r d cyl sec =
    if out_of_disk d cyl sec
    then invalid
    else success (slice (offset d (to_nat cyl) (to_nat sec)) block_size d.image)

-- `len` bytes of `text`, which has as many, are copied, and the rest of the block is filled with zeros.
unfoldable pub copy_in : Disk → ℕ → ℕ → List ℕ → Disk
copy_in d at_byte len text = record d {
  image =
      splice (at_byte + len) (replicate (block_size - len) 0)
        (splice at_byte (take len text) d.image);
}

unfoldable pub cmd_w : Disk → ℤ → ℤ → ℤ → List ℕ → Outcome Disk
unfolding out_of_disk copy_in
cmd_w d cyl sec (negsuc _) text = if out_of_disk d cyl sec then invalid else fault
cmd_w d cyl sec (pos len) text =
    if out_of_disk d cyl sec
    then invalid
    else (if ltb block_size len
        then invalid
        else (if ltb (length text) len
            then fault
            else success (copy_in d (offset d (to_nat cyl) (to_nat sec)) len text)))
