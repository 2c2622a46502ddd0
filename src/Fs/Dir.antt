-- ===== src/Fs/Dir.antt =====
-- fs/src/dirop.c: a directory is a file of entries of 36 bytes.
use cs2310_prj.Base.{
  ℕ, zero, suc, ◌+◌, ◌-◌, ◌*◌, ◌/◌, Bool, true, false, not, ◌&&◌, Option, none, some, List, [], ◌∷◌,
  ◌++◌, if◌then◌else◌, leb, ◌==◌, take, slice, splice, replicate, length, le32, le16, from_le32,
  from_le16,
}
use cs2310_prj.Base.Text.{c_str, str_eq}
use cs2310_prj.Fs.{Device, Fs, M, ◌>>=◌, pure, get_inode}
use cs2310_prj.Fs.Inodes.{iget, t_dir}
use cs2310_prj.Fs.FileIo.{readi, writei}

abbrev pub maxname : ℕ
maxname = 26

-- sizeof(entry): a short, two bytes of padding, a word, the name and two bytes of padding.
abbrev pub entry_size : ℕ
entry_size = 36

-- The array `name` of an entry, with what stands behind its terminating zero byte.
pub record DirEntry : Type 0 where
  pub type : ℕ
  pub inum : ℕ
  pub name : List ℕ

unfoldable pub encode_entry : DirEntry → List ℕ
encode_entry e =
    le16 e.type
    ++ (0 ∷ 0 ∷ (le32 e.inum ++ (e.name ++ (replicate (maxname + 2 - length e.name) 0))))

unfoldable pub decode_entry : List ℕ → DirEntry
decode_entry d = record {
  type = from_le16 (slice 0 2 d);
  inum = from_le32 (slice 4 4 d);
  name = slice 8 maxname d;
}

-- strncmp(a, b, MAXNAME) == 0
abbrev pub same_name : List ℕ → List ℕ → Bool
same_name a b = str_eq (c_str (take maxname a)) (c_str (take maxname b))

-- strncpy(tmp.name, name, MAXNAME - 1) into a zeroed array.
unfoldable pub entry_name : List ℕ → List ℕ
entry_name name =
    let kept = take (maxname - 1) (c_str name) in kept ++ replicate (maxname - length kept) 0

-- ".", ".." and "/"
abbrev pub dot : List ℕ
dot = b'.' ∷ []

abbrev pub dot_dot : List ℕ
dot_dot = b'.' ∷ b'.' ∷ []

abbrev pub slash : List ℕ
slash = b'/' ∷ []

abbrev pub e_success : ℕ
e_success = 0

abbrev pub e_error : ℕ
e_error = 1

-- The entries of a directory of `size` bytes: the loop `for (off = 0; off < size; off += 36)`.
abbrev pub rounds : ℕ → ℕ
rounds size = (size + entry_size - 1) / entry_size

-- The tests of the four loops.
abbrev pub is_reusable : DirEntry → Bool
is_reusable e = e.inum == 0 && (not (e.type == t_dir) && same_name e.name slash)

abbrev pub is_skipped : DirEntry → Bool
is_skipped e = e.inum == 0 && (not (same_name e.name dot_dot) && not (e.type == t_dir))

abbrev pub is_wanted : List ℕ → ℕ → DirEntry → Bool
is_wanted name type e = not (is_skipped e) && (same_name e.name name && e.type == type)

abbrev pub is_removable : List ℕ → ℕ → DirEntry → Bool
is_removable name type e = not (e.inum == 0) && (same_name e.name name && e.type == type)

abbrev pub is_content : DirEntry → Bool
is_content e = not (e.inum == 0) && (not (same_name e.name dot) && not (same_name e.name dot_dot))

-- The offset for a new entry: that of a reusable one, or the first behind the last.
abbrev pub free_offset : ℕ → Option (ℕ × DirEntry) → ℕ
free_offset size (some (off, e)) = off
free_offset size none = rounds size * entry_size

abbrev pub is_none {ℓ} : {A : Type ℓ} → Option A → Bool
is_none none = true
is_none (some _) = false

module _ {D : Device} where
  -- `readi` into the buffer `tmp`, which keeps the bytes that the read does not reach.
  unfoldable pub read_entry : ℕ → ℕ → List ℕ → M (Fs D) (List ℕ)
  read_entry slot off tmp = do (r, got) ← readi slot off entry_size; pure (splice 0 got tmp)

  -- The first entry from `off` on that passes a test, and its offset. Each entry read goes through
  -- `readi`, with its effect on the inode.
  unfoldable pub find_entry :
      ℕ → (DirEntry → Bool) → ℕ → ℕ → List ℕ → M (Fs D) (Option (ℕ × DirEntry))
  find_entry zero test slot off tmp = pure none
  find_entry (suc n) test slot off tmp = do
    ip ← get_inode slot
    if leb ip.size off then pure none else (do
      tmp' ← read_entry slot off tmp
      if test (decode_entry tmp')
          then pure (some (off, decode_entry tmp'))
          else find_entry n test slot (off + entry_size) tmp')

  abbrev pub search_entry : ℕ → (DirEntry → Bool) → M (Fs D) (Option (ℕ × DirEntry))
  search_entry slot test = do
    ip ← get_inode slot
    find_entry (rounds ip.size) test slot 0 (replicate entry_size 0)

  unfoldable pub dir_add : ℕ → List ℕ → ℕ → ℕ → M (Fs D) ℕ
  dir_add slot name type inum = do
    ip ← get_inode slot
    if not (ip.type == t_dir) then pure e_error else (do
      found ← search_entry slot is_reusable
      written ←
          writei slot (encode_entry (record { type = type; inum = inum; name = entry_name name }))
            (free_offset ip.size found)
      pure e_success)

  abbrev pub get_found : Option (ℕ × DirEntry) → M (Fs D) (Option ℕ)
  get_found none = pure none
  get_found (some (off, e)) = iget e.inum

  -- `none` is a null pointer, as the argument and as the result.
  unfoldable pub dir_lookup : Option ℕ → List ℕ → ℕ → M (Fs D) (Option ℕ)
  dir_lookup none name type = pure none
  dir_lookup (some slot) name type = do
    ip ← get_inode slot
    if not (ip.type == t_dir)
        then pure none
        else (do found ← search_entry slot (is_wanted name type); get_found found)

  abbrev pub erase_found : ℕ → Option (ℕ × DirEntry) → M (Fs D) ℕ
  erase_found slot none = pure e_error
  erase_found slot (some (off, e)) = do
    written ← writei slot (replicate entry_size 0) off
    pure e_success

  unfoldable pub dir_remove : Option ℕ → List ℕ → ℕ → M (Fs D) ℕ
  dir_remove none name type = pure e_error
  dir_remove (some slot) name type = do
    ip ← get_inode slot
    if not (ip.type == t_dir)
        then pure e_error
        else (do found ← search_entry slot (is_removable name type); erase_found slot found)

  unfoldable pub dir_is_empty : ℕ → M (Fs D) Bool
  dir_is_empty slot = do
    ip ← get_inode slot
    if not (ip.type == t_dir)
        then pure false
        else (do found ← search_entry slot is_content; pure (is_none found))
