-- ===== src/Cache/OnDisk.antt =====
-- The disk server of disk/src/server.c behind the cache of fs/src/cache.c: the requests that one
-- sends are those that the other understands.
use mathlib.Core.List.{append-nil}
use native.Mathlib.Nat.{div-add-mod}
use cs2310_prj.Base.{
  int_max, ◌-◌, ℕ, ◌+◌, ◌*◌, ◌/◌, ◌%◌, ◌≤◌, ◌<◌, ◌≡◌, ◌≢◌, ◌⊎◌, inl, inr, refl, sym, ap, ◌∙◌, Bool,
  true, false, Option, none, some, List, [], ◌∷◌, ◌++◌, arith, length, slice, replicate, drop, ltb,
  ℤ, pos, length-append, length-take, length-drop, length-replicate, take-append, take-length,
  Bool-cases, ◌==◌,
}
use cs2310_prj.Base.Text.{is_space, skip_space, str_eq}
use cs2310_prj.TcpBuffer.{
  TcpBuffer, init_buffer, tcp_buf_size, buffer_append, buffer_next, reply_with_yes, yes_prefix,
}
use cs2310_prj.TcpBuffer.Frames
use cs2310_prj.TcpBuffer.Frames.{
  queued, Fits, buffer_next-buffer_append, reply_with_yes-buffer_append,
}
use cs2310_prj.Disk.{Disk, block_size, offset, success, cmd_r, cmd_w, copy_in}
use cs2310_prj.Disk.Sectors
use cs2310_prj.Disk.Sectors.{InRange, padded, cmd_r-cmd_w, cmd_r-cmd_w_ne, in_disk, offset_bound}
use cs2310_prj.DiskServer.{Served, served, crash, on_recv}
use cs2310_prj.DiskServer.Requests.{AreInts, on_recv-request_r, on_recv-request_w}
use cs2310_prj.Cache.Contents.{IsBlockServer}
use cs2310_prj.Cache.Wire.{
  Transport, Link, queue_reply, fetch_request, push_request, request, receive_block, receive_ack,
  fetch_block_from_server, push_block_to_server, wire_backend,
}

-- The server's write buffer between two messages.
pub idle : TcpBuffer
idle = init_buffer (replicate tcp_buf_size 0)

idle-IsValid : Frames.IsValid idle × (queued idle ≡ [])
unfolding idle init_buffer queued
idle-IsValid = (
  record {
    ordered = omega arith;
    within = omega arith;
    sized = length-replicate {A = ℕ} tcp_buf_size 0;
  },
  refl,
)

abbrev pub answer : Disk → Served → Disk × Option (List ℕ)
answer d (served d' wb code) = (d', (buffer_next wb).1)
answer d crash = (d, none)

-- One request to the disk server, over a socket that loses nothing.
abbrev pub disk_transport : Transport
disk_transport = record { Server = Disk; exchange = λ msg d. answer d (on_recv d idle msg) }

next-reply_with_yes :
    (s : List ℕ)
    → length s ≤ block_size
    → (buffer_next (reply_with_yes idle s (pos (length s)))).1 ≡ some (yes_prefix ++ s)
next-reply_with_yes s short =
    let e : length s + 4 ≡ length (yes_prefix ++ s) = omega (arith, length-append yes_prefix s) in
    ap (λ b. (buffer_next b).1)
      (reply_with_yes-buffer_append idle s
        ∙ ap (λ n. buffer_append idle (yes_prefix ++ s) (pos n)) e)
    ∙ ap (λ (r : ℤ × Option (List ℕ)). r.1)
        (buffer_next-buffer_append idle (yes_prefix ++ s) idle-IsValid.0 idle-IsValid.1
          (fits (length-append yes_prefix s))).0
  where
    fits : length (yes_prefix ++ s) ≡ 4 + length s → Fits idle (length (yes_prefix ++ s))
    fits e = unfold idle init_buffer in omega arith

module _ (ncyl nsec : ℕ) where
  -- The disk has the geometry that the file system was told, in two `int`s, and no reply is left
  -- over.
  pub record IsGood (l : Link Disk) : Type 0 where
    pub disk : Sectors.IsValid l.server
    pub cylinders : l.server.ncyl ≡ ncyl
    pub sectors : l.server.nsec ≡ nsec
    pub idle : l.pending ≡ []
    pub ints : (ncyl ≤ int_max) × (nsec ≤ int_max)

  -- The block's sector on the disk.
  abbrev pub sector : Disk → ℕ → List ℕ
  sector d b = slice (offset d (b / nsec) (b % nsec)) block_size d.image

  abbrev pub OnDisk : ℕ → Type 0
  OnDisk b = b < ncyl * nsec

  in_range : (b : ℕ) → OnDisk b → (b / nsec < ncyl) × (b % nsec < nsec)
  in_range b h = let row : nsec * (b / nsec) + b % nsec ≡ b = div-add-mod b nsec in grind arith

  on_disk : (l : Link Disk) (b : ℕ) → IsGood l → OnDisk b → InRange l.server (b / nsec) (b % nsec)
  on_disk l b g r = (rw g.cylinders (in_range b r).0, rw g.sectors (in_range b r).1)

  block_ints : (l : Link Disk) (b : ℕ) → IsGood l → OnDisk b → AreInts (b / nsec) (b % nsec)
  block_ints l b g r = omega (arith, in_range b r, g.ints)

  length-sector :
      (l : Link Disk) (b : ℕ) → IsGood l → OnDisk b → length (sector l.server b) ≡ block_size
  length-sector l b g r = omega (
    arith,
    length-take block_size (drop (offset l.server (b / nsec) (b % nsec)) l.server.image),
    length-drop (offset l.server (b / nsec) (b % nsec)) l.server.image,
    offset_bound l.server (b / nsec) (b % nsec) g.disk (on_disk l b g r),
  )

  read_sector :
      (l : Link Disk) (b : ℕ)
      → IsGood l
      → OnDisk b
      → cmd_r l.server (pos (b / nsec)) (pos (b % nsec)) ≡ success (sector l.server b)
  unfolding cmd_r
  read_sector l b g r = rw (in_disk l.server (b / nsec) (b % nsec) (on_disk l b g r))

  answer_r :
      (l : Link Disk) (b : ℕ)
      → IsGood l
      → OnDisk b
      → disk_transport.exchange (fetch_request nsec b) l.server
        ≡ (l.server, some (yes_prefix ++ sector l.server b))
  answer_r l b g r =
      let len = length-sector l b g r in
      ap (answer l.server) (
        (on_recv-request_r l.server idle (b / nsec) (b % nsec) (block_ints l b g r)).0
          (sector l.server b) (read_sector l b g r)
        ∙ ap (λ n. served l.server (reply_with_yes idle (sector l.server b) (pos n)) (pos 0))
            (sym len))
      ∙ ap (λ p. (l.server, p)) (next-reply_with_yes (sector l.server b) (omega arith))

  answered :
      (l : Link Disk) (msg : List ℕ) (d : Disk) (p : List ℕ)
      → IsGood l
      → disk_transport.exchange msg l.server ≡ (d, some p)
      → request disk_transport msg l ≡ record { server = d; pending = p ∷ [] }
  unfolding request
  answered l msg d p g e =
      let answer_of : Disk × Option (List ℕ) → Link Disk =
        λ got. record { server = got.0; pending = queue_reply l.pending got.1 } in
      ap answer_of e ∙ ap (λ q. record { server = d; pending = q ++ p ∷ [] }) g.idle

  accepted :
      (d : Disk) (buf x : List ℕ)
      → length x ≡ block_size
      → receive_block disk_transport
          ((yes_prefix ++ x) ∷ [])
          buf
          (record { server = d; pending = (yes_prefix ++ x) ∷ [] })
        ≡ (record { server = d; pending = [] }, x)
  unfolding receive_block str_eq
  accepted d buf x e =
      let enough : ltb (length (yes_prefix ++ x)) (4 + block_size) ≡ false = ground arith in
      rw (enough, take-length x block_size (sym e))

  -- Over a link without a reply left over, to a valid disk of the geometry that the file system
  -- knows, a fetch of a block of the disk delivers its sector, and leaves the disk and the link as
  -- they were.
  pub fetch-sector :
      (b : ℕ) (buf : List ℕ) (l : Link Disk)
      → IsGood l
      → OnDisk b
      → fetch_block_from_server disk_transport nsec b buf l ≡ (l, sector l.server b)
  unfolding fetch_block_from_server
  fetch-sector b buf l g r =
      ap (λ (a : Link Disk). receive_block disk_transport a.pending buf a)
        (answered l (fetch_request nsec b) l.server (yes_prefix ++ sector l.server b) g
          (answer_r l b g r))
      ∙ accepted l.server buf (sector l.server b) (length-sector l b g r)
      ∙ ap (λ q. (record { server = l.server; pending = q }, sector l.server b)) (sym g.idle)

  -- A block that the command line of a write request carries over whole: 512 bytes, the first of
  -- which is no blank.
  abbrev pub starts_blank : List ℕ → Bool
  starts_blank [] = true
  starts_blank (c ∷ s) = is_space c

  abbrev pub Storable : List ℕ → Type 0
  Storable x = (length x ≡ block_size) × (starts_blank x ≡ false)

  skip_solid : (x t : List ℕ) → starts_blank x ≡ false → skip_space (x ++ t) ≡ x ++ t
  unfolding skip_space
  skip_solid [] t e = absurd (cc)
  skip_solid (c ∷ x) t e = rw e

  copy_in-prefix :
      (d : Disk) (at_byte : ℕ) (x t : List ℕ)
      → copy_in d at_byte (length x) (x ++ t) ≡ copy_in d at_byte (length x) x
  unfolding copy_in
  copy_in-prefix d at_byte x t = rw (take-append x t (length x) refl, take-length x (length x) refl)

  cmd_w-prefix :
      (d : Disk) (c s : ℕ) (x t : List ℕ)
      → InRange d c s
      → length x ≤ block_size
      → cmd_w d (pos c) (pos s) (pos (length x)) (x ++ t)
        ≡ success (copy_in d (offset d c s) (length x) x)
  unfolding cmd_w
  cmd_w-prefix d c s x t r h =
      let fits : ltb block_size (length x) ≡ false = ground arith in
      let whole : ltb (length (x ++ t)) (length x) ≡ false = ground (arith, length-append x t) in
      rw (in_disk d c s r, fits, whole) (ap success (copy_in-prefix d (offset d c s) x t))

  padded_full : (x : List ℕ) → length x ≡ block_size → padded x ≡ x
  padded_full x e =
      let full : block_size - length x ≡ 0 = omega arith in
      ap (λ n. x ++ replicate n 0) full ∙ append-nil x

  module _ (b : ℕ) (x : List ℕ) (l : Link Disk) (g : IsGood l) (r : OnDisk b)
      (ok : Storable x) where
    pub after : Disk
    after = copy_in l.server (offset l.server (b / nsec) (b % nsec)) (length x) x

    after-IsGood : IsGood (record { server = after; pending = [] })
    unfolding after copy_in
    after-IsGood = record {
      disk =
          unfold copy_in in
          (cmd_r-cmd_w l.server (b / nsec) (b % nsec) x g.disk (on_disk l b g r)
            (omega (arith, ok.0))).1;
      cylinders = g.cylinders;
      sectors = g.sectors;
      idle = refl;
      ints = g.ints;
    }

    answer_w :
        disk_transport.exchange (push_request nsec b x) l.server ≡ (after, some (yes_prefix ++ []))
    unfolding after
    answer_w =
        ap (answer l.server) (
          (on_recv-request_w l.server idle (b / nsec) (b % nsec) block_size (x ++ 10 ∷ [])
              (block_ints l b g r) (omega arith)).0
            _
            (ap (cmd_w l.server (pos (b / nsec)) (pos (b % nsec)) (pos block_size))
                (skip_solid x (10 ∷ []) ok.1)
              ∙ ap (λ n. cmd_w l.server (pos (b / nsec)) (pos (b % nsec)) (pos n) (x ++ 10 ∷ []))
                  (sym ok.0)
              ∙ cmd_w-prefix l.server (b / nsec) (b % nsec) x (10 ∷ []) (on_disk l b g r)
                  (omega (arith, ok.0))))
        ∙ ap (λ p. (after, p)) (next-reply_with_yes [] (omega arith))

    push-after :
        push_block_to_server disk_transport nsec b x l ≡ record { server = after; pending = [] }
    unfolding push_block_to_server receive_ack
    push-after = rw (take-length x block_size (sym ok.0)) (
        ap (λ (a : Link Disk). receive_ack disk_transport a.pending a)
          (answered l (push_request nsec b x) after (yes_prefix ++ []) g answer_w))

    sector_self : sector after b ≡ x
    unfolding after
    sector_self = cc (
      read_sector (record { server = after; pending = [] }) b after-IsGood r,
      (cmd_r-cmd_w l.server (b / nsec) (b % nsec) x g.disk (on_disk l b g r)
          (omega (arith, ok.0))).2,
      padded_full x ok.0,
    )

    sector_ne : (m : ℕ) → OnDisk m → b ≢ m → sector after m ≡ sector l.server m
    unfolding after
    sector_ne m r' ne = cc (
      read_sector (record { server = after; pending = [] }) m after-IsGood r',
      read_sector l m g r',
      cmd_r-cmd_w_ne l.server (b / nsec) (b % nsec) x g.disk (on_disk l b g r) (omega (arith, ok.0))
          (m / nsec) (m % nsec) (on_disk l m g r') apart,
    )
      where
        apart : ((b / nsec) ≢ (m / nsec)) ⊎ ((b % nsec) ≢ (m % nsec))
        apart = elim (Bool-cases (b / nsec == m / nsec)) [
          | inl same ↦
              let q : b / nsec ≡ m / nsec = ground arith in
              inr (λ e. ne (cc (div-add-mod b nsec, div-add-mod m nsec)))
          | inr differ ↦ inl (λ e. ground arith)
        ]

  pub fetch_sectors :
      (b : ℕ) (buf : List ℕ) (l : Link Disk)
      → IsGood l
      → OnDisk b
      → IsGood (fetch_block_from_server disk_transport nsec b buf l).0
        × ((m : ℕ)
            → OnDisk m
            → sector (fetch_block_from_server disk_transport nsec b buf l).0.server m
              ≡ sector l.server m)
        × ((fetch_block_from_server disk_transport nsec b buf l).1 ≡ sector l.server b)
  fetch_sectors b buf l g r = rw (fetch-sector b buf l g r) (g, λ m p. refl, refl)

  pub push_sectors :
      (b : ℕ) (x : List ℕ) (l : Link Disk)
      → IsGood l
      → OnDisk b
      → Storable x
      → IsGood (push_block_to_server disk_transport nsec b x l)
        × (sector (push_block_to_server disk_transport nsec b x l).server b ≡ x)
        × ((m : ℕ)
            → OnDisk m
            → b ≢ m
            → sector (push_block_to_server disk_transport nsec b x l).server m ≡ sector l.server m)
  push_sectors b x l g r ok =
      rw (push-after b x l g r ok)
        (after-IsGood b x l g r ok, sector_self b x l g r ok, sector_ne b x l g r ok)

  -- The disk server keeps what the cache relies on: it delivers each block of the disk, and stores
  -- each 512 bytes that do not begin with a blank.
  abbrev pub disk_server : IsBlockServer (wire_backend disk_transport nsec)
  disk_server = record {
    IsGood = IsGood;
    view = λ l b. sector l.server b;
    InRange = OnDisk;
    Storable = Storable;
    fetch_lem = fetch_sectors;
    push_lem = push_sectors;
  }

  -- Over a link without a reply left over, to a valid disk of the geometry that the file system
  -- knows, a block of the disk that the file system pushes over the wire stands in its sector on
  -- the disk afterwards, and every other sector is as it was, where the block has 512 bytes and
  -- begins with no blank.
  pub push-sector :
      (b m : ℕ) (x : List ℕ) (l : Link Disk)
      → IsGood l
      → OnDisk b
      → Storable x
      → OnDisk m
      → b ≢ m
      → IsGood (push_block_to_server disk_transport nsec b x l)
        × (sector (push_block_to_server disk_transport nsec b x l).server b ≡ x)
        × (sector (push_block_to_server disk_transport nsec b x l).server m ≡ sector l.server m)
  push-sector b m x l g r ok q ne =
      let (good, new, same) = push_sectors b x l g r ok in (good, new, same m q ne)
