-- ===== src/Fs/DiskInfo.antt =====
-- fs/src/block.c: `get_disk_info`, which asks the disk server for the numbers of cylinders and
-- sectors. What `recv` and `send` deliver is given as events.
pub mod Reading
use cs2310_prj.Base.{
  ℕ, zero, suc, ◌+◌, Option, none, some, List, [], ◌∷◌, if◌then◌else◌, ◌==◌, drop, length, ℤ, pos,
  negsuc, is_neg,
}
use cs2310_prj.Base.Text.Scan.{scan_two}
use cs2310_prj.TcpBuffer.{
  TcpBuffer, Recv, buffer_append, buffer_next, send_buffer, read_to_buffer, recycle_read,
  adjust_buffer,
}

-- `bds_rbuf` and `bds_wbuf`, and the variables `ncyl` and `nsec` of the caller.
pub record Bds : Type 0 where
  pub rbuf : TcpBuffer
  pub wbuf : TcpBuffer
  pub ncyl : ℤ
  pub nsec : ℤ

-- "I\n"
abbrev pub info_request : List ℕ
info_request = b'I' ∷ 10 ∷ []

-- The stores of `sscanf`.
abbrev pub assign : List ℤ → Bds → Bds
assign [] bds = bds
assign (n ∷ []) bds = record bds { ncyl = n }
assign (n ∷ (m ∷ rest)) bds = record bds { ncyl = n; nsec = m }

-- A message of `plen` bytes. `sscanf` reads on behind it, to the end of the text that it finds.
unfoldable pub parse_info : ℕ → Bds → Bds
parse_info plen bds =
    let numbers = scan_two (drop (bds.rbuf.read_index + 4) bds.rbuf.buf) in
    let got = assign numbers bds in
    if length numbers == 2
    then record got { rbuf = adjust_buffer (recycle_read bds.rbuf (4 + plen)) }
    else got

-- What `buffer_next` finds.
abbrev pub take_info : ℤ → Bds → (Bds → Option Bds) → Option Bds
take_info (negsuc _) bds rest = some bds
take_info (pos zero) bds rest = rest bds
take_info (pos (suc n)) bds rest = some (parse_info (suc n) bds)

abbrev pub info_round : Bds → (Bds → Option Bds) → Option (ℤ × TcpBuffer) → Option Bds
info_round bds rest none = none
info_round bds rest (some (r, rb)) =
    if is_neg r
    then some (record bds { rbuf = rb })
    else take_info (buffer_next rb).0 (record bds { rbuf = rb }) rest

-- The loop, over the events of each round. `none` if they end while it still waits.
unfoldable pub receive_info : List (List Recv) → Bds → Option Bds
receive_info [] bds = none
receive_info (events ∷ rounds) bds =
    info_round bds (receive_info rounds) (read_to_buffer events 0 bds.rbuf)

abbrev pub asked : List (List Recv) → Bds → Option (TcpBuffer × List ℕ) → Option (Bds × List ℕ)
asked rounds bds none = none
asked rounds bds (some (wb, out)) = informed out (receive_info rounds (record bds { wbuf = wb }))
  where
    informed : List ℕ → Option Bds → Option (Bds × List ℕ)
    informed out none = none
    informed out (some b) = some (b, out)

-- The state behind the call, and the bytes that went out.
unfoldable pub get_disk_info : List ℕ → List (List Recv) → Bds → Option (Bds × List ℕ)
get_disk_info sends rounds bds =
    asked rounds bds (send_buffer sends (buffer_append bds.wbuf info_request (pos 2)))
