-- ===== src/Fs/DiskInfo/Reading.antt =====
-- `get_disk_info`, fs/src/block.c, on the reply of disk/src/server.c.
use mathlib.Core.List.{append_assoc, append-nil}
use cs2310_prj.Base.{
  ℕ, zero, suc, ◌+◌, ◌-◌, ◌≤◌, ◌<◌, ◌≡◌, refl, sym, ap, ◌∙◌, true, false, Option, some, List, [],
  ◌∷◌, ◌++◌, arith, ltb, length, length-append, take, drop, slice, pos, be32, from_be32-be32,
  Bool-cases, inl, inr,
}
use cs2310_prj.Base.Text.{show_nat, skip_delims, token_of, after_token, str_eq}
use cs2310_prj.Base.Text.Scan.{scan_two, scan_two-show_nat}
use cs2310_prj.TcpBuffer.{
  TcpBuffer, received, tcp_buf_size, recycle_read, buffer_append, buffer_next,
}
use cs2310_prj.TcpBuffer.Frames.{
  IsValid, queued, frame, Fits, length-queued, length-be32, slice-queued, avail, body,
  buffer_next-frame, adjust_buffer-IsValid, queued-adjust_buffer,
}
use cs2310_prj.TcpBuffer.Receiving.{stored, stored-queued, read_to_buffer_short}
use cs2310_prj.TcpBuffer.Sending.{take-drop_append}
use cs2310_prj.Disk.{Disk}
use cs2310_prj.DiskServer.{served, on_recv, dispatch, handle_i}
use cs2310_prj.TcpServer.{Pool, handle_read, unlock, store_buffers}
use cs2310_prj.TcpServer.Programs.{disk_callbacks, outcome_of}
use cs2310_prj.TcpClient.Delivery.{concat, Arrive, rounds_of, split_front}
use cs2310_prj.TcpClient.Calls.{front_nil, IsIdle, append_sent, answer}
use cs2310_prj.Fs.DiskInfo.{
  Bds, info_request, parse_info, take_info, info_round, receive_info, get_disk_info,
}

-- "<cylinders> <sectors>" with its zero byte.
abbrev pub info_reply : Disk → List ℕ
info_reply d = show_nat d.ncyl ++ b' ' ∷ (show_nat d.nsec ++ 0 ∷ [])

pub on_recv-info :
    (d : Disk) (wb : TcpBuffer)
    → on_recv d wb info_request
      ≡ served d (buffer_append wb (info_reply d) (pos (length (info_reply d)))) (pos 0)
unfolding on_recv dispatch skip_delims token_of after_token str_eq handle_i
on_recv-info d wb = refl

buffer_next_partial :
    (b : TcpBuffer) (s more behind : List ℕ)
    → IsValid b
    → length s ≤ 4_092
    → queued b ++ more ≡ frame s ++ behind
    → length (queued b) < 4 + length s
    → (buffer_next b).0 ≡ pos 0
unfolding buffer_next be32
buffer_next_partial b s more behind v short q part =
    let size = length-queued b v in
    elim (Bool-cases (ltb (b.write_index - b.read_index) 4)) [
      | inl few ↦ rw few
      | inr word ↦
          let (zs, p, r) =
            split_front (be32 (length s)) (queued b) more (s ++ behind)
              (q ∙ append_assoc (be32 (length s)) s behind)
              (ground (arith, length-be32 (length s))) in
          let start : b.read_index + 0 ≡ b.read_index = omega arith in
          let e : slice b.read_index 4 b.buf ≡ be32 (length s) =
            ap (λ i. slice i 4 b.buf) (sym start)
            ∙ slice-queued b 0 4 (ground arith)
            ∙ ap (take 4) p in
          let small : ltb (tcp_buf_size - 4) (length s) ≡ false = ground arith in
          let incomplete : ltb (b.write_index - b.read_index) (4 + length s) ≡ true =
            ground arith in
          rw (word, e, from_be32-be32 (length s) (omega arith), small, incomplete)
    ]

-- The text of a reply, with whatever stands behind it in the buffer.
scan_two-info :
    (d : Disk) (n : ℕ) (text : List ℕ)
    → take n text ≡ info_reply d
    → scan_two text ≡ pos d.ncyl ∷ pos d.nsec ∷ []
scan_two-info d n text e =
    let tail = drop n text in
    let split : text ≡ show_nat d.ncyl ++ b' ' ∷ (show_nat d.nsec ++ 0 ∷ tail) =
      sym (take-drop_append n text)
      ∙ ap (λ t. t ++ tail) e
      ∙ append_assoc (show_nat d.ncyl) (b' ' ∷ (show_nat d.nsec ++ 0 ∷ [])) tail
      ∙ ap (λ t. show_nat d.ncyl ++ b' ' ∷ t) (append_assoc (show_nat d.nsec) (0 ∷ []) tail) in
    ap scan_two split ∙ scan_two-show_nat d.ncyl d.nsec 0 tail refl

-- What the caller has when the call returns.
abbrev pub Knows : Disk → Bds → Type 0
Knows d bds =
    (bds.ncyl ≡ pos d.ncyl) × (bds.nsec ≡ pos d.nsec) × IsValid bds.rbuf × (queued bds.rbuf ≡ [])

parse_info-Knows :
    (d : Disk) (bds : Bds)
    → IsValid bds.rbuf
    → queued bds.rbuf ≡ frame (info_reply d)
    → Knows d (parse_info (length (info_reply d)) bds)
      × ((parse_info (length (info_reply d)) bds).wbuf ≡ bds.wbuf)
unfolding parse_info
parse_info-Knows d bds v q =
    let reply = info_reply d in
    let waits : queued bds.rbuf ≡ frame reply ++ [] = q ∙ sym (append-nil (frame reply)) in
    let size = avail bds.rbuf reply [] v waits in
    let numbers =
      scan_two-info d (length reply) (drop (bds.rbuf.read_index + 4) bds.rbuf.buf)
        (body bds.rbuf reply [] v waits) in
    let (_, v', rest) =
      buffer_next-frame bds.rbuf reply [] v waits (omega (arith, v.within, size)) in
    let left = recycle_read bds.rbuf (4 + length reply) in
    rw numbers
      ((refl, refl, adjust_buffer-IsValid left v', queued-adjust_buffer left v' ∙ rest), refl)

take_info_positive :
    (k : ℕ) (bds : Bds) (rest : Bds → Option Bds)
    → 0 < k
    → take_info (pos k) bds rest ≡ some (parse_info k bds)
take_info_positive zero bds rest h = absurd (omega arith)
take_info_positive (suc k) bds rest h = refl

abbrev pub with_rbuf : Bds → TcpBuffer → Bds
with_rbuf bds b = record bds { rbuf = b }

module _ (d : Disk) (short : length (info_reply d) ≤ 4_092) where
  some_text : 0 < length (info_reply d)
  some_text = omega (arith, length-append (show_nat d.ncyl) (b' ' ∷ (show_nat d.nsec ++ 0 ∷ [])))

  whole_reply :
      (bds : Bds) (b : TcpBuffer) (n : ℕ) (rest : Bds → Option Bds)
      → IsValid b
      → queued b ≡ frame (info_reply d)
      → info_round bds rest (some (pos n, b))
        ≡ some (parse_info (length (info_reply d)) (with_rbuf bds b))
  whole_reply bds b n rest v q =
      let waits : queued b ≡ frame (info_reply d) ++ [] =
        q ∙ sym (append-nil (frame (info_reply d))) in
      let (next, _, _) = buffer_next-frame b (info_reply d) [] v waits short in
      rw next (take_info_positive (length (info_reply d)) (with_rbuf bds b) rest some_text)

  receive_info-Knows :
      (pieces : List (List ℕ)) (bds : Bds)
      → IsValid bds.rbuf
      → Arrive pieces bds.rbuf
      → length (queued bds.rbuf) < 4 + length (info_reply d)
      → queued bds.rbuf ++ concat pieces ≡ frame (info_reply d)
      → (b : Bds) × (receive_info (rounds_of pieces) bds ≡ some b) × Knows d b × (b.wbuf ≡ bds.wbuf)
  unfolding receive_info
  receive_info-Knows [] bds v a part q = absurd (
      omega (
        arith,
        part,
        ap length q,
        length-append (queued bds.rbuf) [],
        length-append (be32 (length (info_reply d))) (info_reply d),
        length-be32 (length (info_reply d)),
      ))
  receive_info-Knows (x ∷ pieces) bds v (more, room, a) part q =
      let b = stored bds.rbuf x in
      let reply = info_reply d in
      let read = read_to_buffer_short x [] 0 bds.rbuf more room in
      let (v1, q1) = stored-queued bds.rbuf x v (omega (arith, room)) in
      let waits : queued b ++ concat pieces ≡ frame reply ++ [] =
        ap (λ t. t ++ concat pieces) q1
        ∙ append_assoc (queued bds.rbuf) x (concat pieces)
        ∙ q
        ∙ sym (append-nil (frame reply)) in
      elim (Bool-cases (ltb (length (queued b)) (4 + length reply))) [
        | inl cut ↦
            let (b', r, known, kept) =
              receive_info-Knows pieces (with_rbuf bds b) v1 a (ground arith)
                (waits ∙ append-nil (frame reply)) in
            let partial =
              buffer_next_partial b reply (concat pieces) [] v1 short waits (ground arith) in
            (b', rw (read, partial) r, known, kept)
        | inr whole ↦
            let size : length (frame reply) ≡ 4 + length reply =
              omega
                (arith, length-append (be32 (length reply)) reply, length-be32 (length reply)) in
            let (zs, p, front) =
              split_front (frame reply) (queued b) (concat pieces) [] waits (ground arith) in
            let exact : queued b ≡ frame reply =
              p
              ∙ ap (λ t. frame reply ++ t) (front_nil zs (concat pieces) front)
              ∙ append-nil (frame reply) in
            let (known, kept) = parse_info-Knows d (with_rbuf bds b) v1 exact in
            let round =
              whole_reply bds b (0 + length x) (receive_info (rounds_of pieces)) v1 exact in
            (parse_info (length reply) (with_rbuf bds b), rw read round, known, kept)
      ]

-- The disk server at the start of the file system: between idle buffers with room for the request
-- and for the reply, `get_disk_info` sends its request, the disk server answers it and keeps its
-- disk, and `get_disk_info`, in whatever pieces the answer arrives, returns with the numbers of
-- cylinders and sectors of that disk and with idle buffers.
pub get_disk_info-disk :
    (i : ℕ) (p : Pool) (d : Disk) (bds : Bds) (pieces : List (List ℕ))
    → IsIdle (p.read_buf i)
    → IsIdle (p.write_buf i)
    → IsIdle bds.rbuf
    → IsIdle bds.wbuf
    → Fits bds.wbuf 2
    → 6 < tcp_buf_size - (p.read_buf i).write_index
    → Fits (p.write_buf i) (length (info_reply d))
    → Arrive pieces bds.rbuf
    → concat pieces ≡ frame (info_reply d)
    → (b : Bds) × (rb : TcpBuffer) × (wb : TcpBuffer) × (get_disk_info
          (6 ∷ [])
          (rounds_of pieces)
          bds
        ≡ some (b, frame info_request))
      × (handle_read disk_callbacks i
            (record {
              recvs = received (frame info_request) ∷ [];
              sends = (4 + length (info_reply d)) ∷ [];
            })
            p
            d
          ≡ some (unlock (store_buffers p i rb wb) i, d, frame (info_reply d)))
      × (b.ncyl ≡ pos d.ncyl)
      × (b.nsec ≡ pos d.nsec)
      × IsIdle b.rbuf
      × IsIdle b.wbuf
unfolding get_disk_info
get_disk_info-disk i p d bds pieces ready idle b_ready b_idle b_room room fits arrive whole =
    let short : length (info_reply d) ≤ 4_092 = omega (arith, fits) in
    let (sb, sent, sb_idle) = append_sent bds.wbuf info_request b_idle b_room in
    let replied = ap outcome_of (on_recv-info d (p.write_buf i)) in
    let (rb, wb, run, _, _) =
      answer disk_callbacks i p d d info_request (info_reply d) ready idle room fits replied in
    let (b, got, (n, m, v, q), kept) =
      receive_info-Knows d short pieces (record bds { wbuf = sb }) b_ready.valid arrive
        (omega (arith, ap length b_ready.empty))
        (ap (λ t. t ++ concat pieces) b_ready.empty ∙ whole) in
    (b, rb, wb, rw (sent, got), run, n, m, record { valid = v; empty = q }, rw kept sb_idle)
