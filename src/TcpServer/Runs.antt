-- ===== src/TcpServer/Runs.antt =====
-- A run of `handle_read`, lib/tcp_utils.c, on a connection that delivers whole messages.
use cs2310_prj.Base.{
  ℕ, ◌+◌, ◌-◌, ◌*◌, ◌≤◌, ◌<◌, ◌≡◌, ap, ◌∙◌, true, false, some, List, [], ◌∷◌, ◌++◌, arith, ltb,
  length, length-append, pos, be32,
}
use cs2310_prj.TcpBuffer.{TcpBuffer, received, tcp_buf_size, send_buffer}
use cs2310_prj.TcpBuffer.Frames.{IsValid, queued, frame, length-queued, length-be32}
use cs2310_prj.TcpBuffer.Receiving.{stored, stored-queued, read_to_buffer_short}
use cs2310_prj.TcpBuffer.Sending.{AreSends, send_buffer_lem}
use cs2310_prj.TcpServer.{
  Pool, Callbacks, Handling, handle_received, message_fuel, handle_read, store_buffers, unlock,
}
use cs2310_prj.TcpServer.Messages.{
  frames, IsIncomplete, consumed, deliver_all, handle_messages-frames,
}

frames_enough : (msgs : List (List ℕ)) → 4 * length msgs ≤ length (frames msgs)
frames_enough [] = omega arith
frames_enough (s ∷ msgs) = omega (
  arith,
  frames_enough msgs,
  length-append (frame s) (frames msgs),
  length-append (be32 (length s)) s,
  length-be32 (length s),
)

-- The messages of a valid buffer are fewer than the fuel.
few_messages :
    (rb : TcpBuffer) (msgs : List (List ℕ)) (rest : List ℕ)
    → IsValid rb
    → queued rb ≡ frames msgs ++ rest
    → length msgs < message_fuel
few_messages rb msgs rest v q = omega (
  arith,
  frames_enough msgs,
  length-append (frames msgs) rest,
  ap length q,
  length-queued rb v,
  v.within,
)

module _ {S : Type 0} (cb : Callbacks S) (i : ℕ) where
  -- What `handle_read` starts its messages with.
  abbrev pub beginning : Pool → S → Handling S
  beginning p s = record { write_buf = p.write_buf i; close_flag = false; state = s }

  handle_received-frames :
      (count : ℕ) (rb : TcpBuffer) (msgs : List (List ℕ)) (rest : List ℕ) (h h' : Handling S)
      → 0 < count
      → IsValid rb
      → queued rb ≡ frames msgs ++ rest
      → IsIncomplete rest
      → deliver_all cb i msgs h ≡ some h'
      → IsValid (consumed rb msgs)
        × (queued (consumed rb msgs) ≡ rest)
        × (handle_received cb i (pos count) rb h ≡ some (consumed rb msgs, h'))
  unfolding handle_received
  handle_received-frames count rb msgs rest h h' more v q short d =
      let (v', q', e) =
        handle_messages-frames cb i message_fuel msgs rest rb h v q short
          (few_messages rb msgs rest v q) in
      let some_bytes : ltb 0 count ≡ true = ground arith in (v', q', rw (some_bytes, e, d))

  -- The run, up to what `send_buffer` makes of the replies.
  pub handle_read-messages :
      (p : Pool) (s : S) (msgs : List (List ℕ)) (bytes rest : List ℕ) (sends : List ℕ)
      (h : Handling S) (wb : TcpBuffer) (out : List ℕ)
      → IsValid (p.read_buf i)
      → 0 < length bytes
      → length bytes < tcp_buf_size - (p.read_buf i).write_index
      → queued (p.read_buf i) ++ bytes ≡ frames msgs ++ rest
      → IsIncomplete rest
      → deliver_all cb i msgs (beginning p s) ≡ some h
      → h.close_flag ≡ false
      → send_buffer sends h.write_buf ≡ some (wb, out)
      → (rb : TcpBuffer) × (handle_read cb i
            (record { recvs = received bytes ∷ []; sends = sends })
            p
            s
          ≡ some (unlock (store_buffers p i rb wb) i, h.state, out))
        × IsValid rb
        × (queued rb ≡ rest)
  unfolding handle_read
  handle_read-messages p s msgs bytes rest sends h wb out v more room q short d stays went =
      let read = read_to_buffer_short bytes [] 0 (p.read_buf i) more room in
      let (v1, q1) = stored-queued (p.read_buf i) bytes v (omega (arith, room)) in
      let (v2, q2, handled) =
        handle_received-frames (0 + length bytes) (stored (p.read_buf i) bytes) msgs rest
          (beginning p s) h (omega (arith, more)) v1 (q1 ∙ q) short d in
      (consumed (stored (p.read_buf i) bytes) msgs, rw (read, handled, went, stays), v2, q2)

  -- A connection whose read buffer is valid delivers some bytes, fewer than there is room for,
  -- which make whole messages with what waited, and perhaps the beginning of one; none of the
  -- messages makes `on_recv` crash or return -1, the replies leave a valid buffer, and `send` takes
  -- no more than it is offered. Then `handle_read` returns: it has given the messages to `on_recv`,
  -- once each and in order; the read buffer keeps the beginning of the last one; and what was sent,
  -- with what still waits to be sent, are the replies. The slot is unlocked and keeps its
  -- connection.
  pub handle_read-frames :
      (p : Pool) (s : S) (msgs : List (List ℕ)) (bytes rest : List ℕ) (sends : List ℕ)
      (h : Handling S)
      → IsValid (p.read_buf i)
      → 0 < length bytes
      → length bytes < tcp_buf_size - (p.read_buf i).write_index
      → queued (p.read_buf i) ++ bytes ≡ frames msgs ++ rest
      → IsIncomplete rest
      → deliver_all cb i msgs (beginning p s) ≡ some h
      → h.close_flag ≡ false
      → IsValid h.write_buf
      → AreSends sends (h.write_buf.write_index - h.write_buf.read_index)
      → h.write_buf.write_index - h.write_buf.read_index ≤ length sends
      → (rb : TcpBuffer) × (wb : TcpBuffer) × (out : List ℕ) × (handle_read cb i
            (record { recvs = received bytes ∷ []; sends = sends })
            p
            s
          ≡ some (unlock (store_buffers p i rb wb) i, h.state, out))
        × IsValid rb
        × (queued rb ≡ rest)
        × IsValid wb
        × (out ++ queued wb ≡ queued h.write_buf)
  handle_read-frames p s msgs bytes rest sends h v more room q short d stays w a enough =
      let (wb, out, went, v3, q3) = send_buffer_lem sends h.write_buf w a enough in
      let (rb, run, v2, q2) =
        handle_read-messages p s msgs bytes rest sends h wb out v more room q short d stays went in
      (rb, wb, out, run, v2, q2, v3, q3)
