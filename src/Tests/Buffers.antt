-- ===== src/Tests/Buffers.antt =====
-- The theorems on lib/tcp_buffer.c at concrete inputs.
use cs2310_prj.Base.{
  ◌∷◌, replicate, ℕ, List, length-replicate, be32, ap, ◌∙◌, some, ◌≡◌, ◌++◌, [], pos, arith,
}
use cs2310_prj.TcpBuffer.{
  send_buffer, tcp_buf_size, TcpBuffer, buffer_append, buffer_next, recycle_read,
}
use cs2310_prj.TcpBuffer.Sending.{send_buffer_lem}
use cs2310_prj.TcpBuffer.Frames.{IsValid, queued, frame, queued-buffer_append, buffer_next-frame}
use cs2310_prj.Tests.Data.{empty_buffer, empty_buffer-IsValid, empty_buffer-queued, hi}

buffer_next-frame_example :
    (buffer_next (buffer_append empty_buffer hi (pos 2)) ≡ (pos 2, some hi))
    × IsValid (recycle_read (buffer_append empty_buffer hi (pos 2)) 6)
    × (queued (recycle_read (buffer_append empty_buffer hi (pos 2)) 6) ≡ [])
unfolding be32
buffer_next-frame_example =
    buffer_next-frame (buffer_append empty_buffer hi (pos 2)) hi []
      (queued-buffer_append empty_buffer hi empty_buffer-IsValid (omega arith)).0
      ((queued-buffer_append empty_buffer hi empty_buffer-IsValid (omega arith)).1
        ∙ ap (λ q. q ++ frame hi) empty_buffer-queued)
      (omega arith)

-- Six bytes wait.
abbrev six_waiting : TcpBuffer
six_waiting = record { read_index = 0; write_index = 6; buf = replicate tcp_buf_size 1 }

six_waiting-IsValid : IsValid six_waiting
six_waiting-IsValid = record {
  ordered = omega arith;
  within = omega arith;
  sized = length-replicate {A = ℕ} tcp_buf_size 1;
}

-- Two calls take all.
abbrev two_sends : List ℕ
two_sends = 2 ∷ 4 ∷ replicate 4 0

send_buffer_lem_example :
    (b' : TcpBuffer) × (out : List ℕ) × (send_buffer two_sends six_waiting ≡ some (b', out))
    × IsValid b'
    × (out ++ queued b' ≡ queued six_waiting)
send_buffer_lem_example =
    send_buffer_lem two_sends six_waiting six_waiting-IsValid
      (omega arith, (omega arith, (omega arith, (omega arith, (omega arith, (omega arith, tt))))))
      (omega arith)
