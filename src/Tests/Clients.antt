-- ===== src/Tests/Clients.antt =====
-- The theorems on whole calls between a client and a server at concrete inputs.
use mathlib.Core.List.{append-nil}
use cs2310_prj.Base.{
  ℕ, zero, suc, ◌+◌, ◌-◌, ◌≤◌, ◌≡◌, inl, refl, sym, ap, ◌∙◌, some, List, [], ◌∷◌, ◌++◌, arith,
  length, length-append, drop, replicate, pos, be32,
}
use cs2310_prj.Base.Text.{skip_space, skip_delims, token_of, after_token, str_eq, show_nat}
use cs2310_prj.TcpBuffer.{TcpBuffer, received, buffer_append}
use cs2310_prj.TcpBuffer.Frames.{frame, queued, length-be32, length-queued, queued-buffer_append}
use cs2310_prj.TcpBuffer.Frames
use cs2310_prj.TcpBuffer.Sending.{AreSends}
use cs2310_prj.Disk.{Disk, init_disk, cmd_r, cmd_w}
use cs2310_prj.DiskServer.{on_recv, dispatch, unknown_command}
use cs2310_prj.DiskServer.Requests.{request_r, request_w}
use cs2310_prj.TcpServer.{Handling, deliver, handle_read, unlock, store_buffers}
use cs2310_prj.TcpServer.Messages.{deliver_all}
use cs2310_prj.TcpServer.Runs.{handle_read-frames}
use cs2310_prj.TcpServer.Programs.{disk_callbacks}
use cs2310_prj.TcpClient.{Client, message, client_recv}
use cs2310_prj.TcpClient.Delivery.{concat, Arrive, rounds_of, with_read_buf, client_recv-frame}
use cs2310_prj.TcpClient.Calls.{IsIdle, IsCall}
use cs2310_prj.TcpClient.DiskClient.{
  read_reply, write_reply, disk_after, read_reply_short, write_reply_short, remote_read,
  remote_write,
}
use cs2310_prj.Fs.DiskInfo.{Bds, info_request, get_disk_info}
use cs2310_prj.Fs.DiskInfo.Reading.{info_reply, get_disk_info-disk}
use cs2310_prj.DiskConsole.{run_line}
use cs2310_prj.DiskConsole.Agreement.{IsText, ran_effect, served_effect, run_line-on_recv}
use cs2310_prj.Tests.Data.{
  empty_buffer, empty_buffer-IsValid, empty_buffer-queued, hi, small_disk, small_disk-IsValid,
}
use cs2310_prj.Tests.Servers.{raw_pool, nothing_handled}

-- The reply to "hi" waits to be sent.
abbrev answered : Handling Disk
answered = record nothing_handled {
  write_buf = buffer_append empty_buffer unknown_command (pos 16);
}

answers : deliver_all disk_callbacks 0 (hi ∷ []) nothing_handled ≡ some answered
unfolding deliver on_recv dispatch skip_delims token_of after_token str_eq
answers = refl

answered-queued :
    Frames.IsValid answered.write_buf × (queued answered.write_buf ≡ frame unknown_command)
answered-queued =
    let (v, q) =
      queued-buffer_append empty_buffer unknown_command empty_buffer-IsValid (omega arith) in
    (v, q ∙ ap (λ t. t ++ frame unknown_command) empty_buffer-queued)

answered_bytes : answered.write_buf.write_index - answered.write_buf.read_index ≡ 20
unfolding be32
answered_bytes =
    sym (length-queued answered.write_buf answered-queued.0) ∙ ap length answered-queued.1

single_bytes : (n : ℕ) → AreSends (replicate n 1) n
single_bytes zero = tt
single_bytes (suc n) =
    let e : n ≡ suc n - 1 = omega arith in
    let rest : AreSends (replicate n 1) (suc n - 1) = rw (← e) (single_bytes n) in
    (omega arith, rest)

handle_read-frames_example :
    (rb : TcpBuffer) × (wb : TcpBuffer) × (out : List ℕ) × (handle_read disk_callbacks 0
        (record { recvs = received (frame hi) ∷ []; sends = replicate 20 1 })
        raw_pool
        small_disk
      ≡ some (unlock (store_buffers raw_pool 0 rb wb) 0, small_disk, out))
    × Frames.IsValid rb
    × (queued rb ≡ [])
    × Frames.IsValid wb
    × (out ++ queued wb ≡ queued answered.write_buf)
unfolding be32
handle_read-frames_example =
    handle_read-frames disk_callbacks 0 raw_pool small_disk (hi ∷ []) (frame hi) [] (replicate 20 1)
      answered empty_buffer-IsValid (omega arith) (omega arith)
      (ap (λ t. t ++ frame hi) empty_buffer-queued) (inl (omega arith)) answers refl
      answered-queued.0 (rw answered_bytes (single_bytes 20)) (omega (arith, answered_bytes))

abbrev idle_client : Client
idle_client = record { read_buf = empty_buffer; write_buf = empty_buffer }

empty_buffer-IsIdle : IsIdle empty_buffer
empty_buffer-IsIdle = record { valid = empty_buffer-IsValid; empty = empty_buffer-queued }

-- A reply that arrives in one piece.
one_piece :
    (rep : List ℕ)
    → length rep ≤ 516
    → Arrive (frame rep ∷ []) empty_buffer × (concat (frame rep ∷ []) ≡ frame rep)
one_piece rep h =
    let size : length (frame rep) ≡ 4 + length rep =
      omega (arith, length-append (be32 (length rep)) rep, length-be32 (length rep)) in
    ((omega (arith, size), omega (arith, size), tt), append-nil (frame rep))

client_recv-frame_example :
    (b : TcpBuffer) × (n : ℕ) × (client_recv (rounds_of (frame hi ∷ [])) 100 idle_client
      ≡ some (message hi, with_read_buf idle_client b))
    × Frames.IsValid b
    × (queued b ++ concat (drop n (frame hi ∷ [])) ≡ [])
client_recv-frame_example =
    client_recv-frame (frame hi ∷ []) 100 idle_client hi [] empty_buffer-IsValid
      (one_piece hi (omega arith)).0 (omega (arith, ap length empty_buffer-queued))
      (ap (λ t. t ++ concat (frame hi ∷ [])) empty_buffer-queued) (omega arith) (omega arith)

abbrev read_rep : List ℕ
read_rep = read_reply (cmd_r small_disk (pos 0) (pos 1))

read_pieces :
    Arrive (frame read_rep ∷ []) empty_buffer × (concat (frame read_rep ∷ []) ≡ frame read_rep)
read_pieces = one_piece read_rep (read_reply_short small_disk 0 1 _ small_disk-IsValid refl)

remote_read_example :
    IsCall disk_callbacks 0 raw_pool small_disk small_disk idle_client 4_096
      (request_r 0 1)
      read_rep
      (frame read_rep ∷ [])
unfolding show_nat
remote_read_example =
    remote_read 0 raw_pool small_disk idle_client 4_096 empty_buffer-IsIdle empty_buffer-IsIdle
      empty_buffer-IsIdle empty_buffer-IsIdle 0 1 (omega arith, omega arith) (frame read_rep ∷ [])
      read_pieces.0 (omega arith) (omega arith) small_disk-IsValid (omega arith) (omega arith)
      read_pieces.1

abbrev write_rep : List ℕ
write_rep = write_reply (cmd_w small_disk (pos 0) (pos 1) (pos 2) (skip_space hi))

write_pieces :
    Arrive (frame write_rep ∷ []) empty_buffer × (concat (frame write_rep ∷ []) ≡ frame write_rep)
write_pieces =
    let short = write_reply_short (cmd_w small_disk (pos 0) (pos 1) (pos 2) (skip_space hi)) in
    one_piece write_rep (omega (arith, short))

remote_write_example :
    IsCall disk_callbacks 0 raw_pool small_disk
      (disk_after small_disk (cmd_w small_disk (pos 0) (pos 1) (pos 2) (skip_space hi)))
      idle_client
      4_096
      (request_w 0 1 2 hi)
      write_rep
      (frame write_rep ∷ [])
unfolding show_nat
remote_write_example =
    remote_write 0 raw_pool small_disk idle_client 4_096 empty_buffer-IsIdle empty_buffer-IsIdle
      empty_buffer-IsIdle empty_buffer-IsIdle 0 1 (omega arith, omega arith) (frame write_rep ∷ [])
      write_pieces.0 (omega arith) (omega arith) 2 hi (omega arith)
      (unfold skip_space in omega arith) (omega arith) (omega arith) write_pieces.1

abbrev unknown_disk : Bds
unknown_disk = record { rbuf = empty_buffer; wbuf = empty_buffer; ncyl = pos 0; nsec = pos 0 }

info_pieces :
    Arrive (frame (info_reply small_disk) ∷ []) empty_buffer
    × (concat (frame (info_reply small_disk) ∷ []) ≡ frame (info_reply small_disk))
unfolding show_nat init_disk
info_pieces = one_piece (info_reply small_disk) (omega arith)

get_disk_info-disk_example :
    (b : Bds) × (rb : TcpBuffer) × (wb : TcpBuffer) × (get_disk_info
        (6 ∷ [])
        (rounds_of (frame (info_reply small_disk) ∷ []))
        unknown_disk
      ≡ some (b, frame info_request))
    × (handle_read disk_callbacks 0
          (record {
            recvs = received (frame info_request) ∷ [];
            sends = (4 + length (info_reply small_disk)) ∷ [];
          })
          raw_pool
          small_disk
        ≡ some
            (unlock (store_buffers raw_pool 0 rb wb) 0, small_disk, frame (info_reply small_disk)))
    × (b.ncyl ≡ pos small_disk.ncyl)
    × (b.nsec ≡ pos small_disk.nsec)
    × IsIdle b.rbuf
    × IsIdle b.wbuf
unfolding show_nat init_disk
get_disk_info-disk_example =
    get_disk_info-disk 0 raw_pool small_disk unknown_disk (frame (info_reply small_disk) ∷ [])
      empty_buffer-IsIdle empty_buffer-IsIdle empty_buffer-IsIdle empty_buffer-IsIdle (omega arith)
      (omega arith) (omega arith) info_pieces.0 info_pieces.1

write_line-IsText : IsText (request_w 0 1 2 hi)
unfolding show_nat
write_line-IsText = (
  ground arith,
  (
    ground arith,
    (
      ground arith,
      (
        ground arith,
        (
          ground arith,
          (ground arith, (ground arith, (ground arith, (ground arith, (ground arith, tt))))),
        ),
      ),
    ),
  ),
)

run_line-on_recv_example :
    ran_effect (run_line small_disk (request_w 0 1 2 hi ++ 10 ∷ []))
    ≡ served_effect (on_recv small_disk empty_buffer (request_w 0 1 2 hi ++ 10 ∷ 0 ∷ []))
unfolding skip_space show_nat
run_line-on_recv_example =
    run_line-on_recv small_disk empty_buffer 0 1 2 hi (omega arith, omega arith) (omega arith)
      (omega arith) write_line-IsText (omega arith)
