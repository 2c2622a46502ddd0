-- ===== src/Tests/Servers.antt =====
-- The theorems on the connections, the server and its clients at concrete inputs.

use cs2310_prj.Base.{
  ℕ, ◌<◌, ◌≡◌, inl, refl, ap, ◌∙◌, Bool, true, false, none, some, [], ◌∷◌, ◌++◌, arith, ◌==◌,
  replicate, pos, be32,
}
use cs2310_prj.TcpBuffer.{TcpBuffer, received, closed, init_buffer, read_to_buffer, send_buffer}
use cs2310_prj.TcpBuffer.Frames.{frame, queued, length-be32}
use cs2310_prj.TcpBuffer.Frames
use cs2310_prj.TcpBuffer.Receiving.{
  Took, stored, stored-queued, read_to_buffer_short, read_to_buffer_lem,
}
use cs2310_prj.Disk.{Disk}
use cs2310_prj.TcpServer.{
  Pool, Io, init_pool, add_conn, free_slot, occupy, dispatch, dispatch_from, handle_read,
  handle_received, handle_messages, close_slot, unlock, store_buffers, Handling,
}
use cs2310_prj.TcpServer.Messages.{
  frames, consumed, deliver_all, with_buffer, handle_messages-frames,
}
use cs2310_prj.TcpServer.Slots.{
  Server, wait, accept, add_jobs, Reach, start, later, occurrences, finished, IsValid,
}
use cs2310_prj.TcpServer.Slots.Invariant.{Reach-IsValid}
use cs2310_prj.TcpServer.Serving.{handle_read-releases}
use cs2310_prj.TcpServer.Programs.{disk_callbacks}
use cs2310_prj.Tests.Data.{empty_buffer, empty_buffer-IsValid, empty_buffer-queued, hi, small_disk}

-- The pool before `init_pool`.
abbrev pub raw_pool : Pool
raw_pool = record {
  maxfd = 0;
  read_set = λ fd. true;
  nready = 0;
  maxi = 0;
  connfd = λ i. some 9;
  locked = λ i. true;
  read_buf = λ i. empty_buffer;
  write_buf = λ i. empty_buffer;
}

abbrev is_five : ℕ → Bool
is_five fd = fd == 5

-- A server on descriptor 3 with a connection on descriptor 5.
abbrev connected : Pool
connected =
    occupy
      (record raw_pool {
        maxi = 1;
        connfd = λ i. none;
        locked = λ i. false;
        maxfd = 3;
        read_set = λ fd. fd == 3;
        nready = 0;
      })
      0 5 (replicate 4_096 0)

abbrev one_client : Server Disk
one_client = record { pool = record connected { nready = 1 }; jobs = []; state = small_disk }

abbrev with_job : Server Disk
with_job = record one_client {
  pool = (dispatch is_five one_client.pool []).0;
  jobs = (dispatch is_five one_client.pool []).1;
}

one_client-Reach : Reach disk_callbacks 3 raw_pool small_disk one_client
unfolding init_pool add_conn free_slot
one_client-Reach =
    later (later (later start (wait 1)) (accept 5 (replicate 4_096 0) connected small_disk refl))
      (wait 1)

with_job-Reach : Reach disk_callbacks 3 raw_pool small_disk with_job
with_job-Reach = later one_client-Reach (add_jobs is_five)

Reach-IsValid_example : IsValid with_job.pool with_job.jobs
Reach-IsValid_example = Reach-IsValid disk_callbacks 3 raw_pool small_disk with_job with_job-Reach

-- The client is gone: `recv` ends the connection.
abbrev gone : Io
gone = record { recvs = closed ∷ []; sends = [] }

abbrev fresh : TcpBuffer
fresh = init_buffer (replicate 4_096 0)

abbrev after_close : Pool
after_close = unlock (close_slot (store_buffers with_job.pool 0 fresh fresh) 0) 0

closes :
    handle_read disk_callbacks 0 gone with_job.pool small_disk ≡ some (after_close, small_disk, [])
unfolding handle_read handle_received read_to_buffer send_buffer init_buffer occupy dispatch
    dispatch_from
closes = refl

has_job : 0 < occurrences 0 with_job.jobs
unfolding dispatch dispatch_from occupy
has_job = omega arith

handle_read-releases_example :
    (after_close.locked 0 ≡ false) × (occurrences 0 (finished 0 with_job.jobs) ≡ 0)
handle_read-releases_example =
    handle_read-releases disk_callbacks 3 raw_pool small_disk with_job 0 gone after_close small_disk
      [] with_job-Reach has_job closes

read_to_buffer_lem_example :
    (n : ℕ) × Took (received hi ∷ []) 0 empty_buffer (pos 2) (stored empty_buffer hi) n
read_to_buffer_lem_example =
    read_to_buffer_lem (received hi ∷ []) 0 empty_buffer (pos 2) (stored empty_buffer hi)
      empty_buffer-IsValid (omega arith, tt)
      (read_to_buffer_short hi [] 0 empty_buffer (omega arith) (omega arith))

-- A buffer in which one message waits.
abbrev one_message : TcpBuffer
one_message = stored empty_buffer (frame hi)

one_message-queued : Frames.IsValid one_message × (queued one_message ≡ frames (hi ∷ []) ++ [])
unfolding be32
one_message-queued =
    let (v, q) = stored-queued empty_buffer (frame hi) empty_buffer-IsValid (omega arith) in
    (v, q ∙ ap (λ t. t ++ frame hi) empty_buffer-queued)

abbrev pub nothing_handled : Handling Disk
nothing_handled = record { write_buf = empty_buffer; close_flag = false; state = small_disk }

handle_messages-frames_example :
    Frames.IsValid (consumed one_message (hi ∷ []))
    × (queued (consumed one_message (hi ∷ [])) ≡ [])
    × (handle_messages 2 disk_callbacks 0 one_message nothing_handled
        ≡ with_buffer disk_callbacks 0
            (consumed one_message (hi ∷ []))
            (deliver_all disk_callbacks 0 (hi ∷ []) nothing_handled))
handle_messages-frames_example =
    handle_messages-frames disk_callbacks 0 2 (hi ∷ []) [] one_message nothing_handled
      one_message-queued.0 one_message-queued.1 (inl (omega arith)) (omega arith)
