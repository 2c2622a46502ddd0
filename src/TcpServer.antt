-- ===== src/TcpServer.antt =====
-- lib/tcp_utils.c: the pool of connections, the thread that reads a connection, and the loop that
-- hands readable connections to the thread pool. What the system calls deliver is given as events.
-- The thread pool is that of lib/thpool.c: it runs each job that it was given, once.
pub mod Messages
pub mod Slots
pub mod Serving
pub mod Runs
pub mod Programs
use cs2310_prj.Base.{
  ℕ, zero, suc, ◌+◌, ◌-◌, Bool, true, false, not, ◌&&◌, ◌||◌, Option, none, some, List, [], ◌∷◌,
  ◌++◌, if◌then◌else◌, ltb, leb, ◌==◌, ℤ, pos, negsuc, is_neg, to_int, int_max, slice, from_be32,
}
use cs2310_prj.Cache.Links.{update}
use cs2310_prj.TcpBuffer.{TcpBuffer, Recv, init_buffer, read_to_buffer, recycle_read, send_buffer}

-- The bound of `select` on descriptors, which is the size of the arrays too.
abbrev pub fd_setsize : ℕ
fd_setsize = 1024

-- `struct tcp_server_pool`, less `ready_set`. A slot without a connection is -1 there, `none` here.
pub record Pool : Type 0 where
  pub maxfd : ℕ
  pub read_set : ℕ → Bool
  pub nready : ℕ
  pub maxi : ℕ
  pub connfd : ℕ → Option ℕ
  pub locked : ℕ → Bool
  pub read_buf : ℕ → TcpBuffer
  pub write_buf : ℕ → TcpBuffer

-- The functions that the program registers, on its own state. `none` is a crash.
pub record Callbacks (S : Type 0) : Type 0 where
  pub on_connection : ℕ → S → Option S
  pub on_recv : ℕ → TcpBuffer → List ℕ → S → Option (ℤ × TcpBuffer × S)
  pub cleanup : ℕ → S → Option S

unfoldable pub init_pool : ℕ → Pool → Pool
init_pool listenfd p = record p {
  maxi = 1;
  connfd = λ i. none;
  locked = λ i. false;
  maxfd = listenfd;
  read_set = λ fd. fd == listenfd;
}

abbrev pub is_free : Option ℕ → Bool
is_free none = true
is_free (some fd) = false

-- The first of the `n` slots from `i` on without a connection.
unfoldable pub free_slot : ℕ → ℕ → (ℕ → Option ℕ) → Option ℕ
free_slot zero i connfd = none
free_slot (suc n) i connfd =
    let rest = free_slot n (i + 1) connfd in if is_free (connfd i) then some i else rest

abbrev pub max : ℕ → ℕ → ℕ
max a b = if ltb a b then b else a

-- `garbage` is what `malloc` finds in the new buffers.
unfoldable pub occupy : Pool → ℕ → ℕ → List ℕ → Pool
occupy p i fd garbage = record p {
  connfd = update p.connfd i (some fd);
  read_buf = update p.read_buf i (init_buffer garbage);
  write_buf = update p.write_buf i (init_buffer garbage);
  read_set = update p.read_set fd true;
  maxfd = max p.maxfd fd;
  maxi = max p.maxi i;
}

abbrev pub one_less : Pool → Pool
one_less p = record p { nready = p.nready - 1 }

module _ {S : Type 0} where
  abbrev pub with_pool : Pool → Option S → Option (Pool × S)
  with_pool p none = none
  with_pool p (some s) = some (p, s)

  -- A client that finds no slot is forgotten; its descriptor stays open.
  abbrev pub place : Callbacks S → Option ℕ → ℕ → List ℕ → Pool → S → Option (Pool × S)
  place cb none fd garbage p s = some (p, s)
  place cb (some i) fd garbage p s = with_pool (occupy p i fd garbage) (cb.on_connection i s)

  unfoldable pub add_conn : Callbacks S → ℕ → List ℕ → Pool → S → Option (Pool × S)
  add_conn cb fd garbage p s = place cb (free_slot fd_setsize 0 p.connfd) fd garbage (one_less p) s

-- What `handle_read` keeps while it handles messages: the write buffer, `close_flag`, the state.
pub record Handling (S : Type 0) : Type 0 where
  pub write_buf : TcpBuffer
  pub close_flag : Bool
  pub state : S

-- The length word as an `int`. A negative one passes the test for a whole message, and `on_recv` is
-- called with it: a crash. One near the largest `int` overflows in the test, which C leaves
-- undefined: a crash too.
abbrev pub message_at : TcpBuffer → ℤ
message_at rb = to_int (from_be32 (slice rb.read_index 4 rb.buf))

module _ {S : Type 0} where
  abbrev pub handled : Bool → Option (ℤ × TcpBuffer × S) → Option (Handling S)
  handled close none = none
  handled close (some (code, wb, s)) =
      some (record { write_buf = wb; close_flag = close || is_neg code; state = s })

  -- One call of `on_recv`.
  unfoldable pub deliver : Callbacks S → ℕ → List ℕ → Handling S → Option (Handling S)
  deliver cb i msg h = handled h.close_flag (cb.on_recv i h.write_buf msg h.state)

  abbrev pub go_on :
      Option (Handling S)
      → (Handling S → Option (TcpBuffer × Handling S))
      → Option (TcpBuffer × Handling S)
  go_on none k = none
  go_on (some h) k = k h

  abbrev pub take_message :
      ℤ
      → Callbacks S
      → ℕ
      → TcpBuffer
      → Handling S
      → (TcpBuffer → Handling S → Option (TcpBuffer × Handling S))
      → Option (TcpBuffer × Handling S)
  take_message (negsuc _) cb i rb h rest = none
  take_message (pos len) cb i rb h rest =
      if ltb int_max (len + 4)
      then none
      else (if ltb (rb.write_index - rb.read_index) (len + 4)
          then some (rb, h)
          else go_on (deliver cb i (slice (rb.read_index + 4) len rb.buf) h)
              (rest (recycle_read rb (len + 4))))

  -- The loop over the messages in the buffer. It ends at an incomplete one.
  unfoldable pub handle_messages :
      ℕ → Callbacks S → ℕ → TcpBuffer → Handling S → Option (TcpBuffer × Handling S)
  handle_messages zero cb i rb h = some (rb, h)
  handle_messages (suc fuel) cb i rb h =
      if ltb (rb.write_index - rb.read_index) 4
      then some (rb, h)
      else take_message (message_at rb) cb i rb h (handle_messages fuel cb i)

-- What `recv` and `send` deliver in one run of `handle_read`.
pub record Io : Type 0 where
  pub recvs : List Recv
  pub sends : List ℕ

-- The slot is given back.
abbrev pub clear_fd : Option ℕ → (ℕ → Bool) → ℕ → Bool
clear_fd none set = set
clear_fd (some fd) set = update set fd false

unfoldable pub close_slot : Pool → ℕ → Pool
close_slot p i = record p {
  read_set = clear_fd (p.connfd i) p.read_set;
  connfd = update p.connfd i none;
}

abbrev pub unlock : Pool → ℕ → Pool
unlock p i = record p { locked = update p.locked i false }

abbrev pub is_positive : ℤ → Bool
is_positive (pos n) = ltb 0 n
is_positive (negsuc n) = false

-- More rounds than a buffer has bytes.
abbrev pub message_fuel : ℕ
message_fuel = 4097

abbrev pub store_buffers : Pool → ℕ → TcpBuffer → TcpBuffer → Pool
store_buffers p i rb wb = record p {
  read_buf = update p.read_buf i rb;
  write_buf = update p.write_buf i wb;
}

module _ {S : Type 0} where
  unfoldable pub handle_received :
      Callbacks S → ℕ → ℤ → TcpBuffer → Handling S → Option (TcpBuffer × Handling S)
  handle_received cb i count rb h =
      if is_positive count then handle_messages message_fuel cb i rb h else some (rb, h)

  -- The end of `handle_read`, after `send_buffer`.
  abbrev pub leave : Callbacks S → ℕ → Bool → Pool → S → Option (Pool × S)
  leave cb i closing p s =
      if closing
      then with_pool (unlock (close_slot p i) i) (cb.cleanup i s)
      else some (unlock p i, s)

  abbrev pub with_output : List ℕ → Option (Pool × S) → Option (Pool × S × List ℕ)
  with_output out none = none
  with_output out (some (p, s)) = some (p, s, out)

  abbrev pub sent_out :
      Callbacks S
      → ℕ
      → Bool
      → Pool
      → TcpBuffer
      → S
      → Option (TcpBuffer × List ℕ)
      → Option (Pool × S × List ℕ)
  sent_out cb i closing p rb s none = none
  sent_out cb i closing p rb s (some (wb, out)) =
      with_output out (leave cb i closing (store_buffers p i rb wb) s)

  abbrev pub send_replies :
      Callbacks S → ℕ → Io → ℤ → Pool → Option (TcpBuffer × Handling S) → Option (Pool × S × List ℕ)
  send_replies cb i io count p none = none
  send_replies cb i io count p (some (rb, h)) =
      sent_out cb i (is_neg count || h.close_flag) p rb h.state (send_buffer io.sends h.write_buf)

  abbrev pub read_in :
      Callbacks S → ℕ → Io → Pool → S → Option (ℤ × TcpBuffer) → Option (Pool × S × List ℕ)
  read_in cb i io p s none = none
  read_in cb i io p s (some (count, rb)) = send_replies cb i io count p (
      handle_received cb i count rb
        (record { write_buf = p.write_buf i; close_flag = false; state = s }))

  -- The pool and the state behind the run, and the bytes that it sent. `none` is a crash, or a run
  -- whose events end while it still waits.
  unfoldable pub handle_read : Callbacks S → ℕ → Io → Pool → S → Option (Pool × S × List ℕ)
  handle_read cb i io p s = read_in cb i io p s (read_to_buffer io.recvs 0 (p.read_buf i))

-- The test of the loop of `server_run` on a slot; a locked one is left to its thread.
abbrev pub is_ready : Option ℕ → (ℕ → Bool) → Bool
is_ready none ready = false
is_ready (some fd) ready = ltb 0 fd && ready fd

abbrev pub lock : Pool → ℕ → Pool
lock p i = record p { locked = update p.locked i true; nready = p.nready - 1 }

-- The loop over the slots: the pool, and the slots for which a job was added, in order.
unfoldable pub dispatch_from : ℕ → ℕ → (ℕ → Bool) → Pool → List ℕ → Pool × List ℕ
dispatch_from zero i ready p jobs = (p, jobs)
dispatch_from (suc n) i ready p jobs =
    if p.nready == 0
    then (p, jobs)
    else (if is_ready (p.connfd i) ready && not (p.locked i)
        then dispatch_from n (i + 1) ready (lock p i) (jobs ++ i ∷ [])
        else dispatch_from n (i + 1) ready p jobs)

unfoldable pub dispatch : (ℕ → Bool) → Pool → List ℕ → Pool × List ℕ
dispatch ready p jobs = dispatch_from (p.maxi + 1) 0 ready p jobs
