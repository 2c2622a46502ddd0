-- ===== src/TcpBuffer.antt =====
-- lib/tcp_buffer.c: a byte buffer between two indices, and messages framed by a length word.
-- `recv` and `send` are the system's: a call's result is an event, and a loop runs over the events.
pub mod Frames
pub mod Sending
pub mod Receiving
use cs2310_prj.Base.{
  ◌/◌, ℕ, suc, ◌+◌, ◌-◌, ◌<◌, ◌≡◌, Bool, true, false, ◌&&◌, Option, none, some, List, [], ◌∷◌, ◌++◌,
  ltb, leb, if◌then◌else◌, ◌==◌, length, take, replicate, slice, splice, ℤ, pos, negsuc, be32,
  from_be32,
}

abbrev pub tcp_buf_size : ℕ
tcp_buf_size = 4096

pub record TcpBuffer : Type 0 where
  pub read_index : ℕ
  pub write_index : ℕ
  pub buf : List ℕ

-- A fresh buffer: `malloc` leaves the bytes to chance, and they are given as `garbage`.
unfoldable pub init_buffer : List ℕ → TcpBuffer
init_buffer garbage = record { read_index = 0; write_index = 0; buf = garbage }

unfoldable pub adjust_buffer : TcpBuffer → TcpBuffer
adjust_buffer b =
    if ltb (tcp_buf_size / 2) b.read_index
    then (if leb b.read_index b.write_index && leb b.write_index tcp_buf_size
        then record {
          read_index = 0;
          write_index = b.write_index - b.read_index;
          buf = splice 0 (slice b.read_index (b.write_index - b.read_index) b.buf) b.buf;
        }
        else b)
    else b

unfoldable pub recycle_write : TcpBuffer → ℕ → TcpBuffer
recycle_write b len =
    if ltb tcp_buf_size (b.write_index + len)
    then b
    else adjust_buffer (record b { write_index = b.write_index + len })

unfoldable pub recycle_read : TcpBuffer → ℕ → TcpBuffer
recycle_read b len =
    if ltb tcp_buf_size (b.read_index + len)
    then b
    else adjust_buffer (record b { read_index = b.read_index + len })

-- The two stores of a message, its bytes and then its length word, and the step over them.
unfoldable pub put_frame : TcpBuffer → List ℕ → ℕ → TcpBuffer
put_frame b body len =
    recycle_write
      (record b {
        buf = splice b.write_index (be32 len) (splice (b.write_index + 4) (take len body) b.buf);
      })
      (len + 4)

unfoldable pub buffer_append : TcpBuffer → List ℕ → ℤ → TcpBuffer
buffer_append b s (negsuc _) = b
buffer_append b s (pos len) =
    if ltb (tcp_buf_size - b.write_index) (len + 4) then b else put_frame b s len

abbrev pub reply : TcpBuffer → List ℕ → ℤ → TcpBuffer
reply = buffer_append

-- "Yes " and "No ".
abbrev pub yes_prefix : List ℕ
yes_prefix = b'Y' ∷ b'e' ∷ b's' ∷ b' ' ∷ []

abbrev pub no_prefix : List ℕ
no_prefix = b'N' ∷ b'o' ∷ b' ' ∷ []

-- The body is stored in two pieces, the prefix and, if there is any, the text behind it.
unfoldable pub reply_with_yes : TcpBuffer → List ℕ → ℤ → TcpBuffer
reply_with_yes b s (negsuc _) = b
reply_with_yes b s (pos len) =
    let total = len + 4 in
    if ltb (tcp_buf_size - b.write_index) (total + 4)
    then b
    else (let prefixed = splice (b.write_index + 4) yes_prefix b.buf in
        let body =
          if ltb 4 total then splice (b.write_index + 8) (take len s) prefixed else prefixed in
        recycle_write (record b { buf = splice b.write_index (be32 total) body }) (total + 4))

unfoldable pub reply_with_no : TcpBuffer → List ℕ → ℤ → TcpBuffer
reply_with_no b s (negsuc _) = b
reply_with_no b s (pos len) =
    let total = len + 3 in
    if ltb (tcp_buf_size - b.write_index) (total + 4)
    then b
    else (let prefixed = splice (b.write_index + 4) no_prefix b.buf in
        let body =
          if ltb 3 total then splice (b.write_index + 7) (take len s) prefixed else prefixed in
        recycle_write (record b { buf = splice b.write_index (be32 total) body }) (total + 4))

-- The result of `buffer_next`, and what it stores through `out`.
unfoldable pub buffer_next : TcpBuffer → ℤ × Option (List ℕ)
buffer_next b =
    let avail = b.write_index - b.read_index in
    let plen = from_be32 (slice b.read_index 4 b.buf) in
    if ltb avail 4
    then (pos 0, none)
    else (if ltb (tcp_buf_size - 4) plen
        then (negsuc 0, none)
        else (if ltb avail (4 + plen)
            then (pos 0, none)
            else (pos plen, some (slice (b.read_index + 4) plen b.buf))))

-- What `recv` returns: some bytes, a call to be repeated, or the end of the connection.
pub data Recv : Type 0 where
  received : List ℕ → Recv
  retry : Recv
  closed : Recv

-- `none` if the events run out, which is a call that still waits.
unfoldable pub read_to_buffer : List Recv → ℕ → TcpBuffer → Option (ℤ × TcpBuffer)
read_to_buffer [] count b = if tcp_buf_size - b.write_index == 0 then some (pos count, b) else none
read_to_buffer (closed ∷ events) count b =
    if tcp_buf_size - b.write_index == 0 then some (pos count, b) else some (negsuc 0, b)
read_to_buffer (retry ∷ events) count b =
    let rest = read_to_buffer events count b in
    if tcp_buf_size - b.write_index == 0 then some (pos count, b) else rest
read_to_buffer (received bytes ∷ events) count b =
    let writeable = tcp_buf_size - b.write_index in
    let ret = length bytes in
    let b' = recycle_write (record b { buf = splice b.write_index bytes b.buf }) ret in
    let rest = read_to_buffer events (count + ret) b' in
    if writeable == 0
    then some (pos count, b)
    else (if ret == 0
        then some (negsuc 0, b)
        else (if ltb ret writeable then some (pos (count + ret), b') else rest))

abbrev sent {ℓ} : {A : Type ℓ} → List ℕ → Option (A × List ℕ) → Option (A × List ℕ)
sent bytes none = none
sent bytes (some (b, more)) = some (b, bytes ++ more)

-- The results of `send` (0 for an error), and the bytes that went out.
unfoldable pub send_buffer : List ℕ → TcpBuffer → Option (TcpBuffer × List ℕ)
send_buffer [] b = if ltb b.read_index b.write_index then none else some (b, [])
send_buffer (ret ∷ results) b =
    let rest = send_buffer results (recycle_read b ret) in
    if ltb b.read_index b.write_index
    then (if ret == 0 then some (b, []) else sent (slice b.read_index ret b.buf) rest)
    else some (b, [])
