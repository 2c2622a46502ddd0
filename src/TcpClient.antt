-- ===== src/TcpClient.antt =====
-- lib/tcp_utils.c: a client's connection, and the loops of disk/src/client.c and fs/src/client.c on
-- it. What `recv` and `send` deliver is given as events.
pub mod Delivery
pub mod Calls
pub mod DiskClient
use cs2310_prj.Base.{
  ℕ, ◌+◌, ◌-◌, ◌<◌, Bool, true, false, Option, none, some, List, [], ◌∷◌, ◌++◌, ltb, if◌then◌else◌,
  ◌==◌, length, slice, int_max, ℤ, pos, negsuc,
}
use cs2310_prj.Base.Text.{c_str, str_eq}
use cs2310_prj.TcpBuffer.{
  TcpBuffer, Recv, init_buffer, buffer_append, send_buffer, read_to_buffer, recycle_read,
}
use cs2310_prj.TcpServer.{message_at, is_positive}

pub record Client : Type 0 where
  pub read_buf : TcpBuffer
  pub write_buf : TcpBuffer

-- `garbage` is what `malloc` finds in the new buffers.
unfoldable pub client_init : List ℕ → Client
client_init garbage = record { read_buf = init_buffer garbage; write_buf = init_buffer garbage }

abbrev pub with_write_buf : Client → Option (TcpBuffer × List ℕ) → Option (Client × List ℕ)
with_write_buf c none = none
with_write_buf c (some (wb, out)) = some (record c { write_buf = wb }, out)

-- The client and the bytes that went out.
unfoldable pub client_send : List ℕ → Client → List ℕ → ℤ → Option (Client × List ℕ)
client_send sends c msg len =
    with_write_buf c (send_buffer sends (buffer_append c.write_buf msg len))

-- How a call of `client_recv` ends: with a message; with 0, as the connection is closed; with the
-- end of the program, as the message is longer than `max_len`; or in a crash, as its length is
-- negative or overflows when 4 is added.
pub data Reception : Type 0 where
  message : List ℕ → Reception
  connection_closed : Reception
  too_small : Reception
  crash : Reception

abbrev pub take_reply :
    ℤ → ℕ → Client → (Client → Option (Reception × Client)) → Option (Reception × Client)
take_reply (negsuc _) max_len c rest = some (crash, c)
take_reply (pos len) max_len c rest =
    if ltb int_max (len + 4)
    then some (crash, c)
    else (if ltb (c.read_buf.write_index - c.read_buf.read_index) (len + 4)
        then rest c
        else (if ltb max_len len
            then some (too_small, c)
            else some (
              message (slice (c.read_buf.read_index + 4) len c.read_buf.buf),
              record c { read_buf = recycle_read c.read_buf (len + 4) },
            )))

-- One round: what is in the buffer after a call of `read_to_buffer`.
abbrev pub recv_round :
    ℕ
    → Client
    → (Client → Option (Reception × Client))
    → Option (ℤ × TcpBuffer)
    → Option (Reception × Client)
recv_round max_len c rest none = none
recv_round max_len c rest (some (count, rb)) =
    if is_positive count
    then (if ltb (rb.write_index - rb.read_index) 4
        then rest (record c { read_buf = rb })
        else take_reply (message_at rb) max_len (record c { read_buf = rb }) rest)
    else some (connection_closed, record c { read_buf = rb })

-- The events of each round. `none` if they end while the client still waits.
unfoldable pub client_recv : List (List Recv) → ℕ → Client → Option (Reception × Client)
client_recv [] max_len c = none
client_recv (events ∷ rounds) max_len c =
    recv_round max_len c (client_recv rounds max_len) (read_to_buffer events 0 c.read_buf)

-- One round of the loop of `main` of disk/src/client.c and fs/src/client.c: the line that `fgets`
-- delivers, and the events of its request and of its reply.
pub record Round : Type 0 where
  pub line : List ℕ
  pub sends : List ℕ
  pub recvs : List (List Recv)

-- "Bye!"
abbrev pub bye : List ℕ
bye = b'B' ∷ b'y' ∷ b'e' ∷ b'!' ∷ []

abbrev pub then_print : List ℕ → Option (List ℕ) → Option (List ℕ)
then_print out none = none
then_print out (some more) = some (out ++ more)

-- A closed connection prints an empty line, and the loop goes on. A message that is too long ends
-- the program.
abbrev pub show_reply : (Client → Option (List ℕ)) → Option (Reception × Client) → Option (List ℕ)
show_reply rest none = none
show_reply rest (some (message s, c)) =
    let more = rest c in
    if str_eq (c_str s) bye then some (c_str s ++ 10 ∷ []) else then_print (c_str s ++ 10 ∷ []) more
show_reply rest (some (connection_closed, c)) = then_print (10 ∷ []) (rest c)
show_reply rest (some (too_small, c)) = some []
show_reply rest (some (crash, c)) = none

abbrev pub await_reply :
    List (List Recv) → (Client → Option (List ℕ)) → Option (Client × List ℕ) → Option (List ℕ)
await_reply recvs rest none = none
await_reply recvs rest (some (c, out)) = show_reply rest (client_recv recvs 4_096 c)

-- What the program prints. `none` is a crash, or events that end while it still waits.
unfoldable pub client_main : List Round → Client → Option (List ℕ)
client_main [] c = some []
client_main (r ∷ rounds) c =
    await_reply r.recvs (client_main rounds)
      (client_send r.sends c (c_str r.line ++ 0 ∷ []) (pos (length (c_str r.line) + 1)))
