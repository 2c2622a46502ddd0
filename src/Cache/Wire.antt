-- ===== src/Cache/Wire.antt =====
-- `fetch_block_from_server` and `push_block_to_server` of fs/src/cache.c. The socket is a
-- `Transport`: what a request makes of the server, and the payload of its reply, if one comes.
-- `pending` are the replies in `bds_rbuf` that have not been recycled, oldest first;
-- TcpBuffer/Frames.antt shows that a buffer is such a queue of messages.
use cs2310_prj.Base.{
  ℕ, ◌+◌, ◌/◌, ◌%◌, not, ◌||◌, Option, none, some, List, [], ◌∷◌, ◌++◌, if◌then◌else◌, ltb, length,
  take, slice,
}
use cs2310_prj.Base.Text.{show_nat, str_eq}
use cs2310_prj.TcpBuffer.{yes_prefix}
use cs2310_prj.Disk.{block_size}
use cs2310_prj.Cache.{Backend}

pub record Transport : Type 1 where
  pub Server : Type 0
  pub exchange : List ℕ → Server → Server × Option (List ℕ)

pub record Link (Server : Type 0) : Type 0 where
  pub server : Server
  pub pending : List (List ℕ)

abbrev pub queue_reply : List (List ℕ) → Option (List ℕ) → List (List ℕ)
queue_reply pending none = pending
queue_reply pending (some payload) = pending ++ payload ∷ []

-- "R c s\n" for the block's cylinder and sector.
abbrev pub fetch_request : ℕ → ℕ → List ℕ
fetch_request nsec b =
    b'R' ∷ b' ' ∷ (show_nat (b / nsec) ++ b' ' ∷ (show_nat (b % nsec) ++ 10 ∷ []))

-- "W c s 512 ", the block and "\n".
abbrev pub push_request : ℕ → ℕ → List ℕ → List ℕ
push_request nsec b x =
    b'W'
    ∷ b' '
    ∷ (show_nat (b / nsec)
        ++ b' ' ∷ (show_nat (b % nsec) ++ b' ' ∷ (show_nat block_size ++ b' ' ∷ (x ++ 10 ∷ []))))

module _ (T : Transport) where
  unfoldable pub request : List ℕ → Link T.Server → Link T.Server
  request msg l =
      let got = T.exchange msg l.server in
      record { server = got.0; pending = queue_reply l.pending got.1 }

  -- A reply that is too short or does not begin with "Yes " is refused, and is not recycled.
  unfoldable pub receive_block : List (List ℕ) → List ℕ → Link T.Server → Link T.Server × List ℕ
  receive_block [] buf l = (l, buf)
  receive_block (payload ∷ rest) buf l =
      if ltb (length payload) (4 + block_size) || not (str_eq (take 4 payload) yes_prefix)
      then (l, buf)
      else (record l { pending = rest }, slice 4 block_size payload)

  unfoldable pub fetch_block_from_server : ℕ → ℕ → List ℕ → Link T.Server → Link T.Server × List ℕ
  fetch_block_from_server nsec b buf l =
      let asked = request (fetch_request nsec b) l in receive_block asked.pending buf asked

  -- The acknowledgement is recycled, whatever it says.
  unfoldable pub receive_ack : List (List ℕ) → Link T.Server → Link T.Server
  receive_ack [] l = l
  receive_ack (payload ∷ rest) l = record l { pending = rest }

  unfoldable pub push_block_to_server : ℕ → ℕ → List ℕ → Link T.Server → Link T.Server
  push_block_to_server nsec b x l =
      let asked = request (push_request nsec b (take block_size x)) l in
      receive_ack asked.pending asked

  -- The backend of the cache, for a disk of `nsec` sectors to the cylinder.
  abbrev pub wire_backend : ℕ → Backend
  wire_backend nsec = record {
    State = Link T.Server;
    fetch = fetch_block_from_server nsec;
    push = push_block_to_server nsec;
  }
