-- ===== src/TcpClient/Delivery.antt =====
-- `client_recv`, lib/tcp_utils.c, on a message that arrives in pieces.
use mathlib.Core.List.{append_assoc}
use cs2310_prj.Base.{
  ℕ, suc, ◌+◌, ◌-◌, ◌≤◌, ◌<◌, ◌≡◌, refl, sym, ap, ◌∙◌, true, false, Option, some, List, [], ◌∷◌,
  ◌++◌, arith, ltb, length, length-append, take, drop, slice, pos, int_max, be32, Bool-cases, inl,
  inr,
}
use cs2310_prj.TcpBuffer.{TcpBuffer, Recv, received, tcp_buf_size, recycle_read}
use cs2310_prj.TcpBuffer.Frames.{
  IsValid, queued, frame, length-queued, length-be32, slice-queued, avail, head_word, body,
}
use cs2310_prj.TcpBuffer.Receiving.{stored, stored-queued, read_to_buffer_short}
use cs2310_prj.TcpServer.Messages.{small_word, recycle_one}
use cs2310_prj.TcpClient.{Client, Reception, message, recv_round, client_recv}

abbrev pub concat : List (List ℕ) → List ℕ
concat [] = []
concat (c ∷ cs) = c ++ concat cs

-- Each call of `read_to_buffer` finds one piece, not empty, and smaller than the room that is left.
abbrev pub Arrive : List (List ℕ) → TcpBuffer → Type 0
Arrive [] b = Unit {0}
Arrive (c ∷ cs) b =
    (0 < length c) × (length c < tcp_buf_size - b.write_index) × Arrive cs (stored b c)

abbrev pub rounds_of : List (List ℕ) → List (List Recv)
rounds_of [] = []
rounds_of (c ∷ cs) = (received c ∷ []) ∷ rounds_of cs

-- The front of a list that is the beginning of another.
pub split_front :
    (fs xs ys rs : List ℕ)
    → xs ++ ys ≡ fs ++ rs
    → length fs ≤ length xs
    → (zs : List ℕ) × (xs ≡ fs ++ zs) × (zs ++ ys ≡ rs)
split_front [] xs ys rs e h = (xs, refl, e)
split_front (f ∷ fs) [] ys rs e h = absurd (omega arith)
split_front (f ∷ fs) (x ∷ xs) ys rs e h =
    let tails : xs ++ ys ≡ fs ++ rs = cc in
    let head : x ≡ f = cc in
    let (zs, p, q) = split_front fs xs ys rs tails (omega (arith, h)) in
    (zs, ap (λ t. x ∷ t) p ∙ ap (λ y. y ∷ (fs ++ zs)) head, q)

abbrev pub with_read_buf : Client → TcpBuffer → Client
with_read_buf c b = record c { read_buf = b }

module _ (max_len : ℕ) (c : Client) (rest : Client → Option (Reception × Client)) (s : List ℕ)
    (short : length s ≤ 4_092) where
  round_waits :
      (n : ℕ) (b : TcpBuffer) (more behind : List ℕ)
      → 0 < n
      → IsValid b
      → queued b ++ more ≡ frame s ++ behind
      → length (queued b) < 4 + length s
      → recv_round max_len c rest (some (pos n, b)) ≡ rest (with_read_buf c b)
  unfolding be32
  round_waits n b more behind some_bytes v q part =
      let size = length-queued b v in
      let positive : ltb 0 n ≡ true = ground arith in
      elim (Bool-cases (ltb (b.write_index - b.read_index) 4)) [
        | inl few ↦ rw (positive, few)
        | inr word ↦
            let (zs, p, r) =
              split_front (be32 (length s)) (queued b) more (s ++ behind)
                (q ∙ append_assoc (be32 (length s)) s behind)
                (ground (arith, length-be32 (length s))) in
            let start : b.read_index + 0 ≡ b.read_index = omega arith in
            let e : slice b.read_index 4 b.buf ≡ be32 (length s) =
              ap (λ i. slice i 4 b.buf) (sym start)
              ∙ slice-queued b 0 4 (ground arith)
              ∙ ap (take 4) p in
            let incomplete : ltb (b.write_index - b.read_index) (length s + 4) ≡ true =
              ground arith in
            let small : ltb int_max (length s + 4) ≡ false = ground arith in
            rw (positive, word, e, small_word (length s) (omega arith), small, incomplete)
      ]

  round_ends :
      (n : ℕ) (b : TcpBuffer) (behind : List ℕ)
      → 0 < n
      → IsValid b
      → queued b ≡ frame s ++ behind
      → length s ≤ max_len
      → recv_round max_len c rest (some (pos n, b))
        ≡ some (message s, with_read_buf c (recycle_read b (length s + 4)))
  round_ends n b behind some_bytes v q fits =
      let size = avail b s behind v q in
      let positive : ltb 0 n ≡ true = ground arith in
      let word : ltb (b.write_index - b.read_index) 4 ≡ false = ground arith in
      let whole : ltb (b.write_index - b.read_index) (length s + 4) ≡ false = ground arith in
      let enough : ltb max_len (length s) ≡ false = ground arith in
      let small : ltb int_max (length s + 4) ≡ false = ground arith in
      rw (
        positive,
        word,
        head_word b s behind v q,
        small_word (length s) (omega arith),
        small,
        whole,
        enough,
        body b s behind v q,
      )

-- A client whose read buffer is valid and holds no whole message calls `client_recv`; over a socket
-- that delivers a message, and perhaps more behind it, in pieces of any sizes that find room, it
-- returns the message, if `max_len` is not below its length, after as many of the pieces as make it
-- up. What waits in its valid buffer then, with the pieces that are still to come, is what stands
-- behind the message.
pub client_recv-frame :
    (pieces : List (List ℕ)) (max_len : ℕ) (c : Client) (s behind : List ℕ)
    → IsValid c.read_buf
    → Arrive pieces c.read_buf
    → length (queued c.read_buf) < 4 + length s
    → queued c.read_buf ++ concat pieces ≡ frame s ++ behind
    → length s ≤ 4_092
    → length s ≤ max_len
    → (b : TcpBuffer) × (n : ℕ) × (client_recv (rounds_of pieces) max_len c
        ≡ some (message s, with_read_buf c b))
      × IsValid b
      × (queued b ++ concat (drop n pieces) ≡ behind)
unfolding client_recv
client_recv-frame [] max_len c s behind v a part q short fits = absurd (
    omega (
      arith,
      part,
      ap length q,
      length-append (queued c.read_buf) [],
      length-append (frame s) behind,
      length-append (be32 (length s)) s,
      length-be32 (length s),
    ))
client_recv-frame (x ∷ pieces) max_len c s behind v (more, room, a) part q short fits =
    let b = stored c.read_buf x in
    let read = read_to_buffer_short x [] 0 c.read_buf more room in
    let (v1, q1) = stored-queued c.read_buf x v (omega (arith, room)) in
    let waits : queued b ++ concat pieces ≡ frame s ++ behind =
      ap (λ t. t ++ concat pieces) q1 ∙ append_assoc (queued c.read_buf) x (concat pieces) ∙ q in
    elim (Bool-cases (ltb (length (queued b)) (4 + length s))) [
      | inl cut ↦
          let (b', n, r, v2, q2) =
            client_recv-frame pieces max_len (with_read_buf c b) s behind v1 a (ground arith) waits
              short fits in
          let waiting =
            round_waits max_len c (client_recv (rounds_of pieces) max_len) s short (0 + length x) b
              (concat pieces) behind (omega (arith, more)) v1 waits (ground arith) in
          (b', suc n, rw read (waiting ∙ r), v2, q2)
      | inr whole ↦
          let size : length (frame s) ≡ 4 + length s =
            omega (arith, length-append (be32 (length s)) s, length-be32 (length s)) in
          let (zs, p, front) =
            split_front (frame s) (queued b) (concat pieces) behind waits (ground arith) in
          let (v2, q2) = recycle_one b s zs v1 p in
          let ends =
            round_ends max_len c (client_recv (rounds_of pieces) max_len) s short (0 + length x) b
              zs (omega (arith, more)) v1 p fits in
          (
            recycle_read b (length s + 4),
            1,
            rw read ends,
            v2,
            ap (λ t. t ++ concat pieces) q2 ∙ front,
          )
    ]
