-- ===== src/TcpClient/Calls.antt =====
-- A request of a client and its reply, lib/tcp_utils.c on both sides of a connection.
use mathlib.Core.List.{append-nil}
use cs2310_prj.Base.{
  drop-append, ℕ, ◌+◌, ◌-◌, ◌≤◌, ◌<◌, ◌≡◌, refl, sym, ap, ◌∙◌, true, false, some, List, [], ◌∷◌,
  ◌++◌, arith, ltb, ◌==◌, length, length-append, drop, slice, pos, be32, inl,
}
use cs2310_prj.TcpBuffer.{
  TcpBuffer, received, tcp_buf_size, recycle_read, buffer_append, send_buffer,
}
use cs2310_prj.TcpBuffer.Frames.{
  IsValid, queued, frame, length-queued, length-be32, Fits, queued-buffer_append,
  queued-recycle_read,
}
use cs2310_prj.TcpServer.{Pool, Callbacks, Handling, handle_read, store_buffers, unlock, deliver}
use cs2310_prj.TcpServer.Messages.{frames, deliver_all}
use cs2310_prj.TcpServer.Runs.{beginning, handle_read-messages}
use cs2310_prj.TcpBuffer.Sending.{waiting-recycle_read}
use cs2310_prj.TcpClient.{Client, message, client_send, client_recv}
use cs2310_prj.TcpClient.Delivery.{concat, Arrive, rounds_of, with_read_buf, client_recv-frame}

-- A buffer between two calls.
pub record IsIdle (b : TcpBuffer) : Type 0 where
  pub valid : IsValid b
  pub empty : queued b ≡ []

-- One `send` that takes all that waits.
send_buffer_all :
    (b : TcpBuffer) (n : ℕ)
    → IsValid b
    → length (queued b) ≡ n
    → 0 < n
    → (send_buffer (n ∷ []) b ≡ some (recycle_read b n, queued b)) × IsIdle (recycle_read b n)
unfolding send_buffer queued
send_buffer_all b n v e more =
    let size : n ≡ b.write_index - b.read_index = sym e ∙ length-queued b v in
    let (v', rest) = queued-recycle_read b n v (omega (arith, size)) in
    let left = waiting-recycle_read b n v (omega (arith, size)) in
    let none_left : drop n (queued b) ≡ [] =
      ap (drop n) (sym (append-nil (queued b))) ∙ drop-append (queued b) [] n (sym e) in
    let waits : ltb b.read_index b.write_index ≡ true = ground arith in
    let took : (n == 0) ≡ false = ground arith in
    let over : ltb (recycle_read b n).read_index (recycle_read b n).write_index ≡ false =
      ground arith in
    let all : slice b.read_index n b.buf ++ [] ≡ queued b =
      append-nil (slice b.read_index n b.buf) ∙ ap (λ k. slice b.read_index k b.buf) size in
    (
      rw (waits, took, over) (ap (λ out. some (recycle_read b n, out)) all),
      record { valid = v'; empty = rest ∙ none_left },
    )

-- A message that is appended to an idle buffer and sent.
pub append_sent :
    (b : TcpBuffer) (s : List ℕ)
    → IsIdle b
    → Fits b (length s)
    → (b' : TcpBuffer) × (send_buffer ((4 + length s) ∷ []) (buffer_append b s (pos (length s)))
        ≡ some (b', frame s))
      × IsIdle b'
append_sent b s idle h =
    let (v, q) = queued-buffer_append b s idle.valid h in
    let q' : queued (buffer_append b s (pos (length s))) ≡ frame s =
      q ∙ ap (λ t. t ++ frame s) idle.empty in
    let size : length (frame s) ≡ 4 + length s =
      omega (arith, length-append (be32 (length s)) s, length-be32 (length s)) in
    let (sent, idle') =
      send_buffer_all (buffer_append b s (pos (length s))) (4 + length s) v (ap length q' ∙ size)
        (omega arith) in
    (recycle_read (buffer_append b s (pos (length s))) (4 + length s), rw q' at sent, idle')

client_send-frame :
    (c : Client) (s : List ℕ)
    → IsIdle c.write_buf
    → Fits c.write_buf (length s)
    → (wb : TcpBuffer) × (client_send ((4 + length s) ∷ []) c s (pos (length s))
        ≡ some (record c { write_buf = wb }, frame s))
      × IsIdle wb
unfolding client_send
client_send-frame c s idle h =
    let (wb, sent, idle') = append_sent c.write_buf s idle h in (wb, rw sent, idle')

pub front_nil : (xs ys : List ℕ) → xs ++ ys ≡ [] → xs ≡ []
front_nil [] ys e = refl
front_nil (x ∷ xs) ys e = absurd (cc)

client_recv-reply :
    (c : Client) (max_len : ℕ) (rep : List ℕ) (pieces : List (List ℕ))
    → IsIdle c.read_buf
    → Arrive pieces c.read_buf
    → concat pieces ≡ frame rep
    → length rep ≤ 4_092
    → length rep ≤ max_len
    → (b : TcpBuffer) × (client_recv (rounds_of pieces) max_len c
        ≡ some (message rep, with_read_buf c b))
      × IsIdle b
client_recv-reply c max_len rep pieces idle arrive whole short fits =
    let q : queued c.read_buf ++ concat pieces ≡ frame rep ++ [] =
      ap (λ t. t ++ concat pieces) idle.empty ∙ whole ∙ sym (append-nil (frame rep)) in
    let (b, n, e, v, rest) =
      client_recv-frame pieces max_len c rep [] idle.valid arrive
        (omega (arith, ap length idle.empty)) q short fits in
    (b, e, record { valid = v; empty = front_nil (queued b) (concat (drop n pieces)) rest })

module _ {S : Type 0} (cb : Callbacks S) (i : ℕ) where
  -- One message that is answered by one.
  pub answer :
      (p : Pool) (s s' : S) (req rep : List ℕ)
      → IsIdle (p.read_buf i)
      → IsIdle (p.write_buf i)
      → 4 + length req < tcp_buf_size - (p.read_buf i).write_index
      → Fits (p.write_buf i) (length rep)
      → cb.on_recv i (p.write_buf i) req s
        ≡ some (pos 0, buffer_append (p.write_buf i) rep (pos (length rep)), s')
      → (rb : TcpBuffer) × (wb : TcpBuffer) × (handle_read cb i
            (record { recvs = received (frame req) ∷ []; sends = (4 + length rep) ∷ [] })
            p
            s
          ≡ some (unlock (store_buffers p i rb wb) i, s', frame rep))
        × IsIdle rb
        × IsIdle wb
  unfolding deliver
  answer p s s' req rep ready idle room fits replied =
      let size : length (frame req) ≡ 4 + length req =
        omega (arith, length-append (be32 (length req)) req, length-be32 (length req)) in
      let (wb, sent, idle') = append_sent (p.write_buf i) rep idle fits in
      let h : Handling S = record {
        write_buf = buffer_append (p.write_buf i) rep (pos (length rep));
        close_flag = false;
        state = s';
      } in
      let delivered : deliver_all cb i (req ∷ []) (beginning cb i p s) ≡ some h = rw replied in
      let one : queued (p.read_buf i) ++ frame req ≡ frames (req ∷ []) ++ [] =
        ap (λ t. t ++ frame req) ready.empty
        ∙ sym (append-nil (frame req))
        ∙ sym (append-nil (frame req ++ [])) in
      let (rb, run, v, q) =
        handle_read-messages cb i p s (req ∷ []) (frame req) [] ((4 + length rep) ∷ []) h wb
          (frame rep) ready.valid (omega (arith, size)) (omega (arith, size, room)) one
          (inl (omega arith)) delivered refl sent in
      (rb, wb, run, record { valid = v; empty = q }, idle')

  -- A call: the client sends a request, the job of its slot reads it, answers it and sends the
  -- reply, and the client receives the reply in pieces. All buffers are idle again behind it.
  abbrev pub IsCall : Pool → S → S → Client → ℕ → List ℕ → List ℕ → List (List ℕ) → Type 0
  IsCall p s s' c max_len req rep pieces =
      (sb : TcpBuffer) × (rb : TcpBuffer) × (wb : TcpBuffer) × (cb' : TcpBuffer) × (client_send
          ((4 + length req) ∷ []) c req (pos (length req))
        ≡ some (record c { write_buf = sb }, frame req))
      × (handle_read cb i
            (record { recvs = received (frame req) ∷ []; sends = (4 + length rep) ∷ [] }) p s
          ≡ some (unlock (store_buffers p i rb wb) i, s', frame rep))
      × (client_recv (rounds_of pieces) max_len (record c { write_buf = sb })
          ≡ some (message rep, record { read_buf = cb'; write_buf = sb }))
      × IsIdle sb
      × IsIdle rb
      × IsIdle wb
      × IsIdle cb'

  pub call :
      (p : Pool) (s s' : S) (c : Client) (max_len : ℕ) (req rep : List ℕ) (pieces : List (List ℕ))
      → IsIdle (p.read_buf i)
      → IsIdle (p.write_buf i)
      → IsIdle c.read_buf
      → IsIdle c.write_buf
      → Fits c.write_buf (length req)
      → 4 + length req < tcp_buf_size - (p.read_buf i).write_index
      → Fits (p.write_buf i) (length rep)
      → cb.on_recv i (p.write_buf i) req s
        ≡ some (pos 0, buffer_append (p.write_buf i) rep (pos (length rep)), s')
      → Arrive pieces c.read_buf
      → concat pieces ≡ frame rep
      → length rep ≤ max_len
      → IsCall p s s' c max_len req rep pieces
  call p s s' c max_len req rep pieces ready idle c_ready c_idle c_room room fits replied arrive
        whole enough =
      let (sb, sent, sb_idle) = client_send-frame c req c_idle c_room in
      let (rb, wb, run, rb_idle, wb_idle) = answer p s s' req rep ready idle room fits replied in
      let (b, got, b_idle) =
        client_recv-reply (record c { write_buf = sb }) max_len rep pieces c_ready arrive whole
          (omega (arith, fits)) enough in
      (sb, rb, wb, b, sent, run, got, sb_idle, rb_idle, wb_idle, b_idle)
