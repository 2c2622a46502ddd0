-- ===== src/TcpServer/Messages.antt =====
-- The loop over the messages of a buffer in `handle_read`, lib/tcp_utils.c.
use mathlib.Core.List.{append_assoc}
use cs2310_prj.Base.{
  Bool-cases, ◌⊎◌, ℕ, zero, suc, ◌+◌, ◌-◌, ◌≤◌, ◌<◌, ◌≡◌, refl, sym, ap, ◌∙◌, true, false, Option,
  none, some, List, [], ◌∷◌, ◌++◌, arith, ltb, length, take, slice, pos, to_int, int_max, be32,
  from_be32, from_be32-be32, Option-cases, inl, inr,
}
use cs2310_prj.TcpBuffer.{TcpBuffer, tcp_buf_size, recycle_read}
use cs2310_prj.TcpBuffer.Frames.{
  slice-queued, IsValid, queued, frame, length-queued, avail, head_word, body, buffer_next-frame,
}
use cs2310_prj.TcpServer.{Callbacks, Handling, deliver, go_on, message_at, handle_messages}

-- Messages one behind the other, as they arrive.
abbrev pub frames : List (List ℕ) → List ℕ
frames [] = []
frames (s ∷ msgs) = frame s ++ frames msgs

-- A message that is shorter than its length word says, or than the word itself.
abbrev pub IsIncomplete : List ℕ → Type 0
IsIncomplete rest =
    (length rest < 4)
    ⊎ (from_be32 (take 4 rest) ≤ tcp_buf_size × (length rest < from_be32 (take 4 rest) + 4))

pub small_word : (n : ℕ) → n ≤ 4_096 → to_int (from_be32 (be32 n)) ≡ pos n
unfolding to_int
small_word n h = rw (from_be32-be32 n (omega arith)) (ground arith)

small_int : (n : ℕ) → n ≤ 4_096 → to_int n ≡ pos n
unfolding to_int
small_int n h = ground arith

-- The buffer behind the messages.
abbrev pub consumed : TcpBuffer → List (List ℕ) → TcpBuffer
consumed rb [] = rb
consumed rb (s ∷ msgs) = consumed (recycle_read rb (length s + 4)) msgs

pub recycle_one :
    (rb : TcpBuffer) (s rest : List ℕ)
    → IsValid rb
    → queued rb ≡ frame s ++ rest
    → IsValid (recycle_read rb (length s + 4)) × (queued (recycle_read rb (length s + 4)) ≡ rest)
recycle_one rb s rest v q =
    let n = avail rb s rest v q in
    let e : 4 + length s ≡ length s + 4 = omega arith in
    let (_, v', q') = buffer_next-frame rb s rest v q (omega (arith, v.within, n)) in
    rw (← e) (v', q')

module _ {S : Type 0} (cb : Callbacks S) (i : ℕ) where
  abbrev pub then_deliver :
      Option (Handling S) → (Handling S → Option (Handling S)) → Option (Handling S)
  then_deliver none k = none
  then_deliver (some h) k = k h

  -- Each message is given to `on_recv`, in order, on the state that the one before it left.
  abbrev pub deliver_all : List (List ℕ) → Handling S → Option (Handling S)
  deliver_all [] h = some h
  deliver_all (s ∷ msgs) h = then_deliver (deliver cb i s h) (deliver_all msgs)

  abbrev pub with_buffer : TcpBuffer → Option (Handling S) → Option (TcpBuffer × Handling S)
  with_buffer rb none = none
  with_buffer rb (some h) = some (rb, h)

  stops :
      (fuel : ℕ) (rb : TcpBuffer) (rest : List ℕ) (h : Handling S)
      → IsValid rb
      → queued rb ≡ rest
      → IsIncomplete rest
      → handle_messages (suc fuel) cb i rb h ≡ some (rb, h)
  unfolding handle_messages
  stops fuel rb rest h v q short =
      let n : rb.write_index - rb.read_index ≡ length rest =
        sym (length-queued rb v) ∙ ap length q in
      elim (Bool-cases (ltb (rb.write_index - rb.read_index) 4)) [
        | inl few ↦ rw few refl
        | inr more ↦
            let start : rb.read_index + 0 ≡ rb.read_index = omega arith in
            let word : slice rb.read_index 4 rb.buf ≡ take 4 rest =
              ap (λ r. slice r 4 rb.buf) (sym start)
              ∙ slice-queued rb 0 4 (ground arith)
              ∙ ap (take 4) q in
            elim short [
              | inl few ↦ absurd (ground arith)
              | inr (fits, cut) ↦
                  let over : ltb (rb.write_index - rb.read_index) (from_be32 (take 4 rest) + 4)
                      ≡ true =
                    ground arith in
                  let small : ltb int_max (from_be32 (take 4 rest) + 4) ≡ false = ground arith in
                  rw (more, word, small_int (from_be32 (take 4 rest)) fits, small, over) refl
            ]
      ]

  handle_one :
      (fuel : ℕ) (rb : TcpBuffer) (s rest : List ℕ) (h : Handling S)
      → IsValid rb
      → queued rb ≡ frame s ++ rest
      → handle_messages (suc fuel) cb i rb h
        ≡ go_on (deliver cb i s h) (handle_messages fuel cb i (recycle_read rb (length s + 4)))
  unfolding handle_messages
  handle_one fuel rb s rest h v q =
      let n = avail rb s rest v q in
      let short : length s ≤ 4_096 = omega (arith, v.within, n) in
      let more : ltb (rb.write_index - rb.read_index) 4 ≡ false = ground arith in
      let whole : ltb (rb.write_index - rb.read_index) (length s + 4) ≡ false = ground arith in
      let word : message_at rb ≡ pos (length s) =
        ap (λ w. to_int (from_be32 w)) (head_word rb s rest v q) ∙ small_word (length s) short in
      let small : ltb int_max (length s + 4) ≡ false = ground arith in
      rw (more, word, small, whole, body rb s rest v q) refl

  -- In a valid buffer whose bytes are whole messages and an incomplete one behind them,
  -- `handle_read` calls `on_recv` once for each of the messages, with its very bytes, in their
  -- order, each on the state and the write buffer that the call before it left, up to one that
  -- crashes. What stays in the buffer are exactly the bytes of the incomplete message, and the
  -- buffer is valid. A fuel above the number of messages is enough.
  pub handle_messages-frames :
      (fuel : ℕ) (msgs : List (List ℕ)) (rest : List ℕ) (rb : TcpBuffer) (h : Handling S)
      → IsValid rb
      → queued rb ≡ frames msgs ++ rest
      → IsIncomplete rest
      → length msgs < fuel
      → IsValid (consumed rb msgs)
        × (queued (consumed rb msgs) ≡ rest)
        × (handle_messages fuel cb i rb h ≡ with_buffer (consumed rb msgs) (deliver_all msgs h))
  handle_messages-frames zero msgs rest rb h v q short f = absurd (omega arith)
  handle_messages-frames (suc fuel) [] rest rb h v q short f =
      (v, q, stops fuel rb rest h v q short)
  handle_messages-frames (suc fuel) (s ∷ msgs) rest rb h v q short f =
      let q' = q ∙ append_assoc (frame s) (frames msgs) rest in
      let (v1, q1) = recycle_one rb s (frames msgs ++ rest) v q' in
      let one = handle_one fuel rb s (frames msgs ++ rest) h v q' in
      elim (Option-cases (deliver cb i s h)) [
        | inl e ↦
            let (v2, q2, r) =
              handle_messages-frames fuel msgs rest (recycle_read rb (length s + 4)) h v1 q1 short
                (omega arith) in
            (v2, q2, one ∙ rw e refl)
        | inr (h', e) ↦
            let (v2, q2, r) =
              handle_messages-frames fuel msgs rest (recycle_read rb (length s + 4)) h' v1 q1 short
                (omega arith) in
            (v2, q2, one ∙ rw e r)
      ]
