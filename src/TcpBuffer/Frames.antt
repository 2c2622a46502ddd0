-- ===== src/TcpBuffer/Frames.antt =====
-- The buffer of lib/tcp_buffer.c as a queue of bytes, and its messages as a queue of frames.
use mathlib.Core.List.{append-nil}
use cs2310_prj.Base.{
  splice-splice_behind, drop-take, slice-take, ℕ, ◌+◌, ◌-◌, ◌≤◌, ◌<◌, ◌≡◌, refl, sym, ap, ◌∙◌,
  false, true, some, List, [], ◌∷◌, ◌++◌, arith, if◌then◌else◌, ltb, length, take, drop, slice,
  splice, length-append, length-take, length-drop, length-splice, slice-splice_self,
  slice-splice_end, splice-splice, take-append, take-length, drop-append, drop-drop, pos, negsuc,
  be32, from_be32-be32,
}
use cs2310_prj.TcpBuffer.{
  TcpBuffer, tcp_buf_size, adjust_buffer, recycle_write, recycle_read, put_frame, buffer_append,
  buffer_next, reply_with_yes, reply_with_no, yes_prefix, no_prefix,
}

-- The indices are in order and within the array.
pub record IsValid (b : TcpBuffer) : Type 0 where
  pub ordered : b.read_index ≤ b.write_index
  pub within : b.write_index ≤ tcp_buf_size
  pub sized : length b.buf ≡ tcp_buf_size

-- The bytes that wait between the two indices.
unfoldable pub queued : TcpBuffer → List ℕ
queued b = slice b.read_index (b.write_index - b.read_index) b.buf

-- A message as it stands in the buffer.
abbrev pub frame : List ℕ → List ℕ
frame s = be32 (length s) ++ s

pub length-queued : (b : TcpBuffer) → IsValid b → length (queued b) ≡ b.write_index - b.read_index
unfolding queued
length-queued b v = omega (
  arith,
  length-take (b.write_index - b.read_index) (drop b.read_index b.buf),
  length-drop b.read_index b.buf,
  v.ordered,
  v.within,
  v.sized,
)

pub adjust_buffer-IsValid : (b : TcpBuffer) → IsValid b → IsValid (adjust_buffer b)
unfolding adjust_buffer
adjust_buffer-IsValid b v =
    ground (arith, length-splice 0 (slice b.read_index (b.write_index - b.read_index) b.buf) b.buf)

pub queued-adjust_buffer : (b : TcpBuffer) → IsValid b → queued (adjust_buffer b) ≡ queued b
unfolding queued adjust_buffer
queued-adjust_buffer b v =
    let n = b.write_index - b.read_index in
    ground
      (arith, slice-splice_self 0 (slice b.read_index n b.buf) b.buf (n - 0), length-queued b v)

-- Bytes stored behind the write index, which then moves over them.
pub recycle_write-splice :
    (b : TcpBuffer) (xs : List ℕ) (n : ℕ)
    → IsValid b
    → n ≡ length xs
    → b.write_index + n ≤ tcp_buf_size
    → IsValid (recycle_write (record b { buf = splice b.write_index xs b.buf }) n)
      × (queued (recycle_write (record b { buf = splice b.write_index xs b.buf }) n)
          ≡ queued b ++ xs)
unfolding recycle_write queued
recycle_write-splice b xs n v e h = ground (
  arith,
  adjust_buffer-IsValid moved moved-IsValid,
  queued-adjust_buffer moved moved-IsValid,
  joined,
)
  where
    moved : TcpBuffer
    moved = record b { write_index = b.write_index + n; buf = splice b.write_index xs b.buf }

    moved-IsValid : IsValid moved
    moved-IsValid = record {
      ordered = omega (arith, v.ordered);
      within = h;
      sized = length-splice b.write_index xs b.buf ∙ v.sized;
    }

    joined :
        slice b.read_index (b.write_index + n - b.read_index) (splice b.write_index xs b.buf)
        ≡ slice b.read_index (b.write_index - b.read_index) b.buf ++ xs
    joined =
        slice-splice_end b.read_index b.write_index (b.write_index - b.read_index) xs b.buf _
          (omega (arith, v.ordered)) (omega (arith, v.ordered)) (omega (arith, v.sized))

pub length-be32 : (n : ℕ) → length (be32 n) ≡ 4
unfolding be32
length-be32 n = refl

-- Room for a message means that its length word and its bytes both fit.
abbrev pub Fits : TcpBuffer → ℕ → Type 0
Fits b len = b.write_index + len + 4 ≤ tcp_buf_size

-- In a valid buffer, a message that fits is queued whole, behind its length word and after what
-- waits already, and the buffer stays valid.
pub queued-buffer_append :
    (b : TcpBuffer) (s : List ℕ)
    → IsValid b
    → Fits b (length s)
    → IsValid (buffer_append b s (pos (length s)))
      × (queued (buffer_append b s (pos (length s))) ≡ queued b ++ frame s)
unfolding buffer_append put_frame
queued-buffer_append b s v h =
    rw
      (
        fits,
        take-length s (length s) refl,
        splice-splice b.write_index (b.write_index + 4) (be32 (length s)) s b.buf
            (omega (arith, length-be32 (length s))),
      )
      (recycle_write-splice b (frame s) (length s + 4) v
        (omega (arith, length-append (be32 (length s)) s, length-be32 (length s))) (omega arith))
  where
    fits : ltb (tcp_buf_size - b.write_index) (length s + 4) ≡ false
    fits = ground arith

-- A message that does not fit, or has a negative length, leaves the buffer as it was.
pub buffer_append_full :
    (b : TcpBuffer) (s : List ℕ) (n : ℕ)
    → IsValid b
    → tcp_buf_size < b.write_index + n + 4
    → (buffer_append b s (pos n) ≡ b) × (buffer_append b s (negsuc n) ≡ b)
unfolding buffer_append
buffer_append_full b s n v h = (ground arith, refl)

pub slice-queued :
    (b : TcpBuffer) (i k : ℕ)
    → i + k ≤ b.write_index - b.read_index
    → slice (b.read_index + i) k b.buf ≡ slice i k (queued b)
unfolding queued
slice-queued b i k h =
    ap (take k) (sym (drop-drop i b.read_index (b.read_index + i) b.buf (omega arith)))
    ∙ sym (slice-take (b.write_index - b.read_index) i k (drop b.read_index b.buf) h)

-- What stands `len` bytes behind the read index, once the index has moved there.
pub queued-recycle_read :
    (b : TcpBuffer) (len : ℕ)
    → IsValid b
    → len ≤ b.write_index - b.read_index
    → IsValid (recycle_read b len) × (queued (recycle_read b len) ≡ drop len (queued b))
unfolding recycle_read queued
queued-recycle_read b len v h = ground (
  arith,
  adjust_buffer-IsValid moved moved-IsValid,
  queued-adjust_buffer moved moved-IsValid,
  rest,
)
  where
    moved : TcpBuffer
    moved = record b { read_index = b.read_index + len }

    moved-IsValid : IsValid moved
    moved-IsValid = record {
      ordered = omega (arith, v.ordered);
      within = v.within;
      sized = v.sized;
    }

    rest :
        slice (b.read_index + len) (b.write_index - (b.read_index + len)) b.buf
        ≡ drop len (take (b.write_index - b.read_index) (drop b.read_index b.buf))
    rest =
        ap (take (b.write_index - (b.read_index + len)))
          (sym (drop-drop len b.read_index (b.read_index + len) b.buf (omega arith)))
        ∙ sym (
            drop-take len (b.write_index - b.read_index) (b.write_index - (b.read_index + len))
              (drop b.read_index b.buf) (omega arith))

module _ (b : TcpBuffer) (s rest : List ℕ) (v : IsValid b)
    (waits : queued b ≡ frame s ++ rest) where
  pub avail : b.write_index - b.read_index ≡ 4 + length s + length rest
  avail = omega (
    arith,
    length-queued b v,
    ap length waits,
    length-append (frame s) rest,
    length-append (be32 (length s)) s,
    length-be32 (length s),
  )

  pub head_word : slice b.read_index 4 b.buf ≡ be32 (length s)
  unfolding be32
  head_word =
      let e : b.read_index + 0 ≡ b.read_index = omega arith in
      rw e at (slice-queued b 0 4 (omega (arith, avail))) ∙ ap (slice 0 4) waits

  pub body : slice (b.read_index + 4) (length s) b.buf ≡ s
  unfolding be32
  body =
      slice-queued b 4 (length s) (omega (arith, avail))
      ∙ ap (slice 4 (length s)) waits
      ∙ take-append s rest (length s) refl

  -- In a valid buffer where a message of at most 4092 bytes waits at the front, `buffer_next`
  -- delivers it, and `recycle_read` over its four length bytes and its body leaves exactly what
  -- stood behind it, in a valid buffer.
  pub buffer_next-frame :
      length s ≤ tcp_buf_size - 4
      → (buffer_next b ≡ (pos (length s), some s))
        × IsValid (recycle_read b (4 + length s))
        × (queued (recycle_read b (4 + length s)) ≡ rest)
  unfolding buffer_next be32
  buffer_next-frame h = (
    rw (head_word, from_be32-be32 (length s) (omega arith), body) (ground (arith, avail)),
    (queued-recycle_read b (4 + length s) v (omega (arith, avail))).0,
    (queued-recycle_read b (4 + length s) v (omega (arith, avail))).1
        ∙ ap (drop (4 + length s)) waits
        ∙ drop-append (frame s) rest (4 + length s) (omega arith),
  )

-- In a valid buffer, a message that fits and is appended to an empty queue and then read is
-- delivered unchanged, and the queue is empty again.
pub buffer_next-buffer_append :
    (b : TcpBuffer) (s : List ℕ)
    → IsValid b
    → queued b ≡ []
    → Fits b (length s)
    → (buffer_next (buffer_append b s (pos (length s))) ≡ (pos (length s), some s))
      × (queued (recycle_read (buffer_append b s (pos (length s))) (4 + length s)) ≡ [])
buffer_next-buffer_append b s v empty h =
    let (v', joined) = queued-buffer_append b s v h in
    let waits : queued (buffer_append b s (pos (length s))) ≡ frame s ++ [] =
      joined ∙ ap (λ t. t ++ frame s) empty ∙ sym (append-nil (frame s)) in
    let (next, _, rest) = buffer_next-frame _ s [] v' waits (omega arith) in (next, rest)

-- A prefix and, if there is any, the text behind it are stored as one body.
two_pieces :
    (w v k total : ℕ) (p s d : List ℕ)
    → k ≡ length p
    → v ≡ w + k
    → total ≡ length s + k
    → (if ltb k total then splice v (take (length s) s) (splice w p d) else splice w p d)
      ≡ splice w (take total (p ++ s)) d
two_pieces w v k total p [] d e f g = rw (take-append p [] total (omega arith)) (ground arith)
two_pieces w v k total p (x ∷ s) d e f g =
    let longer : ltb k total ≡ true = ground arith in
    rw
      (
        longer,
        take-length (x ∷ s) (length (x ∷ s)) refl,
        take-length (p ++ x ∷ s) total (omega (arith, length-append p (x ∷ s))),
      )
      (splice-splice_behind w v p (x ∷ s) d (omega arith))

module _ (b : TcpBuffer) (s : List ℕ) where
  -- "Yes " and a text make the same message as the two joined, also where the text is empty and
  -- where the message does not fit.
  pub reply_with_yes-buffer_append :
      reply_with_yes b s (pos (length s)) ≡ buffer_append b (yes_prefix ++ s) (pos (length s + 4))
  unfolding reply_with_yes buffer_append put_frame
  reply_with_yes-buffer_append =
      rw
        (two_pieces (b.write_index + 4) (b.write_index + 8) 4 (length s + 4) yes_prefix s b.buf refl
          (omega arith) refl)
        refl

  -- "No " and a text make the same message as the two joined, also where the text is empty and
  -- where the message does not fit.
  pub reply_with_no-buffer_append :
      reply_with_no b s (pos (length s)) ≡ buffer_append b (no_prefix ++ s) (pos (length s + 3))
  unfolding reply_with_no buffer_append put_frame
  reply_with_no-buffer_append =
      rw
        (two_pieces (b.write_index + 4) (b.write_index + 7) 3 (length s + 3) no_prefix s b.buf refl
          (omega arith) refl)
        refl
