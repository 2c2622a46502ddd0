-- ===== src/TcpBuffer/Receiving.antt =====
-- The loop of `read_to_buffer`, lib/tcp_buffer.c, over a socket.
use mathlib.Core.List.{append-nil, append_assoc}
use cs2310_prj.Base.{
  ℕ, suc, ◌+◌, ◌-◌, ◌≤◌, ◌<◌, ◌≡◌, ◌⊎◌, inl, inr, refl, sym, ap, ◌∙◌, Option, some, List, [], ◌∷◌,
  ◌++◌, arith, Bool, true, false, zero, ltb, ◌==◌, length, length-append, take, splice, ℤ, pos,
  negsuc, Bool-cases,
}
use cs2310_prj.TcpBuffer.{
  TcpBuffer, Recv, received, retry, closed, tcp_buf_size, recycle_write, read_to_buffer,
}
use cs2310_prj.TcpBuffer.Frames.{IsValid, queued, recycle_write-splice}

-- The buffer behind one `recv`.
abbrev pub stored : TcpBuffer → List ℕ → TcpBuffer
stored b bytes = recycle_write (record b { buf = splice b.write_index bytes b.buf }) (length bytes)

-- What `recv` documents: it delivers no more bytes than it was asked for.
abbrev pub AreRecvs : List Recv → TcpBuffer → Type 0
AreRecvs [] b = Unit {0}
AreRecvs (received bytes ∷ events) b =
    (length bytes ≤ tcp_buf_size - b.write_index) × AreRecvs events (stored b bytes)
AreRecvs (retry ∷ events) b = AreRecvs events b
AreRecvs (closed ∷ events) b = AreRecvs events b

abbrev pub bytes_of : List Recv → List ℕ
bytes_of [] = []
bytes_of (received bytes ∷ events) = bytes ++ bytes_of events
bytes_of (retry ∷ events) = bytes_of events
bytes_of (closed ∷ events) = bytes_of events

pub stored-queued :
    (b : TcpBuffer) (bytes : List ℕ)
    → IsValid b
    → length bytes ≤ tcp_buf_size - b.write_index
    → IsValid (stored b bytes) × (queued (stored b bytes) ≡ queued b ++ bytes)
stored-queued b bytes v h =
    recycle_write-splice b bytes (length bytes) v refl (omega (arith, v.within))

-- One call that delivers less than was asked for ends the loop.
pub read_to_buffer_short :
    (bytes : List ℕ) (events : List Recv) (count : ℕ) (b : TcpBuffer)
    → 0 < length bytes
    → length bytes < tcp_buf_size - b.write_index
    → read_to_buffer (received bytes ∷ events) count b
      ≡ some (pos (count + length bytes), stored b bytes)
unfolding read_to_buffer
read_to_buffer_short bytes events count b more short = ground arith

-- The next event ends the connection: `recv` returns 0 or an error.
abbrev pub Closes : List Recv → Type 0
Closes [] = ⊥
Closes (received [] ∷ events) = Unit {0}
Closes (received (x ∷ bytes) ∷ events) = ⊥
Closes (retry ∷ events) = ⊥
Closes (closed ∷ events) = Unit {0}

abbrev pub room : TcpBuffer → ℕ
room b = tcp_buf_size - b.write_index

-- What happened when the loop ended behind `n` events: the connection closed, with room left in the
-- buffer; or the buffer was full; or the last `recv` delivered less than it was asked for. Each
-- `recv` before delivered as many bytes as there was room for.
abbrev pub Ended : List Recv → ℕ → TcpBuffer → Bool → Type 0
Ended events zero b true = Closes events × (0 < room b)
Ended events zero b false = room b ≡ 0
Ended [] (suc n) b closing = ⊥
Ended (received bytes ∷ events) (suc n) b closing =
    (0 < length bytes)
    × (((n ≡ 0) × (length bytes < room b) × (closing ≡ false))
        ⊎ ((length bytes ≡ room b) × Ended events n (stored b bytes) closing))
Ended (retry ∷ events) (suc n) b closing = (0 < room b) × Ended events n b closing
Ended (closed ∷ events) (suc n) b closing = ⊥

-- The result of a run that took the first `n` events.
abbrev pub Took : List Recv → ℕ → TcpBuffer → ℤ → TcpBuffer → ℕ → Type 0
Took events count b code b' n =
    IsValid b'
    × (queued b' ≡ queued b ++ bytes_of (take n events))
    × (((code ≡ negsuc 0) × Ended events n b true)
        ⊎ ((code ≡ pos (count + length (bytes_of (take n events)))) × Ended events n b false))

full_Took :
    (events : List Recv) (count : ℕ) (b b' : TcpBuffer) (code : ℤ)
    → IsValid b
    → room b ≡ 0
    → ◌≡◌ {A = Option (ℤ × TcpBuffer)} (some (pos count, b)) (some (code, b'))
    → Took events count b code b' 0
full_Took events count b b' code v full e =
    let p : b ≡ b' = cc in
    let q : pos count ≡ code = cc in
    let z : count ≡ count + 0 = omega arith in
    rw (← p) (v, sym (append-nil (queued b)), inr (sym q ∙ ap pos z, full))

broken_Took :
    (events : List Recv) (count : ℕ) (b b' : TcpBuffer) (code : ℤ)
    → IsValid b
    → Closes events
    → 0 < room b
    → ◌≡◌ {A = Option (ℤ × TcpBuffer)} (some (negsuc 0, b)) (some (code, b'))
    → Took events count b code b' 0
broken_Took events count b b' code v c r e =
    let p : b ≡ b' = cc in
    let q : negsuc 0 ≡ code = cc in rw (← p) (v, sym (append-nil (queued b)), inl (sym q, (c, r)))

short_Took :
    (bytes : List ℕ) (events : List Recv) (count : ℕ) (b b' : TcpBuffer) (code : ℤ)
    → IsValid b
    → 0 < length bytes
    → length bytes < room b
    → ◌≡◌ {A = Option (ℤ × TcpBuffer)}
        (some (pos (count + length bytes), stored b bytes))
        (some (code, b'))
    → Took (received bytes ∷ events) count b code b' 1
short_Took bytes events count b b' code v more short e =
    let p : stored b bytes ≡ b' = cc in
    let q : pos (count + length bytes) ≡ code = cc in
    let (v', joined) = stored-queued b bytes v (omega arith) in
    rw (← p, append-nil bytes) (v', joined, inr (sym q, (more, inl (refl, short, refl))))

more_Took :
    (bytes : List ℕ) (events : List Recv) (count : ℕ) (b : TcpBuffer) (code : ℤ) (b' : TcpBuffer)
    (n : ℕ)
    → IsValid b
    → 0 < length bytes
    → length bytes ≡ room b
    → Took events (count + length bytes) (stored b bytes) code b' n
    → Took (received bytes ∷ events) count b code b' (suc n)
more_Took bytes events count b code b' n v more h t =
    let taken = bytes_of (take n events) in
    let joined : queued b' ≡ queued b ++ (bytes ++ taken) =
      t.1
      ∙ ap (λ q. q ++ taken) (stored-queued b bytes v (omega arith)).1
      ∙ append_assoc (queued b) bytes taken in
    let sum : count + length bytes + length taken ≡ count + length (bytes ++ taken) =
      omega (arith, length-append bytes taken) in
    (
      t.0,
      joined,
      elim t.2 [
        | inl (e, w) ↦ inl (e, (more, inr (h, w)))
        | inr (e, w) ↦ inr (e ∙ ap pos sum, (more, inr (h, w)))
      ],
    )

retry_Took :
    (events : List Recv) (count : ℕ) (b : TcpBuffer) (code : ℤ) (b' : TcpBuffer) (n : ℕ)
    → 0 < room b
    → Took events count b code b' n
    → Took (retry ∷ events) count b code b' (suc n)
retry_Took events count b code b' n r t =
    (t.0, t.1, elim t.2 [ inl (e, w) ↦ inl (e, (r, w)) | inr (e, w) ↦ inr (e, (r, w)) ])

-- In a valid buffer, over a socket whose `recv` delivers no more than it is asked for, a run of
-- `read_to_buffer` that returns has taken some number of the calls, from the first on: what waits
-- then is what waited before and behind it the bytes of these calls, in a valid buffer. It returns
-- -1 exactly where the call behind these ends the connection; otherwise it returns their bytes
-- added to the count, and either the buffer is full or the last of these calls, and no earlier one,
-- delivered less than there was room for.
pub read_to_buffer_lem :
    (events : List Recv) (count : ℕ) (b : TcpBuffer) (code : ℤ) (b' : TcpBuffer)
    → IsValid b
    → AreRecvs events b
    → read_to_buffer events count b ≡ some (code, b')
    → (n : ℕ) × Took events count b code b' n
unfolding read_to_buffer
read_to_buffer_lem [] count b code b' v a e =
    elim (Bool-cases (tcp_buf_size - b.write_index == 0)) [
      | inl full ↦ (0, full_Took [] count b b' code v (ground arith) (ground arith))
      | inr left ↦ absurd (ground arith)
    ]
read_to_buffer_lem (closed ∷ events) count b code b' v a e =
    elim (Bool-cases (tcp_buf_size - b.write_index == 0)) [
      | inl full ↦ (0, full_Took (closed ∷ events) count b b' code v (ground arith) (ground arith))
      | inr left ↦
          (0, broken_Took (closed ∷ events) count b b' code v tt (ground arith) (ground arith))
    ]
read_to_buffer_lem (retry ∷ events) count b code b' v a e =
    elim (Bool-cases (tcp_buf_size - b.write_index == 0)) [
      | inl full ↦ (0, full_Took (retry ∷ events) count b b' code v (ground arith) (ground arith))
      | inr left ↦
          let (n, t) = read_to_buffer_lem events count b code b' v a (ground arith) in
          (suc n, retry_Took events count b code b' n (ground arith) t)
    ]
read_to_buffer_lem (received [] ∷ events) count b code b' v a e =
    elim (Bool-cases (tcp_buf_size - b.write_index == 0)) [
      | inl full ↦
          (0, full_Took (received [] ∷ events) count b b' code v (ground arith) (ground arith))
      | inr left ↦
          (0, broken_Took (received [] ∷ events) count b b' code v tt (ground arith) (ground arith))
    ]
read_to_buffer_lem (received (x ∷ xs) ∷ events) count b code b' v a e =
    let bytes : List ℕ = x ∷ xs in
    elim (Bool-cases (tcp_buf_size - b.write_index == 0)) [
      | inl full ↦
          (0, full_Took (received bytes ∷ events) count b b' code v (ground arith) (ground arith))
      | inr left ↦ elim (Bool-cases (ltb (length bytes) (tcp_buf_size - b.write_index))) [
        | inl short ↦ (
          1,
          short_Took bytes events count b b' code v (omega arith) (ground arith) (ground arith),
        )
        | inr filled ↦
            let (n, t) =
              read_to_buffer_lem events (count + length bytes) (stored b bytes) code b'
                (stored-queued b bytes v a.0).0 a.1 (ground arith) in
            let whole : length bytes ≡ room b = ground arith in
            (suc n, more_Took bytes events count b code b' n v (omega arith) whole t)
      ]
    ]
