-- ===== src/TcpBuffer/Sending.antt =====
-- `send_buffer` of lib/tcp_buffer.c: what goes out over the socket.
use cs2310_prj.Base.{
  ℕ, zero, suc, ◌+◌, ◌-◌, ◌≤◌, ◌≡◌, ◌≢◌, refl, sym, ap, ◌∙◌, false, Option, none, some, List, [],
  ◌∷◌, ◌++◌, arith, ltb, ◌==◌, Bool-cases, Option-cases, inl, inr, length, take, drop, slice,
  length-drop,
}
use mathlib.Core.List.{append_assoc}
use cs2310_prj.TcpBuffer.{TcpBuffer, recycle_read, send_buffer}
use cs2310_prj.TcpBuffer.Frames.{IsValid, queued, length-queued, slice-queued, queued-recycle_read}

-- What `send` documents: it takes no more bytes than it was offered.
abbrev pub AreSends : List ℕ → ℕ → Type 0
AreSends [] waiting = Unit {0}
AreSends (ret ∷ results) waiting = (ret ≤ waiting) × AreSends results (waiting - ret)

pub take-drop_append : (n : ℕ) (xs : List ℕ) → take n xs ++ drop n xs ≡ xs
take-drop_append zero xs = refl
take-drop_append (suc n) [] = refl
take-drop_append (suc n) (x ∷ xs) = ap (λ t. x ∷ t) (take-drop_append n xs)

pub waiting-recycle_read :
    (b : TcpBuffer) (ret : ℕ)
    → IsValid b
    → ret ≤ b.write_index - b.read_index
    → (recycle_read b ret).write_index - (recycle_read b ret).read_index
      ≡ b.write_index - b.read_index - ret
waiting-recycle_read b ret v h =
    let (v', q) = queued-recycle_read b ret v h in
    sym (length-queued (recycle_read b ret) v')
    ∙ ap length q
    ∙ length-drop ret (queued b)
    ∙ ap (λ n. n - ret) (length-queued b v)

-- The end of the loop.
ended :
    (b b' : TcpBuffer) (out : List ℕ)
    → IsValid b
    → ◌≡◌ {A = Option (TcpBuffer × List ℕ)} (some (b, [])) (some (b', out))
    → IsValid b' × (out ++ queued b' ≡ queued b)
ended b b' out v e = let p : b ≡ b' = cc in let q : [] ≡ out = cc in rw (← p, ← q) (v, refl)

-- Wherever the loop ends, nothing is lost.
send_buffer-queued :
    (results : List ℕ) (b b' : TcpBuffer) (out : List ℕ)
    → IsValid b
    → AreSends results (b.write_index - b.read_index)
    → send_buffer results b ≡ some (b', out)
    → IsValid b' × (out ++ queued b' ≡ queued b)
unfolding send_buffer
send_buffer-queued [] b b' out v a e = elim (Bool-cases (ltb b.read_index b.write_index)) [
  | inl more ↦ absurd (ground arith)
  | inr idle ↦ ended b b' out v (ground arith)
]
send_buffer-queued (ret ∷ results) b b' out v a e =
    elim (Bool-cases (ltb b.read_index b.write_index)) [
      | inr idle ↦ ended b b' out v (ground arith)
      | inl more ↦ elim (Bool-cases (ret == 0)) [
        | inl failed ↦ ended b b' out v (ground arith)
        | inr moved ↦ elim (Option-cases (send_buffer results (recycle_read b ret))) [
          | inl waits ↦ absurd (ground arith)
          | inr ((b1, out1), went) ↦
              let p : b1 ≡ b' = ground arith in
              let q : slice b.read_index ret b.buf ++ out1 ≡ out = ground arith in
              let step = queued-recycle_read b ret v a.0 in
              let w = waiting-recycle_read b ret v a.0 in
              let start : b.read_index + 0 ≡ b.read_index = omega arith in
              let front : slice b.read_index ret b.buf ≡ take ret (queued b) =
                ap (λ i. slice i ret b.buf) (sym start)
                ∙ slice-queued b 0 ret (omega (arith, a.0)) in
              let joined : slice b.read_index ret b.buf ++ drop ret (queued b) ≡ queued b =
                ap (λ t. t ++ drop ret (queued b)) front ∙ take-drop_append ret (queued b) in
              let (v', r) =
                send_buffer-queued results (recycle_read b ret) b1 out1 step.0 (rw w a.1) went in
              rw (← p, ← q)
                (
                  v',
                  append_assoc (slice b.read_index ret b.buf) out1 (queued b1)
                      ∙ ap (λ t. slice b.read_index ret b.buf ++ t) (r ∙ step.1)
                      ∙ joined,
                )
        ]
      ]
    ]

-- Each round ends the loop or sends a byte.
send_buffer_ends :
    (results : List ℕ) (b : TcpBuffer)
    → IsValid b
    → AreSends results (b.write_index - b.read_index)
    → b.write_index - b.read_index ≤ length results
    → send_buffer results b ≢ none
unfolding send_buffer
send_buffer_ends [] b v a h e =
    let idle : ltb b.read_index b.write_index ≡ false = ground arith in ground arith
send_buffer_ends (ret ∷ results) b v a h e = elim (Bool-cases (ltb b.read_index b.write_index)) [
  | inr idle ↦ ground arith
  | inl more ↦ elim (Bool-cases (ret == 0)) [
    | inl failed ↦ ground arith
    | inr moved ↦ elim (Option-cases (send_buffer results (recycle_read b ret))) [
      | inr ((b1, out1), went) ↦ absurd (ground arith)
      | inl waits ↦
          let w = waiting-recycle_read b ret v a.0 in
          send_buffer_ends results (recycle_read b ret) (queued-recycle_read b ret v a.0).0
            (rw w a.1) (ground (arith, w)) waits
    ]
  ]
]

-- In a valid buffer, over a socket whose `send` takes no more than it is offered, the loop of
-- `send_buffer` ends after as many calls as bytes wait, at the latest. The bytes that went out by
-- then and the bytes that still wait are together those that waited before, in their order: none is
-- lost, sent twice or invented. The buffer stays valid.
pub send_buffer_lem :
    (results : List ℕ) (b : TcpBuffer)
    → IsValid b
    → AreSends results (b.write_index - b.read_index)
    → b.write_index - b.read_index ≤ length results
    → (b' : TcpBuffer) × (out : List ℕ) × (send_buffer results b ≡ some (b', out))
      × IsValid b'
      × (out ++ queued b' ≡ queued b)
send_buffer_lem results b v a h = elim (Option-cases (send_buffer results b)) [
  | inl e ↦ absurd (send_buffer_ends results b v a h e)
  | inr ((b', out), e) ↦
      let (v', q) = send_buffer-queued results b b' out v a e in (b', out, e, v', q)
]
