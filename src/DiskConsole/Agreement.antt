-- ===== src/DiskConsole/Agreement.antt =====
-- The terminal program of disk/src/main.c beside the server of disk/src/server.c.
use mathlib.Core.List.{append_assoc}
use cs2310_prj.Base.{
  ℕ, zero, suc, ◌-◌, ◌<◌, ◌≤◌, ◌≡◌, ◌≢◌, refl, sym, ap, ◌∙◌, false, Option, none, some, List, [],
  ◌∷◌, ◌++◌, arith, ◌==◌, ltb, length, length-append, drop, take, take-append, ℤ, pos, Bool-cases,
  inl, inr, int_max,
}
use cs2310_prj.Base.Text.{
  c_str, is_space, skip_space, skip_delims, token_of, after_token, str_eq, show_nat,
}
use cs2310_prj.TcpBuffer.{TcpBuffer}
use cs2310_prj.Disk.{Disk, Outcome, success, invalid, fault, cmd_w, copy_in}
use cs2310_prj.DiskServer.{Served, served, crash, on_recv}
use cs2310_prj.DiskServer.Requests.{AreInts, request_w, parse_args_w-show_nat}
use cs2310_prj.DiskServer.Replies.{served_write, on_recv-write}
use cs2310_prj.DiskConsole.{
  is_blank, Ran, ran, crashed, dispatch, handle_w, run_line, printed_write,
}

-- What a command makes of the disk, and its return code. `none` is a crash.
abbrev pub served_effect : Served → Option (Disk × ℤ)
served_effect (served d wb code) = some (d, code)
served_effect crash = none

abbrev pub ran_effect : Ran → Option (Disk × ℤ)
ran_effect (ran d out code) = some (d, code)
ran_effect crashed = none

-- A text without a zero byte.
abbrev pub IsText : List ℕ → Type 0
IsText [] = Unit {0}
IsText (c ∷ s) = (c ≢ 0) × IsText s

c_str-line : (s : List ℕ) → IsText s → c_str (s ++ 10 ∷ []) ≡ s ++ 10 ∷ []
unfolding c_str
c_str-line [] l = refl
c_str-line (c ∷ s) (z, l) = let e : (c == 0) ≡ false = ground arith in rw (e, c_str-line s l)

line_cut :
    (d : Disk) (msg : List ℕ)
    → IsText msg
    → run_line d (msg ++ 10 ∷ [])
      ≡ dispatch d
          (token_of is_blank (skip_delims is_blank msg))
          (after_token is_blank (skip_delims is_blank msg) ++ 0 ∷ 0 ∷ [])
unfolding run_line
line_cut d msg line =
    let size : length (msg ++ 10 ∷ []) - 1 ≡ length msg =
      omega (arith, length-append msg (10 ∷ [])) in
    let some_bytes : (length (msg ++ 10 ∷ []) == 0) ≡ false =
      ground (arith, length-append msg (10 ∷ [])) in
    rw (c_str-line msg line, size, some_bytes, take-append msg (10 ∷ []) (length msg) refl) refl

request_w-append :
    (c s n : ℕ) (text t : List ℕ) → request_w c s n text ++ t ≡ request_w c s n (text ++ t)
request_w-append c s n text t =
    ap (λ y. b'W' ∷ b' ' ∷ y)
      (append_assoc (show_nat c) (b' ' ∷ (show_nat s ++ b' ' ∷ (show_nat n ++ b' ' ∷ text))) t
        ∙ ap (λ y. show_nat c ++ b' ' ∷ y)
            (append_assoc (show_nat s) (b' ' ∷ (show_nat n ++ b' ' ∷ text)) t
              ∙ ap (λ y. show_nat s ++ b' ' ∷ y) (append_assoc (show_nat n) (b' ' ∷ text) t)))

-- What is written of a text does not depend on what stands behind it.
skip_space-append :
    (text t : List ℕ) (n : ℕ)
    → n ≤ length (skip_space text)
    → (take n (skip_space (text ++ t)) ≡ take n (skip_space text))
      × (n ≤ length (skip_space (text ++ t)))
unfolding skip_space
skip_space-append [] t zero h = (refl, omega arith)
skip_space-append [] t (suc n) h = absurd (omega arith)
skip_space-append (c ∷ text) t n h = elim (Bool-cases (is_space c)) [
  | inl blank ↦ rw blank (skip_space-append text t n (ground arith))
  | inr solid ↦
      let l : n ≤ length (c ∷ text) = ground arith in
      rw solid (take_within n (c ∷ text) t l, omega (arith, length-append text t))
]
  where
    take_within : (n : ℕ) (a b : List ℕ) → n ≤ length a → take n (a ++ b) ≡ take n a
    take_within zero a b l = refl
    take_within (suc n) [] b l = absurd (omega arith)
    take_within (suc n) (x ∷ a) b l = ap (λ y. x ∷ y) (take_within n a b (omega arith))

cmd_w-take :
    (d : Disk) (c s n : ℕ) (a b : List ℕ)
    → take n a ≡ take n b
    → n ≤ length a
    → n ≤ length b
    → cmd_w d (pos c) (pos s) (pos n) a ≡ cmd_w d (pos c) (pos s) (pos n) b
unfolding cmd_w copy_in
cmd_w-take d c s n a b e h k =
    let p : ltb (length a) n ≡ false = ground arith in
    let q : ltb (length b) n ≡ false = ground arith in rw (p, q, e)

module _ (d : Disk) (wb : TcpBuffer) (c s n : ℕ) (text : List ℕ) (ints : AreInts c s)
    (small : n ≤ int_max) (enough : n ≤ length (skip_space text)) where
  same_outcome :
      (o : Outcome Disk) → ran_effect (printed_write d o) ≡ served_effect (served_write d wb o)
  same_outcome (success d') = refl
  same_outcome invalid = refl
  same_outcome fault = refl

  outcome :
      (t : List ℕ)
      → cmd_w d (pos c) (pos s) (pos n) (skip_space (text ++ t))
        ≡ cmd_w d (pos c) (pos s) (pos n) (skip_space text)
  outcome t =
      let (same, l) = skip_space-append text t n enough in
      cmd_w-take d c s n (skip_space (text ++ t)) (skip_space text) same l enough

  terminal : (args : List ℕ) → dispatch d (b'W' ∷ []) args ≡ handle_w d args
  unfolding dispatch str_eq
  terminal args = refl

  write_args :
      (rest : List ℕ)
      → handle_w d (drop 2 (request_w c s n rest))
        ≡ printed_write d (cmd_w d (pos c) (pos s) (pos n) (skip_space rest))
  unfolding handle_w
  write_args rest = rw (parse_args_w-show_nat c s n rest ints small) refl

  run_line-request_w :
      IsText (request_w c s n text)
      → run_line d (request_w c s n text ++ 10 ∷ [])
        ≡ printed_write d (cmd_w d (pos c) (pos s) (pos n) (skip_space (text ++ 0 ∷ 0 ∷ [])))
  unfolding skip_delims token_of after_token
  run_line-request_w line =
      let t : List ℕ = 0 ∷ 0 ∷ [] in
      line_cut d (request_w c s n text) line
      ∙ terminal (drop 2 (request_w c s n text) ++ t)
      ∙ ap (λ y. handle_w d (drop 2 y)) (request_w-append c s n text t)
      ∙ write_args (text ++ t)

  -- A write line without a zero byte and of less than 1023 bytes, which `fgets` delivers whole, for
  -- numbers that an `int` holds and with at least as many bytes of text, behind the blanks that the
  -- text begins with, as it says: typed on the terminal, and sent to the server with its line end
  -- and a zero byte as the clients send it, it makes the same of the disk, with the same return
  -- code.
  pub run_line-on_recv :
      IsText (request_w c s n text)
      → length (request_w c s n text) < 1_023
      → ran_effect (run_line d (request_w c s n text ++ 10 ∷ []))
        ≡ served_effect (on_recv d wb (request_w c s n text ++ 10 ∷ 0 ∷ []))
  run_line-on_recv line whole =
      let t : List ℕ = 10 ∷ 0 ∷ [] in
      let served_as =
        on_recv-write d wb c s ints n (text ++ t) small (skip_space-append text t n enough).1 in
      ap ran_effect (run_line-request_w line ∙ ap (printed_write d) (outcome (0 ∷ 0 ∷ [])))
      ∙ same_outcome (cmd_w d (pos c) (pos s) (pos n) (skip_space text))
      ∙ sym (
          ap served_effect (
            ap (on_recv d wb) (request_w-append c s n text t)
            ∙ served_as
            ∙ ap (served_write d wb) (outcome t)))
