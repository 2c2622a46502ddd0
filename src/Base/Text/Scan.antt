-- ===== src/Base/Text/Scan.antt =====
-- `sscanf(s, "%d %d", ...)`: the numbers that it converts, at most two.
use mathlib.Core.List.{append_assoc}
use cs2310_prj.Base.Text.{
  ℕ, zero, suc, ◌+◌, ◌/◌, ◌%◌, ◌<◌, inl, inr, Bool, true, false, sym, ◌≡◌, refl, ap, ◌∙◌, List, [],
  ◌∷◌, ◌++◌, arith, ltb→lt, Bool-cases, ltb, ◌==◌, if◌then◌else◌, ℤ, pos, is_digit, skip_space,
  atoi_digits, negate, digits_of, show_nat, scaled, scaled-zero, atoi_digits-digits_of,
  digits_of-cons, skip_space-show_nat,
}
use mathlib.Core.Option.{Option, none, some}

unfoldable pub skip_digits : List ℕ → List ℕ
skip_digits [] = []
skip_digits (c ∷ s) = let rest = skip_digits s in if is_digit c then rest else c ∷ s

abbrev pub starts_digit : List ℕ → Bool
starts_digit [] = false
starts_digit (c ∷ s) = is_digit c

-- A conversion needs a digit. It delivers the number and the text behind it.
unfoldable pub scan_digits : (ℕ → ℤ) → List ℕ → Option (ℤ × List ℕ)
unfolding atoi_digits skip_digits
scan_digits sign s = if starts_digit s then some (sign (atoi_digits 0 s), skip_digits s) else none

unfoldable pub scan_sign : List ℕ → Option (ℤ × List ℕ)
unfolding scan_digits
scan_sign [] = none
scan_sign (c ∷ s) =
    if c == b'-'
    then scan_digits negate s
    else (if c == b'+' then scan_digits pos s else scan_digits pos (c ∷ s))

unfoldable pub scan_int : List ℕ → Option (ℤ × List ℕ)
unfolding scan_sign skip_space
scan_int s = scan_sign (skip_space s)

abbrev pub only_number : Option (ℤ × List ℕ) → List ℤ
only_number none = []
only_number (some (n, rest)) = n ∷ []

abbrev pub first_number : Option (ℤ × List ℕ) → (List ℕ → List ℤ) → List ℤ
first_number none second = []
first_number (some (n, rest)) second = n ∷ second rest

-- A blank of the format skips blanks, as "%d" does itself.
unfoldable pub scan_two : List ℕ → List ℤ
unfolding scan_int
scan_two s = first_number (scan_int s) (λ rest. only_number (scan_int (skip_space rest)))

skip_digit : (d : ℕ) (rest : List ℕ) → d < 10 → skip_digits ((b'0' + d) ∷ rest) ≡ skip_digits rest
unfolding skip_digits
skip_digit d rest h = ground arith

skip_digits-digits_of :
    (f n : ℕ) (rest : List ℕ) → skip_digits (digits_of f n ++ rest) ≡ skip_digits rest
unfolding digits_of
skip_digits-digits_of zero n rest = skip_digit (n % 10) rest (omega arith)
skip_digits-digits_of (suc f) n rest = elim (Bool-cases (ltb n 10)) [
  | inl one ↦ rw one (skip_digit n rest (ltb→lt n 10 one))
  | inr more ↦
      rw (more, append_assoc (digits_of f (n / 10)) ((b'0' + n % 10) ∷ []) rest)
        (skip_digits-digits_of f (n / 10) ((b'0' + n % 10) ∷ rest)
          ∙ skip_digit (n % 10) rest (omega arith))
]

scan_sign-cons :
    (d : ℕ) (s : List ℕ)
    → d < 10
    → scan_sign ((b'0' + d) ∷ s)
      ≡ some (pos (atoi_digits 0 ((b'0' + d) ∷ s)), skip_digits ((b'0' + d) ∷ s))
unfolding scan_sign
scan_sign-cons d s h =
    let y : is_digit (b'0' + d) ≡ true = ground arith in
    let m : (b'0' + d == b'-') ≡ false = ground arith in
    let p : (b'0' + d == b'+') ≡ false = ground arith in rw (m, p, y)

module _ (n stop : ℕ) (rest : List ℕ) (ends : is_digit stop ≡ false) where
  digits_end : (acc : ℕ) → atoi_digits acc (stop ∷ rest) ≡ acc
  unfolding atoi_digits
  digits_end acc = rw ends

  skip_end : skip_digits (show_nat n ++ stop ∷ rest) ≡ stop ∷ rest
  unfolding show_nat skip_digits
  skip_end = skip_digits-digits_of n n (stop ∷ rest) ∙ rw ends

  read_end : atoi_digits 0 (show_nat n ++ stop ∷ rest) ≡ n
  unfolding show_nat
  read_end =
      atoi_digits-digits_of n n 0 (stop ∷ rest)
      ∙ digits_end (scaled n n 0)
      ∙ scaled-zero n n (omega arith)

  -- A printed number is read back, with any text behind it that does not begin with a digit.
  pub scan_int-show_nat : scan_int (show_nat n ++ stop ∷ rest) ≡ some (pos n, stop ∷ rest)
  unfolding scan_int show_nat
  scan_int-show_nat =
      let (d, ds, small, e) = digits_of-cons n n in
      ap scan_sign (skip_space-show_nat n (stop ∷ rest))
      ∙ rw e (scan_sign-cons d (ds ++ stop ∷ rest) small)
      ∙ ap (λ s. some (pos (atoi_digits 0 (s ++ stop ∷ rest)), skip_digits (s ++ stop ∷ rest)))
          (sym e)
      ∙ rw (read_end, skip_end)

-- Two printed numbers with a blank between them.
pub scan_two-show_nat :
    (n m stop : ℕ) (rest : List ℕ)
    → is_digit stop ≡ false
    → scan_two (show_nat n ++ b' ' ∷ (show_nat m ++ stop ∷ rest)) ≡ pos n ∷ pos m ∷ []
unfolding scan_two skip_space
scan_two-show_nat n m stop rest ends =
    let second =
      ap scan_int (skip_space-show_nat m (stop ∷ rest)) ∙ scan_int-show_nat m stop rest ends in
    rw (scan_int-show_nat n b' ' (show_nat m ++ stop ∷ rest) refl, second)
