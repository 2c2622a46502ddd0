-- ===== src/Base/Text.antt =====
-- Byte strings as the C library reads and prints them: `isspace`, `strlen`, `strtok`, `atoi` and
-- the `%d` and `%u` of `printf`. The end of the list stands for the terminating zero byte.
pub mod Scan
use mathlib.Core.List.{append_assoc}
use Prim.Native.Nat.{ℕ, zero, suc, ◌+◌, ◌-◌, ◌*◌, ◌/◌, ◌%◌, ◌≤◌, ◌<◌}
use mathlib.Core.Logic.{inl, inr}
use mathlib.Core.Bool.{Bool, true, false, not, ◌&&◌, ◌||◌}
use mathlib.Core.Path.{sym, ◌≡◌, refl, ap, ◌∙◌}
use mathlib.Core.List.{List, [], ◌∷◌, ◌++◌}
use native.Mathlib.Omega.{arith}
use cs2310_prj.Base.Tests.{ltb→lt, Bool-cases, ltb, leb, ◌==◌, if◌then◌else◌}
use cs2310_prj.Base.Int.{to_int, int_max, u32_mod, ℤ, pos, negsuc}

abbrev pub is_space : ℕ → Bool
is_space c = c == 32 || (leb 9 c && leb c 13)

abbrev pub is_digit : ℕ → Bool
is_digit c = leb b'0' c && leb c b'9'

-- The bytes before the first zero byte.
unfoldable pub c_str : List ℕ → List ℕ
c_str [] = []
c_str (c ∷ s) = if c == 0 then [] else c ∷ c_str s

unfoldable pub skip_space : List ℕ → List ℕ
skip_space [] = []
skip_space (c ∷ s) = if is_space c then skip_space s else c ∷ s

-- while (*p && !isspace(*p)) p++
unfoldable pub skip_word : List ℕ → List ℕ
skip_word [] = []
skip_word (c ∷ s) = if not (c == 0) && not (is_space c) then skip_word s else c ∷ s

unfoldable pub atoi_digits : ℕ → List ℕ → ℕ
atoi_digits acc [] = acc
atoi_digits acc (c ∷ s) =
    let rest = atoi_digits (acc * 10 + (c - b'0')) s in if is_digit c then rest else acc

abbrev pub negate : ℕ → ℤ
negate zero = pos zero
negate (suc n) = negsuc n

abbrev pub long_max : ℕ
long_max = 9_223_372_036_854_775_807

-- `atoi` is `(int) strtol` in the GNU C library: the number is held at the ends of `long`, and its
-- low 32 bits are taken.
unfoldable pub int_of_long : ℕ → ℤ
int_of_long n = to_int ((if leb n long_max then n else long_max) % u32_mod)

unfoldable pub int_of_negative : ℕ → ℤ
int_of_negative n =
    let m = if leb n long_max then n else long_max + 1 in to_int ((u32_mod - m % u32_mod) % u32_mod)

unfoldable pub atoi_sign : List ℕ → ℤ
unfolding atoi_digits int_of_long int_of_negative
atoi_sign [] = pos 0
atoi_sign (c ∷ s) =
    if c == b'-'
    then int_of_negative (atoi_digits 0 s)
    else int_of_long (if c == b'+' then atoi_digits 0 s else atoi_digits 0 (c ∷ s))

unfoldable pub atoi : List ℕ → ℤ
unfolding atoi_sign skip_space
atoi s = atoi_sign (skip_space s)

-- The decimal digits of `n`, on fuel: `n` rounds are enough.
unfoldable pub digits_of : ℕ → ℕ → List ℕ
digits_of zero n = (b'0' + n % 10) ∷ []
digits_of (suc f) n =
    let front = digits_of f (n / 10) in
    if ltb n 10 then (b'0' + n) ∷ [] else front ++ (b'0' + n % 10) ∷ []

unfoldable pub show_nat : ℕ → List ℕ
unfolding digits_of
show_nat n = digits_of n n

-- strtok(s, delims): the next token and what stands behind the byte that ended it, if any.
unfoldable pub skip_delims : (ℕ → Bool) → List ℕ → List ℕ
skip_delims delim [] = []
skip_delims delim (c ∷ s) = if delim c then skip_delims delim s else c ∷ s

unfoldable pub token_of : (ℕ → Bool) → List ℕ → List ℕ
token_of delim [] = []
token_of delim (c ∷ s) = if c == 0 || delim c then [] else c ∷ token_of delim s

unfoldable pub after_token : (ℕ → Bool) → List ℕ → List ℕ
after_token delim [] = []
after_token delim (c ∷ s) = if c == 0 || delim c then s else after_token delim s

-- Equality of two byte strings, `strcmp(a, b) == 0`.
unfoldable pub str_eq : List ℕ → List ℕ → Bool
str_eq [] [] = true
str_eq [] (d ∷ t) = false
str_eq (c ∷ s) [] = false
str_eq (c ∷ s) (d ∷ t) = c == d && str_eq s t

-- What reading the digits of `n` behind the value `acc` gives.
scaled : ℕ → ℕ → ℕ → ℕ
scaled zero n acc = acc * 10 + n % 10
scaled (suc f) n acc =
    let front = scaled f (n / 10) acc in if ltb n 10 then acc * 10 + n else front * 10 + n % 10

scaled-zero : (f n : ℕ) → n ≤ f → scaled f n 0 ≡ n
unfolding scaled
scaled-zero zero n h = omega arith
scaled-zero (suc f) n h = ground (arith, scaled-zero f (n / 10))

read_digit :
    (acc d : ℕ) (rest : List ℕ)
    → d < 10
    → atoi_digits acc ((b'0' + d) ∷ rest) ≡ atoi_digits (acc * 10 + d) rest
unfolding atoi_digits
read_digit acc d rest h =
    let e : b'0' + d - b'0' ≡ d = omega arith in
    let y : is_digit (b'0' + d) ≡ true = ground arith in rw (y, e)

atoi_digits-digits_of :
    (f n acc : ℕ) (rest : List ℕ)
    → atoi_digits acc (digits_of f n ++ rest) ≡ atoi_digits (scaled f n acc) rest
unfolding digits_of scaled
atoi_digits-digits_of zero n acc rest = read_digit acc (n % 10) rest (omega arith)
atoi_digits-digits_of (suc f) n acc rest = elim (Bool-cases (ltb n 10)) [
  | inl one ↦ rw one (read_digit acc n rest (ltb→lt n 10 one))
  | inr more ↦
      rw (more, append_assoc (digits_of f (n / 10)) ((b'0' + n % 10) ∷ []) rest)
        (atoi_digits-digits_of f (n / 10) acc ((b'0' + n % 10) ∷ rest)
          ∙ read_digit (scaled f (n / 10) acc) (n % 10) rest (omega arith))
]

skip_digit : (d : ℕ) (rest : List ℕ) → d < 10 → skip_word ((b'0' + d) ∷ rest) ≡ skip_word rest
unfolding skip_word
skip_digit d rest h = ground arith

skip_word-digits_of : (f n : ℕ) (rest : List ℕ) → skip_word (digits_of f n ++ rest) ≡ skip_word rest
unfolding digits_of
skip_word-digits_of zero n rest = skip_digit (n % 10) rest (omega arith)
skip_word-digits_of (suc f) n rest = elim (Bool-cases (ltb n 10)) [
  | inl one ↦ rw one (skip_digit n rest (ltb→lt n 10 one))
  | inr more ↦
      rw (more, append_assoc (digits_of f (n / 10)) ((b'0' + n % 10) ∷ []) rest)
        (skip_word-digits_of f (n / 10) ((b'0' + n % 10) ∷ rest)
          ∙ skip_digit (n % 10) rest (omega arith))
]

-- The first digit.
digits_of-cons : (f n : ℕ) → (d : ℕ) × (ds : List ℕ) × (d < 10) × (digits_of f n ≡ (b'0' + d) ∷ ds)
unfolding digits_of
digits_of-cons zero n = (n % 10, [], omega arith, refl)
digits_of-cons (suc f) n = elim (Bool-cases (ltb n 10)) [
  | inl one ↦ (n, [], ltb→lt n 10 one, rw one)
  | inr more ↦
      let (d, ds, small, e) = digits_of-cons f (n / 10) in
      (d, ds ++ (b'0' + n % 10) ∷ [], small, rw (more, e))
]

atoi-cons :
    (d : ℕ) (s : List ℕ)
    → d < 10
    → atoi ((b'0' + d) ∷ s) ≡ int_of_long (atoi_digits 0 ((b'0' + d) ∷ s))
unfolding atoi
atoi-cons d s h =
    let e : is_space (b'0' + d) ≡ false = ground arith in
    let m : (b'0' + d == b'-') ≡ false = ground arith in
    let p : (b'0' + d == b'+') ≡ false = ground arith in rw (e, m, p)

skip_space-cons : (d : ℕ) (s : List ℕ) → d < 10 → skip_space ((b'0' + d) ∷ s) ≡ (b'0' + d) ∷ s
unfolding skip_space
skip_space-cons d s h = let e : is_space (b'0' + d) ≡ false = ground arith in rw e

int_of_long_small : (n : ℕ) → n ≤ int_max → int_of_long n ≡ pos n
unfolding int_of_long to_int
int_of_long_small n h =
    let a : leb n long_max ≡ true = ground arith in
    let b : n % u32_mod ≡ n = omega arith in
    let c : leb n int_max ≡ true = ground arith in rw (a, b, c)

-- A printed number in front of a blank is read back, and the reader that skips it stops at the
-- blank.
module _ (n stop : ℕ) (rest : List ℕ) (blank : is_space stop ≡ true) where
  stops : (acc : ℕ) → atoi_digits acc (stop ∷ rest) ≡ acc
  unfolding atoi_digits
  stops acc = let e : is_digit stop ≡ false = ground arith in rw e

  pub atoi-show_nat : n ≤ int_max → atoi (show_nat n ++ stop ∷ rest) ≡ pos n
  unfolding show_nat
  atoi-show_nat h =
      let (d, ds, small, e) = digits_of-cons n n in
      rw e (atoi-cons d (ds ++ stop ∷ rest) small)
      ∙ ap (λ s. int_of_long (atoi_digits 0 (s ++ stop ∷ rest))) (sym e)
      ∙ ap int_of_long (
          atoi_digits-digits_of n n 0 (stop ∷ rest)
          ∙ stops (scaled n n 0)
          ∙ scaled-zero n n (omega arith))
      ∙ int_of_long_small n h

  pub skip_word-show_nat : skip_word (show_nat n ++ stop ∷ rest) ≡ stop ∷ rest
  unfolding show_nat skip_word
  skip_word-show_nat = skip_word-digits_of n n (stop ∷ rest) ∙ ground arith

pub skip_space-show_nat :
    (n : ℕ) (rest : List ℕ) → skip_space (show_nat n ++ rest) ≡ show_nat n ++ rest
unfolding show_nat
skip_space-show_nat n rest =
    let (d, ds, small, e) = digits_of-cons n n in rw e (skip_space-cons d (ds ++ rest) small)
