-- ===== src/Base/Lists.antt =====
-- Lists measured and indexed by native numbers, under the library's names, and the two operations
-- that stand for `memcpy`: `slice` reads a range of an array, `splice` overwrites one.
use Prim.Native.Nat.{ℕ, zero, suc, ◌+◌, ◌-◌, ◌≤◌, ◌<◌, min}
use mathlib.Core.Path.{◌≡◌, refl, ap}
use mathlib.Core.Logic.{◌≢◌}
use mathlib.Core.List.{List, [], ◌∷◌, ◌++◌}
use native.Mathlib.Omega.{arith}

module _ {ℓ} {A : Type ℓ} where
  abbrev pub length : List A → ℕ
  length [] = 0
  length (x ∷ xs) = suc (length xs)

  abbrev pub get_or : List A → ℕ → A → A
  get_or [] i d = d
  get_or (x ∷ xs) zero d = x
  get_or (x ∷ xs) (suc i) d = get_or xs i d

  -- A write out of bounds changes nothing.
  abbrev pub set : List A → ℕ → A → List A
  set [] i v = []
  set (x ∷ xs) zero v = v ∷ xs
  set (x ∷ xs) (suc i) v = x ∷ set xs i v

  abbrev pub take : ℕ → List A → List A
  take zero xs = []
  take (suc n) [] = []
  take (suc n) (x ∷ xs) = x ∷ take n xs

  abbrev pub drop : ℕ → List A → List A
  drop zero xs = xs
  drop (suc n) [] = []
  drop (suc n) (x ∷ xs) = drop n xs

  abbrev pub replicate : ℕ → A → List A
  replicate zero a = []
  replicate (suc n) a = a ∷ replicate n a

  -- The `n` items from position `off`.
  abbrev pub slice : ℕ → ℕ → List A → List A
  slice off n d = take n (drop off d)

  -- `d` with the items from position `off` overwritten by `xs`, as far as `d` reaches.
  unfoldable pub splice : ℕ → List A → List A → List A
  splice zero [] d = d
  splice zero (x ∷ xs) [] = []
  splice zero (x ∷ xs) (y ∷ d) = x ∷ splice zero xs d
  splice (suc n) xs [] = []
  splice (suc n) xs (y ∷ d) = y ∷ splice n xs d

module _ {ℓ} {A : Type ℓ} where
  pub length-append : (xs ys : List A) → length (xs ++ ys) ≡ length xs + length ys
  length-append [] ys = omega arith
  length-append (x ∷ xs) ys = omega (arith, length-append xs ys)

  pub length-replicate : (n : ℕ) (a : A) → length (replicate n a) ≡ n
  length-replicate zero a = refl
  length-replicate (suc n) a = ap suc (length-replicate n a)

  pub length-take : (n : ℕ) (xs : List A) → length (take n xs) ≡ min n (length xs)
  length-take zero xs = omega arith
  length-take (suc n) [] = omega arith
  length-take (suc n) (x ∷ xs) = omega (arith, length-take n xs)

  pub length-drop : (n : ℕ) (xs : List A) → length (drop n xs) ≡ length xs - n
  length-drop zero xs = omega arith
  length-drop (suc n) [] = omega arith
  length-drop (suc n) (x ∷ xs) = omega (arith, length-drop n xs)

  pub length-set : (xs : List A) (i : ℕ) (v : A) → length (set xs i v) ≡ length xs
  length-set [] i v = refl
  length-set (x ∷ xs) zero v = refl
  length-set (x ∷ xs) (suc i) v = ap suc (length-set xs i v)

  pub get_or-set_self :
      (xs : List A) (i : ℕ) (v d : A) → i < length xs → get_or (set xs i v) i d ≡ v
  get_or-set_self [] i v d h = elim h [ ]
  get_or-set_self (x ∷ xs) zero v d h = refl
  get_or-set_self (x ∷ xs) (suc i) v d h = get_or-set_self xs i v d (omega arith)

  pub get_or-set_ne :
      (xs : List A) (i j : ℕ) (v d : A) → i ≢ j → get_or (set xs i v) j d ≡ get_or xs j d
  get_or-set_ne [] i j v d h = refl
  get_or-set_ne (x ∷ xs) zero zero v d h = absurd (h refl)
  get_or-set_ne (x ∷ xs) zero (suc j) v d h = refl
  get_or-set_ne (x ∷ xs) (suc i) zero v d h = refl
  get_or-set_ne (x ∷ xs) (suc i) (suc j) v d h = get_or-set_ne xs i j v d (λ e. h (ap suc e))

  pub take-length : (xs : List A) (n : ℕ) → n ≡ length xs → take n xs ≡ xs
  take-length xs zero e = elim-nil xs e
    where
      elim-nil : (ys : List A) → 0 ≡ length ys → [] ≡ ys
      elim-nil [] e = refl
      elim-nil (y ∷ ys) e = absurd (omega arith)
  take-length [] (suc n) e = absurd (omega arith)
  take-length (x ∷ xs) (suc n) e = ap (λ t. x ∷ t) (take-length xs n (omega arith))

  pub take-append : (xs ys : List A) (n : ℕ) → n ≡ length xs → take n (xs ++ ys) ≡ xs
  take-append [] ys zero e = refl
  take-append [] ys (suc n) e = absurd (omega arith)
  take-append (x ∷ xs) ys zero e = absurd (omega arith)
  take-append (x ∷ xs) ys (suc n) e = ap (λ t. x ∷ t) (take-append xs ys n (omega arith))

  pub drop-append : (xs ys : List A) (n : ℕ) → n ≡ length xs → drop n (xs ++ ys) ≡ ys
  drop-append [] ys zero e = refl
  drop-append [] ys (suc n) e = absurd (omega arith)
  drop-append (x ∷ xs) ys zero e = absurd (omega arith)
  drop-append (x ∷ xs) ys (suc n) e = drop-append xs ys n (omega arith)

  pub drop-drop : (m n k : ℕ) (xs : List A) → k ≡ m + n → drop m (drop n xs) ≡ drop k xs
  drop-drop m zero k xs e = let e' : k ≡ m = omega arith in rw e'
  drop-drop zero (suc n) zero [] e = absurd (omega arith)
  drop-drop zero (suc n) (suc k) [] e = refl
  drop-drop (suc m) (suc n) zero [] e = absurd (omega arith)
  drop-drop (suc m) (suc n) (suc k) [] e = refl
  drop-drop m (suc n) zero (x ∷ xs) e = absurd (omega arith)
  drop-drop m (suc n) (suc k) (x ∷ xs) e = drop-drop m n k xs (omega arith)

  pub slice-take : (n i k : ℕ) (xs : List A) → i + k ≤ n → slice i k (take n xs) ≡ slice i k xs
  slice-take zero zero zero xs h = refl
  slice-take zero zero (suc k) xs h = absurd (omega arith)
  slice-take zero (suc i) k xs h = absurd (omega arith)
  slice-take (suc n) zero zero xs h = refl
  slice-take (suc n) zero (suc k) [] h = refl
  slice-take (suc n) zero (suc k) (x ∷ xs) h =
      ap (λ t. x ∷ t) (slice-take n zero k xs (omega arith))
  slice-take (suc n) (suc i) k [] h = refl
  slice-take (suc n) (suc i) k (x ∷ xs) h = slice-take n i k xs (omega arith)

  pub drop-take : (m n k : ℕ) (xs : List A) → n ≡ m + k → drop m (take n xs) ≡ take k (drop m xs)
  drop-take zero n k xs e = let e' : n ≡ k = omega arith in rw e'
  drop-take (suc m) zero k xs e = absurd (omega arith)
  drop-take (suc m) (suc n) zero [] e = refl
  drop-take (suc m) (suc n) (suc k) [] e = refl
  drop-take (suc m) (suc n) k (x ∷ xs) e = drop-take m n k xs (omega arith)
