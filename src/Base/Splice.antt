-- ===== src/Base/Splice.antt =====
-- The laws of `splice`: it keeps the length, the range written reads back, and the ranges before
-- and after it are untouched.
use Prim.Native.Nat.{ℕ, zero, suc, ◌+◌, ◌≤◌}
use mathlib.Core.Path.{◌≡◌, refl, ap}
use mathlib.Core.List.{List, [], ◌∷◌, ◌++◌}
use native.Mathlib.Omega.{arith}
use cs2310_prj.Base.Lists.{length, take, drop, slice, splice}

module _ {ℓ} {A : Type ℓ} where
  pub length-splice : (off : ℕ) (xs d : List A) → length (splice off xs d) ≡ length d
  unfolding splice
  length-splice zero [] d = refl
  length-splice zero (x ∷ xs) [] = refl
  length-splice zero (x ∷ xs) (y ∷ d) = ap suc (length-splice zero xs d)
  length-splice (suc n) xs [] = refl
  length-splice (suc n) xs (y ∷ d) = ap suc (length-splice n xs d)

  pub slice-splice_self :
      (off : ℕ) (xs d : List A) (n : ℕ)
      → n ≡ length xs
      → off + n ≤ length d
      → slice off n (splice off xs d) ≡ xs
  unfolding splice
  slice-splice_self zero [] d zero e h = refl
  slice-splice_self zero [] d (suc n) e h = absurd (omega arith)
  slice-splice_self zero (x ∷ xs) d zero e h = absurd (omega arith)
  slice-splice_self zero (x ∷ xs) [] (suc n) e h = absurd (omega arith)
  slice-splice_self zero (x ∷ xs) (y ∷ d) (suc n) e h =
      ap (λ t. x ∷ t) (slice-splice_self zero xs d n (omega arith) (omega arith))
  slice-splice_self (suc off) [] [] zero e h = absurd (omega arith)
  slice-splice_self (suc off) (x ∷ xs) [] zero e h = absurd (omega arith)
  slice-splice_self (suc off) xs [] (suc n) e h = absurd (omega arith)
  slice-splice_self (suc off) xs (y ∷ d) n e h = slice-splice_self off xs d n e (omega arith)

  pub slice-splice_before :
      (off : ℕ) (xs d : List A) (i n : ℕ) → i + n ≤ off → slice i n (splice off xs d) ≡ slice i n d
  unfolding splice
  slice-splice_before zero xs d zero zero h = refl
  slice-splice_before zero xs d zero (suc n) h = absurd (omega arith)
  slice-splice_before zero xs d (suc i) n h = absurd (omega arith)
  slice-splice_before (suc off) xs [] i n h = refl
  slice-splice_before (suc off) xs (y ∷ d) zero zero h = refl
  slice-splice_before (suc off) xs (y ∷ d) zero (suc n) h =
      ap (λ t. y ∷ t) (slice-splice_before off xs d zero n (omega arith))
  slice-splice_before (suc off) xs (y ∷ d) (suc i) n h =
      slice-splice_before off xs d i n (omega arith)

  pub drop-splice_after :
      (off : ℕ) (xs d : List A) (i : ℕ) → off + length xs ≤ i → drop i (splice off xs d) ≡ drop i d
  unfolding splice
  drop-splice_after zero [] d i h = refl
  drop-splice_after zero (x ∷ xs) [] i h = refl
  drop-splice_after zero (x ∷ xs) (y ∷ d) zero h = absurd (omega arith)
  drop-splice_after zero (x ∷ xs) (y ∷ d) (suc i) h = drop-splice_after zero xs d i (omega arith)
  drop-splice_after (suc off) xs [] i h = refl
  drop-splice_after (suc off) xs (y ∷ d) zero h = absurd (omega arith)
  drop-splice_after (suc off) xs (y ∷ d) (suc i) h = drop-splice_after off xs d i (omega arith)

  pub slice-splice_after :
      (off : ℕ) (xs d : List A) (i n : ℕ)
      → off + length xs ≤ i
      → slice i n (splice off xs d) ≡ slice i n d
  slice-splice_after off xs d i n h = ap (take n) (drop-splice_after off xs d i h)

  -- Reading into a written range, from its start.
  pub slice-splice_prefix :
      (off : ℕ) (xs d : List A) (n : ℕ)
      → n ≤ length xs
      → off + length xs ≤ length d
      → slice off n (splice off xs d) ≡ take n xs
  unfolding splice
  slice-splice_prefix zero [] d zero e h = refl
  slice-splice_prefix zero [] d (suc n) e h = absurd (omega arith)
  slice-splice_prefix zero (x ∷ xs) d zero e h = refl
  slice-splice_prefix zero (x ∷ xs) [] (suc n) e h = absurd (omega arith)
  slice-splice_prefix zero (x ∷ xs) (y ∷ d) (suc n) e h =
      ap (λ t. x ∷ t) (slice-splice_prefix zero xs d n (omega arith) (omega arith))
  slice-splice_prefix (suc off) xs [] n e h = absurd (omega arith)
  slice-splice_prefix (suc off) xs (y ∷ d) n e h = slice-splice_prefix off xs d n e (omega arith)

  -- What is written right behind a range joins it.
  pub slice-splice_end :
      (r w k : ℕ) (xs d : List A) (n : ℕ)
      → w ≡ r + k
      → n ≡ k + length xs
      → w + length xs ≤ length d
      → slice r n (splice w xs d) ≡ slice r k d ++ xs
  unfolding splice
  slice-splice_end zero zero zero xs d n e m h =
      slice-splice_self 0 xs d n (omega arith) (omega arith)
  slice-splice_end zero zero (suc k) xs d n e m h = absurd (omega arith)
  slice-splice_end zero (suc w) zero xs d n e m h = absurd (omega arith)
  slice-splice_end zero (suc w) (suc k) xs [] n e m h = absurd (omega arith)
  slice-splice_end zero (suc w) (suc k) xs (y ∷ d) zero e m h = absurd (omega arith)
  slice-splice_end zero (suc w) (suc k) xs (y ∷ d) (suc n) e m h =
      ap (λ t. y ∷ t) (slice-splice_end zero w k xs d n (omega arith) (omega arith) (omega arith))
  slice-splice_end (suc r) zero k xs d n e m h = absurd (omega arith)
  slice-splice_end (suc r) (suc w) k xs [] n e m h = absurd (omega arith)
  slice-splice_end (suc r) (suc w) k xs (y ∷ d) n e m h =
      slice-splice_end r w k xs d n (omega arith) m (omega arith)

  -- Two adjacent writes are one.
  pub splice-splice :
      (w v : ℕ) (xs ys d : List A)
      → v ≡ w + length xs
      → splice w xs (splice v ys d) ≡ splice w (xs ++ ys) d
  unfolding splice
  splice-splice zero zero [] ys d e = splice_nil (splice 0 ys d)
    where
      splice_nil : (t : List A) → splice 0 [] t ≡ t
      splice_nil t = refl
  splice-splice zero zero (x ∷ xs) ys d e = absurd (omega arith)
  splice-splice zero (suc v) [] ys d e = absurd (omega arith)
  splice-splice zero (suc v) (x ∷ xs) ys [] e = refl
  splice-splice zero (suc v) (x ∷ xs) ys (y ∷ d) e =
      ap (λ t. x ∷ t) (splice-splice zero v xs ys d (omega arith))
  splice-splice (suc w) zero xs ys d e = absurd (omega arith)
  splice-splice (suc w) (suc v) xs ys [] e = refl
  splice-splice (suc w) (suc v) xs ys (y ∷ d) e =
      ap (λ t. y ∷ t) (splice-splice w v xs ys d (omega arith))

  pub splice-splice_behind :
      (w v : ℕ) (xs ys d : List A)
      → v ≡ w + length xs
      → splice v ys (splice w xs d) ≡ splice w (xs ++ ys) d
  unfolding splice
  splice-splice_behind zero zero [] ys d e = refl
  splice-splice_behind zero zero (x ∷ xs) ys d e = absurd (omega arith)
  splice-splice_behind zero (suc v) [] ys d e = absurd (omega arith)
  splice-splice_behind zero (suc v) (x ∷ xs) ys [] e = refl
  splice-splice_behind zero (suc v) (x ∷ xs) ys (y ∷ d) e =
      ap (λ t. x ∷ t) (splice-splice_behind zero v xs ys d (omega arith))
  splice-splice_behind (suc w) zero xs ys d e = absurd (omega arith)
  splice-splice_behind (suc w) (suc v) xs ys [] e = refl
  splice-splice_behind (suc w) (suc v) xs ys (y ∷ d) e =
      ap (λ t. y ∷ t) (splice-splice_behind w v xs ys d (omega arith))
