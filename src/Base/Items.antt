-- ===== src/Base/Items.antt =====
-- The items of a list after `splice`, `take` and `drop`, one by one.
use Prim.Native.Nat.{ℕ, zero, suc, ◌+◌, ◌≤◌, ◌<◌}
use mathlib.Core.Path.{◌≡◌, refl}
use mathlib.Core.Logic.{◌⊎◌, inl, inr}
use mathlib.Core.List.{List, [], ◌∷◌}
use native.Mathlib.Omega.{arith}
use cs2310_prj.Base.Lists.{length, take, drop, splice, get_or}

pub get_or-splice_in :
    (off : ℕ) (xs d : List ℕ) (i : ℕ)
    → i < length xs
    → off + i < length d
    → get_or (splice off xs d) (off + i) 0 ≡ get_or xs i 0
unfolding splice
get_or-splice_in zero [] d i h l = absurd (omega arith)
get_or-splice_in zero (x ∷ xs) [] i h l = absurd (omega arith)
get_or-splice_in zero (x ∷ xs) (y ∷ d) zero h l = refl
get_or-splice_in zero (x ∷ xs) (y ∷ d) (suc i) h l =
    let e : 0 + suc i ≡ suc (0 + i) = omega arith in
    rw e (get_or-splice_in zero xs d i (omega arith) (omega arith))
get_or-splice_in (suc off) xs [] i h l = absurd (omega arith)
get_or-splice_in (suc off) xs (y ∷ d) i h l =
    let e : suc off + i ≡ suc (off + i) = omega arith in
    rw e (get_or-splice_in off xs d i h (omega arith))

pub get_or-splice_out :
    (off : ℕ) (xs d : List ℕ) (i : ℕ)
    → (i < off) ⊎ (off + length xs ≤ i)
    → get_or (splice off xs d) i 0 ≡ get_or d i 0
unfolding splice
get_or-splice_out zero [] d i h = refl
get_or-splice_out zero (x ∷ xs) [] i h = refl
get_or-splice_out zero (x ∷ xs) (y ∷ d) zero h = absurd (ground arith)
get_or-splice_out zero (x ∷ xs) (y ∷ d) (suc i) h =
    get_or-splice_out zero xs d i (inr (ground arith))
get_or-splice_out (suc off) xs [] i h = refl
get_or-splice_out (suc off) xs (y ∷ d) zero h = refl
get_or-splice_out (suc off) xs (y ∷ d) (suc i) h =
    get_or-splice_out off xs d i (elim h [ inl a ↦ inl (omega arith) | inr b ↦ inr (omega arith) ])

pub get_or-take : (k : ℕ) (xs : List ℕ) (i : ℕ) → i < k → get_or (take k xs) i 0 ≡ get_or xs i 0
get_or-take zero xs i h = absurd (omega arith)
get_or-take (suc k) [] i h = refl
get_or-take (suc k) (x ∷ xs) zero h = refl
get_or-take (suc k) (x ∷ xs) (suc i) h = get_or-take k xs i (omega arith)

pub get_or-drop : (k : ℕ) (xs : List ℕ) (i : ℕ) → get_or (drop k xs) i 0 ≡ get_or xs (k + i) 0
get_or-drop zero xs i = let e : 0 + i ≡ i = omega arith in rw e refl
get_or-drop (suc k) [] i = refl
get_or-drop (suc k) (x ∷ xs) i =
    let e : suc k + i ≡ suc (k + i) = omega arith in rw e (get_or-drop k xs i)
