-- ===== src/Base/Int.antt =====
-- The C type `int`, and the bytes of a 32-bit word.
use Prim.Native.Nat.{ℕ, ◌+◌, ◌-◌, ◌*◌, ◌/◌, ◌%◌, ◌<◌}
use mathlib.Core.Bool.{Bool, true, false}
use mathlib.Core.Path.{◌≡◌}
use mathlib.Core.List.{List, [], ◌∷◌}
use native.Mathlib.Omega.{arith}
use cs2310_prj.Base.Tests.{ltb, leb, if◌then◌else◌}
use cs2310_prj.Base.Lists.{get_or}

-- `negsuc n` is -(n + 1).
pub data ℤ : Type 0 where
  pos : ℕ → ℤ
  negsuc : ℕ → ℤ

abbrev pub is_neg : ℤ → Bool
is_neg (pos n) = false
is_neg (negsuc n) = true

-- The value of an `int` that is not negative, and 0 otherwise.
abbrev pub to_nat : ℤ → ℕ
to_nat (pos n) = n
to_nat (negsuc n) = 0

abbrev pub ltb_ℤ : ℤ → ℤ → Bool
ltb_ℤ (pos a) (pos b) = ltb a b
ltb_ℤ (pos a) (negsuc b) = false
ltb_ℤ (negsuc a) (pos b) = true
ltb_ℤ (negsuc a) (negsuc b) = ltb b a

abbrev pub u32_mod : ℕ
u32_mod = 4_294_967_296

abbrev pub int_max : ℕ
int_max = 2_147_483_647

-- The conversion of an unsigned word to `int`.
unfoldable pub to_int : ℕ → ℤ
to_int x = if leb x int_max then pos x else negsuc (u32_mod - 1 - x)

-- Unsigned subtraction and addition of 32-bit words.
abbrev pub sub32 : ℕ → ℕ → ℕ
sub32 a b = (a + u32_mod - b) % u32_mod

abbrev pub add32 : ℕ → ℕ → ℕ
add32 a b = (a + b) % u32_mod

-- The four bytes of a word in network order, which is what `htonl` stores.
unfoldable pub be32 : ℕ → List ℕ
be32 v = v / 16_777_216 % 256 ∷ v / 65_536 % 256 ∷ v / 256 % 256 ∷ v % 256 ∷ []

unfoldable pub from_be32 : List ℕ → ℕ
from_be32 d = get_or d 0 0 * 16_777_216 + get_or d 1 0 * 65_536 + get_or d 2 0 * 256 + get_or d 3 0

-- The same in the order of the host, a little-endian machine.
unfoldable pub le32 : ℕ → List ℕ
le32 v = v % 256 ∷ v / 256 % 256 ∷ v / 65_536 % 256 ∷ v / 16_777_216 % 256 ∷ []

unfoldable pub from_le32 : List ℕ → ℕ
from_le32 d = get_or d 0 0 + get_or d 1 0 * 256 + get_or d 2 0 * 65_536 + get_or d 3 0 * 16_777_216

unfoldable pub le16 : ℕ → List ℕ
le16 v = v % 256 ∷ v / 256 % 256 ∷ []

unfoldable pub from_le16 : List ℕ → ℕ
from_le16 d = get_or d 0 0 + get_or d 1 0 * 256

pub from_be32-be32 : (v : ℕ) → v < u32_mod → from_be32 (be32 v) ≡ v
unfolding be32 from_be32
from_be32-be32 v h = omega arith

pub from_le32-le32 : (v : ℕ) → v < u32_mod → from_le32 (le32 v) ≡ v
unfolding le32 from_le32
from_le32-le32 v h = omega arith

pub from_le16-le16 : (v : ℕ) → v < 65_536 → from_le16 (le16 v) ≡ v
unfolding le16 from_le16
from_le16-le16 v h = omega arith
