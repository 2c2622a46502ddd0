-- ===== src/Fs/Bitmap.antt =====
-- The search for a free block in the bitmap, fs/src/block.c.
use cs2310_prj.Base.{
  ℕ, zero, suc, ◌+◌, ◌-◌, ◌*◌, ◌/◌, ◌%◌, ◌<◌, ◌≤◌, ◌≡◌, refl, sym, ap, ◌∙◌, Bool, true, none, some,
  List, [], ◌∷◌, arith, leb, ◌==◌, Bool-cases, Option-cases, inl, inr, get_or, ◌⊎◌,
}
use cs2310_prj.Fs.Block.{scan_bits, scan_bytes, bit_is_clear}

-- Bit `k` of byte `byte` and the bytes behind it.
abbrev pub is_free : List ℕ → ℕ → ℕ → Bool
is_free vs byte k = bit_is_clear (get_or vs (k / 8 - byte) 0) (k % 8)

scan_bits-found :
    (n bit limit byte v idx : ℕ)
    → scan_bits n bit limit byte v ≡ some idx
    → (b : ℕ) × (idx ≡ byte * 8 + b)
      × (bit ≤ b)
      × (b < bit + n)
      × (idx < limit)
      × (bit_is_clear v b ≡ true)
unfolding scan_bits
scan_bits-found zero bit limit byte v idx e = absurd (cc)
scan_bits-found (suc n) bit limit byte v idx e = elim (Bool-cases (leb limit (byte * 8 + bit))) [
  | inl over ↦ absurd (ground arith)
  | inr inside ↦ elim (Bool-cases (bit_is_clear v bit)) [
    | inl free ↦
        let q : byte * 8 + bit ≡ idx = ground arith in
        (bit, sym q, omega arith, omega arith, ground arith, free)
    | inr used ↦
        let rest : scan_bits n (bit + 1) limit byte v ≡ some idx = ground arith in
        let (b, p, l, h, m, c) = scan_bits-found n (bit + 1) limit byte v idx rest in
        (b, p, omega arith, omega arith, m, c)
  ]
]

is_free-here :
    (v : ℕ) (vs : List ℕ) (byte b : ℕ)
    → b < 8
    → is_free (v ∷ vs) byte (byte * 8 + b) ≡ bit_is_clear v b
is_free-here v vs byte b h =
    let p : (byte * 8 + b) / 8 - byte ≡ 0 = omega arith in
    let q : (byte * 8 + b) % 8 ≡ b = omega arith in rw (p, q) refl

is_free-later :
    (v : ℕ) (vs : List ℕ) (byte k : ℕ)
    → (byte + 1) * 8 ≤ k
    → is_free (v ∷ vs) byte k ≡ is_free vs (byte + 1) k
is_free-later v vs byte k h =
    let p : k / 8 - byte ≡ suc (k / 8 - (byte + 1)) = omega arith in rw p refl

-- The two ways in which the loop over the bytes comes to its result.
scan_bytes_cases :
    (v : ℕ) (vs : List ℕ) (byte limit idx : ℕ)
    → scan_bytes byte limit (v ∷ vs) ≡ some idx
    → (((b : ℕ) × (b < 8)
        × (idx ≡ byte * 8 + b)
        × (scan_bits 8 0 limit byte v ≡ some (byte * 8 + b))
        × (idx < limit)
        × (bit_is_clear v b ≡ true)))
      ⊎ ((scan_bytes (byte + 1) limit vs ≡ some idx)
          × ((v ≡ 255) ⊎ (scan_bits 8 0 limit byte v ≡ none)))
unfolding scan_bytes
scan_bytes_cases v vs byte limit idx e = elim (Bool-cases (v == 255)) [
  | inl full ↦ inr (ground arith, inl (ground arith))
  | inr part ↦ elim (Option-cases (scan_bits 8 0 limit byte v)) [
    | inl n ↦ inr (ground arith, inr n)
    | inr (i, f) ↦
        let same : i ≡ idx = ground arith in
        let (b, p, l, h, m, c) = scan_bits-found 8 0 limit byte v i f in
        inl (b, h, cc, cc, omega arith, c)
  ]
]

pub found_bit :
    (vs : List ℕ) (byte limit idx : ℕ)
    → scan_bytes byte limit vs ≡ some idx
    → (byte * 8 ≤ idx) × (idx < limit) × (is_free vs byte idx ≡ true)
found_bit [] byte limit idx e = absurd (unfold scan_bytes in cc)
found_bit (v ∷ vs) byte limit idx e = elim (scan_bytes_cases v vs byte limit idx e) [
  | inl (b, h, p, f, m, c) ↦
      (omega arith, m, ap (is_free (v ∷ vs) byte) p ∙ is_free-here v vs byte b h ∙ c)
  | inr (rest, skipped) ↦
      let (l, m, c) = found_bit vs (byte + 1) limit idx rest in
      (omega arith, m, is_free-later v vs byte idx l ∙ c)
]
