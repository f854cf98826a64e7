-- ===== src/Pow/LeadingZeros.antt =====
-- `count_leading_zeros` of src/pow.rs, against the digest read as a big-endian number.
use native.Mathlib.Nat.{one-le-pow, pow-suc, mul-le-mul_left, mul-le-mul_right, pow-le-pow_right}
use Prim.Native.Nat.add
use native.Mathlib.Numerals.{towards_suc}
use faucet_api.Common.{
  ◌⊎◌, le→leb, refl, ℕ, zero, suc, ◌+◌, ◌*◌, ◌%◌, ◌^◌, ◌≤◌, ◌<◌, ◌≡◌, ◌↔◌, ap, ◌∙◌, leb→le,
  not-leb→lt, inl, inr, List, [], ◌∷◌, arith, leb, ◌==◌, if◌then◌else◌, length, All, Bool-cases,
  true,
}

-- `u8::leading_zeros`: 8 less the number of the byte's binary digits.
unfoldable pub byte_leading_zeros : ℕ → ℕ
byte_leading_zeros b =
    if leb 128 b
    then 0
    else if leb 64 b
    then 1
    else if leb 32 b
    then 2
    else if leb 16 b
    then 3
    else if leb 8 b
    then 4
    else if leb 4 b
    then 5
    else if leb 2 b
    then 6
    else if leb 1 b
    then 7
    else 8

-- The loop, with `leading_zeros` so far; `+=` on a `u8` wraps in a release build.
unfoldable pub leading_zeros_from : ℕ → List ℕ → ℕ
unfolding byte_leading_zeros
leading_zeros_from acc [] = acc
leading_zeros_from acc (b ∷ bytes) =
    let rest = leading_zeros_from ((acc + 8) % 2 ^ 8) bytes in
    if b == 0 then rest else (acc + byte_leading_zeros b) % 2 ^ 8

unfoldable pub count_leading_zeros : List ℕ → ℕ
unfolding leading_zeros_from
count_leading_zeros bytes = leading_zeros_from 0 bytes

-- A byte.
abbrev pub IsByte : ℕ → Type 0
IsByte b = b < 2 ^ 8

-- The digest as one number, most significant byte first.
abbrev pub be_value : List ℕ → ℕ
be_value [] = 0
be_value (b ∷ bytes) = b * 256 ^ length bytes + be_value bytes

le-of : (b : ℕ) → IsByte b → b + 1 ≤ 256
le-of b h = omega arith

pow2_pos : (z : ℕ) → 0 < 2 ^ z
pow2_pos z = one-le-pow z 2 (omega arith)

be_value-lt : (bytes : List ℕ) → All IsByte bytes → be_value bytes < 256 ^ length bytes
be_value-lt [] h = omega arith
be_value-lt (b ∷ bytes) (h, hs) =
    let grow : (b + 1) * 256 ^ length bytes ≤ 256 * 256 ^ length bytes =
      mul-le-mul_right (256 ^ length bytes) (le-of b h) in
    omega (arith, be_value-lt bytes hs, pow-suc 256 (length bytes), grow)

byte_leading_zeros_lem :
    (b : ℕ)
    → 0 < b
    → b < 256
    → (byte_leading_zeros b < 8)
      × (128 ≤ b * 2 ^ byte_leading_zeros b)
      × ((b + 1) * 2 ^ byte_leading_zeros b ≤ 256)
unfolding byte_leading_zeros
byte_leading_zeros_lem b p h = ground arith

-- What the loop has found when it stops: `z` zero bits, after which the value fills its width.
abbrev Normalises : List ℕ → ℕ → Type 0
Normalises bytes z =
    (z < 8 * length bytes)
    × (256 ^ length bytes ≤ 2 * (be_value bytes * 2 ^ z))
    × (be_value bytes * 2 ^ z < 256 ^ length bytes)

-- A first byte that is not zero ends the loop.
Normalises-head :
    (b : ℕ) (bytes : List ℕ)
    → All IsByte (b ∷ bytes)
    → 0 < b
    → Normalises (b ∷ bytes) (byte_leading_zeros b)
Normalises-head b bytes h p =
    let z = byte_leading_zeros b in
    let m = 256 ^ length bytes in
    let (few, low, high) = byte_leading_zeros_lem b p h.0 in
    let below : (be_value bytes + 1) * 2 ^ z ≤ m * 2 ^ z =
      mul-le-mul_right (2 ^ z) (omega (arith, be_value-lt bytes h.1)) in
    let low' : 128 * m ≤ b * 2 ^ z * m = mul-le-mul_right m low in
    let high' : (b + 1) * 2 ^ z * m ≤ 256 * m = mul-le-mul_right m high in
    let width : 256 ^ suc (length bytes) ≡ m * 256 = pow-suc 256 (length bytes) in
    (omega arith, omega arith, omega (arith, pow2_pos z))

pow2_plus_8 : (z : ℕ) → 2 ^ (z + 8) ≡ 256 * 2 ^ z
pow2_plus_8 z = simp towards_suc (omega arith)

-- Behind a zero byte the count goes on, eight bits further.
Normalises-zero : (bytes : List ℕ) (z : ℕ) → Normalises bytes z → Normalises (0 ∷ bytes) (z + 8)
Normalises-zero bytes z (few, low, high) =
    let width : 256 ^ suc (length bytes) ≡ 256 ^ length bytes * 256 = pow-suc 256 (length bytes) in
    let shift : be_value bytes * 2 ^ (z + 8) ≡ be_value bytes * (256 * 2 ^ z) =
      ap (◌*◌ (be_value bytes)) (pow2_plus_8 z) in
    (omega arith, omega arith, omega arith)

length-pos : (bytes : List ℕ) → 0 < be_value bytes → 0 < length bytes
length-pos [] p = p
length-pos (b ∷ bytes) p = omega arith

leading_zeros_from_lem :
    (bytes : List ℕ) (acc : ℕ)
    → All IsByte bytes
    → acc + 8 * length bytes ≤ 2 ^ 8
    → 0 < be_value bytes
    → (z : ℕ) × (leading_zeros_from acc bytes ≡ acc + z) × Normalises bytes z
unfolding leading_zeros_from
leading_zeros_from_lem [] acc h room p = absurd (omega arith)
leading_zeros_from_lem (zero ∷ bytes) acc h room p =
    let some_left : 0 < length bytes = length-pos bytes (omega arith) in
    let (z, e, n) = leading_zeros_from_lem bytes (acc + 8) h.1 (omega arith) (omega arith) in
    let small : (acc + 8) % 2 ^ 8 ≡ acc + 8 = omega arith in
    (z + 8, rw small (omega arith), Normalises-zero bytes z n)
leading_zeros_from_lem (suc k ∷ bytes) acc h room p =
    let (few, low, high) = byte_leading_zeros_lem (suc k) (omega arith) h.0 in
    (byte_leading_zeros (suc k), ground arith, Normalises-head (suc k) bytes h (omega arith))

pub count_leading_zeros_iff :
    (digest : List ℕ) (d : ℕ)
    → All IsByte digest
    → length digest ≡ 32
    → 0 < be_value digest
    → (leb d (count_leading_zeros digest) ≡ true) ↔ (be_value digest * 2 ^ d < 2 ^ 256)
unfolding count_leading_zeros
count_leading_zeros_iff digest d h len p =
    let (z, e, (few, low, high)) = leading_zeros_from_lem digest 0 h (omega arith) p in
    let width : 256 ^ length digest ≡ 2 ^ 256 = ap (λ n. 256 ^ n) len in
    let count : count_leading_zeros digest ≡ z = e ∙ add.zero z in
    rw count (
      λ t.
          let up : be_value digest * 2 ^ d ≤ be_value digest * 2 ^ z =
            mul-le-mul_left _ (pow-le-pow_right (omega arith) (leb→le d z t)) in
          omega arith,
      λ v. elim (Bool-cases (leb d z)) [
        | inl t ↦ t
        | inr f ↦
            let up : be_value digest * 2 ^ suc z ≤ be_value digest * 2 ^ d =
              mul-le-mul_left _ (pow-le-pow_right (omega arith) (not-leb→lt d z f)) in
            absurd (omega (arith, ap (◌*◌ (be_value digest)) (pow-suc 2 z)))
      ],
    )

leading_zeros_from_zero :
    (bytes : List ℕ) (acc : ℕ)
    → acc < 256
    → be_value bytes ≡ 0
    → leading_zeros_from acc bytes ≡ (acc + 8 * length bytes) % 2 ^ 8
unfolding leading_zeros_from
leading_zeros_from_zero [] acc h v = omega arith
leading_zeros_from_zero (zero ∷ bytes) acc h v =
    omega (arith, leading_zeros_from_zero bytes ((acc + 8) % 2 ^ 8) (omega arith) (omega arith))
leading_zeros_from_zero (suc k ∷ bytes) acc h v =
    absurd (omega (arith, one-le-pow (length bytes) 256 (omega arith)))

count_leading_zeros_wraps :
    (digest : List ℕ) → length digest ≡ 32 → be_value digest ≡ 0 → count_leading_zeros digest ≡ 0
unfolding count_leading_zeros
count_leading_zeros_wraps digest len v = rw (leading_zeros_from_zero digest 0 (omega arith) v, len)

zero-or-pos : (n : ℕ) → (n ≡ 0) ⊎ (0 < n)
zero-or-pos zero = inl refl
zero-or-pos (suc n) = inr (omega arith)

-- The check `count >= difficulty` of `check_solution`, for a digest of 32 bytes: the count reaches d exactly when the
-- digest, as a big-endian number, is below 2^(256 - d) and not zero, or d is 0. The 256 zero bits of a digest that is
-- zero wrap to a count of 0.
pub count_leading_zeros_reaches :
    (digest : List ℕ) (d : ℕ)
    → All IsByte digest
    → length digest ≡ 32
    → (leb d (count_leading_zeros digest) ≡ true) ↔ (
        ((0 < be_value digest) × (be_value digest * 2 ^ d < 2 ^ 256))
        ⊎ ((be_value digest ≡ 0) × (d ≡ 0)))
count_leading_zeros_reaches digest d h len = elim (zero-or-pos (be_value digest)) [
  | inl z ↦
      let wraps : count_leading_zeros digest ≡ 0 = count_leading_zeros_wraps digest len z in
      (
        λ t. inr (z, omega (arith, leb→le d (count_leading_zeros digest) t)),
        λ v. elim v [
          | inl (p, _) ↦ absurd (omega arith)
          | inr (_, none) ↦ le→leb d (count_leading_zeros digest) (omega arith)
        ],
      )
  | inr p ↦
      let iff = count_leading_zeros_iff digest d h len p in
      (
        λ t. inl (p, iff.0 t),
        λ v. elim v [ inl (_, below) ↦ iff.1 below | inr (z, _) ↦ absurd (omega arith) ],
      )
]
