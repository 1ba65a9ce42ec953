-- ===== src/Base/Masks.antt =====
-- `&` with a mask and `|` of two fields, as the fields of the number.
use linux_device_driver.Base.Bits.{
  bit_and_half, bit_or_half, bits_ext, bit-bit_and, bit_ones, bit_low, bit_and_lt, bit_le,
}
use Prim.Native.Nat.{ℕ, zero, suc, ◌+◌, ◌-◌, ◌*◌, ◌/◌, ◌%◌, ◌^◌, ◌≤◌, ◌<◌, bit_and, bit_or}
use mathlib.Core.Path.{◌≡◌, refl, ap, ◌∙◌}
use native.Mathlib.Omega.{arith}
use native.Mathlib.Decide.{dec_lt}

-- The field below: x & (2^w - 1)
pub bit_and_low : (w q r : ℕ) → r < 2 ^ w → bit_and (q * 2 ^ w + r) (2 ^ w - 1) ≡ r
bit_and_low w q r h =
    bits_ext w (bit_and (q * 2 ^ w + r) (2 ^ w - 1)) r
      (bit_and_lt w (q * 2 ^ w + r) (2 ^ w - 1) (omega arith)) h
      λ i lt. omega (
        arith,
        bit-bit_and i (q * 2 ^ w + r) (2 ^ w - 1),
        bit_ones w i lt,
        bit_low w i q r lt,
        bit_le i r,
      )

twice : (q w : ℕ) → q * 2 ^ suc w ≡ 2 * (q * 2 ^ w)
twice q w = let p : 2 ^ suc w ≡ 2 * 2 ^ w = omega arith in ap (λ k. q * k) p ∙ omega arith

-- The field above: x & (m << w)
pub bit_and_high :
    (w q r m : ℕ) → r < 2 ^ w → bit_and (q * 2 ^ w + r) (m * 2 ^ w) ≡ bit_and q m * 2 ^ w
bit_and_high zero q r m h =
    let a : q * 1 + r ≡ q = omega arith in
    let b : m * 1 ≡ m = omega arith in
    ap (λ k. bit_and k (m * 1)) a ∙ ap (bit_and q) b ∙ omega arith
bit_and_high (suc w) q r m h =
    let X : ℕ = q * 2 ^ suc w + r in
    let Y : ℕ = m * 2 ^ suc w in
    let a : X / 2 ≡ q * 2 ^ w + r / 2 = omega (arith, twice q w) in
    let b : Y / 2 ≡ m * 2 ^ w = omega (arith, twice m w) in
    let c : Y % 2 ≡ 0 = omega (arith, twice m w) in
    let d : bit_and (X / 2) (Y / 2) ≡ bit_and q m * 2 ^ w =
      ap (λ k. bit_and k (Y / 2)) a
      ∙ ap (bit_and (q * 2 ^ w + r / 2)) b
      ∙ bit_and_high w q (r / 2) m (omega arith) in
    bit_and_half X Y ∙ omega (arith, d, c, twice (bit_and q m) w)

bit_or_zero : (k n : ℕ) → n ≤ k → bit_or n 0 ≡ n
bit_or_zero zero n h = let e : n ≡ 0 = omega arith in rw e refl
bit_or_zero (suc k) n h = elim (dec_lt 0 n) [
  | yes p ↦ bit_or_half n 0 ∙ omega (arith, bit_or_zero k (n / 2) (omega arith))
  | no p ↦ let e : n ≡ 0 = omega arith in rw e refl
]

-- Two fields side by side.
pub bit_or_fields : (w q r : ℕ) → r < 2 ^ w → bit_or (q * 2 ^ w) r ≡ q * 2 ^ w + r
bit_or_fields zero q r h =
    let a : r ≡ 0 = omega arith in
    ap (bit_or (q * 1)) a ∙ bit_or_zero (q * 1) (q * 1) (omega arith) ∙ omega arith
bit_or_fields (suc w) q r h =
    let X : ℕ = q * 2 ^ suc w in
    let a : X / 2 ≡ q * 2 ^ w = omega (arith, twice q w) in
    let c : X % 2 ≡ 0 = omega (arith, twice q w) in
    let d : bit_or (X / 2) (r / 2) ≡ q * 2 ^ w + r / 2 =
      ap (λ k. bit_or k (r / 2)) a ∙ bit_or_fields w q (r / 2) (omega arith) in
    bit_or_half X r ∙ omega (arith, d, c, twice q w)
