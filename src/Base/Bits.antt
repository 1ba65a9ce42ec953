-- ===== src/Base/Bits.antt =====
-- The binary digits of a number, and C's `&`, `|` and `~` by their digits.
use Prim.Native.Nat.{
  ℕ, zero, suc, ◌+◌, ◌-◌, ◌*◌, ◌/◌, ◌%◌, ◌^◌, ◌≤◌, ◌<◌, min, max, bit_and, bit_or, digits,
  bit_and-bitwise, bit_or-bitwise,
}
use mathlib.Core.Path.{◌≡◌, refl, sym, ap, ◌∙◌}
use mathlib.Core.Logic.{◌⊎◌, inl, inr}
use native.Mathlib.Omega.{arith}

-- Digit `i` of `n`, the lowest first.
abbrev pub bit : ℕ → ℕ → ℕ
bit zero n = n % 2
bit (suc i) n = bit i (n / 2)

-- `~m` of a number of `w` digits
abbrev pub bit_not : ℕ → ℕ → ℕ
bit_not w m = 2 ^ w - 1 - m

module _ (z : ℕ → ℕ) (f : ℕ → ℕ → ℕ) (z_half : (b : ℕ) → z b ≡ z (b / 2) * 2 + f 0 (b % 2)) where
  digits_step :
      (n a b : ℕ)
      → a ≤ suc n
      → digits z f (suc n) a b ≡ digits z f n (a / 2) (b / 2) * 2 + f (a % 2) (b % 2)
  digits_step zero zero b h = z_half b
  digits_step (suc n) zero b h = z_half b
  digits_step n (suc a) b h = refl

  digits_fuel : (n m a b : ℕ) → a ≤ n → a ≤ m → digits z f n a b ≡ digits z f m a b
  digits_fuel zero zero a b h k = refl
  digits_fuel zero (suc m) zero b h k = refl
  digits_fuel zero (suc m) (suc a) b h k = absurd (omega arith)
  digits_fuel (suc n) zero zero b h k = refl
  digits_fuel (suc n) zero (suc a) b h k = absurd (omega arith)
  digits_fuel (suc n) (suc m) a b h k = rw (
    digits_step n a b h,
    digits_step m a b k,
    digits_fuel n m (a / 2) (b / 2) (omega arith) (omega arith),
  )

pub bit_and_half : (a b : ℕ) → bit_and a b ≡ bit_and (a / 2) (b / 2) * 2 + min (a % 2) (b % 2)
bit_and_half a b =
    bit_and-bitwise a b
    ∙ digits_fuel (λ b. zero) min (λ b. omega arith) a (suc a) a b (omega arith) (omega arith)
    ∙ digits_step (λ b. zero) min (λ b. omega arith) a a b (omega arith)
    ∙ ap (λ k. k * 2 + min (a % 2) (b % 2))
        (digits_fuel (λ b. zero) min (λ b. omega arith) a (a / 2) (a / 2) (b / 2) (omega arith)
            (omega arith)
          ∙ sym (bit_and-bitwise (a / 2) (b / 2)))

pub bit_or_half : (a b : ℕ) → bit_or a b ≡ bit_or (a / 2) (b / 2) * 2 + max (a % 2) (b % 2)
bit_or_half a b =
    bit_or-bitwise a b
    ∙ digits_fuel (λ b. b) max own a (suc a) a b (omega arith) (omega arith)
    ∙ digits_step (λ b. b) max own a a b (omega arith)
    ∙ ap (λ k. k * 2 + max (a % 2) (b % 2))
        (digits_fuel (λ b. b) max own a (a / 2) (a / 2) (b / 2) (omega arith) (omega arith)
          ∙ sym (bit_or-bitwise (a / 2) (b / 2)))
  where
    own : (b : ℕ) → b ≡ b / 2 * 2 + max 0 (b % 2)
    own b = omega arith

pub bit-bit_and : (i a b : ℕ) → bit i (bit_and a b) ≡ min (bit i a) (bit i b)
bit-bit_and zero a b = omega (arith, bit_and_half a b)
bit-bit_and (suc i) a b =
    let half : bit_and a b / 2 ≡ bit_and (a / 2) (b / 2) = omega (arith, bit_and_half a b) in
    rw half (bit-bit_and i (a / 2) (b / 2))

pub bit-bit_or : (i a b : ℕ) → bit i (bit_or a b) ≡ max (bit i a) (bit i b)
bit-bit_or zero a b = omega (arith, bit_or_half a b)
bit-bit_or (suc i) a b =
    let half : bit_or a b / 2 ≡ bit_or (a / 2) (b / 2) = omega (arith, bit_or_half a b) in
    rw half (bit-bit_or i (a / 2) (b / 2))

pub bit-bit_not : (w i m : ℕ) → i < w → m < 2 ^ w → bit i (bit_not w m) ≡ 1 - bit i m
bit-bit_not zero i m h k = absurd (omega arith)
bit-bit_not (suc w) zero m h k =
    let twice : 2 ^ suc w ≡ 2 * 2 ^ w = omega arith in omega (arith, twice)
bit-bit_not (suc w) (suc i) m h k =
    let twice : 2 ^ suc w ≡ 2 * 2 ^ w = omega arith in
    let half : bit_not (suc w) m / 2 ≡ bit_not w (m / 2) = omega (arith, twice) in
    rw half (bit-bit_not w i (m / 2) (omega arith) (omega (arith, twice)))

-- Numbers of `w` digits that have the same digits are the same.
pub bits_ext : (w a b : ℕ) → a < 2 ^ w → b < 2 ^ w → ((i : ℕ) → i < w → bit i a ≡ bit i b) → a ≡ b
bits_ext zero a b h k e = omega arith
bits_ext (suc w) a b h k e =
    let twice : 2 ^ suc w ≡ 2 * 2 ^ w = omega arith in
    let halves : a / 2 ≡ b / 2 =
      bits_ext w (a / 2) (b / 2) (omega (arith, twice)) (omega (arith, twice))
        (λ i lt. e (suc i) (omega arith)) in
    omega (arith, halves, e 0 (omega arith))

pub bit_le : (i n : ℕ) → bit i n ≤ 1
bit_le zero n = omega arith
bit_le (suc i) n = bit_le i (n / 2)

bit-zero : (i : ℕ) → bit i 0 ≡ 0
bit-zero zero = refl
bit-zero (suc i) = bit-zero i

-- The digits of a number below `2 ^ k` end at `k`.
pub bit_above : (k i n : ℕ) → n < 2 ^ k → k ≤ i → bit i n ≡ 0
bit_above zero i n h le = let none_left : n ≡ 0 = omega arith in rw none_left (bit-zero i)
bit_above (suc k) zero n h le = absurd (omega arith)
bit_above (suc k) (suc i) n h le = bit_above k i (n / 2) (omega arith) (omega arith)

-- `n << k` has none below `k`.
pub bit_below : (k i n : ℕ) → i < k → bit i (n * 2 ^ k) ≡ 0
bit_below zero i n h = absurd (omega arith)
bit_below (suc k) zero n h =
    let twice : n * 2 ^ suc k ≡ 2 * (n * 2 ^ k) = grind arith in omega (arith, twice)
bit_below (suc k) (suc i) n h =
    let twice : n * 2 ^ suc k ≡ 2 * (n * 2 ^ k) = grind arith in
    let half : n * 2 ^ suc k / 2 ≡ n * 2 ^ k = omega (arith, twice) in
    rw half (bit_below k i n (omega arith))

pub bit_and_le : (a b : ℕ) → bit_and a b ≤ a
bit_and_le a b = by_fuel a a b (omega arith)
  where
    by_fuel : (n a b : ℕ) → a ≤ n → bit_and a b ≤ a
    by_fuel zero zero b h = omega (arith, bit_and-bitwise 0 b)
    by_fuel zero (suc a) b h = absurd (omega arith)
    by_fuel (suc n) zero b h = omega (arith, bit_and-bitwise 0 b)
    by_fuel (suc n) (suc a) b h =
        omega (arith, bit_and_half (suc a) b, by_fuel n (suc a / 2) (b / 2) (omega arith))

pub bit_ones : (w i : ℕ) → i < w → bit i (2 ^ w - 1) ≡ 1
bit_ones w i h =
    let all : bit_not w 0 ≡ 2 ^ w - 1 = omega arith in
    let some_value : 0 < 2 ^ w = pow_pos w in
    sym (ap (bit i) all) ∙ bit-bit_not w i 0 h some_value ∙ omega (arith, bit-zero i)
  where
    pow_pos : (k : ℕ) → 0 < 2 ^ k
    pow_pos zero = omega arith
    pow_pos (suc k) = omega (arith, pow_pos k)

-- Two numbers with no digit in common.
pub bit_and_apart : (k m x y : ℕ) → y < 2 ^ k → x * 2 ^ k < 2 ^ m → bit_and (x * 2 ^ k) y ≡ 0
bit_and_apart k m x y h small =
    bits_ext m (bit_and (x * 2 ^ k) y) 0 (omega (arith, bit_and_le (x * 2 ^ k) y)) (omega arith)
      (λ i lt. bit-bit_and i (x * 2 ^ k) y ∙ apart i ∙ sym (bit-zero i))
  where
    ltb_or : (i k : ℕ) → (i < k) ⊎ (k ≤ i)
    ltb_or i k = omega arith

    apart : (i : ℕ) → min (bit i (x * 2 ^ k)) (bit i y) ≡ 0
    apart i = elim (ltb_or i k) [
      | inl lt ↦ omega (arith, bit_below k i x lt)
      | inr le ↦ omega (arith, bit_above k i y h le)
    ]

-- A number of `w` digits masks to one.
pub bit_and_lt : (w a b : ℕ) → b < 2 ^ w → bit_and a b < 2 ^ w
bit_and_lt zero a b h =
    let none_left : b ≡ 0 = omega arith in
    let gone : bit_and a 0 ≡ 0 = bits_and_zero a a (omega arith) in
    rw none_left (omega (arith, gone))
  where
    bits_and_zero : (n a : ℕ) → a ≤ n → bit_and a 0 ≡ 0
    bits_and_zero zero a le =
        let none_too : a ≡ 0 = omega arith in rw none_too (bit_and-bitwise 0 0)
    bits_and_zero (suc n) zero le = bit_and-bitwise 0 0
    bits_and_zero (suc n) (suc a) le =
        omega (arith, bit_and_half (suc a) 0, bits_and_zero n (suc a / 2) (omega arith))
bit_and_lt (suc w) a b h =
    omega (arith, bit_and_half a b, bit_and_lt w (a / 2) (b / 2) (omega arith))

pub bit_or_lt : (w a b : ℕ) → a < 2 ^ w → b < 2 ^ w → bit_or a b < 2 ^ w
bit_or_lt zero a b h k =
    let none_left : a ≡ 0 = omega arith in
    let none_right : b ≡ 0 = omega arith in
    rw (none_left, none_right) (omega (arith, bit_or-bitwise 0 0))
bit_or_lt (suc w) a b h k =
    omega (arith, bit_or_half a b, bit_or_lt w (a / 2) (b / 2) (omega arith) (omega arith))

-- The low digits do not see what is added above them.
pub bit_low : (w i q r : ℕ) → i < w → bit i (q * 2 ^ w + r) ≡ bit i r
bit_low zero i q r h = absurd (omega arith)
bit_low (suc w) zero q r h =
    let twice : q * 2 ^ suc w ≡ 2 * (q * 2 ^ w) = grind arith in omega (arith, twice)
bit_low (suc w) (suc i) q r h =
    let twice : q * 2 ^ suc w ≡ 2 * (q * 2 ^ w) = grind arith in
    let half : (q * 2 ^ suc w + r) / 2 ≡ q * 2 ^ w + r / 2 = omega (arith, twice) in
    rw half (bit_low w i q (r / 2) (omega arith))

-- A mask of ones changes nothing that fits under it.
pub bit_and_ones : (w n : ℕ) → n < 2 ^ w → bit_and n (2 ^ w - 1) ≡ n
bit_and_ones w n h =
    bits_ext w (bit_and n (2 ^ w - 1)) n (omega (arith, bit_and_le n (2 ^ w - 1))) h
      (λ i lt. bit-bit_and i n (2 ^ w - 1) ∙ omega (arith, bit_ones w i lt, bit_le i n))

pub bit_and_same : (w n : ℕ) → n < 2 ^ w → bit_and n n ≡ n
bit_and_same w n h =
    bits_ext w (bit_and n n) n (omega (arith, bit_and_le n n)) h
      (λ i lt. bit-bit_and i n n ∙ omega arith)

pub zero-bit_and : (n : ℕ) → bit_and 0 n ≡ 0
zero-bit_and n = bit_and-bitwise 0 n
