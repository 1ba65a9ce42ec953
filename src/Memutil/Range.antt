-- ===== src/Memutil/Range.antt =====
-- test_suite/memutil/mem_ops.c: the range that is mapped, for a page of 2^k bytes.
use mathlib.Core.Path.{subst}
use native.Mathlib.Nat.{div-lt_iff_lt-mul}
use linux_device_driver.Base.{
  ℕ, zero, suc, ◌+◌, ◌-◌, ◌*◌, ◌/◌, ◌%◌, ◌^◌, ◌≤◌, ◌<◌, ◌≡◌, ap, sym, ◌∙◌, arith, bit_and, add_u64,
  sub_u64,
}
use linux_device_driver.Base.Bits.{bit_not, bit_and_ones}
use linux_device_driver.Base.Masks.{bit_and_high}
use linux_device_driver.Memutil.{map_range}

pow-add : (k j : ℕ) → 2 ^ (k + j) ≡ 2 ^ k * 2 ^ j
pow-add zero j = let e : 0 + j ≡ j = omega arith in rw e (omega arith)
pow-add (suc k) j =
    let e : suc k + j ≡ suc (k + j) = omega arith in ap (λ n. 2 ^ n) e ∙ grind (arith, pow-add k j)

pow_pos : (k : ℕ) → 0 < 2 ^ k
pow_pos zero = omega arith
pow_pos (suc k) = omega (arith, pow_pos k)

pred_mul : (a p : ℕ) → 0 < a → (a - 1) * p + p ≡ a * p
pred_mul zero p h = absurd (omega arith)
pred_mul (suc a) p h = let e : suc a - 1 ≡ a = omega arith in ap (λ n. n * p + p) e ∙ grind arith

word : (k : ℕ) → k ≤ 64 → 2 ^ 64 ≡ 2 ^ (64 - k) * 2 ^ k
word k h = let e : 64 - k + k ≡ 64 = omega arith in ap (λ n. 2 ^ n) (sym e) ∙ pow-add (64 - k) k

-- ~(page - 1) is a mask of the digits from the k-th on.
mask : (k : ℕ) → k ≤ 64 → bit_not 64 (2 ^ k - 1) ≡ (2 ^ (64 - k) - 1) * 2 ^ k
mask k h =
    let one : (2 ^ (64 - k) - 1) * 2 ^ k + 2 ^ k ≡ 2 ^ (64 - k) * 2 ^ k =
      pred_mul (2 ^ (64 - k)) (2 ^ k) (pow_pos (64 - k)) in
    omega (arith, word k h, one, pow_pos k)

-- A quotient and a remainder.
split : (a p : ℕ) → 0 < p → (a / p * p + a % p ≡ a) × (a % p < p)
split a p h = (grind arith, grind arith)

quotient_small : (k a : ℕ) → k ≤ 64 → a < 2 ^ 64 → a / 2 ^ k < 2 ^ (64 - k)
quotient_small k a h small =
    (div-lt_iff_lt-mul {x = a} {y = 2 ^ (64 - k)} (pow_pos k)).1
      (subst (λ n. a < n) (word k h) small)

aligned : (k a : ℕ) → k ≤ 64 → a < 2 ^ 64 → bit_and a (bit_not 64 (2 ^ k - 1)) ≡ a / 2 ^ k * 2 ^ k
aligned k a h small =
    let q : ℕ = a / 2 ^ k in
    let (e, lt) = split a (2 ^ k) (pow_pos k) in
    ap (bit_and a) (mask k h)
    ∙ ap (λ n. bit_and n ((2 ^ (64 - k) - 1) * 2 ^ k)) (sym e)
    ∙ bit_and_high k q (a % 2 ^ k) (2 ^ (64 - k) - 1) lt
    ∙ ap (λ n. n * 2 ^ k) (bit_and_ones (64 - k) q (quotient_small k a h small))

-- For a page of 2^k bytes, at most 2^30, and a region that ends at least a page below 2^64: the mapping
-- begins at a multiple of the page size, at the last one that is not behind the region, vaddr leads to
-- the first byte of the region, and the length is the least multiple of the page size that reaches the
-- end of the region.
pub range_covers :
    (k start len : ℕ)
    → k ≤ 30
    → start + len + 2 ^ k ≤ 2 ^ 64
    → ((map_range (2 ^ k) start len).base ≡ start / 2 ^ k * 2 ^ k)
      × ((map_range (2 ^ k) start len).base + (map_range (2 ^ k) start len).offset ≡ start)
      × ((map_range (2 ^ k) start len).offset < 2 ^ k)
      × ((map_range (2 ^ k) start len).map_length
          ≡ (start % 2 ^ k + len + (2 ^ k - 1)) / 2 ^ k * 2 ^ k)
      × ((map_range (2 ^ k) start len).offset + len ≤ (map_range (2 ^ k) start len).map_length)
      × ((map_range (2 ^ k) start len).map_length
          < (map_range (2 ^ k) start len).offset + len + 2 ^ k)
unfolding map_range
range_covers k start len h fits =
    let P : ℕ = 2 ^ k in
    let p : 0 < P = pow_pos k in
    let (e, lt) = split start P p in
    let b : bit_and start (bit_not 64 (P - 1)) ≡ start / P * P =
      aligned k start (omega arith) (omega arith) in
    let o : sub_u64 start (bit_and start (bit_not 64 (P - 1))) ≡ start % P =
      ap (sub_u64 start) b ∙ omega (arith, e) in
    let s : add_u64 (add_u64 len (start % P)) (P - 1) ≡ start % P + len + (P - 1) =
      omega (arith, e) in
    let (e', lt') = split (start % P + len + (P - 1)) P p in
    let L : add_u64 (add_u64 len (sub_u64 start (bit_and start (bit_not 64 (P - 1))))) (P - 1)
          / P
          * P
        ≡ (start % P + len + (P - 1)) / P * P =
      ap (λ t. t / P * P) (ap (λ t. add_u64 (add_u64 len t) (P - 1)) o ∙ s) in
    (
      b,
      omega (arith, b, o, e),
      omega (arith, o, lt),
      L,
      omega (arith, o, L, e', lt'),
      omega (arith, o, L, e', lt'),
    )
