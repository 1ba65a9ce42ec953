-- ===== src/Base/Text.antt =====
-- Texts as lists of bytes, and the functions of the C library on them: strcmp for equality, the
-- decimal digits of printf's %lu, and atol.
use Prim.Native.Nat.{ℕ, zero, suc, ◌+◌, ◌-◌, ◌*◌, ◌/◌, ◌%◌, ◌^◌, ◌<◌, min}
use Prim.Native.Char.{code}
use Prim.Native.String.{String}
use mathlib.Core.Path.{◌≡◌, refl, sym, ap, ◌∙◌}
use mathlib.Core.Logic.{◌⊎◌, inl, inr}
use mathlib.Core.Bool.{Bool, true, false, ◌&&◌, ◌||◌}
use mathlib.Core.List.{List, [], ◌∷◌, ◌++◌}
use native.Mathlib.Omega.{arith}
use linux_device_driver.Base.Tests.{ltb, leb, ◌==◌, if◌then◌else◌, Bool-cases}
use linux_device_driver.Base.Int.{ℤ, pos, ◌-ℤ◌}

abbrev pub Text : Type 0
Text = List ℕ

abbrev pub codes : String → Text
codes String.[] = []
codes (String.◌∷◌ c s) = code c ∷ codes s

-- strcmp(s, t) == 0
abbrev pub text_eq : Text → Text → Bool
text_eq [] [] = true
text_eq [] (d ∷ t) = false
text_eq (c ∷ s) [] = false
text_eq (c ∷ s) (d ∷ t) = (c == d) && text_eq s t

pub text_eq_self : (s : Text) → text_eq s s ≡ true
text_eq_self [] = refl
text_eq_self (c ∷ s) = ground (arith, text_eq_self s)

pub text_eq-eq : (s t : Text) → text_eq s t ≡ true → s ≡ t
text_eq-eq [] [] h = refl
text_eq-eq [] (d ∷ t) h = cc
text_eq-eq (c ∷ s) [] h = cc
text_eq-eq (c ∷ s) (d ∷ t) h = ground (arith, text_eq-eq s t)

pub text_eq_cases : (s t : Text) → (s ≡ t) ⊎ (text_eq s t ≡ false)
text_eq_cases s t = elim (Bool-cases (text_eq s t)) [
  | inl same ↦ inl (text_eq-eq s t same)
  | inr other ↦ inr other
]

-- The digits of `n` in front of `rest`.
unfoldable pub digits_before : ℕ → ℕ → Text → Text
digits_before zero n rest = rest
digits_before (suc fuel) n rest =
    let more = digits_before fuel (n / 10) ((48 + n % 10) ∷ rest) in
    if ltb n 10 then (48 + n % 10) ∷ rest else more

-- "%lu"
unfoldable pub decimal : ℕ → Text
unfolding digits_before
decimal n = digits_before (suc n) n []

unfoldable pub is_digit : ℕ → Bool
is_digit c = leb 48 c && leb c 57

unfoldable pub digits_value : ℕ → Text → ℕ
unfolding is_digit
digits_value acc [] = acc
digits_value acc (c ∷ s) =
    let more = digits_value (acc * 10 + (c - 48)) s in if is_digit c then more else acc

unfoldable pub is_space : ℕ → Bool
is_space c = (c == 32) || (leb 9 c && leb c 13)

unfoldable pub skip_spaces : Text → Text
unfolding is_space
skip_spaces [] = []
skip_spaces (c ∷ s) = let more = skip_spaces s in if is_space c then more else c ∷ s

-- The value behind the sign; what does not fit in a long is cut to the nearest long.
unfoldable pub signed_value : Text → ℤ
unfolding digits_value
signed_value [] = pos 0
signed_value (c ∷ s) =
    if c == b'-'
    then pos 0 -ℤ pos (min (digits_value 0 s) (2 ^ 63))
    else pos (min (if c == b'+' then digits_value 0 s else digits_value 0 (c ∷ s)) (2 ^ 63 - 1))

unfoldable pub atol : Text → ℤ
unfolding skip_spaces signed_value
atol s = signed_value (skip_spaces s)

digit_step :
    (acc d : ℕ) (s : Text)
    → d < 10
    → digits_value acc ((48 + d) ∷ s) ≡ digits_value (acc * 10 + d) s
unfolding digits_value is_digit
digit_step acc d s h =
    let e : acc * 10 + (48 + d - 48) ≡ acc * 10 + d = omega arith in
    let t : is_digit (48 + d) ≡ true = ground arith in rw (digits_value, t, if◌then◌else◌, e) refl

pub digits_value-digits_before :
    (fuel n : ℕ) (rest : Text)
    → n < fuel
    → digits_value 0 (digits_before fuel n rest) ≡ digits_value n rest
unfolding digits_before
digits_value-digits_before zero n rest h = absurd (omega arith)
digits_value-digits_before (suc fuel) n rest h = elim (Bool-cases (ltb n 10)) [
  | inl small ↦
      let e : 0 * 10 + n % 10 ≡ n = ground arith in
      rw (small, if◌then◌else◌) (rw (digit_step 0 (n % 10) rest (omega arith)) (rw e refl))
  | inr large ↦
      let e : n / 10 * 10 + n % 10 ≡ n = omega arith in
      rw (large, if◌then◌else◌)
        (digits_value-digits_before fuel (n / 10) ((48 + n % 10) ∷ rest) (ground arith)
          ∙ rw (digit_step (n / 10) (n % 10) rest (omega arith)) (rw e refl))
]

digits_before_head :
    (fuel n : ℕ) (rest : Text)
    → n < fuel
    → (d : ℕ) × (s : Text) × (digits_before fuel n rest ≡ (48 + d) ∷ s) × (d < 10)
unfolding digits_before
digits_before_head zero n rest h = absurd (omega arith)
digits_before_head (suc fuel) n rest h = elim (Bool-cases (ltb n 10)) [
  | inl small ↦ (n % 10, rest, rw (small, if◌then◌else◌) refl, omega arith)
  | inr large ↦
      let (d, s, e, lt) = digits_before_head fuel (n / 10) ((48 + n % 10) ∷ rest) (ground arith) in
      (d, s, rw (large, if◌then◌else◌) e, lt)
]

atol_digit :
    (d : ℕ) (s : Text)
    → d < 10
    → atol ((48 + d) ∷ s) ≡ pos (min (digits_value 0 ((48 + d) ∷ s)) (2 ^ 63 - 1))
unfolding atol skip_spaces signed_value is_space
atol_digit d s h =
    let a : is_space (48 + d) ≡ false = ground arith in
    let b : ((48 + d) == b'-') ≡ false = ground arith in
    let c : ((48 + d) == b'+') ≡ false = ground arith in
    rw (skip_spaces, a, if◌then◌else◌, signed_value, b, c) refl

digits_before-append :
    (fuel n : ℕ) (rest more : Text)
    → digits_before fuel n rest ++ more ≡ digits_before fuel n (rest ++ more)
unfolding digits_before
digits_before-append zero n rest more = refl
digits_before-append (suc fuel) n rest more =
    ground (arith, digits_before-append fuel (n / 10) ((48 + n % 10) ∷ rest) more)

decimal-append : (n : ℕ) (more : Text) → decimal n ++ more ≡ digits_before (suc n) n more
decimal-append n more = unfold decimal in digits_before-append (suc n) n [] more

-- What %lu prints of a number that a long can hold is read back by atol, up to what stands behind it.
pub atol-decimal :
    (n : ℕ) (more : Text) → n < 2 ^ 63 → digits_value n more ≡ n → atol (decimal n ++ more) ≡ pos n
atol-decimal n more h stops =
    let (d, s, e, lt) = digits_before_head (suc n) n more (omega arith) in
    let v : digits_value 0 ((48 + d) ∷ s) ≡ n =
      ap (digits_value 0) (sym e)
      ∙ digits_value-digits_before (suc n) n more (omega arith)
      ∙ stops in
    let m : min n (2 ^ 63 - 1) ≡ n = omega arith in
    ap atol (decimal-append n more ∙ e)
    ∙ atol_digit d s lt
    ∙ ap (λ k. pos (min k (2 ^ 63 - 1))) v
    ∙ ap pos m
