-- ===== src/Base/Windows.antt =====
-- Windows of an array, `n` elements from index `p` on, and what a store does to them.
use linux_device_driver.Base.Lists.{
  length, take, drop, splice, take-nil, drop-drop, take-splice_before, take-drop,
}
use Prim.Native.Nat.{ℕ, zero, suc, ◌+◌, ◌≤◌}
use mathlib.Core.Path.{◌≡◌, refl, sym, ap, ◌∙◌}
use mathlib.Core.List.{List, [], ◌∷◌, ◌++◌}
use native.Mathlib.Omega.{arith}

module _ {ℓ} {A : Type ℓ} where
  abbrev pub window : ℕ → ℕ → List A → List A
  window p n xs = take n (drop p xs)

  -- Two windows side by side.
  pub window-append :
      (p n m : ℕ) (xs : List A) → window p n xs ++ window (p + n) m xs ≡ window p (n + m) xs
  window-append p n m xs =
      ap (λ r. window p n xs ++ take m r) (sym (drop-drop n p xs)) ∙ cut n (drop p xs)
    where
      cut : (n : ℕ) (ys : List A) → take n ys ++ take m (drop n ys) ≡ take (n + m) ys
      cut zero ys = let e : 0 + m ≡ m = omega arith in rw e refl
      cut (suc n) [] = rw (take-nil A m, take-nil A (suc n + m)) refl
      cut (suc n) (y ∷ ys) =
          let e : suc n + m ≡ suc (n + m) = omega arith in rw e (ap (λ r. y ∷ r) (cut n ys))

  -- What was stored is there.
  pub window-splice :
      (p : ℕ) (ys xs : List A)
      → p + length ys ≤ length xs
      → window p (length ys) (splice xs p ys) ≡ ys
  window-splice zero [] xs h = refl
  window-splice zero (y ∷ ys) [] h = absurd (omega arith)
  window-splice zero (y ∷ ys) (x ∷ xs) h = ap (λ r. y ∷ r) (window-splice zero ys xs (omega arith))
  window-splice (suc p) [] xs h = refl
  window-splice (suc p) (y ∷ ys) [] h = absurd (omega arith)
  window-splice (suc p) (y ∷ ys) (x ∷ xs) h = window-splice p (y ∷ ys) xs (omega arith)

  -- A window in front of a store, and one behind it.
  pub window-splice_before :
      (p n q : ℕ) (ys xs : List A) → p + n ≤ q → window p n (splice xs q ys) ≡ window p n xs
  window-splice_before p n q ys xs h =
      take-drop p (p + n) n (splice xs q ys) refl
      ∙ ap (drop p) (take-splice_before xs q ys (p + n) h)
      ∙ sym (take-drop p (p + n) n xs refl)

  drop-splice_behind :
      (p q : ℕ) (ys xs : List A) → q + length ys ≤ p → drop p (splice xs q ys) ≡ drop p xs
  drop-splice_behind p q ys [] h = refl
  drop-splice_behind p q [] (x ∷ xs) h = refl
  drop-splice_behind zero q (y ∷ ys) (x ∷ xs) h = absurd (omega arith)
  drop-splice_behind (suc p) zero (y ∷ ys) (x ∷ xs) h =
      drop-splice_behind p zero ys xs (omega arith)
  drop-splice_behind (suc p) (suc q) (y ∷ ys) (x ∷ xs) h =
      drop-splice_behind p q (y ∷ ys) xs (omega arith)

  pub window-splice_behind :
      (p n q : ℕ) (ys xs : List A) → q + length ys ≤ p → window p n (splice xs q ys) ≡ window p n xs
  window-splice_behind p n q ys xs h = ap (take n) (drop-splice_behind p q ys xs h)
