-- ===== src/Base/Lists.antt =====
-- Arrays and buffers as lists with native indices; `splice` writes a block into an array.
use Prim.Native.Nat.{ℕ, zero, suc, ◌+◌, ◌-◌, ◌≤◌, ◌<◌, min}
use mathlib.Core.Path.{◌≡◌, refl, ap, sym}
use mathlib.Core.List.{List, [], ◌∷◌, ◌++◌, append-nil}
use mathlib.Core.Option.{Option, none, some}
use linux_device_driver.Base.Tests.{◌==◌, if◌then◌else◌}
use native.Mathlib.Omega.{arith}

module _ {ℓ} {A : Type ℓ} where
  abbrev pub length : List A → ℕ
  length [] = 0
  length (_ ∷ xs) = suc (length xs)

  abbrev pub get_elem? : List A → ℕ → Option A
  get_elem? [] _ = none
  get_elem? (x ∷ _) zero = some x
  get_elem? (_ ∷ xs) (suc i) = get_elem? xs i

  abbrev pub get_or : List A → ℕ → A → A
  get_or [] _ d = d
  get_or (x ∷ _) zero _ = x
  get_or (_ ∷ xs) (suc i) d = get_or xs i d

  abbrev pub set : List A → ℕ → A → List A
  set [] _ _ = []
  set (_ ∷ xs) zero v = v ∷ xs
  set (x ∷ xs) (suc i) v = x ∷ set xs i v

  abbrev pub take : ℕ → List A → List A
  take zero _ = []
  take (suc n) [] = []
  take (suc n) (x ∷ xs) = x ∷ take n xs

  abbrev pub drop : ℕ → List A → List A
  drop zero xs = xs
  drop (suc n) [] = []
  drop (suc n) (_ ∷ xs) = drop n xs

  abbrev pub replicate : ℕ → A → List A
  replicate zero _ = []
  replicate (suc n) a = a ∷ replicate n a

  -- The array `xs` after the block `ys` was stored from index `p` on; what would fall outside of
  -- the array is dropped.
  abbrev pub splice : List A → ℕ → List A → List A
  splice [] _ _ = []
  splice (x ∷ xs) _ [] = x ∷ xs
  splice (_ ∷ xs) zero (y ∷ ys) = y ∷ splice xs zero ys
  splice (x ∷ xs) (suc p) (y ∷ ys) = x ∷ splice xs p (y ∷ ys)

-- The bytes of a C string up to its NUL, as "%s" prints them.
abbrev pub c_string : List ℕ → List ℕ
c_string [] = []
c_string (c ∷ cs) = let rest = c_string cs in if c == 0 then [] else c ∷ rest

pub drop-nil {ℓ} : (A : Type ℓ) (n : ℕ) → drop {A = A} n [] ≡ []
drop-nil A zero = refl
drop-nil A (suc n) = refl

pub take-nil {ℓ} : (A : Type ℓ) (n : ℕ) → take {A = A} n [] ≡ []
take-nil A zero = refl
take-nil A (suc n) = refl

module _ {ℓ} {A : Type ℓ} where
  pub length-append : (xs ys : List A) → length (xs ++ ys) ≡ length xs + length ys
  length-append [] ys = omega arith
  length-append (_ ∷ xs) ys = omega (arith, length-append xs ys)

  pub length-take : (n : ℕ) (xs : List A) → length (take n xs) ≡ min n (length xs)
  length-take zero xs = omega arith
  length-take (suc n) [] = omega arith
  length-take (suc n) (_ ∷ xs) = omega (arith, length-take n xs)

  pub length-drop : (n : ℕ) (xs : List A) → length (drop n xs) ≡ length xs - n
  length-drop zero xs = omega arith
  length-drop (suc n) [] = omega arith
  length-drop (suc n) (_ ∷ xs) = omega (arith, length-drop n xs)

  pub length-replicate : (n : ℕ) (a : A) → length (replicate n a) ≡ n
  length-replicate zero a = refl
  length-replicate (suc n) a = ap suc (length-replicate n a)

  pub take-append-drop : (n : ℕ) (xs : List A) → take n xs ++ drop n xs ≡ xs
  take-append-drop zero xs = refl
  take-append-drop (suc n) [] = refl
  take-append-drop (suc n) (x ∷ xs) = ap (λ r. x ∷ r) (take-append-drop n xs)

  pub take_of_length_le : (n : ℕ) (xs : List A) → length xs ≤ n → take n xs ≡ xs
  take_of_length_le zero [] h = refl
  take_of_length_le zero (x ∷ xs) h = absurd (omega arith)
  take_of_length_le (suc n) [] h = refl
  take_of_length_le (suc n) (x ∷ xs) h = ap (λ r. x ∷ r) (take_of_length_le n xs (omega arith))

  pub drop_of_length_le : (n : ℕ) (xs : List A) → length xs ≤ n → drop n xs ≡ []
  drop_of_length_le zero [] h = refl
  drop_of_length_le zero (x ∷ xs) h = absurd (omega arith)
  drop_of_length_le (suc n) [] h = refl
  drop_of_length_le (suc n) (x ∷ xs) h = drop_of_length_le n xs (omega arith)

  pub take-append_self : (xs ys : List A) → take (length xs) (xs ++ ys) ≡ xs
  take-append_self [] ys = refl
  take-append_self (x ∷ xs) ys = ap (λ r. x ∷ r) (take-append_self xs ys)

  pub drop-drop : (m n : ℕ) (xs : List A) → drop m (drop n xs) ≡ drop (n + m) xs
  drop-drop m zero xs = let e : 0 + m ≡ m = omega arith in rw e
  drop-drop m (suc n) [] = rw (drop-nil A m, drop-nil A (suc n + m))
  drop-drop m (suc n) (x ∷ xs) =
      let e : suc n + m ≡ suc (n + m) = omega arith in rw e (drop-drop m n xs)

  pub length-splice : (xs : List A) (p : ℕ) (ys : List A) → length (splice xs p ys) ≡ length xs
  length-splice [] p ys = refl
  length-splice (x ∷ xs) p [] = refl
  length-splice (x ∷ xs) zero (y ∷ ys) = ap suc (length-splice xs zero ys)
  length-splice (x ∷ xs) (suc p) (y ∷ ys) = ap suc (length-splice xs p (y ∷ ys))

  -- A block that fits replaces exactly its range.
  pub splice_fits :
      (xs : List A) (p : ℕ) (ys : List A)
      → p + length ys ≤ length xs
      → splice xs p ys ≡ take p xs ++ (ys ++ drop (p + length ys) xs)
  splice_fits [] p [] h = rw (take-nil A p, drop-nil A (p + 0))
  splice_fits [] p (y ∷ ys) h = absurd (omega arith)
  splice_fits (x ∷ xs) p [] h =
      let e : p + 0 ≡ p = omega arith in rw e (sym (take-append-drop p (x ∷ xs)))
  splice_fits (x ∷ xs) zero (y ∷ ys) h =
      let e : 0 + suc (length ys) ≡ suc (0 + length ys) = omega arith in
      rw e (ap (λ r. y ∷ r) (splice_fits xs zero ys (omega arith)))
  splice_fits (x ∷ xs) (suc p) (y ∷ ys) h =
      let e : suc p + suc (length ys) ≡ suc (p + suc (length ys)) = omega arith in
      rw e (ap (λ r. x ∷ r) (splice_fits xs p (y ∷ ys) (omega arith)))

  -- What stands up to the end of a block that was stored inside the array.
  pub take-splice :
      (xs : List A) (p : ℕ) (ys : List A)
      → p + length ys ≤ length xs
      → take (p + length ys) (splice xs p ys) ≡ take p xs ++ ys
  take-splice [] p [] h = rw (take-nil A p, take-nil A (p + 0))
  take-splice [] p (y ∷ ys) h = absurd (omega arith)
  take-splice (x ∷ xs) p [] h = let e : p + 0 ≡ p = omega arith in rw (e, append-nil)
  take-splice (x ∷ xs) zero (y ∷ ys) h =
      let e : 0 + suc (length ys) ≡ suc (0 + length ys) = omega arith in
      rw e (ap (λ r. y ∷ r) (take-splice xs zero ys (omega arith)))
  take-splice (x ∷ xs) (suc p) (y ∷ ys) h =
      let e : suc p + suc (length ys) ≡ suc (p + suc (length ys)) = omega arith in
      rw e (ap (λ r. x ∷ r) (take-splice xs p (y ∷ ys) (omega arith)))

  -- What stands before a block is unchanged.
  pub take-splice_before :
      (xs : List A) (p : ℕ) (ys : List A) (n : ℕ) → n ≤ p → take n (splice xs p ys) ≡ take n xs
  take-splice_before [] p ys n h = refl
  take-splice_before (x ∷ xs) p [] n h = refl
  take-splice_before (x ∷ xs) zero (y ∷ ys) zero h = refl
  take-splice_before (x ∷ xs) zero (y ∷ ys) (suc n) h = absurd (omega arith)
  take-splice_before (x ∷ xs) (suc p) (y ∷ ys) zero h = refl
  take-splice_before (x ∷ xs) (suc p) (y ∷ ys) (suc n) h =
      ap (λ r. x ∷ r) (take-splice_before xs p (y ∷ ys) n (omega arith))

  pub take-take : (n m : ℕ) (xs : List A) → n ≤ m → take n (take m xs) ≡ take n xs
  take-take zero m xs h = refl
  take-take (suc n) zero xs h = absurd (omega arith)
  take-take (suc n) (suc m) [] h = refl
  take-take (suc n) (suc m) (x ∷ xs) h = ap (λ r. x ∷ r) (take-take n m xs (omega arith))

  pub take-drop : (n m k : ℕ) (xs : List A) → n + k ≡ m → take k (drop n xs) ≡ drop n (take m xs)
  take-drop zero m k xs h = let e : k ≡ m = omega arith in ap (λ j. take j xs) e
  take-drop (suc n) zero k xs h = absurd (omega arith)
  take-drop (suc n) (suc m) k [] h = rw take-nil
  take-drop (suc n) (suc m) k (x ∷ xs) h = take-drop n m k xs (omega arith)

  pub take-replicate : (n m : ℕ) (a : A) → n ≤ m → take n (replicate m a) ≡ replicate n a
  take-replicate zero m a h = refl
  take-replicate (suc n) zero a h = absurd (omega arith)
  take-replicate (suc n) (suc m) a h = ap (λ r. a ∷ r) (take-replicate n m a (omega arith))

  pub get_or-take :
      (n i : ℕ) (xs : List A) (d : A) → suc i ≤ n → get_or (take n xs) i d ≡ get_or xs i d
  get_or-take zero i xs d h = absurd (omega arith)
  get_or-take (suc n) i [] d h = refl
  get_or-take (suc n) zero (x ∷ xs) d h = refl
  get_or-take (suc n) (suc i) (x ∷ xs) d h = get_or-take n i xs d (omega arith)

  pub get_or-drop : (n i : ℕ) (xs : List A) (d : A) → get_or (drop n xs) i d ≡ get_or xs (n + i) d
  get_or-drop zero i xs d = let e : 0 + i ≡ i = omega arith in rw e
  get_or-drop (suc n) i [] d = refl
  get_or-drop (suc n) i (x ∷ xs) d =
      let e : suc n + i ≡ suc (n + i) = omega arith in rw e (get_or-drop n i xs d)

module _ {ℓ} {A : Type ℓ} where
  pub length-set : (xs : List A) (i : ℕ) (v : A) → length (set xs i v) ≡ length xs
  length-set [] i v = refl
  length-set (x ∷ xs) zero v = refl
  length-set (x ∷ xs) (suc i) v = omega (arith, length-set xs i v)

  -- The elements before the one that is set.
  pub take-set : (xs : List A) (j i : ℕ) (v : A) → j ≤ i → take j (set xs i v) ≡ take j xs
  take-set [] j i v h = refl
  take-set (x ∷ xs) zero i v h = refl
  take-set (x ∷ xs) (suc j) zero v h = absurd (omega arith)
  take-set (x ∷ xs) (suc j) (suc i) v h = ap (λ z. x ∷ z) (take-set xs j i v (omega arith))

  -- The elements up to the one that is set.
  pub take-suc-set :
      (xs : List A) (i : ℕ) (v : A)
      → i < length xs
      → take (suc i) (set xs i v) ≡ take i xs ++ v ∷ []
  take-suc-set [] i v h = absurd (omega arith)
  take-suc-set (x ∷ xs) zero v h = refl
  take-suc-set (x ∷ xs) (suc i) v h = ap (λ z. x ∷ z) (take-suc-set xs i v (omega arith))

  -- The next element of a tail.
  pub take-suc-drop :
      (xs : List A) (i n : ℕ)
      → i < length xs
      → (c : A) × (get_elem? xs i ≡ some c)
        × (take (suc n) (drop i xs) ≡ c ∷ take n (drop (suc i) xs))
  take-suc-drop [] i n h = absurd (omega arith)
  take-suc-drop (x ∷ xs) zero n h = (x, refl, refl)
  take-suc-drop (x ∷ xs) (suc i) n h = take-suc-drop xs i n (omega arith)
