-- ===== src/Netrelay/Filter/Steps.antt =====
-- test_suite/netrelay/dhcp_filter.c, test_suite/netrelay/eoe_filter.c: a load and the test behind it,
-- for the pairs of instructions that the filters are made of.
use linux_device_driver.Base.{
  ℕ, suc, ◌+◌, ◌*◌, ◌≡◌, refl, Bool, true, false, not, Option, none, some, List, ◌∷◌, drop,
  if◌then◌else◌, ◌==◌, bit_and,
}
use linux_device_driver.Netrelay.Filter.{Instr, instr, byte_at, half_at, run}

-- The field is there and passes the test.
abbrev pub holds : Option ℕ → (ℕ → Bool) → Bool
holds none test = false
holds (some v) test = test v

-- What a test on a loaded value comes to, if both ways on do not depend on the value.
decided :
    (o : Option ℕ) (test : ℕ → Bool) (good : ℕ) (go : ℕ → Bool → ℕ)
    → ((w : ℕ) → go w true ≡ good)
    → ((w : ℕ) → go w false ≡ 0)
    → (elim o [ none ↦ 0 | some w ↦ go w (test w) ]) ≡ (if holds o test then good else 0)
decided none test good go yes_ no_ = refl
decided (some w) test good go yes_ no_ = by_test (test w)
  where
    by_test : (b : Bool) → go w b ≡ (if b then good else 0)
    by_test true = yes_ w
    by_test false = no_ w

-- The same, if the way on is that of the failed test.
refused :
    (o : Option ℕ) (test : ℕ → Bool) (good : ℕ) (go : ℕ → Bool → ℕ)
    → ((w : ℕ) → go w false ≡ good)
    → ((w : ℕ) → go w true ≡ 0)
    → (elim o [ none ↦ 0 | some w ↦ go w (test w) ])
      ≡ (if holds o (λ w. not (test w)) then good else 0)
refused none test good go no_ yes_ = refl
refused (some w) test good go no_ yes_ = by_test (test w)
  where
    by_test : (b : Bool) → go w b ≡ (if not b then good else 0)
    by_test true = yes_ w
    by_test false = no_ w

module _ (f k v jt jf : ℕ) (prog : List Instr) (frame : List ℕ) (a x good : ℕ) where
  -- ldh [k]; jeq #v
  pub half_eq :
      ((w : ℕ) → run f (drop jt prog) frame w x ≡ good)
      → ((w : ℕ) → run f (drop jf prog) frame w x ≡ 0)
      → run (suc (suc f)) (instr 0x28 0 0 k ∷ instr 0x15 jt jf v ∷ prog) frame a x
        ≡ (if holds (half_at frame k) (λ w. w == v) then good else 0)
  unfolding run
  half_eq yes_ no_ =
      decided (half_at frame k) (λ w. w == v) good
        (λ w t. run f (drop (if t then jt else jf) prog) frame w x) yes_ no_

  -- ldb [k]; jeq #v
  pub byte_eq :
      ((w : ℕ) → run f (drop jt prog) frame w x ≡ good)
      → ((w : ℕ) → run f (drop jf prog) frame w x ≡ 0)
      → run (suc (suc f)) (instr 0x30 0 0 k ∷ instr 0x15 jt jf v ∷ prog) frame a x
        ≡ (if holds (byte_at frame k) (λ w. w == v) then good else 0)
  unfolding run
  byte_eq yes_ no_ =
      decided (byte_at frame k) (λ w. w == v) good
        (λ w t. run f (drop (if t then jt else jf) prog) frame w x) yes_ no_

  -- ldh [k]; jset #v
  pub half_clear :
      ((w : ℕ) → run f (drop jf prog) frame w x ≡ good)
      → ((w : ℕ) → run f (drop jt prog) frame w x ≡ 0)
      → run (suc (suc f)) (instr 0x28 0 0 k ∷ instr 0x45 jt jf v ∷ prog) frame a x
        ≡ (if holds (half_at frame k) (λ w. bit_and w v == 0) then good else 0)
  unfolding run
  half_clear yes_ no_ =
      decided (half_at frame k) (λ w. bit_and w v == 0) good
        (λ w t. run f (drop (if t then jf else jt) prog) frame w x) yes_ no_

  -- ldh [k]; jeq #v, which goes on with other values.
  pub half_ne :
      ((w : ℕ) → run f (drop jf prog) frame w x ≡ good)
      → ((w : ℕ) → run f (drop jt prog) frame w x ≡ 0)
      → run (suc (suc f)) (instr 0x28 0 0 k ∷ instr 0x15 jt jf v ∷ prog) frame a x
        ≡ (if holds (half_at frame k) (λ w. not (w == v)) then good else 0)
  unfolding run
  half_ne yes_ no_ =
      refused (half_at frame k) (λ w. w == v) good
        (λ w t. run f (drop (if t then jt else jf) prog) frame w x) yes_ no_

  -- ldh [k]; and #m; jeq #v, which goes on with other values.
  pub half_field_ne :
      (m : ℕ)
      → ((w : ℕ) → run f (drop jf prog) frame w x ≡ good)
      → ((w : ℕ) → run f (drop jt prog) frame w x ≡ 0)
      → run
          (suc (suc (suc f)))
          (instr 0x28 0 0 k ∷ instr 0x54 0 0 m ∷ instr 0x15 jt jf v ∷ prog)
          frame
          a
          x
        ≡ (if holds (half_at frame k) (λ w. not (bit_and w m == v)) then good else 0)
  unfolding run
  half_field_ne m yes_ no_ =
      refused (half_at frame k) (λ w. bit_and w m == v) good
        (λ w t. run f (drop (if t then jt else jf) prog) frame (bit_and w m) x)
        (λ w. yes_ (bit_and w m)) (λ w. no_ (bit_and w m))

  -- ldb [k]; and #m; jeq #v
  pub byte_field_eq :
      (m : ℕ)
      → ((w : ℕ) → run f (drop jt prog) frame w x ≡ good)
      → ((w : ℕ) → run f (drop jf prog) frame w x ≡ 0)
      → run
          (suc (suc (suc f)))
          (instr 0x30 0 0 k ∷ instr 0x54 0 0 m ∷ instr 0x15 jt jf v ∷ prog)
          frame
          a
          x
        ≡ (if holds (byte_at frame k) (λ w. bit_and w m == v) then good else 0)
  unfolding run
  byte_field_eq m yes_ no_ =
      decided (byte_at frame k) (λ w. bit_and w m == v) good
        (λ w t. run f (drop (if t then jt else jf) prog) frame (bit_and w m) x)
        (λ w. yes_ (bit_and w m)) (λ w. no_ (bit_and w m))

  -- ldxb 4*([i]&0xf); ldh [x + k]; jeq #v
  pub behind_header_eq :
      (i : ℕ)
      → ((w y : ℕ) → run f (drop jt prog) frame w y ≡ good)
      → ((w y : ℕ) → run f (drop jf prog) frame w y ≡ 0)
      → run
          (suc (suc (suc f)))
          (instr 0xb1 0 0 i ∷ instr 0x48 0 0 k ∷ instr 0x15 jt jf v ∷ prog)
          frame
          a
          x
        ≡ (if holds
              (byte_at frame i)
              (λ h. holds (half_at frame (bit_and h 0xf * 4 + k)) (λ w. w == v))
            then good
            else 0)
  unfolding run
  behind_header_eq i yes_ no_ = by_header (byte_at frame i)
    where
      by_header :
          (o : Option ℕ)
          → (elim o [
            | none ↦ 0
            | some h ↦ elim (half_at frame (bit_and h 0xf * 4 + k)) [
              | none ↦ 0
              | some w ↦ run f (drop (if w == v then jt else jf) prog) frame w (bit_and h 0xf * 4)
            ]
          ])
            ≡ (if holds o (λ h. holds (half_at frame (bit_and h 0xf * 4 + k)) (λ w. w == v))
                then good
                else 0)
      by_header none = refl
      by_header (some h) =
          decided (half_at frame (bit_and h 0xf * 4 + k)) (λ w. w == v) good
            (λ w t. run f (drop (if t then jt else jf) prog) frame w (bit_and h 0xf * 4))
            (λ w. yes_ w (bit_and h 0xf * 4)) (λ w. no_ w (bit_and h 0xf * 4))
