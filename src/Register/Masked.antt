-- ===== src/Register/Masked.antt =====
-- What a masked write leaves in a register, and what a masked read makes of it, digit by digit.
use linux_device_driver.Base.{
  ℕ, ◌+◌, ◌*◌, ◌/◌, ◌%◌, ◌^◌, ◌-◌, ◌<◌, ◌≡◌, ◌≢◌, refl, sym, ap, ◌∙◌, min, max, bit_and, bit_or,
  true, false, Bool-cases, inl, inr, arith, ◌==◌, ◌||◌, if◌then◌else◌, u32, u64,
}
use linux_device_driver.Base.Bits.{
  bit, bit_not, bit-bit_and, bit-bit_or, bit-bit_not, bits_ext, bit_ones, bit_le, bit_and_le,
  bit_and_lt, bit_or_lt, bit_and_apart,
}
use linux_device_driver.Register.{
  Port, Bus, ga_write, ga_read_write_always, ga_read_write_conditional, ga_modified_none,
  ga_modified_sure, has_option, updated, ga_reg_write_w, ga_reg_read_w, ga_reg_read64_halves,
  low_word,
}

-- Hardware that behaves as a memory of registers of `w` bits.
pub record IsMemory {H : Type 0} (port : Port H) (w : ℕ) (reg : H → ℕ → ℕ) : Type 0 where
  pub reads : (a : ℕ) (h : H) → (port.read a h).0 ≡ reg h a
  pub read_keeps : (a : ℕ) (h : H) (b : ℕ) → reg (port.read a h).1 b ≡ reg h b
  pub writes :
      (v a : ℕ) (h : H) (b : ℕ)
      → v < 2 ^ w
      → reg (port.write v a h) b ≡ (if a == b then v else reg h b)
  pub width : (h : H) (a : ℕ) → reg h a < 2 ^ w

-- Digit `i` after a masked write.
abbrev pub merged : ℕ → ℕ → ℕ → ℕ → ℕ
merged i old mask value = if bit i mask == 1 then bit i value else bit i old

bit-updated :
    {H : Type 0} (port : Port H) (w i old mask value : ℕ)
    → i < w
    → mask < 2 ^ w
    → bit i (updated port w old mask value) ≡ merged i old mask value
bit-updated port w i old mask value lt small =
    let or : bit i (updated port w old mask value)
        ≡ max (bit i (bit_and old (bit_not w mask))) (bit i (bit_and value mask)) =
      bit-bit_or i (bit_and old (bit_not w mask)) (bit_and value mask) in
    rw
      (
        or,
        bit-bit_and i old (bit_not w mask),
        bit-bit_and i value mask,
        bit-bit_not w i mask lt small,
      )
      (ground (arith, bit_le i old, bit_le i value, bit_le i mask))

pub masked_read :
    {H : Type 0} {port : Port H} {w : ℕ} {reg : H → ℕ → ℕ}
    → IsMemory port w reg
    → (addr mask : ℕ) (h : H)
    → ((ga_reg_read_w port w addr mask h).0 ≡ bit_and (reg h addr) mask)
      × ((b : ℕ) → reg (ga_reg_read_w port w addr mask h).1 b ≡ reg h b)
unfolding ga_reg_read_w
masked_read mem addr mask h = (rw (mem.reads addr h) refl, mem.read_keeps addr h)

-- A register of `w` bits on hardware that is a memory, and a mask and a value of that width.
module _ {H : Type 0} (port : Port H) (w : ℕ) (reg : H → ℕ → ℕ) (mem : IsMemory port w reg)
    (addr mask value options : ℕ) (h : H) (small : mask < 2 ^ w) where
  abbrev after : H
  after = (ga_reg_write_w port w addr mask value options h).1

  full_stored :
      (b : ℕ)
      → has_option options ga_write || mask == 2 ^ w - 1 ≡ true
      → reg after b ≡ (if addr == b then bit_and value mask else reg h b)
  unfolding ga_reg_write_w
  full_stored b full =
      ground (arith, mem.writes (bit_and value mask) addr h b (bit_and_lt w value mask small))

  modify_stored :
      (b : ℕ)
      → has_option options ga_write || mask == 2 ^ w - 1 ≡ false
      → has_option options (bit_or ga_read_write_conditional ga_read_write_always) ≡ true
      → reg after b ≡ (if addr == b then updated port w (reg h addr) mask value else reg h b)
  unfolding ga_reg_write_w
  modify_stored b part modify =
      let new_reg : ℕ = updated port w (reg h addr) mask value in
      ground (
        arith,
        mem.reads addr h,
        mem.read_keeps addr h b,
        mem.writes new_reg addr (port.read addr h).1 b (
            bit_or_lt w (bit_and (reg h addr) (bit_not w mask)) (bit_and value mask)
              (omega (arith, bit_and_le (reg h addr) (bit_not w mask), mem.width h addr))
              (bit_and_lt w value mask small)),
      )

  -- On registers that behave as a memory, a read-modify-write (GA_READ_WRITE_ALWAYS or
  -- GA_READ_WRITE_CONDITIONAL, without GA_WRITE) with a mask of the register's width changes
  -- exactly the bits that are in the mask, to those of the value, and no other register, also
  -- where the mask is full or the write is left out.
  pub masked_write :
      has_option options ga_write ≡ false
      → has_option options (bit_or ga_read_write_conditional ga_read_write_always) ≡ true
      → ((i : ℕ) → i < w → bit i (reg after addr) ≡ merged i (reg h addr) mask value)
        × ((b : ℕ) → b ≢ addr → reg after b ≡ reg h b)
  masked_write no_write modify = elim (Bool-cases (mask == 2 ^ w - 1)) [
    | inl e ↦
        let all : mask ≡ 2 ^ w - 1 = ground arith in
        let full : has_option options ga_write || mask == 2 ^ w - 1 ≡ true = ground arith in
        (
          λ i lt.
              let here : reg after addr ≡ bit_and value mask =
                full_stored addr full ∙ ground arith in
              let one : bit i mask ≡ 1 = rw all (bit_ones w i lt) in
              rw (here, bit-bit_and i value mask, one) (ground (arith, bit_le i value)),
          λ b other. full_stored b full ∙ ground arith,
        )
    | inr e ↦
        let part : has_option options ga_write || mask == 2 ^ w - 1 ≡ false = ground arith in
        (
          λ i lt.
              let here : reg after addr ≡ updated port w (reg h addr) mask value =
                modify_stored addr part modify ∙ ground arith in
              rw here (bit-updated port w i (reg h addr) mask value lt small),
          λ b other. modify_stored b part modify ∙ ground arith,
        )
  ]

  -- On registers that behave as a memory, the return code of a read-modify-write without GA_WRITE,
  -- with a mask of the register's width that leaves bits alone, is exact: GA_MODIFIED_SURE if the
  -- register has changed, GA_MODIFIED_NONE if it has not.
  modified_exact :
      mask ≢ 2 ^ w - 1
      → has_option options ga_write ≡ false
      → has_option options (bit_or ga_read_write_conditional ga_read_write_always) ≡ true
      → (ga_reg_write_w port w addr mask value options h).0
        ≡ (if reg after addr == reg h addr then ga_modified_none else ga_modified_sure)
  unfolding ga_reg_write_w
  modified_exact partial no_write modify =
      let part : has_option options ga_write || mask == 2 ^ w - 1 ≡ false = ground arith in
      let here : reg after addr ≡ updated port w (reg h addr) mask value =
        modify_stored addr part modify ∙ ground arith in
      rw here (ground (arith, mem.reads addr h))

  -- The bits in the mask after any write that is one: those of the value.
  bit-written :
      (i : ℕ)
      → i < w
      → has_option options ga_write
          || has_option options (bit_or ga_read_write_conditional ga_read_write_always)
        ≡ true
      → min (bit i (reg after addr)) (bit i mask) ≡ min (bit i value) (bit i mask)
  bit-written i lt writes = elim (Bool-cases (has_option options ga_write || mask == 2 ^ w - 1)) [
    | inl full ↦
        let here : reg after addr ≡ bit_and value mask = full_stored addr full ∙ ground arith in
        rw (here, bit-bit_and i value mask) (omega arith)
    | inr part ↦
        let modify : has_option options (bit_or ga_read_write_conditional ga_read_write_always)
            ≡ true =
          ground arith in
        let here : reg after addr ≡ updated port w (reg h addr) mask value =
          modify_stored addr part modify ∙ ground arith in
        rw (here, bit-updated port w i (reg h addr) mask value lt small)
          (ground (arith, bit_le i mask, bit_le i value, bit_le i (reg h addr)))
  ]

  -- On registers that behave as a memory, for a mask and a value of the register's width, a read
  -- with the same mask after a write gives the masked value back, whichever option the write has,
  -- as long as it has one.
  pub write_read :
      value < 2 ^ w
      → has_option options ga_write
          || has_option options (bit_or ga_read_write_conditional ga_read_write_always)
        ≡ true
      → (ga_reg_read_w port w addr mask after).0 ≡ bit_and value mask
  unfolding ga_reg_read_w
  write_read fits writes =
      let got : bit_and (reg after addr) mask ≡ bit_and value mask =
        bits_ext w (bit_and (reg after addr) mask) (bit_and value mask)
          (omega (arith, bit_and_le (reg after addr) mask, mem.width after addr))
          (omega (arith, bit_and_le value mask))
          (λ i lt.
            bit-bit_and i (reg after addr) mask
            ∙ bit-written i lt writes
            ∙ sym (bit-bit_and i value mask)) in
      rw (mem.reads addr after) got

-- On a 32-bit kernel whose 32-bit reads give 32 bits, `ga_reg_read64` returns 0, whatever the two
-- halves of the register hold.
read64_lost :
    {H : Type 0} (bus : Bus H)
    → ((a : ℕ) (h : H) → (bus.raw32.read a h).0 < 2 ^ 32)
    → (addr mask : ℕ) (h : H) → (ga_reg_read64_halves bus addr mask h).0 ≡ 0
unfolding ga_reg_read64_halves ga_reg_read_w
read64_lost bus narrow addr mask h =
    let lo : ℕ = (bus.raw32.read addr h).0 in
    let h' : _ = (bus.raw32.read addr h).1 in
    let hi : ℕ = (bus.raw32.read (u32 (addr + 4)) h').0 in
    let lsv : ℕ = bit_and lo (low_word mask) in
    let msv : ℕ = bit_and hi (mask / 2 ^ 32 % 2 ^ 32) in
    let small : lsv < 2 ^ 32 = omega (arith, bit_and_le lo (low_word mask), narrow addr h) in
    let big : msv < 2 ^ 32 =
      omega (arith, bit_and_le hi (mask / 2 ^ 32 % 2 ^ 32), narrow (u32 (addr + 4)) h') in
    let whole : u64 (msv * 2 ^ 32) ≡ msv * 2 ^ 32 = omega arith in
    ap (λ x. bit_and x lsv) whole ∙ bit_and_apart 32 64 msv lsv small (omega arith)
