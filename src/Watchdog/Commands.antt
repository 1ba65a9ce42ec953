-- ===== src/Watchdog/Commands.antt =====
-- What the enable and disable commands of the watchdog leave in its registers, and what it reports.
use linux_device_driver.Base.{
  ℕ, ◌+◌, ◌*◌, ◌/◌, ◌^◌, ◌<◌, ◌≡◌, ◌≢◌, refl, sym, ap, ◌∙◌, min, bit_and, Bool, true, false, arith,
  if◌then◌else◌, ℤ, pos, negsuc, to_u32,
}
use linux_device_driver.Base.Bits.{
  bit, bit_low, bits_ext, bit-bit_and, bit_and_le, bit_and_ones, bit_and_same, zero-bit_and,
}
use linux_device_driver.Register.{Port, ga_read_write_always, dev_read, dev_read_modify_write}
use linux_device_driver.Register.Masked.{IsMemory, masked_read, write_read, masked_write, merged}
use linux_device_driver.Watchdog.{
  Priv, enabled, disabled, register, to_u8, has_enable, state_of, dev_watchdog_enable,
}

-- Of an `int`, only the low eight bits can meet those of a byte.
low_bits : (v : ℤ) → to_u32 v ≡ to_u32 v / 2 ^ 8 * 2 ^ 8 + to_u8 v
low_bits (pos n) = omega arith
low_bits (negsuc n) = omega arith

byte_and : (x : ℕ) (v : ℤ) → x < 2 ^ 8 → bit_and x (to_u32 v) ≡ bit_and x (to_u8 v)
byte_and x v small =
    bits_ext 8 (bit_and x (to_u32 v)) (bit_and x (to_u8 v)) (omega (arith, bit_and_le x (to_u32 v)))
      (omega (arith, bit_and_le x (to_u8 v)))
      (λ i lt.
        bit-bit_and i x (to_u32 v)
        ∙ ap (min (bit i x)) (ap (bit i) (low_bits v) ∙ bit_low 8 i (to_u32 v / 2 ^ 8) (to_u8 v) lt)
        ∙ sym (bit-bit_and i x (to_u8 v)))

module _ {H : Type 0} (port : Port H) (reg : H → ℕ → ℕ) (mem : IsMemory port 8 reg) (p : Priv)
    (on : Bool) (h : H) where
  abbrev mask : ℕ
  mask = to_u8 p.enable_value

  abbrev wanted : ℕ
  wanted = if on then mask else 0

  abbrev at : ℕ
  at = register p p.enable_offset

  abbrev written : H
  written = dev_read_modify_write port at mask wanted h

  byte : mask < 2 ^ 8
  byte = below p.enable_value
    where
      below : (v : ℤ) → to_u8 v < 2 ^ 8
      below (pos n) = omega arith
      below (negsuc n) = omega arith

  wanted_small : wanted < 2 ^ 8
  wanted_small = ground (arith, byte)

  read_back : (dev_read port at written).0 ≡ reg written at
  read_back =
      (masked_read mem at 0xff written).0 ∙ bit_and_ones 8 (reg written at) (mem.width written at)

  set_bits : bit_and (reg written at) (to_u32 p.enable_value) ≡ wanted
  set_bits =
      byte_and (reg written at) p.enable_value (mem.width written at)
      ∙ sym (masked_read mem at mask written).0
      ∙ write_read port 8 reg mem at mask wanted ga_read_write_always h byte wanted_small refl
      ∙ clipped on
    where
      clipped : (b : Bool) → bit_and (if b then mask else 0) mask ≡ (if b then mask else 0)
      clipped true = bit_and_same 8 mask byte
      clipped false = zero-bit_and mask

  -- On registers that behave as a memory, if the device tree names an enable register with a mask
  -- that has a bit in a byte: the enable command sets the bits of the mask, the disable command
  -- clears them, both leave every other bit of every register alone, and the state that the driver
  -- then reports is the one asked for.
  pub enable_told :
      has_enable p ≡ true
      → to_u8 p.enable_value ≢ 0
      → let (p', h') = dev_watchdog_enable port on p h in
        (p'.wd_state ≡ (if on then enabled else disabled))
        × ((i : ℕ) → i < 8 → bit i (reg h' at) ≡ merged i (reg h at) mask wanted)
        × ((b : ℕ) → b ≢ at → reg h' b ≡ reg h b)
  unfolding dev_watchdog_enable
  enable_told has some_bits =
      let (bits, others) =
        masked_write port 8 reg mem at mask wanted ga_read_write_always h byte refl refl in
      let kept : (b : ℕ) → reg (dev_read port at written).1 b ≡ reg written b =
        (masked_read mem at 0xff written).1 in
      let told : state_of (dev_read port at written).0 p.enable_value
          ≡ (if on then enabled else disabled) =
        rw (read_back, set_bits) (ground arith) in
      rw has (told, λ i lt. ap (bit i) (kept at) ∙ bits i lt, λ b other. kept b ∙ others b other)
