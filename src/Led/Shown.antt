-- ===== src/Led/Shown.antt =====
-- led/led_support.c: the brightness that is set is the one that is shown.
use linux_device_driver.Base.{
  ℕ, ◌+◌, ◌^◌, ◌<◌, ◌≡◌, ◌≢◌, refl, ap, sym, ◌∙◌, Bool, true, false, not, ◌&&◌, ◌||◌, if◌then◌else◌,
  ◌==◌, arith, bit_and,
}
use linux_device_driver.Base.Bits.{bit, bit_and_ones, bit_and_same, zero-bit_and}
use linux_device_driver.Register.{
  Port, ga_reg_write_w, ga_read_write_always, dev_read, dev_read_modify_write,
}
use linux_device_driver.Register.Masked.{IsMemory, masked_write, masked_read, write_read, merged}
use linux_device_driver.Led.{level, led_off, led_full, DevLed, brightness_get, brightness_set}

-- The bits that a set writes.
abbrev wanted : DevLed → ℕ → ℕ
wanted led value =
    if not (value == 0) && led.active_low || value == 0 && not led.active_low
    then 0
    else led.reg_mask

wanted_small : (led : DevLed) (value : ℕ) → led.reg_mask < 2 ^ 8 → wanted led value < 2 ^ 8
wanted_small led value small = ground arith

by_test :
    {H : Type 0} (f : ℕ → H → H) (t : Bool) (a b : ℕ) (h : H)
    → (if t then f a h else f b h) ≡ f (if t then a else b) h
by_test f true a b h = refl
by_test f false a b h = refl

module _ {H : Type 0} (port : Port H) (reg : H → ℕ → ℕ) (mem : IsMemory port 8 reg) where
  -- What a read-modify-write leaves, for the LED's own bits and for everything else.
  modified :
      (addr mask upd : ℕ) (h : H)
      → mask < 2 ^ 8
      → upd < 2 ^ 8
      → let h' = dev_read_modify_write port addr mask upd h in
        (bit_and (reg h' addr) mask ≡ bit_and upd mask)
        × ((i : ℕ) → i < 8 → bit i (reg h' addr) ≡ merged i (reg h addr) mask upd)
        × ((b : ℕ) → b ≢ addr → reg h' b ≡ reg h b)
  modified addr mask upd h small fits =
      let always : ℕ = ga_read_write_always in
      let rest = masked_write port 8 reg mem addr mask upd always h small refl refl in
      let h' : H = (ga_reg_write_w port 8 addr mask upd always h).1 in
      (
        sym (masked_read mem addr mask h').0
            ∙ write_read port 8 reg mem addr mask upd always h small fits refl,
        rest.0,
        rest.1,
      )

  read_reg : (addr : ℕ) (h : H) → (dev_read port addr h).0 ≡ reg h addr
  read_reg addr h = (masked_read mem addr 0xff h).0 ∙ bit_and_ones 8 (reg h addr) (mem.width h addr)

  read_own :
      (led : DevLed) (h : H)
      → led.disabled ≡ false
      → (brightness_get port led h).0
        ≡ (level led (bit_and (reg h (led.reg_base + led.reg_offset)) led.reg_mask))
  unfolding brightness_get
  read_own led h on = rw (on, (read_reg (led.reg_base + led.reg_offset) h)) refl

  -- The level of the bits that a set leaves.
  level_set :
      (led : DevLed) (value : ℕ)
      → led.reg_mask < 2 ^ 8
      → led.reg_mask ≢ 0
      → level led (bit_and (wanted led value) led.reg_mask)
        ≡ (if value == 0 then led_off else led_full)
  level_set led value small some_bit =
      ground (arith, zero-bit_and led.reg_mask, bit_and_same 8 led.reg_mask small)

  set_to :
      (led : DevLed) (value : ℕ) (h : H)
      → led.disabled ≡ false
      → brightness_set port led value h
        ≡ dev_read_modify_write port
            (led.reg_base + led.reg_offset)
            led.reg_mask
            (wanted led value)
            h
  unfolding brightness_set
  set_to led value h on = rw on (
      by_test (dev_read_modify_write port (led.reg_base + led.reg_offset) led.reg_mask)
        (not (value == 0) && led.active_low || value == 0 && not led.active_low) 0 led.reg_mask h)

  -- On registers that behave as a memory, for a LED that is not disabled and has bits in a register of
  -- 8 bits, with either polarity: after the brightness has been set, LED_FULL is read where the value
  -- was not 0, and LED_OFF where it was; the other bits of the register and all other registers are
  -- as before.
  pub set_get :
      (led : DevLed) (value : ℕ) (h : H)
      → led.disabled ≡ false
      → led.reg_mask < 2 ^ 8
      → led.reg_mask ≢ 0
      → let h' = brightness_set port led value h in
        let addr = led.reg_base + led.reg_offset in
        ((brightness_get port led h').0 ≡ (if value == 0 then led_off else led_full))
        × ((i : ℕ) → i < 8 → bit i led.reg_mask ≢ 1 → bit i (reg h' addr) ≡ bit i (reg h addr))
        × ((b : ℕ) → b ≢ addr → reg h' b ≡ reg h b)
  set_get led value h on small some_bit =
      let addr : ℕ = led.reg_base + led.reg_offset in
      let e = set_to led value h on in
      let m =
        modified addr led.reg_mask (wanted led value) h small (wanted_small led value small) in
      (
        read_own led (brightness_set port led value h) on
            ∙ ap (λ k. level led (bit_and (reg k addr) led.reg_mask)) e
            ∙ ap (level led) m.0
            ∙ level_set led value small some_bit,
        λ i lt out. ap (λ k. bit i (reg k addr)) e ∙ m.1 i lt ∙ ground arith,
        λ b other. ap (λ k. reg k b) e ∙ m.2 b other,
      )
