-- ===== src/Led.antt =====
-- led/led_support.c: LEDs that are bits of device registers, reached by generic/generic_access.c.
pub mod Shown
pub mod Setup
mod Tests
use linux_device_driver.Base.{
  ℕ, ◌+◌, Bool, true, false, not, ◌&&◌, ◌||◌, List, [], ◌∷◌, map, if◌then◌else◌, ◌==◌, bit_and,
}
use linux_device_driver.Register.{Port, dev_read, dev_read_modify_write}

-- LED_OFF and LED_FULL of linux/leds.h
abbrev pub led_off : ℕ
led_off = 0

abbrev pub led_full : ℕ
led_full = 255

-- `struct dev_led`, with the brightness of its descriptor; `deferred` is that led_brightness_set is
-- `dev_leds_brightness_set`, which leaves the setting to a work queue.
pub record DevLed : Type 0 where
  pub name : List ℕ
  pub brightness : ℕ
  pub deferred : Bool
  pub reg_base : ℕ
  pub reg_offset : ℕ
  pub reg_mask : ℕ
  pub enb_reg_offset : ℕ
  pub enb_reg_mask : ℕ
  pub enb_reg_value : ℕ
  pub enb_ctrl : ℕ
  pub active_low : Bool
  pub disabled : Bool

-- What `_dev_leds_brightness_get` makes of the LED's bits of the register.
abbrev pub level : DevLed → ℕ → ℕ
level led reg =
    if not (reg == 0) && led.active_low || reg == 0 && not led.active_low then led_off else led_full

module _ {H : Type 0} (port : Port H) where
  -- `_dev_leds_brightness_get`; a LED that is disabled counts as if its bits were 0.
  pub brightness_get : DevLed → H → ℕ × H
  brightness_get led h =
      if not led.disabled
      then (
        level led (bit_and (dev_read port (led.reg_base + led.reg_offset) h).0 led.reg_mask),
        (dev_read port (led.reg_base + led.reg_offset) h).1,
      )
      else (level led 0, h)

  -- `_dev_leds_brightness_set`
  pub brightness_set : DevLed → ℕ → H → H
  brightness_set led value h =
      if not led.disabled
      then (if not (value == 0) && led.active_low || value == 0 && not led.active_low
          then dev_read_modify_write port (led.reg_base + led.reg_offset) led.reg_mask 0 h
          else dev_read_modify_write port (led.reg_base + led.reg_offset) led.reg_mask led.reg_mask
              h)
      else h

  -- `dev_leds_enb_reg_set`
  pub enb_reg_set : DevLed → H → H
  enb_reg_set led h =
      if not led.disabled && not (led.enb_ctrl == 0)
      then dev_read_modify_write port (led.reg_base + led.enb_reg_offset) led.enb_reg_mask
          led.enb_reg_value h
      else h

-- The loops over an array of LEDs.
pub dev_leds_enable : List DevLed → List DevLed
dev_leds_enable leds = map {A = DevLed} {B = DevLed} (λ led. record led { disabled = false }) leds

pub dev_leds_disable : List DevLed → List DevLed
dev_leds_disable leds = map {A = DevLed} {B = DevLed} (λ led. record led { disabled = true }) leds
