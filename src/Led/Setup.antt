-- ===== src/Led/Setup.antt =====
-- led/led_dev.c, led/led_support.c: how the LEDs of a device tree node come and go.
pub mod Places
pub mod Activate
use linux_device_driver.Base.{
  ℕ, zero, suc, ◌+◌, ◌-◌, ◌%◌, ◌^◌, Bool, true, false, not, Option, none, some, List, [], ◌∷◌, ◌++◌,
  length, take, map, get_elem?, if◌then◌else◌, ◌==◌, ℤ, pos, ltb_ℤ,
}
use linux_device_driver.Base.Maybe.{◌>>=◌}
use linux_device_driver.Base.Errno.{enodev, enomem, eio, efault}
use linux_device_driver.Register.{Port}
use linux_device_driver.Led.{DevLed, brightness_set, enb_reg_set}

-- What of_get_property gives: the length in bytes, and the number in the first four of them.
abbrev pub Cell : Type 0
Cell = Option (ℕ × ℕ)

-- The properties of a child node; the name is given by its bytes.
pub record Node : Type 0 where
  pub led_name : Option (List ℕ)
  pub reg_offset : Cell
  pub bit_index : Cell
  pub reg_index : Cell
  pub enable_ctrl : Cell
  pub enable_reg_offset : Cell
  pub enable_bit_index : Cell
  pub enable_bit_value : Cell
  pub initial_brightness : Cell
  pub active_low : Cell

-- A number of four bytes, or nothing.
abbrev pub number : Cell → Option ℕ
number none = none
number (some (len, v)) = if len == 4 then some v else none

-- A property that may be missing but not have another length; what is read without it is 0.
abbrev pub optional : Cell → Option ℕ
optional none = some 0
optional (some (len, v)) = if len == 4 then some v else none

-- `u8` of 1 << v
abbrev pub one_bit : ℕ → ℕ
one_bit v = 2 ^ v % 2 ^ 8

abbrev pub u8_or_zero : Option ℕ → ℕ
u8_or_zero none = 0
u8_or_zero (some v) = v % 2 ^ 8

abbrev pub mask_or_zero : Option ℕ → ℕ
mask_or_zero none = 0
mask_or_zero (some v) = one_bit v

abbrev pub is_number : Cell → Bool
is_number c = elim (number c) [ none ↦ false | some v ↦ true ]

-- The enable properties, which are read only if enable-ctrl is 1; a missing one resets it.
pub read_enable : Node → DevLed → DevLed
read_enable node led =
    let ctrl : ℕ = u8_or_zero (number node.enable_ctrl) in
    if ctrl == 1
    then record led {
      enb_ctrl =
          if is_number node.enable_reg_offset
          then (if is_number node.enable_bit_index
              then (if is_number node.enable_bit_value then 1 else 0)
              else 0)
          else 0;
      enb_reg_offset = u8_or_zero (number node.enable_reg_offset);
      enb_reg_mask = mask_or_zero (number node.enable_bit_index);
      enb_reg_value = u8_or_zero (number node.enable_bit_value);
    }
    else record led { enb_ctrl = ctrl; enb_reg_offset = 0; enb_reg_mask = 0; enb_reg_value = 0 }

-- One round of the loop over the child nodes; `none` is the label `err` with -EFAULT.
pub read_led : Bool → Node → Option DevLed
read_led use_workqueue node = node.led_name >>= λ name. number node.reg_offset >>= λ offset.
    number (elim node.bit_index [ none ↦ node.reg_index | some c ↦ some c ]) >>= λ index.
    optional node.initial_brightness >>= λ brightness. optional node.active_low >>= λ low. some (
      read_enable node (record {
        name = take 31 name;
        brightness = brightness;
        deferred = use_workqueue;
        reg_base = 0;
        reg_offset = offset % 2 ^ 8;
        reg_mask = one_bit index;
        enb_reg_offset = 0;
        enb_reg_mask = 0;
        enb_reg_value = 0;
        enb_ctrl = 0;
        active_low = low % 2 == 1;
        disabled = false;
      }))

-- The loop: whether it runs to its end, and the LEDs that have been read by then.
pub read_leds : Bool → List Node → Bool × List DevLed
read_leds use_workqueue [] = (true, [])
read_leds use_workqueue (n ∷ ns) =
    let rest : Bool × List DevLed = read_leds use_workqueue ns in
    elim (read_led use_workqueue n) [ none ↦ (false, []) | some led ↦ (rest.0, led ∷ rest.1) ]

-- `struct led_dev_priv`
pub record LedPriv : Type 0 where
  pub workqueue : Bool
  pub use_workqueue : Bool
  pub reg_base : Option ℕ
  pub leds : List DevLed

-- The driver's data of the device, what is held of the kernel (the registered LEDs by their place in
-- the array), the settings that are queued, and the hardware.
pub record World (H : Type 0) : Type 0 where
  pub drvdata : Option LedPriv
  pub registered : List ℕ
  pub maps : ℕ
  pub queues : ℕ
  pub works : List (ℕ × ℕ)
  pub hw : H

-- What the kernel answers: whether the parent fits, the allocations, of_iomap, use-workqueue,
-- create_singlethread_workqueue, and led_classdev_register for each LED.
pub record Kernel : Type 0 where
  pub parent : Bool
  pub zalloc : Bool
  pub work_zalloc : ℕ → Bool
  pub iomap : Option ℕ
  pub use_workqueue : Bool
  pub workqueue : Bool
  pub register : ℕ → ℤ

-- `none`: what is not there is removed; the kernel documents no result.
pub removed : ℕ → List ℕ → Option (List ℕ)
removed i [] = none
removed i (x ∷ xs) =
    let rest = removed i xs in if x == i then some xs else (rest >>= λ ys. some (x ∷ ys))
