-- ===== src/Led/Tests.antt =====
-- led/led_support.c: a LED at bit 2 of register 5, active low, on a memory whose registers all hold 255.
use linux_device_driver.Base.{
  ℕ, ◌≡◌, ◌≢◌, ◌<◌, ◌%◌, ◌^◌, refl, true, false, if◌then◌else◌, ◌==◌, arith, [],
}
use linux_device_driver.Base.Bits.{bit}
use linux_device_driver.Register.{Port}
use linux_device_driver.Register.Masked.{IsMemory}
use linux_device_driver.Led.{led_full, DevLed, brightness_get, brightness_set}
use linux_device_driver.Led.Shown.{set_get}

abbrev low_led : DevLed
low_led = record {
  name = [];
  brightness = 0;
  deferred = false;
  reg_base = 1;
  reg_offset = 4;
  reg_mask = 4;
  enb_reg_offset = 0;
  enb_reg_mask = 0;
  enb_reg_value = 0;
  enb_ctrl = 0;
  active_low = true;
  disabled = false;
}

-- Registers by their address, which hold what fits in them.
abbrev File : Type 0
File = ℕ → ℕ

abbrev cell : File → ℕ → ℕ
cell h a = h a % 2 ^ 8

abbrev cells : Port File
cells = record { read = λ a h. (h a % 2 ^ 8, h); write = λ v a h b. if a == b then v else h b }

cells-IsMemory : IsMemory cells 8 cell
cells-IsMemory = record {
  reads = λ a h. refl;
  read_keeps = λ a h b. refl;
  writes = λ v a h b small. ground arith;
  width = λ h a. omega arith;
}

abbrev ones : File
ones a = 255

set_get_example :
    let h' = brightness_set cells low_led 7 ones in
    ((brightness_get cells low_led h').0 ≡ led_full)
    × ((i : ℕ) → i < 8 → bit i 4 ≢ 1 → bit i (cell h' 5) ≡ bit i (cell ones 5))
    × ((b : ℕ) → b ≢ 5 → cell h' b ≡ cell ones b)
set_get_example =
    set_get cells cell cells-IsMemory low_led 7 ones refl (omega arith) (λ e. ground arith)
