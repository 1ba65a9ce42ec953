-- ===== src/Led/Setup/Activate/Tests.antt =====
-- led/led_dev.c on two nodes: of which the second lacks a property in one of the tests.
use linux_device_driver.Base.{ℕ, ◌≡◌, refl, true, false, none, some, [], ◌∷◌, pos}
use linux_device_driver.Register.{Port}
use linux_device_driver.Led.{DevLed}
use linux_device_driver.Led.Setup.{Node, World, Kernel, read_leds, read_led, read_enable}
use linux_device_driver.Led.Setup.Activate.{led_dev_activate, led_dev_deactivate}
use linux_device_driver.Led.Setup.Activate.Balance.{GivenBack, activate_balanced}

abbrev port : Port (ℕ → ℕ)
port = record { read = λ a h. (h a, h); write = λ v a h b. v }

abbrev node : Node
node = record {
  led_name = some (b'a' ∷ []);
  reg_offset = some (4, 3);
  bit_index = none;
  reg_index = some (4, 5);
  enable_ctrl = none;
  enable_reg_offset = none;
  enable_bit_index = none;
  enable_bit_value = none;
  initial_brightness = some (4, 1);
  active_low = none;
}

abbrev nameless : Node
nameless = record node { led_name = none }

abbrev led : DevLed
led = record {
  name = b'a' ∷ [];
  brightness = 1;
  deferred = false;
  reg_base = 0;
  reg_offset = 3;
  reg_mask = 32;
  enb_reg_offset = 0;
  enb_reg_mask = 0;
  enb_reg_value = 0;
  enb_ctrl = 0;
  active_low = false;
  disabled = false;
}

abbrev kernel : Kernel
kernel = record {
  parent = true;
  zalloc = true;
  work_zalloc = λ i. true;
  iomap = some 0x100;
  use_workqueue = false;
  workqueue = true;
  register = λ i. pos 0;
}

abbrev idle : World (ℕ → ℕ)
idle = record { drvdata = none; registered = []; maps = 0; queues = 0; works = []; hw = λ a. 0 }

both_read : read_leds false (node ∷ node ∷ []) ≡ (true, led ∷ led ∷ [])
unfolding read_leds read_led read_enable
both_read = refl

one_read : read_leds false (node ∷ nameless ∷ []) ≡ (false, led ∷ [])
unfolding read_leds read_led read_enable
one_read = refl

activate_balanced_example :
    (v : World (ℕ → ℕ)) × ((u : World (ℕ → ℕ)) × (led_dev_activate port kernel
          (node ∷ node ∷ [])
          idle
        ≡ some (pos 0, v))
      × (v.registered ≡ 1 ∷ 0 ∷ [])
      × (led_dev_deactivate port kernel v ≡ some (pos 0, u))
      × GivenBack port kernel idle u)
activate_balanced_example =
    activate_balanced port kernel 0x100 node (node ∷ []) (led ∷ led ∷ []) idle refl refl refl refl
      (λ j. refl) both_read (refl, (refl, tt))
