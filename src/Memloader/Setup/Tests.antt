-- ===== src/Memloader/Setup/Tests.antt =====
-- memloader/memloader_core.c: a probe that finds no load address.
use linux_device_driver.Base.{false, none, [], pos}
use linux_device_driver.Firmware.{empty}
use linux_device_driver.Firmware.Setup.{OfNode, Platform}
use linux_device_driver.Memloader.Setup.{Device, Answers}

abbrev zeroed : Device
zeroed = record {
  ctx = record {
    image = none;
    total_count = pos 0;
    current_count = pos 0;
    devicemask = pos 0;
    blockread = pos 0;
    blocksize = pos 0;
    blockdelay = pos 0;
    filename = [];
    dev = none;
    state = empty;
    kobj_init = false;
    kobj_added = false;
  };
  info = record { load_base_address = 0; current_count = pos 0; mem = λ x. 0 };
  freed = false;
}

abbrev node : OfNode
node = record {
  firmware_load = false;
  firmware_target = none;
  firmware_blockread = none;
  firmware_blocksize = none;
  firmware_blockdelay = none;
  firmware_filename = none;
}

abbrev sys : Platform
sys = record { find_node = λ p. none; find_device = λ n. none; kobject_add = λ ctx. pos 0 }

abbrev answers : Answers
answers = record { load_address = none; kobject_init_and_add = pos 0 }
