-- ===== src/Firmware/Setup/Tests.antt =====
-- memloader/firmware.c: setting up a concrete loader.
use linux_device_driver.Base.{◌≡◌, refl, true, false, none, some, pos, replicate}
use linux_device_driver.Firmware.{empty, Ctx}
use linux_device_driver.Firmware.Setup.{
  OfNode, Platform, fw_initialize, defaults, set_target, set_name, fw_get_parameters, need_device,
  add_kobject,
}

abbrev idle : Ctx
idle = record {
  image = none;
  total_count = pos 0;
  current_count = pos 0;
  devicemask = pos 0xff;
  blockread = pos 640;
  blocksize = pos 20;
  blockdelay = pos 10;
  filename = replicate 32 0;
  dev = some 0;
  state = empty;
  kobj_init = true;
  kobj_added = true;
}

abbrev node : OfNode
node = record {
  firmware_load = true;
  firmware_target = none;
  firmware_blockread = none;
  firmware_blocksize = some 64;
  firmware_blockdelay = none;
  firmware_filename = none;
}

abbrev platform : Platform
platform = record { find_node = λ p. none; find_device = λ n. none; kobject_add = λ ctx. pos 0 }

abbrev ready : Ctx
ready = record (defaults (some 3) idle) { blocksize = pos 64; kobj_init = true; kobj_added = true }

abbrev bare : Ctx
bare = record idle { kobj_added = false }

initializes : fw_initialize platform bare (some node) (some 3) ≡ (pos 0, ready)
unfolding fw_initialize fw_get_parameters set_target set_name need_device add_kobject
initializes = refl
