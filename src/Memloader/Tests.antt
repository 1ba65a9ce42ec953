-- ===== src/Memloader/Tests.antt =====
-- memloader/memloader_core.c on concrete images: a load in blocks of two, and a block of a page.
use linux_device_driver.Base.{
  ℕ, zero, suc, refl, inr, true, Option, none, some, List, [], ◌∷◌, arith, pos,
}
use linux_device_driver.Firmware.{
  FwState, Moment, requesting, starting, in_round, leaving, ending, ended, empty, deleted, Ctx,
  Image, fw_load_device_firmware,
}
use linux_device_driver.Firmware.Outcome.{OnlyCancels}
use linux_device_driver.Memloader.{Info, Ioremap, memloader_ops}
use linux_device_driver.Memloader.Copy.{Fits}
use linux_device_driver.Memloader.Result.{Result, load_image}

abbrev maps : Ioremap
maps a n = true

abbrev image_bytes : List ℕ
image_bytes = 7 ∷ 8 ∷ 9 ∷ []

abbrev image : Image
image = record { size = 3; bytes = some image_bytes; pages = none }

abbrev idle : Ctx
idle = record {
  image = none;
  total_count = pos 0;
  current_count = pos 0;
  devicemask = pos 0xff;
  blockread = pos 640;
  blocksize = pos 2;
  blockdelay = pos 10;
  filename = [];
  dev = some 0;
  state = empty;
  kobj_init = true;
  kobj_added = true;
}

abbrev blank : Info
blank = record { load_base_address = 0x1000; current_count = pos 0; mem = λ x. 0 }

fits : Fits 0x1000 image_bytes
fits = record { small = omega arith; no_wrap = omega arith }

-- The device is removed after the first block.
abbrev removal : Moment → Option FwState
removal (in_round zero) = some deleted
removal _ = none

removal_only : OnlyCancels removal
removal_only (in_round zero) s e = inr (cc e)
removal_only (in_round (suc i)) s e = absurd (cc e)
removal_only requesting s e = absurd (cc e)
removal_only starting s e = absurd (cc e)
removal_only leaving s e = absurd (cc e)
removal_only ending s e = absurd (cc e)
removal_only ended s e = absurd (cc e)

load_image_example :
    Result maps removal image_bytes blank
      (fw_load_device_firmware (memloader_ops maps) removal 4 (pos 0, image) idle blank true)
load_image_example =
    load_image maps removal removal_only image_bytes 2 blank fits image refl refl idle refl refl 4
      (omega arith)

-- A page of two bytes is enough for a block of one byte at offset 1.
abbrev page : List ℕ
page = 7 ∷ 8 ∷ []
