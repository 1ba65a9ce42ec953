-- ===== src/Firmware/Tests.antt =====
-- memloader/firmware.c on a concrete loader.
use linux_device_driver.Base.{
  ℕ, suc, ◌≡◌, refl, true, Bool, Option, none, some, List, [], ◌∷◌, ◌++◌, arith, length, ℤ, pos,
  negsuc, replicate,
}
use linux_device_driver.Firmware.{
  empty, failed, Ctx, Image, Callback, fw_load_device_firmware, fresh,
}
use linux_device_driver.Firmware.Outcome.{write_error_hidden, ops}
use linux_device_driver.Firmware.Sysfs.{fw_set_filename, fw_show, filename, text}
use linux_device_driver.Firmware.Sysfs.Files.{filename_roundtrip}

abbrev idle : Ctx
idle = record {
  image = none;
  total_count = pos 0;
  current_count = pos 0;
  devicemask = pos 0xff;
  blockread = pos 640;
  blocksize = pos 20;
  blockdelay = pos 10;
  filename = replicate 32 0;
  dev = some 0;
  state = empty;
  kobj_init = true;
  kobj_added = true;
}

abbrev image : Image
image = record { size = 3; bytes = some (7 ∷ 8 ∷ 9 ∷ []); pages = none }

abbrev works : Callback ℕ
works ctx w = some (pos 0, w)

abbrev fails : Callback ℕ
fails ctx w = some (negsuc 4, suc w)

abbrev finish : Ctx → Bool → ℕ → Option (ℤ × ℕ)
finish ctx error w = some (pos 0, w)

write_error_hidden_example :
    fw_load_device_firmware
      (ops works fails none finish (λ _. none) 4)
      (λ _. none)
      4
      (pos 0, image)
      idle
      0
      true
    ≡ some (pos 0, record (fresh image idle) { state = failed }, 1)
write_error_hidden_example =
    write_error_hidden works fails none finish (λ _. none) 4 image idle 0 0 1 1 4 0 3 refl refl refl
      refl refl refl refl refl (omega arith) (omega arith) refl refl refl

abbrev name : List ℕ
name = b'a' ∷ b'.' ∷ b'b' ∷ []

abbrev newline : List ℕ
newline = 10 ∷ []

filename_roundtrip_example :
    let (ret, ctx') = fw_set_filename idle (name ++ newline) (length (name ++ newline)) in
    (ret ≡ pos 0) × (fw_show ctx' filename ≡ text name)
filename_roundtrip_example =
    filename_roundtrip idle name newline
      (λ e. ground arith, (λ e. ground arith, (λ e. ground arith, tt))) refl (refl, tt)
      (omega arith) refl
