-- ===== src/Register/Tests.antt =====
-- generic/generic_access.c on a concrete register file.
use linux_device_driver.Base.{
  ℕ, ◌%◌, ◌^◌, ◌<◌, ◌≡◌, ◌≢◌, refl, if◌then◌else◌, ◌==◌, none, some, arith,
}
use linux_device_driver.Base.Bits.{bit}
use linux_device_driver.Base.Errno.{eio}
use linux_device_driver.Register.{Port, Bus, ga_reg_write_w}
use linux_device_driver.Register.Masked.{IsMemory, merged, masked_write}
use linux_device_driver.Register.Hooks.{AddrOps, no_info, ga_set_phys_addr_ops}

-- Registers by their address, which hold what fits in them.
abbrev File : Type 0
File = ℕ → ℕ

abbrev reg : ℕ → File → ℕ → ℕ
reg w h a = h a % 2 ^ w

abbrev port : ℕ → Port File
port w = record { read = λ a h. (h a % 2 ^ w, h); write = λ v a h b. if a == b then v else h b }

port-IsMemory : IsMemory (port 8) 8 (reg 8)
port-IsMemory = record {
  reads = λ a h. refl;
  read_keeps = λ a h b. refl;
  writes = λ v a h b small. ground arith;
  width = λ h a. omega arith;
}

abbrev full : File
full a = 0x0f

abbrev changed : File
changed = (ga_reg_write_w (port 8) 8 2 0x18 0xf0 4 full).1

masked_write_example :
    ((i : ℕ) → i < 8 → bit i (reg 8 changed 2) ≡ merged i (reg 8 full 2) 0x18 0xf0)
    × ((b : ℕ) → b ≢ 2 → reg 8 changed b ≡ reg 8 full b)
masked_write_example =
    masked_write (port 8) 8 (reg 8) port-IsMemory 2 0x18 0xf0 4 full (omega arith) refl refl

abbrev bus : Bus File
bus = record { raw8 = port 8; raw16 = port 16; raw32 = port 32; raw64 = port 64 }

abbrev fails : AddrOps File
fails = record { init = some (λ a n h. (eio, h)); read8 = some (λ a h. (7, h)); write8 = none }

failed : ga_set_phys_addr_ops 0x100 16 (some fails) full ≡ (eio, no_info, full)
unfolding ga_set_phys_addr_ops
failed = refl
