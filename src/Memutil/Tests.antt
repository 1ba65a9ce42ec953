-- ===== src/Memutil/Tests.antt =====
-- test_suite/memutil: three bytes that are saved from one address and loaded to another, with pages
-- of 4096 bytes.
use linux_device_driver.Base.{ℕ, ◌≡◌, refl, false, none, some, [], ◌∷◌, arith, pos}
use linux_device_driver.Memloader.{store}
use linux_device_driver.Memutil.{
  Params, Held, moved, interrupted, save_mem_region_to_file, load_mem_region_from_file,
}
use linux_device_driver.Memutil.Copies.{works, save_load}

abbrev at_address : ℕ → Params
at_address a = record {
  verbose = false;
  start_phy_addr = a;
  length_ = 3;
  save_to_file = false;
  load_from_file = false;
  file_path = none;
}

abbrev nothing : Held
nothing = record { maps = 0 }

save_load_example :
    (save_mem_region_to_file works 4096
        (moved 1 ∷ interrupted ∷ moved 2 ∷ [])
        (at_address 0x1fff)
        (λ a. a)
        nothing
      ≡ some (pos 0, 0x1fff ∷ 0x2000 ∷ 0x2001 ∷ [], nothing))
    × (load_mem_region_from_file works 4096
          (interrupted ∷ moved (0x1fff ∷ 0x2000 ∷ []) ∷ moved (0x2001 ∷ []) ∷ [])
          (at_address 0x5000)
          (λ a. 0)
          nothing
        ≡ some (pos 0, store (λ a. 0) 0x5000 (0x1fff ∷ 0x2000 ∷ 0x2001 ∷ []), nothing))
save_load_example =
    save_load 12 (at_address 0x1fff) (at_address 0x5000) (λ a. a) (λ a. 0) nothing
      (moved 1 ∷ interrupted ∷ moved 2 ∷ [])
      (interrupted ∷ moved (0x1fff ∷ 0x2000 ∷ []) ∷ moved (0x2001 ∷ []) ∷ []) (omega arith)
      (omega arith) (omega arith) (omega arith) refl
      (omega arith, omega arith, (omega arith, omega arith, refl))
      (omega arith, (0x2001 ∷ [], refl, (omega arith, ([], refl, refl))))
