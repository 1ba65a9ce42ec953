-- ===== src/Memloader/Setup/Undone.antt =====
-- What a probe of the memloader that fails leaves behind.
use linux_device_driver.Base.{ℕ, ◌≡◌, ◌≢◌, refl, true, false, Option, none, some, arith, ℤ, pos}
use linux_device_driver.Base.Errno.{einval}
use linux_device_driver.Firmware.{Ctx}
use linux_device_driver.Firmware.Setup.{OfNode, Platform, fw_initialize}
use linux_device_driver.Firmware.Setup.Ready.{initialize_failed, cleanup_clears}
use linux_device_driver.Memloader.Setup.{Device, Answers, add_files, memloader_probe, free_mem}

-- No directory of the loader is left under /sys, and the memory has been given back.
abbrev pub Gone : Device → Type 0
Gone d = (d.ctx.kobj_added ≡ false) × (d.freed ≡ true)

abbrev pub AllGone : Option Device → Type 0
AllGone none = Unit
AllGone (some d) = Gone d

module _ (sys : Platform) (a : Answers) (node : OfNode) (target : ℕ) where
  add_files-Gone :
      (d : Device)
      → d.ctx.kobj_added ≡ false
      → (add_files sys a node target d).0 ≢ pos 0
      → Gone (add_files sys a node target d).1
  unfolding add_files
  add_files-Gone d no_files bad =
      let r : ℤ × Ctx = fw_initialize sys d.ctx (some node) (some target) in
      ground (arith, initialize_failed sys d.ctx node (some target) no_files, cleanup_clears r.1)

  probe-none :
      (zeroed : Device)
      → a.load_address ≡ none
      → memloader_probe sys a node target (some zeroed) ≡ (einval, some (free_mem zeroed))
  unfolding memloader_probe
  probe-none zeroed e = rw e refl

  abbrev placed : Device → ℕ → Device
  placed zeroed base = record zeroed { info = record zeroed.info { load_base_address = base } }

  probe-some :
      (zeroed : Device) (base : ℕ)
      → a.load_address ≡ some base
      → memloader_probe sys a node target (some zeroed) ≡ (
        (add_files sys a node target (placed zeroed base)).0,
        some (add_files sys a node target (placed zeroed base)).1,
      )
  unfolding memloader_probe add_files
  probe-some zeroed base e = rw e refl

  -- A probe that has got zeroed memory and then fails leaves no files of the loader behind and
  -- gives the memory back, whichever step it fails at.
  probe_undone :
      (zeroed : Device)
      → zeroed.ctx.kobj_added ≡ false
      → (memloader_probe sys a node target (some zeroed)).0 ≢ pos 0
      → AllGone (memloader_probe sys a node target (some zeroed)).1
  probe_undone zeroed no_files bad = by_address a.load_address refl bad
    where
      by_address :
          (o : Option ℕ)
          → a.load_address ≡ o
          → (memloader_probe sys a node target (some zeroed)).0 ≢ pos 0
          → AllGone (memloader_probe sys a node target (some zeroed)).1
      by_address none e bad = rw (probe-none zeroed e) (no_files, refl)
      by_address (some base) e bad =
          let failed : (add_files sys a node target (placed zeroed base)).0 ≢ pos 0 =
            rw (probe-some zeroed base e) at bad in
          rw (probe-some zeroed base e) (add_files-Gone (placed zeroed base) no_files failed)
