-- ===== src/Firmware/Setup/Ready.antt =====
-- What a successful `fw_initialize` leaves, and what `fw_cleanup` ends.
use linux_device_driver.Base.{
  ltb_ℤ, ℕ, ◌≡◌, ◌≢◌, refl, true, false, Option, none, some, List, arith, pos, length,
}
use linux_device_driver.Firmware.{empty, Ctx}
use linux_device_driver.Firmware.Sysfs.Files.{set_filename_keeps}
use linux_device_driver.Firmware.Setup.{
  OfNode, Platform, set_target, set_name, fw_get_parameters, defaults, override, add_kobject,
  need_device, fw_initialize, fw_cleanup,
}

-- What the steps of `fw_initialize` do not touch.
Kept : Ctx → Ctx → Type 0
Kept a b = (b.state ≡ a.state) × (b.kobj_added ≡ a.kobj_added)

module _ (sys : Platform) where
  set_target_keeps : (t : Option ℕ) (ctx : Ctx) → Kept ctx (set_target sys t ctx).1
  unfolding set_target Kept
  set_target_keeps none ctx = (refl, refl)
  set_target_keeps (some p) ctx = ground arith

  set_name_keeps : (n : Option (List ℕ)) (ctx : Ctx) → Kept ctx (set_name sys n ctx).1
  unfolding set_name Kept
  set_name_keeps none ctx = (refl, refl)
  set_name_keeps (some n) ctx = ground (arith, set_filename_keeps ctx n (length n))

  get_parameters_keeps :
      (ctx : Ctx) (node : OfNode) → Kept ctx (fw_get_parameters sys ctx (some node)).1
  unfolding fw_get_parameters Kept
  get_parameters_keeps ctx node = ground (
    arith,
    set_target_keeps node.firmware_target ctx,
    set_name_keeps node.firmware_filename (record (set_target sys node.firmware_target ctx).1 {
      blockread =
          override node.firmware_blockread (set_target sys node.firmware_target ctx).1.blockread;
      blocksize =
          override node.firmware_blocksize (set_target sys node.firmware_target ctx).1.blocksize;
      blockdelay =
          override node.firmware_blockdelay (set_target sys node.firmware_target ctx).1.blockdelay;
    }),
  )

  need_device_ready :
      (d : Option ℕ) (ctx ctx' : Ctx)
      → ctx.dev ≡ d
      → need_device sys d ctx ≡ (pos 0, ctx')
      → (ctx'.state ≡ ctx.state) × (ctx'.kobj_added ≡ true) × (ctx'.dev ≢ none)
  unfolding need_device add_kobject
  need_device_ready none ctx ctx' e h = absurd (ground arith)
  need_device_ready (some d) ctx ctx' e h = ground arith

set_name_nonzero :
    (sys : Platform) (n : Option (List ℕ)) (ctx : Ctx) → (set_name sys n ctx).0 ≢ pos 0
unfolding set_name
set_name_nonzero sys none ctx h = ground arith
set_name_nonzero sys (some n) ctx h = ground arith

loads_nonzero :
    (sys : Platform) (ctx : Ctx) (node : OfNode)
    → node.firmware_load ≡ true
    → (fw_get_parameters sys ctx (some node)).0 ≢ pos 0
unfolding fw_get_parameters
loads_nonzero sys ctx node load h =
    let targeted : Ctx = (set_target sys node.firmware_target ctx).1 in
    ground (
      arith,
      set_name_nonzero sys node.firmware_filename (record targeted {
        blockread = override node.firmware_blockread targeted.blockread;
        blocksize = override node.firmware_blocksize targeted.blocksize;
        blockdelay = override node.firmware_blockdelay targeted.blockdelay;
      }),
    )

-- A loader that returned 0 from `fw_initialize` on a node with firmware-load can be used: it is
-- empty, it has a device, and its files are there.
initialize_ready :
    (sys : Platform) (ctx : Ctx) (node : OfNode) (target : Option ℕ) {ctx' : Ctx}
    → node.firmware_load ≡ true
    → fw_initialize sys ctx (some node) target ≡ (pos 0, ctx')
    → (ctx'.state ≡ empty) × (ctx'.kobj_added ≡ true) × (ctx'.dev ≢ none)
unfolding fw_initialize Kept
initialize_ready sys ctx node target {ctx'} load done =
    let ready : Ctx = (fw_get_parameters sys (defaults target ctx) (some node)).1 in
    ground (
      arith,
      get_parameters_keeps sys (defaults target ctx) node,
      need_device_ready sys ready.dev ready ctx' refl,
      loads_nonzero sys (defaults target ctx) node load,
    )

-- Where `fw_initialize` fails, the loader has no more files than it had.
pub initialize_failed :
    (sys : Platform) (ctx : Ctx) (node : OfNode) (target : Option ℕ)
    → ctx.kobj_added ≡ false
    → ltb_ℤ (fw_initialize sys ctx (some node) target).0 (pos 0) ≡ true
    → (fw_initialize sys ctx (some node) target).1.kobj_added ≡ false
unfolding fw_initialize need_device add_kobject Kept
initialize_failed sys ctx node target no_files failed =
    let ready : Ctx = (fw_get_parameters sys (defaults target ctx) (some node)).1 in
    ground
      (arith, get_parameters_keeps sys (defaults target ctx) node, by_device sys ready.dev ready)
  where
    by_device :
        (sys : Platform) (d : Option ℕ) (ready : Ctx)
        → ready.kobj_added ≡ false
        → ltb_ℤ (need_device sys d ready).0 (pos 0) ≡ true
        → (need_device sys d ready).1.kobj_added ≡ false
    by_device sys none ready e h = e
    by_device sys (some d) ready e h = ground arith

pub cleanup_clears : (ctx : Ctx) → (fw_cleanup ctx).kobj_added ≡ false
unfolding fw_cleanup
cleanup_clears ctx = ground arith
