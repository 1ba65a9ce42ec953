-- ===== src/Firmware/Setup.antt =====
-- memloader/firmware.c: setting a load up from the device tree, and taking it down.
pub mod Ready
mod Tests
use linux_device_driver.Base.{
  ℕ, Bool, true, false, not, Option, none, some, List, [], ◌∷◌, if◌then◌else◌, length, splice, ℤ,
  pos, ltb_ℤ, eqb_ℤ,
}
use linux_device_driver.Base.Errno.{einval, enodev}
use linux_device_driver.Firmware.{FwState, empty, deleted, Ctx, int_of}
use linux_device_driver.Firmware.Sysfs.{fw_set_filename}

-- The properties "firmware-…" of a device's node, absent or with their (big-endian) value; the value
-- of firmware-target is a phandle.
pub record OfNode : Type 0 where
  pub firmware_load : Bool
  pub firmware_target : Option ℕ
  pub firmware_blockread : Option ℕ
  pub firmware_blocksize : Option ℕ
  pub firmware_blockdelay : Option ℕ
  pub firmware_filename : Option (List ℕ)

-- of_find_node_by_phandle followed by of_find_device_by_node, each of which may find nothing; and
-- kobject_add for the loader's directory.
pub record Platform : Type 0 where
  pub find_node : ℕ → Option ℕ
  pub find_device : ℕ → Option ℕ
  pub kobject_add : Ctx → ℤ

abbrev override : Option ℕ → ℤ → ℤ
override none old = old
override (some v) old = int_of v

-- DEF_FIRMWARE_NAME with its NUL: "fpga.bit"
abbrev pub def_firmware_name : List ℕ
def_firmware_name = b'f' ∷ b'p' ∷ b'g' ∷ b'a' ∷ b'.' ∷ b'b' ∷ b'i' ∷ b't' ∷ 0 ∷ []

-- DEF_BLOCKREAD, DEF_BLOCKSIZE and DEF_BLOCKDELAY, and the other hardcoded defaults.
abbrev pub defaults : Option ℕ → Ctx → Ctx
defaults target ctx = record ctx {
  filename = splice ctx.filename 0 def_firmware_name;
  blockread = pos 640;
  blocksize = pos 20;
  blockdelay = pos 10;
  devicemask = pos 0xff;
  dev = target;
  state = empty;
}

module _ (sys : Platform) where
  set_target : Option ℕ → Ctx → ℤ × Ctx
  set_target none ctx = (pos 0, ctx)
  set_target (some phandle) ctx = elim (sys.find_node phandle) [
    | none ↦ (enodev, ctx)
    | some node ↦ elim (sys.find_device node) [
      | none ↦ (enodev, ctx)
      | some target ↦ (pos 0, record ctx { dev = some target })
    ]
  ]

  set_name : Option (List ℕ) → Ctx → ℤ × Ctx
  set_name none ctx = (pos 1, ctx)
  set_name (some name) ctx =
      let (ret, ctx') = fw_set_filename ctx name (length name) in
      if ltb_ℤ ret (pos 0) then (ret, ctx') else (pos 1, ctx')

  -- `none` is a NULL device; the context is a member of the driver's structure and never NULL.
  pub fw_get_parameters : Ctx → Option OfNode → ℤ × Ctx
  fw_get_parameters ctx none = (einval, ctx)
  fw_get_parameters ctx (some node) =
      if not node.firmware_load
      then (pos 0, ctx)
      else let (ret, targeted) = set_target node.firmware_target ctx in
        if ltb_ℤ ret (pos 0)
        then (ret, targeted)
        else set_name node.firmware_filename (record targeted {
          blockread = override node.firmware_blockread targeted.blockread;
          blocksize = override node.firmware_blocksize targeted.blocksize;
          blockdelay = override node.firmware_blockdelay targeted.blockdelay;
        })

  add_kobject : Ctx → ℤ × Ctx
  add_kobject ctx =
      if ctx.kobj_added
      then (pos 0, ctx)
      else let ret : ℤ = sys.kobject_add ctx in
        if eqb_ℤ ret (pos 0) then (pos 0, record ctx { kobj_added = true }) else (ret, ctx)

  need_device : Option ℕ → Ctx → ℤ × Ctx
  need_device none ctx = (enodev, ctx)
  need_device (some _) ctx = add_kobject (record ctx { kobj_init = true })

  pub fw_initialize : Ctx → Option OfNode → Option ℕ → ℤ × Ctx
  fw_initialize ctx none target = (einval, ctx)
  fw_initialize ctx (some node) target =
      let (ret, ready) = fw_get_parameters (defaults target ctx) (some node) in
      if ltb_ℤ (pos 0) ret then need_device ready.dev ready else (ret, ready)

-- Cancels a load in progress, and refuses every later one.
pub fw_cleanup : Ctx → Ctx
fw_cleanup ctx = if ctx.kobj_added then record ctx { state = deleted; kobj_added = false } else ctx
