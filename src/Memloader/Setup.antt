-- ===== src/Memloader/Setup.antt =====
-- memloader/memloader_core.c: the driver's files, probe and remove.
pub mod Undone
mod Tests
use linux_device_driver.Base.{
  ℕ, ◌^◌, Bool, true, false, not, Option, none, some, List, if◌then◌else◌, ℤ, pos, ltb_ℤ, eqb_ℤ,
  to_word, to_u32,
}
use linux_device_driver.Base.Errno.{einval, eio, enomem}
use linux_device_driver.Firmware.{Ctx}
use linux_device_driver.Firmware.Setup.{OfNode, Platform, fw_initialize, fw_cleanup}
use linux_device_driver.Memloader.{Info}

-- The names that `memloader_show` and `memloader_store` compare `attr->name` with.
pub data File : Type 0 where
  load_address load_size other : File

-- What `memloader_show` prints: a number in hexadecimal with 0x and a newline; or its error.
pub data Printed : Type 0 where
  hexadecimal : ℕ → Printed
  refused : ℤ → Printed

pub memloader_show : Info → File → Printed
memloader_show info load_address = hexadecimal info.load_base_address
memloader_show info load_size = hexadecimal (to_u32 info.current_count)
memloader_show info other = refused eio

-- `strtol` is simple_strtol(buf, NULL, 16).
pub memloader_set_load_address : (List ℕ → ℤ) → Info → List ℕ → ℤ × Info
memloader_set_load_address strtol info buf =
    (pos 0, record info { load_base_address = to_word (2 ^ 64) (strtol buf) })

pub memloader_store : (List ℕ → ℤ) → Info → File → List ℕ → ℕ → ℤ × Info
memloader_store strtol info load_address buf count =
    let (ret, info') = memloader_set_load_address strtol info buf in
    ((if ltb_ℤ ret (pos 0) then einval else pos count), info')
memloader_store strtol info load_size buf count = (einval, info)
memloader_store strtol info other buf count = (einval, info)

-- A driver's data, and whether it has been freed.
pub record Device : Type 0 where
  pub ctx : Ctx
  pub info : Info
  pub freed : Bool

-- What the kernel answers to a probe: the property load-address, and kobject_init_and_add for the
-- directory memloader.
pub record Answers : Type 0 where
  pub load_address : Option ℕ
  pub kobject_init_and_add : ℤ

abbrev pub free_mem : Device → Device
free_mem d = record d { freed = true }

module _ (sys : Platform) (a : Answers) (node : OfNode) (target : ℕ) where
  -- From the call of fw_initialize on.
  add_files : Device → ℤ × Device
  add_files d =
      let (ret, ctx) = fw_initialize sys d.ctx (some node) (some target) in
      let ready : Device = record d { ctx = ctx } in
      if ltb_ℤ ret (pos 0)
      then (ret, free_mem ready)
      else if not (eqb_ℤ a.kobject_init_and_add (pos 0))
      then (a.kobject_init_and_add, free_mem (record ready { ctx = fw_cleanup ctx }))
      else (pos 0, ready)

  -- `zeroed` is what devm_kzalloc gives.
  pub memloader_probe : Option Device → ℤ × Option Device
  memloader_probe none = (enomem, none)
  memloader_probe (some zeroed) = elim a.load_address [
    | none ↦ (einval, some (free_mem zeroed))
    | some base ↦
        let (ret, d) =
          add_files (record zeroed { info = record zeroed.info { load_base_address = base } }) in
        (ret, some d)
  ]

pub memloader_remove : Device → Device
memloader_remove d = free_mem (record d { ctx = fw_cleanup d.ctx })
