-- ===== src/Memloader.antt =====
-- memloader/memloader_core.c: the driver that copies a firmware image to physical memory, a block
-- at a time, through the callbacks of memloader/firmware.c.
pub mod Copy
pub mod Load
pub mod Result
pub mod Pages
pub mod Setup
mod Tests
use linux_device_driver.Base.{
  ℕ, zero, suc, ◌+◌, ◌-◌, ◌/◌, ◌^◌, min, Bool, true, false, not, ◌&&◌, Option, none, some, List,
  if◌then◌else◌, ltb, leb, length, take, drop, get_elem?, get_or, ℤ, pos, pos_part, to_word, ◌+ℤ◌,
  ltb_ℤ, leb_ℤ, eqb_ℤ, add_s32, sub_s32,
}
use linux_device_driver.Base.Maybe.{◌>>=◌}
use linux_device_driver.Base.Errno.{einval, ebusy, enomem, eio}
use linux_device_driver.Firmware.{Ctx, Callback, Ops}

abbrev pub page_size : ℕ
page_size = 4096

-- `struct memloader_info`, with the physical memory that it is loaded to.
pub record Info : Type 0 where
  pub load_base_address : ℕ
  pub current_count : ℤ
  pub mem : ℕ → ℕ

-- memcpy to the mapped range from the physical address `a` on.
abbrev pub store : (ℕ → ℕ) → ℕ → List ℕ → ℕ → ℕ
store mem a xs x = if leb a x && ltb x (a + length xs) then get_or xs (x - a) 0 else mem x

-- `info->load_base_address + count`, a 64-bit sum
abbrev pub address : ℕ → ℤ → ℕ
address base count = to_word (2 ^ 64) (pos base +ℤ count)

-- The number of bytes that one call is to write.
abbrev pub block_count : Ctx → ℤ
block_count ctx =
    let remaint : ℤ = sub_s32 ctx.total_count ctx.current_count in
    let count : ℤ = if eqb_ℤ ctx.blocksize (pos 0) then remaint else ctx.blocksize in
    if ltb_ℤ remaint count then remaint else count

-- Whether ioremap(phys, size) maps the range: the kernel's answer, a parameter of the driver.
abbrev pub Ioremap : Type 0
Ioremap = ℕ → ℤ → Bool

module _ (ioremap : Ioremap) where
  -- `data` is NULL or points to the bytes given; `none`: memcpy reads past the end of them.
  pub memloader_load : ℕ → Option (List ℕ) → ℤ → (ℕ → ℕ) → Option (ℤ × (ℕ → ℕ))
  memloader_load phy_address none count mem = some (einval, mem)
  memloader_load phy_address (some xs) count mem =
      if leb_ℤ count (pos 0)
      then some (einval, mem)
      else if not (ioremap phy_address count)
      then some (ebusy, mem)
      else if leb (pos_part count) (length xs)
      then some (count, store mem phy_address (take (pos_part count) xs))
      else none

  -- `while (count)` of `memloader_write`, on fuel; `none` also where `pages[page_nr]` is no page.
  pub copy_pages : List (List ℕ) → ℕ → ℤ → ℤ → Info → Option (ℤ × Info)
  copy_pages pages zero count total_copy info = none
  copy_pages pages (suc fuel) count total_copy info = elim (eqb_ℤ count (pos 0)) [
    | true ↦ some (total_copy, info)
    | false ↦ get_elem? pages (pos_part info.current_count / page_size) >>= λ page.
        memloader_load (address info.load_base_address info.current_count) (some page)
          (pos (min page_size (to_word (2 ^ 64) count))) info.mem
        >>= λ r. elim (ltb_ℤ (pos 0) r.0) [
          | true ↦
              copy_pages pages fuel (sub_s32 count r.0) (add_s32 total_copy r.0)
                (record info { current_count = add_s32 info.current_count r.0; mem = r.1 })
          | false ↦ some (enomem, record info { mem = r.1 })
        ]
  ]

  write_data : List ℕ → Ctx → Info → Option (ℤ × Info)
  write_data xs ctx info =
      memloader_load (address info.load_base_address ctx.current_count)
        (some (drop (pos_part ctx.current_count) xs)) (block_count ctx) info.mem
      >>= λ r. some (
        r.0,
        if ltb_ℤ (pos 0) r.0
            then record info { current_count = add_s32 info.current_count r.0; mem = r.1 }
            else record info { mem = r.1 },
      )

  write_pages : Option (List (List ℕ)) → Ctx → Info → Option (ℤ × Info)
  write_pages none ctx info = some (einval, info)
  write_pages (some pages) ctx info =
      copy_pages pages (suc (pos_part (block_count ctx))) (block_count ctx) (pos 0) info

  -- `none` where `ctx->fw` is NULL: the callback is for a load in progress.
  pub memloader_write : Callback Info
  memloader_write ctx info = ctx.image >>= λ fw. elim fw.bytes [
    | none ↦ write_pages fw.pages ctx info
    | some xs ↦ write_data xs ctx info
  ]

pub memloader_start : Callback Info
memloader_start ctx info = some (pos 0, record info { current_count = pos 0 })

pub memloader_end : Ctx → Bool → Info → Option (ℤ × Info)
memloader_end ctx error info =
    some ((if not (eqb_ℤ info.current_count ctx.current_count) then eio else pos 0), info)

-- The callbacks that `memloader_probe` installs.
abbrev pub memloader_ops : Ioremap → Ops Info
memloader_ops ioremap = record {
  start = some memloader_start;
  write = some (memloader_write ioremap);
  read = none;
  end = some memloader_end;
}
