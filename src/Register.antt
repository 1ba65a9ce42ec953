-- ===== src/Register.antt =====
-- generic/generic_access.c: masked reads and writes of device registers, and the hooks that can stand
-- in for 8-bit accesses. Every access is made under one lock, so that it is one step here.
pub mod Hooks
pub mod Masked
mod Tests
use linux_device_driver.Base.{
  ℕ, zero, suc, ◌+◌, ◌*◌, ◌/◌, ◌%◌, ◌^◌, ◌-◌, bit_and, bit_or, Bool, true, false, not, ◌&&◌, ◌||◌,
  Option, none, some, if◌then◌else◌, ◌==◌, leb, ltb, ℤ, pos, u32, u64,
}
use linux_device_driver.Base.Bits.{bit_not}
use linux_device_driver.Base.Errno.{einval, efault}

-- GA_WRITE, GA_READ_WRITE_CONDITIONAL, GA_READ_WRITE_ALWAYS
abbrev pub ga_write : ℕ
ga_write = 1

abbrev pub ga_read_write_conditional : ℕ
ga_read_write_conditional = 2

abbrev pub ga_read_write_always : ℕ
ga_read_write_always = 4

-- GA_MODIFIED_NONE, GA_MODIFIED_SURE, GA_MODIFIED_MAYBE
abbrev pub ga_modified_none : ℕ
ga_modified_none = 0

abbrev pub ga_modified_sure : ℕ
ga_modified_sure = 1

abbrev pub ga_modified_maybe : ℕ
ga_modified_maybe = 2

-- How a register is reached, on a state `H` of the hardware: __raw_readX and __raw_writeX, or the
-- functions that stand in for them. A read may change the hardware.
pub record Port (H : Type 0) : Type 0 where
  pub read : ℕ → H → ℕ × H
  pub write : ℕ → ℕ → H → H

abbrev pub has_option : ℕ → ℕ → Bool
has_option options flag = not (bit_and options flag == 0)

module _ {H : Type 0} (port : Port H) (w : ℕ) where
  -- The bits in `mask` from `value`, the others from `old`.
  abbrev pub updated : ℕ → ℕ → ℕ → ℕ
  updated old mask value = bit_or (bit_and old (bit_not w mask)) (bit_and value mask)

  -- GA_DEFINE_REG_WRITE for a register of `w` bits: the return code, and the hardware.
  pub ga_reg_write_w : ℕ → ℕ → ℕ → ℕ → H → ℕ × H
  ga_reg_write_w addr mask value options h =
      if has_option options ga_write || mask == 2 ^ w - 1
      then (ga_modified_maybe, port.write (bit_and value mask) addr h)
      else if has_option options (bit_or ga_read_write_conditional ga_read_write_always)
      then (let (old_reg, h') = port.read addr h in
          let new_reg : ℕ = updated old_reg mask value in
          (
            if old_reg == new_reg then ga_modified_none else ga_modified_sure,
            if has_option options ga_read_write_always || not (old_reg == new_reg)
                then port.write new_reg addr h'
                else h',
          ))
      else (ga_modified_none, h)

  -- GA_DEFINE_REG_READ
  pub ga_reg_read_w : ℕ → ℕ → H → ℕ × H
  ga_reg_read_w addr mask h = let (reg, h') = port.read addr h in (bit_and reg mask, h')

module _ {H : Type 0} (port : Port H) where
  -- dev_write, dev_read_modify_write and dev_read of dev_common.h
  abbrev pub dev_write : ℕ → ℕ → H → H
  dev_write addr val h = (ga_reg_write_w port 8 addr 0xff val ga_write h).1

  abbrev pub dev_read_modify_write : ℕ → ℕ → ℕ → H → H
  dev_read_modify_write addr mask upd h =
      (ga_reg_write_w port 8 addr mask upd ga_read_write_always h).1

  abbrev pub dev_read : ℕ → H → ℕ × H
  dev_read addr h = ga_reg_read_w port 8 addr 0xff h

-- The ports of the four widths.
pub record Bus (H : Type 0) : Type 0 where
  pub raw8 : Port H
  pub raw16 : Port H
  pub raw32 : Port H
  pub raw64 : Port H

abbrev pub low_word : ℕ → ℕ
low_word x = bit_and x (2 ^ 32 - 1)

-- Of the two halves, the one that is sure wins.
abbrev pub both_modified : ℕ → ℕ → ℕ
both_modified rc1 rc2 =
    if rc1 == ga_modified_sure || rc2 == ga_modified_sure
    then ga_modified_sure
    else if rc1 == ga_modified_maybe || rc2 == ga_modified_maybe
    then ga_modified_maybe
    else ga_modified_none

module _ {H : Type 0} (bus : Bus H) where
  -- The 64-bit accesses of a kernel without CONFIG_64BIT, little endian: the low word first.
  pub ga_reg_write64_halves : ℕ → ℕ → ℕ → ℕ → H → ℕ × H
  ga_reg_write64_halves addr mask value options h =
      let (rc1, h') = ga_reg_write_w bus.raw32 32 addr (low_word mask) (low_word value) options h in
      let (rc2, h'') =
        ga_reg_write_w bus.raw32 32 (u32 (addr + 4)) (mask / 2 ^ 32 % 2 ^ 32)
          (value / 2 ^ 32 % 2 ^ 32) options h' in
      (both_modified rc1 rc2, h'')

  pub ga_reg_read64_halves : ℕ → ℕ → H → ℕ × H
  ga_reg_read64_halves addr mask h =
      let (lsv, h') = ga_reg_read_w bus.raw32 32 addr (low_word mask) h in
      let (msv, h'') = ga_reg_read_w bus.raw32 32 (u32 (addr + 4)) (mask / 2 ^ 32 % 2 ^ 32) h' in
      (bit_and (u64 (msv * 2 ^ 32)) lsv, h'')

  -- With CONFIG_64BIT.
  pub ga_reg_write : ℕ → ℕ → ℕ → ℕ → ℕ → H → ℤ × H
  ga_reg_write addr access_size mask value options h =
      if access_size == 8
      then (pos 0, (ga_reg_write_w bus.raw8 8 addr (mask % 2 ^ 8) (value % 2 ^ 8) options h).1)
      else if access_size == 16
      then (pos 0, (ga_reg_write_w bus.raw16 16 addr (mask % 2 ^ 16) (value % 2 ^ 16) options h).1)
      else if access_size == 32
      then (pos 0, (ga_reg_write_w bus.raw32 32 addr (mask % 2 ^ 32) (value % 2 ^ 32) options h).1)
      else if access_size == 64
      then (pos 0, (ga_reg_write_w bus.raw64 64 addr mask value options h).1)
      else (einval, h)

  -- The new value of `*value`, which stays on an error.
  pub ga_reg_read : ℕ → ℕ → ℕ → ℕ → H → ℤ × ℕ × H
  ga_reg_read addr access_size mask value h =
      if access_size == 8
      then (let (v, h') = ga_reg_read_w bus.raw8 8 addr (mask % 2 ^ 8) h in (pos 0, v, h'))
      else if access_size == 16
      then (let (v, h') = ga_reg_read_w bus.raw16 16 addr (mask % 2 ^ 16) h in (pos 0, v, h'))
      else if access_size == 32
      then (let (v, h') = ga_reg_read_w bus.raw32 32 addr (mask % 2 ^ 32) h in (pos 0, v, h'))
      else if access_size == 64
      then (let (v, h') = ga_reg_read_w bus.raw64 64 addr mask h in (pos 0, v, h'))
      else (einval, value, h)
