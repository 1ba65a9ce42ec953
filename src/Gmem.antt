-- ===== src/Gmem.antt =====
-- gmem/gmem.c: a character device that is a block of memory. Its size, GMEM_SIZE, is a parameter.
-- gmem_mutex/gmem_mutex.c and gmem_n/gmem_n.c have the same handlers.
pub mod Transfer
mod Tests
use linux_device_driver.Base.{
  ℕ, ◌+◌, ◌-◌, Bool, true, false, if◌then◌else◌, ◌==◌, ltb, leb, List, take, drop, splice,
  replicate, ℤ, pos, ltb_ℤ, ◌+ℤ◌, to_u32, to_word, wrap_s64, u32, ◌^◌,
}
use linux_device_driver.Base.Kernel.{Uaccess}
use linux_device_driver.Base.Errno.{einval, efault}

abbrev pub gmem_size : ℕ
gmem_size = 0x1000

-- MEM_CLEAR of this driver
abbrev pub gmem_clear : ℕ
gmem_clear = 1

-- A handler's result, with the device's memory, the file position and the user's buffer.
pub record Done (Buf : Type 0) : Type 0 where
  pub ret : ℤ
  pub mem : List ℕ
  pub f_pos : ℤ
  pub buf : Buf

-- `unsigned long p = *ppos`
abbrev pub offset_of : ℤ → ℕ
offset_of p = to_word (2 ^ 64) p

-- `count`, cut to what lies behind `p`
abbrev pub count_of : ℕ → ℕ → ℕ → ℕ
count_of gsize p size = if ltb (gsize - p) (u32 size) then u32 (gsize - p) else u32 size

-- `*ppos += count`
abbrev pub advance : ℤ → ℕ → ℤ
advance p count = wrap_s64 (p +ℤ pos count)

module _ {Buf : Type 0} (ua : Uaccess Buf) (gsize : ℕ) where
  pub gmem_read : List ℕ → ℤ → Buf → ℕ → Done Buf
  gmem_read mem ppos buf size =
      let p : ℕ = offset_of ppos in
      let count : ℕ = count_of gsize p size in
      let (buf', left) = ua.copy_to_user buf (take count (drop p mem)) in
      if leb gsize p
      then record { ret = pos 0; mem = mem; f_pos = ppos; buf = buf }
      else if left == 0
      then record { ret = pos count; mem = mem; f_pos = advance ppos count; buf = buf' }
      else record { ret = efault; mem = mem; f_pos = ppos; buf = buf' }

  pub gmem_write : List ℕ → ℤ → Buf → ℕ → Done Buf
  gmem_write mem ppos buf size =
      let p : ℕ = offset_of ppos in
      let count : ℕ = count_of gsize p size in
      let (bytes, left) = ua.copy_from_user buf count in
      if leb gsize p
      then record { ret = pos 0; mem = mem; f_pos = ppos; buf = buf }
      else if left == 0
      then record {
        ret = pos count;
        mem = splice mem p bytes;
        f_pos = advance ppos count;
        buf = buf;
      }
      else record { ret = efault; mem = splice mem p bytes; f_pos = ppos; buf = buf }

-- The result and the new `f_pos`.
pub gmem_llseek : ℕ → ℤ → ℤ → ℕ → ℤ × ℤ
gmem_llseek gsize f_pos offset orig =
    let sum : ℤ = wrap_s64 (f_pos +ℤ offset) in
    if orig == 0
    then (if ltb_ℤ offset (pos 0)
        then (einval, f_pos)
        else if ltb gsize (to_u32 offset)
        then (einval, f_pos)
        else (pos (to_u32 offset), pos (to_u32 offset)))
    else if orig == 1
    then (if ltb_ℤ (pos gsize) sum
        then (einval, f_pos)
        else if ltb_ℤ sum (pos 0)
        then (einval, f_pos)
        else (sum, sum))
    else (einval, f_pos)

pub gmem_ioctl : ℕ → List ℕ → ℕ → ℤ × List ℕ
gmem_ioctl gsize mem cmd =
    if cmd == gmem_clear then (pos 0, splice mem 0 (replicate gsize 0)) else (einval, mem)
