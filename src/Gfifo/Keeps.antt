-- ===== src/Gfifo/Keeps.antt =====
-- The critical sections of the gfifo devices, and the command that clears them, keep the invariant.
use linux_device_driver.Base.{
  ℕ, ◌≡◌, List, arith, length, length-splice, replicate, take, ℕ_discrete, ◌-◌,
}
use linux_device_driver.Base.Kernel.{Uaccess, Memcpy}
use linux_device_driver.Gfifo.{Dev, read_body, write_body, gfifo_ioctl}
use linux_device_driver.Gfifo.Valid.{
  IsValid, read_count, write_count, read_body_moved, read_body_fault, write_body_moved,
  write_body_fault,
}

-- memcpy writes inside the array, and keeps its size.
abbrev pub KeepsSize : Memcpy → Type 0
KeepsSize cpy = (a : List ℕ) (dst src n : ℕ) → length (cpy a dst src n) ≡ length a

module _ {Buf : Type 0} (ua : Uaccess Buf) {gsize : ℕ} where
  pub read_body-IsValid :
      (cpy : Memcpy)
      → KeepsSize cpy
      → {dev : Dev} → IsValid gsize dev
      → (buf : Buf) (size : ℕ) → IsValid gsize (read_body ua cpy dev buf size).dev
  read_body-IsValid cpy keep {dev} v buf size =
      elim (ℕ_discrete (ua.copy_to_user buf (take (read_count dev size) dev.mem)).1 0) [
        | yes e ↦ rw (read_body_moved ua cpy v buf size e) (
            omega (arith, keep dev.mem 0 (read_count dev size) (dev.cur_len - read_count dev size)))
        | no e ↦ rw (read_body_fault ua cpy v buf size e) v
      ]

  pub write_body-IsValid :
      {dev : Dev}
      → IsValid gsize dev
      → (buf : Buf) (size : ℕ) → IsValid gsize (write_body ua gsize dev buf size).dev
  write_body-IsValid {dev} v buf size = elim (ℕ_discrete got.1 0) [
    | yes e ↦
        rw (write_body_moved ua v buf size e)
          (omega (arith, length-splice dev.mem dev.cur_len got.0))
    | no e ↦
        rw (write_body_fault ua v buf size e)
          (omega (arith, length-splice dev.mem dev.cur_len got.0))
  ]
    where
      got : List ℕ × ℕ
      got = ua.copy_from_user buf (write_count gsize dev size)

pub ioctl-IsValid :
    {gsize : ℕ} {dev : Dev}
    → IsValid gsize dev
    → (cmd : ℕ) → IsValid gsize (gfifo_ioctl gsize dev cmd).1
unfolding gfifo_ioctl
ioctl-IsValid {gsize} {dev} v cmd = ground (arith, length-splice dev.mem 0 (replicate gsize 0))
