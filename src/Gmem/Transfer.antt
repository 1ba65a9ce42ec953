-- ===== src/Gmem/Transfer.antt =====
-- What is written to a gmem device can be read back.
use linux_device_driver.Base.{ℕ, List}
use linux_device_driver.Base.Kernel.{Uaccess, IsUaccess}
use linux_device_driver.Gmem.{count_of}

module _ {Buf : Type 0} (ua : Uaccess Buf) (law : IsUaccess ua) (gsize : ℕ) (mem : List ℕ)
    (from into : Buf) (p n : ℕ) where
  abbrev bytes : List ℕ
  bytes = (ua.copy_from_user from (count_of gsize p n)).0
