-- ===== src/Gfifo/Plain/Tests.antt =====
-- The FIFO with and without SIGIO, on a device of four bytes that is full, with a sleeping writer
-- that is woken when one byte has left.
use linux_device_driver.Base.{◌≡◌, refl, false, some, [], ◌∷◌, pos}
use linux_device_driver.Base.Kernel.{list_uaccess, memmove}
use linux_device_driver.Gfifo.{
  Dev, Wake, wake_readers, gfifo_read, gfifo_write, gfifo_ioctl, gfifo_poll,
}
use linux_device_driver.Gfifo.Plain.{
  wait_then, write_section, read_call, write_call, ioctl_call, poll_call,
}
use linux_device_driver.Gfifo.Plain.Forget.{forget, forget_result, forget_wakes, calls_agree}

abbrev brim : Dev
brim = record { mem = 1 ∷ 2 ∷ 3 ∷ 4 ∷ []; cur_len = 4; async_queue = 5 ∷ 6 ∷ [] }

abbrev one_left : Wake
one_left = record {
  signal = false;
  dev = record { mem = 2 ∷ 3 ∷ 4 ∷ 4 ∷ []; cur_len = 3; async_queue = 6 ∷ [] };
}

calls_agree_example :
    (forget_result (gfifo_read list_uaccess memmove false (one_left ∷ []) brim (8 ∷ 9 ∷ []) 2)
      ≡ read_call list_uaccess memmove false
          (forget_wakes (one_left ∷ []))
          (forget brim)
          (8 ∷ 9 ∷ [])
          2)
    × (forget_result (gfifo_write list_uaccess 4 false (one_left ∷ []) brim (8 ∷ 9 ∷ []) 2)
        ≡ write_call list_uaccess 4 false
            (forget_wakes (one_left ∷ []))
            (forget brim)
            (8 ∷ 9 ∷ [])
            2)
    × (((gfifo_ioctl 4 brim 7).0, forget (gfifo_ioctl 4 brim 7).1) ≡ ioctl_call 4 (forget brim) 7)
    × (gfifo_poll 4 brim ≡ poll_call 4 (forget brim))
calls_agree_example = calls_agree list_uaccess memmove 4 false (one_left ∷ []) brim (8 ∷ 9 ∷ []) 2 7

-- What the writer does: one byte fits, and the readers are woken.
writes_one :
    write_call list_uaccess 4 false ((false, forget one_left.dev) ∷ []) (forget brim) (8 ∷ 9 ∷ []) 2
    ≡ some (record {
      ret = pos 1;
      queue = record { mem = 2 ∷ 3 ∷ 4 ∷ 8 ∷ []; cur_len = 4 };
      buf = 8 ∷ 9 ∷ [];
      events = wake_readers ∷ [];
    })
unfolding write_call wait_then write_section
writes_one = refl
