-- ===== src/Gfifo/Tests.antt =====
-- The handlers of the gfifo devices at concrete inputs: a device of four bytes that holds 1, 2, 3.
use linux_device_driver.Base.{ℕ, List, ◌≡◌, refl, inl, true, false, some, [], ◌∷◌, arith, pos}
use linux_device_driver.Base.Kernel.{list_uaccess, list_uaccess-IsUaccess, memmove}
use linux_device_driver.Base.Errno.{eagain, erestartsys}
use linux_device_driver.Gfifo.{
  Dev, Outcome, Wake, read_body, write_body, gfifo_read, gfifo_write, gfifo_ioctl, gfifo_poll,
  mem_clear,
}
use linux_device_driver.Gfifo.Spec.{contents}
use linux_device_driver.Gfifo.Valid.{IsValid}
use linux_device_driver.Gfifo.Calls.{reads_queue, writes_queue, write_then_read, Left, calls_keep}
use linux_device_driver.Gfifo.Waiting.{poll_tells, waits_end, gave_up}
use linux_device_driver.Gfifo.Threads.Effects.{IsMemmove-KeepsSize}
use linux_device_driver.Gfifo.Bytes.{idle_on_overlap, idle_on_overlap-IsMemcpy}

abbrev three : Dev
three = record { mem = 1 ∷ 2 ∷ 3 ∷ 9 ∷ []; cur_len = 3; async_queue = 5 ∷ [] }

abbrev bare : Dev
bare = record { mem = 0 ∷ 0 ∷ 0 ∷ 0 ∷ []; cur_len = 0; async_queue = [] }

abbrev full : Dev
full = record { mem = 1 ∷ 2 ∷ 3 ∷ 4 ∷ []; cur_len = 4; async_queue = [] }

abbrev two : Dev
two = record { mem = 1 ∷ 2 ∷ 0 ∷ 0 ∷ []; cur_len = 2; async_queue = [] }

two-IsValid : IsValid 4 two
two-IsValid = omega arith

three-IsValid : IsValid 4 three
three-IsValid = omega arith

bare-IsValid : IsValid 4 bare
bare-IsValid = omega arith

abbrev woken_empty : Wake
woken_empty = record { signal = false; dev = bare }

abbrev woken_three : Wake
woken_three = record { signal = false; dev = three }

-- `read(fd, buf, 2)` into a buffer of two bytes
reads_queue_example :
    (o : Outcome (List ℕ)) × (gfifo_read list_uaccess memmove false [] three (8 ∷ 8 ∷ []) 2
      ≡ some o)
    × (o.ret ≡ pos 2)
    × (o.buf ≡ 1 ∷ 2 ∷ [])
    × (contents o.dev ≡ 3 ∷ [])
reads_queue_example =
    reads_queue list_uaccess memmove false [] {gsize = 4} {dev = three} (8 ∷ 8 ∷ []) 2 three-IsValid
      (omega arith) (inl (λ a d s n. refl)) refl

-- a write of two bytes where one has room
writes_queue_example :
    (o : Outcome (List ℕ)) × (gfifo_write list_uaccess 4 true [] three (6 ∷ 7 ∷ []) 2 ≡ some o)
    × (o.ret ≡ pos 1)
    × (contents o.dev ≡ 1 ∷ 2 ∷ 3 ∷ 6 ∷ [])
writes_queue_example =
    writes_queue list_uaccess true [] {gsize = 4} {dev = three} (6 ∷ 7 ∷ []) 2
      list_uaccess-IsUaccess three-IsValid (omega arith) refl

calls_keep_example :
    Left list_uaccess 4 (gfifo_read list_uaccess memmove false (woken_three ∷ []) bare (8 ∷ []) 2)
    × Left list_uaccess 4 (gfifo_write list_uaccess 4 false (woken_three ∷ []) bare (6 ∷ []) 9)
    × IsValid 4 (gfifo_ioctl 4 bare mem_clear).1
calls_keep_example =
    calls_keep list_uaccess memmove (IsMemmove-KeepsSize memmove (λ a d s n. refl)) 4 false
      (woken_three ∷ []) bare (8 ∷ []) (6 ∷ []) 2 9 mem_clear bare-IsValid (three-IsValid, tt)

poll_tells_example :
    (gfifo_read list_uaccess memmove true [] bare (8 ∷ []) 1 ≡ some (gave_up eagain bare (8 ∷ [])))
    × (gfifo_write list_uaccess 4 true [] bare (8 ∷ []) 1
        ≡ some (write_body list_uaccess 4 bare (8 ∷ []) 1))
unfolding gfifo_poll
poll_tells_example = poll_tells list_uaccess memmove 4 [] bare (8 ∷ []) 1

abbrev woken_full : Wake
woken_full = record { signal = false; dev = full }

abbrev signalled : Wake
signalled = record { signal = true; dev = bare }

waits_end_example :
    (gfifo_read list_uaccess memmove false (woken_empty ∷ woken_full ∷ []) bare (8 ∷ []) 1
      ≡ some (read_body list_uaccess memmove full (8 ∷ []) 1))
    × (gfifo_write list_uaccess 4 false (woken_empty ∷ []) full (8 ∷ []) 1
        ≡ some (write_body list_uaccess 4 bare (8 ∷ []) 1))
    × (gfifo_read list_uaccess memmove false (woken_empty ∷ signalled ∷ []) bare (8 ∷ []) 1
        ≡ some (gave_up erestartsys bare (8 ∷ [])))
    × (gfifo_write list_uaccess 4 false (signalled ∷ []) full (8 ∷ []) 1
        ≡ some (gave_up erestartsys bare (8 ∷ [])))
waits_end_example =
    waits_end list_uaccess memmove 4 (woken_empty ∷ []) [] woken_full woken_empty signalled [] bare
      full (8 ∷ []) 1 refl refl (refl, refl, tt) tt (refl, omega arith) (refl, omega arith) refl

write_then_read_example :
    (sent : Outcome (List ℕ)) × ((got : Outcome (List ℕ)) × (gfifo_write list_uaccess 4 false []
          bare
          (6 ∷ 7 ∷ [])
          2
        ≡ some sent)
      × (gfifo_read list_uaccess idle_on_overlap false [] sent.dev (8 ∷ 8 ∷ []) 2 ≡ some got)
      × (got.ret ≡ sent.ret)
      × (got.buf ≡ 6 ∷ 7 ∷ [])
      × (contents got.dev ≡ []))
write_then_read_example =
    write_then_read list_uaccess idle_on_overlap false false [] [] {gsize = 4} {dev = bare}
      (6 ∷ 7 ∷ []) (8 ∷ 8 ∷ []) 2 2 idle_on_overlap-IsMemcpy list_uaccess-IsUaccess bare-IsValid
      refl (omega arith) (omega arith) refl (omega arith) refl

-- With memmove a read of one byte moves the rest to the front.
read_runs : (read_body list_uaccess memmove three (8 ∷ []) 1).dev.mem ≡ 2 ∷ 3 ∷ 3 ∷ 9 ∷ []
unfolding read_body
read_runs = refl
