-- ===== src/Gfifo/Threads/Tests.antt =====
-- A run of two threads on a device of two bytes: thread 0 reads and falls asleep, thread 1 writes
-- one byte and wakes it.
use linux_device_driver.Base.{ℕ, ◌≡◌, refl, false, some, List, [], ◌∷◌, ◌++◌, arith, length}
use linux_device_driver.Base.Kernel.{list_uaccess, list_uaccess-IsUaccess, memmove, IsMemcpy}
use linux_device_driver.Gfifo.{read_body, write_body}
use linux_device_driver.Gfifo.Spec.{contents}
use linux_device_driver.Gfifo.Keeps.{KeepsSize}
use linux_device_driver.Gfifo.Threads.Effects.{IsMemmove-KeepsSize}
use linux_device_driver.Gfifo.Threads.{
  Call, reading, writing, System, Reach, start, later, enter, lock, relock, sleep, pass, move,
  perform, put, got,
}
use linux_device_driver.Gfifo.Threads.History.{replay}
use linux_device_driver.Gfifo.Threads.Safety.{
  mutual_exclusion, reader_asleep, writer_asleep, linearizable, stream_kept, accepted, delivered,
}

abbrev reader : Call (List ℕ)
reader = reading false (8 ∷ []) 1

abbrev writer : Call (List ℕ)
writer = writing false (7 ∷ 6 ∷ []) 2

copies : IsMemcpy memmove
copies a dst src n apart = refl

keeps : KeepsSize memmove
keeps = IsMemmove-KeepsSize memmove (λ a dst src n. refl)

record Run : Type 0 where
  last : System (List ℕ)
  reach : Reach list_uaccess memmove 2 last

abbrev dozing : Run
dozing = record {
  last = _;
  reach =
      later (later (later start (enter 0 reader refl)) (lock 0 refl refl)) (sleep 0 refl refl refl);
}

-- thread 1 is past its test
abbrev storing : Run
storing = record {
  last = _;
  reach =
      later (later (later dozing.reach (enter 1 writer refl)) (lock 1 refl refl))
        (pass 1 refl refl);
}

-- thread 1 has filled the device
abbrev stored : Run
stored = record { last = _; reach = later storing.reach (move 1 refl) }

-- thread 1 writes again, and falls asleep
abbrev waiting : Run
unfolding perform write_body
waiting = record {
  last = _;
  reach =
      later (later (later stored.reach (enter 1 writer refl)) (lock 1 refl refl))
        (sleep 1 refl refl refl);
}

mutual_exclusion_example : ◌≡◌ {A = ℕ} 1 1
mutual_exclusion_example =
    mutual_exclusion list_uaccess memmove 2 list_uaccess-IsUaccess copies keeps (omega arith)
      storing.reach 1 1 refl refl

reader_asleep_example : contents dozing.last.dev ≡ []
reader_asleep_example =
    reader_asleep list_uaccess memmove 2 list_uaccess-IsUaccess copies keeps (omega arith)
      dozing.reach 0 refl

writer_asleep_example : length (contents waiting.last.dev) ≡ 2
unfolding perform write_body
writer_asleep_example =
    writer_asleep list_uaccess memmove 2 list_uaccess-IsUaccess copies keeps (omega arith)
      waiting.reach 1 refl

-- thread 0 is woken and reads its byte
abbrev read_one : Run
unfolding perform write_body
read_one = record {
  last = _;
  reach =
      later
        (later (later stored.reach (relock 0 {c = reader} refl refl))
          (pass 0 {c = reader} refl refl))
        (move 0 {c = reader} refl);
}

linearizable_example : replay read_one.last.log [] ≡ some (contents read_one.last.dev)
unfolding perform write_body read_body
linearizable_example =
    linearizable list_uaccess memmove 2 list_uaccess-IsUaccess copies keeps (omega arith)
      read_one.reach refl

stream_kept_example :
    delivered read_one.last.log ++ contents read_one.last.dev ≡ accepted read_one.last.log
unfolding perform write_body read_body
stream_kept_example =
    stream_kept list_uaccess memmove 2 list_uaccess-IsUaccess copies keeps (omega arith)
      read_one.reach refl tt

-- The bytes, run.
read_runs : read_one.last.log ≡ put (7 ∷ 6 ∷ []) ∷ got (7 ∷ []) ∷ []
unfolding perform write_body read_body
read_runs = refl
