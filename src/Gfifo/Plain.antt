-- ===== src/Gfifo/Plain.antt =====
-- gfifo/gfifo.c and gfifo_nonblock/gfifo_nonblock.c: the FIFO without SIGIO. GFIFO_SIZE is a parameter,
-- 0x1000 in the first and 0x100 in the second, which has poll besides. llseek is that of `Gfifo`.
pub mod Forget
mod Tests
use linux_device_driver.Base.{
  ℕ, ◌+◌, Bool, true, false, not, Option, none, some, List, [], ◌∷◌, ltb, ◌==◌, if◌then◌else◌, take,
  replicate, splice, ℤ, pos, u32, add_u64, sub_u64, bit_or,
}
use linux_device_driver.Base.Kernel.{Uaccess, Memcpy}
use linux_device_driver.Base.Errno.{eagain, efault, einval, erestartsys}
use linux_device_driver.Gfifo.{Event, mem_clear, pollin, pollout}

-- `struct gfifo_dev`, without the mutex and the wait queues
pub record Queue : Type 0 where
  pub mem : List ℕ
  pub cur_len : ℕ

pub record Answer (Buf : Type 0) : Type 0 where
  pub ret : ℤ
  pub queue : Queue
  pub buf : Buf
  pub events : List Event

module _ {Buf : Type 0} (ua : Uaccess Buf) where
  -- `gfifo_read` from the end of its loop to the label `out`.
  pub read_section : Memcpy → Queue → Buf → ℕ → Answer Buf
  read_section cpy q buf size =
      let count : ℕ = if ltb q.cur_len (u32 size) then u32 q.cur_len else u32 size in
      let (buf', left) = ua.copy_to_user buf (take count q.mem) in
      if left == 0
      then record {
        ret = pos count;
        queue = record {
          mem = cpy q.mem 0 count (sub_u64 q.cur_len count);
          cur_len = sub_u64 q.cur_len count;
        };
        buf = buf';
        events = Event.wake_writers ∷ [];
      }
      else record { ret = efault; queue = q; buf = buf'; events = [] }

  -- `gfifo_write` from the end of its loop to the label `out`.
  pub write_section : ℕ → Queue → Buf → ℕ → Answer Buf
  write_section gsize q buf size =
      let room : ℕ = sub_u64 gsize q.cur_len in
      let count : ℕ = if ltb room (u32 size) then u32 room else u32 size in
      let (bytes, left) = ua.copy_from_user buf count in
      let stored : List ℕ = splice q.mem q.cur_len bytes in
      if left == 0
      then record {
        ret = pos count;
        queue = record { mem = stored; cur_len = add_u64 q.cur_len count };
        buf = buf;
        events = Event.wake_readers ∷ [];
      }
      else record { ret = efault; queue = record q { mem = stored }; buf = buf; events = [] }

-- A jump to `out` or `out2` with an error.
abbrev pub stop : {Buf : Type 0} → ℤ → Queue → Buf → Option (Answer Buf)
stop e q buf = some (record { ret = e; queue = q; buf = buf; events = [] })

module _ {Buf : Type 0} (blocked : Queue → Bool) (nonblock : Bool)
    (section : Queue → Buf → Answer Buf) where
  -- The waiting loop and the section behind it, over the returns of schedule(): whether a signal is
  -- pending, and the device by then. `none`: the caller still sleeps.
  pub wait_then : List (Bool × Queue) → Queue → Buf → Option (Answer Buf)
  wait_then [] q buf =
      if blocked q then (if nonblock then stop eagain q buf else none) else some (section q buf)
  wait_then ((signal, q') ∷ ws) q buf =
      let again = wait_then ws q' buf in
      if blocked q
      then (if nonblock
          then stop eagain q buf
          else (if signal then stop erestartsys q' buf else again))
      else some (section q buf)

-- The tests of the loops: `dev->cur_len == 0` and `dev->cur_len == GFIFO_SIZE`.
abbrev pub drained : Queue → Bool
drained q = q.cur_len == 0

abbrev pub stuffed : ℕ → Queue → Bool
stuffed gsize q = q.cur_len == gsize

module _ {Buf : Type 0} (ua : Uaccess Buf) where
  pub read_call : Memcpy → Bool → List (Bool × Queue) → Queue → Buf → ℕ → Option (Answer Buf)
  read_call cpy nonblock ws q buf size =
      wait_then drained nonblock (λ d b. read_section ua cpy d b size) ws q buf

  pub write_call : ℕ → Bool → List (Bool × Queue) → Queue → Buf → ℕ → Option (Answer Buf)
  write_call gsize nonblock ws q buf size =
      wait_then (stuffed gsize) nonblock (λ d b. write_section ua gsize d b size) ws q buf

-- `gfifo_ioctl`
pub ioctl_call : ℕ → Queue → ℕ → ℤ × Queue
ioctl_call gsize q cmd =
    if cmd == mem_clear
    then (pos 0, record q { mem = splice q.mem 0 (replicate gsize 0) })
    else (einval, q)

-- `gfifo_poll`
pub poll_call : ℕ → Queue → ℕ
poll_call gsize q =
    bit_or (bit_or 0 (if not (drained q) then pollin else 0))
      (if not (stuffed gsize q) then pollout else 0)
