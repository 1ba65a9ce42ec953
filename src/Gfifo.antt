-- ===== src/Gfifo.antt =====
-- gfifo_platform/gfifo_platform_driver.c: the blocking byte FIFO behind a character device, with
-- poll and SIGIO. The size of the array, GFIFO_SIZE, is a parameter: gfifo/gfifo.c has 0x1000 and
-- the other variants 0x100.
pub mod Spec
pub mod Valid
pub mod Refine
pub mod Keeps
pub mod Waiting
pub mod Bytes
pub mod Calls
pub mod Threads
pub mod Plain
mod Tests
use linux_device_driver.Base.{
  ℕ, zero, suc, ◌+◌, ◌*◌, ◌%◌, ◌^◌, Bool, true, false, Option, none, some, List, [], ◌∷◌, ltb, ◌==◌,
  if◌then◌else◌, length, take, drop, replicate, splice, ℤ, pos, u32, u64, add_u64, sub_u64, bit_or,
  not, map, negsuc, ltb_ℤ, to_u32, wrap_s64, ◌+ℤ◌,
}
use linux_device_driver.Base.Kernel.{Uaccess, Memcpy}
use linux_device_driver.Base.Errno.{eagain, efault, einval, erestartsys}

abbrev pub gfifo_size : ℕ
gfifo_size = 0x100

-- `struct gfifo_dev`. The mutex and the wait queues are the matter of `Gfifo.Threads`; of the
-- `fasync_struct` list the model keeps the files on it.
pub record Dev : Type 0 where
  pub mem : List ℕ
  pub cur_len : ℕ
  pub async_queue : List ℕ

pub data Band : Type 0 where
  poll_in poll_out : Band

-- What a handler sets off outside of the device.
pub data Event : Type 0 where
  wake_readers wake_writers : Event
  sigio : ℕ → Band → Event

pub record Outcome (Buf : Type 0) : Type 0 where
  pub ret : ℤ
  pub dev : Dev
  pub buf : Buf
  pub events : List Event

-- kill_fasync, reached only if the list is not empty: one SIGIO for each file on it.
abbrev pub kill_fasync : List ℕ → Band → List Event
kill_fasync q b = map (λ f. Event.sigio f b) q

module _ {Buf : Type 0} (ua : Uaccess Buf) where
  -- `gfifo_read` from the end of its loop to the label `out`, with the mutex held.
  pub read_body : Memcpy → Dev → Buf → ℕ → Outcome Buf
  read_body cpy dev buf size =
      let count : ℕ = if ltb dev.cur_len (u32 size) then u32 dev.cur_len else u32 size in
      let (buf', left) = ua.copy_to_user buf (take count dev.mem) in
      if left == 0
      then record {
        ret = pos count;
        dev = record dev {
          mem = cpy dev.mem 0 count (sub_u64 dev.cur_len count);
          cur_len = sub_u64 dev.cur_len count;
        };
        buf = buf';
        events = Event.wake_writers ∷ kill_fasync dev.async_queue Band.poll_out;
      }
      else record { ret = efault; dev = dev; buf = buf'; events = [] }

  -- `gfifo_write` from the end of its loop to the label `out`, with the mutex held.
  pub write_body : ℕ → Dev → Buf → ℕ → Outcome Buf
  write_body gsize dev buf size =
      let room : ℕ = sub_u64 gsize dev.cur_len in
      let count : ℕ = if ltb room (u32 size) then u32 room else u32 size in
      let (bytes, left) = ua.copy_from_user buf count in
      let stored : Dev = record dev { mem = splice dev.mem dev.cur_len bytes } in
      if left == 0
      then record {
        ret = pos count;
        dev = record stored { cur_len = add_u64 dev.cur_len count };
        buf = buf;
        events = Event.wake_readers ∷ kill_fasync dev.async_queue Band.poll_in;
      }
      else record { ret = efault; dev = stored; buf = buf; events = [] }

-- What a sleeper finds when `schedule` returns: whether a signal is pending, and the device as the
-- other threads have left it.
pub record Wake : Type 0 where
  pub signal : Bool
  pub dev : Dev

-- How the waiting loop ends: with the mutex held and the body to come, by a jump to `out` or
-- `out2` with an error, or not yet.
pub data Wait : Type 0 where
  ready : Dev → Wait
  failed : ℤ → Dev → Wait
  asleep : Dev → Wait

-- `while (blocked) { … }` of `gfifo_read` and `gfifo_write`, over the wake-ups that come.
pub wait_while : (Dev → Bool) → Bool → Dev → List Wake → Wait
wait_while blocked nonblock dev [] =
    if blocked dev
    then (if nonblock then Wait.failed eagain dev else Wait.asleep dev)
    else Wait.ready dev
wait_while blocked nonblock dev (w ∷ ws) =
    let again = wait_while blocked nonblock w.dev ws in
    if blocked dev
    then (if nonblock
        then Wait.failed eagain dev
        else (if w.signal then Wait.failed erestartsys w.dev else again))
    else Wait.ready dev

-- `dev->cur_len == 0` and `dev->cur_len == GFIFO_SIZE`
abbrev pub is_empty : Dev → Bool
is_empty dev = dev.cur_len == 0

abbrev pub is_full : ℕ → Dev → Bool
is_full gsize dev = dev.cur_len == gsize

module _ {Buf : Type 0} where
  abbrev finish : Wait → Buf → (Dev → Outcome Buf) → Option (Outcome Buf)
  finish (Wait.ready d) buf body = some (body d)
  finish (Wait.failed e d) buf body = some (record { ret = e; dev = d; buf = buf; events = [] })
  finish (Wait.asleep d) buf body = none

module _ {Buf : Type 0} (ua : Uaccess Buf) where
  -- `none`: the caller still sleeps.
  pub gfifo_read : Memcpy → Bool → List Wake → Dev → Buf → ℕ → Option (Outcome Buf)
  gfifo_read cpy nonblock ws dev buf size =
      finish (wait_while is_empty nonblock dev ws) buf (λ d. read_body ua cpy d buf size)

  pub gfifo_write : ℕ → Bool → List Wake → Dev → Buf → ℕ → Option (Outcome Buf)
  gfifo_write gsize nonblock ws dev buf size =
      finish (wait_while (is_full gsize) nonblock dev ws) buf (λ d. write_body ua gsize d buf size)

abbrev pub mem_clear : ℕ
mem_clear = 1

pub gfifo_ioctl : ℕ → Dev → ℕ → ℤ × Dev
gfifo_ioctl gsize dev cmd =
    if cmd == mem_clear
    then (pos 0, record dev { mem = splice dev.mem 0 (replicate gsize 0) })
    else (einval, dev)

-- POLLIN | POLLRDNORM and POLLOUT | POLLWRNORM of the generic poll.h
abbrev pub pollin : ℕ
pollin = 0x41

abbrev pub pollout : ℕ
pollout = 0x104

pub gfifo_poll : ℕ → Dev → ℕ
gfifo_poll gsize dev =
    bit_or (bit_or 0 (if not (is_empty dev) then pollin else 0))
      (if not (is_full gsize dev) then pollout else 0)

-- The result and the new `f_pos`; nothing else in the driver reads it.
pub gfifo_llseek : ℕ → ℤ → ℤ → ℕ → ℤ × ℤ
gfifo_llseek gsize f_pos offset orig =
    let sum : ℤ = wrap_s64 (f_pos +ℤ offset) in
    if orig == 0
    then (if ltb_ℤ offset (pos 0)
        then (einval, f_pos)
        else if ltb gsize (to_u32 offset)
        then (einval, f_pos)
        else (pos (to_u32 offset), pos (to_u32 offset)))
    else if orig == 1
    then (if ltb_ℤ (pos gsize) sum
        then (einval, f_pos)
        else if ltb_ℤ sum (pos 0)
        then (einval, f_pos)
        else (sum, sum))
    else (einval, f_pos)

-- `helper` is fasync_helper(fd, filp, mode, list): its result, and the list with the file added for a
-- mode that is not 0, and without it for 0.
abbrev pub FasyncHelper : Type 0
FasyncHelper = ℤ → ℕ → Bool → List ℕ → ℤ × List ℕ

pub gfifo_fasync : FasyncHelper → ℤ → ℕ → Bool → Dev → ℤ × Dev
gfifo_fasync helper fd filp mode dev =
    let (ret, queue) = helper fd filp mode dev.async_queue in
    (ret, record dev { async_queue = queue })

pub gfifo_release : FasyncHelper → ℕ → Dev → ℤ × Dev
gfifo_release helper filp dev = (pos 0, (gfifo_fasync helper (negsuc 0) filp false dev).1)
