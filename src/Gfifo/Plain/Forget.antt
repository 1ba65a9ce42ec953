-- ===== src/Gfifo/Plain/Forget.antt =====
-- gfifo_platform/gfifo_platform_driver.c against gfifo/gfifo.c and gfifo_nonblock/gfifo_nonblock.c:
-- the driver with SIGIO is the driver without it, up to the signals.
use linux_device_driver.Base.{
  ℕ, ◌≡◌, refl, ap, Bool, true, false, Option, none, some, List, [], ◌∷◌, if◌then◌else◌, arith, pos,
  take, splice, u32, ltb, ◌==◌, sub_u64, add_u64,
}
use linux_device_driver.Base.Kernel.{Uaccess, Memcpy}
use linux_device_driver.Base.Errno.{eagain, efault, erestartsys}
use linux_device_driver.Gfifo.{
  Dev, Event, wake_readers, wake_writers, sigio, Band, Outcome, kill_fasync, read_body, write_body,
  Wake, Wait, ready, failed, asleep, wait_while, finish, is_empty, is_full, gfifo_read, gfifo_write,
  gfifo_ioctl, gfifo_poll,
}
use linux_device_driver.Gfifo.Plain.{
  Queue, Answer, stop, read_section, write_section, wait_then, drained, stuffed, read_call,
  write_call, ioctl_call, poll_call,
}

-- The device without the list of those that SIGIO goes to.
abbrev pub forget : Dev → Queue
forget dev = record { mem = dev.mem; cur_len = dev.cur_len }

-- What is set off, without the signals.
abbrev pub quiet : List Event → List Event
quiet [] = []
quiet (wake_readers ∷ es) = wake_readers ∷ quiet es
quiet (wake_writers ∷ es) = wake_writers ∷ quiet es
quiet (sigio f b ∷ es) = quiet es

abbrev pub forget_outcome : {Buf : Type 0} → Outcome Buf → Answer Buf
forget_outcome o = record {
  ret = o.ret;
  queue = forget o.dev;
  buf = o.buf;
  events = quiet o.events;
}

abbrev pub forget_result : {Buf : Type 0} → Option (Outcome Buf) → Option (Answer Buf)
forget_result none = none
forget_result (some o) = some (forget_outcome o)

abbrev pub forget_wakes : List Wake → List (Bool × Queue)
forget_wakes [] = []
forget_wakes (w ∷ ws) = (w.signal, forget w.dev) ∷ forget_wakes ws

quiet-kill_fasync : (q : List ℕ) (b : Band) → quiet (kill_fasync q b) ≡ []
quiet-kill_fasync [] b = refl
quiet-kill_fasync (f ∷ q) b = quiet-kill_fasync q b

-- A section that succeeds or fails, by `ok`.
by_success :
    {Buf : Type 0} (ok : Bool) (count : ℕ) (moved kept : Dev) (buf : Buf) (es es' : List Event)
    → quiet es ≡ es'
    → forget_outcome (
        if ok
        then record { ret = pos count; dev = moved; buf = buf; events = es }
        else record { ret = efault; dev = kept; buf = buf; events = [] })
      ≡ (if ok
          then record { ret = pos count; queue = forget moved; buf = buf; events = es' }
          else record { ret = efault; queue = forget kept; buf = buf; events = [] })
by_success true count moved kept buf es es' h =
    ap (λ q. record { ret = pos count; queue = forget moved; buf = buf; events = q }) h
by_success false count moved kept buf es es' h = refl

module _ {Buf : Type 0} (ua : Uaccess Buf) where
  read_agrees :
      (cpy : Memcpy) (dev : Dev) (buf : Buf) (size : ℕ)
      → forget_outcome (read_body ua cpy dev buf size) ≡ read_section ua cpy (forget dev) buf size
  unfolding read_body read_section
  read_agrees cpy dev buf size =
      let count : ℕ = if ltb dev.cur_len (u32 size) then u32 dev.cur_len else u32 size in
      let answer : Buf × ℕ = ua.copy_to_user buf (take count dev.mem) in
      let left : ℕ = sub_u64 dev.cur_len count in
      by_success (answer.1 == 0) count
        (record dev { mem = cpy dev.mem 0 count left; cur_len = left }) dev answer.0
        (wake_writers ∷ kill_fasync dev.async_queue Band.poll_out) (wake_writers ∷ [])
        (ap (λ es. wake_writers ∷ es) (quiet-kill_fasync dev.async_queue Band.poll_out))

  write_agrees :
      (gsize : ℕ) (dev : Dev) (buf : Buf) (size : ℕ)
      → forget_outcome (write_body ua gsize dev buf size)
        ≡ write_section ua gsize (forget dev) buf size
  unfolding write_body write_section
  write_agrees gsize dev buf size =
      let room : ℕ = sub_u64 gsize dev.cur_len in
      let count : ℕ = if ltb room (u32 size) then u32 room else u32 size in
      let answer : List ℕ × ℕ = ua.copy_from_user buf count in
      let stored : Dev = record dev { mem = splice dev.mem dev.cur_len answer.0 } in
      by_success (answer.1 == 0) count (record stored { cur_len = add_u64 dev.cur_len count })
        stored buf (wake_readers ∷ kill_fasync dev.async_queue Band.poll_in) (wake_readers ∷ [])
        (ap (λ es. wake_readers ∷ es) (quiet-kill_fasync dev.async_queue Band.poll_in))

module _ {Buf : Type 0} (body : Dev → Outcome Buf) (section : Queue → Buf → Answer Buf) (buf : Buf)
    (agree : (d : Dev) → forget_outcome (body d) ≡ section (forget d) buf) where
  -- One round of the loop, for the results of its three tests.
  round :
      (full nonblock signal : Bool) (dev dev' : Dev) (later : Wait) (again : Option (Answer Buf))
      → forget_result (finish later buf body) ≡ again
      → forget_result (
          finish
            (if full
              then (if nonblock
                  then failed eagain dev
                  else (if signal then failed erestartsys dev' else later))
              else ready dev)
            buf
            body)
        ≡ (if full
            then (if nonblock
                then stop eagain (forget dev) buf
                else (if signal then stop erestartsys (forget dev') buf else again))
            else some (section (forget dev) buf))
  round false nonblock signal dev dev' later again h = ap some (agree dev)
  round true true signal dev dev' later again h = refl
  round true false true dev dev' later again h = refl
  round true false false dev dev' later again h = h

  module _ (blocked : Dev → Bool) (blocked' : Queue → Bool)
      (same : (d : Dev) → blocked d ≡ blocked' (forget d)) (nonblock : Bool) where
    wait_agrees :
        (ws : List Wake) (dev : Dev)
        → forget_result (finish (wait_while blocked nonblock dev ws) buf body)
          ≡ wait_then blocked' nonblock section (forget_wakes ws) (forget dev) buf
    unfolding wait_while wait_then
    wait_agrees [] dev =
        rw (same dev) (round (blocked' (forget dev)) nonblock false dev dev (asleep dev) none refl)
    wait_agrees (w ∷ ws) dev = rw (same dev) (
        round (blocked' (forget dev)) nonblock w.signal dev w.dev
          (wait_while blocked nonblock w.dev ws)
          (wait_then blocked' nonblock section (forget_wakes ws) (forget w.dev) buf)
          (wait_agrees ws w.dev))

-- The calls of the driver with SIGIO and of the driver without it, for any device and any wake-ups:
-- read, write, the ioctl and poll return the same, and leave the same array, length and user's
-- buffer; one is still asleep exactly if the other is; what they set off differs by signals only.
pub calls_agree :
    {Buf : Type 0} (ua : Uaccess Buf) (cpy : Memcpy) (gsize : ℕ) (nonblock : Bool) (ws : List Wake)
    (dev : Dev) (buf : Buf) (size cmd : ℕ)
    → (forget_result (gfifo_read ua cpy nonblock ws dev buf size)
        ≡ read_call ua cpy nonblock (forget_wakes ws) (forget dev) buf size)
      × (forget_result (gfifo_write ua gsize nonblock ws dev buf size)
          ≡ write_call ua gsize nonblock (forget_wakes ws) (forget dev) buf size)
      × (((gfifo_ioctl gsize dev cmd).0, forget (gfifo_ioctl gsize dev cmd).1)
          ≡ ioctl_call gsize (forget dev) cmd)
      × (gfifo_poll gsize dev ≡ poll_call gsize (forget dev))
unfolding gfifo_read gfifo_write gfifo_ioctl gfifo_poll read_call write_call ioctl_call poll_call
calls_agree ua cpy gsize nonblock ws dev buf size cmd = (
  wait_agrees (λ d. read_body ua cpy d buf size) (λ q b. read_section ua cpy q b size) buf
      (λ d. read_agrees ua cpy d buf size) is_empty drained (λ d. refl) nonblock ws dev,
  wait_agrees (λ d. write_body ua gsize d buf size) (λ q b. write_section ua gsize q b size) buf
      (λ d. write_agrees ua gsize d buf size) (is_full gsize) (stuffed gsize) (λ d. refl) nonblock
      ws dev,
  ground arith,
  refl,
)
