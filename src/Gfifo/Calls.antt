-- ===== src/Gfifo/Calls.antt =====
-- gfifo_platform/gfifo_platform_driver.c: whole calls of `gfifo_read` and `gfifo_write`, with their
-- waiting loops.
use linux_device_driver.Base.{
  ℕ, ◌≡◌, ◌≢◌, ◌≤◌, refl, ap, Bool, Option, none, some, List, [], ◌∷◌, ◌++◌, length, length-append,
  drop, arith, u32, pos,
}
use linux_device_driver.Base.Kernel.{Uaccess, IsUaccess, Memcpy, IsMemcpy}
use linux_device_driver.Gfifo.{
  Dev, Outcome, Wake, Wait, ready, failed, asleep, wait_while, finish, is_empty, is_full, read_body,
  write_body, gfifo_read, gfifo_write, gfifo_ioctl,
}
use linux_device_driver.Gfifo.Spec.{contents, front, enqueued, dequeued}
use linux_device_driver.Gfifo.Valid.{IsValid, read_count}
use linux_device_driver.Gfifo.Refine.{
  MovesSafely, read_refines, write_refines, offered, length-contents,
}
use linux_device_driver.Gfifo.Keeps.{
  KeepsSize, read_body-IsValid, write_body-IsValid, ioctl-IsValid,
}
use linux_device_driver.Gfifo.Bytes.{write_read_roundtrip}
use linux_device_driver.Gfifo.Waiting.{wait_ready}

module _ {Buf : Type 0} (ua : Uaccess Buf) where
  reads_at_once :
      (cpy : Memcpy) (nonblock : Bool) (ws : List Wake) (dev : Dev) (buf : Buf) (size : ℕ)
      → dev.cur_len ≢ 0
      → gfifo_read ua cpy nonblock ws dev buf size ≡ some (read_body ua cpy dev buf size)
  unfolding gfifo_read
  reads_at_once cpy nonblock ws dev buf size ne =
      rw (wait_ready is_empty nonblock dev ws (ground arith)) refl

  writes_at_once :
      (gsize : ℕ) (nonblock : Bool) (ws : List Wake) (dev : Dev) (buf : Buf) (size : ℕ)
      → dev.cur_len ≢ gsize
      → gfifo_write ua gsize nonblock ws dev buf size ≡ some (write_body ua gsize dev buf size)
  unfolding gfifo_write
  writes_at_once gsize nonblock ws dev buf size ne =
      rw (wait_ready (is_full gsize) nonblock dev ws (ground arith)) refl

  -- On a valid device that holds bytes, if the user's buffer takes the bytes and the call of memcpy
  -- has a known result, `gfifo_read` returns without sleeping: it delivers the oldest bytes of the
  -- queue, as many as were asked for and are there, returns their number and takes exactly them off
  -- the queue.
  pub reads_queue :
      (cpy : Memcpy) (nonblock : Bool) (ws : List Wake) {gsize : ℕ} {dev : Dev} (buf : Buf)
      (size : ℕ)
      → IsValid gsize dev
      → dev.cur_len ≢ 0
      → MovesSafely cpy dev (read_count dev size)
      → (ua.copy_to_user buf (front (contents dev) (u32 size))).1 ≡ 0
      → (o : Outcome Buf) × (gfifo_read ua cpy nonblock ws dev buf size ≡ some o)
        × (o.ret ≡ pos (dequeued (contents dev) (u32 size)))
        × (o.buf ≡ (ua.copy_to_user buf (front (contents dev) (u32 size))).0)
        × (contents o.dev ≡ drop (dequeued (contents dev) (u32 size)) (contents dev))
  reads_queue cpy nonblock ws {gsize} {dev} buf size v ne safe ok =
      let (ret, got, rest) = read_refines ua {gsize = gsize} {dev = dev} buf size cpy v safe ok in
      (read_body ua cpy dev buf size, reads_at_once cpy nonblock ws dev buf size ne, ret, got, rest)

  -- On a valid device that is not full, if copy_from_user fills its destination and the user's buffer
  -- can be read, `gfifo_write` returns without sleeping: it appends the first bytes of the buffer to
  -- the queue, as many as were offered and have room, and returns their number.
  pub writes_queue :
      (nonblock : Bool) (ws : List Wake) {gsize : ℕ} {dev : Dev} (buf : Buf) (size : ℕ)
      → IsUaccess ua
      → IsValid gsize dev
      → dev.cur_len ≢ gsize
      → (offered ua gsize dev buf size).1 ≡ 0
      → (o : Outcome Buf) × (gfifo_write ua gsize nonblock ws dev buf size ≡ some o)
        × (o.ret ≡ pos (enqueued gsize (contents dev) (u32 size)))
        × (contents o.dev ≡ contents dev ++ (offered ua gsize dev buf size).0)
  writes_queue nonblock ws {gsize} {dev} buf size law v ne ok =
      let (ret, grown) = write_refines ua {gsize = gsize} {dev = dev} buf size law v ok in
      (
        write_body ua gsize dev buf size,
        writes_at_once gsize nonblock ws dev buf size ne,
        ret,
        grown,
      )

  -- A write of at least one byte into an empty valid device with room, and a read of at least as many
  -- bytes as the write took: if copy_from_user fills its destination and the user's buffers can be
  -- accessed, neither call sleeps, the read returns the number that the write has returned, delivers
  -- exactly those bytes in order, and leaves the device empty. Nothing is asked of memcpy beyond the
  -- C standard.
  pub write_then_read :
      (cpy : Memcpy) (nonblock nonblock' : Bool) (ws vs : List Wake) {gsize : ℕ} {dev : Dev}
      (from into : Buf) (size n : ℕ)
      → IsMemcpy cpy
      → IsUaccess ua
      → IsValid gsize dev
      → dev.cur_len ≡ 0
      → gsize ≢ 0
      → u32 size ≢ 0
      → (offered ua gsize dev from size).1 ≡ 0
      → length (offered ua gsize dev from size).0 ≤ u32 n
      → (ua.copy_to_user into (offered ua gsize dev from size).0).1 ≡ 0
      → (sent : Outcome Buf) × ((got : Outcome Buf) × (gfifo_write ua gsize nonblock ws dev from
              size
            ≡ some sent)
          × (gfifo_read ua cpy nonblock' vs sent.dev into n ≡ some got)
          × (got.ret ≡ sent.ret)
          × (got.buf ≡ (ua.copy_to_user into (offered ua gsize dev from size).0).0)
          × (contents got.dev ≡ []))
  write_then_read cpy nonblock nonblock' ws vs {gsize} {dev} from into size n law filled v none_yet
        room some_bytes sent_ok fits got_ok =
      let sent : Outcome Buf = write_body ua gsize dev from size in
      let (ret, grown) = write_refines ua {gsize = gsize} {dev = dev} from size filled v sent_ok in
      let (back, bytes, rest) =
        write_read_roundtrip ua {gsize = gsize} {dev = dev} from into size n cpy law filled v
          none_yet sent_ok fits got_ok in
      let held : length (contents sent.dev) ≢ 0 = omega (
        arith,
        ap length grown,
        length-append (contents dev) (offered ua gsize dev from size).0,
        filled.filled from (enqueued gsize (contents dev) (u32 size)),
        length-contents v,
      ) in
      (
        sent,
        (
          read_body ua cpy sent.dev into n,
          writes_at_once gsize nonblock ws dev from size (omega arith),
          reads_at_once cpy nonblock' vs sent.dev into n
              (omega (arith, held, length-contents (write_body-IsValid ua v from size))),
          back,
          bytes,
          rest,
        ),
      )

  -- Every wake-up finds a valid device.
  abbrev pub AllValid : ℕ → List Wake → Type 0
  AllValid gsize [] = Unit
  AllValid gsize (w ∷ ws) = IsValid gsize w.dev × AllValid gsize ws

  abbrev pub Waited : ℕ → Wait → Type 0
  Waited gsize (ready d) = IsValid gsize d
  Waited gsize (failed e d) = IsValid gsize d
  Waited gsize (asleep d) = IsValid gsize d

  -- A call that has returned has left a valid device.
  abbrev pub Left : ℕ → Option (Outcome Buf) → Type 0
  Left gsize none = Unit
  Left gsize (some o) = IsValid gsize o.dev

  waited :
      (gsize : ℕ) (blocked : Dev → Bool) (nonblock : Bool) (dev : Dev) (ws : List Wake)
      → IsValid gsize dev
      → AllValid gsize ws
      → Waited gsize (wait_while blocked nonblock dev ws)
  unfolding wait_while
  waited gsize blocked nonblock dev [] v all = ground arith
  waited gsize blocked nonblock dev (w ∷ ws) v all =
      let again = waited gsize blocked nonblock w.dev ws all.0 all.1 in ground arith

  left :
      (gsize : ℕ) (w : Wait) (buf : Buf) (body : Dev → Outcome Buf)
      → ((d : Dev) → IsValid gsize d → IsValid gsize (body d).dev)
      → Waited gsize w
      → Left gsize (finish w buf body)
  left gsize (ready d) buf body keep v = keep d v
  left gsize (failed e d) buf body keep v = v
  left gsize (asleep d) buf body keep v = tt

  -- If memcpy keeps the size of the array, `gfifo_read`, `gfifo_write` and `gfifo_ioctl` leave a valid
  -- device from a valid one on every branch: where the section runs, where the user's buffer faults,
  -- where -EAGAIN or -ERESTARTSYS comes back, and after any number of wake-ups that find a valid
  -- device.
  pub calls_keep :
      (cpy : Memcpy)
      → KeepsSize cpy
      → (gsize : ℕ) (nonblock : Bool) (ws : List Wake) (dev : Dev) (into from : Buf) (n m cmd : ℕ)
      → IsValid gsize dev
      → AllValid gsize ws
      → Left gsize (gfifo_read ua cpy nonblock ws dev into n)
        × Left gsize (gfifo_write ua gsize nonblock ws dev from m)
        × IsValid gsize (gfifo_ioctl gsize dev cmd).1
  unfolding gfifo_read gfifo_write
  calls_keep cpy keep gsize nonblock ws dev into from n m cmd v all = (
    left gsize (wait_while is_empty nonblock dev ws) into (λ d. read_body ua cpy d into n)
        (λ d k. read_body-IsValid ua cpy keep k into n)
        (waited gsize is_empty nonblock dev ws v all),
    left gsize (wait_while (is_full gsize) nonblock dev ws) from (λ d. write_body ua gsize d from m)
        (λ d k. write_body-IsValid ua k from m)
        (waited gsize (is_full gsize) nonblock dev ws v all),
    ioctl-IsValid v cmd,
  )
