-- ===== src/Gfifo/Valid.antt =====
-- The representation invariant of `struct gfifo_dev`, and the critical sections on a valid device.
use linux_device_driver.Base.{
  ℕ, ◌+◌, ◌-◌, ◌≤◌, ◌<◌, ◌^◌, min, ◌≡◌, ◌≢◌, List, [], ◌∷◌, arith, u32, add_u64, sub_u64, length,
  take, splice, ltb, if◌then◌else◌, pos,
}
use linux_device_driver.Base.Errno.{efault}
use linux_device_driver.Base.Kernel.{Uaccess, Memcpy}
use linux_device_driver.Gfifo.{Dev, Event, Band, kill_fasync, read_body, write_body}

pub record IsValid (gsize : ℕ) (dev : Dev) : Type 0 where
  pub fits : gsize < 2 ^ 32
  pub array : length dev.mem ≡ gsize
  pub filled : dev.cur_len ≤ gsize

-- The number of bytes that `read_body` and `write_body` move.
abbrev pub read_count : Dev → ℕ → ℕ
read_count dev size = min (u32 size) dev.cur_len

abbrev pub write_count : ℕ → Dev → ℕ → ℕ
write_count gsize dev size = min (u32 size) (gsize - dev.cur_len)

module _ {gsize : ℕ} {dev : Dev} (v : IsValid gsize dev) (size : ℕ) where
  pub read_count_lem :
      (if ltb dev.cur_len (u32 size) then u32 dev.cur_len else u32 size) ≡ read_count dev size
  read_count_lem = ground arith

  pub write_count_lem :
      (if ltb (sub_u64 gsize dev.cur_len) (u32 size)
        then u32 (sub_u64 gsize dev.cur_len)
        else u32 size)
      ≡ write_count gsize dev size
  write_count_lem = ground arith

module _ {Buf : Type 0} (ua : Uaccess Buf) (cpy : Memcpy) {gsize : ℕ} {dev : Dev}
    (v : IsValid gsize dev) (buf : Buf) (size : ℕ) where
  abbrev to_user : Buf × ℕ
  to_user = ua.copy_to_user buf (take (read_count dev size) dev.mem)

  pub read_body_moved :
      to_user.1 ≡ 0
      → read_body ua cpy dev buf size ≡ record {
        ret = pos (read_count dev size);
        dev = record dev {
          mem = cpy dev.mem 0 (read_count dev size) (dev.cur_len - read_count dev size);
          cur_len = dev.cur_len - read_count dev size;
        };
        buf = to_user.0;
        events = Event.wake_writers ∷ kill_fasync dev.async_queue Band.poll_out;
      }
  unfolding read_body
  read_body_moved h =
      let e : sub_u64 dev.cur_len (read_count dev size) ≡ dev.cur_len - read_count dev size =
        ground (arith, v) in
      rw (read_count_lem v size, e, h)

  pub read_body_fault :
      to_user.1 ≢ 0
      → read_body ua cpy dev buf size
        ≡ record { ret = efault; dev = dev; buf = to_user.0; events = [] }
  unfolding read_body
  read_body_fault h = rw (read_count_lem v size) (ground arith)

module _ {Buf : Type 0} (ua : Uaccess Buf) {gsize : ℕ} {dev : Dev} (v : IsValid gsize dev)
    (buf : Buf) (size : ℕ) where
  abbrev from_user : List ℕ × ℕ
  from_user = ua.copy_from_user buf (write_count gsize dev size)

  abbrev stored : Dev
  stored = record dev { mem = splice dev.mem dev.cur_len from_user.0 }

  pub write_body_moved :
      from_user.1 ≡ 0
      → write_body ua gsize dev buf size ≡ record {
        ret = pos (write_count gsize dev size);
        dev = record stored { cur_len = dev.cur_len + write_count gsize dev size };
        buf = buf;
        events = Event.wake_readers ∷ kill_fasync dev.async_queue Band.poll_in;
      }
  unfolding write_body
  write_body_moved h =
      let e : add_u64 dev.cur_len (write_count gsize dev size)
          ≡ dev.cur_len + write_count gsize dev size =
        ground (arith, v) in
      rw (write_count_lem v size, e, h)

  pub write_body_fault :
      from_user.1 ≢ 0
      → write_body ua gsize dev buf size
        ≡ record { ret = efault; dev = stored; buf = buf; events = [] }
  unfolding write_body
  write_body_fault h = rw (write_count_lem v size) (ground arith)
