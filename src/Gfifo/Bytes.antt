-- ===== src/Gfifo/Bytes.antt =====
-- Whole transfers: what goes in comes out, a fault moves nothing, MEM_CLEAR, and the call of memcpy.
use linux_device_driver.Base.{
  ℕ, ◌-◌, ◌+◌, ◌*◌, ◌≤◌, ◌<◌, ◌≡◌, ◌≢◌, refl, ap, sym, ◌∙◌, take-take, take-replicate, inl, inr,
  List, [], ◌++◌, arith, u32, length, take, drop, splice, replicate, pos, leb, ◌||◌, if◌then◌else◌,
  length-replicate, take-splice_before, take_of_length_le, drop_of_length_le, take-splice,
}
use linux_device_driver.Base.Errno.{efault}
use linux_device_driver.Base.Kernel.{Uaccess, IsUaccess, Memcpy, IsMemcpy, memmove}
use linux_device_driver.Gfifo.{Dev, read_body, write_body, gfifo_ioctl, mem_clear}
use linux_device_driver.Gfifo.Spec.{contents, front, enqueued, dequeued}
use linux_device_driver.Gfifo.Valid.{
  IsValid, read_count, write_count, read_body_moved, read_body_fault, write_body_fault,
}
use linux_device_driver.Gfifo.Refine.{
  MovesSafely, read_refines, write_refines, offered, length-contents, dequeued_lem, take-contents,
  enqueued_lem,
}
use linux_device_driver.Gfifo.Keeps.{write_body-IsValid}

module _ {Buf : Type 0} (ua : Uaccess Buf) {gsize : ℕ} {dev : Dev} (v : IsValid gsize dev)
    (buf : Buf) (size : ℕ) where
  -- A fault in the user's buffer makes `gfifo_read` return -EFAULT and leave the device as it was.
  read_fault :
      (cpy : Memcpy)
      → (ua.copy_to_user buf (front (contents dev) (u32 size))).1 ≢ 0
      → ((read_body ua cpy dev buf size).ret ≡ efault) × ((read_body ua cpy dev buf size).dev ≡ dev)
  read_fault cpy h =
      let same : front (contents dev) (u32 size) ≡ take (read_count dev size) dev.mem =
        rw (dequeued_lem v size) (take-contents v size) in
      rw (read_body_fault ua cpy v buf size (rw same at h)) (refl, refl)

  -- A fault in the user's buffer makes `gfifo_write` return -EFAULT and keep the bytes of the queue,
  -- though the array past them has been written.
  write_fault :
      (offered ua gsize dev buf size).1 ≢ 0
      → ((write_body ua gsize dev buf size).ret ≡ efault)
        × (contents (write_body ua gsize dev buf size).dev ≡ contents dev)
  write_fault h =
      let whole : offered ua gsize dev buf size
          ≡ ua.copy_from_user buf (write_count gsize dev size) =
        ap (ua.copy_from_user buf) (enqueued_lem v size) in
      let bytes : List ℕ = (ua.copy_from_user buf (write_count gsize dev size)).0 in
      rw (write_body_fault ua v buf size (rw whole at h))
        (refl, take-splice_before dev.mem dev.cur_len bytes dev.cur_len (omega arith))

  -- On a valid device, a fault in the user's buffer makes both handlers return -EFAULT:
  -- `gfifo_read` leaves the device as it was, `gfifo_write` keeps the bytes of the queue, though
  -- it has written the array past them.
  faults_keep :
      (cpy : Memcpy)
      → (ua.copy_to_user buf (front (contents dev) (u32 size))).1 ≢ 0
      → (offered ua gsize dev buf size).1 ≢ 0
      → ((read_body ua cpy dev buf size).ret ≡ efault)
        × ((read_body ua cpy dev buf size).dev ≡ dev)
        × ((write_body ua gsize dev buf size).ret ≡ efault)
        × (contents (write_body ua gsize dev buf size).dev ≡ contents dev)
  faults_keep cpy h k =
      let (r, d) = read_fault cpy h in let (r', c) = write_fault k in (r, d, r', c)

-- On a valid device MEM_CLEAR returns 0, zeroes the bytes and keeps their number: the queue still
-- holds as many, all 0.
pub clear-contents :
    {gsize : ℕ} {dev : Dev}
    → IsValid gsize dev
    → ((gfifo_ioctl gsize dev mem_clear).0 ≡ pos 0)
      × (contents (gfifo_ioctl gsize dev mem_clear).1 ≡ replicate (length (contents dev)) 0)
unfolding gfifo_ioctl
clear-contents {gsize} {dev} v = (refl, zeros)
  where
    blank : List ℕ
    blank = replicate gsize 0

    size : length blank ≡ gsize
    size = length-replicate gsize 0

    whole : take gsize (splice dev.mem 0 blank) ≡ blank
    whole =
        ap (λ j. take j (splice dev.mem 0 blank)) (omega (arith, size))
        ∙ take-splice dev.mem 0 blank (omega (arith, size))

    zeros : take dev.cur_len (splice dev.mem 0 blank) ≡ replicate (length (contents dev)) 0
    zeros =
        sym (take-take dev.cur_len gsize (splice dev.mem 0 blank) v.filled)
        ∙ ap (take dev.cur_len) whole
        ∙ take-replicate dev.cur_len gsize 0 v.filled
        ∙ ap (λ j. replicate j 0) (sym (length-contents v))

-- A read of at least as many bytes as are stored takes them all.
read_drains :
    {Buf : Type 0} (ua : Uaccess Buf) {gsize : ℕ} {dev : Dev} (cpy : Memcpy)
    → IsMemcpy cpy
    → IsValid gsize dev
    → (into : Buf) (n : ℕ) → length (contents dev) ≤ u32 n
    → (ua.copy_to_user into (contents dev)).1 ≡ 0
    → let got = read_body ua cpy dev into n in
      (got.ret ≡ pos (length (contents dev)))
      × (got.buf ≡ (ua.copy_to_user into (contents dev)).0)
      × (contents got.dev ≡ [])
read_drains ua {gsize} {dev} cpy law v into n room ok =
    let q : List ℕ = contents dev in
    let count : dequeued q (u32 n) ≡ length q = omega arith in
    let all : front q (u32 n) ≡ q = rw count (take_of_length_le (length q) q (omega arith)) in
    let copied : (ua.copy_to_user into (front q (u32 n))).1 ≡ 0 = rw all ok in
    let safe : MovesSafely cpy dev (read_count dev n) =
      inr (law, omega (arith, length-contents v)) in
    let (ret, buf, rest) = read_refines ua {gsize = gsize} {dev = dev} into n cpy v safe copied in
    (
      ret ∙ ap pos count,
      buf ∙ ap (λ b. (ua.copy_to_user into b).0) all,
      rest ∙ ap (λ k. drop k q) count ∙ drop_of_length_le (length q) q (omega arith),
    )

module _ {Buf : Type 0} (ua : Uaccess Buf) {gsize : ℕ} {dev : Dev} (from into : Buf)
    (size n : ℕ) where
  -- Into an empty valid device, and out again: if copy_from_user fills its destination and the
  -- user's buffers can be accessed, a read of at least as many bytes as `gfifo_write` took returns
  -- the same number, delivers exactly those bytes in order, and leaves the device empty. Nothing
  -- is asked of memcpy beyond the C standard.
  pub write_read_roundtrip :
      (cpy : Memcpy)
      → IsMemcpy cpy
      → IsUaccess ua
      → IsValid gsize dev
      → dev.cur_len ≡ 0
      → (offered ua gsize dev from size).1 ≡ 0
      → length (offered ua gsize dev from size).0 ≤ u32 n
      → (ua.copy_to_user into (offered ua gsize dev from size).0).1 ≡ 0
      → let sent = write_body ua gsize dev from size in
        let got = read_body ua cpy sent.dev into n in
        (got.ret ≡ sent.ret)
        × (got.buf ≡ (ua.copy_to_user into (offered ua gsize dev from size).0).0)
        × (contents got.dev ≡ [])
  write_read_roundtrip cpy law filled v none_yet sent_ok room got_ok =
      let bytes : List ℕ = (offered ua gsize dev from size).0 in
      let sent : Dev = (write_body ua gsize dev from size).dev in
      let (ret, appended) =
        write_refines ua {gsize = gsize} {dev = dev} from size filled v sent_ok in
      let before : contents dev ≡ [] = ap (λ k. take k dev.mem) none_yet in
      let held : contents sent ≡ bytes = appended ∙ ap (λ q. q ++ bytes) before in
      let count : length bytes ≡ enqueued gsize (contents dev) (u32 size) = filled.filled from _ in
      let (got, buf, rest) =
        read_drains ua cpy law (write_body-IsValid ua v from size) into n (rw held room)
          (rw held got_ok) in
      (
        got ∙ ap (λ q. pos (length q)) held ∙ ap pos count ∙ sym ret,
        buf ∙ ap (λ q. (ua.copy_to_user into q).0) held,
        rest,
      )

-- The memcpy of the standard with nothing done where the ranges overlap, which it leaves undefined.
pub idle_on_overlap : Memcpy
idle_on_overlap a dst src n =
    if leb (dst + n) src || leb (src + n) dst then memmove a dst src n else a

pub idle_on_overlap-IsMemcpy : IsMemcpy idle_on_overlap
unfolding idle_on_overlap
idle_on_overlap-IsMemcpy a dst src n (inl h) = ground arith
idle_on_overlap-IsMemcpy a dst src n (inr h) = ground arith

-- The C standard does not make `gfifo_read` right: there is a memcpy that does what the standard
-- says, with which every successful read from a valid device of fewer than half of the stored
-- bytes leaves the queue beginning with the very bytes that it has just delivered.
overlap_repeats :
    {Buf : Type 0} (ua : Uaccess Buf) {gsize : ℕ} {dev : Dev}
    → IsValid gsize dev
    → (buf : Buf) (size : ℕ) → 2 * read_count dev size < dev.cur_len
    → (ua.copy_to_user buf (front (contents dev) (u32 size))).1 ≡ 0
    → IsMemcpy idle_on_overlap
      × (front (contents (read_body ua idle_on_overlap dev buf size).dev) (u32 size)
          ≡ front (contents dev) (u32 size))
unfolding idle_on_overlap
overlap_repeats ua {gsize} {dev} v buf size overlap ok =
    let n : ℕ = read_count dev size in
    let after : Dev = record dev { cur_len = dev.cur_len - n } in
    let v' : IsValid gsize after = omega arith in
    let bytes : front (contents dev) (u32 size) ≡ take n dev.mem =
      rw (dequeued_lem v size) (take-contents v size) in
    let copied : (ua.copy_to_user buf (take n dev.mem)).1 ≡ 0 = rw bytes at ok in
    let still : idle_on_overlap dev.mem 0 n (dev.cur_len - n) ≡ dev.mem = ground arith in
    let same : read_count after size ≡ n = omega arith in
    let again : front (contents after) (u32 size) ≡ take n dev.mem =
      rw (dequeued_lem v' size) (take-contents v' size ∙ ap (λ k. take k dev.mem) same) in
    (
      idle_on_overlap-IsMemcpy,
      rw (read_body_moved ua idle_on_overlap v buf size copied, still) (again ∙ sym bytes),
    )
