-- ===== src/Gfifo/Refine.antt =====
-- The bodies of `gfifo_read` and `gfifo_write` against the bounded queue of `Gfifo.Spec`.
use linux_device_driver.Base.{
  ℕ, ◌-◌, ◌*◌, ◌≤◌, ◌≡◌, refl, ap, ◌∙◌, ◌⊎◌, inl, inr, List, ◌++◌, arith, u32, length, take, drop,
  splice, length-take, length-drop, take-splice, take-take, take-drop, pos,
}
use linux_device_driver.Base.Kernel.{Uaccess, IsUaccess, Memcpy, IsMemcpy, IsMemmove, memmove}
use linux_device_driver.Gfifo.{Dev, read_body, write_body}
use linux_device_driver.Gfifo.Spec.{contents, dequeued, enqueued, front}
use linux_device_driver.Gfifo.Valid.{
  IsValid, read_count, write_count, read_body_moved, write_body_moved,
}

-- The call of memcpy in `gfifo_read` is one whose result is known: either the `count` bytes that
-- leave are at least half of those stored, and then the ranges are disjoint, or the memcpy at hand
-- copies overlapping ranges as memmove does.
abbrev pub MovesSafely : Memcpy → Dev → ℕ → Type 0
MovesSafely cpy dev count = IsMemmove cpy ⊎ (IsMemcpy cpy × (dev.cur_len ≤ 2 * count))

pub moved_rest :
    (cpy : Memcpy) (dev : Dev) (n : ℕ)
    → MovesSafely cpy dev n
    → n ≤ dev.cur_len
    → cpy dev.mem 0 n (dev.cur_len - n) ≡ memmove dev.mem 0 n (dev.cur_len - n)
moved_rest cpy dev n (inl all) h = all dev.mem 0 n (dev.cur_len - n)
moved_rest cpy dev n (inr (law, half)) h = law dev.mem 0 n (dev.cur_len - n) (inl (omega arith))

-- memmove of the bytes that stay leaves the queue without its first `n`.
pub contents-memmove :
    (mem : List ℕ) (n len : ℕ)
    → n ≤ len
    → len ≤ length mem
    → take (len - n) (memmove mem 0 n (len - n)) ≡ drop n (take len mem)
contents-memmove mem n len h k =
    ap (λ j. take j (splice mem 0 rest)) (omega (arith, size))
    ∙ take-splice mem 0 rest (omega (arith, size))
    ∙ take-drop n len (len - n) mem (omega arith)
  where
    rest : List ℕ
    rest = take (len - n) (drop n mem)

    size : length rest ≡ len - n
    size = omega (arith, length-take (len - n) (drop n mem), length-drop n mem)

module _ {gsize : ℕ} {dev : Dev} (v : IsValid gsize dev) where
  pub length-contents : length (contents dev) ≡ dev.cur_len
  length-contents = omega (arith, length-take dev.cur_len dev.mem)

  pub dequeued_lem : (size : ℕ) → dequeued (contents dev) (u32 size) ≡ read_count dev size
  dequeued_lem size = omega (arith, length-contents)

  pub enqueued_lem :
      (size : ℕ) → enqueued gsize (contents dev) (u32 size) ≡ write_count gsize dev size
  enqueued_lem size = omega (arith, length-contents)

  pub take-contents :
      (size : ℕ) → take (read_count dev size) (contents dev) ≡ take (read_count dev size) dev.mem
  take-contents size = take-take (read_count dev size) dev.cur_len dev.mem (omega arith)

-- What copy_from_user makes of the bytes that `gfifo_write` asks the user's buffer for.
abbrev pub offered : {Buf : Type 0} → Uaccess Buf → ℕ → Dev → Buf → ℕ → List ℕ × ℕ
offered ua gsize dev buf size = ua.copy_from_user buf (enqueued gsize (contents dev) (u32 size))

module _ {Buf : Type 0} (ua : Uaccess Buf) {gsize : ℕ} {dev : Dev} (buf : Buf) (size : ℕ) where
  -- On a valid device, if the user's buffer takes the bytes and the call of memcpy has a known
  -- result, `gfifo_read` delivers the oldest bytes of the queue, as many as were asked for and are
  -- there, returns their number and takes exactly them off the queue.
  pub read_refines :
      (cpy : Memcpy)
      → IsValid gsize dev
      → MovesSafely cpy dev (read_count dev size)
      → (ua.copy_to_user buf (front (contents dev) (u32 size))).1 ≡ 0
      → let o = read_body ua cpy dev buf size in
        (o.ret ≡ pos (dequeued (contents dev) (u32 size)))
        × (o.buf ≡ (ua.copy_to_user buf (front (contents dev) (u32 size))).0)
        × (contents o.dev ≡ drop (dequeued (contents dev) (u32 size)) (contents dev))
  read_refines cpy v safe ok =
      let n : ℕ = read_count dev size in
      let same : dequeued (contents dev) (u32 size) ≡ n = dequeued_lem v size in
      let bytes : front (contents dev) (u32 size) ≡ take n dev.mem =
        rw same (take-contents v size) in
      let copied : (ua.copy_to_user buf (take n dev.mem)).1 ≡ 0 = rw bytes at ok in
      rw (read_body_moved ua cpy v buf size copied, bytes, same)
        (
          refl,
          refl,
          ap (take (dev.cur_len - n)) (moved_rest cpy dev n safe (omega arith))
              ∙ contents-memmove dev.mem n dev.cur_len (omega arith) (omega arith),
        )

  -- On a valid device, if copy_from_user fills its destination and the user's buffer can be read,
  -- `gfifo_write` appends the first bytes of the buffer to the queue, as many as were offered and
  -- have room, and returns their number.
  pub write_refines :
      IsUaccess ua
      → IsValid gsize dev
      → (offered ua gsize dev buf size).1 ≡ 0
      → let o = write_body ua gsize dev buf size in
        (o.ret ≡ pos (enqueued gsize (contents dev) (u32 size)))
        × (contents o.dev ≡ contents dev ++ (offered ua gsize dev buf size).0)
  write_refines law v ok =
      let n : ℕ = write_count gsize dev size in
      let same : enqueued gsize (contents dev) (u32 size) ≡ n = enqueued_lem v size in
      let bytes : List ℕ = (ua.copy_from_user buf n).0 in
      let long : length bytes ≡ n = law.filled buf n in
      let whole : offered ua gsize dev buf size ≡ ua.copy_from_user buf n =
        ap (ua.copy_from_user buf) same in
      let copied : (ua.copy_from_user buf n).1 ≡ 0 = rw whole at ok in
      rw (write_body_moved ua v buf size copied, whole, same)
        (
          refl,
          ap (λ j. take j (splice dev.mem dev.cur_len bytes)) (omega arith)
              ∙ take-splice dev.mem dev.cur_len bytes (omega arith),
        )
