-- ===== src/Gfifo/Threads/Effects.antt =====
-- What `perform`, the part of a call after its loop, does to the device, the queue and the sleepers.
use linux_device_driver.Base.{
  ℕ, ◌-◌, ◌≡◌, ◌≢◌, refl, ap, sym, ◌∙◌, ◌⊎◌, inl, inr, Bool, true, false, some, List, ◌∷◌, ◌++◌,
  arith, take, drop, ℕ_discrete, splice, replicate, length, take-append-drop, take-splice_before,
  take-splice, length-splice, take-take, ◌+◌, ◌*◌, ◌≤◌, [], false,
}
use linux_device_driver.Base.Kernel.{Uaccess, IsUaccess, Memcpy, IsMemcpy, IsMemmove}
use linux_device_driver.Gfifo.{Dev, Event, Band, kill_fasync, gfifo_ioctl, mem_clear}
use linux_device_driver.Gfifo.Spec.{contents}
use linux_device_driver.Gfifo.Valid.{
  IsValid, read_count, write_count, read_body_moved, read_body_fault, write_body_moved,
  write_body_fault,
}
use linux_device_driver.Gfifo.Refine.{moved_rest, contents-memmove, take-contents}
use linux_device_driver.Gfifo.Keeps.{
  KeepsSize, read_body-IsValid, write_body-IsValid, ioctl-IsValid,
}
use linux_device_driver.Gfifo.Bytes.{clear-contents}
use linux_device_driver.Gfifo.Threads.{
  Effect, Call, reading, writing, clearing, blocked, woken_by, recording, perform,
}
use linux_device_driver.Gfifo.Threads.History.{replay, strip, strip-append}

-- The effect of a call that was let past its loop on the device `dev`.
pub record Performed (Buf : Type 0) (gsize : ℕ) (dev : Dev) (e : Effect) : Type 0 where
  pub valid : IsValid gsize e.dev
  -- the history grows by what the call did to the queue, unless memcpy had overlapping ranges
  pub legal : e.overlap ≡ false → replay e.done (contents dev) ≡ some (contents e.dev)
  -- whoever must wait before the call still must, or is woken
  pub wakes_up :
      (w : Call Buf)
      → blocked gsize dev w ≡ true
      → (blocked gsize e.dev w ≡ true) ⊎ (woken_by e.events w ≡ true)

pub IsMemmove-KeepsSize : (cpy : Memcpy) → IsMemmove cpy → KeepsSize cpy
IsMemmove-KeepsSize cpy copies a dst src n =
    ap length (copies a dst src n) ∙ length-splice a dst (take n (drop src a))

-- Whom the wake-ups of a transfer leave asleep.
module _ {Buf : Type 0} (gsize : ℕ) (dev : Dev) where
  wakes_writers :
      dev.cur_len ≢ 0
      → (es : List Event) (len : ℕ) (w : Call Buf) → blocked gsize dev w ≡ true
      → (blocked gsize (record dev { cur_len = len }) w ≡ true)
        ⊎ (woken_by (Event.wake_writers ∷ es) w ≡ true)
  wakes_writers ne es len (reading _ _ _) h = absurd (ground arith)
  wakes_writers ne es len (writing _ _ _) h = inr refl
  wakes_writers ne es len clearing h = cc

  wakes_readers :
      dev.cur_len ≢ gsize
      → (es : List Event) (len : ℕ) (w : Call Buf) → blocked gsize dev w ≡ true
      → (blocked gsize (record dev { cur_len = len }) w ≡ true)
        ⊎ (woken_by (Event.wake_readers ∷ es) w ≡ true)
  wakes_readers ne es len (reading _ _ _) h = inr refl
  wakes_readers ne es len (writing _ _ _) h = absurd (ground arith)
  wakes_readers ne es len clearing h = cc

  still_waits :
      (mem : List ℕ) (w : Call Buf)
      → blocked gsize dev w ≡ true
      → blocked gsize (record dev { mem = mem }) w ≡ true
  still_waits mem (reading _ _ _) h = h
  still_waits mem (writing _ _ _) h = h
  still_waits mem clearing h = h

module _ {Buf : Type 0} (ua : Uaccess Buf) (cpy : Memcpy) (copies : IsMemcpy cpy)
    (keeps : KeepsSize cpy) {gsize : ℕ} {dev : Dev} (v : IsValid gsize dev) (b : Bool) (buf : Buf)
    (size : ℕ) where
  rest_after :
      dev.cur_len ≤ 2 * read_count dev size
      → take
          (dev.cur_len - read_count dev size)
          (cpy dev.mem 0 (read_count dev size) (dev.cur_len - read_count dev size))
        ≡ drop (read_count dev size) (contents dev)
  rest_after half =
      ap (take (dev.cur_len - read_count dev size))
        (moved_rest cpy dev (read_count dev size) (inr (copies, half)) (omega arith))
      ∙ contents-memmove dev.mem (read_count dev size) dev.cur_len (omega arith) (omega arith)

  front_stripped :
      strip (take (read_count dev size) dev.mem) (contents dev)
      ≡ some (drop (read_count dev size) (contents dev))
  front_stripped =
      let n : ℕ = read_count dev size in
      ap (strip (take n dev.mem)) (
        sym (take-append-drop n (contents dev))
        ∙ ap (λ x. x ++ drop n (contents dev)) (take-contents v size))
      ∙ strip-append (take n dev.mem) (drop n (contents dev))

  pub reading-Performed :
      dev.cur_len ≢ 0 → Performed Buf gsize dev (perform ua cpy gsize (reading b buf size) dev)
  unfolding perform
  reading-Performed ne = elim (ℕ_discrete (ua.copy_to_user buf (take n dev.mem)).1 0) [
    | yes e ↦ record {
      valid = read_body-IsValid (recording ua) cpy keeps v (buf, []) size;
      legal =
          rw (read_body_moved (recording ua) cpy v (buf, []) size e)
            (λ apart. rw (given, front_stripped, rest_after (ground arith)) refl);
      wakes_up = rw (read_body_moved (recording ua) cpy v (buf, []) size e) (λ w h.
          wakes_writers gsize dev ne (kill_fasync dev.async_queue Band.poll_out) (dev.cur_len - n) w
            h);
    }
    | no e ↦ record {
      valid = read_body-IsValid (recording ua) cpy keeps v (buf, []) size;
      legal = rw (read_body_fault (recording ua) cpy v (buf, []) size e) (λ apart. refl);
      wakes_up = rw (read_body_fault (recording ua) cpy v (buf, []) size e) (λ w h. inl h);
    }
  ]
    where
      n : ℕ
      n = read_count dev size

      given : take n (take n dev.mem) ≡ take n dev.mem
      given = take-take n n dev.mem (omega arith)

  pub writing-Performed :
      IsUaccess ua
      → dev.cur_len ≢ gsize
      → Performed Buf gsize dev (perform ua cpy gsize (writing b buf size) dev)
  unfolding perform
  writing-Performed law ne =
      elim (ℕ_discrete (ua.copy_from_user buf (write_count gsize dev size)).1 0) [
        | yes e ↦ record {
          valid = write_body-IsValid ua v buf size;
          legal = rw (write_body_moved ua v buf size e) (λ apart. ap some (sym appended));
          wakes_up = rw (write_body_moved ua v buf size e) (λ w h.
              wakes_readers gsize dev ne (kill_fasync dev.async_queue Band.poll_in)
                (dev.cur_len + write_count gsize dev size) w h);
        }
        | no e ↦ record {
          valid = write_body-IsValid ua v buf size;
          legal = rw (write_body_fault ua v buf size e) (λ apart.
              ap some
                (sym (take-splice_before dev.mem dev.cur_len bytes dev.cur_len (omega arith))));
          wakes_up =
              rw (write_body_fault ua v buf size e)
                (λ w h. inl (still_waits gsize dev (splice dev.mem dev.cur_len bytes) w h));
        }
      ]
    where
      bytes : List ℕ
      bytes = (ua.copy_from_user buf (write_count gsize dev size)).0

      appended :
          take (dev.cur_len + write_count gsize dev size) (splice dev.mem dev.cur_len bytes)
          ≡ contents dev ++ bytes
      appended =
          ap (λ j. take (dev.cur_len + j) (splice dev.mem dev.cur_len bytes))
            (sym (law.filled buf (write_count gsize dev size)))
          ∙ take-splice dev.mem dev.cur_len bytes
              (omega (arith, law.filled buf (write_count gsize dev size)))

pub clearing-Performed :
    {Buf : Type 0} (ua : Uaccess Buf) (cpy : Memcpy) {gsize : ℕ} {dev : Dev}
    → IsValid gsize dev
    → Performed Buf gsize dev (perform ua cpy gsize clearing dev)
unfolding perform gfifo_ioctl
clearing-Performed ua cpy {gsize} {dev} v = record {
  valid = ioctl-IsValid v mem_clear;
  legal = λ apart. ap some (sym (clear-contents v).1);
  wakes_up = λ w h. inl (still_waits gsize dev (splice dev.mem 0 (replicate gsize 0)) w h);
}

-- Each call that was let past its loop keeps the device valid, adds a legal operation to the
-- history, and wakes every thread that need not wait any more.
pub perform-Performed :
    {Buf : Type 0} (ua : Uaccess Buf) (cpy : Memcpy) (law : IsUaccess ua) (copies : IsMemcpy cpy)
    (keeps : KeepsSize cpy) {gsize : ℕ} (c : Call Buf) {dev : Dev}
    → IsValid gsize dev
    → blocked gsize dev c ≡ false
    → Performed Buf gsize dev (perform ua cpy gsize c dev)
perform-Performed ua cpy law copies keeps (reading b buf size) v free =
    reading-Performed ua cpy copies keeps v b buf size (ground arith)
perform-Performed ua cpy law copies keeps (writing b buf size) v free =
    writing-Performed ua cpy copies keeps v b buf size law (ground arith)
perform-Performed ua cpy law copies keeps clearing v free = clearing-Performed ua cpy v
