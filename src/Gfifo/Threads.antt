-- ===== src/Gfifo/Threads.antt =====
-- gfifo_platform/gfifo_platform_driver.c under concurrency: any number of threads in `gfifo_read`,
-- `gfifo_write` and `gfifo_ioctl` on one device, interleaved at the mutex and at `schedule`.
pub mod History
pub mod Effects
pub mod Invariant
pub mod Safety
mod Tests
use linux_device_driver.Base.{
  ℕ, ◌≡◌, Bool, true, false, Option, none, some, List, [], ◌∷◌, ◌++◌, ◌==◌, ◌||◌, if◌then◌else◌,
  take, replicate, ℤ, pos, negsuc, ltb, ◌-◌,
}
use linux_device_driver.Base.Kernel.{Uaccess, Memcpy}
use linux_device_driver.Gfifo.{
  Dev, Event, Outcome, is_empty, is_full, read_body, write_body, gfifo_ioctl, mem_clear,
}

-- One call of a handler, with its arguments.
pub data Call (Buf : Type 0) : Type 0 where
  reading : (nonblock : Bool) (buf : Buf) (size : ℕ) → Call Buf
  writing : (nonblock : Bool) (buf : Buf) (size : ℕ) → Call Buf
  clearing : Call Buf

-- Where a thread stands in its call.
pub data Pc (Buf : Type 0) : Type 0 where
  idle : Pc Buf
  locking : Call Buf → Pc Buf  -- at the first mutex_lock
  testing : Call Buf → Pc Buf  -- at the test of the loop, holding the mutex
  sleeping : Call Buf → Pc Buf  -- TASK_INTERRUPTIBLE on its wait queue, mutex released
  woken : Call Buf → Pc Buf  -- runnable again, before signal_pending
  moving : Call Buf → Pc Buf  -- past the loop, holding the mutex

-- What a completed call did to the queue, in the order of the critical sections.
pub data Op : Type 0 where
  put : List ℕ → Op
  got : List ℕ → Op
  wiped : Op

pub record System (Buf : Type 0) : Type 0 where
  pub dev : Dev
  pub owner : Option ℕ  -- the holder of `dev->mutex`
  pub pc : ℕ → Pc Buf
  pub log : List Op
  pub overlapped : Bool  -- whether a memcpy has had overlapping ranges

module _ {Buf : Type 0} where
  abbrev pub update : (ℕ → Pc Buf) → ℕ → Pc Buf → ℕ → Pc Buf
  update f i p j = if i == j then p else f j

  -- `dev->cur_len == 0` for a reader, `dev->cur_len == GFIFO_SIZE` for a writer.
  abbrev pub blocked : ℕ → Dev → Call Buf → Bool
  blocked gsize dev (reading _ _ _) = is_empty dev
  blocked gsize dev (writing _ _ _) = is_full gsize dev
  blocked gsize dev clearing = false

  abbrev pub is_nonblock : Call Buf → Bool
  is_nonblock (reading b _ _) = b
  is_nonblock (writing b _ _) = b
  is_nonblock clearing = false

  -- wake_up_interruptible makes every sleeper of its queue runnable.
  abbrev pub wakes : Event → Call Buf → Bool
  wakes Event.wake_readers (reading _ _ _) = true
  wakes Event.wake_writers (writing _ _ _) = true
  wakes _ _ = false

  abbrev pub woken_by : List Event → Call Buf → Bool
  woken_by [] c = false
  woken_by (e ∷ es) c = wakes e c || woken_by es c

  abbrev pub wake : List Event → Pc Buf → Pc Buf
  wake es (sleeping c) = if woken_by es c then woken c else sleeping c
  wake es p = p

-- The device as `kzalloc` leaves it, and no thread in a handler.
abbrev pub init : {Buf : Type 0} → ℕ → System Buf
init gsize = record {
  dev = record { mem = replicate gsize 0; cur_len = 0; async_queue = [] };
  owner = none;
  pc = λ _. idle;
  log = [];
  overlapped = false;
}

-- What the part of a call after its loop leaves: the device, what it set off, what it did.
pub record Effect : Type 0 where
  pub dev : Dev
  pub events : List Event
  pub done : List Op
  pub overlap : Bool

-- What a call did, by the number of bytes that it returns.
abbrev pub done_if : ℤ → (ℕ → Op) → List Op
done_if (pos n) op = op n ∷ []
done_if (negsuc _) op = []

-- memcpy(mem, mem + n, cur_len - n) overlaps if fewer bytes leave than stay.
abbrev pub overlaps : ℤ → ℕ → Bool
overlaps (pos n) len = ltb n (len - n)
overlaps (negsuc _) len = false

-- The user's memory with a record of the bytes that copy_to_user was last given.
abbrev pub recording : {Buf : Type 0} → Uaccess Buf → Uaccess (Buf × List ℕ)
recording ua = record {
  copy_to_user = λ b xs. let (buf, left) = ua.copy_to_user b.0 xs in ((buf, xs), left);
  copy_from_user = λ b n. ua.copy_from_user b.0 n;
}

module _ {Buf : Type 0} (ua : Uaccess Buf) (cpy : Memcpy) (gsize : ℕ) where
  pub perform : Call Buf → Dev → Effect
  perform (reading _ buf size) dev =
      let o = read_body (recording ua) cpy dev (buf, []) size in
      record {
        dev = o.dev;
        events = o.events;
        done = done_if o.ret (λ n. got (take n o.buf.1));
        overlap = overlaps o.ret dev.cur_len;
      }
  perform (writing _ buf size) dev =
      let o = write_body ua gsize dev buf size in
      record {
        dev = o.dev;
        events = o.events;
        done = done_if o.ret (λ n. put (ua.copy_from_user buf n).0);
        overlap = false;
      }
  perform clearing dev = record {
    dev = (gfifo_ioctl gsize dev mem_clear).1;
    events = [];
    done = wiped ∷ [];
    overlap = false;
  }

  pub data Step (s : System Buf) : System Buf → Type 0 where
    enter :
        (i : ℕ) (c : Call Buf)
        → s.pc i ≡ idle
        → Step s (record s { pc = update s.pc i (locking c) })
    lock :
        (i : ℕ) {c : Call Buf}
        → s.pc i ≡ locking c
        → s.owner ≡ none
        → Step s (record s { owner = some i; pc = update s.pc i (testing c) })
    -- -EAGAIN
    give_up :
        (i : ℕ) {c : Call Buf}
        → s.pc i ≡ testing c
        → blocked gsize s.dev c ≡ true
        → is_nonblock c ≡ true
        → Step s (record s { owner = none; pc = update s.pc i idle })
    sleep :
        (i : ℕ) {c : Call Buf}
        → s.pc i ≡ testing c
        → blocked gsize s.dev c ≡ true
        → is_nonblock c ≡ false
        → Step s (record s { owner = none; pc = update s.pc i (sleeping c) })
    -- a signal makes a sleeper runnable
    signal :
        (i : ℕ) {c : Call Buf}
        → s.pc i ≡ sleeping c
        → Step s (record s { pc = update s.pc i (woken c) })
    -- -ERESTARTSYS
    interrupted :
        (i : ℕ) {c : Call Buf} → s.pc i ≡ woken c → Step s (record s { pc = update s.pc i idle })
    relock :
        (i : ℕ) {c : Call Buf}
        → s.pc i ≡ woken c
        → s.owner ≡ none
        → Step s (record s { owner = some i; pc = update s.pc i (testing c) })
    pass :
        (i : ℕ) {c : Call Buf}
        → s.pc i ≡ testing c
        → blocked gsize s.dev c ≡ false
        → Step s (record s { pc = update s.pc i (moving c) })
    -- the transfer, the wake-ups, mutex_unlock
    move :
        (i : ℕ) {c : Call Buf}
        → s.pc i ≡ moving c
        → Step s (record {
          dev = (perform c s.dev).dev;
          owner = none;
          pc = update (λ j. wake (perform c s.dev).events (s.pc j)) i idle;
          log = s.log ++ (perform c s.dev).done;
          overlapped = s.overlapped || (perform c s.dev).overlap;
        })

  pub data Reach : System Buf → Type 0 where
    start : Reach (init gsize)
    later : {s t : System Buf} → Reach s → Step s t → Reach t
