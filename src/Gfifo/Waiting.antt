-- ===== src/Gfifo/Waiting.antt =====
-- How `gfifo_read` and `gfifo_write` wait, and what `gfifo_poll` says about it.
use linux_device_driver.Base.{
  ℕ, ℤ, ◌≡◌, ◌≢◌, Bool, true, false, some, List, [], ◌∷◌, ◌++◌, arith, ◌==◌, if◌then◌else◌, bit_and,
}
use linux_device_driver.Base.Kernel.{Uaccess, Memcpy}
use linux_device_driver.Base.Errno.{eagain, erestartsys}
use linux_device_driver.Gfifo.{
  Dev, Outcome, Wake, Wait, wait_while, is_empty, is_full, read_body, write_body, gfifo_read,
  gfifo_write, gfifo_poll, pollin, pollout,
}

-- The outcome of a handler that gives up with an error before its body.
abbrev pub gave_up : {Buf : Type 0} → ℤ → Dev → Buf → Outcome Buf
gave_up e dev buf = record { ret = e; dev = dev; buf = buf; events = [] }

-- Each wake-up found the device as it must not be, with no signal: the loop goes round.
abbrev pub GoesRound : (Dev → Bool) → List Wake → Type 0
GoesRound blocked [] = Unit
GoesRound blocked (w ∷ ws) = (w.signal ≡ false) × (blocked w.dev ≡ true) × GoesRound blocked ws

abbrev last_seen : Dev → List Wake → Dev
last_seen dev [] = dev
last_seen dev (w ∷ ws) = last_seen w.dev ws

module _ (blocked : Dev → Bool) where
  wait_nonblock :
      (dev : Dev) (ws : List Wake)
      → wait_while blocked true dev ws
        ≡ (if blocked dev then Wait.failed eagain dev else Wait.ready dev)
  unfolding wait_while
  wait_nonblock dev [] = ground arith
  wait_nonblock dev (w ∷ ws) = ground arith

  pub wait_ready :
      (nonblock : Bool) (dev : Dev) (ws : List Wake)
      → blocked dev ≡ false
      → wait_while blocked nonblock dev ws ≡ Wait.ready dev
  unfolding wait_while
  wait_ready nonblock dev [] h = rw h
  wait_ready nonblock dev (w ∷ ws) h = rw h

  wait_rounds :
      (dev : Dev) (ws : List Wake) (w : Wake) (rest : List Wake)
      → blocked dev ≡ true
      → GoesRound blocked ws
      → w.signal ≡ false
      → blocked w.dev ≡ false
      → wait_while blocked false dev (ws ++ w ∷ rest) ≡ Wait.ready w.dev
  unfolding wait_while
  wait_rounds dev [] w rest b _ s h = rw (b, s) (wait_ready false w.dev rest h)
  wait_rounds dev (x ∷ ws) w rest b (quiet, still, round) s h =
      rw (b, quiet) (wait_rounds x.dev ws w rest still round s h)

  wait_signal :
      (dev : Dev) (ws : List Wake) (w : Wake) (rest : List Wake)
      → blocked dev ≡ true
      → GoesRound blocked ws
      → w.signal ≡ true
      → wait_while blocked false dev (ws ++ w ∷ rest) ≡ Wait.failed erestartsys w.dev
  unfolding wait_while
  wait_signal dev [] w rest b _ s = rw (b, s)
  wait_signal dev (x ∷ ws) w rest b (quiet, still, round) s =
      rw (b, quiet) (wait_signal x.dev ws w rest still round s)

module _ {Buf : Type 0} (ua : Uaccess Buf) where
  -- A reader with O_NONBLOCK never sleeps, and POLLIN tells what it gets: with the bit, the body
  -- of the handler runs on the device; without it, -EAGAIN comes back and nothing changes.
  poll-read :
      (cpy : Memcpy) (gsize : ℕ) (ws : List Wake) (dev : Dev) (buf : Buf) (size : ℕ)
      → gfifo_read ua cpy true ws dev buf size ≡ (
          if bit_and (gfifo_poll gsize dev) pollin == 0
          then some (gave_up eagain dev buf)
          else some (read_body ua cpy dev buf size))
  unfolding gfifo_read gfifo_poll
  poll-read cpy gsize ws dev buf size = rw (wait_nonblock is_empty dev ws) (ground arith)

  -- The same of a writer with O_NONBLOCK and POLLOUT.
  poll-write :
      (gsize : ℕ) (ws : List Wake) (dev : Dev) (buf : Buf) (size : ℕ)
      → gfifo_write ua gsize true ws dev buf size ≡ (
          if bit_and (gfifo_poll gsize dev) pollout == 0
          then some (gave_up eagain dev buf)
          else some (write_body ua gsize dev buf size))
  unfolding gfifo_write gfifo_poll
  poll-write gsize ws dev buf size = rw (wait_nonblock (is_full gsize) dev ws) (ground arith)

  -- O_NONBLOCK never sleeps, and `gfifo_poll` tells what a call gets: with POLLIN the body of
  -- `gfifo_read` runs on the device, with POLLOUT that of `gfifo_write`; without the bit -EAGAIN comes
  -- back and nothing changes.
  pub poll_tells :
      (cpy : Memcpy) (gsize : ℕ) (ws : List Wake) (dev : Dev) (buf : Buf) (size : ℕ)
      → (gfifo_read ua cpy true ws dev buf size ≡ (
          if bit_and (gfifo_poll gsize dev) pollin == 0
          then some (gave_up eagain dev buf)
          else some (read_body ua cpy dev buf size)))
        × (gfifo_write ua gsize true ws dev buf size ≡ (
            if bit_and (gfifo_poll gsize dev) pollout == 0
            then some (gave_up eagain dev buf)
            else some (write_body ua gsize dev buf size)))
  poll_tells cpy gsize ws dev buf size =
      (poll-read cpy gsize ws dev buf size, poll-write gsize ws dev buf size)

  -- A reader that found the queue empty goes round while it stays empty, and runs its body at the
  -- first wake-up that finds bytes in it, on the device as it is then.
  read_wakes :
      (cpy : Memcpy) (ws : List Wake) (w : Wake) (rest : List Wake) (dev : Dev) (buf : Buf)
      (size : ℕ)
      → dev.cur_len ≡ 0
      → GoesRound is_empty ws
      → w.signal ≡ false
      → w.dev.cur_len ≢ 0
      → gfifo_read ua cpy false (ws ++ w ∷ rest) dev buf size
        ≡ some (read_body ua cpy w.dev buf size)
  unfolding gfifo_read
  read_wakes cpy ws w rest dev buf size e round quiet some_bytes =
      rw (wait_rounds is_empty dev ws w rest (ground arith) round quiet (ground arith))

  -- A writer that found the queue full waits in the same way for room.
  write_wakes :
      (gsize : ℕ) (ws : List Wake) (w : Wake) (rest : List Wake) (dev : Dev) (buf : Buf) (size : ℕ)
      → dev.cur_len ≡ gsize
      → GoesRound (is_full gsize) ws
      → w.signal ≡ false
      → w.dev.cur_len ≢ gsize
      → gfifo_write ua gsize false (ws ++ w ∷ rest) dev buf size
        ≡ some (write_body ua gsize w.dev buf size)
  unfolding gfifo_write
  write_wakes gsize ws w rest dev buf size e round quiet room =
      rw (wait_rounds (is_full gsize) dev ws w rest (ground arith) round quiet (ground arith))

  -- A signal ends the wait of a reader: -ERESTARTSYS, and the device stays as the other threads
  -- left it.
  read_signal :
      (cpy : Memcpy) (ws : List Wake) (w : Wake) (rest : List Wake) (dev : Dev) (buf : Buf)
      (size : ℕ)
      → dev.cur_len ≡ 0
      → GoesRound is_empty ws
      → w.signal ≡ true
      → gfifo_read ua cpy false (ws ++ w ∷ rest) dev buf size ≡ some (gave_up erestartsys w.dev buf)
  unfolding gfifo_read
  read_signal cpy ws w rest dev buf size e round s =
      rw (wait_signal is_empty dev ws w rest (ground arith) round s)

  -- A signal ends the wait of a writer in the same way.
  write_signal :
      (gsize : ℕ) (ws : List Wake) (w : Wake) (rest : List Wake) (dev : Dev) (buf : Buf) (size : ℕ)
      → dev.cur_len ≡ gsize
      → GoesRound (is_full gsize) ws
      → w.signal ≡ true
      → gfifo_write ua gsize false (ws ++ w ∷ rest) dev buf size
        ≡ some (gave_up erestartsys w.dev buf)
  unfolding gfifo_write
  write_signal gsize ws w rest dev buf size e round s =
      rw (wait_signal (is_full gsize) dev ws w rest (ground arith) round s)

  -- A signal ends the wait of a caller that has gone round any number of times: -ERESTARTSYS, and the
  -- device stays as the other threads left it.
  signals_end :
      (cpy : Memcpy) (gsize : ℕ) (ws vs : List Wake) (w : Wake) (rest : List Wake) (dev dev' : Dev)
      (buf : Buf) (size : ℕ)
      → dev.cur_len ≡ 0
      → dev'.cur_len ≡ gsize
      → GoesRound is_empty ws
      → GoesRound (is_full gsize) vs
      → w.signal ≡ true
      → (gfifo_read ua cpy false (ws ++ w ∷ rest) dev buf size
          ≡ some (gave_up erestartsys w.dev buf))
        × (gfifo_write ua gsize false (vs ++ w ∷ rest) dev' buf size
            ≡ some (gave_up erestartsys w.dev buf))
  signals_end cpy gsize ws vs w rest dev dev' buf size e f round round' s = (
    read_signal cpy ws w rest dev buf size e round s,
    write_signal gsize vs w rest dev' buf size f round' s,
  )

  -- The two ways out of a wait: a caller that found the queue empty (to read) or full (to write) goes
  -- round while it stays so; it runs its body at the first wake-up that finds it otherwise, on the
  -- device as it is then; and a signal ends its wait with -ERESTARTSYS, after any number of rounds,
  -- and leaves the device as the other threads left it.
  pub waits_end :
      (cpy : Memcpy) (gsize : ℕ) (ws vs : List Wake) (w v s : Wake) (rest : List Wake)
      (dev dev' : Dev) (buf : Buf) (size : ℕ)
      → dev.cur_len ≡ 0
      → dev'.cur_len ≡ gsize
      → GoesRound is_empty ws
      → GoesRound (is_full gsize) vs
      → (w.signal ≡ false) × (w.dev.cur_len ≢ 0)
      → (v.signal ≡ false) × (v.dev.cur_len ≢ gsize)
      → s.signal ≡ true
      → (gfifo_read ua cpy false (ws ++ w ∷ rest) dev buf size
          ≡ some (read_body ua cpy w.dev buf size))
        × (gfifo_write ua gsize false (vs ++ v ∷ rest) dev' buf size
            ≡ some (write_body ua gsize v.dev buf size))
        × (gfifo_read ua cpy false (ws ++ s ∷ rest) dev buf size
            ≡ some (gave_up erestartsys s.dev buf))
        × (gfifo_write ua gsize false (vs ++ s ∷ rest) dev' buf size
            ≡ some (gave_up erestartsys s.dev buf))
  waits_end cpy gsize ws vs w v s rest dev dev' buf size e f round round' bytes room told =
      let out = signals_end cpy gsize ws vs s rest dev dev' buf size e f round round' told in
      (
        read_wakes cpy ws w rest dev buf size e round bytes.0 bytes.1,
        write_wakes gsize vs v rest dev' buf size f round' room.0 room.1,
        out.0,
        out.1,
      )
