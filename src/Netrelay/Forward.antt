-- ===== src/Netrelay/Forward.antt =====
-- test_suite/netrelay/relay.c: `forward_packet_from_to`. What read and write answer is a list.
pub mod Delivery
use linux_device_driver.Base.{
  ℕ, zero, suc, ◌+◌, ◌-◌, ◌^◌, ◌%◌, Option, none, some, List, [], ◌∷◌, ◌++◌, length, take, drop,
  splice, if◌then◌else◌, ◌==◌, u32,
}
use linux_device_driver.Base.Maybe.{◌>>=◌}
use linux_device_driver.Netrelay.{Buffer, Packet, buffer_data_to_tail, buffer_set_data_size}

-- An answer of write: the bytes taken, EAGAIN or EINTR, or another errno.
pub data Wrote : Type 0 where
  wrote : ℕ → Wrote
  write_again : Wrote
  write_failed : Wrote

-- How a loop stands: left, left by exit, or inside a call that has not returned.
pub data Status : Type 0 where
  left_loop : Status
  exited : Status
  waiting : Status

-- The inner loop, with nbByteWritten and nbByteToWrite: the bytes sent, in order. A write of nothing
-- ends it, as does a packet that is written whole.
unfoldable pub write_loop : List Wrote → Buffer → ℕ → ℕ → List ℕ × Status
write_loop [] b written to_write = if to_write == 0 then ([], left_loop) else ([], waiting)
write_loop (a ∷ ws) b written to_write =
    let rest : ℕ → ℕ → List ℕ × Status = write_loop ws b in
    if to_write == 0 then ([], left_loop) else elim a [
      | write_again ↦ rest written to_write
      | write_failed ↦ ([], exited)
      | wrote n ↦
          if n == 0
          then ([], left_loop)
          else let r : List ℕ × Status = rest (written + n) (u32 (to_write + 2 ^ 32 - n)) in
            (take n (drop (b.data_ + written) b.base) ++ r.0, r.1)
    ]

-- An answer of read: the bytes of a packet, with the answers of the writes that follow; EAGAIN or
-- EINTR; or another errno.
pub data Received : Type 0 where
  packet : List ℕ → List Wrote → Received
  read_again : Received
  read_failed : Received

-- The buffer when a packet has been read and edited. read stores what fits in the buffer.
unfoldable pub take_packet : Packet → ℕ → List ℕ → Buffer → Option Buffer
take_packet pkg priv xs b =
    let b' : Buffer = pkg.prepare b priv in
    let ys : List ℕ = take (buffer_data_to_tail b') xs in
    pkg.edit (buffer_set_data_size (record b' { base = splice b'.base b'.data_ ys }) (length ys))
      priv

-- The outer loop: what is sent for each packet, and how it stands. `none` is an access outside of the
-- buffer.
unfoldable pub forward_packets :
    Packet → ℕ → List Received → Buffer → Option (List (List ℕ) × Status)
unfolding take_packet write_loop
forward_packets pkg priv [] b = some ([], waiting)
forward_packets pkg priv (read_again ∷ rs) b = forward_packets pkg priv rs (pkg.prepare b priv)
forward_packets pkg priv (read_failed ∷ rs) b = some ([], exited)
forward_packets pkg priv (packet xs ws ∷ rs) b =
    let rest : Buffer → Option (List (List ℕ) × Status) = forward_packets pkg priv rs in
    take_packet pkg priv xs b >>= λ b'.
    let r : List ℕ × Status = write_loop ws b' 0 (u32 b'.size) in
    elim r.1 [
      | left_loop ↦ rest b' >>= λ s. some (r.0 ∷ s.0, s.1)
      | exited ↦ some (r.0 ∷ [], exited)
      | waiting ↦ some (r.0 ∷ [], waiting)
    ]
