-- ===== src/Gfifo/Spec.antt =====
-- What the gfifo devices promise: a bounded queue of bytes, oldest first.
use linux_device_driver.Base.{ℕ, ◌-◌, List, take, length, min}
use linux_device_driver.Gfifo.{Dev}

abbrev pub Queue : Type 0
Queue = List ℕ

-- The bytes that a device holds.
abbrev pub contents : Dev → Queue
contents dev = take dev.cur_len dev.mem

-- How many bytes a request for `n` moves, out of a queue or into one of `size` places.
abbrev pub dequeued : Queue → ℕ → ℕ
dequeued q n = min n (length q)

abbrev pub enqueued : ℕ → Queue → ℕ → ℕ
enqueued size q n = min n (size - length q)

-- The oldest bytes, as many as a request for `n` gets.
abbrev pub front : Queue → ℕ → List ℕ
front q n = take (dequeued q n) q
