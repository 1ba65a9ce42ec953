-- ===== src/Gfifo/Threads/Safety.antt =====
-- What the threads of `Gfifo.Threads` may rely on in every reachable state.
use linux_device_driver.Base.{
  ℕ, ◌<◌, ◌^◌, ◌≡◌, refl, ap, sym, ◌∙◌, Bool, true, none, some, List, [], ◌∷◌, ◌++◌, append_assoc,
  append-nil, arith, ◌==◌, Option, false, inl, inr, Bool-cases, length, take,
}
use linux_device_driver.Base.Kernel.{Uaccess, IsUaccess, Memcpy, IsMemcpy}
use linux_device_driver.Gfifo.Spec.{Queue, contents}
use linux_device_driver.Gfifo.Refine.{length-contents}
use linux_device_driver.Gfifo.Keeps.{KeepsSize}
use linux_device_driver.Gfifo.Threads.{
  Op, put, got, wiped, reading, writing, sleeping, System, Reach,
}
use linux_device_driver.Gfifo.Threads.History.{strip, chain, replay}
use linux_device_driver.Gfifo.Threads.Invariant.{holds, Inv, Reach-Inv}

-- All bytes that the writers have stored, and all that the readers have got, in order.
abbrev pub accepted : List Op → List ℕ
accepted [] = []
accepted (put xs ∷ l) = xs ++ accepted l
accepted (_ ∷ l) = accepted l

abbrev pub delivered : List Op → List ℕ
delivered [] = []
delivered (got xs ∷ l) = xs ++ delivered l
delivered (_ ∷ l) = delivered l

abbrev pub NeverWiped : List Op → Type 0
NeverWiped [] = Unit
NeverWiped (wiped ∷ l) = ⊥
NeverWiped (_ ∷ l) = NeverWiped l

strip-some : (xs q r : List ℕ) → strip xs q ≡ some r → q ≡ xs ++ r
strip-some [] q r h = cc
strip-some (x ∷ xs) [] r h = cc
strip-some (x ∷ xs) (y ∷ q) r h = elim (Bool-cases (x == y)) [
  | inl e ↦ ground (arith, strip-some xs q r)
  | inr e ↦ cc (rw e at h)
]

strip_then :
    (xs q : List ℕ) (l : List Op) (r : Queue)
    → ((q' : Queue) → replay l q' ≡ some r → q' ++ accepted l ≡ delivered l ++ r)
    → (o : Option Queue) → strip xs q ≡ o
    → chain o (replay l) ≡ some r
    → q ++ accepted l ≡ (xs ++ delivered l) ++ r
strip_then xs q l r ih none e h = cc
strip_then xs q l r ih (some q') e h = rw (strip-some xs q q' e) (
    append_assoc xs q' (accepted l)
    ∙ ap (λ z. xs ++ z) (ih q' h)
    ∙ sym (append_assoc xs (delivered l) r))

replay_balance :
    (l : List Op) (q r : Queue)
    → NeverWiped l
    → replay l q ≡ some r
    → q ++ accepted l ≡ delivered l ++ r
replay_balance [] q r n h = append-nil q ∙ some_inj h
  where
    some_inj : some q ≡ some r → q ≡ r
    some_inj e = cc
replay_balance (put xs ∷ l) q r n h =
    sym (append_assoc q xs (accepted l)) ∙ replay_balance l (q ++ xs) r n h
replay_balance (got xs ∷ l) q r n h =
    strip_then xs q l r (λ q' h'. replay_balance l q' r n h') (strip xs q) refl h
replay_balance (wiped ∷ l) q r n h = absurd n

module _ {Buf : Type 0} (ua : Uaccess Buf) (cpy : Memcpy) (gsize : ℕ) (law : IsUaccess ua)
    (copies : IsMemcpy cpy) (keeps : KeepsSize cpy) (small : gsize < 2 ^ 32) {s : System Buf}
    (r : Reach ua cpy gsize s) where
  -- In every reachable state of threads on a device of less than 4 GiB, if copy_from_user fills
  -- its destination and memcpy does what the C standard says and keeps the size of the array: at most one thread at a
  -- time is between mutex_lock and mutex_unlock.
  pub mutual_exclusion : (i j : ℕ) → holds (s.pc i) ≡ true → holds (s.pc j) ≡ true → i ≡ j
  mutual_exclusion i j hi hj =
      let inv : Inv gsize s = Reach-Inv ua cpy gsize law copies keeps small r in
      cc (inv.held i hi, inv.held j hj)

  -- In every reachable state of threads on a device of less than 4 GiB, if copy_from_user fills
  -- its destination and memcpy does what the C standard says and keeps the size of the array: a reader sleeps only
  -- while the queue is empty, so that no wake-up of a reader is lost.
  pub reader_asleep :
      (i : ℕ) {nonblock : Bool} {buf : Buf} {size : ℕ}
      → s.pc i ≡ sleeping (reading nonblock buf size)
      → contents s.dev ≡ []
  reader_asleep i e =
      let inv : Inv gsize s = Reach-Inv ua cpy gsize law copies keeps small r in
      let empty : s.dev.cur_len ≡ 0 = ground (arith, inv.relied i) in
      ap (λ k. take k s.dev.mem) empty

  -- In every reachable state of threads on a device of less than 4 GiB, if copy_from_user fills
  -- its destination and memcpy does what the C standard says and keeps the size of the array: a writer sleeps only
  -- while the queue is full, so that no wake-up of a writer is lost.
  pub writer_asleep :
      (i : ℕ) {nonblock : Bool} {buf : Buf} {size : ℕ}
      → s.pc i ≡ sleeping (writing nonblock buf size)
      → length (contents s.dev) ≡ gsize
  writer_asleep i e =
      let inv : Inv gsize s = Reach-Inv ua cpy gsize law copies keeps small r in
      length-contents inv.valid ∙ ground (arith, inv.relied i)

  -- If the array has room for a byte, a reader and a writer never sleep at the same time.
  never_both_asleep :
      0 < gsize
      → (i j : ℕ) {n m : Bool} {a b : Buf} {x y : ℕ} → s.pc i ≡ sleeping (reading n a x)
      → ¬ (s.pc j ≡ sleeping (writing m b y))
  never_both_asleep room i j ri wj =
      omega (arith, ap (λ (q : Queue). length q) (reader_asleep i ri), writer_asleep j wj)

  -- In every reachable state of threads on a device of less than 4 GiB, if copy_from_user fills
  -- its destination and memcpy does what the C standard says and keeps the size of the array: as long
  -- as no memcpy has had overlapping ranges (each successful read has taken at least half of the
  -- stored bytes), the completed calls, in the order of their critical sections, are a history of one
  -- queue of bytes that starts empty, and the device holds what that history leaves. A read stands in
  -- it with the bytes that copy_to_user was given, as many as the read returned, a write with the
  -- bytes of the user's buffer, as many as it returned.
  pub linearizable : s.overlapped ≡ false → replay s.log [] ≡ some (contents s.dev)
  linearizable = (Reach-Inv ua cpy gsize law copies keeps small r).legal

  -- In every reachable state of threads on a device of less than 4 GiB, if copy_from_user fills
  -- its destination and memcpy does what the C standard says and keeps the size of the array: as long
  -- as no memcpy has had overlapping ranges and nobody has cleared the device, the bytes that the
  -- reads have given to copy_to_user, followed by what the device holds, are the bytes that the
  -- writes have taken from their buffers. No byte is lost, repeated or reordered, whatever the
  -- interleaving.
  pub stream_kept :
      s.overlapped ≡ false → NeverWiped s.log → delivered s.log ++ contents s.dev ≡ accepted s.log
  stream_kept apart n = sym (replay_balance s.log [] (contents s.dev) n (linearizable apart))
