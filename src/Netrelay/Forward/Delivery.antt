-- ===== src/Netrelay/Forward/Delivery.antt =====
-- test_suite/netrelay/relay.c: what the inner loop of `forward_packet_from_to` sends.
use linux_device_driver.Base.{
  ℕ, ◌+◌, ◌-◌, ◌^◌, ◌≤◌, ◌<◌, ◌≡◌, refl, ap, sym, ◌∙◌, List, [], ◌∷◌, ◌++◌, arith, if◌then◌else◌,
  ◌==◌, u32, Bool-cases, inl, inr, false,
}
use linux_device_driver.Base.Windows.{window, window-append}
use linux_device_driver.Netrelay.{Buffer}
use linux_device_driver.Netrelay.Forward.{
  Wrote, wrote, write_again, write_failed, Status, left_loop, write_loop,
}

-- The answers take `n` bytes in pieces, interrupted any number of times.
abbrev pub Takes : List Wrote → ℕ → Type 0
Takes [] n = n ≡ 0
Takes (write_again ∷ ws) n = Takes ws n
Takes (write_failed ∷ ws) n = ⊥
Takes (wrote k ∷ ws) n = (0 < k) × (k ≤ n) × Takes ws (n - k)

none_left :
    (ws : List Wrote) (b : Buffer) (written : ℕ) → write_loop ws b written 0 ≡ ([], left_loop)
unfolding write_loop
none_left [] b written = refl
none_left (w ∷ ws) b written = refl

again_same :
    (ws : List Wrote) (b : Buffer) (written n : ℕ)
    → write_loop (write_again ∷ ws) b written n ≡ write_loop ws b written n
again_same ws b written n = elim (Bool-cases (n == 0)) [
  | inl done ↦
      let z : n ≡ 0 = ground arith in
      ap (write_loop (write_again ∷ ws) b written) z
      ∙ none_left (write_again ∷ ws) b written
      ∙ sym (ap (write_loop ws b written) z ∙ none_left ws b written)
  | inr more ↦ unfold write_loop in rw (write_loop, more, if◌then◌else◌) refl
]

wrote_step :
    (k : ℕ) (ws : List Wrote) (b : Buffer) (written n : ℕ) {sent : List ℕ} {s : Status}
    → 0 < k
    → k ≤ n
    → n < 2 ^ 32
    → write_loop ws b (written + k) (n - k) ≡ (sent, s)
    → write_loop (wrote k ∷ ws) b written n ≡ (window (b.data_ + written) k b.base ++ sent, s)
unfolding write_loop
wrote_step k ws b written n pos_ le small e =
    let ne : (n == 0) ≡ false = ground arith in
    let nk : (k == 0) ≡ false = ground arith in
    let left : u32 (n + 2 ^ 32 - k) ≡ n - k = omega arith in
    rw (write_loop, ne, nk, if◌then◌else◌, left, e) refl

-- A packet of less than 2 ^ 32 bytes, of which write takes all in pieces of any size, each at least
-- one byte and at most what is left, with any number of interruptions: the loop ends, and the pieces
-- are the bytes from `written` on, each once and in order.
pub delivered :
    (ws : List Wrote) (b : Buffer) (written n : ℕ)
    → Takes ws n
    → n < 2 ^ 32
    → write_loop ws b written n ≡ (window (b.data_ + written) n b.base, left_loop)
delivered [] b written n h small =
    ap (write_loop [] b written) h
    ∙ none_left [] b written
    ∙ ap (λ k. (window (b.data_ + written) k b.base, left_loop)) (sym h)
delivered (write_again ∷ ws) b written n h small =
    again_same ws b written n ∙ delivered ws b written n h small
delivered (write_failed ∷ ws) b written n h small = absurd h
delivered (wrote k ∷ ws) b written n h small =
    let e : b.data_ + (written + k) ≡ b.data_ + written + k = omega arith in
    let f : k + (n - k) ≡ n = omega arith in
    wrote_step k ws b written n h.0 h.1 small
      (delivered ws b (written + k) (n - k) h.2 (omega arith))
    ∙ ap (λ r. (r, left_loop))
        (ap (λ p. window (b.data_ + written) k b.base ++ window p (n - k) b.base) e
          ∙ window-append (b.data_ + written) k (n - k) b.base
          ∙ ap (λ j. window (b.data_ + written) j b.base) f)
