-- ===== src/Netrelay/Dhcp/Vlan.antt =====
-- test_suite/netrelay/dhcp_filter.c: the two directions undo each other.
use linux_device_driver.Base.{
  ℕ, ◌+◌, ◌-◌, ◌*◌, ◌/◌, ◌%◌, ◌^◌, ◌<◌, ◌≡◌, ap, sym, ◌∙◌, arith, if◌then◌else◌, ◌==◌, bit_and,
  bit_or,
}
use linux_device_driver.Base.Bits.{bit_and_ones, bits_ext, bit-bit_or, bit_ones, bit_or_lt, bit_le}
use linux_device_driver.Base.Masks.{bit_and_low, bit_and_high, bit_or_fields}
use linux_device_driver.Netrelay.{Buffer}
use linux_device_driver.Netrelay.Dhcp.{load16, u16, dhcp_tci, oam_tci}

-- The id of the DHCP side for one of the OAM side, and back.
abbrev pub below : ℕ → ℕ
below id = if id == 1 then 4093 else id - 1

abbrev pub above : ℕ → ℕ
above id = if id == 4093 then 1 else id + 1

-- The two fields of a tag: the priority with its flag, and the id.
module _ (q r : ℕ) (hq : q < 16) (hr : r < 4096) where
  id_field : bit_and (q * 4096 + r) 0xfff ≡ r
  id_field = bit_and_low 12 q r hr

  priority_field : bit_and (q * 4096 + r) 0xf000 ≡ q * 4096
  priority_field = bit_and_high 12 q r 15 hr ∙ ap (λ k. k * 4096) (bit_and_ones 4 q hq)

  dhcp_fields : 0 < r → dhcp_tci (q * 4096 + r) ≡ q * 4096 + below r
  unfolding dhcp_tci
  dhcp_fields h =
      rw (id_field, priority_field)
        (ap (bit_or (q * 4096)) (lower r h hr) ∙ bit_or_fields 12 q (below r) (ground arith))
    where
      lower :
          (r : ℕ)
          → 0 < r
          → r < 4096
          → (if u16 (r + 65536 - 1) == 0 then 4093 else u16 (r + 65536 - 1)) ≡ below r
      lower r h hr = ground arith

  oam_fields : r < 4094 → oam_tci (q * 4096 + r) ≡ q * 4096 + above r
  unfolding oam_tci
  oam_fields h =
      rw (id_field, priority_field)
        (ap (bit_or (q * 4096)) (higher r hr) ∙ bit_or_fields 12 q (above r) (ground arith))
    where
      higher : (r : ℕ) → r < 4096 → (if u16 (r + 1) == 4094 then 1 else u16 (r + 1)) ≡ above r
      higher r hr = ground arith

fields : (t : ℕ) → t / 4096 * 4096 + t % 4096 ≡ t
fields t = omega arith

pub dhcp_tci_lem :
    (t : ℕ) → t < 65536 → 0 < t % 4096 → dhcp_tci t ≡ t / 4096 * 4096 + below (t % 4096)
dhcp_tci_lem t h p =
    ap dhcp_tci (sym (fields t)) ∙ dhcp_fields (t / 4096) (t % 4096) (omega arith) (omega arith) p

pub oam_tci_lem :
    (t : ℕ) → t < 65536 → t % 4096 < 4094 → oam_tci t ≡ t / 4096 * 4096 + above (t % 4096)
oam_tci_lem t h p =
    ap oam_tci (sym (fields t)) ∙ oam_fields (t / 4096) (t % 4096) (omega arith) (omega arith) p

above-below : (r : ℕ) → 0 < r → r < 4094 → above (below r) ≡ r
above-below r h k = ground arith

below-above : (r : ℕ) → 0 < r → r < 4094 → below (above r) ≡ r
below-above r h k = ground arith

below_bounds : (r : ℕ) → 0 < r → r < 4094 → (0 < below r) × (below r < 4094)
below_bounds r h k = ground arith

above_bounds : (r : ℕ) → 0 < r → r < 4094 → (0 < above r) × (above r < 4094)
above_bounds r h k = ground arith

module _ (t : ℕ) (small : t < 65536) (low : 0 < t % 4096) (high : t % 4096 < 4094) where
  pub oam-dhcp : oam_tci (dhcp_tci t) ≡ t
  oam-dhcp =
      let u : ℕ = t / 4096 * 4096 + below (t % 4096) in
      let b : (0 < below (t % 4096)) × (below (t % 4096) < 4094) =
        below_bounds (t % 4096) low high in
      let q : u / 4096 ≡ t / 4096 = omega arith in
      let r : u % 4096 ≡ below (t % 4096) = omega arith in
      ap oam_tci (dhcp_tci_lem t small low)
      ∙ oam_tci_lem u (omega arith) (omega (arith, r))
      ∙ ap (λ k. k * 4096 + above (u % 4096)) q
      ∙ ap (λ k. t / 4096 * 4096 + above k) r
      ∙ ap (λ k. t / 4096 * 4096 + k) (above-below (t % 4096) low high)
      ∙ fields t

  pub dhcp-oam : dhcp_tci (oam_tci t) ≡ t
  dhcp-oam =
      let u : ℕ = t / 4096 * 4096 + above (t % 4096) in
      let b : (0 < above (t % 4096)) × (above (t % 4096) < 4094) =
        above_bounds (t % 4096) low high in
      let q : u / 4096 ≡ t / 4096 = omega arith in
      let r : u % 4096 ≡ above (t % 4096) = omega arith in
      ap dhcp_tci (oam_tci_lem t small high)
      ∙ dhcp_tci_lem u (omega arith) (omega (arith, r))
      ∙ ap (λ k. k * 4096 + below (u % 4096)) q
      ∙ ap (λ k. t / 4096 * 4096 + below k) r
      ∙ ap (λ k. t / 4096 * 4096 + k) (below-above (t % 4096) low high)
      ∙ fields t

  pub dhcp_tci_small : dhcp_tci t < 65536
  dhcp_tci_small = omega (arith, dhcp_tci_lem t small low, below_bounds (t % 4096) low high)

  pub oam_tci_small : oam_tci t < 65536
  oam_tci_small = omega (arith, oam_tci_lem t small high, above_bounds (t % 4096) low high)

-- A buffer with a tagged packet, of which `f` and then `g` change the tag's information.
module _ (b : Buffer) (f g : ℕ → ℕ) where
  abbrev tci : ℕ
  tci = load16 b.base (b.data_ + 0xe)

bit_or_ones : (w n : ℕ) → n < 2 ^ w → bit_or n (2 ^ w - 1) ≡ 2 ^ w - 1
bit_or_ones w n h =
    bits_ext w (bit_or n (2 ^ w - 1)) (2 ^ w - 1) (bit_or_lt w n (2 ^ w - 1) h (omega arith))
      (omega arith) λ i lt. omega (arith, bit-bit_or i n (2 ^ w - 1), bit_ones w i lt, bit_le i n)

-- A tag with the id 0, of a packet that has a priority only: the priority and the id are lost, all
-- sixteen bits are set, whatever the priority was.
pub id_zero_lost : (q : ℕ) → q < 16 → dhcp_tci (q * 4096) ≡ 0xffff
unfolding dhcp_tci
id_zero_lost q h =
    let e : q * 4096 + 0 ≡ q * 4096 = omega arith in
    let i : bit_and (q * 4096) 0xfff ≡ 0 =
      ap (λ k. bit_and k 0xfff) (sym e) ∙ id_field q 0 h (omega arith) in
    let p : bit_and (q * 4096) 0xf000 ≡ q * 4096 =
      ap (λ k. bit_and k 0xf000) (sym e) ∙ priority_field q 0 h (omega arith) in
    rw (i, p) (bit_or_ones 16 (q * 4096) (omega arith))
