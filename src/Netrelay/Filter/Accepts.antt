-- ===== src/Netrelay/Filter/Accepts.antt =====
-- test_suite/netrelay/dhcp_filter.c, test_suite/netrelay/eoe_filter.c: which frames the filters let
-- pass, by the fields of the protocols.
use linux_device_driver.Base.{
  ℕ, suc, ◌+◌, ◌*◌, ◌≡◌, refl, ◌∙◌, Bool, true, false, ◌&&◌, not, List, drop, if◌then◌else◌, ◌==◌,
  bit_and,
}
use linux_device_driver.Netrelay.Filter.{dhcp_filter, eoe_filter, byte_at, half_at, run, filter}
use linux_device_driver.Netrelay.Filter.Steps.{
  holds, half_eq, byte_eq, half_clear, half_ne, half_field_ne, byte_field_eq, behind_header_eq,
}

-- 802.1Q: the type of the tag, the id of the VLAN, and the type of what is behind the tag.
abbrev pub is_tagged : List ℕ → Bool
is_tagged frame = holds (half_at frame 12) (λ v. v == 0x8100)

abbrev pub has_other_id : List ℕ → Bool
has_other_id frame = holds (half_at frame 14) (λ v. not (bit_and v 0xfff == 4094))

abbrev pub is_ipv4 : List ℕ → Bool
is_ipv4 frame = holds (half_at frame 16) (λ v. v == 0x800)

-- IPv4, from byte 18 on: the protocol, the offset of the fragment, and the length of the header.
abbrev pub is_udp : List ℕ → Bool
is_udp frame = holds (byte_at frame (18 + 9)) (λ v. v == 17)

abbrev pub is_first_fragment : List ℕ → Bool
is_first_fragment frame = holds (half_at frame (18 + 6)) (λ v. bit_and v 0x1fff == 0)

-- UDP, behind a header of as many words as its first byte says: the destination port is bootpc.
abbrev pub to_client : List ℕ → Bool
to_client frame =
    holds (byte_at frame 18)
      (λ v. holds (half_at frame (bit_and v 0xf * 4 + (18 + 2))) (λ p. p == 68))

-- The tests of the DHCP filter from the last one back; each rejects with 0.
both : (a b : Bool) (n : ℕ) → (if a then (if b then n else 0) else 0) ≡ (if a && b then n else 0)
both true b n = refl
both false b n = refl

module _ (frame : List ℕ) where
  rejects : (f a x : ℕ) → run (suc f) (drop 15 dhcp_filter) frame a x ≡ 0
  unfolding run
  rejects f a x = refl

  accepts : (f a x : ℕ) → run (suc f) (drop 14 dhcp_filter) frame a x ≡ 0x40000
  unfolding run
  accepts f a x = refl

  port_test :
      (a x : ℕ) → run 5 (drop 11 dhcp_filter) frame a x ≡ (if to_client frame then 0x40000 else 0)
  port_test a x =
      behind_header_eq 2 20 68 0 1 (drop 14 dhcp_filter) frame a x 0x40000 18 (λ w y. accepts 1 w y)
        (λ w y. rejects 1 w y)

  fragment_test :
      (a x : ℕ)
      → run 7 (drop 9 dhcp_filter) frame a x
        ≡ (if is_first_fragment frame && to_client frame then 0x40000 else 0)
  fragment_test a x =
      half_clear 5 24 0x1fff 4 0 (drop 11 dhcp_filter) frame a x
        (if to_client frame then 0x40000 else 0) (λ w. port_test w x) (λ w. rejects 4 w x)
      ∙ both (is_first_fragment frame) (to_client frame) 0x40000

  udp_test :
      (a x : ℕ)
      → run 9 (drop 7 dhcp_filter) frame a x
        ≡ (if is_udp frame && (is_first_fragment frame && to_client frame) then 0x40000 else 0)
  udp_test a x =
      byte_eq 7 27 17 0 6 (drop 9 dhcp_filter) frame a x
        (if is_first_fragment frame && to_client frame then 0x40000 else 0) (λ w. fragment_test w x)
        (λ w. rejects 6 w x)
      ∙ both (is_udp frame) (is_first_fragment frame && to_client frame) 0x40000

  -- An unfragmented datagram of UDP for the client, or the first fragment of one.
  abbrev pub is_offer : Bool
  is_offer = is_ipv4 frame && (is_udp frame && (is_first_fragment frame && to_client frame))

  ip_test : (a x : ℕ) → run 11 (drop 5 dhcp_filter) frame a x ≡ (if is_offer then 0x40000 else 0)
  ip_test a x =
      half_eq 9 16 0x800 0 8 (drop 7 dhcp_filter) frame a x
        (if is_udp frame && (is_first_fragment frame && to_client frame) then 0x40000 else 0)
        (λ w. udp_test w x) (λ w. rejects 8 w x)
      ∙ both (is_ipv4 frame) (is_udp frame && (is_first_fragment frame && to_client frame)) 0x40000

  id_test :
      (a x : ℕ)
      → run 14 (drop 2 dhcp_filter) frame a x
        ≡ (if has_other_id frame && is_offer then 0x40000 else 0)
  id_test a x =
      half_field_ne 11 14 4094 10 0 (drop 5 dhcp_filter) frame a x (if is_offer then 0x40000 else 0)
        0xfff (λ w. ip_test w x) (λ w. rejects 10 w x)
      ∙ both (has_other_id frame) is_offer 0x40000

  -- The DHCP filter passes 262144 bytes of a frame, which is all of it, if the frame is tagged with an
  -- id other than 4094 and carries, in IPv4 with a header of any length, UDP for port 68 that is not a
  -- later fragment; it rejects every other frame, also one that ends before any of these fields.
  pub dhcp_filter_exact :
      filter dhcp_filter frame
      ≡ (if is_tagged frame && (has_other_id frame && is_offer) then 0x40000 else 0)
  unfolding filter
  dhcp_filter_exact =
      half_eq 14 12 0x8100 0 13 (drop 2 dhcp_filter) frame 0 0
        (if has_other_id frame && is_offer then 0x40000 else 0) (λ w. id_test w 0)
        (λ w. rejects 13 w 0)
      ∙ both (is_tagged frame) (has_other_id frame && is_offer) 0x40000

  -- The EoE filter passes 65535 bytes of a frame if the upper half of byte 18, behind the addresses,
  -- the tag and the length, is 1 and the half word at 38 is there and is not 0x08ab; it rejects every
  -- other frame.
  pub eoe_filter_exact : filter eoe_filter frame ≡ (
      if holds (byte_at frame 18) (λ v. bit_and v 0xf0 == 0x10)
        && holds (half_at frame 38) (λ v. not (v == 0x8ab))
      then 0xffff
      else 0)
  unfolding filter
  eoe_filter_exact =
      byte_field_eq 4 18 0x10 0 3 (drop 3 eoe_filter) frame 0 0
        (if holds (half_at frame 38) (λ v. not (v == 0x8ab)) then 0xffff else 0) 0xf0
        (λ w.
          half_ne 2 38 0x8ab 1 0 (drop 5 eoe_filter) frame w 0 0xffff (λ v. unfold run in refl)
            (λ v. unfold run in refl))
        (λ w. unfold run in refl)
      ∙ both (holds (byte_at frame 18) (λ v. bit_and v 0xf0 == 0x10))
          (holds (half_at frame 38) (λ v. not (v == 0x8ab))) 0xffff
