-- ===== src/Netrelay/Dhcp.antt =====
-- test_suite/netrelay/dhcp_filter.c: the VLAN id of a tagged packet, lowered by one or raised by one
-- in the circle 1 to 4093.
pub mod Vlan
use linux_device_driver.Base.{
  ℕ, suc, ◌+◌, ◌-◌, ◌*◌, ◌/◌, ◌%◌, Option, none, some, List, [], ◌∷◌, get_or, splice, if◌then◌else◌,
  ◌==◌, bit_and, bit_or,
}
use linux_device_driver.Netrelay.{Buffer, Packet, buffer_reset, service_to_net, net_to_service}

-- ntohs of the two bytes at an offset from pbuf->data, and the store of htons.
abbrev pub load16 : List ℕ → ℕ → ℕ
load16 xs i = get_or xs i 0 * 256 + get_or xs (suc i) 0

abbrev pub store16 : List ℕ → ℕ → ℕ → List ℕ
store16 xs i n = splice xs i (n / 256 % 256 ∷ n % 256 ∷ [])

-- `(unsigned short)`
abbrev pub u16 : ℕ → ℕ
u16 n = n % 65536

-- The new tag control information for the one that is there.
unfoldable pub dhcp_tci : ℕ → ℕ
dhcp_tci tci =
    let pbit : ℕ = bit_and tci 0xf000 in
    let oam_vlan : ℕ = bit_and tci 0xfff in
    let dhcp_vlan : ℕ = u16 (oam_vlan + 65536 - 1) in
    bit_or pbit (if dhcp_vlan == 0 then 4093 else dhcp_vlan)

unfoldable pub oam_tci : ℕ → ℕ
oam_tci tci =
    let pbit : ℕ = bit_and tci 0xf000 in
    let dhcp_vlan : ℕ = bit_and tci 0xfff in
    let oam_vlan : ℕ = u16 (dhcp_vlan + 1) in bit_or pbit (if oam_vlan == 4094 then 1 else oam_vlan)

-- A change of the information of a tagged packet. The relay's buffers have 65535 bytes, so that the
-- tag of a short frame is still in them; in a shorter list a byte behind its end reads as 0.
abbrev pub retag : (ℕ → ℕ) → Buffer → Buffer
retag f b =
    if load16 b.base (b.data_ + 0xc) == 0x8100
    then record b { base = store16 b.base (b.data_ + 0xe) (f (load16 b.base (b.data_ + 0xe))) }
    else b

unfoldable pub set_dhcp_vlan : Buffer → Buffer
unfolding dhcp_tci
set_dhcp_vlan = retag dhcp_tci

unfoldable pub set_oam_vlan : Buffer → Buffer
unfolding oam_tci
set_oam_vlan = retag oam_tci

unfoldable pub packet_edit : Buffer → ℕ → Option Buffer
unfolding set_dhcp_vlan set_oam_vlan
packet_edit b priv =
    if priv == net_to_service
    then some (set_dhcp_vlan b)
    else if priv == service_to_net
    then some (set_oam_vlan b)
    else some b

-- packetBufferInit and packetBufferPrepare, which do the same for every `priv`.
unfoldable pub packet_buffer_size : ℕ → ℕ
packet_buffer_size priv = 65535

unfoldable pub packet_buffer_prepare : Buffer → ℕ → Buffer
unfolding buffer_reset
packet_buffer_prepare b priv = buffer_reset b

abbrev pub dhcp_info : Packet
dhcp_info = record {
  init_size = packet_buffer_size;
  prepare = packet_buffer_prepare;
  edit = packet_edit;
}
