-- ===== src/Netrelay/Eoe.antt =====
-- test_suite/netrelay/eoe_filter.c: the EoE header, put in front of a packet and taken off again.
pub mod Steps
pub mod Tunnel
use linux_device_driver.Base.{
  ℕ, ◌+◌, ◌-◌, ◌*◌, ◌/◌, ◌%◌, ◌≤◌, Option, none, some, List, [], ◌∷◌, ◌++◌, length, splice,
  replicate, if◌then◌else◌, ltb, leb, ◌==◌, add_u64, sub_u64,
}
use linux_device_driver.Base.Maybe.{◌>>=◌}
use linux_device_driver.Netrelay.{Buffer, Packet, buffer_reset, service_to_net, net_to_service}

-- The byte order of the machine, which is also that of its bit fields.
pub data Endian : Type 0 where
  big : Endian
  little : Endian

abbrev pub store16 : Endian → ℕ → List ℕ
store16 big n = n / 256 % 256 ∷ n % 256 ∷ []
store16 little n = n % 256 ∷ n / 256 % 256 ∷ []

abbrev pub store32 : Endian → ℕ → List ℕ
store32 big n = store16 big (n / 65536) ++ store16 big (n % 65536)
store32 little n = store16 little (n % 65536) ++ store16 little (n / 65536)

-- op_code:4, downstream:1 and flag:3 in their byte.
abbrev pub operation : Endian → ℕ → ℕ → ℕ → ℕ
operation big op_code downstream flag = op_code * 16 + downstream * 8 + flag
operation little op_code downstream flag = op_code + downstream * 16 + flag * 32

abbrev pub header_size : ℕ
header_size = 22

abbrev pub min_payload : ℕ
min_payload = 64

abbrev pub ip_maxpacket : ℕ
ip_maxpacket = 65535

abbrev pub op_a2a_switch : ℕ
op_a2a_switch = 8

abbrev pub dmac : List ℕ
dmac = 0x06 ∷ 0 ∷ 0 ∷ 0 ∷ 0 ∷ 0xf8 ∷ []

abbrev pub smac : List ℕ
smac = 0x06 ∷ 0 ∷ 0 ∷ 0 ∷ 0 ∷ 0x78 ∷ []

-- The header is packed: 6 + 6 + 4 + 2 + 1 + 2 + 1 bytes, the last three of them zero.
unfoldable pub init_eoe_header : Endian → ℕ → List ℕ
init_eoe_header e payload_size =
    dmac
    ++ (smac
        ++ (store32 e 0x81000ffe
            ++ (store16 e ((payload_size + 4) % 65536)
                ++ (operation e op_a2a_switch 0 0 ∷ 0 ∷ 0 ∷ 0 ∷ []))))

-- A write of `xs` at `pos`; `none` if it leaves the allocated memory.
abbrev pub store : List ℕ → ℕ → List ℕ → Option (List ℕ)
store base pos xs = if leb (pos + length xs) (length base) then some (splice base pos xs) else none

unfoldable pub extend_packet_payload : Buffer → Option Buffer
extend_packet_payload b =
    if ltb b.size min_payload
    then (store b.base (b.data_ + b.size) (replicate (min_payload - b.size) 0) >>= λ base.
        some (record b { base = base; size = min_payload }))
    else some b

-- `none` too if data is moved in front of the memory.
unfoldable pub push_header : Endian → Buffer → Option Buffer
unfolding init_eoe_header
push_header e b =
    if ltb b.data_ header_size
    then none
    else (store b.base (b.data_ - header_size) (init_eoe_header e b.size) >>= λ base.
        some (record {
          base = base;
          data_ = b.data_ - header_size;
          size = add_u64 b.size header_size;
        }))

unfoldable pub add_eoe_header : Endian → Buffer → Option Buffer
unfolding extend_packet_payload push_header
add_eoe_header e b = extend_packet_payload b >>= push_header e

unfoldable pub del_eoe_header : Buffer → Buffer
del_eoe_header b = record b { data_ = b.data_ + header_size; size = sub_u64 b.size header_size }

unfoldable pub packet_edit : Endian → Buffer → ℕ → Option Buffer
unfolding add_eoe_header del_eoe_header
packet_edit e b priv =
    if priv == service_to_net
    then add_eoe_header e b
    else if priv == net_to_service
    then some (del_eoe_header b)
    else some b

unfoldable pub packet_buffer_size : ℕ → ℕ
packet_buffer_size priv =
    if priv == service_to_net
    then ip_maxpacket + header_size
    else if priv == net_to_service
    then ip_maxpacket + header_size
    else ip_maxpacket

unfoldable pub packet_buffer_prepare : Buffer → ℕ → Buffer
unfolding buffer_reset
packet_buffer_prepare b priv =
    if priv == service_to_net
    then record (buffer_reset b) { data_ = (buffer_reset b).data_ + header_size }
    else buffer_reset b

abbrev pub eoe_info : Endian → Packet
eoe_info e = record {
  init_size = packet_buffer_size;
  prepare = packet_buffer_prepare;
  edit = packet_edit e;
}
