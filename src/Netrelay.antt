-- ===== src/Netrelay.antt =====
-- test_suite/netrelay/relay.c: the packet buffer, the table of the relays, and what a relay brings.
pub mod Options
pub mod Forward
pub mod Eoe
pub mod Dhcp
pub mod Filter
mod Tests
use linux_device_driver.Base.{
  ℕ, suc, ◌+◌, ◌-◌, Bool, true, false, Option, none, some, List, length, get_or, set, if◌then◌else◌,
  ltb, leb, ℤ, pos, negsuc,
}

-- `base` is the allocated memory, `data` the offset of pbuf->data in it.
pub record Buffer : Type 0 where
  pub base : List ℕ
  pub data_ : ℕ
  pub size : ℕ

unfoldable pub buffer_reset : Buffer → Buffer
buffer_reset b = record b { data_ = 0; size = 0 }

-- What malloc answers for the structure, and for the memory: its bytes.
unfoldable pub buffer_init : Bool → (ℕ → Option (List ℕ)) → ℕ → ℤ × Option Buffer
unfolding buffer_reset
buffer_init false malloc size = (negsuc 0, none)
buffer_init true malloc size = elim (malloc size) [
  | none ↦ (negsuc 0, none)
  | some base ↦ (pos 0, some (buffer_reset (record { base = base; data_ = 0; size = 0 })))
]

abbrev pub buffer_data_to_tail : Buffer → ℕ
buffer_data_to_tail b = length b.base - b.data_

abbrev pub buffer_set_data_size : Buffer → ℕ → Buffer
buffer_set_data_size b n = record b { size = n }

-- SERVICE_TO_NET, NET_TO_SERVICE
abbrev pub service_to_net : ℕ
service_to_net = 1

abbrev pub net_to_service : ℕ
net_to_service = 2

-- RELAY_ID_DHCP, RELAY_ID_EOE, _RELAY_ID_MAX
abbrev pub relay_id_dhcp : ℕ
relay_id_dhcp = 0

abbrev pub relay_id_eoe : ℕ
relay_id_eoe = 1

abbrev pub relay_id_max : ℕ
relay_id_max = 2

-- struct custom_packet_func, without the dump. `none` is an access outside of the buffer.
pub record Packet : Type 0 where
  pub init_size : ℕ → ℕ
  pub prepare : Buffer → ℕ → Buffer
  pub edit : Buffer → ℕ → Option Buffer

-- relay_list: what is registered for each id.
unfoldable pub relay_find : List (Option Packet) → ℕ → Option Packet
relay_find table id = if leb relay_id_max id then none else get_or table id none

unfoldable pub relay_register : List (Option Packet) → ℕ → Option Packet → ℤ × List (Option Packet)
relay_register table id none = (negsuc 0, table)
relay_register table id (some info) =
    if leb relay_id_max id then (negsuc 0, table) else elim (get_or table id none) [
      | some other ↦ (negsuc 0, table)
      | none ↦ (pos 0, set table id (some info))
    ]
