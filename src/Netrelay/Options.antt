-- ===== src/Netrelay/Options.antt =====
-- test_suite/netrelay/relay.c: `parseArgs`, and `main` up to the threads.
pub mod Starts
use linux_device_driver.Base.{
  ℕ, suc, Bool, true, false, Option, none, some, List, [], ◌∷◌, if◌then◌else◌, ltb, ◌==◌, not, ℤ,
  pos, negsuc,
}
use linux_device_driver.Base.Text.{Text}
use linux_device_driver.Netrelay.{
  Packet, relay_find, relay_register, relay_id_dhcp, relay_id_eoe, service_to_net, net_to_service,
}

-- What getopt returns for one option: its letter, with optarg where it takes one, or an error.
pub data Opt : Type 0 where
  net_interface : Text → Opt
  service_interface : Text → Opt
  use_syslog : Opt
  debug : Opt
  enable_eoe : Opt
  enable_vlan : Opt
  enable_filter : Opt
  unknown_option : Opt

-- The static variables and the arguments.
pub record Settings : Type 0 where
  pub net_itf : Option Text
  pub service_itf : Option Text
  pub syslog_enabled : Bool
  pub log_level : ℕ
  pub service_enabled : Bool
  pub relay_id : ℕ
  pub filter_enable : Bool

abbrev pub defaults : Settings
defaults = record {
  net_itf = none;
  service_itf = none;
  syslog_enabled = false;
  log_level = 0;
  service_enabled = false;
  relay_id = 0;
  filter_enable = false;
}

abbrev pub max_log_level : ℕ
max_log_level = 2

-- The loop over getopt: whether it is left by `return 0`, and the variables.
unfoldable pub parse_loop : List Opt → Settings → Bool × Settings
parse_loop [] s = (true, s)
parse_loop (net_interface t ∷ os) s = parse_loop os (record s { net_itf = some t })
parse_loop (service_interface t ∷ os) s = parse_loop os (record s { service_itf = some t })
parse_loop (use_syslog ∷ os) s = parse_loop os (record s { syslog_enabled = true })
parse_loop (debug ∷ os) s = parse_loop os (record s {
  log_level = if ltb s.log_level max_log_level then suc s.log_level else s.log_level;
})
parse_loop (enable_eoe ∷ os) s =
    parse_loop os (record s { service_enabled = true; relay_id = relay_id_eoe })
parse_loop (enable_vlan ∷ os) s =
    parse_loop os (record s { service_enabled = true; relay_id = relay_id_dhcp })
parse_loop (enable_filter ∷ os) s = parse_loop os (record s { filter_enable = true })
parse_loop (unknown_option ∷ os) s = (false, s)

-- Behind the loop: `none` is the result 0.
abbrev pub complete : Bool × Settings → Option Settings
complete (ok, s) = if not ok then none else elim s.net_itf [
  | none ↦ none
  | some n ↦ elim s.service_itf [ none ↦ none | some t ↦ some s ]
]

unfoldable pub parse_args : List Opt → Option Settings
unfolding parse_loop
parse_args os = complete (parse_loop os defaults)

-- SERVICE_PRIV
abbrev pub service_priv : Bool → ℕ → ℕ
service_priv enabled op_code = if enabled then op_code else 0

-- What `main` comes to before it opens an interface: a failure, or the relay, whether the filter is
-- attached, and `priv` of the two threads. `id` and `info` are what service_init of the filter that
-- the program is linked with registers.
pub data Start : Type 0 where
  fails : Start
  starts : Packet → Bool → ℕ → ℕ → Start

-- Behind service_init: relay_find, and what the threads are given.
abbrev pub find_and_start : Settings → ℤ × List (Option Packet) → Start
find_and_start s (negsuc n, table) = fails
find_and_start s (pos n, table) = elim (relay_find table s.relay_id) [
  | none ↦ fails
  | some pkg ↦
      starts pkg s.filter_enable (service_priv s.service_enabled service_to_net)
        (service_priv s.service_enabled net_to_service)
]

unfoldable pub main_start : ℕ → Packet → List Opt → Start
unfolding parse_args
main_start id info os = elim (parse_args os) [
  | none ↦ fails
  | some s ↦ find_and_start s (relay_register (none ∷ none ∷ []) id (some info))
]
