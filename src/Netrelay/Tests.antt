-- ===== src/Netrelay/Tests.antt =====
-- test_suite/netrelay: packets through the EoE relay, tags through the DHCP relay, and frames at the
-- filters.
use linux_device_driver.Base.{
  ℕ, ◌≡◌, refl, true, some, List, [], ◌∷◌, ◌++◌, arith, replicate, length-replicate,
}
use linux_device_driver.Base.Text.{codes}
use linux_device_driver.Netrelay.{Buffer, Packet, service_to_net, net_to_service}
use linux_device_driver.Netrelay.Forward.{
  wrote, write_again, packet, waiting, left_loop, write_loop, forward_packets,
}
use linux_device_driver.Netrelay.Forward.Delivery.{delivered}
use linux_device_driver.Netrelay.Eoe.{big, eoe_info}
use linux_device_driver.Netrelay.Eoe.Steps.{pad}
use linux_device_driver.Netrelay.Eoe.Tunnel.{Journey, allocated, sent_frame, tunnel}
use linux_device_driver.Netrelay.Filter.{dhcp_filter, filter}
use linux_device_driver.Netrelay.Filter.Accepts.{dhcp_filter_exact}
use linux_device_driver.Netrelay.Options.{
  net_interface, service_interface, enable_eoe, enable_vlan, enable_filter, main_start, starts,
}
use linux_device_driver.Netrelay.Options.Starts.{relay_starts}

abbrev fresh : Buffer
fresh = record { base = replicate allocated 0; data_ = 0; size = 0 }

abbrev hello : List ℕ
hello = codes "hello"

-- The frame goes out in two pieces around an interruption, and comes back in one.
abbrev journeys : List Journey
journeys =
    record { payload = hello; out = wrote 80 ∷ write_again ∷ wrote 6 ∷ []; back = wrote 64 ∷ [] }
    ∷ []

tunnel_example :
    (forward_packets
        (eoe_info big)
        service_to_net
        (packet hello (wrote 80 ∷ write_again ∷ wrote 6 ∷ []) ∷ [])
        fresh
      ≡ some (sent_frame big hello ∷ [], waiting))
    × (forward_packets
          (eoe_info big)
          net_to_service
          (packet (sent_frame big hello) (wrote 64 ∷ []) ∷ [])
          fresh
        ≡ some (pad hello ∷ [], waiting))
tunnel_example =
    tunnel big journeys fresh fresh (length-replicate {A = ℕ} allocated 0)
      (length-replicate {A = ℕ} allocated 0)
      (
        omega arith,
        (omega arith, omega arith, (omega arith, omega arith, refl)),
        (omega arith, omega arith, refl),
        tt,
      )

abbrev tagged : Buffer
tagged = record {
  base = replicate 12 7 ++ (0x81 ∷ 0x00 ∷ 0xa0 ∷ 0x01 ∷ 0x08 ∷ 0x00 ∷ []);
  data_ = 0;
  size = 18;
}

delivered_example :
    write_loop (wrote 3 ∷ write_again ∷ wrote 15 ∷ []) tagged 0 18 ≡ (tagged.base, left_loop)
delivered_example =
    delivered (wrote 3 ∷ write_again ∷ wrote 15 ∷ []) tagged 0 18
      (omega arith, omega arith, (omega arith, omega arith, refl)) (omega arith)

-- A DHCP answer in the VLAN 5, with an IPv4 header of five words.
abbrev offer : List ℕ
offer =
    replicate 12 1
    ++ (0x81 ∷ 0x00 ∷ 0x00 ∷ 0x05 ∷ 0x08 ∷ 0x00 ∷ 0x45 ∷ 0 ∷ 1 ∷ 72 ∷ 0 ∷ 0 ∷ 0x40 ∷ 0 ∷ 64 ∷ 17 ∷ 0
        ∷ 0 ∷ 10 ∷ 0 ∷ 0 ∷ 1 ∷ 10 ∷ 0 ∷ 0 ∷ 2 ∷ 0 ∷ 67 ∷ 0 ∷ 68 ∷ [])

dhcp_filter_exact_example : filter dhcp_filter offer ≡ 0x40000
dhcp_filter_exact_example = dhcp_filter_exact offer

offer_passes : filter dhcp_filter offer ≡ 0x40000
unfolding filter
offer_passes = refl

-- A relay that does nothing to its packets.
abbrev plain : Packet
plain = record { init_size = λ p. 65535; prepare = λ b p. b; edit = λ b p. some b }

relay_starts_example :
    main_start 1 plain (
      enable_vlan
      ∷ net_interface (codes "eth0")
      ∷ enable_eoe
      ∷ service_interface (codes "tap0")
      ∷ enable_filter
      ∷ [])
    ≡ starts plain true 1 2
relay_starts_example =
    relay_starts 1 plain
      (enable_vlan
        ∷ net_interface (codes "eth0")
        ∷ enable_eoe
        ∷ service_interface (codes "tap0")
        ∷ enable_filter
        ∷ [])
      (codes "eth0") (codes "tap0") (omega arith) tt refl refl
