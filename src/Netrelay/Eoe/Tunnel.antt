-- ===== src/Netrelay/Eoe/Tunnel.antt =====
-- test_suite/netrelay/eoe_filter.c with test_suite/netrelay/relay.c: packets that go through the two
-- directions of the relay, one after the other.
use mathlib.Core.Path.{subst}
use linux_device_driver.Base.{
  ℕ, ◌+◌, ◌-◌, ◌^◌, ◌≤◌, ◌<◌, ◌≡◌, refl, ap, sym, ◌∙◌, some, List, [], ◌∷◌, ◌++◌, ◌/◌, ◌%◌,
  replicate, map, take, length, splice, arith, length-append, length-splice, take_of_length_le, max,
  u32,
}
use linux_device_driver.Base.Maybe.{◌>>=◌}
use linux_device_driver.Base.Windows.{window, window-splice}
use linux_device_driver.Netrelay.{Buffer, Packet, buffer_reset, service_to_net, net_to_service}
use linux_device_driver.Netrelay.Forward.{
  Wrote, Received, packet, Status, waiting, left_loop, write_loop, take_packet, forward_packets,
}
use linux_device_driver.Netrelay.Forward.Delivery.{Takes, delivered}
use linux_device_driver.Netrelay.Eoe.{
  Endian, big, little, init_eoe_header, packet_edit, packet_buffer_prepare, add_eoe_header,
  del_eoe_header, eoe_info,
}
use linux_device_driver.Netrelay.Eoe.Steps.{
  pad, frame, Holds, length-pad, length-header, extended, pushed, opened,
}

-- The memory that packetBufferInit asks for in both directions.
abbrev pub allocated : ℕ
allocated = 65557

-- A packet that has been read to `p`.
filled :
    (base : List ℕ) (p : ℕ) (xs : List ℕ)
    → length base ≡ allocated
    → p + length xs ≤ allocated
    → Holds
        (record {
          base = splice base p (take (length base - p) xs);
          data_ = p;
          size = length (take (length base - p) xs);
        })
        allocated
        xs
filled base p xs room fits =
    let e : take (length base - p) xs ≡ xs =
      take_of_length_le (length base - p) xs (omega (arith, room)) in
    subst
      (λ ys. Holds (record { base = splice base p ys; data_ = p; size = length ys }) allocated xs)
      (sym e)
      (record {
        room = length-splice base p xs ∙ room;
        count = refl;
        inside = fits;
        bytes = window-splice p xs base (omega (arith, room));
      })

length-frame : (e : Endian) (xs : List ℕ) → length (frame e xs) ≡ 22 + max 64 (length xs)
length-frame e xs =
    length-append (init_eoe_header e (length (pad xs))) (pad xs)
    ∙ omega (arith, length-header e (length (pad xs)), length-pad xs)

wrapped :
    (e : Endian) (xs : List ℕ) (b : Buffer)
    → length b.base ≡ allocated
    → length xs ≤ 65535
    → (b' : Buffer) × (take_packet (eoe_info e) service_to_net xs b ≡ some b')
      × Holds b' allocated (frame e xs)
unfolding take_packet packet_edit packet_buffer_prepare buffer_reset add_eoe_header
wrapped e xs b room short =
    let ys : List ℕ = take (length b.base - 22) xs in
    let b₁ : Buffer = record { base = splice b.base 22 ys; data_ = 22; size = length ys } in
    let (b₂, e₂, d₂, h₂) =
      extended b₁ allocated xs (filled b.base 22 xs room (omega arith)) (omega arith) in
    let (b₃, e₃, d₃, h₃) =
      pushed b₂ allocated (pad xs) h₂ e (omega (arith, d₂)) (omega (arith, length-pad xs)) in
    (b₃, rw (e₂, ◌>>=◌) e₃, h₃)

unwrapped :
    (e : Endian) (xs : List ℕ) (b : Buffer)
    → length b.base ≡ allocated
    → length xs ≤ 65535
    → (b' : Buffer) × (take_packet (eoe_info e) net_to_service (frame e xs) b ≡ some b')
      × Holds b' allocated (pad xs)
unfolding take_packet packet_edit packet_buffer_prepare buffer_reset
unwrapped e xs b room short =
    let ys : List ℕ = take (length b.base - 0) (frame e xs) in
    let b₁ : Buffer = record { base = splice b.base 0 ys; data_ = 0; size = length ys } in
    (
      del_eoe_header b₁,
      refl,
      opened b₁ allocated (init_eoe_header e (length (pad xs))) (pad xs)
          (length-header e (length (pad xs))) (omega (arith, length-frame e xs))
          (filled b.base 0 (frame e xs) room (omega (arith, length-frame e xs))),
    )

-- One round of the outer loop.
round :
    (pkg : Packet) (priv n : ℕ) (xs zs : List ℕ) (ws : List Wrote) (rs : List Received)
    (b b' : Buffer) {sent : List (List ℕ)} {s : Status}
    → take_packet pkg priv xs b ≡ some b'
    → Holds b' n zs
    → Takes ws (length zs)
    → length zs < 2 ^ 32
    → forward_packets pkg priv rs b' ≡ some (sent, s)
    → forward_packets pkg priv (packet xs ws ∷ rs) b ≡ some (zs ∷ sent, s)
unfolding forward_packets
round pkg priv n xs zs ws rs b b' {sent} {s} e holds takes small later =
    let c : u32 b'.size ≡ length zs = omega (arith, holds.count) in
    let w : write_loop ws b' 0 (u32 b'.size) ≡ (zs, left_loop) =
      ap (write_loop ws b' 0) c
      ∙ delivered ws b' 0 (length zs) takes small
      ∙ ap (λ r. (r, left_loop))
          (ap (λ p. window p (length zs) b'.base) (omega arith) ∙ holds.bytes) in
    rw (forward_packets, e, ◌>>=◌, w, later) (ap (λ r. some (r.0 ∷ sent, s)) w)

-- The header before a payload of `n` bytes, byte by byte: the addresses, 0x81000ffe, the number of bytes
-- behind the length field, the operation 8 upstream, and zeros. The byte order is the machine's.
abbrev pub header_bytes : Endian → ℕ → List ℕ
header_bytes big n =
    6
    ∷ 0
    ∷ 0
    ∷ 0
    ∷ 0
    ∷ 0xf8
    ∷ 6
    ∷ 0
    ∷ 0
    ∷ 0
    ∷ 0
    ∷ 0x78
    ∷ 0x81
    ∷ 0
    ∷ 0x0f
    ∷ 0xfe
    ∷ (n + 4) / 256 % 256
    ∷ (n + 4) % 256
    ∷ 0x80
    ∷ 0
    ∷ 0
    ∷ 0
    ∷ []
header_bytes little n =
    6
    ∷ 0
    ∷ 0
    ∷ 0
    ∷ 0
    ∷ 0xf8
    ∷ 6
    ∷ 0
    ∷ 0
    ∷ 0
    ∷ 0
    ∷ 0x78
    ∷ 0xfe
    ∷ 0x0f
    ∷ 0
    ∷ 0x81
    ∷ (n + 4) % 256
    ∷ (n + 4) / 256 % 256
    ∷ 0x08
    ∷ 0
    ∷ 0
    ∷ 0
    ∷ []

init_eoe_header_lem : (e : Endian) (n : ℕ) → init_eoe_header e n ≡ header_bytes e n
unfolding init_eoe_header
init_eoe_header_lem big n =
    let low : (n + 4) % 65536 % 256 ≡ (n + 4) % 256 = omega arith in
    let high : (n + 4) % 65536 / 256 % 256 ≡ (n + 4) / 256 % 256 = omega arith in
    rw (low, high) refl
init_eoe_header_lem little n =
    let low : (n + 4) % 65536 % 256 ≡ (n + 4) % 256 = omega arith in
    let high : (n + 4) % 65536 / 256 % 256 ≡ (n + 4) / 256 % 256 = omega arith in
    rw (low, high) refl

-- What is sent for a payload: the header, the payload, and zeros up to 64 bytes.
abbrev pub sent_frame : Endian → List ℕ → List ℕ
sent_frame e xs = header_bytes e (max 64 (length xs)) ++ (xs ++ replicate (64 - length xs) 0)

sent_frame_lem : (e : Endian) (xs : List ℕ) → frame e xs ≡ sent_frame e xs
sent_frame_lem e xs =
    ap (λ n. init_eoe_header e n ++ pad xs) (length-pad xs)
    ∙ ap (λ h. h ++ pad xs) (init_eoe_header_lem e (max 64 (length xs)))

-- A packet on its way: its bytes, and what write answers in each of the two directions.
pub record Journey : Type 0 where
  pub payload : List ℕ
  pub out : List Wrote
  pub back : List Wrote

-- No payload is longer than 65535 bytes, and write takes every packet whole.
abbrev pub Travels : List Journey → Type 0
Travels [] = Unit
Travels (j ∷ js) =
    (length j.payload ≤ 65535)
    × Takes j.out (22 + max 64 (length j.payload))
    × Takes j.back (max 64 (length j.payload))
    × Travels js

module _ (e : Endian) where
  going :
      (js : List Journey) (b : Buffer)
      → length b.base ≡ allocated
      → Travels js
      → forward_packets (eoe_info e) service_to_net (map (λ j. packet j.payload j.out) js) b
        ≡ some (map (λ j. frame e j.payload) js, waiting)
  going [] b room h = unfold forward_packets in refl
  going (j ∷ js) b room h =
      let (b', f, holds) = wrapped e j.payload b room h.0 in
      round (eoe_info e) service_to_net allocated j.payload (frame e j.payload) j.out
        (map (λ j. packet j.payload j.out) js) b b' f holds
        (subst (Takes j.out) (sym (length-frame e j.payload)) h.1)
        (omega (arith, length-frame e j.payload)) (going js b' holds.room h.3)

  coming :
      (js : List Journey) (b : Buffer)
      → length b.base ≡ allocated
      → Travels js
      → forward_packets
          (eoe_info e)
          net_to_service
          (map (λ j. packet (frame e j.payload) j.back) js)
          b
        ≡ some (map (λ j. pad j.payload) js, waiting)
  coming [] b room h = unfold forward_packets in refl
  coming (j ∷ js) b room h =
      let (b', f, holds) = unwrapped e j.payload b room h.0 in
      round (eoe_info e) net_to_service allocated (frame e j.payload) (pad j.payload) j.back
        (map (λ j. packet (frame e j.payload) j.back) js) b b' f holds
        (subst (Takes j.back) (sym (length-pad j.payload)) h.2)
        (omega (arith, length-pad j.payload)) (coming js b' holds.room h.3)

  sent_all :
      (js : List Journey) → map (λ j. frame e j.payload) js ≡ map (λ j. sent_frame e j.payload) js
  sent_all [] = refl
  sent_all (j ∷ js) =
      ap (λ x. x ∷ map (λ j. frame e j.payload) js) (sent_frame_lem e j.payload)
      ∙ ap (λ r. sent_frame e j.payload ∷ r) (sent_all js)

  read_all :
      (js : List Journey)
      → map (λ j. packet (frame e j.payload) j.back) js
        ≡ map (λ j. packet (sent_frame e j.payload) j.back) js
  read_all [] = refl
  read_all (j ∷ js) =
      ap (λ x. packet x j.back ∷ map (λ j. packet (frame e j.payload) j.back) js)
        (sent_frame_lem e j.payload)
      ∙ ap (λ r. packet (sent_frame e j.payload) j.back ∷ r) (read_all js)

  -- Any sequence of packets of at most 65535 bytes, in buffers as packetBufferInit allocates them,
  -- with any contents, where write takes every packet whole, in pieces and with interruptions: the
  -- direction to the network stays inside of its buffer and sends, one frame for each packet and in
  -- order, the 22 bytes of the header, given byte by byte, with the number of bytes behind its length
  -- field modulo 65536, then the payload, with zeros up to 64 bytes; and the direction to the service,
  -- when it reads these frames, stays inside of its buffer and sends the payloads, with the same
  -- zeros. Both then wait for the next packet.
  pub tunnel :
      (js : List Journey) (b c : Buffer)
      → length b.base ≡ allocated
      → length c.base ≡ allocated
      → Travels js
      → (forward_packets (eoe_info e) service_to_net (map (λ j. packet j.payload j.out) js) b
          ≡ some (map (λ j. sent_frame e j.payload) js, waiting))
        × (forward_packets
              (eoe_info e)
              net_to_service
              (map (λ j. packet (sent_frame e j.payload) j.back) js)
              c
            ≡ some (map (λ j. pad j.payload) js, waiting))
  tunnel js b c room room' h = (
    going js b room h ∙ ap (λ r. some (r, waiting)) (sent_all js),
    ap (λ r. forward_packets (eoe_info e) net_to_service r c) (sym (read_all js))
        ∙ coming js c room' h,
  )

-- A frame shorter than the header, read by the direction to the service: the size wraps, and write
-- is asked to send more than 4294967273 bytes from behind the frame.
short_frame_wraps :
    (e : Endian) (xs : List ℕ) (b : Buffer)
    → length b.base ≡ allocated
    → length xs < 22
    → (b' : Buffer) × (take_packet (eoe_info e) net_to_service xs b ≡ some b')
      × (u32 b'.size ≡ 4294967274 + length xs)
      × (b'.data_ ≡ 22)
unfolding take_packet packet_edit packet_buffer_prepare buffer_reset del_eoe_header
short_frame_wraps e xs b room short =
    let ys : List ℕ = take (length b.base - 0) xs in
    let b₁ : Buffer = record { base = splice b.base 0 ys; data_ = 0; size = length ys } in
    let n : length ys ≡ length xs =
      ap length (take_of_length_le (length b.base - 0) xs (omega (arith, room))) in
    (del_eoe_header b₁, refl, omega (arith, n), refl)
