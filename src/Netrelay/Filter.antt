-- ===== src/Netrelay/Filter.antt =====
-- test_suite/netrelay/dhcp_filter.c, test_suite/netrelay/eoe_filter.c: the socket filters, programs of
-- the classic BPF machine, which run on the bytes of a frame.
pub mod Steps
pub mod Accepts
use linux_device_driver.Base.{
  ℕ, zero, suc, ◌+◌, ◌*◌, Option, none, some, List, [], ◌∷◌, drop, length, get_elem?, if◌then◌else◌,
  ◌==◌, bit_and,
}
use linux_device_driver.Base.Maybe.{◌>>=◌}

-- struct sock_filter
pub record Instr : Type 0 where
  pub code : ℕ
  pub jt : ℕ
  pub jf : ℕ
  pub k : ℕ

abbrev pub instr : ℕ → ℕ → ℕ → ℕ → Instr
instr code jt jf k = record { code = code; jt = jt; jf = jf; k = k }

abbrev pub dhcp_filter : List Instr
dhcp_filter =
    instr 0x28 0 0 0x0000000c
    ∷ instr 0x15 0 13 0x00008100
    ∷ instr 0x28 0 0 0x0000000e
    ∷ instr 0x54 0 0 0x00000fff
    ∷ instr 0x15 10 0 0x00000ffe
    ∷ instr 0x28 0 0 0x00000010
    ∷ instr 0x15 0 8 0x00000800
    ∷ instr 0x30 0 0 0x0000001b
    ∷ instr 0x15 0 6 0x00000011
    ∷ instr 0x28 0 0 0x00000018
    ∷ instr 0x45 4 0 0x00001fff
    ∷ instr 0xb1 0 0 0x00000012
    ∷ instr 0x48 0 0 0x00000014
    ∷ instr 0x15 0 1 0x00000044
    ∷ instr 0x6 0 0 0x00040000
    ∷ instr 0x6 0 0 0x00000000
    ∷ []

abbrev pub eoe_filter : List Instr
eoe_filter =
    instr 0x30 0 0 0x00000012
    ∷ instr 0x54 0 0 0x000000f0
    ∷ instr 0x15 0 3 0x00000010
    ∷ instr 0x28 0 0 0x00000026
    ∷ instr 0x15 1 0 0x000008ab
    ∷ instr 0x06 0 0 0x0000ffff
    ∷ instr 0x06 0 0 0x00000000
    ∷ []

-- A byte and a half word in network order; `none` behind the end of the frame.
abbrev pub byte_at : List ℕ → ℕ → Option ℕ
byte_at frame i = get_elem? frame i

abbrev pub half_at : List ℕ → ℕ → Option ℕ
half_at frame i = byte_at frame i >>= λ hi. byte_at frame (suc i) >>= λ lo. some (hi * 256 + lo)

-- The machine with its registers A and X, for the instructions that the two programs use: ldh, ldb,
-- ldxb 4*([k]&0xf), ldh [x + k], and, jeq, jset, ret. The result is the number of bytes of the frame
-- that pass; a load behind its end rejects it. The fuel is the length of the program: every
-- instruction moves on.
unfoldable pub run : ℕ → List Instr → List ℕ → ℕ → ℕ → ℕ
run zero prog frame a x = 0
run (suc fuel) [] frame a x = 0
run (suc fuel) (i ∷ prog) frame a x =
    let next : ℕ → ℕ → ℕ = run fuel prog frame in
    let jump : ℕ → ℕ = λ n. run fuel (drop n prog) frame a x in
    if i.code == 0x28
    then elim (half_at frame i.k) [ none ↦ 0 | some v ↦ next v x ]
    else if i.code == 0x30
    then elim (byte_at frame i.k) [ none ↦ 0 | some v ↦ next v x ]
    else if i.code == 0xb1
    then elim (byte_at frame i.k) [ none ↦ 0 | some v ↦ next a (bit_and v 0xf * 4) ]
    else if i.code == 0x48
    then elim (half_at frame (x + i.k)) [ none ↦ 0 | some v ↦ next v x ]
    else if i.code == 0x54
    then next (bit_and a i.k) x
    else if i.code == 0x15
    then jump (if a == i.k then i.jt else i.jf)
    else if i.code == 0x45
    then jump (if bit_and a i.k == 0 then i.jf else i.jt)
    else if i.code == 0x6
    then i.k
    else 0

unfoldable pub filter : List Instr → List ℕ → ℕ
unfolding run
filter prog frame = run (length prog) prog frame 0 0
