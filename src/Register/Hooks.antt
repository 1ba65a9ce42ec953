-- ===== src/Register/Hooks.antt =====
-- generic/generic_access.c: the range of physical addresses whose 8-bit accesses go to callbacks.
use linux_device_driver.Base.{
  ℕ, Bool, ◌&&◌, Option, none, some, if◌then◌else◌, leb, ltb, ℤ, pos, add_u64, eqb_ℤ, ◌≡◌, refl,
  ◌≢◌, arith,
}
use linux_device_driver.Register.{Port}

-- `struct ga_ioaddr_ops`, with its opaque pointer as the state `H`; `none` is a NULL pointer.
pub record AddrOps (H : Type 0) : Type 0 where
  pub init : Option (ℕ → ℕ → H → ℤ × H)
  pub read8 : Option (ℕ → H → ℕ × H)
  pub write8 : Option (ℕ → ℕ → H → H)

-- `struct ga_ioaddr_info`
pub record AddrInfo (H : Type 0) : Type 0 where
  pub addr : ℕ
  pub size : ℕ
  pub ops : AddrOps H

-- What `ga_ioaddr_to_phys` answers: no page, in the range, or not.
pub data Where : Type 0 where
  no_page outside : Where
  inside : ℕ → Where

module _ {H : Type 0} where
  -- `addr_info` after its memset
  abbrev pub no_info : AddrInfo H
  no_info = record { addr = 0; size = 0; ops = record { init = none; read8 = none; write8 = none } }

  -- The result, the new `addr_info`, and the state.
  unfoldable pub ga_set_phys_addr_ops : ℕ → ℕ → Option (AddrOps H) → H → ℤ × AddrInfo H × H
  ga_set_phys_addr_ops addr size none h = (pos 0, no_info, h)
  ga_set_phys_addr_ops addr size (some ops) h =
      let info : AddrInfo H = record { addr = addr; size = size; ops = ops } in
      elim ops.init [
        | none ↦ (pos 0, info, h)
        | some init ↦
            let (ret, h') = init addr size h in
            if eqb_ℤ ret (pos 0) then (pos 0, info, h') else (ret, no_info, h')
      ]

  abbrev pub in_range : AddrInfo H → ℕ → Bool
  in_range info a = leb info.addr a && ltb a (add_u64 info.addr info.size)

  -- `phys` is vmalloc_to_page and page_to_phys: the physical address, if there is a page.
  pub ga_ioaddr_to_phys : (ℕ → Option ℕ) → AddrInfo H → ℕ → Where
  ga_ioaddr_to_phys phys info ioaddr = elim (phys ioaddr) [
    | none ↦ no_page
    | some a ↦ if in_range info a then inside a else outside
  ]

  module _ (phys : ℕ → Option ℕ) (raw : Port H) (info : AddrInfo H) where
    pub ga_raw_readb : ℕ → H → ℕ × H
    ga_raw_readb ioaddr h = elim info.ops.read8 [
      | none ↦ raw.read ioaddr h
      | some read8 ↦ elim (ga_ioaddr_to_phys phys info ioaddr) [
        | no_page ↦ (0, h)
        | inside a ↦ read8 a h
        | outside ↦ raw.read ioaddr h
      ]
    ]

    pub ga_raw_writeb : ℕ → ℕ → H → H
    ga_raw_writeb val ioaddr h = elim info.ops.write8 [
      | none ↦ raw.write val ioaddr h
      | some write8 ↦ elim (ga_ioaddr_to_phys phys info ioaddr) [
        | no_page ↦ h
        | inside a ↦ write8 val a h
        | outside ↦ raw.write val ioaddr h
      ]
    ]

    -- The port that the 8-bit accesses use.
    abbrev pub hooked : Port H
    hooked = record { read = ga_raw_readb; write = ga_raw_writeb }

-- Where the init callback fails, nothing is hooked: every 8-bit access is made on the hardware,
-- whatever was hooked before.
failed_unhooks :
    {H : Type 0} (addr size : ℕ) (ops : AddrOps H) (h h' : H) (e : ℤ) {info : AddrInfo H}
    (phys : ℕ → Option ℕ) (raw : Port H) (x v : ℕ) (k : H)
    → ga_set_phys_addr_ops addr size (some ops) h ≡ (e, info, h')
    → e ≢ pos 0
    → (ga_raw_readb phys raw info x k ≡ raw.read x k)
      × (ga_raw_writeb phys raw info v x k ≡ raw.write v x k)
unfolding ga_set_phys_addr_ops ga_raw_readb ga_raw_writeb
failed_unhooks addr size ops h h' e {info} phys raw x v k set bad =
    let bare : info ≡ no_info = ground arith in rw bare (refl, refl)
