-- ===== src/Firmware/Loop.antt =====
-- A rule for the loop of `fw_load_device_firmware`: an invariant, and a measure that falls.
use linux_device_driver.Base.{
  ℕ, zero, suc, ◌+◌, ◌<◌, ◌≡◌, ◌⊎◌, inl, inr, true, false, Bool-cases, Option, some, arith,
}
use linux_device_driver.Firmware.{
  FwState, Moment, in_round, Callback, Progress, load_block, load_loop, goes_on,
}

module _ {W : Type 0} (write : Callback W) (read : Option (Callback W))
    (others : Moment → Option FwState) (P Q : Progress W → Type 0) (measure : Progress W → ℕ) where
  -- What one round makes of a state that the loop is entered with.
  abbrev pub Round : ℕ → Progress W → Type 0
  Round i p =
      (q : Progress W) × ((load_block write read (others (in_round i)) p ≡ some (true, q))
          × P q
          × (measure q < measure p)
        ⊎ (load_block write read (others (in_round i)) p ≡ some (false, q)) × Q q)

  pub load_loop_rule :
      ((i : ℕ) (p : Progress W) → P p → goes_on p.ctx ≡ true → Round i p)
      → ((p : Progress W) → P p → goes_on p.ctx ≡ false → Q p)
      → (fuel i : ℕ) (p : Progress W) → measure p < fuel
      → P p
      → (q : Progress W) × (load_loop write read others fuel i p ≡ some q) × Q q
  unfolding load_loop
  load_loop_rule round exit zero i p m h = absurd (omega arith)
  load_loop_rule round exit (suc fuel) i p m h = elim (Bool-cases (goes_on p.ctx)) [
    | inr stop ↦ (p, rw (stop, load_loop), exit p h stop)
    | inl go ↦
        let (q, outcome) = round i p h go in
        elim outcome [
          | inl (e, hq, less) ↦
              let (r, er, hr) = load_loop_rule round exit fuel (i + 1) q (omega arith) hq in
              (r, rw (go, load_loop, e) er, hr)
          | inr (e, hq) ↦ (q, rw (go, load_loop, e), hq)
        ]
  ]
