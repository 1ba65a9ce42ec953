-- ===== src/Memloader/Load.antt =====
-- The whole load of an image in one piece: `fw_load_device_firmware` with the callbacks of the
-- memloader.
use linux_device_driver.Base.{
  ℕ, ◌+◌, ◌-◌, ◌≤◌, ◌<◌, ◌≡◌, refl, ap, ◌⊎◌, inl, inr, true, false, Bool-cases, Option, none, some,
  List, arith, length, ℤ, pos, pos_part, add_s32, ltb_ℤ,
}
use linux_device_driver.Base.Errno.{ebusy}
use linux_device_driver.Firmware.{
  FwState, Moment, in_round, Ctx, Progress, interfere, load_loop, nap, goes_on, is_loading,
}
use linux_device_driver.Firmware.Loop.{load_loop_rule, Round}
use linux_device_driver.Firmware.Outcome.{
  CameBy, Came-interfere, nap_keeps, wrote_block, load_block_goes, load_block_stops,
}
use linux_device_driver.Memloader.{Info, Ioremap, memloader_write}
use linux_device_driver.Memloader.Copy.{
  written-store, Loading, Fits, memloader_write_lem, chunk_bounds, after, size,
}

module _ {mem : ℕ → ℕ} {base : ℕ} {xs : List ℕ} {bs : ℕ} where
  pub Loading-interfere :
      {k : ℕ} (o : Option FwState) {ctx : Ctx} {info : Info}
      → Loading mem base xs bs k ctx info
      → Loading mem base xs bs k (interfere o ctx) info
  Loading-interfere none now = now
  Loading-interfere (some s) now = record {
    image = now.image;
    total = now.total;
    block = now.block;
    reached = now.reached;
    stored = now.stored;
    at_base = now.at_base;
    in_image = now.in_image;
    prefix = now.prefix;
  }

  Loading-after :
      {k : ℕ} {ctx : Ctx} {info : Info} (ioremap : Ioremap) (fits : Fits base xs)
      (now : Loading mem base xs bs k ctx info) (more : k < length xs)
      → (ctx' : Ctx) → Loading mem base xs bs k ctx' info
      → Loading mem base xs bs
          (k + size ioremap fits now more)
          (record ctx' {
            current_count = add_s32 ctx'.current_count (pos (size ioremap fits now more));
          })
          (after ioremap fits now more)
  Loading-after {k} {ctx} {info} ioremap fits now more ctx' now' = record {
    image = now'.image;
    total = now'.total;
    block = now'.block;
    reached = rw now'.reached (ground (arith, chunk_bounds ioremap fits now more, fits.small));
    stored = refl;
    at_base = now.at_base;
    in_image = (chunk_bounds ioremap fits now more).1;
    prefix =
        written-store mem info.mem base xs k (size ioremap fits now more)
          (chunk_bounds ioremap fits now more).1 now.prefix;
  }

module _ (ioremap : Ioremap) (others : Moment → Option FwState) (mem : ℕ → ℕ) (base : ℕ)
    (xs : List ℕ) (bs : ℕ) where
  -- At the test of the loop.
  pub record Entered (p : Progress Info) : Type 0 where
    pub k : ℕ
    pub now : Loading mem base xs bs k p.ctx p.world
    pub came : CameBy others p.ctx.state
    pub good : ltb_ℤ p.ret (pos 0) ≡ false

  Entered-nap : (q : Progress Info) → Entered q → Entered (nap q)
  Entered-nap q e =
      let (c, w, r) = nap_keeps q in
      record { k = e.k; now = rw (c, w) e.now; came = rw c e.came; good = rw r e.good }

  -- Why the loop ended: the image is there, the load was cancelled, or ioremap failed.
  abbrev pub Reason : ℕ → Progress Info → Type 0
  Reason k p =
      ((ltb_ℤ p.ret (pos 0) ≡ false) × ((k ≡ length xs) ⊎ (is_loading p.ctx.state ≡ false)))
      ⊎ ((a : ℕ) × (n : ℤ) × (ioremap a n ≡ false) × (p.ret ≡ ebusy))

  pub record Left (p : Progress Info) : Type 0 where
    pub k : ℕ
    pub now : Loading mem base xs bs k p.ctx p.world
    pub came : CameBy others p.ctx.state
    pub reason : Reason k p

  abbrev missing : Progress Info → ℕ
  missing p = length xs - pos_part p.world.current_count

  module _ (fits : Fits base xs) where
    round :
        (i : ℕ) (p : Progress Info)
        → Entered p
        → goes_on p.ctx ≡ true
        → Round (memloader_write ioremap) none others Entered Left missing i p
    round i p e go =
        let more : e.k < length xs = ground (arith, e.now.total, e.now.reached, e.now.in_image) in
        let n : ℕ = size ioremap fits e.now more in
        elim (Bool-cases (ioremap (base + e.k) (pos n))) [
          | inl ok ↦
              let wrote : memloader_write ioremap p.ctx p.world
                  ≡ some (pos n, after ioremap fits e.now more) =
                rw (memloader_write_lem ioremap fits e.now more, ok) in
              let q : Progress Info =
                wrote_block (memloader_write ioremap) none (others (in_round i)) p wrote in
              let e' : Entered q = record {
                k = e.k + n;
                now =
                    Loading-after ioremap fits e.now more (interfere (others (in_round i)) p.ctx)
                      (Loading-interfere (others (in_round i)) e.now);
                came = Came-interfere others (in_round i) p.ctx e.came;
                good = ground arith;
              } in
              let (_, kept, _) = nap_keeps q in
              let there : pos_part (nap q).world.current_count ≡ e.k + n =
                ap (λ (w : Info). pos_part w.current_count) kept in
              let here : pos_part p.world.current_count ≡ e.k = ap pos_part e.now.stored in
              let bounds : (0 < n) × (e.k + n ≤ length xs) = chunk_bounds ioremap fits e.now more in
              (
                nap q,
                inl (
                  load_block_goes (memloader_write ioremap) none (others (in_round i)) p wrote
                      (ground (arith, bounds)),
                  Entered-nap q e',
                  omega arith,
                ),
              )
          | inr bad ↦
              let wrote : memloader_write ioremap p.ctx p.world ≡ some (ebusy, p.world) =
                rw (memloader_write_lem ioremap fits e.now more, bad) in
              (
                record p { ctx = interfere (others (in_round i)) p.ctx; ret = ebusy },
                inr (
                  load_block_stops (memloader_write ioremap) none (others (in_round i)) p wrote
                      refl,
                  record {
                    k = e.k;
                    now = Loading-interfere (others (in_round i)) e.now;
                    came = Came-interfere others (in_round i) p.ctx e.came;
                    reason = inr (base + e.k, pos n, bad, refl);
                  },
                ),
              )
        ]

    pub loop_Left :
        (fuel : ℕ) (p : Progress Info)
        → missing p < fuel
        → Entered p
        → (q : Progress Info) × (load_loop (memloader_write ioremap) none others fuel 0 p ≡ some q)
          × Left q
    loop_Left fuel p =
        load_loop_rule (memloader_write ioremap) none others Entered Left missing round ends fuel 0
          p
      where
        ends : (p : Progress Info) → Entered p → goes_on p.ctx ≡ false → Left p
        ends p e stop = record {
          k = e.k;
          now = e.now;
          came = e.came;
          reason = inl (e.good, ground (arith, e.now.total, e.now.reached, e.now.in_image));
        }
