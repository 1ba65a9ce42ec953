-- ===== src/Firmware/Outcome.antt =====
-- How a load ends, whatever driver it is for: cancels from other threads, and the last switch.
use linux_device_driver.Base.{
  suc, negsuc, ◌<◌, ◌^◌, not, ℕ, ◌≡◌, ◌∙◌, refl, ◌⊎◌, inr, Bool, true, false, Option, none, some,
  arith, ℤ, pos, leb_ℤ, add_s32,
}
use linux_device_driver.Base.Maybe.{◌>>=◌}
use linux_device_driver.Base.Errno.{einval}
use linux_device_driver.Firmware.{
  FwState, Moment, requesting, starting, in_round, leaving, ending, ended, empty, loading, failed,
  deleted, Ctx, Callback, Ops, Progress, interfere, nap, load_block, read_block, Image, fresh,
  at_start, may_start, fw_load_device_firmware, transfer, call_start, call_end, load_loop, conclude,
  fail_if_neg, settle, is_loading, failed, loading, goes_on,
}

-- What other threads do to a load in progress: nothing, a cancel, or the removal of the device.
abbrev pub OnlyCancels : (Moment → Option FwState) → Type 0
OnlyCancels others = (i : Moment) (s : FwState) → others i ≡ some s → (s ≡ empty) ⊎ (s ≡ deleted)

-- The state is `from`, or what another thread has stored.
abbrev pub Came : (Moment → Option FwState) → FwState → FwState → Type 0
Came others from s = (s ≡ from) ⊎ ((i : Moment) × (others i ≡ some s))

-- Up to the end of the loop.
abbrev pub CameBy : (Moment → Option FwState) → FwState → Type 0
CameBy others s = Came others loading s

pub Came-interfere :
    (others : Moment → Option FwState) (i : Moment) (ctx : Ctx) {from : FwState}
    → Came others from ctx.state
    → Came others from (interfere (others i) ctx).state
Came-interfere others i ctx {from} c = go (others i) refl
  where
    go : (o : Option FwState) → others i ≡ o → Came others from (interfere o ctx).state
    go none e = c
    go (some s) e = inr (i, e)

module _ {W : Type 0} (p : Progress W) where
  pub nap_keeps : ((nap p).ctx ≡ p.ctx) × ((nap p).world ≡ p.world) × ((nap p).ret ≡ p.ret)
  unfolding nap
  nap_keeps = ground arith

-- A round of the loop; where it goes on, of a driver that has no read callback.
module _ {W : Type 0} (write : Callback W) (read : Option (Callback W)) (o : Option FwState)
    (p : Progress W) {r : ℤ} {w : W} (wrote : write p.ctx p.world ≡ some (r, w)) where
  -- The variables of the loop after a call that wrote something, before the nap.
  abbrev pub wrote_block : Progress W
  wrote_block = record p {
    ctx = record (interfere o p.ctx) {
      current_count = add_s32 (interfere o p.ctx).current_count r;
    };
    world = w;
    ret = r;
    curr_count = add_s32 p.curr_count r;
  }

  pub load_block_stops :
      leb_ℤ r (pos 0) ≡ true
      → load_block write read o p
        ≡ some (false, record p { ctx = interfere o p.ctx; world = w; ret = r })
  unfolding load_block
  load_block_stops h = rw (wrote, h)

  pub load_block_goes :
      leb_ℤ r (pos 0) ≡ false → load_block write none o p ≡ some (true, nap wrote_block)
  unfolding load_block read_block
  load_block_goes h = rw (wrote, h)

-- A load with a driver that has the start, write and end callbacks, in parts.
module _ {W : Type 0} (start write : Callback W) (read : Option (Callback W))
    (end : Ctx → Bool → W → Option (ℤ × W)) (others : Moment → Option FwState) (fuel : ℕ) where
  abbrev pub ops : Ops W
  ops = record { start = some start; write = some write; read = read; end = some end }

  pub load_starts :
      (fw : Image) (ctx : Ctx) (w : W) {w' : W}
      → may_start ctx.state ≡ true
      → start (interfere (others requesting) (fresh fw ctx)) w ≡ some (pos 0, w')
      → fw_load_device_firmware ops others fuel (pos 0, fw) ctx w true ≡ (
          load_loop write read others fuel 0 (
            at_start
              (interfere (others starting) (interfere (others requesting) (fresh fw ctx)))
              (pos 0)
              w')
          >>= λ p. conclude ops others p)
  unfolding fw_load_device_firmware transfer call_start
  load_starts fw ctx w may started = rw (may, started)

  -- The context when `end` is called, and at the last switch after it has returned `r`.
  abbrev pub left : Progress W → Ctx
  left p = interfere (others leaving) (fail_if_neg p.ret p.ctx)

  abbrev pub at_last : ℤ → Progress W → Ctx
  at_last r p = interfere (others ended) (fail_if_neg r (interfere (others ending) (left p)))

  pub conclude_lem :
      (p : Progress W) {r : ℤ} {w : W}
      → end (left p) (not (is_loading (left p).state)) p.world ≡ some (r, w)
      → conclude ops others p ≡ some ((settle r (at_last r p)).0, (settle r (at_last r p)).1, w)
  unfolding conclude call_end
  conclude_lem p e = rw e

  -- An error of the write callback is lost where the driver has an end callback that succeeds: a
  -- load of a non-empty image of less than 2 GiB that may start, whose start callback returns 0
  -- and whose first write fails, where no other thread stores a state, ends in FW_FAILED and returns
  -- what `end` returned, not the error.
  pub write_error_hidden :
      (fw : Image) (ctx : Ctx) (w w' w'' w''' : W) (e r : ℕ) (more : ℕ)
      → fuel ≡ suc more
      → may_start ctx.state ≡ true
      → others requesting ≡ none
      → others starting ≡ none
      → others (in_round 0) ≡ none
      → others leaving ≡ none
      → others ending ≡ none
      → others ended ≡ none
      → 0 < fw.size
      → fw.size < 2 ^ 31
      → start (fresh fw ctx) w ≡ some (pos 0, w')
      → write (fresh fw ctx) w' ≡ some (negsuc e, w'')
      → end (record (fresh fw ctx) { state = failed }) true w'' ≡ some (pos r, w''')
      → fw_load_device_firmware ops others fuel (pos 0, fw) ctx w true
        ≡ some (pos r, record (fresh fw ctx) { state = failed }, w''')
  unfolding load_loop
  write_error_hidden fw ctx w w' w'' w''' e r more f may asked begins quiet leaves ends closes
        some_bytes small started wrote concluded =
      let begun : Ctx = fresh fw ctx in
      let p : Progress W = record (at_start begun (pos 0) w') { world = w''; ret = negsuc e } in
      let lost : Ctx = record begun { state = failed } in
      let go : goes_on begun ≡ true = ground arith in
      let stop : load_block write read none (at_start begun (pos 0) w') ≡ some (false, p) =
        load_block_stops write read none (at_start begun (pos 0) w') wrote (ground arith) in
      let marked : fail_if_neg (negsuc e) begun ≡ lost = ground arith in
      let kept : fail_if_neg (pos r) lost ≡ lost = ground arith in
      let told : end (left p) (not (is_loading (left p).state)) w'' ≡ some (pos r, w''') =
        rw (leaves, marked) concluded in
      let final : conclude ops others p ≡ some (pos r, lost, w''') =
        conclude_lem p told ∙ rw (leaves, ends, closes, marked, kept) in
      let started_so : start (interfere (others requesting) begun) w ≡ some (pos 0, w') =
        rw asked started in
      rw (load_starts fw ctx w may started_so, asked, begins, f, go, load_loop, quiet, stop) final

pub load_refused :
    {W : Type 0} (ops : Ops W) (others : Moment → Option FwState) (fuel : ℕ) (request : ℤ × Image)
    (ctx : Ctx) (w : W)
    → may_start ctx.state ≡ false
    → fw_load_device_firmware ops others fuel request ctx w true ≡ some (einval, ctx, w)
unfolding fw_load_device_firmware
load_refused ops others fuel request ctx w busy = rw busy
