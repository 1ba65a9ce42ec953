-- ===== src/Memloader/Result.antt =====
-- What a load of an image in one piece through the memloader has done when it returns.
use linux_device_driver.Base.{
  suc, ℕ, ◌≤◌, ◌<◌, ◌≡◌, ◌∙◌, refl, ◌⊎◌, inl, inr, true, false, not, Option, none, some, List,
  arith, length, ℤ, pos, ltb_ℤ,
}
use linux_device_driver.Base.Errno.{eio}
use linux_device_driver.Firmware.{
  FwState, Moment, requesting, starting, leaving, ending, ended, interfere, loaded, failed, Ctx,
  Image, Progress, fresh, at_start, may_start, fw_load_device_firmware, conclude, fail_if_neg,
  settle, is_loading,
}
use linux_device_driver.Firmware.Outcome.{
  OnlyCancels, CameBy, Came-interfere, load_starts, conclude_lem,
}
use linux_device_driver.Memloader.{
  Info, Ioremap, memloader_write, memloader_start, memloader_end, memloader_ops,
}
use linux_device_driver.Memloader.Copy.{written, Fits, Loading}
use linux_device_driver.Memloader.Load.{Entered, Left, Reason, Loading-interfere, loop_Left}

-- The three ways for a load of an image of `n` bytes to end with `k` of them stored: the whole image
-- is there; another thread has cancelled the load; or ioremap has failed.
abbrev pub Ending : Ioremap → (Moment → Option FwState) → ℕ → ℕ → ℤ → FwState → Type 0
Ending ioremap others n k ret s =
    ((s ≡ loaded) × (ret ≡ pos 0) × (k ≡ n))
    ⊎ ((i : Moment) × (others i ≡ some s) × (ret ≡ eio))
    ⊎ ((a : ℕ) × (m : ℤ) × (ioremap a m ≡ false) × (s ≡ failed) × (ret ≡ pos 0))

pub record Result (ioremap : Ioremap) (others : Moment → Option FwState) (xs : List ℕ)
    (before : Info) (r : Option (ℤ × Ctx × Info)) : Type 0 where
  pub ret : ℤ
  pub ctx : Ctx
  pub info : Info
  pub k : ℕ
  pub returns : r ≡ some (ret, ctx, info)
  pub in_image : k ≤ length xs
  pub counted : (info.current_count ≡ pos k) × (ctx.current_count ≡ pos k)
  pub prefix : (x : ℕ) → info.mem x ≡ written before.mem before.load_base_address xs k x
  pub ending : Ending ioremap others (length xs) k ret ctx.state

module _ (ioremap : Ioremap) (others : Moment → Option FwState) (only : OnlyCancels others)
    (xs : List ℕ) (bs : ℕ) (before : Info) where
  module _ (q : Progress Info)
      (left : Left ioremap others before.mem before.load_base_address xs bs q) where
    open left use {k, now, came}

    abbrev checked : Ctx
    checked = fail_if_neg q.ret q.ctx

    -- The context at the last switch.
    abbrev last : Ctx
    last = interfere (others ended) (interfere (others ending) (interfere (others leaving) checked))

    count_stays :
        (o : Option FwState) (ctx : Ctx) → (interfere o ctx).current_count ≡ ctx.current_count
    count_stays none ctx = refl
    count_stays (some s) ctx = refl

    same_count : checked.current_count ≡ pos k
    same_count = ground (arith, now.reached)

    told_count : (interfere (others leaving) checked).current_count ≡ pos k
    told_count = count_stays (others leaving) checked ∙ same_count

    last_count : last.current_count ≡ pos k
    last_count =
        count_stays (others ended) (interfere (others ending) (interfere (others leaving) checked))
        ∙ count_stays (others ending) (interfere (others leaving) checked)
        ∙ told_count

    settled_count : (settle (pos 0) last).1.current_count ≡ pos k
    settled_count = ground (arith, last_count)

    concluded :
        conclude (memloader_ops ioremap) others q
        ≡ some ((settle (pos 0) last).0, (settle (pos 0) last).1, q.world)
    unfolding memloader_end
    concluded =
        let told : Ctx = interfere (others leaving) checked in
        let agrees : memloader_end told (not (is_loading told.state)) q.world
            ≡ some (pos 0, q.world) =
          rw (now.stored, told_count) (ground arith) in
        conclude_lem memloader_start (memloader_write ioremap) none memloader_end others 0 q agrees

    -- How a load ends with the state `s` at the last switch, the one that the loop has left.
    ends_good :
        (ctx : Ctx)
        → ctx.state ≡ checked.state
        → ltb_ℤ q.ret (pos 0) ≡ false
        → (k ≡ length xs) ⊎ (is_loading q.ctx.state ≡ false)
        → CameBy others q.ctx.state
        → Ending ioremap others (length xs) k (settle (pos 0) ctx).0 (settle (pos 0) ctx).1.state
    ends_good ctx same good (inl whole) (inl h) = inl (ground arith, ground arith, whole)
    ends_good ctx same good (inr stopped) (inl h) = absurd (ground arith)
    ends_good ctx same good why (inr (i, e)) = elim (only i q.ctx.state e) [
      | inl h ↦ inr (inl (i, ground arith, ground arith))
      | inr h ↦ inr (inl (i, ground arith, ground arith))
    ]

    ends :
        Reason ioremap others before.mem before.load_base_address xs bs k q
        → (ctx : Ctx) → (ctx.state ≡ checked.state) ⊎ ((i : Moment) × (others i ≡ some ctx.state))
        → Ending ioremap others (length xs) k (settle (pos 0) ctx).0 (settle (pos 0) ctx).1.state
    ends (inl (good, why)) ctx (inl same) = ends_good ctx same good why came
    ends (inr (a, n, bad, err)) ctx (inl same) = inr (inr (a, n, bad, ground arith, ground arith))
    ends why ctx (inr (i, e)) = elim (only i ctx.state e) [
      | inl h ↦ inr (inl (i, ground arith, ground arith))
      | inr h ↦ inr (inl (i, ground arith, ground arith))
    ]

    conclude-Result : Result ioremap others xs before (conclude (memloader_ops ioremap) others q)
    conclude-Result = record {
      ret = (settle (pos 0) last).0;
      ctx = (settle (pos 0) last).1;
      info = q.world;
      k = k;
      returns = concluded;
      in_image = now.in_image;
      counted = (now.stored, settled_count);
      prefix = now.prefix;
      ending = ends left.reason last (
          Came-interfere others ended
            (interfere (others ending) (interfere (others leaving) checked))
            (Came-interfere others ending (interfere (others leaving) checked)
              (Came-interfere others leaving checked (inl refl))));
    }

  -- A load of an image in one piece of less than 2 GiB into a range that does not wrap, with a block
  -- size that is not negative and no other thread than cancels and removals at any moment of it,
  -- returns. Then memory holds the first `k` bytes of the image at the load address and is untouched
  -- everywhere else, both counters say `k`, and one of three things is so: the state is FW_LOADED, the
  -- result 0 and the whole image there; or another thread has cancelled, and the result is -EIO; or
  -- ioremap has failed, the state is FW_FAILED and the result 0.
  pub load_image :
      Fits before.load_base_address xs
      → (fw : Image) → fw.bytes ≡ some xs
      → fw.size ≡ length xs
      → (ctx : Ctx) → may_start ctx.state ≡ true
      → ctx.blocksize ≡ pos bs
      → (fuel : ℕ) → length xs < fuel
      → Result ioremap others xs before
          (fw_load_device_firmware (memloader_ops ioremap) others fuel (pos 0, fw) ctx before true)
  unfolding memloader_start
  load_image fits fw bytes size ctx may b fuel enough =
      let zeroed : Info = record before { current_count = pos 0 } in
      let asked : Ctx = interfere (others requesting) (fresh fw ctx) in
      let begin : Progress Info = at_start (interfere (others starting) asked) (pos 0) zeroed in
      let now : Loading before.mem before.load_base_address xs bs 0 (fresh fw ctx) zeroed = record {
        image = (fw, refl, bytes);
        total = rw size (ground (arith, fits.small));
        block = b;
        reached = refl;
        stored = refl;
        at_base = refl;
        in_image = omega arith;
        prefix = λ x. ground arith;
      } in
      let entered : Entered ioremap others before.mem before.load_base_address xs bs begin =
        record {
          k = 0;
          now = Loading-interfere (others starting) (Loading-interfere (others requesting) now);
          came =
              Came-interfere others starting asked
                (Came-interfere others requesting (fresh fw ctx) (inl refl));
          good = refl;
        } in
      let (q, reached, left) =
        loop_Left ioremap others before.mem before.load_base_address xs bs fits fuel begin
          (omega arith) entered in
      rw
        (
          load_starts memloader_start (memloader_write ioremap) none memloader_end others fuel fw
              ctx before may refl,
          reached,
        )
        (conclude-Result q left)

-- If every ioremap succeeds and no other thread interferes, the load of an image in one piece returns
-- 0 with the state FW_LOADED and exactly the image at the load address, whatever the block size.
load_complete :
    (ioremap : Ioremap)
    → ((a : ℕ) (n : ℤ) → ioremap a n ≡ true)
    → (xs : List ℕ) (bs : ℕ) (before : Info) → Fits before.load_base_address xs
    → (fw : Image) → fw.bytes ≡ some xs
    → fw.size ≡ length xs
    → (ctx : Ctx) → may_start ctx.state ≡ true
    → ctx.blocksize ≡ pos bs
    → (ctx' : Ctx) × (info' : Info) × (fw_load_device_firmware
          (memloader_ops ioremap)
          (λ _. none)
          (suc (length xs))
          (pos 0, fw)
          ctx
          before
          true
        ≡ some (pos 0, ctx', info'))
      × (ctx'.state ≡ loaded)
      × ((x : ℕ) → info'.mem x ≡ written before.mem before.load_base_address xs (length xs) x)
load_complete ioremap maps xs bs before fits fw bytes size ctx may b = by_ending r.ending
  where
    r :
        Result ioremap
          (λ _. none)
          xs
          before
          (fw_load_device_firmware
            (memloader_ops ioremap)
            (λ _. none)
            (suc (length xs))
            (pos 0, fw)
            ctx
            before
            true)
    r =
        load_image ioremap (λ _. none) (λ i s e. absurd (cc e)) xs bs before fits fw bytes size ctx
          may b (suc (length xs)) (omega arith)

    Complete : Type 0
    Complete =
        (ctx' : Ctx) × (info' : Info) × (fw_load_device_firmware (memloader_ops ioremap) (λ _. none)
            (suc (length xs)) (pos 0, fw) ctx before true
          ≡ some (pos 0, ctx', info'))
        × (ctx'.state ≡ loaded)
        × ((x : ℕ) → info'.mem x ≡ written before.mem before.load_base_address xs (length xs) x)

    by_ending : Ending ioremap (λ _. none) (length xs) r.k r.ret r.ctx.state → Complete
    by_ending (inl (l, zero_ret, all)) =
        (r.ctx, r.info, rw zero_ret at r.returns, l, rw all at r.prefix)
    by_ending (inr (inl (i, e, _))) = absurd (cc e)
    by_ending (inr (inr (a, n, bad, _, _))) = absurd (cc (bad, maps a n))
