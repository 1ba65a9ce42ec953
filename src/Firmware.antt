-- ===== src/Firmware.antt =====
-- memloader/firmware.c and memloader/firmware.h: loading a firmware image through the callbacks of a
-- device driver, as a state machine that other threads may cancel.
pub mod Loop
pub mod Outcome
pub mod Sysfs
pub mod Setup
mod Tests
use linux_device_driver.Base.{
  ℕ, zero, suc, ◌+◌, ◌%◌, ◌^◌, Bool, true, false, not, ◌&&◌, Option, none, some, List,
  if◌then◌else◌, ℤ, pos, ltb_ℤ, leb_ℤ, eqb_ℤ, add_s32, sub_s32, of_word,
}
use linux_device_driver.Base.Maybe.{◌>>=◌}
use linux_device_driver.Base.Errno.{einval, eio}

-- FW_EMPTY, FW_LOADING, FW_LOADED, FW_FAILED, FW_DELETED
pub data FwState : Type 0 where
  empty loading loaded failed deleted : FwState

abbrev pub is_loading : FwState → Bool
is_loading loading = true
is_loading _ = false

-- `struct firmware` of the kernel: the image in one piece (`data`, NULL if it could not be mapped),
-- and the pages that hold it.
pub record Image : Type 0 where
  pub size : ℕ
  pub bytes : Option (List ℕ)
  pub pages : Option (List (List ℕ))

-- The members of `struct fw_context` that the code computes with.
pub record Ctx : Type 0 where
  pub image : Option Image
  pub total_count : ℤ
  pub current_count : ℤ
  pub devicemask : ℤ
  pub blockread : ℤ
  pub blocksize : ℤ
  pub blockdelay : ℤ
  pub filename : List ℕ  -- an array of 32 bytes
  pub dev : Option ℕ  -- the target device
  pub state : FwState
  pub kobj_init : Bool
  pub kobj_added : Bool

-- The callbacks of a driver, on its own state `W`; `none` is a NULL pointer. A callback does not
-- change the context; it may fail to return.
module _ (W : Type 0) where
  abbrev pub Callback : Type 0
  Callback = Ctx → W → Option (ℤ × W)

  pub record Ops : Type 0 where
    pub start : Option Callback
    pub write : Option Callback
    pub read : Option Callback
    pub end : Option (Ctx → Bool → W → Option (ℤ × W))

-- The variables of the loop in `fw_load_device_firmware`; `naps` counts the calls of usleep_range.
pub record Progress (W : Type 0) : Type 0 where
  pub ctx : Ctx
  pub world : W
  pub ret : ℤ
  pub curr_count : ℤ
  pub prev_delay_count : ℤ
  pub prev_read_count : ℤ
  pub naps : ℕ

-- The moments of a load at which another thread's store to `state` can be seen: in request_firmware,
-- in `start`, in a round of the loop, before `end` is called, in `end`, and before the last switch.
pub data Moment : Type 0 where
  requesting starting : Moment
  in_round : ℕ → Moment
  leaving ending ended : Moment

-- What another thread has stored in `state` meanwhile: FW_EMPTY by a cancel, FW_DELETED by
-- `fw_cleanup`.
abbrev pub interfere : Option FwState → Ctx → Ctx
interfere none ctx = ctx
interfere (some s) ctx = record ctx { state = s }

-- The test of the loop.
abbrev pub goes_on : Ctx → Bool
goes_on ctx = ltb_ℤ ctx.current_count ctx.total_count && is_loading ctx.state

-- The last switch over the state.
abbrev pub settle : ℤ → Ctx → ℤ × Ctx
settle ret ctx = elim ctx.state [
  | loading ↦ (pos 0, record ctx { state = loaded })
  | empty ↦ (eio, ctx)
  | deleted ↦ (eio, ctx)
  | failed ↦ (ret, ctx)
  | loaded ↦ (ret, record ctx { state = empty })
]

abbrev pub fail_if_neg : ℤ → Ctx → Ctx
fail_if_neg ret ctx = if ltb_ℤ ret (pos 0) then record ctx { state = failed } else ctx

abbrev pub may_start : FwState → Bool
may_start empty = true
may_start failed = true
may_start _ = false

-- `(int) fw->size`
abbrev pub int_of : ℕ → ℤ
int_of n = of_word (2 ^ 31) (n % 2 ^ 32)

-- The context when request_firmware has given the image.
abbrev pub fresh : Image → Ctx → Ctx
fresh fw ctx = record ctx {
  state = loading;
  current_count = pos 0;
  image = some fw;
  total_count = int_of fw.size;
}

-- The variables of the loop when `start` has returned `ret`.
abbrev pub at_start : {W : Type 0} → Ctx → ℤ → W → Progress W
at_start ctx ret w = record {
  ctx = ctx;
  world = w;
  ret = ret;
  curr_count = pos 0;
  prev_delay_count = pos 0;
  prev_read_count = pos 0;
  naps = 0;
}

module _ {W : Type 0} where
  -- "It's time to have a nap"
  pub nap : Progress W → Progress W
  nap p =
      if ltb_ℤ (pos 0) p.ctx.blocksize
        && leb_ℤ p.ctx.blocksize (sub_s32 p.curr_count p.prev_delay_count)
      then record p { naps = p.naps + 1; prev_delay_count = p.curr_count }
      else p

  -- "It's time to do some reading"; the flag tells whether the loop goes on.
  pub read_block : Option (Callback W) → Progress W → Option (Bool × Progress W)
  read_block none p = some (true, nap p)
  read_block (some read) p =
      if ltb_ℤ (pos 0) p.ctx.blockread
        && leb_ℤ p.ctx.blockread (sub_s32 p.curr_count p.prev_read_count)
      then (read p.ctx p.world >>= λ r.
          let q : Progress W = record p { ret = r.0; world = r.1 } in
          some (
            if ltb_ℤ r.0 (pos 0)
            then (false, q)
            else (true, nap (record q { prev_read_count = p.curr_count }))))
      else some (true, nap p)

  -- The body of the loop.
  pub load_block :
      Callback W → Option (Callback W) → Option FwState → Progress W → Option (Bool × Progress W)
  load_block write read other p = write p.ctx p.world >>= λ r.
      let ctx : Ctx = interfere other p.ctx in
      let q : Progress W = record p { ctx = ctx; world = r.1; ret = r.0 } in
      if leb_ℤ r.0 (pos 0)
      then some (false, q)
      else read_block read (record q {
        ctx = record ctx { current_count = add_s32 ctx.current_count r.0 };
        curr_count = add_s32 p.curr_count r.0;
      })

  -- The loop, on fuel; `others (in_round i)` is what other threads store in the i-th round.
  pub load_loop :
      Callback W
      → Option (Callback W)
      → (Moment → Option FwState)
      → ℕ
      → ℕ
      → Progress W
      → Option (Progress W)
  load_loop write read others zero i p = none
  load_loop write read others (suc fuel) i p = elim (goes_on p.ctx) [
    | true ↦ elim (load_block write read (others (in_round i)) p) [
      | none ↦ none
      | some (go, q) ↦ elim go [
        | true ↦ load_loop write read others fuel (i + 1) q
        | false ↦ some q
      ]
    ]
    | false ↦ some p
  ]

  call_start : Option (Callback W) → Ctx → W → Option (ℤ × W)
  call_start none ctx w = some (pos 0, w)
  call_start (some start) ctx w = start ctx w

  -- From "Load firmware" to the end of the loop; `ret` is 0 when request_firmware has succeeded.
  pub transfer : Ops W → (Moment → Option FwState) → ℕ → Ctx → W → Option (Progress W)
  transfer ops others fuel ctx w = call_start ops.start ctx w >>= λ r.
      let p : Progress W = at_start (interfere (others starting) ctx) r.0 r.1 in
      elim ops.write [
        | none ↦ some p
        | some write ↦
            if ltb_ℤ r.0 (pos 0) then some p else load_loop write ops.read others fuel 0 p
      ]

  call_end : Option (Ctx → Bool → W → Option (ℤ × W)) → Ctx → ℤ → W → Option (ℤ × W)
  call_end none ctx ret w = some (ret, w)
  call_end (some end) ctx ret w = end ctx (not (is_loading ctx.state)) w

  -- From the end of the loop to the return.
  pub conclude : Ops W → (Moment → Option FwState) → Progress W → Option (ℤ × Ctx × W)
  conclude ops others p =
      let left : Ctx = interfere (others leaving) (fail_if_neg p.ret p.ctx) in
      call_end ops.end left p.ret p.world >>= λ r.
      let told : Ctx = interfere (others ending) left in
      let over : Ctx = elim ops.end [ none ↦ told | some _ ↦ fail_if_neg r.0 told ] in
      let (ret, ctx) = settle r.0 (interfere (others ended) over) in some (ret, ctx, r.1)

  -- `request` is what request_firmware answers: an error, or the image.
  pub fw_load_device_firmware :
      Ops W → (Moment → Option FwState) → ℕ → ℤ × Image → Ctx → W → Bool → Option (ℤ × Ctx × W)
  fw_load_device_firmware ops others fuel request ctx w false =
      some (pos 0, record ctx { state = empty }, w)
  fw_load_device_firmware ops others fuel request ctx w true =
      if not (may_start ctx.state)
      then some (einval, ctx, w)
      else if eqb_ℤ request.0 (pos 0)
      then (transfer ops others fuel (interfere (others requesting) (fresh request.1 ctx)) w
          >>= λ p. conclude ops others p)
      else some
          (request.0, record ctx { state = failed; current_count = pos 0; total_count = pos 0 }, w)
