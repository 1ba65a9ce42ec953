-- ===== src/Firmware/Sysfs.antt =====
-- memloader/firmware.c: the files under /sys by which user space reads and sets a load.
pub mod Files
use linux_device_driver.Base.{
  c_string, ℕ, zero, suc, ◌+◌, ◌-◌, ◌*◌, ◌/◌, ◌≤◌, ◌<◌, Bool, true, false, ◌||◌, Option, none, some,
  List, [], ◌∷◌, if◌then◌else◌, ◌==◌, ltb, leb, length, take, splice, get_or, ℤ, pos, negsuc,
  pos_part, neg_part, wrap_s32, ltb_ℤ, eqb_ℤ, ◌-ℤ◌, sub_ℕ,
}
use linux_device_driver.Base.Maybe.{◌>>=◌}
use linux_device_driver.Base.Errno.{einval, eio}
use linux_device_driver.Firmware.{
  FwState, Moment, empty, loading, loaded, failed, deleted, Ctx, Image, Ops,
  fw_load_device_firmware,
}

-- sizeof(ctx->filename)
abbrev pub filename_size : ℕ
filename_size = 32

-- '\r', '\n', '\t' or ' '
abbrev pub is_blank : ℕ → Bool
is_blank c = c == 13 || c == 10 || c == 9 || c == b' '

-- The loop over trailing blanks, `n + 1` when it ends: how many of the first `count` bytes stay.
pub kept_count : List ℕ → ℕ → ℕ
kept_count buf zero = 0
kept_count buf (suc n) =
    let rest = kept_count buf n in if is_blank (get_or buf n 0) then rest else suc n

-- `count` is at most PAGE_SIZE from sysfs and an `int` from the device tree.
pub fw_set_filename : Ctx → List ℕ → ℕ → ℤ × Ctx
fw_set_filename ctx buf count =
    let n : ℕ = kept_count buf count in
    if n == 0
    then (einval, ctx)
    else if leb filename_size n
    then (einval, ctx)
    else (pos 0, record ctx { filename = splice (splice ctx.filename 0 (take n buf)) n (0 ∷ []) })

-- The names that `fw_show` and `fw_store` compare `attr->name` with.
pub data Attr : Type 0 where
  state filename blockread blocksize blockdelay devicemask progress_pct progress_size total_size :
      Attr
  unknown : Attr

-- What `fw_show` prints into the page: a number in decimal or a text, and a newline; or its error.
pub data Shown : Type 0 where
  decimal : ℤ → Shown
  text : List ℕ → Shown
  refused : ℤ → Shown

abbrev pub state_number : FwState → ℤ
state_number empty = pos 0
state_number loading = pos 1
state_number loaded = pos 2
state_number failed = pos 3
state_number deleted = pos 4

-- Division of `int`s, towards zero.
abbrev pub div_s32 : ℤ → ℤ → ℤ
div_s32 a b =
    let q : ℕ = (pos_part a + neg_part a) / (pos_part b + neg_part b) in
    if ltb_ℤ a (pos 0)
    then (if ltb_ℤ b (pos 0) then pos q else sub_ℕ 0 q)
    else (if ltb_ℤ b (pos 0) then sub_ℕ 0 q else pos q)

-- `100 * cur`, an `int`
abbrev pub hundredfold : ℤ → ℤ
hundredfold cur = wrap_s32 (sub_ℕ (100 * pos_part cur) (100 * neg_part cur))

pub progress : ℤ → ℤ → ℤ
progress cur tot = if eqb_ℤ tot (pos 0) then pos 0 else div_s32 (hundredfold cur) tot

pub fw_show : Ctx → Attr → Shown
unfolding progress
fw_show ctx state = decimal (state_number ctx.state)
fw_show ctx filename = text (c_string ctx.filename)
fw_show ctx blockread = decimal ctx.blockread
fw_show ctx blocksize = decimal ctx.blocksize
fw_show ctx blockdelay = decimal ctx.blockdelay
fw_show ctx devicemask = decimal ctx.devicemask
fw_show ctx progress_pct = decimal (progress ctx.current_count ctx.total_count)
fw_show ctx progress_size = decimal ctx.current_count
fw_show ctx total_size = decimal ctx.total_count
fw_show ctx unknown = refused eio

-- What a write to a file of a loader sets off; `strtol` is simple_strtol(buf, NULL, 10) of the
-- kernel on the bytes that were written.
module _ {W : Type 0} (ops : Ops W) (strtol : List ℕ → ℤ) (others : Moment → Option FwState)
    (fuel : ℕ) (request : ℤ × Image) where
  pub fw_load_firmware : Ctx → W → List ℕ → Option (ℤ × Ctx × W)
  fw_load_firmware ctx w buf =
      fw_load_device_firmware ops others fuel request ctx w
        (if eqb_ℤ (wrap_s32 (strtol buf)) (pos 0) then false else true)

  set_number : Ctx → Attr → ℤ → ℤ × Ctx
  set_number ctx blockread v = (pos 0, record ctx { blockread = wrap_s32 v })
  set_number ctx blocksize v = (pos 0, record ctx { blocksize = wrap_s32 v })
  set_number ctx blockdelay v = (pos 0, record ctx { blockdelay = wrap_s32 v })
  set_number ctx devicemask v = (pos 0, record ctx { devicemask = wrap_s32 v })
  set_number ctx _ v = (eio, ctx)

  store_result : ℤ → ℕ → ℤ
  store_result ret count = if ltb_ℤ ret (pos 0) then ret else pos count

  pub fw_store : Ctx → W → Attr → List ℕ → ℕ → Option (ℤ × Ctx × W)
  fw_store ctx w state buf count =
      fw_load_firmware ctx w buf >>= λ r. some (store_result r.0 count, r.1, r.2)
  fw_store ctx w filename buf count =
      let (ret, ctx') = fw_set_filename ctx buf count in some (store_result ret count, ctx', w)
  fw_store ctx w attr buf count =
      let (ret, ctx') = set_number ctx attr (strtol buf) in some (store_result ret count, ctx', w)
