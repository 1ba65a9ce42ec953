-- ===== src/Memloader/Copy.antt =====
-- One call of `memloader_write` on an image in one piece.
use linux_device_driver.Base.{
  ℕ, ◌+◌, ◌-◌, ◌≤◌, ◌<◌, ◌^◌, min, ◌≡◌, ◌&&◌, some, List, arith, if◌then◌else◌, ltb, leb, length,
  take, drop, get_or, length-take, length-drop, get_or-take, get_or-drop, pos, ◌==◌, add_s32,
}
use linux_device_driver.Base.Errno.{ebusy}
use linux_device_driver.Firmware.{Ctx, Image}
use linux_device_driver.Memloader.{
  Info, Ioremap, store, address, block_count, memloader_write, write_data, memloader_load,
}

-- Physical memory with the first `k` bytes of the image `xs` stored from `base` on.
abbrev pub written : (ℕ → ℕ) → ℕ → List ℕ → ℕ → ℕ → ℕ
written mem base xs k x = if leb base x && ltb x (base + k) then get_or xs (x - base) 0 else mem x

-- The next `n` bytes of the image, stored behind the first `k`.
pub written-store :
    (mem mem' : ℕ → ℕ) (base : ℕ) (xs : List ℕ) (k n : ℕ)
    → k + n ≤ length xs
    → ((x : ℕ) → mem' x ≡ written mem base xs k x)
    → (x : ℕ) → store mem' (base + k) (take n (drop k xs)) x ≡ written mem base xs (k + n) x
written-store mem mem' base xs k n h before x = ground (
  arith,
  before x,
  length-take n (drop k xs),
  length-drop k xs,
  get_or-take n (x - (base + k)) (drop k xs) 0,
  get_or-drop k (x - (base + k)) xs 0,
  shift,
)
  where
    shift : (if leb (base + k) x then k + (x - (base + k)) else x - base) ≡ x - base
    shift = ground arith

-- The size of the next block when `k` of `size` bytes are stored: `bs` bytes, all if `bs` is 0.
abbrev pub chunk : ℕ → ℕ → ℕ → ℕ
chunk size bs k = if bs == 0 then size - k else min bs (size - k)

pub block_count_lem :
    (ctx : Ctx) (size bs k : ℕ)
    → size < 2 ^ 31
    → k ≤ size
    → ctx.total_count ≡ pos size
    → ctx.current_count ≡ pos k
    → ctx.blocksize ≡ pos bs
    → block_count ctx ≡ pos (chunk size bs k)
block_count_lem ctx size bs k small h t c b = rw (t, c, b) (ground arith)

-- A load of the image `xs` to `base` at a time when its first `k` bytes are there; the loader and
-- the context agree on `k`, and whatever lies outside of those bytes is as it was in `mem`.
pub record Loading (mem : ℕ → ℕ) (base : ℕ) (xs : List ℕ) (bs k : ℕ) (ctx : Ctx) (info : Info)
    : Type 0 where
  pub image : (fw : Image) × (ctx.image ≡ some fw) × (fw.bytes ≡ some xs)
  pub total : ctx.total_count ≡ pos (length xs)
  pub block : ctx.blocksize ≡ pos bs
  pub reached : ctx.current_count ≡ pos k
  pub stored : info.current_count ≡ pos k
  pub at_base : info.load_base_address ≡ base
  pub in_image : k ≤ length xs
  pub prefix : (x : ℕ) → info.mem x ≡ written mem base xs k x

-- What the machine can address: the image has less than 2 GiB and its range does not wrap.
pub record Fits (base : ℕ) (xs : List ℕ) : Type 0 where
  pub small : length xs < 2 ^ 31
  pub no_wrap : base + length xs < 2 ^ 64

module _ {mem : ℕ → ℕ} {base : ℕ} {xs : List ℕ} {bs k : ℕ} {ctx : Ctx} {info : Info}
    (ioremap : Ioremap) (fits : Fits base xs) (now : Loading mem base xs bs k ctx info)
    (more : k < length xs) where
  abbrev pub size : ℕ
  size = chunk (length xs) bs k

  abbrev pub after : Info
  after = record info {
    current_count = pos (k + size);
    mem = store info.mem (base + k) (take size (drop k xs));
  }

  pub chunk_bounds : (0 < size) × (k + size ≤ length xs)
  chunk_bounds = ground arith

  pub memloader_write_lem :
      memloader_write ioremap ctx info
      ≡ some (if ioremap (base + k) (pos size) then (pos size, after) else (ebusy, info))
  unfolding memloader_write write_data memloader_load
  memloader_write_lem =
      let (fw, e, b) = now.image in
      let count : block_count ctx ≡ pos size =
        block_count_lem ctx (length xs) bs k fits.small now.in_image now.total now.reached
          now.block in
      let to : address info.load_base_address ctx.current_count ≡ base + k =
        rw (now.at_base, now.reached) (ground (arith, fits.no_wrap)) in
      let sum : add_s32 info.current_count (pos size) ≡ pos (k + size) =
        rw now.stored (ground (arith, chunk_bounds, fits.small)) in
      let left : length (drop k xs) ≡ length xs - k = length-drop k xs in
      rw (e, b, count, to, now.reached) (ground (arith, sum, left, chunk_bounds))
