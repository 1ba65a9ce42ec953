-- ===== src/Memloader/Pages.antt =====
-- `memloader_write` on an image that is only in pages: where the blocks do not end at page borders.
use linux_device_driver.Base.{
  ℕ, suc, ◌+◌, ◌/◌, ◌%◌, ◌≤◌, ◌<◌, ◌^◌, min, ◌≡◌, ◌≢◌, refl, sym, ◌∙◌, true, false, some, List,
  arith, length, take, get_elem?, get_or, length-take, get_or-take, pos, to_word, add_s32, sub_s32,
  eqb_ℤ, ltb_ℤ,
}
use linux_device_driver.Base.Maybe.{◌>>=◌}
use linux_device_driver.Memloader.{
  Info, Ioremap, page_size, store, address, copy_pages, memloader_load,
}

-- The byte at `x` of an image in pages.
abbrev pub page_byte : List ℕ → ℕ → ℕ
page_byte page x = get_or page (x % page_size) 0

load_stores :
    (ioremap : Ioremap) (a : ℕ) (xs : List ℕ) (n : ℕ) (mem : ℕ → ℕ)
    → 0 < n
    → n ≤ length xs
    → ioremap a (pos n) ≡ true
    → memloader_load ioremap a (some xs) (pos n) mem ≡ some (pos n, store mem a (take n xs))
unfolding memloader_load
load_stores ioremap a xs n mem some_bytes long maps = rw maps (ground arith)

module _ (ioremap : Ioremap) (pages : List (List ℕ)) (info : Info) (k n : ℕ) (page : List ℕ) where
  one_round :
      (fuel : ℕ)
      → info.current_count ≡ pos k
      → k + n < 2 ^ 31
      → info.load_base_address + k < 2 ^ 64
      → get_elem? pages (k / page_size) ≡ some page
      → 0 < n
      → n ≤ page_size
      → n ≤ length page
      → ioremap (info.load_base_address + k) (pos n) ≡ true
      → copy_pages ioremap pages (suc fuel) (pos n) (pos 0) info
        ≡ copy_pages ioremap pages fuel (pos 0) (pos n) (record info {
          current_count = pos (k + n);
          mem = store info.mem (info.load_base_address + k) (take n page);
        })
  unfolding copy_pages
  one_round fuel at small fits there some_bytes in_page long maps =
      let left : eqb_ℤ (pos n) (pos 0) ≡ false = ground arith in
      let part : min page_size (to_word (2 ^ 64) (pos n)) ≡ n = omega arith in
      let to : address info.load_base_address (pos k) ≡ info.load_base_address + k = ground arith in
      let stored : memloader_load ioremap (info.load_base_address + k) (some page) (pos n) info.mem
          ≡ some (pos n, store info.mem (info.load_base_address + k) (take n page)) =
        load_stores ioremap (info.load_base_address + k) page n info.mem some_bytes long maps in
      let wrote : ltb_ℤ (pos 0) (pos n) ≡ true = ground arith in
      let rest : sub_s32 (pos n) (pos n) ≡ pos 0 = ground arith in
      let sum : add_s32 (pos k) (pos n) ≡ pos (k + n) = ground arith in
      let total : add_s32 (pos 0) (pos n) ≡ pos n = ground arith in
      rw (left, copy_pages, at, there, part, to, stored, ◌>>=◌, wrote, copy_pages)
        (rw (at, rest, sum, total))

  -- A block of at most a page that `memloader_write` takes from one page of an image is read from
  -- the beginning of that page, wherever in it the block should begin: if ioremap succeeds and no
  -- address or count overflows, the call returns the block's size, and behind the first `k` bytes
  -- stands the first byte of the page; where the image has another byte there, memory is wrong.
  page_offset_lost :
      (more : ℕ)
      → info.current_count ≡ pos k
      → k + n < 2 ^ 31
      → info.load_base_address + k < 2 ^ 64
      → get_elem? pages (k / page_size) ≡ some page
      → 0 < n
      → n ≤ page_size
      → n ≤ length page
      → ioremap (info.load_base_address + k) (pos n) ≡ true
      → page_byte page 0 ≢ page_byte page k
      → (info' : Info) × (copy_pages ioremap pages (suc (suc more)) (pos n) (pos 0) info
          ≡ some (pos n, info'))
        × (info'.current_count ≡ pos (k + n))
        × (info'.mem (info.load_base_address + k) ≢ page_byte page k)
  unfolding copy_pages
  page_offset_lost more at small fits there some_bytes in_page long maps differs = (
    record info {
      current_count = pos (k + n);
      mem = store info.mem (info.load_base_address + k) (take n page);
    },
    one_round (suc more) at small fits there some_bytes in_page long maps,
    refl,
    λ e. differs (sym first ∙ e),
  )
    where
      first :
          store info.mem (info.load_base_address + k) (take n page) (info.load_base_address + k)
          ≡ page_byte page 0
      first = ground (arith, length-take n page, get_or-take n 0 page 0)
