-- ===== src/Memutil.antt =====
-- test_suite/memutil/mem_ops.c: a region of physical memory, mapped by whole pages and saved to a
-- file or loaded from one. What the system calls answer is a parameter.
pub mod Options
pub mod Range
pub mod Copies
mod Tests
use linux_device_driver.Base.{
  ℕ, zero, suc, ◌+◌, ◌-◌, ◌*◌, ◌/◌, ◌%◌, ◌^◌, Bool, true, false, not, ◌&&◌, Option, none, some,
  List, [], ◌∷◌, ◌++◌, length, take, drop, if◌then◌else◌, leb, ◌==◌, ltb_ℤ, ℤ, pos, negsuc, eqb_ℤ,
  of_word, add_u64, sub_u64, bit_and,
}
use linux_device_driver.Base.Maybe.{◌>>=◌}
use linux_device_driver.Base.Bits.{bit_not}
use linux_device_driver.Base.Text.{Text}
use linux_device_driver.Memloader.{store}

-- struct working_params, the options
pub record Params : Type 0 where
  pub verbose : Bool
  pub start_phy_addr : ℕ
  pub length_ : ℕ
  pub save_to_file : Bool
  pub load_from_file : Bool
  pub file_path : Option Text

-- The mapping: the physical address of vaddr_base, map_length, and vaddr - vaddr_base.
pub record Mapped : Type 0 where
  pub base : ℕ
  pub map_length : ℕ
  pub offset : ℕ

-- Whether these calls succeed: open of /dev/mem, mmap, open of the file, munmap.
pub record Os : Type 0 where
  pub dev_mem : Bool
  pub mmap : Bool
  pub file : Bool
  pub munmap : Bool

-- The mappings that the program holds. A descriptor is closed on every path behind its open.
pub record Held : Type 0 where
  pub maps : ℕ

-- The range for mmap: phy_addr_for_map and length_for_map. The source casts the offset in the page to
-- int, which changes nothing for pages of at most 2^31 bytes.
pub map_range : ℕ → ℕ → ℕ → Mapped
map_range page start len =
    let base : ℕ = bit_and start (bit_not 64 (page - 1)) in
    let offset : ℕ = sub_u64 start base in
    let sum : ℕ = add_u64 (add_u64 len offset) (page - 1) in
    record { base = base; map_length = sum / page * page; offset = offset }

-- `map_memory_fixed`: the descriptor of /dev/mem is closed in any case.
abbrev pub map_memory_fixed : Os → Held → ℤ × Held
map_memory_fixed os h =
    if not os.dev_mem
    then (negsuc 0, h)
    else if not os.mmap
    then (negsuc 0, h)
    else (pos 0, record h { maps = suc h.maps })

pub map_memory : Os → ℕ → Params → Held → Option Mapped × Held
map_memory os page p h =
    let r : ℤ × Held = map_memory_fixed os h in
    if eqb_ℤ r.0 (pos 0)
    then (some (map_range page p.start_phy_addr p.length_), r.1)
    else (none, r.1)

-- The bytes of physical memory from `a` on.
abbrev pub bytes_from : (ℕ → ℕ) → ℕ → ℕ → List ℕ
bytes_from mem a zero = []
bytes_from mem a (suc n) = mem a ∷ bytes_from mem (a + 1) n

-- An answer of write: the number of bytes taken, EINTR, or another errno; one of read: the bytes.
pub data Io (A : Type 0) : Type 0 where
  moved : A → Io A
  interrupted : Io A
  failed : Io A

-- The loop of `safe_write` on what is left: whether it ends by an error, and the bytes that have been
-- written; `none` is a write that has not returned.
pub write_rest : List (Io ℕ) → List ℕ → Option (Bool × List ℕ)
write_rest ws [] = some (false, [])
write_rest [] (x ∷ xs) = none
write_rest (interrupted ∷ r) (x ∷ xs) = write_rest r (x ∷ xs)
write_rest (failed ∷ r) (x ∷ xs) = some (true, [])
write_rest (moved n ∷ r) (x ∷ xs) =
    let rest : Option (Bool × List ℕ) =
      write_rest r (drop n (x ∷ xs)) >>= λ s. some (s.0, take n (x ∷ xs) ++ s.1) in
    if n == 0 then some (false, []) else rest

-- The loop of `safe_read` with `len` bytes to go: the bytes that have been read.
pub read_rest : List (Io (List ℕ)) → ℕ → Option (Bool × List ℕ)
read_rest ws zero = some (false, [])
read_rest [] (suc n) = none
read_rest (interrupted ∷ r) (suc n) = read_rest r (suc n)
read_rest (failed ∷ r) (suc n) = some (true, [])
read_rest (moved xs ∷ r) (suc n) =
    let ys : List ℕ = take (suc n) xs in
    let rest : Option (Bool × List ℕ) =
      read_rest r (suc n - length ys) >>= λ s. some (s.0, ys ++ s.1) in
    if length ys == 0 then some (false, []) else rest

-- What both return: -1, or the count of the bytes as an ssize_t.
abbrev pub count_or_error : Bool × List ℕ → ℤ
count_or_error (failed_, xs) = if failed_ then negsuc 0 else of_word (2 ^ 63) (length xs)

-- From the result of the loop on; the file is closed in any case, the region unmapped on success only.
abbrev pub finish : Os → ℕ → ℤ → Held → ℤ × Held
finish os len count h =
    if ltb_ℤ count (pos 0)
    then (negsuc 0, h)
    else if eqb_ℤ count (pos len)
    then (pos 0, if os.munmap then record h { maps = h.maps - 1 } else h)
    else (negsuc 0, h)

-- An access through vaddr to `n` bytes stays in the mapping.
abbrev pub in_mapping : Mapped → ℕ → Bool
in_mapping mp n = leb (mp.offset + n) mp.map_length

-- `save_mem_region_to_file`: the result, the file, and what is held. `none`: an access outside of the
-- mapping, or a call that has not returned.
pub save_mem_region_to_file :
    Os → ℕ → List (Io ℕ) → Params → (ℕ → ℕ) → Held → Option (ℤ × List ℕ × Held)
save_mem_region_to_file os page ws p mem h =
    let m : Option Mapped × Held = map_memory os page p h in
    elim m.0 [
      | none ↦ some (negsuc 0, [], m.1)
      | some mp ↦
          if not os.file
          then some (negsuc 0, [], m.1)
          else if in_mapping mp p.length_
          then (write_rest ws (bytes_from mem (mp.base + mp.offset) p.length_) >>= λ s.
              let r : ℤ × Held = finish os p.length_ (count_or_error s) m.1 in some (r.0, s.1, r.1))
          else none
    ]

-- `load_mem_region_from_file`: the result, the memory, and what is held.
pub load_mem_region_from_file :
    Os → ℕ → List (Io (List ℕ)) → Params → (ℕ → ℕ) → Held → Option (ℤ × (ℕ → ℕ) × Held)
load_mem_region_from_file os page rs p mem h =
    let m : Option Mapped × Held = map_memory os page p h in
    elim m.0 [
      | none ↦ some (negsuc 0, mem, m.1)
      | some mp ↦
          if not os.file
          then some (negsuc 0, mem, m.1)
          else if in_mapping mp p.length_
          then (read_rest rs p.length_ >>= λ s.
              let r : ℤ × Held = finish os p.length_ (count_or_error s) m.1 in
              some (r.0, store mem (mp.base + mp.offset) s.1, r.1))
          else none
    ]
