-- ===== src/Logbuffer.antt =====
-- logbuffer/logbuffer.c: showing the text that a boot loader has left in a memory region, line by line.
pub mod Lines
pub mod Show
mod Tests
use linux_device_driver.Base.{
  c_string, ℕ, zero, suc, ◌+◌, ◌-◌, ◌%◌, ◌^◌, Bool, true, false, not, ◌&&◌, ◌||◌, Option, none,
  some, List, [], ◌∷◌, ◌++◌, if◌then◌else◌, ◌==◌, ltb, leb, length, get_elem?, set, take, drop, ℤ,
  to_word, u64,
}
use linux_device_driver.Base.Maybe.{◌>>=◌}

-- LOGBUFF_MAGIC, LOGBUFF_LEN and LOGBUFF_SIZE
abbrev pub logbuff_magic : ℕ
logbuff_magic = 0xc0de4ced

abbrev pub logbuff_len : ℕ
logbuff_len = 0x8000

abbrev pub logbuff_size : ℕ
logbuff_size = 2048

-- `logbuff_t` and what follows it in the region.
pub record Log : Type 0 where
  pub tag : ℕ
  pub start : ℕ
  pub end : ℕ
  pub buf : List ℕ

-- sizeof(logbuff_t) with 64-bit alignment
abbrev pub header_size : ℕ
header_size = 40

-- `a[i] = v`; `none`: outside of the array.
abbrev pub put : List ℕ → ℕ → ℕ → Option (List ℕ)
put a i v = if ltb i (length a) then some (set a i v) else none

-- "If the line becomes too long, skip the last part."
abbrev pub capped : ℕ → ℕ
capped local_idx = if leb (logbuff_size - 1) local_idx then local_idx - 1 else local_idx

-- One byte that is no '\r': the line that it completes, and the next `local_buffer` and `local_idx`.
pub add_byte : List ℕ → ℕ → ℕ → Option (List (List ℕ) × List ℕ × ℕ)
add_byte local_buffer local_idx c = put local_buffer local_idx c >>= λ held.
    if c == 10
    then (put held (local_idx + 1) 0 >>= λ ended. some (c_string ended ∷ [], ended, 0))
    else some ([], held, capped (local_idx + 1))

-- The loop of `process_logbuffer`, with `n` bytes to go: what follows "%s: " in each line shown.
pub process_loop : List ℕ → ℕ → ℕ → List ℕ → ℕ → Option (List (List ℕ))
process_loop buf zero log_idx local_buffer local_idx = some []
process_loop buf (suc n) log_idx local_buffer local_idx =
    get_elem? buf (log_idx % logbuff_len) >>= λ c. elim (c == 13) [
      | true ↦ process_loop buf n (log_idx + 1) local_buffer local_idx
      | false ↦ add_byte local_buffer local_idx c >>= λ r.
          process_loop buf n (log_idx + 1) r.1 r.2 >>= λ lines. some (r.0 ++ lines)
    ]

pub data Message : Type 0 where
  line : (buffer_name text : List ℕ) → Message
  kmalloc_failed processing request_failed ioremap_failed value not_found at out_of_range : Message
  invalid_input : Message

abbrev pub named : List ℕ → List (List ℕ) → List Message
named name [] = []
named name (l ∷ ls) = line name l ∷ named name ls

-- `memory` is what kmalloc gives, with what it holds.
pub process_logbuffer : Option (List ℕ) → List ℕ → List ℕ → ℕ → Option (List Message)
process_logbuffer none buf name size = some (kmalloc_failed ∷ [])
process_logbuffer (some memory) buf name size =
    process_loop buf size 0 memory 0 >>= λ lines. some (named name lines)

-- The string up to the first comma, and behind it.
abbrev pub split_comma : List ℕ → List ℕ × List ℕ
split_comma [] = ([], [])
split_comma (c ∷ cs) =
    let (token, rest) = split_comma cs in if c == b',' then ([], cs) else (c ∷ token, rest)

-- `none`: the token and its NUL do not fit the 128 bytes at `outp`.
pub get_mytoken : List ℕ → Option (List ℕ × List ℕ)
get_mytoken inp = let r = split_comma inp in if ltb (length r.0) 128 then some r else none

-- The size of the next piece of the text.
abbrev pub piece : ℕ → ℕ → ℕ
piece offset end = if ltb end (u64 (offset + logbuff_len)) then end - offset else logbuff_len

-- What the kernel gives: strtol is simple_strtol(s, NULL, 0).
pub record Kernel : Type 0 where
  pub strtol : List ℕ → ℤ
  pub request_mem_region : ℕ → ℕ → Bool
  pub ioremap : ℕ → ℕ → Option Log
  pub kmalloc : ℕ → Option (List ℕ)

module _ (sys : Kernel) where
  -- The loop over the pieces, on fuel; the i-th call of kmalloc is for the i-th piece.
  pub show_pieces : ℕ → ℕ → Log → List ℕ → ℕ → ℕ → Option (List Message)
  show_pieces zero i log name mem_size offset = none
  show_pieces (suc fuel) i log name mem_size offset =
      elim (ltb offset log.end && ltb (u64 (header_size + offset)) mem_size) [
        | false ↦ some []
        | true ↦
            let size : ℕ = piece offset log.end in
            process_logbuffer (sys.kmalloc i) (drop offset log.buf) name size >>= λ shown.
            show_pieces fuel (i + 1) log name mem_size (u64 (offset + size)) >>= λ more.
            some (shown ++ more)
      ]

  pub show_log : Log → List ℕ → ℕ → Option (List Message)
  show_log log name mem_size =
      if not (log.tag == logbuff_magic)
      then some (value ∷ not_found ∷ [])
      else if ltb log.end log.start || ltb mem_size (u64 (log.end + header_size))
      then some (value ∷ at ∷ out_of_range ∷ [])
      else (show_pieces (suc (log.end - log.start)) 0 log name mem_size log.start >>= λ shown.
          some (value ∷ at ∷ shown))

  pub show_region : List ℕ → ℕ → ℕ → Option (List Message)
  show_region name mem_address mem_size =
      if not (mem_address == 0) && ltb header_size mem_size
      then (if sys.request_mem_region mem_address mem_size
          then elim (sys.ioremap mem_address mem_size) [
            | none ↦ some (processing ∷ ioremap_failed ∷ [])
            | some log ↦ show_log log name mem_size >>= λ shown. some (processing ∷ shown)
          ]
          else some (processing ∷ request_failed ∷ []))
      else some (invalid_input ∷ [])

  -- `none`: an access outside of an array or of the region.
  pub logbuffer_show : List ℕ → Option (List Message)
  logbuffer_show buffer_info =
      if leb 512 (length buffer_info)
      then none
      else (get_mytoken buffer_info >>= λ name. get_mytoken name.1 >>= λ size.
          get_mytoken size.1 >>= λ addr.
          show_region name.0 (to_word (2 ^ 64) (sys.strtol addr.0))
            (to_word (2 ^ 64) (sys.strtol size.0)))
