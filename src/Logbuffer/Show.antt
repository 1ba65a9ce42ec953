-- ===== src/Logbuffer/Show.antt =====
-- `logbuffer_show` on a region that is as large as the parameters say, and the tokens of its parameter.
use linux_device_driver.Base.{
  ℕ, zero, suc, ◌+◌, ◌-◌, ◌^◌, ◌≤◌, ◌<◌, ◌≡◌, refl, true, false, ◌&&◌, ◌||◌, Bool-cases, inl, inr,
  Option, none, some, List, [], ◌∷◌, ◌++◌, map, arith, ◌==◌, ltb, leb, length, drop, take,
  length-drop, length-append, u64, to_word,
}
use linux_device_driver.Base.Maybe.{◌>>=◌}
use linux_device_driver.Logbuffer.{
  Log, Kernel, Message, logbuff_len, logbuff_size, header_size, logbuff_magic, piece,
  process_logbuffer, show_pieces, show_log, split_comma, get_mytoken, named, kmalloc_failed, value,
  not_found, at, out_of_range, logbuffer_show, show_region,
}
use linux_device_driver.Logbuffer.Lines.{process_lines, shown_line, text_lines}

-- A buffer that kmalloc gives has the size asked for.
abbrev pub GivesBuffers : Kernel → Type 0
GivesBuffers sys = (i : ℕ) (m : List ℕ) → sys.kmalloc i ≡ some m → length m ≡ logbuff_size

piece_bounds :
    (offset end : ℕ)
    → offset < end
    → end + logbuff_len < 2 ^ 64
    → (0 < piece offset end) × (offset + piece offset end ≤ end) × (piece offset end ≤ logbuff_len)
piece_bounds offset end h small = ground arith

module _ (sys : Kernel) (gives : GivesBuffers sys) where
  piece_shown :
      (i : ℕ) (buf name : List ℕ) (size : ℕ)
      → size ≤ length buf
      → size ≤ logbuff_len
      → (out : List Message) × (process_logbuffer (sys.kmalloc i) buf name size ≡ some out)
  unfolding process_logbuffer
  piece_shown i buf name size long small = by_memory (sys.kmalloc i) refl
    where
      by_memory :
          (m : Option (List ℕ))
          → sys.kmalloc i ≡ m
          → (out : List Message) × (process_logbuffer m buf name size ≡ some out)
      by_memory none e = (kmalloc_failed ∷ [], refl)
      by_memory (some m) e = (
        named name (map shown_line (text_lines [] (take size buf))),
        process_lines m buf name size (gives i m e) long small,
      )

  one_piece :
      (log : Log) (name : List ℕ) (mem_size fuel i offset : ℕ) {shown more : List Message}
      → (ltb offset log.end && ltb (u64 (header_size + offset)) mem_size) ≡ true
      → process_logbuffer (sys.kmalloc i) (drop offset log.buf) name (piece offset log.end)
        ≡ some shown
      → u64 (offset + piece offset log.end) ≡ offset + piece offset log.end
      → show_pieces sys fuel (i + 1) log name mem_size (offset + piece offset log.end) ≡ some more
      → show_pieces sys (suc fuel) i log name mem_size offset ≡ some (shown ++ more)
  unfolding show_pieces
  one_piece log name mem_size fuel i offset go e next f =
      rw (show_pieces, go, e, ◌>>=◌, next, f) refl

  no_piece :
      (log : Log) (name : List ℕ) (mem_size fuel i offset : ℕ)
      → (ltb offset log.end && ltb (u64 (header_size + offset)) mem_size) ≡ false
      → show_pieces sys (suc fuel) i log name mem_size offset ≡ some []
  unfolding show_pieces
  no_piece log name mem_size fuel i offset stop = rw (show_pieces, stop) refl

  pieces_shown :
      (log : Log) (name : List ℕ) (mem_size : ℕ)
      → log.end ≤ length log.buf
      → log.end + logbuff_len + header_size < 2 ^ 64
      → (fuel i offset : ℕ) → log.end - offset < fuel
      → (out : List Message) × (show_pieces sys fuel i log name mem_size offset ≡ some out)
  unfolding show_pieces
  pieces_shown log name mem_size held fits zero i offset enough = absurd (omega arith)
  pieces_shown log name mem_size held fits (suc fuel) i offset enough =
      elim (Bool-cases (ltb offset log.end && ltb (u64 (header_size + offset)) mem_size)) [
        | inl go ↦
            let size : ℕ = piece offset log.end in
            let inside : offset < log.end = ground arith in
            let bounds : (0 < size) × (offset + size ≤ log.end) × (size ≤ logbuff_len) =
              piece_bounds offset log.end inside (omega arith) in
            let (shown, e) =
              piece_shown i (drop offset log.buf) name size
                (omega (arith, bounds, length-drop offset log.buf)) bounds.2 in
            let next : u64 (offset + size) ≡ offset + size = omega (arith, bounds) in
            let (more, f) =
              pieces_shown log name mem_size held fits fuel (i + 1) (offset + size)
                (omega (arith, bounds)) in
            (shown ++ more, one_piece log name mem_size fuel i offset go e next f)
        | inr stop ↦ ([], no_piece log name mem_size fuel i offset stop)
      ]

  -- If kmalloc gives buffers of the size asked for, the region has the size given, below 2 ^ 63,
  -- and the header does not say that the text ends within 40 bytes of 2 ^ 64, showing the log
  -- returns: the loop over the pieces ends, and no byte outside of the region or of the line
  -- buffer is touched, whatever else the header says.
  pub show_total :
      (log : Log) (name : List ℕ) (mem_size : ℕ)
      → header_size + length log.buf ≡ mem_size
      → mem_size < 2 ^ 63
      → log.end < 2 ^ 64 - header_size
      → (out : List Message) × (show_log sys log name mem_size ≡ some out)
  unfolding show_log
  show_total log name mem_size region small sane = elim (Bool-cases (log.tag == logbuff_magic)) [
    | inr bad ↦ (value ∷ not_found ∷ [], rw bad refl)
    | inl good ↦
        elim (Bool-cases (ltb log.end log.start || ltb mem_size (u64 (log.end + header_size)))) [
          | inl bad ↦ (value ∷ at ∷ out_of_range ∷ [], rw (good, bad) refl)
          | inr fine ↦
              let held : log.end ≤ length log.buf = ground arith in
              let (out, e) =
                pieces_shown log name mem_size held (omega arith) (suc (log.end - log.start)) 0
                  log.start (omega arith) in
              (value ∷ at ∷ out, rw (good, fine, e) refl)
        ]
  ]

-- A token without the comma.
abbrev pub NoComma : List ℕ → Type 0
NoComma [] = Unit
NoComma (c ∷ cs) = (c == b',' ≡ false) × NoComma cs

split_comma_lem :
    (token rest : List ℕ) → NoComma token → split_comma (token ++ b',' ∷ rest) ≡ (token, rest)
split_comma_lem [] rest h = refl
split_comma_lem (c ∷ cs) rest h = rw (h.0, split_comma_lem cs rest h.1) refl

split_comma_end : (token : List ℕ) → NoComma token → split_comma token ≡ (token, [])
split_comma_end [] h = refl
split_comma_end (c ∷ cs) h = rw (h.0, split_comma_end cs h.1) refl

get_mytoken_lem :
    (token rest : List ℕ)
    → NoComma token
    → length token < 128
    → get_mytoken (token ++ b',' ∷ rest) ≡ some (token, rest)
unfolding get_mytoken
get_mytoken_lem token rest h short =
    let fits : ltb (length token) 128 ≡ true = ground arith in
    rw (split_comma_lem token rest h, fits) refl

get_mytoken_last :
    (token : List ℕ) → NoComma token → length token < 128 → get_mytoken token ≡ some (token, [])
unfolding get_mytoken
get_mytoken_last token h short =
    let fits : ltb (length token) 128 ≡ true = ground arith in
    rw (split_comma_end token h, fits) refl

-- A parameter "name,length,address" is taken apart into the three: the region shown is at the address
-- and of the length that strtol reads in them.
parameter_parsed :
    (sys : Kernel) (name size addr : List ℕ)
    → NoComma name
    → NoComma size
    → NoComma addr
    → length name < 128
    → length size < 128
    → length addr < 128
    → logbuffer_show sys (name ++ (b',' ∷ (size ++ (b',' ∷ addr))))
      ≡ show_region sys name
          (to_word (2 ^ 64) (sys.strtol addr))
          (to_word (2 ^ 64) (sys.strtol size))
unfolding logbuffer_show
parameter_parsed sys name size addr n s a short short' short'' =
    let whole : leb 512 (length (name ++ (b',' ∷ (size ++ (b',' ∷ addr))))) ≡ false = ground (
      arith,
      length-append name (b',' ∷ (size ++ (b',' ∷ addr))),
      length-append size (b',' ∷ addr),
    ) in
    let name_token : get_mytoken (name ++ (b',' ∷ (size ++ (b',' ∷ addr))))
        ≡ some (name, size ++ (b',' ∷ addr)) =
      get_mytoken_lem name (size ++ (b',' ∷ addr)) n short in
    let size_token : get_mytoken (size ++ (b',' ∷ addr)) ≡ some (size, addr) =
      get_mytoken_lem size addr s short' in
    let addr_token : get_mytoken addr ≡ some (addr, []) = get_mytoken_last addr a short'' in
    rw (whole, name_token, ◌>>=◌, size_token, ◌>>=◌, addr_token) refl
