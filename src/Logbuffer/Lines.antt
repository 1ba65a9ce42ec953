-- ===== src/Logbuffer/Lines.antt =====
-- The lines that `process_logbuffer` shows, against the lines of the text.
use linux_device_driver.Base.{
  ℕ, zero, suc, ◌+◌, ◌-◌, ◌%◌, ◌≤◌, ◌<◌, ◌≡◌, refl, ap, sym, ◌∙◌, min, true, false, Bool-cases, inl,
  inr, ◌⊎◌, some, List, [], ◌∷◌, ◌++◌, map, arith, ◌==◌, if◌then◌else◌, leb, length, set, take,
  drop, c_string, length-set, take-set, take-suc-set, take-suc-drop, length-append,
  take_of_length_le,
}
use linux_device_driver.Base.Maybe.{◌>>=◌}
use linux_device_driver.Logbuffer.{
  logbuff_len, logbuff_size, put, capped, add_byte, process_loop, process_logbuffer, named,
}

-- The lines of a text, without '\r' and without what follows the last '\n'; `cur` is the line begun.
abbrev pub text_lines : List ℕ → List ℕ → List (List ℕ)
text_lines cur [] = []
text_lines cur (c ∷ cs) =
    let skipped = text_lines cur cs in
    let fresh = text_lines [] cs in
    let longer = text_lines (cur ++ c ∷ []) cs in
    if c == 13 then skipped else if c == 10 then cur ∷ fresh else longer

-- A line as it is shown: its first 2046 bytes and a newline, up to a NUL in them.
abbrev pub shown_line : List ℕ → List ℕ
shown_line l = c_string (take (logbuff_size - 2) l ++ 10 ∷ [])

-- `local_buffer` and `local_idx` when `cur` is the line begun.
pub record Holds (cur local_buffer : List ℕ) (local_idx : ℕ) : Type 0 where
  pub size : length local_buffer ≡ logbuff_size
  pub count : local_idx ≡ min (length cur) (logbuff_size - 2)
  pub text : take local_idx local_buffer ≡ take (logbuff_size - 2) cur

c_string-ended :
    (xs : List ℕ) (j v : ℕ)
    → suc j < length xs
    → c_string (set (set xs j v) (suc j) 0) ≡ c_string (take j xs ++ v ∷ [])
c_string-ended [] j v h = absurd (omega arith)
c_string-ended (x ∷ []) zero v h = absurd (omega arith)
c_string-ended (x ∷ y ∷ xs) zero v h = refl
c_string-ended (x ∷ xs) (suc j) v h = ground (arith, c_string-ended xs j v (omega arith))

take-append_last :
    (n : ℕ) (cur : List ℕ) (c : ℕ) → n ≤ length cur → take n (cur ++ c ∷ []) ≡ take n cur
take-append_last zero cur c h = refl
take-append_last (suc n) [] c h = absurd (omega arith)
take-append_last (suc n) (x ∷ cur) c h = ap (λ z. x ∷ z) (take-append_last n cur c (omega arith))

put_lem : (a : List ℕ) (i v : ℕ) → i < length a → put a i v ≡ some (set a i v)
put_lem a i v h = ground arith

lt_or : (a b : ℕ) → (a < b) ⊎ (b ≤ a)
lt_or a b = omega arith

next_index : (i : ℕ) → i + 1 ≡ suc i
next_index i = omega arith

capped_short : (i : ℕ) → i < logbuff_size - 2 → capped (i + 1) ≡ suc i
capped_short i h =
    let below : leb (logbuff_size - 1) (i + 1) ≡ false = ground arith in rw below (omega arith)

capped_full : capped (logbuff_size - 2 + 1) ≡ logbuff_size - 2
capped_full = refl

module _ {cur local_buffer : List ℕ} {local_idx : ℕ}
    (holds : Holds cur local_buffer local_idx) where
  room : suc local_idx < length local_buffer
  room = omega (arith, holds.size, holds.count)

  add_newline :
      (ended : List ℕ) × (add_byte local_buffer local_idx 10 ≡ some (shown_line cur ∷ [], ended, 0))
      × Holds [] ended 0
  unfolding add_byte
  add_newline =
      let held : List ℕ = set local_buffer local_idx 10 in
      let ended : List ℕ = set held (suc local_idx) 0 in
      let first : put local_buffer local_idx 10 ≡ some held =
        put_lem local_buffer local_idx 10 (omega (arith, room)) in
      let second : put held (local_idx + 1) 0 ≡ some ended = rw (next_index local_idx) (
        put_lem held (suc local_idx) 0
          (omega (arith, room, length-set local_buffer local_idx 10))) in
      let line : c_string ended ≡ shown_line cur =
        c_string-ended local_buffer local_idx 10 room
        ∙ ap (λ z. c_string (z ++ 10 ∷ [])) holds.text in
      (
        ended,
        rw (first, second, line) refl,
        record {
          size =
              length-set held (suc local_idx) 0 ∙ length-set local_buffer local_idx 10 ∙ holds.size;
          count = refl;
          text = refl;
        },
      )

  add_other :
      (c : ℕ)
      → (c == 10) ≡ false
      → (held : List ℕ) × (idx : ℕ) × (add_byte local_buffer local_idx c ≡ some ([], held, idx))
        × Holds (cur ++ c ∷ []) held idx
  unfolding add_byte
  add_other c other =
      let held : List ℕ = set local_buffer local_idx c in
      let first : put local_buffer local_idx c ≡ some held =
        put_lem local_buffer local_idx c (omega (arith, room)) in
      let longer : length (cur ++ c ∷ []) ≡ suc (length cur) =
        omega (arith, length-append cur (c ∷ [])) in
      (
        held,
        capped (local_idx + 1),
        rw (first, other) refl,
        record {
          size = length-set local_buffer local_idx c ∙ holds.size;
          count = rw longer (counted (lt_or (length cur) (logbuff_size - 2)));
          text = text_kept (lt_or (length cur) (logbuff_size - 2));
        },
      )
    where
      counted :
          (length cur < logbuff_size - 2) ⊎ (logbuff_size - 2 ≤ length cur)
          → capped (local_idx + 1) ≡ min (suc (length cur)) (logbuff_size - 2)
      counted (inl short) =
          let i : local_idx ≡ length cur = omega (arith, holds.count) in
          rw i (capped_short (length cur) short ∙ omega arith)
      counted (inr long) =
          let i : local_idx ≡ logbuff_size - 2 = omega (arith, holds.count) in rw i (omega arith)

      text_kept :
          (length cur < logbuff_size - 2) ⊎ (logbuff_size - 2 ≤ length cur)
          → take (capped (local_idx + 1)) (set local_buffer local_idx c)
            ≡ take (logbuff_size - 2) (cur ++ c ∷ [])
      text_kept (inl short) =
          let i : local_idx ≡ length cur = omega (arith, holds.count) in
          let next : capped (local_idx + 1) ≡ suc local_idx =
            capped_short local_idx (omega arith) in
          let whole : take (logbuff_size - 2) (cur ++ c ∷ []) ≡ cur ++ c ∷ [] =
            take_of_length_le (logbuff_size - 2) (cur ++ c ∷ [])
              (omega (arith, length-append cur (c ∷ []))) in
          ap (λ k. take k (set local_buffer local_idx c)) next
          ∙ take-suc-set local_buffer local_idx c (omega (arith, room))
          ∙ ap (λ z. z ++ c ∷ [])
              (holds.text ∙ take_of_length_le (logbuff_size - 2) cur (omega arith))
          ∙ sym whole
      text_kept (inr long) =
          let i : local_idx ≡ logbuff_size - 2 = omega (arith, holds.count) in
          let same : capped (local_idx + 1) ≡ local_idx = rw i refl in
          ap (λ k. take k (set local_buffer local_idx c)) same
          ∙ take-set local_buffer local_idx local_idx c (omega arith)
          ∙ holds.text
          ∙ sym (take-append_last (logbuff_size - 2) cur c long)

-- `process_logbuffer` with the line begun and the bytes to go.
loop_lines :
    (buf : List ℕ) (n i : ℕ) {cur local_buffer : List ℕ} {local_idx : ℕ}
    → Holds cur local_buffer local_idx
    → i + n ≤ length buf
    → i + n ≤ logbuff_len
    → process_loop buf n i local_buffer local_idx
      ≡ some (map shown_line (text_lines cur (take n (drop i buf))))
unfolding process_loop
loop_lines buf zero i holds long small = refl
loop_lines buf (suc n) i {cur} {local_buffer} {local_idx} holds long small =
    let (c, here, tail) = take-suc-drop buf i n (omega arith) in
    let index : i % logbuff_len ≡ i = omega arith in
    let next : i + 1 ≡ suc i = omega arith in
    let tail' : take (suc n) (drop i buf) ≡ c ∷ take n (drop (i + 1) buf) = rw next tail in
    rw (index, here, tail')
      (by_byte
        (λ cur' local_buffer' local_idx' holds'.
          loop_lines buf n (i + 1) holds' (omega arith) (omega arith))
        c (Bool-cases (c == 13)) (Bool-cases (c == 10)))
  where
    later : List ℕ
    later = take n (drop (i + 1) buf)

    by_byte :
        ((cur' local_buffer' : List ℕ) (local_idx' : ℕ)
          → Holds cur' local_buffer' local_idx'
          → process_loop buf n (i + 1) local_buffer' local_idx'
            ≡ some (map shown_line (text_lines cur' later)))
        → (c : ℕ) → (c == 13 ≡ true) ⊎ (c == 13 ≡ false)
        → (c == 10 ≡ true) ⊎ (c == 10 ≡ false)
        → (elim (c == 13) [
          | true ↦ process_loop buf n (i + 1) local_buffer local_idx
          | false ↦ add_byte local_buffer local_idx c >>= λ r.
              process_loop buf n (i + 1) r.1 r.2 >>= λ lines. some (r.0 ++ lines)
        ])
          ≡ some (map shown_line (text_lines cur (c ∷ later)))
    by_byte rest c (inl skip) _ = rw skip (rest cur local_buffer local_idx holds)
    by_byte rest c (inr other) (inl newline) =
        let (ended, wrote, begun) = add_newline holds in
        let ten : c ≡ 10 = ground arith in
        let wrote' : add_byte local_buffer local_idx c ≡ some (shown_line cur ∷ [], ended, 0) =
          rw ten wrote in
        let ih : process_loop buf n (i + 1) ended 0 ≡ some (map shown_line (text_lines [] later)) =
          rest [] ended 0 begun in
        rw (other, newline, wrote', ih) refl
    by_byte rest c (inr other) (inr plain) =
        let (held, idx, wrote, longer) = add_other holds c plain in
        let ih : process_loop buf n (i + 1) held idx
            ≡ some (map shown_line (text_lines (cur ++ c ∷ []) later)) =
          rest (cur ++ c ∷ []) held idx longer in
        rw (other, plain, wrote, ih) refl

-- On a buffer of 2048 bytes, whatever it held, and a piece of at most 32768 bytes that is there,
-- `process_logbuffer` writes inside the buffer and shows exactly the lines of the piece: without
-- '\r', each cut to 2046 bytes, and cut with its newline from the first NUL in it on; what follows the last
-- '\n' is not shown.
pub process_lines :
    (memory buf name : List ℕ) (size : ℕ)
    → length memory ≡ logbuff_size
    → size ≤ length buf
    → size ≤ logbuff_len
    → process_logbuffer (some memory) buf name size
      ≡ some (named name (map shown_line (text_lines [] (take size buf))))
unfolding process_logbuffer
process_lines memory buf name size room long small =
    let begun : Holds [] memory 0 = record { size = room; count = refl; text = refl } in
    rw (loop_lines buf size 0 begun (omega arith) (omega arith)) refl
