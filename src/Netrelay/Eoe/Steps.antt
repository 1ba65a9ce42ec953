-- ===== src/Netrelay/Eoe/Steps.antt =====
-- test_suite/netrelay/eoe_filter.c: what the two directions make of the packet in the buffer.
use mathlib.Core.Path.{subst}
use linux_device_driver.Base.{
  drop-drop, take-drop, ℕ, ◌+◌, ◌-◌, ◌^◌, ◌≤◌, ◌<◌, ◌≡◌, refl, ap, sym, ◌∙◌, some, List, [], ◌∷◌,
  ◌++◌, take, drop, length, splice, replicate, arith, if◌then◌else◌, ltb, leb, Bool-cases, inl, inr,
  true, false, length-append, length-replicate, length-splice, add_u64, append-nil, max,
}
use linux_device_driver.Base.Maybe.{◌>>=◌}
use linux_device_driver.Base.Windows.{
  window, window-append, window-splice, window-splice_before, window-splice_behind,
}
use linux_device_driver.Netrelay.{Buffer}
use linux_device_driver.Netrelay.Eoe.{
  Endian, big, little, header_size, min_payload, init_eoe_header, store, extend_packet_payload,
  push_header, del_eoe_header,
}

-- A payload of at least 64 bytes: short ones end in zeros.
abbrev pub pad : List ℕ → List ℕ
pad xs = xs ++ replicate (64 - length xs) 0

-- The frame that carries a payload.
abbrev pub frame : Endian → List ℕ → List ℕ
frame e xs = init_eoe_header e (length (pad xs)) ++ pad xs

-- The buffer holds the packet `xs`, and `n` bytes of memory.
pub record Holds (b : Buffer) (n : ℕ) (xs : List ℕ) : Type 0 where
  pub room : length b.base ≡ n
  pub count : b.size ≡ length xs
  pub inside : b.data_ + length xs ≤ n
  pub bytes : window b.data_ (length xs) b.base ≡ xs

pub length-header : (e : Endian) (n : ℕ) → length (init_eoe_header e n) ≡ 22
unfolding init_eoe_header
length-header big n = refl
length-header little n = refl

pub length-pad : (xs : List ℕ) → length (pad xs) ≡ max 64 (length xs)
length-pad xs =
    length-append xs (replicate (64 - length xs) 0)
    ∙ omega (arith, length-replicate {A = ℕ} (64 - length xs) 0)

store_fits :
    (base : List ℕ) (p : ℕ) (xs : List ℕ)
    → p + length xs ≤ length base
    → store base p xs ≡ some (splice base p xs)
store_fits base p xs h =
    let t : leb (p + length xs) (length base) ≡ true = ground arith in rw (t, if◌then◌else◌) refl

module _ (b : Buffer) (n : ℕ) (xs : List ℕ) (holds : Holds b n xs) where
  pub extended :
      b.data_ + 64 ≤ n
      → (b' : Buffer) × (extend_packet_payload b ≡ some b')
        × (b'.data_ ≡ b.data_)
        × Holds b' n (pad xs)
  unfolding extend_packet_payload
  extended wide = elim (Bool-cases (ltb b.size min_payload)) [
    | inl short ↦
        let zeros : List ℕ = replicate (64 - b.size) 0 in
        let k : length zeros ≡ 64 - b.size = length-replicate {A = ℕ} (64 - b.size) 0 in
        let less : b.size < 64 = ground arith in
        let fits : b.data_ + b.size + length zeros ≤ length b.base = omega (arith, holds.room) in
        let base' : List ℕ = splice b.base (b.data_ + b.size) zeros in
        let same : pad xs ≡ xs ++ zeros = ap (λ j. xs ++ replicate (64 - j) 0) (sym holds.count) in
        let len : length (pad xs) ≡ b.size + length zeros =
          omega (arith, length-pad xs, holds.count) in
        (
          record { base = base'; data_ = b.data_; size = 64 },
          rw (short, if◌then◌else◌, store_fits b.base (b.data_ + b.size) zeros fits, ◌>>=◌) refl,
          refl,
          record {
            room = length-splice b.base (b.data_ + b.size) zeros ∙ holds.room;
            count = omega (arith, len);
            inside = omega (arith, len);
            bytes =
                ap (λ j. window b.data_ j base') len
                ∙ sym (window-append b.data_ b.size (length zeros) base')
                ∙ ap (λ r. r ++ window (b.data_ + b.size) (length zeros) base')
                    (window-splice_before b.data_ b.size (b.data_ + b.size) zeros b.base
                        (omega arith)
                      ∙ ap (λ j. window b.data_ j b.base) holds.count
                      ∙ holds.bytes)
                ∙ ap (λ r. xs ++ r) (window-splice (b.data_ + b.size) zeros b.base fits)
                ∙ sym same;
          },
        )
    | inr long ↦
        let more : 64 ≤ b.size = ground arith in
        let z : 64 - length xs ≡ 0 = omega (arith, holds.count) in
        let same : pad xs ≡ xs = ap (λ j. xs ++ replicate j 0) z ∙ append-nil xs in
        (b, rw (long, if◌then◌else◌) refl, refl, subst (Holds b n) (sym same) holds)
  ]

  pub pushed :
      (e : Endian)
      → 22 ≤ b.data_
      → length xs + 22 < 2 ^ 64
      → (b' : Buffer) × (push_header e b ≡ some b')
        × (b'.data_ ≡ b.data_ - 22)
        × Holds b' n (init_eoe_header e (length xs) ++ xs)
  unfolding push_header
  pushed e behind small =
      let header : List ℕ = init_eoe_header e b.size in
      let k : length header ≡ 22 = length-header e b.size in
      let p : ℕ = b.data_ - 22 in
      let fits : p + length header ≤ length b.base = omega (arith, holds.room, holds.inside) in
      let base' : List ℕ = splice b.base p header in
      let t : ltb b.data_ header_size ≡ false = ground arith in
      let same : header ≡ init_eoe_header e (length xs) = ap (init_eoe_header e) holds.count in
      let len : length (init_eoe_header e (length xs) ++ xs) ≡ length header + length xs =
        length-append (init_eoe_header e (length xs)) xs
        ∙ ap (λ r. length r + length xs) (sym same) in
      let at : p + length header ≡ b.data_ = omega arith in
      (
        record { base = base'; data_ = p; size = add_u64 b.size header_size },
        rw (t, if◌then◌else◌, store_fits b.base p header fits, ◌>>=◌) refl,
        refl,
        record {
          room = length-splice b.base p header ∙ holds.room;
          count = omega (arith, len, holds.count);
          inside = omega (arith, len, holds.inside);
          bytes =
              ap (λ j. window p j base') len
              ∙ sym (window-append p (length header) (length xs) base')
              ∙ ap (λ r. r ++ window (p + length header) (length xs) base')
                  (window-splice p header b.base fits)
              ∙ ap (λ j. header ++ window j (length xs) base') at
              ∙ ap (λ r. header ++ r)
                  (window-splice_behind b.data_ (length xs) p header b.base (omega arith)
                    ∙ holds.bytes)
              ∙ ap (λ r. r ++ xs) same;
        },
      )

drop-append_self : (xs ys : List ℕ) → drop (length xs) (xs ++ ys) ≡ ys
drop-append_self [] ys = refl
drop-append_self (x ∷ xs) ys = drop-append_self xs ys

-- What is behind the header of a packet that holds one.
pub opened :
    (b : Buffer) (n : ℕ) (hs xs : List ℕ)
    → length hs ≡ 22
    → length (hs ++ xs) < 2 ^ 64
    → Holds b n (hs ++ xs)
    → Holds (del_eoe_header b) n xs
unfolding del_eoe_header
opened b n hs xs k small holds =
    let len : length (hs ++ xs) ≡ 22 + length xs =
      length-append hs xs ∙ ap (λ j. j + length xs) k in
    record {
      room = holds.room;
      count = omega (arith, holds.count, len);
      inside = omega (arith, holds.inside, len);
      bytes =
          sym (ap (take (length xs)) (drop-drop 22 b.data_ b.base))
          ∙ take-drop 22 (22 + length xs) (length xs) (drop b.data_ b.base) refl
          ∙ ap (λ j. drop 22 (take j (drop b.data_ b.base))) (sym len)
          ∙ ap (drop 22) holds.bytes
          ∙ ap (λ j. drop j (hs ++ xs)) (sym k)
          ∙ drop-append_self hs xs;
    }
