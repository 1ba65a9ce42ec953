-- ===== src/Memutil/Copies.antt =====
-- test_suite/memutil/mem_ops.c: a region that is saved and loaded again, whole.
use mathlib.Core.Path.{subst}
use linux_device_driver.Base.{
  ℕ, zero, suc, ◌+◌, ◌-◌, ◌^◌, ◌≤◌, ◌<◌, ◌≡◌, refl, ap, sym, ◌∙◌, true, false, some, List, [], ◌∷◌,
  ◌++◌, length, take, drop, if◌then◌else◌, ◌==◌, arith, pos, of_word, take-append-drop,
  take_of_length_le, length-append, length-drop, ltb_ℤ, eqb_ℤ,
}
use linux_device_driver.Base.Maybe.{◌>>=◌}
use linux_device_driver.Memloader.{store}
use linux_device_driver.Memutil.{
  Params, Mapped, Os, Held, map_range, map_memory, bytes_from, Io, moved, interrupted, failed,
  write_rest, read_rest, finish, in_mapping, save_mem_region_to_file, load_mem_region_from_file,
}
use linux_device_driver.Memutil.Range.{range_covers}

length-bytes_from : (mem : ℕ → ℕ) (a n : ℕ) → length (bytes_from mem a n) ≡ n
length-bytes_from mem a zero = refl
length-bytes_from mem a (suc n) = ap suc (length-bytes_from mem (a + 1) n)

-- write takes `n` bytes in pieces, interrupted any number of times.
abbrev pub Takes : List (Io ℕ) → ℕ → Type 0
Takes [] n = n ≡ 0
Takes (interrupted ∷ r) n = Takes r n
Takes (failed ∷ r) n = ⊥
Takes (moved k ∷ r) n = (0 < k) × (k ≤ n) × Takes r (n - k)

-- read gives the bytes `xs` in pieces, interrupted any number of times.
abbrev pub Gives : List (Io (List ℕ)) → List ℕ → Type 0
Gives [] xs = xs ≡ []
Gives (interrupted ∷ r) xs = Gives r xs
Gives (failed ∷ r) xs = ⊥
Gives (moved ys ∷ r) xs = (0 < length ys) × ((zs : List ℕ) × (xs ≡ ys ++ zs) × Gives r zs)

written_whole :
    (ws : List (Io ℕ)) (xs : List ℕ) → Takes ws (length xs) → write_rest ws xs ≡ some (false, xs)
unfolding write_rest
written_whole [] [] h = refl
written_whole [] (x ∷ xs) h = absurd (omega arith)
written_whole (interrupted ∷ r) [] h = refl
written_whole (interrupted ∷ r) (x ∷ xs) h = written_whole r (x ∷ xs) h
written_whole (failed ∷ r) xs h = absurd h
written_whole (moved k ∷ r) [] h = refl
written_whole (moved k ∷ r) (x ∷ xs) h =
    let t : (k == 0) ≡ false = ground arith in
    let n : length (drop k (x ∷ xs)) ≡ length (x ∷ xs) - k = length-drop k (x ∷ xs) in
    rw
      (
        write_rest,
        t,
        if◌then◌else◌,
        written_whole r (drop k (x ∷ xs)) (subst (Takes r) (sym n) h.2),
        ◌>>=◌,
      )
      (ap (λ ys. some (false, ys)) (take-append-drop k (x ∷ xs)))

read_step :
    (r : List (Io (List ℕ))) (ys zs : List ℕ) (n : ℕ)
    → 0 < length ys
    → n ≡ length (ys ++ zs)
    → read_rest r (length zs) ≡ some (false, zs)
    → read_rest (moved ys ∷ r) n ≡ some (false, ys ++ zs)
unfolding read_rest
read_step r ys zs zero h e later = absurd (omega (arith, e, length-append ys zs))
read_step r ys zs (suc n) h e later =
    let whole : take (suc n) ys ≡ ys =
      take_of_length_le (suc n) ys (omega (arith, e, length-append ys zs)) in
    let t : (length ys == 0) ≡ false = ground arith in
    let left : suc n - length ys ≡ length zs = omega (arith, e, length-append ys zs) in
    rw (read_rest, whole, t, if◌then◌else◌, left, later, ◌>>=◌) refl

read_whole :
    (rs : List (Io (List ℕ))) (xs : List ℕ)
    → Gives rs xs
    → read_rest rs (length xs) ≡ some (false, xs)
unfolding read_rest
read_whole [] [] h = refl
read_whole [] (x ∷ xs) h = absurd (cc)
read_whole (interrupted ∷ r) [] h = refl
read_whole (interrupted ∷ r) (x ∷ xs) h = read_whole r (x ∷ xs) h
read_whole (failed ∷ r) xs h = absurd h
read_whole (moved ys ∷ r) xs h =
    let (zs, e, later) = h.1 in
    read_step r ys zs (length xs) h.0 (ap length e) (read_whole r zs later)
    ∙ ap (λ q. some (false, q)) (sym e)

-- Every call succeeds.
abbrev pub works : Os
works = record { dev_mem = true; mmap = true; file = true; munmap = true }

finished :
    (n : ℕ)
    → n < 2 ^ 63
    → (h : Held) → finish works n (of_word (2 ^ 63) n) (record h { maps = suc h.maps }) ≡ (pos 0, h)
finished n small h =
    let c : of_word (2 ^ 63) n ≡ pos n = ground arith in
    let t : ltb_ℤ (pos n) (pos 0) ≡ false = ground arith in
    let e : eqb_ℤ (pos n) (pos n) ≡ true = ground arith in
    let m : suc h.maps - 1 ≡ h.maps = omega arith in
    ap (λ q. finish works n q (record h { maps = suc h.maps })) c
    ∙ rw (t, e, if◌then◌else◌) (ap (λ j. (pos 0, record h { maps = j })) m)

module _ (k : ℕ) (page : k ≤ 30) (p : Params) (fits : p.start_phy_addr + p.length_ + 2 ^ k ≤ 2 ^ 64)
    (small : p.length_ < 2 ^ 63) (mem : ℕ → ℕ) (h : Held) where
  -- The mapping that both directions use.
  abbrev mapping : Mapped
  mapping = map_range (2 ^ k) p.start_phy_addr p.length_

  inside : in_mapping mapping p.length_ ≡ true
  inside =
      let covers = range_covers k p.start_phy_addr p.length_ page fits in
      let le : mapping.offset + p.length_ ≤ mapping.map_length = covers.4 in ground arith

  at : mapping.base + mapping.offset ≡ p.start_phy_addr
  at = let covers = range_covers k p.start_phy_addr p.length_ page fits in covers.1

  saved :
      (ws : List (Io ℕ))
      → Takes ws p.length_
      → save_mem_region_to_file works (2 ^ k) ws p mem h
        ≡ some (pos 0, bytes_from mem p.start_phy_addr p.length_, h)
  unfolding save_mem_region_to_file map_memory
  saved ws takes =
      let xs : List ℕ = bytes_from mem (mapping.base + mapping.offset) p.length_ in
      let n : length xs ≡ p.length_ =
        length-bytes_from mem (mapping.base + mapping.offset) p.length_ in
      let w : write_rest ws xs ≡ some (false, xs) =
        written_whole ws xs (subst (Takes ws) (sym n) takes) in
      rw (inside, if◌then◌else◌, w, ◌>>=◌)
        (ap
            (λ j.
              let r =
                finish works p.length_ (of_word (2 ^ 63) j) (record h { maps = suc h.maps }) in
              some (r.0, xs, r.1))
            n
          ∙ ap (λ r. some (r.0, xs, r.1)) (finished p.length_ small h)
          ∙ ap (λ a. some (pos 0, bytes_from mem a p.length_, h)) at)

  loaded :
      (rs : List (Io (List ℕ))) (xs : List ℕ)
      → length xs ≡ p.length_
      → Gives rs xs
      → load_mem_region_from_file works (2 ^ k) rs p mem h
        ≡ some (pos 0, store mem p.start_phy_addr xs, h)
  unfolding load_mem_region_from_file map_memory
  loaded rs xs n gives =
      let w : read_rest rs p.length_ ≡ some (false, xs) =
        ap (read_rest rs) (sym n) ∙ read_whole rs xs gives in
      rw (inside, if◌then◌else◌, w, ◌>>=◌)
        (ap
            (λ j.
              let r =
                finish works p.length_ (of_word (2 ^ 63) j) (record h { maps = suc h.maps }) in
              some (r.0, store mem (mapping.base + mapping.offset) xs, r.1))
            n
          ∙ ap (λ r. some (r.0, store mem (mapping.base + mapping.offset) xs, r.1))
              (finished p.length_ small h)
          ∙ ap (λ a. some (pos 0, store mem a xs, h)) at)

-- Two regions of the same length, below 2^63, each ending at least a page below 2^64, with pages of 2^k bytes, at
-- most 2^30, where every open and map succeeds, write takes everything, in pieces and interrupted any
-- number of times, and read gives the file that was written back in the same way: saving returns 0
-- and the file is the bytes of the first region; loading it returns 0 and changes the memory to these
-- bytes in the second region and nowhere else. Both access the mapping only, and leave no more mapped
-- than before.
pub save_load :
    (k : ℕ) (p q : Params) (mem mem' : ℕ → ℕ) (h : Held) (ws : List (Io ℕ))
    (rs : List (Io (List ℕ)))
    → k ≤ 30
    → p.start_phy_addr + p.length_ + 2 ^ k ≤ 2 ^ 64
    → q.start_phy_addr + q.length_ + 2 ^ k ≤ 2 ^ 64
    → p.length_ < 2 ^ 63
    → q.length_ ≡ p.length_
    → Takes ws p.length_
    → Gives rs (bytes_from mem p.start_phy_addr p.length_)
    → (save_mem_region_to_file works (2 ^ k) ws p mem h
        ≡ some (pos 0, bytes_from mem p.start_phy_addr p.length_, h))
      × (load_mem_region_from_file works (2 ^ k) rs q mem' h
          ≡ some
              (pos 0, store mem' q.start_phy_addr (bytes_from mem p.start_phy_addr p.length_), h))
save_load k p q mem mem' h ws rs page fits fits' small same takes gives = (
  saved k page p fits small mem h ws takes,
  loaded k page q fits' (omega (arith, small, same)) mem' h rs
      (bytes_from mem p.start_phy_addr p.length_)
      (length-bytes_from mem p.start_phy_addr p.length_ ∙ sym same) gives,
)
