-- ===== src/Firmware/Sysfs/Files.antt =====
-- What user space sees of a load through its files: names, numbers and the progress.
use linux_device_driver.Base.{
  c_string, ℕ, zero, suc, ◌+◌, ◌-◌, ◌*◌, ◌/◌, ◌≤◌, ◌<◌, ◌^◌, ◌≡◌, ◌≢◌, refl, ap, true, false, List,
  [], ◌∷◌, ◌++◌, arith, ◌==◌, if◌then◌else◌, leb, length, take, splice, get_or, length-append,
  length-splice, take-append_self, pos, negsuc, eqb_ℤ, Bool-cases, inl, inr, ◌≤ℤ◌,
}
use linux_device_driver.Firmware.{Ctx}
use linux_device_driver.Firmware.Sysfs.{
  filename, text, is_blank, kept_count, filename_size, fw_set_filename, fw_show, progress,
  hundredfold,
}

-- A file name as user space means it: not empty, no NUL, no blank at the end.
abbrev pub NoNul : List ℕ → Type 0
NoNul [] = Unit
NoNul (c ∷ cs) = (c ≢ 0) × NoNul cs

abbrev pub EndsWell : List ℕ → Type 0
EndsWell [] = ⊥
EndsWell (c ∷ []) = is_blank c ≡ false
EndsWell (c ∷ d ∷ cs) = EndsWell (d ∷ cs)

abbrev pub AllBlank : List ℕ → Type 0
AllBlank [] = Unit
AllBlank (c ∷ cs) = (is_blank c ≡ true) × AllBlank cs

get_or-append : (xs ys : List ℕ) (i : ℕ) → get_or (xs ++ ys) (length xs + i) 0 ≡ get_or ys i 0
get_or-append [] ys i = let e : 0 + i ≡ i = omega arith in rw e
get_or-append (x ∷ xs) ys i =
    let e : suc (length xs) + i ≡ suc (length xs + i) = omega arith in rw e (get_or-append xs ys i)

AllBlank-get_or :
    (bl : List ℕ) (i : ℕ) → AllBlank bl → i < length bl → is_blank (get_or bl i 0) ≡ true
AllBlank-get_or [] i h lt = absurd (omega arith)
AllBlank-get_or (c ∷ cs) zero h lt = h.0
AllBlank-get_or (c ∷ cs) (suc i) h lt = AllBlank-get_or cs i h.1 (omega arith)

EndsWell-get_or :
    (c : ℕ) (cs bl : List ℕ)
    → EndsWell (c ∷ cs)
    → is_blank (get_or ((c ∷ cs) ++ bl) (length cs) 0) ≡ false
EndsWell-get_or c [] bl h = h
EndsWell-get_or c (d ∷ cs) bl h = EndsWell-get_or d cs bl h

kept_count-whole :
    (name bl : List ℕ) → EndsWell name → kept_count (name ++ bl) (length name) ≡ length name
unfolding kept_count
kept_count-whole [] bl h = absurd h
kept_count-whole (c ∷ cs) bl h = rw (EndsWell-get_or c cs bl h, if◌then◌else◌)

-- The blanks behind a name are dropped.
kept_count_lem :
    (name bl : List ℕ) (j : ℕ)
    → EndsWell name
    → AllBlank bl
    → j ≤ length bl
    → kept_count (name ++ bl) (length name + j) ≡ length name
unfolding kept_count
kept_count_lem name bl zero h b lt =
    let e : length name + 0 ≡ length name = omega arith in rw e (kept_count-whole name bl h)
kept_count_lem name bl (suc j) h b lt =
    let e : length name + suc j ≡ suc (length name + j) = omega arith in
    let blank : is_blank (get_or (name ++ bl) (length name + j) 0) ≡ true =
      rw (get_or-append name bl j) (AllBlank-get_or bl j b (omega arith)) in
    rw (e, kept_count, blank) (kept_count_lem name bl j h b (omega arith))

-- A name stored in an array with room for it and its NUL is read back.
c_string-splice :
    (name f : List ℕ)
    → NoNul name
    → length name < length f
    → c_string (splice (splice f 0 name) (length name) (0 ∷ [])) ≡ name
c_string-splice [] [] n h = absurd (omega arith)
c_string-splice [] (y ∷ f) n h = refl
c_string-splice (c ∷ cs) [] n h = absurd (omega arith)
c_string-splice (c ∷ cs) (y ∷ f) n h = ground (arith, c_string-splice cs f n.1)

EndsWell-pos : (name : List ℕ) → EndsWell name → 0 < length name
EndsWell-pos [] h = absurd h
EndsWell-pos (c ∷ cs) h = omega arith

-- Writing a name of less than 32 bytes to the file `filename`, with any blanks behind it, succeeds,
-- and the file then shows the name without them.
pub filename_roundtrip :
    (ctx : Ctx) (name bl : List ℕ)
    → NoNul name
    → EndsWell name
    → AllBlank bl
    → length name < filename_size
    → length ctx.filename ≡ filename_size
    → let (ret, ctx') = fw_set_filename ctx (name ++ bl) (length (name ++ bl)) in
      (ret ≡ pos 0) × (fw_show ctx' filename ≡ text name)
unfolding fw_set_filename fw_show
filename_roundtrip ctx name bl nul well blank short room =
    let kept : kept_count (name ++ bl) (length (name ++ bl)) ≡ length name =
      rw (length-append name bl) (kept_count_lem name bl (length bl) well blank (omega arith)) in
    let some_bytes : (length name == 0) ≡ false = ground (arith, EndsWell-pos name well) in
    let fits : leb filename_size (length name) ≡ false = ground arith in
    rw (kept, some_bytes, fits, take-append_self)
      (refl, ap text (c_string-splice name ctx.filename nul (omega arith)))

c_string-splice_zero :
    (f : List ℕ) (n : ℕ) → n < length f → length (c_string (splice f n (0 ∷ []))) ≤ n
c_string-splice_zero [] n h = absurd (omega arith)
c_string-splice_zero (y ∷ f) zero h = omega arith
c_string-splice_zero (y ∷ f) (suc n) h = ground (arith, c_string-splice_zero f n)

-- The array of the name keeps its size, and once it holds a NUL it always does, whatever is written
-- to the file: a name that is refused leaves it alone.
filename_terminated :
    (ctx : Ctx) (buf : List ℕ) (count : ℕ)
    → length ctx.filename ≡ filename_size
    → length (c_string ctx.filename) < filename_size
    → let ctx' = (fw_set_filename ctx buf count).1 in
      (length ctx'.filename ≡ filename_size) × (length (c_string ctx'.filename) < filename_size)
unfolding fw_set_filename
filename_terminated ctx buf count size ended =
    let n : ℕ = kept_count buf count in
    let held : List ℕ = splice ctx.filename 0 (take n buf) in
    let long : length held ≡ length ctx.filename = length-splice ctx.filename 0 (take n buf) in
    let whole : length (splice held n (0 ∷ [])) ≡ length held = length-splice held n (0 ∷ []) in
    elim (Bool-cases (n == 0)) [
      | inl e ↦ rw e (size, ended)
      | inr e ↦ elim (Bool-cases (leb filename_size n)) [
        | inl e' ↦ rw (e, e') (size, ended)
        | inr e' ↦
            let room : n < length held = ground arith in
            rw (e, e') (omega arith, omega (arith, c_string-splice_zero held n room))
      ]
    ]

-- While 100 times the bytes written fit an `int`, `progress_pct` is the whole part of the percentage,
-- and at most 100.
progress_exact :
    (cur tot : ℕ)
    → cur ≤ tot
    → cur ≤ 21474836
    → 0 < tot
    → tot < 2 ^ 31
    → (progress (pos cur) (pos tot) ≡ pos (100 * cur / tot)) × (100 * cur / tot ≤ 100)
unfolding progress
progress_exact cur tot le small some_bytes int =
    let product : hundredfold (pos cur) ≡ pos (100 * cur) = ground arith in
    let running : eqb_ℤ (pos tot) (pos 0) ≡ false = ground arith in
    (rw (running, product) (ground arith), percent)
  where
    percent : 100 * cur / tot ≤ 100
    percent = grind arith

-- Beyond that the product overflows: from 21474837 to 42949672 bytes the percentage shown is never
-- above 0, though it should be.
progress_overflows :
    (cur tot : ℕ)
    → 21474837 ≤ cur
    → cur ≤ 42949672
    → cur ≤ tot
    → tot < 2 ^ 31
    → progress (pos cur) (pos tot) ≤ℤ pos 0
unfolding progress
progress_overflows cur tot lo hi le int =
    let product : hundredfold (pos cur) ≡ negsuc (2 ^ 32 - 100 * cur - 1) = ground arith in
    let running : eqb_ℤ (pos tot) (pos 0) ≡ false = ground arith in
    rw (running, product) (ground arith)

pub set_filename_keeps :
    (ctx : Ctx) (buf : List ℕ) (count : ℕ)
    → let ctx' = (fw_set_filename ctx buf count).1 in
      (ctx'.state ≡ ctx.state) × (ctx'.dev ≡ ctx.dev) × (ctx'.kobj_added ≡ ctx.kobj_added)
unfolding fw_set_filename
set_filename_keeps ctx buf count = ground arith
