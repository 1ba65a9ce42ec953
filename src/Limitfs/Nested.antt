-- ===== src/Limitfs/Nested.antt =====
-- test_suite/limitfs.c: what get_dir_size returns for a directory with subdirectories. The variable
-- cur_filesize keeps its value from one entry to the next, and the recursive call adds to it.
mod Tests
use mathlib.Core.Path.{subst}
use linux_device_driver.Base.{
  ℕ, zero, suc, ◌+◌, ◌-◌, ◌%◌, ◌^◌, ◌≤◌, ◌<◌, ◌≡◌, refl, ap, ◌∙◌, sym, Bool, true, false, Option,
  none, some, List, [], ◌∷◌, if◌then◌else◌, arith, u64, add_u64, inl, inr, max,
}
use linux_device_driver.Base.Maybe.{◌>>=◌}
use linux_device_driver.Base.Text.{Text}
use linux_device_driver.Limitfs.{Posix, Dirent, join}
use linux_device_driver.Limitfs.Scan.{is_dots, is_dir, scan_entries, add_dir_size, get_dir_size}
use linux_device_driver.Limitfs.Steps.{file_size-some, is_dir-some}

-- The entries of a directory in the order of readdir: files with their sizes, directories, and the
-- entries "." and "..".
pub data Entries : Type 0 where
  nil : Entries
  file : Dirent → ℕ → Entries → Entries
  dir : Dirent → Entries → Entries → Entries
  dots : Dirent → Entries → Entries

abbrev pub dirents : Entries → List Dirent
dirents nil = []
dirents (file d n es) = d ∷ dirents es
dirents (dir d sub es) = d ∷ dirents es
dirents (dots d es) = d ∷ dirents es

abbrev pub depth : Entries → ℕ
depth nil = 0
depth (file d n es) = depth es
depth (dir d sub es) = max (suc (depth sub)) (depth es)
depth (dots d es) = depth es

-- The sum of the sizes of all files.
abbrev pub size : Entries → ℕ
size nil = 0
size (file d n es) = n + size es
size (dir d sub es) = size sub + size es
size (dots d es) = size es

-- `xs` in front of `ys`.
abbrev pub append : Entries → Entries → Entries
append nil ys = ys
append (file d n es) ys = file d n (append es ys)
append (dir d sub es) ys = dir d sub (append es ys)
append (dots d es) ys = dots d (append es ys)

-- What the loop adds up, with no wrap-around; `cur` is what the entry before has left.
abbrev counted : ℕ → Entries → ℕ
counted cur nil = 0
counted cur (file d n es) = n + counted n es
counted cur (dir d sub es) = (cur + counted 0 sub) + counted (cur + counted 0 sub) es
counted cur (dots d es) = counted cur es

-- No directory has an entry in front of it.
abbrev pub FilesOnly : Entries → Type 0
FilesOnly nil = Unit
FilesOnly (file d n es) = FilesOnly es
FilesOnly (dir d sub es) = ⊥
FilesOnly (dots d es) = FilesOnly es

abbrev pub DirFirst : Entries → Type 0
DirFirst nil = Unit
DirFirst (file d n es) = FilesOnly es
DirFirst (dir d sub es) = DirFirst sub × FilesOnly es
DirFirst (dots d es) = DirFirst es

-- The host shows these entries at `path`.
abbrev pub Each : {W : Type 0} → Posix W → W → Text → Entries → Type 0
Each host w path nil = Unit
Each host w path (file d n es) =
    (is_dots d.name ≡ false)
    × (host.stat (join path d.name) w ≡ some (false, n))
    × (n < 2 ^ 64)
    × Each host w path es
Each host w path (dir d sub es) =
    (is_dots d.name ≡ false)
    × ((s : ℕ) × (host.stat (join path d.name) w ≡ some (true, s)))
    × (host.opendir (join path d.name) w ≡ inr (dirents sub))
    × Each host w (join path d.name) sub
    × Each host w path es
Each host w path (dots d es) = (is_dots d.name ≡ true) × Each host w path es

counted_files : (c : ℕ) (es : Entries) → FilesOnly es → counted c es ≡ size es
counted_files c nil h = refl
counted_files c (file d n es) h = omega (arith, counted_files n es h)
counted_files c (dir d sub es) h = absurd h
counted_files c (dots d es) h = counted_files c es h

counted_exact : (es : Entries) → DirFirst es → counted 0 es ≡ size es
counted_exact nil h = refl
counted_exact (file d n es) h = omega (arith, counted_files n es h)
counted_exact (dir d sub es) h =
    omega (arith, counted_exact sub h.0, counted_files (0 + counted 0 sub) es h.1)
counted_exact (dots d es) h = counted_exact es h

size-le-counted : (c : ℕ) (es : Entries) → size es ≤ counted c es
size-le-counted c nil = omega arith
size-le-counted c (file d n es) = omega (arith, size-le-counted n es)
size-le-counted c (dir d sub es) =
    omega (arith, size-le-counted 0 sub, size-le-counted (c + counted 0 sub) es)
size-le-counted c (dots d es) = size-le-counted c es

-- A directory behind a file of `n` bytes counts these `n` bytes again.
counted_twice :
    (c : ℕ) (before : Entries) (d d' : Dirent) (n : ℕ) (sub es : Entries)
    → size (append before (file d n (dir d' sub es))) + n
      ≤ counted c (append before (file d n (dir d' sub es)))
counted_twice c nil d d' n sub es =
    omega (arith, size-le-counted 0 sub, size-le-counted (n + counted 0 sub) es)
counted_twice c (file e k before) d d' n sub es =
    omega (arith, counted_twice k before d d' n sub es)
counted_twice c (dir e inner before) d d' n sub es =
    omega (arith, size-le-counted 0 inner, counted_twice (c + counted 0 inner) before d d' n sub es)
counted_twice c (dots e before) d d' n sub es = counted_twice c before d d' n sub es

module _ {W : Type 0} (host : Posix W) (w : W) where
  one_file :
      (below : Text → ℕ → Option (Bool × ℕ)) (path : Text) (d : Dirent) (n : ℕ) (es : List Dirent)
      (cur sum : ℕ)
      → is_dots d.name ≡ false
      → host.stat (join path d.name) w ≡ some (false, n)
      → scan_entries host below path w (d ∷ es) cur sum
        ≡ scan_entries host below path w es n (add_u64 sum n)
  unfolding scan_entries
  one_file below path d n es cur sum h s =
      rw
        (
          scan_entries,
          h,
          if◌then◌else◌,
          is_dir-some host (join path d.name) w s,
          file_size-some host (join path d.name) w s,
        )
        refl

  one_dir :
      (below : Text → ℕ → Option (Bool × ℕ)) (path : Text) (d : Dirent) (s k : ℕ) (es : List Dirent)
      (cur sum : ℕ)
      → is_dots d.name ≡ false
      → host.stat (join path d.name) w ≡ some (true, s)
      → below (join path d.name) cur ≡ some (true, k)
      → scan_entries host below path w (d ∷ es) cur sum
        ≡ scan_entries host below path w es k (add_u64 sum k)
  unfolding scan_entries
  one_dir below path d s k es cur sum h st b =
      rw (scan_entries, h, if◌then◌else◌, is_dir-some host (join path d.name) w st, b, ◌>>=◌) refl

  skip_dots :
      (below : Text → ℕ → Option (Bool × ℕ)) (path : Text) (d : Dirent) (es : List Dirent)
      (cur sum : ℕ)
      → is_dots d.name ≡ true
      → scan_entries host below path w (d ∷ es) cur sum ≡ scan_entries host below path w es cur sum
  unfolding scan_entries
  skip_dots below path d es cur sum h = rw (scan_entries, h, if◌then◌else◌) refl

  open_dir :
      (fuel : ℕ) (path : Text) (es : List Dirent) (sum : ℕ)
      → host.opendir path w ≡ inr es
      → add_dir_size host (suc fuel) w path sum
        ≡ scan_entries host (add_dir_size host fuel w) path w es 0 sum
  unfolding add_dir_size
  open_dir fuel path es sum h = rw (add_dir_size, h) refl

  scan_counts :
      (es : Entries) (fuel : ℕ) (path : Text) (cur sum : ℕ)
      → depth es ≤ fuel
      → Each host w path es
      → scan_entries host (add_dir_size host fuel w) path w (dirents es) (u64 cur) (u64 sum)
        ≡ some (true, u64 (sum + counted cur es))
  scan_counts nil fuel path cur sum deep h =
      let e : sum + 0 ≡ sum = omega arith in rw e (unfold scan_entries in refl)
  scan_counts (file d n es) fuel path cur sum deep h =
      let e : add_u64 (u64 sum) n ≡ u64 (sum + n) = omega arith in
      let v : n ≡ u64 n = omega arith in
      let f : sum + n + counted n es ≡ sum + (n + counted n es) = omega arith in
      let S : ℕ → ℕ → Option (Bool × ℕ) =
        scan_entries host (add_dir_size host fuel w) path w (dirents es) in
      one_file (add_dir_size host fuel w) path d n (dirents es) (u64 cur) (u64 sum) h.0 h.1
      ∙ ap (S n) e
      ∙ ap (λ c. S c (u64 (sum + n))) v
      ∙ scan_counts es fuel path n (sum + n) deep h.3
      ∙ ap (λ k. some (true, u64 k)) f
  scan_counts (dots d es) fuel path cur sum deep h =
      skip_dots (add_dir_size host fuel w) path d (dirents es) (u64 cur) (u64 sum) h.0
      ∙ scan_counts es fuel path cur sum deep h.1
  scan_counts (dir d sub es) zero path cur sum deep h = absurd (omega arith)
  scan_counts (dir d sub es) (suc fuel) path cur sum deep h =
      let (s, st) = h.1 in
      let k : ℕ = cur + counted 0 sub in
      let b : add_dir_size host (suc fuel) w (join path d.name) (u64 cur) ≡ some (true, u64 k) =
        open_dir fuel (join path d.name) (dirents sub) (u64 cur) h.2
        ∙ scan_counts sub fuel (join path d.name) 0 cur (omega arith) h.3 in
      let e : add_u64 (u64 sum) (u64 k) ≡ u64 (sum + k) = omega arith in
      let f : sum + k + counted k es ≡ sum + (k + counted k es) = omega arith in
      one_dir (add_dir_size host (suc fuel) w) path d s (u64 k) (dirents es) (u64 cur) (u64 sum) h.0
        st b
      ∙ ap (scan_entries host (add_dir_size host (suc fuel) w) path w (dirents es) (u64 k)) e
      ∙ scan_counts es (suc fuel) path k (sum + k) (omega arith) h.4
      ∙ ap (λ j. some (true, u64 j)) f

  reports :
      (es : Entries) (fuel : ℕ) (src : Text)
      → depth es < fuel
      → host.opendir src w ≡ inr (dirents es)
      → Each host w src es
      → get_dir_size host fuel w src ≡ some (true, u64 (counted 0 es))
  unfolding get_dir_size
  reports es zero src deep shown each = absurd (omega arith)
  reports es (suc fuel) src deep shown each =
      open_dir fuel src (dirents es) 0 shown
      ∙ scan_counts es fuel src 0 0 (omega arith) each
      ∙ ap (λ k. some (true, u64 k)) (omega arith)

  -- On a host that shows the entries `es` at `src`, in which every directory is the first entry of
  -- its parent after "." and "..", which may stand anywhere, with fuel for more levels than the directories are deep: get_dir_size returns 0 and
  -- stores the sum of the sizes of all files at every depth, modulo 2 ^ 64.
  pub exact_size :
      (es : Entries) (fuel : ℕ) (src : Text)
      → depth es < fuel
      → host.opendir src w ≡ inr (dirents es)
      → Each host w src es
      → DirFirst es
      → get_dir_size host fuel w src ≡ some (true, u64 (size es))
  exact_size es fuel src deep shown each first =
      reports es fuel src deep shown each ∙ ap (λ k. some (true, u64 k)) (counted_exact es first)

  -- Where a directory is listed right behind a file of `n` bytes, at any place among the entries at
  -- `src`, get_dir_size returns 0 and stores, modulo 2 ^ 64, a number that exceeds the sum of the
  -- sizes of all files by `n` or more. There is fuel for more levels than the directories are deep.
  counts_twice :
      (before : Entries) (d d' : Dirent) (n : ℕ) (sub after : Entries) (fuel : ℕ) (src : Text)
      → depth (append before (file d n (dir d' sub after))) < fuel
      → host.opendir src w ≡ inr (dirents (append before (file d n (dir d' sub after))))
      → Each host w src (append before (file d n (dir d' sub after)))
      → (k : ℕ) × (get_dir_size host fuel w src ≡ some (true, u64 k))
        × (size (append before (file d n (dir d' sub after))) + n ≤ k)
  counts_twice before d d' n sub after fuel src deep shown each =
      let es : Entries = append before (file d n (dir d' sub after)) in
      (counted 0 es, reports es fuel src deep shown each, counted_twice 0 before d d' n sub after)
